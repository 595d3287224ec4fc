-- ===== src/Ledger/Sound/Moves.antt =====
-- The invariant when one job changes its state (image_processor/ledger/ledger.py).
use image_processor.Base.{
  ℕ, ◌≤◌, ◌≡◌, refl, true, false, ◌&&◌, inl, inr, some, List, arith, ◌==◌, if◌then◌else◌,
  Bool-cases,
}
use image_processor.Table.{IsKeyed, find, sum}
use image_processor.Table.Laws.{find-delete, sum-delete-le, update-IsKeyed}
use image_processor.Types.{Text, JobState, is_terminal}
use image_processor.Ledger.Schema.{JobRow, Db}
use image_processor.Ledger.Jobs.{Field, put_state, release}
use image_processor.Ledger.Jobs.Moves.{status, status-put_state, status-release}
use image_processor.Ledger.Outbox.{outstanding}
use image_processor.Ledger.Sound.{
  IsSound, IsSoundBut, is_open, is_past, is_early, is_cleaning, held, has_intent, rows_of,
}

module _ (ident : Text) (new : JobState) (fields : List Field) (now : ℕ) {row : JobRow} (d : Db)
    (found : find ident d.jobs ≡ some row) where
  abbrev next : Db
  next = release ident new (put_state ident new fields now d)

  status-next : (k : Text) → status k next ≡ (if ident == k then some new else status k d)
  status-next k =
      rw (status-release ident new (put_state ident new fields now d) k)
        (rw (status-put_state ident new fields now d k) (ground (arith, found)))

  held-next :
      (k : Text) → held k next ≡ (if is_terminal new && (ident == k) then false else held k d)
  unfolding release put_state
  held-next k = elim (Bool-cases (is_terminal new)) [
    | inl e ↦ rw e (rw (find-delete k ident d.reservations) (ground arith))
    | inr e ↦ rw e refl
  ]

  outstanding-next : (k : Text) → outstanding k next ≡ outstanding k d
  unfolding release put_state outstanding
  outstanding-next k = elim (Bool-cases (is_terminal new)) [ inl e ↦ rw e refl | inr e ↦ rw e refl ]

  rows_of-next : (k : Text) → rows_of k next ≡ rows_of k d
  unfolding release put_state rows_of
  rows_of-next k = elim (Bool-cases (is_terminal new)) [ inl e ↦ rw e refl | inr e ↦ rw e refl ]

  has_intent-next : (k : Text) → has_intent k next ≡ has_intent k d
  unfolding release put_state
  has_intent-next k = elim (Bool-cases (is_terminal new)) [ inl e ↦ rw e refl | inr e ↦ rw e refl ]

  sum-next : sum next.reservations ≤ sum d.reservations
  unfolding release put_state
  sum-next = elim (Bool-cases (is_terminal new)) [
    | inl e ↦ rw e (sum-delete-le ident d.reservations)
    | inr e ↦ rw e (omega arith)
  ]

  IsKeyed-next : IsKeyed d.jobs → IsKeyed next.jobs
  unfolding release put_state
  IsKeyed-next h = elim (Bool-cases (is_terminal new)) [
    | inl e ↦ rw e (update-IsKeyed ident _ d.jobs h)
    | inr e ↦ rw e (update-IsKeyed ident _ d.jobs h)
  ]

  pub move-IsSound :
      {budget : ℕ}
      → (is_terminal row.state ≡ true → is_terminal new ≡ true)
      → (has_intent ident d ≡ true → is_cleaning (some new) ≡ true)
      → (is_past (some new) ≡ true → outstanding ident d ≡ 0)
      → (is_early (some new) ≡ true → rows_of ident d ≡ 0)
      → IsSoundBut ident budget d
      → IsSound budget next
  unfolding is_open
  move-IsSound ends cleans past early s = record {
    keyed = IsKeyed-next s.keyed;
    reserved =
        λ k. ground (arith, found, held-next k, status-next k, s.reserved k, s.reserved ident);
    within = omega (arith, sum-next, s.within);
    confirmed = λ k h. ground (arith, outstanding-next k, status-next k, s.confirmed k, past);
    unprepared = λ k h. ground (arith, rows_of-next k, status-next k, s.unprepared k, early);
    intended = λ k h. ground (arith, has_intent-next k, status-next k, s.intended k, cleans);
  }

-- The invariant implies its weaker form.
pub IsSound-but :
    (ident : Text) {budget : ℕ} {d : Db} → IsSound budget d → IsSoundBut ident budget d
IsSound-but ident s = record {
  keyed = s.keyed;
  reserved = s.reserved;
  within = s.within;
  confirmed = λ k _. s.confirmed k;
  unprepared = λ k _. s.unprepared k;
  intended = λ k _. s.intended k;
}

-- A change that leaves the states and the reservations alone and adds no message and no intent.
pub frame-IsSound :
    {budget : ℕ} (d e : Db)
    → IsKeyed e.jobs
    → ((k : Text) → status k e ≡ status k d)
    → e.reservations ≡ d.reservations
    → ((k : Text) → outstanding k e ≤ outstanding k d)
    → ((k : Text) → rows_of k e ≤ rows_of k d)
    → ((k : Text) → has_intent k e ≡ has_intent k d)
    → IsSound budget d
    → IsSound budget e
frame-IsSound d e keyed same held_same fewer fewer_rows intents s = record {
  keyed = keyed;
  reserved = λ k. rw (held_same, same k) (s.reserved k);
  within = rw held_same s.within;
  confirmed = λ k h. omega (arith, fewer k, s.confirmed k (rw (same k) at h));
  unprepared = λ k h. omega (arith, fewer_rows k, s.unprepared k (rw (same k) at h));
  intended = λ k h. rw (same k) (s.intended k (rw (intents k) at h));
}
