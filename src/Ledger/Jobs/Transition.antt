-- ===== src/Ledger/Jobs/Transition.antt =====
-- The compare-and-set of image_processor/ledger/ledger.py (`transition`, `_set_state`).

use image_processor.Base.{
  ℕ, ◌≡◌, refl, sym, ◌∙◌, ap, ◌↔◌, inl, inr, Bool, true, false, Option, none, some, List, arith,
  Bool-cases, Option-cases,
}
use image_processor.Table.{find}
use image_processor.Table.Laws.{find-update}
use image_processor.Types.{Text, JobState, is_terminal}
use image_processor.Ledger.Schema.{JobRow, Db, row_to_job}
use image_processor.Ledger.Store.{Ledger, Result, ok, err, Txn, finish, write}
use image_processor.Ledger.Store.Rules.{Ends}
use image_processor.Ledger.Jobs.{
  Field, any_unknown, assign, put_state, release, fetch_job, is_unexpected, set_state, transition,
}
use image_processor.Ledger.Jobs.Moves.{
  status, is_refused, moved, after_move, status-put_state, status-release, set_state-Ends,
}

abbrev pub is_ok : {A : Type 0} → Result A → Bool
is_ok (ok a) = true
is_ok (err e) = false

-- A call that returned, and what holds of those that do.
pub Ends-is_ok :
    {A : Type 0} (Q : Ledger → Type 0) (r : Result A × Ledger)
    → Ends (λ _ l'. Q l') r
    → is_ok r.0 ≡ true
    → Q r.1
Ends-is_ok Q (ok a, l) h e = h
Ends-is_ok Q (err d, l) h e = cc

finish-is_ok : {A : Type 0} (l : Ledger) (r : Result A × Ledger) → is_ok (finish l r).0 ≡ is_ok r.0
finish-is_ok l (ok a, l') = refl
finish-is_ok l (err e, l') = refl

finish-db :
    {A : Type 0} (l : Ledger) (r : Result A × Ledger)
    → is_ok r.0 ≡ true
    → (finish l r).1.db ≡ r.1.db
finish-db l (ok a, l') h = refl
finish-db l (err e, l') h = cc

pub write-is_ok :
    {A : Type 0} (fn : Txn A) (l : Ledger)
    → l.closed ≡ false
    → is_ok (write fn l).0 ≡ is_ok (fn l).0
unfolding write
write-is_ok fn l h = simp h (finish-is_ok l (fn l))

pub write-db :
    {A : Type 0} (fn : Txn A) (l : Ledger)
    → l.closed ≡ false
    → is_ok (fn l).0 ≡ true
    → (write fn l).1.db ≡ (fn l).1.db
unfolding write
write-db fn l h e = simp h (finish-db l (fn l) e)

pub find-moved :
    (ident : Text) (new : JobState) (fields : List Field) (l : Ledger)
    → find ident (moved ident new fields l).db.jobs
      ≡ find ident (put_state ident new fields (l.clock l.readings) l.db).jobs
unfolding release
find-moved ident new fields l = elim (Bool-cases (is_terminal new)) [
  | inl e ↦ rw e refl
  | inr e ↦ rw e refl
]

fetch_job-ok :
    (ident : Text) (row : JobRow) (l : Ledger)
    → find ident l.db.jobs ≡ some row
    → fetch_job ident l ≡ (ok (row_to_job ident row), l)
unfolding fetch_job
fetch_job-ok ident row l h = rw h refl

-- What the compare-and-set writes to the row of its job.
abbrev pub moved_row : JobState → List Field → ℕ → JobRow → JobRow
moved_row new fields now row = assign fields (record row { state = new; updated_at_ms = now })

pub find-put_state :
    (ident : Text) (new : JobState) (fields : List Field) (now : ℕ) (row : JobRow) (d : Db)
    → find ident d.jobs ≡ some row
    → find ident (put_state ident new fields now d).jobs ≡ some (moved_row new fields now row)
unfolding put_state
find-put_state ident new fields now row d h =
    rw (find-update ident ident (moved_row new fields now) d.jobs, h) (ground arith)

-- A compare-and-set on a job in the expected state, along an edge that is allowed, goes through.
pub set_state-ok :
    (ident : Text) (expected : Option JobState) (new : JobState) (fields : List Field)
    (row : JobRow) (l : Ledger)
    → any_unknown fields ≡ false
    → find ident l.db.jobs ≡ some row
    → is_unexpected expected row.state ≡ false
    → is_refused row.state new ≡ false
    → set_state ident expected new fields l ≡ (
      ok (row_to_job ident (moved_row new fields (l.clock l.readings) row)),
      moved ident new fields l,
    )
unfolding set_state
set_state-ok ident expected new fields row l known found fits legal =
    rw (known, found, fits, legal)
      (fetch_job-ok ident (moved_row new fields (l.clock l.readings) row) (moved ident new fields l)
        (find-moved ident new fields l
          ∙ find-put_state ident new fields (l.clock l.readings) row l.db found))

-- What a transition asks of its arguments and of the job.
abbrev pub Allowed : Text → JobState → JobState → List Field → Db → Type 0
Allowed ident expected new fields d =
    (any_unknown fields ≡ false)
    × (status ident d ≡ some expected)
    × (is_refused expected new ≡ false)

set_state-Allowed :
    (ident : Text) (expected new : JobState) (fields : List Field) (l : Ledger)
    → any_unknown fields ≡ false
    → Ends
        (λ _ l'.
          Allowed ident expected new fields l.db
          × ((k : Text) → status k l'.db ≡ after_move ident new k l.db))
        (set_state ident (some expected) new fields l)
set_state-Allowed ident expected new fields l known =
    set_state-Ends _ ident (some expected) new fields l λ row found fits legal _.
      let same : row.state ≡ expected = ground arith in
      (
        (known, rw found (ap some same), rw same at legal),
        λ k.
            status-release ident new (put_state ident new fields (l.clock l.readings) l.db) k
            ∙ status-put_state ident new fields (l.clock l.readings) l.db k,
      )

set_state-is_known :
    (ident : Text) (expected : Option JobState) (new : JobState) (fields : List Field) (l : Ledger)
    → is_ok (set_state ident expected new fields l).0 ≡ true
    → any_unknown fields ≡ false
unfolding set_state
set_state-is_known ident expected new fields l h = elim (Bool-cases (any_unknown fields)) [
  | inl e ↦ let g : false ≡ true = rw e at h in cc
  | inr e ↦ e
]

-- The row that a state was read from.
status-row :
    (ident : Text) (s : JobState) (d : Db)
    → status ident d ≡ some s
    → (row : JobRow) × (find ident d.jobs ≡ some row) × (row.state ≡ s)
status-row ident s d h = elim (Option-cases (find ident d.jobs)) [
  | inl e ↦ let g : none ≡ some s = rw e at h in cc
  | inr (row, e) ↦ let g : some row.state ≡ some s = rw e at h in (row, e, ground arith)
]

Allowed-is_ok :
    (ident : Text) (expected new : JobState) (fields : List Field) (l : Ledger)
    → Allowed ident expected new fields l.db
    → is_ok (set_state ident (some expected) new fields l).0 ≡ true
Allowed-is_ok ident expected new fields l (known, at, legal) =
    let (row, found, same) = status-row ident expected l.db at in
    ap (λ r. is_ok r.0)
      (set_state-ok ident (some expected) new fields row l known found (ground arith)
        (rw same legal))

-- On an open ledger a transition goes through exactly if no field is outside the columns it may
-- set, the job is in the expected state, and that state is the new one or has an edge to it. It
-- then moves this job to the new state and leaves the state of every other job alone.
pub transition-Allowed :
    (ident : Text) (expected new : JobState) (fields : List Field) (l : Ledger)
    → l.closed ≡ false
    → ((is_ok (transition ident expected new fields l).0 ≡ true)
        ↔ Allowed ident expected new fields l.db)
      × (is_ok (transition ident expected new fields l).0 ≡ true
          → (k : Text)
          → status k (transition ident expected new fields l).1.db ≡ after_move ident new k l.db)
unfolding transition
transition-Allowed ident expected new fields l opened =
    let fn = set_state ident (some expected) new fields in
    let same = write-is_ok fn l opened in
    let both : is_ok (fn l).0 ≡ true → _ = λ h.
      Ends-is_ok
        (λ l'.
          Allowed ident expected new fields l.db
          × ((k : Text) → status k l'.db ≡ after_move ident new k l.db))
        (fn l)
        (set_state-Allowed ident expected new fields l
          (set_state-is_known ident (some expected) new fields l h))
        h in
    (
      ((λ h. (both (sym same ∙ h)).0), (λ h. same ∙ Allowed-is_ok ident expected new fields l h)),
      λ h k. ap (λ d. status k d) (write-db fn l opened (sym same ∙ h)) ∙ (both (sym same ∙ h)).1 k,
    )
