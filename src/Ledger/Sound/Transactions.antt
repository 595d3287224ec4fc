-- ===== src/Ledger/Sound/Transactions.antt =====
-- The invariant, a transaction of image_processor/ledger/ledger.py and the compare-and-set in it.
use image_processor.Base.{ℕ, ◌≡◌, ◌≢◌, inl, inr, true, Option, some, List, arith, Bool-cases}
use image_processor.Types.{Text, JobState, published}
use image_processor.Ledger.Store.{Ledger, Txn, Result, ok, err, finish, write}
use image_processor.Ledger.Store.Rules.{Ends}
use image_processor.Ledger.Jobs.{Field, set_state, transition}
use image_processor.Ledger.Jobs.Moves.{set_state-Ends}
use image_processor.Ledger.Outbox.{outstanding}
use image_processor.Ledger.Sound.{
  IsSound, IsSoundBut, Sound, is_past, is_early, is_cleaning, rows_of, has_intent,
}
use image_processor.Ledger.Sound.Moves.{move-IsSound, IsSound-but}
use image_processor.Ledger.Sound.Edges.{edge_ends, edge_cleans, edge_early, edge_past}

finish-Sound :
    {A : Type 0} (l : Ledger) (r : Result A × Ledger)
    → Ends (λ _ l'. IsSound l.reserve_budget_bytes l'.db) r
    → Sound l
    → Sound (finish l r).1
finish-Sound l (ok a, l') h s = h
finish-Sound l (err e, l') h s = s

-- A transaction that ends well leaves a sound database, or is rolled back.
pub write-Sound :
    {A : Type 0} (fn : Txn A) (l : Ledger)
    → Ends (λ _ l'. IsSound l.reserve_budget_bytes l'.db) (fn l)
    → Sound l
    → Sound (write fn l).1
unfolding write
write-Sound fn l h s = elim (Bool-cases l.closed) [
  | inl e ↦ simp e s
  | inr e ↦ simp e (finish-Sound l (fn l) h s)
]

module _ (ident : Text) {budget : ℕ} where
  -- A compare-and-set ends in a sound database if the database was sound but for the messages and
  -- the intent of its own job, and these fit the new state.
  pub set_state-repairs :
      (expected : Option JobState) (new : JobState) (fields : List Field) (l : Ledger)
      → (has_intent ident l.db ≡ true → is_cleaning (some new) ≡ true)
      → (is_past (some new) ≡ true → outstanding ident l.db ≡ 0)
      → (is_early (some new) ≡ true → rows_of ident l.db ≡ 0)
      → IsSoundBut ident budget l.db
      → Ends (λ _ l'. IsSound budget l'.db) (set_state ident expected new fields l)
  set_state-repairs expected new fields l cleans past early s =
      set_state-Ends (λ _ l'. IsSound budget l'.db) ident expected new fields l
        λ row found fits legal j.
          move-IsSound ident new fields (l.clock l.readings) l.db found
            (edge_ends row.state new legal) cleans past early s

  -- A compare-and-set keeps the database sound, if a job that becomes PUBLISHED has no gating
  -- message outstanding.
  pub set_state-IsSound :
      (expected : Option JobState) (new : JobState) (fields : List Field) (l : Ledger)
      → (new ≡ published → outstanding ident l.db ≡ 0)
      → IsSound budget l.db
      → Ends (λ _ l'. IsSound budget l'.db) (set_state ident expected new fields l)
  set_state-IsSound expected new fields l quiet s =
      set_state-Ends (λ _ l'. IsSound budget l'.db) ident expected new fields l
        λ row found fits legal j.
          move-IsSound ident new fields (l.clock l.readings) l.db found
            (edge_ends row.state new legal)
            (λ h. edge_cleans row.state new legal (ground (arith, s.intended ident h, found)))
            (λ h. elim (edge_past row.state new legal h) [
              | inl p ↦ s.confirmed ident (ground (arith, found, p))
              | inr e ↦ quiet e
            ])
            (λ h. s.unprepared ident (ground (arith, found, edge_early row.state new legal h)))
            (IsSound-but ident s)

pub transition-Sound :
    (ident : Text) (expected new : JobState) (fields : List Field) (l : Ledger)
    → new ≢ published
    → Sound l
    → Sound (transition ident expected new fields l).1
unfolding transition
transition-Sound ident expected new fields l other s =
    write-Sound (set_state ident (some expected) new fields) l
      (set_state-IsSound ident (some expected) new fields l (λ e. absurd (other e)) s) s
