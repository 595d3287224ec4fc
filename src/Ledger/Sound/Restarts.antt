-- ===== src/Ledger/Sound/Restarts.antt =====
-- The invariant and `requeue_for_reinference` of image_processor/ledger/ledger.py.
use image_processor.Base.{
  ℕ, ◌≡◌, refl, subst, inl, inr, true, false, some, List, [], ◌∷◌, arith, Bool-cases, Option-cases,
}
use image_processor.Table.{find}
use image_processor.Table.Laws.{
  find-update, update-IsKeyed, count_where-delete_where_le, count_where-delete_where_none,
}
use image_processor.Types.{Text, JobState, is_terminal, ready}
use image_processor.Ledger.Schema.{JobRow, Db}
use image_processor.Ledger.Store.{Ledger}
use image_processor.Ledger.Store.Rules.{Ends}
use image_processor.Ledger.Jobs.{Field, put_state, release, last_error}
use image_processor.Ledger.Jobs.Moves.{status}
use image_processor.Ledger.Recovery.{
  force_state, is_invalidatable, clear_result, drop_result, requeue_for_reinference_txn,
  requeue_for_reinference,
}
use image_processor.Ledger.Outbox.{outstanding, is_outstanding}
use image_processor.Ledger.Sound.{
  IsSound, Sound, is_past, is_early, is_cleaning, is_row_of, rows_of,
}
use image_processor.Ledger.Sound.Moves.{IsSound-but, frame-IsSound, move-IsSound}
use image_processor.Ledger.Recovery.Loops.{is_restartable, force_state-Ends}
use image_processor.Ledger.Sound.Transactions.{write-Sound}

pub restartable_facts :
    (s : JobState)
    → is_restartable (some s) ≡ true
    → (is_terminal s ≡ false) × (is_cleaning (some s) ≡ false) × (is_early (some s) ≡ true)
unfolding is_terminal is_cleaning is_early
restartable_facts s h = ground arith

invalidatable_facts :
    (s : JobState)
    → is_invalidatable s ≡ true
    → (is_terminal s ≡ false) × (is_cleaning (some s) ≡ false)
unfolding is_terminal is_cleaning
invalidatable_facts s h = ground arith

pub drop_result-state :
    (ident : Text) (row : JobRow) (d : Db)
    → find ident d.jobs ≡ some row
    → (r : JobRow) → find ident (drop_result ident d).jobs ≡ some r
    → r.state ≡ row.state
unfolding drop_result
drop_result-state ident row d found r h =
    ground (arith, find-update ident ident clear_result d.jobs)

rows_of-drop_result : (ident : Text) (d : Db) → rows_of ident (drop_result ident d) ≡ 0
unfolding rows_of drop_result
rows_of-drop_result ident d = count_where-delete_where_none (is_row_of ident) _ d.outbox (λ e h. h)

dropped_facts :
    (ident : Text) (row : JobRow) (d : Db)
    → find ident d.jobs ≡ some row
    → is_invalidatable row.state ≡ true
    → (r : JobRow) → find ident (drop_result ident d).jobs ≡ some r
    → (is_terminal r.state ≡ false)
      × (is_cleaning (some r.state) ≡ false)
      × (rows_of ident (drop_result ident d) ≡ 0)
dropped_facts ident row d found e r h =
    let same = drop_result-state ident row d found r h in
    let (running, clean) = invalidatable_facts row.state e in
    (rw same running, rw same clean, rows_of-drop_result ident d)

pub release_ready : (ident : Text) (d : Db) → release ident ready d ≡ d
unfolding release is_terminal
release_ready ident d = refl

module _ {budget : ℕ} where
  -- A job that is neither ended nor under cleanup and has no messages goes back to READY.
  pub back_to_ready-IsSound :
      (ident : Text) (fields : List Field) (now : ℕ) (row : JobRow) (d : Db)
      → find ident d.jobs ≡ some row
      → is_terminal row.state ≡ false
      → is_cleaning (some row.state) ≡ false
      → rows_of ident d ≡ 0
      → IsSound budget d
      → IsSound budget (put_state ident ready fields now d)
  unfolding is_past
  back_to_ready-IsSound ident fields now row d found running clean bare s =
      subst (IsSound budget) (release_ready ident (put_state ident ready fields now d)) (
        move-IsSound ident ready fields now d found (λ h. cc)
          (λ h. absurd (cc' (s.intended ident h))) (λ h. cc) (λ _. bare) (IsSound-but ident s))
    where
      cc' : is_cleaning (status ident d) ≡ true → ⊥
      cc' h = ground (arith, found)

  force_state-IsSound :
      (ident : Text) (current : JobState) (fields : List Field) (l : Ledger)
      → ((row : JobRow)
          → find ident l.db.jobs ≡ some row
          → (is_terminal row.state ≡ false)
            × (is_cleaning (some row.state) ≡ false)
            × (rows_of ident l.db ≡ 0))
      → IsSound budget l.db
      → Ends (λ _ l'. IsSound budget l'.db) (force_state ident current ready fields l)
  force_state-IsSound ident current fields l facts s =
      force_state-Ends (λ _ l'. IsSound budget l'.db) ident current fields l
        λ row found _.
          let (running, clean, bare) = facts row found in
          back_to_ready-IsSound ident fields (l.clock l.readings) row l.db found running clean bare
            s

  drop_result-IsSound :
      (ident : Text) (d : Db) → IsSound budget d → IsSound budget (drop_result ident d)
  unfolding drop_result outstanding rows_of
  drop_result-IsSound ident d s =
      frame-IsSound d (drop_result ident d) (update-IsKeyed ident _ d.jobs s.keyed)
        (λ k. elim (Option-cases (find k d.jobs)) [
          | inl e ↦ rw (find-update k ident _ d.jobs, e) (ground arith)
          | inr (r, e) ↦ rw (find-update k ident _ d.jobs, e) (ground arith)
        ])
        refl (λ k. count_where-delete_where_le (is_outstanding k) _ d.outbox)
        (λ k. count_where-delete_where_le (is_row_of k) _ d.outbox) (λ k. refl) s

  pub requeue_for_reinference_txn-IsSound :
      (ident reason : Text) (l : Ledger)
      → IsSound budget l.db
      → Ends (λ _ l'. IsSound budget l'.db) (requeue_for_reinference_txn ident reason l)
  unfolding requeue_for_reinference_txn
  requeue_for_reinference_txn-IsSound ident reason l s =
      elim (Option-cases (find ident l.db.jobs)) [
        | inl e ↦ rw e tt
        | inr (row, found) ↦ rw found (elim (Bool-cases (is_invalidatable row.state)) [
          | inr e ↦ rw e tt
          | inl e ↦ rw e (
              force_state-IsSound ident row.state (last_error (some reason) ∷ [])
                (record l { db = drop_result ident l.db }) (dropped_facts ident row l.db found e)
                (drop_result-IsSound ident l.db s))
        ])
      ]

pub requeue_for_reinference-Sound :
    (ident reason : Text) (l : Ledger) → Sound l → Sound (requeue_for_reinference ident reason l).1
unfolding requeue_for_reinference
requeue_for_reinference-Sound ident reason l s =
    write-Sound (requeue_for_reinference_txn ident reason) l
      (requeue_for_reinference_txn-IsSound ident reason l s) s
