-- ===== src/Ledger/Sound/Results.antt =====
-- The invariant and `commit_result`, `mark_published`, `mark_publish_attempt`, `exhaust_publish` and
-- `retry_publication` of image_processor/ledger/ledger.py.
use image_processor.Base.{
  ℕ, suc, ◌≡◌, inl, inr, true, Option, some, List, [], arith, ◌==◌, Bool-cases, Option-cases,
}
use image_processor.Table.{find}
use image_processor.Types.{
  Text, Bytes, is, inferencing, result_committed, publish_pending, published, publish_exhausted,
}
use image_processor.Ledger.Schema.{JobRow, Db}
use image_processor.Ledger.Store.{Ledger, ◌>>=◌, ◌>>◌, pure, execute}
use image_processor.Ledger.Store.Rules.{Ends, Ends-bind, Ends-map}
use image_processor.Ledger.Jobs.{set_state}
use image_processor.Ledger.Outbox.{
  OutboxRow, advance_if_rows, commit_result_txn, commit_result, outstanding, confirm,
  finish_publication, mark_published_txn, mark_published, is_unpublished, mark_publish_attempt_txn,
  mark_publish_attempt, exhaust_publish, reset_attempts, retry_publication_txn, retry_publication,
}
use image_processor.Ledger.Sound.{
  IsSound, IsSoundBut, has_intent, Sound, is_past, is_early, is_cleaning,
}
use image_processor.Ledger.Sound.Moves.{IsSound-but}
use image_processor.Ledger.Sound.Transactions.{
  write-Sound, set_state-repairs, set_state-IsSound, transition-Sound,
}
use image_processor.Ledger.Sound.Publication.{
  store_result-IsSound, insert_rows-But, intents-insert_rows, intents-store_result,
  advance_if_rows-IsSound, confirm-IsSound, count_attempt-IsSound, reset_attempts-IsSound,
}

module _ {budget : ℕ} where
  -- The end of `commit_result`, from a job that is INFERENCING.
  commit_tail-IsSound :
      (ident : Text) (rows : List OutboxRow) (l : Ledger)
      → ¬ (has_intent ident l.db ≡ true)
      → IsSoundBut ident budget l.db
      → Ends
          (λ _ l'. IsSound budget l'.db)
          ((set_state ident (some inferencing) result_committed [] >>= λ _.
              advance_if_rows ident rows)
            l)
  unfolding is_past is_early
  commit_tail-IsSound ident rows l none_open s =
      Ends-bind (λ _ l'. IsSound budget l'.db)
        (set_state ident (some inferencing) result_committed []) (λ _. advance_if_rows ident rows) l
        (Ends-map (λ _ l'. IsSound budget l'.db) _
          (set_state ident (some inferencing) result_committed [] l)
          (λ _ l'. advance_if_rows-IsSound ident rows l')
          (set_state-repairs ident (some inferencing) result_committed [] l
            (λ h. absurd (none_open h)) (λ h. cc) (λ h. cc) s))

  no_intent :
      (ident : Text) (row : JobRow) (d : Db)
      → find ident d.jobs ≡ some row
      → is row.state inferencing ≡ true
      → IsSound budget d
      → ¬ (has_intent ident d ≡ true)
  unfolding is_cleaning
  no_intent ident row d found e s h = ground (arith, s.intended ident h)

  commit_result_txn-IsSound :
      (sha256 : Bytes → Text) (ident : Text) (result : Bytes) (sidecar : Option (Text × Text))
      (rows : List OutboxRow) (l : Ledger)
      → IsSound budget l.db
      → Ends (λ _ l'. IsSound budget l'.db) (commit_result_txn sha256 ident result sidecar rows l)
  unfolding commit_result_txn
  commit_result_txn-IsSound sha256 ident result sidecar rows l s =
      elim (Option-cases (find ident l.db.jobs)) [
        | inl e ↦ rw e tt
        | inr (row, found) ↦ rw found (elim (Bool-cases (is row.state inferencing)) [
          | inl e ↦ rw e (
              commit_tail-IsSound ident rows _
                (λ h.
                  no_intent ident row l.db found e s
                    (rw (intents-insert_rows ident rows _, intents-store_result) at h))
                (insert_rows-But ident rows _ (
                  IsSound-but ident (
                    store_result-IsSound ident result (sha256 result) sidecar (l.clock l.readings)
                      l.db s))))
          | inr e ↦ rw e tt
        ])
      ]

  finish_publication-IsSound :
      (ident : Text) (l : Ledger)
      → outstanding ident l.db ≡ 0
      → IsSound budget l.db
      → Ends (λ _ l'. IsSound budget l'.db) (finish_publication ident l)
  unfolding finish_publication
  finish_publication-IsSound ident l quiet s = elim (Option-cases (find ident l.db.jobs)) [
    | inl e ↦ rw e tt
    | inr (row, found) ↦ rw found (elim (Bool-cases (is row.state publish_pending)) [
      | inl e ↦ rw e (
          Ends-bind (λ _ l'. IsSound budget l'.db)
            (set_state ident (some publish_pending) published []) (λ _. pure tt) l
            (set_state-IsSound ident (some publish_pending) published [] l (λ _. quiet) s))
      | inr e ↦ rw e s
    ])
  ]

  mark_published_txn-IsSound :
      (outbox_id : ℕ) (l : Ledger)
      → IsSound budget l.db
      → Ends (λ _ l'. IsSound budget l'.db) (mark_published_txn outbox_id l)
  unfolding mark_published_txn
  mark_published_txn-IsSound outbox_id l s = elim (Option-cases (find outbox_id l.db.outbox)) [
    | inl e ↦ rw e tt
    | inr (entry, found) ↦
        let d = confirm outbox_id (l.clock l.readings) l.db in
        let after : Ledger = record l { readings = suc l.readings; db = d } in
        let sound = confirm-IsSound outbox_id (l.clock l.readings) l.db s in
        rw found (elim (Bool-cases (outstanding entry.inference_id d == 0)) [
          | inl e ↦ rw e (finish_publication-IsSound entry.inference_id after (ground arith) sound)
          | inr e ↦ rw e sound
        ])
  ]

  mark_publish_attempt_txn-IsSound :
      (outbox_id : ℕ) (error : Text) (l : Ledger)
      → IsSound budget l.db
      → Ends (λ _ l'. IsSound budget l'.db) (mark_publish_attempt_txn outbox_id error l)
  unfolding mark_publish_attempt_txn
  mark_publish_attempt_txn-IsSound outbox_id error l s =
      elim (Bool-cases (is_unpublished (find outbox_id l.db.outbox))) [
        | inl e ↦ rw e (count_attempt-IsSound outbox_id error l.db s)
        | inr e ↦ rw e tt
      ]

  retry_publication_txn-IsSound :
      (ident : Text) (l : Ledger)
      → IsSound budget l.db
      → Ends (λ _ l'. IsSound budget l'.db) (retry_publication_txn ident l)
  unfolding retry_publication_txn
  retry_publication_txn-IsSound ident l s =
      Ends-bind (λ _ l'. IsSound budget l'.db)
        (set_state ident (some publish_exhausted) publish_pending [])
        (λ job. execute (reset_attempts ident) >> pure job) l
        (Ends-map (λ _ l'. IsSound budget l'.db) _
          (set_state ident (some publish_exhausted) publish_pending [] l)
          (λ _ l'. reset_attempts-IsSound ident l'.db)
          (set_state-IsSound ident (some publish_exhausted) publish_pending [] l (λ e. cc) s))

pub commit_result-Sound :
    (sha256 : Bytes → Text) (ident : Text) (result : Bytes) (sidecar : Option (Text × Text))
    (rows : List OutboxRow) (l : Ledger)
    → Sound l
    → Sound (commit_result sha256 ident result sidecar rows l).1
unfolding commit_result
commit_result-Sound sha256 ident result sidecar rows l s =
    write-Sound (commit_result_txn sha256 ident result sidecar rows) l
      (commit_result_txn-IsSound sha256 ident result sidecar rows l s) s

pub mark_published-Sound :
    (outbox_id : ℕ) (l : Ledger) → Sound l → Sound (mark_published outbox_id l).1
unfolding mark_published
mark_published-Sound outbox_id l s =
    write-Sound (mark_published_txn outbox_id) l (mark_published_txn-IsSound outbox_id l s) s

pub mark_publish_attempt-Sound :
    (outbox_id : ℕ) (error : Text) (l : Ledger)
    → Sound l
    → Sound (mark_publish_attempt outbox_id error l).1
unfolding mark_publish_attempt
mark_publish_attempt-Sound outbox_id error l s =
    write-Sound (mark_publish_attempt_txn outbox_id error) l
      (mark_publish_attempt_txn-IsSound outbox_id error l s) s

pub exhaust_publish-Sound :
    (ident : Text) (l : Ledger) → Sound l → Sound (exhaust_publish ident l).1
unfolding exhaust_publish
exhaust_publish-Sound ident l s =
    transition-Sound ident publish_pending publish_exhausted [] l (λ e. cc) s

pub retry_publication-Sound :
    (ident : Text) (l : Ledger) → Sound l → Sound (retry_publication ident l).1
unfolding retry_publication
retry_publication-Sound ident l s =
    write-Sound (retry_publication_txn ident) l (retry_publication_txn-IsSound ident l s) s
