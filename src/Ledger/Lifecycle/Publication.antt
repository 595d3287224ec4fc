-- ===== src/Ledger/Lifecycle/Publication.antt =====
-- The lifecycle and the result and outbox calls of image_processor/ledger/ledger.py.
use image_processor.Base.{
  ℕ, suc, ◌≡◌, refl, inl, inr, Option, some, List, [], ◌∷◌, arith, ◌==◌, Bool-cases, Option-cases,
}
use image_processor.Table.{find}
use image_processor.Table.Laws.{find-update}
use image_processor.Types.{
  Text, Bytes, JobState, is, inferencing, result_committed, publish_pending, published,
  publish_exhausted,
}
use image_processor.Ledger.Schema.{Db}
use image_processor.Ledger.Store.{Ledger, ◌>>=◌, ◌>>◌, pure, execute}
use image_processor.Ledger.Store.Rules.{Ends, Ends-bind, Ends-map}
use image_processor.Ledger.Jobs.{Field, set_state, transition}
use image_processor.Ledger.Jobs.Moves.{status}
use image_processor.Ledger.Outbox.{
  OutboxRow, insert_outbox_row, insert_outbox_rows, store_result, advance_if_rows,
  commit_result_txn, commit_result, outstanding, confirm, finish_publication, mark_published_txn,
  mark_published, is_unpublished, mark_publish_attempt_txn, mark_publish_attempt, exhaust_publish,
  reset_attempts, retry_publication_txn, retry_publication,
}
use image_processor.Ledger.Lifecycle.{Follows, same_states, set_state-Follows, write-Follows}

status-insert_rows :
    (ident : Text) (rows : List OutboxRow) (d : Db) (k : Text)
    → status k (insert_outbox_rows ident rows d) ≡ status k d
unfolding insert_outbox_rows insert_outbox_row
status-insert_rows ident [] d k = refl
status-insert_rows ident (row ∷ rows) d k =
    status-insert_rows ident rows (insert_outbox_row ident row d) k

status-store_result :
    (ident : Text) (result : Bytes) (digest : Text) (sidecar : Option (Text × Text)) (now : ℕ)
    (d : Db) (k : Text)
    → status k (store_result ident result digest sidecar now d) ≡ status k d
unfolding store_result
status-store_result ident result digest sidecar now d k = elim (Option-cases (find k d.jobs)) [
  | inl e ↦ rw (find-update k ident _ d.jobs, e) (ground arith)
  | inr (r, e) ↦ rw (find-update k ident _ d.jobs, e) (ground arith)
]

module _ (d0 : Db) where
  pub transition-Follows :
      (ident : Text) (expected new : JobState) (fields : List Field) (l : Ledger)
      → Follows d0 l.db
      → Follows d0 (transition ident expected new fields l).1.db
  unfolding transition
  transition-Follows ident expected new fields l f =
      write-Follows d0 (set_state ident (some expected) new fields) l
        (set_state-Follows d0 ident (some expected) new fields l f) f

  advance_if_rows-Follows :
      (ident : Text) (rows : List OutboxRow) (l : Ledger)
      → Follows d0 l.db
      → Ends (λ _ l'. Follows d0 l'.db) (advance_if_rows ident rows l)
  advance_if_rows-Follows ident [] l f = f
  advance_if_rows-Follows ident (_ ∷ _) l f =
      Ends-bind (λ _ l'. Follows d0 l'.db)
        (set_state ident (some result_committed) publish_pending []) (λ _. pure tt) l
        (set_state-Follows d0 ident (some result_committed) publish_pending [] l f)

  commit_tail-Follows :
      (ident : Text) (rows : List OutboxRow) (l : Ledger)
      → Follows d0 l.db
      → Ends
          (λ _ l'. Follows d0 l'.db)
          ((set_state ident (some inferencing) result_committed [] >>= λ _.
              advance_if_rows ident rows)
            l)
  commit_tail-Follows ident rows l f =
      Ends-bind (λ _ l'. Follows d0 l'.db) (set_state ident (some inferencing) result_committed [])
        (λ _. advance_if_rows ident rows) l
        (Ends-map (λ _ l'. Follows d0 l'.db) _
          (set_state ident (some inferencing) result_committed [] l)
          (λ _ l'. advance_if_rows-Follows ident rows l')
          (set_state-Follows d0 ident (some inferencing) result_committed [] l f))

  commit_result_txn-Follows :
      (sha256 : Bytes → Text) (ident : Text) (result : Bytes) (sidecar : Option (Text × Text))
      (rows : List OutboxRow) (l : Ledger)
      → Follows d0 l.db
      → Ends (λ _ l'. Follows d0 l'.db) (commit_result_txn sha256 ident result sidecar rows l)
  unfolding commit_result_txn
  commit_result_txn-Follows sha256 ident result sidecar rows l f =
      elim (Option-cases (find ident l.db.jobs)) [
        | inl e ↦ rw e tt
        | inr (row, found) ↦ rw found (elim (Bool-cases (is row.state inferencing)) [
          | inl e ↦
              let now = l.clock l.readings in
              let stored = store_result ident result (sha256 result) sidecar now l.db in
              rw e (
                commit_tail-Follows ident rows _ (
                  same_states d0 stored (insert_outbox_rows ident rows stored)
                    (status-insert_rows ident rows stored)
                    (same_states d0 l.db stored
                      (status-store_result ident result (sha256 result) sidecar now l.db) f)))
          | inr e ↦ rw e tt
        ])
      ]

  finish_publication-Follows :
      (ident : Text) (l : Ledger)
      → Follows d0 l.db
      → Ends (λ _ l'. Follows d0 l'.db) (finish_publication ident l)
  unfolding finish_publication
  finish_publication-Follows ident l f = elim (Option-cases (find ident l.db.jobs)) [
    | inl e ↦ rw e tt
    | inr (row, found) ↦ rw found (elim (Bool-cases (is row.state publish_pending)) [
      | inl e ↦ rw e (
          Ends-bind (λ _ l'. Follows d0 l'.db) (set_state ident (some publish_pending) published [])
            (λ _. pure tt) l (set_state-Follows d0 ident (some publish_pending) published [] l f))
      | inr e ↦ rw e f
    ])
  ]

  mark_published_txn-Follows :
      (outbox_id : ℕ) (l : Ledger)
      → Follows d0 l.db
      → Ends (λ _ l'. Follows d0 l'.db) (mark_published_txn outbox_id l)
  unfolding mark_published_txn
  mark_published_txn-Follows outbox_id l f = elim (Option-cases (find outbox_id l.db.outbox)) [
    | inl e ↦ rw e tt
    | inr (entry, found) ↦
        let d = confirm outbox_id (l.clock l.readings) l.db in
        let after : Ledger = record l { readings = suc l.readings; db = d } in
        rw found (elim (Bool-cases (outstanding entry.inference_id d == 0)) [
          | inl e ↦ rw e (finish_publication-Follows entry.inference_id after f)
          | inr e ↦ rw e f
        ])
  ]

  mark_publish_attempt_txn-Follows :
      (outbox_id : ℕ) (error : Text) (l : Ledger)
      → Follows d0 l.db
      → Ends (λ _ l'. Follows d0 l'.db) (mark_publish_attempt_txn outbox_id error l)
  unfolding mark_publish_attempt_txn
  mark_publish_attempt_txn-Follows outbox_id error l f =
      elim (Bool-cases (is_unpublished (find outbox_id l.db.outbox))) [
        | inl e ↦ rw e f
        | inr e ↦ rw e tt
      ]

  retry_publication_txn-Follows :
      (ident : Text) (l : Ledger)
      → Follows d0 l.db
      → Ends (λ _ l'. Follows d0 l'.db) (retry_publication_txn ident l)
  unfolding retry_publication_txn
  retry_publication_txn-Follows ident l f =
      Ends-bind (λ _ l'. Follows d0 l'.db)
        (set_state ident (some publish_exhausted) publish_pending [])
        (λ job. execute (reset_attempts ident) >> pure job) l
        (set_state-Follows d0 ident (some publish_exhausted) publish_pending [] l f)

  pub commit_result-Follows :
      (sha256 : Bytes → Text) (ident : Text) (result : Bytes) (sidecar : Option (Text × Text))
      (rows : List OutboxRow) (l : Ledger)
      → Follows d0 l.db
      → Follows d0 (commit_result sha256 ident result sidecar rows l).1.db
  unfolding commit_result
  commit_result-Follows sha256 ident result sidecar rows l f =
      write-Follows d0 (commit_result_txn sha256 ident result sidecar rows) l
        (commit_result_txn-Follows sha256 ident result sidecar rows l f) f

  pub mark_published-Follows :
      (outbox_id : ℕ) (l : Ledger) → Follows d0 l.db → Follows d0 (mark_published outbox_id l).1.db
  unfolding mark_published
  mark_published-Follows outbox_id l f =
      write-Follows d0 (mark_published_txn outbox_id) l (mark_published_txn-Follows outbox_id l f) f

  pub mark_publish_attempt-Follows :
      (outbox_id : ℕ) (error : Text) (l : Ledger)
      → Follows d0 l.db
      → Follows d0 (mark_publish_attempt outbox_id error l).1.db
  unfolding mark_publish_attempt
  mark_publish_attempt-Follows outbox_id error l f =
      write-Follows d0 (mark_publish_attempt_txn outbox_id error) l
        (mark_publish_attempt_txn-Follows outbox_id error l f) f

  pub exhaust_publish-Follows :
      (ident : Text) (l : Ledger) → Follows d0 l.db → Follows d0 (exhaust_publish ident l).1.db
  unfolding exhaust_publish
  exhaust_publish-Follows ident l f =
      transition-Follows ident publish_pending publish_exhausted [] l f

  pub retry_publication-Follows :
      (ident : Text) (l : Ledger) → Follows d0 l.db → Follows d0 (retry_publication ident l).1.db
  unfolding retry_publication
  retry_publication-Follows ident l f =
      write-Follows d0 (retry_publication_txn ident) l (retry_publication_txn-Follows ident l f) f
