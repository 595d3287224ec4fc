-- ===== src/Ledger/Lifecycle/Cleanups.antt =====
-- The lifecycle and the cleanup calls of image_processor/ledger/ledger.py, the calls on values, and
-- admission.
use image_processor.Base.{
  ℕ, ◌+◌, suc, ◌≡◌, subst, inl, inr, ℤ, pos, negsuc, true, Option, none, some, [], ◌∷◌, arith, ◌==◌,
  ltb, Bool-cases, Option-cases, if◌then◌else◌,
}
use image_processor.Table.{find, sum}
use image_processor.Types.{
  Text, Job, is, is_in, CleanupIntent, input_invalid, processing_exhausted, published,
  cleanup_pending, cleanup_failed,
}
use image_processor.Ledger.Schema.{Db, is_initial}
use image_processor.Ledger.Store.{Ledger}
use image_processor.Ledger.Store.Rules.{Ends}
use image_processor.Ledger.Jobs.{last_error, insert_job, admit_txn, admit}
use image_processor.Ledger.Jobs.Moves.{status, fetch_job-Ends}
use image_processor.Ledger.Cleanup.{
  put_intent, record_cleanup_intent_txn, record_cleanup_intent, completing_edge, observe,
  complete_cleanup_txn, complete_cleanup, fail_cleanup_txn, fail_cleanup,
}
use image_processor.Ledger.Values.{set_route_generation, kv_set}
use image_processor.Ledger.Sound.Admission.{status-admitted}
use image_processor.Ledger.Lifecycle.{
  Walk, go_on, admission, Follows, set_state-Follows, write-Follows,
}

module _ (d0 : Db) where
  record_cleanup_intent_txn-Follows :
      (i : CleanupIntent) (l : Ledger)
      → Follows d0 l.db
      → Ends (λ _ l'. Follows d0 l'.db) (record_cleanup_intent_txn i l)
  unfolding record_cleanup_intent_txn
  record_cleanup_intent_txn-Follows i l f = elim (Option-cases (find i.inference_id l.db.jobs)) [
    | inl e ↦ rw e tt
    | inr (row, found) ↦
        let after : Ledger = record l {
          readings = suc l.readings;
          db = put_intent i (l.clock l.readings) l.db;
        } in
        rw found (elim (Bool-cases (is_in row.state (published ∷ cleanup_failed ∷ []))) [
          | inl e ↦
              rw e (set_state-Follows d0 i.inference_id (some row.state) cleanup_pending [] after f)
          | inr e ↦
              rw e
                (elim (Bool-cases
                  (is_in row.state (input_invalid ∷ processing_exhausted ∷ cleanup_pending ∷ []))) [
                    | inl e ↦
                        rw e (fetch_job-Ends (λ _ l'. Follows d0 l'.db) i.inference_id after λ _. f)
                    | inr e ↦ rw e tt
                  ])
        ])
  ]

  complete_cleanup_txn-Follows :
      (ident observed : Text) (l : Ledger)
      → Follows d0 l.db
      → Ends (λ _ l'. Follows d0 l'.db) (complete_cleanup_txn ident observed l)
  unfolding complete_cleanup_txn
  complete_cleanup_txn-Follows ident observed l f = elim (Option-cases (find ident l.db.jobs)) [
    | inl e ↦ rw e tt
    | inr (row, found) ↦ rw found (elim (Option-cases (completing_edge row.state)) [
      | inl e ↦ rw e tt
      | inr (target, e) ↦ rw e (
          set_state-Follows d0 ident (some row.state) target []
            (record l { db = observe ident (some observed) l.db }) f)
    ])
  ]

  fail_cleanup_txn-Follows :
      (ident error : Text) (l : Ledger)
      → Follows d0 l.db
      → Ends (λ _ l'. Follows d0 l'.db) (fail_cleanup_txn ident error l)
  unfolding fail_cleanup_txn
  fail_cleanup_txn-Follows ident error l f = elim (Option-cases (find ident l.db.jobs)) [
    | inl e ↦ rw e tt
    | inr (row, found) ↦ rw found (
        set_state-Follows d0 ident (some row.state)
          (if is row.state cleanup_pending then cleanup_failed else row.state)
          (last_error (some error) ∷ []) (record l { db = observe ident none l.db }) f)
  ]

  insert_job-Follows :
      (job : Job) (reserve now : ℕ) (d : Db)
      → find job.inference_id d.jobs ≡ none
      → is_initial job.state ≡ true
      → Follows d0 d
      → Follows d0 (insert_job job reserve now d)
  insert_job-Follows job reserve now d absent fresh f k =
      rw (status-admitted job reserve now d absent k) (elim (Bool-cases (job.inference_id == k)) [
        | inl e ↦ rw e (go_on (f' e) (admission fresh))
        | inr e ↦ rw e (f k)
      ])
    where
      f' : (job.inference_id == k) ≡ true → Walk (status k d0) none
      f' e = subst (Walk (status k d0)) (ground (arith, absent)) (f k)

  admit_txn-Follows :
      (job : Job) (reserve : ℕ) (l : Ledger)
      → is_initial job.state ≡ true
      → Follows d0 l.db
      → Ends (λ _ l'. Follows d0 l'.db) (admit_txn job reserve l)
  unfolding admit_txn
  admit_txn-Follows job reserve l fresh f = elim (Option-cases (find job.inference_id l.db.jobs)) [
    | inr (row, found) ↦ rw found f
    | inl absent ↦
        rw absent
          (elim (Bool-cases (ltb l.reserve_budget_bytes (sum l.db.reservations + reserve))) [
            | inl over ↦ rw over f
            | inr fits ↦
                rw fits (insert_job-Follows job reserve (l.clock l.readings) l.db absent fresh f)
          ])
  ]

  pub record_cleanup_intent-Follows :
      (i : CleanupIntent) (l : Ledger)
      → Follows d0 l.db
      → Follows d0 (record_cleanup_intent i l).1.db
  unfolding record_cleanup_intent
  record_cleanup_intent-Follows i l f =
      write-Follows d0 (record_cleanup_intent_txn i) l (record_cleanup_intent_txn-Follows i l f) f

  pub complete_cleanup-Follows :
      (ident observed : Text) (l : Ledger)
      → Follows d0 l.db
      → Follows d0 (complete_cleanup ident observed l).1.db
  unfolding complete_cleanup
  complete_cleanup-Follows ident observed l f =
      write-Follows d0 (complete_cleanup_txn ident observed) l
        (complete_cleanup_txn-Follows ident observed l f) f

  pub fail_cleanup-Follows :
      (ident error : Text) (l : Ledger)
      → Follows d0 l.db
      → Follows d0 (fail_cleanup ident error l).1.db
  unfolding fail_cleanup
  fail_cleanup-Follows ident error l f =
      write-Follows d0 (fail_cleanup_txn ident error) l (fail_cleanup_txn-Follows ident error l f) f

  pub admit-Follows :
      (job : Job) (reserve : ℤ) (l : Ledger)
      → Follows d0 l.db
      → Follows d0 (admit job reserve l).1.db
  unfolding admit
  admit-Follows job (negsuc _) l f = elim (Bool-cases (is_initial job.state)) [
    | inl e ↦ rw e f
    | inr e ↦ rw e f
  ]
  admit-Follows job (pos reserve) l f = elim (Bool-cases (is_initial job.state)) [
    | inl e ↦
        rw e (write-Follows d0 (admit_txn job reserve) l (admit_txn-Follows job reserve l e f) f)
    | inr e ↦ rw e f
  ]

  pub set_route_generation-Follows :
      (route_id desired : Text) (active : Option Text) (l : Ledger)
      → Follows d0 l.db
      → Follows d0 (set_route_generation route_id desired active l).1.db
  unfolding set_route_generation
  set_route_generation-Follows route_id desired active l f = write-Follows d0 _ l f f

  pub kv_set-Follows :
      (key : Text) (value : Option Text) (l : Ledger)
      → Follows d0 l.db
      → Follows d0 (kv_set key value l).1.db
  unfolding kv_set
  kv_set-Follows key value l f = write-Follows d0 _ l f f
