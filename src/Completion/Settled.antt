-- ===== src/Completion/Settled.antt =====
-- The job after each ledger call of image_processor/completion/actions.py.
use image_processor.Base.{
  suc, ◌≡◌, refl, inl, inr, true, false, none, some, [], ◌∷◌, arith, Bool-cases, Option-cases,
  if◌then◌else◌,
}
use image_processor.Table.{find}
use image_processor.Types.{
  Text, JobState, JobState-discrete, is, is_in, is_terminal, Job, CleanupIntent, input_invalid,
  processing_exhausted, published, cleanup_pending, cleanup_failed,
}
use image_processor.Ledger.Schema.{Db}
use image_processor.Ledger.Store.{Ledger}
use image_processor.Ledger.Store.Rules.{Ends, Ends-map, write-Ends}
use image_processor.Ledger.Jobs.{last_error}
use image_processor.Ledger.Jobs.Moves.{status, fetch_job-reads, set_state-At}
use image_processor.Ledger.Cleanup.{
  record_cleanup_intent, record_cleanup_intent_txn, put_intent, complete_cleanup,
  complete_cleanup_txn, completing_edge, observe, fail_cleanup, fail_cleanup_txn,
}

-- A job under cleanup, once its intent is recorded.
abbrev pub IsWorking : JobState → Type 0
IsWorking s = is_in s (input_invalid ∷ processing_exhausted ∷ cleanup_pending ∷ []) ≡ true

-- The state that a job is in, and that a call handed back.
abbrev pub Reads : Text → (JobState → Type 0) → Job → Db → Type 0
Reads ident P job d = (status ident d ≡ some job.state) × P job.state

pub record_cleanup_intent-Ends :
    (i : CleanupIntent) (l : Ledger)
    → Ends (λ job l'. Reads i.inference_id IsWorking job l'.db) (record_cleanup_intent i l)
unfolding record_cleanup_intent record_cleanup_intent_txn put_intent JobState-discrete
record_cleanup_intent-Ends i l =
    write-Ends (Reads i.inference_id IsWorking) (record_cleanup_intent_txn i) l
      (elim (Option-cases (find i.inference_id l.db.jobs)) [
        | inl e ↦ rw e tt
        | inr (row, found) ↦
            let after : Ledger = record l {
              readings = suc l.readings;
              db = put_intent i (l.clock l.readings) l.db;
            } in
            rw found (elim (Bool-cases (is_in row.state (published ∷ cleanup_failed ∷ []))) [
              | inl e ↦ rw e (
                  Ends-map _ (λ job l'. Reads i.inference_id IsWorking job l'.db) _
                    (λ job l' h. rw h.1 (h.0, refl))
                    (set_state-At i.inference_id (some row.state) cleanup_pending [] after))
              | inr e ↦
                  rw e
                    (elim (Bool-cases (
                      is_in row.state
                        (input_invalid ∷ processing_exhausted ∷ cleanup_pending ∷ []))) [
                          | inl w ↦ rw w (
                              fetch_job-reads (λ job l'. Reads i.inference_id IsWorking job l'.db)
                                i.inference_id after
                                λ job at.
                                  let here : some row.state ≡ some job.state = rw found at at in
                                  let same : row.state ≡ job.state = cc in (at, rw same at w))
                          | inr w ↦ rw w tt
                        ])
            ])
      ])

completing_edge-terminal : (s t : JobState) → completing_edge s ≡ some t → is_terminal t ≡ true
unfolding completing_edge is_terminal
completing_edge-terminal s t h = ground arith

abbrev pub IsSettled : JobState → Type 0
IsSettled s = is_terminal s ≡ true

abbrev pub IsOpen : JobState → Type 0
IsOpen s = is_terminal s ≡ false

pub complete_cleanup-Ends :
    (ident observed : Text) (l : Ledger)
    → Ends (λ job l'. Reads ident IsSettled job l'.db) (complete_cleanup ident observed l)
unfolding complete_cleanup complete_cleanup_txn
complete_cleanup-Ends ident observed l =
    write-Ends (Reads ident IsSettled) (complete_cleanup_txn ident observed) l
      (elim (Option-cases (find ident l.db.jobs)) [
        | inl e ↦ rw e tt
        | inr (row, found) ↦ rw found (elim (Option-cases (completing_edge row.state)) [
          | inl e ↦ rw e tt
          | inr (target, e) ↦ rw e (
              Ends-map _ (λ job l'. Reads ident IsSettled job l'.db) _
                (λ job l' h. rw h.1 (h.0, completing_edge-terminal row.state target e))
                (set_state-At ident (some row.state) target []
                  (record l { db = observe ident (some observed) l.db })))
        ])
      ])

failed_state-IsOpen :
    (s : JobState) → IsWorking s → IsOpen (if is s cleanup_pending then cleanup_failed else s)
unfolding is_terminal
failed_state-IsOpen s w = ground arith

pub fail_cleanup-Ends :
    (ident error : Text) (s : JobState) (l : Ledger)
    → status ident l.db ≡ some s
    → IsWorking s
    → Ends (λ job l'. Reads ident IsOpen job l'.db) (fail_cleanup ident error l)
unfolding fail_cleanup fail_cleanup_txn
fail_cleanup-Ends ident error s l at w =
    write-Ends (Reads ident IsOpen) (fail_cleanup_txn ident error) l
      (elim (Option-cases (find ident l.db.jobs)) [
        | inl e ↦ rw e tt
        | inr (row, found) ↦
            let here : some row.state ≡ some s = rw found at at in
            let same : s ≡ row.state = cc in
            rw found (
              Ends-map _ (λ job l'. Reads ident IsOpen job l'.db) _
                (λ job l' h. rw h.1 (h.0, failed_state-IsOpen row.state (rw same at w)))
                (set_state-At ident (some row.state)
                  (if is row.state cleanup_pending then cleanup_failed else row.state)
                  (last_error (some error) ∷ []) (record l { db = observe ident none l.db })))
      ])
