-- ===== src/Examples/CallRuns.antt =====
-- Single calls of the ledger on small data, and the theorems about them at concrete inputs.
use image_processor.Base.{
  ◌+◌, ◌≡◌, ◌↔◌, refl, pos, true, false, none, some, [], ◌∷◌, Answers, length, take, sort_by,
}
use image_processor.Table.{find, insert, sum, update, count_where}
use image_processor.Types.{Text, JobState-discrete, ready, claimed, is_terminal}
use image_processor.Ledger.Jobs.Admission.{admit-Stored}
use image_processor.Ledger.Store.{ok, Ledger, write}
use image_processor.Ledger.Jobs.{
  set_state, any_unknown, new_row, get, reserved_bytes, admit, admit_txn, claimable_rows,
  transition,
}
use image_processor.Ledger.Jobs.Moves.{status, after_move}
use image_processor.Ledger.Jobs.Transition.{is_ok, Allowed, transition-Allowed}
use image_processor.Ledger.Outbox.{
  pending_rows, insert_outbox_row, commit_result, commit_result_txn,
}
use image_processor.Ledger.Schema.{is_legal}
use image_processor.Ledger.Outbox.Queries.{
  Unsent, Older, pending_rows-Answers, Claimable, Earlier, claimable_rows-Answers,
}
use image_processor.Ledger.History.{admits, open_new, run, step}
use image_processor.Examples.LedgerRuns.{job, clock, digest, life}

-- The ledger that has admitted one job.
abbrev admitted : Ledger
admitted = run digest (open_new 1000 clock) (admits job (pos 100) ∷ [])

-- The ledger whose job has its message confirmed.
abbrev served : Ledger
served = run digest (open_new 1000 clock) life

admitted-is_open : admitted.closed ≡ false
unfolding run step admit admit_txn write find insert sum JobState-discrete
admitted-is_open = refl

transition-Allowed_example :
    ((is_ok (transition 5 ready claimed [] admitted).0 ≡ true)
      ↔ Allowed 5 ready claimed [] admitted.db)
    × (is_ok (transition 5 ready claimed [] admitted).0 ≡ true
        → (k : Text)
        → status k (transition 5 ready claimed [] admitted).1.db
          ≡ after_move 5 claimed k admitted.db)
transition-Allowed_example = transition-Allowed 5 ready claimed [] admitted admitted-is_open

-- The ledger whose job waits for its message to be confirmed.
abbrev publishing : Ledger
publishing = run digest (open_new 1000 clock) (take 5 life)

one_message : length (pending_rows 10 publishing.db) ≡ 1
unfolding pending_rows sort_by run step admit admit_txn transition write set_state any_unknown
    is_legal is_terminal insert insert_outbox_row commit_result commit_result_txn update find
    count_where sum JobState-discrete
one_message = refl

pending_rows-Answers_example :
    Answers
      (Unsent publishing.db.jobs)
      Older
      10
      publishing.db.outbox
      (pending_rows 10 publishing.db)
pending_rows-Answers_example = pending_rows-Answers 10 publishing.db

one_job : length (claimable_rows none 10 2000 admitted.db.jobs) ≡ 1
unfolding claimable_rows sort_by run step admit admit_txn write find insert sum JobState-discrete
    new_row
one_job = refl

claimable_rows-Answers_example :
    Answers
      (Claimable none 2000)
      Earlier
      10
      admitted.db.jobs
      (claimable_rows none 10 2000 admitted.db.jobs)
claimable_rows-Answers_example = claimable_rows-Answers none 10 2000 admitted.db.jobs

admitted_once : (admit job (pos 100) (open_new 1000 clock)).0 ≡ ok true
unfolding admit admit_txn write find insert sum JobState-discrete
admitted_once = refl

admit-Stored_example :
    (get 5 (admit job (pos 100) (open_new 1000 clock)).1 ≡ ok (some job))
    × (reserved_bytes (admit job (pos 100) (open_new 1000 clock)).1
        ≡ ok (sum (open_new 1000 clock).db.reservations + 100))
admit-Stored_example = admit-Stored job 100 (open_new 1000 clock) admitted_once
