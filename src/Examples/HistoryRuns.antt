-- ===== src/Examples/HistoryRuns.antt =====
-- Histories that go on from a ledger in use, and the theorems about them.
use image_processor.Base.{ℕ, map, select, Option, none, ◌≡◌, refl, some, true, List, [], ◌∷◌, All}
use image_processor.Types.{
  Text, JobState, JobState-discrete, is_terminal, ready, claimed, completed, publish_pending,
  inferencing, retry_wait,
}
use image_processor.Table.{find, insert, update, upsert, delete, count_where, sum}
use image_processor.Ledger.Schema.{is_legal}
use image_processor.Ledger.Store.{Ledger, write}
use image_processor.Ledger.Jobs.{admit, admit_txn, transition, set_state, any_unknown}
use image_processor.Ledger.Jobs.Moves.{status}
use image_processor.Ledger.Outbox.{
  insert_outbox_row, commit_result, commit_result_txn, mark_published, mark_published_txn,
}
use image_processor.Ledger.Cleanup.{
  record_cleanup_intent, record_cleanup_intent_txn, completing_edge, complete_cleanup,
  complete_cleanup_txn,
}
use image_processor.Ledger.Recovery.{plan_recovery}
use image_processor.Ledger.Recovery.Plan.{is_interrupted, to_ready, plan_recovery-select}
use image_processor.Ledger.Sound.{Sound}
use image_processor.Ledger.History.{
  Call, transitions, retries, recovers, reinfers, IsCallerEdge, open_new, run, step,
}
use image_processor.Ledger.History.Invariant.{run-open_new-Sound}
use image_processor.Ledger.History.Walks.{run-terminal}
use image_processor.Examples.LedgerRuns.{clock, digest, life}

-- The ledger whose job has ended.
abbrev served : Ledger
served = run digest (open_new 1000 clock) life

served-Sound : Sound served
served-Sound =
    run-open_new-Sound digest 1000 clock life
      (tt, ((λ e. cc), ((λ e. cc), ((λ e. cc), (tt, (tt, (tt, (tt, tt))))))))

-- A restart, and calls that try to bring the job back.
abbrev later : List Call
later = recovers ∷ retries 5 ∷ reinfers 5 90 ∷ transitions 5 completed ready [] ∷ []

later_targets : All IsCallerEdge later
later_targets = (tt, (tt, (tt, ((λ e. cc), tt))))

served-completed : status 5 served.db ≡ some completed
unfolding run step admit admit_txn transition commit_result commit_result_txn mark_published
    mark_published_txn record_cleanup_intent record_cleanup_intent_txn complete_cleanup
    complete_cleanup_txn write set_state any_unknown is_legal is_terminal completing_edge insert
    update upsert find delete count_where sum insert_outbox_row JobState-discrete
served-completed = refl

completed-is_terminal : is_terminal completed ≡ true
unfolding is_terminal
completed-is_terminal = refl

run-terminal_example : status 5 (run digest served later).db ≡ some completed
run-terminal_example =
    run-terminal digest served later 5 completed later_targets served-Sound completed-is_terminal
      served-completed

-- Two jobs that the restart interrupted, one that it did not, and a retry that is not due.
abbrev found : List (Text × JobState × Option ℕ)
found =
    (5, claimed, none)
    ∷ (6, publish_pending, none)
    ∷ (7, inferencing, some 900)
    ∷ (8, retry_wait, some 3000)
    ∷ []

plan_recovery-select_example :
    plan_recovery found 2000 ≡ map to_ready (select (is_interrupted 2000) found)
plan_recovery-select_example = plan_recovery-select found 2000
