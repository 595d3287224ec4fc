-- ===== src/Examples/SchedulerRuns.antt =====
-- Two queued jobs and a failing one, and the theorems about them.
use image_processor.Ledger.Columns.{encode_source, decode_source, encode_model, decode_model}
use image_processor.Base.{
  ℕ, ◌+◌, ◌≡◌, refl, arith, Bool, false, none, some, [], ◌∷◌, take, leb, Sorted, select,
}
use mathlib.Core.List.{Perm}
use image_processor.Types.{Text, JobState-discrete, inferencing, retry_wait, is_terminal}
use image_processor.Table.{Table, find, insert, update, count_where, sum}
use image_processor.Ledger.Schema.{is_legal}
use image_processor.Ledger.Store.{write}
use image_processor.Ledger.Jobs.{admit, admit_txn, transition, set_state, any_unknown}
use image_processor.Ledger.Jobs.Moves.{status}
use image_processor.Ledger.Sound.{Sound}
use image_processor.Ledger.History.{open_new, run, step}
use image_processor.Ledger.History.Invariant.{run-open_new-Sound}
use image_processor.Examples.LedgerRuns.{clock, digest, life, job}
use image_processor.Scheduler.{Queued, Lane, Scheduler, new_lane, drain_inbox}
use image_processor.Scheduler.Answers.{failed_with, apply_transient}
use image_processor.Scheduler.Held.{held, drain_inbox-held}
use image_processor.Scheduler.Budget.{Disposed, apply_transient-Disposed}
use image_processor.Scheduler.Attempts.{InStep}
use image_processor.Scheduler.Attempts.Ends.{Exhausts}
use image_processor.Scheduler.Attempts.Failing.{keep_failing, keep_failing-Exhausts}
use image_processor.Ledger.Schema.{row_to_job}
use image_processor.Ledger.Jobs.{put_state, release, new_row, assign}
use image_processor.Scheduler.Lanes.{has_jobs, Ranks, ranked_lanes, ranked_lanes-Sorted}

-- The job of the ledger's run, as a cell is at work on it.
abbrev pub running : Queued
running = record {
  job = record job { state = inferencing };
  priority = 100;
  first_seen_ms = 10;
  queued_at_ms = 10;
}

abbrev waiting : Queued
waiting = record {
  job = record job { inference_id = 6; state = retry_wait };
  priority = 50;
  first_seen_ms = 20;
  queued_at_ms = 20;
}

abbrev lanes : Table Lane
lanes = (3, new_lane) ∷ (4, record new_lane { jobs = running ∷ [] }) ∷ []

abbrev pub scheduler : Scheduler
scheduler = record {
  ledger = run digest (open_new 1000 clock) (take 4 life);
  route_priorities = [];
  max_attempts = 5;
  inbox = running ∷ waiting ∷ [];
  lanes = lanes;
  retry = [];
  succeeded = 0;
  retried = 0;
  exhausted = 0;
  blocked = 0;
}

scheduler-Sound : Sound scheduler.ledger
scheduler-Sound =
    run-open_new-Sound digest 1000 clock (take 4 life)
      (tt, ((λ e. cc), ((λ e. cc), ((λ e. cc), tt))))

drain_inbox-held_example :
    ((drain_inbox 30 scheduler).inbox ≡ [])
    × ((k : Text) → held k (drain_inbox 30 scheduler) ≡ held k scheduler)
drain_inbox-held_example = drain_inbox-held 30 scheduler

abbrev pub backoff : ℕ → ℕ
backoff n = n + 100

is_running : status 5 scheduler.ledger.db ≡ some inferencing
unfolding run step admit admit_txn transition write set_state any_unknown is_legal is_terminal
    insert update find count_where sum JobState-discrete
is_running = refl

is_open : scheduler.ledger.closed ≡ false
unfolding run step admit admit_txn transition write set_state any_unknown is_legal is_terminal
    insert update find count_where sum JobState-discrete
is_open = refl

apply_transient-Disposed_example :
    Disposed
      (30 + backoff (running.job.attempts + 1))
      (failed_with none none)
      running
      scheduler
      (leb 5 (running.job.attempts + 1))
      (apply_transient 30 backoff running none none 2 scheduler)
apply_transient-Disposed_example =
    apply_transient-Disposed 30 backoff running none none 2 scheduler is_open refl is_running

abbrev is_resident : Text → Bool
is_resident d = leb d 3

abbrev is_starving : ℕ → Bool
is_starving age = leb 1000 age

-- A lane with a digest that is not resident, and one with a digest that is.
abbrev two_lanes : Table Lane
two_lanes =
    (4, record new_lane { jobs = running ∷ [] }) ∷ (2, record new_lane { jobs = waiting ∷ [] }) ∷ []

ranked_lanes-Sorted_example :
    Sorted (Ranks 30 is_resident is_starving) (ranked_lanes 30 is_resident is_starving two_lanes)
    × Perm (ranked_lanes 30 is_resident is_starving two_lanes) (select has_jobs two_lanes)
ranked_lanes-Sorted_example = ranked_lanes-Sorted 30 is_resident is_starving two_lanes

running-InStep : InStep inferencing running scheduler.ledger
unfolding run step admit admit_txn transition write set_state any_unknown is_legal is_terminal
    insert update find count_where sum JobState-discrete row_to_job put_state release new_row
    encode_source decode_source encode_model decode_model assign
running-InStep = record {
  row = _;
  is_open = is_open;
  found = refl;
  same_job = refl;
  same_state = refl;
}

keep_failing-Exhausts_example :
    Exhausts
      (failed_with none none)
      5
      running
      scheduler
      (keep_failing 30 backoff none none 2 5 running scheduler)
keep_failing-Exhausts_example =
    keep_failing-Exhausts 30 backoff none none 2 4 running scheduler running-InStep (omega arith)
