-- ===== src/Scheduler/Attempts/Ends.antt =====
-- How an attempt ends that failed in image_processor/engine/scheduler.py.
use image_processor.Base.{ℕ, suc, ◌+◌, ◌≡◌, refl, sym, ap, ◌∙◌, some, List, [], ◌∷◌, ◌++◌}
use image_processor.Types.{
  Text, JobState-discrete, Job, inferencing, retry_wait, processing_exhausted,
}
use image_processor.Ledger.Schema.{is_legal}
use image_processor.Ledger.Store.{Ledger, Result, ok}
use image_processor.Ledger.Jobs.{attempts, next_attempt_at_ms, last_error, any_unknown}
use image_processor.Ledger.Jobs.Moves.{status, state_of}
use image_processor.Scheduler.{Queued, Scheduler, with_ledger, transition_entry}
use image_processor.Scheduler.Answers.{
  Answer, Effect, delivers, ◌>>=◌, count_exhausted, exhaust, retry_later, wait_until, notify,
}
use image_processor.Scheduler.Budget.{bind-ok}
use image_processor.Scheduler.Attempts.{InStep, transition_entry-Moves}
use image_processor.Scheduler.Attempts.Redispatch.{InStep-state}

-- A job that an attempt sent to RETRY_WAIT.
pub record Retries (now wait count : ℕ) (entry : Queued) (s : Scheduler)
    (r : Result (List Effect) × Scheduler) : Type 0 where
  pub after : Queued
  pub ledger : Ledger
  pub returns : r ≡ (
    ok [],
    record s {
      ledger = ledger;
      retry = s.retry ++ (now + wait, after) ∷ [];
      retried = suc s.retried;
    },
  )
  pub in_step : InStep retry_wait after ledger
  pub same_id : after.job.inference_id ≡ entry.job.inference_id
  pub counted : after.job.attempts ≡ count

pub retry_later-Retries :
    (now wait : ℕ) (entry : Queued) (detail : Text) (count : ℕ) (s : Scheduler)
    → InStep inferencing entry s.ledger
    → Retries now wait count entry s (retry_later now wait entry detail count s)
unfolding retry_later any_unknown is_legal JobState-discrete
retry_later-Retries now wait entry detail count s step =
    let fields =
      attempts count ∷ next_attempt_at_ms (some (now + wait)) ∷ last_error (some detail) ∷ [] in
    let m = transition_entry-Moves entry inferencing retry_wait fields s step refl refl in
    let first =
      ap (λ st. transition_entry entry st retry_wait fields s)
        (InStep-state inferencing entry s.ledger step)
      ∙ m.returns in
    record {
      after = m.after;
      ledger = m.ledger;
      returns =
          bind-ok (transition_entry entry entry.job.state retry_wait fields)
            (wait_until (now + wait)) s (with_ledger s m.ledger) (some m.after) first;
      in_step = m.in_step;
      same_id = m.same_id;
      counted = m.counted;
    }

-- The job is exhausted in the ledger, and its answer is delivered once. No retry is left of it.
pub record Exhausts (answer : Answer) (count : ℕ) (entry : Queued) (s : Scheduler)
    (r : Result (List Effect) × Scheduler) : Type 0 where
  pub job : Job
  pub returns : r.0 ≡ ok (delivers job answer ∷ [])
  pub counted : job.attempts ≡ count
  pub exhausted : status entry.job.inference_id r.1.ledger.db ≡ some processing_exhausted
  pub retries : r.1.retry ≡ s.retry

pub exhaust-Exhausts :
    (answer : Answer) (entry : Queued) (detail : Text) (count : ℕ) (s : Scheduler)
    → InStep inferencing entry s.ledger
    → Exhausts answer count entry s ((exhaust entry detail count >>= notify answer) s)
unfolding exhaust any_unknown is_legal JobState-discrete
exhaust-Exhausts answer entry detail count s step =
    let fields = attempts count ∷ last_error (some detail) ∷ [] in
    let m = transition_entry-Moves entry inferencing processing_exhausted fields s step refl refl in
    let move = transition_entry entry entry.job.state processing_exhausted fields in
    let first =
      ap (λ st. transition_entry entry st processing_exhausted fields s)
        (InStep-state inferencing entry s.ledger step)
      ∙ m.returns in
    let second = bind-ok move count_exhausted s (with_ledger s m.ledger) (some m.after) first in
    let both = bind-ok (exhaust entry detail count) (notify answer) s _ (some m.after) second in
    record {
      job = m.after.job;
      returns = ap (λ r. r.0) both;
      counted = m.counted;
      exhausted =
          ap (λ r. status entry.job.inference_id r.1.ledger.db) both
          ∙ ap (λ i. status i m.ledger.db) (sym m.same_id)
          ∙ ap (λ o. state_of o) m.in_step.found
          ∙ ap some m.in_step.same_state;
      retries = ap (λ r. r.1.retry) both;
    }
