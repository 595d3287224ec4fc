-- ===== src/Scheduler/Attempts/Redispatch.antt =====
-- The way of a retried job of image_processor/engine/scheduler.py back to a cell.
use image_processor.Base.{◌≡◌, refl, sym, ap, ◌∙◌, false, Option, none, some, [], if◌then◌else◌}
use image_processor.Types.{
  JobState, JobState-discrete, is, ready, claimed, waiting_model, inferencing, retry_wait,
}
use image_processor.Ledger.Schema.{is_legal, row_to_job}
use image_processor.Ledger.Store.{Ledger, Result, ok}
use image_processor.Ledger.Jobs.{any_unknown}
use image_processor.Ledger.Jobs.Moves.{is_refused}
use image_processor.Scheduler.{Queued, Scheduler, with_ledger, transition_entry}
use image_processor.Scheduler.Answers.{Run, ◌>>=◌, pure, claim, claim_waiting}
use image_processor.Scheduler.Budget.{bind-ok}
use image_processor.Scheduler.Attempts.{InStep, transition_entry-Moves}

-- `_dispatch_one` once the model is resident: a job that was waiting for it is inferred.
abbrev pub start_inference : Option Queued → Run (Option Queued)
start_inference none = pure none
start_inference (some entry) =
    if is entry.job.state waiting_model
    then transition_entry entry waiting_model inferencing []
    else pure (some entry)

abbrev pub claim_some : Option Queued → Run (Option Queued)
claim_some none = pure none
claim_some (some entry) = claim entry

-- The transitions of one retried job on its way back to a cell: those of `_promote_retries`, of
-- `_claim` and of `_dispatch_one`.
unfoldable pub redispatch : Queued → Run (Option Queued)
unfolding transition_entry claim
redispatch entry = transition_entry entry retry_wait ready [] >>= claim_some >>= start_inference

pub InStep-state :
    (state : JobState) (entry : Queued) (l : Ledger)
    → InStep state entry l
    → entry.job.state ≡ state
unfolding row_to_job
InStep-state state entry l step = sym (ap (λ j. j.state) step.same_job) ∙ step.same_state

-- A job in step is what the scheduler goes on with, with the attempts it had.
pub record Goes (state : JobState) (old : Queued) (s : Scheduler)
    (r : Result (Option Queued) × Scheduler) : Type 0 where
  pub entry : Queued
  pub ledger : Ledger
  pub returns : r ≡ (ok (some entry), with_ledger s ledger)
  pub in_step : InStep state entry ledger
  pub same_id : entry.job.inference_id ≡ old.job.inference_id
  pub same_attempts : entry.job.attempts ≡ old.job.attempts

transition-Goes :
    (entry : Queued) (old new : JobState) (s : Scheduler)
    → InStep old entry s.ledger
    → is_refused old new ≡ false
    → Goes new entry s (transition_entry entry old new [] s)
unfolding any_unknown
transition-Goes entry old new s step legal =
    let m = transition_entry-Moves entry old new [] s step refl legal in
    record {
      entry = m.after;
      ledger = m.ledger;
      returns = m.returns;
      in_step = m.in_step;
      same_id = m.same_id;
      same_attempts = m.counted;
    }

Goes-bind :
    (middle new : JobState) (old : Queued) (s : Scheduler) (m : Run (Option Queued))
    (f : Option Queued → Run (Option Queued))
    → Goes middle old s (m s)
    → ((entry : Queued) (s' : Scheduler)
        → InStep middle entry s'.ledger
        → Goes new entry s' (f (some entry) s'))
    → Goes new old s ((m >>= f) s)
Goes-bind middle new old s m f first then_goes =
    let second = then_goes first.entry (with_ledger s first.ledger) first.in_step in
    record {
      entry = second.entry;
      ledger = second.ledger;
      returns =
          bind-ok m f s (with_ledger s first.ledger) (some first.entry) first.returns
          ∙ second.returns;
      in_step = second.in_step;
      same_id = second.same_id ∙ first.same_id;
      same_attempts = second.same_attempts ∙ first.same_attempts;
    }

claim_waiting-Goes :
    (entry : Queued) (s : Scheduler)
    → InStep claimed entry s.ledger
    → Goes waiting_model entry s (claim_waiting (some entry) s)
unfolding is_legal JobState-discrete
claim_waiting-Goes entry s step =
    simp (InStep-state claimed entry s.ledger step)
      (transition-Goes entry claimed waiting_model s step refl)

claim-Goes :
    (entry : Queued) (s : Scheduler)
    → InStep ready entry s.ledger
    → Goes waiting_model entry s (claim entry s)
unfolding claim is_legal JobState-discrete
claim-Goes entry s step =
    let first : Run (Option Queued) =
      if is entry.job.state ready
      then transition_entry entry ready claimed []
      else pure (some entry) in
    Goes-bind claimed waiting_model entry s first claim_waiting
      (simp (InStep-state ready entry s.ledger step)
        (transition-Goes entry ready claimed s step refl))
      claim_waiting-Goes

start_inference-Goes :
    (entry : Queued) (s : Scheduler)
    → InStep waiting_model entry s.ledger
    → Goes inferencing entry s (start_inference (some entry) s)
unfolding is_legal JobState-discrete
start_inference-Goes entry s step =
    simp (InStep-state waiting_model entry s.ledger step)
      (transition-Goes entry waiting_model inferencing s step refl)

pub redispatch-Goes :
    (entry : Queued) (s : Scheduler)
    → InStep retry_wait entry s.ledger
    → Goes inferencing entry s (redispatch entry s)
unfolding redispatch is_legal JobState-discrete
redispatch-Goes entry s step =
    Goes-bind waiting_model inferencing entry s
      (transition_entry entry retry_wait ready [] >>= claim_some) start_inference
      (Goes-bind ready waiting_model entry s (transition_entry entry retry_wait ready []) claim_some
        (transition-Goes entry retry_wait ready s step refl) claim-Goes)
      start_inference-Goes
