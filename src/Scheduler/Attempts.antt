-- ===== src/Scheduler/Attempts.antt =====
-- The attempts of one job of image_processor/engine/scheduler.py: a queued job that is in step with
-- its row, and how each transition keeps it so.
pub mod Redispatch
pub mod Ends
pub mod Failing
use image_processor.Base.{
  ℕ, ◌≡◌, refl, sym, ap, ◌∙◌, Bool, true, false, arith, if◌then◌else◌, Option, none, some, List, [],
  ◌∷◌,
}
use image_processor.Types.{Text, JobState, is, Job}
use image_processor.Table.{find}
use image_processor.Ledger.Schema.{JobRow, row_to_job}
use image_processor.Ledger.Store.{Ledger, Result, ok, err, closed_error, finish, write}
use image_processor.Ledger.Jobs.{
  Field, attempts, config_generation, next_attempt_at_ms, staged_path, last_error, other,
  any_unknown, assign, transition, set_state, put_state,
}
use image_processor.Ledger.Jobs.Moves.{is_refused, moved, assign-state}
use image_processor.Ledger.Jobs.Transition.{moved_row, set_state-ok, find-moved, find-put_state}
use image_processor.Scheduler.{Queued, Scheduler, with_ledger, moved_entry, transition_entry}

-- The attempts that an update of columns leaves.
abbrev pub attempts_after : List Field → ℕ → ℕ
attempts_after [] n = n
attempts_after (attempts k ∷ fields) n = attempts_after fields k
attempts_after (_ ∷ fields) n = attempts_after fields n

assign-attempts :
    (fs : List Field) (r : JobRow) → (assign fs r).attempts ≡ attempts_after fs r.attempts
unfolding assign
assign-attempts [] r = refl
assign-attempts (attempts n ∷ fs) r = assign-attempts fs (record r { attempts = n })
assign-attempts (config_generation n ∷ fs) r =
    assign-attempts fs (record r { config_generation = n })
assign-attempts (next_attempt_at_ms t ∷ fs) r =
    assign-attempts fs (record r { next_attempt_at_ms = t })
assign-attempts (staged_path p ∷ fs) r = assign-attempts fs (record r { staged_path = p })
assign-attempts (last_error e ∷ fs) r = assign-attempts fs (record r { last_error = e })
assign-attempts (other _ ∷ fs) r = assign-attempts fs r

-- The copy of a job that the scheduler holds is the job of an open ledger, in the state given.
pub record InStep (state : JobState) (entry : Queued) (l : Ledger) : Type 0 where
  pub row : JobRow
  pub is_open : l.closed ≡ false
  pub found : find entry.job.inference_id l.db.jobs ≡ some row
  pub same_job : row_to_job entry.job.inference_id row ≡ entry.job
  pub same_state : row.state ≡ state

-- A transition that went through: what it returns, and the job that it leaves.
pub record Moves (new : JobState) (fields : List Field) (entry : Queued) (s : Scheduler)
    (r : Result (Option Queued) × Scheduler) : Type 0 where
  pub after : Queued
  pub ledger : Ledger
  pub returns : r ≡ (ok (some after), with_ledger s ledger)
  pub in_step : InStep new after ledger
  pub same_id : after.job.inference_id ≡ entry.job.inference_id
  pub counted : after.job.attempts ≡ attempts_after fields entry.job.attempts

transition-moved :
    (ident : Text) (old new : JobState) (fields : List Field) (row : JobRow) (l : Ledger)
    → l.closed ≡ false
    → any_unknown fields ≡ false
    → find ident l.db.jobs ≡ some row
    → row.state ≡ old
    → is_refused old new ≡ false
    → transition ident old new fields l
      ≡ finish l (
        ok (row_to_job ident (moved_row new fields (l.clock l.readings) row)),
        moved ident new fields l,
      )
unfolding transition write
transition-moved ident old new fields row l opened known found here legal =
    let fn = set_state ident (some old) new fields in
    ap (λ b. if b then (err closed_error, l) else finish l (fn l)) opened
    ∙ ap (finish l)
        (set_state-ok ident (some old) new fields row l known found (ground arith) (rw here legal))

pub transition_entry-Moves :
    (entry : Queued) (old new : JobState) (fields : List Field) (s : Scheduler)
    → InStep old entry s.ledger
    → any_unknown fields ≡ false
    → is_refused old new ≡ false
    → Moves new fields entry s (transition_entry entry old new fields s)
unfolding transition_entry row_to_job
transition_entry-Moves entry old new fields s step known legal =
    let id = entry.job.inference_id in
    let l = s.ledger in
    let now = l.clock l.readings in
    let row = moved_row new fields now step.row in
    let went =
      transition-moved id old new fields step.row l step.is_open known step.found step.same_state
        legal in
    record {
      after = record entry { job = row_to_job id row };
      ledger = record l {
        db = (moved id new fields l).db;
        readings = (moved id new fields l).readings;
      };
      returns = ap (moved_entry entry s) went;
      in_step = record {
        row = row;
        is_open = step.is_open;
        found =
            find-moved id new fields l ∙ find-put_state id new fields now step.row l.db step.found;
        same_job = refl;
        same_state = assign-state fields (record step.row { state = new; updated_at_ms = now });
      };
      same_id = refl;
      counted =
          assign-attempts fields (record step.row { state = new; updated_at_ms = now })
          ∙ ap (λ j. attempts_after fields j.attempts) step.same_job;
    }
