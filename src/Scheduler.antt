-- ===== src/Scheduler.antt =====
-- The queues of image_processor/engine/scheduler.py and what it does with an answer. The clock, the
-- jitter of the backoff and the callback of the application are parameters. The cells are in Cells.
pub mod Answers
pub mod Held
pub mod Outcomes
pub mod Budget
pub mod Lanes
pub mod Attempts
pub mod Cells
use image_processor.Base.{
  ℕ, ◌+◌, ◌-◌, Bool, true, false, not, Option, none, some, List, [], ◌∷◌, ◌++◌, select, max, suc,
  leb, ltb, ◌==◌, if◌then◌else◌,
}
use image_processor.Types.{
  Text, JobState, is, is_in, Job, ready, claimed, waiting_model, inferencing, retry_wait,
}
use image_processor.Table.{Table, find}
use image_processor.Ledger.Store.{
  Ledger, LedgerError, conflict, illegal_transition, value_error, Result, ok, err,
}
use image_processor.Ledger.Jobs.{Field, transition}

-- `class Queued`
pub record Queued : Type 0 where
  pub job : Job
  pub priority : ℕ
  pub first_seen_ms : ℕ
  pub queued_at_ms : ℕ

-- `class Lane`; its digest is its key.
pub record Lane : Type 0 where
  pub jobs : List Queued
  pub burst_remaining : ℕ
  pub load_failures : ℕ
  pub blocked_until_ms : ℕ
  pub blocked_reason : Option Text

-- The state of `class Scheduler` that its queues keep, with the counters they change.
pub record Scheduler : Type 0 where
  pub ledger : Ledger
  pub route_priorities : Table ℕ
  pub max_attempts : ℕ
  pub inbox : List Queued
  pub lanes : Table Lane
  pub retry : List (ℕ × Queued)
  pub succeeded : ℕ
  pub retried : ℕ
  pub exhausted : ℕ
  pub blocked : ℕ

abbrev pub new_lane : Lane
new_lane = record {
  jobs = [];
  burst_remaining = 0;
  load_failures = 0;
  blocked_until_ms = 0;
  blocked_reason = none;
}

-- `self._lane(digest).jobs.append(entry)`
unfoldable pub join : Text → Queued → Table Lane → Table Lane
join digest entry [] = (digest, record new_lane { jobs = entry ∷ [] }) ∷ []
join digest entry ((d, lane) ∷ lanes) =
    if d == digest
    then (d, record lane { jobs = lane.jobs ++ entry ∷ [] }) ∷ lanes
    else (d, lane) ∷ join digest entry lanes

-- `lane.jobs.appendleft(entry)`, of the lane that the entry came from
unfoldable pub requeue : Text → Queued → Table Lane → Table Lane
requeue digest entry [] = []
requeue digest entry ((d, lane) ∷ lanes) =
    if d == digest
    then (d, record lane { jobs = entry ∷ lane.jobs }) ∷ lanes
    else (d, lane) ∷ requeue digest entry lanes

-- `priority if priority is not None else self.route_priorities.get(job.route_id, 100)`
abbrev pub priority_of : Option ℕ → Option ℕ → ℕ
priority_of (some n) _ = n
priority_of none (some n) = n
priority_of none none = 100

-- `submit`, at a reading of the clock
unfoldable pub submit : ℕ → Job → Option ℕ → Scheduler → Result (Unit {0}) × Scheduler
unfolding find
submit now job priority s =
    if is_in job.state (ready ∷ claimed ∷ waiting_model ∷ retry_wait ∷ [])
    then (
      ok tt,
      record s {
        inbox =
            s.inbox
            ++ record {
              job = job;
              priority = priority_of priority (find job.route_id s.route_priorities);
              first_seen_ms = now;
              queued_at_ms = now;
            }
              ∷ [];
      },
    )
    else (err value_error, s)

abbrev pub due_or : Option ℕ → ℕ → ℕ
due_or none now = now
due_or (some due) now = if due == 0 then now else due

-- One round of the loop of `_drain_inbox`.
unfoldable pub take_in : ℕ → Queued → Scheduler → Scheduler
unfolding join
take_in now entry s =
    if is entry.job.state retry_wait
    then record s { retry = s.retry ++ (due_or entry.job.next_attempt_at_ms now, entry) ∷ [] }
    else record s { lanes = join entry.job.model.digest entry s.lanes }

unfoldable pub take_all : ℕ → List Queued → Scheduler → Scheduler
unfolding take_in
take_all now [] s = s
take_all now (entry ∷ entries) s = take_all now entries (take_in now entry s)

-- `_drain_inbox`
unfoldable pub drain_inbox : ℕ → Scheduler → Scheduler
unfolding take_all
drain_inbox now s = take_all now s.inbox (record s { inbox = [] })

abbrev pub with_ledger : Scheduler → Ledger → Scheduler
with_ledger s l = record s { ledger = l }

-- What `_transition` makes of the ledger's answer: a refused edge is None, other errors go on.
abbrev pub moved_entry :
    Queued → Scheduler → Result Job × Ledger → Result (Option Queued) × Scheduler
moved_entry entry s (ok job, l) = (ok (some (record entry { job = job })), with_ledger s l)
moved_entry entry s (err conflict, l) = (ok none, with_ledger s l)
moved_entry entry s (err illegal_transition, l) = (ok none, with_ledger s l)
moved_entry entry s (err e, l) = (err e, with_ledger s l)

-- `_transition`
unfoldable pub transition_entry :
    Queued → JobState → JobState → List Field → Scheduler → Result (Option Queued) × Scheduler
unfolding transition
transition_entry entry expected new fields s =
    moved_entry entry s (transition entry.job.inference_id expected new fields s.ledger)

-- One due entry of `_promote_retries`, once the ledger has answered.
abbrev pub promoted : ℕ → Result (Option Queued) × Scheduler → Result (Unit {0}) × Scheduler
promoted now (ok none, s) = (ok tt, s)
promoted now (ok (some entry), s) = (
  ok tt,
  record s { lanes = join entry.job.model.digest (record entry { queued_at_ms = now }) s.lanes },
)
promoted now (err e, s) = (err e, s)

-- The loop of `_promote_retries` over the entries that are due.
unfoldable pub promote_all : ℕ → List (ℕ × Queued) → Scheduler → Result (Unit {0}) × Scheduler
unfolding transition_entry join
promote_all now [] s = (ok tt, s)
promote_all now ((due, entry) ∷ rest) s =
    let (r, s') = promoted now (transition_entry entry retry_wait ready [] s) in
    elim r [ ok _ ↦ promote_all now rest s' | err e ↦ (err e, s') ]

abbrev is_due_at : ℕ → ℕ × Queued → Bool
is_due_at now (due, _) = leb due now

abbrev is_later : ℕ → ℕ × Queued → Bool
is_later now (due, _) = ltb now due

-- `_promote_retries`
unfoldable pub promote_retries : ℕ → Scheduler → Result (Unit {0}) × Scheduler
unfolding promote_all
promote_retries now s =
    promote_all now (select (is_due_at now) s.retry)
      (record s { retry = select (is_later now) s.retry })
