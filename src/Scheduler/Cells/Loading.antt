-- ===== src/Scheduler/Cells/Loading.antt =====
-- `_ensure_resident` of image_processor/engine/scheduler.py: how a model becomes resident on a cell.
use image_processor.Base.{
  ℕ, suc, ◌+◌, ◌-◌, Bool, true, false, Option, none, some, List, [], ◌∷◌, length, ◌==◌,
  if◌then◌else◌,
}
use image_processor.Types.{Text}
use image_processor.Table.{Table, find}
use image_processor.Protocol.Tables.{ErrorClass, transient, permanent, contaminating}
use image_processor.Residency.{ResidencyStats, get_or, store, record_load, record_memory_pressure}
use image_processor.Residency.Admission.{Reason, over_budget}
use image_processor.Scheduler.{Queued}
use image_processor.Scheduler.Answers.{failed_with, claim, block, notify, retry_later}
use image_processor.Scheduler.Lanes.{priority_in}
use image_processor.Scheduler.Cells.{
  Cell, LoadReply, loaded, load_failed, other_reply, Outside, Pass, Step, ◌>>=◌, ◌>>◌, pure, modify,
  ask, queues, change_lane, lane_of, emits, resident_for, set_resident, recycle_and_forget,
  received,
}

-- What `_ensure_resident` returns.
pub data Residence : Type 0 where
  resident deferred_load failed lost_cell : Residence

-- The texts of the codes that the scheduler itself records.
pub record Codes : Type 0 where
  pub model_blocked : Text
  pub bundle_invalid : Text
  pub model_not_staged : Text
  pub model_over_budget : Text
  pub not_in_cache : Text → Text
  pub needs_mib : Text → ℕ → Text
  pub answered_a_load : Text

abbrev pub is_over_budget : Reason → Bool
is_over_budget over_budget = true
is_over_budget _ = false

module _ {F : Type 0} (out : Outside F) (codes : Codes) where
  abbrev pub set_jobs : Text → List Queued → Step F (Unit {0})
  set_jobs digest jobs = modify (change_lane digest λ lane. record lane { jobs = jobs })

  -- `lane.jobs.popleft()`
  abbrev pub rest_of : List Queued → List Queued
  rest_of [] = []
  rest_of (_ ∷ jobs) = jobs

  abbrev pub pop_left : Text → Step F (Unit {0})
  pop_left digest = modify (change_lane digest λ lane. record lane { jobs = rest_of lane.jobs })

  -- `if job is not None: self._notify(job, self._failed_result(...))`
  abbrev pub notify_failed : Text → Text → Option Queued → Step F (Unit {0})
  notify_failed code error job =
      queues (notify (failed_with (some permanent) (some (out.joined code error))) job) >>= emits

  abbrev pub block_claimed : Text → Text → Text → Option Queued → Step F (Unit {0})
  block_claimed code error reason none = pure tt
  block_claimed code error reason (some entry) =
      queues (block entry reason) >>= notify_failed code error

  -- The loop of `_block_lane`
  unfoldable pub block_all : Text → Text → Text → Text → List Queued → Step F (Unit {0})
  unfolding claim block
  block_all digest code error reason [] = pure tt
  block_all digest code error reason (entry ∷ jobs) =
      set_jobs digest jobs
      >> queues (claim entry)
      >>= block_claimed code error reason
      >> block_all digest code error reason jobs

  -- `_block_lane`
  unfoldable pub block_lane : Text → Text → Text → Step F (Unit {0})
  unfolding block_all find
  block_lane digest code error =
      modify
        (change_lane digest λ lane. record lane { blocked_reason = some (out.joined code error) })
      >> λ p. block_all digest code error (out.joined code error) (lane_of digest p).jobs p

  -- `_retry_later`, at its reading of the clock
  abbrev pub wait_for : Queued → Text → ℕ → Step F (Unit {0})
  wait_for entry error delay =
      ask out.clock
      >>= (λ now. queues (retry_later now delay entry error entry.job.attempts))
      >>= emits

  -- A lane whose model could not be had backs off, and its head job waits with it.
  abbrev pub back_off : Text → Queued → Text → Step F (Unit {0})
  back_off digest entry error = pop_left digest >> λ p.
      let failures = suc (lane_of digest p).load_failures in
      (modify (
            change_lane digest λ lane. record lane {
              load_failures = failures;
              blocked_until_ms = p.now_ms + out.backoff p.calls failures;
            })
          >> wait_for entry error (out.backoff p.calls failures))
        p

  abbrev pub note_pressure : Text → Bool → Step F (Unit {0})
  note_pressure digest true =
      modify λ p. record p { policy = record_memory_pressure out.ops digest p.policy }
  note_pressure digest false = pure tt

  abbrev pub load_verdict : Cell → Text → Queued → Text → Text → ErrorClass → Step F Residence
  load_verdict cell digest entry code error contaminating =
      recycle_and_forget cell >> pure lost_cell
  load_verdict cell digest entry code error permanent = block_lane digest code error >> pure failed
  load_verdict cell digest entry code error transient =
      back_off digest entry (out.joined code error) >> pure failed

  -- The records once a model is loaded.
  abbrev pub new_stats : Cell → Text → ℕ → ℕ → F → Pass F → ResidencyStats F
  new_stats cell digest estimate device_mib load_ms p = record {
    digest = digest;
    size_mib = device_mib;
    estimate_mib = estimate;
    load_ms = load_ms;
    queued_jobs = length (lane_of digest p).jobs;
    priority = priority_in (lane_of digest p).jobs;
    last_used_ms = p.now_ms;
    loaded_at_ms = p.now_ms;
    hits = 0;
    leased = false;
  }

  -- `if reply.context_mib:`
  abbrev pub store_context : Text → ℕ → Table ℕ → Table ℕ
  store_context cell_id context t = if context == 0 then t else store cell_id context t

  abbrev pub made_resident : Cell → Text → ℕ → ℕ → F → ℕ → Pass F → Pass F
  made_resident cell digest estimate device_mib load_ms context p =
      change_lane digest
        (λ lane. record lane {
          burst_remaining = length lane.jobs;
          load_failures = 0;
          blocked_until_ms = 0;
        })
        (set_resident cell
          (store digest (new_stats cell digest estimate device_mib load_ms p) (resident_for cell p))
          (record p {
            context = store_context cell.cell_id context p.context;
            policy = record_load out.ops digest (some device_mib) (some load_ms) p.policy;
            free = store cell.cell_id (get_or cell.cell_id 0 p.free - device_mib) p.free;
            loads = suc p.loads;
          }))

  -- `_load`, once the cell has answered, with `_load_failed`
  abbrev pub load_reply : Cell → Text → Queued → ℕ → Option (LoadReply F) → Step F Residence
  load_reply cell digest entry estimate none = pure lost_cell
  load_reply cell digest entry estimate (some (load_failed code error class pressure)) =
      note_pressure digest pressure >> load_verdict cell digest entry code error class
  load_reply cell digest entry estimate (some other_reply) =
      pop_left digest
      >> (λ p. wait_for entry codes.answered_a_load (out.backoff p.calls entry.job.attempts) p)
      >> pure failed
  load_reply cell digest entry estimate (some (loaded device_mib load_ms context)) =
      modify (made_resident cell digest estimate device_mib load_ms context) >> pure resident

  -- `cell.device or "cpu"`
  abbrev pub device_key : Cell → Text
  device_key cell = elim cell.device [ none ↦ out.cpu | some d ↦ d ]

  -- `admission.required_mib if cell.device is not None else None`
  abbrev pub arena_limit : Cell → ℕ → Option ℕ
  arena_limit cell required = elim cell.device [ none ↦ none | some _ ↦ some required ]

  -- `_load`, with the memory that its admission allows
  unfoldable pub load_model : Cell → Text → Queued → ℕ → ℕ → Step F Residence
  unfolding find recycle_and_forget block_lane record_load record_memory_pressure resident_for
      priority_in retry_later
  load_model cell digest entry estimate required =
      modify (λ p. record p {
        loads_left =
            store (device_key cell) (get_or (device_key cell) 1 p.loads_left - 1) p.loads_left;
      })
      >> ask (λ n. out.load n digest (arena_limit cell required))
      >>= received cell
      >>= load_reply cell digest entry estimate
