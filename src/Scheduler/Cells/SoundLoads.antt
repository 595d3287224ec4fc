-- ===== src/Scheduler/Cells/SoundLoads.antt =====
-- `_ensure_resident` of image_processor/engine/scheduler.py keeps the ledger sound.
use image_processor.Base.{ℕ, ◌-◌, Bool, true, false, Option, none, some, List, [], ◌∷◌, suc}
use image_processor.Types.{Text}
use image_processor.Protocol.Tables.{ErrorClass, transient, permanent, contaminating}
use image_processor.Residency.{get_or, store}
use image_processor.Scheduler.{Queued}
use image_processor.Scheduler.Answers.{claim, block, retry_later, Effect}
use image_processor.Scheduler.Outcomes.{retry_later-Keeps}
use image_processor.Scheduler.Cells.{
  Cell, LoadReply, loaded, load_failed, other_reply, Outside, Pass, Step, ◌>>=◌, ◌>>◌, pure, ask,
  queues, change_lane, lane_of, emits, recycle_and_forget, received,
}
use image_processor.Scheduler.Cells.Loading.{
  failed, lost_cell, Codes, set_jobs, pop_left, notify_failed, block_claimed, block_all, block_lane,
  wait_for, back_off, note_pressure, load_verdict, load_reply, device_key, arena_limit, load_model,
}
use image_processor.Scheduler.Cells.Sound.{
  Preserves, Preserves-bind, Preserves-queues, Preserves-then, block-Keeps, claim-Keeps, idle,
  recycle_and_forget-Preserves, received-Preserves,
}

module _ {F : Type 0} (out : Outside F) (codes : Codes) where
  pub notify_failed-Preserves :
      (code error : Text) (o : Option Queued) → Preserves (notify_failed out codes code error o)
  notify_failed-Preserves code error none p sound = sound
  notify_failed-Preserves code error (some entry) p sound = sound

  block_claimed-Preserves :
      (code error reason : Text) (o : Option Queued)
      → Preserves (block_claimed out codes code error reason o)
  block_claimed-Preserves code error reason none = idle tt
  block_claimed-Preserves code error reason (some entry) =
      Preserves-bind (queues (block entry reason)) (notify_failed out codes code error)
        (Preserves-queues (block entry reason) (block-Keeps entry reason))
        (notify_failed-Preserves code error)

  block_all-Preserves :
      (digest code error reason : Text) (jobs : List Queued)
      → Preserves (block_all out codes digest code error reason jobs)
  unfolding block_all
  block_all-Preserves digest code error reason [] = idle tt
  block_all-Preserves digest code error reason (entry ∷ jobs) =
      Preserves-then
        (set_jobs out codes digest jobs
          >> queues (claim entry)
          >>= block_claimed out codes code error reason)
        (block_all out codes digest code error reason jobs)
        (Preserves-bind (set_jobs out codes digest jobs >> queues (claim entry))
          (block_claimed out codes code error reason)
          (Preserves-then (set_jobs out codes digest jobs) (queues (claim entry)) (λ p sound. sound)
            (Preserves-queues (claim entry) (claim-Keeps entry)))
          (block_claimed-Preserves code error reason))
        (block_all-Preserves digest code error reason jobs)

  pub block_lane-Preserves :
      (digest code error : Text) → Preserves (block_lane out codes digest code error)
  unfolding block_lane
  block_lane-Preserves digest code error p sound =
      let p' : Pass F =
        change_lane digest (λ lane. record lane { blocked_reason = some (out.joined code error) })
          p in
      block_all-Preserves digest code error (out.joined code error) (lane_of digest p').jobs p'
        sound

  wait_for-Preserves :
      (entry : Queued) (error : Text) (delay : ℕ) → Preserves (wait_for out codes entry error delay)
  wait_for-Preserves entry error delay =
      let later : ℕ → Step F (List Effect) =
        λ now. queues (retry_later now delay entry error entry.job.attempts) in
      Preserves-bind (ask out.clock >>= later) emits
        (Preserves-bind (ask out.clock) later (λ p sound. sound)
          (λ now.
            Preserves-queues (retry_later now delay entry error entry.job.attempts)
              (retry_later-Keeps now delay entry error entry.job.attempts)))
        (λ effects p sound. sound)

  pub back_off-Preserves :
      (digest : Text) (entry : Queued) (error : Text)
      → Preserves (back_off out codes digest entry error)
  back_off-Preserves digest entry error p sound =
      wait_for-Preserves entry error
        (out.backoff (pop_left out codes digest p).1.calls
          (suc (lane_of digest (pop_left out codes digest p).1).load_failures))
        _ sound

  load_verdict-Preserves :
      (cell : Cell) (digest : Text) (entry : Queued) (code error : Text) (class : ErrorClass)
      → Preserves (load_verdict out codes cell digest entry code error class)
  load_verdict-Preserves cell digest entry code error contaminating =
      Preserves-then (recycle_and_forget cell) (pure lost_cell) (recycle_and_forget-Preserves cell)
        (idle lost_cell)
  load_verdict-Preserves cell digest entry code error permanent =
      Preserves-then (block_lane out codes digest code error) (pure failed)
        (block_lane-Preserves digest code error) (idle failed)
  load_verdict-Preserves cell digest entry code error transient =
      Preserves-then (back_off out codes digest entry (out.joined code error)) (pure failed)
        (back_off-Preserves digest entry (out.joined code error)) (idle failed)

  note_pressure-Preserves :
      (digest : Text) (pressure : Bool) → Preserves (note_pressure out codes digest pressure)
  note_pressure-Preserves digest true p sound = sound
  note_pressure-Preserves digest false p sound = sound

  load_reply-Preserves :
      (cell : Cell) (digest : Text) (entry : Queued) (estimate : ℕ) (o : Option (LoadReply F))
      → Preserves (load_reply out codes cell digest entry estimate o)
  load_reply-Preserves cell digest entry estimate none = idle lost_cell
  load_reply-Preserves cell digest entry estimate (some (load_failed code error class pressure)) =
      Preserves-then (note_pressure out codes digest pressure)
        (load_verdict out codes cell digest entry code error class)
        (note_pressure-Preserves digest pressure)
        (load_verdict-Preserves cell digest entry code error class)
  load_reply-Preserves cell digest entry estimate (some other_reply) =
      let wait = λ (p : Pass F).
        wait_for out codes entry codes.answered_a_load (out.backoff p.calls entry.job.attempts) p in
      Preserves-then (pop_left out codes digest >> wait) (pure failed)
        (Preserves-then (pop_left out codes digest) wait (λ p sound. sound)
          (λ p sound.
            wait_for-Preserves entry codes.answered_a_load (out.backoff p.calls entry.job.attempts)
              p sound))
        (idle failed)
  load_reply-Preserves cell digest entry estimate (some (loaded device_mib load_ms context)) =
      λ p sound. sound

  pub load_model-Preserves :
      (cell : Cell) (digest : Text) (entry : Queued) (estimate required : ℕ)
      → Preserves (load_model out codes cell digest entry estimate required)
  unfolding load_model
  load_model-Preserves cell digest entry estimate required p sound =
      let request : Step F (Option (LoadReply F)) =
        ask (λ n. out.load n digest (arena_limit out codes cell required)) >>= received cell in
      Preserves-bind request (load_reply out codes cell digest entry estimate)
        (Preserves-bind (ask λ n. out.load n digest (arena_limit out codes cell required))
          (received cell) (λ p sound. sound) (received-Preserves cell))
        (load_reply-Preserves cell digest entry estimate)
        (record p {
          loads_left =
              store (device_key out codes cell)
                (get_or (device_key out codes cell) 1 p.loads_left - 1) p.loads_left;
        })
        sound
