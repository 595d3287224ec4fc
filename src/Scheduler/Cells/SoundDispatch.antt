-- ===== src/Scheduler/Cells/SoundDispatch.antt =====
-- `_dispatch_one` of image_processor/engine/scheduler.py keeps the ledger sound.
use image_processor.Base.{
  ℕ, Bool, true, false, Option, none, some, List, [], ◌∷◌, is_some, ltb, ◌==◌,
}
use image_processor.Types.{Text}
use image_processor.Table.{find}
use image_processor.Residency.{get_or}
use image_processor.Residency.Admission.{Admission}
use image_processor.Residency.Eviction.{victims}
use image_processor.Scheduler.{Queued}
use image_processor.Scheduler.Answers.{claim, block}
use image_processor.Scheduler.Attempts.Redispatch.{start_inference}
use image_processor.Scheduler.Cells.{
  Cell, Staged, staged, not_staged, raises, Outside, Step, ◌>>=◌, ◌>>◌, pure, ask, queues, lane_of,
  recycle_and_forget, memory, unload_session, resident_for,
}
use image_processor.Scheduler.Cells.Loading.{
  Residence, resident, deferred_load, failed, lost_cell, Codes, is_over_budget, pop_left,
  notify_failed, block_lane, back_off, device_key,
}
use image_processor.Scheduler.Cells.Admitting.{
  while_usable, unload_all, evict_for, admit_model, load_admitted, once_evicted, first_admission,
  once_read, with_bundle, unless_waiting, unless_blocked, ensure_resident,
}
use image_processor.Scheduler.Cells.Dispatch.{
  head_of, Turn, next_lane, no_lane, sent, once_sent, once_started, by_residence, once_claimed,
  serve_head, serve_lane, serve_lanes, has_work, ranked_digests, once_available, dispatch_one,
  next_turn,
}
use image_processor.Scheduler.Cells.Sound.{
  Preserves, Preserves-bind, Preserves-queues, Preserves-if, Preserves-then, block-Keeps,
  claim-Keeps, start_inference-Keeps, idle, memory-Preserves, unload_session-Preserves,
}
use image_processor.Scheduler.Cells.SoundLoads.{
  notify_failed-Preserves, block_lane-Preserves, back_off-Preserves, load_model-Preserves,
}

module _ {F : Type 0} (out : Outside F) (codes : Codes) where
  unload_all-Preserves :
      (cell : Cell) (victims : List Text) → Preserves (unload_all out codes cell victims)
  unfolding unload_all
  unload_all-Preserves cell [] = idle true
  unload_all-Preserves cell (victim ∷ victims) =
      let rest = unload_all out codes cell victims in
      Preserves-bind (unload_session out cell victim) (while_usable out codes rest)
        (unload_session-Preserves out cell victim)
        (λ usable.
          Preserves-if usable rest (pure false) (unload_all-Preserves cell victims) (idle false))

  evict_for-Preserves :
      (cell : Cell) (admission : Admission) → Preserves (evict_for out codes cell admission)
  unfolding evict_for
  evict_for-Preserves cell admission p sound = unload_all-Preserves cell _ _ sound

  load_admitted-Preserves :
      (cell : Cell) (digest : Text) (entry : Queued) (estimate : ℕ) (admission : Admission)
      → Preserves (load_admitted out codes cell digest entry estimate admission)
  load_admitted-Preserves cell digest entry estimate admission =
      Preserves-if admission.admitted _ _
        (load_model-Preserves out codes cell digest entry estimate admission.required_mib)
        (λ p sound. sound)

  once_evicted-Preserves :
      (cell : Cell) (digest : Text) (entry : Queued) (estimate : ℕ) (usable : Bool)
      → Preserves (once_evicted out codes cell digest entry estimate usable)
  once_evicted-Preserves cell digest entry estimate usable p =
      Preserves-if usable _ (pure lost_cell)
        (load_admitted-Preserves cell digest entry estimate
          (admit_model out codes cell digest estimate p))
        (idle lost_cell) p

  first_admission-Preserves :
      (cell : Cell) (digest : Text) (entry : Queued) (estimate : ℕ) (admission : Admission)
      → Preserves (first_admission out codes cell digest entry estimate admission)
  first_admission-Preserves cell digest entry estimate admission =
      let blocks =
        block_lane out codes digest codes.model_over_budget
          (codes.needs_mib digest admission.required_mib) in
      Preserves-if admission.admitted _ _
        (load_model-Preserves out codes cell digest entry estimate admission.required_mib)
        (Preserves-if (is_over_budget admission.reason) (blocks >> pure failed) _
          (Preserves-then blocks (pure failed)
            (block_lane-Preserves out codes digest codes.model_over_budget
              (codes.needs_mib digest admission.required_mib))
            (idle failed))
          (Preserves-bind (evict_for out codes cell admission)
            (once_evicted out codes cell digest entry estimate) (evict_for-Preserves cell admission)
            (once_evicted-Preserves cell digest entry estimate)))

  once_read-Preserves :
      (cell : Cell) (digest : Text) (entry : Queued) (estimate : ℕ) (available : Bool)
      → Preserves (once_read out codes cell digest entry estimate available)
  once_read-Preserves cell digest entry estimate available p =
      Preserves-if available _ (pure lost_cell)
        (first_admission-Preserves cell digest entry estimate
          (admit_model out codes cell digest estimate p))
        (idle lost_cell) p

  with_bundle-Preserves :
      (cell : Cell) (digest : Text) (entry : Queued) (found : Staged)
      → Preserves (with_bundle out codes cell digest entry found)
  with_bundle-Preserves cell digest entry (raises error) =
      Preserves-then (block_lane out codes digest codes.bundle_invalid error) (pure failed)
        (block_lane-Preserves out codes digest codes.bundle_invalid error) (idle failed)
  with_bundle-Preserves cell digest entry not_staged =
      let error = out.joined codes.model_not_staged (codes.not_in_cache digest) in
      Preserves-then (back_off out codes digest entry error) (pure failed)
        (back_off-Preserves out codes digest entry error) (idle failed)
  with_bundle-Preserves cell digest entry (staged estimate) =
      Preserves-bind (memory out cell) (once_read out codes cell digest entry estimate)
        (memory-Preserves out cell) (once_read-Preserves cell digest entry estimate)

  unless_waiting-Preserves :
      (cell : Cell) (digest : Text) (entry : Queued)
      → Preserves (unless_waiting out codes cell digest entry)
  unless_waiting-Preserves cell digest entry p =
      Preserves-if (ltb p.now_ms (lane_of digest p).blocked_until_ms) (pure deferred_load) _
        (idle deferred_load)
        (Preserves-if (get_or (device_key out codes cell) 0 p.loads_left == 0) (pure deferred_load)
          _ (idle deferred_load)
          (Preserves-bind (ask λ n. out.cache n digest) (with_bundle out codes cell digest entry)
            (λ p sound. sound) (with_bundle-Preserves cell digest entry)))
        p

  unless_blocked-Preserves :
      (cell : Cell) (digest : Text) (entry : Queued) (o : Option Text)
      → Preserves (unless_blocked out codes cell digest entry o)
  unless_blocked-Preserves cell digest entry none = unless_waiting-Preserves cell digest entry
  unless_blocked-Preserves cell digest entry (some reason) =
      let blocks = pop_left out codes digest >> queues (block entry reason) in
      let tells = notify_failed out codes codes.model_blocked reason in
      Preserves-then (blocks >>= tells) (pure failed)
        (Preserves-bind blocks tells
          (Preserves-then (pop_left out codes digest) (queues (block entry reason))
            (λ p sound. sound) (Preserves-queues (block entry reason) (block-Keeps entry reason)))
          (notify_failed-Preserves out codes codes.model_blocked reason))
        (idle failed)

  ensure_resident-Preserves :
      (cell : Cell) (digest : Text) (entry : Queued)
      → Preserves (ensure_resident out codes cell digest entry)
  unfolding ensure_resident
  ensure_resident-Preserves cell digest entry p =
      Preserves-if (is_some (find digest (resident_for cell p))) (pure resident) _ (idle resident)
        (unless_blocked-Preserves cell digest entry (lane_of digest p).blocked_reason) p

  once_sent-Preserves :
      (cell : Cell) (digest : Text) (entry : Queued) (taken : Bool)
      → Preserves (once_sent out codes cell digest entry taken)
  unfolding recycle_and_forget
  once_sent-Preserves cell digest entry true p sound = sound
  once_sent-Preserves cell digest entry false p sound = sound

  once_started-Preserves :
      (cell : Cell) (digest : Text) (o : Option Queued)
      → Preserves (once_started out codes cell digest o)
  once_started-Preserves cell digest none = λ p sound. sound
  once_started-Preserves cell digest (some entry) =
      let asks = pop_left out codes digest >> ask (λ n. out.sends n entry.job) in
      Preserves-bind asks (once_sent out codes cell digest entry) (λ p sound. sound)
        (once_sent-Preserves cell digest entry)

  by_residence-Preserves :
      (cell : Cell) (digest : Text) (entry : Queued) (r : Residence)
      → Preserves (by_residence out codes cell digest entry r)
  by_residence-Preserves cell digest entry resident =
      Preserves-bind (queues (start_inference (some entry))) (once_started out codes cell digest)
        (Preserves-queues (start_inference (some entry)) (start_inference-Keeps (some entry)))
        (once_started-Preserves cell digest)
  by_residence-Preserves cell digest entry lost_cell = idle no_lane
  by_residence-Preserves cell digest entry failed = idle next_lane
  by_residence-Preserves cell digest entry deferred_load = idle next_lane

  once_claimed-Preserves :
      (cell : Cell) (digest : Text) (o : Option Queued)
      → Preserves (once_claimed out codes cell digest o)
  once_claimed-Preserves cell digest none p sound = sound
  once_claimed-Preserves cell digest (some entry) p sound =
      Preserves-bind (ensure_resident out codes cell digest entry)
        (by_residence out codes cell digest entry) (ensure_resident-Preserves cell digest entry)
        (by_residence-Preserves cell digest entry) _ sound

  serve_head-Preserves :
      (cell : Cell) (digest : Text) (o : Option Queued)
      → Preserves (serve_head out codes cell digest o)
  serve_head-Preserves cell digest none = idle next_lane
  serve_head-Preserves cell digest (some entry) =
      Preserves-bind (queues (claim entry)) (once_claimed out codes cell digest)
        (Preserves-queues (claim entry) (claim-Keeps entry)) (once_claimed-Preserves cell digest)

  next_turn-Preserves :
      (digest : Text) (rest : Step F (Option (Text × Queued))) (turn : Turn)
      → Preserves rest
      → Preserves (next_turn out codes digest rest turn)
  next_turn-Preserves digest rest next_lane h p sound = h p sound
  next_turn-Preserves digest rest no_lane h p sound = sound
  next_turn-Preserves digest rest (sent entry) h p sound = sound

  serve_lanes-Preserves :
      (cell : Cell) (digests : List Text) → Preserves (serve_lanes out codes cell digests)
  unfolding serve_lanes serve_lane
  serve_lanes-Preserves cell [] = λ p sound. sound
  serve_lanes-Preserves cell (digest ∷ digests) =
      let rest = serve_lanes out codes cell digests in
      Preserves-bind (serve_lane out codes cell digest) (next_turn out codes digest rest)
        (λ p. serve_head-Preserves cell digest (head_of (lane_of digest p).jobs) p)
        (λ turn. next_turn-Preserves digest rest turn (serve_lanes-Preserves cell digests))

  once_available-Preserves :
      (cell : Cell) (available : Bool) → Preserves (once_available out codes cell available)
  once_available-Preserves cell available p =
      let digests = ranked_digests out codes cell p in
      Preserves-if available (serve_lanes out codes cell digests) (pure none)
        (serve_lanes-Preserves cell digests) (λ p sound. sound) p

  pub dispatch_one-Preserves : (cell : Cell) → Preserves (dispatch_one out codes cell)
  unfolding dispatch_one
  dispatch_one-Preserves cell p =
      Preserves-if (has_work out codes p.scheduler.lanes)
        (memory out cell >>= once_available out codes cell) (pure none)
        (Preserves-bind (memory out cell) (once_available out codes cell)
          (memory-Preserves out cell) (once_available-Preserves cell))
        (λ p sound. sound) p
