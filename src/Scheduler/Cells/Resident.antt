-- ===== src/Scheduler/Cells/Resident.antt =====
-- When `_ensure_resident` of image_processor/engine/scheduler.py answers that a session is ready.
use image_processor.Base.{
  ℕ, ◌-◌, refl, ap, ◌∙◌, inl, inr, Bool, Option, none, some, Bool-cases, is_some, ltb, ◌==◌,
}
use image_processor.Types.{Text}
use image_processor.Table.{find}
use image_processor.Protocol.Tables.{ErrorClass, transient, permanent, contaminating}
use image_processor.Residency.{get_or, store}
use image_processor.Residency.Admission.{Admission}
use image_processor.Scheduler.{Queued}
use image_processor.Scheduler.Answers.{block}
use image_processor.Scheduler.Cells.{
  Cell, LoadReply, loaded, load_failed, other_reply, Staged, staged, not_staged, raises, Outside,
  Pass, Step, ◌>>=◌, ◌>>◌, pure, ask, queues, lane_of, recycle_and_forget, received, memory,
  resident_for,
}
use image_processor.Scheduler.Cells.Loading.{
  deferred_load, failed, lost_cell, Codes, is_over_budget, pop_left, notify_failed, block_lane,
  back_off, wait_for, note_pressure, load_verdict, load_reply, device_key, arena_limit, load_model,
  made_resident, new_stats,
}
use image_processor.Scheduler.Cells.Admitting.{
  evict_for, admit_model, load_admitted, once_evicted, first_admission, once_read, with_bundle,
  unless_waiting, unless_blocked, ensure_resident,
}
use image_processor.Scheduler.Cells.Held.{
  After, After-any, After-if, IsHeld, Resides, get_or-store, is_some-store,
}

module _ {F : Type 0} (out : Outside F) (codes : Codes) where
  load_verdict-Resides :
      (cell : Cell) (digest : Text) (entry : Queued) (code error : Text) (class : ErrorClass)
      (p : Pass F)
      → After (Resides cell digest) (load_verdict out codes cell digest entry code error class p)
  load_verdict-Resides cell digest entry code error contaminating p =
      After-any (Resides cell digest) (recycle_and_forget cell) (λ _. pure lost_cell) p (λ _ p'. tt)
  load_verdict-Resides cell digest entry code error permanent p =
      After-any (Resides cell digest) (block_lane out codes digest code error) (λ _. pure failed) p
        (λ _ p'. tt)
  load_verdict-Resides cell digest entry code error transient p =
      After-any (Resides cell digest) (back_off out codes digest entry (out.joined code error))
        (λ _. pure failed) p (λ _ p'. tt)

  made_resident-IsHeld :
      (cell : Cell) (digest : Text) (estimate device_mib : ℕ) (load_ms : F) (context : ℕ)
      (p : Pass F)
      → IsHeld cell digest
          (made_resident out codes cell digest estimate device_mib load_ms context p)
  unfolding resident_for
  made_resident-IsHeld cell digest estimate device_mib load_ms context p =
      let stats = new_stats out codes cell digest estimate device_mib load_ms p in
      let records = store digest stats (resident_for cell p) in
      ap (λ t. is_some (find digest t)) (get_or-store cell.cell_id records p.resident)
      ∙ is_some-store digest stats (resident_for cell p)

  load_reply-Resides :
      (cell : Cell) (digest : Text) (entry : Queued) (estimate : ℕ) (o : Option (LoadReply F))
      (p : Pass F)
      → After (Resides cell digest) (load_reply out codes cell digest entry estimate o p)
  load_reply-Resides cell digest entry estimate none p = tt
  load_reply-Resides cell digest entry estimate (some (load_failed code error class pressure)) p =
      After-any (Resides cell digest) (note_pressure out codes digest pressure)
        (λ _. load_verdict out codes cell digest entry code error class) p
        (λ _ p'. load_verdict-Resides cell digest entry code error class p')
  load_reply-Resides cell digest entry estimate (some other_reply) p =
      After-any (Resides cell digest)
        (pop_left out codes digest >> λ p'.
          wait_for out codes entry codes.answered_a_load (out.backoff p'.calls entry.job.attempts)
            p')
        (λ _. pure failed) p (λ _ p'. tt)
  load_reply-Resides cell digest entry estimate (some (loaded device_mib load_ms context)) p =
      made_resident-IsHeld cell digest estimate device_mib load_ms context p

  load_model-Resides :
      (cell : Cell) (digest : Text) (entry : Queued) (estimate required : ℕ) (p : Pass F)
      → After (Resides cell digest) (load_model out codes cell digest entry estimate required p)
  unfolding load_model
  load_model-Resides cell digest entry estimate required p =
      let request : Step F (Option (LoadReply F)) =
        ask (λ n. out.load n digest (arena_limit out codes cell required)) >>= received cell in
      After-any (Resides cell digest) request (load_reply out codes cell digest entry estimate)
        (record p {
          loads_left =
              store (device_key out codes cell)
                (get_or (device_key out codes cell) 1 p.loads_left - 1) p.loads_left;
        })
        (load_reply-Resides cell digest entry estimate)

  load_admitted-Resides :
      (cell : Cell) (digest : Text) (entry : Queued) (estimate : ℕ) (admission : Admission)
      (p : Pass F)
      → After (Resides cell digest) (load_admitted out codes cell digest entry estimate admission p)
  load_admitted-Resides cell digest entry estimate admission p =
      After-if (Resides cell digest) admission.admitted _ _ p
        (load_model-Resides cell digest entry estimate admission.required_mib p) tt

  once_evicted-Resides :
      (cell : Cell) (digest : Text) (entry : Queued) (estimate : ℕ) (usable : Bool) (p : Pass F)
      → After (Resides cell digest) (once_evicted out codes cell digest entry estimate usable p)
  once_evicted-Resides cell digest entry estimate usable p =
      After-if (Resides cell digest) usable _ (pure lost_cell) p
        (load_admitted-Resides cell digest entry estimate
          (admit_model out codes cell digest estimate p) p)
        tt

  first_admission-Resides :
      (cell : Cell) (digest : Text) (entry : Queued) (estimate : ℕ) (admission : Admission)
      (p : Pass F)
      → After
          (Resides cell digest)
          (first_admission out codes cell digest entry estimate admission p)
  first_admission-Resides cell digest entry estimate admission p =
      let blocks =
        block_lane out codes digest codes.model_over_budget
          (codes.needs_mib digest admission.required_mib) in
      After-if (Resides cell digest) admission.admitted _ _ p
        (load_model-Resides cell digest entry estimate admission.required_mib p)
        (After-if (Resides cell digest) (is_over_budget admission.reason) (blocks >> pure failed) _
          p (After-any (Resides cell digest) blocks (λ _. pure failed) p (λ _ p'. tt))
          (After-any (Resides cell digest) (evict_for out codes cell admission)
            (once_evicted out codes cell digest entry estimate) p
            (once_evicted-Resides cell digest entry estimate)))

  once_read-Resides :
      (cell : Cell) (digest : Text) (entry : Queued) (estimate : ℕ) (available : Bool) (p : Pass F)
      → After (Resides cell digest) (once_read out codes cell digest entry estimate available p)
  once_read-Resides cell digest entry estimate available p =
      After-if (Resides cell digest) available _ (pure lost_cell) p
        (first_admission-Resides cell digest entry estimate
          (admit_model out codes cell digest estimate p) p)
        tt

  with_bundle-Resides :
      (cell : Cell) (digest : Text) (entry : Queued) (found : Staged) (p : Pass F)
      → After (Resides cell digest) (with_bundle out codes cell digest entry found p)
  with_bundle-Resides cell digest entry (raises error) p =
      After-any (Resides cell digest) (block_lane out codes digest codes.bundle_invalid error)
        (λ _. pure failed) p (λ _ p'. tt)
  with_bundle-Resides cell digest entry not_staged p =
      After-any (Resides cell digest)
        (back_off out codes digest entry
          (out.joined codes.model_not_staged (codes.not_in_cache digest)))
        (λ _. pure failed) p (λ _ p'. tt)
  with_bundle-Resides cell digest entry (staged estimate) p =
      After-any (Resides cell digest) (memory out cell)
        (once_read out codes cell digest entry estimate) p
        (once_read-Resides cell digest entry estimate)

  unless_waiting-Resides :
      (cell : Cell) (digest : Text) (entry : Queued) (p : Pass F)
      → After (Resides cell digest) (unless_waiting out codes cell digest entry p)
  unless_waiting-Resides cell digest entry p =
      After-if (Resides cell digest) (ltb p.now_ms (lane_of digest p).blocked_until_ms)
        (pure deferred_load) _ p tt
        (After-if (Resides cell digest) (get_or (device_key out codes cell) 0 p.loads_left == 0)
          (pure deferred_load) _ p tt
          (After-any (Resides cell digest) (ask λ n. out.cache n digest)
            (with_bundle out codes cell digest entry) p (with_bundle-Resides cell digest entry)))

  unless_blocked-Resides :
      (cell : Cell) (digest : Text) (entry : Queued) (o : Option Text) (p : Pass F)
      → After (Resides cell digest) (unless_blocked out codes cell digest entry o p)
  unless_blocked-Resides cell digest entry none p = unless_waiting-Resides cell digest entry p
  unless_blocked-Resides cell digest entry (some reason) p =
      After-any (Resides cell digest)
        (pop_left out codes digest
          >> queues (block entry reason)
          >>= notify_failed out codes codes.model_blocked reason)
        (λ _. pure failed) p (λ _ p'. tt)

  pub ensure_resident-Resides :
      (cell : Cell) (digest : Text) (entry : Queued) (p : Pass F)
      → After (Resides cell digest) (ensure_resident out codes cell digest entry p)
  unfolding ensure_resident
  ensure_resident-Resides cell digest entry p =
      elim (Bool-cases (is_some (find digest (resident_for cell p)))) [
        | inl e ↦ simp e refl
        | inr e ↦
            simp e (unless_blocked-Resides cell digest entry (lane_of digest p).blocked_reason p)
      ]
