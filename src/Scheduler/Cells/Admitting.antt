-- ===== src/Scheduler/Cells/Admitting.antt =====
-- `_ensure_resident`, `_admit` and `_evict_for` of image_processor/engine/scheduler.py.
use image_processor.Base.{
  ℕ, suc, ◌+◌, Bool, true, false, Option, none, some, List, [], ◌∷◌, length, ltb, ◌==◌,
  if◌then◌else◌, is_some,
}
use image_processor.Types.{Text}
use image_processor.Table.{Table, find}
use image_processor.Residency.{ResidencyStats, footprint_mib, get_or}
use image_processor.Residency.Admission.{Admission, admit}
use image_processor.Residency.Eviction.{victims}
use image_processor.Scheduler.{Queued, Lane}
use image_processor.Scheduler.Answers.{block, retry_later}
use image_processor.Scheduler.Lanes.{priority_in}
use image_processor.Scheduler.Cells.{
  Cell, Staged, staged, not_staged, raises, Outside, Pass, Step, ◌>>=◌, ◌>>◌, pure, modify, ask,
  queues, lane_of, resident_for, set_resident, memory, unload_session,
}
use image_processor.Scheduler.Cells.Loading.{
  Residence, resident, deferred_load, failed, lost_cell, Codes, is_over_budget, pop_left,
  notify_failed, block_lane, back_off, device_key, load_model,
}

abbrev pub same_device : Option Text → Option Text → Bool
same_device none none = true
same_device (some a) (some b) = a == b
same_device _ _ = false

-- `_leases`
abbrev pub leases_of : Table Lane → List Text
leases_of [] = []
leases_of ((digest, lane) ∷ lanes) =
    if ltb 0 lane.burst_remaining then digest ∷ leases_of lanes else leases_of lanes

-- `lane.priority if lane and lane.jobs else 0`
abbrev pub priority_or_zero : List Queued → ℕ
priority_or_zero [] = 0
priority_or_zero (entry ∷ jobs) = priority_in (entry ∷ jobs)

module _ {F : Type 0} where
  abbrev pub total_footprint : Table (ResidencyStats F) → ℕ
  total_footprint [] = 0
  total_footprint ((_, stats) ∷ records) = footprint_mib stats + total_footprint records

  -- `_device_resident_mib` and `_device_context_mib`, over the cells of the supervisor
  unfoldable pub device_resident_mib : Cell → Pass F → List Cell → ℕ
  unfolding footprint_mib find
  device_resident_mib cell p [] = 0
  device_resident_mib cell p (other ∷ cells) =
      (if same_device other.device cell.device
        then total_footprint (get_or other.cell_id [] p.resident)
        else 0)
      + device_resident_mib cell p cells

  unfoldable pub device_context_mib : Cell → Pass F → List Cell → ℕ
  unfolding find
  device_context_mib cell p [] = 0
  device_context_mib cell p (other ∷ cells) =
      (if same_device other.device cell.device then get_or other.cell_id 0 p.context else 0)
      + device_context_mib cell p cells

module _ {F : Type 0} (out : Outside F) (codes : Codes) where
  -- `self.policy.measured_load_ms(digest) or stats.load_ms`
  abbrev pub measured_or : Option F → F → F
  measured_or none ms = ms
  measured_or (some measured) ms = if out.ops.is_zero measured then ms else measured

  -- `_refresh_stats`, of each record
  abbrev pub refresh_stats : Pass F → Table (ResidencyStats F) → Table (ResidencyStats F)
  refresh_stats p [] = []
  refresh_stats p ((digest, stats) ∷ records) =
      (
        digest,
        record stats {
          queued_jobs = length (lane_of digest p).jobs;
          priority = priority_or_zero (lane_of digest p).jobs;
          leased = ltb 0 (lane_of digest p).burst_remaining;
          load_ms = measured_or (find digest p.policy.measured_ms) stats.load_ms;
        },
      )
      ∷ refresh_stats p records

  abbrev pub while_usable : Step F Bool → Bool → Step F Bool
  while_usable rest usable = if usable then rest else pure false

  -- The loop of `_evict_for`
  unfoldable pub unload_all : Cell → List Text → Step F Bool
  unfolding unload_session
  unload_all cell [] = pure true
  unload_all cell (victim ∷ victims) =
      unload_session out cell victim >>= while_usable (unload_all cell victims)

  -- `_evict_for`, at the policy's reading of the clock
  unfoldable pub evict_for : Cell → Admission → Step F Bool
  unfolding find resident_for unload_all victims priority_in
  evict_for cell admission =
      modify (λ p. set_resident cell (refresh_stats p (resident_for cell p)) p)
      >> ask out.clock
      >>= λ now p.
          unload_all cell
            (victims out.ops p.policy now (some admission.shortfall_mib) (resident_for cell p)
              (leases_of p.scheduler.lanes))
            p

  -- `_admit`
  unfoldable pub admit_model : Cell → Text → ℕ → Pass F → Admission
  unfolding find device_resident_mib device_context_mib admit
  admit_model cell digest estimate p =
      admit out.ops p.policy digest (some estimate) none none record {
        free_mib = get_or cell.cell_id 0 p.free;
        total_mib = get_or cell.cell_id 0 p.total;
        resident_mib = device_resident_mib cell p out.cells;
        context_mib = device_context_mib cell p out.cells;
      }

  -- The last admission of `_ensure_resident`.
  abbrev pub load_admitted : Cell → Text → Queued → ℕ → Admission → Step F Residence
  load_admitted cell digest entry estimate admission =
      if admission.admitted
      then load_model out codes cell digest entry estimate admission.required_mib
      else modify (λ p. record p { deferred = suc p.deferred }) >> pure deferred_load

  abbrev pub once_evicted : Cell → Text → Queued → ℕ → Bool → Step F Residence
  once_evicted cell digest entry estimate usable p =
      (if usable
          then load_admitted cell digest entry estimate (admit_model cell digest estimate p)
          else pure lost_cell)
        p

  -- The first admission of `_ensure_resident`.
  abbrev pub first_admission : Cell → Text → Queued → ℕ → Admission → Step F Residence
  first_admission cell digest entry estimate admission =
      if admission.admitted
      then load_model out codes cell digest entry estimate admission.required_mib
      else (if is_over_budget admission.reason
          then block_lane out codes digest codes.model_over_budget
              (codes.needs_mib digest admission.required_mib)
            >> pure failed
          else evict_for cell admission >>= once_evicted cell digest entry estimate)

  abbrev pub once_read : Cell → Text → Queued → ℕ → Bool → Step F Residence
  once_read cell digest entry estimate available p =
      (if available
          then first_admission cell digest entry estimate (admit_model cell digest estimate p)
          else pure lost_cell)
        p

  -- What the bundle cache found.
  abbrev pub with_bundle : Cell → Text → Queued → Staged → Step F Residence
  with_bundle cell digest entry (raises error) =
      block_lane out codes digest codes.bundle_invalid error >> pure failed
  with_bundle cell digest entry not_staged =
      back_off out codes digest entry
        (out.joined codes.model_not_staged (codes.not_in_cache digest))
      >> pure failed
  with_bundle cell digest entry (staged estimate) =
      memory out cell >>= once_read cell digest entry estimate

  abbrev pub unless_waiting : Cell → Text → Queued → Step F Residence
  unless_waiting cell digest entry p =
      (if ltb p.now_ms (lane_of digest p).blocked_until_ms
          then pure deferred_load
          else (if get_or (device_key out codes cell) 0 p.loads_left == 0
              then pure deferred_load
              else ask (λ n. out.cache n digest) >>= with_bundle cell digest entry))
        p

  abbrev pub unless_blocked : Cell → Text → Queued → Option Text → Step F Residence
  unless_blocked cell digest entry (some reason) =
      pop_left out codes digest
      >> queues (block entry reason)
      >>= notify_failed out codes codes.model_blocked reason
      >> pure failed
  unless_blocked cell digest entry none = unless_waiting cell digest entry

  -- `_ensure_resident`
  unfoldable pub ensure_resident : Cell → Text → Queued → Step F Residence
  unfolding find resident_for evict_for admit_model load_model block_lane memory block retry_later
  ensure_resident cell digest entry p =
      (if is_some (find digest (resident_for cell p))
          then pure resident
          else unless_blocked cell digest entry (lane_of digest p).blocked_reason)
        p
