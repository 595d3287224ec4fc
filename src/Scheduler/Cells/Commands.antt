-- ===== src/Scheduler/Cells/Commands.antt =====
-- The operator's commands of image_processor/engine/scheduler.py.
use image_processor.Base.{
  ℕ, ◌+◌, Bool, true, false, none, List, [], ◌∷◌, length, leb, sort_by, if◌then◌else◌, is_some,
}
use image_processor.Types.{Text}
use image_processor.Table.{Table, find}
use image_processor.Residency.Eviction.{contains}
use image_processor.Scheduler.{Lane, Scheduler}
use image_processor.Scheduler.Cells.{
  Cell, Outside, Pass, Step, ◌>>=◌, ◌>>◌, pure, modify, ask, change_lane, resident_for, memory,
  unload_session,
}
use image_processor.Scheduler.Cells.Loading.{Codes}
use image_processor.Scheduler.Cells.Admitting.{leases_of}
use image_processor.Scheduler.Cells.Rounds.{new_pass}

-- The reply of `evict`: refused for a lease, not resident, or the cells that released it, sorted.
pub data Eviction : Type 0 where
  is_leased not_resident : Eviction
  released_by : List Text → Eviction

abbrev pub count_jobs : Table Lane → ℕ
count_jobs [] = 0
count_jobs ((_, lane) ∷ lanes) = length lane.jobs + count_jobs lanes

-- `queued`
unfoldable pub queued : Scheduler → ℕ
queued s = (count_jobs s.lanes + length s.retry) + length s.inbox

module _ {F : Type 0} where
  -- `pause` and `resume`
  unfoldable pub pause : Pass F → Pass F
  pause p = record p { paused = true }

  unfoldable pub resume : Pass F → Pass F
  resume p = record p { paused = false }

  -- `reset_lane`
  unfoldable pub reset_lane : Text → Pass F → Pass F
  reset_lane digest =
      change_lane digest
        (λ lane. record lane { blocked_reason = none; blocked_until_ms = 0; load_failures = 0 })

module _ {F : Type 0} (out : Outside F) (codes : Codes) where
  -- `holders`
  abbrev pub holders : Text → Pass F → List Cell → List Cell
  holders digest p [] = []
  holders digest p (cell ∷ cells) =
      if is_some (find digest (resident_for cell p))
      then cell ∷ holders digest p cells
      else holders digest p cells

  abbrev pub add_released : Cell → Bool → List Text → List Text
  add_released cell true cells = cell.cell_id ∷ cells
  add_released cell false cells = cells

  -- The loop that fills `released`.
  unfoldable pub release_from : Text → List Cell → Step F (List Text)
  unfolding memory unload_session
  release_from digest [] = pure []
  release_from digest (cell ∷ cells) =
      memory out cell >> unload_session out cell digest >>= λ usable.
      release_from digest cells >>= λ rest. pure (add_released cell usable rest)

  abbrev pub evict_holders : Text → List Text → List Cell → Step F Eviction
  evict_holders digest leases [] = pure not_resident
  evict_holders digest leases (cell ∷ cells) =
      if contains digest leases
      then pure is_leased
      else release_from digest (cell ∷ cells) >>= λ released.
          pure (released_by (sort_by leb released))

  -- `evict`
  unfoldable pub evict : Text → Step F Eviction
  unfolding find resident_for contains release_from sort_by
  evict digest = ask out.clock >>= λ now. modify (new_pass out codes now) >> λ p.
      evict_holders digest (leases_of p.scheduler.lanes) (holders digest p out.cells) p
