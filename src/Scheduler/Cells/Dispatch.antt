-- ===== src/Scheduler/Cells/Dispatch.antt =====
-- `_dispatch_one` of image_processor/engine/scheduler.py: one cell is given one job.
use image_processor.Base.{
  ℕ, suc, ◌-◌, Bool, true, false, Option, none, some, List, [], ◌∷◌, if◌then◌else◌, is_some,
}
use image_processor.Types.{Text}
use image_processor.Table.{Table, find, update}
use image_processor.Residency.{ResidencyStats}
use image_processor.Scheduler.{Queued, Lane, requeue, transition_entry}
use image_processor.Scheduler.Answers.{claim}
use image_processor.Scheduler.Lanes.{ranked_lanes}
use image_processor.Scheduler.Attempts.Redispatch.{start_inference}
use image_processor.Scheduler.Cells.{
  Cell, Outside, Pass, Step, ◌>>=◌, ◌>>◌, pure, modify, ask, queues, change_lane, lane_of,
  resident_for, set_resident, recycle_and_forget, memory,
}
use image_processor.Scheduler.Cells.Loading.{
  Residence, resident, deferred_load, failed, lost_cell, Codes, pop_left,
}
use image_processor.Scheduler.Cells.Admitting.{ensure_resident}

abbrev pub head_of : List Queued → Option Queued
head_of [] = none
head_of (entry ∷ jobs) = some entry

-- A lane holds the object that a claim changed.
abbrev pub set_head : Queued → List Queued → List Queued
set_head entry [] = []
set_head entry (_ ∷ jobs) = entry ∷ jobs

abbrev pub digests_of : List (Text × Lane) → List Text
digests_of [] = []
digests_of ((digest, lane) ∷ lanes) = digest ∷ digests_of lanes

-- What one lane gives a cell: the next lane is tried, no lane is, or a job was sent.
pub data Turn : Type 0 where
  next_lane no_lane : Turn
  sent : Queued → Turn

module _ {F : Type 0} (out : Outside F) (codes : Codes) where
  -- The session that runs the job has been used.
  abbrev pub count_hit : ℕ → ResidencyStats F → ResidencyStats F
  count_hit now stats = record stats { last_used_ms = now; hits = suc stats.hits }

  abbrev pub after_send : Cell → Text → Pass F → Pass F
  after_send cell digest p =
      change_lane digest (λ lane. record lane { burst_remaining = lane.burst_remaining - 1 })
        (set_resident cell (update digest (count_hit p.now_ms) (resident_for cell p))
          (record p { dispatched = suc p.dispatched }))

  -- `self._requeue(lane, entry)`
  abbrev pub put_back : Text → Queued → Pass F → Pass F
  put_back digest entry p = record p {
    scheduler = record p.scheduler { lanes = requeue digest entry p.scheduler.lanes };
  }

  -- Whether the cell took the request.
  abbrev pub once_sent : Cell → Text → Queued → Bool → Step F Turn
  once_sent cell digest entry true = modify (after_send cell digest) >> pure (sent entry)
  once_sent cell digest entry false =
      recycle_and_forget cell >> modify (put_back digest entry) >> pure no_lane

  -- `cell.send`, if the ledger let the job be inferred
  abbrev pub once_started : Cell → Text → Option Queued → Step F Turn
  once_started cell digest none = pop_left out codes digest >> pure next_lane
  once_started cell digest (some entry) =
      pop_left out codes digest >> ask (λ n. out.sends n entry.job) >>= once_sent cell digest entry

  abbrev pub by_residence : Cell → Text → Queued → Residence → Step F Turn
  by_residence cell digest entry resident =
      queues (start_inference (some entry)) >>= once_started cell digest
  by_residence cell digest entry lost_cell = pure no_lane
  by_residence cell digest entry failed = pure next_lane
  by_residence cell digest entry deferred_load = pure next_lane

  abbrev pub once_claimed : Cell → Text → Option Queued → Step F Turn
  once_claimed cell digest none = pop_left out codes digest >> pure next_lane
  once_claimed cell digest (some entry) =
      modify (change_lane digest λ lane. record lane { jobs = set_head entry lane.jobs })
      >> ensure_resident out codes cell digest entry
      >>= by_residence cell digest entry

  abbrev pub serve_head : Cell → Text → Option Queued → Step F Turn
  serve_head cell digest none = pure next_lane
  serve_head cell digest (some entry) = queues (claim entry) >>= once_claimed cell digest

  -- One round of the loop of `_dispatch_one`
  unfoldable pub serve_lane : Cell → Text → Step F Turn
  unfolding claim ensure_resident transition_entry recycle_and_forget resident_for find update
      requeue
  serve_lane cell digest p = serve_head cell digest (head_of (lane_of digest p).jobs) p

  abbrev pub next_turn :
      Text → Step F (Option (Text × Queued)) → Turn → Step F (Option (Text × Queued))
  next_turn digest rest next_lane = rest
  next_turn digest rest no_lane = pure none
  next_turn digest rest (sent entry) = pure (some (digest, entry))

  -- The loop over the ranked lanes.
  unfoldable pub serve_lanes : Cell → List Text → Step F (Option (Text × Queued))
  unfolding serve_lane
  serve_lanes cell [] = pure none
  serve_lanes cell (digest ∷ digests) =
      serve_lane cell digest >>= next_turn digest (serve_lanes cell digests)

  abbrev pub has_work : Table Lane → Bool
  has_work [] = false
  has_work ((_, lane) ∷ lanes) = if is_some (head_of lane.jobs) then true else has_work lanes

  -- `_ranked_lanes`, with what is resident on the cell
  abbrev pub ranked_digests : Cell → Pass F → List Text
  ranked_digests cell p = digests_of (
      ranked_lanes p.now_ms (λ digest. is_some (find digest (resident_for cell p))) out.is_starving
        p.scheduler.lanes)

  abbrev pub once_available : Cell → Bool → Step F (Option (Text × Queued))
  once_available cell available p =
      (if available then serve_lanes cell (ranked_digests cell p) else pure none) p

  -- `_dispatch_one`
  unfoldable pub dispatch_one : Cell → Step F (Option (Text × Queued))
  unfolding memory serve_lanes find resident_for ranked_lanes
  dispatch_one cell p =
      (if has_work p.scheduler.lanes then memory out cell >>= once_available cell else pure none) p
