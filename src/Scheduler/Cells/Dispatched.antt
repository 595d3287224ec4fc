-- ===== src/Scheduler/Cells/Dispatched.antt =====
-- What `_dispatch_one` of image_processor/engine/scheduler.py sends to a cell.
use image_processor.Base.{
  ◌≡◌, ap, ◌∙◌, Bool, true, false, Option, none, some, List, [], ◌∷◌, is_some,
}
use image_processor.Types.{Text, inferencing}
use image_processor.Table.{find, update}
use image_processor.Ledger.Sound.{Sound}
use image_processor.Ledger.Store.{Result, ok, err}
use image_processor.Scheduler.{Queued, Scheduler}
use image_processor.Scheduler.Answers.{Run, claim}
use image_processor.Scheduler.Attempts.Redispatch.{start_inference}
use image_processor.Scheduler.Cells.{
  Cell, Outside, Pass, Step, ◌>>=◌, pure, queues, change_lane, lane_of, recycle_and_forget, memory,
  resident_for,
}
use image_processor.Scheduler.Cells.Loading.{
  Residence, resident, deferred_load, failed, lost_cell, Codes,
}
use image_processor.Scheduler.Cells.Admitting.{ensure_resident}
use image_processor.Scheduler.Cells.Dispatch.{
  head_of, set_head, Turn, next_lane, no_lane, sent, once_sent, once_started, by_residence,
  once_claimed, serve_head, serve_lane, serve_lanes, next_turn, has_work, ranked_digests,
  once_available, dispatch_one, count_hit,
}
use image_processor.Scheduler.Cells.SoundDispatch.{dispatch_one-Preserves}
use image_processor.Scheduler.Cells.Sent.{
  Returns, InState, Claimed, claim-Claimed, start_inference-InState,
}
use image_processor.Scheduler.Cells.Held.{
  After, After-bind, After-any, After-if, IsHeld, Resides, get_or-store, is_some-update,
}
use image_processor.Scheduler.Cells.Resident.{ensure_resident-Resides}

module _ {F : Type 0} where
  -- A job that was sent is INFERENCING and the digest of its lane is resident.
  abbrev pub Sends : Cell → Text → Turn → Pass F → Type 0
  Sends cell digest (sent entry) p = IsHeld cell digest p × (entry.job.state ≡ inferencing)
  Sends cell digest _ p = Unit

  abbrev pub Dispatched : Cell → Option (Text × Queued) → Pass F → Type 0
  Dispatched cell none p = Unit
  Dispatched cell (some (digest, entry)) p = IsHeld cell digest p × (entry.job.state ≡ inferencing)

  queues-Returns :
      {A : Type 0} (cell : Cell) (digest : Text) (Q : A → Type 0) (m : Run A) (p : Pass F)
      → Returns Q (m p.scheduler)
      → IsHeld cell digest p
      → After (λ a p'. IsHeld cell digest p' × Q a) (queues m p)
  unfolding resident_for
  queues-Returns {A} cell digest Q m p h held = go (m p.scheduler) h
    where
      go :
          (r : Result A × Scheduler)
          → Returns Q r
          → After (λ a p'. IsHeld cell digest p' × Q a) (r.0, record p { scheduler = r.1 })
      go (ok a, s) k = (held, k)
      go (err e, s) k = tt

  queues-Claimed :
      {A : Type 0} (Q : A → Type 0) (m : Run A) (p : Pass F)
      → Returns Q (m p.scheduler)
      → After (λ a _. Q a) (queues {F = F} m p)
  queues-Claimed {A} Q m p h = go (m p.scheduler) h
    where
      go :
          (r : Result A × Scheduler)
          → Returns Q r
          → After {F = F} (λ a _. Q a) (r.0, record p { scheduler = r.1 })
      go (ok a, s) k = k
      go (err e, s) k = tt

module _ {F : Type 0} (out : Outside F) (codes : Codes) where
  once_sent-Sends :
      (cell : Cell) (digest : Text) (entry : Queued) (taken : Bool) (p : Pass F)
      → IsHeld cell digest p
      → entry.job.state ≡ inferencing
      → After (Sends cell digest) (once_sent out codes cell digest entry taken p)
  unfolding resident_for recycle_and_forget
  once_sent-Sends cell digest entry false p held here = tt
  once_sent-Sends cell digest entry true p held here =
      let used = update digest (count_hit out codes p.now_ms) (resident_for cell p) in
      (
        ap (λ t. is_some (find digest t)) (get_or-store cell.cell_id used p.resident)
            ∙ is_some-update digest (count_hit out codes p.now_ms) (resident_for cell p) held,
        here,
      )

  once_started-Sends :
      (cell : Cell) (digest : Text) (o : Option Queued) (p : Pass F)
      → IsHeld cell digest p
      → InState inferencing o
      → After (Sends cell digest) (once_started out codes cell digest o p)
  unfolding resident_for
  once_started-Sends cell digest none p held here = tt
  once_started-Sends cell digest (some entry) p held here =
      once_sent-Sends cell digest entry (out.sends p.calls entry.job) _ held here

  by_residence-Sends :
      (cell : Cell) (digest : Text) (entry : Queued) (r : Residence) (p : Pass F)
      → Claimed (some entry)
      → Resides cell digest r p
      → After (Sends cell digest) (by_residence out codes cell digest entry r p)
  by_residence-Sends cell digest entry resident p fits held =
      After-bind (λ o p'. IsHeld cell digest p' × InState inferencing o) (Sends cell digest)
        (queues (start_inference (some entry))) (once_started out codes cell digest) p
        (queues-Returns cell digest (InState inferencing) (start_inference (some entry)) p
          (start_inference-InState entry p.scheduler fits) held)
        (λ o p' h. once_started-Sends cell digest o p' h.0 h.1)
  by_residence-Sends cell digest entry lost_cell p fits held = tt
  by_residence-Sends cell digest entry failed p fits held = tt
  by_residence-Sends cell digest entry deferred_load p fits held = tt

  once_claimed-Sends :
      (cell : Cell) (digest : Text) (o : Option Queued) (p : Pass F)
      → Claimed o
      → After (Sends cell digest) (once_claimed out codes cell digest o p)
  once_claimed-Sends cell digest none p fits = tt
  once_claimed-Sends cell digest (some entry) p fits =
      After-bind (Resides cell digest) (Sends cell digest)
        (ensure_resident out codes cell digest entry) (by_residence out codes cell digest entry)
        (change_lane digest (λ lane. record lane { jobs = set_head entry lane.jobs }) p)
        (ensure_resident-Resides out codes cell digest entry _)
        (λ r p' h. by_residence-Sends cell digest entry r p' fits h)

  serve_head-Sends :
      (cell : Cell) (digest : Text) (o : Option Queued) (p : Pass F)
      → After (Sends cell digest) (serve_head out codes cell digest o p)
  serve_head-Sends cell digest none p = tt
  serve_head-Sends cell digest (some entry) p =
      After-bind (λ o _. Claimed o) (Sends cell digest) (queues (claim entry))
        (once_claimed out codes cell digest) p
        (queues-Claimed Claimed (claim entry) p (claim-Claimed entry p.scheduler))
        (once_claimed-Sends cell digest)

  next_turn-Dispatched :
      (cell : Cell) (digest : Text) (rest : Step F (Option (Text × Queued))) (turn : Turn)
      (p : Pass F)
      → ((p' : Pass F) → After (Dispatched cell) (rest p'))
      → Sends cell digest turn p
      → After (Dispatched cell) (next_turn out codes digest rest turn p)
  next_turn-Dispatched cell digest rest next_lane p h k = h p
  next_turn-Dispatched cell digest rest no_lane p h k = tt
  next_turn-Dispatched cell digest rest (sent entry) p h k = k

  serve_lanes-Dispatched :
      (cell : Cell) (digests : List Text) (p : Pass F)
      → After (Dispatched cell) (serve_lanes out codes cell digests p)
  unfolding serve_lanes serve_lane
  serve_lanes-Dispatched cell [] p = tt
  serve_lanes-Dispatched cell (digest ∷ digests) p =
      let rest = serve_lanes out codes cell digests in
      After-bind (Sends cell digest) (Dispatched cell) (serve_lane out codes cell digest)
        (next_turn out codes digest rest) p
        (serve_head-Sends cell digest (head_of (lane_of digest p).jobs) p)
        (λ turn p' h.
          next_turn-Dispatched cell digest rest turn p' (serve_lanes-Dispatched cell digests) h)

  once_available-Dispatched :
      (cell : Cell) (available : Bool) (p : Pass F)
      → After (Dispatched cell) (once_available out codes cell available p)
  once_available-Dispatched cell available p =
      After-if (Dispatched cell) available
        (serve_lanes out codes cell (ranked_digests out codes cell p)) (pure none) p
        (serve_lanes-Dispatched cell (ranked_digests out codes cell p) p) tt

  -- Whatever the cells and the cache answer, a dispatch keeps the ledger's database sound, and a job
  -- that it hands out is INFERENCING, and the digest of the lane that it was queued in is resident
  -- on the cell that runs it.
  pub dispatch_one-Dispatched :
      (cell : Cell) (p : Pass F)
      → Sound p.scheduler.ledger
      → Sound (dispatch_one out codes cell p).1.scheduler.ledger
        × After (Dispatched cell) (dispatch_one out codes cell p)
  unfolding dispatch_one
  dispatch_one-Dispatched cell p sound = (
    dispatch_one-Preserves out codes cell p sound,
    After-if (Dispatched cell) (has_work out codes p.scheduler.lanes)
        (memory out cell >>= once_available out codes cell) (pure none) p
        (After-any (Dispatched cell) (memory out cell) (once_available out codes cell) p
          (once_available-Dispatched cell))
        tt,
  )
