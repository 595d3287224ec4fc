-- ===== src/Scheduler/Cells.antt =====
-- What image_processor/engine/scheduler.py knows of the cells, and its control requests to them. What
-- a cell answers to its n-th request, what the bundle cache finds and the clocks are parameters.
pub mod Loading
pub mod Admitting
pub mod Dispatch
pub mod Rounds
pub mod Commands
pub mod Sound
pub mod SoundLoads
pub mod SoundDispatch
pub mod Sent
pub mod Held
pub mod Resident
pub mod Dispatched
use image_processor.Base.{
  ℕ, suc, ◌+◌, Bool, true, false, ◌&&◌, Option, none, some, List, [], ◌∷◌, ◌++◌, ltb, ◌==◌,
  if◌then◌else◌, is_some,
}
use image_processor.Types.{Text, Job}
use image_processor.Table.{Table, find, delete}
use image_processor.Ledger.Store.{Result, ok, err}
use image_processor.Protocol.Tables.{ErrorClass}
use image_processor.Residency.{
  FloatOps, ResidencyStats, ResidencyPolicy, footprint_mib, get_or, store,
}
use image_processor.Residency.Eviction.{contains}
use image_processor.Scheduler.{Scheduler, Lane, new_lane}
use image_processor.Scheduler.Answers.{Answer, Effect, recycles, Run}

-- The fields of a cell handle that the scheduler reads.
pub record Cell : Type 0 where
  pub cell_id : Text
  pub device : Option Text

-- `cell.call`: a reply, CellDead or CellTimeout, or another CellError
pub data Called (A : Type 0) : Type 0 where
  replied : A → Called A
  lost refused : Called A

-- The replies to `Stats`, `Unload` and `LoadModel`, an absent number being 0.
pub record StatsReply : Type 0 where
  pub device_free_mib : ℕ
  pub device_total_mib : ℕ
  pub context_mib : ℕ
  pub resident : List Text

pub record Unloaded : Type 0 where
  pub freed_mib : ℕ
  pub expected_mib : ℕ

pub data LoadReply (F : Type 0) : Type 0 where
  loaded : ℕ → F → ℕ → LoadReply F
  load_failed : Text → Text → ErrorClass → Bool → LoadReply F
  other_reply : LoadReply F

-- `cache.get`: the manifest's `estimatedDeviceMib`, nothing, or an exception with its text
pub data Staged : Type 0 where
  staged : ℕ → Staged
  not_staged : Staged
  raises : Text → Staged

-- What the scheduler takes from outside. `receives` is
-- nothing for CellDead and CellTimeout. `joined code error` is the text `f"{code}: {error}"`.
pub record Outside (F : Type 0) : Type 0 where
  pub ops : FloatOps F
  pub cells : List Cell
  pub is_alive : ℕ → Cell → Bool
  pub receives : ℕ → Cell → Option Answer
  pub stats : ℕ → Called StatsReply
  pub unload : ℕ → Text → Called Unloaded
  pub load : ℕ → Text → Option ℕ → Called (LoadReply F)
  pub sends : ℕ → Job → Bool
  pub cache : ℕ → Text → Staged
  pub clock : ℕ → ℕ
  pub backoff : ℕ → ℕ → ℕ
  pub joined : Text → Text → Text
  pub reclaim_ratio : F
  pub is_starving : ℕ → Bool
  pub cpu : Text
  pub load_concurrency_per_gpu : ℕ

-- The scheduler with what it records of the cells, and `class _Pass`. `calls` counts what was asked
-- of the outside, and `effects` is what went to the application and to the supervisor. The last five
-- are counters.
pub record Pass (F : Type 0) : Type 0 where
  pub scheduler : Scheduler
  pub policy : ResidencyPolicy F
  pub resident : Table (Table (ResidencyStats F))
  pub context : Table ℕ
  pub now_ms : ℕ
  pub free : Table ℕ
  pub total : Table ℕ
  pub loads_left : Table ℕ
  pub calls : ℕ
  pub effects : List Effect
  pub paused : Bool
  pub dispatched : ℕ
  pub loads : ℕ
  pub evictions : ℕ
  pub deferred : ℕ
  pub recycled : ℕ

abbrev pub Step : Type 0 → Type 0 → Type 0
Step F A = Pass F → Result A × Pass F

infixl 5 ◌>>=◌ ◌>>◌
abbrev pub ◌>>=◌ : {F A B : Type 0} → Step F A → (A → Step F B) → Step F B
◌>>=◌ m f p = let (r, p') = m p in elim r [ ok a ↦ f a p' | err e ↦ (err e, p') ]

abbrev pub ◌>>◌ : {F A B : Type 0} → Step F A → Step F B → Step F B
m >> k = m >>= λ _. k

-- A change of the lane of a digest.
abbrev pub change : Text → (Lane → Lane) → Table Lane → Table Lane
change digest f [] = []
change digest f ((d, lane) ∷ lanes) =
    if d == digest then (d, f lane) ∷ lanes else (d, lane) ∷ change digest f lanes

module _ {F : Type 0} where
  abbrev pub pure : {A : Type 0} → A → Step F A
  pure a p = (ok a, p)

  abbrev pub modify : (Pass F → Pass F) → Step F (Unit {0})
  modify f p = (ok tt, f p)

  -- A question to the outside.
  abbrev pub ask : {A : Type 0} → (ℕ → A) → Step F A
  ask f p = (ok (f p.calls), record p { calls = suc p.calls })

  -- A call on the queues and the ledger.
  abbrev pub queues : {A : Type 0} → Run A → Step F A
  queues m p = let (r, s) = m p.scheduler in (r, record p { scheduler = s })

  abbrev pub change_lane : Text → (Lane → Lane) → Pass F → Pass F
  change_lane digest f p = record p {
    scheduler = record p.scheduler { lanes = change digest f p.scheduler.lanes };
  }

  abbrev pub lane_of : Text → Pass F → Lane
  lane_of digest p = get_or digest new_lane p.scheduler.lanes

  abbrev pub emits : List Effect → Step F (Unit {0})
  emits effects = modify λ p. record p { effects = p.effects ++ effects }

  -- `_resident_for`
  unfoldable pub resident_for : Cell → Pass F → Table (ResidencyStats F)
  unfolding find
  resident_for cell p = get_or cell.cell_id [] p.resident

  -- `self._resident_for(cell)[digest] = stats`, or without it
  abbrev pub set_resident : Cell → Table (ResidencyStats F) → Pass F → Pass F
  set_resident cell records p = record p { resident = store cell.cell_id records p.resident }

  -- `_recycle`
  unfoldable pub recycle_and_forget : Cell → Step F (Unit {0})
  unfolding delete
  recycle_and_forget cell =
      modify
        (λ p. record p { resident = delete cell.cell_id p.resident; recycled = suc p.recycled })
      >> emits (recycles ∷ [])

  -- `_cell_call`, once the cell has answered
  abbrev pub received : {A : Type 0} → Cell → Called A → Step F (Option A)
  received cell (replied reply) = pure (some reply)
  received cell lost = recycle_and_forget cell >> pure none
  received cell refused = pure none

  abbrev pub still_held : List Text → Table (ResidencyStats F) → Table (ResidencyStats F)
  still_held held [] = []
  still_held held ((digest, stats) ∷ records) =
      if contains digest held
      then (digest, stats) ∷ still_held held records
      else still_held held records

  -- The reading that `_memory` keeps.
  abbrev pub read_memory : Cell → StatsReply → Pass F → Pass F
  read_memory cell reply p =
      set_resident cell (still_held reply.resident (resident_for cell p)) (record p {
        free = store cell.cell_id reply.device_free_mib p.free;
        total = store cell.cell_id reply.device_total_mib p.total;
        context = store cell.cell_id reply.context_mib p.context;
      })

  abbrev pub memory_read : Cell → Option StatsReply → Step F Bool
  memory_read cell none = pure false
  memory_read cell (some reply) = modify (read_memory cell reply) >> pure true

  module _ (out : Outside F) where
    -- `_memory`
    unfoldable pub memory : Cell → Step F Bool
    unfolding find recycle_and_forget resident_for contains
    memory cell p =
        (if is_some (find cell.cell_id p.free)
            then pure true
            else ask out.stats >>= received cell >>= memory_read cell)
          p

    -- `expected = int(reply.expected_mib or (stats.footprint_mib if stats else 0))`
    abbrev pub expected_mib : Unloaded → Option (ResidencyStats F) → ℕ
    expected_mib reply none = reply.expected_mib
    expected_mib reply (some stats) =
        if reply.expected_mib == 0 then footprint_mib stats else reply.expected_mib

    -- An unload that returned too little of the model.
    abbrev pub is_short : Cell → Unloaded → ℕ → Pass F → Bool
    is_short cell reply expected p =
        (ltb 0 expected && ltb 0 (get_or cell.cell_id 0 p.total))
        && out.ops.lt (out.ops.of_nat reply.freed_mib)
            (out.ops.mul (out.ops.of_nat expected) out.reclaim_ratio)

    -- The records once a session is gone.
    abbrev pub forget_session : Cell → Text → Unloaded → Pass F → Pass F
    forget_session cell digest reply p =
        set_resident cell (delete digest (resident_for cell p)) (record p {
          free = store cell.cell_id (get_or cell.cell_id 0 p.free + reply.freed_mib) p.free;
          evictions = suc p.evictions;
        })

    abbrev pub unloaded : Cell → Text → Option (ResidencyStats F) → Option Unloaded → Step F Bool
    unloaded cell digest stats none = pure false
    unloaded cell digest stats (some reply) = modify (forget_session cell digest reply) >> λ p.
        (if is_short cell reply (expected_mib reply stats) p
            then recycle_and_forget cell >> pure false
            else pure true)
          p

    -- `_unload`
    unfoldable pub unload_session : Cell → Text → Step F Bool
    unfolding find recycle_and_forget resident_for
    unload_session cell digest p =
        (ask (λ n. out.unload n digest)
            >>= received cell
            >>= unloaded cell digest (find digest (resident_for cell p)))
          p
