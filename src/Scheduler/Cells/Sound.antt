-- ===== src/Scheduler/Cells/Sound.antt =====
-- A dispatch of image_processor/engine/scheduler.py keeps the ledger sound.
use image_processor.Base.{Bool, true, false, Option, none, some, [], ◌∷◌, if◌then◌else◌, is_some}
use image_processor.Types.{
  Text, is, is_in, ready, claimed, waiting_model, inferencing, blocked_configuration,
}
use image_processor.Table.{find}
use image_processor.Ledger.Store.{Result, ok, err}
use image_processor.Ledger.Jobs.{last_error}
use image_processor.Ledger.Sound.{Sound}
use image_processor.Residency.{ResidencyStats}
use image_processor.Scheduler.{Queued, transition_entry}
use image_processor.Scheduler.Answers.{Run, claim, claim_waiting, block, count_blocked}
use image_processor.Scheduler.Outcomes.{Keeps, Keeps-bind, transition_entry-Keeps, exhaust-Keeps}
use image_processor.Scheduler.Attempts.Redispatch.{start_inference}
use image_processor.Scheduler.Cells.{
  Cell, Called, replied, lost, refused, StatsReply, Unloaded, Outside, Pass, Step, ◌>>=◌, ◌>>◌,
  pure, ask, queues, resident_for, recycle_and_forget, received, memory_read, memory, is_short,
  expected_mib, forget_session, unloaded, unload_session,
}

-- A step that keeps the ledger sound.
abbrev pub Preserves : {F A : Type 0} → Step F A → Type 0
Preserves {F = F} m = (p : Pass F) → Sound p.scheduler.ledger → Sound (m p).1.scheduler.ledger

pub Preserves-bind :
    {F A B : Type 0} (m : Step F A) (f : A → Step F B)
    → Preserves m
    → ((a : A) → Preserves (f a))
    → Preserves (m >>= f)
Preserves-bind {F} {A} {B} m f h g p sound = go (m p) (h p sound)
  where
    go :
        (r : Result A × Pass F)
        → Sound r.1.scheduler.ledger
        → Sound
            (elim r.0 as (λ _. Result B × Pass F) [
              | ok a ↦ f a r.1
              | err e ↦ (err e, r.1)
            ]).1.scheduler.ledger
    go (ok a, p') k = g a p' k
    go (err e, p') k = k

pub Preserves-queues : {F A : Type 0} (m : Run A) → Keeps m → Preserves {F = F} (queues m)
Preserves-queues m h p sound = h p.scheduler sound

pub Preserves-if :
    {F A : Type 0} (b : Bool) (m k : Step F A)
    → Preserves m
    → Preserves k
    → Preserves (if b then m else k)
Preserves-if true m k h g = h
Preserves-if false m k h g = g

Keeps-if : {A : Type 0} (b : Bool) (m k : Run A) → Keeps m → Keeps k → Keeps (if b then m else k)
Keeps-if true m k h g = h
Keeps-if false m k h g = g

count_blocked-Keeps : (o : Option Queued) → Keeps (count_blocked o)
count_blocked-Keeps none s sound = sound
count_blocked-Keeps (some entry) s sound = sound

pub block-Keeps : (entry : Queued) (reason : Text) → Keeps (block entry reason)
unfolding block
block-Keeps entry reason =
    Keeps-if (is entry.job.state inferencing) _ _ (exhaust-Keeps entry reason entry.job.attempts) (
      Keeps-bind
        (transition_entry entry waiting_model blocked_configuration (last_error (some reason) ∷ []))
        count_blocked
        (transition_entry-Keeps entry waiting_model blocked_configuration
          (last_error (some reason) ∷ []) (λ e. cc))
        count_blocked-Keeps)

claim_waiting-Keeps : (o : Option Queued) → Keeps (claim_waiting o)
claim_waiting-Keeps none = λ s sound. sound
claim_waiting-Keeps (some entry) =
    Keeps-if (is entry.job.state claimed) _ _
      (transition_entry-Keeps entry claimed waiting_model [] (λ e. cc))
      (Keeps-if (is_in entry.job.state (waiting_model ∷ inferencing ∷ [])) _ _ (λ s sound. sound)
        (λ s sound. sound))

pub claim-Keeps : (entry : Queued) → Keeps (claim entry)
unfolding claim
claim-Keeps entry =
    let first : Run (Option Queued) =
      if is entry.job.state ready
      then transition_entry entry ready claimed []
      else (λ s. (ok (some entry), s)) in
    Keeps-bind first claim_waiting
      (Keeps-if (is entry.job.state ready) _ _
        (transition_entry-Keeps entry ready claimed [] (λ e. cc)) (λ s sound. sound))
      claim_waiting-Keeps

pub start_inference-Keeps : (o : Option Queued) → Keeps (start_inference o)
start_inference-Keeps none = λ s sound. sound
start_inference-Keeps (some entry) =
    Keeps-if (is entry.job.state waiting_model) _ _
      (transition_entry-Keeps entry waiting_model inferencing [] (λ e. cc)) (λ s sound. sound)

module _ {F : Type 0} where
  pub idle : {A : Type 0} (a : A) → Preserves {F = F} (pure a)
  idle a p sound = sound

  -- A step, and then what does not depend on it.
  pub Preserves-then :
      {A B : Type 0} (m : Step F A) (k : Step F B) → Preserves m → Preserves k → Preserves (m >> k)
  Preserves-then m k h g = Preserves-bind m (λ _. k) h (λ _. g)

  pub recycle_and_forget-Preserves : (cell : Cell) → Preserves {F = F} (recycle_and_forget cell)
  unfolding recycle_and_forget
  recycle_and_forget-Preserves cell p sound = sound

  pub received-Preserves :
      {A : Type 0} (cell : Cell) (called : Called A) → Preserves {F = F} (received cell called)
  unfolding recycle_and_forget
  received-Preserves cell (replied reply) p sound = sound
  received-Preserves cell lost p sound = sound
  received-Preserves cell refused p sound = sound

  memory_read-Preserves :
      (cell : Cell) (o : Option StatsReply) → Preserves {F = F} (memory_read cell o)
  memory_read-Preserves cell none p sound = sound
  memory_read-Preserves cell (some reply) p sound = sound

  module _ (out : Outside F) where
    pub memory-Preserves : (cell : Cell) → Preserves (memory out cell)
    unfolding memory
    memory-Preserves cell p =
        Preserves-if (is_some (find cell.cell_id p.free)) (pure true)
          (ask out.stats >>= received cell >>= memory_read cell) (idle true)
          (Preserves-bind (ask out.stats >>= received cell) (memory_read cell)
            (Preserves-bind (ask out.stats) (received cell) (λ p sound. sound)
              (received-Preserves cell))
            (memory_read-Preserves cell))
          p

    unloaded-Preserves :
        (cell : Cell) (digest : Text) (stats : Option (ResidencyStats F)) (o : Option Unloaded)
        → Preserves (unloaded out cell digest stats o)
    unloaded-Preserves cell digest stats none p sound = sound
    unloaded-Preserves cell digest stats (some reply) p sound =
        let p' = forget_session out cell digest reply p in
        Preserves-if (is_short out cell reply (expected_mib out reply stats) p')
          (recycle_and_forget cell >> pure false) (pure true)
          (Preserves-then (recycle_and_forget cell) (pure false) (recycle_and_forget-Preserves cell)
            (idle false))
          (idle true) p' sound

    pub unload_session-Preserves :
        (cell : Cell) (digest : Text) → Preserves (unload_session out cell digest)
    unfolding unload_session
    unload_session-Preserves cell digest p =
        let stats = find digest (resident_for cell p) in
        Preserves-bind (ask (λ n. out.unload n digest) >>= received cell)
          (unloaded out cell digest stats)
          (Preserves-bind (ask λ n. out.unload n digest) (received cell) (λ p sound. sound)
            (received-Preserves cell))
          (unloaded-Preserves cell digest stats) p
