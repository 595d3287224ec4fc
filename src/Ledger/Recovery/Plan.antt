-- ===== src/Ledger/Recovery/Plan.antt =====
-- The plan of a restart (`plan_recovery` of image_processor/ledger/recovery.py).
use image_processor.Base.{
  ℕ, ◌≡◌, refl, ap, Bool, true, false, ◌&&◌, ◌||◌, Option, none, some, List, [], ◌∷◌, map, arith,
  if◌then◌else◌, select,
}
use image_processor.Types.{
  Text, JobState, is, is_in, ready, claimed, waiting_model, inferencing, retry_wait,
}
use image_processor.Ledger.Jobs.{is_due}
use image_processor.Ledger.Recovery.{RecoveryMove, restart_target, plan_recovery}

-- Work that the restart interrupted, and a retry that is due.
abbrev pub is_interrupted : ℕ → Text × JobState × Option ℕ → Bool
is_interrupted now (_, state, next) =
    is_in state (claimed ∷ waiting_model ∷ inferencing ∷ [])
    || is state retry_wait && is_due now next

abbrev pub to_ready : Text × JobState × Option ℕ → RecoveryMove
to_ready (ident, state, _) = record { inference_id = ident; current = state; new = ready }

restart_target-is_interrupted :
    (ident : Text) (state : JobState) (next : Option ℕ) (now : ℕ)
    → restart_target state next now
      ≡ (if is_interrupted now (ident, state, next) then some ready else none)
unfolding restart_target
restart_target-is_interrupted ident state next now = ground arith

-- A restart plans a move to READY for exactly the jobs that were CLAIMED, WAITING_MODEL or
-- INFERENCING, and those in RETRY_WAIT that are due, in the order in which they were read.
pub plan_recovery-select :
    (rows : List (Text × JobState × Option ℕ)) (now : ℕ)
    → plan_recovery rows now ≡ map to_ready (select (is_interrupted now) rows)
unfolding plan_recovery
plan_recovery-select [] now = refl
plan_recovery-select ((ident, state, next) ∷ rows) now =
    planned (restart_target state next now) (is_interrupted now (ident, state, next))
      (plan_recovery rows now) (select (is_interrupted now) rows)
      (restart_target-is_interrupted ident state next now) (plan_recovery-select rows now)
  where
    planned :
        (o : Option JobState) (b : Bool) (moves : List RecoveryMove)
        (kept : List (Text × JobState × Option ℕ))
        → o ≡ (if b then some ready else none)
        → moves ≡ map to_ready kept
        → elim o [
          | none ↦ moves
          | some new ↦ record { inference_id = ident; current = state; new = new } ∷ moves
        ]
          ≡ map to_ready (if b then (ident, state, next) ∷ kept else kept)
    planned o true moves kept h e = rw h (ap (λ moves. to_ready (ident, state, next) ∷ moves) e)
    planned o false moves kept h e = rw h e
