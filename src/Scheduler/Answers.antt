-- ===== src/Scheduler/Answers.antt =====
-- `_claim`, `_retry_later`, `_exhaust`, `_block` and `_apply` of image_processor/engine/scheduler.py.
-- What goes to the application or to the supervisor is an effect that a call returns.
use image_processor.Base.{ℕ, ◌+◌, Option, none, some, List, [], ◌∷◌, ◌++◌, suc, leb, if◌then◌else◌}
use image_processor.Types.{
  Text, is, is_in, Job, ready, claimed, waiting_model, inferencing, retry_wait,
  processing_exhausted, blocked_configuration,
}
use image_processor.Ledger.Store.{Result, ok, err}
use image_processor.Ledger.Jobs.{attempts, next_attempt_at_ms, last_error}
use image_processor.Protocol.Tables.{ErrorClass, permanent, contaminating}
use image_processor.Scheduler.{Queued, Scheduler, requeue, transition_entry}

-- The reply of a cell: something else than a result, a success, or a failure.
pub data Answer : Type 0 where
  unexpected succeeded_with : Answer
  failed_with : Option ErrorClass → Option Text → Answer

-- What a call does outside the scheduler: the callback, or the recycling of the cell.
pub data Effect : Type 0 where
  delivers : Job → Answer → Effect
  recycles : Effect

abbrev pub Run : Type 0 → Type 0
Run A = Scheduler → Result A × Scheduler

infixl 5 ◌>>=◌
abbrev pub ◌>>=◌ : {A B : Type 0} → Run A → (A → Run B) → Run B
◌>>=◌ m f s = let (r, s') = m s in elim r [ ok a ↦ f a s' | err e ↦ (err e, s') ]

abbrev pub pure : {A : Type 0} → A → Run A
pure a s = (ok a, s)

-- The second step of `_claim`.
abbrev pub claim_waiting : Option Queued → Run (Option Queued)
claim_waiting none = pure none
claim_waiting (some entry) =
    if is entry.job.state claimed
    then transition_entry entry claimed waiting_model []
    else (if is_in entry.job.state (waiting_model ∷ inferencing ∷ [])
        then pure (some entry)
        else pure none)

-- `_claim`, of an entry that is handed back if it may be given a session
unfoldable pub claim : Queued → Run (Option Queued)
unfolding transition_entry
claim entry =
    (if is entry.job.state ready
      then transition_entry entry ready claimed []
      else pure (some entry))
    >>= claim_waiting

-- The end of `_retry_later`, once the ledger has answered.
abbrev pub wait_until : ℕ → Option Queued → Run (List Effect)
wait_until due none s = (ok [], s)
wait_until due (some entry) s =
    (ok [], record s { retry = s.retry ++ (due, entry) ∷ []; retried = suc s.retried })

-- `_retry_later`, at a reading of the clock and with the delay that was drawn
unfoldable pub retry_later : ℕ → ℕ → Queued → Text → ℕ → Run (List Effect)
retry_later now wait entry error count =
    transition_entry entry entry.job.state retry_wait
      (attempts count ∷ next_attempt_at_ms (some (now + wait)) ∷ last_error (some error) ∷ [])
    >>= wait_until (now + wait)

-- The end of `_exhaust`.
abbrev pub count_exhausted : Option Queued → Run (Option Queued)
count_exhausted none s = (ok none, s)
count_exhausted (some entry) s = (ok (some entry), record s { exhausted = suc s.exhausted })

-- `_exhaust`
unfoldable pub exhaust : Queued → Text → ℕ → Run (Option Queued)
exhaust entry error count =
    transition_entry entry entry.job.state processing_exhausted
      (attempts count ∷ last_error (some error) ∷ [])
    >>= count_exhausted

-- The end of `_block`.
abbrev pub count_blocked : Option Queued → Run (Option Queued)
count_blocked none s = (ok none, s)
count_blocked (some entry) s = (ok (some entry), record s { blocked = suc s.blocked })

-- `_block`
unfoldable pub block : Queued → Text → Run (Option Queued)
unfolding transition_entry exhaust
block entry error =
    if is entry.job.state inferencing
    then exhaust entry error entry.job.attempts
    else transition_entry entry waiting_model blocked_configuration (last_error (some error) ∷ [])
      >>= count_blocked

-- `if job is not None: self._notify(job, result)`
abbrev pub notify : Answer → Option Queued → Run (List Effect)
notify answer none = pure []
notify answer (some entry) = pure (delivers entry.job answer ∷ [])

-- A job that goes back to the head of its lane.
abbrev pub back_in_lane : Text → Queued → List Effect → Option Queued → Run (List Effect)
back_in_lane lane old effects none s = (ok effects, record s { lanes = requeue lane old s.lanes })
back_in_lane lane old effects (some entry) s =
    (ok effects, record s { lanes = requeue lane entry s.lanes })

abbrev pub detail_of : Text → Option Text → Text
detail_of default none = default
detail_of default (some detail) = detail

-- The end of `_apply`, for a failure that may be retried.
unfoldable pub apply_transient :
    ℕ → (ℕ → ℕ) → Queued → Option ErrorClass → Option Text → Text → Run (List Effect)
unfolding exhaust retry_later
apply_transient now backoff entry error_class error detail s =
    (if leb s.max_attempts (entry.job.attempts + 1)
        then exhaust entry detail (entry.job.attempts + 1)
          >>= notify (failed_with error_class error)
        else retry_later now (backoff (entry.job.attempts + 1)) entry detail
            (entry.job.attempts + 1))
      s

-- The branches of `_apply` for a failure, by its class.
unfoldable pub apply_failure :
    ℕ → (ℕ → ℕ) → Text → Queued → Option ErrorClass → Option Text → Text → Run (List Effect)
unfolding transition_entry requeue exhaust apply_transient
apply_failure now backoff lane entry (some contaminating) error detail =
    transition_entry entry inferencing inferencing (last_error (some detail) ∷ [])
    >>= back_in_lane lane entry (recycles ∷ [])
apply_failure now backoff lane entry (some permanent) error detail =
    exhaust entry detail entry.job.attempts >>= notify (failed_with (some permanent) error)
apply_failure now backoff lane entry error_class error detail =
    apply_transient now backoff entry error_class error detail

abbrev count_succeeded : Queued → Run (List Effect)
count_succeeded entry s =
    (ok (delivers entry.job succeeded_with ∷ []), record s { succeeded = suc s.succeeded })

-- `_apply`: the two texts are UNEXPECTED_REPLY and the detail of a failure without one
unfoldable pub apply_answer : ℕ → (ℕ → ℕ) → Text → Text → Text → Queued → Answer → Run (List Effect)
unfolding transition_entry requeue apply_failure
apply_answer now backoff unexpected_reply no_detail lane entry unexpected =
    transition_entry entry inferencing inferencing (last_error (some unexpected_reply) ∷ [])
    >>= back_in_lane lane entry []
apply_answer now backoff unexpected_reply no_detail lane entry succeeded_with =
    count_succeeded entry
apply_answer now backoff unexpected_reply no_detail lane entry (failed_with error_class error) =
    apply_failure now backoff lane entry error_class error (detail_of no_detail error)
