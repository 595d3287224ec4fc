-- ===== src/Scheduler/Outcomes.antt =====
-- What an answer does to its job in image_processor/engine/scheduler.py.
use image_processor.Base.{
  ℕ, ◌+◌, ◌≡◌, ◌≢◌, refl, sym, subst, inl, inr, Option, none, some, List, [], ◌∷◌, leb, Bool-cases,
}
use image_processor.Types.{
  Text, JobState, Job, inferencing, retry_wait, processing_exhausted, published,
}
use image_processor.Ledger.Store.{Ledger, conflict, illegal_transition, Result, ok, err}
use image_processor.Ledger.Jobs.{Field, attempts, next_attempt_at_ms, last_error, transition}
use image_processor.Ledger.Sound.{Sound}
use image_processor.Ledger.Sound.Transactions.{transition-Sound}
use image_processor.Protocol.Tables.{ErrorClass, transient, permanent, contaminating}
use image_processor.Scheduler.{Queued, Scheduler, moved_entry, transition_entry}
use image_processor.Scheduler.Answers.{
  Answer, unexpected, succeeded_with, failed_with, Effect, recycles, detail_of, Run, ◌>>=◌,
  count_exhausted, exhaust, retry_later, wait_until, notify, back_in_lane, apply_transient,
  apply_failure, apply_answer,
}

abbrev pub SoundAfter : {A : Type 0} → Result A × Scheduler → Type 0
SoundAfter r = Sound r.1.ledger

-- A call that keeps the ledger sound.
abbrev pub Keeps : {A : Type 0} → Run A → Type 0
Keeps m = (s : Scheduler) → Sound s.ledger → SoundAfter (m s)

pub Keeps-bind :
    {A B : Type 0} (m : Run A) (f : A → Run B) → Keeps m → ((a : A) → Keeps (f a)) → Keeps (m >>= f)
Keeps-bind {A} {B} m f h g s sound = go (m s) (h s sound)
  where
    go :
        (r : Result A × Scheduler)
        → Sound r.1.ledger
        → SoundAfter {A = B} (elim r.0 [ ok a ↦ f a r.1 | err e ↦ (err e, r.1) ])
    go (ok a, s') k = g a s' k
    go (err e, s') k = k

moved_entry-ledger :
    (entry : Queued) (s : Scheduler) (r : Result Job × Ledger)
    → (moved_entry entry s r).1.ledger ≡ r.1
moved_entry-ledger entry s (ok job, l) = refl
moved_entry-ledger entry s (err conflict, l) = refl
moved_entry-ledger entry s (err illegal_transition, l) = refl
moved_entry-ledger entry s (err _, l) = refl

pub transition_entry-Keeps :
    (entry : Queued) (expected new : JobState) (fields : List Field)
    → new ≢ published
    → Keeps (transition_entry entry expected new fields)
unfolding transition_entry
transition_entry-Keeps entry expected new fields ne s sound =
    subst (λ l. Sound l)
      (sym (
        moved_entry-ledger entry s
          (transition entry.job.inference_id expected new fields s.ledger)))
      (transition-Sound entry.job.inference_id expected new fields s.ledger ne sound)

count_exhausted-Keeps : (o : Option Queued) → Keeps (count_exhausted o)
count_exhausted-Keeps none s sound = sound
count_exhausted-Keeps (some entry) s sound = sound

wait_until-Keeps : (due : ℕ) (o : Option Queued) → Keeps (wait_until due o)
wait_until-Keeps due none s sound = sound
wait_until-Keeps due (some entry) s sound = sound

pub back_in_lane-Keeps :
    (lane : Text) (old : Queued) (effects : List Effect) (o : Option Queued)
    → Keeps (back_in_lane lane old effects o)
back_in_lane-Keeps lane old effects none s sound = sound
back_in_lane-Keeps lane old effects (some entry) s sound = sound

pub exhaust-Keeps : (entry : Queued) (error : Text) (count : ℕ) → Keeps (exhaust entry error count)
unfolding exhaust
exhaust-Keeps entry error count =
    Keeps-bind
      (transition_entry entry entry.job.state processing_exhausted
        (attempts count ∷ last_error (some error) ∷ []))
      count_exhausted
      (transition_entry-Keeps entry entry.job.state processing_exhausted
        (attempts count ∷ last_error (some error) ∷ []) (λ e. cc))
      count_exhausted-Keeps

pub notify-Keeps : (answer : Answer) (o : Option Queued) → Keeps (notify answer o)
notify-Keeps answer none s sound = sound
notify-Keeps answer (some entry) s sound = sound

pub retry_later-Keeps :
    (now wait : ℕ) (entry : Queued) (error : Text) (count : ℕ)
    → Keeps (retry_later now wait entry error count)
unfolding retry_later
retry_later-Keeps now wait entry error count =
    let fields =
      attempts count ∷ next_attempt_at_ms (some (now + wait)) ∷ last_error (some error) ∷ [] in
    Keeps-bind (transition_entry entry entry.job.state retry_wait fields) (wait_until (now + wait))
      (transition_entry-Keeps entry entry.job.state retry_wait fields (λ e. cc))
      (wait_until-Keeps (now + wait))

apply_transient-Keeps :
    (now : ℕ) (backoff : ℕ → ℕ) (entry : Queued) (c : Option ErrorClass) (error : Option Text)
    (detail : Text)
    → Keeps (apply_transient now backoff entry c error detail)
unfolding apply_transient
apply_transient-Keeps now backoff entry c error detail s sound =
    elim (Bool-cases (leb s.max_attempts (entry.job.attempts + 1))) [
      | inl e ↦ simp e (
          Keeps-bind (exhaust entry detail (entry.job.attempts + 1)) (notify (failed_with c error))
            (exhaust-Keeps entry detail (entry.job.attempts + 1))
            (notify-Keeps (failed_with c error)) s sound)
      | inr e ↦ simp e (
          retry_later-Keeps now (backoff (entry.job.attempts + 1)) entry detail
            (entry.job.attempts + 1) s sound)
    ]

again-Keeps :
    (lane : Text) (entry : Queued) (effects : List Effect) (detail : Text)
    → Keeps (
        transition_entry entry inferencing inferencing (last_error (some detail) ∷ [])
        >>= back_in_lane lane entry effects)
again-Keeps lane entry effects detail =
    let fields = last_error (some detail) ∷ [] in
    Keeps-bind (transition_entry entry inferencing inferencing fields)
      (back_in_lane lane entry effects)
      (transition_entry-Keeps entry inferencing inferencing fields (λ e. cc))
      (back_in_lane-Keeps lane entry effects)

apply_failure-Keeps :
    (now : ℕ) (backoff : ℕ → ℕ) (lane : Text) (entry : Queued) (c : Option ErrorClass)
    (error : Option Text) (detail : Text)
    → Keeps (apply_failure now backoff lane entry c error detail)
unfolding apply_failure
apply_failure-Keeps now backoff lane entry (some contaminating) error detail =
    again-Keeps lane entry (recycles ∷ []) detail
apply_failure-Keeps now backoff lane entry (some permanent) error detail =
    Keeps-bind (exhaust entry detail entry.job.attempts)
      (notify (failed_with (some permanent) error)) (exhaust-Keeps entry detail entry.job.attempts)
      (notify-Keeps (failed_with (some permanent) error))
apply_failure-Keeps now backoff lane entry (some transient) error detail =
    apply_transient-Keeps now backoff entry (some transient) error detail
apply_failure-Keeps now backoff lane entry none error detail =
    apply_transient-Keeps now backoff entry none error detail

-- Whatever a cell answers, a ledger whose database is sound is so after the answer was applied.
pub apply_answer-Sound :
    (now : ℕ) (backoff : ℕ → ℕ) (unexpected_reply no_detail lane : Text) (entry : Queued)
    (answer : Answer) (s : Scheduler)
    → Sound s.ledger
    → Sound (apply_answer now backoff unexpected_reply no_detail lane entry answer s).1.ledger
unfolding apply_answer
apply_answer-Sound now backoff unexpected_reply no_detail lane entry unexpected =
    again-Keeps lane entry [] unexpected_reply
apply_answer-Sound now backoff unexpected_reply no_detail lane entry succeeded_with =
    λ s sound. sound
apply_answer-Sound now backoff unexpected_reply no_detail lane entry (failed_with c error) =
    apply_failure-Keeps now backoff lane entry c error (detail_of no_detail error)
