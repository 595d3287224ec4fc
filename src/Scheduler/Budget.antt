-- ===== src/Scheduler/Budget.antt =====
-- The retry budget of `_apply` in image_processor/engine/scheduler.py.
use image_processor.Base.{
  ℕ, ◌+◌, ◌≡◌, refl, ap, sym, ◌∙◌, subst, inl, inr, Bool, true, false, Option, some, List, [], ◌∷◌,
  ◌++◌, leb, ==_refl, Bool-cases,
}
use image_processor.Types.{
  Text, JobState, JobState-discrete, Job, inferencing, retry_wait, processing_exhausted,
}
use image_processor.Ledger.Schema.{is_legal}
use image_processor.Ledger.Store.{Ledger, Result, ok, err}
use image_processor.Ledger.Jobs.{
  Field, attempts, next_attempt_at_ms, last_error, any_unknown, transition,
}
use image_processor.Ledger.Jobs.Moves.{status}
use image_processor.Ledger.Jobs.Transition.{is_ok, Allowed, transition-Allowed}
use image_processor.Protocol.Tables.{ErrorClass}
use image_processor.Scheduler.{Queued, Scheduler, with_ledger, moved_entry, transition_entry}
use image_processor.Scheduler.Answers.{
  Answer, failed_with, Effect, delivers, Run, ◌>>=◌, count_exhausted, exhaust, retry_later,
  wait_until, notify, apply_transient,
}

-- A transition of a queued job that goes through.
abbrev WentTo : JobState → Queued → Scheduler → Result (Option Queued) × Scheduler → Type 0
WentTo new entry s r =
    (job : Job) × (l : Ledger) × (r ≡ (ok (some (record entry { job = job })), with_ledger s l))
    × (status entry.job.inference_id l.db ≡ some new)

moved_entry-WentTo :
    (new : JobState) (entry : Queued) (s : Scheduler) (r : Result Job × Ledger)
    → is_ok r.0 ≡ true
    → status entry.job.inference_id r.1.db ≡ some new
    → WentTo new entry s (moved_entry entry s r)
moved_entry-WentTo new entry s (ok job, l) h at = (job, l, refl, at)
moved_entry-WentTo new entry s (err e, l) h at = let k : false ≡ true = h in cc

transition_entry-WentTo :
    (entry : Queued) (expected new : JobState) (fields : List Field) (s : Scheduler)
    → s.ledger.closed ≡ false
    → Allowed entry.job.inference_id expected new fields s.ledger.db
    → WentTo new entry s (transition_entry entry expected new fields s)
unfolding transition_entry
transition_entry-WentTo entry expected new fields s opened allowed =
    let ident = entry.job.inference_id in
    let both = transition-Allowed ident expected new fields s.ledger opened in
    let went = both.0.1 allowed in
    let known = allowed.1 in
    moved_entry-WentTo new entry s (transition ident expected new fields s.ledger) went
      (both.1 went ident ∙ rw (==_refl ident, known) refl)

abbrev pub carry_on : {A B : Type 0} → (A → Run B) → Result A × Scheduler → Result B × Scheduler
carry_on f r = elim r.0 [ ok a ↦ f a r.1 | err e ↦ (err e, r.1) ]

-- What follows a call that returned.
pub bind-ok :
    {A B : Type 0} (m : Run A) (f : A → Run B) (s s' : Scheduler) (a : A)
    → m s ≡ (ok a, s')
    → (m >>= f) s ≡ f a s'
bind-ok m f s s' a e = ap (λ r. carry_on f r) e

-- The end of a transient failure, by whether the budget is spent.
abbrev pub Disposed :
    ℕ → Answer → Queued → Scheduler → Bool → Result (List Effect) × Scheduler → Type 0
Disposed due answer entry s true r =
    (job : Job) × (r.0 ≡ ok (delivers job answer ∷ []))
    × (status entry.job.inference_id r.1.ledger.db ≡ some processing_exhausted)
    × (r.1.retry ≡ s.retry)
Disposed due answer entry s false r =
    (job : Job) × (r.0 ≡ ok [])
    × (status entry.job.inference_id r.1.ledger.db ≡ some retry_wait)
    × (r.1.retry ≡ s.retry ++ (due, record entry { job = job }) ∷ [])

exhaust-Disposed :
    (due : ℕ) (answer : Answer) (entry : Queued) (detail : Text) (count : ℕ) (s : Scheduler)
    → s.ledger.closed ≡ false
    → entry.job.state ≡ inferencing
    → status entry.job.inference_id s.ledger.db ≡ some inferencing
    → Disposed due answer entry s true ((exhaust entry detail count >>= notify answer) s)
unfolding exhaust any_unknown is_legal JobState-discrete
exhaust-Disposed due answer entry detail count s opened here at =
    let fields = attempts count ∷ last_error (some detail) ∷ [] in
    let move = transition_entry entry entry.job.state processing_exhausted fields in
    let (job, l, same, there) =
      transition_entry-WentTo entry entry.job.state processing_exhausted fields s opened
        (refl, at ∙ ap some (sym here), rw here refl) in
    let after : Queued = record entry { job = job } in
    let first = bind-ok move count_exhausted s (with_ledger s l) (some after) same in
    let both = bind-ok (exhaust entry detail count) (notify answer) s _ (some after) first in
    subst (λ r. Disposed due answer entry s true r) (sym both) (job, refl, there, refl)

retry_later-Disposed :
    (now wait : ℕ) (answer : Answer) (entry : Queued) (detail : Text) (count : ℕ) (s : Scheduler)
    → s.ledger.closed ≡ false
    → entry.job.state ≡ inferencing
    → status entry.job.inference_id s.ledger.db ≡ some inferencing
    → Disposed (now + wait) answer entry s false (retry_later now wait entry detail count s)
unfolding retry_later any_unknown is_legal JobState-discrete
retry_later-Disposed now wait answer entry detail count s opened here at =
    let fields =
      attempts count ∷ next_attempt_at_ms (some (now + wait)) ∷ last_error (some detail) ∷ [] in
    let move = transition_entry entry entry.job.state retry_wait fields in
    let (job, l, same, there) =
      transition_entry-WentTo entry entry.job.state retry_wait fields s opened
        (refl, at ∙ ap some (sym here), rw here refl) in
    let after : Queued = record entry { job = job } in
    let first = bind-ok move (wait_until (now + wait)) s (with_ledger s l) (some after) same in
    subst (λ r. Disposed (now + wait) answer entry s false r) (sym first) (job, refl, there, refl)

-- No failed job is dropped: when a job that the open ledger has as INFERENCING fails in a way that
-- may be retried, it is exhausted, and delivered to the application, exactly if this attempt spends
-- the budget; otherwise it is in RETRY_WAIT and stands last among the retries, due after the delay of
-- this attempt.
pub apply_transient-Disposed :
    (now : ℕ) (backoff : ℕ → ℕ) (entry : Queued) (c : Option ErrorClass) (error : Option Text)
    (detail : Text) (s : Scheduler)
    → s.ledger.closed ≡ false
    → entry.job.state ≡ inferencing
    → status entry.job.inference_id s.ledger.db ≡ some inferencing
    → Disposed
        (now + backoff (entry.job.attempts + 1))
        (failed_with c error)
        entry
        s
        (leb s.max_attempts (entry.job.attempts + 1))
        (apply_transient now backoff entry c error detail s)
unfolding apply_transient
apply_transient-Disposed now backoff entry c error detail s opened here at =
    elim (Bool-cases (leb s.max_attempts (entry.job.attempts + 1))) [
      | inl e ↦ simp e (
          exhaust-Disposed (now + backoff (entry.job.attempts + 1)) (failed_with c error) entry
            detail (entry.job.attempts + 1) s opened here at)
      | inr e ↦ simp e (
          retry_later-Disposed now (backoff (entry.job.attempts + 1)) (failed_with c error) entry
            detail (entry.job.attempts + 1) s opened here at)
    ]
