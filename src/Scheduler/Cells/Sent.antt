-- ===== src/Scheduler/Cells/Sent.antt =====
-- The state of the job that image_processor/engine/scheduler.py claims and sends.
use image_processor.Base.{
  ◌≡◌, refl, inl, inr, true, Option, none, some, List, [], ◌∷◌, Bool-cases, if◌then◌else◌, arith,
}
use image_processor.Types.{
  JobState, JobState-discrete, is, is_in, Job, ready, claimed, waiting_model, inferencing,
}
use image_processor.Ledger.Store.{Ledger, Result, ok, err, conflict, illegal_transition}
use image_processor.Ledger.Store.Rules.{Ends, write-Ends}
use image_processor.Ledger.Jobs.{Field, transition, set_state}
use image_processor.Ledger.Jobs.Moves.{set_state-At, status}
use image_processor.Scheduler.{Queued, Scheduler, moved_entry, transition_entry}
use image_processor.Scheduler.Answers.{Run, ◌>>=◌, pure, claim, claim_waiting}
use image_processor.Scheduler.Attempts.Redispatch.{start_inference}

-- What holds of the result of a call that returns.
abbrev pub Returns : {A S : Type 0} → (A → Type 0) → Result A × S → Type 0
Returns Q (ok a, s) = Q a
Returns Q (err e, s) = Unit

Returns-bind :
    {A B : Type 0} (P : A → Type 0) (Q : B → Type 0) (m : Run A) (f : A → Run B) (s : Scheduler)
    → Returns P (m s)
    → ((a : A) (s' : Scheduler) → P a → Returns Q (f a s'))
    → Returns Q ((m >>= f) s)
Returns-bind {A} {B} P Q m f s h g = go (m s) h
  where
    go :
        (r : Result A × Scheduler)
        → Returns P r
        → Returns Q
            (elim r.0 as (λ _. Result B × Scheduler) [ ok a ↦ f a r.1 | err e ↦ (err e, r.1) ])
    go (ok a, s') k = g a s' k
    go (err e, s') k = tt

-- The entry that a call hands back, if it does, has its job in the state.
abbrev pub InState : JobState → Option Queued → Type 0
InState state none = Unit
InState state (some entry) = entry.job.state ≡ state

moved_entry-InState :
    (new : JobState) (entry : Queued) (s : Scheduler) (r : Result Job × Ledger)
    → Ends (λ j l'. j.state ≡ new) r
    → Returns (InState new) (moved_entry entry s r)
moved_entry-InState new entry s (ok job, l) h = h
moved_entry-InState new entry s (err conflict, l) h = tt
moved_entry-InState new entry s (err illegal_transition, l) h = tt
moved_entry-InState new entry s (err _, l) h = tt

transition_entry-InState :
    (entry : Queued) (expected new : JobState) (fields : List Field) (s : Scheduler)
    → Returns (InState new) (transition_entry entry expected new fields s)
unfolding transition_entry transition
transition_entry-InState entry expected new fields s =
    let ident = entry.job.inference_id in
    moved_entry-InState new entry s (transition ident expected new fields s.ledger) (
      write-Ends (λ j d. j.state ≡ new) (set_state ident (some expected) new fields) s.ledger
        (only-state (set_state ident (some expected) new fields s.ledger)
          (set_state-At ident (some expected) new fields s.ledger)))
  where
    only-state :
        (r : Result Job × Ledger)
        → Ends (λ j l'. (status entry.job.inference_id l'.db ≡ some new) × (j.state ≡ new)) r
        → Ends (λ j l'. j.state ≡ new) r
    only-state (ok j, l) h = h.1
    only-state (err e, l) h = tt

-- A claimed entry waits for its model, or was handed back by a recycled cell.
abbrev pub Claimed : Option Queued → Type 0
Claimed none = Unit
Claimed (some entry) = is_in entry.job.state (waiting_model ∷ inferencing ∷ []) ≡ true

waiting-Claimed : (o : Option Queued) → InState waiting_model o → Claimed o
unfolding JobState-discrete
waiting-Claimed none h = tt
waiting-Claimed (some entry) h = rw h refl

Returns-map :
    {A S : Type 0} (P Q : A → Type 0) (r : Result A × S)
    → ((a : A) → P a → Q a)
    → Returns P r
    → Returns Q r
Returns-map P Q (ok a, s) f h = f a h
Returns-map P Q (err e, s) f h = tt

claim_waiting-Claimed : (o : Option Queued) (s : Scheduler) → Returns Claimed (claim_waiting o s)
claim_waiting-Claimed none s = tt
claim_waiting-Claimed (some entry) s = elim (Bool-cases (is entry.job.state claimed)) [
  | inl e ↦ simp e (
      Returns-map (InState waiting_model) Claimed
        (transition_entry entry claimed waiting_model [] s) waiting-Claimed
        (transition_entry-InState entry claimed waiting_model [] s))
  | inr e ↦ simp e (elim (Bool-cases (is_in entry.job.state (waiting_model ∷ inferencing ∷ []))) [
    | inl k ↦ simp k refl
    | inr k ↦ simp k tt
  ])
]

pub claim-Claimed : (entry : Queued) (s : Scheduler) → Returns Claimed (claim entry s)
unfolding claim
claim-Claimed entry s =
    let first : Run (Option Queued) =
      if is entry.job.state ready
      then transition_entry entry ready claimed []
      else pure (some entry) in
    Returns-bind (λ _. Unit) Claimed first claim_waiting s (Returns-any (first s))
      (λ o s' _. claim_waiting-Claimed o s')
  where
    Returns-any : {A S : Type 0} (r : Result A × S) → Returns (λ _. Unit {0}) r
    Returns-any (ok a, s) = tt
    Returns-any (err e, s) = tt

-- A claimed entry that is started is INFERENCING.
pub start_inference-InState :
    (entry : Queued) (s : Scheduler)
    → Claimed (some entry)
    → Returns (InState inferencing) (start_inference (some entry) s)
unfolding JobState-discrete
start_inference-InState entry s h = elim (Bool-cases (is entry.job.state waiting_model)) [
  | inl e ↦ simp e (transition_entry-InState entry waiting_model inferencing [] s)
  | inr e ↦ simp e (ground (arith, h, e))
]
