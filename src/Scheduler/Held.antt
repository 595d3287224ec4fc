-- ===== src/Scheduler/Held.antt =====
-- The jobs that image_processor/engine/scheduler.py holds.
use image_processor.Base.{
  ℕ, ◌+◌, ◌≡◌, refl, ◌∙◌, inl, inr, List, [], ◌∷◌, ◌++◌, ◌==◌, arith, Bool-cases, if◌then◌else◌,
}
use image_processor.Types.{Text, is, retry_wait}
use image_processor.Table.{Table}
use image_processor.Scheduler.{
  Queued, Lane, Scheduler, join, take_in, take_all, drain_inbox, due_or,
}

-- How often a job stands in a queue.
unfoldable pub tally : Text → List Queued → ℕ
tally k [] = 0
tally k (entry ∷ entries) = (if entry.job.inference_id == k then 1 else 0) + tally k entries

unfoldable pub tally_lanes : Text → Table Lane → ℕ
unfolding tally
tally_lanes k [] = 0
tally_lanes k ((_, lane) ∷ lanes) = tally k lane.jobs + tally_lanes k lanes

unfoldable pub tally_retry : Text → List (ℕ × Queued) → ℕ
tally_retry k [] = 0
tally_retry k ((_, entry) ∷ entries) =
    (if entry.job.inference_id == k then 1 else 0) + tally_retry k entries

-- How often the scheduler holds a job.
unfoldable pub held : Text → Scheduler → ℕ
unfolding tally tally_lanes tally_retry
held k s = tally k s.inbox + (tally_lanes k s.lanes + tally_retry k s.retry)

abbrev one : Text → Queued → ℕ
one k entry = if entry.job.inference_id == k then 1 else 0

tally-append :
    (k : Text) (xs : List Queued) (entry : Queued)
    → tally k (xs ++ entry ∷ []) ≡ tally k xs + one k entry
unfolding tally
tally-append k [] entry = omega arith
tally-append k (x ∷ xs) entry = omega (arith, tally-append k xs entry)

tally_retry-append :
    (k : Text) (xs : List (ℕ × Queued)) (due : ℕ) (entry : Queued)
    → tally_retry k (xs ++ (due, entry) ∷ []) ≡ tally_retry k xs + one k entry
unfolding tally_retry
tally_retry-append k [] due entry = omega arith
tally_retry-append k ((d, x) ∷ xs) due entry = omega (arith, tally_retry-append k xs due entry)

tally_lanes-join :
    (k digest : Text) (entry : Queued) (lanes : Table Lane)
    → tally_lanes k (join digest entry lanes) ≡ tally_lanes k lanes + one k entry
unfolding tally_lanes join tally
tally_lanes-join k digest entry [] = omega arith
tally_lanes-join k digest entry ((d, lane) ∷ lanes) = elim (Bool-cases (d == digest)) [
  | inl e ↦ rw e (omega (arith, tally-append k lane.jobs entry))
  | inr e ↦ rw e (omega (arith, tally_lanes-join k digest entry lanes))
]

held-take_in :
    (k now : ℕ) (entry : Queued) (s : Scheduler)
    → held k (take_in now entry s) ≡ held k s + one k entry
unfolding held take_in
held-take_in k now entry s = elim (Bool-cases (is entry.job.state retry_wait)) [
  | inl e ↦
      rw e (
        omega (arith, tally_retry-append k s.retry (due_or entry.job.next_attempt_at_ms now) entry))
  | inr e ↦ rw e (omega (arith, tally_lanes-join k entry.job.model.digest entry s.lanes))
]

held-take_all :
    (k now : ℕ) (entries : List Queued) (s : Scheduler)
    → held k (take_all now entries s) ≡ held k s + tally k entries
unfolding take_all tally
held-take_all k now [] s = omega arith
held-take_all k now (entry ∷ entries) s =
    held-take_all k now entries (take_in now entry s) ∙ omega (arith, held-take_in k now entry s)

take_all-inbox :
    (now : ℕ) (entries : List Queued) (s : Scheduler) → (take_all now entries s).inbox ≡ s.inbox
unfolding take_all take_in
take_all-inbox now [] s = refl
take_all-inbox now (entry ∷ entries) s =
    take_all-inbox now entries (take_in now entry s)
    ∙ elim (Bool-cases (is entry.job.state retry_wait)) [ inl e ↦ rw e refl | inr e ↦ rw e refl ]

-- Draining the inbox empties it and loses and doubles no job: each is held as often as before.
pub drain_inbox-held :
    (now : ℕ) (s : Scheduler)
    → ((drain_inbox now s).inbox ≡ []) × ((k : Text) → held k (drain_inbox now s) ≡ held k s)
unfolding drain_inbox held
drain_inbox-held now s =
    let empty = record s { inbox = [] } in
    (take_all-inbox now s.inbox empty, (λ k. held-take_all k now s.inbox empty ∙ omega arith))
