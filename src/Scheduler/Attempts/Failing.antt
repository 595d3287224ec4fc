-- ===== src/Scheduler/Attempts/Failing.antt =====
-- A job of image_processor/engine/scheduler.py that fails at every attempt.
use image_processor.Base.{
  ℕ, zero, suc, ◌+◌, ◌≤◌, ◌≡◌, refl, sym, ap, ◌∙◌, subst, inl, inr, true, false, Option, none, some,
  List, [], ◌∷◌, ◌++◌, leb, max, arith, Bool-cases,
}
use image_processor.Types.{Text, inferencing}
use image_processor.Ledger.Store.{Result, ok, err}
use image_processor.Ledger.Jobs.Moves.{status}
use image_processor.Protocol.Tables.{ErrorClass}
use image_processor.Scheduler.{Queued, Scheduler, with_ledger}
use image_processor.Scheduler.Answers.{
  Answer, failed_with, Effect, Run, ◌>>=◌, pure, exhaust, retry_later, notify, apply_transient,
}
use image_processor.Scheduler.Budget.{bind-ok, carry_on}
use image_processor.Scheduler.Attempts.{InStep}
use image_processor.Scheduler.Attempts.Redispatch.{redispatch, redispatch-Goes}
use image_processor.Scheduler.Attempts.Ends.{
  Retries, retry_later-Retries, Exhausts, exhaust-Exhausts,
}

-- The last entry of the retries, and those before it.
abbrev pub split_last : List (ℕ × Queued) → Option (List (ℕ × Queued) × Queued)
split_last [] = none
split_last ((due, entry) ∷ entries) = elim (split_last entries) [
  | none ↦ some ([], entry)
  | some (before, last) ↦ some ((due, entry) ∷ before, last)
]

module _ (rest : Queued → Run (List Effect)) where
  abbrev pub once_sent : Option Queued → Run (List Effect)
  once_sent none = pure []
  once_sent (some entry) = rest entry

  abbrev pub again : Option (List (ℕ × Queued) × Queued) → Run (List Effect)
  again none s = (ok [], s)
  again (some (before, entry)) s = (redispatch entry >>= once_sent) (record s { retry = before })

  -- What follows an attempt: nothing if the job was answered, and otherwise the next attempt.
  abbrev pub next_attempt : List Effect → Run (List Effect)
  next_attempt (effect ∷ effects) s = (ok (effect ∷ effects), s)
  next_attempt [] s = again (split_last s.retry) s

-- At most so many attempts, each of which fails in a way that may be retried.
unfoldable pub keep_failing :
    ℕ → (ℕ → ℕ) → Option ErrorClass → Option Text → Text → ℕ → Queued → Run (List Effect)
unfolding redispatch apply_transient
keep_failing now backoff c error detail zero entry = pure []
keep_failing now backoff c error detail (suc n) entry =
    let rest = keep_failing now backoff c error detail n in
    apply_transient now backoff entry c error detail >>= next_attempt rest

split_last-append :
    (entries : List (ℕ × Queued)) (due : ℕ) (entry : Queued)
    → split_last (entries ++ (due, entry) ∷ []) ≡ some (entries, entry)
split_last-append [] due entry = refl
split_last-append (e ∷ entries) due entry = rw (split_last-append entries due entry) refl

stop-Exhausts :
    (rest : Queued → Run (List Effect)) (answer : Answer) (count : ℕ) (entry : Queued)
    (s : Scheduler) (m : Run (List Effect))
    → Exhausts answer count entry s (m s)
    → Exhausts answer count entry s ((m >>= next_attempt rest) s)
stop-Exhausts rest answer count entry s m h = go (m s) h
  where
    go :
        (r : Result (List Effect) × Scheduler)
        → Exhausts answer count entry s r
        → Exhausts answer count entry s (carry_on (next_attempt rest) r)
    go (ok (effect ∷ effects), s') h = h
    go (ok [], s') h = absurd (let k = h.returns in cc)
    go (err e, s') h = absurd (let k = h.returns in cc)

-- The same attempt, told of the job as it was before.
Exhausts-earlier :
    (answer : Answer) (count count' : ℕ) (old entry : Queued) (s s' : Scheduler)
    (r : Result (List Effect) × Scheduler)
    → count ≡ count'
    → entry.job.inference_id ≡ old.job.inference_id
    → s'.retry ≡ s.retry
    → Exhausts answer count entry s' r
    → Exhausts answer count' old s r
Exhausts-earlier answer count count' old entry s s' r counts ids retries h = record {
  job = h.job;
  returns = h.returns;
  counted = h.counted ∙ counts;
  exhausted = ap (λ i. status i r.1.ledger.db) (sym ids) ∙ h.exhausted;
  retries = h.retries ∙ retries;
}

-- What a retried job goes on with.
resend :
    (rest : Queued → Run (List Effect)) (m : Run (List Effect)) (now wait count : ℕ)
    (entry : Queued) (s : Scheduler)
    → Retries now wait count entry s (m s)
    → (sent : Queued) × (s' : Scheduler) × ((m >>= next_attempt rest) s ≡ rest sent s')
      × InStep inferencing sent s'.ledger
      × (sent.job.inference_id ≡ entry.job.inference_id)
      × (sent.job.attempts ≡ count)
      × (s'.retry ≡ s.retry)
      × (s'.max_attempts ≡ s.max_attempts)
resend rest m now wait count entry s again_later =
    let s1 : Scheduler = record s {
      ledger = again_later.ledger;
      retry = s.retry ++ (now + wait, again_later.after) ∷ [];
      retried = suc s.retried;
    } in
    let s2 : Scheduler = record s1 { retry = s.retry } in
    let sent = redispatch-Goes again_later.after s2 again_later.in_step in
    (
      sent.entry,
      with_ledger s2 sent.ledger,
      bind-ok m (next_attempt rest) s s1 [] again_later.returns
          ∙ ap (λ o. again rest o s1) (split_last-append s.retry (now + wait) again_later.after)
          ∙ bind-ok (redispatch again_later.after) (once_sent rest) s2 (with_ledger s2 sent.ledger)
              (some sent.entry) sent.returns,
      sent.in_step,
      sent.same_id ∙ again_later.same_id,
      sent.same_attempts ∙ again_later.counted,
      refl,
      refl,
    )

apply_transient-exhaust :
    (now : ℕ) (backoff : ℕ → ℕ) (entry : Queued) (c : Option ErrorClass) (error : Option Text)
    (detail : Text) (s : Scheduler)
    → leb s.max_attempts (entry.job.attempts + 1) ≡ true
    → apply_transient now backoff entry c error detail s
      ≡ (exhaust entry detail (entry.job.attempts + 1) >>= notify (failed_with c error)) s
unfolding apply_transient
apply_transient-exhaust now backoff entry c error detail s e = simp e refl

apply_transient-retry_later :
    (now : ℕ) (backoff : ℕ → ℕ) (entry : Queued) (c : Option ErrorClass) (error : Option Text)
    (detail : Text) (s : Scheduler)
    → leb s.max_attempts (entry.job.attempts + 1) ≡ false
    → apply_transient now backoff entry c error detail s
      ≡ retry_later now (backoff (entry.job.attempts + 1)) entry detail (entry.job.attempts + 1) s
unfolding apply_transient
apply_transient-retry_later now backoff entry c error detail s e = simp e refl

spent-Exhausts :
    (now : ℕ) (backoff : ℕ → ℕ) (c : Option ErrorClass) (error : Option Text) (detail : Text)
    (rest : Queued → Run (List Effect)) (entry : Queued) (s : Scheduler)
    → InStep inferencing entry s.ledger
    → leb s.max_attempts (entry.job.attempts + 1) ≡ true
    → Exhausts
        (failed_with c error)
        (max s.max_attempts (entry.job.attempts + 1))
        entry
        s
        ((apply_transient now backoff entry c error detail >>= next_attempt rest) s)
spent-Exhausts now backoff c error detail rest entry s step spent =
    let answer = failed_with c error in
    let most = max s.max_attempts (entry.job.attempts + 1) in
    stop-Exhausts rest answer most entry s (apply_transient now backoff entry c error detail) (
      subst (Exhausts answer most entry s)
        (sym (apply_transient-exhaust now backoff entry c error detail s spent))
        (Exhausts-earlier answer (entry.job.attempts + 1) most entry entry s s _
          (ground (arith, spent)) refl refl
          (exhaust-Exhausts answer entry detail (entry.job.attempts + 1) s step)))

left-Exhausts :
    (now : ℕ) (backoff : ℕ → ℕ) (c : Option ErrorClass) (error : Option Text) (detail : Text)
    (rest : Queued → Run (List Effect)) (n : ℕ) (entry : Queued) (s : Scheduler)
    → InStep inferencing entry s.ledger
    → s.max_attempts ≤ entry.job.attempts + suc (suc n)
    → leb s.max_attempts (entry.job.attempts + 1) ≡ false
    → ((sent : Queued) (s' : Scheduler)
        → InStep inferencing sent s'.ledger
        → s'.max_attempts ≤ sent.job.attempts + suc n
        → Exhausts
            (failed_with c error)
            (max s'.max_attempts (sent.job.attempts + 1))
            sent
            s'
            (rest sent s'))
    → Exhausts
        (failed_with c error)
        (max s.max_attempts (entry.job.attempts + 1))
        entry
        s
        ((apply_transient now backoff entry c error detail >>= next_attempt rest) s)
left-Exhausts now backoff c error detail rest n entry s step enough left later =
    let count = entry.job.attempts + 1 in
    let again_later =
      subst (Retries now (backoff count) count entry s)
        (sym (apply_transient-retry_later now backoff entry c error detail s left))
        (retry_later-Retries now (backoff count) entry detail count s step) in
    let (sent, s', same, sent_step, ids, counts, retries, budget) =
      resend rest (apply_transient now backoff entry c error detail) now (backoff count) count entry
        s again_later in
    subst (Exhausts (failed_with c error) (max s.max_attempts count) entry s) (sym same) (
      Exhausts-earlier (failed_with c error) (max s'.max_attempts (sent.job.attempts + 1))
        (max s.max_attempts count) entry sent s s' _ (ground (arith, left, counts, budget)) ids
        retries (later sent s' sent_step (omega (arith, enough, counts, budget))))

-- A job that is INFERENCING in an open ledger and fails at every attempt, in a way that may be
-- retried, is exhausted and delivered once, and leaves no retry, if it is given as many attempts
-- as its budget has left, or one if it has none. It has then been attempted `max_attempts` times,
-- or once more than before if that was spent.
pub keep_failing-Exhausts :
    (now : ℕ) (backoff : ℕ → ℕ) (c : Option ErrorClass) (error : Option Text) (detail : Text)
    (n : ℕ) (entry : Queued) (s : Scheduler)
    → InStep inferencing entry s.ledger
    → s.max_attempts ≤ entry.job.attempts + suc n
    → Exhausts
        (failed_with c error)
        (max s.max_attempts (entry.job.attempts + 1))
        entry
        s
        (keep_failing now backoff c error detail (suc n) entry s)
unfolding keep_failing
keep_failing-Exhausts now backoff c error detail zero entry s step enough =
    spent-Exhausts now backoff c error detail (keep_failing now backoff c error detail zero) entry s
      step (ground (arith, enough))
keep_failing-Exhausts now backoff c error detail (suc n) entry s step enough =
    let rest = keep_failing now backoff c error detail (suc n) in
    elim (Bool-cases (leb s.max_attempts (entry.job.attempts + 1))) [
      | inl spent ↦ spent-Exhausts now backoff c error detail rest entry s step spent
      | inr left ↦
          left-Exhausts now backoff c error detail rest n entry s step enough left
            (λ sent s'. keep_failing-Exhausts now backoff c error detail n sent s')
    ]
