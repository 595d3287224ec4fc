-- ===== src/Publisher/Pass.antt =====
-- One attempt of image_processor/outputs/publisher.py: its counters, messages and ledger calls.
use image_processor.Base.{
  ℕ, suc, ◌+◌, ◌≡◌, refl, ap, ◌∙◌, inl, inr, Bool, true, false, Option, none, some, List, [], ◌∷◌,
  ◌++◌, arith, ltb, if◌then◌else◌, Bool-cases,
}
use image_processor.Types.{Text, Bytes, is, Job, published}
use image_processor.Ledger.Store.{Ledger, Result, ok, err}
use image_processor.Ledger.Jobs.{get}
use image_processor.Ledger.Outbox.{OutboxRow}
use image_processor.Ledger.Sound.{Sound}
use image_processor.Ledger.Sound.Results.{
  mark_published-Sound, mark_publish_attempt-Sound, exhaust_publish-Sound,
}
use image_processor.Publisher.{
  Event, sent, published_job, exhausted_job, failed_job, OutboxPublisher, log, on_row, gave_up,
  give_up, failure_marked, success_marked, answered, record_failure, tell_published, job_read,
  record_success, Attempt, confirmed, refused, raised, ended,
}

-- The messages that were handed to the transport, in order.
abbrev pub sent_of : List Event → List (Text × Bytes)
sent_of [] = []
sent_of (sent topic bytes ∷ es) = (topic, bytes) ∷ sent_of es
sent_of (_ ∷ es) = sent_of es

abbrev pub message : OutboxRow → Text × Bytes
message row = (row.topic, row.encoded_bytes)

pub sent_of-append :
    (es : List Event) (e : Event) → sent_of (es ++ e ∷ []) ≡ sent_of es ++ sent_of (e ∷ [])
sent_of-append [] e = ground arith
sent_of-append (sent topic bytes ∷ es) e = ap (λ m. (topic, bytes) ∷ m) (sent_of-append es e)
sent_of-append (published_job j ∷ es) e = sent_of-append es e
sent_of-append (exhausted_job i d ∷ es) e = sent_of-append es e
sent_of-append (failed_job i d ∷ es) e = sent_of-append es e

pub append_none {ℓ} : {A : Type ℓ} (xs : List A) → xs ++ [] ≡ xs
append_none [] = refl
append_none (x ∷ xs) = ap (λ ys. x ∷ ys) (append_none xs)

pub append_one {ℓ} : {A : Type ℓ} (xs ys : List A) (x : A) → (xs ++ x ∷ []) ++ ys ≡ xs ++ x ∷ ys
append_one [] ys x = refl
append_one (z ∷ xs) ys x = ap (λ zs. z ∷ zs) (append_one xs ys x)

-- What the bookkeeping after a publication leaves alone, and that it keeps the ledger sound.
record Quiet (p q : OutboxPublisher) : Type 0 where
  pub same_count : q.attempted ≡ p.attempted
  pub same_messages : sent_of q.events ≡ sent_of p.events
  same_counts : (q.published_count ≡ p.published_count) × (q.failed ≡ p.failed)
  pub sound : Sound p.ledger → Sound q.ledger

gave_up-Quiet :
    (row : OutboxRow) (error : Text) (p : OutboxPublisher) (r : Result Job × Ledger)
    → (Sound p.ledger → Sound r.1)
    → Quiet p (gave_up row error p r)
unfolding gave_up
gave_up-Quiet row error p (err _, l) s = record {
  same_count = refl;
  same_messages = refl;
  same_counts = (refl, refl);
  sound = s;
}
gave_up-Quiet row error p (ok _, l) s = record {
  same_count = refl;
  same_messages =
      sent_of-append p.events (exhausted_job row.inference_id error)
      ∙ append_none (sent_of p.events);
  same_counts = (refl, refl);
  sound = s;
}

give_up-Quiet :
    (row : OutboxRow) (error : Text) (p : OutboxPublisher) → Quiet p (give_up row error p)
unfolding give_up
give_up-Quiet row error p =
    by_budget row error p (ltb (row.attempts + 1) p.max_attempts)
      (gave_up-Quiet row error p _ (exhaust_publish-Sound row.inference_id p.ledger))
  where
    by_budget :
        (row : OutboxRow) (error : Text) (p : OutboxPublisher) (b : Bool) {q : OutboxPublisher}
        → Quiet p q
        → Quiet p (if b then p else q)
    by_budget row error p true h = record {
      same_count = refl;
      same_messages = refl;
      same_counts = (refl, refl);
      sound = λ s. s;
    }
    by_budget row error p false h = h

tell_published-Quiet : (o : Option Job) (p : OutboxPublisher) → Quiet p (tell_published o p)
unfolding tell_published
tell_published-Quiet none p = record {
  same_count = refl;
  same_messages = refl;
  same_counts = (refl, refl);
  sound = λ s. s;
}
tell_published-Quiet (some job) p = elim (Bool-cases (is job.state published)) [
  | inl e ↦ rw e (record {
    same_count = refl;
    same_messages = sent_of-append p.events (published_job job) ∙ append_none (sent_of p.events);
    same_counts = (refl, refl);
    sound = λ s. s;
  })
  | inr e ↦ rw e (record {
    same_count = refl;
    same_messages = refl;
    same_counts = (refl, refl);
    sound = λ s. s;
  })
]

on_row-Sound :
    (o : Option ℕ) (call : ℕ → Ledger → Result (Unit {0}) × Ledger) (l : Ledger)
    → ((i : ℕ) (l : Ledger) → Sound l → Sound (call i l).1)
    → Sound l
    → Sound (on_row o call l).1
on_row-Sound none call l h s = s
on_row-Sound (some i) call l h s = h i l s

-- What the end of an attempt did to the counters of confirmations and failures.
abbrev pub Counted : Attempt → OutboxPublisher → OutboxPublisher → Type 0
Counted confirmed p q = (q.published_count ≡ suc p.published_count) × (q.failed ≡ p.failed)
Counted refused p q = (q.published_count ≡ p.published_count) × (q.failed ≡ suc p.failed)
Counted (raised e) p q = Unit

-- What an attempt did, besides handing one message over: it is counted by how it ended.
pub record Handled (a : Attempt) (p q : OutboxPublisher) : Type 0 where
  pub same_count : q.attempted ≡ p.attempted
  pub same_messages : sent_of q.events ≡ sent_of p.events
  pub counted : Counted a p q
  pub sound : Sound p.ledger → Sound q.ledger

failure_marked-Handled :
    (row : OutboxRow) (error : Text) (p p' : OutboxPublisher) (r : Result (Unit {0}) × Ledger)
    → p' ≡ record p { failed = suc p.failed; last_error = some error }
    → (Sound p.ledger → Sound r.1)
    → Handled
        (ended refused (failure_marked row error p' r)).0
        p
        (ended refused (failure_marked row error p' r)).1
unfolding failure_marked
failure_marked-Handled row error p p' (err e, l) h s =
    rw h (record { same_count = refl; same_messages = refl; counted = tt; sound = s })
failure_marked-Handled row error p p' (ok _, l) h s = rw h (
    let told =
      log (failed_job row.inference_id error)
        (record p { failed = suc p.failed; last_error = some error; ledger = l }) in
    let after = give_up-Quiet row error told in
    record {
      same_count = after.same_count;
      same_messages =
          after.same_messages
          ∙ sent_of-append p.events (failed_job row.inference_id error)
          ∙ append_none (sent_of p.events);
      counted = after.same_counts;
      sound = λ h. after.sound (s h);
    })

success_marked-Handled :
    (row : OutboxRow) (p : OutboxPublisher) (r : Result (Unit {0}) × Ledger)
    → (Sound p.ledger → Sound r.1)
    → Handled
        (ended confirmed (success_marked row p r)).0
        p
        (ended confirmed (success_marked row p r)).1
unfolding success_marked job_read
success_marked-Handled row p (err e, l) s = record {
  same_count = refl;
  same_messages = refl;
  counted = tt;
  sound = s;
}
success_marked-Handled row p (ok _, l) s = go (get row.inference_id l)
  where
    go :
        (o : Result (Option Job))
        → Handled
            (ended confirmed
              (job_read o (record p { ledger = l; published_count = suc p.published_count }))).0
            p
            (ended confirmed
              (job_read o (record p { ledger = l; published_count = suc p.published_count }))).1
    go (err e) = record { same_count = refl; same_messages = refl; counted = tt; sound = s }
    go (ok found) =
        let after =
          tell_published-Quiet found
            (record p { ledger = l; published_count = suc p.published_count }) in
        record {
          same_count = after.same_count;
          same_messages = after.same_messages;
          counted = after.same_counts;
          sound = λ h. after.sound (s h);
        }

pub answered-Handled :
    (publish : ℕ → Text → Bytes → Option Text) (is_stopped : ℕ → Bool) (o : Option Text)
    (row : OutboxRow) (p : OutboxPublisher)
    → Handled (answered publish is_stopped o row p).0 p (answered publish is_stopped o row p).1
unfolding answered record_failure record_success
answered-Handled publish is_stopped (some error) row p =
    failure_marked-Handled row error p _ _ refl
      (on_row-Sound row.id _ p.ledger (λ i l. mark_publish_attempt-Sound i error l))
answered-Handled publish is_stopped none row p =
    success_marked-Handled row p _ (on_row-Sound row.id _ p.ledger mark_published-Sound)
