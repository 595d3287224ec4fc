-- ===== src/Publisher/Order.antt =====
-- The order, the counters and the ledger after a pass of image_processor/outputs/publisher.py.
use image_processor.Base.{
  ℕ, suc, ◌+◌, ◌≤◌, ◌≡◌, refl, sym, ap, ◌∙◌, inl, inr, Bool-cases, Bool, Option, List, [], ◌∷◌,
  ◌++◌, map, arith, take,
}
use image_processor.Types.{Text, Bytes}
use image_processor.Ledger.Store.{Result, ok, err}
use image_processor.Ledger.Outbox.{OutboxRow, pending_outbox}
use image_processor.Ledger.Sound.{Sound}
use image_processor.Publisher.{
  sent, OutboxPublisher, log, Attempt, confirmed, refused, raised, attempt, drain, drain_rows,
  drain_once,
}
use image_processor.Publisher.Pass.{
  sent_of, message, Handled, answered-Handled, sent_of-append, append_one, append_none,
}

-- How the counters account for a pass that returned: each publication is a confirmation or a
-- failure, and there is at most one failure.
abbrev pub Balanced : ℕ → ℕ → OutboxPublisher → Result ℕ × OutboxPublisher → Type 0
Balanced m count p (ok n, q) =
    (q.published_count + count ≡ p.published_count + n)
    × (m + count + p.failed ≡ n + q.failed)
    × (q.failed ≤ suc p.failed)
Balanced m count p (err e, q) = Unit

-- A pass over some rows: it sent the first `m` of them, in their order.
record Pass (rows : List OutboxRow) (count : ℕ) (p : OutboxPublisher)
    (r : Result ℕ × OutboxPublisher) : Type 0 where
  m : ℕ
  attempts : r.1.attempted ≡ p.attempted + m
  messages : sent_of r.1.events ≡ sent_of p.events ++ map message (take m rows)
  balanced : Balanced m count p r
  sound : Sound p.ledger → Sound r.1.ledger

-- The rows that the ledger gave, none if it raised.
abbrev pub given : Result (List OutboxRow) → List OutboxRow
given (err _) = []
given (ok rows) = rows

-- What a pass over the outbox leaves, where `m` is the number of messages that it sent.
abbrev pub Drained : OutboxPublisher → Result ℕ × OutboxPublisher → Type 0
Drained p r =
    (m : ℕ) × (r.1.attempted ≡ p.attempted + m)
    × (sent_of r.1.events
        ≡ sent_of p.events ++ map message (take m (given (pending_outbox p.batch p.ledger))))
    × Balanced m 0 p r

none_sent :
    (rows : List OutboxRow) (count : ℕ) (p : OutboxPublisher)
    → Pass rows count p (ok count, record p { looks = suc p.looks })
none_sent rows count p = record {
  m = 0;
  attempts = omega arith;
  messages = sym (append_none (sent_of p.events));
  balanced = (refl, omega arith, omega arith);
  sound = λ s. s;
}

module _ (publish : ℕ → Text → Bytes → Option Text) (is_stopped : ℕ → Bool) where
  -- The publisher that has handed one message over.
  abbrev handed : OutboxRow → OutboxPublisher → OutboxPublisher
  handed row p =
      log (sent row.topic row.encoded_bytes)
        (record p { looks = suc p.looks; attempted = suc p.attempted })

  handed-message :
      (row : OutboxRow) (p : OutboxPublisher)
      → sent_of (handed row p).events ≡ sent_of p.events ++ message row ∷ []
  handed-message row p = sent_of-append p.events (sent row.topic row.encoded_bytes)

  after_one :
      (row : OutboxRow) (rows : List OutboxRow) (p q after : OutboxPublisher) (m : ℕ)
      → sent_of after.events ≡ sent_of (handed row p).events
      → sent_of q.events ≡ sent_of after.events ++ map message (take m rows)
      → sent_of q.events ≡ sent_of p.events ++ message row ∷ map message (take m rows)
  after_one row rows p q after m h e =
      e
      ∙ ap (λ xs. xs ++ map message (take m rows)) (h ∙ handed-message row p)
      ∙ append_one (sent_of p.events) (map message (take m rows)) (message row)

  one_sent :
      (rows : List OutboxRow) (row : OutboxRow) (count : ℕ) (p : OutboxPublisher) (a : Attempt)
      (after : OutboxPublisher) (rest : Result ℕ × OutboxPublisher)
      → Handled a (handed row p) after
      → Pass rows (suc count) after rest
      → Pass
          (row ∷ rows)
          count
          p
          (elim a [ confirmed ↦ rest | refused ↦ (ok count, after) | raised e ↦ (err e, after) ])
  one_sent rows row count p confirmed after (ok n, q) h pass = record {
    m = suc pass.m;
    attempts = omega (arith, pass.attempts, h.same_count);
    messages = after_one row rows p q after pass.m h.same_messages pass.messages;
    balanced = (
      omega (arith, pass.balanced.0, h.counted.0),
      omega (arith, pass.balanced.1, h.counted.1),
      omega (arith, pass.balanced.2, h.counted.1),
    );
    sound = λ s. pass.sound (h.sound s);
  }
  one_sent rows row count p confirmed after (err e, q) h pass = record {
    m = suc pass.m;
    attempts = omega (arith, pass.attempts, h.same_count);
    messages = after_one row rows p q after pass.m h.same_messages pass.messages;
    balanced = tt;
    sound = λ s. pass.sound (h.sound s);
  }
  one_sent rows row count p refused after rest h pass = record {
    m = 1;
    attempts = omega (arith, h.same_count);
    messages = h.same_messages ∙ handed-message row p;
    balanced = (omega (arith, h.counted.0), omega (arith, h.counted.1), omega (arith, h.counted.1));
    sound = h.sound;
  }
  one_sent rows row count p (raised e) after rest h pass = record {
    m = 1;
    attempts = omega (arith, h.same_count);
    messages = h.same_messages ∙ handed-message row p;
    balanced = tt;
    sound = h.sound;
  }

  drain-Pass :
      (rows : List OutboxRow) (count : ℕ) (p : OutboxPublisher)
      → Pass rows count p (drain publish is_stopped rows count p)
  unfolding drain attempt
  drain-Pass [] count p = record {
    m = 0;
    attempts = omega arith;
    messages = sym (append_none (sent_of p.events));
    balanced = (refl, omega arith, omega arith);
    sound = λ s. s;
  }
  drain-Pass (row ∷ rows) count p = elim (Bool-cases (is_stopped p.looks)) [
    | inl e ↦ rw e (none_sent (row ∷ rows) count p)
    | inr e ↦ rw e (
        one_sent rows row count p _ _ _
          (answered-Handled publish is_stopped (publish p.attempted row.topic row.encoded_bytes) row
            (handed row p))
          (drain-Pass rows (suc count) _))
  ]

  -- One pass hands messages to the transport in the order of the outbox, the frozen bytes of each,
  -- starting with the oldest pending one and skipping none, and counts each of them. If the pass
  -- returns, the number it returns is that of the confirmations, every other message that it sent
  -- failed, and at most one did.
  pub drain_once-Drained : (p : OutboxPublisher) → Drained p (drain_once publish is_stopped p)
  unfolding drain_once drain_rows
  drain_once-Drained p = go (pending_outbox p.batch p.ledger)
    where
      go :
          (o : Result (List OutboxRow))
          → (m : ℕ) × ((drain_rows publish is_stopped o p).1.attempted ≡ p.attempted + m)
            × (sent_of (drain_rows publish is_stopped o p).1.events
                ≡ sent_of p.events ++ map message (take m (given o)))
            × Balanced m 0 p (drain_rows publish is_stopped o p)
      go (err e) = (0, omega arith, sym (append_none (sent_of p.events)), tt)
      go (ok rows) =
          let pass = drain-Pass rows 0 p in (pass.m, pass.attempts, pass.messages, pass.balanced)
