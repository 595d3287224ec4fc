-- ===== src/Decision/Safety.antt =====
-- The outcome of `decide` of image_processor/engine/decision.py: clearing and holding an image.
use image_processor.Base.{◌≡◌, refl, Bool, true, false, Option, none, some}
use image_processor.Decision.{
  Json, null, boolean, number, text, array, object, Fields, get, get_or_null, Outcome, clear, hold,
  fail, Externals,
}
use image_processor.Decision.Rules.{
  at_outcome_on_pass, at_outcome_on_fail, at_confidence, at_threshold, at_pass, Checked, value,
  broken, Label, ◌>>=◌, evaluate,
}
use image_processor.Decision.Decide.{
  Decision, outcome_at, refuse_clear, truth, optional_scalar, settled, judged, checked_decision,
  decide, or_held,
}

-- What holds of the value that a step gives. A broken one promises nothing here.
abbrev Gives {κ} : {A : Type 0} → (A → Type κ) → Checked A → Type κ
Gives P (value a) = P a
Gives P (broken e) = Unit

Gives-map {κ} :
    {A : Type 0} (P Q : A → Type κ) (c : Checked A) → ((a : A) → P a → Q a) → Gives P c → Gives Q c
Gives-map P Q (value a) f h = f a h
Gives-map P Q (broken e) f h = tt

module _ {Number Float : Type 0} (x : Externals Number Float) (is_zero : Number → Bool)
    (document : Json Number) where
  -- Whether the rules fail on a match set that is empty.
  abbrev pub fails_on_empty : Fields Number → Bool
  fails_on_empty rules = truth is_zero (get_or_null "failOnEmpty" rules)

  -- A rule set whose `pass` rule was evaluated and passed.
  abbrev pub Passed : Json Number → Type 0
  Passed rules =
      (fs : Fields Number) × (pass : Json Number) × (label : Label Number) × (rules ≡ object fs)
      × (get "pass" fs ≡ some pass)
      × (evaluate x document pass at_pass (fails_on_empty fs) ≡ value (true, label))

  -- A decision that clears an image comes from a rule that passed.
  abbrev Justified : Checked (Bool × Label Number) → Decision Number Float → Type 0
  Justified v d = d.outcome ≡ clear → (label : Label Number) × (v ≡ value (true, label))

  -- The steps of `decide`, whatever each of them gives.
  steps-clear :
      (a b : Checked Outcome) (c t : Checked (Option Float)) (v : Checked (Bool × Label Number))
      → Gives (Justified v) (
          a >>= λ accepted. b >>= λ named. refuse_clear named >>= λ rejected. c >>= λ c.
          t >>= λ t. v >>= λ answer. value (settled x is_zero accepted rejected c t answer))
  unfolding refuse_clear
  steps-clear (broken _) b c t v = tt
  steps-clear (value a) (broken _) c t v = tt
  steps-clear (value a) (value clear) c t v = tt
  steps-clear (value a) (value _) (broken _) t v = tt
  steps-clear (value a) (value _) (value c) (broken _) v = tt
  steps-clear (value a) (value _) (value c) (value t) (broken _) = tt
  steps-clear (value a) (value _) (value c) (value t) (value (true, label)) = λ e. (label, refl)
  steps-clear (value a) (value hold) (value c) (value t) (value (false, label)) = λ e. cc
  steps-clear (value a) (value fail) (value c) (value t) (value (false, label)) = λ e. cc

  judged-Passed :
      (fs : Fields Number) (o : Option (Json Number))
      → get "pass" fs ≡ o
      → Gives (λ d. d.outcome ≡ clear → Passed (object fs)) (judged x is_zero document fs o)
  unfolding judged
  judged-Passed fs none found = tt
  judged-Passed fs (some pass) found =
      Gives-map (Justified (evaluate x document pass at_pass (fails_on_empty fs)))
        (λ d. d.outcome ≡ clear → Passed (object fs)) (judged x is_zero document fs (some pass))
        (λ d h e. (fs, pass, (h e).0, refl, found, (h e).1))
        (steps-clear (outcome_at fs "outcomeOnPass" at_outcome_on_pass clear)
          (outcome_at fs "outcomeOnFail" at_outcome_on_fail hold)
          (optional_scalar x is_zero document (get_or_null "confidence" fs) at_confidence)
          (optional_scalar x is_zero document (get_or_null "threshold" fs) at_threshold)
          (evaluate x document pass at_pass (fails_on_empty fs)))

  checked-Passed :
      (rules : Json Number)
      → Gives (λ d. d.outcome ≡ clear → Passed rules) (checked_decision x is_zero document rules)
  unfolding checked_decision
  checked-Passed (object fs) = judged-Passed fs (get "pass" fs) refl
  checked-Passed null = tt
  checked-Passed (boolean b) = tt
  checked-Passed (number n) = tt
  checked-Passed (text s) = tt
  checked-Passed (array vs) = tt

  held-unless :
      (rules : Json Number) (c : Checked (Decision Number Float))
      → Gives (λ d. d.outcome ≡ clear → Passed rules) c
      → (or_held x is_zero c).outcome ≡ clear
      → Passed rules
  held-unless rules (value d) h e = h e
  held-unless rules (broken b) h e = cc

  -- An image is cleared only by a rule set whose `pass` rule was evaluated and passed, whatever
  -- the document, the rules and the answers of the JSONPath library are.
  pub decide-clear :
      (rules : Json Number) → (decide x is_zero document rules).outcome ≡ clear → Passed rules
  unfolding decide
  decide-clear rules h =
      held-unless rules (checked_decision x is_zero document rules) (checked-Passed rules) h
