-- ===== src/Decision/Told.antt =====
-- What `decide` of image_processor/engine/decision.py tells of a rule set that it could not evaluate.
use image_processor.Base.{◌≡◌, ◌≢◌, refl, Bool, true, false, Option, none, some, List, [], ◌∷◌}
use image_processor.Decision.{
  Json, object, Fields, get, get_or_null, Outcome, clear, hold, fail, Externals,
}
use image_processor.Decision.Rules.{
  at_outcome_on_pass, at_outcome_on_fail, at_confidence, at_threshold, at_pass, RuleError, Checked,
  value, broken, Label, ◌>>=◌, evaluate,
}
use image_processor.Decision.Decide.{
  unevaluable_rule, Decision, outcome_at, refuse_clear, truth, optional_scalar, settled, judged,
  checked_decision, decide, or_held,
}

abbrev error_of : {A : Type 0} → Checked A → Option RuleError
error_of (value a) = none
error_of (broken e) = some e

abbrev pub first_error : List (Option RuleError) → Option RuleError
first_error [] = none
first_error (none ∷ es) = first_error es
first_error (some e ∷ es) = some e

module _ {Number Float : Type 0} (x : Externals Number Float) (is_zero : Number → Bool)
    (document : Json Number) where
  -- What goes wrong in each field of a rule set, in the order in which they are read: the outcome of
  -- a pass, that of a failure, which may not be CLEAR, the two scalars, and the rule itself.
  abbrev pub stops : Fields Number → Json Number → List (Option RuleError)
  stops fs pass =
      error_of (outcome_at fs "outcomeOnPass" at_outcome_on_pass clear)
      ∷ error_of (outcome_at fs "outcomeOnFail" at_outcome_on_fail hold >>= λ o. refuse_clear o)
      ∷ error_of (optional_scalar x is_zero document (get_or_null "confidence" fs) at_confidence)
      ∷ error_of (optional_scalar x is_zero document (get_or_null "threshold" fs) at_threshold)
      ∷ error_of (evaluate x document pass at_pass (truth is_zero (get_or_null "failOnEmpty" fs)))
      ∷ []

  -- A decision on a rule set that stops at an error, which is the one reported, or at none.
  abbrev pub Told : Option RuleError → Decision Number Float → Type 0
  Told (some e) d =
      (d.outcome ≡ hold)
      × (d.passed ≡ false)
      × (d.confidence ≡ none)
      × (d.threshold ≡ none)
      × (d.rule ≡ unevaluable_rule e)
  Told none d = (e : RuleError) → d.rule ≢ unevaluable_rule e

  steps-Told :
      (a b : Checked Outcome) (c t : Checked (Option Float)) (v : Checked (Bool × Label Number))
      → Told
          (first_error (
            error_of a
            ∷ error_of (b >>= λ o. refuse_clear o)
            ∷ error_of c
            ∷ error_of t
            ∷ error_of v
            ∷ []))
          (or_held x is_zero (
            a >>= λ accepted. b >>= λ named. refuse_clear named >>= λ rejected. c >>= λ c.
            t >>= λ t. v >>= λ answer. value (settled x is_zero accepted rejected c t answer)))
  unfolding refuse_clear
  steps-Told (broken _) b c t v = (refl, refl, refl, refl, refl)
  steps-Told (value a) (broken _) c t v = (refl, refl, refl, refl, refl)
  steps-Told (value a) (value clear) c t v = (refl, refl, refl, refl, refl)
  steps-Told (value a) (value hold) (broken _) t v = (refl, refl, refl, refl, refl)
  steps-Told (value a) (value fail) (broken _) t v = (refl, refl, refl, refl, refl)
  steps-Told (value a) (value hold) (value c) (broken _) v = (refl, refl, refl, refl, refl)
  steps-Told (value a) (value fail) (value c) (broken _) v = (refl, refl, refl, refl, refl)
  steps-Told (value a) (value hold) (value c) (value t) (broken _) = (refl, refl, refl, refl, refl)
  steps-Told (value a) (value fail) (value c) (value t) (broken _) = (refl, refl, refl, refl, refl)
  steps-Told (value a) (value hold) (value c) (value t) (value (true, l)) = λ e h. cc
  steps-Told (value a) (value fail) (value c) (value t) (value (true, l)) = λ e h. cc
  steps-Told (value a) (value hold) (value c) (value t) (value (false, l)) = λ e h. cc
  steps-Told (value a) (value fail) (value c) (value t) (value (false, l)) = λ e h. cc

  -- When a field of a rule set with a `pass` rule cannot be read, or the rule not evaluated, the
  -- decision is HOLD, not passed, with neither a confidence nor a threshold, and its rule names the
  -- first of these errors, with its place, in the order in which the fields are read: the outcomes of
  -- a pass and of a failure, the confidence, the threshold, the rule. If there is no such error, the
  -- decision names none.
  pub decide-Told :
      (fs : Fields Number) (pass : Json Number)
      → get "pass" fs ≡ some pass
      → Told (first_error (stops fs pass)) (decide x is_zero document (object fs))
  unfolding decide checked_decision judged
  decide-Told fs pass found = rw found (
      steps-Told (outcome_at fs "outcomeOnPass" at_outcome_on_pass clear)
        (outcome_at fs "outcomeOnFail" at_outcome_on_fail hold)
        (optional_scalar x is_zero document (get_or_null "confidence" fs) at_confidence)
        (optional_scalar x is_zero document (get_or_null "threshold" fs) at_threshold)
        (evaluate x document pass at_pass (truth is_zero (get_or_null "failOnEmpty" fs))))
