-- ===== src/Decision/Decide.antt =====
-- `decide` of image_processor/engine/decision.py, with what it reads of a rule set.
use Prim.Native.String.{String}
use package.text.Mathlib.Text.{◌==◌ as str_eq}
use image_processor.Base.{Bool, true, false, Option, none, some, List, [], ◌∷◌, if◌then◌else◌}
use image_processor.Decision.{
  Json, null, boolean, number, text, array, object, end, item, Fields, get, get_or_null, Outcome,
  clear, hold, fail, Externals,
}
use image_processor.Decision.Rules.{
  Place, at_rules, at_outcome_on_pass, at_outcome_on_fail, at_confidence, at_threshold, at_pass,
  unmatched, not_an_outcome, not_a_number, no_pass_rule, failing_clears, RuleError, unevaluable,
  Checked, value, broken, Label, ◌>>=◌, matches, numeric, evaluate,
}

-- The text `rule` of a decision.
pub data RuleName (Number : Type 0) : Type 0 where
  passed_rule : RuleName Number
  failed_rule : Label Number → RuleName Number
  unevaluable_rule : RuleError → RuleName Number

-- `class Decision`
pub record Decision (Number Float : Type 0) : Type 0 where
  pub outcome : Outcome
  pub passed : Bool
  pub confidence : Option Float
  pub threshold : Option Float
  pub rule : RuleName Number

-- `Outcome(name)`
unfoldable pub outcome_named : {Number : Type 0} → Json Number → Option Outcome
outcome_named (text s) =
    if str_eq s "CLEAR"
    then some clear
    else (if str_eq s "HOLD" then some hold else (if str_eq s "FAIL" then some fail else none))
outcome_named _ = none

-- `_outcome`
unfoldable pub outcome_at :
    {Number : Type 0} → Fields Number → String → Place → Outcome → Checked Outcome
unfolding outcome_named
outcome_at rules key at fallback = elim (get key rules) [
  | none ↦ value fallback
  | some named ↦ elim (outcome_named named) [
    | none ↦ broken (unevaluable at not_an_outcome)
    | some outcome ↦ value outcome
  ]
]

-- A failing rule must not clear an image.
unfoldable pub refuse_clear : Outcome → Checked Outcome
refuse_clear clear = broken (unevaluable at_outcome_on_fail failing_clears)
refuse_clear outcome = value outcome

-- `bool(value)`: what is empty or false is false. `is_zero` is that of a number.
unfoldable pub truth : {Number : Type 0} → (Number → Bool) → Json Number → Bool
truth is_zero null = false
truth is_zero (boolean b) = b
truth is_zero (number n) = if is_zero n then false else true
truth is_zero (text s) = if str_eq s "" then false else true
truth is_zero (array end) = false
truth is_zero (array (item _ _)) = true
truth is_zero (object Fields.bare) = false
truth is_zero (object (Fields.field _ _ _)) = true

module _ {Number Float : Type 0} (x : Externals Number Float) (is_zero : Number → Bool) where
  -- The end of `_scalar_at`, which reads the first value that the path matched.
  unfoldable pub first_number : List (Json Number) → Place → Checked Float
  unfolding numeric
  first_number [] at = broken (unevaluable at unmatched)
  first_number (found ∷ _) at =
      numeric x found >>= elim [ none ↦ broken (unevaluable at not_a_number) | some f ↦ value f ]

  -- `_scalar_at`
  unfoldable pub scalar_at : Json Number → Json Number → Place → Checked Float
  unfolding matches first_number
  scalar_at document spec at = numeric x spec >>= elim [
    | some literal ↦ value literal
    | none ↦ matches x document spec at >>= λ found. first_number found at
  ]

  -- `rules.get(key)`, resolved unless it is missing or None
  unfoldable pub optional_scalar : Json Number → Json Number → Place → Checked (Option Float)
  unfolding scalar_at
  optional_scalar document null at = value none
  optional_scalar document spec at = scalar_at document spec at >>= λ f. value (some f)

  -- `_held`
  abbrev pub held : RuleError → Decision Number Float
  held e = record {
    outcome = hold;
    passed = false;
    confidence = none;
    threshold = none;
    rule = unevaluable_rule e;
  }

  -- The decision once the rule was evaluated.
  abbrev pub settled :
      Outcome → Outcome → Option Float → Option Float → Bool × Label Number → Decision Number Float
  settled on_pass on_fail confidence threshold (passed, label) = record {
    outcome = if passed then on_pass else on_fail;
    passed = passed;
    confidence = confidence;
    threshold = threshold;
    rule = if passed then passed_rule else failed_rule label;
  }

  -- The body of the `try` of `decide`, with the rule under `pass`.
  unfoldable pub judged :
      Json Number → Fields Number → Option (Json Number) → Checked (Decision Number Float)
  unfolding outcome_at refuse_clear truth optional_scalar evaluate
  judged document rules none = broken (unevaluable at_rules no_pass_rule)
  judged document rules (some pass) =
      outcome_at rules "outcomeOnPass" at_outcome_on_pass clear >>= λ on_pass.
      outcome_at rules "outcomeOnFail" at_outcome_on_fail hold >>= λ named.
      refuse_clear named >>= λ on_fail.
      optional_scalar document (get_or_null "confidence" rules) at_confidence >>= λ confidence.
      optional_scalar document (get_or_null "threshold" rules) at_threshold >>= λ threshold.
      evaluate x document pass at_pass (truth is_zero (get_or_null "failOnEmpty" rules))
      >>= λ answer. value (settled on_pass on_fail confidence threshold answer)

  unfoldable pub checked_decision : Json Number → Json Number → Checked (Decision Number Float)
  unfolding judged get
  checked_decision document (object rules) = judged document rules (get "pass" rules)
  checked_decision document _ = broken (unevaluable at_rules no_pass_rule)

  abbrev pub or_held : Checked (Decision Number Float) → Decision Number Float
  or_held (value d) = d
  or_held (broken e) = held e

  -- `decide`
  unfoldable pub decide : Json Number → Json Number → Decision Number Float
  unfolding checked_decision
  decide document rules = or_held (checked_decision document rules)
