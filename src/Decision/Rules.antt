-- ===== src/Decision/Rules.antt =====
-- The evaluation of rule expressions in image_processor/engine/decision.py. A place or a label is
-- kept as a value where the source writes it into a text.
use Prim.Native.String.{String}
use package.text.Mathlib.Text.{◌==◌ as str_eq}
use image_processor.Base.{
  ℕ, suc, Bool, true, false, not, Option, none, some, List, [], ◌∷◌, if◌then◌else◌, is_some, length,
}
use image_processor.Decision.{
  Json, number, text, array, object, Items, end, item, Fields, bare, field, get, get_or_null,
  Externals,
}

pub data Connective : Type 0 where
  all any : Connective

pub data Operator : Type 0 where
  ge gt le lt equals differs exists absent count_ge : Operator

-- The rule location `where`: `child p c i` is `{p}.{c}[{i}]`.
pub data Place : Type 0 where
  at_rules at_outcome_on_pass at_outcome_on_fail at_confidence at_threshold at_pass : Place
  child : Place → Connective → ℕ → Place

pub data Reason : Type 0 where
  not_a_path unparsed unmatched not_numbers unknown_operator not_an_expression : Reason
  no_children not_an_outcome not_a_number no_pass_rule failing_clears : Reason

-- An `_Unevaluable`, or any other exception.
pub data RuleError : Type 0 where
  unevaluable : Place → Reason → RuleError
  raised : RuleError

pub data Checked {ℓ} (A : Type ℓ) : Type ℓ where
  value : A → Checked A
  broken : RuleError → Checked A

-- The label of the rule that decided the answer.
pub data Label (Number : Type 0) : Type 0 where
  leaf_label : Place → Json Number → Operator → Json Number → Label Number
  group_label : Place → Connective → ℕ → Label Number

infixl 5 ◌>>=◌
abbrev pub ◌>>=◌ : {A B : Type 0} → Checked A → (A → Checked B) → Checked B
c >>= f = elim c [ value a ↦ f a | broken e ↦ broken e ]

-- `operator not in OPERATORS`, and which one it is
unfoldable pub operator_of : {Number : Type 0} → Json Number → Option Operator
operator_of (text s) =
    if str_eq s ">="
    then some ge
    else (if str_eq s ">"
        then some gt
        else (if str_eq s "<="
            then some le
            else (if str_eq s "<"
                then some lt
                else (if str_eq s "=="
                    then some equals
                    else (if str_eq s "!="
                        then some differs
                        else (if str_eq s "exists"
                            then some exists
                            else (if str_eq s "absent"
                                then some absent
                                else (if str_eq s "count>=" then some count_ge else none))))))))
operator_of _ = none

abbrev pub key_of : Connective → String
key_of all = "all"
key_of any = "any"

abbrev pub is_all : Connective → Bool
is_all all = true
is_all any = false

-- `bool(found)`
abbrev pub is_nonempty {ℓ} : {A : Type ℓ} → List A → Bool
is_nonempty [] = false
is_nonempty (_ ∷ _) = true

module _ {Number Float : Type 0} (x : Externals Number Float) where
  -- `_matches`
  unfoldable pub matches : Json Number → Json Number → Place → Checked (List (Json Number))
  matches document (text path) at =
      if str_eq path ""
      then broken (unevaluable at not_a_path)
      else elim (x.find_all path document) [
        | none ↦ broken (unevaluable at unparsed)
        | some found ↦ value found
      ]
  matches document _ at = broken (unevaluable at not_a_path)

  -- `_numeric`
  unfoldable pub numeric : Json Number → Checked (Option Float)
  numeric (number n) = elim (x.as_float n) [ none ↦ broken raised | some f ↦ value (some f) ]
  numeric _ = value none

  -- The four orders of `_compare`, and whether the operator is one.
  unfoldable pub ordering : Operator → Float → Float → Bool
  ordering ge l r = x.is_ge l r
  ordering gt l r = x.is_gt l r
  ordering le l r = x.is_le l r
  ordering _ l r = x.is_lt l r

  unfoldable pub compare_numbers : Operator → Place → Option Float → Option Float → Checked Bool
  unfolding ordering
  compare_numbers op at (some l) (some r) = value (ordering op l r)
  compare_numbers op at _ _ = broken (unevaluable at not_numbers)

  -- `_compare`
  unfoldable pub compare : Json Number → Operator → Json Number → Place → Checked Bool
  unfolding compare_numbers
  compare observed equals expected at = value (x.is_equal observed expected)
  compare observed differs expected at = value (not (x.is_equal observed expected))
  compare observed op expected at =
      numeric observed >>= λ l. numeric expected >>= λ r. compare_numbers op at l r

  -- The loop of `_leaf` over the matched values.
  unfoldable pub all_hold : List (Json Number) → Operator → Json Number → Place → Checked Bool
  unfolding compare
  all_hold [] op expected at = value true
  all_hold (observed ∷ found) op expected at =
      let rest = all_hold found op expected at in
      compare observed op expected at >>= λ holds. if holds then rest else value false

  -- `count>=`, and the comparisons, of a match set that is not empty
  unfoldable pub test_matches : List (Json Number) → Operator → Json Number → Place → Checked Bool
  unfolding all_hold numeric
  test_matches found count_ge expected at = numeric expected >>= elim [
    | none ↦ broken (unevaluable at not_numbers)
    | some wanted ↦ value (x.is_count_ge (length found) wanted)
  ]
  test_matches found op expected at = all_hold found op expected at

  unfoldable pub judge : Operator → List (Json Number) → Json Number → Place → Bool → Checked Bool
  unfolding test_matches
  judge exists found expected at fail_on_empty = value (is_nonempty found)
  judge absent found expected at fail_on_empty = value (not (is_nonempty found))
  judge op found expected at fail_on_empty =
      if is_nonempty found
      then test_matches found op expected at
      else (if fail_on_empty then value false else broken (unevaluable at unmatched))

  -- `_leaf`
  unfoldable pub leaf : Json Number → Fields Number → Place → Bool → Checked (Bool × Label Number)
  unfolding judge operator_of
  leaf document expression at fail_on_empty = elim (operator_of (get_or_null "op" expression)) [
    | none ↦ broken (unevaluable at unknown_operator)
    | some op ↦
        let path = get_or_null "path" expression in
        let expected = get_or_null "value" expression in
        matches document path at >>= λ found. judge op found expected at fail_on_empty >>= λ passed.
        value (passed, leaf_label at path op expected)
  ]

  -- What a group answers once none of its children has decided.
  abbrev pub undecided : Connective → Place → ℕ → Bool × Label Number
  undecided c at count = (is_all c, group_label at c count)

  -- Whether a child decides the group: a failure decides `all`, a pass decides `any`.
  abbrev pub decides : Connective → Bool → Bool
  decides all passed = not passed
  decides any passed = passed

  -- `_evaluate`. `evaluate_key` finds the value under the key of the connective, and
  -- `evaluate_items` is the loop, from the given index on.
  unfoldable mutual
    unfolding leaf matches get

    pub evaluate : Json Number → Json Number → Place → Bool → Checked (Bool × Label Number)
    evaluate document (object fs) at fail_on_empty =
        let by_all = evaluate_key document fs all at fail_on_empty in
        let by_any = evaluate_key document fs any at fail_on_empty in
        if is_some (get "all" fs)
        then by_all
        else (if is_some (get "any" fs) then by_any else leaf document fs at fail_on_empty)
    evaluate document _ at fail_on_empty = broken (unevaluable at not_an_expression)

    pub evaluate_key :
        Json Number → Fields Number → Connective → Place → Bool → Checked (Bool × Label Number)
    evaluate_key document bare c at fail_on_empty = broken raised
    evaluate_key document (field k v fs) c at fail_on_empty =
        let here = evaluate_children document v c at fail_on_empty in
        let later = evaluate_key document fs c at fail_on_empty in
        if str_eq k (key_of c) then here else later

    pub evaluate_children :
        Json Number → Json Number → Connective → Place → Bool → Checked (Bool × Label Number)
    evaluate_children document (array (item v vs)) c at fail_on_empty =
        evaluate_items document (item v vs) c at 0 fail_on_empty
    evaluate_children document _ c at fail_on_empty = broken (unevaluable at no_children)

    pub evaluate_items :
        Json Number → Items Number → Connective → Place → ℕ → Bool → Checked (Bool × Label Number)
    evaluate_items document end c at index fail_on_empty = value (undecided c at index)
    evaluate_items document (item v vs) c at index fail_on_empty =
        let rest = evaluate_items document vs c at (suc index) fail_on_empty in
        evaluate document v (child at c index) fail_on_empty >>= λ answer.
        if decides c answer.0 then value answer else rest
