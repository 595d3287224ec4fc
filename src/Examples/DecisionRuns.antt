-- ===== src/Examples/DecisionRuns.antt =====
-- One rule set over small documents, and the theorems on decisions at it.
use Prim.Native.String.{String}
use image_processor.Base.{
  ℕ, ◌≡◌, refl, ◌↔◌, Bool, true, false, Option, none, some, List, [], ◌∷◌, ltb, leb, ◌==◌,
}
use image_processor.Decision.{
  Json, number, text, array, object, Items, end, item, Fields, bare, field, get, clear, hold,
  Externals,
}
use image_processor.Decision.Rules.{
  all, any, at_pass, not_a_path, unevaluable, broken, evaluate, evaluate_children,
}
use image_processor.Decision.Decide.{decide, truth}
use image_processor.Decision.Safety.{Passed, decide-clear}
use image_processor.Decision.Told.{Told, first_error, stops, decide-Told}
use image_processor.Decision.Groups.{
  Each, First, OnItems, evaluate_children-all, evaluate_children-any, verdict,
}

abbrev same_number : Json ℕ → Json ℕ → Bool
same_number (number m) (number n) = m == n
same_number _ _ = false

-- A path is the name of one field.
abbrev field_at : String → Json ℕ → Option (List (Json ℕ))
field_at path (object fs) = elim (get path fs) [ none ↦ some [] | some v ↦ some (v ∷ []) ]
field_at path _ = none

abbrev externals : Externals ℕ ℕ
externals = record {
  as_float = λ n. some n;
  is_equal = same_number;
  is_ge = λ a b. leb b a;
  is_gt = λ a b. ltb b a;
  is_le = leb;
  is_lt = ltb;
  is_count_ge = λ a b. leb b a;
  find_all = field_at;
}

abbrev is_zero : ℕ → Bool
is_zero n = n == 0

abbrev document : Json ℕ
document = object (field "score" (number 7) (field "area" (number 2) bare))

abbrev at_least : String → ℕ → Json ℕ
at_least path n =
    object (field "path" (text path) (field "op" (text ">=") (field "value" (number n) bare)))

-- The score is at least 5 and the area at least 2.
abbrev children : Items ℕ
children = item (at_least "score" 5) (item (at_least "area" 2) end)

abbrev both : Json ℕ
both = object (field "all" (array children) bare)

abbrev rules : Fields ℕ
rules = field "pass" both bare

decide-passes : (decide externals is_zero document (object rules)).outcome ≡ clear
unfolding decide
decide-passes = refl

decide-fails :
    (decide externals is_zero document (object (field "pass" (at_least "area" 3) bare))).outcome
    ≡ hold
unfolding decide
decide-fails = refl

decide-clear_example : Passed externals is_zero document (object rules)
decide-clear_example = decide-clear externals is_zero document (object rules) decide-passes

-- A leaf without a path.
abbrev pathless : Json ℕ
pathless = object (field "op" (text ">=") bare)

pathless-broken :
    evaluate externals document pathless at_pass false ≡ broken (unevaluable at_pass not_a_path)
unfolding evaluate
pathless-broken = refl

decide-Told_example :
    Told externals is_zero document
      (first_error (stops externals is_zero document (field "pass" pathless bare) pathless))
      (decide externals is_zero document (object (field "pass" pathless bare)))
unfolding truth get
decide-Told_example =
    decide-Told externals is_zero document (field "pass" pathless bare) pathless refl

evaluate_children-all_example :
    (verdict (evaluate_children externals document (array children) all at_pass false) ≡ some true)
    ↔ OnItems externals document false
        (λ vs. Each externals document false true all vs at_pass 0)
        (array children)
evaluate_children-all_example =
    evaluate_children-all externals document false (array children) at_pass

evaluate_children-any_example :
    ((verdict (evaluate_children externals document (array children) any at_pass false) ≡ some true)
      ↔ OnItems externals document false
          (λ vs. First externals document false vs at_pass 0)
          (array children))
    × ((verdict (evaluate_children externals document (array children) any at_pass false)
          ≡ some false)
        ↔ OnItems externals document false
            (λ vs. Each externals document false false any vs at_pass 0)
            (array children))
evaluate_children-any_example =
    evaluate_children-any externals document false (array children) at_pass
