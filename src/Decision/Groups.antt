-- ===== src/Decision/Groups.antt =====
-- Groups and comparisons of image_processor/engine/decision.py (`_evaluate`, `_leaf`), with an
-- independent reading of each.
use image_processor.Base.{
  ℕ, suc, ◌≡◌, refl, ◌↔◌, ◌⊎◌, inl, inr, if◌then◌else◌, Bool, true, false, Option, none, some,
}
use image_processor.Decision.{
  Json, null, boolean, number, text, array, object, Items, end, item, Externals,
}
use image_processor.Decision.Rules.{
  Connective, all, any, Place, child, Checked, value, broken, Label, ◌>>=◌, decides, evaluate,
  evaluate_items, evaluate_children,
}

-- Whether an expression passed or failed, if it could be evaluated.
abbrev pub verdict : {A : Type 0} → Checked (Bool × A) → Option Bool
verdict (value answer) = some answer.0
verdict (broken e) = none

-- The answer of a group, by that of one expression and that of all which follow.
abbrev after : Connective → Option Bool → Option Bool → Option Bool
after c none rest = none
after all (some true) rest = rest
after all (some false) rest = some false
after any (some true) rest = some true
after any (some false) rest = rest

after-all :
    {E : Type 0} (first rest : Option Bool)
    → (rest ≡ some true) ↔ E
    → (after all first rest ≡ some true) ↔ (first ≡ some true) × E
after-all none rest h = ((λ e. cc), (λ e. cc))
after-all (some true) rest h = ((λ e. (refl, h.0 e)), (λ e. h.1 e.1))
after-all (some false) rest h = ((λ e. cc), (λ e. cc))

after-any :
    {E : Type 0} (first rest : Option Bool)
    → (rest ≡ some true) ↔ E
    → (after any first rest ≡ some true) ↔ (first ≡ some true) ⊎ (first ≡ some false) × E
after-any none rest h = ((λ e. cc), elim [ inl e ↦ cc | inr e ↦ cc ])
after-any (some true) rest h = ((λ e. inl refl), (λ e. refl))
after-any (some false) rest h = ((λ e. inr (refl, h.0 e)), elim [ inl e ↦ cc | inr e ↦ h.1 e.1 ])

after-fails :
    {E : Type 0} (first rest : Option Bool)
    → (rest ≡ some false) ↔ E
    → (after any first rest ≡ some false) ↔ (first ≡ some false) × E
after-fails none rest h = ((λ e. cc), (λ e. cc))
after-fails (some true) rest h = ((λ e. cc), (λ e. cc))
after-fails (some false) rest h = ((λ e. (refl, h.0 e)), (λ e. h.1 e.1))

module _ {Number Float : Type 0} (x : Externals Number Float) (document : Json Number)
    (fail_on_empty : Bool) where
  abbrev pub answer : Json Number → Place → Option Bool
  answer expression at = verdict (evaluate x document expression at fail_on_empty)

  -- Every expression of a group answers `b`.
  abbrev pub Each : Bool → Connective → Items Number → Place → ℕ → Type 0
  Each b c end at index = Unit
  Each b c (item v vs) at index =
      (answer v (child at c index) ≡ some b) × Each b c vs at (suc index)

  -- Some expression of an `any` group passes, and all those before it were evaluated and failed.
  abbrev pub First : Items Number → Place → ℕ → Type 0
  First end at index = ⊥
  First (item v vs) at index =
      (answer v (child at any index) ≡ some true)
      ⊎ ((answer v (child at any index) ≡ some false) × First vs at (suc index))

  step_answer :
      (c : Connective) (first rest : Checked (Bool × Label Number))
      → verdict (first >>= λ a. if decides x c a.0 then value a else rest)
        ≡ after c (verdict first) (verdict rest)
  step_answer c (broken e) rest = refl
  step_answer all (value (true, l)) rest = refl
  step_answer all (value (false, l)) rest = refl
  step_answer any (value (true, l)) rest = refl
  step_answer any (value (false, l)) rest = refl

  evaluate_items-all :
      (vs : Items Number) (at : Place) (index : ℕ)
      → (verdict (evaluate_items x document vs all at index fail_on_empty) ≡ some true)
        ↔ Each true all vs at index
  unfolding evaluate_items
  evaluate_items-all end at index = ((λ h. tt), (λ h. refl))
  evaluate_items-all (item v vs) at index =
      rw
        (step_answer all (evaluate x document v (child at all index) fail_on_empty)
          (evaluate_items x document vs all at (suc index) fail_on_empty))
        (after-all (answer v (child at all index)) _ (evaluate_items-all vs at (suc index)))

  evaluate_items-any :
      (vs : Items Number) (at : Place) (index : ℕ)
      → ((verdict (evaluate_items x document vs any at index fail_on_empty) ≡ some true)
          ↔ First vs at index)
        × ((verdict (evaluate_items x document vs any at index fail_on_empty) ≡ some false)
            ↔ Each false any vs at index)
  unfolding evaluate_items
  evaluate_items-any end at index = (((λ h. cc), (λ h. absurd h)), ((λ h. tt), (λ h. refl)))
  evaluate_items-any (item v vs) at index =
      rw
        (step_answer any (evaluate x document v (child at any index) fail_on_empty)
          (evaluate_items x document vs any at (suc index) fail_on_empty))
        (
          after-any (answer v (child at any index)) _ (evaluate_items-any vs at (suc index)).0,
          after-fails (answer v (child at any index)) _ (evaluate_items-any vs at (suc index)).1,
        )

  -- The value under the key of a group is a list of expressions that is not empty, and they satisfy
  -- the condition.
  abbrev pub OnItems : (Items Number → Type 0) → Json Number → Type 0
  OnItems P (array (item v vs)) = P (item v vs)
  OnItems P _ = ⊥

  -- An `all` group passes exactly if what stands under its key is a list of expressions that is not
  -- empty, and each of them is evaluated and passes.
  pub evaluate_children-all :
      (children : Json Number) (at : Place)
      → (verdict (evaluate_children x document children all at fail_on_empty) ≡ some true)
        ↔ OnItems (λ vs. Each true all vs at 0) children
  unfolding evaluate_children
  evaluate_children-all null at = ((λ e. cc), (λ h. absurd h))
  evaluate_children-all (boolean b) at = ((λ e. cc), (λ h. absurd h))
  evaluate_children-all (number n) at = ((λ e. cc), (λ h. absurd h))
  evaluate_children-all (text s) at = ((λ e. cc), (λ h. absurd h))
  evaluate_children-all (object fs) at = ((λ e. cc), (λ h. absurd h))
  evaluate_children-all (array end) at = ((λ e. cc), (λ h. absurd h))
  evaluate_children-all (array (item v vs)) at = evaluate_items-all (item v vs) at 0

  -- An `any` group passes exactly if what stands under its key is a list of expressions of which one
  -- passes and all before it are evaluated and fail. It fails exactly if that is a list that is not
  -- empty, and each of its expressions is evaluated and fails.
  pub evaluate_children-any :
      (children : Json Number) (at : Place)
      → ((verdict (evaluate_children x document children any at fail_on_empty) ≡ some true)
          ↔ OnItems (λ vs. First vs at 0) children)
        × ((verdict (evaluate_children x document children any at fail_on_empty) ≡ some false)
            ↔ OnItems (λ vs. Each false any vs at 0) children)
  unfolding evaluate_children
  evaluate_children-any null at = (((λ e. cc), (λ h. absurd h)), ((λ e. cc), (λ h. absurd h)))
  evaluate_children-any (boolean b) at =
      (((λ e. cc), (λ h. absurd h)), ((λ e. cc), (λ h. absurd h)))
  evaluate_children-any (number n) at = (((λ e. cc), (λ h. absurd h)), ((λ e. cc), (λ h. absurd h)))
  evaluate_children-any (text s) at = (((λ e. cc), (λ h. absurd h)), ((λ e. cc), (λ h. absurd h)))
  evaluate_children-any (object fs) at =
      (((λ e. cc), (λ h. absurd h)), ((λ e. cc), (λ h. absurd h)))
  evaluate_children-any (array end) at =
      (((λ e. cc), (λ h. absurd h)), ((λ e. cc), (λ h. absurd h)))
  evaluate_children-any (array (item v vs)) at = evaluate_items-any (item v vs) at 0
