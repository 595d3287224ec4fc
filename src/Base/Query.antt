-- ===== src/Base/Query.antt =====
-- What SELECT with WHERE, ORDER BY and LIMIT answers, by relations that are not those of the code.
use mathlib.Core.Path.{◌≡◌, refl, ap, subst, sym}
use mathlib.Core.Logic.{◌⊎◌, inl, inr}
use mathlib.Core.Bool.{Bool, true, false, not}
use Prim.Native.Nat.{ℕ, zero, suc, ◌≤◌}
use mathlib.Core.List.{List, [], ◌∷◌, ◌++◌, Perm, perm_middle}
use mathlib.Core.List.Perm
use native.Mathlib.Omega.{arith}
use image_processor.Base.Lists.{select, take, length, length-take_le}
use image_processor.Base.Order.{
  All, All-map, All-select, All-sort_by, IsOrdered, sort_by, sort_by-IsOrdered, sort_by-perm,
}
use image_processor.Base.Tests.{Bool-cases}

-- Every member stands in the relation to all that follow it.
abbrev pub Sorted : {A : Type 0} → (A → A → Type 0) → List A → Type 0
Sorted R [] = Unit
Sorted R (x ∷ xs) = All (R x) xs × Sorted R xs

pub IsOrdered-Sorted :
    {A : Type 0} (le : A → A → Bool) (R : A → A → Type 0) (xs : List A)
    → ((a b : A) → le a b ≡ true → R a b)
    → IsOrdered le xs
    → Sorted R xs
IsOrdered-Sorted le R [] f h = tt
IsOrdered-Sorted le R (x ∷ xs) f h =
    (All-map _ _ xs (λ y. f x y) h.0, IsOrdered-Sorted le R xs f h.1)

-- `answer` are rows of a table that are eligible, in the order, and at most `limit`. Of the other
-- rows of the table, some are eligible and come after all of the answer, and none of the rest is; and
-- if any that is eligible is left out, the answer has reached the limit.
abbrev pub Answers : {A : Type 0} → (A → Type 0) → (A → A → Type 0) → ℕ → List A → List A → Type 0
Answers {A} Eligible Before limit table answer =
    All Eligible answer
    × Sorted Before answer
    × (length answer ≤ limit)
    × ((later others : List A) × Perm (answer ++ later ++ others) table
        × All Eligible later
        × All (λ y. ¬ Eligible y) others
        × All (λ y. All (λ a. Before a y) answer) later
        × ((later ≡ []) ⊎ (length answer ≡ limit)))

-- What LIMIT leaves out.
abbrev drop : {A : Type 0} → ℕ → List A → List A
drop (suc n) (x ∷ xs) = drop n xs
drop zero (x ∷ xs) = x ∷ xs
drop _ [] = []

module _ {A : Type 0} where
  take-drop : (n : ℕ) (xs : List A) → take n xs ++ drop n xs ≡ xs
  take-drop zero [] = refl
  take-drop (suc n) [] = refl
  take-drop zero (x ∷ xs) = refl
  take-drop (suc n) (x ∷ xs) = ap (λ ys. x ∷ ys) (take-drop n xs)

  drop-short : (n : ℕ) (xs : List A) → (drop n xs ≡ []) ⊎ (length (take n xs) ≡ n)
  drop-short zero [] = inl refl
  drop-short (suc n) [] = inl refl
  drop-short zero (x ∷ xs) = inr refl
  drop-short (suc n) (x ∷ xs) = elim (drop-short n xs) [
    | inl e ↦ inl e
    | inr e ↦ inr (omega (arith, e))
  ]

  All-append : (P : A → Type 0) (xs ys : List A) → All P (xs ++ ys) → All P xs × All P ys
  All-append P [] ys h = (tt, h)
  All-append P (x ∷ xs) ys h = let rest = All-append P xs ys h.1 in ((h.0, rest.0), rest.1)

  Sorted-append :
      (R : A → A → Type 0) (xs ys : List A)
      → Sorted R (xs ++ ys)
      → Sorted R xs × All (λ y. All (λ x. R x y) xs) ys
  Sorted-append R [] ys h = (tt, each ys)
    where
      each : (ys : List A) → All (λ y. Unit {0}) ys
      each [] = tt
      each (y ∷ ys) = (tt, each ys)
  Sorted-append R (x ∷ xs) ys h =
      let rest = Sorted-append R xs ys h.1 in
      let first = All-append (R x) xs ys h.0 in ((first.0, rest.0), both ys first.1 rest.1)
    where
      both :
          (zs : List A)
          → All (R x) zs
          → All (λ y. All (λ w. R w y) xs) zs
          → All (λ y. R x y × All (λ w. R w y) xs) zs
      both [] h g = tt
      both (z ∷ zs) h g = ((h.0, g.0), both zs h.1 g.1)

  -- A table is what a test selects with what it does not.
  select-Perm : (p : A → Bool) (xs : List A) → Perm (select p xs ++ select (λ x. not (p x)) xs) xs
  select-Perm p [] = Perm.refl []
  select-Perm p (x ∷ xs) = elim (Bool-cases (p x)) [
    | inl e ↦ rw e (Perm.cons x (select-Perm p xs))
    | inr e ↦ rw e (
        Perm.trans (perm_middle {a = x} (select p xs) (select (λ y. not (p y)) xs))
          (Perm.cons x (select-Perm p xs)))
  ]

  All-trivial : (xs : List A) → All (λ _. Unit {0}) xs
  All-trivial [] = tt
  All-trivial (x ∷ xs) = (tt, All-trivial xs)

  module _ (Eligible : A → Type 0) (Before : A → A → Type 0) (p : A → Bool) (le : A → A → Bool)
      (sound : (a : A) → p a ≡ true → Eligible a) (complete : (a : A) → Eligible a → p a ≡ true)
      (explains : (a b : A) → le a b ≡ true → Before a b)
      (total : (a b : A) → le a b ≡ false → le b a ≡ true)
      (trans : (a b c : A) → le a b ≡ true → le b c ≡ true → le a c ≡ true) where
    refused : (a : A) → not (p a) ≡ true → ¬ Eligible a
    refused a e h = let g = complete a h in cc

    -- A query whose test decides what is eligible, and whose comparison is a total order, answers
    -- the first of the eligible rows.
    pub query-Answers :
        (limit : ℕ) (xs : List A)
        → Answers Eligible Before limit xs (take limit (sort_by le (select p xs)))
    query-Answers limit xs =
        let ys = sort_by le (select p xs) in
        let others = select (λ x. not (p x)) xs in
        let same = take-drop limit ys in
        let good = subst (All Eligible) (sym same) (
          All-sort_by le Eligible (select p xs) (
            All-map _ _ (select p xs) (λ a h. sound a h.0) (All-select _ p xs (All-trivial xs)))) in
        let parts = All-append Eligible (take limit ys) (drop limit ys) good in
        let order = Sorted-append Before (take limit ys) (drop limit ys) (
          subst (Sorted Before) (sym same) (
            IsOrdered-Sorted le Before ys explains
              (sort_by-IsOrdered le total trans (select p xs)))) in
        let all : Perm ((take limit ys ++ drop limit ys) ++ others) xs =
          subst (λ zs. Perm (zs ++ others) xs) (sym same)
            (Perm.trans (Perm.append_right others (sort_by-perm le (select p xs)))
              (select-Perm p xs)) in
        (
          parts.0,
          order.0,
          length-take_le limit ys,
          (
            drop limit ys,
            others,
            all,
            parts.1,
            All-map _ _ others (λ a h. refused a h.0)
                (All-select _ (λ x. not (p x)) xs (All-trivial xs)),
            order.1,
            drop-short limit ys,
          ),
        )
