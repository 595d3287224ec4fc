-- ===== src/Protocol/Assigned.antt =====
-- The provider assignments that image_processor/engine/protocol.py lets pass.
use Prim.Native.String.{String}
use package.text.Mathlib.Text.{◌==◌ as str_eq}
use package.text.Mathlib.TextEquality.{eq_iff}
use image_processor.Base.{
  ◌≡◌, ◌≢◌, refl, sym, ◌∙◌, inl, inr, ◌⊎◌, Bool, true, false, not, ◌&&◌, Option, none, some, List,
  [], ◌∷◌, All, arith, Bool-cases,
}
use image_processor.Protocol.Classify.{is_member}
use image_processor.Protocol.Providers.{
  Policy, require_listed, prefer_listed, Verdict, passed, refused, cpu_provider, normalize_policy,
  is_cpu_only, lacks_required, lacks_some, same_names, in_order, check_listed, check_assignment,
  with_policy, verify_provider_assignment,
}

-- Some name is such.
abbrev pub Has : (String → Type 0) → List String → Type 0
Has P [] = ⊥
Has P (name ∷ names) = P name ⊎ Has P names

abbrev pub IsIn : String → List String → Type 0
IsIn name names = Has (λ n. n ≡ name) names

is_member-IsIn :
    (name : String) (names : List String) → is_member name names ≡ true → IsIn name names
unfolding is_member
is_member-IsIn name [] h = let k : false ≡ true = h in cc
is_member-IsIn name (n ∷ names) h = elim (Bool-cases (str_eq n name)) [
  | inl e ↦ inl ((eq_iff n name).0 e)
  | inr e ↦ inr (is_member-IsIn name names (rw e at h))
]

is_cpu_only-Has :
    (names : List String) → is_cpu_only names ≡ false → Has (λ n. n ≢ cpu_provider) names
unfolding is_cpu_only
is_cpu_only-Has [] h = let k : true ≡ false = h in cc
is_cpu_only-Has (n ∷ names) h = elim (Bool-cases (str_eq n cpu_provider)) [
  | inl e ↦ inr (is_cpu_only-Has names (rw e at h))
  | inr e ↦ inl (λ same. let k : true ≡ false = sym ((eq_iff n cpu_provider).1 same) ∙ e in cc)
]

lacks_some-All :
    (listed actual : List String)
    → lacks_some listed actual ≡ false
    → All (λ name. IsIn name actual) listed
unfolding lacks_some
lacks_some-All [] actual h = tt
lacks_some-All (name ∷ listed) actual h = elim (Bool-cases (is_member name actual)) [
  | inl e ↦ (is_member-IsIn name actual e, lacks_some-All listed actual (rw e at h))
  | inr e ↦ let k : true ≡ false = rw e at h in cc
]

same_names-lem : (as' bs : List String) → same_names as' bs ≡ true → as' ≡ bs
unfolding same_names
same_names-lem [] [] h = refl
same_names-lem [] (b ∷ bs) h = let k : false ≡ true = h in cc
same_names-lem (a ∷ as') [] h = let k : false ≡ true = h in cc
same_names-lem (a ∷ as') (b ∷ bs) h = elim (Bool-cases (str_eq a b)) [
  | inl e ↦ let head = (eq_iff a b).0 e in let tail = same_names-lem as' bs (rw e at h) in cc
  | inr e ↦ let k : false ≡ true = rw e at h in cc
]

-- The required provider is there, if the route names one.
abbrev pub RequiredThere : Option String → List String → Type 0
RequiredThere none actual = Unit
RequiredThere (some provider) actual = (provider ≡ "") ⊎ IsIn provider actual

-- The listed providers are respected, if the bundle lists any.
abbrev pub ListedThere : Policy → List String → List String → Type 0
ListedThere policy actual [] = Unit
ListedThere require_listed actual (name ∷ listed) =
    All (λ n. IsIn n actual) (name ∷ listed) × (in_order actual (name ∷ listed) ≡ name ∷ listed)
ListedThere prefer_listed [] (name ∷ listed) = ⊥
ListedThere prefer_listed (first ∷ rest) (name ∷ listed) = IsIn first (name ∷ listed)

-- An assignment that passes comes back unchanged.
abbrev Listed : Policy → List String → List String → Verdict (List String) → Type 0
Listed policy actual listed (passed out) = (out ≡ actual) × ListedThere policy actual listed
Listed policy actual listed (refused e) = Unit

check_listed-Listed :
    (policy : Policy) (first : String) (rest listed : List String)
    → Listed policy (first ∷ rest) listed (check_listed policy first rest listed)
unfolding check_listed
check_listed-Listed require_listed first rest [] = (refl, tt)
check_listed-Listed prefer_listed first rest [] = (refl, tt)
check_listed-Listed require_listed first rest (name ∷ listed) =
    elim (Bool-cases (lacks_some (name ∷ listed) (first ∷ rest))) [
      | inl e ↦ rw e tt
      | inr e ↦
          rw e
            (elim (Bool-cases
              (same_names (in_order (first ∷ rest) (name ∷ listed)) (name ∷ listed))) [
                | inl f ↦ rw f (
                  refl,
                  (
                    lacks_some-All (name ∷ listed) (first ∷ rest) e,
                    same_names-lem (in_order (first ∷ rest) (name ∷ listed)) (name ∷ listed) f,
                  ),
                )
                | inr f ↦ rw f tt
              ])
    ]
check_listed-Listed prefer_listed first rest (name ∷ listed) =
    elim (Bool-cases (is_member first (name ∷ listed))) [
      | inl e ↦ rw e (refl, is_member-IsIn first (name ∷ listed) e)
      | inr e ↦ rw e tt
    ]

-- What a verdict promises of an assignment.
abbrev pub Verified :
    List String → List String → Option String → Bool → Policy → Verdict (List String) → Type 0
Verified actual listed required allow policy (refused e) = Unit
Verified actual listed required allow policy (passed out) =
    (out ≡ actual)
    × ((allow ≡ true) ⊎ Has (λ n. n ≢ cpu_provider) actual)
    × RequiredThere required actual
    × ListedThere policy actual listed

lacks_required-RequiredThere :
    (required : Option String) (actual : List String)
    → lacks_required required actual ≡ false
    → RequiredThere required actual
unfolding lacks_required
lacks_required-RequiredThere none actual h = tt
lacks_required-RequiredThere (some provider) actual h = elim (Bool-cases (str_eq provider "")) [
  | inl e ↦ inl ((eq_iff provider "").0 e)
  | inr e ↦ elim (Bool-cases (is_member provider actual)) [
    | inl f ↦ inr (is_member-IsIn provider actual f)
    | inr f ↦ let k : true ≡ false = rw (e, f) at h in cc
  ]
]

not_only_cpu :
    (allow : Bool) (actual : List String)
    → (is_cpu_only actual && not allow) ≡ false
    → (allow ≡ true) ⊎ Has (λ n. n ≢ cpu_provider) actual
not_only_cpu true actual h = inl refl
not_only_cpu false actual h = inr (is_cpu_only-Has actual (ground arith))

Listed-Verified :
    (actual listed : List String) (required : Option String) (allow : Bool) (policy : Policy)
    (v : Verdict (List String))
    → (allow ≡ true) ⊎ Has (λ n. n ≢ cpu_provider) actual
    → RequiredThere required actual
    → Listed policy actual listed v
    → Verified actual listed required allow policy v
Listed-Verified actual listed required allow policy (passed out) c r h = (h.0, c, r, h.1)
Listed-Verified actual listed required allow policy (refused e) c r h = tt

check_assignment-Verified :
    (actual listed : List String) (required : Option String) (allow : Bool) (policy : Policy)
    → Verified actual listed required allow policy
        (check_assignment actual listed required allow policy)
unfolding check_assignment
check_assignment-Verified [] listed required allow policy = tt
check_assignment-Verified (first ∷ rest) listed required allow policy =
    let actual = first ∷ rest in
    elim (Bool-cases (is_cpu_only (first ∷ rest) && not allow)) [
      | inl e ↦ rw e tt
      | inr e ↦ rw e (elim (Bool-cases (lacks_required required (first ∷ rest))) [
        | inl f ↦ rw f tt
        | inr f ↦ rw f (
            Listed-Verified actual listed required allow policy
              (check_listed policy first rest listed) (not_only_cpu allow actual e)
              (lacks_required-RequiredThere required actual f)
              (check_listed-Listed policy first rest listed))
      ])
    ]

-- A verdict under the policy that the manifest's spelling names.
abbrev pub VerifiedUnder :
    List String
    → List String
    → Option String
    → Bool
    → Verdict Policy
    → Verdict (List String)
    → Type 0
VerifiedUnder actual listed required allow (refused e) v = v ≡ refused e
VerifiedUnder actual listed required allow (passed policy) v =
    Verified actual listed required allow policy v

-- An unknown policy is refused. Under a known one, an assignment that passes comes back unchanged,
-- and it is not on the CPU alone unless that is allowed, has the required provider, if one is named,
-- and respects the listed providers, if there are any: under requireListed it has all of them in the
-- listed order, under preferListed its first provider is one of them.
pub verify_provider_assignment-Verified :
    (assigned permitted : List String) (policy required : Option String) (allow_cpu_only : Bool)
    → VerifiedUnder assigned permitted required allow_cpu_only
        (normalize_policy policy)
        (verify_provider_assignment assigned permitted policy required allow_cpu_only)
unfolding verify_provider_assignment
verify_provider_assignment-Verified assigned permitted policy required allow_cpu_only =
    go (normalize_policy policy)
  where
    go :
        (v : Verdict Policy)
        → VerifiedUnder assigned permitted required allow_cpu_only v
            (with_policy v (check_assignment assigned permitted required allow_cpu_only))
    go (refused e) = refl
    go (passed p) = check_assignment-Verified assigned permitted required allow_cpu_only p
