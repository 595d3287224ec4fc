-- ===== src/Protocol/Providers.antt =====
-- `normalize_policy` and `verify_provider_assignment` of image_processor/engine/protocol.py.
use Prim.Native.String.{String}
use package.text.Mathlib.Text.{◌==◌ as str_eq}
use image_processor.Base.{
  ℕ, Bool, true, false, not, ◌&&◌, ◌||◌, Option, none, some, List, [], ◌∷◌, select, ◌==◌,
  if◌then◌else◌,
}
use image_processor.Chars.{is_space, codes, lowered}
use image_processor.Protocol.Classify.{is_member}

-- `REQUIRE_LISTED` and `PREFER_LISTED`
pub data Policy : Type 0 where
  require_listed prefer_listed : Policy

-- `code` of a `ProviderPolicyError`
pub data PolicyError : Type 0 where
  provider_policy_unknown provider_none provider_cpu_only : PolicyError
  provider_required_missing provider_not_permitted provider_order : PolicyError

pub data Verdict (A : Type 0) : Type 0 where
  passed : A → Verdict A
  refused : PolicyError → Verdict A

abbrev pub cpu_provider : String
cpu_provider = "CPUExecutionProvider"

-- `_POLICY_ALIASES`
unfoldable pub policy_aliases : List (String × Policy)
policy_aliases =
    ("requirelisted", require_listed)
    ∷ ("require", require_listed)
    ∷ ("required", require_listed)
    ∷ ("preferlisted", prefer_listed)
    ∷ ("prefer", prefer_listed)
    ∷ ("preferred", prefer_listed)
    ∷ []

unfoldable pub same_codes : List ℕ → List ℕ → Bool
same_codes [] [] = true
same_codes (a ∷ as') (b ∷ bs) = a == b && same_codes as' bs
same_codes _ _ = false

unfoldable pub strip_front : List ℕ → List ℕ
unfolding is_space
strip_front [] = []
strip_front (n ∷ ns) = if is_space n then strip_front ns else n ∷ ns

abbrev keep_code : ℕ → List ℕ → List ℕ
keep_code n [] = if is_space n then [] else n ∷ []
keep_code n (m ∷ ns) = n ∷ m ∷ ns

unfoldable pub strip_back : List ℕ → List ℕ
unfolding is_space
strip_back [] = []
strip_back (n ∷ ns) = keep_code n (strip_back ns)

-- `_POLICY_ALIASES.get(text)`
unfoldable pub alias_of : List ℕ → List (String × Policy) → Option Policy
unfolding same_codes codes
alias_of text [] = none
alias_of text ((name, policy) ∷ aliases) =
    if same_codes (codes name) text then some policy else alias_of text aliases

abbrev pub or_unknown : Option Policy → Verdict Policy
or_unknown none = refused provider_policy_unknown
or_unknown (some policy) = passed policy

-- `normalize_policy`
unfoldable pub normalize_policy : Option String → Verdict Policy
unfolding alias_of policy_aliases strip_front strip_back lowered codes
normalize_policy none = passed prefer_listed
normalize_policy (some policy) =
    or_unknown (alias_of (lowered (strip_back (strip_front (codes policy)))) policy_aliases)

-- `set(actual) <= {CPU_PROVIDER}`
unfoldable pub is_cpu_only : List String → Bool
is_cpu_only [] = true
is_cpu_only (name ∷ names) = str_eq name cpu_provider && is_cpu_only names

-- `required_provider and required_provider not in actual`
unfoldable pub lacks_required : Option String → List String → Bool
unfolding is_member
lacks_required none actual = false
lacks_required (some provider) actual =
    if str_eq provider "" then false else not (is_member provider actual)

-- `missing`, if it is not empty
unfoldable pub lacks_some : List String → List String → Bool
unfolding is_member
lacks_some [] actual = false
lacks_some (name ∷ listed) actual = not (is_member name actual) || lacks_some listed actual

unfoldable pub same_names : List String → List String → Bool
same_names [] [] = true
same_names (a ∷ as') (b ∷ bs) = str_eq a b && same_names as' bs
same_names _ _ = false

-- `[name for name in actual if name in listed]`
abbrev pub in_order : List String → List String → List String
in_order actual listed = select (λ name. is_member name listed) actual

-- The part of `verify_provider_assignment` about the listed providers, of an assignment by its head.
unfoldable pub check_listed : Policy → String → List String → List String → Verdict (List String)
unfolding lacks_some same_names is_member
check_listed policy first rest [] = passed (first ∷ rest)
check_listed require_listed first rest (name ∷ listed) =
    if lacks_some (name ∷ listed) (first ∷ rest)
    then refused provider_not_permitted
    else (if same_names (in_order (first ∷ rest) (name ∷ listed)) (name ∷ listed)
        then passed (first ∷ rest)
        else refused provider_order)
check_listed prefer_listed first rest (name ∷ listed) =
    if is_member first (name ∷ listed)
    then passed (first ∷ rest)
    else refused provider_not_permitted

-- `verify_provider_assignment`, once the policy is known
unfoldable pub check_assignment :
    List String → List String → Option String → Bool → Policy → Verdict (List String)
unfolding is_cpu_only lacks_required check_listed
check_assignment [] listed required allow_cpu_only policy = refused provider_none
check_assignment (first ∷ rest) listed required allow_cpu_only policy =
    if is_cpu_only (first ∷ rest) && not allow_cpu_only
    then refused provider_cpu_only
    else (if lacks_required required (first ∷ rest)
        then refused provider_required_missing
        else check_listed policy first rest listed)

abbrev pub with_policy : Verdict Policy → (Policy → Verdict (List String)) → Verdict (List String)
with_policy (refused e) f = refused e
with_policy (passed policy) f = f policy

-- `verify_provider_assignment`
unfoldable pub verify_provider_assignment :
    List String → List String → Option String → Option String → Bool → Verdict (List String)
unfolding normalize_policy check_assignment
verify_provider_assignment assigned permitted policy required allow_cpu_only =
    with_policy (normalize_policy policy)
      (check_assignment assigned permitted required allow_cpu_only)
