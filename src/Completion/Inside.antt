-- ===== src/Completion/Inside.antt =====
-- Where `plan` of image_processor/completion/actions.py puts a file.
use Prim.Native.String.{String}
use Prim.Native.Char.{Char, code}
use package.text.Mathlib.Text.{◌==◌ as str_eq}
use package.text.Mathlib.TextEquality.{eq_iff}
use image_processor.Base.{
  append_nil, append_assoc, ◌≡◌, ◌≢◌, refl, subst, sym, inl, inr, true, false, ◌||◌, Option, none,
  some, List, [], ◌∷◌, ◌++◌, ◌==◌, select, All, arith, Bool-cases,
}
use image_processor.Types.{JobState, CompletionAction, archive, delete, retain, quarantine}
use image_processor.Completion.{FilePath}
use image_processor.Completion.Disk.{Outcome, done, failed}
use image_processor.Completion.Install.{FileIntent}
use image_processor.Completion.Plan.{
  has_code, push, split_slash, is_kept, parts_of, any_escape, checked_parts, safe_relative, forward,
  strip_left, strip_right, starts_with_slash, CompletionPolicy, coerce_action, policy_action,
  required_dir, under, target_of, plan, ◌>>=◌,
}

-- `Q` of the value, if there is one.
abbrev pub Holds : {A : Type 0} → (A → Type 0) → Outcome A → Type 0
Holds Q (done a) = Q a
Holds Q (failed e) = Unit

Holds-bind :
    {A B : Type 0} (P : A → Type 0) (Q : B → Type 0) (m : Outcome A) (f : A → Outcome B)
    → Holds P m
    → ((a : A) → P a → Holds Q (f a))
    → Holds Q (m >>= f)
Holds-bind P Q (done a) f p h = h a p
Holds-bind P Q (failed e) f p h = tt

Holds-any : {A : Type 0} (m : Outcome A) → Holds (λ _. Unit {0}) m
Holds-any (done a) = tt
Holds-any (failed e) = tt

-- A component that stays where it is: it is a name, not a way up.
abbrev pub Plain : String → Type 0
Plain s = (s ≢ "..") × (s ≢ "") × (s ≢ ".") × (has_code 47 s ≡ false)

abbrev NoSlash : String → Type 0
NoSlash s = has_code 47 s ≡ false

-- A file under a directory, by a way that only goes down.
abbrev pub Inside : List String → FilePath → Type 0
Inside root p = (rest : List String) × (p.parent ≡ root ++ rest) × All Plain rest × Plain p.name

push-All :
    (c : Char) (parts : List String)
    → (code c == 47) ≡ false
    → All NoSlash parts
    → All NoSlash (push c parts)
push-All c [] e h = (rw e refl, tt)
push-All c (part ∷ parts) e h = (rw e h.0, h.1)

split_slash-All : (s : String) → All NoSlash (split_slash s)
unfolding split_slash
split_slash-All String.[] = (refl, tt)
split_slash-All (String.◌∷◌ c s) = elim (Bool-cases (code c == 47)) [
  | inl e ↦ rw e (refl, split_slash-All s)
  | inr e ↦ rw e (push-All c (split_slash s) e (split_slash-All s))
]

-- What pathlib keeps and the tests let pass.
abbrev Kept : String → Type 0
Kept s = (s ≢ "") × (s ≢ ".") × NoSlash s

is_kept-lem : (s : String) → is_kept s ≡ true → (s ≢ "") × (s ≢ ".")
is_kept-lem s h = (
  (λ e. let k : str_eq s "" ≡ true = (eq_iff s "").1 e in ground arith),
  (λ e. let k : str_eq s "." ≡ true = (eq_iff s ".").1 e in ground arith),
)

select-Kept : (parts : List String) → All NoSlash parts → All Kept (select is_kept parts)
select-Kept [] h = tt
select-Kept (part ∷ parts) h = elim (Bool-cases (is_kept part)) [
  | inl e ↦ rw e (((is_kept-lem part e).0, (is_kept-lem part e).1, h.0), select-Kept parts h.1)
  | inr e ↦ rw e (select-Kept parts h.1)
]

any_escape-All : (parts : List String) → All Kept parts → any_escape parts ≡ false → All Plain parts
any_escape-All [] k h = tt
any_escape-All (part ∷ parts) k h = (
  (
    (λ e. let g : str_eq part ".." ≡ true = (eq_iff part "..").1 e in ground arith),
    k.0.0,
    k.0.1,
    k.0.2,
  ),
  any_escape-All parts k.1 (ground arith),
)

-- A validated path: some components, each a plain name.
abbrev pub IsRelative : List String → Type 0
IsRelative [] = ⊥
IsRelative (part ∷ parts) = All Plain (part ∷ parts)

checked_parts-Holds :
    (parts : List String) → All Kept parts → Holds IsRelative (checked_parts parts)
unfolding checked_parts
checked_parts-Holds [] k = tt
checked_parts-Holds (part ∷ parts) k =
    elim (Bool-cases (has_code 58 part || any_escape (part ∷ parts))) [
      | inl e ↦ rw e tt
      | inr e ↦ rw e (any_escape-All (part ∷ parts) k (ground arith))
    ]

pub safe_relative-Holds : (text : String) → Holds IsRelative (safe_relative text)
unfolding safe_relative parts_of
safe_relative-Holds text =
    let stripped = strip_right (strip_left (forward text)) in
    elim (Bool-cases (str_eq stripped "" || starts_with_slash stripped)) [
      | inl e ↦ rw e tt
      | inr e ↦ rw e (
          checked_parts-Holds (parts_of stripped)
            (select-Kept (split_slash stripped) (split_slash-All stripped)))
    ]

All-append : (xs ys : List String) → All Plain xs → All Plain ys → All Plain (xs ++ ys)
All-append [] ys h g = g
All-append (x ∷ xs) ys h g = (h.0, All-append xs ys h.1 g)

-- A path under a directory that is itself reached by plain names.
under-Below :
    (root rest parts : List String)
    → All Plain rest
    → IsRelative parts
    → Inside root (under (root ++ rest) parts)
unfolding under
under-Below root rest [] r h = absurd h
under-Below root rest (part ∷ []) r h = (rest, refl, r, h.0)
under-Below root rest (part ∷ next ∷ parts) r h =
    subst (λ r. Inside root (under r (next ∷ parts))) (sym (append_assoc root rest (part ∷ [])))
      (under-Below root (rest ++ part ∷ []) (next ∷ parts) (All-append rest (part ∷ []) r (h.0, tt))
        h.1)

under-Inside : (root parts : List String) → IsRelative parts → Inside root (under root parts)
under-Inside root parts h =
    subst (λ r. Inside root (under r parts)) (append_nil root) (under-Below root [] parts tt h)

-- The target of an action, for the same way down as the source's.
abbrev pub Targeted : CompletionPolicy → List String → CompletionAction → Option FilePath → Type 0
Targeted policy relative archive target =
    (dir : List String) × (policy.archive_dir ≡ some dir)
    × (target ≡ some (under dir relative))
    × Inside dir (under dir relative)
Targeted policy relative quarantine target =
    (dir : List String) × (policy.failed_dir ≡ some dir)
    × (target ≡ some (under dir relative))
    × Inside dir (under dir relative)
Targeted policy relative _ target = target ≡ none

in_dir-Holds :
    (relative : List String) (o : Option (List String))
    → IsRelative relative
    → Holds
        (λ target.
          (dir : List String) × (o ≡ some dir)
          × (target ≡ some (under dir relative))
          × Inside dir (under dir relative))
        (required_dir o >>= λ dir. done (some (under dir relative)))
unfolding required_dir
in_dir-Holds relative none h = tt
in_dir-Holds relative (some dir) h = (dir, refl, refl, under-Inside dir relative h)

target_of-Holds :
    (action : CompletionAction) (policy : CompletionPolicy) (relative : List String)
    → IsRelative relative
    → Holds (Targeted policy relative action) (target_of action policy relative)
unfolding target_of
target_of-Holds archive policy relative h = in_dir-Holds relative policy.archive_dir h
target_of-Holds quarantine policy relative h = in_dir-Holds relative policy.failed_dir h
target_of-Holds delete policy relative h = refl
target_of-Holds retain policy relative h = refl

-- A planned intent: its source is under the route's root, and its target mirrors it.
abbrev pub Planned : CompletionPolicy → FileIntent → Type 0
Planned policy i =
    (relative : List String) × (i.source ≡ under policy.source_root relative)
    × Inside policy.source_root i.source
    × Targeted policy relative i.action i.target

-- A plan never leaves its directories, whatever the relative path says: if it returns, the source
-- is under the route's root and, for an archive or a quarantine, the target is at the same relative
-- path under the configured directory of that action, both reached by names that are neither empty
-- nor a dot nor two dots and have no slash; a deletion and a retention have no target.
pub plan-Planned :
    (state : JobState) (relative_path sha256 : String) (policy : CompletionPolicy)
    (members : List FilePath)
    → Holds (Planned policy) (plan state relative_path sha256 policy members)
unfolding plan
plan-Planned state relative_path sha256 policy members =
    Holds-bind _ (Planned policy) (policy_action state policy) _
      (Holds-any (policy_action state policy))
      λ setting _.
        Holds-bind _ (Planned policy) (coerce_action setting) _ (Holds-any (coerce_action setting))
          λ chosen _.
            Holds-bind IsRelative (Planned policy) (safe_relative relative_path) _
              (safe_relative-Holds relative_path)
              λ relative h.
                Holds-bind (Targeted policy relative chosen) (Planned policy)
                  (target_of chosen policy relative) _ (target_of-Holds chosen policy relative h)
                  λ target t. (relative, refl, under-Inside policy.source_root relative h, t)
