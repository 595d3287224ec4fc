-- ===== src/Completion/Plan.antt =====
-- `plan` of image_processor/completion/actions.py, and the validation of relative paths. Directories
-- of the configuration are lists of components.
use Prim.Native.String.{String, ◌++◌ as ◌<>◌}
use Prim.Native.Char.{Char, code}
use package.text.Mathlib.Text.{◌==◌ as str_eq}
use image_processor.Base.{
  ℕ, Bool, true, false, ◌&&◌, ◌||◌, Option, none, some, List, [], ◌∷◌, ◌++◌, ◌==◌, select,
  if◌then◌else◌,
}
use image_processor.Types.{
  JobState, CompletionAction, archive, delete, retain, quarantine, published, cleanup_pending,
  cleanup_failed, input_invalid, processing_exhausted, publish_exhausted,
}
use image_processor.Chars.{is_space, lower_code}
use image_processor.Completion.{
  FilePath, unknown_completion_action, unsafe_relative_path, no_completion_for_state,
  completion_dir_missing, index_error,
}
use image_processor.Completion.Disk.{Outcome, done, failed}
use image_processor.Completion.Install.{FileIntent}

-- Whether a character is of some code.
abbrev pub has_code : ℕ → String → Bool
has_code n String.[] = false
has_code n (String.◌∷◌ c s) = code c == n || has_code n s

-- `text.replace("\\", "/")`
unfoldable pub forward : String → String
forward String.[] = ""
forward (String.◌∷◌ c s) = if code c == 92 then "/" <> forward s else String.◌∷◌ c (forward s)

unfoldable pub strip_left : String → String
unfolding is_space
strip_left String.[] = ""
strip_left (String.◌∷◌ c s) = if is_space (code c) then strip_left s else String.◌∷◌ c s

-- A character before what is left of the text after it.
abbrev pub keep : Char → String → String
keep c String.[] = if is_space (code c) then "" else String.◌∷◌ c ""
keep c s = String.◌∷◌ c s

unfoldable pub strip_right : String → String
unfolding is_space
strip_right String.[] = ""
strip_right (String.◌∷◌ c s) = keep c (strip_right s)

-- A character before the first of some parts.
abbrev pub push : Char → List String → List String
push c [] = String.◌∷◌ c "" ∷ []
push c (part ∷ parts) = String.◌∷◌ c part ∷ parts

-- `text.split("/")`
unfoldable pub split_slash : String → List String
split_slash String.[] = "" ∷ []
split_slash (String.◌∷◌ c s) = if code c == 47 then "" ∷ split_slash s else push c (split_slash s)

-- pathlib drops empty components and single dots.
abbrev pub is_kept : String → Bool
is_kept part = if str_eq part "" || str_eq part "." then false else true

-- `PurePosixPath(text).parts` of a text that does not start with a slash
unfoldable pub parts_of : String → List String
unfolding split_slash
parts_of text = select is_kept (split_slash text)

abbrev pub starts_with_slash : String → Bool
starts_with_slash String.[] = false
starts_with_slash (String.◌∷◌ c s) = code c == 47

-- `any(part in ("..", "") for part in parts)`
abbrev pub any_escape : List String → Bool
any_escape [] = false
any_escape (part ∷ parts) = str_eq part ".." || str_eq part "" || any_escape parts

-- The tests on the components: a path without any, such as `.`, has no `parts[0]`.
unfoldable pub checked_parts : List String → Outcome (List String)
checked_parts [] = failed index_error
checked_parts (part ∷ parts) =
    if has_code 58 part || any_escape (part ∷ parts)
    then failed unsafe_relative_path
    else done (part ∷ parts)

-- `safe_relative`
unfoldable pub safe_relative : String → Outcome (List String)
unfolding forward strip_left strip_right parts_of checked_parts
safe_relative relative_path =
    let text = strip_right (strip_left (forward relative_path)) in
    if str_eq text "" || starts_with_slash text
    then failed unsafe_relative_path
    else checked_parts (parts_of text)

-- A configured action: the enum, or a text.
pub data ActionSetting : Type 0 where
  action : CompletionAction → ActionSetting
  named : String → ActionSetting

-- `text.lower() == name`, of an ASCII name without k: no text with another character is equal to it.
unfoldable pub lowers_to : String → String → Bool
unfolding lower_code
lowers_to String.[] String.[] = true
lowers_to (String.◌∷◌ c s) (String.◌∷◌ d t) = lower_code (code c) == code d && lowers_to s t
lowers_to _ _ = false

-- `text.replace("-", "_")`
unfoldable pub underscored : String → String
underscored String.[] = ""
underscored (String.◌∷◌ c s) =
    if code c == 45 then "_" <> underscored s else String.◌∷◌ c (underscored s)

-- `coerce_action`
unfoldable pub coerce_action : ActionSetting → Outcome CompletionAction
unfolding lowers_to underscored
coerce_action (action a) = done a
coerce_action (named text) =
    if lowers_to (underscored text) "retaininplace"
      || lowers_to (underscored text) "retain_in_place"
    then done retain
    else (if lowers_to text "archive"
        then done archive
        else (if lowers_to text "delete"
            then done delete
            else (if lowers_to text "retain"
                then done retain
                else (if lowers_to text "quarantine"
                    then done quarantine
                    else failed unknown_completion_action))))

-- `CompletionPolicy`; a directory that is not configured is none.
pub record CompletionPolicy : Type 0 where
  pub source_root : List String
  pub archive_dir : Option (List String)
  pub failed_dir : Option (List String)
  pub on_success : ActionSetting
  pub on_invalid_input : ActionSetting
  pub on_operational_failure : ActionSetting
  pub on_publish_failure : ActionSetting

-- `_policy_action`
unfoldable pub policy_action : JobState → CompletionPolicy → Outcome ActionSetting
policy_action published policy = done policy.on_success
policy_action cleanup_pending policy = done policy.on_success
policy_action cleanup_failed policy = done policy.on_success
policy_action input_invalid policy = done policy.on_invalid_input
policy_action processing_exhausted policy = done policy.on_operational_failure
policy_action publish_exhausted policy = done policy.on_publish_failure
policy_action _ policy = failed no_completion_for_state

-- `_required_dir`
unfoldable pub required_dir : Option (List String) → Outcome (List String)
required_dir none = failed completion_dir_missing
required_dir (some dir) = done dir

-- `Path(root) / relative`
unfoldable pub under : List String → List String → FilePath
under root [] = record { parent = root; name = "" }
under root (part ∷ []) = record { parent = root; name = part }
under root (part ∷ next ∷ parts) = under (root ++ part ∷ []) (next ∷ parts)

infixl 5 ◌>>=◌
abbrev pub ◌>>=◌ : {A B : Type 0} → Outcome A → (A → Outcome B) → Outcome B
done a >>= f = f a
failed e >>= f = failed e

-- The target of an action.
unfoldable pub target_of :
    CompletionAction → CompletionPolicy → List String → Outcome (Option FilePath)
unfolding required_dir under
target_of archive policy relative = do
  dir ← required_dir policy.archive_dir
  done (some (under dir relative))
target_of quarantine policy relative = do
  dir ← required_dir policy.failed_dir
  done (some (under dir relative))
target_of _ policy relative = done none

-- `plan`, of what it reads of a job
unfoldable pub plan :
    JobState → String → String → CompletionPolicy → List FilePath → Outcome FileIntent
unfolding policy_action coerce_action safe_relative target_of
plan state relative_path sha256 policy members = do
  setting ← policy_action state policy
  chosen ← coerce_action setting
  relative ← safe_relative relative_path
  target ← target_of chosen policy relative
  done (record {
    action = chosen;
    source = under policy.source_root relative;
    source_sha256 = sha256;
    target = target;
    members = members;
  })
