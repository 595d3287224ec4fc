-- ===== src/Completion.antt =====
-- image_processor/completion/actions.py: what happens to an input once its job is done. Paths are
-- pathlib's on POSIX: the components of the parent, and the name.
pub mod Disk
pub mod Install
pub mod Execute
pub mod Paths
pub mod Rules
pub mod Safe
pub mod Moved
pub mod Installed
pub mod Plan
pub mod Inside
pub mod Apply
pub mod Settled
pub mod Replies
pub mod Told
use Prim.Native.String.{String, slice, ◌++◌ as ◌<>◌}
use Prim.Native.Char.{Char}
use package.text.Mathlib.Text.{◌==◌ as str_eq}
use image_processor.Base.{
  ℕ, Bool, true, false, ◌&&◌, ◌||◌, Option, none, some, List, [], ◌∷◌, ◌++◌, if◌then◌else◌,
}
use image_processor.Types.{
  Text, JobState, is_in, is, CompletionAction, published, cleanup_pending, cleanup_failed,
  input_invalid, processing_exhausted, publish_exhausted,
}

pub record FilePath : Type 0 where
  pub parent : List String
  pub name : String

-- `code` of a `CleanupError`, an IndexError, or an `OSError`, with whether it is EXDEV
pub data Failure : Type 0 where
  unknown_completion_action unsafe_relative_path no_completion_for_state : Failure
  completion_dir_missing source_missing source_replaced no_target evidence_lost : Failure
  source_digest_mismatch copy_verify_failed collision index_error : Failure
  os_error : Bool → Failure

-- `onCollision`
pub data CollisionPolicy : Type 0 where
  fail suffix : CollisionPolicy

unfoldable pub dir_eq : List String → List String → Bool
dir_eq [] [] = true
dir_eq (a ∷ as') (b ∷ bs) = str_eq a b && dir_eq as' bs
dir_eq _ _ = false

-- `first == second` of two paths
unfoldable pub path_eq : FilePath → FilePath → Bool
unfolding dir_eq
path_eq p q = dir_eq p.parent q.parent && str_eq p.name q.name

-- `path.with_name(name)`
abbrev pub with_name : FilePath → String → FilePath
with_name p name = record p { name = name }

-- The last dot of a name splits it, if there is one.
unfoldable pub at_last_dot : String → Option (String × String)
at_last_dot String.[] = none
at_last_dot (String.◌∷◌ c s) = elim (at_last_dot s) [
  | some (stem, rest) ↦ some (String.◌∷◌ c stem, rest)
  | none ↦ if str_eq (String.◌∷◌ c "") "." then some ("", String.◌∷◌ c s) else none
]

-- `path.stem` and `path.suffix` of a name: a leading or a trailing dot starts no suffix
unfoldable pub stem_suffix : String → String × String
unfolding at_last_dot
stem_suffix name = elim (at_last_dot name) [
  | none ↦ (name, "")
  | some (stem, rest) ↦ if str_eq stem "" || str_eq rest "." then (name, "") else (stem, rest)
]

-- What follows the last colon, if there is one.
unfoldable pub after_colon : String → Option String
after_colon String.[] = none
after_colon (String.◌∷◌ c s) = elim (after_colon s) [
  | some rest ↦ some rest
  | none ↦ if str_eq (String.◌∷◌ c "") ":" then some s else none
]

-- `digest.split(":")[-1]`
unfoldable pub hex_part : String → String
unfolding after_colon
hex_part digest = elim (after_colon digest) [ none ↦ digest | some rest ↦ rest ]

-- `suffixed`
unfoldable pub suffixed : FilePath → String → FilePath
unfolding stem_suffix hex_part
suffixed target digest =
    let (stem, rest) = stem_suffix target.name in
    with_name target (stem <> "." <> slice (hex_part digest) 0 8 <> rest)

-- `member.relative_to(dir)`, of the directory that holds the member
unfoldable pub strip_dir : List String → List String → Option (List String)
strip_dir [] parts = some parts
strip_dir (d ∷ ds) [] = none
strip_dir (d ∷ ds) (p ∷ parts) = if str_eq d p then strip_dir ds parts else none

-- `_member_target`
unfoldable pub member_target : FilePath → FilePath → FilePath → FilePath
unfolding strip_dir
member_target source image_target member = elim (strip_dir source.parent member.parent) [
  | none ↦ record { parent = image_target.parent; name = member.name }
  | some rest ↦ record { parent = image_target.parent ++ rest; name = member.name }
]

abbrev pub error_record_suffix : String
error_record_suffix = ".error.json"

abbrev pub bundle_manifest_suffix : String
bundle_manifest_suffix = ".bundle.json"

-- `image_path.with_name(image_path.name + suffix)`
abbrev pub beside : FilePath → String → FilePath
beside image_path ending = with_name image_path (image_path.name <> ending)
