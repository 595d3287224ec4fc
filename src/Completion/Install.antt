-- ===== src/Completion/Install.antt =====
-- `_install` and `_resolve_existing_target` of image_processor/completion/actions.py. The digest
-- function is a parameter, and so is what each operation on the disk comes to.
use Prim.Native.String.{String}
use package.text.Mathlib.Text.{◌==◌ as str_eq}
use image_processor.Base.{
  ℕ, Bool, true, false, not, ◌&&◌, Option, none, some, List, if◌then◌else◌, is_some,
}
use image_processor.Types.{Bytes, CompletionAction}
use image_processor.Completion.{
  FilePath, path_eq, Failure, source_missing, source_digest_mismatch, copy_verify_failed, collision,
  os_error, CollisionPolicy, fail, suffix, hex_part, suffixed,
}
use image_processor.Completion.Disk.{
  Fault, Disk, Outcome, done, failed, Fs, pure, raise, ◌>>=◌, ◌>>◌, exists, touch_dir, digest_of,
  remove, replace, copy,
}

-- `class CleanupIntent`, with its texts read as paths
pub record FileIntent : Type 0 where
  pub action : CompletionAction
  pub source : FilePath
  pub source_sha256 : String
  pub target : Option FilePath
  pub members : List FilePath

-- `how` of an installed file
pub data How : Type 0 where
  renamed copied resumed already written : How

-- `class _Installed`
pub record Installed : Type 0 where
  pub path : FilePath
  pub sha256 : String
  pub how : How

-- What `_execute` observed.
pub data Observed : Type 0 where
  retained already_deleted deleted archived quarantined : Observed

-- `expected.split(":")[-1] if expected else None`
abbrev pub expected_hex : Option String → Option String
expected_hex none = none
expected_hex (some digest) = if str_eq digest "" then none else some (hex_part digest)

-- `expected_hex is not None and digest != expected_hex`
abbrev pub differs : String → Option String → Bool
differs digest none = false
differs digest (some hex) = not (str_eq digest hex)

abbrev pub raise_when : Bool → Failure → Fs (Unit {0})
raise_when b e d = (if b then failed e else done tt, d)

module _ (faults : ℕ → Fault) (sha256 : Bytes → String) where
  -- A copy that does not verify is removed, and only after one that does the source is.
  unfoldable pub settle_copy : FilePath → FilePath → String → String → Fs (Unit {0})
  unfolding remove
  settle_copy src dst digest copied_digest =
      if str_eq copied_digest digest
      then remove faults sha256 src
      else (remove faults sha256 dst >> raise copy_verify_failed)

  unfoldable pub verify_copy : FilePath → FilePath → String → Fs (Unit {0})
  unfolding settle_copy digest_of
  verify_copy src dst digest = digest_of faults sha256 dst >>= settle_copy src dst digest

  -- The other file system of `_install`.
  unfoldable pub copy_across : FilePath → FilePath → String → Fs (Unit {0})
  unfolding verify_copy copy
  copy_across src dst digest = copy faults sha256 src dst >> verify_copy src dst digest

  -- What follows `replace` in `_install`: EXDEV is the only error that is handled.
  unfoldable pub moved_or_copied :
      FilePath → FilePath → String → Outcome (Unit {0}) × Disk → Outcome How × Disk
  unfolding copy_across
  moved_or_copied src dst digest (done _, d) = (done renamed, d)
  moved_or_copied src dst digest (failed (os_error true), d) =
      (copy_across src dst digest >> pure copied) d
  moved_or_copied src dst digest (failed e, d) = (failed e, d)

  unfoldable pub move : FilePath → FilePath → String → Fs How
  unfolding moved_or_copied replace
  move src dst digest d = moved_or_copied src dst digest (replace faults sha256 src dst d)

  -- The end of `_install`, for a target that is free.
  unfoldable pub report_move : FilePath → String → How → Fs Installed
  unfolding touch_dir
  report_move dst digest how =
      touch_dir faults sha256 >> pure (record { path = dst; sha256 = digest; how = how })

  unfoldable pub move_verified : FilePath → FilePath → Option String → String → Fs Installed
  unfolding move report_move
  move_verified src dst hex digest = do
    raise_when (differs digest hex) source_digest_mismatch
    move src dst digest >>= report_move dst digest

  -- The part of `_install` for a target that is free.
  unfoldable pub install_free : FilePath → FilePath → Option String → Fs Installed
  unfolding move_verified digest_of
  install_free src dst hex = do
    there ← exists src
    raise_when (not there) source_missing
    digest_of faults sha256 src >>= move_verified src dst hex

  -- `self._fs.sha256(src) if source_exists else expected_hex`
  unfoldable pub source_digest : FilePath → Option String → Bool → Fs (Option String)
  unfolding digest_of
  source_digest src hex true = do digest ← digest_of faults sha256 src; pure (some digest)
  source_digest src hex false = pure hex

  -- `target_digest == source_digest`
  abbrev pub same_digest : String → Option String → Bool
  same_digest digest none = false
  same_digest digest (some other) = str_eq digest other

  -- `source_digest or target_digest`
  abbrev pub or_digest : Option String → String → String
  or_digest none digest = digest
  or_digest (some other) digest = if str_eq other "" then digest else other

  -- The rules of `_resolve_existing_target`, once the digests are known.
  unfoldable pub decide_target :
      (FilePath → Fs Installed)
      → FilePath
      → FilePath
      → Option String
      → String
      → Bool
      → Option String
      → Fs Installed
  unfolding remove suffixed
  decide_target again src dst hex target_digest there from =
      if there && same_digest target_digest from
      then (remove faults sha256 src
          >> pure (record { path = dst; sha256 = target_digest; how = resumed }))
      else (if not there && not (differs target_digest hex)
          then pure (record { path = dst; sha256 = target_digest; how = already })
          else again (suffixed dst (or_digest from target_digest)))

  unfoldable pub compare_digests :
      (FilePath → Fs Installed) → FilePath → FilePath → Option String → String → Fs Installed
  unfolding source_digest decide_target
  compare_digests again src dst hex target_digest d =
      (source_digest src hex (is_some (d.files src))
          >>= decide_target again src dst hex target_digest (is_some (d.files src)))
        d

  -- `_resolve_existing_target`; `again` tries the suffixed name.
  unfoldable pub resolve_existing :
      (FilePath → Fs Installed) → FilePath → FilePath → Option String → Fs Installed
  unfolding digest_of compare_digests
  resolve_existing again src dst hex =
      digest_of faults sha256 dst >>= compare_digests again src dst hex

  -- `_install`, where `again` is what a collision leads to
  unfoldable pub install_once :
      (FilePath → Fs Installed) → FilePath → FilePath → Option String → Fs Installed
  unfolding install_free resolve_existing
  install_once again src dst hex d =
      (if is_some (d.files dst)
          then resolve_existing again src dst hex
          else install_free src dst hex)
        d

  -- Under the policy fail no second name is tried.
  abbrev pub no_more : FilePath → Fs Installed
  no_more alternate = raise collision

  -- The second installation of `_resolve_existing_target`, under the policy fail.
  unfoldable pub second_name : FilePath → FilePath → Option String → FilePath → Fs Installed
  unfolding install_once path_eq hex_part
  second_name src dst hex alternate =
      if path_eq alternate dst
      then raise collision
      else install_once no_more src alternate (expected_hex hex)

  -- `_install`
  unfoldable pub install : FilePath → FilePath → Option String → CollisionPolicy → Fs Installed
  unfolding second_name
  install src dst expected fail = install_once no_more src dst (expected_hex expected)
  install src dst expected suffix =
      install_once (second_name src dst (expected_hex expected)) src dst (expected_hex expected)
