-- ===== src/Completion/Execute.antt =====
-- `_move_bundle` and `_execute` of image_processor/completion/actions.py. What the two JSON records
-- hold is a parameter, given the files that they list.
use Prim.Native.String.{String}
use package.text.Mathlib.Text.{◌==◌ as str_eq}
use image_processor.Base.{
  ℕ, Bool, true, false, not, ◌&&◌, Option, none, some, List, [], ◌∷◌, ◌++◌, if◌then◌else◌,
}
use image_processor.Types.{Bytes, CompletionAction, delete, retain, quarantine}
use image_processor.Completion.{
  FilePath, source_missing, source_replaced, no_target, evidence_lost, CollisionPolicy, hex_part,
  member_target, error_record_suffix, bundle_manifest_suffix, beside,
}
use image_processor.Completion.Disk.{
  Fault, Fs, pure, raise, ◌>>=◌, ◌>>◌, exists, touch_dir, write_bytes, digest_of, remove,
}
use image_processor.Completion.Install.{
  FileIntent, Installed, written, Observed, retained, already_deleted, deleted, archived,
  quarantined, raise_when, install,
}

abbrev pub is_quarantine : CompletionAction → Bool
is_quarantine quarantine = true
is_quarantine _ = false

module _ (faults : ℕ → Fault) (sha256 : Bytes → String) (error_record : FilePath → Bytes)
    (bundle_manifest : FilePath → List Installed → Bytes) where
  -- `_verify_source`
  unfoldable pub verify_source : FilePath → String → Fs (Unit {0})
  unfolding digest_of hex_part
  verify_source source expected = do
    actual ← digest_of faults sha256 source
    raise_when (not (str_eq actual (hex_part expected))) source_replaced

  abbrev when : Bool → Fs (Unit {0}) → Fs (Unit {0})
  when b m = if b then m else pure tt

  -- The loop of `_execute` that removes the members.
  unfoldable pub remove_members : List FilePath → Fs (Unit {0})
  unfolding remove
  remove_members [] = pure tt
  remove_members (member ∷ members) = do
    there ← exists member
    when there (remove faults sha256 member)
    remove_members members

  -- The loop of `_move_bundle` over the members.
  unfoldable pub install_members :
      FilePath → FilePath → List FilePath → CollisionPolicy → Fs (List Installed)
  unfolding touch_dir install member_target
  install_members source image [] on_collision = pure []
  install_members source image (member ∷ members) on_collision = do
    touch_dir faults sha256
    one ← install faults sha256 member (member_target source image member) none on_collision
    rest ← install_members source image members on_collision
    pure (one ∷ rest)

  -- `_write_error_record`
  unfoldable pub write_error_record : FilePath → Fs Installed
  unfolding write_bytes
  write_error_record image = do
    write_bytes faults sha256 (beside image error_record_suffix) (error_record image)
    pure (record {
      path = beside image error_record_suffix;
      sha256 = sha256 (error_record image);
      how = written;
    })

  -- `_write_bundle_manifest`
  unfoldable pub write_bundle_manifest : FilePath → List Installed → Fs (Unit {0})
  unfolding write_bytes touch_dir
  write_bundle_manifest image installed = do
    write_bytes faults sha256 (beside image bundle_manifest_suffix)
        (bundle_manifest image installed)
    touch_dir faults sha256

  -- The error record of a quarantined image, in a list of what was installed.
  unfoldable pub with_record : FilePath → List Installed → Bool → Fs (List Installed)
  unfolding write_error_record
  with_record image installed false = pure installed
  with_record image installed true = do one ← write_error_record image; pure (installed ++ one ∷ [])

  -- `if len(installed) > 1: self._write_bundle_manifest(...)`
  unfoldable pub finish_bundle : FilePath → List Installed → Fs (Unit {0})
  unfolding write_bundle_manifest
  finish_bundle image (a ∷ b ∷ installed) = write_bundle_manifest image (a ∷ b ∷ installed)
  finish_bundle image _ = pure tt

  -- What follows the installation of the image in `_move_bundle`.
  unfoldable pub move_rest : FileIntent → Installed → CollisionPolicy → Fs Observed
  unfolding install_members with_record finish_bundle
  move_rest intent image on_collision = do
    members ← install_members intent.source image.path intent.members on_collision
    installed ← with_record image.path (image ∷ members) (is_quarantine intent.action)
    finish_bundle image.path installed
    pure (if is_quarantine intent.action then quarantined else archived)

  -- `_move_bundle`, for a target that is set
  unfoldable pub move_bundle : FileIntent → FilePath → CollisionPolicy → Fs Observed
  unfolding move_rest
  move_bundle intent target on_collision = do
    from ← exists intent.source
    to ← exists target
    raise_when (not from && not to) evidence_lost
    touch_dir faults sha256
    image ← install faults sha256 intent.source target (some intent.source_sha256) on_collision
    move_rest intent image on_collision

  unfoldable pub retain_source : FileIntent → Fs Observed
  unfolding verify_source
  retain_source intent = do
    there ← exists intent.source
    raise_when (not there) source_missing
    verify_source intent.source intent.source_sha256
    pure retained

  unfoldable pub delete_source : FileIntent → Fs Observed
  unfolding verify_source remove_members
  delete_source intent = do
    there ← exists intent.source
    if not there
        then pure already_deleted
        else (verify_source intent.source intent.source_sha256
            >> remove_members intent.members
            >> remove faults sha256 intent.source
            >> pure deleted)

  unfoldable pub move_to : FileIntent → Option FilePath → CollisionPolicy → Fs Observed
  unfolding move_bundle
  move_to intent none on_collision = raise no_target
  move_to intent (some target) on_collision = move_bundle intent target on_collision

  unfoldable pub perform : FileIntent → CompletionAction → CollisionPolicy → Fs Observed
  unfolding retain_source delete_source move_to
  perform intent retain on_collision = retain_source intent
  perform intent delete on_collision = delete_source intent
  perform intent _ on_collision = move_to intent intent.target on_collision

  -- `_execute`
  unfoldable pub execute : FileIntent → CollisionPolicy → Fs Observed
  unfolding perform
  execute intent on_collision = perform intent intent.action on_collision
