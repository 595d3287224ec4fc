-- ===== src/Completion/Disk.antt =====
-- `FsOps` of image_processor/completion/actions.py over a disk whose operations may fail. The n-th
-- operation that may fail does what `faults n` says.
use Prim.Native.String.{String}
use image_processor.Base.{ℕ, suc, Bool, true, false, Option, none, some, if◌then◌else◌, is_some}
use image_processor.Types.{Bytes}
use image_processor.Completion.{FilePath, path_eq, Failure, os_error, beside}

-- A file for each path that has one.
abbrev pub Files : Type 0
Files = FilePath → Option Bytes

-- What becomes of an operation: it works, it raises and changes nothing, it is a rename between two
-- file systems, or it is a copy that writes other bytes, and then raises or not.
pub data Fault : Type 0 where
  works fails crosses : Fault
  garbles : Bool → Bytes → Fault

pub record Disk : Type 0 where
  pub files : Files
  pub operations : ℕ

pub data Outcome {ℓ} (A : Type ℓ) : Type ℓ where
  done : A → Outcome A
  failed : Failure → Outcome A

abbrev pub Fs : Type 0 → Type 0
Fs A = Disk → Outcome A × Disk

module _ {A : Type 0} where
  abbrev pub pure : A → Fs A
  pure a d = (done a, d)

  abbrev pub raise : Failure → Fs A
  raise e d = (failed e, d)

infixl 5 ◌>>=◌ ◌>>◌
abbrev pub ◌>>=◌ : {A B : Type 0} → Fs A → (A → Fs B) → Fs B
◌>>=◌ m f d = let (r, d') = m d in elim r [ done a ↦ f a d' | failed e ↦ (failed e, d') ]

abbrev pub ◌>>◌ : {A B : Type 0} → Fs A → Fs B → Fs B
m >> k = m >>= λ _. k

abbrev pub put : FilePath → Option Bytes → Files → Files
put p content files q = if path_eq p q then content else files q

-- The disk once an operation has run.
abbrev pub after : Files → Disk → Disk
after files d = record { files = files; operations = suc d.operations }

-- `exists`
abbrev pub exists : FilePath → Fs Bool
exists p d = (done (is_some (d.files p)), d)

-- An operation that leaves some files, or raises and changes nothing.
unfoldable pub ran : {A : Type 0} → Fault → A → Files → Disk → Outcome A × Disk
ran works a files d = (done a, after files d)
ran _ a files d = (failed (os_error false), after d.files d)

-- A rename between two file systems raises EXDEV.
unfoldable pub ran_rename : Fault → Files → Disk → Outcome (Unit {0}) × Disk
unfolding ran
ran_rename crosses files d = (failed (os_error true), after d.files d)
ran_rename f files d = ran f tt files d

-- A copy may write other bytes.
unfoldable pub ran_copy : Fault → FilePath → Bytes → Disk → Outcome (Unit {0}) × Disk
unfolding ran
ran_copy (garbles raises other) dst content d =
    (if raises then failed (os_error false) else done tt, after (put dst (some other) d.files) d)
ran_copy f dst content d = ran f tt (put dst (some content) d.files) d

-- Writing a new file, which may stop with other bytes in it.
unfoldable pub ran_write : Fault → FilePath → Bytes → Disk → Outcome (Unit {0}) × Disk
unfolding ran
ran_write (garbles _ other) p content d =
    (failed (os_error false), after (put p (some other) d.files) d)
ran_write f p content d = ran f tt (put p (some content) d.files) d

-- An operation on a file that must be there, by its content.
unfoldable pub on_content : {A : Type 0} → Option Bytes → (Bytes → Fs A) → Fs A
on_content none act d = (failed (os_error false), after d.files d)
on_content (some content) act d = act content d

module _ (faults : ℕ → Fault) (sha256 : Bytes → String) where
  -- An operation that writes no file: `makedirs` and `fsync_dir`.
  unfoldable pub touch_dir : Fs (Unit {0})
  unfolding ran
  touch_dir d = ran (faults d.operations) tt d.files d

  -- `sha256`
  unfoldable pub digest_of : FilePath → Fs String
  unfolding ran on_content
  digest_of p d =
      on_content (d.files p) (λ content d. ran (faults d.operations) (sha256 content) d.files d) d

  -- `remove`
  unfoldable pub remove : FilePath → Fs (Unit {0})
  unfolding ran on_content
  remove p d = on_content (d.files p) (λ _ d. ran (faults d.operations) tt (put p none d.files) d) d

  -- `replace`: an atomic rename
  unfoldable pub replace : FilePath → FilePath → Fs (Unit {0})
  unfolding ran_rename on_content
  replace src dst d =
      on_content (d.files src)
        (λ content d.
          ran_rename (faults d.operations) (put dst (some content) (put src none d.files)) d)
        d

  -- What `write_bytes` writes before its rename.
  unfoldable pub write_temporary : FilePath → Bytes → Fs (Unit {0})
  unfolding ran_write
  write_temporary p content d = ran_write (faults d.operations) p content d

  -- `write_bytes`: the bytes go to a file beside the target, which is then renamed onto it
  unfoldable pub write_bytes : FilePath → Bytes → Fs (Unit {0})
  unfolding write_temporary replace
  write_bytes p content = write_temporary (beside p ".tmp") content >> replace (beside p ".tmp") p

  -- `copy`
  unfoldable pub copy : FilePath → FilePath → Fs (Unit {0})
  unfolding ran_copy on_content
  copy src dst d =
      on_content (d.files src) (λ content d. ran_copy (faults d.operations) dst content d) d
