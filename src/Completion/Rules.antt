-- ===== src/Completion/Rules.antt =====
-- How the operations on the disk of image_processor/completion/actions.py end.
use Prim.Native.String.{String}
use image_processor.Base.{ℕ, ◌≡◌, refl, Bool, true, false, Option, none, some}
use image_processor.Types.{Bytes}
use image_processor.Completion.{FilePath, Failure, os_error}
use image_processor.Completion.Disk.{
  Files, Fault, works, crosses, garbles, Disk, Outcome, done, failed, Fs, ◌>>=◌, put, after, ran,
  ran_rename, ran_copy, on_content, touch_dir, digest_of, remove, replace, copy,
}
use image_processor.Completion.Install.{raise_when}

-- `Q` of a value and the disk, or `E` of the files that a failure leaves.
abbrev pub After : {A : Type 0} → (Files → Type 0) → (A → Disk → Type 0) → Outcome A × Disk → Type 0
After E Q (done a, d) = Q a d
After E Q (failed e, d) = E d.files

pub After-bind :
    {A B : Type 0} (E : Files → Type 0) (Q : B → Disk → Type 0) (m : Fs A) (f : A → Fs B) (d : Disk)
    → After E (λ a d'. After E Q (f a d')) (m d)
    → After E Q ((m >>= f) d)
After-bind {A} {B} E Q m f d h = go (m d) h
  where
    go :
        (r : Outcome A × Disk)
        → After E (λ a d'. After E Q (f a d')) r
        → After E Q (elim r.0 [ done a ↦ f a r.1 | failed e ↦ (failed e, r.1) ])
    go (done a, d') h = h
    go (failed e, d') h = h

pub After-map :
    {A : Type 0} (E E' : Files → Type 0) (Q Q' : A → Disk → Type 0) (r : Outcome A × Disk)
    → ((fs : Files) → E fs → E' fs)
    → ((a : A) (d : Disk) → Q a d → Q' a d)
    → After E Q r
    → After E' Q' r
After-map E E' Q Q' (done a, d) e q h = q a d h
After-map E E' Q Q' (failed f, d) e q h = e d.files h

-- After a step that ends well, what follows it.
pub After-then :
    {A B : Type 0} (E : Files → Type 0) (P : A → Disk → Type 0) (Q : B → Disk → Type 0) (m : Fs A)
    (f : A → Fs B) (d : Disk)
    → After E P (m d)
    → ((a : A) (d' : Disk) → P a d' → After E Q (f a d'))
    → After E Q ((m >>= f) d)
After-then E P Q m f d h next =
    After-bind E Q m f d (After-map E E P (λ a d'. After E Q (f a d')) (m d) (λ fs e. e) next h)

pub raise_when-After :
    (E : Files → Type 0) (Q : Unit {0} → Disk → Type 0) (b : Bool) (e : Failure) (d : Disk)
    → (b ≡ true → E d.files)
    → (b ≡ false → Q tt d)
    → After E Q (raise_when b e d)
raise_when-After E Q true e d h g = h refl
raise_when-After E Q false e d h g = g refl

ran-After :
    {A : Type 0} (E : Files → Type 0) (Q : A → Disk → Type 0) (f : Fault) (a : A) (files : Files)
    (d : Disk)
    → E d.files
    → Q a (after files d)
    → After E Q (ran f a files d)
unfolding ran
ran-After E Q works a files d e q = q
ran-After E Q _ a files d e q = e

on_content-After :
    {A : Type 0} (E : Files → Type 0) (Q : A → Disk → Type 0) (o : Option Bytes)
    (act : Bytes → Fs A) (d : Disk)
    → E d.files
    → ((c : Bytes) → o ≡ some c → After E Q (act c d))
    → After E Q (on_content o act d)
unfolding on_content
on_content-After E Q none act d e h = e
on_content-After E Q (some c) act d e h = h c refl

ran_copy-After :
    (E : Files → Type 0) (Q : Unit {0} → Disk → Type 0) (f : Fault) (dst : FilePath)
    (content : Bytes) (d : Disk)
    → E d.files
    → ((c : Bytes) → E (put dst (some c) d.files))
    → ((c : Bytes) → Q tt (after (put dst (some c) d.files) d))
    → After E Q (ran_copy f dst content d)
unfolding ran_copy ran
ran_copy-After E Q (garbles true other) dst content d e g q = g other
ran_copy-After E Q (garbles false other) dst content d e g q = q other
ran_copy-After E Q works dst content d e g q = q content
ran_copy-After E Q _ dst content d e g q = e

module _ (faults : ℕ → Fault) (sha256 : Bytes → String) (E : Files → Type 0) where
  pub touch_dir-After :
      (Q : Unit {0} → Disk → Type 0) (d : Disk)
      → E d.files
      → Q tt (after d.files d)
      → After E Q (touch_dir faults sha256 d)
  unfolding touch_dir
  touch_dir-After Q d = ran-After E Q (faults d.operations) tt d.files d

  pub digest_of-After :
      (Q : String → Disk → Type 0) (p : FilePath) (d : Disk)
      → E d.files
      → ((c : Bytes) → d.files p ≡ some c → Q (sha256 c) (after d.files d))
      → After E Q (digest_of faults sha256 p d)
  unfolding digest_of
  digest_of-After Q p d e q =
      on_content-After E Q (d.files p) _ d e
        λ c at. ran-After E Q (faults d.operations) (sha256 c) d.files d e (q c at)

  pub remove-After :
      (Q : Unit {0} → Disk → Type 0) (p : FilePath) (d : Disk)
      → E d.files
      → Q tt (after (put p none d.files) d)
      → After E Q (remove faults sha256 p d)
  unfolding remove
  remove-After Q p d e q =
      on_content-After E Q (d.files p) _ d e
        λ c at. ran-After E Q (faults d.operations) tt (put p none d.files) d e q

  -- A copy writes some bytes if it returns, and maybe if it raises.
  pub copy-After :
      (Q : Unit {0} → Disk → Type 0) (src dst : FilePath) (d : Disk)
      → E d.files
      → ((c : Bytes) → E (put dst (some c) d.files))
      → ((c : Bytes) → Q tt (after (put dst (some c) d.files) d))
      → After E Q (copy faults sha256 src dst d)
  unfolding copy
  copy-After Q src dst d e g q =
      on_content-After E Q (d.files src) _ d e
        λ c at. ran_copy-After E Q (faults d.operations) dst c d e g q

  replace-cases :
      (K : Outcome (Unit {0}) × Disk → Type 0) (f : Fault) (files : Files) (d : Disk)
      → K (failed (os_error false), after d.files d)
      → K (failed (os_error true), after d.files d)
      → K (done tt, after files d)
      → K (ran_rename f files d)
  unfolding ran_rename ran
  replace-cases K works files d bad cross good = good
  replace-cases K crosses files d bad cross good = cross
  replace-cases K _ files d bad cross good = bad

  -- A rename works, raises EXDEV, or raises something else.
  pub replace-After :
      (K : Outcome (Unit {0}) × Disk → Type 0) (src dst : FilePath) (d : Disk)
      → K (failed (os_error false), after d.files d)
      → K (failed (os_error true), after d.files d)
      → ((c : Bytes)
          → d.files src ≡ some c
          → K (done tt, after (put dst (some c) (put src none d.files)) d))
      → K (replace faults sha256 src dst d)
  unfolding replace on_content
  replace-After K src dst d bad cross good = go (d.files src) good
    where
      go :
          (o : Option Bytes)
          → ((c : Bytes)
              → o ≡ some c
              → K (done tt, after (put dst (some c) (put src none d.files)) d))
          → K (
              on_content o
                (λ content d.
                  ran_rename
                    (faults d.operations)
                    (put dst (some content) (put src none d.files))
                    d)
                d)
      go none good = bad
      go (some c) good =
          replace-cases K (faults d.operations) (put dst (some c) (put src none d.files)) d bad
            cross (good c refl)
