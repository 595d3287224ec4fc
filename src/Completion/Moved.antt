-- ===== src/Completion/Moved.antt =====
-- A move onto a free path in image_processor/completion/actions.py under every fault of the disk.
use Prim.Native.String.{String}
use package.text.Mathlib.Text.{◌==◌ as str_eq}
use package.text.Mathlib.TextEquality.{eq_iff}
use image_processor.Base.{
  ℕ, ◌≡◌, ◌≢◌, refl, ap, sym, ◌∙◌, inl, inr, false, Option, none, some, Bool-cases,
}
use image_processor.Types.{Bytes}
use image_processor.Completion.{FilePath, copy_verify_failed, source_digest_mismatch}
use image_processor.Completion.Disk.{
  Files, Fault, Disk, pure, raise, raise, ◌>>=◌, after, put, digest_of, remove, copy, touch_dir,
}
use image_processor.Completion.Install.{
  How, copied, resumed, Installed, differs, raise_when, settle_copy, verify_copy, copy_across,
  moved_or_copied, move, report_move, move_verified,
}
use image_processor.Completion.Rules.{
  After, After-bind, After-then, raise_when-After, touch_dir-After, digest_of-After, remove-After,
  copy-After, replace-After,
}
use image_processor.Completion.Safe.{
  put_same, put_other, Safe, Safe-refl, Safe-trans, put-Safe, undo-Safe, drop-Safe, rename-Safe,
}

module _ (faults : ℕ → Fault) (sha256 : Bytes → String) (src : FilePath) where
  -- The file that was installed is there, with the digest that is reported. That is the digest the
  -- intent names, if it names one, unless a copy was resumed.
  abbrev pub Placed : Option String → Installed → Files → Type 0
  Placed hex i fs =
      (b : Bytes) × (fs i.path ≡ some b)
      × (sha256 b ≡ i.sha256)
      × (i.how ≢ resumed → differs i.sha256 hex ≡ false)

  -- What was at the source has the digest that is reported.
  abbrev pub Sourced : Files → Installed → Type 0
  Sourced fs i = (c : Bytes) → fs src ≡ some c → sha256 c ≡ i.sha256

  pub same_content :
      (b c : Bytes) (fs : Files) → fs src ≡ some b → fs src ≡ some c → sha256 c ≡ sha256 b
  same_content b c fs at at' =
      let k : some b ≡ some c = sym at ∙ at' in ap sha256 (let k' : c ≡ b = cc in k')

  -- The target of a move, once it is done.
  abbrev There : FilePath → String → Files → Type 0
  There dst digest fs = (b : Bytes) × (fs dst ≡ some b) × (sha256 b ≡ digest)

  module _ (dst : FilePath) (ne : src ≢ dst) (d : Disk) (free : d.files dst ≡ none) where
    abbrev E : Files → Type 0
    E fs = Safe sha256 src d.files fs

    -- What the copy has left.
    abbrev with_copy : Bytes → Files
    with_copy c = put dst (some c) d.files

    wrote : (c : Bytes) → E (with_copy c)
    wrote c = put-Safe sha256 src dst (some c) d.files free

    -- What a move leaves.
    abbrev Moved : Bytes → Disk → Type 0
    Moved b d' = E d'.files × There dst (sha256 b) d'.files

    settle_copy-After :
        (b c c' : Bytes) (d' : Disk)
        → d'.files ≡ with_copy c
        → d.files src ≡ some b
        → with_copy c dst ≡ some c'
        → After E (λ _. Moved b) (settle_copy faults sha256 src dst (sha256 b) (sha256 c') d')
    unfolding settle_copy
    settle_copy-After b c c' d' same at there = elim (Bool-cases (str_eq (sha256 c') (sha256 b))) [
      | inl e ↦
          let equal = (eq_iff (sha256 c') (sha256 b)).0 e in
          rw e (
            remove-After faults sha256 E (λ _. Moved b) src d' (rw same (wrote c))
              (rw same (
                Safe-trans sha256 src d.files (with_copy c) _ (wrote c) (
                    drop-Safe sha256 src dst b c' (with_copy c) ne
                      (put_other dst src (some c) d.files (λ k. ne (sym k)) ∙ at) there equal),
                (c', put_other src dst none (with_copy c) ne ∙ there, equal),
              )))
      | inr e ↦ rw e (
          After-bind E (λ _. Moved b) (remove faults sha256 dst) (λ _. raise copy_verify_failed) d'
            (remove-After faults sha256 E _ dst d' (rw same (wrote c))
              (rw same (undo-Safe sha256 src dst (some c) d.files free))))
    ]

    -- The copy is verified before the source goes.
    copy_across-After :
        (b : Bytes)
        → d.files src ≡ some b
        → After E (λ _. Moved b) (copy_across faults sha256 src dst (sha256 b) d)
    unfolding copy_across verify_copy
    copy_across-After b at =
        After-bind E (λ _. Moved b) (copy faults sha256 src dst)
          (λ _. verify_copy faults sha256 src dst (sha256 b)) d
          (copy-After faults sha256 E _ src dst d (Safe-refl sha256 src d.files) wrote λ c.
            let d' = after (with_copy c) d in
            After-bind E (λ _. Moved b) (digest_of faults sha256 dst)
              (settle_copy faults sha256 src dst (sha256 b)) d'
              (digest_of-After faults sha256 E _ dst d' (wrote c)
                λ c' there. settle_copy-After b c c' (after (with_copy c) d') refl at there))

  module _ (dst : FilePath) (ne : src ≢ dst) (d : Disk) (free : d.files dst ≡ none) where
    abbrev Handled : Bytes → How → Disk → Type 0
    Handled b how d' = (how ≢ resumed) × Moved dst ne d free b d'

    move-After :
        (b : Bytes)
        → d.files src ≡ some b
        → After (Safe sha256 src d.files) (Handled b) (move faults sha256 src dst (sha256 b) d)
    unfolding move moved_or_copied
    move-After b at =
        let d' = after d.files d in
        replace-After faults sha256 (Safe sha256 src d.files)
          (λ r.
            After (Safe sha256 src d.files) (Handled b)
              (moved_or_copied faults sha256 src dst (sha256 b) r))
          src dst d (Safe-refl sha256 src d.files)
          (After-then (Safe sha256 src d.files) (λ _. Moved dst ne d' free b) (Handled b)
            (copy_across faults sha256 src dst (sha256 b)) (λ _. pure copied) d'
            (copy_across-After dst ne d' free b at) (λ _ d'' m. ((λ e. cc), m)))
          λ c at'. (
            (λ e. cc),
            (
              rename-Safe sha256 src dst c d.files ne at' free,
              (
                c,
                put_same dst (some c) (put src none d.files),
                let k : some c ≡ some b = sym at' ∙ at in ap sha256 (let k' : c ≡ b = cc in k'),
              ),
            ),
          )

    -- What `_install` promises of a file that it has installed.
    abbrev Good : Option String → Installed → Disk → Type 0
    Good hex i d' = Safe sha256 src d.files d'.files × Placed hex i d'.files × Sourced d.files i

    pub move_verified-After :
        (hex : Option String) (b : Bytes)
        → d.files src ≡ some b
        → After
            (Safe sha256 src d.files)
            (Good hex)
            (move_verified faults sha256 src dst hex (sha256 b) d)
    unfolding move_verified report_move
    move_verified-After hex b at =
        After-bind (Safe sha256 src d.files) (Good hex)
          (raise_when (differs (sha256 b) hex) source_digest_mismatch)
          (λ _. move faults sha256 src dst (sha256 b) >>= report_move faults sha256 dst (sha256 b))
          d
          (raise_when-After (Safe sha256 src d.files) _ (differs (sha256 b) hex) _ d
            (λ _. Safe-refl sha256 src d.files)
            λ same.
              After-then (Safe sha256 src d.files) (Handled b) (Good hex)
                (move faults sha256 src dst (sha256 b)) (report_move faults sha256 dst (sha256 b)) d
                (move-After b at)
                λ how d' m.
                  After-bind (Safe sha256 src d.files) (Good hex) (touch_dir faults sha256)
                    (λ _. pure (record { path = dst; sha256 = sha256 b; how = how })) d'
                    (touch_dir-After faults sha256 (Safe sha256 src d.files) _ d' m.1.0 (
                      m.1.0,
                      (m.1.1.0, m.1.1.1, m.1.1.2, λ _. same),
                      λ c at'. same_content b c d.files at at',
                    )))
