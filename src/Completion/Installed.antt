-- ===== src/Completion/Installed.antt =====
-- `_install` of image_processor/completion/actions.py under every fault of the disk.
use Prim.Native.String.{String}
use package.text.Mathlib.Text.{◌==◌ as str_eq}
use package.text.Mathlib.TextEquality.{eq_iff}
use image_processor.Base.{
  ℕ, ◌≡◌, ◌≢◌, refl, ap, sym, ◌∙◌, subst, inl, inr, true, false, not, Option, none, some,
  Bool-cases, Option-cases, is_some,
}
use image_processor.Types.{Bytes}
use image_processor.Completion.{
  FilePath, path_eq, CollisionPolicy, fail, suffix, suffixed, source_missing,
}
use image_processor.Completion.Disk.{Files, Fault, Disk, Fs, pure, ◌>>=◌, after, digest_of, remove}
use image_processor.Completion.Install.{
  Installed, expected_hex, differs, raise_when, move_verified, decide_target, compare_digests,
  install_free, source_digest, resolve_existing, install_once, no_more, second_name, install,
}
use image_processor.Completion.Rules.{
  After, After-bind, raise_when-After, digest_of-After, remove-After,
}
use image_processor.Completion.Safe.{put_other, Safe, Safe-refl, drop-Safe}
use image_processor.Completion.Moved.{Placed, Sourced, same_content, move_verified-After}

module _ (faults : ℕ → Fault) (sha256 : Bytes → String) (src : FilePath) where
  -- What `_install` promises, from the files that it started with.
  abbrev pub Fine : Files → Option String → Installed → Disk → Type 0
  Fine fs hex i d' =
      Safe sha256 src fs d'.files
      × Placed faults sha256 src hex i d'.files
      × Sourced faults sha256 src fs i

  install_free-After :
      (dst : FilePath) (hex : Option String) (d : Disk)
      → src ≢ dst
      → d.files dst ≡ none
      → After
          (Safe sha256 src d.files)
          (Fine d.files hex)
          (install_free faults sha256 src dst hex d)
  unfolding install_free
  install_free-After dst hex d ne free =
      let E = Safe sha256 src d.files in
      After-bind E (Fine d.files hex) (raise_when (not (is_some (d.files src))) source_missing)
        (λ _. digest_of faults sha256 src >>= move_verified faults sha256 src dst hex) d
        (raise_when-After E _ (not (is_some (d.files src))) source_missing d
          (λ _. Safe-refl sha256 src d.files)
          λ _.
            After-bind E (Fine d.files hex) (digest_of faults sha256 src)
              (move_verified faults sha256 src dst hex) d
              (digest_of-After faults sha256 E _ src d (Safe-refl sha256 src d.files) λ b at.
                move_verified-After faults sha256 src dst ne (after d.files d) free hex b at))

  module _ (dst : FilePath) (ne : src ≢ dst) (hex : Option String) (fs : Files)
      (again : FilePath → Fs Installed)
      (retry : (alternate : FilePath) (d : Disk)
        → alternate.parent ≡ dst.parent
        → d.files ≡ fs
        → After (Safe sha256 src fs) (Fine fs hex) (again alternate d)) where
    abbrev K : Files → Type 0
    K = Safe sha256 src fs

    -- The source is there.
    decide_both-After :
        (t b : Bytes) (d : Disk)
        → d.files ≡ fs
        → fs dst ≡ some t
        → fs src ≡ some b
        → After K
            (Fine fs hex)
            (decide_target faults sha256 again src dst hex (sha256 t) true (some (sha256 b)) d)
    unfolding decide_target suffixed
    decide_both-After t b d same taken at = elim (Bool-cases (str_eq (sha256 t) (sha256 b))) [
      | inl e ↦ rw e (
          After-bind K (Fine fs hex) (remove faults sha256 src) (λ _. pure _) d
            (remove-After faults sha256 K _ src d (rw same (Safe-refl sha256 src fs)) (
              rw same (
                drop-Safe sha256 src dst b t fs ne at taken ((eq_iff (sha256 t) (sha256 b)).0 e),
                (t, put_other src dst none fs ne ∙ taken, refl, λ k. absurd (k refl)),
                λ c at'.
                    same_content faults sha256 src b c fs at at'
                    ∙ sym ((eq_iff (sha256 t) (sha256 b)).0 e),
              ))))
      | inr e ↦ rw e (retry _ d refl same)
    ]

    -- The source is gone.
    decide_alone-After :
        (t : Bytes) (d : Disk)
        → d.files ≡ fs
        → fs dst ≡ some t
        → fs src ≡ none
        → After K
            (Fine fs hex)
            (decide_target faults sha256 again src dst hex (sha256 t) false hex d)
    unfolding decide_target suffixed
    decide_alone-After t d same taken gone = elim (Bool-cases (differs (sha256 t) hex)) [
      | inl e ↦ rw e (retry _ d refl same)
      | inr e ↦ rw e (
          rw same (
            Safe-refl sha256 src fs,
            (t, taken, refl, λ _. e),
            λ c at. let k : none ≡ some c = sym gone ∙ at in cc,
          ))
    ]

    compare_digests-After :
        (t : Bytes) (d : Disk)
        → d.files ≡ fs
        → fs dst ≡ some t
        → After K (Fine fs hex) (compare_digests faults sha256 again src dst hex (sha256 t) d)
    unfolding compare_digests source_digest
    compare_digests-After t d same taken = elim (Option-cases (d.files src)) [
      | inl e ↦ rw e (decide_alone-After t d same taken (subst (λ f. f src ≡ none) same e))
      | inr (b, e) ↦ rw e (
          After-bind K (Fine fs hex) (digest_of faults sha256 src >>= λ digest. pure (some digest))
            (decide_target faults sha256 again src dst hex (sha256 t) true) d
            (After-bind K _ (digest_of faults sha256 src) (λ digest. pure (some digest)) d
              (digest_of-After faults sha256 K _ src d (rw same (Safe-refl sha256 src fs)) λ c at.
                decide_both-After t c (after d.files d) same taken
                  (subst (λ f. f src ≡ some c) same at))))
    ]

    install_once-After :
        (d : Disk)
        → d.files ≡ fs
        → After K (Fine fs hex) (install_once faults sha256 again src dst hex d)
    unfolding install_once resolve_existing
    install_once-After d same = elim (Option-cases (d.files dst)) [
      | inl e ↦ rw e (
          subst
            (λ f. After (Safe sha256 src f) (Fine f hex) (install_free faults sha256 src dst hex d))
            same (install_free-After dst hex d ne e))
      | inr (t, e) ↦ rw e (
          After-bind K (Fine fs hex) (digest_of faults sha256 dst)
            (compare_digests faults sha256 again src dst hex) d
            (digest_of-After faults sha256 K _ dst d (rw same (Safe-refl sha256 src fs)) λ c at.
              compare_digests-After c (after d.files d) same (subst (λ f. f dst ≡ some c) same at)))
    ]

  other_dir : (p : FilePath) → src.parent ≢ p.parent → src ≢ p
  other_dir p h e = h (ap (λ q. q.parent) e)

  no_more-After :
      (fs : Files) (hex : Option String) (alternate : FilePath) (d : Disk)
      → d.files ≡ fs
      → After (Safe sha256 src fs) (Fine fs hex) (no_more faults sha256 alternate d)
  no_more-After fs hex alternate d same = rw same (Safe-refl sha256 src fs)

  second_name-After :
      (dst : FilePath) (hex : Option String) (fs : Files)
      → src.parent ≢ dst.parent
      → expected_hex hex ≡ hex
      → (alternate : FilePath) (d : Disk) → alternate.parent ≡ dst.parent
      → d.files ≡ fs
      → After (Safe sha256 src fs) (Fine fs hex) (second_name faults sha256 src dst hex alternate d)
  unfolding second_name
  second_name-After dst hex fs apart steady alternate d beside same =
      elim (Bool-cases (path_eq alternate dst)) [
        | inl e ↦ rw e (rw same (Safe-refl sha256 src fs))
        | inr e ↦
            rw (e, steady)
              (install_once-After alternate (other_dir alternate (λ k. apart (k ∙ beside))) hex fs
                (no_more faults sha256) (λ alternate d _. no_more-After fs hex alternate d) d same)
      ]

  -- Installing a file in another directory never loses or changes a file, whatever the disk does:
  -- whether it returns or raises, every file is as it was, but for the source, whose content some
  -- file then still holds, up to its digest. If it returns, the file is where it reports it, with
  -- the digest that it reports, which is that of what was at the source, if anything was, and the
  -- expected one unless it resumed a copy. The expected digest is none or empty, or what follows its
  -- last colon is not empty.
  pub install-Fine :
      (dst : FilePath) (expected : Option String) (on_collision : CollisionPolicy) (d : Disk)
      → src.parent ≢ dst.parent
      → expected_hex (expected_hex expected) ≡ expected_hex expected
      → After
          (Safe sha256 src d.files)
          (Fine d.files (expected_hex expected))
          (install faults sha256 src dst expected on_collision d)
  unfolding install
  install-Fine dst expected fail d apart steady =
      install_once-After dst (other_dir dst apart) (expected_hex expected) d.files
        (no_more faults sha256)
        (λ alternate d' _. no_more-After d.files (expected_hex expected) alternate d') d refl
  install-Fine dst expected suffix d apart steady =
      install_once-After dst (other_dir dst apart) (expected_hex expected) d.files
        (second_name faults sha256 src dst (expected_hex expected))
        (second_name-After dst (expected_hex expected) d.files apart steady) d refl
