-- ===== src/Completion/Safe.antt =====
-- Files that are neither changed nor lost: the relation between two states of the disk of
-- image_processor/completion/actions.py, step by step.
use Prim.Native.String.{String}
use image_processor.Base.{
  ◌≡◌, ◌≢◌, refl, ap, sym, ◌∙◌, ◌⊎◌, inl, inr, true, false, Option, none, some, arith, Bool-cases,
}
use image_processor.Types.{Bytes}
use image_processor.Completion.{FilePath, path_eq}
use image_processor.Completion.Disk.{Files, put}
use image_processor.Completion.Paths.{path_eq_iff}

pub put_same : (p : FilePath) (c : Option Bytes) (fs : Files) → put p c fs p ≡ c
put_same p c fs = ground (arith, path_eq_iff p p)

pub put_other : (p q : FilePath) (c : Option Bytes) (fs : Files) → p ≢ q → put p c fs q ≡ fs q
put_other p q c fs h = elim (Bool-cases (path_eq p q)) [
  | inl e ↦ absurd (h ((path_eq_iff p q).0 e))
  | inr e ↦ rw e refl
]

-- A path that has a file is not one that has none.
apart : (p q : FilePath) (b : Bytes) (fs : Files) → fs p ≡ none → fs q ≡ some b → p ≢ q
apart p q b fs h g e = let k : none ≡ some b = sym h ∙ ap fs e ∙ g in cc

module _ (sha256 : Bytes → String) (src : FilePath) where
  -- Somewhere a file has this content, up to its digest.
  abbrev pub Kept : Bytes → Files → Type 0
  Kept b fs = (q : FilePath) × (c : Bytes) × (fs q ≡ some c) × (sha256 c ≡ sha256 b)

  -- Every file is as it was, but for the source, whose content is kept elsewhere if not there.
  abbrev pub Safe : Files → Files → Type 0
  Safe fs fs' =
      (p : FilePath) (b : Bytes) → fs p ≡ some b → (fs' p ≡ some b) ⊎ ((p ≡ src) × Kept b fs')

  pub Safe-refl : (fs : Files) → Safe fs fs
  Safe-refl fs p b h = inl h

  Kept-Safe : (b : Bytes) (fs fs' : Files) → Safe fs fs' → Kept b fs → Kept b fs'
  Kept-Safe b fs fs' s (q, c, at, e) = elim (s q c at) [
    | inl h ↦ (q, c, h, e)
    | inr (same, (r, c', at', e')) ↦ (r, c', at', e' ∙ e)
  ]

  pub Safe-trans : (fs fs' fs'' : Files) → Safe fs fs' → Safe fs' fs'' → Safe fs fs''
  Safe-trans fs fs' fs'' s s' p b h = elim (s p b h) [
    | inl g ↦ s' p b g
    | inr (same, kept) ↦ inr (same, Kept-Safe b fs' fs'' s' kept)
  ]

  -- Writing where there was no file.
  pub put-Safe :
      (dst : FilePath) (c : Option Bytes) (fs : Files) → fs dst ≡ none → Safe fs (put dst c fs)
  put-Safe dst c fs free p b h = inl (put_other dst p c fs (apart dst p b fs free h) ∙ h)

  -- Taking back what was written there.
  pub undo-Safe :
      (dst : FilePath) (c : Option Bytes) (fs : Files)
      → fs dst ≡ none
      → Safe fs (put dst none (put dst c fs))
  undo-Safe dst c fs free p b h =
      let ne = apart dst p b fs free h in
      inl (put_other dst p none (put dst c fs) ne ∙ put_other dst p c fs ne ∙ h)

  -- Removing the source when another file has the same digest.
  pub drop-Safe :
      (q : FilePath) (b c : Bytes) (fs : Files)
      → src ≢ q
      → fs src ≡ some b
      → fs q ≡ some c
      → sha256 c ≡ sha256 b
      → Safe fs (put src none fs)
  drop-Safe q b c fs ne at at' e p d h = elim (Bool-cases (path_eq src p)) [
    | inr other ↦ inl (
        put_other src p none fs
          (λ k. let g : true ≡ false = sym ((path_eq_iff src p).1 k) ∙ other in cc)
        ∙ h)
    | inl same ↦
        let here = (path_eq_iff src p).0 same in
        let content : some b ≡ some d = sym at ∙ ap fs here ∙ h in
        inr (
          sym here,
          (q, c, put_other src q none fs ne ∙ at', e ∙ ap sha256 (let k : b ≡ d = cc in k)),
        )
  ]

  -- An atomic rename onto a free path.
  pub rename-Safe :
      (dst : FilePath) (b : Bytes) (fs : Files)
      → src ≢ dst
      → fs src ≡ some b
      → fs dst ≡ none
      → Safe fs (put dst (some b) (put src none fs))
  rename-Safe dst b fs ne at free p d h = elim (Bool-cases (path_eq src p)) [
    | inr other ↦
        let ne' : src ≢ p =
          λ k. let g : true ≡ false = sym ((path_eq_iff src p).1 k) ∙ other in cc in
        inl (
          put_other dst p (some b) (put src none fs) (apart dst p d fs free h)
          ∙ put_other src p none fs ne'
          ∙ h)
    | inl same ↦
        let here = (path_eq_iff src p).0 same in
        let content : some b ≡ some d = sym at ∙ ap fs here ∙ h in
        inr (
          sym here,
          (dst, b, put_same dst (some b) (put src none fs), ap sha256 (let k : b ≡ d = cc in k)),
        )
  ]
