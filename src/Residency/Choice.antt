-- ===== src/Residency/Choice.antt =====
-- The choice of `victims` in image_processor/engine/residency.py.
use image_processor.Base.{
  ℕ, ◌+◌, ◌≤◌, ◌<◌, ◌≡◌, refl, ap, sym, ◌∙◌, ◌⊎◌, inl, inr, true, false, none, some, List, [], ◌∷◌,
  ◌++◌, map, leb, leb→le, ◌==◌, ==_refl, ==_iff, arith, All, All-map, All-select, All-sort_by,
  sort_by-IsOrdered, sort_by-perm, Bool-cases, Sorted, IsOrdered-Sorted, ◌||◌, ◌&&◌, ltb, select,
}
use mathlib.Core.List.{Perm}
use image_processor.Types.{Text}
use image_processor.Table.{Table, find, IsKeyed}
use image_processor.Residency.{FloatOps, ResidencyStats, ResidencyPolicy, footprint_mib}
use image_processor.Residency.Eviction.{
  Ranked, contains, freed_by, may_go, rank, evictable, is_young, goes_before, ranked, choose,
  victims,
}

-- A session that may be evicted: resident, without a lease, and not too young.
abbrev pub MayGo :
    {F : Type 0}
    → FloatOps F
    → ResidencyPolicy F
    → ℕ
    → List Text
    → Table (ResidencyStats F)
    → Text
    → Type 0
MayGo {F} ops p now leased resident d =
    (stats : ResidencyStats F) × (find d resident ≡ some stats)
    × (stats.leased ≡ false)
    × (contains stats.digest leased ≡ false)
    × (is_young ops p now stats ≡ false)

-- Every row is the one that its key finds.
rows-found : {V : Type 0} (t : Table V) → IsKeyed t → All (λ row. find row.0 t ≡ some row.1) t
unfolding find
rows-found [] k = tt
rows-found ((j, v) ∷ t) k = (
  rw (==_refl j) refl,
  All-map _ _ t
      (λ row h. elim (Bool-cases (j == row.0)) [
        | inr e ↦ rw e h
        | inl e ↦
            let same : j ≡ row.0 = (==_iff j row.0).0 e in
            let g : none ≡ some row.1 = sym k.0 ∙ ap (λ x. find x t) same ∙ h in cc
      ])
      (rows-found t k.1),
)

All-mapped :
    {A B : Type 0} (P : B → Type 0) (f : A → B) (xs : List A)
    → All (λ x. P (f x)) xs
    → All P (map f xs)
All-mapped P f [] h = tt
All-mapped P f (x ∷ xs) h = (h.0, All-mapped P f xs h.1)

-- The digests in the order of the ranking.
abbrev pub digests : {F : Type 0} → List (Ranked F) → List Text
digests rs = map (λ r. r.digest) rs

module _ {F : Type 0} (ops : FloatOps F) (p : ResidencyPolicy F) (now : ℕ) where
  evictable-MayGo :
      (leased : List Text) (resident : Table (ResidencyStats F)) (d : Text)
      (stats : ResidencyStats F)
      → find d resident ≡ some stats
      → evictable ops p now leased stats ≡ true
      → MayGo ops p now leased resident d
  unfolding evictable
  evictable-MayGo leased resident d stats found h =
      (stats, found, ground arith, ground arith, ground arith)

  ranked-All :
      (leased : List Text) (resident : Table (ResidencyStats F))
      → IsKeyed resident
      → All (λ r. MayGo ops p now leased resident r.digest) (ranked ops p now leased resident)
  unfolding ranked
  ranked-All leased resident k = All-sort_by (goes_before ops p now) _ _ (
      All-mapped _ (rank ops p now) _ (
        All-map _ _ _ (λ row h. evictable-MayGo leased resident row.0 row.1 h.1 h.0)
          (All-select _ (may_go ops p now leased) resident (rows-found resident k))))

-- The memory that evicting one session returns.
abbrev footprint_at : {F : Type 0} → Table (ResidencyStats F) → Text → ℕ
footprint_at resident d = elim (find d resident) [ none ↦ 0 | some stats ↦ footprint_mib stats ]

-- Each session was chosen while something was still missing.
abbrev pub Needed : {F : Type 0} → Table (ResidencyStats F) → ℕ → ℕ → List Text → Type 0
Needed resident need freed [] = Unit
Needed resident need freed (d ∷ ds) =
    (freed < need) × Needed resident need (freed + footprint_at resident d) ds

-- The chosen come first in the ranking, and enough is freed, or none is left.
abbrev pub Cut : {F : Type 0} → Table (ResidencyStats F) → ℕ → ℕ → List Text → List Text → Type 0
Cut resident need freed all chosen =
    (rest : List Text) × (all ≡ chosen ++ rest)
    × ((rest ≡ []) ⊎ (need ≤ freed + freed_by resident chosen))

module _ {F : Type 0} (ops : FloatOps F) (p : ResidencyPolicy F) (now : ℕ)
    (resident : Table (ResidencyStats F)) (need : ℕ) where
  choose-Needed :
      (freed : ℕ) (rs : List (Ranked F))
      → Needed resident need freed (choose ops p now resident need freed rs)
  unfolding choose
  choose-Needed freed [] = tt
  choose-Needed freed (r ∷ rs) = elim (Bool-cases (leb need freed)) [
    | inl e ↦ rw e tt
    | inr e ↦ rw e (ground arith, choose-Needed (freed + footprint_at resident r.digest) rs)
  ]

  choose-Cut :
      (freed : ℕ) (rs : List (Ranked F))
      → Cut resident need freed (digests rs) (choose ops p now resident need freed rs)
  unfolding choose freed_by
  choose-Cut freed [] = ([], refl, inl refl)
  choose-Cut freed (r ∷ rs) = elim (Bool-cases (leb need freed)) [
    | inl e ↦ rw e (digests (r ∷ rs), refl, inr (omega (arith, leb→le need freed e)))
    | inr e ↦
        let (rest, same, enough) = choose-Cut (freed + footprint_at resident r.digest) rs in
        rw e (
          rest,
          ap (λ ds. r.digest ∷ ds) same,
          elim enough [ inl h ↦ inl h | inr h ↦ inr (omega (arith, h)) ],
        )
  ]

  choose-All :
      (P : Text → Type 0) (freed : ℕ) (rs : List (Ranked F))
      → All (λ r. P r.digest) rs
      → All P (choose ops p now resident need freed rs)
  unfolding choose
  choose-All P freed [] h = tt
  choose-All P freed (r ∷ rs) h = elim (Bool-cases (leb need freed)) [
    | inl e ↦ rw e tt
    | inr e ↦ rw e (h.0, choose-All P (freed + footprint_at resident r.digest) rs h.1)
  ]

-- Where a session stands before another: its density is lower; or neither is lower, and it was used
-- earlier, or at the same time with the smaller digest.
abbrev pub Goes : {F : Type 0} → FloatOps F → Ranked F → Ranked F → Type 0
Goes ops a b =
    (ops.lt a.density b.density ≡ true)
    ⊎ (ops.lt a.density b.density ≡ false)
      × (ops.lt b.density a.density ≡ false)
      × ((a.last_used_ms < b.last_used_ms)
          ⊎ (a.last_used_ms ≡ b.last_used_ms) × (a.digest ≤ b.digest))

by_use : (m n i j : ℕ) → ltb m n || m == n && leb i j ≡ true → (m < n) ⊎ (m ≡ n) × (i ≤ j)
by_use m n i j h = elim (Bool-cases (ltb m n)) [
  | inl e ↦ inl (ground arith)
  | inr e ↦ inr (ground arith)
]

module _ {F : Type 0} (ops : FloatOps F) (p : ResidencyPolicy F) (now : ℕ) where
  -- The victims are the first of the ranked sessions, as few as free what is needed: each was chosen
  -- while something was still missing, and either enough is freed or every session that may go was
  -- chosen. Each is resident, has no lease, and is not younger than the minimum residency. The
  -- resident sessions have distinct digests, and something is needed.
  pub victims-Cut :
      (need : ℕ) (resident : Table (ResidencyStats F)) (leased : List Text)
      → 0 < need
      → IsKeyed resident
      → All (MayGo ops p now leased resident) (victims ops p now (some need) resident leased)
        × Needed resident need 0 (victims ops p now (some need) resident leased)
        × Cut resident need 0
            (digests (ranked ops p now leased resident))
            (victims ops p now (some need) resident leased)
  unfolding victims
  victims-Cut need resident leased h k = elim (Bool-cases (need == 0)) [
    | inl e ↦ absurd (omega (arith, h, (==_iff need 0).0 e))
    | inr e ↦
        let rs = ranked ops p now leased resident in
        rw e (
          choose-All ops p now resident need (MayGo ops p now leased resident) 0 rs
              (ranked-All ops p now leased resident k),
          choose-Needed ops p now resident need 0 rs,
          choose-Cut ops p now resident need 0 rs,
        )
  ]

  module _ (asym : (a b : F) → ops.lt a b ≡ true → ops.lt b a ≡ false)
      (cut : (a b c : F) → ops.lt a b ≡ false → ops.lt b c ≡ false → ops.lt a c ≡ false) where
    goes_before_total :
        (a b : Ranked F) → goes_before ops p now a b ≡ false → goes_before ops p now b a ≡ true
    unfolding goes_before
    goes_before_total a b h = ground (arith, asym a.density b.density)

    goes_before_trans :
        (a b c : Ranked F)
        → goes_before ops p now a b ≡ true
        → goes_before ops p now b c ≡ true
        → goes_before ops p now a c ≡ true
    unfolding goes_before
    goes_before_trans a b c h g = ground (
      arith,
      asym a.density b.density,
      asym b.density c.density,
      asym a.density c.density,
      cut a.density b.density c.density,
      cut c.density b.density a.density,
      cut b.density a.density c.density,
      cut c.density a.density b.density,
      cut a.density c.density b.density,
      cut b.density c.density a.density,
    )

    goes_before-Goes : (a b : Ranked F) → goes_before ops p now a b ≡ true → Goes ops a b
    unfolding goes_before
    goes_before-Goes a b h = elim (Bool-cases (ops.lt a.density b.density)) [
      | inl e ↦ inl e
      | inr e ↦ elim (Bool-cases (ops.lt b.density a.density)) [
        | inl g ↦ absurd (ground arith)
        | inr g ↦ inr (e, g, by_use a.last_used_ms b.last_used_ms a.digest b.digest (ground arith))
      ]
    ]

    -- The sessions that may go are ranked, each once: the one with the lower value density first,
    -- and of two whose densities are alike the one that was used earlier, then the one with the
    -- smaller digest. Comparing floats is asymmetric and its negation transitive, as it is without
    -- NaN.
    pub ranked-Sorted :
        (leased : List Text) (resident : Table (ResidencyStats F))
        → Sorted (Goes ops) (ranked ops p now leased resident)
          × Perm
              (ranked ops p now leased resident)
              (map (rank ops p now) (select (may_go ops p now leased) resident))
    unfolding ranked
    ranked-Sorted leased resident = (
      IsOrdered-Sorted (goes_before ops p now) (Goes ops) _ goes_before-Goes
          (sort_by-IsOrdered (goes_before ops p now) goes_before_total goes_before_trans _),
      sort_by-perm (goes_before ops p now) _,
    )
