-- ===== src/Scheduler/Lanes.antt =====
-- `_ranked_lanes` of image_processor/engine/scheduler.py. Which digests are resident on the cell, and
-- which ages reach `hotTtlSecs`, are parameters.
use image_processor.Base.{
  ℕ, ◌-◌, ◌*◌, ◌≤◌, ◌<◌, ◌≡◌, refl, ◌↔◌, ◌⊎◌, inl, inr, Bool-cases, Sorted, IsOrdered-Sorted, Bool,
  true, false, not, ◌&&◌, ◌||◌, List, [], ◌∷◌, sort_by, sort_by-IsOrdered, sort_by-perm, select,
  max, leb, ltb, ◌==◌, arith, if◌then◌else◌,
}
use mathlib.Core.List.{Perm}
use image_processor.Types.{Text}
use image_processor.Table.{Table}
use image_processor.Scheduler.{Queued, Lane}

-- `priority`, the highest among the queued jobs
unfoldable pub priority_in : List Queued → ℕ
priority_in [] = 0
priority_in (entry ∷ entries) = max entry.priority (priority_in entries)

-- `oldest_ms`
unfoldable pub oldest_ms : ℕ → List Queued → ℕ
oldest_ms now [] = 0
oldest_ms now (entry ∷ entries) = now - entry.first_seen_ms

abbrev pub has_jobs : Text × Lane → Bool
has_jobs (_, lane) = elim lane.jobs [ [] ↦ false | ◌∷◌ _ _ ↦ true ]

module _ (now : ℕ) (is_resident : Text → Bool) (is_starving : ℕ → Bool) where
  -- Whether a lane is in the first tier.
  unfoldable pub is_first : Text × Lane → Bool
  unfolding oldest_ms
  is_first (digest, lane) = is_resident digest || is_starving (oldest_ms now lane.jobs)

  -- The age of a lane, weighted by its priority.
  unfoldable pub weight : Text × Lane → ℕ
  unfolding oldest_ms priority_in
  weight (_, lane) = oldest_ms now lane.jobs * max (priority_in lane.jobs) 1

  -- `key(a) <= key(b)` of the sort
  unfoldable pub ranks_before : Text × Lane → Text × Lane → Bool
  unfolding is_first weight
  ranks_before a b =
      if is_first a && not (is_first b)
      then true
      else (if not (is_first a) && is_first b
          then false
          else ltb (weight b) (weight a) || weight a == weight b && leb a.0 b.0)

  -- `_ranked_lanes`
  unfoldable pub ranked_lanes : Table Lane → List (Text × Lane)
  unfolding ranks_before
  ranked_lanes lanes = sort_by ranks_before (select has_jobs lanes)

  ranks_before_total : (a b : Text × Lane) → ranks_before a b ≡ false → ranks_before b a ≡ true
  unfolding ranks_before
  ranks_before_total a b h = ground arith

  ranks_before_trans :
      (a b c : Text × Lane)
      → ranks_before a b ≡ true
      → ranks_before b c ≡ true
      → ranks_before a c ≡ true
  unfolding ranks_before
  ranks_before_trans a b c h g = ground arith

  -- A lane whose digest is resident, or which has waited long enough.
  abbrev pub Front : Text × Lane → Type 0
  Front (digest, lane) =
      (is_resident digest ≡ true) ⊎ (is_starving (oldest_ms now lane.jobs) ≡ true)

  -- The age of a lane times its priority.
  abbrev pub claim_of : Text × Lane → ℕ
  claim_of (_, lane) = oldest_ms now lane.jobs * max (priority_in lane.jobs) 1

  -- Where a lane stands before another: the one is in front and the other is not; or both are or
  -- neither, and it has the larger claim, or the same and the smaller digest.
  abbrev pub Ranks : Text × Lane → Text × Lane → Type 0
  Ranks a b =
      (Front a × ¬ Front b)
      ⊎ (Front a ↔ Front b) × ((claim_of b < claim_of a) ⊎ (claim_of a ≡ claim_of b) × (a.0 ≤ b.0))

  is_first-Front : (a : Text × Lane) → (is_first a ≡ true) ↔ Front a
  unfolding is_first
  is_first-Front (digest, lane) = go (is_resident digest) (is_starving (oldest_ms now lane.jobs))
    where
      go : (b c : Bool) → (b || c ≡ true) ↔ (b ≡ true) ⊎ (c ≡ true)
      go true c = ((λ h. inl refl), (λ h. refl))
      go false c = ((λ h. inr h), elim [ inl h ↦ cc | inr h ↦ h ])

  by_claim :
      (a b : Text × Lane)
      → ltb (weight b) (weight a) || weight a == weight b && leb a.0 b.0 ≡ true
      → (claim_of b < claim_of a) ⊎ (claim_of a ≡ claim_of b) × (a.0 ≤ b.0)
  unfolding weight
  by_claim a b h = go (claim_of a) (claim_of b) a.0 b.0 h
    where
      go : (m n i j : ℕ) → ltb n m || m == n && leb i j ≡ true → (n < m) ⊎ (m ≡ n) × (i ≤ j)
      go m n i j h = elim (Bool-cases (ltb n m)) [
        | inl e ↦ inl (ground arith)
        | inr e ↦ inr (ground arith)
      ]

  ranks_before-Ranks : (a b : Text × Lane) → ranks_before a b ≡ true → Ranks a b
  unfolding ranks_before
  ranks_before-Ranks a b h = elim (Bool-cases (is_first a)) [
    | inl e ↦ elim (Bool-cases (is_first b)) [
      | inl g ↦ inr (
        ((λ _. (is_first-Front b).0 g), (λ _. (is_first-Front a).0 e)),
        by_claim a b (ground arith),
      )
      | inr g ↦ inl ((is_first-Front a).0 e, λ k. let t = (is_first-Front b).1 k in cc)
    ]
    | inr e ↦ elim (Bool-cases (is_first b)) [
      | inl g ↦ absurd (ground arith)
      | inr g ↦ inr (
        (
          (λ k. let t = (is_first-Front a).1 k in absurd cc),
          (λ k. let t = (is_first-Front b).1 k in absurd cc),
        ),
        by_claim a b (ground arith),
      )
    ]
  ]

  -- The lanes with work are ranked, each as often as it stands among them. Those whose digest is
  -- resident or which are starving come first, and among those alike in that the one with the
  -- larger product of age and priority, then the one with the smaller digest.
  pub ranked_lanes-Sorted :
      (lanes : Table Lane)
      → Sorted Ranks (ranked_lanes lanes) × Perm (ranked_lanes lanes) (select has_jobs lanes)
  unfolding ranked_lanes
  ranked_lanes-Sorted lanes = (
    IsOrdered-Sorted ranks_before Ranks _ ranks_before-Ranks (
        sort_by-IsOrdered ranks_before ranks_before_total ranks_before_trans
          (select has_jobs lanes)),
    sort_by-perm ranks_before (select has_jobs lanes),
  )
