-- ===== src/Residency/Eviction.antt =====
-- `value`, `evictable` and `victims` of image_processor/engine/residency.py, at a reading of the clock.
use image_processor.Base.{
  ℕ, ◌+◌, ◌-◌, Bool, true, false, not, ◌&&◌, ◌||◌, Option, none, some, List, [], ◌∷◌, map, select,
  sort_by, max, leb, ltb, ◌==◌, if◌then◌else◌,
}
use image_processor.Types.{Text}
use image_processor.Table.{Table, find}
use image_processor.Residency.{FloatOps, ResidencyStats, ResidencyPolicy, footprint_mib, get_or}

-- `digest in locked`
unfoldable pub contains : Text → List Text → Bool
contains k [] = false
contains k (j ∷ js) = j == k || contains k js

-- One entry of `ranked`.
pub record Ranked (F : Type 0) : Type 0 where
  pub density : F
  pub last_used_ms : ℕ
  pub digest : Text

-- The bytes that evicting some digests returns.
unfoldable pub freed_by : {F : Type 0} → Table (ResidencyStats F) → List Text → ℕ
freed_by resident [] = 0
freed_by resident (d ∷ ds) =
    elim (find d resident) [ none ↦ 0 | some stats ↦ footprint_mib stats ] + freed_by resident ds

module _ {F : Type 0} (ops : FloatOps F) (p : ResidencyPolicy F) (now : ℕ) where
  abbrev seconds : F → F
  seconds ms = ops.div ms (ops.of_nat 1000)

  -- `max(0.0, x)`
  abbrev at_least_zero : F → F
  at_least_zero x = if ops.lt (ops.of_nat 0) x then x else ops.of_nat 0

  abbrev recency : ResidencyStats F → F
  recency stats =
      if ops.lt (ops.of_nat 0) p.hot_ttl_secs
      then at_least_zero (
          ops.sub (ops.of_nat 1)
            (ops.div (seconds (ops.of_nat (now - stats.last_used_ms))) p.hot_ttl_secs))
      else ops.of_nat 0

  -- `stats.load_ms or self._load_ms.get(stats.digest, 0.0)`
  abbrev reload_ms : ResidencyStats F → F
  reload_ms stats =
      if ops.is_zero stats.load_ms
      then get_or stats.digest (ops.of_nat 0) p.measured_ms
      else stats.load_ms

  -- `value`
  unfoldable pub value : ResidencyStats F → F
  unfolding find
  value stats =
      ops.add
        (ops.add
          (ops.add
            (ops.add (ops.mul p.queued_weight (ops.of_nat stats.queued_jobs))
              (ops.mul p.reuse_weight (ops.of_nat stats.hits)))
            (ops.mul p.reload_weight (seconds (reload_ms stats))))
          (ops.mul p.priority_weight (ops.div (ops.of_nat stats.priority) (ops.of_nat 100))))
        (ops.mul p.recency_weight (recency stats))

  -- `value_per_byte`
  unfoldable pub value_per_byte : ResidencyStats F → F
  unfolding value footprint_mib
  value_per_byte stats = ops.div (value stats) (ops.of_nat (max (footprint_mib stats) 1))

  -- Whether a session is younger than `minResidencySecs`.
  unfoldable pub is_young : ResidencyStats F → Bool
  is_young stats =
      ops.lt (ops.of_nat 0) p.min_residency_secs
      && ops.lt (seconds (ops.of_difference now stats.loaded_at_ms)) p.min_residency_secs

  -- `evictable`
  unfoldable pub evictable : List Text → ResidencyStats F → Bool
  unfolding contains is_young
  evictable leased stats =
      if stats.leased || contains stats.digest leased then false else not (is_young stats)

  abbrev pub may_go : List Text → Text × ResidencyStats F → Bool
  may_go leased (_, stats) = evictable leased stats

  abbrev pub rank : Text × ResidencyStats F → Ranked F
  rank (digest, stats) = record {
    density = value_per_byte stats;
    last_used_ms = stats.last_used_ms;
    digest = digest;
  }

  -- `a <= b` of the tuples that are sorted
  unfoldable pub goes_before : Ranked F → Ranked F → Bool
  goes_before a b =
      if ops.lt a.density b.density
      then true
      else (if ops.lt b.density a.density
          then false
          else ltb a.last_used_ms b.last_used_ms
            || a.last_used_ms == b.last_used_ms && leb a.digest b.digest)

  -- `ranked`, sorted
  unfoldable pub ranked : List Text → Table (ResidencyStats F) → List (Ranked F)
  unfolding evictable value_per_byte goes_before
  ranked leased resident = sort_by goes_before (map rank (select (may_go leased) resident))

  -- The loop of `victims` over the ranked sessions.
  unfoldable pub choose : Table (ResidencyStats F) → ℕ → ℕ → List (Ranked F) → List Text
  unfolding find footprint_mib
  choose resident need freed [] = []
  choose resident need freed (r ∷ rs) =
      let rest =
        choose resident need
          (freed + elim (find r.digest resident) [ none ↦ 0 | some stats ↦ footprint_mib stats ])
          rs in
      if leb need freed then [] else r.digest ∷ rest

  -- `victims`
  unfoldable pub victims : Option ℕ → Table (ResidencyStats F) → List Text → List Text
  unfolding choose ranked
  victims none resident leased = []
  victims (some need) resident leased =
      if need == 0 then [] else choose resident need 0 (ranked leased resident)
