-- ===== src/Examples/ResidencyRuns.antt =====
-- A device with two sessions, and the theorems about it. Natural numbers stand in for the floats.
use mathlib.Core.List.{Perm}
use image_processor.Base.{
  select, map, Sorted, ℕ, ◌+◌, ◌-◌, ◌*◌, ◌≡◌, refl, Bool, true, false, none, some, [], ◌∷◌, All,
  Sorted, ltb, ◌==◌, arith,
}
use image_processor.Types.{Text}
use image_processor.Table.{Table, find}
use image_processor.Residency.{FloatOps, ResidencyStats, ResidencyPolicy, footprint_mib}
use image_processor.Residency.Admission.{
  Reading, is_admitted, over_budget, decide_admission, answer, budget_mib, shortfall_mib,
  within_budget,
}
use image_processor.Residency.Eviction.{
  rank, may_go, freed_by, ranked, victims, goes_before, value_per_byte, value, evictable, is_young,
  contains, choose,
}
use image_processor.Base.{sort_by, insert_by}
use image_processor.Residency.Fitting.{
  Means, decided, decided-Means, changed, decided-needs_eviction, decided-over_budget,
}
use image_processor.Residency.Choice.{MayGo, Needed, Cut, digests, victims-Cut, Goes, ranked-Sorted}
use image_processor.Residency.Room.{freed, victims-admitted}
use image_processor.Residency.Probe.{StaticMemoryProbe}

abbrev pub ops : FloatOps ℕ
ops = record {
  of_nat = λ n. n;
  of_difference = λ a b. a - b;
  add = λ a b. a + b;
  sub = λ a b. a - b;
  mul = λ a b. a * b;
  div = λ a b. a;
  power = λ a n. a;
  ceil = λ a. a;
  truncate = λ a. a;
  lt = λ a b. ltb a b;
  is_zero = λ a. a == 0;
}

abbrev pub policy : ResidencyPolicy ℕ
policy = record {
  resident_memory_budget_percent = 1;
  reserve_mib = 10;
  min_residency_secs = 15;
  hot_ttl_secs = 120;
  activation_peak_factor = 1;
  colocated_allowance_mib = 0;
  queued_weight = 10;
  reuse_weight = 1;
  reload_weight = 2;
  priority_weight = 1;
  recency_weight = 5;
  pressure_growth = 2;
  measured = [];
  measured_ms = [];
  pressure = [];
}

abbrev stats : Text → ℕ → Bool → ResidencyStats ℕ
stats digest hits leased = record {
  digest = digest;
  size_mib = 40;
  estimate_mib = 30;
  load_ms = 100;
  queued_jobs = 0;
  priority = 100;
  last_used_ms = 5;
  loaded_at_ms = 0;
  hits = hits;
  leased = leased;
}

abbrev resident : Table (ResidencyStats ℕ)
resident = (1, stats 1 9 false) ∷ (2, stats 2 3 false) ∷ (3, stats 3 1 true) ∷ []

-- A full device.
abbrev reading : Reading
reading = record { free_mib = 20; total_mib = 150; resident_mib = 120; context_mib = 0 }

-- The leased session stays, and the one that was used least goes.
chosen : victims ops policy 100000 (some 30) resident [] ≡ 2 ∷ []
unfolding victims choose ranked goes_before value_per_byte value evictable is_young contains
    footprint_mib find sort_by insert_by
chosen = refl

decided-Means_example :
    Means ops policy 40 10 1 reading
      (decided ops policy 40 10 1 reading).reason
      (decided ops policy 40 10 1 reading)
decided-Means_example = decided-Means ops policy 40 10 1 reading

decided-needs_eviction_example :
    (decided ops policy 40 10 1 (changed ops policy 40 10 1 reading 60 80)).reason ≡ is_admitted
unfolding decide_admission within_budget answer shortfall_mib budget_mib
decided-needs_eviction_example =
    decided-needs_eviction ops policy 40 10 1 reading 60 80 refl (omega arith) (omega arith)

decided-over_budget_example :
    (decided ops policy 200 10 1 (changed ops policy 200 10 1 reading 150 0)).reason ≡ over_budget
unfolding decide_admission within_budget answer shortfall_mib budget_mib
decided-over_budget_example = decided-over_budget ops policy 200 10 1 reading 150 0 refl

victims-Cut_example :
    All (MayGo ops policy 100000 [] resident) (victims ops policy 100000 (some 30) resident [])
    × Needed resident 30 0 (victims ops policy 100000 (some 30) resident [])
    × Cut resident 30 0
        (digests (ranked ops policy 100000 [] resident))
        (victims ops policy 100000 (some 30) resident [])
unfolding find
victims-Cut_example =
    victims-Cut ops policy 100000 30 resident [] (omega arith) (refl, (refl, (refl, tt)))

ranked-Sorted_example :
    Sorted (Goes ops) (ranked ops policy 100000 [] resident)
    × Perm
        (ranked ops policy 100000 [] resident)
        (map (rank ops policy 100000) (select (may_go ops policy 100000 []) resident))
ranked-Sorted_example =
    ranked-Sorted ops policy 100000 (λ a b h. ground arith) (λ a b c h g. ground arith) [] resident

victims-admitted_example :
    (decided ops policy 40 10 1 (
      changed ops policy 40 10 1 reading
        (20 + freed ops policy 100000 40 10 1 reading resident [])
        (120 - freed ops policy 100000 40 10 1 reading resident []))).reason
    ≡ is_admitted
unfolding decide_admission within_budget answer shortfall_mib budget_mib freed_by ranked goes_before
    value_per_byte value evictable is_young contains footprint_mib find sort_by insert_by
victims-admitted_example =
    victims-admitted ops policy 100000 40 10 1 reading resident [] refl (refl, (refl, (refl, tt)))
      (omega arith)

abbrev probe : StaticMemoryProbe
probe = record { total_mib = 100; free_mib = 60; device_class = none }
