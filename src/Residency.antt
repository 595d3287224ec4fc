-- ===== src/Residency.antt =====
-- image_processor/engine/residency.py: device-memory admission and eviction. Sizes are in MiB and
-- are not negative; a difference that the source raises to 0 is the subtraction on ℕ.
pub mod Admission
pub mod Eviction
pub mod Fitting
pub mod Choice
pub mod Probe
pub mod Room
use image_processor.Base.{
  ℕ, suc, ◌+◌, Bool, false, Option, none, some, max, if◌then◌else◌, ◌==◌, is_some,
}
use image_processor.Types.{Text}
use image_processor.Table.{Table, find, upsert, delete}

-- Python's floats, and their conversions from and to integers.
pub record FloatOps (F : Type 0) : Type 0 where
  pub of_nat : ℕ → F
  -- the float of a difference, which may be negative
  pub of_difference : ℕ → ℕ → F
  pub add : F → F → F
  pub sub : F → F → F
  pub mul : F → F → F
  pub div : F → F → F
  pub power : F → ℕ → F
  pub ceil : F → ℕ
  pub truncate : F → ℕ
  pub lt : F → F → Bool
  pub is_zero : F → Bool

pub record ResidencyStats (F : Type 0) : Type 0 where
  pub digest : Text
  pub size_mib : ℕ
  pub estimate_mib : ℕ
  pub load_ms : F
  pub queued_jobs : ℕ
  pub priority : ℕ
  pub last_used_ms : ℕ
  pub loaded_at_ms : ℕ
  pub hits : ℕ
  pub leased : Bool

-- `footprint_mib`
unfoldable pub footprint_mib : {F : Type 0} → ResidencyStats F → ℕ
footprint_mib stats = max stats.size_mib stats.estimate_mib

pub record ResidencyPolicy (F : Type 0) : Type 0 where
  pub resident_memory_budget_percent : F
  pub reserve_mib : ℕ
  pub min_residency_secs : F
  pub hot_ttl_secs : F
  pub activation_peak_factor : F
  pub colocated_allowance_mib : ℕ
  pub queued_weight : F
  pub reuse_weight : F
  pub reload_weight : F
  pub priority_weight : F
  pub recency_weight : F
  pub pressure_growth : F
  pub measured : Table ℕ
  pub measured_ms : Table F
  pub pressure : Table ℕ

-- `table.get(digest, default)`
abbrev pub get_or {ℓ} : {V : Type ℓ} → Text → V → Table V → V
get_or k default t = elim (find k t) [ none ↦ default | some v ↦ v ]

-- `table[digest] = v`
abbrev pub store {ℓ} : {V : Type ℓ} → Text → V → Table V → Table V
store k v t = upsert k v (λ _. v) t

module _ {F : Type 0} (ops : FloatOps F) where
  abbrev store_peak : Text → Option ℕ → Table ℕ → Table ℕ
  store_peak digest none t = t
  store_peak digest (some peak) t =
      if peak == 0 then t else store digest (max peak (get_or digest 0 t)) t

  abbrev store_ms : Text → Option F → Table F → Table F
  store_ms digest none t = t
  store_ms digest (some ms) t = if ops.is_zero ms then t else store digest ms t

  -- `record_load`
  unfoldable pub record_load : Text → Option ℕ → Option F → ResidencyPolicy F → ResidencyPolicy F
  unfolding find upsert
  record_load digest peak_mib load_ms p = record p {
    measured = store_peak digest peak_mib p.measured;
    measured_ms = store_ms digest load_ms p.measured_ms;
  }

  -- `record_memory_pressure`
  unfoldable pub record_memory_pressure : Text → ResidencyPolicy F → ResidencyPolicy F
  unfolding find upsert
  record_memory_pressure digest p = record p {
    pressure = store digest (suc (get_or digest 0 p.pressure)) p.pressure;
  }

  -- `forget`
  unfoldable pub forget : Text → ResidencyPolicy F → ResidencyPolicy F
  unfolding delete
  forget digest p = record p {
    measured = delete digest p.measured;
    measured_ms = delete digest p.measured_ms;
    pressure = delete digest p.pressure;
  }
