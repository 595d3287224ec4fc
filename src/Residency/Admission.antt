-- ===== src/Residency/Admission.antt =====
-- `required_mib` and `admit` of image_processor/engine/residency.py.
use image_processor.Base.{
  ℕ, ◌+◌, ◌-◌, Bool, true, false, ◌&&◌, Option, none, some, max, ltb, ◌==◌, if◌then◌else◌,
}
use image_processor.Types.{Text}
use image_processor.Table.{find}
use image_processor.Residency.{FloatOps, ResidencyPolicy, get_or}

pub data Reason : Type 0 where
  is_admitted needs_eviction over_budget no_device_accounting : Reason

pub record Admission : Type 0 where
  pub admitted : Bool
  pub required_mib : ℕ
  pub shortfall_mib : ℕ
  pub reason : Reason

-- `int(x or 0)`
abbrev pub or_zero : Option ℕ → ℕ
or_zero none = 0
or_zero (some n) = n

-- What `admit` reads of a device.
pub record Reading : Type 0 where
  pub free_mib : ℕ
  pub total_mib : ℕ
  pub resident_mib : ℕ
  pub context_mib : ℕ

module _ {F : Type 0} (ops : FloatOps F) (p : ResidencyPolicy F) where
  -- The growth by recorded failures.
  abbrev inflated : F → ℕ → F
  inflated x pressure =
      if pressure == 0 then x else ops.mul x (ops.power p.pressure_growth pressure)

  -- `required_mib`
  unfoldable pub required_mib : Text → Option ℕ → ℕ
  unfolding find
  required_mib digest estimate_mib =
      let base = max (or_zero estimate_mib) (get_or digest 0 p.measured) in
      ops.ceil
        (inflated (ops.mul (ops.of_nat base) p.activation_peak_factor) (get_or digest 0 p.pressure))

  -- `max(int(total * percent / 100.0) - int(context_mib or 0), 0)`
  unfoldable pub budget_mib : F → Reading → ℕ
  budget_mib percent r =
      ops.truncate (ops.div (ops.mul (ops.of_nat r.total_mib) percent) (ops.of_nat 100))
      - r.context_mib

  -- The end of `admit`.
  unfoldable pub answer : ℕ → ℕ → Admission
  answer required shortfall =
      if ltb 0 shortfall
      then record {
        admitted = false;
        required_mib = required;
        shortfall_mib = shortfall;
        reason = needs_eviction;
      }
      else record {
        admitted = true;
        required_mib = required;
        shortfall_mib = 0;
        reason = is_admitted;
      }

  -- `max(required - headroom, 0)`, where the headroom may be negative
  unfoldable pub shortfall_mib : ℕ → ℕ → Reading → ℕ
  shortfall_mib required reserve r = (required + (reserve + p.colocated_allowance_mib)) - r.free_mib

  -- The part of `admit` under a device total.
  unfoldable pub within_budget : ℕ → ℕ → ℕ → Reading → Admission
  unfolding answer
  within_budget required shortfall budget r =
      if ltb budget required
      then record {
        admitted = false;
        required_mib = required;
        shortfall_mib = required - budget;
        reason = over_budget;
      }
      else answer required (max shortfall ((r.resident_mib + required) - budget))

  -- `admit`, once the defaults are filled in
  unfoldable pub decide_admission : ℕ → ℕ → F → Reading → Admission
  unfolding shortfall_mib within_budget answer budget_mib
  decide_admission required reserve percent r =
      if r.total_mib == 0 && r.free_mib == 0
      then record {
        admitted = true;
        required_mib = required;
        shortfall_mib = 0;
        reason = no_device_accounting;
      }
      else (if ltb 0 r.total_mib
          then within_budget required (shortfall_mib required reserve r) (budget_mib percent r) r
          else answer required (shortfall_mib required reserve r))

  abbrev or_default {ℓ} : {A : Type ℓ} → Option A → A → A
  or_default none a = a
  or_default (some b) a = b

  -- `admit`
  unfoldable pub admit : Text → Option ℕ → Option ℕ → Option F → Reading → Admission
  unfolding required_mib decide_admission
  admit digest estimate_mib reserve budget_pct r =
      decide_admission (required_mib digest estimate_mib) (or_default reserve p.reserve_mib)
        (or_default budget_pct p.resident_memory_budget_percent) r
