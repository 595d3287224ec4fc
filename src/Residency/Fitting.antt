-- ===== src/Residency/Fitting.antt =====
-- What an admission of image_processor/engine/residency.py means.
use image_processor.Base.{ℕ, ◌+◌, ◌-◌, ◌≤◌, ◌<◌, ◌≡◌, true, false, arith}
use image_processor.Residency.{FloatOps, ResidencyPolicy}
use image_processor.Residency.Admission.{
  Reason, is_admitted, needs_eviction, over_budget, no_device_accounting, Admission, Reading,
  budget_mib, answer, shortfall_mib, within_budget, decide_admission,
}

module _ {F : Type 0} (ops : FloatOps F) (p : ResidencyPolicy F) (required reserve : ℕ)
    (percent : F) where
  abbrev pub decided : Reading → Admission
  decided r = decide_admission ops p required reserve percent r

  -- The load fits the free memory, less the reserve and the allowance.
  abbrev pub FitsFree : Reading → Type 0
  FitsFree r = required + (reserve + p.colocated_allowance_mib) ≤ r.free_mib

  -- The load fits the budget beside what is resident.
  abbrev pub FitsBudget : Reading → Type 0
  FitsBudget r = r.resident_mib + required ≤ budget_mib ops p percent r

  -- What each answer means.
  abbrev pub Means : Reading → Reason → Admission → Type 0
  Means r no_device_accounting a = (a.admitted ≡ true) × (r.total_mib ≡ 0) × (r.free_mib ≡ 0)
  Means r is_admitted a = (a.admitted ≡ true) × FitsFree r × (0 < r.total_mib → FitsBudget r)
  Means r over_budget a =
      (a.admitted ≡ false) × (0 < r.total_mib) × (budget_mib ops p percent r < required)
  Means r needs_eviction a =
      (a.admitted ≡ false)
      × (0 < a.shortfall_mib)
      × (0 < r.total_mib → required ≤ budget_mib ops p percent r)

  -- What the answer of `admit` means: without device accounting the load is admitted; an admitted
  -- load fits the free memory less the reserve and the allowance and, where the total is known, the
  -- budget beside what is resident; one that is over budget is larger than the budget by itself; one
  -- that needs an eviction is refused with a shortfall above 0 and does not exceed the budget.
  pub decided-Means : (r : Reading) → Means r (decided r).reason (decided r)
  unfolding decide_admission within_budget answer shortfall_mib
  decided-Means r = ground arith

  -- The device once some memory was freed and some sessions are gone.
  abbrev pub changed : Reading → ℕ → ℕ → Reading
  changed r free resident = record r { free_mib = free; resident_mib = resident }

  -- A load that needs an eviction is admitted once the shortfall that it was told is free and gone
  -- from what is resident, or all of it.
  pub decided-needs_eviction :
      (r : Reading) (free resident : ℕ)
      → (decided r).reason ≡ needs_eviction
      → r.free_mib + (decided r).shortfall_mib ≤ free
      → resident ≤ r.resident_mib - (decided r).shortfall_mib
      → (decided (changed r free resident)).reason ≡ is_admitted
  unfolding decide_admission within_budget answer shortfall_mib budget_mib
  decided-needs_eviction r free resident h g k = ground arith

  -- A load that is over budget stays so, whatever is freed.
  pub decided-over_budget :
      (r : Reading) (free resident : ℕ)
      → (decided r).reason ≡ over_budget
      → (decided (changed r free resident)).reason ≡ over_budget
  unfolding decide_admission within_budget answer shortfall_mib budget_mib
  decided-over_budget r free resident h = ground arith
