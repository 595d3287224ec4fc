-- ===== src/Scheduler/Cells/Held.antt =====
-- What holds after a step of image_processor/engine/scheduler.py, and what a cell holds.
use image_processor.Base.{
  ◌≡◌, refl, ◌∙◌, Bool, true, false, some, [], if◌then◌else◌, is_some, ==_refl, arith,
}
use image_processor.Types.{Text}
use image_processor.Table.{Table, find, update}
use image_processor.Table.Laws.{find-upsert, find-update}
use image_processor.Ledger.Store.{Result, ok, err}
use image_processor.Residency.{ResidencyStats, get_or, store}
use image_processor.Scheduler.Cells.{Cell, Pass, Step, ◌>>=◌, resident_for}
use image_processor.Scheduler.Cells.Loading.{Residence, resident}

-- What holds of a step that returns.
abbrev pub After : {F A : Type 0} → (A → Pass F → Type 0) → Result A × Pass F → Type 0
After Q (ok a, p) = Q a p
After Q (err e, p) = Unit

module _ {F : Type 0} where
  pub After-bind :
      {A B : Type 0} (P : A → Pass F → Type 0) (Q : B → Pass F → Type 0) (m : Step F A)
      (f : A → Step F B) (p : Pass F)
      → After P (m p)
      → ((a : A) (p' : Pass F) → P a p' → After Q (f a p'))
      → After Q ((m >>= f) p)
  After-bind {A} {B} P Q m f p h g = go (m p) h
    where
      go :
          (r : Result A × Pass F)
          → After P r
          → After Q (elim r.0 as (λ _. Result B × Pass F) [ ok a ↦ f a r.1 | err e ↦ (err e, r.1) ])
      go (ok a, p') k = g a p' k
      go (err e, p') k = tt

  -- Whatever came before.
  pub After-any :
      {A B : Type 0} (Q : B → Pass F → Type 0) (m : Step F A) (f : A → Step F B) (p : Pass F)
      → ((a : A) (p' : Pass F) → After Q (f a p'))
      → After Q ((m >>= f) p)
  After-any {A} {B} Q m f p g = go (m p)
    where
      go :
          (r : Result A × Pass F)
          → After Q (elim r.0 as (λ _. Result B × Pass F) [ ok a ↦ f a r.1 | err e ↦ (err e, r.1) ])
      go (ok a, p') = g a p'
      go (err e, p') = tt

  pub After-if :
      {A : Type 0} (Q : A → Pass F → Type 0) (b : Bool) (m k : Step F A) (p : Pass F)
      → After Q (m p)
      → After Q (k p)
      → After Q ((if b then m else k) p)
  After-if Q true m k p h g = h
  After-if Q false m k p h g = g

  -- The cell has a session for the digest, as far as the scheduler knows.
  abbrev pub IsHeld : Cell → Text → Pass F → Type 0
  IsHeld cell digest p = is_some (find digest (resident_for cell p)) ≡ true

  abbrev pub Resides : Cell → Text → Residence → Pass F → Type 0
  Resides cell digest resident p = IsHeld cell digest p
  Resides cell digest _ p = Unit

  pub get_or-store :
      (k : Text) (records : Table (ResidencyStats F)) (t : Table (Table (ResidencyStats F)))
      → get_or k [] (store k records t) ≡ records
  get_or-store k records t =
      let same : find k (store k records t) ≡ some records =
        find-upsert k k records t ∙ rw (==_refl k) refl in
      rw (same, get_or) refl

  pub is_some-store :
      (digest : Text) (stats : ResidencyStats F) (t : Table (ResidencyStats F))
      → is_some (find digest (store digest stats t)) ≡ true
  is_some-store digest stats t =
      let same : find digest (store digest stats t) ≡ some stats =
        find-upsert digest digest stats t ∙ rw (==_refl digest) refl in
      rw same refl

  pub is_some-update :
      (digest : Text) (f : ResidencyStats F → ResidencyStats F) (t : Table (ResidencyStats F))
      → is_some (find digest t) ≡ true
      → is_some (find digest (update digest f t)) ≡ true
  is_some-update digest f t h = rw (find-update digest digest f t) (ground (arith, h))
