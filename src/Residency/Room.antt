-- ===== src/Residency/Room.antt =====
-- `admit` and `victims` of image_processor/engine/residency.py together: what an eviction makes room
-- for.
use image_processor.Base.{
  ℕ, ◌+◌, ◌-◌, ◌≤◌, ◌≡◌, ap, ◌∙◌, subst, inl, inr, some, List, ◌++◌, arith, append_nil,
}
use image_processor.Types.{Text}
use image_processor.Table.{Table, IsKeyed}
use image_processor.Residency.{FloatOps, ResidencyStats, ResidencyPolicy}
use image_processor.Residency.Admission.{is_admitted, needs_eviction, Reading}
use image_processor.Residency.Eviction.{freed_by, ranked, victims}
use image_processor.Residency.Fitting.{
  decided, Means, changed, decided-Means, decided-needs_eviction,
}
use image_processor.Residency.Choice.{digests, Cut, victims-Cut}

Cut-freed :
    {F : Type 0} (resident : Table (ResidencyStats F)) (need : ℕ) (all chosen : List Text)
    → Cut resident need 0 all chosen
    → need ≤ freed_by resident all
    → need ≤ freed_by resident chosen
Cut-freed resident need all chosen (rest, same, inr enough) h = omega (arith, enough)
Cut-freed resident need all chosen (rest, same, inl none_left) h =
    subst (λ ds. need ≤ freed_by resident ds)
      (same ∙ ap (λ r. chosen ++ r) none_left ∙ append_nil chosen) h

module _ {F : Type 0} (ops : FloatOps F) (p : ResidencyPolicy F) (now required reserve : ℕ)
    (percent : F) (r : Reading) (resident : Table (ResidencyStats F)) (leased : List Text) where
  -- What an eviction for the shortfall of `r` frees.
  abbrev pub freed : ℕ
  freed = freed_by resident (
      victims ops p now (some (decided ops p required reserve percent r).shortfall_mib) resident
        leased)

  -- Evicting the victims for the shortfall of a refused load makes room for it: when the sessions
  -- that may go hold at least the shortfall, the load is admitted once what the victims held is free
  -- and gone from what is resident.
  pub victims-admitted :
      (decided ops p required reserve percent r).reason ≡ needs_eviction
      → IsKeyed resident
      → (decided ops p required reserve percent r).shortfall_mib
        ≤ freed_by resident (digests (ranked ops p now leased resident))
      → (decided ops p required reserve percent (
          changed ops p required reserve percent r
            (r.free_mib + freed)
            (r.resident_mib - freed))).reason
        ≡ is_admitted
  victims-admitted h k enough =
      let a = decided ops p required reserve percent r in
      let m =
        subst (λ x. Means ops p required reserve percent r x a) h
          (decided-Means ops p required reserve percent r) in
      let cut = victims-Cut ops p now a.shortfall_mib resident leased m.1 k in
      let held : a.shortfall_mib ≤ freed = Cut-freed resident a.shortfall_mib _ _ cut.2 enough in
      decided-needs_eviction ops p required reserve percent r (r.free_mib + freed)
        (r.resident_mib - freed) h (omega (arith, held)) (omega (arith, held))
