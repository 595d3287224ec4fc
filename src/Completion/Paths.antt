-- ===== src/Completion/Paths.antt =====
-- Equality of the paths of image_processor/completion/actions.py, and lookups after a write.
use Prim.Native.String.{String}
use package.text.Mathlib.TextEquality.{eq_iff}
use image_processor.Base.{◌≡◌, refl, ◌↔◌, true, List, [], ◌∷◌, arith}
use image_processor.Completion.{FilePath, dir_eq, path_eq}

dir_eq_iff : (as' bs : List String) → (dir_eq as' bs ≡ true) ↔ (as' ≡ bs)
unfolding dir_eq
dir_eq_iff [] [] = ((λ h. refl), (λ h. refl))
dir_eq_iff [] (b ∷ bs) = ((λ h. cc), (λ h. cc))
dir_eq_iff (a ∷ as') [] = ((λ h. cc), (λ h. cc))
dir_eq_iff (a ∷ as') (b ∷ bs) = ground (arith, eq_iff a b, dir_eq_iff as' bs)

pub path_eq_iff : (p q : FilePath) → (path_eq p q ≡ true) ↔ (p ≡ q)
unfolding path_eq
path_eq_iff p q = ground (arith, dir_eq_iff p.parent q.parent, eq_iff p.name q.name)
