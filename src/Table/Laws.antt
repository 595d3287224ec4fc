-- ===== src/Table/Laws.antt =====
-- What each statement does to a lookup, to a count and to a sum.
use mathlib.Core.Option
use image_processor.Base.{
  ℕ, ◌+◌, ◌≤◌, ◌≡◌, refl, Bool, true, none, some, [], ◌∷◌, arith, ◌==◌, if◌then◌else◌, All, ==_iff,
}
use image_processor.Table.{
  Table, IsKeyed, find, insert, update, upsert, delete, update_where, delete_where, count_where,
  sum,
}

module _ {ℓ} {V : Type ℓ} where
  pub find-insert :
      (j k : ℕ) (v : V) (t : Table V)
      → find j (insert k v t)
        ≡ elim (find j t) [ some w ↦ some w | none ↦ if k == j then some v else none ]
  unfolding find insert
  find-insert j k v [] = refl
  find-insert j k v ((i, w) ∷ t) = ground (arith, find-insert j k v t)

  pub find-update :
      (j k : ℕ) (f : V → V) (t : Table V)
      → find j (update k f t) ≡ (if k == j then Option.map f (find j t) else find j t)
  unfolding find update
  find-update j k f [] = ground arith
  find-update j k f ((i, w) ∷ t) = ground (arith, find-update j k f t)

  pub find-update-none :
      (k : ℕ) (f : V → V) (t : Table V) → find k t ≡ none → find k (update k f t) ≡ none
  find-update-none k f t e = rw (find-update k k f t, e) (ground arith)

  pub find-upsert :
      (j k : ℕ) (v : V) (t : Table V)
      → find j (upsert k v (λ _. v) t) ≡ (if k == j then some v else find j t)
  unfolding upsert
  find-upsert j k v t = ground (arith, find-update j k (λ _. v) t, find-insert j k v t, ==_iff k j)

  pub find-delete :
      (j k : ℕ) (t : Table V) → find j (delete k t) ≡ (if k == j then none else find j t)
  unfolding find delete
  find-delete j k [] = ground arith
  find-delete j k ((i, w) ∷ t) = ground (arith, find-delete j k t)

  pub count_where-insert :
      (p : V → Bool) (k : ℕ) (v : V) (t : Table V)
      → count_where p (insert k v t) ≡ count_where p t + (if p v then 1 else 0)
  unfolding count_where insert
  count_where-insert p k v [] = ground arith
  count_where-insert p k v ((i, w) ∷ t) = ground (arith, count_where-insert p k v t)

  -- An update that makes no row pass the test leaves no more rows that pass.
  pub count_where-update_le :
      (p : V → Bool) (k : ℕ) (f : V → V) (t : Table V)
      → ((v : V) → p (f v) ≡ true → p v ≡ true)
      → count_where p (update k f t) ≤ count_where p t
  unfolding count_where update
  count_where-update_le p k f [] h = omega arith
  count_where-update_le p k f ((i, w) ∷ t) h = ground (arith, h w, count_where-update_le p k f t h)

  pub count_where-update_where_le :
      (p q : V → Bool) (f : V → V) (t : Table V)
      → ((v : V) → p (f v) ≡ true → p v ≡ true)
      → count_where p (update_where q f t) ≤ count_where p t
  unfolding count_where update_where
  count_where-update_where_le p q f [] h = omega arith
  count_where-update_where_le p q f ((i, w) ∷ t) h =
      ground (arith, h w, count_where-update_where_le p q f t h)

  pub count_where-delete_where_le :
      (p q : V → Bool) (t : Table V) → count_where p (delete_where q t) ≤ count_where p t
  unfolding count_where delete_where
  count_where-delete_where_le p q [] = omega arith
  count_where-delete_where_le p q ((i, w) ∷ t) = ground (arith, count_where-delete_where_le p q t)

  -- Deleting every row that passes one test leaves none that passes a stronger one.
  pub count_where-delete_where_none :
      (p q : V → Bool) (t : Table V)
      → ((v : V) → p v ≡ true → q v ≡ true)
      → count_where p (delete_where q t) ≡ 0
  unfolding count_where delete_where
  count_where-delete_where_none p q [] h = refl
  count_where-delete_where_none p q ((i, w) ∷ t) h =
      ground (arith, h w, count_where-delete_where_none p q t h)

pub sum-insert : (k n : ℕ) (t : Table ℕ) → sum (insert k n t) ≡ sum t + n
unfolding sum insert
sum-insert k n [] = omega arith
sum-insert k n ((i, m) ∷ t) = omega (arith, sum-insert k n t)

pub sum-delete-le : (k : ℕ) (t : Table ℕ) → sum (delete k t) ≤ sum t
unfolding sum delete
sum-delete-le k [] = omega arith
sum-delete-le k ((i, m) ∷ t) = ground (arith, sum-delete-le k t)

module _ {ℓ} {V : Type ℓ} where
  pub insert-IsKeyed :
      (k : ℕ) (v : V) (t : Table V) → find k t ≡ none → IsKeyed t → IsKeyed (insert k v t)
  unfolding insert find
  insert-IsKeyed k v [] e h = (refl, tt)
  insert-IsKeyed k v ((i, w) ∷ t) e h = ground (arith, find-insert i k v t, insert-IsKeyed k v t)

  pub update-IsKeyed : (k : ℕ) (f : V → V) (t : Table V) → IsKeyed t → IsKeyed (update k f t)
  unfolding update
  update-IsKeyed k f [] h = tt
  update-IsKeyed k f ((i, w) ∷ t) h =
      (rw (find-update i k f t, h.0) (ground arith), update-IsKeyed k f t h.1)

  -- In a keyed table a lookup finds each row that the table holds.
  pub All-find :
      (s t : Table V)
      → ((k : ℕ) (v : V) → find k s ≡ some v → find k t ≡ some v)
      → IsKeyed s
      → All (λ row. find row.0 t ≡ some row.1) s
  unfolding find
  All-find [] t f h = tt
  All-find ((i, w) ∷ s) t f h =
      (f i w (ground arith), All-find s t (λ k v e. f k v (ground (arith, h.0))) h.1)
