-- ===== src/Table.antt =====
-- A table of the state database, as the list of its rows in insertion order, each with its
-- primary key. The statements are those that the ledger issues (image_processor/ledger/ledger.py).
pub mod Laws
use image_processor.Base.{
  ℕ, suc, ◌+◌, ◌≡◌, Bool, true, false, not, Option, none, some, List, [], ◌∷◌, ◌++◌, ◌==◌,
  if◌then◌else◌, is_some,
}

abbrev pub Table {ℓ} : Type ℓ → Type ℓ
Table V = List (ℕ × V)

module _ {ℓ} {V : Type ℓ} where
  -- `SELECT ... WHERE key = ?`
  unfoldable pub find : ℕ → Table V → Option V
  find k [] = none
  find k ((j, v) ∷ t) = if j == k then some v else find k t

  pub has : ℕ → Table V → Bool
  has k t = is_some (find k t)

  -- `INSERT`, where the key is known to be new
  unfoldable pub insert : ℕ → V → Table V → Table V
  insert k v t = t ++ (k, v) ∷ []

  -- `UPDATE ... WHERE key = ?`
  unfoldable pub update : ℕ → (V → V) → Table V → Table V
  update k f [] = []
  update k f ((j, v) ∷ t) = (j, if j == k then f v else v) ∷ update k f t

  -- `INSERT ... ON CONFLICT (key) DO UPDATE SET ...`
  unfoldable pub upsert : ℕ → V → (V → V) → Table V → Table V
  upsert k v f t = if is_some (find k t) then update k f t else insert k v t

  -- `DELETE ... WHERE key = ?`
  unfoldable pub delete : ℕ → Table V → Table V
  delete k [] = []
  delete k ((j, v) ∷ t) = if j == k then delete k t else (j, v) ∷ delete k t

  -- `UPDATE ... WHERE` a test of the row
  unfoldable pub update_where : (V → Bool) → (V → V) → Table V → Table V
  update_where p f [] = []
  update_where p f ((j, v) ∷ t) = (j, if p v then f v else v) ∷ update_where p f t

  -- `DELETE ... WHERE` a test of the row
  unfoldable pub delete_where : (V → Bool) → Table V → Table V
  delete_where p [] = []
  delete_where p ((j, v) ∷ t) = if p v then delete_where p t else (j, v) ∷ delete_where p t

  -- `SELECT COUNT(*) ... WHERE` a test of the row
  unfoldable pub count_where : (V → Bool) → Table V → ℕ
  count_where p [] = 0
  count_where p ((j, v) ∷ t) = if p v then suc (count_where p t) else count_where p t

-- No two rows share a key.
abbrev pub IsKeyed {ℓ} : {V : Type ℓ} → Table V → Type ℓ
IsKeyed [] = Unit
IsKeyed ((k, v) ∷ t) = (find k t ≡ none) × IsKeyed t

-- `SELECT COALESCE(SUM(value), 0)`
unfoldable pub sum : Table ℕ → ℕ
sum [] = 0
sum ((_, n) ∷ t) = n + sum t
