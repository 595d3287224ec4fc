-- ===== src/Ledger/Store/Rules.antt =====
-- How a transaction ends, by how it was built.
use image_processor.Base.{◌≡◌, refl, Bool, true, false, Option, none, some, inl, inr, Bool-cases}
use image_processor.Ledger.Store.{
  Ledger, LedgerError, Result, ok, err, Txn, ◌>>=◌, or_raise, raise_if, finish, write,
}
use image_processor.Ledger.Schema.{Db}

-- What holds of a call that returned. A raise promises nothing here.
abbrev pub Ends : {A : Type 0} → (A → Ledger → Type 0) → Result A × Ledger → Type 0
Ends P (ok a, l) = P a l
Ends P (err e, l) = Unit

pub Ends-bind :
    {A B : Type 0} (P : B → Ledger → Type 0) (m : Txn A) (f : A → Txn B) (l : Ledger)
    → Ends (λ a l'. Ends P (f a l')) (m l)
    → Ends P ((m >>= f) l)
Ends-bind {A} {B} P m f l h = go (m l) h
  where
    go :
        (r : Result A × Ledger)
        → Ends (λ a l'. Ends P (f a l')) r
        → Ends P (elim r.0 [ ok a ↦ f a r.1 | err e ↦ (err e, r.1) ])
    go (ok a, l') h = h
    go (err e, l') h = tt

pub Ends-map :
    {A : Type 0} (P Q : A → Ledger → Type 0) (r : Result A × Ledger)
    → ((a : A) (l : Ledger) → P a l → Q a l)
    → Ends P r
    → Ends Q r
Ends-map P Q (ok a, l) f h = f a l h
Ends-map P Q (err e, l) f h = tt

pub Ends-or_raise :
    {A : Type 0} (P : A → Ledger → Type 0) (o : Option A) (e : LedgerError) (l : Ledger)
    → ((a : A) → o ≡ some a → P a l)
    → Ends P (or_raise o e l)
Ends-or_raise P none e l h = tt
Ends-or_raise P (some a) e l h = h a refl

pub Ends-raise_if :
    (P : Unit {0} → Ledger → Type 0) (b : Bool) (e : LedgerError) (l : Ledger)
    → (b ≡ false → P tt l)
    → Ends P (raise_if b e l)
Ends-raise_if P true e l h = tt
Ends-raise_if P false e l h = h refl

finish-Ends :
    {A : Type 0} (P : A → Db → Type 0) (l : Ledger) (r : Result A × Ledger)
    → Ends (λ a l'. P a l'.db) r
    → Ends (λ a l'. P a l'.db) (finish l r)
finish-Ends P l (ok a, inside) h = h
finish-Ends P l (err e, inside) h = tt

-- What the closure promises of the tables, the transaction does.
pub write-Ends :
    {A : Type 0} (P : A → Db → Type 0) (fn : Txn A) (l : Ledger)
    → Ends (λ a l'. P a l'.db) (fn l)
    → Ends (λ a l'. P a l'.db) (write fn l)
unfolding write
write-Ends P fn l h = elim (Bool-cases l.closed) [
  | inl e ↦ simp e tt
  | inr e ↦ simp e (finish-Ends P l (fn l) h)
]
