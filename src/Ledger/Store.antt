-- ===== src/Ledger/Store.antt =====
-- The connection plumbing of `class Ledger`: a closure runs in one transaction of the writer, and
-- what it wrote before it raised is rolled back. `clock` gives the reading of each call in turn.
pub mod Rules
use image_processor.Base.{ℕ, suc, Bool, true, Option, none, some, if◌then◌else◌}
use image_processor.Ledger.Schema.{Db}

pub data LedgerError : Type 0 where
  conflict illegal_transition closed_error value_error type_error index_error programming_error :
      LedgerError

pub data Result {ℓ} (A : Type ℓ) : Type ℓ where
  ok : A → Result A
  err : LedgerError → Result A

pub record Ledger : Type 0 where
  pub reserve_budget_bytes : ℕ
  pub clock : ℕ → ℕ
  pub readings : ℕ
  pub closed : Bool
  pub db : Db

abbrev pub Txn : Type 0 → Type 0
Txn A = Ledger → Result A × Ledger

module _ {A : Type 0} where
  abbrev pub pure : A → Txn A
  pure a l = (ok a, l)

  abbrev pub raise : LedgerError → Txn A
  raise e l = (err e, l)

  -- A query.
  abbrev pub query : (Db → A) → Txn A
  query f l = (ok (f l.db), l)

  abbrev pub or_raise : Option A → LedgerError → Txn A
  or_raise none e = raise e
  or_raise (some a) e = pure a

infixl 5 ◌>>=◌ ◌>>◌
abbrev pub ◌>>=◌ : {A B : Type 0} → Txn A → (A → Txn B) → Txn B
◌>>=◌ m f l = let (r, l') = m l in elim r [ ok a ↦ f a l' | err e ↦ (err e, l') ]

abbrev pub ◌>>◌ : {A B : Type 0} → Txn A → Txn B → Txn B
m >> k = m >>= λ _. k

abbrev pub raise_if : Bool → LedgerError → Txn (Unit {0})
raise_if b e l = (if b then err e else ok tt, l)

-- A statement that writes.
abbrev pub execute : (Db → Db) → Txn (Unit {0})
execute f l = (ok tt, record l { db = f l.db })

-- `self._clock()`
abbrev pub read_clock : Txn ℕ
read_clock l = (ok (l.clock l.readings), record l { readings = suc l.readings })

-- COMMIT keeps what the closure wrote, ROLLBACK what stood before. The clock was read either way.
abbrev pub finish : {A : Type 0} → Ledger → Result A × Ledger → Result A × Ledger
finish before (ok a, after) = (ok a, record before { db = after.db; readings = after.readings })
finish before (err e, after) = (err e, record before { readings = after.readings })

-- `_write` with the round of `_writer_loop` that serves it: BEGIN IMMEDIATE, then COMMIT or
-- ROLLBACK.
unfoldable pub write : {A : Type 0} → Txn A → Txn A
write fn l = if l.closed then (err closed_error, l) else finish l (fn l)

-- `close`
unfoldable pub close : Ledger → Ledger
close l = record l { closed = true }

-- `_read` and `_read_one`: the read connection of a closed ledger raises sqlite3.ProgrammingError.
abbrev pub read : {A : Type 0} → (Db → A) → Ledger → Result A
read f l = if l.closed then err programming_error else ok (f l.db)
