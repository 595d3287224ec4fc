-- ===== src/Ledger/Values.antt =====
-- The model generations and the key/value section of image_processor/ledger/ledger.py.
use image_processor.Base.{ℕ, Option, none, some}
use image_processor.Table.{find, upsert}
use image_processor.Types.{Text}
use image_processor.Ledger.Schema.{GenerationRow, Db}
use image_processor.Ledger.Store.{Result, read, Ledger, Txn, ◌>>=◌, execute, read_clock, write}

-- The INSERT of `set_route_generation`; a conflict replaces every column.
unfoldable pub put_generation : Text → Text → Option Text → ℕ → Db → Db
put_generation route_id desired active now d = record d {
  route_generations = upsert route_id row (λ _. row) d.route_generations;
}
  where
    row : GenerationRow
    row = record { desired = some desired; active = active; updated_at_ms = now }

unfoldable pub set_route_generation : Text → Text → Option Text → Txn (Unit {0})
unfolding put_generation
set_route_generation route_id desired active =
    write do now ← read_clock; execute (put_generation route_id desired active now)

pub route_generation : Text → Ledger → Result (Option Text × Option Text)
route_generation route_id = read λ d. elim (find route_id d.route_generations) [
  | none ↦ (none, none)
  | some r ↦ (r.desired, r.active)
]

pub kv_get : Text → Ledger → Result (Option Text)
kv_get key = read λ d. elim (find key d.kv) [ none ↦ none | some value ↦ value ]

unfoldable pub kv_set : Text → Option Text → Txn (Unit {0})
kv_set key value = write (execute λ d. record d { kv = upsert key value (λ _. value) d.kv })
