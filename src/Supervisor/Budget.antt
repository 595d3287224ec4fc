-- ===== src/Supervisor/Budget.antt =====
-- How often image_processor/engine/supervisor.py restarts a cell.
use image_processor.Base.{ℕ, ◌≤◌, ◌<◌, ◌≡◌, none, List, [], ◌∷◌, ◌++◌, length, select}
use image_processor.Types.{Text}
use image_processor.Table.{find}
use image_processor.Supervisor.{
  CellOps, Supervisor, restart_budget_exhausted, no_such_cell, history_of, is_recent, Recycled,
  drained, Target, left_down,
}

-- The restarts of a cell that are on record and not too old.
abbrev pub recent : {C : Type 0} → ℕ → Text → Supervisor C → List ℕ
recent now cell_id s = select (is_recent now s.restart_window) (history_of cell_id s)

-- How a recycling ended, where `old` are the restarts of the cell that count: the cell was
-- restarted within the budget and the restart went on record, or the budget was spent and the cell
-- is noted as exhausted.
abbrev pub Ended :
    {C : Type 0} (ops : CellOps C)
    → ℕ
    → Text
    → List ℕ
    → Supervisor C
    → (Recycled ops × Target C) × Supervisor C
    → Type 0
Ended ops later cell_id old s ((drained request, t), s') =
    (length old < s.max_restarts) × (history_of cell_id s' ≡ old ++ later ∷ [])
Ended ops later cell_id old s ((left_down restart_budget_exhausted, t), s') =
    (s.max_restarts ≤ length old)
    × (history_of cell_id s' ≡ old)
    × (s'.exhausted ≡ cell_id ∷ s.exhausted)
Ended ops later cell_id old s ((left_down no_such_cell, t), s') =
    (find cell_id s.cells ≡ none) × (s' ≡ s)
