-- ===== src/Supervisor.antt =====
-- The restart budget of image_processor/engine/supervisor.py. The cells are handles whose operations
-- are parameters; times are whole ticks of the supervisor's clock.
pub mod Budget
use image_processor.Base.{
  ℕ, suc, ◌+◌, ◌-◌, ◌≤◌, Bool, true, false, not, ◌&&◌, ◌||◌, Option, none, some, List, [], ◌∷◌,
  ◌++◌, length, select, leb, ◌==◌, if◌then◌else◌,
}
use image_processor.Types.{Text}
use image_processor.Table.{Table, find, upsert}

pub data SupervisorError : Type 0 where
  no_such_cell restart_budget_exhausted : SupervisorError

-- What a handle does: its state after each operation, and whether it is alive.
pub record CellOps (C : Type 0) : Type 0 where
  pub mark_broken : C → C
  pub stop : C → C
  pub start : C → C
  pub is_alive : C → Bool
  pub in_flight : C → Option Text
  pub cell_id : C → Text

-- What `recycle` is given: the identity of a cell, which a handle that the supervisor owns comes
-- to, or a handle that it does not own.
pub data Target (C : Type 0) : Type 0 where
  by_identity : Text → Target C
  foreign : C → Target C

pub record Supervisor (C : Type 0) : Type 0 where
  pub cells : Table C
  pub restarts : Table (List ℕ)
  pub exhausted : List Text
  pub recycle_count : ℕ
  pub max_restarts : ℕ
  pub restart_window : ℕ
  pub started : Bool

abbrev pub or_empty : Option (List ℕ) → List ℕ
or_empty none = []
or_empty (some stamps) = stamps

abbrev pub history_of : {C : Type 0} → Text → Supervisor C → List ℕ
history_of cell_id s = or_empty (find cell_id s.restarts)

-- `stamp >= self._clock() - self.restart_window_s`
abbrev pub is_recent : ℕ → ℕ → ℕ → Bool
is_recent now window stamp = leb now (stamp + window)

abbrev pub store_history : {C : Type 0} → Text → List ℕ → Supervisor C → Supervisor C
store_history cell_id stamps s = record s {
  restarts = upsert cell_id stamps (λ _. stamps) s.restarts;
}

-- `_prune`, by the stamps on record
unfoldable pub pruned : {C : Type 0} → ℕ → Text → Supervisor C → List ℕ → Supervisor C
unfolding find upsert
pruned now cell_id s [] = s
pruned now cell_id s (stamp ∷ stamps) =
    store_history cell_id (select (is_recent now s.restart_window) (stamp ∷ stamps)) s

-- `_prune`
unfoldable pub prune : {C : Type 0} → ℕ → Text → Supervisor C → Supervisor C
unfolding pruned
prune now cell_id s = pruned now cell_id s (history_of cell_id s)

-- `restarts_remaining`
unfoldable pub restarts_remaining : {C : Type 0} → ℕ → Text → Supervisor C → ℕ
unfolding prune find
restarts_remaining now cell_id s =
    s.max_restarts - length (history_of cell_id (prune now cell_id s))

module _ {C : Type 0} (ops : CellOps C) where
  abbrev pub put_cell : Text → C → Supervisor C → Supervisor C
  put_cell cell_id cell s = record s { cells = upsert cell_id cell (λ _. cell) s.cells }

  pub data Recycled : Type 0 where
    drained : Option Text → Recycled
    left_down : SupervisorError → Recycled

  -- `handle.cell_id`
  abbrev pub id_of : Target C → Text
  id_of (by_identity cell_id) = cell_id
  id_of (foreign handle) = ops.cell_id handle

  -- The supervisor and the target, once the handle is as an operation left it.
  abbrev pub keep_handle : Target C → C → Supervisor C → Supervisor C
  keep_handle (by_identity cell_id) cell s = put_cell cell_id cell s
  keep_handle (foreign _) cell s = s

  abbrev pub kept_handle : Target C → C → Target C
  kept_handle (by_identity cell_id) cell = by_identity cell_id
  kept_handle (foreign _) cell = foreign cell

  -- The end of `recycle`, at the reading of the clock that is recorded.
  unfoldable pub restart :
      ℕ → Target C → C → Option Text → Supervisor C → (Recycled × Target C) × Supervisor C
  unfolding find upsert
  restart now target cell drained_request s =
      let cell_id = id_of target in
      if leb s.max_restarts (length (history_of cell_id s))
      then (
        (left_down restart_budget_exhausted, kept_handle target cell),
        record s { exhausted = cell_id ∷ s.exhausted },
      )
      else (
        (drained drained_request, kept_handle target (ops.start cell)),
        keep_handle target (ops.start cell)
            (store_history cell_id (history_of cell_id s ++ now ∷ []) s),
      )

  -- What `recycle` does with a handle, at its two readings of the clock.
  unfoldable pub recycle_cell :
      ℕ → ℕ → Target C → Supervisor C → Option C → (Recycled × Target C) × Supervisor C
  unfolding prune restart find upsert
  recycle_cell now later target s none = ((left_down no_such_cell, target), s)
  recycle_cell now later target s (some cell) =
      let down = ops.stop (ops.mark_broken cell) in
      restart later target down (ops.in_flight cell) (
        prune now (id_of target)
          (record (keep_handle target down s) { recycle_count = suc s.recycle_count }))

  -- `self._cells.get(cell) if isinstance(cell, str) else cell`
  abbrev pub handle_of : Target C → Supervisor C → Option C
  handle_of (by_identity cell_id) s = find cell_id s.cells
  handle_of (foreign handle) s = some handle

  -- `recycle`, with the target as it is left
  unfoldable pub recycle : ℕ → ℕ → Target C → Supervisor C → (Recycled × Target C) × Supervisor C
  unfolding recycle_cell find
  recycle now later target s = recycle_cell now later target s (handle_of target s)

  -- `healthy`
  abbrev all_alive : Table C → Bool
  all_alive [] = true
  all_alive ((_, cell) ∷ cells) = ops.is_alive cell && all_alive cells

  abbrev is_empty {ℓ} : {A : Type ℓ} → List A → Bool
  is_empty [] = true
  is_empty (_ ∷ _) = false

  unfoldable pub healthy : Supervisor C → Bool
  healthy s = s.started && not (is_empty s.cells) && is_empty s.exhausted && all_alive s.cells
