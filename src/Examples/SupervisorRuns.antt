-- ===== src/Examples/SupervisorRuns.antt =====
-- A cell that is restarted once and then left down.
use image_processor.Base.{ℕ, ◌≡◌, refl, true, none, [], ◌∷◌}
use image_processor.Table.{find, insert, upsert, update}
use image_processor.Supervisor.{
  CellOps, Supervisor, by_identity, drained, left_down, restart_budget_exhausted, prune, pruned,
  restart, recycle_cell, recycle,
}

-- A handle is the count of its starts.
abbrev ops : CellOps ℕ
ops = record {
  mark_broken = λ n. n;
  stop = λ n. n;
  start = λ n. n;
  is_alive = λ n. true;
  in_flight = λ n. none;
  cell_id = λ n. n;
}

abbrev supervisor : Supervisor ℕ
supervisor = record {
  cells = (1, 0) ∷ [];
  restarts = [];
  exhausted = [];
  recycle_count = 0;
  max_restarts = 1;
  restart_window = 50;
  started = true;
}

-- A second restart in the window is refused, and one after it goes through.
left_down_at_last :
    (recycle ops 10 10 (by_identity 1) (recycle ops 5 5 (by_identity 1) supervisor).1).0.0
    ≡ left_down restart_budget_exhausted
unfolding recycle recycle_cell restart prune pruned find insert upsert update
left_down_at_last = refl

restarted_again :
    (recycle ops 90 90 (by_identity 1) (recycle ops 5 5 (by_identity 1) supervisor).1).0.0
    ≡ drained none
unfolding recycle recycle_cell restart prune pruned find insert upsert update
restarted_again = refl

abbrev restarted_once : Supervisor ℕ
restarted_once = (recycle ops 5 5 (by_identity 1) supervisor).1
