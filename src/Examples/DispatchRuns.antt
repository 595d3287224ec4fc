-- ===== src/Examples/DispatchRuns.antt =====
-- A cell that is given the one job that is ready, and the theorem about it.
use image_processor.Base.{ℕ, ◌≡◌, refl, Bool, true, some, none, [], ◌∷◌, take}
use image_processor.Types.{ready, JobState-discrete, is_terminal}
use image_processor.Base.{sort_by}
use image_processor.Table.{insert, sum}
use image_processor.Ledger.Schema.{is_legal, row_to_job}
use image_processor.Ledger.Store.{write}
use image_processor.Ledger.Jobs.{admit, admit_txn, set_state, any_unknown}
use image_processor.Ledger.Sound.{Sound}
use image_processor.Ledger.History.{open_new, run}
use image_processor.Ledger.History.Invariant.{run-open_new-Sound}
use image_processor.Examples.LedgerRuns.{clock, digest, life, job}
use image_processor.Examples.ResidencyRuns.{ops, policy}
use image_processor.Examples.SchedulerRuns.{running, scheduler, backoff}
use image_processor.Scheduler.{Scheduler, new_lane}
use image_processor.Scheduler.Cells.{Cell, replied, loaded, staged, Outside, Pass}
use image_processor.Scheduler.Cells.Loading.{Codes}
use image_processor.Scheduler.Cells.Dispatch.{dispatch_one}
use image_processor.Scheduler.Cells.Held.{After}
use image_processor.Scheduler.Cells.Dispatched.{Dispatched, dispatch_one-Dispatched}

abbrev cell : Cell
cell = record { cell_id = 1; device = some 0 }

abbrev outside : Outside ℕ
outside = record {
  ops = ops;
  cells = cell ∷ [];
  is_alive = λ n c. true;
  receives = λ n c. none;
  stats = λ n.
      replied
        record { device_free_mib = 500; device_total_mib = 1000; context_mib = 20; resident = [] };
  unload = λ n d. replied record { freed_mib = 40; expected_mib = 40 };
  load = λ n d required. replied (loaded 40 100 20);
  sends = λ n j. true;
  cache = λ n d. staged 40;
  clock = λ n. n;
  backoff = λ n attempts. backoff attempts;
  joined = λ code error. error;
  reclaim_ratio = 1;
  is_starving = λ age. Bool.false;
  cpu = 9;
  load_concurrency_per_gpu = 1;
}

abbrev recorded : Codes
recorded = record {
  model_blocked = 1;
  bundle_invalid = 2;
  model_not_staged = 3;
  model_over_budget = 4;
  not_in_cache = λ d. 6;
  needs_mib = λ d n. 7;
  answered_a_load = 8;
}

abbrev fresh : Scheduler
fresh = record scheduler {
  ledger = run digest (open_new 1000 clock) (take 1 life);
  lanes =
      (3, record new_lane { jobs = record running { job = record job { state = ready } } ∷ [] })
      ∷ [];
}

abbrev pass : Pass ℕ
pass = record {
  scheduler = fresh;
  policy = policy;
  resident = [];
  context = [];
  now_ms = 50;
  free = [];
  total = [];
  loads_left = (0, 1) ∷ [];
  calls = 0;
  effects = [];
  paused = Bool.false;
  dispatched = 0;
  loads = 0;
  evictions = 0;
  deferred = 0;
  recycled = 0;
}

fresh-Sound : Sound fresh.ledger
fresh-Sound = run-open_new-Sound digest 1000 clock (take 1 life) (tt, tt)

dispatch_one-Dispatched_example :
    Sound (dispatch_one outside recorded cell pass).1.scheduler.ledger
    × After (Dispatched cell) (dispatch_one outside recorded cell pass)
dispatch_one-Dispatched_example = dispatch_one-Dispatched outside recorded cell pass fresh-Sound

-- The job is sent.
sends_the_job : (dispatch_one outside recorded cell pass).1.dispatched ≡ 1
unfolding dispatch_one sort_by JobState-discrete write run admit admit_txn sum set_state any_unknown
    insert is_legal is_terminal row_to_job
sends_the_job = refl
