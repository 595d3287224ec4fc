-- ===== src/Ledger/History.antt =====
-- Histories of the ledger: the calls that change its state (image_processor/ledger/ledger.py), in
-- the order in which the one writer thread runs them.
pub mod Invariant
pub mod Walks
use image_processor.Base.{ℕ, ℤ, ◌≡◌, ◌≢◌, Bool, false, Option, none, List, [], ◌∷◌, All}
use image_processor.Types.{Text, Bytes, JobState, Job, CleanupIntent, published}
use image_processor.Ledger.Schema.{Db}
use image_processor.Ledger.Store.{Ledger, close}
use image_processor.Ledger.Jobs.{Field, admit, transition}
use image_processor.Ledger.Outbox.{
  OutboxRow, commit_result, mark_published, mark_publish_attempt, exhaust_publish,
  retry_publication,
}
use image_processor.Ledger.Cleanup.{record_cleanup_intent, complete_cleanup, fail_cleanup}
use image_processor.Ledger.Recovery.{requeue_for_reinference, requeue_blocked, recover}
use image_processor.Ledger.Values.{set_route_generation, kv_set}

pub data Call : Type 0 where
  admits : Job → ℤ → Call
  transitions : Text → JobState → JobState → List Field → Call
  commits : Text → Bytes → Option (Text × Text) → List OutboxRow → Call
  confirms : ℕ → Call
  attempts : ℕ → Text → Call
  exhausts retries : Text → Call
  intends : CleanupIntent → Call
  completes fails reinfers : Text → Text → Call
  unblocks : Option Text → Call
  recovers closes : Call
  generates : Text → Text → Option Text → Call
  sets : Text → Option Text → Call

-- A database with its tables created.
abbrev pub empty : Db
empty = record {
  jobs = [];
  outbox = [];
  next_outbox_id = 1;
  cleanup_intents = [];
  route_generations = [];
  reservations = [];
  kv = [];
}

-- `Ledger(path, reserve_budget_bytes=..., clock=...)` on a new file
abbrev pub open_new : ℕ → (ℕ → ℕ) → Ledger
open_new budget clock = record {
  reserve_budget_bytes = budget;
  clock = clock;
  readings = 0;
  closed = false;
  db = empty;
}

-- The targets that callers of `transition` name in image_processor/engine/scheduler.py and
-- image_processor/ImageProcessor.py: PUBLISHED is not among them.
abbrev pub IsCallerEdge : Call → Type 0
IsCallerEdge (transitions ident expected new fields) = new ≢ published
IsCallerEdge _ = Unit

module _ (sha256 : Bytes → Text) where
  -- The ledger after one call, whether it returned or raised.
  unfoldable pub step : Ledger → Call → Ledger
  step l (admits job reserve) = (admit job reserve l).1
  step l (transitions ident expected new fields) = (transition ident expected new fields l).1
  step l (commits ident result sidecar rows) = (commit_result sha256 ident result sidecar rows l).1
  step l (confirms outbox_id) = (mark_published outbox_id l).1
  step l (attempts outbox_id error) = (mark_publish_attempt outbox_id error l).1
  step l (exhausts ident) = (exhaust_publish ident l).1
  step l (retries ident) = (retry_publication ident l).1
  step l (intends intent) = (record_cleanup_intent intent l).1
  step l (completes ident observed) = (complete_cleanup ident observed l).1
  step l (fails ident error) = (fail_cleanup ident error l).1
  step l (reinfers ident reason) = (requeue_for_reinference ident reason l).1
  step l (unblocks route_id) = (requeue_blocked route_id l).1
  step l recovers = (recover l).1
  step l closes = close l
  step l (generates route_id desired active) = (set_route_generation route_id desired active l).1
  step l (sets key value) = (kv_set key value l).1

  unfoldable pub run : Ledger → List Call → Ledger
  unfolding step
  run l [] = l
  run l (c ∷ cs) = run (step l c) cs
