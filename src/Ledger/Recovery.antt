-- ===== src/Ledger/Recovery.antt =====
-- image_processor/ledger/recovery.py and the recovery section of image_processor/ledger/ledger.py.
pub mod Loops
pub mod Plan
use image_processor.Base.{
  ℕ, suc, Bool, Option, none, some, List, [], ◌∷◌, map, ◌==◌, ◌&&◌, not, if◌then◌else◌, length,
  select, sort_by, is_some,
}
use image_processor.Table.{Table, find, update, delete_where}
use image_processor.Types.{
  Text, JobState, is, is_in, Job, CleanupIntent, ready, claimed, waiting_model, inferencing,
  blocked_configuration, retry_wait, result_committed, publish_pending, publish_exhausted,
}
use image_processor.Ledger.Schema.{JobRow, Db, is_recovery_edge}
use image_processor.Ledger.Store.{
  Txn, conflict, illegal_transition, value_error, pure, query, or_raise, ◌>>=◌, ◌>>◌, raise_if,
  execute, read_clock, write,
}
use image_processor.Ledger.Jobs.{
  Field, last_error, any_unknown, put_state, fetch_job, before, on_route, is_due,
}
use image_processor.Ledger.Cleanup.{open_intents}

-- `class RecoveryMove`
pub record RecoveryMove : Type 0 where
  pub inference_id : Text
  pub current : JobState
  pub new : JobState

-- `RESTART_STATES.get(state)`, or READY for a RETRY_WAIT job that is due.
unfoldable pub restart_target : JobState → Option ℕ → ℕ → Option JobState
restart_target inferencing next now = some ready
restart_target claimed next now = some ready
restart_target waiting_model next now = some ready
restart_target retry_wait next now = if is_due now next then some ready else none
restart_target _ next now = none

unfoldable pub plan_recovery : List (Text × JobState × Option ℕ) → ℕ → List RecoveryMove
unfolding restart_target
plan_recovery [] now = []
plan_recovery ((ident, state, next) ∷ rows) now = elim (restart_target state next now) [
  | none ↦ plan_recovery rows now
  | some new ↦ record { inference_id = ident; current = state; new = new } ∷ plan_recovery rows now
]

-- `_force_state`: it does not touch the reservation.
unfoldable pub force_state : Text → JobState → JobState → List Field → Txn Job
force_state ident current new fields = do
  raise_if (not (is_recovery_edge current new)) illegal_transition
  raise_if (any_unknown fields) value_error
  now ← read_clock
  execute (put_state ident new fields now)
  fetch_job ident

-- `current in INVALIDATABLE_STATES`
abbrev pub is_invalidatable : JobState → Bool
is_invalidatable s = is_in s (result_committed ∷ publish_pending ∷ [])

-- What the UPDATE of `requeue_for_reinference` assigns.
abbrev pub clear_result : JobRow → JobRow
clear_result r = record r {
  result_json = none;
  result_sha256 = none;
  sidecar_path = none;
  sidecar_sha256 = none;
}

-- The DELETE and the UPDATE of `requeue_for_reinference`.
unfoldable pub drop_result : Text → Db → Db
drop_result ident d = record d {
  outbox = delete_where (λ e. e.inference_id == ident) d.outbox;
  jobs = update ident clear_result d.jobs;
}

unfoldable pub requeue_for_reinference_txn : Text → Text → Txn Job
unfolding drop_result
requeue_for_reinference_txn ident reason = do
  row ← or_raise (← query (λ d. find ident d.jobs)) conflict
  raise_if (not (is_invalidatable row.state)) illegal_transition
  execute (drop_result ident)
  force_state ident row.state ready (last_error (some reason) ∷ [])

unfoldable pub requeue_for_reinference : Text → Text → Txn Job
requeue_for_reinference ident reason = write (requeue_for_reinference_txn ident reason)

-- The jobs in some states, oldest first.
abbrev pub rows_in : List JobState → Option Text → Table JobRow → List (Text × JobRow)
rows_in states route_id jobs =
    sort_by before (select (λ row. is_in row.1.state states && on_route route_id row.1) jobs)

-- The loop of `requeue_blocked`.
unfoldable pub force_all : List (Text × JobRow) → JobState → Txn (Unit {0})
force_all [] current = pure tt
force_all ((ident, _) ∷ rows) current = do
  _ ← force_state ident current ready []
  force_all rows current

unfoldable pub requeue_blocked_txn : Option Text → Txn ℕ
unfolding force_all
requeue_blocked_txn route_id = do
  rows ← query (λ d. rows_in (blocked_configuration ∷ []) route_id d.jobs)
  force_all rows blocked_configuration
  pure (length rows)

unfoldable pub requeue_blocked : Option Text → Txn ℕ
requeue_blocked route_id = write (requeue_blocked_txn route_id)

-- `class SidecarRecord`
pub record SidecarRecord : Type 0 where
  pub inference_id : Text
  pub state : JobState
  pub sidecar_path : Option Text
  pub sidecar_sha256 : Option Text

-- `transitions`, keyed by the edge where the source joins the two names in one text.
abbrev pub Tally : Type 0
Tally = List ((JobState × JobState) × ℕ)

-- `transitions[key] = transitions.get(key, 0) + 1`
unfoldable pub bump : JobState → JobState → Tally → Tally
bump current new [] = ((current, new), 1) ∷ []
bump current new (((a, b), n) ∷ t) =
    if is a current && is b new then ((a, b), suc n) ∷ t else ((a, b), n) ∷ bump current new t

unfoldable pub tally : List RecoveryMove → Tally → Tally
unfolding bump
tally [] t = t
tally (m ∷ moves) t = tally moves (bump m.current m.new t)

-- `class RecoveryReport`
pub record RecoveryReport : Type 0 where
  pub transitions : Tally
  pub cleanup_pending : List CleanupIntent
  pub publish_pending : List Text
  pub sidecars : List SidecarRecord

pub build_report :
    List RecoveryMove → List CleanupIntent → List Text → List SidecarRecord → RecoveryReport
unfolding tally
build_report moves intents pending sidecars = record {
  transitions = tally moves [];
  cleanup_pending = intents;
  publish_pending = pending;
  sidecars = sidecars;
}

-- The states whose jobs `recover` looks at.
abbrev pub mid_flight : List JobState
mid_flight = inferencing ∷ claimed ∷ waiting_model ∷ retry_wait ∷ []

abbrev pub recovery_row : Text × JobRow → Text × JobState × Option ℕ
recovery_row (ident, r) = (ident, r.state, r.next_attempt_at_ms)

abbrev pub sidecar_record : Text × JobRow → SidecarRecord
sidecar_record (ident, r) = record {
  inference_id = ident;
  state = r.state;
  sidecar_path = r.sidecar_path;
  sidecar_sha256 = r.sidecar_sha256;
}

-- The query for the sidecar bindings of committed jobs.
pub sidecar_records : Table JobRow → List SidecarRecord
sidecar_records jobs = map sidecar_record (
    sort_by before (
      select
        (λ row.
          is_some row.1.sidecar_path
          && is_in row.1.state (result_committed ∷ publish_pending ∷ publish_exhausted ∷ []))
        jobs))

-- The loop of `recover`.
unfoldable pub apply_moves : List RecoveryMove → Txn (Unit {0})
apply_moves [] = pure tt
apply_moves (m ∷ moves) = do _ ← force_state m.inference_id m.current m.new []; apply_moves moves

-- The end of `recover`: the backlog that it reports beside the moves.
abbrev pub report : List RecoveryMove → Unit {0} → Txn RecoveryReport
report moves _ = do
  intents ← query (λ d. open_intents d.cleanup_intents)
  pending ← query (λ d. map (λ row. row.0) (rows_in (publish_pending ∷ []) none d.jobs))
  sidecars ← query (λ d. sidecar_records d.jobs)
  pure (build_report moves intents pending sidecars)

unfoldable pub recover_txn : ℕ → Txn RecoveryReport
unfolding apply_moves
recover_txn now = do
  rows ← query (λ d. rows_in mid_flight none d.jobs)
  let moves = plan_recovery (map recovery_row rows) now
  apply_moves moves >>= report moves

unfoldable pub recover : Txn RecoveryReport
recover = do now ← read_clock; write (recover_txn now)
