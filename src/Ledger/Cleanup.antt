-- ===== src/Ledger/Cleanup.antt =====
-- The cleanup section of image_processor/ledger/ledger.py.
use image_processor.Base.{
  ℕ, Bool, Option, none, some, List, [], ◌∷◌, map, is_none, take, select, sort_by, ltb, leb, ◌==◌,
  ◌&&◌, ◌||◌, if◌then◌else◌,
}
use image_processor.Table.{Table, find, update, upsert}
use image_processor.Types.{
  Text, JobState, is, is_in, Job, CleanupIntent, input_invalid, quarantined, processing_exhausted,
  retained_failed, published, cleanup_pending, cleanup_failed, completed,
}
use image_processor.Ledger.Schema.{IntentRow, Db, row_to_intent}
use image_processor.Ledger.Store.{
  Result, read, Ledger, Txn, conflict, illegal_transition, raise, query, or_raise, ◌>>=◌, ◌>>◌,
  execute, read_clock, write,
}
use image_processor.Ledger.Jobs.{last_error, fetch_job, set_state}

unfoldable pub intent_row : CleanupIntent → ℕ → IntentRow
intent_row i now = record {
  action = i.action;
  source_path = i.source_path;
  source_sha256 = i.source_sha256;
  target_path = i.target_path;
  members_json = i.members;
  observed = none;
  created_at_ms = now;
}

-- The INSERT of `record_cleanup_intent`; a conflict replaces every column.
unfoldable pub put_intent : CleanupIntent → ℕ → Db → Db
unfolding intent_row
put_intent i now d = record d {
  cleanup_intents =
      upsert i.inference_id (intent_row i now) (λ _. intent_row i now) d.cleanup_intents;
}

unfoldable pub record_cleanup_intent_txn : CleanupIntent → Txn Job
unfolding put_intent
record_cleanup_intent_txn i = do
  row ← or_raise (← query (λ d. find i.inference_id d.jobs)) conflict
  now ← read_clock
  execute (put_intent i now)
  if is_in row.state (published ∷ cleanup_failed ∷ [])
      then set_state i.inference_id (some row.state) cleanup_pending []
      else (if is_in row.state (input_invalid ∷ processing_exhausted ∷ cleanup_pending ∷ [])
          then fetch_job i.inference_id
          else raise illegal_transition)

unfoldable pub record_cleanup_intent : CleanupIntent → Txn Job
record_cleanup_intent i = write (record_cleanup_intent_txn i)

pub cleanup_intent : Text → Ledger → Result (Option CleanupIntent)
cleanup_intent ident =
    read λ d. elim (find ident d.cleanup_intents) [
      | none ↦ none
      | some r ↦ some (row_to_intent ident r)
    ]

-- `_COMPLETING_EDGES.get(current)`
unfoldable pub completing_edge : JobState → Option JobState
completing_edge cleanup_pending = some completed
completing_edge input_invalid = some quarantined
completing_edge processing_exhausted = some retained_failed
completing_edge _ = none

-- `UPDATE cleanup_intents SET observed = ? WHERE inference_id = ?`
unfoldable pub observe : Text → Option Text → Db → Db
observe ident observed d = record d {
  cleanup_intents = update ident (λ r. record r { observed = observed }) d.cleanup_intents;
}

unfoldable pub complete_cleanup_txn : Text → Text → Txn Job
unfolding observe
complete_cleanup_txn ident observed = do
  row ← or_raise (← query (λ d. find ident d.jobs)) conflict
  target ← or_raise (completing_edge row.state) illegal_transition
  execute (observe ident (some observed))
  set_state ident (some row.state) target []

unfoldable pub complete_cleanup : Text → Text → Txn Job
complete_cleanup ident observed = write (complete_cleanup_txn ident observed)

unfoldable pub fail_cleanup_txn : Text → Text → Txn Job
unfolding observe
fail_cleanup_txn ident error = do
  row ← or_raise (← query (λ d. find ident d.jobs)) conflict
  execute (observe ident none)
  set_state ident (some row.state)
      (if is row.state cleanup_pending then cleanup_failed else row.state)
      (last_error (some error) ∷ [])

unfoldable pub fail_cleanup : Text → Text → Txn Job
fail_cleanup ident error = write (fail_cleanup_txn ident error)

-- `ORDER BY created_at_ms, inference_id`
abbrev pub intent_before : Text × IntentRow → Text × IntentRow → Bool
intent_before (i, r) (j, s) =
    ltb r.created_at_ms s.created_at_ms || r.created_at_ms == s.created_at_ms && leb i j

abbrev pub as_intent : Text × IntentRow → CleanupIntent
as_intent (ident, r) = row_to_intent ident r

abbrev pub is_open_intent : Text × IntentRow → Bool
is_open_intent (_, r) = is_none r.observed

-- The open intents, oldest first, as `pending_cleanup` and `recover` read them.
unfoldable pub open_intents : Table IntentRow → List CleanupIntent
open_intents t = map as_intent (sort_by intent_before (select is_open_intent t))

pub pending_cleanup : ℕ → Ledger → Result (List CleanupIntent)
unfolding open_intents
pending_cleanup limit = read λ d. take limit (open_intents d.cleanup_intents)
