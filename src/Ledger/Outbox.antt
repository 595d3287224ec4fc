-- ===== src/Ledger/Outbox.antt =====
-- The result and outbox section of image_processor/ledger/ledger.py. The digest of the result
-- bytes is hashlib's, and a parameter.
pub mod Queries
use image_processor.Base.{
  ℕ, suc, ◌+◌, Bool, false, not, ◌&&◌, Option, none, some, List, [], ◌∷◌, map, ◌==◌, if◌then◌else◌,
  is_none, take, select, sort_by, leb,
}
use image_processor.Table.{Table, find, insert, update, update_where, count_where}
use image_processor.Types.{
  Text, Bytes, is, Job, inferencing, result_committed, publish_pending, published,
  publish_exhausted,
}
use image_processor.Ledger.Schema.{JobRow, OutboxEntry, Db}
use image_processor.Ledger.Store.{
  Result, read, Ledger, Txn, conflict, type_error, pure, query, or_raise, ◌>>=◌, ◌>>◌, raise_if,
  execute, read_clock, write,
}
use image_processor.Ledger.Jobs.{set_state, transition}

-- `class OutboxRow`
pub record OutboxRow : Type 0 where
  pub id : Option ℕ
  pub inference_id : Text
  pub topic : Text
  pub encoded_bytes : Bytes
  pub attempts : ℕ
  pub gating : Bool
  pub last_error : Option Text

unfoldable pub entry_of : Text → OutboxRow → OutboxEntry
entry_of ident row = record {
  inference_id = ident;
  topic = row.topic;
  payload = row.encoded_bytes;
  gating = row.gating;
  attempts = row.attempts;
  last_error = row.last_error;
  published_at_ms = none;
}

-- `_insert_outbox_row`
unfoldable pub insert_outbox_row : Text → OutboxRow → Db → Db
unfolding entry_of
insert_outbox_row ident row d = record d {
  outbox = insert d.next_outbox_id (entry_of ident row) d.outbox;
  next_outbox_id = suc d.next_outbox_id;
}

-- `for row in rows: self._insert_outbox_row(...)`
unfoldable pub insert_outbox_rows : Text → List OutboxRow → Db → Db
insert_outbox_rows ident [] d = d
insert_outbox_rows ident (row ∷ rows) d =
    insert_outbox_rows ident rows (insert_outbox_row ident row d)

abbrev pub sidecar_part : (Text × Text → Text) → Option (Text × Text) → Option Text
sidecar_part f none = none
sidecar_part f (some s) = some (f s)

-- The UPDATE of `commit_result` that stores the result and the sidecar binding.
unfoldable pub store_result : Text → Bytes → Text → Option (Text × Text) → ℕ → Db → Db
store_result ident result digest sidecar now d = record d {
  jobs =
      update ident
        (λ r. record r {
          result_json = some result;
          result_sha256 = some digest;
          sidecar_path = sidecar_part (λ s. s.0) sidecar;
          sidecar_sha256 = sidecar_part (λ s. s.1) sidecar;
          updated_at_ms = now;
        })
        d.jobs;
}

abbrev pub advance_if_rows : Text → List OutboxRow → Txn (Unit {0})
advance_if_rows ident [] = pure tt
advance_if_rows ident (_ ∷ _) = do
  _ ← set_state ident (some result_committed) publish_pending []
  pure tt

unfoldable pub commit_result_txn :
    (Bytes → Text) → Text → Bytes → Option (Text × Text) → List OutboxRow → Txn (Unit {0})
unfolding store_result insert_outbox_rows
commit_result_txn sha256 ident result sidecar rows = do
  row ← or_raise (← query (λ d. find ident d.jobs)) conflict
  raise_if (not (is row.state inferencing)) conflict
  now ← read_clock
  execute (store_result ident result (sha256 result) sidecar now)
  execute (insert_outbox_rows ident rows)
  _ ← set_state ident (some inferencing) result_committed []
  advance_if_rows ident rows

unfoldable pub commit_result :
    (Bytes → Text) → Text → Bytes → Option (Text × Text) → List OutboxRow → Txn (Unit {0})
commit_result sha256 ident result sidecar rows =
    write (commit_result_txn sha256 ident result sidecar rows)

-- `_row_to_outbox`
unfoldable pub row_to_outbox : ℕ × OutboxEntry → OutboxRow
row_to_outbox (ident, e) = record {
  id = some ident;
  inference_id = e.inference_id;
  topic = e.topic;
  encoded_bytes = e.payload;
  attempts = e.attempts;
  gating = e.gating;
  last_error = e.last_error;
}

-- `ORDER BY id`
abbrev pub by_id : ℕ × OutboxEntry → ℕ × OutboxEntry → Bool
by_id (i, _) (j, _) = leb i j

-- `j.state = PUBLISH_PENDING` for the job that the join finds
abbrev pub is_publishing : Option JobRow → Bool
is_publishing none = false
is_publishing (some r) = is r.state publish_pending

-- What the join and the WHERE clause of `pending_outbox` test.
abbrev pub is_pending : Table JobRow → ℕ × OutboxEntry → Bool
is_pending jobs (_, e) = is_none e.published_at_ms && is_publishing (find e.inference_id jobs)

unfoldable pub pending_rows : ℕ → Db → List (ℕ × OutboxEntry)
pending_rows limit d = take limit (sort_by by_id (select (is_pending d.jobs) d.outbox))

unfoldable pub pending_outbox : ℕ → Ledger → Result (List OutboxRow)
unfolding pending_rows
pending_outbox limit = read λ d. map row_to_outbox (pending_rows limit d)

pub outbox_for : Text → Ledger → Result (List OutboxRow)
outbox_for ident =
    read
      λ d. map row_to_outbox (sort_by by_id (select (λ row. row.1.inference_id == ident) d.outbox))

-- A gating row of the job that no confirmation has reached.
abbrev pub is_outstanding : Text → OutboxEntry → Bool
is_outstanding ident e = e.inference_id == ident && e.gating && is_none e.published_at_ms

unfoldable pub outstanding : Text → Db → ℕ
outstanding ident d = count_where (is_outstanding ident) d.outbox

-- `UPDATE outbox SET published_at_ms = ?, last_error = NULL WHERE id = ?`
unfoldable pub confirm : ℕ → ℕ → Db → Db
confirm outbox_id now d = record d {
  outbox =
      update outbox_id (λ e. record e { published_at_ms = some now; last_error = none }) d.outbox;
}

-- The end of `mark_published`, once no gating row is outstanding.
unfoldable pub finish_publication : Text → Txn (Unit {0})
finish_publication ident = do
  row ← or_raise (← query (λ d. find ident d.jobs)) type_error
  if is row.state publish_pending
      then (do _ ← set_state ident (some publish_pending) published []; pure tt)
      else pure tt

unfoldable pub mark_published_txn : ℕ → Txn (Unit {0})
unfolding confirm outstanding finish_publication
mark_published_txn outbox_id = do
  entry ← or_raise (← query (λ d. find outbox_id d.outbox)) conflict
  now ← read_clock
  execute (confirm outbox_id now)
  left ← query (outstanding entry.inference_id)
  if left == 0 then finish_publication entry.inference_id else pure tt

unfoldable pub mark_published : ℕ → Txn (Unit {0})
mark_published outbox_id = write (mark_published_txn outbox_id)

abbrev pub is_unpublished : Option OutboxEntry → Bool
is_unpublished none = false
is_unpublished (some e) = is_none e.published_at_ms

-- `UPDATE outbox SET attempts = attempts + 1, last_error = ?` of an unpublished row
unfoldable pub count_attempt : ℕ → Text → Db → Db
count_attempt outbox_id error d = record d {
  outbox =
      update outbox_id
        (λ e.
          if is_none e.published_at_ms
          then record e { attempts = e.attempts + 1; last_error = some error }
          else e)
        d.outbox;
}

unfoldable pub mark_publish_attempt_txn : ℕ → Text → Txn (Unit {0})
unfolding count_attempt
mark_publish_attempt_txn outbox_id error = do
  entry ← query (λ d. find outbox_id d.outbox)
  execute (count_attempt outbox_id error)
  raise_if (not (is_unpublished entry)) conflict

unfoldable pub mark_publish_attempt : ℕ → Text → Txn (Unit {0})
mark_publish_attempt outbox_id error = write (mark_publish_attempt_txn outbox_id error)

unfoldable pub exhaust_publish : Text → Txn Job
exhaust_publish ident = transition ident publish_pending publish_exhausted []

-- `UPDATE outbox SET attempts = 0, last_error = NULL` of the job's unpublished rows
unfoldable pub reset_attempts : Text → Db → Db
reset_attempts ident d = record d {
  outbox =
      update_where (λ e. e.inference_id == ident && is_none e.published_at_ms)
        (λ e. record e { attempts = 0; last_error = none }) d.outbox;
}

unfoldable pub retry_publication_txn : Text → Txn Job
unfolding reset_attempts
retry_publication_txn ident = do
  job ← set_state ident (some publish_exhausted) publish_pending []
  execute (reset_attempts ident)
  pure job

unfoldable pub retry_publication : Text → Txn Job
retry_publication ident = write (retry_publication_txn ident)
