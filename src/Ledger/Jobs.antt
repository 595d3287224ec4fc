-- ===== src/Ledger/Jobs.antt =====
-- The jobs section of image_processor/ledger/ledger.py: admission, the compare-and-set that every
-- lifecycle edge goes through, and the queries over jobs.
pub mod Moves
pub mod Transition
pub mod Admission
use image_processor.Ledger.Columns.{encode_source, encode_model}
use image_processor.Base.{
  ℕ, suc, ◌+◌, ◌≡◌, ℤ, pos, negsuc, Bool, true, false, not, ◌&&◌, ◌||◌, Option, none, some, List,
  [], ◌∷◌, map, ◌==◌, ltb, leb, if◌then◌else◌, is_some, length, take, select, sort_by,
}
use image_processor.Table.{Table, find, insert, update, delete, sum}
use image_processor.Types.{Text, JobState, is, is_in, is_terminal, Job, ready}
use image_processor.Ledger.Schema.{JobRow, Db, is_initial, is_legal, row_to_job}
use image_processor.Ledger.Store.{
  Ledger, Txn, Result, read, ok, err, conflict, illegal_transition, value_error, type_error,
  index_error, pure, raise, query, or_raise, ◌>>=◌, ◌>>◌, raise_if, execute, read_clock, write,
}

-- The keyword arguments `**fields`; `other` is a column that no transition may set.
pub data Field : Type 0 where
  attempts config_generation : ℕ → Field
  next_attempt_at_ms : Option ℕ → Field
  staged_path last_error : Option Text → Field
  other : Text → Field

-- `set(fields) - MUTABLE_JOB_FIELDS` is not empty
unfoldable pub any_unknown : List Field → Bool
any_unknown [] = false
any_unknown (other _ ∷ fs) = true
any_unknown (f ∷ fs) = any_unknown fs

assign_one : Field → JobRow → JobRow
assign_one (attempts n) r = record r { attempts = n }
assign_one (config_generation n) r = record r { config_generation = n }
assign_one (next_attempt_at_ms t) r = record r { next_attempt_at_ms = t }
assign_one (staged_path p) r = record r { staged_path = p }
assign_one (last_error e) r = record r { last_error = e }
assign_one (other _) r = r

unfoldable pub assign : List Field → JobRow → JobRow
unfolding assign_one
assign [] r = r
assign (f ∷ fs) r = assign fs (assign_one f r)

-- `UPDATE jobs SET state = ?, updated_at_ms = ?, ... WHERE inference_id = ?`
unfoldable pub put_state : Text → JobState → List Field → ℕ → Db → Db
unfolding assign
put_state ident new fields now d = record d {
  jobs = update ident (λ r. assign fields (record r { state = new; updated_at_ms = now })) d.jobs;
}

-- `DELETE FROM reservations`, for a state that releases the reservation
unfoldable pub release : Text → JobState → Db → Db
release ident new d =
    if is_terminal new then record d { reservations = delete ident d.reservations } else d

-- `SELECT ... FROM jobs WHERE inference_id = ?`, read into a job
unfoldable pub fetch_job : Text → Txn Job
fetch_job ident = do
  row ← or_raise (← query (λ d. find ident d.jobs)) type_error
  pure (row_to_job ident row)

-- `current is not expected`, unless nothing is expected
abbrev pub is_unexpected : Option JobState → JobState → Bool
is_unexpected none current = false
is_unexpected (some expected) current = not (is current expected)

unfoldable pub set_state : Text → Option JobState → JobState → List Field → Txn Job
unfolding put_state release fetch_job
set_state ident expected new fields = do
  raise_if (any_unknown fields) value_error
  row ← or_raise (← query (λ d. find ident d.jobs)) conflict
  raise_if (is_unexpected expected row.state) conflict
  raise_if (not (is row.state new) && not (is_legal row.state new)) illegal_transition
  now ← read_clock
  execute (put_state ident new fields now)
  execute (release ident new)
  fetch_job ident

unfoldable pub transition : Text → JobState → JobState → List Field → Txn Job
transition ident expected new fields = write (set_state ident (some expected) new fields)

-- The row that admission inserts into `jobs`.
unfoldable pub new_row : Job → ℕ → JobRow
new_row job now = record {
  route_id = job.route_id;
  state = job.state;
  source_json = encode_source job.source;
  model_json = encode_model job.model;
  transform_version = job.transform_version;
  attempts = job.attempts;
  next_attempt_at_ms = job.next_attempt_at_ms;
  staged_path = job.staged_path;
  config_generation = job.config_generation;
  result_json = none;
  result_sha256 = none;
  sidecar_path = none;
  sidecar_sha256 = none;
  last_error = none;
  created_at_ms = now;
  updated_at_ms = now;
}

-- The two INSERT statements of `admit`.
unfoldable pub insert_job : Job → ℕ → ℕ → Db → Db
unfolding new_row
insert_job job reserve now d = record d {
  jobs = insert job.inference_id (new_row job now) d.jobs;
  reservations = insert job.inference_id reserve d.reservations;
}

-- The closure that `admit` hands to the writer.
unfoldable pub admit_txn : Job → ℕ → Txn Bool
unfolding insert_job
admit_txn job reserve l =
    if is_some (find job.inference_id l.db.jobs)
    then (ok false, l)
    else (if ltb l.reserve_budget_bytes (sum l.db.reservations + reserve)
        then (ok false, l)
        else (do now ← read_clock; execute (insert_job job reserve now); pure true) l)

unfoldable pub admit : Job → ℤ → Txn Bool
admit job reserve_bytes =
    if not (is_initial job.state) then raise illegal_transition else elim reserve_bytes [
      | negsuc _ ↦ raise value_error
      | pos reserve ↦ write (admit_txn job reserve)
    ]

unfoldable pub reserved_bytes : Ledger → Result ℕ
reserved_bytes = read λ d. sum d.reservations

-- The row of a job, if there is one, read into a job.
abbrev pub stored_job : Text → Db → Option Job
stored_job ident d = elim (find ident d.jobs) [ none ↦ none | some r ↦ some (row_to_job ident r) ]

unfoldable pub get : Text → Ledger → Result (Option Job)
get ident = read (stored_job ident)

-- `ORDER BY created_at_ms, inference_id`
abbrev pub before : Text × JobRow → Text × JobRow → Bool
before (i, r) (j, s) =
    ltb r.created_at_ms s.created_at_ms || r.created_at_ms == s.created_at_ms && leb i j

abbrev pub on_route : Option Text → JobRow → Bool
on_route none r = true
on_route (some route_id) r = r.route_id == route_id

-- `next_attempt_at_ms IS NULL OR next_attempt_at_ms <= ?`
abbrev pub is_due : ℕ → Option ℕ → Bool
is_due now none = true
is_due now (some at) = leb at now

abbrev pub as_job : Text × JobRow → Job
as_job (ident, r) = row_to_job ident r

-- What the WHERE clause of `claimable` tests.
abbrev pub is_claimable : Option Text → ℕ → Text × JobRow → Bool
is_claimable route_id now (_, r) =
    is r.state ready && is_due now r.next_attempt_at_ms && on_route route_id r

unfoldable pub claimable_rows : Option Text → ℕ → ℕ → Table JobRow → List (Text × JobRow)
claimable_rows route_id limit now jobs =
    take limit (sort_by before (select (is_claimable route_id now) jobs))

pub claimable : Option Text → ℕ → Txn (List Job)
unfolding claimable_rows
claimable route_id limit = do
  now ← read_clock
  rows ← λ l. (read (λ d. claimable_rows route_id limit now d.jobs) l, l)
  pure (map as_job rows)
