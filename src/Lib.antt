-- ===== src/Lib.antt =====
-- The durable core of the image processor: the component takes images from a spool or a trigger
-- topic, runs a model on each, publishes one confirmed result per image and then archives, deletes
-- or keeps the image. A job's state lives in a SQLite database, the ledger, and every other part
-- works through it.
--
-- Parts, and where they stand:
--   Types         image_processor/types.py: job states, jobs, cleanup intents.
--   Table         the SQL statements that the ledger issues, on one table as a list of rows.
--   Ledger        image_processor/ledger/: Schema (schema.py, the edges of recovery.py), Store (the
--                 writer thread's transaction), Jobs, Outbox, Cleanup, Recovery and Values (the
--                 sections of ledger.py, recovery.py), each function under its source name; Sound
--                 (the invariant of the database, call by call) and History (all calls in sequence).
--                 Lifecycle has the edges that a job may take, call by call.
--   Completion    image_processor/completion/actions.py: Disk (FsOps, over a disk whose operations may
--                 fail), Install (`_install`), Execute (`_execute`), Plan (`plan`), Apply (`apply` and
--                 `reconcile`, over the ledger and the disk); the other files have the lemmas.
--   Decision      image_processor/engine/decision.py: Rules (rule expressions), Decide (`decide`).
--   Residency     image_processor/engine/residency.py: Admission (`admit`), Eviction (`victims`), Probe.
--   Scheduler     image_processor/engine/scheduler.py: the queues, Answers (what a reply does to its
--                 job), Lanes (`_ranked_lanes`), Attempts (the attempts of one job), Cells (the control
--                 requests, with Loading and Admitting for `_ensure_resident`, and Dispatch for
--                 `_dispatch_one`, Rounds for `run_once` and Commands for the operator's commands).
--   Supervisor    image_processor/engine/supervisor.py: the restart budget of the cells.
--   Sources       image_processor/sources/readiness.py: Readiness (verdicts), Stability (quiet timers),
--                 Route (`Readiness.for_route` and the calls passed on); Timestamps
--                 (`parse_timestamp_ms`).
--   Protocol      image_processor/engine/protocol.py: Tables, Messages (`bound_message`), Classify (what
--                 a failure means) and Providers (the provider policy).
--   Chars         what Python's `str` methods do to characters.
--   Publisher     image_processor/outputs/publisher.py: one pass of the drain, over the ledger.
--   Examples      runs on small data, and the theorems at concrete inputs.
--
-- How the code is read. A call of the ledger is a function from the ledger to a result and the
-- ledger after it; a raise is a value. The closure that a call hands to the writer thread runs in
-- one transaction: Store.write keeps what it wrote if it returned and restores the tables if it
-- raised. Since one thread runs all closures, concurrent callers are a sequence of calls. The clock
-- is an arbitrary sequence of readings. Texts are only stored and compared, so they are numbers;
-- byte strings are lists of numbers; the columns source_json and model_json (Columns) hold the
-- object that the JSON text encodes. A read of a closed ledger raises, as sqlite3 does. Keyword arguments are a list of assignments. Every loop of the code runs over a
-- list and needs no fuel; `keep_failing`, which repeats the attempts of a job, takes a count of them,
-- and what is proved of it names the count that is enough.
--
-- The decision rules read JSON values; jsonpath-ng, floats and Python's equality of values are the
-- operations of a record that the theorems leave open, and so are the floats of the residency
-- policy. The publisher's transport and stop flag are functions of a count. The disk of the
-- completion actions is a function from paths to contents, and the n-th operation on it does what an
-- arbitrary sequence of faults says; pathlib's paths are lists of components, and the digest function
-- is a parameter. What the scheduler tells the application or the supervisor is an effect that the
-- call returns. A message is the list of its code points. What a cell answers to each request and
-- what the bundle cache finds are arbitrary functions of a count of the requests. The readiness rules
-- take what the file system answers, the clock, and what `re` and `datetime` answer on a timestamp
-- (Timestamps) as arguments.
--
-- Not modelled: SQLite itself (its statements are taken at their documented meaning, and I/O errors
-- are left out), hashlib (a parameter), logging, paged listings and counts of jobs, the
-- JSON bodies that completion/actions.py writes, the thread and the status report of
-- engine/scheduler.py, the executor cells of engine/, task families and image decoding,
-- the walk of the spool, staging, triggers and the camera reconciler of sources/, bundles/, config/,
-- and the wiring in ImageProcessor.py.
pub mod Base
pub mod Chars
pub mod Table
pub mod Types
pub mod Protocol
pub mod Ledger
pub mod Publisher
pub mod Completion
pub mod Decision
pub mod Residency
pub mod Scheduler
pub mod Supervisor
pub mod Sources
pub mod Examples
