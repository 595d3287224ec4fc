-- ===== src/Publisher.antt =====
-- image_processor/outputs/publisher.py: the drain of the outbox over the ledger. The transport and
-- the stop flag are parameters: what the n-th publication answers, and what the n-th look at the
-- flag sees. The drain thread itself, which repeats `drain_once`, is left out.
pub mod Pass
pub mod Order
use image_processor.Base.{
  ℕ, zero, suc, ◌+◌, Bool, true, false, Option, none, some, List, [], ◌∷◌, ◌++◌, ltb, if◌then◌else◌,
}
use image_processor.Types.{Text, Bytes, is, Job, published}
use image_processor.Ledger.Store.{Ledger, LedgerError, Result, ok, err, conflict}
use image_processor.Ledger.Jobs.{get}
use image_processor.Ledger.Outbox.{
  OutboxRow, pending_outbox, mark_published, mark_publish_attempt, exhaust_publish,
}

-- What the publisher does to the outside: a publication, and the callbacks of its owner.
pub data Event : Type 0 where
  sent : Text → Bytes → Event
  published_job : Job → Event
  exhausted_job failed_job : Text → Text → Event

-- `class OutboxPublisher`, with its ledger, its counters and what it did so far. `sends` and
-- `looks` count the publications and the looks at the stop flag.
pub record OutboxPublisher : Type 0 where
  pub ledger : Ledger
  pub max_attempts : ℕ
  pub batch : ℕ
  pub attempted : ℕ
  pub published_count : ℕ
  pub failed : ℕ
  pub exhausted : ℕ
  pub last_error : Option Text
  pub events : List Event
  pub looks : ℕ

-- `max(1, n)`
abbrev at_least_one : ℕ → ℕ
at_least_one zero = 1
at_least_one (suc n) = suc n

-- `OutboxPublisher(ledger, publish, max_attempts=..., batch=...)`, with all three callbacks given
abbrev pub new_publisher : Ledger → ℕ → ℕ → OutboxPublisher
new_publisher ledger max_attempts batch = record {
  ledger = ledger;
  max_attempts = at_least_one max_attempts;
  batch = at_least_one batch;
  attempted = 0;
  published_count = 0;
  failed = 0;
  exhausted = 0;
  last_error = none;
  events = [];
  looks = 0;
}

abbrev pub log : Event → OutboxPublisher → OutboxPublisher
log e p = record p { events = p.events ++ e ∷ [] }

-- A call of the ledger on the id of a row. No row has the id None.
abbrev pub on_row :
    Option ℕ → (ℕ → Ledger → Result (Unit {0}) × Ledger) → Ledger → Result (Unit {0}) × Ledger
on_row none call l = (err conflict, l)
on_row (some outbox_id) call l = call outbox_id l

-- What follows `exhaust_publish` in `_record_failure`: a raise is passed over.
unfoldable pub gave_up : OutboxRow → Text → OutboxPublisher → Result Job × Ledger → OutboxPublisher
gave_up row error p (err _, l) = record p { ledger = l }
gave_up row error p (ok _, l) =
    log (exhausted_job row.inference_id error)
      (record p { ledger = l; exhausted = suc p.exhausted })

-- The budget of attempts in `_record_failure`.
unfoldable pub give_up : OutboxRow → Text → OutboxPublisher → OutboxPublisher
unfolding gave_up
give_up row error p =
    if ltb (row.attempts + 1) p.max_attempts
    then p
    else gave_up row error p (exhaust_publish row.inference_id p.ledger)

-- What follows `mark_publish_attempt` in `_record_failure`.
unfoldable pub failure_marked :
    OutboxRow
    → Text
    → OutboxPublisher
    → Result (Unit {0}) × Ledger
    → Result (Unit {0}) × OutboxPublisher
unfolding give_up
failure_marked row error p (err e, l) = (err e, record p { ledger = l })
failure_marked row error p (ok _, l) =
    (ok tt, give_up row error (log (failed_job row.inference_id error) (record p { ledger = l })))

-- `_record_failure`
unfoldable pub record_failure :
    OutboxRow → Text → OutboxPublisher → Result (Unit {0}) × OutboxPublisher
unfolding failure_marked
record_failure row error p =
    failure_marked row error (record p { failed = suc p.failed; last_error = some error })
      (on_row row.id (λ i. mark_publish_attempt i error) p.ledger)

-- The job that a confirmation has finished, if it has: `job.state is JobState.PUBLISHED`
unfoldable pub tell_published : Option Job → OutboxPublisher → OutboxPublisher
tell_published none p = p
tell_published (some job) p = if is job.state published then log (published_job job) p else p

-- What follows `get` in `_attempt`.
unfoldable pub job_read :
    Result (Option Job) → OutboxPublisher → Result (Unit {0}) × OutboxPublisher
unfolding tell_published
job_read (err e) p = (err e, p)
job_read (ok found) p = (ok tt, tell_published found p)

-- What follows `mark_published` in `_attempt`.
unfoldable pub success_marked :
    OutboxRow → OutboxPublisher → Result (Unit {0}) × Ledger → Result (Unit {0}) × OutboxPublisher
unfolding job_read get
success_marked row p (err e, l) = (err e, record p { ledger = l })
success_marked row p (ok _, l) =
    job_read (get row.inference_id l)
      (record p { ledger = l; published_count = suc p.published_count })

-- What follows a publication that the transport accepted.
unfoldable pub record_success : OutboxRow → OutboxPublisher → Result (Unit {0}) × OutboxPublisher
unfolding success_marked
record_success row p = success_marked row p (on_row row.id mark_published p.ledger)

-- How `_attempt` ended: confirmed, failed, or with an exception of the ledger.
pub data Attempt : Type 0 where
  confirmed refused : Attempt
  raised : LedgerError → Attempt

abbrev pub ended : Attempt → Result (Unit {0}) × OutboxPublisher → Attempt × OutboxPublisher
ended a (ok _, p) = (a, p)
ended a (err e, p) = (raised e, p)

-- `publish` answers nothing for a confirmation, and otherwise the error that is recorded.
module _ (publish : ℕ → Text → Bytes → Option Text) (is_stopped : ℕ → Bool) where
  -- `_attempt`, by what the transport answered
  unfoldable pub answered : Option Text → OutboxRow → OutboxPublisher → Attempt × OutboxPublisher
  unfolding record_failure record_success
  answered (some error) row p = ended refused (record_failure row error p)
  answered none row p = ended confirmed (record_success row p)

  -- `_attempt`
  unfoldable pub attempt : OutboxRow → OutboxPublisher → Attempt × OutboxPublisher
  unfolding answered
  attempt row p =
      answered (publish p.attempted row.topic row.encoded_bytes) row
        (log (sent row.topic row.encoded_bytes) (record p { attempted = suc p.attempted }))

  -- The loop of `drain_once` over the rows that it was handed.
  unfoldable pub drain : List OutboxRow → ℕ → OutboxPublisher → Result ℕ × OutboxPublisher
  unfolding attempt
  drain [] count p = (ok count, p)
  drain (row ∷ rows) count p =
      let q : OutboxPublisher = record p { looks = suc p.looks } in
      let (a, after) = attempt row q in
      let rest = drain rows (suc count) after in
      if is_stopped p.looks
      then (ok count, q)
      else elim a [ confirmed ↦ rest | refused ↦ (ok count, after) | raised e ↦ (err e, after) ]

  -- `drain_once`, of the rows that the ledger gave
  unfoldable pub drain_rows : Result (List OutboxRow) → OutboxPublisher → Result ℕ × OutboxPublisher
  unfolding drain
  drain_rows (err e) p = (err e, p)
  drain_rows (ok rows) p = drain rows 0 p

  unfoldable pub drain_once : OutboxPublisher → Result ℕ × OutboxPublisher
  unfolding drain_rows pending_outbox
  drain_once p = drain_rows (pending_outbox p.batch p.ledger) p
