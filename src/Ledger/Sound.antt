-- ===== src/Ledger/Sound.antt =====
-- The invariant of the state database (image_processor/ledger/ledger.py).
pub mod Moves
pub mod Edges
pub mod Transactions
pub mod Publication
pub mod Results
pub mod Cleanups
pub mod Restarts
pub mod Loops
pub mod Admission
use image_processor.Base.{
  ℕ, ◌≤◌, ◌≡◌, Bool, true, false, not, ◌&&◌, Option, none, some, ◌==◌, is_some,
}
use image_processor.Table.{IsKeyed, find, sum, count_where}
use image_processor.Types.{
  Text, JobState, is_terminal, discovered, ready, input_invalid, quarantined, claimed,
  waiting_model, inferencing, blocked_configuration, retry_wait, processing_exhausted,
  retained_failed, result_committed, publish_pending, published, publish_exhausted, cleanup_pending,
  cleanup_failed, completed,
}
use image_processor.Ledger.Schema.{OutboxEntry, Db}
use image_processor.Ledger.Store.{Ledger}
use image_processor.Ledger.Jobs.Moves.{status}
use image_processor.Ledger.Outbox.{outstanding}

-- The job was admitted and has not ended.
unfoldable pub is_open : Option JobState → Bool
unfolding is_terminal
is_open none = false
is_open (some s) = not (is_terminal s)

-- The states that a job reaches only once its result was confirmed.
unfoldable pub is_past : Option JobState → Bool
is_past none = false
is_past (some published) = true
is_past (some cleanup_pending) = true
is_past (some cleanup_failed) = true
is_past (some completed) = true
is_past (some _) = false

-- The states of a job that has no result.
unfoldable pub is_early : Option JobState → Bool
is_early none = true
is_early (some result_committed) = false
is_early (some publish_pending) = false
is_early (some publish_exhausted) = false
is_early (some published) = false
is_early (some cleanup_pending) = false
is_early (some cleanup_failed) = false
is_early (some completed) = false
is_early (some _) = true

-- The states of a job whose files may be under cleanup.
unfoldable pub is_cleaning : Option JobState → Bool
is_cleaning none = false
is_cleaning (some input_invalid) = true
is_cleaning (some quarantined) = true
is_cleaning (some processing_exhausted) = true
is_cleaning (some retained_failed) = true
is_cleaning (some cleanup_pending) = true
is_cleaning (some cleanup_failed) = true
is_cleaning (some completed) = true
is_cleaning (some _) = false

abbrev pub held : Text → Db → Bool
held k d = is_some (find k d.reservations)

abbrev pub has_intent : Text → Db → Bool
has_intent k d = is_some (find k d.cleanup_intents)

abbrev pub is_row_of : Text → OutboxEntry → Bool
is_row_of k e = e.inference_id == k

-- How many messages of a job the outbox holds.
unfoldable pub rows_of : Text → Db → ℕ
rows_of k d = count_where (is_row_of k) d.outbox

-- The invariant, but for what it says of the outbox and the intent of one job.
pub record IsSoundBut (ident : Text) (budget : ℕ) (d : Db) : Type 0 where
  pub keyed : IsKeyed d.jobs
  pub reserved : (k : Text) → held k d ≡ is_open (status k d)
  pub within : sum d.reservations ≤ budget
  pub confirmed :
      (k : Text) → (ident == k) ≡ false → is_past (status k d) ≡ true → outstanding k d ≡ 0
  pub unprepared :
      (k : Text) → (ident == k) ≡ false → is_early (status k d) ≡ true → rows_of k d ≡ 0
  pub intended :
      (k : Text) → (ident == k) ≡ false → has_intent k d ≡ true → is_cleaning (status k d) ≡ true

-- The invariant. A job holds a reservation exactly while it is open, and the reservations fit the
-- budget; a job beyond publication has no gating message left unconfirmed; a job with no result
-- has no message at all; and an intent stands only for a job under cleanup.
pub record IsSound (budget : ℕ) (d : Db) : Type 0 where
  pub keyed : IsKeyed d.jobs
  pub reserved : (k : Text) → held k d ≡ is_open (status k d)
  pub within : sum d.reservations ≤ budget
  pub confirmed : (k : Text) → is_past (status k d) ≡ true → outstanding k d ≡ 0
  pub unprepared : (k : Text) → is_early (status k d) ≡ true → rows_of k d ≡ 0
  pub intended : (k : Text) → has_intent k d ≡ true → is_cleaning (status k d) ≡ true

-- A ledger whose database is sound.
abbrev pub Sound : Ledger → Type 0
Sound l = IsSound l.reserve_budget_bytes l.db
