-- ===== src/Completion/Apply.antt =====
-- `apply` and `reconcile` of image_processor/completion/actions.py, over the ledger and the disk.
use Prim.Native.String.{String}
use image_processor.Base.{ℕ, Option, none, some, List, if◌then◌else◌}
use image_processor.Types.{Text, Bytes, JobState, is_terminal, Job, CleanupIntent}
use image_processor.Ledger.Store.{Ledger, LedgerError, Result, ok, err}
use image_processor.Ledger.Jobs.{get}
use image_processor.Ledger.Cleanup.{record_cleanup_intent, complete_cleanup, fail_cleanup}
use image_processor.Completion.{FilePath, Failure, CollisionPolicy}
use image_processor.Completion.Disk.{Fault, Disk, Outcome, done, failed}
use image_processor.Completion.Install.{FileIntent, Installed, Observed}
use image_processor.Completion.Execute.{execute}

-- `class Completer`: the ledger, the disk, and the collision policy of the component.
pub record Completer : Type 0 where
  pub ledger : Ledger
  pub disk : Disk
  pub on_collision : CollisionPolicy

-- What `apply` and `reconcile` raise: an error of the ledger, or a `CleanupError`.
pub data ApplyError : Type 0 where
  from_ledger : LedgerError → ApplyError
  from_cleanup : Failure → ApplyError

pub data Reply (A : Type 0) : Type 0 where
  returned : A → Reply A
  raised : ApplyError → Reply A

-- `on_collision or self._on_collision`
abbrev pub policy_or : Option CollisionPolicy → CollisionPolicy → CollisionPolicy
policy_or none p = p
policy_or (some p) _ = p

-- What the files hold and how texts name them: hashlib, the bodies of the two JSON records, the
-- paths of an intent, and the texts that are stored for an outcome or a failure.
pub record Codec : Type 0 where
  pub sha256 : Bytes → String
  pub error_record : CleanupIntent → Ledger → FilePath → Bytes
  pub bundle_manifest : CleanupIntent → FilePath → List Installed → Bytes
  pub paths : CleanupIntent → FileIntent
  pub observed_text : Observed → Text
  pub failure_text : Failure → Text

-- `settled is not None and settled.state in TERMINAL_STATES`
unfoldable pub settled : Option Job → Option JobState
unfolding is_terminal
settled none = none
settled (some job) = if is_terminal job.state then some job.state else none

module _ (faults : ℕ → Fault) (codec : Codec) where
  -- `self._execute(intent, on_collision or self._on_collision)`
  unfoldable pub executed :
      CleanupIntent → Option CollisionPolicy → Completer → Outcome Observed × Disk
  executed intent on_collision c =
      execute faults codec.sha256 (codec.error_record intent c.ledger)
        (codec.bundle_manifest intent) (codec.paths intent) (policy_or on_collision c.on_collision)
        c.disk

  -- `complete_cleanup` at the end of `apply`
  abbrev pub completed_reply :
      {A : Type 0} → (Job → A) → Completer → Result Job × Ledger → Reply A × Completer
  completed_reply f c (ok job, l) = (returned (f job), record c { ledger = l })
  completed_reply f c (err e, l) = (raised (from_ledger e), record c { ledger = l })

  -- `fail_cleanup` in `apply`, which raises either way
  abbrev pub failed_reply : Failure → Completer → Result Job × Ledger → Reply (Unit {0}) × Completer
  failed_reply e c (ok job, l) = (raised (from_cleanup e), record c { ledger = l })
  failed_reply e c (err x, l) = (raised (from_ledger x), record c { ledger = l })

  -- What `apply` makes of an execution.
  unfoldable pub apply_outcome :
      CleanupIntent → Completer → Outcome Observed × Disk → Reply (Unit {0}) × Completer
  unfolding complete_cleanup fail_cleanup
  apply_outcome intent c (done observed, d) =
      completed_reply (λ _. tt) (record c { disk = d })
        (complete_cleanup intent.inference_id (codec.observed_text observed) c.ledger)
  apply_outcome intent c (failed e, d) =
      failed_reply e (record c { disk = d })
        (fail_cleanup intent.inference_id (codec.failure_text e) c.ledger)

  -- What `apply` does once the intent is recorded.
  unfoldable pub apply_recorded :
      CleanupIntent
      → Option CollisionPolicy
      → Completer
      → Result Job × Ledger
      → Reply (Unit {0}) × Completer
  unfolding executed apply_outcome
  apply_recorded intent on_collision c (err e, l) =
      (raised (from_ledger e), record c { ledger = l })
  apply_recorded intent on_collision c (ok job, l) =
      apply_outcome intent (record c { ledger = l })
        (executed intent on_collision (record c { ledger = l }))

  -- `apply`
  unfoldable pub apply :
      CleanupIntent → Option CollisionPolicy → Completer → Reply (Unit {0}) × Completer
  unfolding apply_recorded record_cleanup_intent
  apply intent on_collision c =
      apply_recorded intent on_collision c (record_cleanup_intent intent c.ledger)

  -- What `reconcile` makes of an execution: either way the state that the ledger hands back.
  unfoldable pub reconcile_outcome :
      CleanupIntent → Completer → Outcome Observed × Disk → Reply JobState × Completer
  unfolding complete_cleanup fail_cleanup
  reconcile_outcome intent c (done observed, d) =
      completed_reply (λ job. job.state) (record c { disk = d })
        (complete_cleanup intent.inference_id (codec.observed_text observed) c.ledger)
  reconcile_outcome intent c (failed e, d) =
      completed_reply (λ job. job.state) (record c { disk = d })
        (fail_cleanup intent.inference_id (codec.failure_text e) c.ledger)

  unfoldable pub reconcile_recorded :
      CleanupIntent
      → Option CollisionPolicy
      → Completer
      → Result Job × Ledger
      → Reply JobState × Completer
  unfolding executed reconcile_outcome
  reconcile_recorded intent on_collision c (err e, l) =
      (raised (from_ledger e), record c { ledger = l })
  reconcile_recorded intent on_collision c (ok job, l) =
      reconcile_outcome intent (record c { ledger = l })
        (executed intent on_collision (record c { ledger = l }))

  -- `reconcile` of a job that is not settled
  unfoldable pub reconcile_open :
      CleanupIntent → Option CollisionPolicy → Completer → Reply JobState × Completer
  unfolding reconcile_recorded record_cleanup_intent
  reconcile_open intent on_collision c =
      reconcile_recorded intent on_collision c (record_cleanup_intent intent c.ledger)

  unfoldable pub reconcile_from :
      CleanupIntent
      → Option CollisionPolicy
      → Completer
      → Option JobState
      → Reply JobState × Completer
  unfolding reconcile_open
  reconcile_from intent on_collision c (some state) = (returned state, c)
  reconcile_from intent on_collision c none = reconcile_open intent on_collision c

  -- `reconcile`, by what `get` gave
  unfoldable pub reconcile_read :
      CleanupIntent
      → Option CollisionPolicy
      → Completer
      → Result (Option Job)
      → Reply JobState × Completer
  unfolding settled reconcile_from
  reconcile_read intent on_collision c (err e) = (raised (from_ledger e), c)
  reconcile_read intent on_collision c (ok found) =
      reconcile_from intent on_collision c (settled found)

  -- `reconcile`
  unfoldable pub reconcile :
      CleanupIntent → Option CollisionPolicy → Completer → Reply JobState × Completer
  unfolding reconcile_read get
  reconcile intent on_collision c =
      reconcile_read intent on_collision c (get intent.inference_id c.ledger)
