-- ===== src/Types.antt =====
-- image_processor/types.py: the durable job states and the values that the ledger stores. A text
-- is only stored and compared here, for equality and by SQLite's order: a number stands for it.
use image_processor.Base.{ℤ, ℕ, Bool, true, false, ◌||◌, Option, List, [], ◌∷◌, test}

abbrev pub Text : Type 0
Text = ℕ

abbrev pub Bytes : Type 0
Bytes = List ℕ

pub data JobState : Type 0 where
  discovered ready input_invalid quarantined claimed waiting_model inferencing : JobState
  blocked_configuration retry_wait processing_exhausted retained_failed : JobState
  result_committed publish_pending published publish_exhausted : JobState
  cleanup_pending cleanup_failed completed : JobState

unfoldable pub JobState-discrete : Discrete JobState
JobState-discrete = hlevel

-- `a is b`
abbrev pub is : JobState → JobState → Bool
is a b = test (JobState-discrete a b)

-- `a in (b, ...)`
abbrev pub is_in : JobState → List JobState → Bool
is_in a [] = false
is_in a (b ∷ bs) = is a b || is_in a bs

-- `state in TERMINAL_STATES`
unfoldable pub is_terminal : JobState → Bool
is_terminal quarantined = true
is_terminal retained_failed = true
is_terminal completed = true
is_terminal _ = false

pub data SourceKind : Type 0 where
  spool inline reference : SourceKind

pub data CompletionAction : Type 0 where
  archive delete retain quarantine : CompletionAction

pub record ModelRef : Type 0 where
  pub id : Text
  pub version : Text
  pub digest : Text

pub record SourceIdentity : Type 0 where
  pub kind : SourceKind
  pub route_id : Text
  pub relative_path : Text
  pub bytes : ℕ
  pub sha256 : Text
  pub capture_id : Option Text
  pub camera_id : Option Text
  pub correlation_id : Option Text
  pub reply_to : Option Text
  pub captured_at_ms : Option ℤ

pub record Job : Type 0 where
  pub inference_id : Text
  pub route_id : Text
  pub source : SourceIdentity
  pub model : ModelRef
  pub transform_version : Text
  pub state : JobState
  pub attempts : ℕ
  pub next_attempt_at_ms : Option ℕ
  pub staged_path : Option Text
  pub config_generation : ℕ

pub record CleanupIntent : Type 0 where
  pub inference_id : Text
  pub action : CompletionAction
  pub source_path : Text
  pub source_sha256 : Text
  pub target_path : Option Text
  pub members : List Text
