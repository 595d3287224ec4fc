-- ===== src/Ledger/Schema.antt =====
-- image_processor/ledger/schema.py: the lifecycle edges and the rows of the state database; and
-- the recovery edges of image_processor/ledger/recovery.py. The columns in JSON
-- hold the value that the text encodes.
use image_processor.Ledger.Columns.{SourceJson, ModelJson, decode_source, decode_model}
use image_processor.Base.{ℕ, Bool, Option, List, [], ◌∷◌}
use image_processor.Table.{Table}
use image_processor.Types.{
  Text, Bytes, JobState, is_in, Job, CompletionAction, CleanupIntent, discovered, ready,
  input_invalid, quarantined, claimed, waiting_model, inferencing, blocked_configuration,
  retry_wait, processing_exhausted, retained_failed, result_committed, publish_pending, published,
  publish_exhausted, cleanup_pending, cleanup_failed, completed,
}

-- `TRANSITIONS`, by the state that an edge leaves.
unfoldable pub successors : JobState → List JobState
successors discovered = ready ∷ input_invalid ∷ []
successors input_invalid = quarantined ∷ []
successors ready = claimed ∷ []
successors claimed = waiting_model ∷ []
successors waiting_model = inferencing ∷ blocked_configuration ∷ retry_wait ∷ []
successors inferencing = result_committed ∷ retry_wait ∷ processing_exhausted ∷ []
successors processing_exhausted = retained_failed ∷ []
successors result_committed = publish_pending ∷ []
successors publish_pending = published ∷ publish_exhausted ∷ []
successors publish_exhausted = publish_pending ∷ []
successors published = cleanup_pending ∷ []
successors cleanup_pending = completed ∷ cleanup_failed ∷ []
successors cleanup_failed = cleanup_pending ∷ []
successors retry_wait = ready ∷ []
successors _ = []

unfoldable pub is_legal : JobState → JobState → Bool
unfolding successors
is_legal current new = is_in new (successors current)

-- `RECOVERY_EDGES`, by the state that an edge leaves.
unfoldable pub recovery_successors : JobState → List JobState
recovery_successors inferencing = ready ∷ []
recovery_successors claimed = ready ∷ []
recovery_successors waiting_model = ready ∷ []
recovery_successors retry_wait = ready ∷ []
recovery_successors result_committed = ready ∷ []
recovery_successors publish_pending = ready ∷ []
recovery_successors blocked_configuration = ready ∷ []
recovery_successors _ = []

unfoldable pub is_recovery_edge : JobState → JobState → Bool
unfolding recovery_successors
is_recovery_edge current new = is_in new (recovery_successors current)

-- `state in INITIAL_STATES`
abbrev pub is_initial : JobState → Bool
is_initial s = is_in s (discovered ∷ ready ∷ [])

-- A row of `jobs`, less its primary key `inference_id`.
pub record JobRow : Type 0 where
  pub route_id : Text
  pub state : JobState
  pub source_json : SourceJson
  pub model_json : ModelJson
  pub transform_version : Text
  pub attempts : ℕ
  pub next_attempt_at_ms : Option ℕ
  pub staged_path : Option Text
  pub config_generation : ℕ
  pub result_json : Option Bytes
  pub result_sha256 : Option Text
  pub sidecar_path : Option Text
  pub sidecar_sha256 : Option Text
  pub last_error : Option Text
  pub created_at_ms : ℕ
  pub updated_at_ms : ℕ

-- A row of `outbox`, less its key `id`.
pub record OutboxEntry : Type 0 where
  pub inference_id : Text
  pub topic : Text
  pub payload : Bytes
  pub gating : Bool
  pub attempts : ℕ
  pub last_error : Option Text
  pub published_at_ms : Option ℕ

-- A row of `cleanup_intents`, less its key `inference_id`.
pub record IntentRow : Type 0 where
  pub action : CompletionAction
  pub source_path : Text
  pub source_sha256 : Text
  pub target_path : Option Text
  pub members_json : List Text
  pub observed : Option Text
  pub created_at_ms : ℕ

-- A row of `route_generations`, less its key `route_id`.
pub record GenerationRow : Type 0 where
  pub desired : Option Text
  pub active : Option Text
  pub updated_at_ms : ℕ

unfoldable pub row_to_job : Text → JobRow → Job
row_to_job ident r = record {
  inference_id = ident;
  route_id = r.route_id;
  source = decode_source r.source_json;
  model = decode_model r.model_json;
  transform_version = r.transform_version;
  state = r.state;
  attempts = r.attempts;
  next_attempt_at_ms = r.next_attempt_at_ms;
  staged_path = r.staged_path;
  config_generation = r.config_generation;
}

unfoldable pub row_to_intent : Text → IntentRow → CleanupIntent
row_to_intent ident r = record {
  inference_id = ident;
  action = r.action;
  source_path = r.source_path;
  source_sha256 = r.source_sha256;
  target_path = r.target_path;
  members = r.members_json;
}

-- The tables of `DDL` that hold jobs and what hangs on them. `next_outbox_id` is what
-- AUTOINCREMENT hands out next.
pub record Db : Type 0 where
  pub jobs : Table JobRow
  pub outbox : Table OutboxEntry
  pub next_outbox_id : ℕ
  pub cleanup_intents : Table IntentRow
  pub route_generations : Table GenerationRow
  pub reservations : Table ℕ
  pub kv : Table (Option Text)
