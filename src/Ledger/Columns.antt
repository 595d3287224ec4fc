-- ===== src/Ledger/Columns.antt =====
-- The JSON columns of a job (image_processor/ledger/schema.py). A column is taken to be the object
-- that its encoder writes, with one field for each key; what `.get` reads may be null. `json.loads`
-- gives back what `json.dumps` wrote, and the value of an enumeration stands for its member.
use image_processor.Base.{ℕ, ℤ, ◌≡◌, refl, Option}
use image_processor.Types.{Text, SourceKind, SourceIdentity, ModelRef}

-- The object in `source_json`, its keys sorted.
pub record SourceJson : Type 0 where
  pub bytes : ℕ
  pub camera_id : Option Text
  pub capture_id : Option Text
  pub captured_at_ms : Option ℤ
  pub correlation_id : Option Text
  pub kind : SourceKind
  pub relative_path : Text
  pub reply_to : Option Text
  pub route_id : Text
  pub sha256 : Text

-- The object in `model_json`, its keys sorted.
pub record ModelJson : Type 0 where
  pub digest : Text
  pub id : Text
  pub version : Text

unfoldable pub encode_source : SourceIdentity → SourceJson
encode_source source = record {
  kind = source.kind;
  route_id = source.route_id;
  relative_path = source.relative_path;
  bytes = source.bytes;
  sha256 = source.sha256;
  capture_id = source.capture_id;
  camera_id = source.camera_id;
  correlation_id = source.correlation_id;
  reply_to = source.reply_to;
  captured_at_ms = source.captured_at_ms;
}

unfoldable pub decode_source : SourceJson → SourceIdentity
decode_source blob = record {
  kind = blob.kind;
  route_id = blob.route_id;
  relative_path = blob.relative_path;
  bytes = blob.bytes;
  sha256 = blob.sha256;
  capture_id = blob.capture_id;
  camera_id = blob.camera_id;
  correlation_id = blob.correlation_id;
  reply_to = blob.reply_to;
  captured_at_ms = blob.captured_at_ms;
}

unfoldable pub encode_model : ModelRef → ModelJson
encode_model model = record { id = model.id; version = model.version; digest = model.digest }

unfoldable pub decode_model : ModelJson → ModelRef
decode_model blob = record { id = blob.id; version = blob.version; digest = blob.digest }

-- A column gives back what was stored in it.
pub decode_source-encode_source :
    (source : SourceIdentity) → decode_source (encode_source source) ≡ source
unfolding decode_source encode_source
decode_source-encode_source source = refl

pub decode_model-encode_model : (model : ModelRef) → decode_model (encode_model model) ≡ model
unfolding decode_model encode_model
decode_model-encode_model model = refl
