-- ===== src/Sources/Readiness.antt =====
-- image_processor/sources/readiness.py: the four ways in which a spool file proves that it is
-- finished. What the file system answers during one judgement is an argument, as are the clock,
-- what the libraries make of a timestamp, and the numbers of a JSON document.
pub mod Stability
pub mod Timers
pub mod Steady
pub mod Route
pub mod Declared
pub mod Proof
use image_processor.Sources.Timestamps.{TimeOps, parse_timestamp_ms, raises, parsed}
use Prim.Native.String.{String}
use image_processor.Base.{
  ℕ, ℤ, pos, negsuc, Bool, true, false, not, ◌&&◌, Option, none, some, List, [], length, ◌==◌,
  if◌then◌else◌,
}
use image_processor.Types.{Text, SourceKind, spool, SourceIdentity}
use image_processor.Chars.{codes, lowered}
use image_processor.Protocol.Providers.{same_codes}
use image_processor.Decision.{Json, Fields, null, boolean, number, text, array, object, get_or_null}

-- What `stat_signature` returns of a file that exists.
pub record Signature : Type 0 where
  pub size : ℕ
  pub mtime_ns : ℕ

abbrev pub same : Signature → Signature → Bool
same a b = a.size == b.size && a.mtime_ns == b.mtime_ns

-- What `verify_declared_image` finds wrong.
pub data Mismatch : Type 0 where
  image_element_missing declared_bytes_invalid declared_sha256_invalid : Mismatch
  missing bytes_mismatch sha256_mismatch : Mismatch

-- `reason` of a verdict; `raised` stands for an exception that leaves `ready` in place of a verdict.
pub data Reason : Type 0 where
  sidecar_missing sidecar_verified : Reason
  sidecar_says : Mismatch → Reason
  no_verified_capture file_missing changed_since_verification capture_status_verified : Reason
  marker_missing marker_present : Reason
  quiet_pending quiet_elapsed : Reason
  raised : Reason

-- `class ReadyVerdict`
pub record ReadyVerdict : Type 0 where
  pub ready : Bool
  pub identity : Option SourceIdentity
  pub reason : Reason

-- `ReadyVerdict.no` and `ReadyVerdict.yes`
abbrev pub no : Reason → ReadyVerdict
no reason = record { ready = false; identity = none; reason = reason }

abbrev pub yes : Option SourceIdentity → Reason → ReadyVerdict
yes identity reason = record { ready = true; identity = identity; reason = reason }

-- What a judgement reads: the sidecar as JSON, if it can be read and parsed, what
-- `stat_signature` and `sha256_file` return, and whether the marker is a file.
pub record Look (Number : Type 0) : Type 0 where
  pub companion : Option (Json Number)
  pub signature : Option Signature
  pub digest : Option String
  pub has_marker : Bool

-- A number of a document as an integer, the number that stands for a text, and what
-- `parse_timestamp_ms` asks of the libraries.
pub record Reader (Number : Type 0) : Type 0 where
  pub as_int : Number → Option ℤ
  pub intern : String → Text
  pub times : TimeOps Number

-- `read_sidecar`
abbrev pub read_sidecar : {Number : Type 0} → Option (Json Number) → Option (Fields Number)
read_sidecar (some (object fs)) = some fs
read_sidecar _ = none

-- The size and the digest that a check proved, or what it found wrong.
pub data Checked : Type 0 where
  verified : ℕ → String → Checked
  mismatch : Mismatch → Checked

-- The size declared, as the test for an integer leaves it, and the digest, by its length.
abbrev pub declared_size : {Number : Type 0} → Reader Number → Json Number → Option ℤ
declared_size reader (number n) = reader.as_int n
declared_size reader _ = none

abbrev pub declared_digest : {Number : Type 0} → Json Number → Option String
declared_digest (text s) = if length (codes s) == 64 then some s else none
declared_digest _ = none

-- `actual != declared_sha.lower()`
abbrev pub digests_agree : String → String → Bool
digests_agree actual declared = same_codes (codes actual) (lowered (codes declared))

abbrev pub check_digest : ℕ → String → Option String → Checked
check_digest size declared none = mismatch missing
check_digest size declared (some actual) =
    if digests_agree actual declared then verified size actual else mismatch sha256_mismatch

abbrev pub check_size : ℤ → String → Option Signature → Option String → Checked
check_size size declared none digest = mismatch missing
check_size (negsuc n) declared (some signature) digest = mismatch bytes_mismatch
check_size (pos n) declared (some signature) digest =
    if signature.size == n then check_digest n declared digest else mismatch bytes_mismatch

abbrev pub check_declared : Option ℤ → Option String → Option Signature → Option String → Checked
check_declared none declared signature digest = mismatch declared_bytes_invalid
check_declared (some size) none signature digest = mismatch declared_sha256_invalid
check_declared (some size) (some declared) signature digest =
    check_size size declared signature digest

-- `verify_declared_image`
unfoldable pub verify_declared_image :
    {Number : Type 0} → Reader Number → Look Number → Json Number → Checked
verify_declared_image reader look (object image) =
    check_declared (declared_size reader (get_or_null "bytes" image))
      (declared_digest (get_or_null "sha256" image)) look.signature look.digest
verify_declared_image reader look _ = mismatch image_element_missing

-- `_text`
abbrev pub text_or_none : {Number : Type 0} → Reader Number → Json Number → Option Text
text_or_none reader (text String.[]) = none
text_or_none reader (text s) = some (reader.intern s)
text_or_none reader _ = none

-- `timestamps.get("persistedAt") if isinstance(timestamps, dict) else None`
abbrev pub persisted_at : {Number : Type 0} → Json Number → Json Number
persisted_at (object timestamps) = get_or_null "persistedAt" timestamps
persisted_at _ = null

-- The `SourceIdentity` that `identity_from_capture` builds, at the time of the capture.
abbrev pub captured_identity :
    {Number : Type 0}
    → Reader Number
    → Text
    → Text
    → Fields Number
    → ℕ
    → String
    → Option ℤ
    → SourceIdentity
captured_identity reader route_id relative_path document size sha256 captured_at_ms = record {
  kind = spool;
  route_id = route_id;
  relative_path = relative_path;
  bytes = size;
  sha256 = reader.intern sha256;
  capture_id = text_or_none reader (get_or_null "captureId" document);
  camera_id = text_or_none reader (get_or_null "cameraId" document);
  correlation_id = text_or_none reader (get_or_null "correlationId" document);
  reply_to = none;
  captured_at_ms = captured_at_ms;
}

-- `identity_from_capture`, or nothing if it raises
unfoldable pub identity_from_capture :
    {Number : Type 0}
    → Reader Number
    → Text
    → Text
    → Fields Number
    → ℕ
    → String
    → Option SourceIdentity
unfolding parse_timestamp_ms
identity_from_capture reader route_id relative_path document size sha256 =
    elim (parse_timestamp_ms reader.times (persisted_at (get_or_null "timestamps" document))) [
      | raises ↦ none
      | parsed captured_at_ms ↦
          some (captured_identity reader route_id relative_path document size sha256 captured_at_ms)
    ]

-- The verdict on a sidecar that was verified.
abbrev pub identified : Option SourceIdentity → ReadyVerdict
identified none = no raised
identified (some identity) = yes (some identity) sidecar_verified

-- The end of `CameraSidecarReadiness.ready`.
abbrev pub sidecar_verdict :
    {Number : Type 0} → Reader Number → Text → Text → Fields Number → Checked → ReadyVerdict
sidecar_verdict reader route_id relative_path document (mismatch reason) = no (sidecar_says reason)
sidecar_verdict reader route_id relative_path document (verified size digest) =
    identified (identity_from_capture reader route_id relative_path document size digest)

-- `CameraSidecarReadiness.ready`, of the document that `read_sidecar` returned
abbrev pub judge_sidecar :
    {Number : Type 0}
    → Reader Number
    → Text
    → Look Number
    → Text
    → Option (Fields Number)
    → ReadyVerdict
judge_sidecar reader route_id look relative_path none = no sidecar_missing
judge_sidecar reader route_id look relative_path (some document) =
    sidecar_verdict reader route_id relative_path document
      (verify_declared_image reader look (get_or_null "image" document))

-- A capture record that the reconciler has verified.
pub record Capture : Type 0 where
  pub signature : Signature
  pub identity : SourceIdentity

-- `CameraStatusReadiness.ready`, of the record that the lookup returned
abbrev pub judge_status : Option Capture → Option Signature → ReadyVerdict
judge_status none signature = no no_verified_capture
judge_status (some capture) none = no file_missing
judge_status (some capture) (some signature) =
    if same signature capture.signature
    then yes (some capture.identity) capture_status_verified
    else no changed_since_verification

-- `MarkerReadiness.ready`
abbrev pub judge_marker : Bool → ReadyVerdict
judge_marker has_marker = if has_marker then yes none marker_present else no marker_missing
