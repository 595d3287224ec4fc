-- ===== src/Sources/Readiness/Route.antt =====
-- `Readiness` of image_processor/sources/readiness.py: the rule that a route gets from its
-- configuration, and the calls that it passes on to it.
use Prim.Native.String.{String}
use package.text.Mathlib.Text.{◌==◌ as str_eq}
use image_processor.Base.{
  ℕ, ◌*◌, Bool, true, false, ◌||◌, Option, none, some, List, [], ◌∷◌, if◌then◌else◌,
}
use image_processor.Types.{Text}
use image_processor.Sources.Readiness.{
  ReadyVerdict, Look, Reader, read_sidecar, judge_sidecar, Capture, judge_status, judge_marker,
}
use image_processor.Sources.Readiness.Stability.{Stability, judge_stability, prune_timers}

-- `MODES`
pub data Mode : Type 0 where
  camera_sidecar camera_status marker stability : Mode

-- `mode not in MODES`, and otherwise which of them it is
unfoldable pub mode_named : String → Option Mode
mode_named mode =
    if str_eq mode "cameraSidecar"
    then some camera_sidecar
    else (if str_eq mode "cameraStatus"
        then some camera_status
        else (if str_eq mode "marker"
            then some marker
            else (if str_eq mode "stability" then some stability else none)))

-- `code` of a `ReadinessError`
pub data ReadinessError : Type 0 where
  unknown_readiness_mode stability_not_permitted_on_camera_route : ReadinessError
  camera_status_requires_reconciler marker_suffix_required : ReadinessError

-- The fields of a route that its readiness rule reads. A field that is absent or null is nothing.
pub record CameraSettings : Type 0 where
  pub component : Option String
  pub instance_name : Option String

pub record SpoolRoute : Type 0 where
  pub id : Text
  pub mode : Option String
  pub marker_suffix : Option String
  pub quiet_secs : Option ℕ
  pub camera : Option CameraSettings

abbrev pub is_truthy : Option String → Bool
is_truthy none = false
is_truthy (some String.[]) = false
is_truthy (some _) = true

-- `is_camera_bound`
abbrev pub is_camera_bound : Option CameraSettings → Bool
is_camera_bound none = false
is_camera_bound (some camera) = is_truthy camera.component || is_truthy camera.instance_name

-- What `status_lookup` finds for a relative path.
abbrev pub Lookup : Type 0
Lookup = Text → Option Capture

-- The strategy that a `Readiness` holds, with the strategy's own state.
pub data Strategy : Type 0 where
  by_sidecar : Text → Strategy
  by_status : Text → Lookup → Strategy
  by_marker : Text → String → Strategy
  by_stability : Text → Stability → Strategy

pub data Built : Type 0 where
  built : Strategy → Built
  refused : ReadinessError → Built

abbrev pub mode_or : Bool → Option String → String
mode_or bound (some mode) = mode
mode_or bound none = if bound then "cameraSidecar" else "stability"

-- `CameraStatusReadiness`, which needs a lookup, and `MarkerReadiness`, which needs a suffix
abbrev pub build_status : Text → Option Lookup → Built
build_status id none = refused camera_status_requires_reconciler
build_status id (some lookup) = built (by_status id lookup)

abbrev pub build_marker : Text → Option String → Built
build_marker id none = refused marker_suffix_required
build_marker id (some String.[]) = refused marker_suffix_required
build_marker id (some suffix) = built (by_marker id suffix)

-- `config_field(settings, "quietSecs", default=DEFAULT_QUIET_SECS)`, in units of which a second
-- has `second`
abbrev pub quiet_or : ℕ → Option ℕ → ℕ
quiet_or second none = 5 * second
quiet_or second (some units) = units

abbrev pub build : ℕ → SpoolRoute → Option Lookup → Bool → Option Mode → Built
build second route lookup bound none = refused unknown_readiness_mode
build second route lookup bound (some stability) =
    if bound
    then refused stability_not_permitted_on_camera_route
    else built (
        by_stability route.id
          record { quiet_secs = quiet_or second route.quiet_secs; first_seen = [] })
build second route lookup bound (some camera_sidecar) = built (by_sidecar route.id)
build second route lookup bound (some camera_status) = build_status route.id lookup
build second route lookup bound (some marker) = build_marker route.id route.marker_suffix

-- `Readiness.for_route`
unfoldable pub for_route : ℕ → SpoolRoute → Option Lookup → Built
unfolding mode_named
for_route second route lookup =
    build second route lookup (is_camera_bound route.camera)
      (mode_named (mode_or (is_camera_bound route.camera) route.mode))

-- `verdict, strategy` after the judgement of one that keeps state
abbrev pub with_timers : Text → ReadyVerdict × Stability → ReadyVerdict × Strategy
with_timers id (verdict, s) = (verdict, by_stability id s)

-- `Readiness.ready`
unfoldable pub ready :
    {Number : Type 0} → Reader Number → Look Number → Text → ℕ → Strategy → ReadyVerdict × Strategy
unfolding judge_stability
ready reader look path now (by_sidecar id) =
    (judge_sidecar reader id look path (read_sidecar look.companion), by_sidecar id)
ready reader look path now (by_status id lookup) =
    (judge_status (lookup path) look.signature, by_status id lookup)
ready reader look path now (by_marker id suffix) =
    (judge_marker look.has_marker, by_marker id suffix)
ready reader look path now (by_stability id s) =
    with_timers id (judge_stability path look.signature now s)

-- `Readiness.companion_suffixes`
unfoldable pub companion_suffixes : Strategy → List String
companion_suffixes (by_sidecar id) = ".json" ∷ []
companion_suffixes (by_marker id suffix) = suffix ∷ []
companion_suffixes _ = []

-- `Readiness.prune`
unfoldable pub prune_rule : List Text → Strategy → Strategy
unfolding prune_timers
prune_rule keep (by_stability id s) = by_stability id (prune_timers keep s)
prune_rule keep strategy = strategy
