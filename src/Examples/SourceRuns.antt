-- ===== src/Examples/SourceRuns.antt =====
-- A file that holds still, a route with a camera, and the theorems about them.
use image_processor.Sources.Timestamps.{TimeOps}
use Prim.Native.String.{String}
use image_processor.Base.{ℕ, pos, ◌+◌, ◌≤◌, ◌≡◌, refl, ◌↔◌, Bool, true, none, some, List, [], ◌∷◌}
use image_processor.Decision.{get, Fields, text, number, object, bare, field}
use image_processor.Chars.{codes, lowered}
use image_processor.Protocol.Providers.{same_codes}
use image_processor.Table.{find, insert, upsert, delete}
use image_processor.Sources.Readiness.{
  identity_from_capture, Signature, Look, Reader, verify_declared_image,
}
use image_processor.Sources.Readiness.Stability.{judge_stability, prune_timers}
use image_processor.Sources.Readiness.Timers.{Observation, observed, swept, step, after_calls}
use image_processor.Sources.Readiness.Steady.{is_steady, judge_stability-is_steady}
use image_processor.Sources.Readiness.Route.{SpoolRoute, by_sidecar, for_route, mode_named, ready}
use image_processor.Sources.Readiness.Proof.{Call, prunes, run_calls, Proves, for_route-Proves}

abbrev still : Signature
still = record { size = 4; mtime_ns = 9 }

-- The file 7 is written, holds still at 20 while another goes, and is judged at 30.
abbrev calls : List Observation
calls = observed 8 none 25 ∷ swept (7 ∷ []) ∷ observed 7 (some still) 20 ∷ observed 7 none 10 ∷ []

judge_stability-is_steady_example :
    ((judge_stability 7 (some still) 30 (after_calls 10 calls)).0.ready ≡ true)
    ↔ ((since : ℕ) × (is_steady 7 still since calls ≡ true) × (since + 10 ≤ 30))
judge_stability-is_steady_example =
    judge_stability-is_steady 10 7 30 still calls (
      ((refl, (refl, (refl, (refl, tt))))),
      (((refl, (refl, (refl, tt)))), (((refl, tt)), (tt, tt))),
    )

still_is_ready : (judge_stability 7 (some still) 30 (after_calls 10 calls)).0.ready ≡ true
unfolding judge_stability after_calls step prune_timers find upsert delete insert
still_is_ready = refl

-- A number is its milliseconds, and no text is a timestamp.
abbrev times : TimeOps ℕ
times = record {
  as_integer = λ n. some (pos n);
  groups = λ s. none;
  utc = λ y m d h n s u. none;
  minus = λ t d. none;
  plus = λ t d. none;
  to_ms = λ t. t;
}

abbrev reader : Reader ℕ
reader = record { as_int = λ n. some (pos n); intern = λ s. 1; times = times }

abbrev hex : String
hex = "e3b0c44298fc1c149afbf4c8996fb92427ae41e4649b934ca495991b7852b855"

abbrev image : Fields ℕ
image = field "bytes" (number 4) (field "sha256" (text hex) bare)

abbrev look : Look ℕ
look = record {
  companion = some (object (field "image" (object image) bare));
  signature = some still;
  digest = some hex;
  has_marker = Bool.false;
}

abbrev camera_route : SpoolRoute
camera_route = record {
  id = 2;
  mode = none;
  marker_suffix = none;
  quiet_secs = none;
  camera = some (record { component = some "camera-adapter"; instance_name = none });
}

abbrev earlier : List (Call ℕ)
earlier = prunes [] ∷ []

for_route-Proves_example :
    Proves reader look camera_route none 7
      (ready reader look 7 30 (run_calls reader earlier (by_sidecar 2))).0
unfolding for_route mode_named ready verify_declared_image run_calls get codes same_codes lowered
    identity_from_capture
for_route-Proves_example =
    for_route-Proves reader 1 camera_route none (by_sidecar 2) earlier look 7 30 refl refl refl
