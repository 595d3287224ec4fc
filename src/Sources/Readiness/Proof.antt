-- ===== src/Sources/Readiness/Proof.antt =====
-- What a ready verdict of image_processor/sources/readiness.py proves on a route with a camera.
use Prim.Native.String.{String}
use image_processor.Base.{
  ℕ, ◌≡◌, refl, subst, sym, ◌∙◌, ap, inl, inr, Bool, true, false, Option, none, some, List, [], ◌∷◌,
  Bool-cases,
}
use image_processor.Types.{Text, SourceIdentity}
use image_processor.Decision.{Fields, get_or_null}
use image_processor.Sources.Readiness.{
  Signature, same, ReadyVerdict, Look, Reader, read_sidecar, Checked, verified, mismatch,
  verify_declared_image, identity_from_capture, identified, yes, sidecar_verdict, judge_sidecar,
  Capture, judge_status, judge_marker, sidecar_verified, capture_status_verified, marker_present,
}
use image_processor.Sources.Readiness.Timers.{same→eq}
use image_processor.Sources.Readiness.Route.{
  Mode, SpoolRoute, is_camera_bound, Lookup, Strategy, by_sidecar, by_status, by_marker,
  by_stability, stability_not_permitted_on_camera_route, built, refused, build_status, build_marker,
  build, mode_named, mode_or, for_route, ready, prune_rule,
}
use image_processor.Sources.Readiness.Declared.{Matches, verify_declared_image-Matches}

-- What the verdict's reason says, of what the judgement read: a sidecar that declares the file's
-- size and digest, a verified capture record with the file's signature, or a marker.
abbrev pub Proves :
    {Number : Type 0}
    → Reader Number
    → Look Number
    → SpoolRoute
    → Option Lookup
    → Text
    → ReadyVerdict
    → Type 0
Proves {Number = Number} reader look route lookup path verdict = elim verdict.reason [
  | sidecar_verified ↦
      (document : Fields Number) × (size : ℕ) × (digest : String) × (read_sidecar look.companion
        ≡ some document)
      × Matches reader look (get_or_null "image" document) size digest
      × ((i : SourceIdentity) × (identity_from_capture reader route.id path document size digest
            ≡ some i)
          × (verdict.identity ≡ some i))
  | capture_status_verified ↦
      (find : Lookup) × (capture : Capture) × (lookup ≡ some find)
      × (find path ≡ some capture)
      × (look.signature ≡ some capture.signature)
      × (verdict.identity ≡ some capture.identity)
  | marker_present ↦ (look.has_marker ≡ true) × (verdict.identity ≡ none)
  | _ ↦ ⊥
]

-- A call of a route's readiness rule.
pub data Call (Number : Type 0) : Type 0 where
  judges : Look Number → Text → ℕ → Call Number
  prunes : List Text → Call Number

unfoldable pub run_calls :
    {Number : Type 0} → Reader Number → List (Call Number) → Strategy → Strategy
unfolding ready prune_rule
run_calls reader [] strategy = strategy
run_calls reader (judges look path now ∷ calls) strategy =
    run_calls reader calls (ready reader look path now strategy).1
run_calls reader (prunes keep ∷ calls) strategy = run_calls reader calls (prune_rule keep strategy)

-- A strategy of the route that does not infer.
abbrev Verifies : SpoolRoute → Option Lookup → Strategy → Type 0
Verifies route lookup (by_sidecar id) = id ≡ route.id
Verifies route lookup (by_status id find) = lookup ≡ some find
Verifies route lookup (by_marker id suffix) = Unit
Verifies route lookup (by_stability id s) = ⊥

build_status-Verifies :
    (route : SpoolRoute) (lookup : Option Lookup) (strategy : Strategy)
    → build_status route.id lookup ≡ built strategy
    → Verifies route lookup strategy
build_status-Verifies route none strategy e = absurd cc
build_status-Verifies route (some find) strategy e =
    let k : by_status route.id find ≡ strategy = cc in subst (Verifies route (some find)) k refl

build_marker-Verifies :
    (route : SpoolRoute) (lookup : Option Lookup) (suffix : Option String) (strategy : Strategy)
    → build_marker route.id suffix ≡ built strategy
    → Verifies route lookup strategy
build_marker-Verifies route lookup none strategy e = absurd cc
build_marker-Verifies route lookup (some String.[]) strategy e = absurd cc
build_marker-Verifies route lookup (some (String.◌∷◌ c cs)) strategy e =
    let k : by_marker route.id (String.◌∷◌ c cs) ≡ strategy = cc in
    subst (Verifies route lookup) k tt

build-Verifies :
    (second : ℕ) (route : SpoolRoute) (lookup : Option Lookup) (bound : Bool) (mode : Option Mode)
    (strategy : Strategy)
    → bound ≡ true
    → build second route lookup bound mode ≡ built strategy
    → Verifies route lookup strategy
build-Verifies second route lookup bound none strategy h e = absurd cc
build-Verifies second route lookup bound (some Mode.stability) strategy h e =
    absurd
      (let k : refused stability_not_permitted_on_camera_route ≡ built strategy = simp h at e in cc)
build-Verifies second route lookup bound (some Mode.camera_sidecar) strategy h e =
    let k : by_sidecar route.id ≡ strategy = cc in subst (Verifies route lookup) k refl
build-Verifies second route lookup bound (some Mode.camera_status) strategy h e =
    build_status-Verifies route lookup strategy e
build-Verifies second route lookup bound (some Mode.marker) strategy h e =
    build_marker-Verifies route lookup route.marker_suffix strategy e

run_calls-Verifies :
    {Number : Type 0} (reader : Reader Number) (route : SpoolRoute) (lookup : Option Lookup)
    (calls : List (Call Number)) (strategy : Strategy)
    → Verifies route lookup strategy
    → Verifies route lookup (run_calls reader calls strategy)
unfolding run_calls ready prune_rule
run_calls-Verifies reader route lookup [] strategy h = h
run_calls-Verifies reader route lookup (judges look path now ∷ calls) (by_sidecar id) h =
    run_calls-Verifies reader route lookup calls (by_sidecar id) h
run_calls-Verifies reader route lookup (judges look path now ∷ calls) (by_status id find) h =
    run_calls-Verifies reader route lookup calls (by_status id find) h
run_calls-Verifies reader route lookup (judges look path now ∷ calls) (by_marker id suffix) h =
    run_calls-Verifies reader route lookup calls (by_marker id suffix) h
run_calls-Verifies reader route lookup (prunes keep ∷ calls) (by_sidecar id) h =
    run_calls-Verifies reader route lookup calls (by_sidecar id) h
run_calls-Verifies reader route lookup (prunes keep ∷ calls) (by_status id find) h =
    run_calls-Verifies reader route lookup calls (by_status id find) h
run_calls-Verifies reader route lookup (prunes keep ∷ calls) (by_marker id suffix) h =
    run_calls-Verifies reader route lookup calls (by_marker id suffix) h
run_calls-Verifies reader route lookup (call ∷ calls) (by_stability id s) h = absurd h

identified-some :
    (o : Option SourceIdentity)
    → (identified o).ready ≡ true
    → (i : SourceIdentity) × (o ≡ some i)
      × ((identified o).identity ≡ some i)
      × (identified o ≡ yes (some i) sidecar_verified)
identified-some none e = absurd cc
identified-some (some i) e = (i, refl, refl, refl)

judge_sidecar-Proves :
    {Number : Type 0} (reader : Reader Number) (look : Look Number) (route : SpoolRoute)
    (lookup : Option Lookup) (path id : Text) (o : Option (Fields Number))
    → id ≡ route.id
    → read_sidecar look.companion ≡ o
    → (judge_sidecar reader id look path o).ready ≡ true
    → Proves reader look route lookup path (judge_sidecar reader id look path o)
judge_sidecar-Proves reader look route lookup path id none h r e = absurd cc
judge_sidecar-Proves reader look route lookup path id (some document) h r e =
    go (verify_declared_image reader look (get_or_null "image" document)) refl e
  where
    go :
        (c : Checked)
        → verify_declared_image reader look (get_or_null "image" document) ≡ c
        → (sidecar_verdict reader id path document c).ready ≡ true
        → Proves reader look route lookup path (sidecar_verdict reader id path document c)
    go (mismatch m) k e = absurd cc
    go (verified size digest) k e =
        let (i, same, told, why) =
          identified-some (identity_from_capture reader id path document size digest) e in
        subst (λ v. Proves reader look route lookup path v) (sym why)
          (
            document,
            size,
            digest,
            r,
            verify_declared_image-Matches reader look (get_or_null "image" document) size digest k,
            (
              i,
              ap (λ n. identity_from_capture reader n path document size digest) (sym h) ∙ same,
              refl,
            ),
          )

judge_status-Proves :
    {Number : Type 0} (reader : Reader Number) (look : Look Number) (route : SpoolRoute)
    (lookup : Option Lookup) (find : Lookup) (path : Text) (o : Option Capture)
    (f : Option Signature)
    → lookup ≡ some find
    → find path ≡ o
    → look.signature ≡ f
    → (judge_status o f).ready ≡ true
    → Proves reader look route lookup path (judge_status o f)
judge_status-Proves reader look route lookup find path none f l p s e = absurd cc
judge_status-Proves reader look route lookup find path (some capture) none l p s e = absurd cc
judge_status-Proves reader look route lookup find path (some capture) (some f) l p s e =
    elim (Bool-cases (same f capture.signature)) [
      | inl k ↦ simp k (find, capture, l, p, s ∙ ap some (same→eq f capture.signature k), refl)
      | inr k ↦ absurd (let n : false ≡ true = simp k at e in cc)
    ]

judge_marker-Proves :
    {Number : Type 0} (reader : Reader Number) (look : Look Number) (route : SpoolRoute)
    (lookup : Option Lookup) (path : Text) (has_marker : Bool)
    → look.has_marker ≡ has_marker
    → (judge_marker has_marker).ready ≡ true
    → Proves reader look route lookup path (judge_marker has_marker)
judge_marker-Proves reader look route lookup path true k e = (k, refl)
judge_marker-Proves reader look route lookup path false k e = absurd cc

ready-Proves :
    {Number : Type 0} (reader : Reader Number) (look : Look Number) (route : SpoolRoute)
    (lookup : Option Lookup) (path : Text) (now : ℕ) (strategy : Strategy)
    → Verifies route lookup strategy
    → (ready reader look path now strategy).0.ready ≡ true
    → Proves reader look route lookup path (ready reader look path now strategy).0
unfolding ready
ready-Proves reader look route lookup path now (by_sidecar id) h e =
    judge_sidecar-Proves reader look route lookup path id (read_sidecar look.companion) h refl e
ready-Proves reader look route lookup path now (by_status id find) h e =
    judge_status-Proves reader look route lookup find path (find path) look.signature h refl refl e
ready-Proves reader look route lookup path now (by_marker id suffix) h e =
    judge_marker-Proves reader look route lookup path look.has_marker refl e
ready-Proves reader look route lookup path now (by_stability id s) h e = absurd h

-- On a route with a camera, whatever calls came before, a ready verdict never rests on a file that
-- merely held still. It rests on a sidecar that declares the size and digest the file has, and
-- bears that identity; on a verified capture record with the file's signature, and bears its
-- identity; or on the marker, and bears no identity.
pub for_route-Proves :
    {Number : Type 0} (reader : Reader Number) (second : ℕ) (route : SpoolRoute)
    (lookup : Option Lookup) (strategy : Strategy) (calls : List (Call Number)) (look : Look Number)
    (path : Text) (now : ℕ)
    → for_route second route lookup ≡ built strategy
    → is_camera_bound route.camera ≡ true
    → (ready reader look path now (run_calls reader calls strategy)).0.ready ≡ true
    → Proves reader look route lookup path
        (ready reader look path now (run_calls reader calls strategy)).0
unfolding for_route
for_route-Proves reader second route lookup strategy calls look path now made bound =
    ready-Proves reader look route lookup path now (run_calls reader calls strategy) (
      run_calls-Verifies reader route lookup calls strategy (
        build-Verifies second route lookup (is_camera_bound route.camera)
          (mode_named (mode_or (is_camera_bound route.camera) route.mode)) strategy bound made))
