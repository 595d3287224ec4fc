-- ===== src/Sources/Readiness/Steady.antt =====
-- When image_processor/sources/readiness.py finds that a file has held still.
use image_processor.Base.{
  ℕ, ◌+◌, ◌≤◌, ◌≡◌, refl, sym, ◌∙◌, ◌↔◌, inl, inr, Bool, true, false, ◌&&◌, ◌||◌, Option, none,
  some, List, [], ◌∷◌, leb, leb→le, ◌==◌, arith, All, Bool-cases, if◌then◌else◌,
}
use image_processor.Types.{Text}
use image_processor.Table.{find}
use image_processor.Sources.Readiness.{Signature, same}
use image_processor.Sources.Readiness.Stability.{
  Stability, quiet, verdict_of, judge_stability, in_keep,
}
use image_processor.Sources.Readiness.Timers.{
  Observation, observed, swept, after_calls, continued, timer, same→eq, same_refl, find-after_calls,
  quiet_secs-after_calls,
}

abbrev pub sees : Signature → Option Signature → Bool
sees s none = false
sees s (some signature) = same signature s

-- A call at which the file had the signature, at that time.
abbrev pub marks : Text → Signature → ℕ → Observation → Bool
marks p s t (observed q signature now) = (q == p && sees s signature) && now == t
marks p s t (swept keep) = false

-- A call that does not find the file missing or changed, and does not drop it.
abbrev pub leaves : Text → Signature → Observation → Bool
leaves p s (observed q signature now) = if q == p then sees s signature else true
leaves p s (swept keep) = in_keep p keep

-- The file had the signature at the time, and no later call saw it missing, changed or dropped.
abbrev pub is_steady : Text → Signature → ℕ → List Observation → Bool
is_steady p s t [] = false
is_steady p s t (e ∷ earlier) = marks p s t e || (leaves p s e && is_steady p s t earlier)

abbrev pub not_after : ℕ → Observation → Bool
not_after now (observed q signature t) = leb t now
not_after now (swept keep) = true

-- The clock does not go back.
abbrev pub IsClocked : List Observation → Type 0
IsClocked [] = Unit
IsClocked (observed q signature now ∷ earlier) =
    All (λ e. not_after now e ≡ true) earlier × IsClocked earlier
IsClocked (swept keep ∷ earlier) = IsClocked earlier

timer-is_steady :
    (p : Text) (s : Signature) (t : ℕ) (h : List Observation)
    → timer p h ≡ some (s, t)
    → is_steady p s t h ≡ true
unfolding timer
timer-is_steady p s t [] e = ground arith
timer-is_steady p s t (observed q none now ∷ h) e = ground (arith, timer-is_steady p s t h)
timer-is_steady p s t (observed q (some signature) now ∷ h) e =
    ground (arith, timer-is_steady p s t h, same_refl s)
timer-is_steady p s t (swept keep ∷ h) e = ground (arith, timer-is_steady p s t h)

timer_bound :
    (p : Text) (s : Signature) (t now : ℕ) (h : List Observation)
    → All (λ e. not_after now e ≡ true) h
    → timer p h ≡ some (s, t)
    → t ≤ now
unfolding timer
timer_bound p s t now [] early e = ground arith
timer_bound p s t now (observed q none later ∷ h) early e =
    ground (arith, timer_bound p s t now h early.1)
timer_bound p s t now (observed q (some signature) later ∷ h) early e =
    ground (arith, timer_bound p s t now h early.1)
timer_bound p s t now (swept keep ∷ h) early e = ground (arith, timer_bound p s t now h early.1)

continued-since :
    (p : Text) (s signature : Signature) (t now : ℕ) (h : List Observation)
    (o : Option (Signature × ℕ))
    → timer p h ≡ o
    → All (λ e. not_after now e ≡ true) h
    → (is_steady p s t h ≡ true → (since : ℕ) × (timer p h ≡ some (s, since)) × (since ≤ t))
    → (same signature s && (now == t)) || (same signature s && is_steady p s t h) ≡ true
    → (since : ℕ) × (continued (some signature) now o ≡ some (s, since)) × (since ≤ t)
continued-since p s signature t now h none old early earlier e =
    (now, ground (arith, same→eq signature s, earlier), ground (arith, old, earlier))
continued-since p s signature t now h (some (before, since)) old early earlier e =
    elim (Bool-cases (same before signature)) [
      | inl unmoved ↦ (
        since,
        ground (arith, unmoved, same→eq signature s, same→eq before signature),
        ground (arith, old, earlier, timer_bound p before since now h early old),
      )
      | inr fresh ↦ (
        now,
        ground (arith, fresh, same→eq signature s),
        ground (arith, old, fresh, earlier, same→eq signature s, same_refl s),
      )
    ]

is_steady-timer :
    (p : Text) (s : Signature) (t : ℕ) (h : List Observation)
    → IsClocked h
    → is_steady p s t h ≡ true
    → (since : ℕ) × (timer p h ≡ some (s, since)) × (since ≤ t)
unfolding timer
is_steady-timer p s t [] clocked e = ground arith
is_steady-timer p s t (observed q none now ∷ h) clocked e =
    ground (arith, is_steady-timer p s t h clocked.1)
is_steady-timer p s t (observed q (some signature) now ∷ h) clocked e = elim (Bool-cases (q == p)) [
  | inl self ↦ simp self (
      continued-since p s signature t now h (timer p h) refl clocked.0
        (is_steady-timer p s t h clocked.1) (ground (arith, self, e)))
  | inr other ↦ simp other (is_steady-timer p s t h clocked.1 (ground (arith, other, e)))
]
is_steady-timer p s t (swept keep ∷ h) clocked e = ground (arith, is_steady-timer p s t h clocked)

ready-quiet :
    (p now : ℕ) (s : Signature) (st : Stability) (o : Option (Signature × ℕ))
    → ((verdict_of p s now st (quiet st.quiet_secs s now o)).0.ready ≡ true)
      ↔ ((since : ℕ) × (o ≡ some (s, since)) × (since + st.quiet_secs ≤ now))
ready-quiet p now s st none = (λ e. absurd cc, λ w. absurd cc)
ready-quiet p now s st (some (before, since)) = elim (Bool-cases (same before s)) [
  | inl held ↦ elim (Bool-cases (leb (since + st.quiet_secs) now)) [
    | inl late ↦
        simp (held, late)
          (λ _. (since, ground (arith, same→eq before s held), leb→le _ now late), λ _. refl)
    | inr soon ↦ simp (held, soon) (λ e. absurd cc, λ w. ground (arith, soon, w.1, w.2))
  ]
  | inr fresh ↦ simp fresh (λ e. absurd cc, λ w. ground (arith, fresh, w.1, same_refl s))
]

-- If the clock does not go back, a file that exists is judged ready exactly if some earlier
-- judgement, by at least the quiet period, found the signature it has now, and no call since saw it
-- missing, changed or dropped. Whatever happened to other files does not count.
pub judge_stability-is_steady :
    (quiet_secs p now : ℕ) (s : Signature) (history : List Observation)
    → IsClocked (observed p (some s) now ∷ history)
    → ((judge_stability p (some s) now (after_calls quiet_secs history)).0.ready ≡ true)
      ↔ ((since : ℕ) × (is_steady p s since history ≡ true) × (since + quiet_secs ≤ now))
unfolding judge_stability
judge_stability-is_steady quiet_secs p now s history clocked =
    let st = after_calls quiet_secs history in
    let timers = find-after_calls quiet_secs p history in
    let period = quiet_secs-after_calls quiet_secs history in
    let quieted = ready-quiet p now s st (find p st.first_seen) in
    (
      (λ e.
          let w = quieted.0 e in
          (w.0, timer-is_steady p s w.0 history (sym timers ∙ w.1), omega (arith, period, w.2))),
      λ w.
          let t = is_steady-timer p s w.0 history clocked.1 w.1 in
          quieted.1 (t.0, timers ∙ t.1, omega (arith, period, w.2, t.2)),
    )
