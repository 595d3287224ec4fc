-- ===== src/Sources/Readiness/Timers.antt =====
-- The quiet timers of image_processor/sources/readiness.py over a history of calls, which is a
-- list with the latest call first.
use image_processor.Base.{
  ℕ, ◌+◌, ◌≡◌, refl, sym, ◌∙◌, inl, inr, true, Option, none, some, List, [], ◌∷◌, select, leb, ◌==◌,
  ==_iff, arith, Bool-cases, if◌then◌else◌,
}
use image_processor.Types.{Text}
use image_processor.Table.{Table, find}
use image_processor.Table.Laws.{find-upsert, find-delete}
use image_processor.Sources.Readiness.{Signature, same}
use image_processor.Sources.Readiness.Stability.{
  Stability, quiet, verdict_of, judge_stability, in_keep, row_in_keep, prune_timers,
}

-- A call: a judgement, with what `stat_signature` returned and the clock, or a pruning.
pub data Observation : Type 0 where
  observed : Text → Option Signature → ℕ → Observation
  swept : List Text → Observation

unfoldable pub step : Observation → Stability → Stability
unfolding judge_stability prune_timers
step (observed relative_path signature now) s = (judge_stability relative_path signature now s).1
step (swept keep) s = prune_timers keep s

-- The state after a history, from one without timers.
unfoldable pub after_calls : ℕ → List Observation → Stability
unfolding step
after_calls quiet_secs [] = record { quiet_secs = quiet_secs; first_seen = [] }
after_calls quiet_secs (e ∷ earlier) = step e (after_calls quiet_secs earlier)

-- The timer of one file, by the calls alone.
abbrev pub continued : Option Signature → ℕ → Option (Signature × ℕ) → Option (Signature × ℕ)
continued none now old = none
continued (some s) now none = some (s, now)
continued (some s) now (some (before, since)) =
    if same before s then some (before, since) else some (s, now)

unfoldable pub timer : Text → List Observation → Option (Signature × ℕ)
timer p [] = none
timer p (observed q signature now ∷ earlier) =
    let old = timer p earlier in if q == p then continued signature now old else old
timer p (swept keep ∷ earlier) = let old = timer p earlier in if in_keep p keep then old else none

pub same→eq : (a b : Signature) → same a b ≡ true → a ≡ b
same→eq a b e = ground arith

pub same_refl : (a : Signature) → same a a ≡ true
same_refl a = ground arith

find-select :
    (p : Text) (keep : List Text) (t : Table (Signature × ℕ))
    → find p (select (row_in_keep keep) t) ≡ (if in_keep p keep then find p t else none)
unfolding find
find-select p keep [] = ground arith
find-select p keep ((j, v) ∷ t) = elim (Bool-cases (j == p)) [
  | inl e ↦ ground (arith, find-select p keep t, (==_iff j p).0 e)
  | inr e ↦ ground (arith, find-select p keep t)
]

find-same :
    (q p : ℕ) (t : Table (Signature × ℕ)) (o : Option (Signature × ℕ))
    → find q t ≡ o
    → find p t ≡ (if q == p then o else find p t)
find-same q p t o found = elim (Bool-cases (q == p)) [
  | inl e ↦ rw (e, sym ((==_iff q p).0 e), found) refl
  | inr e ↦ rw e refl
]

verdict_of-timer :
    (q p now : ℕ) (signature : Signature) (s : Stability) (o : Option (Signature × ℕ))
    → find q s.first_seen ≡ o
    → find p (verdict_of q signature now s (quiet s.quiet_secs signature now o)).1.first_seen
      ≡ (if q == p then continued (some signature) now o else find p s.first_seen)
verdict_of-timer q p now signature s none found =
    ground (arith, find-upsert p q (signature, now) s.first_seen)
verdict_of-timer q p now signature s (some (before, since)) found =
    elim (Bool-cases (same before signature)) [
      | inl e ↦
          let held = find-same q p s.first_seen (some (before, since)) found in
          rw e (elim (Bool-cases (leb (since + s.quiet_secs) now)) [
            | inl late ↦ rw late held
            | inr soon ↦ rw soon held
          ])
      | inr e ↦ rw e (ground (arith, find-upsert p q (signature, now) s.first_seen))
    ]

moved-timer :
    (q p now : ℕ) (signature : Signature) (s : Stability)
    → find p (judge_stability q (some signature) now s).1.first_seen ≡ (
        if q == p
        then continued (some signature) now (find p s.first_seen)
        else find p s.first_seen)
unfolding judge_stability
moved-timer q p now signature s =
    verdict_of-timer q p now signature s (find q s.first_seen) refl
    ∙ elim (Bool-cases (q == p)) [ inl e ↦ rw (e, (==_iff q p).0 e) refl | inr e ↦ rw e refl ]

pub find-after_calls :
    (quiet_secs p : ℕ) (h : List Observation)
    → find p (after_calls quiet_secs h).first_seen ≡ timer p h
unfolding after_calls step timer find
find-after_calls quiet_secs p [] = refl
find-after_calls quiet_secs p (observed q none now ∷ h) =
    find-delete p q (after_calls quiet_secs h).first_seen
    ∙ simp (find-after_calls quiet_secs p h) refl
find-after_calls quiet_secs p (observed q (some signature) now ∷ h) =
    moved-timer q p now signature (after_calls quiet_secs h)
    ∙ simp (find-after_calls quiet_secs p h) refl
find-after_calls quiet_secs p (swept keep ∷ h) =
    find-select p keep (after_calls quiet_secs h).first_seen
    ∙ simp (find-after_calls quiet_secs p h) refl

pub quiet_secs-after_calls :
    (quiet_secs : ℕ) (h : List Observation) → (after_calls quiet_secs h).quiet_secs ≡ quiet_secs
unfolding after_calls step judge_stability
quiet_secs-after_calls quiet_secs [] = refl
quiet_secs-after_calls quiet_secs (observed q signature now ∷ h) =
    ground (arith, quiet_secs-after_calls quiet_secs h)
quiet_secs-after_calls quiet_secs (swept keep ∷ h) = quiet_secs-after_calls quiet_secs h
