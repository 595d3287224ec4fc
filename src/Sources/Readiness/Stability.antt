-- ===== src/Sources/Readiness/Stability.antt =====
-- `StabilityReadiness` of image_processor/sources/readiness.py. Times are in any unit that the
-- monotonic clock counts.
use image_processor.Base.{
  ℕ, ◌+◌, Bool, false, ◌||◌, Option, none, some, List, [], ◌∷◌, select, leb, ◌==◌, if◌then◌else◌,
}
use image_processor.Types.{Text}
use image_processor.Table.{Table, find, upsert, delete}
use image_processor.Sources.Readiness.{
  Signature, same, ReadyVerdict, no, yes, file_missing, quiet_pending, quiet_elapsed,
}

-- The state of `class StabilityReadiness`.
pub record Stability : Type 0 where
  pub quiet_secs : ℕ
  pub first_seen : Table (Signature × ℕ)

-- What a judgement finds of a file that exists: it is new or has moved, it has not held still for
-- long enough, or it has.
pub data Stillness : Type 0 where
  moved pending elapsed : Stillness

-- `previous is None or previous[0] != signature`, then `now - previous[1] >= self.quiet_secs`
abbrev pub quiet : ℕ → Signature → ℕ → Option (Signature × ℕ) → Stillness
quiet quiet_secs signature now none = moved
quiet quiet_secs signature now (some (before, since)) =
    if same before signature
    then (if leb (since + quiet_secs) now then elapsed else pending)
    else moved

abbrev pub verdict_of : Text → Signature → ℕ → Stability → Stillness → ReadyVerdict × Stability
verdict_of relative_path signature now s moved = (
  no quiet_pending,
  record s {
    first_seen = upsert relative_path (signature, now) (λ _. (signature, now)) s.first_seen;
  },
)
verdict_of relative_path signature now s pending = (no quiet_pending, s)
verdict_of relative_path signature now s elapsed = (yes none quiet_elapsed, s)

-- `ready`, of what `stat_signature` returned and a reading of the clock
unfoldable pub judge_stability : Text → Option Signature → ℕ → Stability → ReadyVerdict × Stability
judge_stability relative_path none now s =
    (no file_missing, record s { first_seen = delete relative_path s.first_seen })
judge_stability relative_path (some signature) now s =
    verdict_of relative_path signature now s
      (quiet s.quiet_secs signature now (find relative_path s.first_seen))

abbrev pub in_keep : Text → List Text → Bool
in_keep k [] = false
in_keep k (j ∷ keep) = k == j || in_keep k keep

abbrev pub row_in_keep : List Text → Text × (Signature × ℕ) → Bool
row_in_keep keep (k, _) = in_keep k keep

-- `prune`
unfoldable pub prune_timers : List Text → Stability → Stability
prune_timers keep s = record s { first_seen = select (row_in_keep keep) s.first_seen }
