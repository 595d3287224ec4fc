-- ===== src/Sources/Timestamps.antt =====
-- `parse_timestamp_ms` of image_processor/sources/readiness.py. What the modules `re` and `datetime`
-- and the conversion `int` answer is an argument.
use Prim.Native.String.{String}
use image_processor.Base.{
  ℕ, ◌+◌, ◌*◌, ℤ, Bool, true, false, Option, none, some, List, [], ◌∷◌, ◌++◌, take,
}
use image_processor.Decision.{Json, number, text}

-- The groups of a match of `_TIMESTAMP`: six numbers, the digits of the fraction, and the offset,
-- which is absent for a `Z` and for nothing, by whether its sign is `+`, its hours and its minutes.
pub record Groups : Type 0 where
  pub year : ℕ
  pub month : ℕ
  pub day : ℕ
  pub hour : ℕ
  pub minute : ℕ
  pub second : ℕ
  pub fraction : List ℕ
  pub offset : Option (Bool × ℕ × ℕ)

-- A datetime is counted in microseconds from 1970. `as_integer` is `int` of a number, which may
-- raise; `groups` is `_TIMESTAMP.match(value.strip())`; `utc` is the constructor, which may raise
-- ValueError; `minus` and `plus` may raise OverflowError; `to_ms` is `int(moment.timestamp() * 1000)`.
pub record TimeOps (Number : Type 0) : Type 0 where
  pub as_integer : Number → Option ℤ
  pub groups : String → Option Groups
  pub utc : ℕ → ℕ → ℕ → ℕ → ℕ → ℕ → ℕ → Option ℤ
  pub minus : ℤ → ℕ → Option ℤ
  pub plus : ℤ → ℕ → Option ℤ
  pub to_ms : ℤ → ℤ

-- What `parse_timestamp_ms` returns, or that it raises.
pub data Parsed : Type 0 where
  parsed : Option ℤ → Parsed
  raises : Parsed

-- The number that some digits write.
abbrev from_digits : ℕ → List ℕ → ℕ
from_digits n [] = n
from_digits n (d ∷ ds) = from_digits (n * 10 + d) ds

-- `int((fraction + "000000")[:6]) if fraction else 0`
unfoldable pub microseconds : List ℕ → ℕ
microseconds [] = 0
microseconds (d ∷ ds) = from_digits 0 (take 6 ((d ∷ ds) ++ 0 ∷ 0 ∷ 0 ∷ 0 ∷ 0 ∷ 0 ∷ []))

-- `timedelta(hours=..., minutes=...)`
abbrev delta : ℕ → ℕ → ℕ
delta hours minutes = (hours * 60 + minutes) * 60000000

module _ {Number : Type 0} (times : TimeOps Number) where
  abbrev in_ms : Option ℤ → Parsed
  in_ms none = raises
  in_ms (some moment) = parsed (some (times.to_ms moment))

  -- What follows the construction of the datetime.
  abbrev shifted : Option (Bool × ℕ × ℕ) → ℤ → Parsed
  shifted none moment = in_ms (some moment)
  shifted (some (true, hours, minutes)) moment = in_ms (times.minus moment (delta hours minutes))
  shifted (some (false, hours, minutes)) moment = in_ms (times.plus moment (delta hours minutes))

  abbrev of_groups : Option Groups → Parsed
  of_groups none = parsed none
  of_groups (some g) =
      elim (times.utc g.year g.month g.day g.hour g.minute g.second (microseconds g.fraction)) [
        | none ↦ parsed none
        | some moment ↦ shifted g.offset moment
      ]

  -- `int(value)`
  abbrev of_number : Option ℤ → Parsed
  of_number none = raises
  of_number (some n) = parsed (some n)

  unfoldable pub parse_timestamp_ms : Json Number → Parsed
  unfolding microseconds
  parse_timestamp_ms (number n) = of_number (times.as_integer n)
  parse_timestamp_ms (text s) = of_groups (times.groups s)
  parse_timestamp_ms _ = parsed none
