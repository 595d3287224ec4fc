-- ===== src/Decision.antt =====
-- image_processor/engine/decision.py: the values that rules are written in and read, and what the
-- rules take from outside the repository. `_document` has already been applied.
pub mod Rules
pub mod Decide
pub mod Safety
pub mod Told
pub mod Groups
use Prim.Native.String.{String}
use package.text.Mathlib.Text.{◌==◌ as str_eq}
use image_processor.Base.{ℕ, Bool, true, Option, none, some, List, if◌then◌else◌}

-- A JSON value: what `_jsonable` leaves, and what a rule set is parsed from.
mutual
  pub data Json (Number : Type 0) : Type 0 where
    null : Json Number
    boolean : Bool → Json Number
    number : Number → Json Number
    text : String → Json Number
    array : Items Number → Json Number
    object : Fields Number → Json Number

  pub data Items (Number : Type 0) : Type 0 where
    end : Items Number
    item : Json Number → Items Number → Items Number

  pub data Fields (Number : Type 0) : Type 0 where
    bare : Fields Number
    field : String → Json Number → Fields Number → Fields Number

-- `fields.get(key)`, with nothing in place of a key that is missing
unfoldable pub get : {Number : Type 0} → String → Fields Number → Option (Json Number)
get key bare = none
get key (field k v fs) = if str_eq k key then some v else get key fs

-- `get`, with None in place of a key that is missing
abbrev pub get_or_null : {Number : Type 0} → String → Fields Number → Json Number
get_or_null key fs = elim (get key fs) [ none ↦ null | some v ↦ v ]

-- `class Outcome`
pub data Outcome : Type 0 where
  clear hold fail : Outcome

-- What decision.py takes from Python and from jsonpath-ng. `as_float` is `float(value)`, with
-- nothing for a number that it raises on; `is_equal` is `==` on values; `find_all` is the values
-- that a path matches in a document, in its order, with nothing where the library raises.
pub record Externals (Number Float : Type 0) : Type 0 where
  pub as_float : Number → Option Float
  pub is_equal : Json Number → Json Number → Bool
  pub is_ge : Float → Float → Bool
  pub is_gt : Float → Float → Bool
  pub is_le : Float → Float → Bool
  pub is_lt : Float → Float → Bool
  pub is_count_ge : ℕ → Float → Bool
  pub find_all : String → Json Number → Option (List (Json Number))
