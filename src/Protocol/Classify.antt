-- ===== src/Protocol/Classify.antt =====
-- `classify_message`, `classify_error` and `is_input_error` of image_processor/engine/protocol.py.
use Prim.Native.String.{String}
use package.text.Mathlib.Text.{◌==◌ as str_eq}
use image_processor.Base.{
  ℕ, Bool, true, false, ◌||◌, Option, none, some, List, [], ◌∷◌, if◌then◌else◌,
}
use image_processor.Chars.{codes, lowered, occurs}
use image_processor.Protocol.Tables.{
  ErrorClass, transient, permanent, contaminating, TypeClass, contaminating_patterns,
  memory_patterns, permanent_patterns, transient_patterns, type_classes, own_errors,
  input_error_codes,
}
use image_processor.Protocol.Messages.{max_error_chars, bound_message}

pub record ErrorInfo : Type 0 where
  pub error_class : ErrorClass
  pub code : String
  pub message : List ℕ
  pub memory_pressure : Bool

-- `any(pattern in lowered for pattern in patterns)`
unfoldable pub matches_any : List ℕ → List String → Bool
unfolding occurs codes
matches_any text [] = false
matches_any text (pattern ∷ patterns) = occurs (codes pattern) text || matches_any text patterns

-- A loop over a table: the code of the first signature that matches.
unfoldable pub first_code : List ℕ → List (String × List String) → Option String
unfolding matches_any
first_code text [] = none
first_code text ((code, patterns) ∷ table) =
    if matches_any text patterns then some code else first_code text table

abbrev pub info : ErrorClass → String → List ℕ → Bool → ErrorInfo
info c code text memory = record {
  error_class = c;
  code = code;
  message = bound_message text max_error_chars;
  memory_pressure = memory;
}

-- `a or b` of two diagnoses
abbrev pub or_else : Option ErrorInfo → Option ErrorInfo → Option ErrorInfo
or_else none b = b
or_else (some a) _ = some a

-- The diagnosis of a code, if a signature matched.
abbrev pub coded : ErrorClass → List ℕ → Option String → Option ErrorInfo
coded c text none = none
coded c text (some code) = some (info c code text false)

-- What one table says of a message.
unfoldable pub from_table : ErrorClass → List (String × List String) → List ℕ → Option ErrorInfo
unfolding first_code lowered
from_table c table text = coded c text (first_code (lowered text) table)

unfoldable pub from_memory : List ℕ → Option ErrorInfo
unfolding matches_any lowered memory_patterns
from_memory text =
    if matches_any (lowered text) memory_patterns
    then some (info transient "CUDA_OOM" text true)
    else none

-- `classify_message`
unfoldable pub classify_message : List ℕ → Option ErrorInfo
unfolding from_table from_memory contaminating_patterns permanent_patterns transient_patterns
classify_message text = or_else (from_table contaminating contaminating_patterns text) (
    or_else (from_memory text) (
      or_else (from_table permanent permanent_patterns text)
        (from_table transient transient_patterns text)))

-- What `classify_error` reads of an exception: the name of its type, those of the other types of
-- its `__mro__`, `str(exc)`, and the attribute `code` if that is a text.
pub record PyException : Type 0 where
  pub name : String
  pub bases : List String
  pub text : List ℕ
  pub code : Option String

-- `_TYPE_CLASSES.get(name)`
unfoldable pub class_of : String → List (String × TypeClass) → Option TypeClass
class_of name [] = none
class_of name ((key, known) ∷ table) = if str_eq key name then some known else class_of name table

-- `name in names`
unfoldable pub is_member : String → List String → Bool
is_member name [] = false
is_member name (n ∷ names) = str_eq n name || is_member name names

-- `str(exc) or type(exc).__name__`
unfoldable pub text_of : PyException → List ℕ
unfolding codes
text_of exc = elim exc.text [ [] ↦ codes exc.name | ◌∷◌ n ns ↦ n ∷ ns ]

abbrev pub code_or : Option String → String → String
code_or none code = code
code_or (some c) code = if str_eq c "" then code else c

-- The loop of `classify_error` over the names.
unfoldable pub from_names : List String → List ℕ → ErrorInfo
unfolding class_of type_classes
from_names [] text = info transient "UNCLASSIFIED" text false
from_names (name ∷ names) text = elim (class_of name type_classes) [
  | some known ↦ info known.error_class known.code text known.memory_pressure
  | none ↦ from_names names text
]

-- An own error, whose entry is there.
unfoldable pub from_own : Option TypeClass → PyException → ErrorInfo
unfolding text_of
from_own none exc = info permanent "" (text_of exc) false
from_own (some known) exc =
    info known.error_class (code_or exc.code known.code) (text_of exc) known.memory_pressure

abbrev pub or_names : Option ErrorInfo → ErrorInfo → ErrorInfo
or_names none i = i
or_names (some i) _ = i

-- `classify_error`
unfoldable pub classify_error : PyException → ErrorInfo
unfolding is_member own_errors from_own classify_message from_names text_of class_of type_classes
classify_error exc =
    if is_member exc.name own_errors
    then from_own (class_of exc.name type_classes) exc
    else or_names (classify_message (text_of exc)) (from_names (exc.name ∷ exc.bases) (text_of exc))

-- `is_input_error`
unfoldable pub is_input_error : Option String → Bool
unfolding is_member input_error_codes
is_input_error none = is_member "" input_error_codes
is_input_error (some code) = is_member code input_error_codes
