-- ===== src/Protocol/Blame.antt =====
-- What `classify_error` of image_processor/engine/protocol.py says of an exception.
use Prim.Native.String.{String}
use image_processor.Base.{
  ℕ, ◌≡◌, refl, inl, inr, true, false, Option, none, some, List, [], ◌∷◌, All, All-map, Bool-cases,
}
use image_processor.Chars.{lowered}
use image_processor.Protocol.Tables.{
  transient, permanent, contaminating, TypeClass, contaminating_patterns, memory_patterns,
  permanent_patterns, transient_patterns, type_classes, own_errors, input_error_codes,
}
use image_processor.Protocol.Classify.{
  ErrorInfo, matches_any, info, or_else, or_names, from_table, from_memory, classify_message,
  PyException, class_of, from_names, from_own, text_of, is_member, code_or, classify_error,
  is_input_error,
}
use image_processor.Protocol.Codes.{
  IsBounded, Blames, IsFair, info-IsFair, blameless, All-class_of, All-is_member,
  contaminating_patterns-All, transient_patterns-All, IsKnown, type_classes-All, IsOwn,
  own_errors-All, from_table-IsFair,
}

-- Every diagnosis of a message is fair.
abbrev FairIf : Option ErrorInfo → Type 0
FairIf none = Unit
FairIf (some i) = IsFair i

FairIf-or_else : (a b : Option ErrorInfo) → FairIf a → FairIf b → FairIf (or_else a b)
FairIf-or_else none b h g = g
FairIf-or_else (some i) b h g = h

FairIf-some : (o : Option ErrorInfo) → ((i : ErrorInfo) → o ≡ some i → IsFair i) → FairIf o
FairIf-some none h = tt
FairIf-some (some i) h = h i refl

from_memory-FairIf : (text : List ℕ) → FairIf (from_memory text)
unfolding from_memory is_input_error is_member input_error_codes
from_memory-FairIf text = elim (Bool-cases (matches_any (lowered text) memory_patterns)) [
  | inl e ↦ rw e (info-IsFair transient "CUDA_OOM" text true (λ h. cc))
  | inr e ↦ rw e tt
]

permanent_patterns-All :
    All (λ row. is_input_error (some row.0) ≡ true → permanent ≡ permanent) permanent_patterns
unfolding permanent_patterns
permanent_patterns-All =
    ((λ h. refl), ((λ h. refl), ((λ h. refl), ((λ h. refl), ((λ h. refl), ((λ h. refl), tt))))))

classify_message-FairIf : (text : List ℕ) → FairIf (classify_message text)
unfolding classify_message
classify_message-FairIf text =
    FairIf-or_else (from_table contaminating contaminating_patterns text) _
      (FairIf-some _ λ i. from_table-IsFair contaminating contaminating_patterns text i (
        All-map _ _ contaminating_patterns (λ row b. blameless contaminating row.0 b)
          contaminating_patterns-All))
      (FairIf-or_else (from_memory text) _ (from_memory-FairIf text) (
        FairIf-or_else (from_table permanent permanent_patterns text) _
          (FairIf-some _
            λ i. from_table-IsFair permanent permanent_patterns text i permanent_patterns-All)
          (FairIf-some _ λ i. from_table-IsFair transient transient_patterns text i (
            All-map _ _ transient_patterns (λ row b. blameless transient row.0 b)
              transient_patterns-All))))

named-IsFair :
    (o : Option TypeClass) (text : List ℕ) (other : ErrorInfo)
    → ((known : TypeClass) → o ≡ some known → IsKnown known)
    → IsFair other
    → IsFair (elim o [
      | some known ↦ info known.error_class known.code text known.memory_pressure
      | none ↦ other
    ])
named-IsFair none text other h g = g
named-IsFair (some k) text other h g =
    info-IsFair k.error_class k.code text k.memory_pressure (h k refl)

from_names-IsFair : (names : List String) (text : List ℕ) → IsFair (from_names names text)
unfolding from_names is_input_error is_member input_error_codes
from_names-IsFair [] text = info-IsFair transient "UNCLASSIFIED" text false (λ h. cc)
from_names-IsFair (name ∷ names) text =
    named-IsFair (class_of name type_classes) text (from_names names text)
      (λ known. All-class_of IsKnown type_classes name known type_classes-All)
      (from_names-IsFair names text)

or_names-IsFair :
    (o : Option ErrorInfo) (i : ErrorInfo) → FairIf o → IsFair i → IsFair (or_names o i)
or_names-IsFair none i h g = g
or_names-IsFair (some j) i h g = h

-- Whatever the exception, its message is one line of at most 1024 characters, and a code that blames
-- the input comes only with a permanent failure: no failure that a retry or a new cell may cure is
-- held against an image.
pub classify_error-Blames :
    (exc : PyException) → IsBounded (classify_error exc) × Blames (classify_error exc)
unfolding classify_error from_own
classify_error-Blames exc = elim (Bool-cases (is_member exc.name own_errors)) [
  | inr e ↦ rw e (
      or_names-IsFair (classify_message (text_of exc)) _ (classify_message-FairIf (text_of exc))
        (from_names-IsFair (exc.name ∷ exc.bases) (text_of exc)))
  | inl e ↦
      let (known, entry, kind) = All-is_member IsOwn own_errors exc.name own_errors-All e in
      rw (e, entry)
        (info-IsFair known.error_class (code_or exc.code known.code) (text_of exc)
          known.memory_pressure (λ h. kind))
]
