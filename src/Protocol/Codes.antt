-- ===== src/Protocol/Codes.antt =====
-- The codes in the tables of image_processor/engine/protocol.py, and which of them blame the input.
use Prim.Native.String.{String}
use package.text.Mathlib.Text.{◌==◌ as str_eq}
use package.text.Mathlib.TextEquality.{eq_iff}
use image_processor.Base.{
  ℕ, ◌≤◌, ◌≡◌, refl, sym, subst, ◌∙◌, ap, inl, inr, Bool, true, false, none, some, List, [], ◌∷◌,
  arith, length, All, Bool-cases, Option-cases,
}
use image_processor.Chars.{lowered}
use image_processor.Protocol.Tables.{
  ErrorClass, permanent, TypeClass, contaminating_patterns, transient_patterns, type_classes,
  own_errors, input_error_codes,
}
use image_processor.Protocol.Messages.{max_error_chars}
use image_processor.Protocol.Bounds.{IsLine, bound_message-IsLine}
use image_processor.Protocol.Classify.{
  ErrorInfo, matches_any, first_code, info, coded, from_table, class_of, is_member, is_input_error,
}

-- A message that may be published.
abbrev pub IsBounded : ErrorInfo → Type 0
IsBounded i = (length i.message ≤ max_error_chars) × IsLine i.message

-- An input is blamed only by a permanent failure.
abbrev pub Blames : ErrorInfo → Type 0
Blames i = is_input_error (some i.code) ≡ true → i.error_class ≡ permanent

abbrev pub IsFair : ErrorInfo → Type 0
IsFair i = IsBounded i × Blames i

abbrev pub Blameless : String → Type 0
Blameless code = is_input_error (some code) ≡ false

pub info-IsFair :
    (c : ErrorClass) (code : String) (text : List ℕ) (memory : Bool)
    → (is_input_error (some code) ≡ true → c ≡ permanent)
    → IsFair (info c code text memory)
info-IsFair c code text memory h = (bound_message-IsLine text max_error_chars (omega arith), h)

pub blameless :
    (c : ErrorClass) (code : String)
    → Blameless code
    → is_input_error (some code) ≡ true
    → c ≡ permanent
blameless c code h g = let k : true ≡ false = sym g ∙ h in cc

pub All-class_of :
    (P : TypeClass → Type 0) (table : List (String × TypeClass)) (name : String) (known : TypeClass)
    → All (λ row. P row.1) table
    → class_of name table ≡ some known
    → P known
unfolding class_of
All-class_of P [] name known h e = let k : none ≡ some known = e in cc
All-class_of P ((key, c) ∷ table) name known h e = elim (Bool-cases (str_eq key name)) [
  | inl s ↦ let k : some c ≡ some known = rw s at e in subst P (let k' : c ≡ known = cc in k') h.0
  | inr s ↦ All-class_of P table name known h.1 (rw s at e)
]

pub All-is_member :
    (P : String → Type 0) (names : List String) (name : String)
    → All P names
    → is_member name names ≡ true
    → P name
unfolding is_member
All-is_member P [] name h e = let k : false ≡ true = e in cc
All-is_member P (n ∷ names) name h e = elim (Bool-cases (str_eq n name)) [
  | inl s ↦ subst P ((eq_iff n name).0 s) h.0
  | inr s ↦ All-is_member P names name h.1 (rw s at e)
]

pub All-first_code :
    (P : String → Type 0) (table : List (String × List String)) (text : List ℕ) (code : String)
    → All (λ row. P row.0) table
    → first_code text table ≡ some code
    → P code
unfolding first_code
All-first_code P [] text code h e = let k : none ≡ some code = e in cc
All-first_code P ((c, patterns) ∷ table) text code h e =
    elim (Bool-cases (matches_any text patterns)) [
      | inl s ↦ let k : some c ≡ some code = rw s at e in subst P (let k' : c ≡ code = cc in k') h.0
      | inr s ↦ All-first_code P table text code h.1 (rw s at e)
    ]

pub contaminating_patterns-All : All (λ row. Blameless row.0) contaminating_patterns
unfolding contaminating_patterns is_input_error is_member input_error_codes
contaminating_patterns-All = (refl, (refl, (refl, (refl, tt))))

pub transient_patterns-All : All (λ row. Blameless row.0) transient_patterns
unfolding transient_patterns is_input_error is_member input_error_codes
transient_patterns-All = (refl, (refl, tt))

-- A known class is permanent, or its code blames no input.
abbrev pub IsKnown : TypeClass → Type 0
IsKnown k = is_input_error (some k.code) ≡ true → k.error_class ≡ permanent

pub type_classes-All : All (λ row. IsKnown row.1) type_classes
unfolding type_classes is_input_error is_member input_error_codes
type_classes-All = (
  (λ h. refl),
  (
    (λ h. refl),
    (
      (λ h. refl),
      (
        (λ h. refl),
        (
          (λ h. refl),
          (
            (λ h. cc),
            (
              (λ h. cc),
              (
                (λ h. refl),
                (
                  (λ h. refl),
                  (
                    (λ h. refl),
                    (
                      (λ h. refl),
                      (
                        (λ h. refl),
                        (
                          (λ h. refl),
                          (
                            (λ h. cc),
                            ((λ h. refl), ((λ h. refl), ((λ h. cc), ((λ h. cc), ((λ h. cc), tt))))),
                          ),
                        ),
                      ),
                    ),
                  ),
                ),
              ),
            ),
          ),
        ),
      ),
    ),
  ),
)

-- The entry of an own error.
abbrev pub IsOwn : String → Type 0
IsOwn name =
    (known : TypeClass) × (class_of name type_classes ≡ some known)
    × (known.error_class ≡ permanent)

pub own_errors-All : All IsOwn own_errors
unfolding own_errors class_of type_classes
own_errors-All = (
  (_, refl, refl),
  ((_, refl, refl), ((_, refl, refl), ((_, refl, refl), ((_, refl, refl), tt)))),
)

pub from_table-IsFair :
    (c : ErrorClass) (table : List (String × List String)) (text : List ℕ) (i : ErrorInfo)
    → All (λ row. is_input_error (some row.0) ≡ true → c ≡ permanent) table
    → from_table c table text ≡ some i
    → IsFair i
unfolding from_table
from_table-IsFair c table text i h e = elim (Option-cases (first_code (lowered text) table)) [
  | inl f ↦ let k : none ≡ some i = ap (λ o. coded c text o) (sym f) ∙ e in cc
  | inr (code, f) ↦
      let k : some (info c code text false) ≡ some i = ap (λ o. coded c text o) (sym f) ∙ e in
      subst IsFair (let k' : info c code text false ≡ i = cc in k')
        (info-IsFair c code text false (All-first_code _ table (lowered text) code h f))
]
