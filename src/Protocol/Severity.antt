-- ===== src/Protocol/Severity.antt =====
-- The order of the diagnoses in `classify_message` of image_processor/engine/protocol.py.
use Prim.Native.String.{String}
use image_processor.Base.{
  ℕ, ◌≡◌, refl, ap, ◌⊎◌, inl, inr, Bool, true, false, ◌||◌, Option, none, some, List, [], ◌∷◌,
  Bool-cases, Option-cases,
}
use image_processor.Chars.{lowered}
use image_processor.Protocol.Tables.{
  ErrorClass, transient, permanent, contaminating, contaminating_patterns, memory_patterns,
  permanent_patterns, transient_patterns,
}
use image_processor.Protocol.Classify.{
  ErrorInfo, matches_any, first_code, info, coded, from_table, from_memory, classify_message,
}

-- Whether a message has some signature of a table.
unfoldable pub has_signature : List (String × List String) → List ℕ → Bool
has_signature [] text = false
has_signature ((code, patterns) ∷ table) text =
    matches_any (lowered text) patterns || has_signature table text

-- Whether a message says that memory ran out.
abbrev pub has_memory : List ℕ → Bool
has_memory text = matches_any (lowered text) memory_patterns

first_code-signature :
    (table : List (String × List String)) (text : List ℕ)
    → (first_code (lowered text) table ≡ none → has_signature table text ≡ false)
      × ((code : String)
          → first_code (lowered text) table ≡ some code
          → has_signature table text ≡ true)
unfolding first_code has_signature
first_code-signature [] text = ((λ e. refl), (λ code e. cc))
first_code-signature ((c, patterns) ∷ table) text =
    let (without, with) = first_code-signature table text in
    elim (Bool-cases (matches_any (lowered text) patterns)) [
      | inl e ↦ rw e ((λ h. cc), (λ code h. refl))
      | inr e ↦ rw e (without, with)
    ]

-- What a diagnosis of a class says of the message.
abbrev pub Signed : List ℕ → ErrorClass → Bool → Type 0
Signed text contaminating memory =
    (has_signature contaminating_patterns text ≡ true) × (memory ≡ false)
Signed text permanent memory =
    (has_signature contaminating_patterns text ≡ false)
    × (has_memory text ≡ false)
    × (has_signature permanent_patterns text ≡ true)
    × (memory ≡ false)
Signed text transient true =
    (has_signature contaminating_patterns text ≡ false) × (has_memory text ≡ true)
Signed text transient false =
    (has_signature contaminating_patterns text ≡ false)
    × (has_memory text ≡ false)
    × (has_signature permanent_patterns text ≡ false)
    × (has_signature transient_patterns text ≡ true)

abbrev pub Diagnosed : List ℕ → Option ErrorInfo → Type 0
Diagnosed text none =
    (has_signature contaminating_patterns text ≡ false)
    × (has_memory text ≡ false)
    × (has_signature permanent_patterns text ≡ false)
    × (has_signature transient_patterns text ≡ false)
Diagnosed text (some i) = Signed text i.error_class i.memory_pressure

from_table-cases :
    (c : ErrorClass) (table : List (String × List String)) (text : List ℕ)
    → ((from_table c table text ≡ none) × (has_signature table text ≡ false))
      ⊎ ((code : String) × (from_table c table text ≡ some (info c code text false))
          × (has_signature table text ≡ true))
unfolding from_table
from_table-cases c table text = elim (Option-cases (first_code (lowered text) table)) [
  | inl e ↦ inl (ap (λ o. coded c text o) e, (first_code-signature table text).0 e)
  | inr (code, e) ↦
      inr (code, ap (λ o. coded c text o) e, (first_code-signature table text).1 code e)
]

from_memory-cases :
    (text : List ℕ)
    → ((from_memory text ≡ none) × (has_memory text ≡ false))
      ⊎ ((from_memory text ≡ some (info transient "CUDA_OOM" text true)) × (has_memory text ≡ true))
unfolding from_memory
from_memory-cases text = elim (Bool-cases (has_memory text)) [
  | inl e ↦ inr (rw e refl, e)
  | inr e ↦ inl (rw e refl, e)
]

-- A message is read as the most serious diagnosis that it has a signature of: contaminating before
-- memory, memory before permanent, permanent before transient; memory pressure is reported exactly
-- with a signature of memory and none of a contaminated context; without any signature there is no
-- diagnosis.
pub classify_message-Diagnosed : (text : List ℕ) → Diagnosed text (classify_message text)
unfolding classify_message
classify_message-Diagnosed text =
    elim (from_table-cases contaminating contaminating_patterns text) [
      | inr (code, e, sign) ↦ rw e (sign, refl)
      | inl (e, clean) ↦ rw e (elim (from_memory-cases text) [
        | inr (f, full) ↦ rw f (clean, full)
        | inl (f, room) ↦ rw f (elim (from_table-cases permanent permanent_patterns text) [
          | inr (code, g, sign) ↦ rw g (clean, room, sign, refl)
          | inl (g, kept) ↦ rw g (elim (from_table-cases transient transient_patterns text) [
            | inr (code, h, sign) ↦ rw h (clean, room, kept, sign)
            | inl (h, quiet) ↦ rw h (clean, room, kept, quiet)
          ])
        ])
      ])
    ]
