-- ===== src/Protocol/Bounds.antt =====
-- The length and the shape of the messages of image_processor/engine/protocol.py.
use image_processor.Base.{
  ℕ, ◌-◌, ◌≤◌, ◌≡◌, refl, sym, ◌∙◌, inl, inr, true, false, ◌==◌, ==_iff, List, [], ◌∷◌, ◌++◌,
  length, take, length-append, length-take_le, leb, leb→le, arith, Bool-cases, zero, suc,
}
use image_processor.Chars.{is_space}
use image_processor.Protocol.Messages.{
  space_before, collapse, strip_first, strip_last, ellipsis, collapsed, bound_message,
}

abbrev StartsPlain : List ℕ → Type 0
StartsPlain [] = Unit
StartsPlain (n ∷ ns) = is_space n ≡ false

-- One line: the only white space is single spaces.
abbrev pub IsLine : List ℕ → Type 0
IsLine [] = Unit
IsLine (n ∷ ns) = (is_space n ≡ true → (n ≡ 32) × StartsPlain ns) × IsLine ns

not_space : (n : ℕ) (ns : List ℕ) → IsLine (n ∷ ns) → (n == 32) ≡ false → is_space n ≡ false
not_space n ns h e = elim (Bool-cases (is_space n)) [
  | inr s ↦ s
  | inl s ↦ let k : true ≡ false = sym ((==_iff n 32).1 (h.0 s).0) ∙ e in cc
]

space_before-IsLine : (ns : List ℕ) → IsLine ns → IsLine (space_before ns)
space_before-IsLine [] h = ((λ e. (refl, tt)), tt)
space_before-IsLine (n ∷ ns) h = elim (Bool-cases (n == 32)) [
  | inl e ↦ rw e h
  | inr e ↦ rw e ((λ s. (refl, not_space n ns h e)), h)
]

collapse-IsLine : (text : List ℕ) → IsLine (collapse text)
unfolding collapse
collapse-IsLine [] = tt
collapse-IsLine (n ∷ ns) = elim (Bool-cases (is_space n)) [
  | inl e ↦ rw e (space_before-IsLine (collapse ns) (collapse-IsLine ns))
  | inr e ↦ rw e ((λ s. let k : true ≡ false = sym s ∙ e in cc), collapse-IsLine ns)
]

strip_first-IsLine : (ns : List ℕ) → IsLine ns → IsLine (strip_first ns)
strip_first-IsLine [] h = tt
strip_first-IsLine (n ∷ ns) h = elim (Bool-cases (n == 32)) [ inl e ↦ rw e h.1 | inr e ↦ rw e h ]

-- What is left of a line from its first characters on.
abbrev IsPrefix : List ℕ → List ℕ → Type 0
IsPrefix ms ns = (rest : List ℕ) × (ns ≡ ms ++ rest)

IsPrefix-IsLine : (ms rest : List ℕ) → IsLine (ms ++ rest) → IsLine ms
IsPrefix-IsLine [] rest h = tt
IsPrefix-IsLine (m ∷ []) rest h = ((λ s. ((h.0 s).0, tt)), tt)
IsPrefix-IsLine (m ∷ n ∷ ms) rest h = (h.0, IsPrefix-IsLine (n ∷ ms) rest h.1)

strip_last-IsPrefix : (ns : List ℕ) → IsPrefix (strip_last ns) ns
unfolding strip_last
strip_last-IsPrefix [] = ([], refl)
strip_last-IsPrefix (n ∷ []) = elim (Bool-cases (n == 32)) [
  | inl e ↦ rw e (n ∷ [], refl)
  | inr e ↦ rw e ([], refl)
]
strip_last-IsPrefix (n ∷ m ∷ ns) = let (rest, same) = strip_last-IsPrefix (m ∷ ns) in (rest, cc)

take-IsPrefix : (k : ℕ) (ns : List ℕ) → IsPrefix (take k ns) ns
take-IsPrefix zero ns = (ns, refl)
take-IsPrefix (suc k) [] = ([], refl)
take-IsPrefix (suc k) (n ∷ ns) = let (rest, same) = take-IsPrefix k ns in (rest, cc)

shorten : (ms ns : List ℕ) → IsPrefix ms ns → IsLine ns → IsLine ms
shorten ms ns (rest, same) h = IsPrefix-IsLine ms rest (rw same at h)

collapsed-IsLine : (text : List ℕ) → IsLine (collapsed text)
unfolding collapsed
collapsed-IsLine text =
    let line = strip_first (collapse text) in
    shorten (strip_last line) line (strip_last-IsPrefix line)
      (strip_first-IsLine (collapse text) (collapse-IsLine text))

ellipsis-IsLine : (ns : List ℕ) → IsLine ns → IsLine (ns ++ ellipsis)
unfolding is_space
ellipsis-IsLine [] h = ((λ s. cc), ((λ s. cc), ((λ s. cc), tt)))
ellipsis-IsLine (n ∷ []) h = ((λ s. ((h.0 s).0, refl)), ellipsis-IsLine [] tt)
ellipsis-IsLine (n ∷ m ∷ ns) h = (h.0, ellipsis-IsLine (m ∷ ns) h.1)

-- A bounded message has at most `limit` characters, if the limit leaves room for an ellipsis, and
-- is one line: its only white space is single spaces.
pub bound_message-IsLine :
    (text : List ℕ) (limit : ℕ)
    → 3 ≤ limit
    → (length (bound_message text limit) ≤ limit) × IsLine (bound_message text limit)
unfolding bound_message
bound_message-IsLine text limit h = elim (Bool-cases (leb (length (collapsed text)) limit)) [
  | inl e ↦ rw e (leb→le (length (collapsed text)) limit e, collapsed-IsLine text)
  | inr e ↦
      let room : leb 3 limit ≡ true = ground arith in
      let line = collapsed text in
      let cut = take (limit - 3) line in
      rw (e, room)
        (
          omega (arith, length-append cut ellipsis, length-take_le (limit - 3) line),
          ellipsis-IsLine cut
              (shorten cut line (take-IsPrefix (limit - 3) line) (collapsed-IsLine text)),
        )
]
