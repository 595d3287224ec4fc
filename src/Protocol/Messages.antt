-- ===== src/Protocol/Messages.antt =====
-- `bound_message` of image_processor/engine/protocol.py.
use image_processor.Base.{ℕ, ◌-◌, ◌==◌, List, [], ◌∷◌, ◌++◌, length, take, leb, if◌then◌else◌}
use image_processor.Chars.{is_space}

abbrev pub max_error_chars : ℕ
max_error_chars = 1024

-- A space before a text, unless it starts with one.
abbrev pub space_before : List ℕ → List ℕ
space_before [] = 32 ∷ []
space_before (n ∷ ns) = if n == 32 then n ∷ ns else 32 ∷ n ∷ ns

-- `_WHITESPACE.sub(" ", text)`
unfoldable pub collapse : List ℕ → List ℕ
unfolding is_space
collapse [] = []
collapse (n ∷ ns) = if is_space n then space_before (collapse ns) else n ∷ collapse ns

-- `strip()` of a text whose only white space is the space
abbrev pub strip_first : List ℕ → List ℕ
strip_first [] = []
strip_first (n ∷ ns) = if n == 32 then ns else n ∷ ns

unfoldable pub strip_last : List ℕ → List ℕ
strip_last [] = []
strip_last (n ∷ []) = if n == 32 then [] else n ∷ []
strip_last (n ∷ m ∷ ns) = n ∷ strip_last (m ∷ ns)

-- `text[: limit - 3]`, which counts from the end if that is negative
abbrev pub cut_at : ℕ → List ℕ → List ℕ
cut_at limit text =
    if leb 3 limit then take (limit - 3) text else take (length text - (3 - limit)) text

abbrev pub ellipsis : List ℕ
ellipsis = 46 ∷ 46 ∷ 46 ∷ []

-- `collapsed`
unfoldable pub collapsed : List ℕ → List ℕ
unfolding collapse strip_last
collapsed text = strip_last (strip_first (collapse text))

-- `bound_message`
unfoldable pub bound_message : List ℕ → ℕ → List ℕ
unfolding collapsed
bound_message text limit =
    let line = collapsed text in
    if leb (length line) limit then line else cut_at limit line ++ ellipsis
