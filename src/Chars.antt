-- ===== src/Chars.antt =====
-- What Python's `str` methods do to the characters of a text, by their code points.
use Prim.Native.String.{String}
use Prim.Native.Char.{code}
use image_processor.Base.{
  ℕ, ◌+◌, Bool, true, false, ◌&&◌, ◌||◌, List, [], ◌∷◌, ◌==◌, leb, if◌then◌else◌,
}

-- `str.isspace` of one character, which is also what `\s` matches
unfoldable pub is_space : ℕ → Bool
is_space n =
    leb 9 n && leb n 13
    || leb 28 n && leb n 32
    || n == 133
    || n == 160
    || n == 5760
    || leb 8192 n && leb n 8202
    || n == 8232
    || n == 8233
    || n == 8239
    || n == 8287
    || n == 12288

-- ASCII characters in lower case
unfoldable pub lower_code : ℕ → ℕ
lower_code n = if leb 65 n && leb n 90 then n + 32 else n

unfoldable pub codes : String → List ℕ
codes String.[] = []
codes (String.◌∷◌ c s) = code c ∷ codes s

-- `text.lower()`, as far as ASCII patterns can tell: two other characters, the Kelvin sign and the
-- dotted capital I, have an ASCII letter in lower case.
unfoldable pub lowered : List ℕ → List ℕ
unfolding lower_code
lowered [] = []
lowered (n ∷ ns) =
    if n == 8490
    then 107 ∷ lowered ns
    else (if n == 304 then 105 ∷ 775 ∷ lowered ns else lower_code n ∷ lowered ns)

unfoldable pub begins : List ℕ → List ℕ → Bool
begins [] text = true
begins (p ∷ ps) [] = false
begins (p ∷ ps) (n ∷ ns) = p == n && begins ps ns

-- `pattern in text`
unfoldable pub occurs : List ℕ → List ℕ → Bool
unfolding begins
occurs pattern [] = begins pattern []
occurs pattern (n ∷ ns) = begins pattern (n ∷ ns) || occurs pattern ns
