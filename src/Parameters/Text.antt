-- ===== src/Parameters/Text.antt =====
-- The operations of `str` that src/protocyte/parameters.py calls, on code points.
use protocyte.Common.{
  ℕ, Bool, true, false, ◌&&◌, ◌||◌, List, [], ◌∷◌, ltb, leb, ◌==◌, if◌then◌else◌,
}

-- The code points of a str.
abbrev pub Text : Type 0
Text = List ℕ

-- str.isspace() of one character, which str.strip() removes
unfoldable pub is_space : ℕ → Bool
is_space c =
    (leb 9 c && leb c 13)
    || (leb 28 c && leb c 32)
    || c == 0x85
    || c == 0xA0
    || c == 0x1680
    || (leb 0x2000 c && leb c 0x200A)
    || c == 0x2028
    || c == 0x2029
    || c == 0x202F
    || c == 0x205F
    || c == 0x3000

-- str.lstrip()
unfoldable pub strip_front : Text → Text
unfolding is_space
strip_front [] = []
strip_front (c ∷ text) = if is_space c then strip_front text else c ∷ text

-- What str.rstrip() puts before an end that is stripped already.
abbrev pub keep_front : ℕ → Text → Text
keep_front c [] = if is_space c then [] else c ∷ []
keep_front c (d ∷ text) = c ∷ d ∷ text

-- str.rstrip()
unfoldable pub strip_back : Text → Text
unfolding is_space
strip_back [] = []
strip_back (c ∷ text) = keep_front c (strip_back text)

-- str.strip()
unfoldable pub strip : Text → Text
unfolding strip_front strip_back
strip text = strip_back (strip_front text)

-- ord(char) < 0x20 or ord(char) == 0x7F
abbrev pub is_control : ℕ → Bool
is_control c = ltb c 0x20 || c == 0x7F

-- text.split("::")
unfoldable pub push_character : ℕ → List Text → List Text
push_character c [] = (c ∷ []) ∷ []
push_character c (part ∷ parts) = (c ∷ part) ∷ parts

unfoldable pub split_scopes : Text → List Text
unfolding push_character
split_scopes [] = [] ∷ []
split_scopes (c ∷ []) = (c ∷ []) ∷ []
split_scopes (c ∷ d ∷ text) = elim (c == b':' && d == b':') [
  | true ↦ [] ∷ split_scopes text
  | false ↦ push_character c (split_scopes (d ∷ text))
]
