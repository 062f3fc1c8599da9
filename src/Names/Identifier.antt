-- ===== src/Names/Identifier.antt =====
-- `cpp_identifier` and its helpers in src/protocyte/names.py, over the UTF-8 bytes of a name.
use protocyte.Common.{
  ℕ, ◌+◌, ◌-◌, ◌/◌, ◌%◌, Bool, false, not, ◌&&◌, ◌||◌, List, [], ◌∷◌, ◌++◌, Bytes, codes, text_in,
  starts_with, ends_with, all, leb, ltb, ◌==◌, if◌then◌else◌,
}
use protocyte.Names.Keywords.{cpp_keywords, keyword_escaped_identifiers}

abbrev pub reserved_identifier_prefix : Bytes
reserved_identifier_prefix = codes "protocyte_escaped_"

abbrev pub derivable_identifier_suffix : Bytes
derivable_identifier_suffix = codes "protocyte"

-- [A-Za-z_]
unfoldable pub is_identifier_start : ℕ → Bool
is_identifier_start c = (leb b'A' c && leb c b'Z') || (leb b'a' c && leb c b'z') || c == b'_'

-- [A-Za-z0-9_]
unfoldable pub is_identifier_continue : ℕ → Bool
unfolding is_identifier_start
is_identifier_continue c = is_identifier_start c || (leb b'0' c && leb c b'9')

-- _CPP_IDENTIFIER.fullmatch(name)
unfoldable pub is_cpp_identifier : Bytes → Bool
unfolding is_identifier_continue
is_cpp_identifier [] = false
is_cpp_identifier (c ∷ name) = is_identifier_start c && all is_identifier_continue name

-- "__" in name
unfoldable pub has_double_underscore : Bytes → Bool
has_double_underscore [] = false
has_double_underscore (c ∷ []) = false
has_double_underscore (c ∷ d ∷ name) = (c == b'_' && d == b'_') || has_double_underscore (d ∷ name)

-- One digit of bytes.hex()
unfoldable pub hex_digit : ℕ → ℕ
hex_digit d = if ltb d 10 then b'0' + d else b'a' + (d - 10)

-- bytes.hex()
unfoldable pub hex : Bytes → Bytes
unfolding hex_digit
hex [] = []
hex (b ∷ bytes) = hex_digit (b / 16) ∷ hex_digit (b % 16) ∷ hex bytes

unfoldable pub encoded_identifier : Bytes → Bytes
unfolding hex
encoded_identifier name = reserved_identifier_prefix ++ hex name

-- The names that are identifiers and still need escaping.
unfoldable pub needs_encoding : Bytes → Bool
unfolding starts_with has_double_underscore keyword_escaped_identifiers
needs_encoding name =
    starts_with (codes "_") name
    || has_double_underscore name
    || starts_with reserved_identifier_prefix name
    || text_in name keyword_escaped_identifiers

unfoldable pub cpp_identifier : Bytes → Bytes
unfolding is_cpp_identifier encoded_identifier needs_encoding cpp_keywords
cpp_identifier name =
    if not (is_cpp_identifier name)
    then encoded_identifier name
    else if text_in name cpp_keywords
    then name ++ codes "_"
    else if needs_encoding name
    then encoded_identifier name
    else name

unfoldable pub cpp_emitted_derivable_identifier : Bytes → Bytes
unfolding ends_with
cpp_emitted_derivable_identifier name =
    if ends_with b'_' name then name ++ derivable_identifier_suffix else name

unfoldable pub cpp_derivable_identifier : Bytes → Bytes
unfolding cpp_identifier cpp_emitted_derivable_identifier
cpp_derivable_identifier name = cpp_emitted_derivable_identifier (cpp_identifier name)

-- str.upper() of one ASCII character
unfoldable pub upper : ℕ → ℕ
upper c = if leb b'a' c && leb c b'z' then c - 32 else c

upper_first : Bytes → Bytes
unfolding upper
upper_first [] = []
upper_first (c ∷ text) = upper c ∷ text

unfoldable pub cpp_pascal_identifier : Bytes → Bytes
unfolding cpp_identifier upper_first
cpp_pascal_identifier name = upper_first (cpp_identifier name)

unfoldable pub is_portable_identifier : Bytes → Bool
unfolding is_cpp_identifier cpp_keywords starts_with has_double_underscore
is_portable_identifier name =
    is_cpp_identifier name
    && not (text_in name cpp_keywords)
    && not (starts_with (codes "_") name)
    && not (has_double_underscore name)

-- name == "" is encoded; tests at names of each branch
identifier_tests : List Bytes
unfolding cpp_identifier
identifier_tests =
    cpp_identifier (codes "int")
    ∷ cpp_identifier (codes "a__b")
    ∷ cpp_identifier (codes "int_")
    ∷ cpp_identifier (codes "value")
    ∷ cpp_identifier []
    ∷ []
