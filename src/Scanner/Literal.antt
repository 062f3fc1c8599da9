-- ===== src/Scanner/Literal.antt =====
-- `_decode_string` of src/protocyte/import_scanner.py: a string literal of a .proto file.
pub mod Progress
use protocyte.Common.{
  ℕ, zero, suc, ◌+◌, ◌-◌, ◌*◌, ◌/◌, ◌%◌, ◌^◌, Bool, true, false, not, ◌&&◌, ◌||◌, Option, none,
  some, List, [], ◌∷◌, ◌++◌, Bytes, codes, leb, ltb, ◌==◌, if◌then◌else◌, length, take, drop,
}
use protocyte.Scanner.Unicode.{is_hex_digit, parse_int, decode_unicode_escape}

-- _SIMPLE_ESCAPES.get(escaped, escaped)
unfoldable pub simple_escape : ℕ → ℕ
simple_escape c =
    if c == b'a'
    then 7
    else if c == b'b'
    then 8
    else if c == b'f'
    then 12
    else if c == b'n'
    then 10
    else if c == b'r'
    then 13
    else if c == b't'
    then 9
    else if c == b'v'
    then 11
    else c

unfoldable pub is_octal_digit : ℕ → Bool
is_octal_digit c = leb b'0' c && leb c b'7'

-- The digits that the loop over `escape_end` passes: at most `limit` bytes that pass the test.
unfoldable pub leading : (ℕ → Bool) → ℕ → Bytes → Bytes
leading test zero text = []
leading test (suc limit) [] = []
leading test (suc limit) (c ∷ text) = if test c then c ∷ leading test limit text else []

-- `\x` with its digits, or the byte itself if there is none.
unfoldable pub hex_or_byte : ℕ → Bytes → Bytes → Bytes × Bytes
unfolding parse_int
hex_or_byte escaped text [] = (escaped ∷ [], text)
hex_or_byte escaped text (d ∷ digits) =
    (parse_int 16 0 (d ∷ digits) % 256 ∷ [], drop (length (d ∷ digits)) text)

-- `\u` with its code point, or the byte itself if it is malformed.
unfoldable pub escape_or_byte : ℕ → Bytes → Option (Bytes × Bytes) → Bytes × Bytes
escape_or_byte escaped text none = (escaped ∷ [], text)
escape_or_byte escaped text (some (rest, encoded)) = (encoded, rest)

-- The bytes that an escape adds to the value, and the data behind it. `text` is the data behind
-- the backslash and the escaped byte.
unfoldable pub decode_escape : ℕ → Bytes → Bytes × Bytes
unfolding hex_or_byte escape_or_byte simple_escape is_octal_digit leading is_hex_digit parse_int
    decode_unicode_escape
decode_escape escaped text =
    let hex = leading is_hex_digit 2 text in
    let octal = leading is_octal_digit 2 text in
    if escaped == b'x' || escaped == b'X'
    then hex_or_byte escaped text hex
    else if escaped == b'u' || escaped == b'U'
    then escape_or_byte escaped text (decode_unicode_escape escaped text)
    else if is_octal_digit escaped
    then (parse_int 8 0 (escaped ∷ octal) % 256 ∷ [], drop (length octal) text)
    else (simple_escape escaped ∷ [], text)

-- The loop of `_decode_string`: the data behind the literal, and its value if it is closed. The
-- fuel bounds the rounds.
unfoldable pub decode_string_loop : ℕ → ℕ → Bool → Bytes → Bytes → Bytes × Option Bytes
unfolding decode_escape
decode_string_loop zero quote capture value text = ([], none)
decode_string_loop (suc fuel) quote capture value [] = ([], none)
decode_string_loop (suc fuel) quote capture value (c ∷ []) =
    if c == b'\\' then ([], none) else if c == quote then ([], some value) else ([], none)
decode_string_loop (suc fuel) quote capture value (c ∷ escaped ∷ text) =
    let skipped = decode_string_loop fuel quote capture value text in
    let (added, rest) = decode_escape escaped text in
    let decoded = decode_string_loop fuel quote capture (value ++ added) rest in
    let plain =
      decode_string_loop fuel quote capture (if capture then value ++ c ∷ [] else value)
        (escaped ∷ text) in
    if c == b'\\'
    then (if capture then decoded else skipped)
    else if c == quote
    then (escaped ∷ text, some value)
    else plain

-- `text` is the data behind the opening quote. Every round reads a byte, so as many rounds as
-- there are bytes are enough.
unfoldable pub decode_string : ℕ → Bool → Bytes → Bytes × Option Bytes
unfolding decode_string_loop
decode_string quote capture text = decode_string_loop (suc (length text)) quote capture [] text
