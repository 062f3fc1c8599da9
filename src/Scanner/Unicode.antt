-- ===== src/Scanner/Unicode.antt =====
-- `_encode_unicode_point` and `_decode_unicode_escape` of src/protocyte/import_scanner.py. The
-- index into the data is the data that is still to be read.
use Prim.Native.Nat.{bit_or}
use protocyte.Common.{
  ℕ, zero, suc, ◌+◌, ◌-◌, ◌*◌, ◌/◌, ◌%◌, ◌^◌, Bool, not, ◌&&◌, ◌||◌, Option, none, some, [], ◌∷◌,
  ◌++◌, Bytes, codes, leb, ltb, ◌==◌, if◌then◌else◌, length, take, drop, all, starts_with,
}

-- value in _HEX_DIGITS
unfoldable pub is_hex_digit : ℕ → Bool
is_hex_digit c =
    (leb b'0' c && leb c b'9') || (leb b'a' c && leb c b'f') || (leb b'A' c && leb c b'F')

unfoldable pub digit_value : ℕ → ℕ
digit_value c = if leb c b'9' then c - b'0' else if leb c b'F' then c - b'A' + 10 else c - b'a' + 10

-- int(digits, base)
unfoldable pub parse_int : ℕ → ℕ → Bytes → ℕ
unfolding digit_value
parse_int base n [] = n
parse_int base n (c ∷ digits) = parse_int base (n * base + digit_value c) digits

-- code_point >> k and code_point & 0x3F
abbrev pub shift_right : ℕ → ℕ → ℕ
shift_right n k = n / 2 ^ k

abbrev pub low_six : ℕ → ℕ
low_six n = n % 64

unfoldable pub lower_hex_digit : ℕ → ℕ
lower_hex_digit d = if ltb d 10 then b'0' + d else b'a' + (d - 10)

-- f"{n:08x}" of a number with at most eight digits
unfoldable pub hex_digits : ℕ → ℕ → Bytes
unfolding lower_hex_digit
hex_digits zero n = []
hex_digits (suc width) n = hex_digits width (n / 16) ++ lower_hex_digit (n % 16) ∷ []

unfoldable pub encode_unicode_point : ℕ → Bytes
unfolding hex_digits
encode_unicode_point n =
    if leb n 0x7F
    then n ∷ []
    else if leb n 0x7FF
    then bit_or 0xC0 (shift_right n 6) ∷ bit_or 0x80 (low_six n) ∷ []
    else if leb n 0xFFFF
    then bit_or 0xE0 (shift_right n 12)
      ∷ bit_or 0x80 (low_six (shift_right n 6))
      ∷ bit_or 0x80 (low_six n)
      ∷ []
    else if leb n 0x10FFFF
    then bit_or 0xF0 (shift_right n 18)
      ∷ bit_or 0x80 (low_six (shift_right n 12))
      ∷ bit_or 0x80 (low_six (shift_right n 6))
      ∷ bit_or 0x80 (low_six n)
      ∷ []
    else codes "\\U" ++ hex_digits 8 n

-- Whether the digits behind `\u` spell a trailing surrogate.
unfoldable pub is_trail : Bytes → Bytes → Bool
unfolding is_hex_digit parse_int starts_with
is_trail text digits =
    starts_with (codes "\\u") text
    && length digits == 4
    && all is_hex_digit digits
    && leb 0xDC00 (parse_int 16 0 digits)
    && ltb (parse_int 16 0 digits) 0xE000

-- The code point of the digits, joined with a trailing surrogate, and the data behind.
unfoldable pub join_surrogates : ℕ → Bytes → ℕ × Bytes
unfolding is_trail
join_surrogates lead text =
    let digits = take 4 (drop 2 text) in
    if leb 0xD800 lead && ltb lead 0xDC00 && is_trail text digits
    then (0x10000 + (lead - 0xD800) * 2 ^ 10 + parse_int 16 0 digits - 0xDC00, drop 6 text)
    else (lead, text)

-- `text` is the data behind the `u` or `U`, which is `kind`.
unfoldable pub decode_unicode_escape : ℕ → Bytes → Option (Bytes × Bytes)
unfolding is_hex_digit parse_int join_surrogates encode_unicode_point
decode_unicode_escape kind text =
    let width : ℕ = if kind == b'u' then 4 else 8 in
    let digits = take width text in
    if ltb (length text) width || not (all is_hex_digit digits)
    then none
    else let (point, rest) = join_surrogates (parse_int 16 0 digits) (drop width text) in
      some (rest, encode_unicode_point point)
