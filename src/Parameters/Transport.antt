-- ===== src/Parameters/Transport.antt =====
-- `_decode_transport_parameter` of src/protocyte/parameters.py: parameters that come as hexadecimal
-- digits of their UTF-8 bytes.
pub mod Hex
use protocyte.Common.{
  contains, is_empty, ℕ, zero, suc, ◌+◌, ◌-◌, ◌*◌, Bool, true, false, not, ◌&&◌, ◌||◌, Option, none,
  some, List, [], ◌∷◌, Result, ok, err, ltb, leb, ◌==◌, if◌then◌else◌, codes, text_eq, length, map,
  split, before, after,
}
use protocyte.Parameters.Text.{Text, strip}
use protocyte.Parameters.Prefix.{
  ParameterError, transport_not_alone, transport_without_value, invalid_hex, not_utf8,
}

unfoldable pub hex_value : ℕ → Option ℕ
hex_value c =
    if leb b'0' c && leb c b'9'
    then some (c - b'0')
    else if leb b'a' c && leb c b'f'
    then some (c - 87)
    else if leb b'A' c && leb c b'F'
    then some (c - 55)
    else none

-- The ASCII white space that bytes.fromhex skips between bytes.
abbrev pub is_skipped : ℕ → Bool
is_skipped c = (leb 9 c && leb c 13) || c == 32

abbrev pub join_digits : Option ℕ → Option ℕ → Option (List ℕ) → Option (List ℕ)
join_digits (some high) (some low) (some bytes) = some ((high * 16 + low) ∷ bytes)
join_digits _ _ _ = none

-- bytes.fromhex(encoded); `none` for its ValueError
unfoldable pub fromhex : Text → Option (List ℕ)
unfolding hex_value
fromhex [] = some []
fromhex (c ∷ []) = if is_skipped c then some [] else none
fromhex (c ∷ d ∷ text) = elim (is_skipped c) [
  | true ↦ fromhex (d ∷ text)
  | false ↦ join_digits (hex_value c) (hex_value d) (fromhex text)
]

-- How many bytes follow a first byte, what it gives to the code point, and the least code point
-- that may be written with that many bytes.
unfoldable pub lead_byte : ℕ → Option (ℕ × ℕ × ℕ)
lead_byte b =
    if ltb b 128
    then some (0, b, 0)
    else if leb 192 b && ltb b 224
    then some (1, b - 192, 128)
    else if leb 224 b && ltb b 240
    then some (2, b - 224, 0x800)
    else if leb 240 b && ltb b 248
    then some (3, b - 240, 0x10000)
    else none

-- A code point that is whole: not too small for its bytes, no surrogate, not above the last one.
unfoldable pub emit : ℕ → ℕ → Option Text → Option Text
emit least code none = none
emit least code (some text) =
    if leb least code && leb code 0x10FFFF && not (leb 0xD800 code && leb code 0xDFFF)
    then some (code ∷ text)
    else none

-- bytes.decode("utf-8") with `need` bytes missing of the code point that `code` begins; `none` for
-- its UnicodeDecodeError
unfoldable pub utf8_run : ℕ → ℕ → ℕ → List ℕ → Option Text
unfolding lead_byte emit
utf8_run zero code least [] = some []
utf8_run (suc need) code least [] = none
utf8_run zero code least (b ∷ bytes) = elim (lead_byte b) [
  | none ↦ none
  | some (zero, first, bound) ↦ emit bound first (utf8_run 0 0 0 bytes)
  | some (suc more, first, bound) ↦ utf8_run (suc more) first bound bytes
]
utf8_run (suc zero) code least (b ∷ bytes) = elim (leb 128 b && ltb b 192) [
  | true ↦ emit least (code * 64 + (b - 128)) (utf8_run 0 0 0 bytes)
  | false ↦ none
]
utf8_run (suc (suc need)) code least (b ∷ bytes) = elim (leb 128 b && ltb b 192) [
  | true ↦ utf8_run (suc need) (code * 64 + (b - 128)) least bytes
  | false ↦ none
]

unfoldable pub decode_transport_bytes : List ℕ → Result ParameterError Text
unfolding utf8_run
decode_transport_bytes decoded = elim (utf8_run 0 0 0 decoded) [
  | none ↦ err not_utf8
  | some text ↦ ok text
]

unfoldable pub decode_hex_transport_parameter : Text → Result ParameterError Text
unfolding fromhex decode_transport_bytes
decode_hex_transport_parameter encoded = elim (fromhex encoded) [
  | none ↦ err invalid_hex
  | some decoded ↦ decode_transport_bytes decoded
]

-- The parts of the parameter, stripped, without the empty ones.
unfoldable pub nonempty_parts : List Text → List Text
unfolding strip
nonempty_parts [] = []
nonempty_parts (raw_part ∷ parts) =
    if is_empty (strip raw_part)
    then nonempty_parts parts
    else strip raw_part ∷ nonempty_parts parts

-- The one key of `transport_decoders`.
abbrev pub transport_key : Text
transport_key = codes "_protocyte_options_hex"

-- part.split("=", 1)[0] in transport_decoders
unfoldable pub is_transport : Text → Bool
unfolding before text_eq
is_transport part = text_eq (before b'=' part) transport_key

unfoldable pub transport_parts : List Text → List Text
unfolding is_transport
transport_parts [] = []
transport_parts (part ∷ parts) =
    if is_transport part then part ∷ transport_parts parts else transport_parts parts

-- The rest of `_decode_transport_parameter` with a transport part `part` among `count` parts.
unfoldable pub decode_transport_part : List Text → ℕ → Text → Result ParameterError Text
unfolding after decode_hex_transport_parameter
decode_transport_part found count part =
    if not (length found == 1) || not (count == 1)
    then err transport_not_alone
    else if not (contains b'=' part)
    then err transport_without_value
    else decode_hex_transport_parameter (after b'=' part)

-- The parameter itself, unless one of its parts is a transport part.
unfoldable pub decode_transport_parts : Text → List Text → Result ParameterError Text
unfolding transport_parts decode_transport_part
decode_transport_parts parameter parts = elim (transport_parts parts) [
  | [] ↦ ok parameter
  | part ∷ others ↦ decode_transport_part (part ∷ others) (length parts) part
]

unfoldable pub decode_transport_parameter : Text → Result ParameterError Text
unfolding split nonempty_parts decode_transport_parts
decode_transport_parameter parameter =
    decode_transport_parts parameter (nonempty_parts (split b',' parameter))
