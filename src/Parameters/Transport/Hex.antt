-- ===== src/Parameters/Transport/Hex.antt =====
-- Encoded parameters are decoded.
use protocyte.Common.{
  contains, ℕ, ◌+◌, ◌*◌, ◌/◌, ◌%◌, ◌<◌, ◌≡◌, refl, ap, ◌∙◌, arith, Bool, true, false, not, ◌&&◌,
  some, List, [], ◌∷◌, ◌++◌, ltb, ltb→lt, ◌==◌, codes, text_eq, lacks, all, split, split_lacking,
  not-true, before, after, &&-true,
}
use protocyte.Names.Identifier.{hex, hex_digit}
use protocyte.Parameters.Text.{Text, is_space, strip, strip_front, strip_back}
use protocyte.Parameters.Transport.{
  hex_value, is_skipped, join_digits, fromhex, decode_transport_bytes,
  decode_hex_transport_parameter, nonempty_parts, transport_key, transport_parts, is_transport,
  decode_transport_part, decode_transport_parts, decode_transport_parameter,
}

-- No white space and no comma.
abbrev pub is_dense : ℕ → Bool
is_dense c = not (is_space c) && not (c == b',')

pub strip_front-dense : (text : Text) → all is_dense text ≡ true → strip_front text ≡ text
unfolding strip_front
strip_front-dense [] dense = refl
strip_front-dense (c ∷ text) dense =
    ground (arith, &&-true (not (is_space c)) _ (&&-true (is_dense c) _ dense).0)

pub strip_back-dense : (text : Text) → all is_dense text ≡ true → strip_back text ≡ text
unfolding strip_back
strip_back-dense [] dense = refl
strip_back-dense (c ∷ []) dense =
    rw (not-true (is_space c) (&&-true (not (is_space c)) _ (&&-true (is_dense c) _ dense).0).0)
      refl
strip_back-dense (c ∷ d ∷ text) dense =
    rw (strip_back-dense (d ∷ text) (&&-true (is_dense c) _ dense).1) refl

hex_value-digit : (d : ℕ) → d < 16 → hex_value (hex_digit d) ≡ some d
unfolding hex_value hex_digit
hex_value-digit d small = ground arith

hex_digit_kept :
    (d : ℕ) → d < 16 → (is_dense (hex_digit d) ≡ true) × (is_skipped (hex_digit d) ≡ false)
unfolding is_space hex_digit
hex_digit_kept d small = ground arith

fromhex_pair :
    (c d : ℕ) (text : Text)
    → is_skipped c ≡ false
    → fromhex (c ∷ d ∷ text) ≡ join_digits (hex_value c) (hex_value d) (fromhex text)
unfolding fromhex
fromhex_pair c d text kept = rw (fromhex, kept) refl

fromhex-hex :
    (bytes : List ℕ) → all (λ b. ltb b 256) bytes ≡ true → fromhex (hex bytes) ≡ some bytes
unfolding fromhex hex
fromhex-hex [] small = refl
fromhex-hex (b ∷ bytes) small =
    let (here, rest) = &&-true (ltb b 256) _ small in
    let bound : b < 256 = ltb→lt b 256 here in
    let high = hex_value-digit (b / 16) (omega arith) in
    let low = hex_value-digit (b % 16) (omega arith) in
    let value : b / 16 * 16 + b % 16 ≡ b = omega arith in
    fromhex_pair (hex_digit (b / 16)) (hex_digit (b % 16)) (hex bytes)
      (hex_digit_kept (b / 16) (omega arith)).1
    ∙ rw (high, low, fromhex-hex bytes rest, value) refl

hex-dense : (bytes : List ℕ) → all (λ b. ltb b 256) bytes ≡ true → all is_dense (hex bytes) ≡ true
unfolding hex
hex-dense [] small = refl
hex-dense (b ∷ bytes) small =
    let (here, rest) = &&-true (ltb b 256) _ small in
    let bound : b < 256 = ltb→lt b 256 here in
    rw
      (
        (hex_digit_kept (b / 16) (omega arith)).0,
        (hex_digit_kept (b % 16) (omega arith)).0,
        hex-dense bytes rest,
      )
      refl

pub dense-lacks : (text : Text) → all is_dense text ≡ true → lacks b',' text ≡ true
dense-lacks [] dense = refl
dense-lacks (c ∷ text) dense =
    let (here, rest) = &&-true (is_dense c) _ dense in
    rw ((&&-true (not (is_space c)) _ here).1, dense-lacks text rest) refl

pub strip-dense : (text : Text) → all is_dense text ≡ true → strip text ≡ text
unfolding strip
strip-dense text dense = rw (strip_front-dense text dense) (strip_back-dense text dense)

nonempty_parts-dense :
    (c : ℕ) (text : Text)
    → all is_dense (c ∷ text) ≡ true
    → nonempty_parts ((c ∷ text) ∷ []) ≡ (c ∷ text) ∷ []
unfolding nonempty_parts
nonempty_parts-dense c text dense = rw (strip-dense (c ∷ text) dense) refl

decode_transport_part_alone :
    (part : Text)
    → contains b'=' part ≡ true
    → decode_transport_part (part ∷ []) 1 part ≡ decode_hex_transport_parameter (after b'=' part)
unfolding decode_transport_part
decode_transport_part_alone part valued = rw valued refl

decode_transport_parameter_alone :
    (parameter part : Text)
    → nonempty_parts (split b',' parameter) ≡ part ∷ []
    → is_transport part ≡ true
    → contains b'=' part ≡ true
    → decode_transport_parameter parameter ≡ decode_hex_transport_parameter (after b'=' part)
unfolding decode_transport_parameter decode_transport_parts transport_parts
decode_transport_parameter_alone parameter part alone key valued =
    ap (decode_transport_parts parameter) alone
    ∙ rw (decode_transport_parts, key) (decode_transport_part_alone part valued)

decode_hex_transport_parameter-hex :
    (bytes : List ℕ)
    → all (λ b. ltb b 256) bytes ≡ true
    → decode_hex_transport_parameter (hex bytes) ≡ decode_transport_bytes bytes
unfolding decode_hex_transport_parameter
decode_hex_transport_parameter-hex bytes small =
    rw (decode_hex_transport_parameter, fromhex-hex bytes small) refl

-- The hexadecimal digits of any bytes, behind the key of the transport, are taken as the UTF-8
-- bytes of the parameter, whatever commas, spaces or "=" those bytes spell.
pub decode_transport_parameter-hex :
    (bytes : List ℕ)
    → all (λ b. ltb b 256) bytes ≡ true
    → decode_transport_parameter (transport_key ++ b'=' ∷ hex bytes) ≡ decode_transport_bytes bytes
unfolding is_transport before after text_eq is_space
decode_transport_parameter-hex bytes small =
    let text = transport_key ++ b'=' ∷ hex bytes in
    let dense : all is_dense text ≡ true = rw (hex-dense bytes small) refl in
    let one = split_lacking b',' text (dense-lacks text dense) in
    let kept =
      nonempty_parts-dense b'_' (codes "protocyte_options_hex" ++ b'=' ∷ hex bytes) dense in
    decode_transport_parameter_alone text text (ap nonempty_parts one ∙ kept) refl refl
    ∙ decode_hex_transport_parameter-hex bytes small
