-- ===== src/Names/Portable.antt =====
-- What `cpp_identifier` returns is portable C++: an identifier that is no keyword, does not begin
-- with an underscore and has no two underscores in a row.
use protocyte.Common.{
  ℕ, ◌≡◌, refl, arith, Bool, true, false, not, [], ◌∷◌, Bytes, codes, all, starts_with, &&-true,
  ltb, ◌==◌, ◌/◌, ◌%◌, ◌<◌,
}
use protocyte.Names.Identifier.{
  is_identifier_continue, is_cpp_identifier, has_double_underscore, hex_digit, hex,
  encoded_identifier, cpp_identifier, is_portable_identifier,
}
use protocyte.Names.Spelling.{
  Spelling, encoded, escaped, plain, Spelling-cpp_identifier, is_safe_escape_of_keyword,
  encoded-not-keyword, needs_encoding-false,
}

-- A byte is below 256.
abbrev pub is_byte : ℕ → Bool
is_byte b = ltb b 256

hex_digit_fine :
    (d : ℕ)
    → d < 16
    → (is_identifier_continue (hex_digit d) ≡ true) × ((hex_digit d == b'_') ≡ false)
unfolding hex_digit is_identifier_continue
hex_digit_fine d h = ground arith

hex_continues :
    (name : Bytes) → all is_byte name ≡ true → all is_identifier_continue (hex name) ≡ true
unfolding hex
hex_continues [] h = refl
hex_continues (b ∷ name) h =
    let (small, rest) = &&-true (is_byte b) _ h in
    ground (
      arith,
      hex_continues name rest,
      hex_digit_fine (b / 16) (ground arith),
      hex_digit_fine (b % 16) (omega arith),
    )

abbrev is_no_underscore : ℕ → Bool
is_no_underscore c = not (c == b'_')

hex_no_underscore :
    (name : Bytes) → all is_byte name ≡ true → all is_no_underscore (hex name) ≡ true
unfolding hex
hex_no_underscore [] h = refl
hex_no_underscore (b ∷ name) h =
    let (small, rest) = &&-true (is_byte b) _ h in
    ground (
      arith,
      hex_no_underscore name rest,
      hex_digit_fine (b / 16) (ground arith),
      hex_digit_fine (b % 16) (omega arith),
    )

no_double_behind :
    (c : ℕ) (text : Bytes)
    → all is_no_underscore text ≡ true
    → has_double_underscore (c ∷ text) ≡ false
unfolding has_double_underscore
no_double_behind c [] h = refl
no_double_behind c (d ∷ text) h = ground (arith, no_double_behind d text)

encoded_is_identifier :
    (name : Bytes) → all is_byte name ≡ true → is_cpp_identifier (encoded_identifier name) ≡ true
unfolding is_cpp_identifier encoded_identifier is_identifier_continue
encoded_is_identifier name h = hex_continues name h

encoded_no_double :
    (name : Bytes)
    → all is_byte name ≡ true
    → has_double_underscore (encoded_identifier name) ≡ false
unfolding encoded_identifier has_double_underscore
encoded_no_double name h = no_double_behind b'_' (hex name) (hex_no_underscore name h)

encoded_not_underscore : (name : Bytes) → starts_with (codes "_") (encoded_identifier name) ≡ false
unfolding encoded_identifier starts_with
encoded_not_underscore name = refl

encoded_portable :
    (name : Bytes)
    → all is_byte name ≡ true
    → is_portable_identifier (encoded_identifier name) ≡ true
unfolding is_portable_identifier
encoded_portable name h = rw (
  encoded_is_identifier name h,
  encoded-not-keyword,
  encoded_not_underscore,
  encoded_no_double name h,
)

-- Whatever the bytes of the schema's name, its spelling by `cpp_identifier` is an identifier,
-- is no C++ keyword, does not begin with an underscore and holds no two underscores in a row.
pub cpp_identifier_portable :
    (name : Bytes) → all is_byte name ≡ true → is_portable_identifier (cpp_identifier name) ≡ true
cpp_identifier_portable name h = by_spelling (Spelling-cpp_identifier name)
  where
    by_spelling : {out : Bytes} → Spelling name out → is_portable_identifier out ≡ true
    by_spelling (encoded p) = rw p (encoded_portable name h)
    by_spelling (escaped k p) = rw p (is_safe_escape_of_keyword name k)
    by_spelling (plain good free fine p) =
        let tests = needs_encoding-false name fine in
        rw p (unfold is_portable_identifier in rw (good, free, tests.0, tests.1))
