-- ===== src/Expression/Literal.antt =====
-- `_tokenize` of src/protocyte/model.py, and the literals of its tokens. The tables of Unicode and
-- `ast.literal_eval` are parameters.
pub mod Ends
use protocyte.Common.{
  ℕ, zero, suc, ◌+◌, ◌-◌, ◌*◌, pos, Bool, true, false, not, ◌&&◌, ◌||◌, Option, none, some, List,
  [], ◌∷◌, ◌++◌, Result, ok, err, ◌>>=◌, ◌>>◌, raise_if, ltb, leb, ◌==◌, length, drop,
  if◌then◌else◌, Bytes, codes, starts_with, contains,
}
use protocyte.Model.Integer.{literal_integer_kind}
use protocyte.Expression.Syntax.{Token, number_token, string_token, ident_token, op_token, eof}
use protocyte.Expression.Number.{
  Floats, Number, whole, real, NumericKind, integral, float64, EvaluationError, not_finite,
  invalid_number, literal_out_of_range, invalid_string,
}
use protocyte.Expression.Value.{TypedValue, numeric_value}
use protocyte.Expression.Casts.{validate_utf8_string}

-- What Python knows of the characters, and its literals
pub record Python : Type 0 where
  -- char.isspace(), char.isdigit(), char.isalpha() and char.isalnum()
  pub is_space : ℕ → Bool
  pub is_digit : ℕ → Bool
  pub is_alpha : ℕ → Bool
  pub is_alnum : ℕ → Bool
  -- The value of a decimal digit of any script, for `int`
  pub decimal_value : ℕ → Option ℕ
  -- ast.literal_eval(text): `none` if it raises or warns, or if the value is no string
  pub literal_eval : Bytes → Option Bytes

-- Where `_tokenize` raises ProtocyteError.
pub data TokenError : Type 0 where
  unterminated_string invalid_numeric_literal unexpected_character : TokenError
  token_fuel : TokenError

-- The front of the text whose characters satisfy the test, and what is behind it
unfoldable pub span : (ℕ → Bool) → Bytes → Bytes × Bytes
span test [] = ([], [])
span test (c ∷ text) = elim (test c) [
  | true ↦ (c ∷ (span test text).0, (span test text).1)
  | false ↦ ([], c ∷ text)
]

abbrev pub multi_operators : List Bytes
multi_operators =
    codes "&&"
    ∷ codes "||"
    ∷ codes "=="
    ∷ codes "!="
    ∷ codes "<="
    ∷ codes ">="
    ∷ codes "<<"
    ∷ codes ">>"
    ∷ []

-- next((op for op in multi_ops if text.startswith(op, index)), None)
unfoldable pub multi_operator : List Bytes → Bytes → Option Bytes
unfolding starts_with
multi_operator [] text = none
multi_operator (op ∷ ops) text = elim (starts_with op text) [
  | true ↦ some op
  | false ↦ multi_operator ops text
]

abbrev pub is_single_operator : ℕ → Bool
is_single_operator c = contains c (codes "+-*/%()!,<>&|^~")

-- A string up to its closing quote, behind its opening one: the token's text and the rest;
-- `none` if the text ends first.
unfoldable pub string_end : ℕ → Bool → Bytes → Option (Bytes × Bytes)
string_end quote escaped [] = none
string_end quote escaped (c ∷ text) = elim (not escaped && not (c == b'\\') && c == quote) [
  | true ↦ some (c ∷ [], text)
  | false ↦ elim (string_end quote (not escaped && c == b'\\') text) [
    | none ↦ none
    | some (body, rest) ↦ some (c ∷ body, rest)
  ]
]

-- text[end].lower() in {"a", ..., "f"}
abbrev pub is_hex_letter : ℕ → Bool
is_hex_letter c = leb b'a' c && leb c b'f' || leb b'A' c && leb c b'F'

module _ (python : Python) where
  -- A point and the digits behind it, if there is a point
  abbrev pub fraction : Bytes → Bytes × Bytes
  fraction [] = ([], [])
  fraction (c ∷ text) =
      let (digits, rest) = span python.is_digit text in
      elim (c == b'.') [ true ↦ (c ∷ digits, rest) | false ↦ ([], c ∷ text) ]

  -- A sign, if there is one
  abbrev pub exponent_sign : Bytes → Bytes × Bytes
  exponent_sign [] = ([], [])
  exponent_sign (c ∷ text) = elim (c == b'+' || c == b'-') [
    | true ↦ (c ∷ [], text)
    | false ↦ ([], c ∷ text)
  ]

  -- An exponent, if there is one
  abbrev pub exponent : Bytes → Bytes × Bytes
  exponent [] = ([], [])
  exponent (c ∷ text) =
      let (sign, behind) = exponent_sign text in
      let (digits, rest) = span python.is_digit behind in
      elim (c == b'e' || c == b'E') [ true ↦ (c ∷ sign ++ digits, rest) | false ↦ ([], c ∷ text) ]

  -- A decimal number
  unfoldable pub decimal_token : Bytes → Bytes × Bytes
  unfolding span
  decimal_token text =
      let (digits, behind) = span python.is_digit text in
      let (point, tail) = fraction behind in
      let (power, rest) = exponent tail in (digits ++ point ++ power, rest)

  abbrev pub is_hex_char : ℕ → Bool
  is_hex_char c = python.is_digit c || is_hex_letter c

  -- A number behind "0x": it has a digit.
  unfoldable pub hex_token : ℕ → Bytes → Result TokenError (Token × Bytes)
  unfolding span
  hex_token x text =
      let (digits, rest) = span is_hex_char text in
      elim digits [
        | [] ↦ err invalid_numeric_literal
        | c ∷ more ↦ ok (number_token (b'0' ∷ x ∷ c ∷ more), rest)
      ]

  -- The token that begins with a digit
  unfoldable pub number_token_at : ℕ → Bytes → Result TokenError (Token × Bytes)
  unfolding decimal_token hex_token
  number_token_at c [] = ok (number_token (c ∷ []), [])
  number_token_at c (d ∷ text) = elim (c == b'0' && (d == b'x' || d == b'X')) [
    | true ↦ hex_token d text
    | false ↦ ok (number_token (decimal_token (c ∷ d ∷ text)).0, (decimal_token (c ∷ d ∷ text)).1)
  ]

  abbrev pub is_name_char : ℕ → Bool
  is_name_char c = python.is_alnum c || c == b'_' || c == b'.'

  abbrev pub closed_string : ℕ → Option (Bytes × Bytes) → Result TokenError (Token × Bytes)
  closed_string quote none = err unterminated_string
  closed_string quote (some (body, rest)) = ok (string_token (quote ∷ body), rest)

  -- The token at a character that is no space and begins no operator of two characters
  unfoldable pub single_token : ℕ → Bytes → Result TokenError (Token × Bytes)
  unfolding string_end number_token_at span
  single_token c text = elim (is_single_operator c) [
    | true ↦ ok (op_token (c ∷ []), text)
    | false ↦ elim (c == b'"' || c == b'\'') [
      | true ↦ closed_string c (string_end c false text)
      | false ↦ elim (python.is_digit c) [
        | true ↦ number_token_at c text
        | false ↦ elim (python.is_alpha c || c == b'_') [
          | true ↦ ok (ident_token (c ∷ (span is_name_char text).0), (span is_name_char text).1)
          | false ↦ err unexpected_character
        ]
      ]
    ]
  ]

  -- The token at a character that is no space
  unfoldable pub next_token : ℕ → Bytes → Result TokenError (Token × Bytes)
  unfolding multi_operator single_token
  next_token c text = elim (multi_operator multi_operators (c ∷ text)) [
    | some op ↦ ok (op_token op, drop (length op) (c ∷ text))
    | none ↦ single_token c text
  ]

  unfoldable pub tokenize_loop : ℕ → Bytes → Result TokenError (List Token)
  unfolding next_token
  tokenize_loop fuel [] = ok (eof ∷ [])
  tokenize_loop zero (c ∷ text) = err token_fuel
  tokenize_loop (suc fuel) (c ∷ text) = elim (python.is_space c) [
    | true ↦ tokenize_loop fuel text
    | false ↦ next_token c text >>= λ (token, rest).
        tokenize_loop fuel rest >>= λ tokens. ok (token ∷ tokens)
  ]

  -- `_tokenize`; every round takes a character.
  unfoldable pub tokenize : Bytes → Result TokenError (List Token)
  unfolding tokenize_loop
  tokenize text = tokenize_loop (length text) text

  -- Digits in a base, from the left; `none` at a character that is no digit
  unfoldable pub digits_value : (ℕ → Option ℕ) → ℕ → ℕ → Bytes → Option ℕ
  digits_value digit base value [] = some value
  digits_value digit base value (c ∷ text) = elim (digit c) [
    | none ↦ none
    | some d ↦ digits_value digit base (value * base + d) text
  ]

  abbrev pub hex_digit_value : ℕ → Option ℕ
  hex_digit_value c =
      if leb b'a' c && leb c b'f'
      then some (c - b'a' + 10)
      else if leb b'A' c && leb c b'F'
      then some (c - b'A' + 10)
      else python.decimal_value c

  -- text.lower().startswith("0x")
  abbrev pub is_hexadecimal : Bytes → Bool
  is_hexadecimal [] = false
  is_hexadecimal (c ∷ []) = false
  is_hexadecimal (c ∷ d ∷ text) = c == b'0' && (d == b'x' || d == b'X')

  unfoldable pub number_token_is_floating : Bytes → Bool
  number_token_is_floating token =
      not (is_hexadecimal token)
      && (contains b'.' token || contains b'e' token || contains b'E' token)

  -- A decimal with a leading zero is zero or no integer.
  abbrev pub leading_zero : Bytes → ℕ → Bool
  leading_zero [] value = false
  leading_zero (c ∷ text) value = elim (python.decimal_value c) [
    | none ↦ false
    | some d ↦ d == 0 && not (value == 0)
  ]

  -- sys.get_int_max_str_digits()
  abbrev pub max_digits : ℕ
  max_digits = 4300

  abbrev pub checked_decimal : Bytes → Option ℕ → Option ℕ
  checked_decimal text none = none
  checked_decimal text (some value) =
      if leading_zero text value || ltb max_digits (length text) then none else some value

  -- int(text, 0), of a text of digits; `none` is ValueError.
  unfoldable pub parse_int_literal : Bytes → Option ℕ
  unfolding digits_value
  parse_int_literal text =
      if is_hexadecimal text
      then digits_value hex_digit_value 16 0 (drop 2 text)
      else checked_decimal text (digits_value python.decimal_value 10 0 text)

  unfoldable pub parse_string_token : Bytes → Result EvaluationError Bytes
  unfolding validate_utf8_string
  parse_string_token token = elim (python.literal_eval token) [
    | none ↦ err invalid_string
    | some value ↦ validate_utf8_string value
  ]

module _ (python : Python) {F : Type 0} (floats : Floats F) where
  abbrev pub finite_literal : Option F → Result EvaluationError (Number F)
  finite_literal none = err invalid_number
  finite_literal (some x) = raise_if (not (floats.float_is_finite x)) not_finite >> ok (real x)

  abbrev pub integer_literal : Option ℕ → Result EvaluationError (Number F)
  integer_literal none = err invalid_number
  integer_literal (some n) = ok (whole (pos n))

  unfoldable pub parse_number_token : Bytes → Result EvaluationError (Number F)
  unfolding number_token_is_floating parse_int_literal
  parse_number_token token =
      if number_token_is_floating python token
      then finite_literal (floats.parse_float token)
      else integer_literal (parse_int_literal python token)

  -- The kind of a number's token
  abbrev pub literal_kind : Bytes → Number F → Result EvaluationError NumericKind
  literal_kind token (real x) = ok float64
  literal_kind token (whole n) = elim (literal_integer_kind n (is_hexadecimal python token)) [
    | some kind ↦ ok (integral kind)
    | none ↦ err literal_out_of_range
  ]

  -- The branch of `_parse_primary` for a number, with evaluation
  unfoldable pub number_value : Bytes → Result EvaluationError (TypedValue F)
  unfolding parse_number_token numeric_value
  number_value token = parse_number_token token >>= λ numeric.
      literal_kind token numeric >>= λ kind.
      numeric_value floats numeric (some token) 120 (some kind)
