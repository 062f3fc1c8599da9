-- ===== src/Expression/Literal/Ends.antt =====
-- Each round of `_tokenize` takes a character, so that its loop ends.
use protocyte.Common.{
  ℕ, zero, suc, ◌≤◌, Bool, true, false, not, ◌&&◌, ◌||◌, ◌≡◌, refl, ap, ◌≢◌, Option, none, some,
  List, [], ◌∷◌, Result, ok, err, ◌>>=◌, Bytes, starts_with, length, length-drop, ◌==◌, All,
  Bool-cases, Option-cases, inl, inr, some_injective, arith,
}
use protocyte.Expression.Syntax.{Token, number_token}
use protocyte.Expression.Literal.{
  Python, TokenError, unterminated_string, invalid_numeric_literal, unexpected_character,
  token_fuel, span, multi_operators, multi_operator, is_single_operator, string_end, fraction,
  exponent_sign, exponent, decimal_token, is_hex_char, hex_token, number_token_at, is_name_char,
  closed_string, single_token, next_token, tokenize_loop, tokenize,
}

span-length : (test : ℕ → Bool) (text : Bytes) → length (span test text).1 ≤ length text
unfolding span
span-length test [] = omega arith
span-length test (c ∷ text) = elim (Bool-cases (test c)) [
  | inl inside ↦ rw (span, inside) (omega (arith, span-length test text))
  | inr outside ↦ rw (span, outside) (omega arith)
]

-- A front that begins is left behind.
span-length_first :
    (test : ℕ → Bool) (c : ℕ) (text : Bytes)
    → test c ≡ true
    → length (span test (c ∷ text)).1 ≤ length text
unfolding span
span-length_first test c text inside = rw (span, inside) (span-length test text)

string_end-length :
    (quote : ℕ) (escaped : Bool) (text : Bytes) {body rest : Bytes}
    → string_end quote escaped text ≡ some (body, rest)
    → length rest ≤ length text
unfolding string_end
string_end-length quote escaped [] found = cc
string_end-length quote escaped (c ∷ text) {body} {rest} found =
    elim (Bool-cases (not escaped && not (c == b'\\') && c == quote)) [
      | inl closes ↦
          let here : some (c ∷ [], text) ≡ some (body, rest) = rw (string_end, closes) at found in
          let same = ap (λ p. length p.1) (some_injective here) in omega (arith, same)
      | inr inside ↦ elim (Option-cases (string_end quote (not escaped && c == b'\\') text)) [
        | inl ends ↦
            let here : ◌≡◌ {A = Option (Bytes × Bytes)} none (some (body, rest)) =
              rw (string_end, inside, ends) at found in
            cc
        | inr ((front, after), goes_on) ↦
            let here : some (c ∷ front, after) ≡ some (body, rest) =
              rw (string_end, inside, goes_on) at found in
            let same = ap (λ p. length p.1) (some_injective here) in
            let shorter = string_end-length quote (not escaped && c == b'\\') text goes_on in
            omega (arith, same, shorter)
      ]
    ]

multi_operator-length :
    (ops : List Bytes) (text : Bytes) {op : Bytes}
    → All (λ known. 1 ≤ length known) ops
    → multi_operator ops text ≡ some op
    → 1 ≤ length op
unfolding multi_operator
multi_operator-length [] text long found = cc
multi_operator-length (known ∷ ops) text {op} (here, others) found =
    elim (Bool-cases (starts_with known text)) [
      | inl begins ↦
          let this : some known ≡ some op = rw (multi_operator, begins) at found in
          rw (some_injective this) at here
      | inr other ↦ multi_operator-length ops text others (rw (multi_operator, other) at found)
    ]

multi_operators_long : All (λ known. 1 ≤ length known) multi_operators
multi_operators_long = (
  omega arith,
  (
    omega arith,
    (omega arith, (omega arith, (omega arith, (omega arith, (omega arith, (omega arith, tt)))))),
  ),
)

abbrev is_token_fuel : TokenError → Bool
is_token_fuel token_fuel = true
is_token_fuel _ = false

-- A token that leaves at most `n` characters, or an error of the text
abbrev Leaves : ℕ → Result TokenError (Token × Bytes) → Type 0
Leaves n (err raised) = is_token_fuel raised ≡ false
Leaves n (ok (token, rest)) = length rest ≤ n

module _ (python : Python) where
  fraction-length : (text : Bytes) → length (fraction python text).1 ≤ length text
  fraction-length [] = omega arith
  fraction-length (c ∷ text) = elim (Bool-cases (c == b'.')) [
    | inl point ↦ rw (fraction, point) (omega (arith, span-length python.is_digit text))
    | inr other ↦ rw (fraction, other) (omega arith)
  ]

  exponent_sign-length : (text : Bytes) → length (exponent_sign python text).1 ≤ length text
  exponent_sign-length [] = omega arith
  exponent_sign-length (c ∷ text) = elim (Bool-cases (c == b'+' || c == b'-')) [
    | inl sign ↦ rw (exponent_sign, sign) (omega arith)
    | inr other ↦ rw (exponent_sign, other) (omega arith)
  ]

  exponent-length : (text : Bytes) → length (exponent python text).1 ≤ length text
  exponent-length [] = omega arith
  exponent-length (c ∷ text) = elim (Bool-cases (c == b'e' || c == b'E')) [
    | inl power ↦
        rw (exponent, power)
          (omega (
            arith,
            exponent_sign-length text,
            span-length python.is_digit (exponent_sign python text).1,
          ))
    | inr other ↦ rw (exponent, other) (omega arith)
  ]

  decimal_token-length :
      (c : ℕ) (text : Bytes)
      → python.is_digit c ≡ true
      → length (decimal_token python (c ∷ text)).1 ≤ length text
  unfolding decimal_token
  decimal_token-length c text digit =
      let behind = (span python.is_digit (c ∷ text)).1 in
      omega (
        arith,
        span-length_first python.is_digit c text digit,
        fraction-length behind,
        exponent-length (fraction python behind).1,
      )

  hex_token-Leaves : (x : ℕ) (text : Bytes) → Leaves (suc (length text)) (hex_token python x text)
  unfolding hex_token
  hex_token-Leaves x text =
      leaves (span (is_hex_char python) text).0
        (omega (arith, span-length (is_hex_char python) text))
    where
      leaves :
          (digits : Bytes)
          → length (span (is_hex_char python) text).1 ≤ suc (length text)
          → Leaves (suc (length text)) (elim digits [
            | [] ↦ err invalid_numeric_literal
            | d ∷ more ↦ ok (number_token (b'0' ∷ x ∷ d ∷ more), (span (is_hex_char python) text).1)
          ])
      leaves [] bound = refl
      leaves (d ∷ more) bound = bound

  number_token_at-Leaves :
      (c : ℕ) (text : Bytes)
      → python.is_digit c ≡ true
      → Leaves (length text) (number_token_at python c text)
  unfolding number_token_at
  number_token_at-Leaves c [] digit = omega arith
  number_token_at-Leaves c (d ∷ text) digit =
      elim (Bool-cases (c == b'0' && (d == b'x' || d == b'X'))) [
        | inl hexadecimal ↦ rw (number_token_at, hexadecimal) (hex_token-Leaves d text)
        | inr decimal ↦ rw (number_token_at, decimal) (decimal_token-length c (d ∷ text) digit)
      ]

  closed_string-Leaves :
      (quote : ℕ) (text : Bytes)
      → Leaves (length text) (closed_string python quote (string_end quote false text))
  closed_string-Leaves quote text = elim (Option-cases (string_end quote false text)) [
    | inl ends ↦ rw ends refl
    | inr ((body, rest), closes) ↦ rw closes (string_end-length quote false text closes)
  ]

  single_token-Leaves : (c : ℕ) (text : Bytes) → Leaves (length text) (single_token python c text)
  unfolding single_token
  single_token-Leaves c text = elim (Bool-cases (is_single_operator c)) [
    | inl operator ↦ rw (single_token, operator) (omega arith)
    | inr a ↦ elim (Bool-cases (c == b'"' || c == b'\'')) [
      | inl quote ↦ rw (single_token, a, quote) (closed_string-Leaves c text)
      | inr b ↦ elim (Bool-cases (python.is_digit c)) [
        | inl digit ↦ rw (single_token, a, b, digit) (number_token_at-Leaves c text digit)
        | inr d ↦ elim (Bool-cases (python.is_alpha c || c == b'_')) [
          | inl letter ↦ rw (single_token, a, b, d, letter) (span-length (is_name_char python) text)
          | inr e ↦ rw (single_token, a, b, d, e) refl
        ]
      ]
    ]
  ]

  next_token-Leaves : (c : ℕ) (text : Bytes) → Leaves (length text) (next_token python c text)
  unfolding next_token
  next_token-Leaves c text = elim (Option-cases (multi_operator multi_operators (c ∷ text))) [
    | inl single ↦ rw (next_token, single) (single_token-Leaves c text)
    | inr (op, found) ↦
        let long = multi_operator-length multi_operators (c ∷ text) multi_operators_long found in
        rw (next_token, found) (omega (arith, long, length-drop (length op) (c ∷ text)))
  ]

  tokenize_loop_ends :
      (fuel : ℕ) (text : Bytes)
      → length text ≤ fuel
      → tokenize_loop python fuel text ≢ err token_fuel
  unfolding tokenize_loop
  tokenize_loop_ends zero [] enough = λ same. cc
  tokenize_loop_ends (suc fuel) [] enough = λ same. cc
  tokenize_loop_ends zero (c ∷ text) enough = absurd (omega (arith, enough))
  tokenize_loop_ends (suc fuel) (c ∷ text) enough = elim (Bool-cases (python.is_space c)) [
    | inl space ↦ rw (tokenize_loop, space) (tokenize_loop_ends fuel text (omega (arith, enough)))
    | inr token ↦
        rw (tokenize_loop, token)
          (round (next_token python c text) (next_token-Leaves c text)
            (λ rest left. tokenize_loop_ends fuel rest (omega (arith, left, enough))))
  ]
    where
      added :
          (token : Token) (r : Result TokenError (List Token))
          → r ≢ err token_fuel
          → (r >>= λ tokens. ok (token ∷ tokens)) ≢ err token_fuel
      added token (err raised) ends = ends
      added token (ok tokens) ends = λ same. cc

      round :
          (r : Result TokenError (Token × Bytes))
          → Leaves (length text) r
          → ((rest : Bytes)
              → length rest ≤ length text
              → tokenize_loop python fuel rest ≢ err token_fuel)
          → (r >>= λ (token, rest).
              tokenize_loop python fuel rest >>= λ tokens. ok (token ∷ tokens))
            ≢ err token_fuel
      round (err token_fuel) leaves again = λ same. cc
      round (err unterminated_string) leaves again = λ same. cc
      round (err invalid_numeric_literal) leaves again = λ same. cc
      round (err unexpected_character) leaves again = λ same. cc
      round (ok (token, rest)) leaves again =
          added token (tokenize_loop python fuel rest) (again rest leaves)

  pub tokenize_ends : (text : Bytes) → tokenize python text ≢ err token_fuel
  unfolding tokenize
  tokenize_ends text = tokenize_loop_ends (length text) text (omega arith)
