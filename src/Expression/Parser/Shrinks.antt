-- ===== src/Expression/Parser/Shrinks.antt =====
-- A parser leaves a part of its tokens: `_match` and `_expect` of `_ExprParser` in
-- src/protocyte/model.py, and the steps behind a parser.
use protocyte.Common.{
  ℕ, suc, ◌≤◌, Bool, true, false, ◌≡◌, refl, ap, none, some, List, [], ◌∷◌, Result, ok, err, ◌>>=◌,
  Bytes, text_eq, length, Bool-cases, Option-cases, inl, inr, some_injective, arith,
}
use protocyte.Expression.Syntax.{Token, text_of, match_token, match_first}
use protocyte.Expression.Parser.{ParseError, out_of_fuel, lift, Parsed, ParserOf, with_rest, expect}

pub match_token-length :
    (text : Bytes) (tokens : List Token) {rest : List Token}
    → match_token text tokens ≡ some rest
    → suc (length rest) ≤ length tokens
match_token-length text [] found = cc
match_token-length text (token ∷ tokens) found = elim (Bool-cases (text_eq (text_of token) text)) [
  | inl same ↦
      let here : some tokens ≡ some _ = rw (match_token, same) at found in
      rw (some_injective here) (omega arith)
  | inr other ↦ let here : none ≡ some _ = rw (match_token, other) at found in cc
]

pub match_first-length :
    {A : Type 0} (spelling : A → Bytes) (table : List A) (tokens : List Token) {a : A}
    {rest : List Token}
    → match_first spelling table tokens ≡ some (a, rest)
    → suc (length rest) ≤ length tokens
match_first-length spelling [] tokens found = cc
match_first-length spelling (a ∷ table) tokens found =
    elim (Option-cases (match_token (spelling a) tokens)) [
      | inl fails ↦ match_first-length spelling table tokens (rw (match_first, fails) at found)
      | inr (after, here) ↦
          let same : some (a, after) ≡ some (_, _) = rw (match_first, here) at found in
          let shorter = match_token-length (spelling a) tokens here in
          let behind = ap (λ p. length p.1) (some_injective same) in omega (arith, shorter, behind)
    ]

module _ {E : Type 0} where
  abbrev pub is_out_of_fuel : ParseError E → Bool
  is_out_of_fuel out_of_fuel = true
  is_out_of_fuel _ = false

  -- The result came with enough fuel, and leaves at most `n` tokens.
  abbrev pub Ends : {A : Type 0} → ℕ → Parsed E A → Type 0
  Ends n (err raised) = is_out_of_fuel raised ≡ false
  Ends n (ok (value, rest)) = length rest ≤ n

  -- The parser ends on at most `n` tokens, and adds none.
  abbrev pub ParserEnds : {A : Type 0} → ℕ → ParserOf E A → Type 0
  ParserEnds n parser =
      (evaluate : Bool) (tokens : List Token)
      → length tokens ≤ n
      → Ends (length tokens) (parser evaluate tokens)

  module _ {A B : Type 0} where
    pub Ends-bind :
        (n m : ℕ) (r : Parsed E A) (next : A × List Token → Parsed E B)
        → Ends n r
        → ((value : A) (rest : List Token) → length rest ≤ n → Ends m (next (value, rest)))
        → Ends m (r >>= next)
    Ends-bind n m (err raised) next ends goes_on = ends
    Ends-bind n m (ok (value, rest)) next ends goes_on = goes_on value rest ends

    pub Ends-lift :
        (n : ℕ) (r : Result E A) (next : A → Parsed E B)
        → ((value : A) → Ends n (next value))
        → Ends n (lift r >>= next)
    Ends-lift n (err raised) next goes_on = refl
    Ends-lift n (ok value) next goes_on = goes_on value

  module _ {A : Type 0} where
    pub Ends-with_rest :
        (n : ℕ) (rest : List Token) (r : Result E A) → length rest ≤ n → Ends n (with_rest rest r)
    Ends-with_rest n rest (err raised) bound = refl
    Ends-with_rest n rest (ok value) bound = bound

    pub Ends-le : (n m : ℕ) (r : Parsed E A) → n ≤ m → Ends n r → Ends m r
    Ends-le n m (err raised) less ends = ends
    Ends-le n m (ok (value, rest)) less ends = omega (arith, ends, less)

  pub Ends-expect :
      {A : Type 0} (n : ℕ) (text : Bytes) (tokens : List Token) (next : List Token → Parsed E A)
      → ((rest : List Token) → suc (length rest) ≤ length tokens → Ends n (next rest))
      → Ends n (expect text tokens >>= next)
  Ends-expect n text tokens next goes_on = elim (Option-cases (match_token text tokens)) [
    | inl fails ↦ rw (expect, fails) refl
    | inr (rest, found) ↦ rw (expect, found) (goes_on rest (match_token-length text tokens found))
  ]
