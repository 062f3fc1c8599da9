-- ===== src/Expression/Parser/Ends.antt =====
-- The fuel of `_ExprParser` is enough: every loop of its methods ends.
use protocyte.Common.{
  ℕ, zero, suc, ◌≤◌, Bool, true, refl, ◌≢◌, none, some, List, [], ◌∷◌, ◌++◌, ok, err, ◌>>=◌, Bytes,
  codes, text_eq, length, Bool-cases, Option-cases, inl, inr, arith,
}
use protocyte.Expression.Syntax.{
  Token, number_token, string_token, ident_token, op_token, eof, BinaryOperator, symbol,
  unary_symbol, operators, unary_operators, match_token, match_first, Semantics,
}
use protocyte.Expression.Parser.{
  unexpected_token, expected_token, nesting_exceeded, out_of_fuel, evaluation, Parsed, ParserOf,
  peek, expect, refuse_nested, chain_loop, parse_chain, parse_level, arguments_loop,
  parse_arguments, parse_name, parse_primary, parse_unary_with, parse_unary, parse,
  max_expression_nesting,
}
use protocyte.Expression.Parser.Shrinks.{
  match_token-length, match_first-length, Ends, ParserEnds, Ends-bind, Ends-lift, Ends-with_rest,
  Ends-le, Ends-expect,
}

module _ {Value E : Type 0} (s : Semantics Value E) (limit : ℕ) where
  chain_loop-Ends :
      (fuel : ℕ) (table : List BinaryOperator) (next : ParserOf E Value) (evaluate : Bool)
      (value : Value) (tokens : List Token)
      → ParserEnds limit next
      → suc (length tokens) ≤ fuel
      → length tokens ≤ limit
      → Ends (length tokens) (chain_loop s fuel table next evaluate value tokens)
  unfolding chain_loop
  chain_loop-Ends zero table next evaluate value tokens ends enough within = absurd (omega arith)
  chain_loop-Ends (suc fuel) table next evaluate value tokens ends enough within =
      elim (Option-cases (match_first symbol table tokens)) [
        | inl stop ↦ rw (chain_loop, stop) (omega arith)
        | inr ((operator, behind), found) ↦
            let shorter = match_first-length symbol table tokens found in
            rw (chain_loop, found)
              (Ends-lift (length tokens) (s.before_rhs operator evaluate value) _ (λ rhs_evaluate.
                Ends-bind (length behind) (length tokens) (next rhs_evaluate behind) _
                  (ends rhs_evaluate behind (omega (arith, shorter, within)))
                  (λ rhs rest left.
                    Ends-lift (length tokens) (s.binary operator evaluate value rhs) _ (λ result.
                      Ends-le (length rest) (length tokens)
                        (chain_loop s fuel table next evaluate result rest)
                        (omega (arith, left, shorter))
                        (chain_loop-Ends fuel table next evaluate result rest ends
                          (omega (arith, left, shorter, enough))
                          (omega (arith, left, shorter, within)))))))
      ]

  parse_chain-Ends :
      (fuel : ℕ) (table : List BinaryOperator) (next : ParserOf E Value)
      → suc limit ≤ fuel
      → ParserEnds limit next
      → ParserEnds limit (parse_chain s fuel table next)
  unfolding parse_chain
  parse_chain-Ends fuel table next enough ends evaluate tokens within =
      Ends-bind (length tokens) (length tokens) (next evaluate tokens) _
        (ends evaluate tokens within)
        (λ value rest left.
          Ends-le (length rest) (length tokens) (chain_loop s fuel table next evaluate value rest)
            left
            (chain_loop-Ends fuel table next evaluate value rest ends
              (omega (arith, left, within, enough)) (omega (arith, left, within))))

  parse_level-Ends :
      (fuel level : ℕ) (unary_parser : ParserOf E Value)
      → suc limit ≤ fuel
      → ParserEnds limit unary_parser
      → ParserEnds limit (parse_level s fuel level unary_parser)
  unfolding parse_level
  parse_level-Ends fuel zero unary_parser enough ends = ends
  parse_level-Ends fuel (suc level) unary_parser enough ends =
      parse_chain-Ends fuel (operators level) (parse_level s fuel level unary_parser) enough
        (parse_level-Ends fuel level unary_parser enough ends)

  module _ (fuel : ℕ) (nested_or : ParserOf E Value) (enough : suc limit ≤ fuel)
      (ends : ParserEnds limit nested_or) where
    arguments_loop-Ends :
        (n : ℕ) (evaluate : Bool) (args : List Value) (tokens : List Token)
        → suc (length tokens) ≤ n
        → length tokens ≤ limit
        → Ends (length tokens) (arguments_loop s n nested_or evaluate args tokens)
    unfolding arguments_loop
    arguments_loop-Ends zero evaluate args tokens more within = absurd (omega arith)
    arguments_loop-Ends (suc n) evaluate args tokens more within =
        Ends-bind (length tokens) (length tokens) (nested_or evaluate tokens) _
          (ends evaluate tokens within) (further (arguments_loop-Ends n evaluate))
      where
        further :
            ((seen : List Value) (behind : List Token)
              → suc (length behind) ≤ n
              → length behind ≤ limit
              → Ends (length behind) (arguments_loop s n nested_or evaluate seen behind))
            → (arg : Value) (rest : List Token) → length rest ≤ length tokens
            → Ends (length tokens) (elim (match_token (codes ")") rest) [
              | some behind ↦ ok (args ++ arg ∷ [], behind)
              | none ↦ expect (codes ",") rest >>= λ behind.
                  arguments_loop s n nested_or evaluate (args ++ arg ∷ []) behind
            ])
        further again arg rest left = elim (Option-cases (match_token (codes ")") rest)) [
          | inr (behind, found) ↦
              let shorter = match_token-length (codes ")") rest found in
              rw found (omega (arith, shorter, left))
          | inl other ↦ rw other (
              Ends-expect (length tokens) (codes ",") rest
                (λ behind. arguments_loop s n nested_or evaluate (args ++ arg ∷ []) behind)
                (λ behind shorter.
                  Ends-le (length behind) (length tokens)
                    (arguments_loop s n nested_or evaluate (args ++ arg ∷ []) behind)
                    (omega (arith, shorter, left))
                    (again (args ++ arg ∷ []) behind (omega (arith, shorter, left, more))
                      (omega (arith, shorter, left, within)))))
        ]

    parse_arguments-Ends :
        (evaluate : Bool) (tokens : List Token)
        → length tokens ≤ limit
        → Ends (length tokens) (parse_arguments s fuel nested_or evaluate tokens)
    unfolding parse_arguments
    parse_arguments-Ends evaluate tokens within =
        elim (Option-cases (match_token (codes ")") tokens)) [
          | inr (behind, found) ↦
              let shorter = match_token-length (codes ")") tokens found in
              rw (parse_arguments, found) (omega (arith, shorter))
          | inl other ↦
              rw (parse_arguments, other)
                (arguments_loop-Ends fuel evaluate [] tokens (omega (arith, within, enough)) within)
        ]

    parse_name-Ends :
        (evaluate : Bool) (text : Bytes) (tokens : List Token)
        → length tokens ≤ limit
        → Ends (length tokens) (parse_name s fuel nested_or evaluate text tokens)
    unfolding parse_name
    parse_name-Ends evaluate text tokens within =
        elim (Option-cases (match_token (codes "(") tokens)) [
          | inr (behind, found) ↦
              let shorter = match_token-length (codes "(") tokens found in
              rw (parse_name, found)
                (Ends-bind (length behind) (length tokens)
                  (parse_arguments s fuel nested_or evaluate behind) _
                  (parse_arguments-Ends evaluate behind (omega (arith, shorter, within)))
                  (λ args after left.
                    Ends-with_rest (length tokens) after (s.call evaluate text args)
                      (omega (arith, left, shorter))))
          | inl other ↦
              rw (parse_name, other)
                (Ends-with_rest (length tokens) tokens (s.name evaluate text) (omega arith))
        ]

    parse_primary-Ends : ParserEnds limit (parse_primary s fuel nested_or)
    unfolding parse_primary
    parse_primary-Ends evaluate [] within = refl
    parse_primary-Ends evaluate (number_token text ∷ rest) within =
        Ends-with_rest (suc (length rest)) rest (s.number evaluate text) (omega arith)
    parse_primary-Ends evaluate (string_token text ∷ rest) within =
        Ends-with_rest (suc (length rest)) rest (s.string evaluate text) (omega arith)
    parse_primary-Ends evaluate (ident_token text ∷ rest) within =
        elim (Bool-cases (text_eq text (codes "true"))) [
          | inl is_true ↦ rw (parse_primary, is_true) (omega arith)
          | inr not_true ↦ elim (Bool-cases (text_eq text (codes "false"))) [
            | inl is_false ↦ rw (parse_primary, not_true, is_false) (omega arith)
            | inr not_false ↦
                rw (parse_primary, not_true, not_false)
                  (Ends-le (length rest) (suc (length rest))
                    (parse_name s fuel nested_or evaluate text rest) (omega arith)
                    (parse_name-Ends evaluate text rest (omega (arith, within))))
          ]
        ]
    parse_primary-Ends evaluate (op_token text ∷ rest) within =
        elim (Bool-cases (text_eq text (codes "("))) [
          | inl opens ↦
              rw (parse_primary, opens)
                (Ends-bind (length rest) (suc (length rest)) (nested_or evaluate rest) _
                  (ends evaluate rest (omega (arith, within)))
                  (λ value behind left.
                    Ends-expect (suc (length rest)) (codes ")") behind (λ after. ok (value, after))
                      (λ after shorter. omega (arith, shorter, left))))
          | inr other ↦ rw (parse_primary, other) refl
        ]
    parse_primary-Ends evaluate (eof ∷ rest) within = refl

    parse_unary_with-Ends :
        (nested_unary : ParserOf E Value)
        → ParserEnds limit nested_unary
        → ParserEnds limit (parse_unary_with s fuel nested_unary nested_or)
    unfolding parse_unary_with
    parse_unary_with-Ends nested_unary unary_ends evaluate tokens within =
        elim (Option-cases (match_first unary_symbol unary_operators tokens)) [
          | inr ((operator, behind), found) ↦
              let shorter = match_first-length unary_symbol unary_operators tokens found in
              rw (parse_unary_with, found)
                (Ends-bind (length behind) (length tokens) (nested_unary evaluate behind) _
                  (unary_ends evaluate behind (omega (arith, shorter, within)))
                  (λ value rest left.
                    Ends-with_rest (length tokens) rest (s.unary operator value)
                      (omega (arith, left, shorter))))
          | inl other ↦ rw (parse_unary_with, other) (parse_primary-Ends evaluate tokens within)
        ]

  parse_unary-Ends : (fuel room : ℕ) → suc limit ≤ fuel → ParserEnds limit (parse_unary s fuel room)
  unfolding parse_unary
  parse_unary-Ends fuel zero enough =
      parse_unary_with-Ends fuel refuse_nested enough (λ evaluate tokens within. refl) refuse_nested
        (λ evaluate tokens within. refl)
  parse_unary-Ends fuel (suc room) enough =
      let below = parse_unary-Ends fuel room enough in
      parse_unary_with-Ends fuel (parse_level s fuel 10 (parse_unary s fuel room)) enough
        (parse_level-Ends fuel 10 (parse_unary s fuel room) enough below) (parse_unary s fuel room)
        below

module _ {Value E : Type 0} (s : Semantics Value E) where
  -- `parse` has fuel for every list of tokens.
  pub parse-Ends : (tokens : List Token) → parse s tokens ≢ err out_of_fuel
  unfolding parse
  parse-Ends tokens =
      checked (parse_level s fuel 10 (parse_unary s fuel max_expression_nesting) true tokens) (
        parse_level-Ends s (length tokens) fuel 10 (parse_unary s fuel max_expression_nesting)
          (omega arith)
          (parse_unary-Ends s (length tokens) fuel max_expression_nesting (omega arith)) true tokens
          (omega arith))
    where
      fuel : ℕ
      fuel = suc (length tokens)

      checked :
          (r : Parsed E Value)
          → Ends (length tokens) r
          → (r >>= λ (value, rest). elim (peek rest) [
            | eof ↦ ok value
            | number_token text ↦ err (unexpected_token (number_token text))
            | string_token text ↦ err (unexpected_token (string_token text))
            | ident_token text ↦ err (unexpected_token (ident_token text))
            | op_token text ↦ err (unexpected_token (op_token text))
          ])
            ≢ err out_of_fuel
      checked (err out_of_fuel) ends same = cc
      checked (err nesting_exceeded) ends same = cc
      checked (err (unexpected_token token)) ends same = cc
      checked (err (expected_token text)) ends same = cc
      checked (err (evaluation raised)) ends same = cc
      checked (ok (value, [])) ends same = cc
      checked (ok (value, eof ∷ rest)) ends same = cc
      checked (ok (value, number_token text ∷ rest)) ends same = cc
      checked (ok (value, string_token text ∷ rest)) ends same = cc
      checked (ok (value, ident_token text ∷ rest)) ends same = cc
      checked (ok (value, op_token text ∷ rest)) ends same = cc
