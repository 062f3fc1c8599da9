-- ===== src/Expression/Parser.antt =====
-- `_ExprParser` of src/protocyte/model.py over any operations on values. A parser takes
-- `_evaluate_values` and the tokens from `_index` on. The recursion of `_parse_nested` is
-- structural on the room left under `_MAX_EXPRESSION_NESTING`; the loops run on fuel.
pub mod Shrinks
pub mod Ends
use protocyte.Common.{
  ℕ, zero, suc, Bool, true, false, none, some, List, [], ◌∷◌, ◌++◌, Result, ok, err, ◌>>=◌, Bytes,
  codes, text_eq, length,
}
use protocyte.Expression.Syntax.{
  Token, number_token, string_token, ident_token, op_token, eof, BinaryOperator, symbol,
  unary_symbol, operators, unary_operators, match_token, match_first, Semantics,
}

-- Where the parser raises ProtocyteError; `evaluation` is an error of the operations on values.
pub data ParseError (E : Type 0) : Type 0 where
  unexpected_token : Token → ParseError E
  expected_token : Bytes → ParseError E
  nesting_exceeded : ParseError E
  out_of_fuel : ParseError E
  evaluation : E → ParseError E

abbrev pub lift : {E A : Type 0} → Result E A → Result (ParseError E) A
lift (ok value) = ok value
lift (err raised) = err (evaluation raised)

-- _MAX_EXPRESSION_NESTING
abbrev pub max_expression_nesting : ℕ
max_expression_nesting = 32

-- What a parser returns: a value and the tokens behind it, or an error.
abbrev pub Parsed : Type 0 → Type 0 → Type 0
Parsed E A = Result (ParseError E) (A × List Token)

abbrev pub ParserOf : Type 0 → Type 0 → Type 0
ParserOf E A = Bool → List Token → Parsed E A

-- `_peek`; the parser never passes EOF.
abbrev pub peek : List Token → Token
peek [] = eof
peek (token ∷ rest) = token

module _ {E : Type 0} where
  -- A result with the tokens behind it
  abbrev pub with_rest : {A : Type 0} → List Token → Result E A → Parsed E A
  with_rest rest (ok value) = ok (value, rest)
  with_rest rest (err raised) = err (evaluation raised)

  -- `_expect`
  abbrev pub expect : Bytes → List Token → Result (ParseError E) (List Token)
  expect text tokens = elim (match_token text tokens) [
    | some rest ↦ ok rest
    | none ↦ err (expected_token text)
  ]

  -- `_parse_nested` at the maximal depth
  abbrev pub refuse_nested : {A : Type 0} → ParserOf E A
  refuse_nested evaluate tokens = err nesting_exceeded

module _ {Value E : Type 0} (s : Semantics Value E) where
  -- The loop of a method for binary operators
  unfoldable pub chain_loop :
      ℕ → List BinaryOperator → ParserOf E Value → Bool → Value → List Token → Parsed E Value
  chain_loop zero table next evaluate value tokens = err out_of_fuel
  chain_loop (suc fuel) table next evaluate value tokens = elim (match_first symbol table tokens) [
    | none ↦ ok (value, tokens)
    | some (operator, behind) ↦ lift (s.before_rhs operator evaluate value) >>= λ rhs_evaluate.
        next rhs_evaluate behind >>= λ (rhs, rest).
        lift (s.binary operator evaluate value rhs) >>= λ result.
        chain_loop fuel table next evaluate result rest
  ]

  -- `_parse_or`, `_parse_and`, ..., `_parse_mul`: the next method and the loop
  unfoldable pub parse_chain : ℕ → List BinaryOperator → ParserOf E Value → ParserOf E Value
  unfolding chain_loop
  parse_chain fuel table next evaluate tokens =
      next evaluate tokens >>= λ (value, rest). chain_loop fuel table next evaluate value rest

  -- The methods above the unary operators: 0 is `_parse_unary`, 1 is `_parse_mul`, 10 is `_parse_or`.
  unfoldable pub parse_level : ℕ → ℕ → ParserOf E Value → ParserOf E Value
  unfolding parse_chain
  parse_level fuel zero unary = unary
  parse_level fuel (suc level) unary =
      parse_chain fuel (operators level) (parse_level fuel level unary)

  -- The loop over the arguments of a call, behind those of `args`
  unfoldable pub arguments_loop :
      ℕ → ParserOf E Value → Bool → List Value → List Token → Parsed E (List Value)
  arguments_loop zero nested_or evaluate args tokens = err out_of_fuel
  arguments_loop (suc fuel) nested_or evaluate args tokens =
      nested_or evaluate tokens >>= λ (arg, rest). elim (match_token (codes ")") rest) [
        | some behind ↦ ok (args ++ arg ∷ [], behind)
        | none ↦ expect (codes ",") rest >>= λ behind.
            arguments_loop fuel nested_or evaluate (args ++ arg ∷ []) behind
      ]

  -- The arguments of a call, behind its opening parenthesis
  unfoldable pub parse_arguments : ℕ → ParserOf E Value → Bool → List Token → Parsed E (List Value)
  unfolding arguments_loop
  parse_arguments fuel nested_or evaluate tokens = elim (match_token (codes ")") tokens) [
    | some behind ↦ ok ([], behind)
    | none ↦ arguments_loop fuel nested_or evaluate [] tokens
  ]

  -- The branch of `_parse_primary` for an identifier that is not a Boolean
  unfoldable pub parse_name : ℕ → ParserOf E Value → Bool → Bytes → List Token → Parsed E Value
  unfolding parse_arguments
  parse_name fuel nested_or evaluate text rest = elim (match_token (codes "(") rest) [
    | some behind ↦ parse_arguments fuel nested_or evaluate behind >>= λ (args, after).
        with_rest after (s.call evaluate text args)
    | none ↦ with_rest rest (s.name evaluate text)
  ]

  unfoldable pub parse_primary : ℕ → ParserOf E Value → ParserOf E Value
  unfolding parse_name
  parse_primary fuel nested_or evaluate [] = err (unexpected_token eof)
  parse_primary fuel nested_or evaluate (number_token text ∷ rest) =
      with_rest rest (s.number evaluate text)
  parse_primary fuel nested_or evaluate (string_token text ∷ rest) =
      with_rest rest (s.string evaluate text)
  parse_primary fuel nested_or evaluate (ident_token text ∷ rest) =
      elim (text_eq text (codes "true")) [
        | true ↦ ok (s.boolean evaluate true, rest)
        | false ↦ elim (text_eq text (codes "false")) [
          | true ↦ ok (s.boolean evaluate false, rest)
          | false ↦ parse_name fuel nested_or evaluate text rest
        ]
      ]
  parse_primary fuel nested_or evaluate (op_token text ∷ rest) = elim (text_eq text (codes "(")) [
    | true ↦ nested_or evaluate rest >>= λ (value, behind).
        expect (codes ")") behind >>= λ after. ok (value, after)
    | false ↦ err (unexpected_token (op_token text))
  ]
  parse_primary fuel nested_or evaluate (eof ∷ rest) = err (unexpected_token eof)

  -- `_parse_unary`, given the nested parsers that `_parse_nested` runs
  unfoldable pub parse_unary_with : ℕ → ParserOf E Value → ParserOf E Value → ParserOf E Value
  unfolding parse_primary
  parse_unary_with fuel nested_unary nested_or evaluate tokens =
      elim (match_first unary_symbol unary_operators tokens) [
        | some (operator, behind) ↦ nested_unary evaluate behind >>= λ (value, rest).
            with_rest rest (s.unary operator value)
        | none ↦ parse_primary fuel nested_or evaluate tokens
      ]

  -- `_parse_unary` with `_MAX_EXPRESSION_NESTING - _nesting_depth` as its second argument
  unfoldable pub parse_unary : ℕ → ℕ → ParserOf E Value
  unfolding parse_level parse_unary_with
  parse_unary fuel zero = parse_unary_with fuel refuse_nested refuse_nested
  parse_unary fuel (suc room) =
      parse_unary_with fuel (parse_unary fuel room) (parse_level fuel 10 (parse_unary fuel room))

  -- `parse`, of the tokens of `_tokenize`
  unfoldable pub parse : List Token → Result (ParseError E) Value
  unfolding parse_unary parse_level
  parse tokens =
      let fuel = suc (length tokens) in
      parse_level fuel 10 (parse_unary fuel max_expression_nesting) true tokens >>= λ (value, rest).
      elim (peek rest) [
        | eof ↦ ok value
        | number_token text ↦ err (unexpected_token (number_token text))
        | string_token text ↦ err (unexpected_token (string_token text))
        | ident_token text ↦ err (unexpected_token (ident_token text))
        | op_token text ↦ err (unexpected_token (op_token text))
      ]
