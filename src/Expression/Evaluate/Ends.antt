-- ===== src/Expression/Evaluate/Ends.antt =====
-- The evaluation of a text of src/protocyte/model.py ends: `_tokenize` and `_ExprParser` together.
use protocyte.Common.{◌≡◌, ◌≢◌, refl, List, Result, ok, err, ◌>>=◌, Bytes}
use protocyte.Expression.Syntax.{Token, Semantics}
use protocyte.Expression.Parser.{ParseError, out_of_fuel, parse}
use protocyte.Expression.Parser.Ends.{parse-Ends}
use protocyte.Expression.Number.{Floats, EvaluationError}
use protocyte.Expression.Value.{TypedValue}
use protocyte.Expression.Functions.{Mathematics}
use protocyte.Expression.Literal.{Python, TokenError, token_fuel, tokenize}
use protocyte.Expression.Literal.Ends.{tokenize_ends}
use protocyte.Expression.Evaluate.{
  in_tokens, in_parser, of_tokens, of_parser, semantics, evaluate_expression,
}

module _ {F : Type 0} (python : Python) (floats : Floats F) (mathematics : Mathematics F)
    (resolve_name : Bytes → Result EvaluationError (TypedValue F)) where
  -- For every text, neither `_tokenize` nor the parser runs out of its fuel, so that an evaluation
  -- ends with a value or with an error of the source.
  pub evaluate_expression_ends :
      (text : Bytes)
      → (evaluate_expression python floats mathematics resolve_name text
          ≢ err (in_tokens token_fuel))
        × (evaluate_expression python floats mathematics resolve_name text
            ≢ err (in_parser out_of_fuel))
  unfolding evaluate_expression
  evaluate_expression_ends text = both (tokenize python text) (tokenize_ends python text)
    where
      meaning : Semantics (TypedValue F) EvaluationError
      meaning = semantics python floats mathematics resolve_name

      parsed :
          (r : Result (ParseError EvaluationError) (TypedValue F))
          → r ≢ err out_of_fuel
          → (of_parser python floats mathematics resolve_name r ≢ err (in_tokens token_fuel))
            × (of_parser python floats mathematics resolve_name r ≢ err (in_parser out_of_fuel))
      parsed (ok value) ends = (λ same. cc, λ same. cc)
      parsed (err raised) ends =
          (λ same. cc, λ same. let here : raised ≡ out_of_fuel = cc in ends (rw here refl))

      both :
          (r : Result TokenError (List Token))
          → r ≢ err token_fuel
          → ((of_tokens python floats mathematics resolve_name r >>= λ tokens.
                of_parser python floats mathematics resolve_name (parse meaning tokens))
              ≢ err (in_tokens token_fuel))
            × ((of_tokens python floats mathematics resolve_name r >>= λ tokens.
                  of_parser python floats mathematics resolve_name (parse meaning tokens))
                ≢ err (in_parser out_of_fuel))
      both (ok tokens) ends = parsed (parse meaning tokens) (parse-Ends meaning tokens)
      both (err raised) ends =
          (λ same. let here : raised ≡ token_fuel = cc in ends (rw here refl), λ same. cc)
