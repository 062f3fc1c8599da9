-- ===== src/Expression/Evaluate.antt =====
-- The operations of `_ExprParser` of src/protocyte/model.py on typed values, and `parse` on a text.
-- `resolve_name` is the argument of that name.
pub mod Ends
use protocyte.Common.{Bool, true, false, some, Result, ok, err, ◌>>=◌, Bytes}
use protocyte.Expression.Syntax.{Semantics}
use protocyte.Expression.Parser.{ParseError, parse}
use protocyte.Expression.Number.{Floats, EvaluationError}
use protocyte.Expression.Value.{TypedValue, bool_text, bool_value, string_value, type_only_value}
use protocyte.Expression.Operate.{rhs_evaluation, apply_binary, apply_unary}
use protocyte.Expression.Functions.{Mathematics}
use protocyte.Expression.Call.{evaluate_function}
use protocyte.Expression.Literal.{Python, TokenError, tokenize, number_value, parse_string_token}

-- An error of the tokens or of the parser
pub data ExpressionError : Type 0 where
  in_tokens : TokenError → ExpressionError
  in_parser : ParseError EvaluationError → ExpressionError

module _ {F : Type 0} (python : Python) (floats : Floats F) (mathematics : Mathematics F)
    (resolve_name : Bytes → Result EvaluationError (TypedValue F)) where
  -- result if self._evaluate_values else _type_only_value(result)
  abbrev pub as_evaluated : Bool → TypedValue F → Result EvaluationError (TypedValue F)
  as_evaluated true value = ok value
  as_evaluated false value = type_only_value floats value

  -- "true" and "false" of `_parse_primary`; without evaluation both are false, written as they are.
  abbrev pub boolean_literal : Bool → Bool → TypedValue F
  boolean_literal true b = bool_value b (bool_text b) 120
  boolean_literal false b = bool_value false (bool_text b) 120

  unfoldable pub semantics : Semantics (TypedValue F) EvaluationError
  unfolding number_value parse_string_token string_value bool_value type_only_value
      evaluate_function rhs_evaluation apply_binary apply_unary
  semantics = record {
    number =
        λ evaluate text. number_value python floats text >>= λ value. as_evaluated evaluate value;
    string = λ evaluate text. parse_string_token python text >>= λ value.
        as_evaluated evaluate (string_value value (some text) 120);
    boolean = boolean_literal;
    name = λ evaluate text. resolve_name text >>= λ value. as_evaluated evaluate value;
    call = λ evaluate text args. evaluate_function floats mathematics evaluate text args;
    unary = λ operator value. apply_unary floats operator value;
    before_rhs = λ operator evaluate value. rhs_evaluation floats operator evaluate value;
    binary = λ operator evaluate lhs rhs. apply_binary floats operator evaluate lhs rhs;
  }

  abbrev pub of_tokens : {A : Type 0} → Result TokenError A → Result ExpressionError A
  of_tokens (ok value) = ok value
  of_tokens (err raised) = err (in_tokens raised)

  abbrev pub of_parser :
      {A : Type 0} → Result (ParseError EvaluationError) A → Result ExpressionError A
  of_parser (ok value) = ok value
  of_parser (err raised) = err (in_parser raised)

  -- _ExprParser(text, resolve_name, label).parse()
  unfoldable pub evaluate_expression : Bytes → Result ExpressionError (TypedValue F)
  unfolding tokenize parse semantics
  evaluate_expression text =
      of_tokens (tokenize python text) >>= λ tokens. of_parser (parse semantics tokens)
