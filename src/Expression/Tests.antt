-- ===== src/Expression/Tests.antt =====
-- Runs of `_ExprParser` of src/protocyte/model.py, and the theorems on expressions at concrete ones.
-- Floats are integers here, characters are ASCII, and strings hold no escapes.
use protocyte.Common.{
  ℕ, ◌-◌, ℤ, pos, negsuc, ltb_int, eq_int, add_int, subtract_int, multiply_int, negate_int,
  floor_divide, absolute, Bool, true, false, ◌&&◌, ◌||◌, ◌≡◌, ◌≢◌, ◌∙◌, ap, ◌∙◌, ap, refl, none,
  some, [], ◌∷◌, ◌++◌, Result, ok, err, ◌>>=◌, leb, ◌==◌, drop, take, length, if◌then◌else◌, Bytes,
  codes, text_eq, starts_with, arith,
}
use protocyte.Model.Integer.{
  int32, shift_value, normalize_integer, negative_shift, result_out_of_range,
  truncating_integer_divide, literal_integer_kind,
}
use protocyte.Expression.Number.{
  Floats, EvaluationError, unresolved_name, division_by_zero, integer_error, whole, integral,
  int_text,
}
use protocyte.Expression.Value.{TypedValue, numeric_payload, bool_payload, numeric_operands}
use protocyte.Expression.Operate.{apply_binary}
use protocyte.Expression.Operate.Remainder.{apply_binary-integral}
use protocyte.Expression.Functions.{Mathematics, math_domain}
use protocyte.Expression.Syntax.{Semantics, eof, subtract, multiply, divide, modulo, logical_not}
use protocyte.Expression.Tree.{Tree, number, unary, group, binary, written, eval, Fits, nesting}
use protocyte.Expression.Tree.Refines.{parse-written}
use protocyte.Expression.Parser.{out_of_fuel, evaluation, lift, parse}
use protocyte.Expression.Literal.{token_fuel, Python}
use protocyte.Expression.Types.{ValueType, bool_type, type_of}
use protocyte.Expression.Types.Sound.{tree_type, parse-Typed}
use protocyte.Expression.Evaluate.Ends.{evaluate_expression_ends}
use protocyte.Expression.Evaluate.{
  in_tokens, ExpressionError, in_parser, semantics, evaluate_expression,
}

abbrev is_ascii_digit : ℕ → Bool
is_ascii_digit c = leb b'0' c && leb c b'9'

abbrev ascii_letter : ℕ → Bool
ascii_letter c = leb b'a' c && leb c b'z' || leb b'A' c && leb c b'Z'

abbrev ascii : Python
ascii = record {
  is_space = λ c. c == b' ';
  is_digit = is_ascii_digit;
  is_alpha = ascii_letter;
  is_alnum = λ c. ascii_letter c || is_ascii_digit c;
  decimal_value = λ c. if is_ascii_digit c then some (c - b'0') else none;
  literal_eval = λ text. some (take (length text - 2) (drop 1 text));
}

abbrev integers : Floats ℤ
integers = record {
  of_int = λ n. n;
  float_add = add_int;
  float_subtract = subtract_int;
  float_multiply = multiply_int;
  float_divide = floor_divide;
  float_negate = negate_int;
  float_abs = λ n. pos (absolute n);
  float_less = ltb_int;
  float_equal = eq_int;
  float_is_finite = λ n. true;
  to_f32 = λ n. some n;
  float_text = λ n. int_text n ++ codes ".0";
  format_g = λ digits n. int_text n;
  parse_float = λ text. none;
  float_trunc = λ n. n;
  float_ceil = λ n. n;
  float_floor = λ n. n;
  is_integer = λ n. true;
  modf = λ n. (pos 0, n);
  copysign = λ n m. n;
  half = pos 0;
}

abbrev no_mathematics : Mathematics ℤ
no_mathematics = record {
  evaluate_unary = λ name n bits. err math_domain;
  evaluate_deterministic_pow = λ base exponent. err math_domain;
}

abbrev no_constants : Bytes → Result EvaluationError (TypedValue ℤ)
no_constants name = err unresolved_name

abbrev run_text : Bytes → Result ExpressionError (TypedValue ℤ)
run_text = evaluate_expression ascii integers no_mathematics no_constants

precedence_kept :
    run_text (codes "(1+2)*3 - 4/2")
    ≡ ok (record {
      payload = numeric_payload (some (integral int32)) (whole (pos 7));
      cpp_expr = codes "(1 + 2) * 3 - 4 / 2";
      cpp_precedence = 90;
    })
unfolding evaluate_expression text_eq starts_with literal_integer_kind
precedence_kept = refl

-- 1 - !(x * 2)
abbrev example_tree : Tree
example_tree =
    binary subtract (number (codes "1"))
      (unary logical_not (group (binary multiply (number (codes "3")) (number (codes "2")))))

abbrev example_semantics : Semantics (TypedValue ℤ) EvaluationError
example_semantics = semantics ascii integers no_mathematics no_constants

parse-written_example :
    parse example_semantics (written example_tree ++ eof ∷ [])
    ≡ lift (eval example_semantics true example_tree)
parse-written_example =
    parse-written example_semantics example_tree
      (unfold Fits text_eq in (omega arith, refl, (omega arith, refl, refl)))
      (unfold nesting in (omega arith))

example_value :
    eval example_semantics true example_tree
    ≡ ok (record {
      payload = numeric_payload (some (integral int32)) (whole (pos 1));
      cpp_expr = codes "1 - !(3 * 2)";
      cpp_precedence = 90;
    })
unfolding eval semantics text_eq starts_with literal_integer_kind
example_value = refl

-- A quotient by zero behind `false &&` is not computed.
skipped_division :
    run_text (codes "false && 1/0 == 1")
    ≡ ok (record {
      payload = bool_payload false;
      cpp_expr = codes "false && 1 / 0 == 1";
      cpp_precedence = 20;
    })
unfolding evaluate_expression text_eq starts_with literal_integer_kind
skipped_division = refl

evaluated_division :
    run_text (codes "true && 1/0 == 1") ≡ err (in_parser (evaluation division_by_zero))
unfolding evaluate_expression text_eq starts_with literal_integer_kind
evaluated_division = refl

-- The complement of a placeholder is -1, so that a shift which could be computed raises when it is skipped.
computed_shift :
    run_text (codes "1 << ~-2 == 2")
    ≡ ok (record {
      payload = bool_payload true;
      cpp_expr = codes "1 << ~-2 == 2";
      cpp_precedence = 60;
    })
unfolding evaluate_expression text_eq starts_with literal_integer_kind shift_value normalize_integer
computed_shift = refl

skipped_shift :
    run_text (codes "true || 1 << ~-2 == 2")
    ≡ err (in_parser (evaluation (integer_error negative_shift)))
unfolding evaluate_expression text_eq starts_with literal_integer_kind shift_value normalize_integer
skipped_shift = refl

evaluate_expression_ends_example :
    (run_text (codes "((1") ≢ err (in_tokens token_fuel))
    × (run_text (codes "((1") ≢ err (in_parser out_of_fuel))
evaluate_expression_ends_example =
    evaluate_expression_ends ascii integers no_mathematics no_constants (codes "((1")

no_types : Bytes → ValueType
no_types text = bool_type

parse-Typed_example :
    type_of {F = ℤ} (record {
      payload = numeric_payload (some (integral int32)) (whole (pos 1));
      cpp_expr = codes "1 - !(3 * 2)";
      cpp_precedence = 90;
    })
    ≡ some (tree_type ascii no_types example_tree)
parse-Typed_example =
    parse-Typed ascii integers no_mathematics no_constants no_types example_tree
      (record {
        payload = numeric_payload (some (integral int32)) (whole (pos 1));
        cpp_expr = codes "1 - !(3 * 2)";
        cpp_precedence = 90;
      })
      (λ text value found. cc)
      (unfold Fits text_eq in (omega arith, refl, (omega arith, refl, refl)))
      (unfold nesting in (omega arith))
      (parse-written example_semantics example_tree
          (unfold Fits text_eq in (omega arith, refl, (omega arith, refl, refl)))
          (unfold nesting in (omega arith))
        ∙ ap lift example_value)

-- A value of int32
abbrev int32_value : ℤ → Bytes → TypedValue ℤ
int32_value n text = record {
  payload = numeric_payload (some (integral int32)) (whole n);
  cpp_expr = text;
  cpp_precedence = 110;
}

abbrev least_value : TypedValue ℤ
least_value = int32_value (negsuc 2147483647) (codes "least")

abbrev minus_one : TypedValue ℤ
minus_one = int32_value (negsuc 0) (codes "-1")

apply_binary-integral_example :
    (apply_binary integers divide true least_value minus_one
      ≡ err (integer_error result_out_of_range))
    × (apply_binary integers modulo true least_value minus_one
        ≡ err (integer_error result_out_of_range))
unfolding truncating_integer_divide numeric_operands normalize_integer
apply_binary-integral_example =
    apply_binary-integral integers least_value minus_one (negsuc 2147483647) (negsuc 0) int32 refl

-- -7 % 2 is -1.
remainder : run_text (codes "-7 % 2 == -1") >>= (λ value. ok value.payload) ≡ ok (bool_payload true)
unfolding evaluate_expression text_eq starts_with literal_integer_kind normalize_integer
    truncating_integer_divide
remainder = refl
