-- ===== src/Expression/Operate.antt =====
-- What the methods of `_ExprParser` of src/protocyte/model.py compute for the unary and the binary
-- operators.
pub mod Quotient
pub mod Remainder
use Prim.Native.Nat.{bit_and as nat_and, bit_or as nat_or, bit_xor as nat_xor}
use protocyte.Common.{
  ℕ, ℤ, pos, leb_int, ltb_int, eq_int, add_int, subtract_int, multiply_int, negate_int,
  floor_divide, Bool, true, false, not, ◌&&◌, ◌||◌, some, ◌++◌, Result, ok, err, ◌>>=◌, ◌>>◌,
  raise_if, if◌then◌else◌, Bytes, codes, text_eq,
}
use protocyte.Model.Integer.{
  IntegerKind, is_signed, common_integer_kind, result_out_of_range, bitwise_at, bitwise_complement,
  shift_value, signed_division_overflows, truncating_integer_divide,
}
use protocyte.Expression.Syntax.{
  BinaryOperator, or_else, and_then, bit_or, bit_xor, bit_and, equal, not_equal, less, less_equal,
  greater, greater_equal, shift_left, shift_right, add, subtract, multiply, divide, modulo,
  UnaryOperator, logical_not, complement, plus, minus, symbol,
}
use protocyte.Expression.Number.{
  Floats, Number, whole, real, NumericKind, integral, float32, float64, EvaluationError,
  integer_error, division_by_zero, modulo_by_zero, modulo_of_floats, mixed_addition, mixed_equality,
  of_integer, is_float_kind, known_kind, as_float, number_is_zero, normalize_numeric_result,
  arithmetic, comparison,
}
use protocyte.Expression.Value.{
  TypedValue, bool_payload, string_payload, numeric_payload, wrap_cpp, binary_cpp, bool_value,
  string_value, numeric_value, zero_of, typed_numeric_kind, expect_numeric, expect_integral,
  expect_bool, numeric_operands,
}

module _ {F : Type 0} (floats : Floats F) where
  -- int(value)
  abbrev pub as_int : Number F → ℤ
  as_int (whole n) = n
  as_int (real x) = floats.float_trunc x

  -- -value
  abbrev pub number_negate : Number F → Number F
  number_negate (whole n) = whole (negate_int n)
  number_negate (real x) = real (floats.float_negate x)

  -- A result of an operator, with its C++ and precedence
  abbrev pub binary_result :
      BinaryOperator
      → ℕ
      → TypedValue F
      → TypedValue F
      → NumericKind
      → Number F
      → Result EvaluationError (TypedValue F)
  binary_result operator precedence lhs rhs kind result =
      numeric_value floats result (some (binary_cpp lhs rhs (symbol operator) precedence))
        precedence (some kind)

  unfoldable pub numeric_binary :
      (ℤ → ℤ → ℤ)
      → (F → F → F)
      → BinaryOperator
      → ℕ
      → TypedValue F
      → TypedValue F
      → Result EvaluationError (TypedValue F)
  unfolding numeric_operands normalize_numeric_result binary_cpp numeric_value
  numeric_binary op float_op operator precedence lhs rhs =
      numeric_operands floats lhs rhs >>= λ (left, right, kind).
      normalize_numeric_result floats (arithmetic floats op float_op left right) kind >>= λ result.
      binary_result operator precedence lhs rhs kind result

  unfoldable pub bitwise_binary :
      (ℕ → ℕ → ℕ)
      → BinaryOperator
      → ℕ
      → TypedValue F
      → TypedValue F
      → Result EvaluationError (TypedValue F)
  unfolding expect_integral common_integer_kind bitwise_at binary_cpp numeric_value
  bitwise_binary op operator precedence lhs rhs = expect_integral lhs >>= λ (left, lhs_kind).
      expect_integral rhs >>= λ (right, rhs_kind).
      let kind = known_kind (common_integer_kind lhs_kind rhs_kind) lhs_kind in
      of_integer (bitwise_at op left lhs_kind right rhs_kind kind) >>= λ result.
      binary_result operator precedence lhs rhs (integral kind) (whole result)

  -- `_shift_value` of values
  unfoldable pub shift_values :
      Bool → BinaryOperator → TypedValue F → TypedValue F → Result EvaluationError (TypedValue F)
  unfolding expect_integral shift_value binary_cpp numeric_value
  shift_values left operator lhs rhs = expect_integral lhs >>= λ (value, lhs_kind).
      expect_integral rhs >>= λ (count, rhs_kind).
      of_integer (shift_value left value lhs_kind count rhs_kind) >>= λ result.
      binary_result operator 80 lhs rhs (integral lhs_kind) (whole result)

  unfoldable pub numeric_compare :
      (ℤ → ℤ → Bool) → (F → F → Bool) → TypedValue F → TypedValue F → Result EvaluationError Bool
  unfolding numeric_operands
  numeric_compare op float_op lhs rhs = numeric_operands floats lhs rhs >>= λ (left, right, kind).
      ok (comparison floats op float_op left right)

  unfoldable pub compare_equal : TypedValue F → TypedValue F → Result EvaluationError Bool
  unfolding numeric_operands
  compare_equal lhs rhs = elim lhs.payload [
    | string_payload left ↦ elim rhs.payload [
      | string_payload right ↦ ok (text_eq left right)
      | bool_payload b ↦ err mixed_equality
      | numeric_payload kind number ↦ err mixed_equality
    ]
    | bool_payload b ↦ elim rhs.payload [
      | string_payload right ↦ err mixed_equality
      | bool_payload c ↦ numeric_compare eq_int floats.float_equal lhs rhs
      | numeric_payload kind number ↦ numeric_compare eq_int floats.float_equal lhs rhs
    ]
    | numeric_payload kind number ↦ elim rhs.payload [
      | string_payload right ↦ err mixed_equality
      | bool_payload c ↦ numeric_compare eq_int floats.float_equal lhs rhs
      | numeric_payload other n ↦ numeric_compare eq_int floats.float_equal lhs rhs
    ]
  ]

  -- A Boolean result of an operator
  abbrev pub bool_result :
      BinaryOperator
      → ℕ
      → TypedValue F
      → TypedValue F
      → Bool
      → Result EvaluationError (TypedValue F)
  bool_result operator precedence lhs rhs result =
      ok (bool_value result (binary_cpp lhs rhs (symbol operator) precedence) precedence)

  -- The branch of `_parse_add` for "+"
  unfoldable pub add_values : TypedValue F → TypedValue F → Result EvaluationError (TypedValue F)
  unfolding numeric_binary binary_cpp string_value
  add_values lhs rhs = elim lhs.payload [
    | string_payload left ↦ elim rhs.payload [
      | string_payload right ↦
          ok (string_value (left ++ right) (some (binary_cpp lhs rhs (symbol add) 90)) 90)
      | bool_payload b ↦ err mixed_addition
      | numeric_payload kind number ↦ err mixed_addition
    ]
    | bool_payload b ↦ elim rhs.payload [
      | string_payload right ↦ err mixed_addition
      | bool_payload c ↦ numeric_binary add_int floats.float_add add 90 lhs rhs
      | numeric_payload kind number ↦ numeric_binary add_int floats.float_add add 90 lhs rhs
    ]
    | numeric_payload kind number ↦ elim rhs.payload [
      | string_payload right ↦ err mixed_addition
      | bool_payload c ↦ numeric_binary add_int floats.float_add add 90 lhs rhs
      | numeric_payload other n ↦ numeric_binary add_int floats.float_add add 90 lhs rhs
    ]
  ]

  -- The check and the quotient of integers in a kind, for "/" and "%"
  unfoldable pub integer_quotient : ℤ → ℤ → IntegerKind → Result EvaluationError ℤ
  unfolding signed_division_overflows truncating_integer_divide
  integer_quotient left right kind =
      raise_if (is_signed kind && signed_division_overflows left right kind)
        (integer_error result_out_of_range)
      >> ok
          (if is_signed kind then truncating_integer_divide left right else floor_divide left right)

  -- The evaluated quotient of operands in their common kind
  unfoldable pub quotient_in : NumericKind → Number F → Number F → Result EvaluationError (Number F)
  unfolding integer_quotient normalize_numeric_result
  quotient_in float32 left right =
      ok (real (floats.float_divide (as_float floats left) (as_float floats right)))
  quotient_in float64 left right =
      ok (real (floats.float_divide (as_float floats left) (as_float floats right)))
  quotient_in (integral kind) left right =
      integer_quotient (as_int left) (as_int right) kind >>= λ result.
      normalize_numeric_result floats (whole result) (integral kind)

  -- The branch of `_parse_mul` for "/"
  unfoldable pub divide_values :
      Bool → TypedValue F → TypedValue F → Result EvaluationError (TypedValue F)
  unfolding numeric_operands quotient_in binary_cpp numeric_value
  divide_values evaluate lhs rhs = numeric_operands floats lhs rhs >>= λ (left, right, kind).
      if not evaluate
      then binary_result divide 100 lhs rhs kind (zero_of floats kind)
      else raise_if (number_is_zero floats right) division_by_zero
        >> (quotient_in kind left right >>= λ result. binary_result divide 100 lhs rhs kind result)

  -- The evaluated remainder of integers in their common kind
  unfoldable pub remainder_in :
      NumericKind → Number F → Number F → Result EvaluationError (Number F)
  unfolding integer_quotient normalize_numeric_result
  remainder_in float32 left right = err modulo_of_floats
  remainder_in float64 left right = err modulo_of_floats
  remainder_in (integral kind) left right =
      integer_quotient (as_int left) (as_int right) kind >>= λ result.
      normalize_numeric_result floats
        (whole (subtract_int (as_int left) (multiply_int result (as_int right)))) (integral kind)

  -- The branch of `_parse_mul` for "%"
  unfoldable pub modulo_values :
      Bool → TypedValue F → TypedValue F → Result EvaluationError (TypedValue F)
  unfolding numeric_operands remainder_in binary_cpp numeric_value
  modulo_values evaluate lhs rhs = numeric_operands floats lhs rhs >>= λ (left, right, kind).
      raise_if (is_float_kind kind) modulo_of_floats
      >> (if not evaluate
          then binary_result modulo 100 lhs rhs kind (whole (pos 0))
          else raise_if (number_is_zero floats right) modulo_by_zero
            >> (remainder_in kind left right >>= λ result.
                binary_result modulo 100 lhs rhs kind result))

  -- "||" and "&&", behind the right operand
  unfoldable pub logical_values :
      (Bool → Bool → Bool)
      → BinaryOperator
      → ℕ
      → Bool
      → TypedValue F
      → TypedValue F
      → Result EvaluationError (TypedValue F)
  unfolding expect_bool bool_value binary_cpp
  logical_values op operator precedence evaluate lhs rhs = expect_bool floats lhs >>= λ lhs_bool.
      expect_bool floats rhs >>= λ rhs_bool.
      bool_result operator precedence lhs rhs (evaluate && op lhs_bool rhs_bool)

  -- `_evaluate_values` of the right operand
  unfoldable pub rhs_evaluation : BinaryOperator → Bool → TypedValue F → Result EvaluationError Bool
  unfolding expect_bool
  rhs_evaluation or_else evaluate lhs =
      expect_bool floats lhs >>= λ lhs_bool. ok (evaluate && not lhs_bool)
  rhs_evaluation and_then evaluate lhs =
      expect_bool floats lhs >>= λ lhs_bool. ok (evaluate && lhs_bool)
  rhs_evaluation _ evaluate lhs = ok evaluate

  -- The comparisons of floats that Python writes <=, > and >=
  abbrev pub float_at_most : F → F → Bool
  float_at_most a b = floats.float_less a b || floats.float_equal a b

  -- The value of a binary operator
  unfoldable pub apply_binary :
      BinaryOperator → Bool → TypedValue F → TypedValue F → Result EvaluationError (TypedValue F)
  unfolding logical_values bitwise_binary compare_equal numeric_compare shift_values add_values
      numeric_binary divide_values modulo_values bool_value binary_cpp
  apply_binary or_else evaluate lhs rhs = logical_values (λ a b. a || b) or_else 10 evaluate lhs rhs
  apply_binary and_then evaluate lhs rhs =
      logical_values (λ a b. a && b) and_then 20 evaluate lhs rhs
  apply_binary bit_or evaluate lhs rhs = bitwise_binary nat_or bit_or 30 lhs rhs
  apply_binary bit_xor evaluate lhs rhs = bitwise_binary nat_xor bit_xor 40 lhs rhs
  apply_binary bit_and evaluate lhs rhs = bitwise_binary nat_and bit_and 50 lhs rhs
  apply_binary equal evaluate lhs rhs =
      compare_equal lhs rhs >>= λ result. bool_result equal 60 lhs rhs result
  apply_binary not_equal evaluate lhs rhs =
      compare_equal lhs rhs >>= λ result. bool_result not_equal 60 lhs rhs (not result)
  apply_binary less evaluate lhs rhs =
      numeric_compare ltb_int floats.float_less lhs rhs >>= λ result.
      bool_result less 70 lhs rhs result
  apply_binary less_equal evaluate lhs rhs =
      numeric_compare leb_int float_at_most lhs rhs >>= λ result.
      bool_result less_equal 70 lhs rhs result
  apply_binary greater evaluate lhs rhs =
      numeric_compare (λ a b. ltb_int b a) (λ a b. floats.float_less b a) lhs rhs >>= λ result.
      bool_result greater 70 lhs rhs result
  apply_binary greater_equal evaluate lhs rhs =
      numeric_compare (λ a b. leb_int b a) (λ a b. float_at_most b a) lhs rhs >>= λ result.
      bool_result greater_equal 70 lhs rhs result
  apply_binary shift_left evaluate lhs rhs = shift_values true shift_left lhs rhs
  apply_binary shift_right evaluate lhs rhs = shift_values false shift_right lhs rhs
  apply_binary add evaluate lhs rhs = add_values lhs rhs
  apply_binary subtract evaluate lhs rhs =
      numeric_binary subtract_int floats.float_subtract subtract 90 lhs rhs
  apply_binary multiply evaluate lhs rhs =
      numeric_binary multiply_int floats.float_multiply multiply 100 lhs rhs
  apply_binary divide evaluate lhs rhs = divide_values evaluate lhs rhs
  apply_binary modulo evaluate lhs rhs = modulo_values evaluate lhs rhs

  abbrev pub signed_result :
      Bytes → (Number F → Number F) → TypedValue F → Result EvaluationError (TypedValue F)
  signed_result sign op value = expect_numeric value >>= λ operand.
      typed_numeric_kind value >>= λ kind.
      normalize_numeric_result floats (op operand) kind >>= λ result.
      numeric_value floats result (some (sign ++ wrap_cpp value 110)) 110 (some kind)

  -- The value of a unary operator
  unfoldable pub apply_unary : UnaryOperator → TypedValue F → Result EvaluationError (TypedValue F)
  unfolding expect_bool expect_integral bitwise_complement wrap_cpp bool_value numeric_value
      expect_numeric typed_numeric_kind normalize_numeric_result
  apply_unary logical_not value = expect_bool floats value >>= λ b.
      ok (bool_value (not b) (codes "!" ++ wrap_cpp value 110) 110)
  apply_unary complement value = expect_integral value >>= λ (operand, kind).
      of_integer (bitwise_complement operand kind) >>= λ result.
      numeric_value floats (whole result) (some (codes "~" ++ wrap_cpp value 110)) 110
        (some (integral kind))
  apply_unary plus value = signed_result (codes "+") (λ n. n) value
  apply_unary minus value = signed_result (codes "-") number_negate value
