-- ===== src/Expression/Functions.antt =====
-- The numeric functions of constant expressions in src/protocyte/model.py. The functions of
-- src/protocyte/_deterministic_math.py are a parameter, `Mathematics`.
use protocyte.Common.{
  ℕ, ◌-◌, ◌^◌, pos, negsuc, eq_int, Bool, false, ◌&&◌, ◌||◌, Option, none, some, List, [], ◌∷◌,
  ◌++◌, Result, ok, err, ◌>>=◌, ◌>>◌, raise_if, if◌then◌else◌, Bytes, codes, text_eq, contains,
}
use protocyte.Model.Integer.{
  int32, uint32, int64, uint64, is_signed, integer_range, operand_out_of_range, normalize_integer,
  literal_integer_kind, abs,
}
use protocyte.Expression.Number.{
  Floats, Number, whole, real, NumericKind, integral, float32, float64, EvaluationError, not_finite,
  domain_error, wrong_arguments, argument_out_of_range, abs_out_of_range, int_text, number_text,
  as_float, round_f32, convert_numeric_value, common_numeric_kind, number_less,
}
use protocyte.Expression.Value.{
  TypedValue, bool_payload, string_payload, numeric_payload, bool_number, integral_kind,
  is_infinite, numeric_value,
}

-- DeterministicMathDomainError and DeterministicMathNonFiniteError
pub data MathError : Type 0 where
  math_domain math_not_finite : MathError

-- `evaluate_unary` and `evaluate_deterministic_pow`
pub record Mathematics (F : Type 0) : Type 0 where
  pub evaluate_unary : Bytes → F → ℕ → Result MathError F
  pub evaluate_deterministic_pow : F → F → Result MathError F

abbrev pub of_math : {A : Type 0} → Result MathError A → Result EvaluationError A
of_math (ok value) = ok value
of_math (err math_domain) = err domain_error
of_math (err math_not_finite) = err not_finite

-- text += ".0", unless it is written as a float
abbrev pub with_point : Bytes → Bytes
with_point text =
    if contains b'e' text || contains b'E' text || contains b'.' text
    then text
    else text ++ codes ".0"

-- `_common_numeric_kind` of several kinds
abbrev pub common_of_kinds : NumericKind → List NumericKind → NumericKind
common_of_kinds kind [] = kind
common_of_kinds kind (next ∷ kinds) = common_of_kinds (common_numeric_kind kind next) kinds

-- The range of a function's argument: integers of an unsigned kind wrap.
abbrev pub argument_in :
    {F : Type 0} → Number F → NumericKind → Result EvaluationError (Number F × NumericKind)
argument_in (whole n) (integral kind) = elim (normalize_integer operand_out_of_range n kind) [
  | ok value ↦ ok (whole value, integral kind)
  | err raised ↦ err argument_out_of_range
]
argument_in (real x) (integral kind) = err argument_out_of_range
argument_in number float32 = ok (number, float32)
argument_in number float64 = ok (number, float64)

-- The kind of an argument, if it has one
abbrev pub argument_kind : {F : Type 0} → Option NumericKind → Number F → Option NumericKind
argument_kind (some kind) number = some kind
argument_kind none (whole n) = integral_kind (literal_integer_kind n false)
argument_kind none (real x) = none

-- A float has no kind of integers; the source asserts it.
unfoldable pub function_numeric_argument :
    {F : Type 0} → TypedValue F → Result EvaluationError (Number F × NumericKind)
function_numeric_argument value = elim value.payload [
  | bool_payload b ↦ ok (bool_number b, integral int32)
  | string_payload text ↦ err wrong_arguments
  | numeric_payload kind number ↦ elim (argument_kind kind number) [
    | some known ↦ argument_in number known
    | none ↦ err argument_out_of_range
  ]
]

module _ {F : Type 0} (floats : Floats F) where
  -- `_cpp_constant_value` of a number
  unfoldable pub cpp_constant_number : NumericKind → Number F → Bytes
  cpp_constant_number (integral int32) value = number_text floats value
  cpp_constant_number (integral uint32) value = number_text floats value ++ codes "u"
  cpp_constant_number (integral int64) (whole n) =
      if eq_int n (negsuc (2 ^ 63 - 1))
      then codes "(-9223372036854775807ll - 1ll)"
      else int_text n ++ codes "ll"
  cpp_constant_number (integral int64) (real x) = int_text (floats.float_trunc x) ++ codes "ll"
  cpp_constant_number (integral uint64) value = number_text floats value ++ codes "ull"
  cpp_constant_number float32 value =
      with_point (floats.format_g 9 (as_float floats value)) ++ codes "f"
  cpp_constant_number float64 value = with_point (floats.format_g 17 (as_float floats value))

  -- The check of `_function_numeric_result`
  abbrev pub finite_in : NumericKind → Number F → Result EvaluationError (Number F)
  finite_in float32 value = round_f32 floats value >>= λ rounded. ok (real rounded)
  finite_in float64 value = raise_if (is_infinite floats value) not_finite >> ok value
  finite_in (integral kind) value = raise_if (is_infinite floats value) not_finite >> ok value

  unfoldable pub function_numeric_result :
      Number F → NumericKind → Result EvaluationError (TypedValue F)
  unfolding cpp_constant_number round_f32 numeric_value
  function_numeric_result value kind = finite_in kind value >>= λ result.
      numeric_value floats result (some (cpp_constant_number kind result)) 120 (some kind)

  -- CONSTANT_KIND_FLOAT for float arguments, else CONSTANT_KIND_DOUBLE
  abbrev pub real_result_kind : NumericKind → NumericKind
  real_result_kind float32 = float32
  real_result_kind float64 = float64
  real_result_kind (integral kind) = float64

  abbrev pub width_of : NumericKind → ℕ
  width_of float32 = 32
  width_of float64 = 64
  width_of (integral kind) = 64

  unfoldable pub evaluate_real_function :
      Mathematics F → Bytes → Number F → NumericKind → Result EvaluationError (TypedValue F)
  unfolding convert_numeric_value function_numeric_result
  evaluate_real_function mathematics name value source_kind =
      let result_kind = real_result_kind source_kind in
      convert_numeric_value floats value source_kind result_kind >>= λ operand.
      of_math (mathematics.evaluate_unary name (as_float floats operand) (width_of result_kind))
      >>= λ result. function_numeric_result (real result) result_kind

  -- The rounding of "round": halves away from zero
  abbrev pub round_half_away : F → F
  round_half_away operand =
      let (fractional, integer_part) = floats.modf (floats.float_abs operand) in
      let up =
        if floats.float_less fractional floats.half
        then floats.of_int (pos 0)
        else floats.of_int (pos 1) in
      floats.copysign (floats.float_add integer_part up) operand

  abbrev pub rounded_by : Bytes → F → F
  rounded_by name operand =
      if text_eq name (codes "ceil")
      then floats.of_int (floats.float_ceil operand)
      else if text_eq name (codes "floor")
      then floats.of_int (floats.float_floor operand)
      else if text_eq name (codes "trunc")
      then floats.of_int (floats.float_trunc operand)
      else if floats.is_integer operand
      then operand
      else round_half_away operand

  -- A zero keeps the operand's sign.
  abbrev pub signed_zero : F → F → F
  signed_zero operand result =
      if floats.float_equal result (floats.of_int (pos 0))
      then floats.copysign (floats.of_int (pos 0)) operand
      else result

  unfoldable pub evaluate_rounding_function :
      Bytes → Number F → NumericKind → Result EvaluationError (TypedValue F)
  unfolding convert_numeric_value function_numeric_result
  evaluate_rounding_function name value source_kind =
      let result_kind = real_result_kind source_kind in
      convert_numeric_value floats value source_kind result_kind >>= λ operand.
      let x = as_float floats operand in
      function_numeric_result (real (signed_zero x (rounded_by name x))) result_kind

  unfoldable pub evaluate_pow :
      Mathematics F → List (TypedValue F) → Result EvaluationError (TypedValue F)
  unfolding function_numeric_argument convert_numeric_value function_numeric_result
  evaluate_pow mathematics [] = err wrong_arguments
  evaluate_pow mathematics (only ∷ []) = err wrong_arguments
  evaluate_pow mathematics (lhs ∷ rhs ∷ []) = function_numeric_argument lhs >>= λ (base, base_kind).
      function_numeric_argument rhs >>= λ (exponent, exponent_kind).
      convert_numeric_value floats base base_kind float64 >>= λ float_base.
      convert_numeric_value floats exponent exponent_kind float64 >>= λ float_exponent.
      of_math (
        mathematics.evaluate_deterministic_pow (as_float floats float_base)
          (as_float floats float_exponent))
      >>= λ result. function_numeric_result (real result) float64
  evaluate_pow mathematics (lhs ∷ rhs ∷ third ∷ more) = err wrong_arguments

  -- abs(value)
  abbrev pub number_abs : Number F → Number F
  number_abs (whole n) = whole (pos (abs n))
  number_abs (real x) = real (floats.float_abs x)

  -- The lower bound of a signed kind has no absolute value in it.
  abbrev pub abs_overflows : Number F → NumericKind → Bool
  abs_overflows (whole n) (integral kind) = is_signed kind && eq_int n (integer_range kind).0
  abs_overflows value kind = false

  unfoldable pub evaluate_abs : List (TypedValue F) → Result EvaluationError (TypedValue F)
  unfolding function_numeric_argument function_numeric_result
  evaluate_abs [] = err wrong_arguments
  evaluate_abs (arg ∷ []) = function_numeric_argument arg >>= λ (value, kind).
      raise_if (abs_overflows value kind) abs_out_of_range
      >> function_numeric_result (number_abs value) kind
  evaluate_abs (arg ∷ next ∷ args) = err wrong_arguments

  -- The arguments of "min" and "max", in order
  abbrev pub numeric_arguments :
      List (TypedValue F) → Result EvaluationError (List (Number F × NumericKind))
  numeric_arguments [] = ok []
  numeric_arguments (arg ∷ args) = function_numeric_argument arg >>= λ value.
      numeric_arguments args >>= λ values. ok (value ∷ values)

  abbrev pub convert_all :
      NumericKind → List (Number F × NumericKind) → Result EvaluationError (List (Number F))
  convert_all target [] = ok []
  convert_all target ((value, kind) ∷ values) =
      convert_numeric_value floats value kind target >>= λ converted.
      convert_all target values >>= λ rest. ok (converted ∷ rest)

  -- The loop over the candidates; `smaller` says that the function is "min".
  unfoldable pub choose : Bool → Number F → List (Number F) → Number F
  choose smaller result [] = result
  choose smaller result (candidate ∷ candidates) =
      let better =
        if smaller
        then number_less floats candidate result
        else number_less floats result candidate in
      choose smaller (if better then candidate else result) candidates

  abbrev pub kinds_of : List (Number F × NumericKind) → List NumericKind
  kinds_of [] = []
  kinds_of ((value, kind) ∷ values) = kind ∷ kinds_of values

  -- The result kind of "min" and "max"
  abbrev pub kind_of_arguments : List (Number F × NumericKind) → NumericKind
  kind_of_arguments [] = integral int32
  kind_of_arguments ((value, kind) ∷ values) = common_of_kinds kind (kinds_of values)

  abbrev pub chosen_of :
      Bool → NumericKind → List (Number F) → Result EvaluationError (TypedValue F)
  chosen_of smaller kind [] = err wrong_arguments
  chosen_of smaller kind (first ∷ candidates) =
      function_numeric_result (choose smaller first candidates) kind

  unfoldable pub evaluate_min_max :
      Bool → List (TypedValue F) → Result EvaluationError (TypedValue F)
  unfolding function_numeric_argument convert_numeric_value common_numeric_kind choose
      function_numeric_result
  evaluate_min_max smaller [] = err wrong_arguments
  evaluate_min_max smaller (only ∷ []) = err wrong_arguments
  evaluate_min_max smaller (first ∷ second ∷ args) =
      numeric_arguments (first ∷ second ∷ args) >>= λ values.
      convert_all (kind_of_arguments values) values >>= λ converted.
      chosen_of smaller (kind_of_arguments values) converted
