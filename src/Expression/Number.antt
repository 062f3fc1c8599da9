-- ===== src/Expression/Number.antt =====
-- The numbers of constant expressions in src/protocyte/model.py: integers and floats, their kinds,
-- and the conversions between these. Python's float is a parameter, `Floats`.
use protocyte.Common.{
  bit_length, ℕ, suc, ◌+◌, ◌-◌, ◌*◌, ◌/◌, ◌%◌, ◌^◌, ℤ, pos, negsuc, ltb_int, eq_int, Bool, true,
  false, not, ◌&&◌, ◌||◌, Option, none, some, ◌∷◌, Result, ok, err, ◌>>=◌, ◌>>◌, raise_if, ltb,
  ◌==◌, if◌then◌else◌, Bytes, decimal,
}
use protocyte.Model.Integer.{
  IntegerKind, common_integer_kind, NumberError, operand_out_of_range, result_out_of_range,
  normalize_integer, abs, is_below_zero,
}

-- Python's float, and what the module `struct` and the formats make of it.
pub record Floats (F : Type 0) : Type 0 where
  -- float(n), of an integer that a float can hold
  pub of_int : ℤ → F
  pub float_add : F → F → F
  pub float_subtract : F → F → F
  pub float_multiply : F → F → F
  pub float_divide : F → F → F
  pub float_negate : F → F
  pub float_abs : F → F
  pub float_less : F → F → Bool
  pub float_equal : F → F → Bool
  -- math.isfinite(x)
  pub float_is_finite : F → Bool
  -- struct.unpack("<f", struct.pack("<f", x))[0]; `none` is OverflowError
  pub to_f32 : F → Option F
  -- str(x) and format(x, f".{digits}g")
  pub float_text : F → Bytes
  pub format_g : ℕ → F → Bytes
  -- float(text); `none` is ValueError
  pub parse_float : Bytes → Option F
  -- math.trunc(x), math.ceil(x) and math.floor(x) of a finite x
  pub float_trunc : F → ℤ
  pub float_ceil : F → ℤ
  pub float_floor : F → ℤ
  -- x.is_integer()
  pub is_integer : F → Bool
  -- math.modf(x): the fractional and the integral part
  pub modf : F → F × F
  -- math.copysign(x, y)
  pub copysign : F → F → F
  -- 0.5
  pub half : F

-- int | float
pub data Number (F : Type 0) : Type 0 where
  whole : ℤ → Number F
  real : F → Number F

-- _NUMERIC_EXPRESSION_KINDS: CONSTANT_KIND_FLOAT is `float32`, CONSTANT_KIND_DOUBLE is `float64`.
pub data NumericKind : Type 0 where
  integral : IntegerKind → NumericKind
  float32 float64 : NumericKind

-- Where the operations on values raise ProtocyteError.
pub data EvaluationError : Type 0 where
  integer_error : NumberError → EvaluationError
  not_finite from_integer_kind to_integer_kind : EvaluationError
  expected_bool expected_numeric outside_supported_range : EvaluationError
  expected_integral integral_out_of_range : EvaluationError
  division_by_zero modulo_by_zero modulo_of_floats : EvaluationError
  mixed_addition mixed_equality : EvaluationError
  invalid_number literal_out_of_range invalid_string unresolved_name : EvaluationError
  unsupported_function wrong_arguments argument_out_of_range : EvaluationError
  abs_out_of_range cast_out_of_range domain_error not_coercible : EvaluationError

-- An error of the integers
abbrev pub of_integer : {A : Type 0} → Result NumberError A → Result EvaluationError A
of_integer (ok value) = ok value
of_integer (err raised) = err (integer_error raised)

abbrev pub is_float_kind : NumericKind → Bool
is_float_kind (integral kind) = false
is_float_kind float32 = true
is_float_kind float64 = true

-- str(n)
abbrev pub int_text : ℤ → Bytes
int_text (pos n) = decimal n
int_text (negsuc n) = b'-' ∷ decimal (suc n)

-- `truncated` of `_round_integer_to_f32_input` behind its rounding
abbrev pub round_half_even : ℕ → ℕ → ℕ
round_half_even magnitude shift =
    let truncated = magnitude / 2 ^ shift in
    let remainder = magnitude % 2 ^ shift in
    let halfway = 2 ^ (shift - 1) in
    if ltb halfway remainder || remainder == halfway && truncated % 2 == 1
    then truncated + 1
    else truncated

-- The magnitude of the float that `_round_integer_to_f32_input` returns
unfoldable pub f32_magnitude : ℕ → ℕ
unfolding bit_length
f32_magnitude magnitude =
    let shift = bit_length magnitude - 24 in
    let truncated = round_half_even magnitude shift in
    if shift == 0
    then magnitude
    else if truncated == 2 ^ 24
    then (truncated / 2) * 2 ^ (shift + 1)
    else truncated * 2 ^ shift

-- What `_common_integer_kind` returns; its table holds every kind that it asks for.
abbrev pub known_kind : Option IntegerKind → IntegerKind → IntegerKind
known_kind none otherwise = otherwise
known_kind (some kind) otherwise = kind

-- `_common_numeric_kind` of two kinds
unfoldable pub common_numeric_kind : NumericKind → NumericKind → NumericKind
unfolding common_integer_kind
common_numeric_kind float64 rhs = float64
common_numeric_kind lhs float64 = float64
common_numeric_kind float32 rhs = float32
common_numeric_kind lhs float32 = float32
common_numeric_kind (integral lhs) (integral rhs) =
    integral (known_kind (common_integer_kind lhs rhs) lhs)

module _ {F : Type 0} (floats : Floats F) where
  unfoldable pub round_integer_to_f32_input : ℤ → F
  unfolding f32_magnitude
  round_integer_to_f32_input value =
      let rounded = floats.of_int (pos (f32_magnitude (abs value))) in
      if is_below_zero value then floats.float_negate rounded else rounded

  -- float(value)
  abbrev pub as_float : Number F → F
  as_float (whole n) = floats.of_int n
  as_float (real x) = x

  -- str(value)
  abbrev pub number_text : Number F → Bytes
  number_text (whole n) = int_text n
  number_text (real x) = floats.float_text x

  -- value == 0
  abbrev pub number_is_zero : Number F → Bool
  number_is_zero (whole n) = eq_int n (pos 0)
  number_is_zero (real x) = floats.float_equal x (floats.of_int (pos 0))

  abbrev pub f32_input : Number F → F
  f32_input (whole n) = round_integer_to_f32_input n
  f32_input (real x) = x

  abbrev pub finite_f32 : Option F → Result EvaluationError F
  finite_f32 none = err not_finite
  finite_f32 (some rounded) =
      raise_if (not (floats.float_is_finite rounded)) not_finite >> ok rounded

  unfoldable pub round_f32 : Number F → Result EvaluationError F
  unfolding round_integer_to_f32_input
  round_f32 value =
      raise_if (not (floats.float_is_finite (f32_input value))) not_finite
      >> finite_f32 (floats.to_f32 (f32_input value))

  -- The first half of `_convert_numeric_value`: the value in its own kind
  unfoldable pub from_kind : Number F → NumericKind → Result EvaluationError (Number F)
  from_kind (whole n) (integral kind) =
      of_integer (normalize_integer operand_out_of_range n kind) >>= λ value. ok (whole value)
  from_kind (real x) (integral kind) = err from_integer_kind
  from_kind value float32 = ok value
  from_kind value float64 = ok value

  -- The second half
  unfoldable pub to_kind : Number F → NumericKind → NumericKind → Result EvaluationError (Number F)
  unfolding round_f32
  to_kind value source_kind float64 = ok (real (as_float value))
  to_kind value source_kind float32 = round_f32 value >>= λ rounded. ok (real rounded)
  to_kind (whole n) (integral source_kind) (integral kind) =
      of_integer (normalize_integer operand_out_of_range n kind) >>= λ value. ok (whole value)
  to_kind value source_kind (integral kind) = err to_integer_kind

  unfoldable pub convert_numeric_value :
      Number F → NumericKind → NumericKind → Result EvaluationError (Number F)
  unfolding from_kind to_kind
  convert_numeric_value value source_kind target_kind =
      from_kind value source_kind >>= λ operand. to_kind operand source_kind target_kind

  unfoldable pub normalize_numeric_result :
      Number F → NumericKind → Result EvaluationError (Number F)
  normalize_numeric_result (whole n) (integral kind) =
      of_integer (normalize_integer result_out_of_range n kind) >>= λ value. ok (whole value)
  normalize_numeric_result value kind = ok value

  -- An operator on two numbers of Python: of integers, or of floats if one of them is a float
  abbrev pub arithmetic : (ℤ → ℤ → ℤ) → (F → F → F) → Number F → Number F → Number F
  arithmetic op float_op (whole a) (whole b) = whole (op a b)
  arithmetic op float_op lhs rhs = real (float_op (as_float lhs) (as_float rhs))

  abbrev pub comparison : (ℤ → ℤ → Bool) → (F → F → Bool) → Number F → Number F → Bool
  comparison op float_op (whole a) (whole b) = op a b
  comparison op float_op lhs rhs = float_op (as_float lhs) (as_float rhs)

  -- lhs < rhs
  abbrev pub number_less : Number F → Number F → Bool
  number_less = comparison ltb_int floats.float_less

  -- lhs == rhs
  abbrev pub number_equal : Number F → Number F → Bool
  number_equal = comparison eq_int floats.float_equal
