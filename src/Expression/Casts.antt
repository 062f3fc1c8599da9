-- ===== src/Expression/Casts.antt =====
-- The casts of constant expressions in src/protocyte/model.py, and the coercion of a value to the
-- kind of a constant.
use protocyte.Common.{
  ℕ, ℤ, Bool, true, false, not, ◌||◌, Option, none, some, List, [], ◌∷◌, Result, ok, err, ◌>>=◌,
  ◌>>◌, raise_if, ltb, leb, all, Bytes, codes, text_eq,
}
use protocyte.Model.Integer.{
  IntegerKind, int32, uint32, int64, uint64, bits_of, low_bits, out_of_kind, integer_from_bits,
}
use protocyte.Expression.Number.{
  Floats, Number, whole, real, NumericKind, integral, float32, float64, EvaluationError, not_finite,
  wrong_arguments, cast_out_of_range, not_coercible, invalid_string, int_text, as_float,
  number_is_zero, round_f32, convert_numeric_value,
}
use protocyte.Expression.Value.{
  TypedValue, Payload, bool_payload, string_payload, numeric_payload, bool_number, bool_text,
  bool_value, string_value, is_infinite, typed_numeric_kind,
}
use protocyte.Expression.Operate.{as_int}
use protocyte.Expression.Functions.{with_point, function_numeric_result}

-- The constants named CONSTANT_KIND
pub data ConstantKind : Type 0 where
  bool_kind string_kind : ConstantKind
  number_kind : NumericKind → ConstantKind

-- _SCALAR_CAST_KINDS
abbrev pub cast_table : List (Bytes × ConstantKind)
cast_table =
    (codes "bool", bool_kind)
    ∷ (codes "i32", number_kind (integral int32))
    ∷ (codes "u32", number_kind (integral uint32))
    ∷ (codes "i64", number_kind (integral int64))
    ∷ (codes "u64", number_kind (integral uint64))
    ∷ (codes "f32", number_kind float32)
    ∷ (codes "f64", number_kind float64)
    ∷ (codes "str", string_kind)
    ∷ []

abbrev pub lookup_name : {A : Type 0} → Bytes → List (Bytes × A) → Option A
lookup_name name [] = none
lookup_name name ((key, value) ∷ table) = elim (text_eq name key) [
  | true ↦ some value
  | false ↦ lookup_name name table
]

unfoldable pub scalar_cast_kind : Bytes → Option ConstantKind
scalar_cast_kind name = lookup_name name cast_table

-- Not a surrogate: `value.encode("utf-8")` raises UnicodeEncodeError at these alone.
abbrev pub is_encodable : ℕ → Bool
is_encodable c = ltb c 55296 || leb 57344 c

unfoldable pub validate_utf8_string : Bytes → Result EvaluationError Bytes
validate_utf8_string value = raise_if (not (all is_encodable value)) invalid_string >> ok value

module _ {F : Type 0} (floats : Floats F) where
  -- str(value) of a number in its kind
  abbrev pub kind_text : NumericKind → Number F → Bytes
  kind_text (integral kind) value = int_text (as_int floats value)
  kind_text float32 value = with_point (floats.format_g 9 (as_float floats value))
  kind_text float64 value = with_point (floats.format_g 17 (as_float floats value))

  unfoldable pub cast_string_value : TypedValue F → Result EvaluationError Bytes
  unfolding typed_numeric_kind convert_numeric_value
  cast_string_value value = elim value.payload [
    | string_payload text ↦ ok text
    | bool_payload b ↦ ok (bool_text b)
    | numeric_payload numeric_kind number ↦ typed_numeric_kind value >>= λ kind.
        convert_numeric_value floats number kind kind >>= λ numeric. ok (kind_text kind numeric)
  ]

  -- The branch of `_evaluate_scalar_cast` for "bool"
  unfoldable pub cast_to_bool : TypedValue F → Result EvaluationError (TypedValue F)
  unfolding typed_numeric_kind convert_numeric_value bool_value
  cast_to_bool value = elim value.payload [
    | string_payload text ↦ err wrong_arguments
    | bool_payload b ↦ ok (bool_value b (bool_text b) 120)
    | numeric_payload numeric_kind number ↦ typed_numeric_kind value >>= λ kind.
        convert_numeric_value floats number kind kind >>= λ normalized. ok (
          bool_value (not (number_is_zero floats normalized))
            (bool_text (not (number_is_zero floats normalized))) 120)
  ]

  -- The operand of a cast to a number, with its kind
  abbrev pub cast_operand : TypedValue F → Result EvaluationError (Number F × NumericKind)
  cast_operand value = elim value.payload [
    | string_payload text ↦ err wrong_arguments
    | bool_payload b ↦ ok (bool_number b, integral int32)
    | numeric_payload numeric_kind number ↦ typed_numeric_kind value >>= λ kind. ok (number, kind)
  ]

  -- An integer of a kind: floats are truncated and checked, integers keep their low bits.
  abbrev pub cast_to_integer :
      Number F → NumericKind → IntegerKind → Result EvaluationError (Number F)
  cast_to_integer normalized (integral source_kind) kind =
      ok (whole (integer_from_bits (low_bits (as_int floats normalized) (bits_of kind)) kind))
  cast_to_integer normalized float32 kind =
      let result = floats.float_trunc (as_float floats normalized) in
      raise_if (out_of_kind result kind) cast_out_of_range >> ok (whole result)
  cast_to_integer normalized float64 kind =
      let result = floats.float_trunc (as_float floats normalized) in
      raise_if (out_of_kind result kind) cast_out_of_range >> ok (whole result)

  abbrev pub cast_number : NumericKind → Number F → NumericKind → Result EvaluationError (Number F)
  cast_number float32 normalized source_kind =
      round_f32 floats normalized >>= λ rounded. ok (real rounded)
  cast_number float64 normalized source_kind = ok (real (as_float floats normalized))
  cast_number (integral kind) normalized source_kind = cast_to_integer normalized source_kind kind

  -- The branches of `_evaluate_scalar_cast` for numbers
  unfoldable pub cast_to_number : NumericKind → TypedValue F → Result EvaluationError (TypedValue F)
  unfolding typed_numeric_kind convert_numeric_value round_f32 integer_from_bits
      function_numeric_result
  cast_to_number target value = cast_operand value >>= λ (number, source_kind).
      convert_numeric_value floats number source_kind source_kind >>= λ normalized.
      cast_number target normalized source_kind >>= λ result.
      function_numeric_result floats result target

  unfoldable pub cast_value : ConstantKind → TypedValue F → Result EvaluationError (TypedValue F)
  unfolding cast_string_value cast_to_bool cast_to_number string_value
  cast_value string_kind value = cast_string_value value >>= λ text. ok (string_value text none 120)
  cast_value bool_kind value = cast_to_bool value
  cast_value (number_kind target) value = cast_to_number target value

  unfoldable pub evaluate_scalar_cast :
      ConstantKind → List (TypedValue F) → Result EvaluationError (TypedValue F)
  unfolding cast_value
  evaluate_scalar_cast target [] = err wrong_arguments
  evaluate_scalar_cast target (value ∷ []) = cast_value target value
  evaluate_scalar_cast target (value ∷ next ∷ args) = err wrong_arguments

  unfoldable pub coerce_integer : IntegerKind → ℤ → Result EvaluationError ℤ
  coerce_integer kind value = raise_if (out_of_kind value kind) not_coercible >> ok value

  -- The integer that `_coerce_expression_value` checks: a float is truncated
  abbrev pub coerced_integer : Number F → NumericKind → Result EvaluationError ℤ
  coerced_integer (real x) source_kind = ok (floats.float_trunc x)
  coerced_integer (whole n) source_kind =
      convert_numeric_value floats (whole n) source_kind source_kind >>= λ value.
      ok (as_int floats value)

  abbrev pub coerce_number :
      NumericKind → Number F → NumericKind → Result EvaluationError (Number F)
  coerce_number float32 number source_kind =
      convert_numeric_value floats number source_kind float32 >>= λ out.
      raise_if (is_infinite floats out) not_finite >> ok out
  coerce_number float64 number source_kind =
      convert_numeric_value floats number source_kind float64 >>= λ out.
      raise_if (is_infinite floats out) not_finite >> ok out
  coerce_number (integral kind) number source_kind =
      coerced_integer number source_kind >>= λ integer.
      coerce_integer kind integer >>= λ value. ok (whole value)

  -- A Boolean of a number: integers only
  abbrev pub coerce_bool : TypedValue F → Number F → Result EvaluationError Bool
  coerce_bool value (real x) = err not_coercible
  coerce_bool value (whole n) = typed_numeric_kind value >>= λ kind.
      convert_numeric_value floats (whole n) kind kind >>= λ normalized.
      ok (not (number_is_zero floats normalized))

  -- The result is the value without its C++.
  unfoldable pub coerce_expression_value :
      ConstantKind → TypedValue F → Result EvaluationError (Payload F)
  unfolding validate_utf8_string typed_numeric_kind convert_numeric_value coerce_integer
  coerce_expression_value string_kind value = elim value.payload [
    | string_payload text ↦ validate_utf8_string text >>= λ valid. ok (string_payload valid)
    | bool_payload b ↦ err not_coercible
    | numeric_payload kind number ↦ err not_coercible
  ]
  coerce_expression_value bool_kind value = elim value.payload [
    | string_payload text ↦ err not_coercible
    | bool_payload b ↦ ok (bool_payload b)
    | numeric_payload kind number ↦ coerce_bool value number >>= λ b. ok (bool_payload b)
  ]
  coerce_expression_value (number_kind target) value = elim value.payload [
    | string_payload text ↦ err not_coercible
    | bool_payload b ↦ err not_coercible
    | numeric_payload kind number ↦ typed_numeric_kind value >>= λ source_kind.
        coerce_number target number source_kind >>= λ out. ok (numeric_payload (some target) out)
  ]
