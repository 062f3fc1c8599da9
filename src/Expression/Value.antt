-- ===== src/Expression/Value.antt =====
-- `_TypedValue` of src/protocyte/model.py, the values that an expression has, and how the operators
-- read them.
use protocyte.Common.{
  ℕ, ◌+◌, ℤ, pos, Bool, true, false, not, Option, none, some, [], ◌∷◌, ◌++◌, Result, ok, err, ◌>>=◌,
  ◌>>◌, raise_if, ltb, ◌==◌, if◌then◌else◌, Bytes, codes, is_empty,
}
use protocyte.Model.Integer.{IntegerKind, int32, literal_integer_kind}
use protocyte.Expression.Number.{
  Floats, Number, whole, real, NumericKind, integral, float32, float64, EvaluationError, not_finite,
  expected_bool, expected_numeric, outside_supported_range, expected_integral,
  integral_out_of_range, number_text, number_is_zero, round_f32, convert_numeric_value,
  common_numeric_kind,
}

-- `family`, `value` and `numeric_kind`: what the family is decides which values there are.
pub data Payload (F : Type 0) : Type 0 where
  bool_payload : Bool → Payload F
  string_payload : Bytes → Payload F
  numeric_payload : Option NumericKind → Number F → Payload F

pub record TypedValue (F : Type 0) : Type 0 where
  pub payload : Payload F
  pub cpp_expr : Bytes
  pub cpp_precedence : ℕ

-- text.replace(chr(c), replacement)
abbrev pub replace_char : ℕ → Bytes → Bytes → Bytes
replace_char c replacement [] = []
replace_char c replacement (d ∷ text) =
    (if d == c then replacement else d ∷ []) ++ replace_char c replacement text

unfoldable pub cpp_escape_string : Bytes → Bytes
cpp_escape_string value =
    replace_char b'"' (b'\\' ∷ b'"' ∷ []) (replace_char b'\\' (b'\\' ∷ b'\\' ∷ []) value)

abbrev pub bool_text : Bool → Bytes
bool_text true = codes "true"
bool_text false = codes "false"

-- `string_expr` is `cpp_expr` of `_string_value`.
abbrev pub string_expr : Bytes → Option Bytes → Bytes
string_expr value none = b'"' ∷ cpp_escape_string value ++ b'"' ∷ []
string_expr value (some cpp_expr) = cpp_expr

-- _INTEGER_EXPRESSION_KINDS, of the kind of a literal
abbrev pub integral_kind : Option IntegerKind → Option NumericKind
integral_kind none = none
integral_kind (some kind) = some (integral kind)

-- An integer with its kind, of `_expect_integral`
abbrev pub integral_of : ℤ → Option IntegerKind → Result EvaluationError (ℤ × IntegerKind)
integral_of n none = err integral_out_of_range
integral_of n (some kind) = ok (n, kind)

module _ {F : Type 0} where
  unfoldable pub wrap_cpp : TypedValue F → ℕ → Bytes
  wrap_cpp value precedence =
      if is_empty value.cpp_expr
      then []
      else if ltb value.cpp_precedence precedence
      then b'(' ∷ value.cpp_expr ++ b')' ∷ []
      else value.cpp_expr

  unfoldable pub binary_cpp : TypedValue F → TypedValue F → Bytes → ℕ → Bytes
  unfolding wrap_cpp
  binary_cpp lhs rhs symbol precedence =
      wrap_cpp lhs precedence ++ b' ' ∷ symbol ++ b' ' ∷ wrap_cpp rhs (precedence + 1)

  -- An empty `cpp_expr` stands for None here: the source tests it by `or`.
  unfoldable pub bool_value : Bool → Bytes → ℕ → TypedValue F
  bool_value value cpp_expr precedence = record {
    payload = bool_payload value;
    cpp_expr = if is_empty cpp_expr then bool_text value else cpp_expr;
    cpp_precedence = precedence;
  }

  unfoldable pub string_value : Bytes → Option Bytes → ℕ → TypedValue F
  unfolding cpp_escape_string
  string_value value cpp_expr precedence = record {
    payload = string_payload value;
    cpp_expr = string_expr value cpp_expr;
    cpp_precedence = precedence;
  }

  -- The kind that `_numeric_value` gives a value that comes without one
  abbrev pub kind_or_inferred : Option NumericKind → Number F → Option NumericKind
  kind_or_inferred (some kind) value = some kind
  kind_or_inferred none (real x) = some float64
  kind_or_inferred none (whole n) = integral_kind (literal_integer_kind n false)

  unfoldable pub typed_numeric_kind : TypedValue F → Result EvaluationError NumericKind
  typed_numeric_kind value = elim value.payload [
    | bool_payload b ↦ ok (integral int32)
    | string_payload text ↦ err expected_numeric
    | numeric_payload (some kind) number ↦ ok kind
    | numeric_payload none (real x) ↦ err outside_supported_range
    | numeric_payload none (whole n) ↦ elim (literal_integer_kind n false) [
      | some kind ↦ ok (integral kind)
      | none ↦ err outside_supported_range
    ]
  ]

  abbrev pub bool_number : Bool → Number F
  bool_number true = whole (pos 1)
  bool_number false = whole (pos 0)

  unfoldable pub expect_numeric : TypedValue F → Result EvaluationError (Number F)
  expect_numeric value = elim value.payload [
    | bool_payload b ↦ ok (bool_number b)
    | string_payload text ↦ err expected_numeric
    | numeric_payload kind number ↦ ok number
  ]

  -- An integer never has a kind of floats; the callers' table of kinds would not have it.
  unfoldable pub expect_integral : TypedValue F → Result EvaluationError (ℤ × IntegerKind)
  expect_integral value = elim value.payload [
    | bool_payload true ↦ ok (pos 1, int32)
    | bool_payload false ↦ ok (pos 0, int32)
    | string_payload text ↦ err expected_integral
    | numeric_payload kind (real x) ↦ err expected_integral
    | numeric_payload (some (integral kind)) (whole n) ↦ ok (n, kind)
    | numeric_payload (some float32) (whole n) ↦ err expected_integral
    | numeric_payload (some float64) (whole n) ↦ err expected_integral
    | numeric_payload none (whole n) ↦ integral_of n (literal_integer_kind n false)
  ]

module _ {F : Type 0} (floats : Floats F) where
  -- numeric_kind == CONSTANT_KIND_FLOAT
  abbrev pub rounded_to_kind : Option NumericKind → Number F → Result EvaluationError (Number F)
  rounded_to_kind (some float32) value = round_f32 floats value >>= λ rounded. ok (real rounded)
  rounded_to_kind (some float64) value = ok value
  rounded_to_kind (some (integral kind)) value = ok value
  rounded_to_kind none value = ok value

  -- isinstance(value, float) and not math.isfinite(value)
  abbrev pub is_infinite : Number F → Bool
  is_infinite (whole n) = false
  is_infinite (real x) = not (floats.float_is_finite x)

  abbrev pub numeric_expr : Number F → Option Bytes → Bytes
  numeric_expr value none = number_text floats value
  numeric_expr value (some cpp_expr) = cpp_expr

  unfoldable pub numeric_value :
      Number F → Option Bytes → ℕ → Option NumericKind → Result EvaluationError (TypedValue F)
  unfolding round_f32
  numeric_value value cpp_expr precedence numeric_kind =
      let kind = kind_or_inferred numeric_kind value in
      rounded_to_kind kind value >>= λ rounded.
      raise_if (is_infinite rounded) not_finite
      >> ok (record {
        payload = numeric_payload kind rounded;
        cpp_expr = numeric_expr rounded cpp_expr;
        cpp_precedence = precedence;
      })

  -- 0.0 for the kinds of floats, else 0
  abbrev pub zero_of : NumericKind → Number F
  zero_of (integral kind) = whole (pos 0)
  zero_of float32 = real (floats.of_int (pos 0))
  zero_of float64 = real (floats.of_int (pos 0))

  abbrev pub placeholder : Option NumericKind → Number F → Number F
  placeholder none number = number
  placeholder (some kind) number = zero_of kind

  unfoldable pub type_only_value : TypedValue F → Result EvaluationError (TypedValue F)
  unfolding bool_value string_value numeric_value
  type_only_value value = elim value.payload [
    | bool_payload b ↦ ok (bool_value false value.cpp_expr 120)
    | string_payload text ↦ ok (string_value [] (some value.cpp_expr) 120)
    | numeric_payload kind number ↦
        numeric_value (placeholder kind number) (some value.cpp_expr) value.cpp_precedence kind
  ]

  unfoldable pub expect_bool : TypedValue F → Result EvaluationError Bool
  unfolding typed_numeric_kind convert_numeric_value
  expect_bool value = elim value.payload [
    | bool_payload b ↦ ok b
    | string_payload text ↦ err expected_bool
    | numeric_payload kind number ↦ typed_numeric_kind value >>= λ known.
        convert_numeric_value floats number known known >>= λ normalized.
        ok (not (number_is_zero floats normalized))
  ]

  -- `_numeric_operands`, which calls `_common_value_numeric_kind`
  unfoldable pub numeric_operands :
      TypedValue F → TypedValue F → Result EvaluationError (Number F × Number F × NumericKind)
  unfolding expect_numeric typed_numeric_kind common_numeric_kind convert_numeric_value
  numeric_operands lhs rhs = expect_numeric lhs >>= λ left. expect_numeric rhs >>= λ right.
      typed_numeric_kind lhs >>= λ lhs_kind. typed_numeric_kind rhs >>= λ rhs_kind.
      let result_kind = common_numeric_kind lhs_kind rhs_kind in
      convert_numeric_value floats left lhs_kind result_kind >>= λ left_value.
      convert_numeric_value floats right rhs_kind result_kind >>= λ right_value.
      ok (left_value, right_value, result_kind)
