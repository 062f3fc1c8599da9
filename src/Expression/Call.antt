-- ===== src/Expression/Call.antt =====
-- `_evaluate_function` and `_evaluate_function_type` of src/protocyte/model.py.
use protocyte.Common.{
  ℕ, pos, Bool, true, false, none, some, List, [], ◌∷◌, ◌++◌, Result, ok, err, ◌>>=◌, length, take,
  drop, Bytes, codes, starts_with,
}
use protocyte.Model.Integer.{uint32, abs}
use protocyte.Expression.Number.{
  Floats, Number, whole, NumericKind, integral, float64, EvaluationError, wrong_arguments,
  unsupported_function,
}
use protocyte.Expression.Value.{
  TypedValue, Payload, bool_payload, string_payload, numeric_payload, wrap_cpp, bool_value,
  string_value, numeric_value, zero_of, type_only_value,
}
use protocyte.Expression.Operate.{as_int}
use protocyte.Expression.Functions.{
  Mathematics, function_numeric_argument, cpp_constant_number, real_result_kind,
  evaluate_real_function, evaluate_rounding_function, evaluate_pow, evaluate_abs, numeric_arguments,
  kind_of_arguments, evaluate_min_max,
}
use protocyte.Expression.Casts.{
  number_kind, scalar_cast_kind, lookup_name, coerce_expression_value, evaluate_scalar_cast,
}

-- What a name is tested against
pub data FunctionName : Type 0 where
  len_function substr_function starts_with_function pow_function abs_function : FunctionName
  min_function max_function real_function rounding_function : FunctionName

abbrev pub function_table : List (Bytes × FunctionName)
function_table =
    (codes "len", len_function)
    ∷ (codes "substr", substr_function)
    ∷ (codes "starts_with", starts_with_function)
    ∷ (codes "pow", pow_function)
    ∷ (codes "abs", abs_function)
    ∷ (codes "min", min_function)
    ∷ (codes "max", max_function)
    ∷ (codes "sqrt", real_function)
    ∷ (codes "exp", real_function)
    ∷ (codes "log", real_function)
    ∷ (codes "log2", real_function)
    ∷ (codes "log10", real_function)
    ∷ (codes "ceil", rounding_function)
    ∷ (codes "floor", rounding_function)
    ∷ (codes "trunc", rounding_function)
    ∷ (codes "round", rounding_function)
    ∷ []

module _ {F : Type 0} (floats : Floats F) where
  -- str(value.value) of a string argument
  abbrev pub string_argument : TypedValue F → Result EvaluationError Bytes
  string_argument value = elim value.payload [
    | string_payload text ↦ ok text
    | bool_payload b ↦ err wrong_arguments
    | numeric_payload kind number ↦ err wrong_arguments
  ]

  -- The integer of `_coerce_expression_value` for CONSTANT_KIND_UINT32
  abbrev pub natural_of : Payload F → ℕ
  natural_of (numeric_payload kind number) = abs (as_int floats number)
  natural_of (bool_payload b) = 0
  natural_of (string_payload text) = 0

  abbrev pub coerce_uint32 : TypedValue F → Result EvaluationError ℕ
  coerce_uint32 value =
      coerce_expression_value floats (number_kind (integral uint32)) value >>= λ payload.
      ok (natural_of payload)

  abbrev pub len_of : Bool → Bytes → Result EvaluationError (TypedValue F)
  len_of false text = numeric_value floats (whole (pos 0)) none 120 (some (integral uint32))
  len_of true text =
      let size = whole (pos (length text)) in
      numeric_value floats size (some (cpp_constant_number floats (integral uint32) size)) 120
        (some (integral uint32))

  -- The branch for "len" with `evaluate`
  unfoldable pub evaluate_len : Bool → List (TypedValue F) → Result EvaluationError (TypedValue F)
  unfolding numeric_value cpp_constant_number
  evaluate_len evaluate (arg ∷ []) = string_argument arg >>= λ text. len_of evaluate text
  evaluate_len evaluate _ = err wrong_arguments

  abbrev pub method_expr : TypedValue F → Bytes → Bytes → Bytes
  method_expr value method arguments = wrap_cpp value 100 ++ method ++ arguments ++ codes ")"

  abbrev pub substr_of :
      Bool → TypedValue F → TypedValue F → TypedValue F → Bytes → ℕ → ℕ → TypedValue F
  substr_of false arg first second text start count = string_value [] none 120
  substr_of true arg first second text start count =
      string_value (take count (drop start text))
        (some (
          method_expr arg (codes ".substr(") (wrap_cpp first 0 ++ codes ", " ++ wrap_cpp second 0)))
        120

  unfoldable pub evaluate_substr :
      Bool → List (TypedValue F) → Result EvaluationError (TypedValue F)
  unfolding coerce_expression_value string_value wrap_cpp
  evaluate_substr evaluate (arg ∷ first ∷ second ∷ []) = string_argument arg >>= λ text.
      coerce_uint32 first >>= λ start.
      coerce_uint32 second >>= λ count. ok (substr_of evaluate arg first second text start count)
  evaluate_substr evaluate _ = err wrong_arguments

  abbrev pub starts_with_of : Bool → TypedValue F → TypedValue F → Bytes → Bytes → TypedValue F
  starts_with_of false arg prefix text start = bool_value false [] 120
  starts_with_of true arg prefix text start =
      bool_value (starts_with start text)
        (method_expr arg (codes ".starts_with(") (wrap_cpp prefix 0)) 120

  unfoldable pub evaluate_starts_with :
      Bool → List (TypedValue F) → Result EvaluationError (TypedValue F)
  unfolding bool_value wrap_cpp starts_with
  evaluate_starts_with evaluate (arg ∷ prefix ∷ []) = string_argument arg >>= λ text.
      string_argument prefix >>= λ start. ok (starts_with_of evaluate arg prefix text start)
  evaluate_starts_with evaluate _ = err wrong_arguments

  -- The argument of "sqrt" to "round"
  abbrev pub single_argument : List (TypedValue F) → Result EvaluationError (Number F × NumericKind)
  single_argument (arg ∷ []) = function_numeric_argument arg
  single_argument _ = err wrong_arguments

  abbrev pub typed_zero : NumericKind → Result EvaluationError (TypedValue F)
  typed_zero kind = numeric_value floats (zero_of floats kind) none 120 (some kind)

  -- At least two numbers, of "min" and "max"
  abbrev pub min_max_type : List (TypedValue F) → Result EvaluationError (TypedValue F)
  min_max_type (first ∷ second ∷ args) =
      numeric_arguments floats (first ∷ second ∷ args) >>= λ values.
      typed_zero (kind_of_arguments floats values)
  min_max_type _ = err wrong_arguments

  abbrev pub pow_type : List (TypedValue F) → Result EvaluationError (TypedValue F)
  pow_type (base ∷ exponent ∷ []) = function_numeric_argument base >>= λ first.
      function_numeric_argument exponent >>= λ second. typed_zero float64
  pow_type _ = err wrong_arguments

  -- The rows of `_evaluate_function_type` behind the casts
  unfoldable pub function_type :
      FunctionName → List (TypedValue F) → Result EvaluationError (TypedValue F)
  unfolding evaluate_len evaluate_substr evaluate_starts_with function_numeric_argument
      numeric_value
  function_type len_function args = evaluate_len false args
  function_type substr_function args = evaluate_substr false args
  function_type starts_with_function args = evaluate_starts_with false args
  function_type pow_function args = pow_type args
  function_type abs_function args = single_argument args >>= λ (value, kind). typed_zero kind
  function_type min_function args = min_max_type args
  function_type max_function args = min_max_type args
  function_type real_function args =
      single_argument args >>= λ (value, kind). typed_zero (real_result_kind floats kind)
  function_type rounding_function args =
      single_argument args >>= λ (value, kind). typed_zero (real_result_kind floats kind)

  unfoldable pub evaluate_function_type :
      Bytes → List (TypedValue F) → Result EvaluationError (TypedValue F)
  unfolding scalar_cast_kind evaluate_scalar_cast type_only_value function_type
  evaluate_function_type name args = elim (scalar_cast_kind name) [
    | some kind ↦ evaluate_scalar_cast floats kind args >>= λ value. type_only_value floats value
    | none ↦ elim (lookup_name name function_table) [
      | some function ↦ function_type function args
      | none ↦ err unsupported_function
    ]
  ]

module _ {F : Type 0} (floats : Floats F) (mathematics : Mathematics F) where
  -- The rows of `_evaluate_function` behind the casts
  unfoldable pub function_value :
      Bytes → FunctionName → List (TypedValue F) → Result EvaluationError (TypedValue F)
  unfolding evaluate_len evaluate_substr evaluate_starts_with function_numeric_argument evaluate_pow
      evaluate_abs evaluate_min_max evaluate_real_function evaluate_rounding_function
  function_value name len_function args = evaluate_len floats true args
  function_value name substr_function args = evaluate_substr floats true args
  function_value name starts_with_function args = evaluate_starts_with floats true args
  function_value name pow_function args = evaluate_pow floats mathematics args
  function_value name abs_function args = evaluate_abs floats args
  function_value name min_function args = evaluate_min_max floats true args
  function_value name max_function args = evaluate_min_max floats false args
  function_value name real_function args = single_argument floats args >>= λ (value, kind).
      evaluate_real_function floats mathematics name value kind
  function_value name rounding_function args = single_argument floats args >>= λ (value, kind).
      evaluate_rounding_function floats name value kind

  unfoldable pub evaluate_function :
      Bool → Bytes → List (TypedValue F) → Result EvaluationError (TypedValue F)
  unfolding evaluate_function_type scalar_cast_kind evaluate_scalar_cast function_value
  evaluate_function false name args = evaluate_function_type floats name args
  evaluate_function true name args = elim (scalar_cast_kind name) [
    | some kind ↦ evaluate_scalar_cast floats kind args
    | none ↦ elim (lookup_name name function_table) [
      | some function ↦ function_value name function args
      | none ↦ err unsupported_function
    ]
  ]
