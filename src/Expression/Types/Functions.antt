-- ===== src/Expression/Types/Functions.antt =====
-- The types of the results of the functions and the casts: the methods of `_ExprParser` of
-- src/protocyte/model.py for calls.
use protocyte.Common.{
  ℕ, pos, Bool, true, false, ◌≡◌, refl, subst, none, some, List, [], ◌∷◌, map, ok, Bytes, length,
}
use protocyte.Model.Integer.{uint32}
use protocyte.Expression.Number.{
  Floats, Number, whole, NumericKind, integral, float64, convert_numeric_value,
}
use protocyte.Expression.Value.{
  TypedValue, Payload, bool_payload, string_payload, numeric_payload, bool_value, string_value,
  zero_of, typed_numeric_kind,
}
use protocyte.Expression.Functions.{
  function_numeric_argument, cpp_constant_number, finite_in, function_numeric_result,
  real_result_kind, convert_all, choose, kind_of_arguments, chosen_of, evaluate_min_max,
}
use protocyte.Expression.Casts.{
  ConstantKind, bool_kind, string_kind, number_kind, cast_string_value, cast_to_bool, cast_operand,
  cast_number, cast_to_number, cast_value, evaluate_scalar_cast,
}
use protocyte.Expression.Call.{
  FunctionName, len_function, substr_function, starts_with_function, pow_function, abs_function,
  min_function, max_function, real_function, rounding_function, string_argument, len_of,
  evaluate_len, coerce_uint32, substr_of, evaluate_substr, starts_with_of, evaluate_starts_with,
  typed_zero, min_max_type, pow_type, function_type,
}
use protocyte.Expression.Types.{
  ValueType, bool_type, string_type, number_type, type_of, Typed, constant_type, real_kind,
  common_kind, function_result,
}
use protocyte.Expression.Types.Values.{Typed-bind, numeric_value-Typed}
use protocyte.Expression.Types.Arguments.{result_kind_real, of_single, of_several}

module _ {F : Type 0} (floats : Floats F) where
  pub function_result-Typed :
      (value : Number F) (kind : NumericKind)
      → Typed (number_type kind) (function_numeric_result floats value kind)
  unfolding function_numeric_result
  function_result-Typed value kind =
      Typed-bind (number_type kind) (finite_in floats kind value) _ (λ result same.
        numeric_value-Typed floats result (some (cpp_constant_number floats kind result)) 120 kind)

  zero-Typed : (kind : NumericKind) → Typed (number_type kind) (typed_zero floats kind)
  zero-Typed kind = numeric_value-Typed floats (zero_of floats kind) none 120 kind

  real_zero :
      (kind : NumericKind)
      → Typed (number_type (real_kind kind)) (typed_zero floats (real_result_kind floats kind))
  real_zero kind =
      subst (λ k. Typed (number_type k) (typed_zero floats (real_result_kind floats kind)))
        (result_kind_real floats kind) (zero-Typed (real_result_kind floats kind))

  pub min_max-Typed :
      (smaller : Bool) (args : List (TypedValue F)) (types : List ValueType)
      → map type_of args ≡ map some types
      → Typed (number_type (common_kind types)) (evaluate_min_max floats smaller args)
  unfolding evaluate_min_max
  min_max-Typed smaller [] types typed = tt
  min_max-Typed smaller (only ∷ []) types typed = tt
  min_max-Typed smaller (first ∷ second ∷ args) types typed =
      of_several floats (first ∷ second ∷ args) types _ typed (λ values.
        Typed-bind (number_type (kind_of_arguments floats values))
          (convert_all floats (kind_of_arguments floats values) values) _
          (λ converted same. chosen converted (kind_of_arguments floats values)))
    where
      chosen :
          (converted : List (Number F)) (kind : NumericKind)
          → Typed (number_type kind) (chosen_of floats smaller kind converted)
      chosen [] kind = tt
      chosen (candidate ∷ candidates) kind =
          function_result-Typed (choose floats smaller candidate candidates) kind

  min_max_type-Typed :
      (args : List (TypedValue F)) (types : List ValueType)
      → map type_of args ≡ map some types
      → Typed (number_type (common_kind types)) (min_max_type floats args)
  min_max_type-Typed [] types typed = tt
  min_max_type-Typed (only ∷ []) types typed = tt
  min_max_type-Typed (first ∷ second ∷ args) types typed =
      of_several floats (first ∷ second ∷ args) types _ typed
        (λ values. zero-Typed (kind_of_arguments floats values))

  pub len-Typed :
      (evaluate : Bool) (args : List (TypedValue F))
      → Typed (number_type (integral uint32)) (evaluate_len floats evaluate args)
  unfolding evaluate_len
  len-Typed evaluate [] = tt
  len-Typed evaluate (arg ∷ next ∷ args) = tt
  len-Typed evaluate (arg ∷ []) =
      Typed-bind (number_type (integral uint32)) (string_argument floats arg) _
        (λ text same. sized evaluate text)
    where
      sized :
          (evaluate : Bool) (text : Bytes)
          → Typed (number_type (integral uint32)) (len_of floats evaluate text)
      sized false text = numeric_value-Typed floats (whole (pos 0)) none 120 (integral uint32)
      sized true text =
          numeric_value-Typed floats (whole (pos (length text)))
            (some (cpp_constant_number floats (integral uint32) (whole (pos (length text))))) 120
            (integral uint32)

  pub substr-Typed :
      (evaluate : Bool) (args : List (TypedValue F))
      → Typed string_type (evaluate_substr floats evaluate args)
  unfolding evaluate_substr string_value
  substr-Typed evaluate [] = tt
  substr-Typed evaluate (a ∷ []) = tt
  substr-Typed evaluate (a ∷ b ∷ []) = tt
  substr-Typed evaluate (a ∷ b ∷ c ∷ d ∷ args) = tt
  substr-Typed evaluate (a ∷ b ∷ c ∷ []) =
      Typed-bind string_type (string_argument floats a) _ (λ text same.
        Typed-bind string_type (coerce_uint32 floats b) _ (λ start start_same.
          Typed-bind string_type (coerce_uint32 floats c) _
            (λ count count_same. taken evaluate text start count)))
    where
      taken :
          (evaluate : Bool) (text : Bytes) (start count : ℕ)
          → Typed string_type (ok (substr_of floats evaluate a b c text start count))
      taken false text start count = refl
      taken true text start count = refl

  pub starts_with-Typed :
      (evaluate : Bool) (args : List (TypedValue F))
      → Typed bool_type (evaluate_starts_with floats evaluate args)
  unfolding evaluate_starts_with bool_value
  starts_with-Typed evaluate [] = tt
  starts_with-Typed evaluate (a ∷ []) = tt
  starts_with-Typed evaluate (a ∷ b ∷ c ∷ args) = tt
  starts_with-Typed evaluate (a ∷ b ∷ []) =
      Typed-bind bool_type (string_argument floats a) _ (λ text same.
        Typed-bind bool_type (string_argument floats b) _
          (λ start start_same. tested evaluate text start))
    where
      tested :
          (evaluate : Bool) (text start : Bytes)
          → Typed bool_type (ok (starts_with_of floats evaluate a b text start))
      tested false text start = refl
      tested true text start = refl

  pow_type-Typed : (args : List (TypedValue F)) → Typed (number_type float64) (pow_type floats args)
  pow_type-Typed [] = tt
  pow_type-Typed (a ∷ []) = tt
  pow_type-Typed (a ∷ b ∷ c ∷ args) = tt
  pow_type-Typed (a ∷ b ∷ []) =
      Typed-bind (number_type float64) (function_numeric_argument a) _ (λ base same.
        Typed-bind (number_type float64) (function_numeric_argument b) _
          (λ power power_same. zero-Typed float64))

  pub function_type-Typed :
      (function : FunctionName) (args : List (TypedValue F)) (types : List ValueType)
      → map type_of args ≡ map some types
      → Typed (function_result function types) (function_type floats function args)
  unfolding function_type
  function_type-Typed len_function args types typed = len-Typed false args
  function_type-Typed substr_function args types typed = substr-Typed false args
  function_type-Typed starts_with_function args types typed = starts_with-Typed false args
  function_type-Typed pow_function args types typed = pow_type-Typed args
  function_type-Typed abs_function args types typed =
      of_single floats args types (λ k. k) _ typed (λ n kind. zero-Typed kind)
  function_type-Typed min_function args types typed = min_max_type-Typed args types typed
  function_type-Typed max_function args types typed = min_max_type-Typed args types typed
  function_type-Typed real_function args types typed =
      of_single floats args types real_kind _ typed (λ n kind. real_zero kind)
  function_type-Typed rounding_function args types typed =
      of_single floats args types real_kind _ typed (λ n kind. real_zero kind)

  cast_to_bool-Typed :
      (payload : Payload F) (cpp_expr : Bytes) (precedence : ℕ)
      → Typed bool_type (
          cast_to_bool floats
            (record { payload = payload; cpp_expr = cpp_expr; cpp_precedence = precedence }))
  unfolding cast_to_bool bool_value
  cast_to_bool-Typed (bool_payload b) cpp_expr precedence = refl
  cast_to_bool-Typed (string_payload text) cpp_expr precedence = tt
  cast_to_bool-Typed (numeric_payload k n) cpp_expr precedence =
      Typed-bind bool_type
        (typed_numeric_kind (record {
          payload = numeric_payload k n;
          cpp_expr = cpp_expr;
          cpp_precedence = precedence;
        }))
        _
        (λ kind same.
          Typed-bind bool_type (convert_numeric_value floats n kind kind) _
            (λ normalized converted. refl))

  pub cast-Typed :
      (target : ConstantKind) (args : List (TypedValue F))
      → Typed (constant_type target) (evaluate_scalar_cast floats target args)
  unfolding evaluate_scalar_cast cast_value cast_to_number string_value
  cast-Typed target [] = tt
  cast-Typed target (a ∷ b ∷ args) = tt
  cast-Typed bool_kind (a ∷ []) = cast_to_bool-Typed a.payload a.cpp_expr a.cpp_precedence
  cast-Typed string_kind (a ∷ []) =
      Typed-bind string_type (cast_string_value floats a) _ (λ text same. refl)
  cast-Typed (number_kind target) (a ∷ []) =
      Typed-bind (number_type target) (cast_operand floats a) _ (λ operand found.
        Typed-bind (number_type target) (convert_numeric_value floats operand.0 operand.1 operand.1)
          _
          (λ normalized same.
            Typed-bind (number_type target) (cast_number floats target normalized operand.1) _
              (λ result cast. function_result-Typed result target)))
