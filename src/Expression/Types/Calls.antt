-- ===== src/Expression/Types/Calls.antt =====
-- The types of calls: `_evaluate_function` of src/protocyte/model.py, evaluated or not.
use protocyte.Common.{
  ℕ, Bool, true, false, ◌≡◌, subst, none, some, List, [], ◌∷◌, map, Result, ok, some_injective,
  Bytes, Option-cases, inl, inr,
}
use protocyte.Expression.Number.{
  Floats, Number, real, NumericKind, float64, EvaluationError, convert_numeric_value, as_float,
  abs_out_of_range,
}
use protocyte.Expression.Value.{
  TypedValue, Payload, bool_payload, string_payload, numeric_payload, bool_value, string_value,
  numeric_value, type_only_value, placeholder,
}
use protocyte.Expression.Functions.{
  Mathematics, of_math, function_numeric_argument, real_result_kind, width_of,
  evaluate_real_function, signed_zero, rounded_by, evaluate_rounding_function, evaluate_pow,
  number_abs, abs_overflows, evaluate_abs,
}
use protocyte.Expression.Casts.{scalar_cast_kind, lookup_name, evaluate_scalar_cast}
use protocyte.Expression.Call.{
  FunctionName, len_function, substr_function, starts_with_function, pow_function, abs_function,
  min_function, max_function, real_function, rounding_function, function_table,
  evaluate_function_type, function_value, evaluate_function,
}
use protocyte.Expression.Types.{
  ValueType, number_type, payload_type, type_of, Typed, constant_type, first_kind, real_kind,
  function_result, call_type,
}
use protocyte.Expression.Types.Values.{Typed-bind, Typed-check, numeric_value-Typed}
use protocyte.Expression.Types.Arguments.{result_kind_real, of_single}
use protocyte.Expression.Types.Functions.{
  function_result-Typed, min_max-Typed, len-Typed, substr-Typed, starts_with-Typed,
  function_type-Typed, cast-Typed,
}

module _ {F : Type 0} (floats : Floats F) where
  placeholder-Typed :
      (payload : Payload F) (cpp_expr : Bytes) (precedence : ℕ) (ty : ValueType)
      → payload_type payload ≡ some ty
      → Typed ty (
          type_only_value floats
            (record { payload = payload; cpp_expr = cpp_expr; cpp_precedence = precedence }))
  unfolding type_only_value bool_value string_value
  placeholder-Typed (bool_payload b) cpp_expr precedence ty typed = typed
  placeholder-Typed (string_payload text) cpp_expr precedence ty typed = typed
  placeholder-Typed (numeric_payload none number) cpp_expr precedence ty typed = cc
  placeholder-Typed (numeric_payload (some kind) number) cpp_expr precedence ty typed =
      subst
        (λ t. Typed t (
          numeric_value floats (placeholder floats (some kind) number) (some cpp_expr) precedence
            (some kind)))
        (some_injective typed)
        (numeric_value-Typed floats (placeholder floats (some kind) number) (some cpp_expr)
          precedence kind)

  -- A placeholder has the type of its value.
  pub type_only_value-Typed :
      (value : TypedValue F) (ty : ValueType)
      → type_of value ≡ some ty
      → Typed ty (type_only_value floats value)
  type_only_value-Typed value = placeholder-Typed value.payload value.cpp_expr value.cpp_precedence

  abs-Typed :
      (args : List (TypedValue F)) (types : List ValueType)
      → map type_of args ≡ map some types
      → Typed (number_type (first_kind types)) (evaluate_abs floats args)
  unfolding evaluate_abs
  abs-Typed [] types typed = tt
  abs-Typed (a ∷ b ∷ args) types typed = tt
  abs-Typed (a ∷ []) types typed =
      of_single floats (a ∷ []) types (λ k. k) _ typed
        (λ n kind.
          Typed-check (number_type kind) (abs_overflows floats n kind) abs_out_of_range _
            (function_result-Typed floats (number_abs floats n) kind))

  module _ (mathematics : Mathematics F) where
    pow-Typed :
        (args : List (TypedValue F))
        → Typed (number_type float64) (evaluate_pow floats mathematics args)
    unfolding evaluate_pow
    pow-Typed [] = tt
    pow-Typed (a ∷ []) = tt
    pow-Typed (a ∷ b ∷ c ∷ args) = tt
    pow-Typed (a ∷ b ∷ []) =
        Typed-bind (number_type float64) (function_numeric_argument a) _ (λ base base_same.
          Typed-bind (number_type float64) (function_numeric_argument b) _ (λ power power_same.
            Typed-bind (number_type float64) (convert_numeric_value floats base.0 base.1 float64) _
              (λ x x_same.
                Typed-bind (number_type float64)
                  (convert_numeric_value floats power.0 power.1 float64) _
                  (λ y y_same.
                    Typed-bind (number_type float64)
                      (of_math (
                        mathematics.evaluate_deterministic_pow (as_float floats x)
                          (as_float floats y)))
                      _ (λ result same. function_result-Typed floats (real result) float64)))))

    real-Typed :
        (name : Bytes) (value : Number F) (kind : NumericKind)
        → Typed
            (number_type (real_kind kind))
            (evaluate_real_function floats mathematics name value kind)
    unfolding evaluate_real_function
    real-Typed name value kind =
        subst
          (λ k. Typed (number_type k) (evaluate_real_function floats mathematics name value kind))
          (result_kind_real floats kind)
          (Typed-bind (number_type target) (convert_numeric_value floats value kind target) _
            (λ operand same.
              Typed-bind (number_type target)
                (of_math (
                  mathematics.evaluate_unary name (as_float floats operand)
                    (width_of floats target)))
                _ (λ result found. function_result-Typed floats (real result) target)))
      where
        target : NumericKind
        target = real_result_kind floats kind

    rounding-Typed :
        (name : Bytes) (value : Number F) (kind : NumericKind)
        → Typed (number_type (real_kind kind)) (evaluate_rounding_function floats name value kind)
    unfolding evaluate_rounding_function
    rounding-Typed name value kind =
        subst (λ k. Typed (number_type k) (evaluate_rounding_function floats name value kind))
          (result_kind_real floats kind)
          (Typed-bind (number_type target) (convert_numeric_value floats value kind target) _
            (λ operand same.
              function_result-Typed floats
                (real (
                  signed_zero floats (as_float floats operand)
                    (rounded_by floats name (as_float floats operand))))
                target))
      where
        target : NumericKind
        target = real_result_kind floats kind

    function_value-Typed :
        (name : Bytes) (function : FunctionName) (args : List (TypedValue F))
        (types : List ValueType)
        → map type_of args ≡ map some types
        → Typed
            (function_result function types)
            (function_value floats mathematics name function args)
    unfolding function_value
    function_value-Typed name len_function args types typed = len-Typed floats true args
    function_value-Typed name substr_function args types typed = substr-Typed floats true args
    function_value-Typed name starts_with_function args types typed =
        starts_with-Typed floats true args
    function_value-Typed name pow_function args types typed = pow-Typed args
    function_value-Typed name abs_function args types typed = abs-Typed args types typed
    function_value-Typed name min_function args types typed =
        min_max-Typed floats true args types typed
    function_value-Typed name max_function args types typed =
        min_max-Typed floats false args types typed
    function_value-Typed name real_function args types typed =
        of_single floats args types real_kind _ typed (λ n kind. real-Typed name n kind)
    function_value-Typed name rounding_function args types typed =
        of_single floats args types real_kind _ typed (λ n kind. rounding-Typed name n kind)

    -- A call has the type that its name and the types of its arguments say.
    pub evaluate_function-Typed :
        (evaluate : Bool) (name : Bytes) (args : List (TypedValue F)) (types : List ValueType)
        → map type_of args ≡ map some types
        → Typed (call_type name types) (evaluate_function floats mathematics evaluate name args)
    unfolding evaluate_function evaluate_function_type
    evaluate_function-Typed false name args types typed =
        elim (Option-cases (scalar_cast_kind name)) [
          | inr (kind, cast) ↦
              rw (call_type, evaluate_function_type, cast)
                (Typed-bind (constant_type kind) (evaluate_scalar_cast floats kind args) _
                  (λ value found.
                    type_only_value-Typed value (constant_type kind)
                      (of_result found (cast-Typed floats kind args))))
          | inl other ↦ elim (Option-cases (lookup_name name function_table)) [
            | inr (function, found) ↦
                rw (call_type, evaluate_function_type, other, found)
                  (function_type-Typed floats function args types typed)
            | inl unknown ↦ rw (call_type, evaluate_function_type, other, unknown) tt
          ]
        ]
      where
        of_result :
            {ty : ValueType} {r : Result EvaluationError (TypedValue F)} {value : TypedValue F}
            → r ≡ ok value
            → Typed ty r
            → type_of value ≡ some ty
        of_result {ty} same typed = subst (Typed ty) same typed
    evaluate_function-Typed true name args types typed =
        elim (Option-cases (scalar_cast_kind name)) [
          | inr (kind, cast) ↦ rw (call_type, evaluate_function, cast) (cast-Typed floats kind args)
          | inl other ↦ elim (Option-cases (lookup_name name function_table)) [
            | inr (function, found) ↦
                rw (call_type, evaluate_function, other, found)
                  (function_value-Typed name function args types typed)
            | inl unknown ↦ rw (call_type, evaluate_function, other, unknown) tt
          ]
        ]
