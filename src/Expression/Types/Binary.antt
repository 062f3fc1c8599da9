-- ===== src/Expression/Types/Binary.antt =====
-- The types of the results of the binary operators, given the types of both operands.
use protocyte.Common.{ℕ, ℤ, pos, Bool, true, false, ◌≡◌, refl, subst, ap, ap₂, some, Result, ◌>>=◌}
use protocyte.Model.Integer.{IntegerKind, common_integer_kind, bitwise_at, shift_value}
use protocyte.Expression.Syntax.{BinaryOperator, divide, modulo, symbol}
use protocyte.Expression.Number.{
  Floats, Number, whole, NumericKind, integral, EvaluationError, known_kind,
  normalize_numeric_result, of_integer, arithmetic, number_is_zero, is_float_kind, division_by_zero,
  modulo_by_zero, modulo_of_floats,
}
use protocyte.Expression.Value.{
  TypedValue, binary_cpp, bool_value, expect_integral, expect_bool, zero_of,
}
use protocyte.Expression.Operate.{
  binary_result, numeric_binary, bitwise_binary, shift_values, bool_result, quotient_in,
  divide_values, remainder_in, modulo_values, logical_values,
}
use protocyte.Expression.Types.{
  ValueType, bool_type, number_type, type_of, kind_of_type, integer_kind_of, numeric_type,
  bitwise_type, Typed,
}
use protocyte.Expression.Types.Values.{
  Typed-bind, Typed-check, integral_kind_of, numeric_value-Typed, in_common_kind,
}

module _ {F : Type 0} (floats : Floats F) where
  module _ (lhs rhs : TypedValue F) (lt rt : ValueType) (left : type_of lhs ≡ some lt)
      (right : type_of rhs ≡ some rt) where
    pub result-Typed :
        (operator : BinaryOperator) (precedence : ℕ) (kind : NumericKind) (result : Number F)
        → Typed (number_type kind) (binary_result floats operator precedence lhs rhs kind result)
    result-Typed operator precedence kind result =
        numeric_value-Typed floats result (some (binary_cpp lhs rhs (symbol operator) precedence))
          precedence kind

    pub computed-Typed :
        (operator : BinaryOperator) (precedence : ℕ) (kind : NumericKind)
        (result : Result EvaluationError (Number F))
        → Typed
            (number_type kind)
            (result >>= λ x. binary_result floats operator precedence lhs rhs kind x)
    computed-Typed operator precedence kind result =
        Typed-bind (number_type kind) result _ (λ x same. result-Typed operator precedence kind x)

    pub numeric_binary-Typed :
        (op : ℤ → ℤ → ℤ) (float_op : F → F → F) (operator : BinaryOperator) (precedence : ℕ)
        → Typed (numeric_type lt rt) (numeric_binary floats op float_op operator precedence lhs rhs)
    unfolding numeric_binary
    numeric_binary-Typed op float_op operator precedence =
        in_common_kind floats lhs rhs lt rt _ left right (λ a b kind.
          computed-Typed operator precedence kind
            (normalize_numeric_result floats (arithmetic floats op float_op a b) kind))

    pub divide_values-Typed :
        (evaluate : Bool) → Typed (numeric_type lt rt) (divide_values floats evaluate lhs rhs)
    unfolding divide_values
    divide_values-Typed false =
        in_common_kind floats lhs rhs lt rt _ left right
          (λ a b kind. result-Typed divide 100 kind (zero_of floats kind))
    divide_values-Typed true = in_common_kind floats lhs rhs lt rt _ left right (λ a b kind.
        Typed-check (number_type kind) (number_is_zero floats b) division_by_zero _
          (computed-Typed divide 100 kind (quotient_in floats kind a b)))

    pub modulo_values-Typed :
        (evaluate : Bool) → Typed (numeric_type lt rt) (modulo_values floats evaluate lhs rhs)
    unfolding modulo_values
    modulo_values-Typed false = in_common_kind floats lhs rhs lt rt _ left right (λ a b kind.
        Typed-check (number_type kind) (is_float_kind kind) modulo_of_floats _
          (result-Typed modulo 100 kind (whole (pos 0))))
    modulo_values-Typed true = in_common_kind floats lhs rhs lt rt _ left right (λ a b kind.
        Typed-check (number_type kind) (is_float_kind kind) modulo_of_floats _ (
          Typed-check (number_type kind) (number_is_zero floats b) modulo_by_zero _
            (computed-Typed modulo 100 kind (remainder_in floats kind a b))))

    pub whole-Typed :
        (operator : BinaryOperator) (precedence : ℕ) (kind : IntegerKind)
        (result : Result EvaluationError ℤ)
        → Typed (number_type (integral kind)) (
            result >>= λ n.
            binary_result floats operator precedence lhs rhs (integral kind) (whole n))
    whole-Typed operator precedence kind result =
        Typed-bind (number_type (integral kind)) result _
          (λ n same. result-Typed operator precedence (integral kind) (whole n))

    pub bitwise_binary-Typed :
        (op : ℕ → ℕ → ℕ) (operator : BinaryOperator) (precedence : ℕ)
        → Typed (bitwise_type lt rt) (bitwise_binary floats op operator precedence lhs rhs)
    unfolding bitwise_binary
    bitwise_binary-Typed op operator precedence =
        Typed-bind (bitwise_type lt rt) (expect_integral lhs) _ (λ l found_l.
          Typed-bind (bitwise_type lt rt) (expect_integral rhs) _ (λ r found_r.
            let lk = ap integer_kind_of (integral_kind_of lhs lt l.0 l.1 left found_l) in
            let rk = ap integer_kind_of (integral_kind_of rhs rt r.0 r.1 right found_r) in
            let same =
              ap₂ (λ a b. number_type (integral (known_kind (common_integer_kind a b) a))) lk rk in
            subst (λ t. Typed t (bitwise_step op operator precedence l r)) same
              (whole-Typed operator precedence (known_kind (common_integer_kind l.1 r.1) l.1) _)))
      where
        bitwise_step :
            (ℕ → ℕ → ℕ)
            → BinaryOperator
            → ℕ
            → ℤ × IntegerKind
            → ℤ × IntegerKind
            → Result EvaluationError (TypedValue F)
        bitwise_step op operator precedence l r =
            let kind = known_kind (common_integer_kind l.1 r.1) l.1 in
            of_integer (bitwise_at op l.0 l.1 r.0 r.1 kind) >>= λ result.
            binary_result floats operator precedence lhs rhs (integral kind) (whole result)

    pub shift_values-Typed :
        (is_left : Bool) (operator : BinaryOperator)
        → Typed (number_type (kind_of_type lt)) (shift_values floats is_left operator lhs rhs)
    unfolding shift_values
    shift_values-Typed is_left operator =
        Typed-bind (number_type (kind_of_type lt)) (expect_integral lhs) _ (λ l found_l.
          Typed-bind (number_type (kind_of_type lt)) (expect_integral rhs) _ (λ r found_r.
            let same = ap number_type (integral_kind_of lhs lt l.0 l.1 left found_l) in
            subst (λ t. Typed t (shift_step l r)) same (whole-Typed operator 80 l.1 _)))
      where
        shift_step : ℤ × IntegerKind → ℤ × IntegerKind → Result EvaluationError (TypedValue F)
        shift_step l r = of_integer (shift_value is_left l.0 l.1 r.0 r.1) >>= λ result.
            binary_result floats operator 80 lhs rhs (integral l.1) (whole result)

    pub bool_result-Typed :
        (operator : BinaryOperator) (precedence : ℕ) (result : Bool)
        → Typed bool_type (bool_result floats operator precedence lhs rhs result)
    unfolding bool_value
    bool_result-Typed operator precedence result = refl

    pub tested-Typed :
        (operator : BinaryOperator) (precedence : ℕ) (test : Result EvaluationError Bool)
        (change : Bool → Bool)
        → Typed bool_type
            (test >>= λ result. bool_result floats operator precedence lhs rhs (change result))
    unfolding bool_value
    tested-Typed operator precedence test change = Typed-bind bool_type test _ (λ result same. refl)

    pub logical_values-Typed :
        (op : Bool → Bool → Bool) (operator : BinaryOperator) (precedence : ℕ) (evaluate : Bool)
        → Typed bool_type (logical_values floats op operator precedence evaluate lhs rhs)
    unfolding logical_values bool_value
    logical_values-Typed op operator precedence evaluate =
        Typed-bind bool_type (expect_bool floats lhs) _
          (λ l found_l. Typed-bind bool_type (expect_bool floats rhs) _ (λ r found_r. refl))
