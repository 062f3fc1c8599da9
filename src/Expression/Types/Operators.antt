-- ===== src/Expression/Types/Operators.antt =====
-- The types of the results of the operators of `_ExprParser`.
use Prim.Native.Nat.{bit_and as nat_and, bit_or as nat_or, bit_xor as nat_xor}
use protocyte.Common.{
  add_int, subtract_int, multiply_int, ltb_int, leb_int, ◌++◌, ℕ, Bool, true, false, not, ◌||◌,
  ◌&&◌, ◌≡◌, refl, subst, none, some, Result, some_injective, Bytes, codes,
}
use protocyte.Model.Integer.{bitwise_complement}
use protocyte.Expression.Syntax.{
  BinaryOperator, or_else, and_then, bit_or, bit_xor, bit_and, equal, not_equal, less, less_equal,
  greater, greater_equal, shift_left, shift_right, add, subtract, multiply, divide, modulo,
  UnaryOperator, logical_not, complement, plus, minus,
}
use protocyte.Expression.Number.{
  Floats, Number, whole, integral, EvaluationError, normalize_numeric_result, of_integer,
}
use protocyte.Expression.Value.{
  TypedValue, Payload, bool_payload, string_payload, numeric_payload, wrap_cpp, bool_value,
  string_value, numeric_value, typed_numeric_kind, expect_numeric, expect_integral, expect_bool,
}
use protocyte.Expression.Operate.{
  numeric_binary, numeric_compare, compare_equal, add_values, apply_binary, apply_unary,
  float_at_most, number_negate, signed_result,
}
use protocyte.Expression.Types.{
  ValueType, bool_type, string_type, number_type, payload_type, type_of, kind_of_type, numeric_type,
  add_type, binary_type, unary_type, Typed,
}
use protocyte.Expression.Types.Values.{
  value_of, Typed-bind, kind_of_typed, integral_kind_of, numeric_value-Typed,
}
use protocyte.Expression.Types.Binary.{
  numeric_binary-Typed, divide_values-Typed, modulo_values-Typed, bitwise_binary-Typed,
  shift_values-Typed, tested-Typed, logical_values-Typed,
}

module _ {F : Type 0} where
  abbrev is_text : Payload F → Bool
  is_text (string_payload text) = true
  is_text (bool_payload b) = false
  is_text (numeric_payload kind number) = false

  numeric_lhs :
      (p : Payload F) (lt rt : ValueType)
      → is_text p ≡ false
      → payload_type p ≡ some lt
      → numeric_type lt rt ≡ add_type lt rt
  numeric_lhs (string_payload text) lt rt no_text typed = cc
  numeric_lhs (bool_payload b) lt rt no_text typed =
      subst (λ t. numeric_type t rt ≡ add_type t rt) (some_injective typed) refl
  numeric_lhs (numeric_payload none number) lt rt no_text typed = cc
  numeric_lhs (numeric_payload (some kind) number) lt rt no_text typed =
      subst (λ t. numeric_type t rt ≡ add_type t rt) (some_injective typed) refl

module _ {F : Type 0} (floats : Floats F) where
  abbrev add_sum :
      Payload F → Payload F → Bytes → Bytes → ℕ → ℕ → Result EvaluationError (TypedValue F)
  add_sum p q e f n m =
      numeric_binary floats add_int floats.float_add add 90 (value_of p e n) (value_of q f m)

  add_sum-Typed :
      (p q : Payload F) (e f : Bytes) (n m : ℕ) (lt rt : ValueType)
      → payload_type p ≡ some lt
      → payload_type q ≡ some rt
      → Typed (numeric_type lt rt) (add_sum p q e f n m)
  add_sum-Typed p q e f n m lt rt left right =
      numeric_binary-Typed floats (value_of p e n) (value_of q f m) lt rt left right add_int
        floats.float_add add 90

  -- The sum of a left operand that is no text
  summed-Typed :
      (p q : Payload F) (e f : Bytes) (n m : ℕ) (lt rt : ValueType)
      → is_text p ≡ false
      → payload_type p ≡ some lt
      → payload_type q ≡ some rt
      → Typed (add_type lt rt) (add_sum p q e f n m)
  summed-Typed p q e f n m lt rt no_text left right =
      subst (λ t. Typed t (add_sum p q e f n m)) (numeric_lhs p lt rt no_text left)
        (add_sum-Typed p q e f n m lt rt left right)

  add_payloads :
      (p q : Payload F) (e f : Bytes) (n m : ℕ) (lt rt : ValueType)
      → payload_type p ≡ some lt
      → payload_type q ≡ some rt
      → Typed (add_type lt rt) (add_values floats (value_of p e n) (value_of q f m))
  unfolding add_values string_value
  add_payloads (string_payload a) (string_payload b) e f n m lt rt left right =
      subst (λ t. some string_type ≡ some (add_type t rt)) (some_injective left) refl
  add_payloads (string_payload a) (bool_payload b) e f n m lt rt left right = tt
  add_payloads (string_payload a) (numeric_payload k x) e f n m lt rt left right = tt
  add_payloads (bool_payload a) (string_payload b) e f n m lt rt left right = tt
  add_payloads (numeric_payload k x) (string_payload b) e f n m lt rt left right = tt
  add_payloads (bool_payload a) (bool_payload b) e f n m lt rt left right =
      summed-Typed (bool_payload a) (bool_payload b) e f n m lt rt refl left right
  add_payloads (bool_payload a) (numeric_payload k x) e f n m lt rt left right =
      summed-Typed (bool_payload a) (numeric_payload k x) e f n m lt rt refl left right
  add_payloads (numeric_payload k x) (bool_payload b) e f n m lt rt left right =
      summed-Typed (numeric_payload k x) (bool_payload b) e f n m lt rt refl left right
  add_payloads (numeric_payload k x) (numeric_payload l y) e f n m lt rt left right =
      summed-Typed (numeric_payload k x) (numeric_payload l y) e f n m lt rt refl left right

  add_values-Typed :
      (lhs rhs : TypedValue F) (lt rt : ValueType)
      → type_of lhs ≡ some lt
      → type_of rhs ≡ some rt
      → Typed (add_type lt rt) (add_values floats lhs rhs)
  add_values-Typed lhs rhs lt rt =
      add_payloads lhs.payload rhs.payload lhs.cpp_expr rhs.cpp_expr lhs.cpp_precedence
        rhs.cpp_precedence lt rt

  pub apply_binary-Typed :
      (operator : BinaryOperator) (evaluate : Bool) (lhs rhs : TypedValue F) (lt rt : ValueType)
      → type_of lhs ≡ some lt
      → type_of rhs ≡ some rt
      → Typed (binary_type operator lt rt) (apply_binary floats operator evaluate lhs rhs)
  unfolding apply_binary
  apply_binary-Typed or_else evaluate l r lt rt left right =
      logical_values-Typed floats l r lt rt left right (λ a b. a || b) or_else 10 evaluate
  apply_binary-Typed and_then evaluate l r lt rt left right =
      logical_values-Typed floats l r lt rt left right (λ a b. a && b) and_then 20 evaluate
  apply_binary-Typed bit_or evaluate l r lt rt left right =
      bitwise_binary-Typed floats l r lt rt left right nat_or bit_or 30
  apply_binary-Typed bit_xor evaluate l r lt rt left right =
      bitwise_binary-Typed floats l r lt rt left right nat_xor bit_xor 40
  apply_binary-Typed bit_and evaluate l r lt rt left right =
      bitwise_binary-Typed floats l r lt rt left right nat_and bit_and 50
  apply_binary-Typed equal evaluate l r lt rt left right =
      tested-Typed floats l r lt rt left right equal 60 (compare_equal floats l r) (λ b. b)
  apply_binary-Typed not_equal evaluate l r lt rt left right =
      tested-Typed floats l r lt rt left right not_equal 60 (compare_equal floats l r) not
  apply_binary-Typed less evaluate l r lt rt left right =
      tested-Typed floats l r lt rt left right less 70
        (numeric_compare floats ltb_int floats.float_less l r) (λ b. b)
  apply_binary-Typed less_equal evaluate l r lt rt left right =
      tested-Typed floats l r lt rt left right less_equal 70
        (numeric_compare floats leb_int (float_at_most floats) l r) (λ b. b)
  apply_binary-Typed greater evaluate l r lt rt left right =
      tested-Typed floats l r lt rt left right greater 70
        (numeric_compare floats (λ a b. ltb_int b a) (λ a b. floats.float_less b a) l r) (λ b. b)
  apply_binary-Typed greater_equal evaluate l r lt rt left right =
      tested-Typed floats l r lt rt left right greater_equal 70
        (numeric_compare floats (λ a b. leb_int b a) (λ a b. float_at_most floats b a) l r) (λ b. b)
  apply_binary-Typed shift_left evaluate l r lt rt left right =
      shift_values-Typed floats l r lt rt left right true shift_left
  apply_binary-Typed shift_right evaluate l r lt rt left right =
      shift_values-Typed floats l r lt rt left right false shift_right
  apply_binary-Typed add evaluate l r lt rt left right = add_values-Typed l r lt rt left right
  apply_binary-Typed subtract evaluate l r lt rt left right =
      numeric_binary-Typed floats l r lt rt left right subtract_int floats.float_subtract subtract
        90
  apply_binary-Typed multiply evaluate l r lt rt left right =
      numeric_binary-Typed floats l r lt rt left right multiply_int floats.float_multiply multiply
        100
  apply_binary-Typed divide evaluate l r lt rt left right =
      divide_values-Typed floats l r lt rt left right evaluate
  apply_binary-Typed modulo evaluate l r lt rt left right =
      modulo_values-Typed floats l r lt rt left right evaluate

  signed_result-Typed :
      (sign : Bytes) (op : Number F → Number F) (value : TypedValue F) (ty : ValueType)
      → type_of value ≡ some ty
      → Typed (number_type (kind_of_type ty)) (signed_result floats sign op value)
  signed_result-Typed sign op value ty typed =
      let target = number_type (kind_of_type ty) in
      Typed-bind target (expect_numeric value) _ (λ operand found.
        Typed-bind target (typed_numeric_kind value) _ (λ kind known.
          Typed-bind target (normalize_numeric_result floats (op operand) kind) _ (λ result same.
            subst
              (λ k.
                Typed (number_type k)
                  (numeric_value floats result (some (sign ++ wrap_cpp value 110)) 110 (some kind)))
              (kind_of_typed value ty kind typed known)
              (numeric_value-Typed floats result (some (sign ++ wrap_cpp value 110)) 110 kind))))

  pub apply_unary-Typed :
      (operator : UnaryOperator) (value : TypedValue F) (ty : ValueType)
      → type_of value ≡ some ty
      → Typed (unary_type operator ty) (apply_unary floats operator value)
  unfolding apply_unary bool_value
  apply_unary-Typed logical_not value ty typed =
      Typed-bind bool_type (expect_bool floats value) _ (λ b same. refl)
  apply_unary-Typed complement value ty typed =
      let target = number_type (kind_of_type ty) in
      Typed-bind target (expect_integral value) _ (λ operand found.
        Typed-bind target (of_integer (bitwise_complement operand.0 operand.1)) _ (λ result same.
          subst
            (λ k. Typed (number_type k) (
              numeric_value floats (whole result) (some (codes "~" ++ wrap_cpp value 110)) 110
                (some (integral operand.1))))
            (integral_kind_of value ty operand.0 operand.1 typed found)
            (numeric_value-Typed floats (whole result) (some (codes "~" ++ wrap_cpp value 110)) 110
              (integral operand.1))))
  apply_unary-Typed plus value ty typed = signed_result-Typed (codes "+") (λ n. n) value ty typed
  apply_unary-Typed minus value ty typed =
      signed_result-Typed (codes "-") (number_negate floats) value ty typed
