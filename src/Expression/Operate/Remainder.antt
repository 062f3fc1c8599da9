-- ===== src/Expression/Operate/Remainder.antt =====
-- The branch of `_parse_mul` of src/protocyte/model.py for "%" between integers, with that for "/".
use native.Mathlib.Nat.{div-add-mod', mod-le}
use protocyte.Common.{
  ℕ, zero, suc, ◌-◌, ◌*◌, ◌/◌, ◌%◌, ◌≤◌, ℤ, pos, negsuc, eq_int, absolute, opposite, add_int,
  negate_int, subtract_int, multiply_int, true, false, ◌≡◌, refl, ◌∙◌, ap, arith, ltb, ok, err,
  if◌then◌else◌, Bool-cases, inl, inr,
}
use protocyte.Model.Integer.{
  IntegerKind, int32, uint32, int64, uint64, out_of_kind, negate, truncating_integer_divide,
  result_out_of_range,
}
use protocyte.Model.Integer.Results.{normalize_integer-kept}
use protocyte.Expression.Syntax.{divide, modulo}
use protocyte.Expression.Number.{
  Floats, whole, integral, integer_error, division_by_zero, modulo_by_zero,
}
use protocyte.Expression.Value.{TypedValue, numeric_operands}
use protocyte.Expression.Operate.{remainder_in, modulo_values, binary_result, apply_binary}
use protocyte.Expression.Operate.Quotient.{
  integer_quotient-integral, operands_in_range, divide_values-integral,
}

-- The remainder of truncating division, by the values without their signs: it has the sign of the dividend.
abbrev pub truncated_remainder : ℤ → ℤ → ℤ
truncated_remainder (pos a) rhs = pos (a % absolute rhs)
truncated_remainder (negsuc a) rhs = opposite (suc a % absolute rhs)

subtract_from : (a n : ℕ) → n ≤ a → add_int (pos a) (negate_int (pos n)) ≡ pos (a - n)
subtract_from a zero less = ground arith
subtract_from a (suc n) less = ground arith

negate-opposite : (n : ℕ) → negate_int (opposite n) ≡ pos n
negate-opposite zero = refl
negate-opposite (suc n) = refl

opposite_pos : (m : ℕ) → 1 ≤ m → negsuc (m - 1) ≡ opposite m
opposite_pos zero positive = absurd (omega arith)
opposite_pos (suc m) positive = ground arith

add_to : (a n : ℕ) → n ≤ suc a → add_int (negsuc a) (pos n) ≡ opposite (suc a - n)
add_to a n less = elim (Bool-cases (ltb n (suc a))) [
  | inl below ↦ rw below (opposite_pos (suc a - n) (ground arith))
  | inr reached ↦
      let none_left : suc a - n ≡ 0 = ground arith in
      let same : n - suc a ≡ 0 = ground arith in rw (reached, none_left, same) refl
]

multiply_negated : (q b : ℕ) → multiply_int (negate q) (negsuc b) ≡ pos (q * suc b)
multiply_negated zero b = ground arith
multiply_negated (suc q) b = refl

multiply_negate : (q b : ℕ) → multiply_int (negate q) (pos b) ≡ opposite (q * b)
multiply_negate zero b = ground arith
multiply_negate (suc q) b = refl

part : (a m : ℕ) → (a / m * m ≤ a) × (a - a / m * m ≡ a % m)
part a m = let whole = div-add-mod' a m in (omega (arith, whole), omega (arith, whole))

left_over :
    (lhs rhs : ℤ)
    → eq_int rhs (pos 0) ≡ false
    → subtract_int lhs (multiply_int (truncating_integer_divide lhs rhs) rhs)
      ≡ truncated_remainder lhs rhs
unfolding truncating_integer_divide
left_over lhs (pos zero) nonzero = cc
left_over (pos a) (pos (suc b)) nonzero =
    let (less, rest) = part a (suc b) in subtract_from a (a / suc b * suc b) less ∙ ap pos rest
left_over (pos a) (negsuc b) nonzero =
    let (less, rest) = part a (suc b) in
    rw (multiply_negated (a / suc b) b) (subtract_from a (a / suc b * suc b) less ∙ ap pos rest)
left_over (negsuc a) (pos (suc b)) nonzero =
    let (less, rest) = part (suc a) (suc b) in
    rw (multiply_negate (suc a / suc b) (suc b), negate-opposite (suc a / suc b * suc b))
      (add_to a (suc a / suc b * suc b) less ∙ ap opposite rest)
left_over (negsuc a) (negsuc b) nonzero =
    let (less, rest) = part (suc a) (suc b) in
    rw (negate-opposite (suc a / suc b * suc b))
      (add_to a (suc a / suc b * suc b) less ∙ ap opposite rest)

-- A number with the sign of one in the range, and no further from zero, is in the range.
nearer_pos :
    (n a : ℕ) (kind : IntegerKind)
    → n ≤ a
    → out_of_kind (pos a) kind ≡ false
    → out_of_kind (pos n) kind ≡ false
nearer_pos n a int32 less inside = ground arith
nearer_pos n a uint32 less inside = ground arith
nearer_pos n a int64 less inside = ground arith
nearer_pos n a uint64 less inside = ground arith

nearer_negsuc :
    (n a : ℕ) (kind : IntegerKind)
    → n ≤ suc a
    → out_of_kind (negsuc a) kind ≡ false
    → out_of_kind (opposite n) kind ≡ false
nearer_negsuc zero a int32 less inside = refl
nearer_negsuc zero a int64 less inside = refl
nearer_negsuc (suc n) a int32 less inside = ground arith
nearer_negsuc (suc n) a int64 less inside = ground arith
nearer_negsuc n a uint32 less inside = cc
nearer_negsuc n a uint64 less inside = cc

remainder_in_range :
    (lhs rhs : ℤ) (kind : IntegerKind)
    → out_of_kind lhs kind ≡ false
    → out_of_kind (truncated_remainder lhs rhs) kind ≡ false
remainder_in_range (pos a) rhs kind inside =
    nearer_pos (a % absolute rhs) a kind (mod-le a (absolute rhs)) inside
remainder_in_range (negsuc a) rhs kind inside =
    nearer_negsuc (suc a % absolute rhs) a kind (mod-le (suc a) (absolute rhs)) inside

module _ {F : Type 0} (floats : Floats F) where
  remainder_in-integral :
      (lhs rhs : ℤ) (kind : IntegerKind)
      → out_of_kind lhs kind ≡ false
      → out_of_kind rhs kind ≡ false
      → eq_int rhs (pos 0) ≡ false
      → remainder_in floats (integral kind) (whole lhs) (whole rhs) ≡ (
          if out_of_kind (truncating_integer_divide lhs rhs) kind
          then err (integer_error result_out_of_range)
          else ok (whole (truncated_remainder lhs rhs)))
  unfolding remainder_in
  remainder_in-integral lhs rhs kind inside divisor nonzero =
      integer_quotient-integral floats lhs rhs kind _ (whole (truncated_remainder lhs rhs)) inside
        divisor nonzero
        (λ fits.
          rw
            (
              left_over lhs rhs nonzero,
              normalize_integer-kept result_out_of_range (truncated_remainder lhs rhs) kind
                  (remainder_in_range lhs rhs kind inside),
            )
            refl)

  modulo_values-integral :
      (lhs rhs : TypedValue F) (left right : ℤ) (kind : IntegerKind)
      → numeric_operands floats lhs rhs ≡ ok (whole left, whole right, integral kind)
      → modulo_values floats true lhs rhs ≡ (
          if eq_int right (pos 0)
          then err modulo_by_zero
          else if out_of_kind (truncating_integer_divide left right) kind
          then err (integer_error result_out_of_range)
          else binary_result floats modulo 100 lhs rhs
              (integral kind)
              (whole (truncated_remainder left right)))
  unfolding modulo_values
  modulo_values-integral lhs rhs left right kind operands =
      let (inside, divisor) = operands_in_range floats lhs rhs left right kind operands in
      elim (Bool-cases (eq_int right (pos 0))) [
        | inl is_zero ↦ rw (operands, is_zero) refl
        | inr nonzero ↦
            rw (operands, nonzero, remainder_in-integral left right kind inside divisor nonzero)
              (elim (Bool-cases (out_of_kind (truncating_integer_divide left right) kind)) [
                | inl leaves ↦ rw leaves refl
                | inr fits ↦ rw fits refl
              ])
      ]

  -- Evaluated "/" and "%" of operands whose common kind is one of integers raise for a divisor of zero, and both if the quotient,
  -- cut towards zero, is outside of the range of that kind. Else they give, at that kind, the quotient, and the remainder of the
  -- absolute values with the sign of the dividend.
  pub apply_binary-integral :
      (lhs rhs : TypedValue F) (left right : ℤ) (kind : IntegerKind)
      → numeric_operands floats lhs rhs ≡ ok (whole left, whole right, integral kind)
      → (apply_binary floats divide true lhs rhs ≡ (
          if eq_int right (pos 0)
          then err division_by_zero
          else if out_of_kind (truncating_integer_divide left right) kind
          then err (integer_error result_out_of_range)
          else binary_result floats divide 100 lhs rhs
              (integral kind)
              (whole (truncating_integer_divide left right))))
        × (apply_binary floats modulo true lhs rhs ≡ (
            if eq_int right (pos 0)
            then err modulo_by_zero
            else if out_of_kind (truncating_integer_divide left right) kind
            then err (integer_error result_out_of_range)
            else binary_result floats modulo 100 lhs rhs
                (integral kind)
                (whole (truncated_remainder left right))))
  unfolding apply_binary
  apply_binary-integral lhs rhs left right kind operands = (
    divide_values-integral floats lhs rhs left right kind operands,
    modulo_values-integral lhs rhs left right kind operands,
  )
