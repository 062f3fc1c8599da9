-- ===== src/Expression/Operate/Quotient.antt =====
-- The branch of `_parse_mul` of src/protocyte/model.py for "/" between integers.
use native.Mathlib.Nat.{div-le_self}
use protocyte.Common.{
  ℤ, pos, negsuc, eq_int, floor_divide, Bool, true, false, ◌&&◌, ◌≡◌, refl, subst, ◌∙◌, ap, arith,
  >>=-eq-ok, ok-injective, Result, ok, err, ◌>>=◌, ◌>>◌, raise_if, if◌then◌else◌, Bool-cases, inl,
  inr,
}
use protocyte.Model.Integer.{
  IntegerKind, int32, uint32, int64, uint64, is_signed, out_of_kind, truncating_integer_divide,
  signed_division_overflows, normalize_integer, result_out_of_range, operand_out_of_range,
  NumberError,
}
use protocyte.Model.Integer.Division.{truncating_integer_divide-out_of_kind}
use protocyte.Model.Integer.Results.{normalize_integer_in_range, normalize_integer-kept}
use protocyte.Expression.Syntax.{divide}
use protocyte.Expression.Number.{
  Floats, Number, whole, real, NumericKind, integral, float32, float64, of_integer, from_kind,
  to_kind, convert_numeric_value, common_numeric_kind, EvaluationError, integer_error,
  division_by_zero,
}
use protocyte.Expression.Value.{TypedValue, numeric_operands, expect_numeric, typed_numeric_kind}
use protocyte.Expression.Operate.{integer_quotient, quotient_in, divide_values, binary_result}

-- Integers of an unsigned kind: the quotient is that of natural numbers, and stays in the range.
unsigned_quotient :
    (lhs rhs : ℤ) (kind : IntegerKind)
    → is_signed kind ≡ false
    → out_of_kind lhs kind ≡ false
    → out_of_kind rhs kind ≡ false
    → eq_int rhs (pos 0) ≡ false
    → (floor_divide lhs rhs ≡ truncating_integer_divide lhs rhs)
      × (out_of_kind (truncating_integer_divide lhs rhs) kind ≡ false)
unfolding truncating_integer_divide
unsigned_quotient lhs rhs int32 unsigned inside divisor nonzero = cc
unsigned_quotient lhs rhs int64 unsigned inside divisor nonzero = cc
unsigned_quotient (negsuc a) rhs uint32 unsigned inside divisor nonzero = cc
unsigned_quotient (pos a) (negsuc b) uint32 unsigned inside divisor nonzero = cc
unsigned_quotient (pos a) (pos b) uint32 unsigned inside divisor nonzero =
    (refl, ground (arith, div-le_self a b))
unsigned_quotient (negsuc a) rhs uint64 unsigned inside divisor nonzero = cc
unsigned_quotient (pos a) (negsuc b) uint64 unsigned inside divisor nonzero = cc
unsigned_quotient (pos a) (pos b) uint64 unsigned inside divisor nonzero =
    (refl, ground (arith, div-le_self a b))

of_integer-ok : {A : Type 0} (r : Result NumberError A) {a : A} → of_integer r ≡ ok a → r ≡ ok a
of_integer-ok (ok value) same = ap ok (ok-injective same)
of_integer-ok (err raised) same = cc

-- The check, and what goes on with the quotient, of any range
checked_quotient :
    {A : Type 0} (outside signed overflows : Bool) (quotient floor : ℤ)
    (next : ℤ → Result EvaluationError A) (value : A)
    → (signed ≡ true → outside ≡ overflows)
    → (signed ≡ false → (floor ≡ quotient) × (outside ≡ false))
    → (outside ≡ false → next quotient ≡ ok value)
    → ((raise_if (signed && overflows) (integer_error result_out_of_range)
          >> ok (if signed then quotient else floor))
        >>= next)
      ≡ (if outside then err (integer_error result_out_of_range) else ok value)
checked_quotient outside true true quotient floor next value of_signed of_unsigned goes_on =
    rw (of_signed refl) refl
checked_quotient outside true false quotient floor next value of_signed of_unsigned goes_on =
    rw (of_signed refl) (goes_on (of_signed refl))
checked_quotient outside false overflows quotient floor next value of_signed of_unsigned goes_on =
    let (same, fits) = of_unsigned refl in rw (same, fits) (goes_on fits)

module _ {F : Type 0} (floats : Floats F) where
  -- The check of the operands, and what goes on with the quotient
  pub integer_quotient-integral :
      {A : Type 0} (lhs rhs : ℤ) (kind : IntegerKind) (next : ℤ → Result EvaluationError A)
      (value : A)
      → out_of_kind lhs kind ≡ false
      → out_of_kind rhs kind ≡ false
      → eq_int rhs (pos 0) ≡ false
      → (out_of_kind (truncating_integer_divide lhs rhs) kind ≡ false
          → next (truncating_integer_divide lhs rhs) ≡ ok value)
      → (integer_quotient floats lhs rhs kind >>= next) ≡ (
          if out_of_kind (truncating_integer_divide lhs rhs) kind
          then err (integer_error result_out_of_range)
          else ok value)
  unfolding integer_quotient
  integer_quotient-integral lhs rhs kind next value inside divisor nonzero goes_on =
      checked_quotient (out_of_kind (truncating_integer_divide lhs rhs) kind) (is_signed kind)
        (signed_division_overflows lhs rhs kind) (truncating_integer_divide lhs rhs)
        (floor_divide lhs rhs) next value
        (λ signed. truncating_integer_divide-out_of_kind lhs rhs kind signed inside nonzero)
        (λ unsigned. unsigned_quotient lhs rhs kind unsigned inside divisor nonzero) goes_on

  quotient_in-integral :
      (lhs rhs : ℤ) (kind : IntegerKind)
      → out_of_kind lhs kind ≡ false
      → out_of_kind rhs kind ≡ false
      → eq_int rhs (pos 0) ≡ false
      → quotient_in floats (integral kind) (whole lhs) (whole rhs) ≡ (
          if out_of_kind (truncating_integer_divide lhs rhs) kind
          then err (integer_error result_out_of_range)
          else ok (whole (truncating_integer_divide lhs rhs)))
  unfolding quotient_in
  quotient_in-integral lhs rhs kind inside divisor nonzero =
      integer_quotient-integral lhs rhs kind _ (whole (truncating_integer_divide lhs rhs)) inside
        divisor nonzero
        (λ fits.
          rw
            (normalize_integer-kept result_out_of_range (truncating_integer_divide lhs rhs) kind
              fits)
            refl)

  whole_injective : {m n : ℤ} → ◌≡◌ {A = Number F} (whole m) (whole n) → m ≡ n
  whole_injective same = cc

  to_kind_in_range :
      (operand : Number F) (source : NumericKind) (n : ℤ) (kind : IntegerKind)
      → to_kind floats operand source (integral kind) ≡ ok (whole n)
      → out_of_kind n kind ≡ false
  unfolding to_kind
  to_kind_in_range (whole m) (integral source_kind) n kind found =
      let (result, eq, same) =
        >>=-eq-ok (of_integer (normalize_integer operand_out_of_range m kind)) _ found in
      normalize_integer_in_range operand_out_of_range m kind (
        of_integer-ok (normalize_integer operand_out_of_range m kind)
          (eq ∙ ap ok (whole_injective (ok-injective same))))
  to_kind_in_range (real x) (integral source_kind) n kind found = cc
  to_kind_in_range (whole m) float32 n kind found = cc
  to_kind_in_range (real x) float32 n kind found = cc
  to_kind_in_range (whole m) float64 n kind found = cc
  to_kind_in_range (real x) float64 n kind found = cc

  -- The operands in their common kind are in its range.
  operand_in_range :
      (value : Number F) (source : NumericKind) (n : ℤ) (kind : IntegerKind)
      → convert_numeric_value floats value source (integral kind) ≡ ok (whole n)
      → out_of_kind n kind ≡ false
  unfolding convert_numeric_value
  operand_in_range value source n kind found =
      let (operand, _, converted) = >>=-eq-ok (from_kind floats value source) _ found in
      to_kind_in_range operand source n kind converted

  pub operands_in_range :
      (lhs rhs : TypedValue F) (left right : ℤ) (kind : IntegerKind)
      → numeric_operands floats lhs rhs ≡ ok (whole left, whole right, integral kind)
      → (out_of_kind left kind ≡ false) × (out_of_kind right kind ≡ false)
  unfolding numeric_operands
  operands_in_range lhs rhs left right kind found =
      let (l, _, found1) = >>=-eq-ok (expect_numeric lhs) _ found in
      let (r, _, found2) = >>=-eq-ok (expect_numeric rhs) _ found1 in
      let (lhs_kind, _, found3) = >>=-eq-ok (typed_numeric_kind lhs) _ found2 in
      let (rhs_kind, _, found4) = >>=-eq-ok (typed_numeric_kind rhs) _ found3 in
      let common = common_numeric_kind lhs_kind rhs_kind in
      let (left_value, first, found5) =
        >>=-eq-ok (convert_numeric_value floats l lhs_kind common) _ found4 in
      let (right_value, second, found6) =
        >>=-eq-ok (convert_numeric_value floats r rhs_kind common) _ found5 in
      let same_left : left_value ≡ whole left = ap (λ p. p.0) (ok-injective found6) in
      let same_right : right_value ≡ whole right = ap (λ p. p.1) (ok-injective found6) in
      let same_kind : common ≡ integral kind = ap (λ p. p.2) (ok-injective found6) in
      (
        operand_in_range l lhs_kind left kind (
            subst (λ k. convert_numeric_value floats l lhs_kind k ≡ ok (whole left)) same_kind
              (first ∙ ap ok same_left)),
        operand_in_range r rhs_kind right kind (
            subst (λ k. convert_numeric_value floats r rhs_kind k ≡ ok (whole right)) same_kind
              (second ∙ ap ok same_right)),
      )

  pub divide_values-integral :
      (lhs rhs : TypedValue F) (left right : ℤ) (kind : IntegerKind)
      → numeric_operands floats lhs rhs ≡ ok (whole left, whole right, integral kind)
      → divide_values floats true lhs rhs ≡ (
          if eq_int right (pos 0)
          then err division_by_zero
          else if out_of_kind (truncating_integer_divide left right) kind
          then err (integer_error result_out_of_range)
          else binary_result floats divide 100 lhs rhs
              (integral kind)
              (whole (truncating_integer_divide left right)))
  unfolding divide_values
  divide_values-integral lhs rhs left right kind operands =
      let (inside, divisor) = operands_in_range lhs rhs left right kind operands in
      elim (Bool-cases (eq_int right (pos 0))) [
        | inl is_zero ↦ rw (operands, is_zero) refl
        | inr nonzero ↦
            rw (operands, nonzero, quotient_in-integral left right kind inside divisor nonzero)
              (elim (Bool-cases (out_of_kind (truncating_integer_divide left right) kind)) [
                | inl leaves ↦ rw leaves refl
                | inr fits ↦ rw fits refl
              ])
      ]
