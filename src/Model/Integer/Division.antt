-- ===== src/Model/Integer/Division.antt =====
-- When a division of signed integers leaves its range.
use protocyte.Common.{
  ℕ, zero, suc, ◌-◌, ◌/◌, ◌<◌, ◌≤◌, ℤ, pos, negsuc, ltb_int, eq_int, ◌≡◌, ◌∙◌, arith, Bool, true,
  false, ◌&&◌, ◌||◌, leb,
}
use native.Mathlib.Nat.{div-le_self, div-mul-le_self, mul-le-mul_left}
use protocyte.Model.Integer.{
  IntegerKind, int32, uint32, int64, uint64, is_signed, out_of_kind, negate,
  truncating_integer_divide, signed_division_overflows,
}

-- Outside of -h .. h - 1.
abbrev outside : ℕ → ℤ → Bool
outside h value = ltb_int value (negsuc (h - 1)) || ltb_int (pos (h - 1)) value

outside-pos : (h n : ℕ) → 0 < h → outside h (pos n) ≡ leb h n
outside-pos h n positive = ground arith

outside-negate : (h n : ℕ) → n ≤ h → outside h (negate n) ≡ false
outside-negate h zero bound = ground arith
outside-negate h (suc n) bound = ground arith

two_le : (d : ℕ) → 2 ≤ suc (suc d)
two_le d = omega arith

-- A quotient by two or more is less.
quotient_less : (n d : ℕ) → suc n / suc (suc d) < suc n
quotient_less n d =
    let product = div-mul-le_self (suc n) (suc (suc d)) in
    let twice = mul-le-mul_left (suc n / suc (suc d)) (two_le d) in omega (arith, product, twice)

division_outside :
    (h : ℕ) (lhs rhs : ℤ)
    → 0 < h
    → outside h lhs ≡ false
    → eq_int rhs (pos 0) ≡ false
    → outside h (truncating_integer_divide lhs rhs)
      ≡ (eq_int lhs (negsuc (h - 1)) && eq_int rhs (negsuc 0))
unfolding truncating_integer_divide
division_outside h lhs (pos zero) positive inside nonzero = cc
division_outside h (pos a) (pos (suc b)) positive inside nonzero =
    outside-pos h (a / suc b) positive ∙ ground (arith, div-le_self a (suc b))
division_outside h (pos a) (negsuc b) positive inside nonzero =
    outside-negate h (a / suc b) (ground (arith, div-le_self a (suc b)))
division_outside h (negsuc a) (pos (suc b)) positive inside nonzero =
    outside-negate h (suc a / suc b) (ground (arith, div-le_self (suc a) (suc b))) ∙ ground arith
division_outside h (negsuc a) (negsuc zero) positive inside nonzero =
    let whole : suc a / 1 ≡ suc a = omega arith in rw whole (ground arith)
division_outside h (negsuc a) (negsuc (suc b)) positive inside nonzero =
    outside-pos h (suc a / suc (suc b)) positive ∙ ground (arith, quotient_less a b)

pub truncating_integer_divide-out_of_kind :
    (lhs rhs : ℤ) (kind : IntegerKind)
    → is_signed kind ≡ true
    → out_of_kind lhs kind ≡ false
    → eq_int rhs (pos 0) ≡ false
    → out_of_kind (truncating_integer_divide lhs rhs) kind ≡ signed_division_overflows lhs rhs kind
unfolding signed_division_overflows
truncating_integer_divide-out_of_kind lhs rhs int32 signed inside nonzero =
    division_outside 2147483648 lhs rhs (omega arith) inside nonzero
truncating_integer_divide-out_of_kind lhs rhs uint32 signed inside nonzero = cc
truncating_integer_divide-out_of_kind lhs rhs int64 signed inside nonzero =
    division_outside 9223372036854775808 lhs rhs (omega arith) inside nonzero
truncating_integer_divide-out_of_kind lhs rhs uint64 signed inside nonzero = cc
