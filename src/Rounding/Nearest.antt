-- ===== src/Rounding/Nearest.antt =====
-- `_round_scaled_ratio` of src/protocyte/_deterministic_math.py rounds to the nearest integer.
use protocyte.Common.{
  ℕ, suc, ◌+◌, ◌*◌, ◌/◌, ◌%◌, ◌≤◌, ◌<◌, ℤ, pos, negsuc, false, ◌&&◌, ◌||◌, ◌≡◌, ◌∙◌, ◌==◌, arith,
}
use native.Mathlib.Nat.{div-add-mod', mod-lt, mul-pos, one-le-pow, mul_comm, mul-add, mul-one}
use protocyte.Rounding.{scaled_up, scaled_down, round_quotient, round_scaled_ratio}

-- `q` is nearest to numerator / denominator, and even where two integers are.
abbrev pub IsNearest : ℕ → ℕ → ℕ → Type 0
IsNearest numerator denominator q =
    (2 * numerator ≤ 2 * (q * denominator) + denominator)
    × (2 * (q * denominator) ≤ 2 * numerator + denominator)
    × (((2 * numerator == 2 * (q * denominator) + denominator)
            || (2 * (q * denominator) == 2 * numerator + denominator))
          && q % 2 == 1
        ≡ false)

next_multiple : (q d : ℕ) → (q + 1) * d ≡ q * d + d
next_multiple q d =
    mul_comm (q + 1) d
    ∙ mul-add d q 1
    ∙ (let a = mul-one d in let b = mul_comm d q in omega (arith, a, b))

round_quotient-IsNearest :
    (numerator denominator : ℕ)
    → 0 < denominator
    → IsNearest numerator denominator (round_quotient numerator denominator)
unfolding round_quotient
round_quotient-IsNearest n d positive =
    let whole = div-add-mod' n d in
    let less = mod-lt n positive in
    let next = next_multiple (n / d) d in ground (arith, whole, less, next)

scaled_down_positive :
    (denominator : ℕ) (shift : ℤ) → 0 < denominator → 0 < scaled_down denominator shift
scaled_down_positive d (pos k) positive = positive
scaled_down_positive d (negsuc k) positive = mul-pos positive (one-le-pow (suc k) 2 (omega arith))

-- For a positive denominator, `_round_scaled_ratio` returns an integer nearest to
-- numerator * 2 ** shift / denominator, for a shift of either sign, and the even one of the two if two are
-- equally near.
pub round_scaled_ratio-IsNearest :
    (numerator denominator : ℕ) (shift : ℤ)
    → 0 < denominator
    → IsNearest
        (scaled_up numerator shift)
        (scaled_down denominator shift)
        (round_scaled_ratio numerator denominator shift)
unfolding round_scaled_ratio
round_scaled_ratio-IsNearest n d shift positive =
    round_quotient-IsNearest (scaled_up n shift) (scaled_down d shift)
      (scaled_down_positive d shift positive)
