-- ===== src/Rounding/Exponent.antt =====
-- `_rational_floor_log2` of src/protocyte/model.py finds the binary exponent of a ratio.
use protocyte.Common.{
  ℕ, zero, suc, ◌+◌, ◌-◌, ◌*◌, ◌^◌, ◌≤◌, ◌<◌, ℤ, pos, negsuc, difference, true, false, ◌≡◌, refl,
  ap, subst, ◌∙◌, ltb, if◌then◌else◌, Bool-cases, inl, inr, arith, bit_length, bit_length-bounds,
  pow-add,
}
use native.Mathlib.Nat.{mul-le-mul_right, mul-lt-mul_of_pos_right, one-le-pow}
use protocyte.Rounding.{below_power, one_less, one_more, rational_floor_log2}

pub power_positive : (k : ℕ) → 0 < 2 ^ k
power_positive k = one-le-pow k 2 (omega arith)

-- From a bound by a power of two to one by a multiple of the denominator
above_product : (n d y k : ℕ) → 2 ^ y ≤ d → n < 2 ^ (y + k) → ltb n (d * 2 ^ k) ≡ true
above_product n d y k low high =
    let whole = pow-add 2 y k in
    let more = mul-le-mul_right (2 ^ k) low in
    let less : n < d * 2 ^ k = omega (arith, whole, more, high) in ground arith

below_product : (n d y k : ℕ) → d < 2 ^ y → 2 ^ (y + k) ≤ n → ltb n (d * 2 ^ k) ≡ false
below_product n d y k high low =
    let whole = pow-add 2 y k in
    let less = mul-lt-mul_of_pos_right high (power_positive k) in
    let more : d * 2 ^ k ≤ n = omega (arith, whole, less, low) in ground arith

scaled_below : (n d x k : ℕ) → n < 2 ^ x → 2 ^ (x + k) ≤ d → ltb (n * 2 ^ k) d ≡ true
scaled_below n d x k high low =
    let whole = pow-add 2 x k in
    let less = mul-lt-mul_of_pos_right high (power_positive k) in
    let more : n * 2 ^ k < d = omega (arith, whole, less, low) in ground arith

scaled_above : (n d x k : ℕ) → 2 ^ x ≤ n → d < 2 ^ (x + k) → ltb (n * 2 ^ k) d ≡ false
scaled_above n d x k low high =
    let whole = pow-add 2 x k in
    let more = mul-le-mul_right (2 ^ k) low in
    let less : d ≤ n * 2 ^ k = omega (arith, whole, more, high) in ground arith

-- The lengths of the numbers bound the exponent from above and below.
module _ (n d x y : ℕ) (n_low : 2 ^ x ≤ n) (n_high : n < 2 ^ suc x) (d_low : 2 ^ y ≤ d)
    (d_high : d < 2 ^ suc y) where
  positive_bounds :
      (k : ℕ)
      → x ≡ y + k
      → (below_power n d (one_more (pos k)) ≡ true) × (below_power n d (one_less (pos k)) ≡ false)
  positive_bounds zero same =
      let e1 : suc x ≡ y + 1 = omega (arith, same) in
      let e2 : suc y ≡ x + 1 = omega (arith, same) in
      (
        above_product n d y 1 d_low (subst (λ e. n < 2 ^ e) e1 n_high),
        scaled_above n d x 1 n_low (subst (λ e. d < 2 ^ e) e2 d_high),
      )
  positive_bounds (suc k) same =
      let e1 : suc x ≡ y + suc (suc k) = omega (arith, same) in
      let e2 : x ≡ suc y + k = omega (arith, same) in
      (
        above_product n d y (suc (suc k)) d_low (subst (λ e. n < 2 ^ e) e1 n_high),
        below_product n d (suc y) k d_high (subst (λ e. 2 ^ e ≤ n) e2 n_low),
      )

  negative_bounds :
      (k : ℕ)
      → y ≡ x + suc k
      → (below_power n d (one_more (negsuc k)) ≡ true)
        × (below_power n d (one_less (negsuc k)) ≡ false)
  negative_bounds zero same =
      let e1 : suc x ≡ y + 0 = omega (arith, same) in
      let e2 : suc y ≡ x + 2 = omega (arith, same) in
      (
        above_product n d y 0 d_low (subst (λ e. n < 2 ^ e) e1 n_high),
        scaled_above n d x 2 n_low (subst (λ e. d < 2 ^ e) e2 d_high),
      )
  negative_bounds (suc k) same =
      let e1 : y ≡ suc x + suc k = omega (arith, same) in
      let e2 : suc y ≡ x + suc (suc (suc k)) = omega (arith, same) in
      (
        scaled_below n d (suc x) (suc k) n_high (subst (λ e. 2 ^ e ≤ d) e1 d_low),
        scaled_above n d x (suc (suc (suc k))) n_low (subst (λ e. d < 2 ^ e) e2 d_high),
      )

  length_bounds :
      (below_power n d (one_more (difference (suc x) (suc y))) ≡ true)
      × (below_power n d (one_less (difference (suc x) (suc y))) ≡ false)
  length_bounds = elim (Bool-cases (ltb (suc x) (suc y))) [
    | inl less ↦ rw less (negative_bounds (suc y - suc x - 1) (ground arith))
    | inr other ↦ rw other (positive_bounds (suc x - suc y) (ground arith))
  ]

pub one_more-one_less : (e : ℤ) → one_more (one_less e) ≡ e
one_more-one_less (pos zero) = refl
one_more-one_less (pos (suc k)) = refl
one_more-one_less (negsuc k) = refl

-- For positive numerator and denominator, `_rational_floor_log2` returns the exponent e with
-- 2 ** e <= numerator / denominator < 2 ** (e + 1), which is negative for ratios below one.
pub rational_floor_log2-below_power :
    (numerator denominator : ℕ)
    → 0 < numerator
    → 0 < denominator
    → (below_power numerator denominator (rational_floor_log2 numerator denominator) ≡ false)
      × (below_power numerator denominator (one_more (rational_floor_log2 numerator denominator))
          ≡ true)
unfolding rational_floor_log2
rational_floor_log2-below_power n d n_positive d_positive =
    let (n_long, n_low, n_high) = bit_length-bounds n n_positive in
    let (d_long, d_low, d_high) = bit_length-bounds d d_positive in
    let x = bit_length n - 1 in
    let y = bit_length d - 1 in
    let ex : bit_length n ≡ suc x = omega (arith, n_long) in
    let ey : bit_length d ≡ suc y = omega (arith, d_long) in
    let (high, low) =
      length_bounds n d x y n_low (subst (λ e. n < 2 ^ e) ex n_high) d_low
        (subst (λ e. d < 2 ^ e) ey d_high) in
    rw (ex, ey) (choose (difference (suc x) (suc y)) high low)
  where
    choose :
        (e : ℤ)
        → below_power n d (one_more e) ≡ true
        → below_power n d (one_less e) ≡ false
        → (below_power n d (if below_power n d e then one_less e else e) ≡ false)
          × (below_power n d (one_more (if below_power n d e then one_less e else e)) ≡ true)
    choose e high low = elim (Bool-cases (below_power n d e)) [
      | inl less ↦ rw less (low, ap (below_power n d) (one_more-one_less e) ∙ less)
      | inr other ↦ rw other (other, high)
    ]
