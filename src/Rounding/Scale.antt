-- ===== src/Rounding/Scale.antt =====
-- The ratio that `_ratio_to_binary_bits` of src/protocyte/_deterministic_math.py scales and rounds lies
-- between two powers of two.
use protocyte.Common.{
  ℕ, zero, suc, ◌+◌, ◌-◌, ◌*◌, ◌/◌, ◌^◌, ◌≤◌, ◌<◌, ℤ, pos, negsuc, difference, subtract_int, true,
  false, ◌≡◌, sym, ap, subst, ◌∙◌, ltb, Bool-cases, inl, inr, arith, pow-add,
}
use native.Mathlib.Nat.{
  mul-le-mul_right, mul-lt-mul_of_pos_right, mul_assoc, mul_comm, div-lt_iff_lt-mul, mul-one,
  pow-zero, pow-suc,
}
use protocyte.Rounding.{scaled_up, scaled_down, round_quotient, below_power, one_more}
use protocyte.Rounding.Exponent.{power_positive}

-- Rounding keeps between powers of two.
pub round_quotient-le : (n d m : ℕ) → 0 < d → n < m * d → round_quotient n d ≤ m
unfolding round_quotient
round_quotient-le n d m positive less =
    let below : n / d < m = (div-lt_iff_lt-mul positive).1 less in ground (arith, below)

pub round_quotient-ge : (n d m : ℕ) → 0 < d → m * d ≤ n → m ≤ round_quotient n d
unfolding round_quotient
round_quotient-ge n d m positive more =
    let above : m ≤ n / d = elim (Bool-cases (ltb (n / d) m)) [
      | inl less ↦
          let small : n / d < m = ground arith in
          let absurdity = (div-lt_iff_lt-mul positive).0 small in omega (arith, absurdity, more)
      | inr other ↦ ground arith
    ] in
    ground (arith, above)

-- A ratio between 2 ** e and 2 ** (e + 1), scaled by t - e, is between 2 ** t and 2 ** (t + 1).
unfoldable pub Scaled : ℕ → ℕ → ℕ → ℤ → Type 0
Scaled n d t shift =
    (2 ^ t * scaled_down d shift ≤ scaled_up n shift)
    × (scaled_up n shift < 2 ^ suc t * scaled_down d shift)

power_Scaled : (n d t k : ℕ) → d * 2 ^ k ≤ n → n < d * 2 ^ suc k → Scaled n d t (difference t k)
unfolding Scaled
power_Scaled n d t k low high = elim (Bool-cases (ltb t k)) [
  | inl less ↦ rw less (
      let j = k - t - 1 in
      let e : k ≡ suc j + t = ground arith in
      let whole = pow-add 2 (suc j) t in
      let assoc = mul_assoc d (2 ^ suc j) (2 ^ t) in
      let turn = mul_comm (2 ^ t) (d * 2 ^ suc j) in
      let here : 2 ^ k ≡ 2 ^ (suc j + t) = ap (λ x. 2 ^ x) e in
      let equal : d * 2 ^ k ≡ d * (2 ^ suc j * 2 ^ t) = ap (λ x. d * x) (here ∙ whole) in
      let double : d * 2 ^ suc k ≡ 2 * (d * 2 ^ k) = twice d k in
      let more : 2 ^ suc t * (d * 2 ^ suc j) ≡ 2 * (2 ^ t * (d * 2 ^ suc j)) =
        twice_left t (d * 2 ^ suc j) in
      (
        omega (arith, low, assoc, turn, equal),
        omega (arith, high, assoc, turn, equal, double, more),
      ))
  | inr other ↦ rw other (
      let j = t - k in
      let e : t ≡ k + j = ground arith in
      let whole = pow-add 2 k j in
      let assoc = mul_assoc d (2 ^ k) (2 ^ j) in
      let turn = mul_comm (2 ^ t) d in
      let here : 2 ^ t ≡ 2 ^ (k + j) = ap (λ x. 2 ^ x) e in
      let equal : d * 2 ^ t ≡ d * (2 ^ k * 2 ^ j) = ap (λ x. d * x) (here ∙ whole) in
      let lower = mul-le-mul_right (2 ^ j) low in
      let upper = mul-lt-mul_of_pos_right high (power_positive j) in
      let double : d * 2 ^ suc k ≡ 2 * (d * 2 ^ k) = twice d k in
      let spread : d * 2 ^ suc k * 2 ^ j ≡ 2 * (d * 2 ^ k * 2 ^ j) =
        ap (λ x. x * 2 ^ j) double ∙ mul_assoc 2 (d * 2 ^ k) (2 ^ j) in
      let more : 2 ^ suc t * d ≡ 2 * (2 ^ t * d) = twice_left t d in
      (
        omega (arith, lower, assoc, turn, equal),
        omega (arith, upper, assoc, turn, equal, spread, more),
      ))
]
  where
    twice : (d k : ℕ) → d * 2 ^ suc k ≡ 2 * (d * 2 ^ k)
    twice d k = ap (λ x. d * x) (pow-suc 2 k) ∙ sym (mul_assoc d (2 ^ k) 2) ∙ mul_comm (d * 2 ^ k) 2

    twice_left : (t m : ℕ) → 2 ^ suc t * m ≡ 2 * (2 ^ t * m)
    twice_left t m = ap (λ x. x * m) (pow-suc 2 t ∙ mul_comm (2 ^ t) 2) ∙ mul_assoc 2 (2 ^ t) m

-- The same below one: the ratio is at least 2 ** -(k + 1), and below 2 ** -k.
positive_Scaled : (n d t k : ℕ) → d ≤ n * 2 ^ suc k → n * 2 ^ k < d → Scaled n d t (pos (t + suc k))
unfolding Scaled
positive_Scaled n d t k low high =
    let e1 : t + suc k ≡ suc k + t = omega arith in
    let e2 : suc k + t ≡ k + suc t = omega arith in
    let first =
      ap (λ x. n * x) (ap (λ x. 2 ^ x) e1 ∙ pow-add 2 (suc k) t)
      ∙ sym (mul_assoc n (2 ^ suc k) (2 ^ t)) in
    let second =
      ap (λ x. n * x) (ap (λ x. 2 ^ x) (e1 ∙ e2) ∙ pow-add 2 k (suc t))
      ∙ sym (mul_assoc n (2 ^ k) (2 ^ suc t)) in
    let lower = mul-le-mul_right (2 ^ t) low in
    let upper = mul-lt-mul_of_pos_right high (power_positive (suc t)) in
    let turn = mul_comm (2 ^ t) d in
    let turn_more = mul_comm (2 ^ suc t) d in
    (omega (arith, lower, first, turn), omega (arith, upper, second, turn_more))

-- What the exponent says of the scaled ratio
pub ratio_Scaled :
    (n d t : ℕ) (e : ℤ)
    → below_power n d e ≡ false
    → below_power n d (one_more e) ≡ true
    → Scaled n d t (subtract_int (pos t) e)
ratio_Scaled n d t (pos zero) low high =
    let same : difference t 0 ≡ pos (t + 0) =
      let none : ltb t 0 ≡ false = ground arith in rw none (ground arith) in
    subst (Scaled n d t) same (power_Scaled n d t 0 (ground arith) (ground arith))
ratio_Scaled n d t (pos (suc k)) low high = power_Scaled n d t (suc k) (ground arith) (ground arith)
ratio_Scaled n d t (negsuc zero) low high =
    let unit : d * 2 ^ 0 ≡ d = ap (λ x. d * x) (pow-zero 2) ∙ mul-one d in
    let unit_n : n * 2 ^ 0 ≡ n = ap (λ x. n * x) (pow-zero 2) ∙ mul-one n in
    let less : n < d * 2 ^ 0 = ground arith in
    positive_Scaled n d t 0 (ground arith) (omega (arith, unit, unit_n, less))
ratio_Scaled n d t (negsuc (suc k)) low high =
    positive_Scaled n d t (suc k) (ground arith) (ground arith)
