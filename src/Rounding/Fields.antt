-- ===== src/Rounding/Fields.antt =====
-- The fields that `_ratio_to_binary_bits` of src/protocyte/_deterministic_math.py fills fit their bits.
use protocyte.Common.{
  ℕ, zero, suc, ◌+◌, ◌-◌, ◌*◌, ◌/◌, ◌^◌, ◌≤◌, ◌<◌, ℤ, pos, negsuc, ltb_int, add_int, subtract_int,
  Bool, true, false, not, ◌&&◌, ◌≡◌, refl, sym, ap, subst, ◌∙◌, ltb, ◌==◌, if◌then◌else◌,
  Bool-cases, inl, inr, arith, pow-add,
}
use native.Mathlib.Nat.{
  mul-lt-mul_of_pos_right, mul_assoc, mul_comm, mul-pos, pow-le-pow_right, mul-le-mul_left, pow-suc,
}
use protocyte.Rounding.{
  scaled_up, scaled_down, round_scaled_ratio, below_power, one_more, rational_floor_log2,
  BinaryFormat, binary_format, natural, subnormal_fields, normal_fields, carried_fields,
  ratio_fields,
}
use protocyte.Rounding.Exponent.{power_positive, rational_floor_log2-below_power}
use protocyte.Rounding.Scale.{round_quotient-le, round_quotient-ge, Scaled, ratio_Scaled}

-- The significand of a normal number has its highest bit, or is the next power of two.
significand_bounds :
    (n d t : ℕ) (shift : ℤ)
    → 0 < scaled_down d shift
    → Scaled n d t shift
    → (2 ^ t ≤ round_scaled_ratio n d shift) × (round_scaled_ratio n d shift ≤ 2 ^ suc t)
unfolding round_scaled_ratio Scaled
significand_bounds n d t shift positive (low, high) = (
  round_quotient-ge (scaled_up n shift) (scaled_down d shift) (2 ^ t) positive low,
  round_quotient-le (scaled_up n shift) (scaled_down d shift) (2 ^ suc t) positive high,
)

-- The significand of a number below the normal ones is at most the first normal one.
subnormal_bound :
    (n d t m : ℕ) (e : ℤ)
    → 0 < d
    → ltb_int e (negsuc m) ≡ true
    → below_power n d (one_more e) ≡ true
    → round_scaled_ratio n d (pos (t + suc m)) ≤ 2 ^ t
unfolding round_scaled_ratio
subnormal_bound n d t m (pos k) positive less high = cc
subnormal_bound n d t m (negsuc zero) positive less high = absurd (ground arith)
subnormal_bound n d t m (negsuc (suc k)) positive less high =
    round_quotient-le (n * 2 ^ (t + suc m)) d (2 ^ t) positive (
      let small : n * 2 ^ suc k < d = ground arith in
      let ordered : suc m ≤ suc k = ground arith in
      let two : 0 < 2 = omega arith in
      let power = pow-le-pow_right two ordered in
      let factor = mul-le-mul_left n power in
      let below : n * 2 ^ suc m < d = omega (arith, small, factor) in
      let scaled = mul-lt-mul_of_pos_right below (power_positive t) in
      let e1 : t + suc m ≡ suc m + t = omega arith in
      let first =
        ap (λ x. n * x) (ap (λ x. 2 ^ x) e1 ∙ pow-add 2 (suc m) t)
        ∙ sym (mul_assoc n (2 ^ suc m) (2 ^ t)) in
      let turn = mul_comm (2 ^ t) d in omega (arith, scaled, first, turn))

-- The fields are in their bits, and are no NaN.
abbrev pub FieldsFit : BinaryFormat → ℕ × ℕ → Type 0
FieldsFit format fields =
    (ltb fields.0 (2 ^ format.exponent_bits) ≡ true)
    × (ltb fields.1 (2 ^ format.fraction_bits) ≡ true)
    × ((fields.0 == 2 ^ format.exponent_bits - 1 && not (fields.1 == 0)) ≡ false)

biased_bound : (e : ℤ) (m b : ℕ) → ltb_int (pos m) e ≡ false → natural (add_int e (pos b)) ≤ m + b
biased_bound (pos k) m b bounded = ground arith
biased_bound (negsuc k) m b bounded = elim (Bool-cases (ltb b (suc k))) [
  | inl less ↦ rw less (omega arith)
  | inr other ↦ rw other (omega arith)
]

scaled_down-positive : (d : ℕ) (shift : ℤ) → 0 < d → 0 < scaled_down d shift
scaled_down-positive d (pos k) positive = positive
scaled_down-positive d (negsuc k) positive = mul-pos positive (power_positive (suc k))

module _ (t lowest highest bias bits : ℕ) (room : suc (highest + bias) < 2 ^ bits) where
  abbrev format : BinaryFormat
  format = record {
    precision = suc t;
    min_exponent = negsuc lowest;
    max_exponent = pos highest;
    bias = bias;
    exponent_bits = bits;
    fraction_bits = t;
  }

  subnormal_fit :
      (significand : ℕ)
      → significand ≤ 2 ^ t
      → FieldsFit format (subnormal_fields format significand)
  subnormal_fit significand bound =
      let top : suc t - 1 ≡ t = omega arith in
      rw top (elim (Bool-cases (ltb significand (2 ^ t))) [
        | inl less ↦ rw less (ground arith, less, ground arith)
        | inr other ↦ rw other (ground arith, ground (arith, power_positive t), ground arith)
      ])

  normal_fit :
      (significand : ℕ) (e : ℤ)
      → 2 ^ t ≤ significand
      → significand < 2 ^ suc t
      → FieldsFit format (normal_fields format significand e)
  normal_fit significand e low high = elim (Bool-cases (ltb_int (pos highest) e)) [
    | inl infinite ↦ rw infinite (ground arith, ground (arith, power_positive t), ground arith)
    | inr finite ↦
        let bound = biased_bound e highest bias finite in
        let power = pow-suc 2 t in
        let top : suc t - 1 ≡ t = omega arith in
        rw (finite, top) (ground (arith, bound), ground (arith, power), ground (arith, bound))
  ]

  carried_fit :
      (significand : ℕ) (e : ℤ)
      → 2 ^ t ≤ significand
      → significand ≤ 2 ^ suc t
      → FieldsFit format (carried_fields format significand e)
  carried_fit significand e low high = elim (Bool-cases (significand == 2 ^ suc t)) [
    | inl carried ↦
        let power = pow-suc 2 t in
        let positive = power_positive t in
        rw carried (
          normal_fit (significand / 2) (one_more e) (ground (arith, power))
            (ground (arith, power, positive)))
    | inr kept ↦ rw kept (normal_fit significand e low (ground arith))
  ]

  branch :
      (test : Bool) (x y : ℕ × ℕ)
      → (test ≡ true → FieldsFit format x)
      → (test ≡ false → FieldsFit format y)
      → FieldsFit format (if test then x else y)
  branch true x y when_true when_false = when_true refl
  branch false x y when_true when_false = when_false refl

  fields_fit : (n d : ℕ) → 0 < d → FieldsFit format (ratio_fields format n d)
  unfolding ratio_fields
  fields_fit zero d positive = (ground arith, ground (arith, power_positive t), ground arith)
  fields_fit (suc n) d positive =
      let e = rational_floor_log2 (suc n) d in
      let some_bits : 0 < suc n = omega arith in
      let (low, high) = rational_floor_log2-below_power (suc n) d some_bits positive in
      let top : t ≡ suc t - 1 = omega arith in
      let shift = subtract_int (pos t) e in
      let (least, most) =
        significand_bounds (suc n) d t shift (scaled_down-positive d shift positive)
          (ratio_Scaled (suc n) d t e low high) in
      branch (ltb_int e (negsuc lowest)) _ _
        (λ less.
          subst
            (λ k. FieldsFit format (
              subnormal_fields format
                (round_scaled_ratio (suc n) d (subtract_int (pos k) (negsuc lowest)))))
            top
            (subnormal_fit (round_scaled_ratio (suc n) d (pos (t + suc lowest)))
              (subnormal_bound (suc n) d t lowest e positive less high)))
        (λ other.
          subst
            (λ k.
              FieldsFit format
                (carried_fields format (round_scaled_ratio (suc n) d (subtract_int (pos k) e)) e))
            top (carried_fit (round_scaled_ratio (suc n) d shift) e least most))

-- For a positive denominator and either width, the exponent field and the fraction that
-- `_ratio_to_binary_bits` puts together fit their bits, so that they do not overlap, and they are no NaN.
pub ratio_fields-FieldsFit :
    (numerator denominator width : ℕ)
    → 0 < denominator
    → FieldsFit (binary_format width) (ratio_fields (binary_format width) numerator denominator)
ratio_fields-FieldsFit n d width positive = elim (Bool-cases (width == 32)) [
  | inl narrow ↦ rw narrow (fields_fit 23 125 127 127 8 (omega arith) n d positive)
  | inr wide ↦ rw wide (fields_fit 52 1021 1023 1023 11 (omega arith) n d positive)
]
