-- ===== src/Rounding.antt =====
-- The rounding of ratios of integers to binary floating point: src/protocyte/_deterministic_math.py,
-- and the same steps for defaults of fields in src/protocyte/model.py.
pub mod Nearest
pub mod Exponent
pub mod Scale
pub mod Fields
pub mod Power
pub mod Tests
use Prim.Native.Nat.{bit_or}
use protocyte.Common.{
  ℕ, zero, suc, ◌+◌, ◌-◌, ◌*◌, ◌/◌, ◌%◌, ◌^◌, ℤ, pos, negsuc, ltb_int, difference, add_int,
  subtract_int, negate_int, Bool, true, false, ◌&&◌, ◌||◌, ltb, ◌==◌, if◌then◌else◌, bit_length,
  Result, ok, err,
}

-- numerator << shift, if shift >= 0
abbrev pub scaled_up : ℕ → ℤ → ℕ
scaled_up numerator (pos k) = numerator * 2 ^ k
scaled_up numerator (negsuc k) = numerator

-- denominator << -shift, if shift < 0
abbrev pub scaled_down : ℕ → ℤ → ℕ
scaled_down denominator (pos k) = denominator
scaled_down denominator (negsuc k) = denominator * 2 ^ suc k

-- The quotient to the nearest integer, a half to the even one
unfoldable pub round_quotient : ℕ → ℕ → ℕ
round_quotient numerator denominator =
    let quotient = numerator / denominator in
    let doubled_remainder = numerator % denominator * 2 in
    if ltb denominator doubled_remainder || doubled_remainder == denominator && quotient % 2 == 1
    then quotient + 1
    else quotient

-- `_round_scaled_ratio`, and `_round_ratio_to_integer` of src/protocyte/model.py
unfoldable pub round_scaled_ratio : ℕ → ℕ → ℤ → ℕ
unfolding round_quotient
round_scaled_ratio numerator denominator shift =
    round_quotient (scaled_up numerator shift) (scaled_down denominator shift)

-- numerator < denominator * 2 ** exponent, as the source writes it for either sign
abbrev pub below_power : ℕ → ℕ → ℤ → Bool
below_power numerator denominator (pos k) = ltb numerator (denominator * 2 ^ k)
below_power numerator denominator (negsuc k) = ltb (numerator * 2 ^ suc k) denominator

-- exponent - 1
abbrev pub one_less : ℤ → ℤ
one_less (pos zero) = negsuc 0
one_less (pos (suc k)) = pos k
one_less (negsuc k) = negsuc (suc k)

-- exponent + 1
abbrev pub one_more : ℤ → ℤ
one_more (pos k) = pos (suc k)
one_more (negsuc zero) = pos 0
one_more (negsuc (suc k)) = negsuc k

-- `_rational_floor_log2` of src/protocyte/model.py, which `_ratio_to_binary_bits` repeats
unfoldable pub rational_floor_log2 : ℕ → ℕ → ℤ
unfolding bit_length
rational_floor_log2 numerator denominator =
    let exponent = difference (bit_length numerator) (bit_length denominator) in
    if below_power numerator denominator exponent then one_less exponent else exponent

-- A row of `_BINARY_FORMATS`.
pub record BinaryFormat : Type 0 where
  pub precision : ℕ
  pub min_exponent : ℤ
  pub max_exponent : ℤ
  pub bias : ℕ
  pub exponent_bits : ℕ
  pub fraction_bits : ℕ

-- The row of a width: 32 or 64
abbrev pub binary32 : BinaryFormat
binary32 = record {
  precision = 24;
  min_exponent = negsuc 125;
  max_exponent = pos 127;
  bias = 127;
  exponent_bits = 8;
  fraction_bits = 23;
}

abbrev pub binary64 : BinaryFormat
binary64 = record {
  precision = 53;
  min_exponent = negsuc 1021;
  max_exponent = pos 1023;
  bias = 1023;
  exponent_bits = 11;
  fraction_bits = 52;
}

-- The integer of an exponent that is not negative
abbrev pub natural : ℤ → ℕ
natural (pos n) = n
natural (negsuc n) = 0

-- The exponent field and the fraction of `_ratio_to_binary_bits`, behind the subnormal rounding
abbrev pub subnormal_fields : BinaryFormat → ℕ → ℕ × ℕ
subnormal_fields format significand =
    if ltb significand (2 ^ (format.precision - 1)) then (0, significand) else (1, 0)

-- The same, of a normal significand and its exponent; the exponent past the last one is infinity.
abbrev pub normal_fields : BinaryFormat → ℕ → ℤ → ℕ × ℕ
normal_fields format significand exponent =
    if ltb_int format.max_exponent exponent
    then (2 ^ format.exponent_bits - 1, 0)
    else (natural (add_int exponent (pos format.bias)), significand - 2 ^ (format.precision - 1))

-- The carry of a significand that is rounded up to the next power of two
abbrev pub carried_fields : BinaryFormat → ℕ → ℤ → ℕ × ℕ
carried_fields format significand exponent =
    if significand == 2 ^ format.precision
    then normal_fields format (significand / 2) (one_more exponent)
    else normal_fields format significand exponent

unfoldable pub ratio_fields : BinaryFormat → ℕ → ℕ → ℕ × ℕ
unfolding rational_floor_log2 round_scaled_ratio
ratio_fields format zero denominator = (0, 0)
ratio_fields format (suc n) denominator =
    let exponent = rational_floor_log2 (suc n) denominator in
    let top = pos (format.precision - 1) in
    if ltb_int exponent format.min_exponent
    then subnormal_fields format
        (round_scaled_ratio (suc n) denominator (subtract_int top format.min_exponent))
    else carried_fields format (round_scaled_ratio (suc n) denominator (subtract_int top exponent))
        exponent

-- _BINARY_FORMATS[width]; the callers pass 32 or 64.
abbrev pub binary_format : ℕ → BinaryFormat
binary_format width = if width == 32 then binary32 else binary64

-- The bits of a number from its sign and its fields
abbrev pub assembled : BinaryFormat → Bool → ℕ → ℕ × ℕ → ℕ
assembled format negative width fields =
    let sign_bits = if negative then 2 ^ (width - 1) else 0 in
    bit_or (bit_or sign_bits (fields.0 * 2 ^ format.fraction_bits)) fields.1

unfoldable pub ratio_to_binary_bits : ℕ → ℕ → Bool → ℕ → ℕ
unfolding ratio_fields
ratio_to_binary_bits numerator denominator negative width =
    assembled (binary_format width) negative width
      (ratio_fields (binary_format width) numerator denominator)
