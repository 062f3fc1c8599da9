-- ===== src/Rounding/Tests.antt =====
-- The rounding of src/protocyte/_deterministic_math.py at concrete ratios.
use protocyte.Common.{◌^◌, negsuc, true, false, ◌≡◌, refl, arith}
use protocyte.Rounding.{
  scaled_up, scaled_down, below_power, one_more, rational_floor_log2, round_scaled_ratio,
  binary_format, ratio_fields, ratio_to_binary_bits,
}
use protocyte.Rounding.Nearest.{IsNearest, round_scaled_ratio-IsNearest}
use protocyte.Rounding.Exponent.{rational_floor_log2-below_power}
use protocyte.Rounding.Fields.{FieldsFit, ratio_fields-FieldsFit}

-- 0.1 as a float of 32 bits
tenth : ratio_to_binary_bits 1 10 false 32 ≡ 1036831949
unfolding ratio_to_binary_bits
tenth = refl

-- Half of the least subnormal number is zero, and three quarters of it are the least one.
halves_to_zero : ratio_to_binary_bits 1 (2 ^ 150) false 32 ≡ 0
unfolding ratio_to_binary_bits
halves_to_zero = refl

least_subnormal : ratio_to_binary_bits 3 (2 ^ 151) false 32 ≡ 1
unfolding ratio_to_binary_bits
least_subnormal = refl

-- 2 ** 128 is infinity.
infinite : ratio_to_binary_bits (2 ^ 128) 1 true 32 ≡ 4286578688
unfolding ratio_to_binary_bits
infinite = refl

round_scaled_ratio-IsNearest_example :
    IsNearest
      (scaled_up 5 (negsuc 0))
      (scaled_down 1 (negsuc 0))
      (round_scaled_ratio 5 1 (negsuc 0))
round_scaled_ratio-IsNearest_example = round_scaled_ratio-IsNearest 5 1 (negsuc 0) (omega arith)

tie_to_even : round_scaled_ratio 5 1 (negsuc 0) ≡ 2
unfolding round_scaled_ratio
tie_to_even = refl

rational_floor_log2-below_power_example :
    (below_power 1 10 (rational_floor_log2 1 10) ≡ false)
    × (below_power 1 10 (one_more (rational_floor_log2 1 10)) ≡ true)
rational_floor_log2-below_power_example =
    rational_floor_log2-below_power 1 10 (omega arith) (omega arith)

tenth_exponent : rational_floor_log2 1 10 ≡ negsuc 3
unfolding rational_floor_log2
tenth_exponent = refl

ratio_fields-FieldsFit_example : FieldsFit (binary_format 64) (ratio_fields (binary_format 64) 2 3)
ratio_fields-FieldsFit_example = ratio_fields-FieldsFit 2 3 64 (omega arith)
