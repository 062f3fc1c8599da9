-- ===== src/Rounding/Power.antt =====
-- The functions of src/protocyte/_deterministic_math.py over decimals. Python's module `decimal` is a
-- parameter, `Decimals`, and so are the floats that `struct.unpack` makes of bits.
use Prim.Native.Nat.{bit_and, bit_or}
use protocyte.Common.{
  ℕ, ◌-◌, ◌*◌, ◌/◌, ◌%◌, ◌^◌, ℤ, pos, negsuc, leb_int, ltb_int, eq_int, difference, absolute,
  add_int, subtract_int, multiply_int, floor_divide, Bool, true, false, not, ◌&&◌, ◌||◌, Option,
  none, some, Result, ok, err, ◌>>=◌, ◌>>◌, raise_if, ltb, leb, ◌==◌, if◌then◌else◌, bit_length,
  Bytes, codes, text_eq, List, [], ◌∷◌, text_in,
}
use protocyte.Expression.Functions.{MathError, math_domain, math_not_finite, Mathematics}
use protocyte.Rounding.{BinaryFormat, binary_format, natural, ratio_to_binary_bits}

-- Decimal in `_DECIMAL_CONTEXT`. `none` is DecimalException, OverflowError or ValueError.
pub record Decimals (D F : Type 0) : Type 0 where
  -- Decimal.from_float(x)
  pub from_float : F → D
  pub is_signed : D → Bool
  pub is_infinite_decimal : D → Bool
  pub is_finite_decimal : D → Bool
  -- The numerator and the denominator of `as_integer_ratio()`, of a finite decimal
  pub integer_ratio : D → ℤ × ℕ
  pub copy_abs : D → D
  -- value < n, and n < value
  pub decimal_below : D → ℤ → Bool
  pub decimal_above : D → ℤ → Bool
  pub square_root : D → Option D
  pub exponential : D → Option D
  pub natural_log : D → Option D
  pub decimal_log : D → Option D
  pub decimal_divide : D → D → Option D
  pub decimal_multiply : D → D → Option D
  pub decimal_negate : D → D
  -- Decimal(2)
  pub decimal_two : D
  -- `_binary_float_from_bits`
  pub float_from_bits : ℕ → ℕ → F

unfoldable pub is_power_of_two : ℕ → Bool
is_power_of_two value = ltb 0 value && bit_and value (value - 1) == 0

-- _MAX_EXACT_POWER_BITS
abbrev pub max_exact_power_bits : ℕ
max_exact_power_bits = 4096

unfoldable pub exact_power_operand_fits : ℕ → ℕ → Bool
unfolding bit_length
exact_power_operand_fits value exponent =
    value == 1 || leb exponent (max_exact_power_bits / bit_length value)

-- The numerator and the denominator of a power with an exponent of either sign
abbrev pub turned : ℤ → ℕ × ℕ → ℕ × ℕ
turned (pos k) (numerator, denominator) = (numerator, denominator)
turned (negsuc k) (numerator, denominator) = (denominator, numerator)

abbrev pub is_odd : ℤ → Bool
is_odd n = absolute n % 2 == 1

abbrev pub exponent_limit : ℕ
exponent_limit = 10000

module _ {D F : Type 0} (d : Decimals D F) where
  abbrev pub non_finite_if_none : {A : Type 0} → Option A → Result MathError A
  non_finite_if_none none = err math_not_finite
  non_finite_if_none (some value) = ok value

  unfoldable pub finite_binary_float_from_bits : ℕ → ℕ → Result MathError F
  finite_binary_float_from_bits bits width =
      let format = binary_format width in
      let exponent_mask = (2 ^ format.exponent_bits - 1) * 2 ^ format.fraction_bits in
      raise_if (bit_and bits exponent_mask == exponent_mask) math_not_finite
      >> ok (d.float_from_bits bits width)

  unfoldable pub round_ratio : ℕ → ℕ → Bool → ℕ → Result MathError F
  unfolding ratio_to_binary_bits finite_binary_float_from_bits
  round_ratio numerator denominator negative width =
      finite_binary_float_from_bits (ratio_to_binary_bits numerator denominator negative width)
        width

  -- The bits of infinity
  abbrev pub infinite_bits : BinaryFormat → Bool → ℕ → ℕ
  infinite_bits format negative width =
      bit_or (if negative then 2 ^ (width - 1) else 0)
        ((2 ^ format.exponent_bits - 1) * 2 ^ format.fraction_bits)

  unfoldable pub decimal_to_binary_bits : D → ℕ → Result MathError ℕ
  unfolding ratio_to_binary_bits
  decimal_to_binary_bits value width =
      if d.is_infinite_decimal value
      then ok (infinite_bits (binary_format width) (d.is_signed value) width)
      else if not (d.is_finite_decimal value)
      then err math_domain
      else let (numerator, denominator) = d.integer_ratio (d.copy_abs value) in
        ok (ratio_to_binary_bits (absolute numerator) denominator (d.is_signed value) width)

  unfoldable pub round_decimal : D → ℕ → Result MathError F
  unfolding decimal_to_binary_bits finite_binary_float_from_bits
  round_decimal value width =
      decimal_to_binary_bits value width >>= λ bits. finite_binary_float_from_bits bits width

  unfoldable pub binary_power_of_two : ℤ → Bool → ℕ → Result MathError F
  binary_power_of_two exponent negative width =
      let format = binary_format width in
      let sign_bits = if negative then 2 ^ (width - 1) else 0 in
      let least = subtract_int format.min_exponent (pos (format.precision - 1)) in
      let bits =
        if leb_int format.min_exponent exponent
        then bit_or sign_bits
            (natural (add_int exponent (pos format.bias)) * 2 ^ format.fraction_bits)
        else if leb_int least exponent
        then bit_or sign_bits (2 ^ natural (subtract_int exponent least))
        else sign_bits in
      raise_if (ltb_int format.max_exponent exponent) math_not_finite
      >> ok (d.float_from_bits bits width)

  -- The power of two that a quotient of exponents gives, if it is an integer
  abbrev pub exact_exponent : ℤ → ℕ → Option ℤ
  exact_exponent numerator denominator =
      let quotient = floor_divide numerator (pos denominator) in
      let remainder = subtract_int numerator (multiply_int quotient (pos denominator)) in
      if eq_int remainder (pos 0) then some quotient else none

  abbrev pub power_of_two_if : Option ℤ → Bool → ℕ → Result MathError (Option F)
  power_of_two_if none negative width = ok none
  power_of_two_if (some exponent) negative width =
      binary_power_of_two exponent negative width >>= λ result. ok (some result)

  unfoldable pub exact_power_of_two_result : D → D → Bool → ℕ → Result MathError (Option F)
  unfolding is_power_of_two binary_power_of_two
  exact_power_of_two_result base exponent negative width =
      let (base_numerator, base_denominator) = d.integer_ratio base in
      let (exponent_numerator, exponent_denominator) = d.integer_ratio exponent in
      let base_exponent =
        difference (bit_length (absolute base_numerator)) (bit_length base_denominator) in
      if is_power_of_two (absolute base_numerator) && is_power_of_two base_denominator
      then power_of_two_if
          (exact_exponent (multiply_int base_exponent exponent_numerator) exponent_denominator)
          negative width
      else ok none

  unfoldable pub exact_integral_power_result : D → ℤ → Bool → ℕ → Result MathError (Option F)
  unfolding exact_power_operand_fits round_ratio
  exact_integral_power_result base exponent negative width =
      let ratio = d.integer_ratio base in
      let (numerator, denominator) = turned exponent (absolute ratio.0, ratio.1) in
      let magnitude = absolute exponent in
      if exact_power_operand_fits numerator magnitude
        && exact_power_operand_fits denominator magnitude
      then (round_ratio (numerator ^ magnitude) (denominator ^ magnitude) negative width
          >>= λ result. ok (some result))
      else ok none

  -- The logarithm to the base 2
  abbrev pub log_two : D → Option D
  log_two value = elim (d.natural_log value) [
    | none ↦ none
    | some numerator ↦ elim (d.natural_log d.decimal_two) [
      | none ↦ none
      | some denominator ↦ d.decimal_divide numerator denominator
    ]
  ]

  -- The table of functions; other names do not reach it.
  abbrev pub decimal_function : Bytes → D → Option D
  decimal_function name operand =
      if text_eq name (codes "sqrt")
      then d.square_root operand
      else if text_eq name (codes "exp")
      then d.exponential operand
      else if text_eq name (codes "log")
      then d.natural_log operand
      else if text_eq name (codes "log2")
      then log_two operand
      else if text_eq name (codes "log10")
      then d.decimal_log operand
      else none

  abbrev pub logarithms : List Bytes
  logarithms = codes "log" ∷ codes "log2" ∷ codes "log10" ∷ []

  -- 0.0 and -0.0
  abbrev pub signed_zero_of : Bool → F
  signed_zero_of negative = d.float_from_bits (if negative then 2 ^ 63 else 0) 64

  -- `evaluate_unary` of a float
  unfoldable pub evaluate_decimal : Bytes → F → ℕ → Result MathError F
  unfolding round_decimal
  evaluate_decimal name value width =
      let operand = d.from_float value in
      raise_if (text_eq name (codes "sqrt") && d.decimal_below operand (pos 0)) math_domain
      >> raise_if (text_in name logarithms && not (d.decimal_above operand (pos 0))) math_domain
      >> raise_if (text_eq name (codes "exp") && d.decimal_above operand (pos exponent_limit))
          math_not_finite
      >> (if text_eq name (codes "exp") && d.decimal_below operand (negsuc (exponent_limit - 1))
          then ok (signed_zero_of false)
          else non_finite_if_none (decimal_function name operand) >>= λ result.
              round_decimal result width)

  -- The last step of `evaluate_pow`: by the exponential of a product
  abbrev pub rounded_power : Bool → Option D → Result MathError F
  rounded_power negative none = err math_not_finite
  rounded_power negative (some transformed) =
      raise_if (d.decimal_above transformed (pos exponent_limit)) math_not_finite
      >> (if d.decimal_below transformed (negsuc (exponent_limit - 1))
          then ok (signed_zero_of negative)
          else non_finite_if_none (d.exponential transformed) >>= λ result.
              round_decimal (if negative then d.decimal_negate result else result) 64)

  abbrev pub transformed_of : D → D → Option D
  transformed_of base exponent = elim (d.natural_log base) [
    | none ↦ none
    | some log ↦ d.decimal_multiply exponent log
  ]

  -- Behind the exact power of two: the exact power of an integral exponent, or the rounded one
  abbrev pub integral_or_rounded : D → D → Option ℤ → Bool → Result MathError F
  integral_or_rounded base exponent none negative =
      rounded_power negative (transformed_of base exponent)
  integral_or_rounded base exponent (some k) negative =
      exact_integral_power_result base k negative 64 >>= λ exact. elim exact [
        | some result ↦ ok result
        | none ↦ rounded_power negative (transformed_of base exponent)
      ]

  -- The power of a positive base
  abbrev pub positive_power : D → D → Option ℤ → Bool → Result MathError F
  positive_power base exponent integral_exponent negative =
      exact_power_of_two_result base exponent negative 64 >>= λ exact. elim exact [
        | some result ↦ ok result
        | none ↦ integral_or_rounded base exponent integral_exponent negative
      ]

  -- 1.0 and -1.0
  abbrev pub signed_one_of : Bool → F
  signed_one_of negative =
      d.float_from_bits (bit_or (if negative then 2 ^ 63 else 0) (1023 * 2 ^ 52)) 64

  abbrev pub is_odd_integral : Option ℤ → Bool
  is_odd_integral none = false
  is_odd_integral (some k) = is_odd k

  -- The exponent, if it is an integer
  abbrev pub integral_of_ratio : ℤ × ℕ → Option ℤ
  integral_of_ratio (numerator, denominator) = if denominator == 1 then some numerator else none

  abbrev pub is_missing : Option ℤ → Bool
  is_missing none = true
  is_missing (some k) = false

  abbrev pub is_decimal_zero : D → Bool
  is_decimal_zero value = eq_int (d.integer_ratio value).0 (pos 0)

  abbrev pub is_decimal_one : D → Bool
  is_decimal_one value = eq_int (d.integer_ratio value).0 (pos 1) && (d.integer_ratio value).1 == 1

  -- A base that is not zero
  abbrev pub nonzero_power : D → D → Option ℤ → Result MathError F
  nonzero_power base exponent integral_exponent =
      let below = d.decimal_below base (pos 0) in
      let negative = below && is_odd_integral integral_exponent in
      let magnitude = if below then d.copy_abs base else base in
      raise_if (below && is_missing integral_exponent) math_domain
      >> (if is_decimal_one magnitude
          then ok (signed_one_of negative)
          else positive_power magnitude exponent integral_exponent negative)

  -- `evaluate_pow`
  unfoldable pub evaluate_decimal_pow : F → F → Result MathError F
  unfolding exact_power_of_two_result exact_integral_power_result round_decimal
  evaluate_decimal_pow float_base float_exponent =
      let base = d.from_float float_base in
      let exponent = d.from_float float_exponent in
      let integral_exponent = integral_of_ratio (d.integer_ratio exponent) in
      if is_decimal_zero exponent
      then ok (signed_one_of false)
      else if is_decimal_zero base
      then raise_if (d.decimal_below exponent (pos 0)) math_domain
        >> ok (signed_zero_of (d.is_signed base && is_odd_integral integral_exponent))
      else nonzero_power base exponent integral_exponent

  -- The functions for constant expressions
  abbrev pub deterministic_mathematics : Mathematics F
  deterministic_mathematics = record {
    evaluate_unary = evaluate_decimal;
    evaluate_deterministic_pow = evaluate_decimal_pow;
  }
