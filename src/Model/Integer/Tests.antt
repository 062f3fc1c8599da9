-- ===== src/Model/Integer/Tests.antt =====
-- Tests and worked instances for the integers of constant expressions.
use Prim.Native.Nat.{bit_and}
use protocyte.Common.{ℕ, max, leb, ℤ, pos, negsuc, ◌≡◌, refl, true, false, not, ◌||◌, some, ok, err}
use protocyte.Model.Integer.{
  IntegerKind, int32, uint32, int64, bits_of, is_signed, out_of_kind, is_below_zero, abs,
  common_integer_kind, integer_bits, integer_from_bits, truncating_integer_divide, convert_integer,
  shift_value, bitwise_at, bitwise_complement, literal_integer_kind, shift_too_far,
}
use protocyte.Model.Integer.Bits.{integer_from_bits-integer_bits}
use protocyte.Model.Integer.Kinds.{is_unsigned_of, common_integer_kind_exists}
use protocyte.Model.Integer.Results.{shift_value_in_range, bitwise_at_in_range}

-- -7 / 2 is -3.
divided : truncating_integer_divide (negsuc 6) (pos 2) ≡ negsuc 2
unfolding truncating_integer_divide
divided = refl

complemented : bitwise_complement (pos 5) int32 ≡ ok (negsuc 5)
unfolding bitwise_complement integer_bits integer_from_bits
complemented = refl

hexadecimal_literal : literal_integer_kind (pos 0xFFFFFFFF) true ≡ some uint32
unfolding literal_integer_kind
hexadecimal_literal = refl

decimal_literal : literal_integer_kind (pos 0xFFFFFFFF) false ≡ some int64
unfolding literal_integer_kind
decimal_literal = refl

-- 1 << 31 is the least int32.
shifted_left : shift_value true (pos 1) int32 (pos 31) int32 ≡ ok (negsuc 2147483647)
unfolding shift_value convert_integer
shifted_left = refl

shifted_too_far : shift_value true (pos 1) int32 (pos 32) int32 ≡ err shift_too_far
unfolding shift_value convert_integer
shifted_too_far = refl

integer_from_bits-integer_bits_example :
    (bits : ℕ) × (integer_bits (negsuc 2) int32 ≡ ok bits)
    × (integer_from_bits bits int32 ≡ negsuc 2)
integer_from_bits-integer_bits_example = integer_from_bits-integer_bits (negsuc 2) int32 refl

common_integer_kind_exists_example :
    (result : IntegerKind) × (common_integer_kind uint32 int64 ≡ some result)
    × (common_integer_kind int64 uint32 ≡ some result)
    × (bits_of result ≡ max 32 64)
    × (is_signed result ≡ not (is_unsigned_of uint32 result || is_unsigned_of int64 result))
common_integer_kind_exists_example = common_integer_kind_exists uint32 int64

shift_value_in_range_example :
    (count : ℤ) × (convert_integer (pos 31) int32 int32 ≡ ok count)
    × (is_below_zero count ≡ false)
    × (leb 32 (abs count) ≡ false)
    × (out_of_kind (negsuc 2147483647) int32 ≡ false)
shift_value_in_range_example = shift_value_in_range true (pos 1) int32 (pos 31) int32 shifted_left

-- 6 & -4 at int32
bitwise_and : bitwise_at bit_and (pos 6) int32 (negsuc 3) int32 int32 ≡ ok (pos 4)
unfolding bitwise_at convert_integer integer_bits integer_from_bits
bitwise_and = refl

bitwise_at_in_range_example :
    (left : ℤ) × (right : ℤ) × (convert_integer (pos 6) int32 int32 ≡ ok left)
    × (convert_integer (negsuc 3) int32 int32 ≡ ok right)
    × (out_of_kind left int32 ≡ false)
    × (out_of_kind right int32 ≡ false)
    × (out_of_kind (pos 4) int32 ≡ false)
bitwise_at_in_range_example =
    bitwise_at_in_range bit_and (pos 6) int32 (negsuc 3) int32 int32 bitwise_and
