-- ===== src/Model/Integer/Bits.antt =====
-- Integers and their two's complement.
use protocyte.Common.{
  ℕ, ◌-◌, ◌%◌, ◌<◌, ℤ, pos, negsuc, ◌≡◌, refl, ap, ◌∙◌, arith, Bool, true, false, ◌&&◌, ok, ◌>>◌,
  raise_if, leb, Bool-cases, inl, inr,
}
use protocyte.Model.Integer.{
  IntegerKind, int32, uint32, int64, uint64, bits_of, is_signed, out_of_kind, low_bits,
  operand_out_of_range, integer_bits, integer_from_bits,
}

-- Every integer that comes from bits is in the range of its kind.
pub integer_from_bits_in_range :
    (value : ℕ) (kind : IntegerKind) → out_of_kind (integer_from_bits value kind) kind ≡ false
unfolding integer_from_bits
integer_from_bits_in_range value int32 = elim (Bool-cases (leb 2147483648 (value % 4294967296))) [
  | inl high ↦ rw high (ground arith)
  | inr low ↦ rw low (ground arith)
]
integer_from_bits_in_range value uint32 = ground arith
integer_from_bits_in_range value int64 =
    elim (Bool-cases (leb 9223372036854775808 (value % 18446744073709551616))) [
      | inl high ↦ rw high (ground arith)
      | inr low ↦ rw low (ground arith)
    ]
integer_from_bits_in_range value uint64 = ground arith

from_low_bits :
    (value : ℤ) (kind : IntegerKind)
    → out_of_kind value kind ≡ false
    → integer_from_bits (low_bits value (bits_of kind)) kind ≡ value
unfolding integer_from_bits
from_low_bits (pos n) int32 inside =
    let bound : n < 2147483648 = ground arith in
    let small : n % 4294967296 ≡ n = omega arith in
    let low : leb 2147483648 n ≡ false = ground arith in
    rw (small, integer_from_bits, small, low) refl
from_low_bits (negsuc n) int32 inside =
    let bound : n < 2147483648 = ground arith in
    let bits : (4294967295 - n % 4294967296) % 4294967296 ≡ 4294967295 - n = omega arith in
    let high : leb 2147483648 (4294967295 - n) ≡ true = ground arith in
    let back : 4294967296 - (4294967295 - n) - 1 ≡ n = omega arith in
    rw (integer_from_bits, bits, high) (ap negsuc back)
from_low_bits (pos n) uint32 inside =
    let bound : n < 4294967296 = ground arith in
    let small : n % 4294967296 ≡ n = omega arith in ap pos (ap (λ x. x % 4294967296) small ∙ small)
from_low_bits (negsuc n) uint32 inside = cc
from_low_bits (pos n) int64 inside =
    let bound : n < 9223372036854775808 = ground arith in
    let small : n % 18446744073709551616 ≡ n = omega arith in
    let low : leb 9223372036854775808 n ≡ false = ground arith in
    rw (small, integer_from_bits, small, low) refl
from_low_bits (negsuc n) int64 inside =
    let bound : n < 9223372036854775808 = ground arith in
    let bits : (18446744073709551615 - n % 18446744073709551616) % 18446744073709551616
        ≡ 18446744073709551615 - n =
      omega arith in
    let high : leb 9223372036854775808 (18446744073709551615 - n) ≡ true = ground arith in
    let back : 18446744073709551616 - (18446744073709551615 - n) - 1 ≡ n = omega arith in
    rw (integer_from_bits, bits, high) (ap negsuc back)
from_low_bits (pos n) uint64 inside =
    let bound : n < 18446744073709551616 = ground arith in
    let small : n % 18446744073709551616 ≡ n = omega arith in
    ap pos (ap (λ x. x % 18446744073709551616) small ∙ small)
from_low_bits (negsuc n) uint64 inside = cc

raise_nothing :
    (signed : Bool) {outside : Bool} {result : ℕ}
    → outside ≡ false
    → (raise_if (signed && outside) operand_out_of_range >> ok result) ≡ ok result
raise_nothing true inside = rw inside refl
raise_nothing false inside = refl

bits_given :
    (value : ℤ) (kind : IntegerKind)
    → out_of_kind value kind ≡ false
    → integer_bits value kind ≡ ok (low_bits value (bits_of kind))
unfolding integer_bits
bits_given value kind inside = raise_nothing (is_signed kind) inside

-- An integer in the range of its kind comes back from its bits in two's complement.
pub integer_from_bits-integer_bits :
    (value : ℤ) (kind : IntegerKind)
    → out_of_kind value kind ≡ false
    → (bits : ℕ) × (integer_bits value kind ≡ ok bits) × (integer_from_bits bits kind ≡ value)
unfolding integer_bits
integer_from_bits-integer_bits value kind inside =
    (low_bits value (bits_of kind), bits_given value kind inside, from_low_bits value kind inside)
