-- ===== src/Model/Integer.antt =====
-- The integers of constant expressions in src/protocyte/model.py: kinds, ranges, conversions, bits,
-- division and shifts. Remainders, the kinds float and double and the written C++ are in Expression.
pub mod Bits
pub mod Division
pub mod Results
pub mod Kinds
pub mod Tests
use protocyte.Common.{
  ℕ, zero, suc, ◌+◌, ◌-◌, ◌*◌, ◌/◌, ◌%◌, ◌^◌, max, ℤ, pos, negsuc, leb_int, ltb_int, eq_int, Bool,
  true, false, not, ◌&&◌, ◌||◌, Option, none, some, Result, ok, err, ◌>>=◌, ◌>>◌, raise_if, ltb,
  leb, ◌==◌, if◌then◌else◌,
}

-- CONSTANT_KIND_INT32, CONSTANT_KIND_UINT32, CONSTANT_KIND_INT64 and CONSTANT_KIND_UINT64
pub data IntegerKind : Type 0 where
  int32 uint32 int64 uint64 : IntegerKind

-- _INTEGER_KIND_INFO
abbrev pub bits_of : IntegerKind → ℕ
bits_of int32 = 32
bits_of uint32 = 32
bits_of int64 = 64
bits_of uint64 = 64

abbrev pub is_signed : IntegerKind → Bool
is_signed int32 = true
is_signed uint32 = false
is_signed int64 = true
is_signed uint64 = false

abbrev pub same_kind : IntegerKind → IntegerKind → Bool
same_kind lhs rhs =
    bits_of lhs == bits_of rhs && (if is_signed lhs then is_signed rhs else not (is_signed rhs))

-- `none` is the KeyError of the table.
abbrev pub integer_kind : ℕ → Bool → Option IntegerKind
integer_kind bits signed =
    if bits == 32
    then some (if signed then int32 else uint32)
    else if bits == 64
    then some (if signed then int64 else uint64)
    else none

-- The kinds differ in sign.
abbrev pub mixed_kind : IntegerKind → IntegerKind → Option IntegerKind
mixed_kind unsigned_kind signed_kind =
    if leb (bits_of signed_kind) (bits_of unsigned_kind)
    then integer_kind (bits_of unsigned_kind) false
    else integer_kind (bits_of signed_kind) true

unfoldable pub common_integer_kind : IntegerKind → IntegerKind → Option IntegerKind
common_integer_kind lhs rhs =
    if same_kind lhs rhs
    then some lhs
    else if (if is_signed lhs then is_signed rhs else not (is_signed rhs))
    then integer_kind (max (bits_of lhs) (bits_of rhs)) (is_signed lhs)
    else if is_signed lhs
    then mixed_kind rhs lhs
    else mixed_kind lhs rhs

-- The lower and the upper bound.
abbrev pub integer_range : IntegerKind → ℤ × ℤ
integer_range kind =
    if is_signed kind
    then (negsuc (2 ^ (bits_of kind - 1) - 1), pos (2 ^ (bits_of kind - 1) - 1))
    else (pos 0, pos (2 ^ bits_of kind - 1))

-- value < lower or value > upper
abbrev pub out_of_kind : ℤ → IntegerKind → Bool
out_of_kind value kind =
    ltb_int value (integer_range kind).0 || ltb_int (integer_range kind).1 value

-- value & (2**bits - 1)
abbrev pub low_bits : ℤ → ℕ → ℕ
low_bits (pos n) bits = n % 2 ^ bits
low_bits (negsuc n) bits = 2 ^ bits - 1 - n % 2 ^ bits

-- Where an expression of integers raises ProtocyteError.
pub data NumberError : Type 0 where
  operand_out_of_range result_out_of_range negative_shift shift_too_far : NumberError

unfoldable pub integer_bits : ℤ → IntegerKind → Result NumberError ℕ
integer_bits value kind =
    raise_if (is_signed kind && out_of_kind value kind) operand_out_of_range
    >> ok (low_bits value (bits_of kind))

-- value - 2**bits, of a value below 2**bits
abbrev pub minus_power : ℕ → ℕ → ℤ
minus_power value bits = negsuc (2 ^ bits - value - 1)

unfoldable pub integer_from_bits : ℕ → IntegerKind → ℤ
integer_from_bits value kind =
    let low = value % 2 ^ bits_of kind in
    if is_signed kind && leb (2 ^ (bits_of kind - 1)) low
    then minus_power low (bits_of kind)
    else pos low

-- `_normalize_numeric_result` of an integer
unfoldable pub normalize_integer : NumberError → ℤ → IntegerKind → Result NumberError ℤ
normalize_integer raised value kind =
    if not (is_signed kind)
    then ok (pos (low_bits value (bits_of kind)))
    else if out_of_kind value kind
    then err raised
    else ok value

-- `_convert_numeric_value` between kinds of integers
unfoldable pub convert_integer : ℤ → IntegerKind → IntegerKind → Result NumberError ℤ
unfolding normalize_integer
convert_integer value source_kind target_kind =
    normalize_integer operand_out_of_range value source_kind >>= λ operand.
    normalize_integer operand_out_of_range operand target_kind

-- abs(value)
abbrev pub abs : ℤ → ℕ
abs (pos n) = n
abs (negsuc n) = suc n

abbrev pub is_below_zero : ℤ → Bool
is_below_zero (pos n) = false
is_below_zero (negsuc n) = true

-- -value
abbrev pub negate : ℕ → ℤ
negate zero = pos 0
negate (suc n) = negsuc n

-- The callers refuse a divisor of zero.
unfoldable pub truncating_integer_divide : ℤ → ℤ → ℤ
truncating_integer_divide lhs rhs =
    let quotient = abs lhs / abs rhs in
    if (if is_below_zero lhs then not (is_below_zero rhs) else is_below_zero rhs)
    then negate quotient
    else pos quotient

unfoldable pub signed_division_overflows : ℤ → ℤ → IntegerKind → Bool
signed_division_overflows lhs rhs kind = eq_int lhs (integer_range kind).0 && eq_int rhs (negsuc 0)

-- value >> count
abbrev pub shift_down : ℤ → ℕ → ℤ
shift_down (pos n) count = pos (n / 2 ^ count)
shift_down (negsuc n) count = negsuc (n / 2 ^ count)

-- The result of a shift by a count below the bits.
unfoldable pub shifted : Bool → ℤ → IntegerKind → ℕ → ℤ
unfolding integer_from_bits
shifted left value kind count =
    if left
    then integer_from_bits (low_bits value (bits_of kind) * 2 ^ count) kind
    else if is_signed kind
    then shift_down value count
    else pos (low_bits value (bits_of kind) / 2 ^ count)

-- `_shift_value` of integers
unfoldable pub shift_value : Bool → ℤ → IntegerKind → ℤ → IntegerKind → Result NumberError ℤ
unfolding convert_integer shifted
shift_value left lhs lhs_kind rhs rhs_kind = convert_integer lhs lhs_kind lhs_kind >>= λ value.
    convert_integer rhs rhs_kind rhs_kind >>= λ count.
    raise_if (is_below_zero count) negative_shift
    >> raise_if (leb (bits_of lhs_kind) (abs count)) shift_too_far
    >> ok (shifted left value lhs_kind (abs count))

-- `_bitwise_complement` of an integer
unfoldable pub bitwise_complement : ℤ → IntegerKind → Result NumberError ℤ
unfolding integer_bits integer_from_bits
bitwise_complement operand kind =
    integer_bits operand kind >>= λ bits. ok (integer_from_bits (2 ^ bits_of kind - 1 - bits) kind)

unfoldable pub literal_integer_kind : ℤ → Bool → Option IntegerKind
literal_integer_kind value hexadecimal =
    if hexadecimal
    then (if leb_int (pos 0) value && leb_int value (pos (2 ^ 31 - 1))
        then some int32
        else if leb_int value (pos (2 ^ 32 - 1))
        then some uint32
        else if leb_int value (pos (2 ^ 63 - 1))
        then some int64
        else if leb_int value (pos (2 ^ 64 - 1))
        then some uint64
        else none)
    else if leb_int (negsuc (2 ^ 31 - 1)) value && leb_int value (pos (2 ^ 31 - 1))
    then some int32
    else if leb_int (negsuc (2 ^ 63 - 1)) value && leb_int value (pos (2 ^ 63 - 1))
    then some int64
    else none

-- `_bitwise_binary` of integers in their common kind, with the operator on bits
unfoldable pub bitwise_at :
    (ℕ → ℕ → ℕ) → ℤ → IntegerKind → ℤ → IntegerKind → IntegerKind → Result NumberError ℤ
unfolding convert_integer integer_bits integer_from_bits
bitwise_at op lhs lhs_kind rhs rhs_kind result_kind =
    convert_integer lhs lhs_kind result_kind >>= λ left.
    convert_integer rhs rhs_kind result_kind >>= λ right.
    integer_bits left result_kind >>= λ left_bits. integer_bits right result_kind >>= λ right_bits.
    ok (integer_from_bits (op left_bits right_bits % 2 ^ bits_of result_kind) result_kind)
