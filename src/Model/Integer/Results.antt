-- ===== src/Model/Integer/Results.antt =====
-- The results of conversions, shifts and bitwise operators are in the range of their kind.
use protocyte.Common.{
  ℕ, ◌*◌, ◌/◌, ◌%◌, ◌^◌, ◌≤◌, ℤ, pos, negsuc, ◌≡◌, refl, subst, arith, Bool, true, false, not, ◌⊎◌,
  ok, err, ◌>>◌, raise_if, >>=-eq-ok, >>-eq-ok, raise_if-ok, ok-injective, leb, if◌then◌else◌, inl,
  inr,
}
use native.Mathlib.Nat.{div-le_self}
use protocyte.Model.Integer.{
  IntegerKind, int32, uint32, int64, uint64, bits_of, is_signed, out_of_kind, low_bits, NumberError,
  normalize_integer, convert_integer, shift_down, shifted, shift_value, bitwise_at, integer_bits,
  abs, is_below_zero, negative_shift, shift_too_far, operand_out_of_range,
}
use protocyte.Model.Integer.Bits.{integer_from_bits_in_range}

-- The low bits of an integer are below the power of their number.
unsigned_in_range :
    (value : ℤ) (kind : IntegerKind)
    → is_signed kind ≡ false
    → out_of_kind (pos (low_bits value (bits_of kind))) kind ≡ false
unsigned_in_range value int32 unsigned = cc
unsigned_in_range (pos n) uint32 unsigned = ground arith
unsigned_in_range (negsuc n) uint32 unsigned = ground arith
unsigned_in_range value int64 unsigned = cc
unsigned_in_range (pos n) uint64 unsigned = ground arith
unsigned_in_range (negsuc n) uint64 unsigned = ground arith

chosen :
    (signed out : Bool) (raised : NumberError) (low value : ℤ) {result : ℤ}
    → (if not signed then ok low else if out then err raised else ok value) ≡ ok result
    → ((signed ≡ false) × (low ≡ result)) ⊎ ((out ≡ false) × (value ≡ result))
chosen false out raised low value returned = inl (refl, ok-injective returned)
chosen true true raised low value returned = cc
chosen true false raised low value returned = inr (refl, ok-injective returned)

pub normalize_integer_in_range :
    (raised : NumberError) (value : ℤ) (kind : IntegerKind) {result : ℤ}
    → normalize_integer raised value kind ≡ ok result
    → out_of_kind result kind ≡ false
unfolding normalize_integer
normalize_integer_in_range raised value kind returned =
    elim (chosen (is_signed kind) (out_of_kind value kind) raised
      (pos (low_bits value (bits_of kind))) value returned) [
        | inl (unsigned, same) ↦
            subst (λ v. out_of_kind v kind ≡ false) same (unsigned_in_range value kind unsigned)
        | inr (inside, same) ↦ subst (λ v. out_of_kind v kind ≡ false) same inside
      ]

pub normalize_integer-kept :
    (raised : NumberError) (value : ℤ) (kind : IntegerKind)
    → out_of_kind value kind ≡ false
    → normalize_integer raised value kind ≡ ok value
unfolding normalize_integer
normalize_integer-kept raised value int32 inside = rw inside refl
normalize_integer-kept raised value int64 inside = rw inside refl
normalize_integer-kept raised (pos n) uint32 inside = ground arith
normalize_integer-kept raised (negsuc n) uint32 inside = cc
normalize_integer-kept raised (pos n) uint64 inside = ground arith
normalize_integer-kept raised (negsuc n) uint64 inside = cc

convert_integer_in_range :
    (value : ℤ) (source_kind target_kind : IntegerKind) {result : ℤ}
    → convert_integer value source_kind target_kind ≡ ok result
    → out_of_kind result target_kind ≡ false
unfolding convert_integer
convert_integer_in_range value source_kind target_kind returned =
    let (operand, _, converted) =
      >>=-eq-ok (normalize_integer operand_out_of_range value source_kind)
        (λ operand. normalize_integer operand_out_of_range operand target_kind) returned in
    normalize_integer_in_range operand_out_of_range operand target_kind converted

-- A shift to the right leads towards zero or minus one.
shift_down_in_range :
    (value : ℤ) (kind : IntegerKind) (count : ℕ)
    → out_of_kind value kind ≡ false
    → is_signed kind ≡ true
    → out_of_kind (shift_down value count) kind ≡ false
shift_down_in_range (pos n) int32 count inside signed = ground (arith, div-le_self n (2 ^ count))
shift_down_in_range (negsuc n) int32 count inside signed = ground (arith, div-le_self n (2 ^ count))
shift_down_in_range value uint32 count inside signed = cc
shift_down_in_range (pos n) int64 count inside signed = ground (arith, div-le_self n (2 ^ count))
shift_down_in_range (negsuc n) int64 count inside signed = ground (arith, div-le_self n (2 ^ count))
shift_down_in_range value uint64 count inside signed = cc

-- A smaller natural number stays in the range of an unsigned kind.
smaller_in_range :
    (n m : ℕ) (kind : IntegerKind)
    → n ≤ m
    → out_of_kind (pos m) kind ≡ false
    → out_of_kind (pos n) kind ≡ false
smaller_in_range n m int32 less inside = ground arith
smaller_in_range n m uint32 less inside = ground arith
smaller_in_range n m int64 less inside = ground arith
smaller_in_range n m uint64 less inside = ground arith

either :
    (test : Bool) {a b : ℤ} (P : ℤ → Type 0)
    → (test ≡ true → P a)
    → (test ≡ false → P b)
    → P (if test then a else b)
either true P yes_case no_case = yes_case refl
either false P yes_case no_case = no_case refl

shifted_in_range :
    (left : Bool) (value : ℤ) (kind : IntegerKind) (count : ℕ)
    → out_of_kind value kind ≡ false
    → out_of_kind (shifted left value kind count) kind ≡ false
unfolding shifted
shifted_in_range true value kind count inside =
    integer_from_bits_in_range (low_bits value (bits_of kind) * 2 ^ count) kind
shifted_in_range false value kind count inside =
    either (is_signed kind) (λ v. out_of_kind v kind ≡ false)
      (shift_down_in_range value kind count inside)
      (λ unsigned.
        smaller_in_range (low_bits value (bits_of kind) / 2 ^ count) (low_bits value (bits_of kind))
          kind (div-le_self (low_bits value (bits_of kind)) (2 ^ count))
          (unsigned_in_range value kind unsigned))

-- A shift that returns had a count, not negative and below the width of the left operand's kind, and
-- its result is in the range of that kind, whatever the operands were.
pub shift_value_in_range :
    (left : Bool) (lhs : ℤ) (lhs_kind : IntegerKind) (rhs : ℤ) (rhs_kind : IntegerKind) {result : ℤ}
    → shift_value left lhs lhs_kind rhs rhs_kind ≡ ok result
    → (count : ℤ) × (convert_integer rhs rhs_kind rhs_kind ≡ ok count)
      × (is_below_zero count ≡ false)
      × (leb (bits_of lhs_kind) (abs count) ≡ false)
      × (out_of_kind result lhs_kind ≡ false)
unfolding shift_value
shift_value_in_range left lhs lhs_kind rhs rhs_kind returned =
    let (value, given, after_value) =
      >>=-eq-ok (convert_integer lhs lhs_kind lhs_kind) _ returned in
    let (count, counted, after_count) =
      >>=-eq-ok (convert_integer rhs rhs_kind rhs_kind) _ after_value in
    let negative = raise_if (is_below_zero count) negative_shift in
    let far = raise_if (leb (bits_of lhs_kind) (abs count)) shift_too_far in
    let (checks, same) =
      >>-eq-ok (negative >> far) (ok (shifted left value lhs_kind (abs count))) after_count in
    let (first, second) = >>-eq-ok negative far checks in
    (
      count,
      counted,
      raise_if-ok (is_below_zero count) negative_shift first,
      raise_if-ok (leb (bits_of lhs_kind) (abs count)) shift_too_far second,
      subst (λ v. out_of_kind v lhs_kind ≡ false) (ok-injective same)
          (shifted_in_range left value lhs_kind (abs count)
            (convert_integer_in_range lhs lhs_kind lhs_kind given)),
    )

-- What a bitwise operator returns is in the range of the kind at which it is computed, and so are
-- both operands after their conversion, whatever the operator and the operands are.
pub bitwise_at_in_range :
    (op : ℕ → ℕ → ℕ) (lhs : ℤ) (lhs_kind : IntegerKind) (rhs : ℤ)
    (rhs_kind result_kind : IntegerKind) {result : ℤ}
    → bitwise_at op lhs lhs_kind rhs rhs_kind result_kind ≡ ok result
    → (left : ℤ) × (right : ℤ) × (convert_integer lhs lhs_kind result_kind ≡ ok left)
      × (convert_integer rhs rhs_kind result_kind ≡ ok right)
      × (out_of_kind left result_kind ≡ false)
      × (out_of_kind right result_kind ≡ false)
      × (out_of_kind result result_kind ≡ false)
unfolding bitwise_at
bitwise_at_in_range op lhs lhs_kind rhs rhs_kind result_kind returned =
    let (left, first, after_left) =
      >>=-eq-ok (convert_integer lhs lhs_kind result_kind) _ returned in
    let (right, second, after_right) =
      >>=-eq-ok (convert_integer rhs rhs_kind result_kind) _ after_left in
    let (left_bits, _, after_bits) = >>=-eq-ok (integer_bits left result_kind) _ after_right in
    let (right_bits, _, same) = >>=-eq-ok (integer_bits right result_kind) _ after_bits in
    (
      left,
      right,
      first,
      second,
      convert_integer_in_range lhs lhs_kind result_kind first,
      convert_integer_in_range rhs rhs_kind result_kind second,
      subst (λ v. out_of_kind v result_kind ≡ false) (ok-injective same)
          (integer_from_bits_in_range (op left_bits right_bits % 2 ^ bits_of result_kind)
            result_kind),
    )
