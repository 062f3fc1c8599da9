-- ===== src/Common/Int.antt =====
-- The integers over the native ℕ, with the library's constructors, and their order as tests.
use Prim.Native.Nat.{ℕ, zero, suc, ◌+◌, ◌-◌, ◌*◌, ◌/◌}
use mathlib.Core.Path.{◌≡◌, refl}
use mathlib.Core.Bool.{Bool, true, false, not}
use native.Mathlib.Omega.{arith}
use protocyte.Common.Tests.{leb, ltb, ◌==◌, ==_iff, if◌then◌else◌}

pub data ℤ : Type 0 where
  pos : ℕ → ℤ
  -- negsuc n is the number -(n + 1).
  negsuc : ℕ → ℤ

-- a <= b
abbrev pub leb_int : ℤ → ℤ → Bool
leb_int (pos a) (pos b) = leb a b
leb_int (pos a) (negsuc b) = false
leb_int (negsuc a) (pos b) = true
leb_int (negsuc a) (negsuc b) = leb b a

-- a < b
abbrev pub ltb_int : ℤ → ℤ → Bool
ltb_int a b = not (leb_int b a)

-- a == b
abbrev pub eq_int : ℤ → ℤ → Bool
eq_int (pos a) (pos b) = a == b
eq_int (pos a) (negsuc b) = false
eq_int (negsuc a) (pos b) = false
eq_int (negsuc a) (negsuc b) = a == b

-- a - b, of natural numbers
abbrev pub difference : ℕ → ℕ → ℤ
difference a b = if ltb a b then negsuc (b - a - 1) else pos (a - b)

abbrev pub absolute : ℤ → ℕ
absolute (pos n) = n
absolute (negsuc n) = suc n

-- -a, of a natural number
abbrev pub opposite : ℕ → ℤ
opposite zero = pos 0
opposite (suc n) = negsuc n

-- The signs differ: (a < 0) != (b < 0)
abbrev pub signs_differ : ℤ → ℤ → Bool
signs_differ (pos a) (pos b) = false
signs_differ (pos a) (negsuc b) = true
signs_differ (negsuc a) (pos b) = true
signs_differ (negsuc a) (negsuc b) = false

-- a + b
abbrev pub add_int : ℤ → ℤ → ℤ
add_int (pos a) (pos b) = pos (a + b)
add_int (pos a) (negsuc b) = difference a (suc b)
add_int (negsuc a) (pos b) = difference b (suc a)
add_int (negsuc a) (negsuc b) = negsuc (suc (a + b))

-- -a
abbrev pub negate_int : ℤ → ℤ
negate_int (pos n) = opposite n
negate_int (negsuc n) = pos (suc n)

-- a - b
abbrev pub subtract_int : ℤ → ℤ → ℤ
subtract_int a b = add_int a (negate_int b)

-- a * b
abbrev pub multiply_int : ℤ → ℤ → ℤ
multiply_int a b =
    if signs_differ a b then opposite (absolute a * absolute b) else pos (absolute a * absolute b)

-- a // b, of a divisor that is not zero
abbrev pub floor_divide : ℤ → ℤ → ℤ
floor_divide a b =
    if signs_differ a b
    then opposite ((absolute a + absolute b - 1) / absolute b)
    else pos (absolute a / absolute b)

pub leb_int_trans : (a b c : ℤ) → leb_int a b ≡ true → leb_int b c ≡ true → leb_int a c ≡ true
leb_int_trans (pos a) (pos b) (pos c) h k = ground arith
leb_int_trans (pos a) (pos b) (negsuc c) h k = cc
leb_int_trans (pos a) (negsuc b) c h k = cc
leb_int_trans (negsuc a) b (pos c) h k = refl
leb_int_trans (negsuc a) (pos b) (negsuc c) h k = cc
leb_int_trans (negsuc a) (negsuc b) (negsuc c) h k = ground arith

-- Of two integers, one is at most the other.
pub leb_int_total : (a b : ℤ) → leb_int a b ≡ false → leb_int b a ≡ true
leb_int_total (pos a) (pos b) h = ground arith
leb_int_total (pos a) (negsuc b) h = refl
leb_int_total (negsuc a) (pos b) h = cc
leb_int_total (negsuc a) (negsuc b) h = ground arith

pub eq_int-leb : (a b : ℤ) → eq_int a b ≡ true → leb_int b a ≡ true
eq_int-leb (pos a) (pos b) h = ground arith
eq_int-leb (pos a) (negsuc b) h = cc
eq_int-leb (negsuc a) (pos b) h = cc
eq_int-leb (negsuc a) (negsuc b) h = ground arith

pub eq_int_sound : (a b : ℤ) → eq_int a b ≡ true → a ≡ b
eq_int_sound (pos a) (pos b) h = rw ((==_iff a b).0 h) refl
eq_int_sound (pos a) (negsuc b) h = cc
eq_int_sound (negsuc a) (pos b) h = cc
eq_int_sound (negsuc a) (negsuc b) h = rw ((==_iff a b).0 h) refl

pub eq_int_comm : (a b : ℤ) → eq_int a b ≡ eq_int b a
eq_int_comm (pos a) (pos b) = ground arith
eq_int_comm (pos a) (negsuc b) = refl
eq_int_comm (negsuc a) (pos b) = refl
eq_int_comm (negsuc a) (negsuc b) = ground arith
