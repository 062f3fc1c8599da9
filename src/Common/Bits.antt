-- ===== src/Common/Bits.antt =====
-- int.bit_length, and the powers of two around a number.
use Prim.Native.Nat.{ℕ, zero, suc, ◌+◌, ◌-◌, ◌*◌, ◌/◌, ◌^◌, ◌≤◌, ◌<◌}
use mathlib.Core.Path.{◌≡◌, refl, sym, ap, ◌∙◌}
use mathlib.Core.Bool.{true, false}
use native.Mathlib.Omega.{arith}
use native.Mathlib.Nat.{pow-zero, pow-suc, mul_assoc, mul-one}
use protocyte.Common.Tests.{◌==◌}

-- n.bit_length(), with `n` rounds at most
unfoldable pub bit_length_within : ℕ → ℕ → ℕ
bit_length_within zero n = 0
bit_length_within (suc fuel) n = elim (n == 0) [
  | true ↦ 0
  | false ↦ suc (bit_length_within fuel (n / 2))
]

unfoldable pub bit_length : ℕ → ℕ
unfolding bit_length_within
bit_length n = bit_length_within n n

pub pow-add : (b m n : ℕ) → b ^ (m + n) ≡ b ^ m * b ^ n
pow-add b m zero =
    let none : m + 0 ≡ m = omega arith in
    let one_left : b ^ 0 ≡ 1 = pow-zero b in rw (none, one_left) (sym (mul-one (b ^ m)))
pow-add b m (suc n) =
    let step : m + suc n ≡ suc (m + n) = omega arith in
    rw (step, pow-suc b (m + n), pow-add b m n, pow-suc b n) (mul_assoc (b ^ m) (b ^ n) b)

one_round :
    (fuel n : ℕ) → 0 < n → bit_length_within (suc fuel) n ≡ suc (bit_length_within fuel (n / 2))
unfolding bit_length_within
one_round fuel n positive =
    let nonzero : (n == 0) ≡ false = ground arith in rw (bit_length_within, nonzero) refl

bounds_within :
    (fuel n : ℕ)
    → 0 < n
    → n ≤ fuel
    → (0 < bit_length_within fuel n)
      × (2 ^ (bit_length_within fuel n - 1) ≤ n)
      × (n < 2 ^ bit_length_within fuel n)
unfolding bit_length_within
bounds_within zero n positive enough = absurd (omega arith)
bounds_within (suc fuel) zero positive enough = absurd (omega arith)
bounds_within (suc fuel) (suc zero) positive enough = one_bit fuel
  where
    one_bit :
        (fuel : ℕ)
        → (0 < suc (bit_length_within fuel 0))
          × (2 ^ (suc (bit_length_within fuel 0) - 1) ≤ 1)
          × (1 < 2 ^ suc (bit_length_within fuel 0))
    one_bit zero = (omega arith, omega arith, omega arith)
    one_bit (suc fuel) = (omega arith, omega arith, omega arith)
bounds_within (suc fuel) (suc (suc n)) positive enough =
    let half = suc (suc n) / 2 in
    let (long, low, high) = bounds_within fuel half (omega arith) (omega arith) in
    let k = bit_length_within fuel half in
    let shorter : k ≡ suc (k - 1) = omega (arith, long) in
    let power : 2 ^ suc (k - 1) ≡ 2 ^ (k - 1) * 2 = pow-suc 2 (k - 1) in
    let next : 2 ^ suc k ≡ 2 ^ k * 2 = pow-suc 2 k in
    let lower : 2 ^ (k - 1) * 2 ≡ 2 ^ k = sym power ∙ ap (λ e. 2 ^ e) (sym shorter) in
    let one_less : suc k - 1 ≡ k = omega arith in
    rw (one_round fuel (suc (suc n)) (omega arith))
      (omega arith, rw one_less (omega (arith, low, lower)), rw next (omega (arith, high)))

-- A positive number lies between two powers of two that its length tells.
pub bit_length-bounds :
    (n : ℕ) → 0 < n → (0 < bit_length n) × (2 ^ (bit_length n - 1) ≤ n) × (n < 2 ^ bit_length n)
unfolding bit_length
bit_length-bounds n positive = bounds_within n n positive (omega arith)
