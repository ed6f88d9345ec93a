-- ===== src/Base/Bits.antt =====
-- `|` on words, digit by digit.
use Prim.Native.Nat.{
  ℕ, zero, suc, ◌+◌, ◌*◌, ◌/◌, ◌%◌, ◌≤◌, ◌<◌, max, digits, bit_or, bit_or-bitwise,
}
use mathlib.Core.Path.{◌≡◌, refl, ap}
use native.Mathlib.Omega.{arith}

-- The digits of the first number bound the digits to go.
or_rounds : (n m a b : ℕ) → a ≤ n → a ≤ m → digits (λ y. y) max n a b ≡ digits (λ y. y) max m a b
or_rounds zero zero a b h k = refl
or_rounds zero (suc m) zero b h k = refl
or_rounds zero (suc m) (suc a) b h k = absurd (omega (arith, h))
or_rounds (suc n) zero zero b h k = refl
or_rounds (suc n) zero (suc a) b h k = absurd (omega (arith, k))
or_rounds (suc n) (suc m) zero b h k = refl
or_rounds (suc n) (suc m) (suc a) b h k =
    ap (λ q. q * 2 + max (suc a % 2) (b % 2))
      (or_rounds n m (suc a / 2) (b / 2) (omega (arith, h)) (omega (arith, k)))

or_digit : (a b : ℕ) → max (a % 2) (b % 2) < 2
or_digit a b = ground arith

-- The digits of `a | b` behind the lowest one are those of the halves.
pub bit_or_half : (a b : ℕ) → bit_or a b / 2 ≡ bit_or (a / 2) (b / 2)
bit_or_half zero b = simp bit_or-bitwise refl
bit_or_half (suc a) b = simp bit_or-bitwise (
    omega (
      arith,
      or_digit (suc a) b,
      or_rounds a (suc a / 2) (suc a / 2) (b / 2) (omega arith) (omega arith),
    ))

or_nothing : (n a : ℕ) → a ≤ n → digits (λ y. y) max n a 0 ≡ a
or_nothing zero a h = omega (arith, h)
or_nothing (suc n) zero h = refl
or_nothing (suc n) (suc a) h = ground (arith, or_nothing n (suc a / 2) (omega (arith, h)))

pub bit_or-zero : (a : ℕ) → bit_or a 0 ≡ a
bit_or-zero a = simp bit_or-bitwise (or_nothing a a (omega arith))
