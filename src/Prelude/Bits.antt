-- ===== src/Prelude/Bits.antt =====
-- `|` of two numbers whose binary digits do not overlap is their sum, at every width.
use Prim.Native.Nat.{
  ℕ, zero, suc, ◌+◌, ◌*◌, ◌/◌, ◌%◌, ◌^◌, ◌≤◌, ◌<◌, max, bit_or, digits, bit_or-bitwise,
}
use mathlib.Core.Path.{◌≡◌, refl, ap}
use native.Mathlib.Nat.{pow-suc}
use native.Mathlib.Omega.{arith}

abbrev or_digits : ℕ → ℕ → ℕ → ℕ
or_digits n a b = digits (λ b. b) max n a b

-- The fuel does not matter once it is at least the first number.
or_digits_enough :
    (x y fuel more : ℕ) → x ≤ more → x ≤ fuel → or_digits fuel x y ≡ or_digits more x y
or_digits_enough zero y (suc fuel) (suc more) h k = refl
or_digits_enough zero y (suc fuel) zero h k = refl
or_digits_enough zero y zero (suc more) h k = refl
or_digits_enough zero y zero zero h k = refl
or_digits_enough (suc x) y fuel zero h k = absurd (omega arith)
or_digits_enough (suc x) y zero (suc more) h k = absurd (omega arith)
or_digits_enough (suc x) y (suc fuel) (suc more) h k =
    omega (arith, or_digits_enough (suc x / 2) (y / 2) fuel more (omega arith) (omega arith))

zero-bit_or : (b : ℕ) → bit_or 0 b ≡ b
zero-bit_or b = bit_or-bitwise 0 b

lowest_digit : (a b : ℕ) → max (a % 2) (b % 2) + bit_or (a / 2) (b / 2) * 2 ≡ bit_or a b
lowest_digit zero b = omega (arith, zero-bit_or b, zero-bit_or (b / 2))
lowest_digit (suc a) b = omega (
  arith,
  bit_or-bitwise (suc a) b,
  bit_or-bitwise (suc a / 2) (b / 2),
  or_digits_enough (suc a / 2) (b / 2) a (suc a / 2) (omega arith) (omega arith),
)

-- `a | (q << k)` where `a` fits the `k` low digits.
pub bit_or_shifted : (k a q : ℕ) → a < 2 ^ k → bit_or a (q * 2 ^ k) ≡ a + q * 2 ^ k
bit_or_shifted zero zero q h = omega (arith, zero-bit_or (q * 1))
bit_or_shifted zero (suc a) q h = absurd (omega arith)
bit_or_shifted (suc k) a q h = omega (
  arith,
  lowest_digit a (q * 2 ^ suc k),
  ap (λ (t : ℕ). q * t) (pow-suc 2 k),
  pow-suc 2 k,
  ap (bit_or (a / 2)) half,
  bit_or_shifted k (a / 2) q (omega (arith, pow-suc 2 k)),
)
  where
    half : q * 2 ^ suc k / 2 ≡ q * 2 ^ k
    half = omega (arith, ap (λ (t : ℕ). q * t) (pow-suc 2 k))
