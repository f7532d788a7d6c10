-- ===== src/Base/Or.antt =====
-- `|` and `1 << i`, by binary digits.
use Prim.Native.Nat.{ℕ, zero, suc, ◌+◌, ◌*◌, ◌/◌, ◌%◌, ◌≤◌, max, bit_or, digits, bit_or-bitwise}
use mathlib.Core.Path.{◌≡◌, refl}
use native.Mathlib.Omega.{arith}
use corsaro.Base.Tests.{◌==◌, if◌then◌else◌}

abbrev or_digits : ℕ → ℕ → ℕ → ℕ
or_digits fuel a b = digits (λ b. b) max fuel a b

or_digits_enough : (m n a b : ℕ) → a ≤ m → a ≤ n → or_digits m a b ≡ or_digits n a b
or_digits_enough zero zero a b p q = refl
or_digits_enough zero (suc n) zero b p q = refl
or_digits_enough zero (suc n) (suc a) b p q = absurd (omega arith)
or_digits_enough (suc m) zero zero b p q = refl
or_digits_enough (suc m) zero (suc a) b p q = absurd (omega arith)
or_digits_enough (suc m) (suc n) zero b p q = refl
or_digits_enough (suc m) (suc n) (suc a) b p q =
    omega (arith, or_digits_enough m n (suc a / 2) (b / 2) (omega arith) (omega arith))

zero-bit_or : (b : ℕ) → bit_or 0 b ≡ b
zero-bit_or b = bit_or-bitwise 0 b

-- The lowest digit of `a | b`, and the others.
bit_or-digit : (a b : ℕ) → bit_or a b ≡ bit_or (a / 2) (b / 2) * 2 + max (a % 2) (b % 2)
bit_or-digit zero b = omega (arith, zero-bit_or b, zero-bit_or (b / 2))
bit_or-digit (suc a) b = omega (
  arith,
  bit_or-bitwise (suc a) b,
  bit_or-bitwise (suc a / 2) (b / 2),
  or_digits_enough a (suc a / 2) (suc a / 2) (b / 2) (omega arith) (omega arith),
)

-- The digit at position k.
unfoldable pub bit : ℕ → ℕ → ℕ
bit zero x = x % 2
bit (suc k) x = bit k (x / 2)

-- `1 << i`
unfoldable pub shifted : ℕ → ℕ
shifted zero = 1
shifted (suc i) = 2 * shifted i

pub bit-bit_or : (k a b : ℕ) → bit k (bit_or a b) ≡ max (bit k a) (bit k b)
unfolding bit
bit-bit_or zero a b = omega (arith, bit_or-digit a b)
bit-bit_or (suc k) a b =
    let half : bit_or a b / 2 ≡ bit_or (a / 2) (b / 2) = omega (arith, bit_or-digit a b) in
    rw half (bit-bit_or k (a / 2) (b / 2))

pub bit_zero : (k : ℕ) → bit k 0 ≡ 0
unfolding bit
bit_zero zero = refl
bit_zero (suc k) = bit_zero k

pub bit-shifted : (k i : ℕ) → bit k (shifted i) ≡ (if i == k then 1 else 0)
unfolding bit shifted
bit-shifted zero zero = refl
bit-shifted zero (suc i) = ground arith
bit-shifted (suc k) zero = ground (arith, bit_zero k)
bit-shifted (suc k) (suc i) =
    let half : 2 * shifted i / 2 ≡ shifted i = omega arith in
    rw half (ground (arith, bit-shifted k i))
