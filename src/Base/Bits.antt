-- ===== src/Base/Bits.antt =====
-- `&` with a constant mask, in terms of `/` and `%`.
use Prim.Native.Nat.{ℕ, zero, suc, ◌+◌, ◌*◌, ◌/◌, ◌%◌, ◌≤◌, min, bit_and, digits, bit_and-bitwise}
use mathlib.Core.Path.{◌≡◌, refl}
use native.Mathlib.Omega.{arith}

abbrev and_digits : ℕ → ℕ → ℕ → ℕ
and_digits fuel a b = digits (λ _. zero) min fuel a b

and_digits_enough : (m n a b : ℕ) → a ≤ m → a ≤ n → and_digits m a b ≡ and_digits n a b
and_digits_enough zero zero a b p q = refl
and_digits_enough zero (suc n) zero b p q = refl
and_digits_enough zero (suc n) (suc a) b p q = absurd (omega arith)
and_digits_enough (suc m) zero zero b p q = refl
and_digits_enough (suc m) zero (suc a) b p q = absurd (omega arith)
and_digits_enough (suc m) (suc n) zero b p q = refl
and_digits_enough (suc m) (suc n) (suc a) b p q =
    omega (arith, and_digits_enough m n (suc a / 2) (b / 2) (omega arith) (omega arith))

zero-bit_and : (b : ℕ) → bit_and 0 b ≡ 0
zero-bit_and b = bit_and-bitwise 0 b

-- The lowest digit of `a & b`, and the others.
pub bit_and-digit : (a b : ℕ) → bit_and a b ≡ bit_and (a / 2) (b / 2) * 2 + min (a % 2) (b % 2)
bit_and-digit zero b = omega (arith, zero-bit_and b, zero-bit_and (b / 2))
bit_and-digit (suc a) b = omega (
  arith,
  bit_and-bitwise (suc a) b,
  bit_and-bitwise (suc a / 2) (b / 2),
  and_digits_enough a (suc a / 2) (suc a / 2) (b / 2) (omega arith) (omega arith),
)

bit_and-none_fuel : (n a : ℕ) → a ≤ n → bit_and a 0 ≡ 0
bit_and-none_fuel n zero h = refl
bit_and-none_fuel zero (suc a) h = absurd (omega arith)
bit_and-none_fuel (suc n) (suc a) h =
    omega (arith, bit_and-digit (suc a) 0, bit_and-none_fuel n (suc a / 2) (omega arith))

pub bit_and-none : (a : ℕ) → bit_and a 0 ≡ 0
bit_and-none a = bit_and-none_fuel a a (omega arith)

-- A zero and a one at the low end of the mask.
pub bit_and-even : (a m : ℕ) → bit_and a (m * 2) ≡ bit_and (a / 2) m * 2
bit_and-even a m =
    let low : m * 2 / 2 ≡ m = omega arith in
    let digit = rw low at (bit_and-digit a (m * 2)) in omega (arith, digit)

pub bit_and-odd : (a m : ℕ) → bit_and a (m * 2 + 1) ≡ bit_and (a / 2) m * 2 + a % 2
bit_and-odd a m =
    let low : (m * 2 + 1) / 2 ≡ m = omega arith in
    let digit = rw low at (bit_and-digit a (m * 2 + 1)) in omega (arith, digit)

bit_and-shift4 : (a m : ℕ) → bit_and a (m * 16) ≡ bit_and (a / 16) m * 16
bit_and-shift4 a m =
    let e : m * 16 ≡ m * 2 * 2 * 2 * 2 = omega arith in
    let d : a / 2 / 2 / 2 / 2 ≡ a / 16 = omega arith in
    rw e (
      omega (
        arith,
        bit_and-even a (m * 2 * 2 * 2),
        bit_and-even (a / 2) (m * 2 * 2),
        bit_and-even (a / 2 / 2) (m * 2),
        rw d at (bit_and-even (a / 2 / 2 / 2) m),
      ))

-- A zero byte, and a byte of ones, at the low end of the mask.
pub bit_and-shift8 : (a m : ℕ) → bit_and a (m * 256) ≡ bit_and (a / 256) m * 256
bit_and-shift8 a m =
    let e : m * 256 ≡ m * 16 * 16 = omega arith in
    let d : a / 16 / 16 ≡ a / 256 = omega arith in
    rw e (omega (arith, bit_and-shift4 a (m * 16), rw d at (bit_and-shift4 (a / 16) m)))

bit_and-ones4 : (a m : ℕ) → bit_and a (m * 16 + 15) ≡ bit_and (a / 16) m * 16 + a % 16
bit_and-ones4 a m =
    let e : m * 16 + 15 ≡ (((m * 2 + 1) * 2 + 1) * 2 + 1) * 2 + 1 = omega arith in
    let d : a / 2 / 2 / 2 / 2 ≡ a / 16 = omega arith in
    rw e (
      omega (
        arith,
        bit_and-odd a (((m * 2 + 1) * 2 + 1) * 2 + 1),
        bit_and-odd (a / 2) ((m * 2 + 1) * 2 + 1),
        bit_and-odd (a / 2 / 2) (m * 2 + 1),
        rw d at (bit_and-odd (a / 2 / 2 / 2) m),
      ))

pub bit_and-ones8 : (a m : ℕ) → bit_and a (m * 256 + 255) ≡ bit_and (a / 256) m * 256 + a % 256
bit_and-ones8 a m =
    let e : m * 256 + 255 ≡ (m * 16 + 15) * 16 + 15 = omega arith in
    let d : a / 16 / 16 ≡ a / 256 = omega arith in
    rw e (omega (arith, bit_and-ones4 a (m * 16 + 15), rw d at (bit_and-ones4 (a / 16) m)))

pub bit_and_ff : (a : ℕ) → bit_and a 0xff ≡ a % 256
bit_and_ff a = omega (arith, bit_and-ones8 a 0, bit_and-none (a / 256))

pub bit_and_f0 : (a : ℕ) → bit_and a 0xf0 ≡ a / 16 % 16 * 16
bit_and_f0 a =
    omega (arith, bit_and-shift4 a 15, bit_and-ones4 (a / 16) 0, bit_and-none (a / 16 / 16))

bit_and_7f : (a : ℕ) → bit_and a 0x7f ≡ a % 128
bit_and_7f a = omega (
  arith,
  bit_and-ones4 a 7,
  bit_and-odd (a / 16) 3,
  bit_and-odd (a / 16 / 2) 1,
  bit_and-odd (a / 16 / 2 / 2) 0,
  bit_and-none (a / 16 / 2 / 2 / 2),
)

pub bit_and_fe : (a : ℕ) → bit_and a 0xfe ≡ a / 2 % 128 * 2
bit_and_fe a = omega (
  arith,
  bit_and-even a 0x7f,
  bit_and-odd (a / 2) 0x3f,
  bit_and-odd (a / 2 / 2) 0x1f,
  bit_and-odd (a / 2 / 2 / 2) 15,
  bit_and-ones4 (a / 2 / 2 / 2 / 2) 0,
  bit_and-none (a / 2 / 2 / 2 / 2 / 16),
)

pub bit_and_80 : (a : ℕ) → bit_and a 0x80 ≡ a / 128 % 2 * 128
bit_and_80 a = omega (
  arith,
  bit_and-shift4 a 8,
  bit_and-even (a / 16) 4,
  bit_and-even (a / 16 / 2) 2,
  bit_and-even (a / 16 / 2 / 2) 1,
  bit_and-odd (a / 16 / 2 / 2 / 2) 0,
  bit_and-none (a / 16 / 2 / 2 / 2 / 2),
)

-- The masks of an address prefix.
module _ (a : ℕ) where
  pub bit_and_ff000000 : bit_and a 0xff000000 ≡ a / 0x1000000 % 256 * 0x1000000
  bit_and_ff000000 = omega (
    arith,
    bit_and-shift8 a 0xff0000,
    bit_and-shift8 (a / 256) 0xff00,
    bit_and-shift8 (a / 256 / 256) 0xff,
    bit_and_ff (a / 256 / 256 / 256),
  )

  pub bit_and_80000000 : bit_and a 0x80000000 ≡ a / 0x80000000 % 2 * 0x80000000
  bit_and_80000000 = omega (
    arith,
    bit_and-shift8 a 0x800000,
    bit_and-shift8 (a / 256) 0x8000,
    bit_and-shift8 (a / 256 / 256) 0x80,
    bit_and_80 (a / 256 / 256 / 256),
  )

  pub bit_and_f0000000 : bit_and a 0xf0000000 ≡ a / 0x10000000 % 16 * 0x10000000
  bit_and_f0000000 = omega (
    arith,
    bit_and-shift8 a 0xf00000,
    bit_and-shift8 (a / 256) 0xf000,
    bit_and-shift8 (a / 256 / 256) 0xf0,
    bit_and_f0 (a / 256 / 256 / 256),
  )

  pub bit_and_ffff0000 : bit_and a 0xffff0000 ≡ a / 0x10000 % 0x10000 * 0x10000
  bit_and_ffff0000 = omega (
    arith,
    bit_and-shift8 a 0xffff00,
    bit_and-shift8 (a / 256) 0xffff,
    bit_and-ones8 (a / 256 / 256) 0xff,
    bit_and_ff (a / 256 / 256 / 256),
  )

  pub bit_and_fffe0000 : bit_and a 0xfffe0000 ≡ a / 0x20000 % 0x8000 * 0x20000
  bit_and_fffe0000 = omega (
    arith,
    bit_and-shift8 a 0xfffe00,
    bit_and-shift8 (a / 256) 0xfffe,
    bit_and-even (a / 256 / 256) 0x7fff,
    bit_and-ones8 (a / 256 / 256 / 2) 0x7f,
    bit_and_7f (a / 256 / 256 / 2 / 256),
  )

  pub bit_and_fff00000 : bit_and a 0xfff00000 ≡ a / 0x100000 % 0x1000 * 0x100000
  bit_and_fff00000 = omega (
    arith,
    bit_and-shift8 a 0xfff000,
    bit_and-shift8 (a / 256) 0xfff0,
    bit_and-shift4 (a / 256 / 256) 0xfff,
    bit_and-ones4 (a / 256 / 256 / 16) 0xff,
    bit_and_ff (a / 256 / 256 / 16 / 16),
  )

  pub bit_and_ffffff00 : bit_and a 0xffffff00 ≡ a / 0x100 % 0x1000000 * 0x100
  bit_and_ffffff00 = omega (
    arith,
    bit_and-shift8 a 0xffffff,
    bit_and-ones8 (a / 256) 0xffff,
    bit_and-ones8 (a / 256 / 256) 0xff,
    bit_and_ff (a / 256 / 256 / 256),
  )

  pub bit_and_00ffff00 : bit_and a 0x00ffff00 ≡ a / 0x100 % 0x10000 * 0x100
  bit_and_00ffff00 =
      omega
        (arith, bit_and-shift8 a 0xffff, bit_and-ones8 (a / 256) 0xff, bit_and_ff (a / 256 / 256))

  pub bit_and_00ff0000 : bit_and a 0x00ff0000 ≡ a / 0x10000 % 0x100 * 0x10000
  bit_and_00ff0000 =
      omega
        (arith, bit_and-shift8 a 0xff00, bit_and-shift8 (a / 256) 0xff, bit_and_ff (a / 256 / 256))

  pub bit_and_9fff : bit_and a 0x9fff ≡ a / 0x8000 % 2 * 0x8000 + a % 0x2000
  bit_and_9fff = omega (
    arith,
    bit_and-ones8 a 0x9f,
    bit_and-ones4 (a / 256) 9,
    bit_and-odd (a / 256 / 16) 4,
    bit_and-even (a / 256 / 16 / 2) 2,
    bit_and-even (a / 256 / 16 / 2 / 2) 1,
    bit_and-odd (a / 256 / 16 / 2 / 2 / 2) 0,
    bit_and-none (a / 256 / 16 / 2 / 2 / 2 / 2),
  )
