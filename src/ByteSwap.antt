-- ===== src/ByteSwap.antt =====
-- The byte swaps of libcorsaro/libcorsaro_common.c and .h on a little-endian host. Where the source
-- joins parts by `|`, they have no bit in common, and the model adds them.
mod Tests
use corsaro.Base.{ℕ, zero, suc, ◌+◌, ◌*◌, ◌/◌, ◌%◌, ◌^◌, ◌-◌, ◌<◌, ◌≡◌, arith}

unfoldable pub byteswap16 : ℕ → ℕ
byteswap16 num = num % 256 * 256 + num / 256 % 256

unfoldable pub byteswap32 : ℕ → ℕ
byteswap32 num =
    num % 256 * 2 ^ 24
    + num / 2 ^ 8 % 256 * 2 ^ 16
    + num / 2 ^ 16 % 256 * 2 ^ 8
    + num / 2 ^ 24 % 256

unfoldable pub byteswap64 : ℕ → ℕ
unfolding byteswap32
byteswap64 num = byteswap32 (num / 2 ^ 32 % 2 ^ 32) + byteswap32 (num % 2 ^ 32) * 2 ^ 32

-- Byte number `i` of a number, from the lowest one on.
abbrev pub byte : ℕ → ℕ → ℕ
byte i num = num / 256 ^ i % 256

-- A number below 2^32 has four bytes in byteswap32 of it, in the other order.
byteswap32_bytes :
    (num : ℕ)
    → (byte 0 (byteswap32 num) ≡ byte 3 num)
      × (byte 1 (byteswap32 num) ≡ byte 2 num)
      × (byte 2 (byteswap32 num) ≡ byte 1 num)
      × (byte 3 (byteswap32 num) ≡ byte 0 num)
      × (byteswap32 num < 2 ^ 32)
unfolding byteswap32
byteswap32_bytes num = (omega arith, omega arith, omega arith, omega arith, omega arith)

byte-byteswap16 : (num i : ℕ) → i < 2 → byte i (byteswap16 num) ≡ byte (1 - i) num
unfolding byteswap16
byte-byteswap16 num zero h = omega arith
byte-byteswap16 num (suc zero) h = omega arith
byte-byteswap16 num (suc (suc i)) h = absurd (omega (arith, h))

byte-byteswap32 : (num i : ℕ) → i < 4 → byte i (byteswap32 num) ≡ byte (3 - i) num
byte-byteswap32 num zero h = let (b, _, _, _, _) = byteswap32_bytes num in b
byte-byteswap32 num (suc zero) h = let (_, b, _, _, _) = byteswap32_bytes num in b
byte-byteswap32 num (suc (suc zero)) h = let (_, _, b, _, _) = byteswap32_bytes num in b
byte-byteswap32 num (suc (suc (suc zero))) h = let (_, _, _, b, _) = byteswap32_bytes num in b
byte-byteswap32 num (suc (suc (suc (suc i)))) h = absurd (omega (arith, h))

-- The lower four bytes of byteswap64 are byteswap32 of the upper half, and the other way round.
byteswap64_halves :
    (num : ℕ)
    → (byteswap64 num % 2 ^ 32 ≡ byteswap32 (num / 2 ^ 32 % 2 ^ 32))
      × (byteswap64 num / 2 ^ 32 ≡ byteswap32 (num % 2 ^ 32))
      × (byteswap64 num < 2 ^ 64)
unfolding byteswap64
byteswap64_halves num =
    let (_, _, _, _, high) = byteswap32_bytes (num / 2 ^ 32 % 2 ^ 32) in
    let (_, _, _, _, low) = byteswap32_bytes (num % 2 ^ 32) in
    (omega (arith, high), omega (arith, high), omega (arith, high, low))

byte-byteswap64 : (num i : ℕ) → i < 8 → byte i (byteswap64 num) ≡ byte (7 - i) num
byte-byteswap64 num zero h =
    let (lower, upper, _) = byteswap64_halves num in
    let b = byte-byteswap32 (num / 2 ^ 32 % 2 ^ 32) 0 (omega arith) in omega (arith, lower, b)
byte-byteswap64 num (suc zero) h =
    let (lower, upper, _) = byteswap64_halves num in
    let b = byte-byteswap32 (num / 2 ^ 32 % 2 ^ 32) 1 (omega arith) in omega (arith, lower, b)
byte-byteswap64 num (suc (suc zero)) h =
    let (lower, upper, _) = byteswap64_halves num in
    let b = byte-byteswap32 (num / 2 ^ 32 % 2 ^ 32) 2 (omega arith) in omega (arith, lower, b)
byte-byteswap64 num (suc (suc (suc zero))) h =
    let (lower, upper, _) = byteswap64_halves num in
    let b = byte-byteswap32 (num / 2 ^ 32 % 2 ^ 32) 3 (omega arith) in omega (arith, lower, b)
byte-byteswap64 num (suc (suc (suc (suc zero)))) h =
    let (lower, upper, _) = byteswap64_halves num in
    let b = byte-byteswap32 (num % 2 ^ 32) 0 (omega arith) in omega (arith, upper, b)
byte-byteswap64 num (suc (suc (suc (suc (suc zero))))) h =
    let (lower, upper, _) = byteswap64_halves num in
    let b = byte-byteswap32 (num % 2 ^ 32) 1 (omega arith) in omega (arith, upper, b)
byte-byteswap64 num (suc (suc (suc (suc (suc (suc zero)))))) h =
    let (lower, upper, _) = byteswap64_halves num in
    let b = byte-byteswap32 (num % 2 ^ 32) 2 (omega arith) in omega (arith, upper, b)
byte-byteswap64 num (suc (suc (suc (suc (suc (suc (suc zero))))))) h =
    let (lower, upper, _) = byteswap64_halves num in
    let b = byte-byteswap32 (num % 2 ^ 32) 3 (omega arith) in omega (arith, upper, b)
byte-byteswap64 num (suc (suc (suc (suc (suc (suc (suc (suc i)))))))) h = absurd (omega (arith, h))

-- For every number, byteswap16, byteswap32 and byteswap64 give a number of two, four and eight bytes
-- whose byte i is byte 1 - i, 3 - i and 7 - i of the number.
pub byteswaps_reverse :
    (num i : ℕ)
    → (byteswap16 num < 2 ^ 16)
      × (byteswap32 num < 2 ^ 32)
      × (byteswap64 num < 2 ^ 64)
      × (i < 2 → byte i (byteswap16 num) ≡ byte (1 - i) num)
      × (i < 4 → byte i (byteswap32 num) ≡ byte (3 - i) num)
      × (i < 8 → byte i (byteswap64 num) ≡ byte (7 - i) num)
unfolding byteswap16
byteswaps_reverse num i =
    let (_, _, _, _, small) = byteswap32_bytes num in
    let (_, _, small') = byteswap64_halves num in
    (
      omega arith,
      small,
      small',
      byte-byteswap16 num i,
      byte-byteswap32 num i,
      byte-byteswap64 num i,
    )
