-- ===== src/ByteSwap/Tests.antt =====
-- The byte swaps of libcorsaro/libcorsaro_common.c at sample numbers.
use corsaro.Base.{◌-◌, ◌^◌, ◌<◌, ◌≡◌, refl}
use corsaro.ByteSwap.{byteswap16, byteswap32, byteswap64, byte, byteswaps_reverse}

swaps_bytes : byteswap64 0x0102030405060708 ≡ 0x0807060504030201
unfolding byteswap64
swaps_bytes = refl

byteswaps_reverse_example :
    (byteswap16 0x0102030405060708 < 2 ^ 16)
    × (byteswap32 0x0102030405060708 < 2 ^ 32)
    × (byteswap64 0x0102030405060708 < 2 ^ 64)
    × (1 < 2 → byte 1 (byteswap16 0x0102030405060708) ≡ byte (1 - 1) 0x0102030405060708)
    × (1 < 4 → byte 1 (byteswap32 0x0102030405060708) ≡ byte (3 - 1) 0x0102030405060708)
    × (1 < 8 → byte 1 (byteswap64 0x0102030405060708) ≡ byte (7 - 1) 0x0102030405060708)
byteswaps_reverse_example = byteswaps_reverse 0x0102030405060708 1
