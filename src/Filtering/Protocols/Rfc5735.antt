-- ===== src/Filtering/Protocols/Rfc5735.antt =====
-- The masks in _apply_rfc5735_filter of libcorsaro/libcorsaro_filtering.c against the address
-- blocks that they stand for.
use corsaro.Base.{
  ℕ, ◌-◌, ◌/◌, ◌^◌, ◌≤◌, ◌<◌, ◌≡◌, ◌≢◌, arith, Bool, true, false, List, [], ◌∷◌, some, leb, bit_and,
  ◌==◌, ◌||◌, ◌+◌, ◌*◌,
}
use native.Mathlib.Decide.{dec_lt, ℕ_discrete}
use corsaro.Base.Bits
use corsaro.Filtering.Packet.{IpHeader, is_positive}
use corsaro.Filtering.Protocols.{apply_rfc5735_filter, rfc5735_address, rfc5735_upper}

-- An address block: an address and the length of its prefix.
pub record Block : Type 0 where
  pub address : ℕ
  pub prefix : ℕ

abbrev ip4 : ℕ → ℕ → ℕ → ℕ → ℕ
ip4 a b c d = ((a * 256 + b) * 256 + c) * 256 + d

abbrev block : ℕ → ℕ → ℕ → ℕ → ℕ → Block
block a b c d n = record { address = ip4 a b c d; prefix = n }

-- The address agrees with the block's in its leading bits.
abbrev pub in_block : Block → ℕ → Bool
in_block b x = x / 2 ^ (32 - b.prefix) == b.address / 2 ^ (32 - b.prefix)

abbrev pub in_any : List Block → ℕ → Bool
in_any [] x = false
in_any (b ∷ bs) x = in_block b x || in_any bs x

-- The blocks of RFC 5735 that the filter's comments name.
abbrev pub reserved : List Block
reserved =
    block 0 0 0 0 8
    ∷ block 10 0 0 0 8
    ∷ block 127 0 0 0 8
    ∷ block 169 254 0 0 16
    ∷ block 172 16 0 0 12
    ∷ block 192 0 0 0 24
    ∷ block 192 0 2 0 24
    ∷ block 192 88 99 0 24
    ∷ block 192 168 0 0 16
    ∷ block 198 18 0 0 15
    ∷ block 198 51 100 0 24
    ∷ block 203 0 113 0 24
    ∷ block 224 0 0 0 4
    ∷ block 240 0 0 0 4
    ∷ []

lower_half : (x : ℕ) → x < 2 ^ 31 → is_positive (rfc5735_address x) ≡ in_any reserved x
unfolding rfc5735_address
lower_half x h = ground (arith, Bits.bit_and_80000000 x, Bits.bit_and_ff000000 x)

-- A test of the leading bits with a mask is the test of a block.
module _ (x : ℕ) (h : x < 2 ^ 32) where
  link_local : (bit_and x 0xffff0000 == 0xa9fe0000) ≡ in_block (block 169 254 0 0 16) x
  link_local = ground (arith, Bits.bit_and_ffff0000 x)

  private_172 : (bit_and x 0xfff00000 == 0xac100000) ≡ in_block (block 172 16 0 0 12) x
  private_172 = ground (arith, Bits.bit_and_fff00000 x)

  benchmark : (bit_and x 0xfffe0000 == 0xc6120000) ≡ in_block (block 198 18 0 0 15) x
  benchmark = ground (arith, Bits.bit_and_fffe0000 x)

  test_net_2 : (bit_and x 0xffffff00 == 0xc6336400) ≡ in_block (block 198 51 100 0 24) x
  test_net_2 = ground (arith, Bits.bit_and_ffffff00 x)

  test_net_3 : (bit_and x 0xffffff00 == 0xcb007100) ≡ in_block (block 203 0 113 0 24) x
  test_net_3 = ground (arith, Bits.bit_and_ffffff00 x)

  multicast :
      leb 0xe0000000 (bit_and x 0xf0000000)
      ≡ (in_block (block 224 0 0 0 4) x || in_block (block 240 0 0 0 4) x)
  multicast = ground (arith, Bits.bit_and_f0000000 x)

  -- Inside 192.0.0.0/8.
  module _ (e : x / 2 ^ 24 ≡ 192) where
    protocol_assignments : (bit_and x 0x00ffff00 == 0x00000000) ≡ in_block (block 192 0 0 0 24) x
    protocol_assignments = ground (arith, Bits.bit_and_00ffff00 x)

    test_net_1 : (bit_and x 0x00ffff00 == 0x00000200) ≡ in_block (block 192 0 2 0 24) x
    test_net_1 = ground (arith, Bits.bit_and_00ffff00 x)

    relay_anycast : (bit_and x 0x00ffff00 == 0x00586300) ≡ in_block (block 192 88 99 0 24) x
    relay_anycast = ground (arith, Bits.bit_and_00ffff00 x)

    private_192 : (bit_and x 0x00ff0000 == 0x00a80000) ≡ in_block (block 192 168 0 0 16) x
    private_192 = ground (arith, Bits.bit_and_00ff0000 x)

  upper_blocks :
      is_positive (rfc5735_upper x)
      ≡ in_any
          (block 198 18 0 0 15
            ∷ block 198 51 100 0 24
            ∷ block 203 0 113 0 24
            ∷ block 224 0 0 0 4
            ∷ block 240 0 0 0 4
            ∷ [])
          x
  unfolding rfc5735_upper
  upper_blocks = rw (benchmark, test_net_2, test_net_3, multicast) (ground arith)

  upper_others : 2 ^ 31 ≤ x → x / 2 ^ 24 ≢ 192 → is_positive (rfc5735_address x) ≡ in_any reserved x
  unfolding rfc5735_address
  upper_others g e =
      let top : (bit_and x 0x80000000 == 0) ≡ false = ground (arith, Bits.bit_and_80000000 x) in
      let not_192 : (bit_and x 0xff000000 == 0xc0000000) ≡ false =
        ground (arith, Bits.bit_and_ff000000 x) in
      rw (top, not_192, link_local, private_172) (ground (arith, upper_blocks))

  upper_192 : x / 2 ^ 24 ≡ 192 → is_positive (rfc5735_address x) ≡ in_any reserved x
  unfolding rfc5735_address
  upper_192 e =
      let top : (bit_and x 0x80000000 == 0) ≡ false = ground (arith, Bits.bit_and_80000000 x) in
      let in_192 : (bit_and x 0xff000000 == 0xc0000000) ≡ true =
        ground (arith, Bits.bit_and_ff000000 x) in
      rw
        (
          top,
          in_192,
          link_local,
          private_172,
          protocol_assignments e,
          test_net_1 e,
          relay_anycast e,
          private_192 e,
        )
        (ground (arith, upper_blocks))

-- For every 32-bit source address, the filter matches exactly the addresses in the blocks of
-- RFC 5735 that its comments name.
pub rfc5735_lem :
    (ip : IpHeader)
    → ip.ip_src < 2 ^ 32
    → is_positive (apply_rfc5735_filter (some ip)) ≡ in_any reserved ip.ip_src
unfolding apply_rfc5735_filter
rfc5735_lem ip h = elim (dec_lt ip.ip_src (2 ^ 31)) [
  | yes low ↦ lower_half ip.ip_src low
  | no high ↦ elim (ℕ_discrete (ip.ip_src / 2 ^ 24) 192) [
    | yes e ↦ upper_192 ip.ip_src h e
    | no e ↦ upper_others ip.ip_src h (omega arith) e
  ]
]
