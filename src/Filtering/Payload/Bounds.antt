-- ===== src/Filtering/Payload/Bounds.antt =====
-- Which bytes the payload filters of libcorsaro/libcorsaro_filtering.c read.
use corsaro.Base.{
  ℕ, suc, ◌+◌, ◌-◌, ◌*◌, ◌%◌, ◌^◌, ◌≤◌, ◌<◌, ◌≡◌, refl, arith, true, false, some, List, [], ◌∷◌,
  leb, ◌==◌, if◌then◌else◌,
}
use corsaro.Filtering.Packet.{
  IpHeader, UdpHeader, FilterParams, Memory, clear, matched, be16, memcmp_eq,
}
use corsaro.Filtering.Payload.{
  pattern_0x31, pattern_sip, last10pat, dns_header, netbios_name, bittorrent_at, bittorrent_dht,
  bittorrent_handshake, bittorrent_syn, bittorrent_short, bittorrent_len61, apply_udp_0x31_filter,
  apply_sip_status_filter, apply_dns_resp_oddport_filter, apply_netbios_name_filter,
  apply_bittorrent_filter,
}

abbrev pub AgreeBelow : ℕ → Memory → Memory → Type 0
AgreeBelow n mem mem' = (i : ℕ) → i < n → mem i ≡ mem' i

abbrev pub with_payload : FilterParams → Memory → FilterParams
with_payload f mem = record f { payload = some mem }

abbrev length : List ℕ → ℕ
length [] = 0
length (x ∷ xs) = suc (length xs)

memcmp_eq-AgreeBelow :
    (pattern : List ℕ) (n : ℕ) (mem mem' : Memory) (off : ℕ)
    → AgreeBelow n mem mem'
    → off + length pattern ≤ n
    → memcmp_eq pattern mem off ≡ memcmp_eq pattern mem' off
memcmp_eq-AgreeBelow [] n mem mem' off same h = refl
memcmp_eq-AgreeBelow (b ∷ pattern) n mem mem' off same h =
    rw
      (same off (omega arith), memcmp_eq-AgreeBelow pattern n mem mem' (off + 1) same (omega arith))

be16-AgreeBelow :
    (n : ℕ) (mem mem' : Memory) (i : ℕ)
    → AgreeBelow n mem mem'
    → i * 2 + 2 ≤ n
    → be16 mem i ≡ be16 mem' i
be16-AgreeBelow n mem mem' i same h =
    rw (same (2 * i) (omega arith), same (2 * i + 1) (omega arith))

module _ (n : ℕ) (mem mem' : Memory) (same : AgreeBelow n mem mem') where
  dns_header-AgreeBelow : 12 ≤ n → dns_header mem ≡ dns_header mem'
  unfolding dns_header
  dns_header-AgreeBelow h = rw (
    be16-AgreeBelow n mem mem' 1 same (omega arith),
    be16-AgreeBelow n mem mem' 2 same (omega arith),
    be16-AgreeBelow n mem mem' 3 same (omega arith),
    be16-AgreeBelow n mem mem' 4 same (omega arith),
    be16-AgreeBelow n mem mem' 5 same (omega arith),
  )

  netbios_name-AgreeBelow : 20 ≤ n → netbios_name mem ≡ netbios_name mem'
  unfolding netbios_name
  netbios_name-AgreeBelow h = rw (
    be16-AgreeBelow n mem mem' 6 same (omega arith),
    be16-AgreeBelow n mem mem' 7 same (omega arith),
    be16-AgreeBelow n mem mem' 8 same (omega arith),
    be16-AgreeBelow n mem mem' 9 same (omega arith),
  )

-- The four filters with a length check return the same for any two payloads that agree on the
-- captured bytes: none of them reads past `payloadlen`.
pub payload_reads_in_bounds :
    (f : FilterParams) (mem mem' : Memory)
    → AgreeBelow f.payloadlen mem mem'
    → (apply_udp_0x31_filter (with_payload f mem) ≡ apply_udp_0x31_filter (with_payload f mem'))
      × (apply_sip_status_filter (with_payload f mem)
          ≡ apply_sip_status_filter (with_payload f mem'))
      × (apply_dns_resp_oddport_filter (with_payload f mem)
          ≡ apply_dns_resp_oddport_filter (with_payload f mem'))
      × (apply_netbios_name_filter (with_payload f mem)
          ≡ apply_netbios_name_filter (with_payload f mem'))
unfolding apply_udp_0x31_filter apply_sip_status_filter apply_dns_resp_oddport_filter
    apply_netbios_name_filter
payload_reads_in_bounds f mem mem' same = (
  ground (arith, memcmp_eq-AgreeBelow pattern_0x31 f.payloadlen mem mem' 0 same),
  ground (arith, memcmp_eq-AgreeBelow pattern_sip f.payloadlen mem mem' 0 same),
  ground (arith, dns_header-AgreeBelow f.payloadlen mem mem' same),
  ground (arith, netbios_name-AgreeBelow f.payloadlen mem mem' same),
)

-- Where the last ten bytes of a payload shorter than ten bytes are looked for: the subtraction in
-- `uint32_t` wraps.
abbrev wrapped : ℕ → ℕ
wrapped n = (n + 2 ^ 32 - 10) % 2 ^ 32

-- A payload that starts with 0x4102, with the byte `b` at one other place and zeros elsewhere.
abbrev pub syn_bytes : ℕ → ℕ → Memory
syn_bytes place b i = if i == 0 then 0x41 else if i == 1 then 0x02 else if i == place then b else 0

module _ (n : ℕ) (short : n < 10) where
  syn_matches : memcmp_eq last10pat (syn_bytes (wrapped n + 1) 8) (wrapped n) ≡ true
  syn_matches = ground arith

  syn_differs : memcmp_eq last10pat (syn_bytes (wrapped n + 1) 0) (wrapped n) ≡ false
  syn_differs = ground arith

  -- Only the third block of the filter can match these payloads.
  module _ (iplen b : ℕ) (long : 0x3a ≤ iplen) where
    abbrev bytes : Memory
    bytes = syn_bytes (wrapped n + 1) b

    no_dht : bittorrent_dht (n + 8) n bytes ≡ false
    unfolding bittorrent_dht
    no_dht = let e : leb 12 n ≡ false = ground arith in rw e (ground arith)

    no_handshake : bittorrent_handshake (n + 8) n bytes ≡ false
    unfolding bittorrent_handshake
    no_handshake = let e : leb 40 n ≡ false = ground arith in rw e (ground arith)

    syn_block : bittorrent_syn iplen (n + 8) n bytes ≡ memcmp_eq last10pat bytes (wrapped n)
    unfolding bittorrent_syn
    syn_block =
        let e : leb 0x3a iplen ≡ true = ground arith in
        let g : leb ((n + 8 + 2 ^ 64 - 8) % 2 ^ 64) n ≡ true = ground arith in rw (e, g)

    not_short : bittorrent_short iplen bytes ≡ false
    unfolding bittorrent_short
    not_short = let e : (iplen == 0x30) ≡ false = ground arith in rw e

    not_len61 : bittorrent_len61 iplen bytes ≡ false
    unfolding bittorrent_len61
    not_len61 = let e : (12 == wrapped n + 1) ≡ false = ground arith in ground arith

    by_memcmp :
        bittorrent_at iplen (n + 8) n bytes
        ≡ (if memcmp_eq last10pat bytes (wrapped n) then matched else clear)
    unfolding bittorrent_at
    by_memcmp = rw (no_dht, no_handshake, syn_block, not_short, not_len61)

-- The BitTorrent filter does read past `payloadlen`: for every payload of less than ten bytes in a
-- UDP packet whose length field is that of the payload and whose IP length is 0x3a or more, two
-- payloads that agree on the captured bytes get different verdicts.
pub bittorrent_reads_past_payload :
    (f : FilterParams) (ip : IpHeader) (udp : UdpHeader)
    → f.ip ≡ some ip
    → f.udp ≡ some udp
    → f.payloadlen < 10
    → udp.len ≡ f.payloadlen + 8
    → 0x3a ≤ ip.ip_len
    → (mem : Memory) × (mem' : Memory) × AgreeBelow f.payloadlen mem mem'
      × (apply_bittorrent_filter (with_payload f mem) ≡ some matched)
      × (apply_bittorrent_filter (with_payload f mem') ≡ some clear)
unfolding apply_bittorrent_filter
bittorrent_reads_past_payload f ip udp hip hudp short len long =
    let p = wrapped f.payloadlen + 1 in
    (
      syn_bytes p 8,
      syn_bytes p 0,
      (λ i h. ground arith),
      rw
          (
            hudp,
            hip,
            len,
            by_memcmp f.payloadlen short ip.ip_len 8 long,
            syn_matches f.payloadlen short,
          )
          refl,
      rw
          (
            hudp,
            hip,
            len,
            by_memcmp f.payloadlen short ip.ip_len 0 long,
            syn_differs f.payloadlen short,
          )
          refl,
    )
