-- ===== src/Filtering/Payload.antt =====
-- The filters of libcorsaro/libcorsaro_filtering.c that read the payload. A result `none` is a run
-- that reads a field through a null IP pointer; the filters do not test that pointer.
pub mod Bounds
use corsaro.Base.{
  ◌≡◌, ◌≢◌, inl, inr, Option-cases, arith, ℕ, ◌+◌, ◌-◌, ◌%◌, ◌^◌, Bool, not, Option, none, some,
  List, [], ◌∷◌, ltb, leb, ◌==◌, ◌&&◌, ◌||◌, if◌then◌else◌, ◌>>=◌, bit_and,
}
use corsaro.Filtering.Packet.{
  IpHeader, UdpHeader, FilterParams, Memory, Verdict, clear, matched, be16, be32, memcmp_eq,
}

abbrev pattern_0x31 : List ℕ
pattern_0x31 = 0x00 ∷ 0x00 ∷ 0x00 ∷ 0x00 ∷ 0x00 ∷ 0x00 ∷ 0x00 ∷ 0x00 ∷ 0x31 ∷ 0x00 ∷ []

abbrev pattern_sip : List ℕ
pattern_sip = 0x53 ∷ 0x49 ∷ 0x50 ∷ 0x2f ∷ 0x32 ∷ 0x2e ∷ 0x30 ∷ []

abbrev last10pat : List ℕ
last10pat = 0x00 ∷ 0x08 ∷ 0x00 ∷ 0x00 ∷ 0x00 ∷ 0x00 ∷ 0x00 ∷ 0x00 ∷ 0x00 ∷ 0x00 ∷ []

-- `payload == NULL || udp == NULL`: a filter for UDP payloads runs its body only past this test.
abbrev with_udp_payload : FilterParams → (UdpHeader → Memory → Option Verdict) → Option Verdict
with_udp_payload f body = elim f.payload [
  | none ↦ some clear
  | some mem ↦ elim f.udp [ none ↦ some clear | some udp ↦ body udp mem ]
]

unfoldable pub apply_udp_0x31_filter : FilterParams → Option Verdict
apply_udp_0x31_filter f = with_udp_payload f λ udp mem.
    if ltb f.payloadlen 10 then some clear else (do
      ip ← f.ip
      if not (ip.ip_len == 58)
          then some clear
          else if memcmp_eq pattern_0x31 mem 0
          then some matched
          else some clear)

unfoldable pub apply_sip_status_filter : FilterParams → Option Verdict
apply_sip_status_filter f = with_udp_payload f λ udp mem.
    if ltb f.payloadlen 7
    then some clear
    else if f.source_port == 5060 && f.dest_port == 5060 && memcmp_eq pattern_sip mem 0
    then some matched
    else some clear

-- The tests on the DNS header: flags and codes, then the four record counts.
dns_header : Memory → Verdict
dns_header mem =
    if not (bit_and (be16 mem 1) 0xfff0 == 0x8180)
    then clear
    else if leb 10 (be16 mem 2)
    then clear
    else if leb 10 (be16 mem 3)
    then clear
    else if leb 10 (be16 mem 4)
    then clear
    else if leb 10 (be16 mem 5)
    then clear
    else matched

unfoldable pub apply_dns_resp_oddport_filter : FilterParams → Option Verdict
unfolding dns_header
apply_dns_resp_oddport_filter f = with_udp_payload f λ udp mem. do
  ip ← f.ip
  if leb ip.ip_len 42
      then some clear
      else if ltb f.payloadlen 12
      then some clear
      else some (dns_header mem)

netbios_name : Memory → Verdict
netbios_name mem =
    if not (be16 mem 6 == 0x2043)
    then clear
    else if not (be16 mem 7 == 0x4b41)
    then clear
    else if not (be16 mem 8 == 0x4141)
    then clear
    else if not (be16 mem 9 == 0x4141)
    then clear
    else matched

unfoldable pub apply_netbios_name_filter : FilterParams → Option Verdict
unfolding netbios_name
apply_netbios_name_filter f = with_udp_payload f λ udp mem.
    if not (f.source_port == 137) || not (f.dest_port == 137) then some clear else (do
      ip ← f.ip
      if leb ip.ip_len 48
          then some clear
          else if ltb f.payloadlen 20
          then some clear
          else some (netbios_name mem))

-- The five blocks of `_apply_bittorrent_filter`, each true where the source returns 1.
bittorrent_dht : ℕ → ℕ → Memory → Bool
bittorrent_dht udplen payloadlen mem =
    (leb 20 udplen && leb 12 payloadlen)
    && ((be32 mem 0 == 0x64313a61 || be32 mem 0 == 0x64313a72)
        && (be32 mem 1 == 0x64323a69 && be32 mem 2 == 0x6432303a))

bittorrent_handshake : ℕ → ℕ → Memory → Bool
bittorrent_handshake udplen payloadlen mem =
    (leb 48 udplen && leb 40 payloadlen)
    && (be32 mem 5 == 0x13426974
        && be32 mem 6 == 0x546f7272
        && be32 mem 7 == 0x656e7420
        && be32 mem 8 == 0x70726f74
        && be32 mem 9 == 0x6f636f6c)

-- `udplen - sizeof(libtrace_udp_t)` is a `size_t`, and `payloadlen - 10` a `uint32_t`: both wrap.
bittorrent_syn : ℕ → ℕ → ℕ → Memory → Bool
bittorrent_syn iplen udplen payloadlen mem =
    leb 0x3a iplen
    && ((be16 mem 0 == 0x4102
          || be16 mem 0 == 0x2102
          || be16 mem 0 == 0x3102
          || be16 mem 0 == 0x1102)
        && (leb ((udplen + 2 ^ 64 - 8) % 2 ^ 64) payloadlen
            && memcmp_eq last10pat mem ((payloadlen + 2 ^ 32 - 10) % 2 ^ 32)))

bittorrent_short : ℕ → Memory → Bool
bittorrent_short iplen mem =
    iplen == 0x30
    && (be16 mem 0 == 0x4100
        || be16 mem 0 == 0x2100
        || be16 mem 0 == 0x3102
        || be16 mem 0 == 0x1100)

bittorrent_len61 : ℕ → Memory → Bool
bittorrent_len61 iplen mem =
    iplen == 61
    && (be32 mem 3 == 0x7fffffff
        && be32 mem 4 == 0xab020400
        && be32 mem 5 == 0x01000000
        && be32 mem 6 == 0x08000000
        && be32 mem 7 == 0)

bittorrent_at : ℕ → ℕ → ℕ → Memory → Verdict
unfolding bittorrent_dht bittorrent_handshake bittorrent_syn bittorrent_short bittorrent_len61
bittorrent_at iplen udplen payloadlen mem =
    if bittorrent_dht udplen payloadlen mem
    then matched
    else if bittorrent_handshake udplen payloadlen mem
    then matched
    else if bittorrent_syn iplen udplen payloadlen mem
    then matched
    else if bittorrent_short iplen mem
    then matched
    else if bittorrent_len61 iplen mem
    then matched
    else clear

unfoldable pub apply_bittorrent_filter : FilterParams → Option Verdict
unfolding bittorrent_at
apply_bittorrent_filter f =
    with_udp_payload f
      λ udp mem. do ip ← f.ip; some (bittorrent_at ip.ip_len udp.len f.payloadlen mem)

-- With an IP header none of these filters faults.
module _ (f : FilterParams) {ip : IpHeader} (h : f.ip ≡ some ip) where
  pub udp_0x31_runs : apply_udp_0x31_filter f ≢ none
  unfolding apply_udp_0x31_filter
  udp_0x31_runs = ground arith

  pub sip_status_runs : apply_sip_status_filter f ≢ none
  unfolding apply_sip_status_filter
  sip_status_runs = ground arith

  pub dns_resp_oddport_runs : apply_dns_resp_oddport_filter f ≢ none
  unfolding apply_dns_resp_oddport_filter
  dns_resp_oddport_runs = ground arith

  pub netbios_name_runs : apply_netbios_name_filter f ≢ none
  unfolding apply_netbios_name_filter
  netbios_name_runs = ground arith

  pub bittorrent_runs : apply_bittorrent_filter f ≢ none
  unfolding apply_bittorrent_filter
  bittorrent_runs = elim (Option-cases f.payload) [
    | inl e ↦ ground arith
    | inr (mem, e) ↦ elim (Option-cases f.udp) [
      | inl g ↦ rw (e, g) (λ c. cc)
      | inr (udp, g) ↦ rw (e, g, h) (λ c. cc)
    ]
  ]
