-- ===== src/Tagging/Tags.antt =====
-- The tags that libcorsaro/libcorsaro_tagging.c gives to a packet.
pub mod Providers
use Prim.Native.Nat.{bit_xor}
use corsaro.Base.{
  ℕ, zero, suc, ◌+◌, ◌*◌, ◌/◌, ◌%◌, ◌^◌, Bool, true, false, not, Option, none, some, List, [], ◌∷◌,
  ltb, leb, ◌==◌, ◌&&◌, ◌||◌, if◌then◌else◌, ◌>>=◌, bit_or, length,
}
use corsaro.Base.Or.{shifted}
use corsaro.ByteSwap.{byteswap16, byteswap32}
use corsaro.Filtering.Packet.{
  IpHeader, Transport, IpPayload, Libtrace, Memory, ethertype_ip, ipproto_icmp, ipproto_tcp,
  ipproto_udp,
}
use corsaro.Filtering.ApplyAll.{ToRun}
use corsaro.Tagging.FilterBits.{update_filter_tags}

-- `hash_fields_t`
pub record HashFields : Type 0 where
  pub src_ip : ℕ
  pub dst_ip : ℕ
  pub src_port : ℕ
  pub dst_port : ℕ
  pub ip_len : ℕ
  pub ttl : ℕ
  pub tcpflags : ℕ
  pub protocol : ℕ

-- `CORSARO_TAG_SHIFT_AND_XOR`, in 32 bits.
abbrev pub shift_and_xor : ℕ → ℕ → ℕ
shift_and_xor h value = bit_xor h ((h * 2 ^ 5 % 2 ^ 32 + h / 2 ^ 27 + value) % 2 ^ 32)

unfoldable pub calc_flow_hash : HashFields → ℕ
calc_flow_hash hf =
    let h0 = hf.src_ip * 59 % 2 ^ 32 in
    let h1 = shift_and_xor h0 hf.dst_ip in
    let h2 = shift_and_xor h1 (hf.src_port * 2 ^ 16) in
    let h3 = shift_and_xor h2 hf.dst_port in
    let h4 = shift_and_xor h3 (bit_or (hf.ttl * 2 ^ 24) (hf.tcpflags * 2 ^ 16)) in
    shift_and_xor h4 (bit_or (hf.protocol * 2 ^ 8) hf.ip_len)

-- `corsaro_packet_tags_t`, each field as the number that its bytes are on a little-endian host.
pub record PacketTags : Type 0 where
  pub providers_used : ℕ
  pub netacq_region : ℕ
  pub netacq_polygon : ℕ → ℕ
  pub prefixasn : ℕ
  pub maxmind_country : ℕ
  pub netacq_country : ℕ
  pub src_port : ℕ
  pub dest_port : ℕ
  pub maxmind_continent : ℕ
  pub netacq_continent : ℕ
  pub filterbits : ℕ
  pub ft_hash : ℕ
  pub protocol : ℕ

-- The tags after `memset(tags, 0, sizeof(corsaro_packet_tags_t))`.
abbrev pub no_tags : PacketTags
no_tags = record {
  providers_used = 0;
  netacq_region = 0;
  netacq_polygon = λ i. 0;
  prefixasn = 0;
  maxmind_country = 0;
  netacq_country = 0;
  src_port = 0;
  dest_port = 0;
  maxmind_continent = 0;
  netacq_continent = 0;
  filterbits = 0;
  ft_hash = 0;
  protocol = 0;
}

-- What is read of libipmeta's `ipmeta_record_t`; the two codes are pairs of characters, as numbers.
pub record IpmetaRecord : Type 0 where
  pub source : ℕ
  pub continent_code : ℕ
  pub country_code : ℕ
  pub region_code : ℕ
  pub polygon_ids_cnt : ℕ
  pub polygon_ids : ℕ → ℕ
  pub asn : List ℕ

-- libipmeta: its numbers for the providers, and a lookup of an address, which fails or gives records.
pub record Ipmeta : Type 0 where
  pub maxmind : ℕ
  pub netacq_edge : ℕ
  pub pfx2as : ℕ
  pub lookup_addr : ℕ → Option (List IpmetaRecord)

-- `providers_used |= (1 << provider)`
abbrev pub uses : ℕ → PacketTags → PacketTags
uses provider tags = record tags { providers_used = bit_or tags.providers_used (shifted provider) }

module _ (im : Ipmeta) where
  unfoldable pub update_maxmind_tags : IpmetaRecord → PacketTags → PacketTags
  update_maxmind_tags rec tags =
      uses im.maxmind
        (record tags { maxmind_continent = rec.continent_code; maxmind_country = rec.country_code })

  -- The eight polygons are cleared first.
  unfoldable pub update_netacq_tags : IpmetaRecord → PacketTags → PacketTags
  update_netacq_tags rec tags = uses im.netacq_edge (record tags {
    netacq_continent = rec.continent_code;
    netacq_country = rec.country_code;
    netacq_region = byteswap16 rec.region_code;
    netacq_polygon = λ i.
        if ltb i rec.polygon_ids_cnt && ltb i 8
        then byteswap32 (rec.polygon_ids i % 2 ^ 24 + i * 2 ^ 24)
        else 0;
  })

  unfoldable pub update_pfx2as_tags : IpmetaRecord → PacketTags → PacketTags
  update_pfx2as_tags rec tags = elim rec.asn [
    | [] ↦ tags
    | asn ∷ others ↦
        if length others == 0
        then uses im.pfx2as (record tags { prefixasn = byteswap32 asn })
        else tags
  ]

  -- One round of the loop over the records.
  unfoldable pub tag_record : IpmetaRecord → PacketTags → PacketTags
  unfolding update_maxmind_tags update_netacq_tags update_pfx2as_tags
  tag_record rec tags =
      if rec.source == im.maxmind
      then update_maxmind_tags rec tags
      else if rec.source == im.netacq_edge
      then update_netacq_tags rec tags
      else if rec.source == im.pfx2as
      then update_pfx2as_tags rec tags
      else tags

  unfoldable pub tag_records : List IpmetaRecord → PacketTags → PacketTags
  unfolding tag_record
  tag_records [] tags = tags
  tag_records (rec ∷ recs) tags = tag_records recs (tag_record rec tags)

-- The two bytes at an offset, as they are.
abbrev pub raw16 : Memory → ℕ → ℕ
raw16 mem i = mem i + 256 * mem (i + 1)

module _ (lt : Libtrace) where
  open lt use {get_payload_from_ip}

  -- `update_basic_tags` and the bytes that it leaves in `rem`.
  unfoldable pub update_basic_tags : IpHeader → ℕ → PacketTags → PacketTags × ℕ
  unfolding calc_flow_hash
  update_basic_tags ip rem tags =
      let p = get_payload_from_ip (some ip) rem in
      let blank = record tags { protocol = 0; src_port = 0; dest_port = 0 } in
      elim p.transport [
        | none ↦ (blank, p.rem)
        | some t ↦
            let has_ports = (p.proto == ipproto_tcp || p.proto == ipproto_udp) && leb 4 p.rem in
            let ports : ℕ × ℕ =
              if p.proto == ipproto_icmp && leb 2 p.rem
              then (byteswap16 t.as_icmp.icmp_type, byteswap16 t.as_icmp.code)
              else if has_ports
              then (raw16 t.bytes 0, raw16 t.bytes 2)
              else (0, 0) in
            let tcpflags =
              if has_ports && p.proto == ipproto_tcp && leb 20 p.rem then t.bytes 13 else 0 in
            let hash = calc_flow_hash (record {
              src_ip = ip.ip_src;
              dst_ip = ip.ip_dst;
              src_port = byteswap16 ports.0;
              dst_port = byteswap16 ports.1;
              ip_len = ip.ip_len;
              ttl = ip.ip_ttl;
              tcpflags = tcpflags;
              protocol = ip.ip_p;
            }) in
            (
              record blank {
                protocol = p.proto;
                src_port = ports.0;
                dest_port = ports.1;
                ft_hash = byteswap32 hash;
                providers_used = bit_or tags.providers_used 1;
              },
              p.rem,
            )
      ]

  -- `_corsaro_tag_ip_packet`: whether it returns 0, and the tags. `providers` and `records` are the
  -- tagger's, and `torun` is what the array on the stack of update_filter_tags holds before.
  unfoldable pub tag_ip_packet :
      Ipmeta
      → ℕ
      → Bool
      → (ℕ → ToRun)
      → Option IpHeader
      → ℕ
      → PacketTags
      → Option (Bool × PacketTags)
  unfolding update_filter_tags update_basic_tags tag_records
  tag_ip_packet im providers records torun ip rem tags = do
    filterbits ← update_filter_tags lt torun ip rem tags.filterbits
    let filtered = record tags { filterbits = filterbits }
    elim ip [
      | none ↦ some (true, filtered)
      | some header ↦
          let basic = (update_basic_tags header rem filtered).0 in
          let swap =
            λ (t : PacketTags). record t { providers_used = byteswap32 t.providers_used } in
          if providers == 0
          then some (true, basic)
          else if not records
          then some (true, swap basic)
          else elim (im.lookup_addr header.ip_src) [
            | none ↦ some (false, basic)
            | some recs ↦ some (true, swap (tag_records im recs basic))
          ]
    ]

  unfoldable pub corsaro_tag_ippayload :
      Ipmeta
      → ℕ
      → Bool
      → (ℕ → ToRun)
      → Option IpHeader
      → ℕ
      → PacketTags
      → Option (Bool × PacketTags)
  corsaro_tag_ippayload im providers records torun ip rem tags =
      tag_ip_packet im providers records torun ip rem tags

  -- A packet is none where the pointer is NULL. The tags are cleared first.
  unfoldable pub corsaro_tag_packet :
      Ipmeta → ℕ → Bool → (ℕ → ToRun) → Option (lt.Packet) → Option (Bool × PacketTags)
  corsaro_tag_packet im providers records torun none = some (true, no_tags)
  corsaro_tag_packet im providers records torun (some packet) =
      let l = lt.get_layer3 packet in
      if ltb l.rem 20 then some (true, no_tags) else elim (l.ip) [
        | none ↦ some (true, no_tags)
        | some ip ↦
            if l.ethertype == ethertype_ip
            then tag_ip_packet im providers records torun (some ip) l.rem no_tags
            else some (true, no_tags)
      ]
