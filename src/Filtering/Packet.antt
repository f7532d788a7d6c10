-- ===== src/Filtering/Packet.antt =====
-- The types of libcorsaro/libcorsaro_filtering.c, and what that file takes from libtrace.
use corsaro.Base.{ℕ, ◌+◌, ◌*◌, Bool, true, false, List, [], ◌∷◌, Option, ◌&&◌, ◌==◌}

-- Bytes behind a pointer, by their offset. What lies past the captured data is in it too.
abbrev pub Memory : Type 0
Memory = ℕ → ℕ

-- libtrace's headers, by its field names. A field of several bytes is held as the number that
-- `ntohs` or `ntohl` makes of it, and a one-bit field as a Boolean.
pub record IpHeader : Type 0 where
  pub ip_len : ℕ
  pub ip_off : ℕ
  pub ip_ttl : ℕ
  pub ip_p : ℕ
  pub ip_src : ℕ
  pub ip_dst : ℕ

pub record TcpHeader : Type 0 where
  pub source : ℕ
  pub dest : ℕ
  pub doff : ℕ
  pub fin : Bool
  pub syn : Bool
  pub rst : Bool
  pub psh : Bool
  pub ack : Bool
  pub urg : Bool
  pub window : ℕ

pub record UdpHeader : Type 0 where
  pub source : ℕ
  pub dest : ℕ
  pub len : ℕ

-- `type` is spelled out, since it is the model's word for a universe.
pub record IcmpHeader : Type 0 where
  pub icmp_type : ℕ
  pub code : ℕ

-- The `void *` to a transport header: what each cast of it reads, and its bytes.
pub record Transport : Type 0 where
  pub as_tcp : TcpHeader
  pub as_udp : UdpHeader
  pub as_icmp : IcmpHeader
  pub bytes : Memory

-- What `trace_get_payload_from_ip` returns and writes through its pointers.
pub record IpPayload : Type 0 where
  pub transport : Option Transport
  pub proto : ℕ
  pub rem : ℕ

-- What `trace_get_layer3` returns and writes through its pointers.
pub record Layer3 : Type 0 where
  pub ip : Option IpHeader
  pub ethertype : ℕ
  pub rem : ℕ

-- The calls of libtrace, none of which is part of this repository.
pub record Libtrace : Type 1 where
  pub Packet : Type 0
  pub get_layer3 : Packet → Layer3
  pub get_payload_from_ip : Option IpHeader → ℕ → IpPayload
  pub get_payload_from_udp : Option UdpHeader → ℕ → Option Memory × ℕ
  pub get_payload_from_tcp : Option TcpHeader → ℕ → Option Memory × ℕ

-- The constants of libtrace that the program compares with.
abbrev pub ipproto_icmp : ℕ
ipproto_icmp = 1

abbrev pub ipproto_tcp : ℕ
ipproto_tcp = 6

abbrev pub ipproto_udp : ℕ
ipproto_udp = 17

abbrev pub ipproto_ipv6 : ℕ
ipproto_ipv6 = 41

abbrev pub ethertype_ip : ℕ
ethertype_ip = 0x0800

-- `filter_params_t`
pub record FilterParams : Type 0 where
  pub ip : Option IpHeader
  pub tcp : Option TcpHeader
  pub udp : Option UdpHeader
  pub icmp : Option IcmpHeader
  pub translen : ℕ
  pub payloadlen : ℕ
  pub source_port : ℕ
  pub dest_port : ℕ
  pub payload : Option Memory

-- The int that a filter returns: -1, 0 or 1.
pub data Verdict : Type 0 where
  missing clear matched : Verdict

-- `> 0`
abbrev pub is_positive : Verdict → Bool
is_positive matched = true
is_positive _ = false

-- The verdict as it is kept in a `uint8_t`.
abbrev pub to_u8 : Verdict → ℕ
to_u8 missing = 255
to_u8 clear = 0
to_u8 matched = 1

-- `ntohs(ptr16[i])` and `ntohl(ptr32[i])` at a pointer to bytes.
abbrev pub be16 : Memory → ℕ → ℕ
be16 mem i = mem (2 * i) * 256 + mem (2 * i + 1)

abbrev pub be32 : Memory → ℕ → ℕ
be32 mem i = ((mem (4 * i) * 256 + mem (4 * i + 1)) * 256 + mem (4 * i + 2)) * 256 + mem (4 * i + 3)

-- `memcmp(pattern, mem + off, n) == 0`, for the n bytes of the pattern.
abbrev pub memcmp_eq : List ℕ → Memory → ℕ → Bool
memcmp_eq [] mem off = true
memcmp_eq (b ∷ pattern) mem off = (b == mem off) && memcmp_eq pattern mem (off + 1)
