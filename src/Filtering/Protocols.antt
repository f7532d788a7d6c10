-- ===== src/Filtering/Protocols.antt =====
-- The filters of libcorsaro/libcorsaro_filtering.c for reserved source addresses, for unusual
-- protocols and TCP flags, and for backscatter.
pub mod Rfc5735
use corsaro.Base.{ℕ, Bool, not, Option, none, some, leb, ◌==◌, ◌&&◌, ◌||◌, if◌then◌else◌, bit_and}
use corsaro.Filtering.Packet.{
  IpHeader, TcpHeader, FilterParams, Memory, Verdict, missing, clear, matched, ipproto_icmp,
  ipproto_tcp, ipproto_udp, ipproto_ipv6,
}

-- The checks below the ones inside 192.0.0.0/8.
rfc5735_upper : ℕ → Verdict
rfc5735_upper srcip =
    if bit_and srcip 0xfffe0000 == 0xc6120000
    then matched
    else if bit_and srcip 0xffffff00 == 0xc6336400
    then matched
    else if bit_and srcip 0xffffff00 == 0xcb007100
    then matched
    else if leb 0xe0000000 (bit_and srcip 0xf0000000)
    then matched
    else clear

rfc5735_address : ℕ → Verdict
unfolding rfc5735_upper
rfc5735_address srcip =
    if bit_and srcip 0x80000000 == 0
    then (if bit_and srcip 0xff000000 == 0x00000000
        then matched
        else if bit_and srcip 0xff000000 == 0x0a000000
        then matched
        else if bit_and srcip 0xff000000 == 0x7f000000
        then matched
        else clear)
    else if bit_and srcip 0xffff0000 == 0xa9fe0000
    then matched
    else if bit_and srcip 0xfff00000 == 0xac100000
    then matched
    else if bit_and srcip 0xff000000 == 0xc0000000
    then (if bit_and srcip 0x00ffff00 == 0x00000000
        then matched
        else if bit_and srcip 0x00ffff00 == 0x00000200
        then matched
        else if bit_and srcip 0x00ffff00 == 0x00586300
        then matched
        else if bit_and srcip 0x00ff0000 == 0x00a80000
        then matched
        else rfc5735_upper srcip)
    else rfc5735_upper srcip

unfoldable pub apply_rfc5735_filter : Option IpHeader → Verdict
unfolding rfc5735_address
apply_rfc5735_filter none = missing
apply_rfc5735_filter (some ip) = rfc5735_address ip.ip_src

unfoldable pub apply_routable_filter : Option IpHeader → Verdict
unfolding apply_rfc5735_filter
apply_routable_filter ip = apply_rfc5735_filter ip

-- The nine flag combinations that are let through, in the source's order.
normal_flags : TcpHeader → Bool
normal_flags tcp =
    (tcp.syn && not tcp.ack && not tcp.fin && not tcp.psh && not tcp.rst && not tcp.urg)
    || (tcp.ack && not tcp.syn && not tcp.fin && not tcp.psh && not tcp.rst && not tcp.urg)
    || (tcp.rst && not tcp.syn && not tcp.ack && not tcp.fin && not tcp.psh && not tcp.urg)
    || (tcp.fin && not tcp.syn && not tcp.ack && not tcp.rst && not tcp.psh && not tcp.urg)
    || (tcp.fin && tcp.syn && not tcp.ack && not tcp.rst && not tcp.psh && not tcp.urg)
    || (tcp.syn && tcp.ack && not tcp.fin && not tcp.rst && not tcp.psh && not tcp.urg)
    || (tcp.fin && tcp.ack && not tcp.syn && not tcp.rst && not tcp.psh && not tcp.urg)
    || (tcp.ack && tcp.psh && not tcp.syn && not tcp.rst && not tcp.fin && not tcp.urg)
    || (tcp.fin && tcp.ack && tcp.psh && not tcp.syn && not tcp.rst && not tcp.urg)

-- `!payload || !tcp`, and the flag tests after it.
abnormal_tcp : Option Memory → Option TcpHeader → Verdict
unfolding normal_flags
abnormal_tcp none tcp = missing
abnormal_tcp (some payload) none = missing
abnormal_tcp (some payload) (some tcp) = if normal_flags tcp then clear else matched

unfoldable pub apply_abnormal_protocol_filter : FilterParams → Verdict
unfolding abnormal_tcp
apply_abnormal_protocol_filter f = elim f.ip [
  | none ↦ missing
  | some ip ↦
      if ip.ip_p == ipproto_icmp || ip.ip_p == ipproto_udp
      then clear
      else if ip.ip_p == ipproto_ipv6
      then clear
      else if not (ip.ip_p == ipproto_tcp)
      then matched
      else abnormal_tcp f.payload f.tcp
]

-- The ICMP types that are answers.
icmp_answer : ℕ → Bool
icmp_answer t =
    t == 0 || t == 3 || t == 4 || t == 5 || t == 11 || t == 12 || t == 14 || t == 16 || t == 18

-- The branch on `tcp && payload`.
tcp_backscatter : Option TcpHeader → Option Memory → Verdict
tcp_backscatter none payload = clear
tcp_backscatter (some tcp) none = clear
tcp_backscatter (some tcp) (some payload) =
    if (tcp.syn && tcp.ack) || tcp.rst then matched else clear

unfoldable pub apply_backscatter_filter : FilterParams → Verdict
unfolding icmp_answer tcp_backscatter
apply_backscatter_filter f = elim f.udp [
  | some udp ↦ if f.source_port == 53 then matched else clear
  | none ↦ elim f.icmp [
    | some icmp ↦ if icmp_answer icmp.icmp_type then matched else clear
    | none ↦ tcp_backscatter f.tcp f.payload
  ]
]
