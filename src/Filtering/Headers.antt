-- ===== src/Filtering/Headers.antt =====
-- The filters of libcorsaro/libcorsaro_filtering.c that look at header fields only. A null header
-- pointer is `none`; the logger argument, which they do not use, is left out.
use corsaro.Base.{
  ℕ, Bool, true, false, not, Option, none, some, ltb, leb, ◌==◌, ◌&&◌, ◌||◌, if◌then◌else◌, bit_and,
}
use corsaro.Filtering.Packet.{
  IpHeader, TcpHeader, FilterParams, Verdict, missing, clear, matched, is_positive, ipproto_icmp,
  ipproto_udp,
}

abbrev is_null {ℓ} : {A : Type ℓ} → Option A → Bool
is_null none = true
is_null (some a) = false

unfoldable pub apply_ttl200_filter : Option IpHeader → Verdict
apply_ttl200_filter none = missing
apply_ttl200_filter (some ip) =
    if ip.ip_p == ipproto_icmp then clear else if ltb ip.ip_ttl 200 then clear else matched

unfoldable pub apply_notip_filter : Option IpHeader → Verdict
apply_notip_filter none = matched
apply_notip_filter (some ip) = clear

unfoldable pub apply_tcpwin_1024_filter : Option TcpHeader → Verdict
apply_tcpwin_1024_filter none = missing
apply_tcpwin_1024_filter (some tcp) =
    if tcp.syn && not tcp.ack && tcp.window == 1024 then matched else clear

unfoldable pub apply_no_tcp_options_filter : Option TcpHeader → Verdict
apply_no_tcp_options_filter none = missing
apply_no_tcp_options_filter (some tcp) =
    if tcp.syn && not tcp.ack && tcp.doff == 5 then matched else clear

unfoldable pub apply_ttl200_nonspoofed_filter : Option IpHeader → Option TcpHeader → Verdict
apply_ttl200_nonspoofed_filter ip tcp =
    let ret = apply_ttl200_filter ip in
    if not (is_positive ret)
    then ret
    else if not (is_positive (apply_tcpwin_1024_filter tcp))
    then matched
    else if not (is_positive (apply_no_tcp_options_filter tcp))
    then matched
    else clear

unfoldable pub apply_fragment_filter : Option IpHeader → Verdict
apply_fragment_filter none = missing
apply_fragment_filter (some ip) = if bit_and ip.ip_off 0x9fff == 0 then clear else matched

unfoldable pub apply_last_src_byte0_filter : Option IpHeader → Verdict
apply_last_src_byte0_filter none = missing
apply_last_src_byte0_filter (some ip) = if bit_and ip.ip_src 0xff == 0 then matched else clear

unfoldable pub apply_last_src_byte255_filter : Option IpHeader → Verdict
apply_last_src_byte255_filter none = missing
apply_last_src_byte255_filter (some ip) = if bit_and ip.ip_src 0xff == 0xff then matched else clear

unfoldable pub apply_same_src_dest_filter : Option IpHeader → Verdict
apply_same_src_dest_filter none = missing
apply_same_src_dest_filter (some ip) = if ip.ip_src == ip.ip_dst then matched else clear

unfoldable pub apply_udp_port_zero_filter : FilterParams → Verdict
apply_udp_port_zero_filter f =
    if is_null f.udp
    then clear
    else if ltb f.translen 4
    then missing
    else if f.source_port == 0 || f.dest_port == 0
    then matched
    else clear

unfoldable pub apply_tcp_port_zero_filter : FilterParams → Verdict
apply_tcp_port_zero_filter f =
    if is_null f.tcp
    then clear
    else if ltb f.translen 4
    then missing
    else if f.source_port == 0 || f.dest_port == 0
    then matched
    else clear

unfoldable pub apply_udp_destport_eighty_filter : FilterParams → Verdict
apply_udp_destport_eighty_filter f =
    if is_null f.udp
    then clear
    else if ltb f.translen 4
    then missing
    else if f.dest_port == 80
    then matched
    else clear

unfoldable pub apply_udp_iplen_96_filter : Option IpHeader → Verdict
apply_udp_iplen_96_filter none = missing
apply_udp_iplen_96_filter (some ip) =
    if ip.ip_p == ipproto_udp && ip.ip_len == 96 then matched else clear

unfoldable pub apply_udp_iplen_1500_filter : Option IpHeader → Verdict
apply_udp_iplen_1500_filter none = missing
apply_udp_iplen_1500_filter (some ip) =
    if ip.ip_p == ipproto_udp && ip.ip_len == 1500 then matched else clear

unfoldable pub apply_port_53_filter : ℕ → ℕ → Verdict
apply_port_53_filter source_port dest_port =
    if source_port == 53 || dest_port == 53 then matched else clear

unfoldable pub apply_port_tcp23_filter : FilterParams → Verdict
apply_port_tcp23_filter f =
    if not (is_null f.tcp) && (f.source_port == 23 || f.dest_port == 23) then matched else clear

unfoldable pub apply_port_tcp80_filter : FilterParams → Verdict
apply_port_tcp80_filter f =
    if not (is_null f.tcp) && (f.source_port == 80 || f.dest_port == 80) then matched else clear

unfoldable pub apply_port_tcp5000_filter : FilterParams → Verdict
apply_port_tcp5000_filter f =
    if not (is_null f.tcp) && (f.source_port == 5000 || f.dest_port == 5000) then matched else clear

asn_208843_scan_at : IpHeader → TcpHeader → Verdict
asn_208843_scan_at ip tcp =
    if not tcp.syn || tcp.ack
    then clear
    else if leb 64 ip.ip_ttl
    then clear
    else if not (bit_and ip.ip_src 0xffffff00 == 0x2d534000)
    then clear
    else if not (tcp.window == 8192)
    then clear
    else if not (ip.ip_len == 44)
    then clear
    else matched

unfoldable pub apply_asn_208843_scan_filter : FilterParams → Verdict
unfolding asn_208843_scan_at
apply_asn_208843_scan_filter f = elim f.ip [
  | none ↦ clear
  | some ip ↦ elim f.tcp [ none ↦ clear | some tcp ↦ asn_208843_scan_at ip tcp ]
]
