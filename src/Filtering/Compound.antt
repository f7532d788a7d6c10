-- ===== src/Filtering/Compound.antt =====
-- The filters of libcorsaro/libcorsaro_filtering.c that are made of other filters.
use corsaro.Base.{◌≡◌, Bool, true, false, not, Option, some, ◌&&◌, if◌then◌else◌, ◌>>=◌}
use corsaro.Filtering.Packet.{FilterParams, Verdict, clear, matched, is_positive}
use corsaro.Filtering.Headers.{
  apply_ttl200_filter, apply_tcpwin_1024_filter, apply_no_tcp_options_filter,
  apply_ttl200_nonspoofed_filter, apply_fragment_filter, apply_last_src_byte0_filter,
  apply_last_src_byte255_filter, apply_same_src_dest_filter, apply_udp_port_zero_filter,
  apply_tcp_port_zero_filter, apply_udp_destport_eighty_filter, apply_udp_iplen_96_filter,
  apply_udp_iplen_1500_filter, apply_port_53_filter, apply_port_tcp23_filter,
  apply_port_tcp80_filter, apply_port_tcp5000_filter, apply_asn_208843_scan_filter,
}
use corsaro.Filtering.Protocols.{apply_abnormal_protocol_filter, apply_backscatter_filter}
use corsaro.Filtering.Payload.{
  apply_udp_0x31_filter, apply_sip_status_filter, apply_dns_resp_oddport_filter,
  apply_netbios_name_filter, apply_bittorrent_filter,
}

unfoldable pub apply_spoofing_filter : FilterParams → Verdict
apply_spoofing_filter f =
    if is_positive (apply_abnormal_protocol_filter f)
    then matched
    else if is_positive (apply_ttl200_nonspoofed_filter f.ip f.tcp)
    then matched
    else if is_positive (apply_fragment_filter f.ip)
    then matched
    else if is_positive (apply_last_src_byte0_filter f.ip)
    then matched
    else if is_positive (apply_last_src_byte255_filter f.ip)
    then matched
    else if is_positive (apply_same_src_dest_filter f.ip)
    then matched
    else if is_positive (apply_udp_port_zero_filter f)
    then matched
    else if is_positive (apply_tcp_port_zero_filter f)
    then matched
    else if is_positive (apply_udp_destport_eighty_filter f)
    then matched
    else clear

-- `if (filter > 0) { return 1; }`, then the rest; a filter that faults ends the run.
abbrev or_next : Option Verdict → Option Verdict → Option Verdict
or_next r rest = do v ← r; if is_positive v then some matched else rest

unfoldable pub apply_erratic_filter : FilterParams → Bool → Option Verdict
apply_erratic_filter f spoofedstateunknown =
    if spoofedstateunknown && is_positive (apply_spoofing_filter f)
    then some matched
    else if is_positive (apply_ttl200_filter f.ip)
    then some matched
    else or_next (apply_udp_0x31_filter f) (
        or_next (apply_sip_status_filter f) (
          if is_positive (apply_udp_iplen_96_filter f.ip)
          then some matched
          else if is_positive (apply_udp_iplen_1500_filter f.ip)
          then some matched
          else if is_positive (apply_port_53_filter f.source_port f.dest_port)
          then some matched
          else if is_positive (apply_port_tcp23_filter f)
          then some matched
          else if is_positive (apply_port_tcp80_filter f)
          then some matched
          else if is_positive (apply_port_tcp5000_filter f)
          then some matched
          else if is_positive (apply_asn_208843_scan_filter f)
          then some matched
          else or_next (apply_dns_resp_oddport_filter f) (
              or_next (apply_netbios_name_filter f) (
                if is_positive (apply_backscatter_filter f)
                then some matched
                else or_next (apply_bittorrent_filter f) (some clear)))))

unfoldable pub apply_large_scale_scan_filter : FilterParams → Verdict
apply_large_scale_scan_filter f =
    if not (is_positive (apply_no_tcp_options_filter f.tcp))
    then clear
    else if not (is_positive (apply_ttl200_filter f.ip))
    then clear
    else if not (is_positive (apply_tcpwin_1024_filter f.tcp))
    then clear
    else matched

-- The erratic filter with the spoofing check and without it.
pub erratic-spoofed :
    (f : FilterParams)
    → is_positive (apply_spoofing_filter f) ≡ true
    → apply_erratic_filter f true ≡ some matched
unfolding apply_erratic_filter
erratic-spoofed f p = rw p

pub erratic-unspoofed :
    (f : FilterParams)
    → is_positive (apply_spoofing_filter f) ≡ false
    → apply_erratic_filter f true ≡ apply_erratic_filter f false
unfolding apply_erratic_filter
erratic-unspoofed f p = rw p
