-- ===== src/Filtering/Entry.antt =====
-- The entry points of libcorsaro/libcorsaro_filtering.c that take a packet: each takes the packet
-- apart and runs one filter.
pub mod Agreement
use corsaro.Base.{true, Option, some, ◌>>=◌}
use corsaro.Filtering.Packet.{Libtrace, FilterParams, Verdict}
use corsaro.Filtering.Params.{preprocess_packet}
use corsaro.Filtering.Headers.{
  apply_asn_208843_scan_filter, apply_fragment_filter, apply_last_src_byte0_filter,
  apply_last_src_byte255_filter, apply_no_tcp_options_filter, apply_port_53_filter,
  apply_port_tcp23_filter, apply_port_tcp5000_filter, apply_port_tcp80_filter,
  apply_same_src_dest_filter, apply_tcp_port_zero_filter, apply_tcpwin_1024_filter,
  apply_ttl200_filter, apply_ttl200_nonspoofed_filter, apply_udp_destport_eighty_filter,
  apply_udp_iplen_1500_filter, apply_udp_iplen_96_filter, apply_udp_port_zero_filter,
}
use corsaro.Filtering.Protocols.{
  apply_abnormal_protocol_filter, apply_backscatter_filter, apply_rfc5735_filter,
  apply_routable_filter,
}
use corsaro.Filtering.Payload.{
  apply_bittorrent_filter, apply_dns_resp_oddport_filter, apply_netbios_name_filter,
  apply_sip_status_filter, apply_udp_0x31_filter,
}
use corsaro.Filtering.Compound.{
  apply_spoofing_filter, apply_erratic_filter, apply_large_scale_scan_filter,
}

module _ (lt : Libtrace) where
  abbrev on_packet : (FilterParams → Option Verdict) → lt.Packet → Option Verdict
  on_packet filter packet = preprocess_packet lt packet >>= filter

  pub corsaro_apply_large_scale_scan_filter : lt.Packet → Option Verdict
  corsaro_apply_large_scale_scan_filter = on_packet λ f. some (apply_large_scale_scan_filter f)

  pub corsaro_apply_erratic_filter : lt.Packet → Option Verdict
  corsaro_apply_erratic_filter = on_packet λ f. apply_erratic_filter f true

  pub corsaro_apply_spoofing_filter : lt.Packet → Option Verdict
  corsaro_apply_spoofing_filter = on_packet λ f. some (apply_spoofing_filter f)

  pub corsaro_apply_routable_filter : lt.Packet → Option Verdict
  corsaro_apply_routable_filter = on_packet λ f. some (apply_routable_filter f.ip)

  pub corsaro_apply_abnormal_protocol_filter : lt.Packet → Option Verdict
  corsaro_apply_abnormal_protocol_filter = on_packet λ f. some (apply_abnormal_protocol_filter f)

  pub corsaro_apply_ttl200_filter : lt.Packet → Option Verdict
  corsaro_apply_ttl200_filter = on_packet λ f. some (apply_ttl200_filter f.ip)

  pub corsaro_apply_ttl200_nonspoofed_filter : lt.Packet → Option Verdict
  corsaro_apply_ttl200_nonspoofed_filter =
      on_packet λ f. some (apply_ttl200_nonspoofed_filter f.ip f.tcp)

  pub corsaro_apply_no_tcp_options_filter : lt.Packet → Option Verdict
  corsaro_apply_no_tcp_options_filter = on_packet λ f. some (apply_no_tcp_options_filter f.tcp)

  pub corsaro_apply_tcpwin_1024_filter : lt.Packet → Option Verdict
  corsaro_apply_tcpwin_1024_filter = on_packet λ f. some (apply_tcpwin_1024_filter f.tcp)

  pub corsaro_apply_fragment_filter : lt.Packet → Option Verdict
  corsaro_apply_fragment_filter = on_packet λ f. some (apply_fragment_filter f.ip)

  pub corsaro_apply_last_src_byte0_filter : lt.Packet → Option Verdict
  corsaro_apply_last_src_byte0_filter = on_packet λ f. some (apply_last_src_byte0_filter f.ip)

  pub corsaro_apply_last_src_byte255_filter : lt.Packet → Option Verdict
  corsaro_apply_last_src_byte255_filter = on_packet λ f. some (apply_last_src_byte255_filter f.ip)

  pub corsaro_apply_same_src_dest_filter : lt.Packet → Option Verdict
  corsaro_apply_same_src_dest_filter = on_packet λ f. some (apply_same_src_dest_filter f.ip)

  pub corsaro_apply_udp_port_zero_filter : lt.Packet → Option Verdict
  corsaro_apply_udp_port_zero_filter = on_packet λ f. some (apply_udp_port_zero_filter f)

  pub corsaro_apply_tcp_port_zero_filter : lt.Packet → Option Verdict
  corsaro_apply_tcp_port_zero_filter = on_packet λ f. some (apply_tcp_port_zero_filter f)

  pub corsaro_apply_udp_destport_eighty_filter : lt.Packet → Option Verdict
  corsaro_apply_udp_destport_eighty_filter =
      on_packet λ f. some (apply_udp_destport_eighty_filter f)

  pub corsaro_apply_rfc5735_filter : lt.Packet → Option Verdict
  corsaro_apply_rfc5735_filter = on_packet λ f. some (apply_rfc5735_filter f.ip)

  pub corsaro_apply_backscatter_filter : lt.Packet → Option Verdict
  corsaro_apply_backscatter_filter = on_packet λ f. some (apply_backscatter_filter f)

  pub corsaro_apply_bittorrent_filter : lt.Packet → Option Verdict
  corsaro_apply_bittorrent_filter = on_packet λ f. apply_bittorrent_filter f

  pub corsaro_apply_udp_0x31_filter : lt.Packet → Option Verdict
  corsaro_apply_udp_0x31_filter = on_packet λ f. apply_udp_0x31_filter f

  pub corsaro_apply_sip_status_filter : lt.Packet → Option Verdict
  corsaro_apply_sip_status_filter = on_packet λ f. apply_sip_status_filter f

  pub corsaro_apply_udp_iplen_96_filter : lt.Packet → Option Verdict
  corsaro_apply_udp_iplen_96_filter = on_packet λ f. some (apply_udp_iplen_96_filter f.ip)

  pub corsaro_apply_udp_iplen_1500_filter : lt.Packet → Option Verdict
  corsaro_apply_udp_iplen_1500_filter = on_packet λ f. some (apply_udp_iplen_1500_filter f.ip)

  pub corsaro_apply_port_53_filter : lt.Packet → Option Verdict
  corsaro_apply_port_53_filter =
      on_packet λ f. some (apply_port_53_filter f.source_port f.dest_port)

  pub corsaro_apply_port_tcp23_filter : lt.Packet → Option Verdict
  corsaro_apply_port_tcp23_filter = on_packet λ f. some (apply_port_tcp23_filter f)

  pub corsaro_apply_port_tcp80_filter : lt.Packet → Option Verdict
  corsaro_apply_port_tcp80_filter = on_packet λ f. some (apply_port_tcp80_filter f)

  pub corsaro_apply_port_tcp5000_filter : lt.Packet → Option Verdict
  corsaro_apply_port_tcp5000_filter = on_packet λ f. some (apply_port_tcp5000_filter f)

  pub corsaro_apply_asn_208843_scan_filter : lt.Packet → Option Verdict
  corsaro_apply_asn_208843_scan_filter = on_packet λ f. some (apply_asn_208843_scan_filter f)

  pub corsaro_apply_dns_resp_oddport_filter : lt.Packet → Option Verdict
  corsaro_apply_dns_resp_oddport_filter = on_packet λ f. apply_dns_resp_oddport_filter f

  pub corsaro_apply_netbios_name_filter : lt.Packet → Option Verdict
  corsaro_apply_netbios_name_filter = on_packet λ f. apply_netbios_name_filter f
