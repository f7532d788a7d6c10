-- ===== src/Filtering/ById.antt =====
-- The functions of libcorsaro/libcorsaro_filtering.c that choose filters by their identifiers.
pub mod Multiple
use corsaro.Base.{ℕ, true, Option, some, List, [], ◌∷◌, ltb, leb, ◌==◌, if◌then◌else◌, ◌>>=◌}
use corsaro.Filtering.Packet.{IpHeader, Libtrace, FilterParams, Verdict, missing, matched, to_u8}
use corsaro.Filtering.Params.{set_filter_params, preprocess_packet}
use corsaro.Filtering.ApplyAll.{ToRun}
use corsaro.Filtering.Headers.{
  apply_asn_208843_scan_filter, apply_fragment_filter, apply_last_src_byte0_filter,
  apply_last_src_byte255_filter, apply_no_tcp_options_filter, apply_notip_filter,
  apply_port_53_filter, apply_port_tcp23_filter, apply_port_tcp5000_filter, apply_port_tcp80_filter,
  apply_same_src_dest_filter, apply_tcp_port_zero_filter, apply_tcpwin_1024_filter,
  apply_ttl200_filter, apply_ttl200_nonspoofed_filter, apply_udp_destport_eighty_filter,
  apply_udp_iplen_1500_filter, apply_udp_iplen_96_filter, apply_udp_port_zero_filter,
}
use corsaro.Filtering.Protocols.{
  apply_abnormal_protocol_filter, apply_backscatter_filter, apply_rfc5735_filter,
  apply_routable_filter,
}
use corsaro.Filtering.Payload.{
  apply_bittorrent_filter, apply_dns_resp_oddport_filter, apply_netbios_name_filter,
  apply_sip_status_filter, apply_udp_0x31_filter,
}
use corsaro.Filtering.Compound.{
  apply_spoofing_filter, apply_erratic_filter, apply_large_scale_scan_filter,
}
use corsaro.Filtering.Ids.{
  FilterId, spoofed, erratic, routed, large_scale_scan, abnormal_protocol, ttl_200, no_tcp_options,
  tcpwin_1024, fragment, last_src_ip_0, last_src_ip_255, same_src_dest_ip, udp_port_0, tcp_port_0,
  udp_destport_80, rfc5735, backscatter, bittorrent, udp_0x31, sip_status, udp_iplen_96,
  udp_iplen_1500, port_53, tcp_port_23, tcp_port_80, tcp_port_5000, asn_208843_scan,
  dns_resp_nonstandard, netbios_query_name, notip, ttl_200_nonspoofed, unknown, filterid_max, index,
}

-- What one case of the switch in corsaro_apply_multiple_filters leaves behind: the result to store
-- and the new `spoofedstate`. The default case has neither.
pub data Case : Type 0 where
  stores : Verdict → ℕ → Case
  no_callback : Case

-- The case for an identifier, given the `spoofedstate` so far. That is a `uint8_t`, which starts as
-- 255 for the -1 in the source and is promoted to int when it is compared with 0.
multiple_case : FilterParams → ℕ → FilterId → Option Case
multiple_case f state spoofed =
    let r = apply_spoofing_filter f in some (stores r (if to_u8 r == 0 then 0 else 1))
multiple_case f state erratic =
    if state == 1
    then some (stores matched state)
    else (do r ← apply_erratic_filter f (ltb state 0); some (stores r state))
multiple_case f state routed = some (stores (apply_routable_filter f.ip) state)
multiple_case f state large_scale_scan = some (stores (apply_large_scale_scan_filter f) state)
multiple_case f state abnormal_protocol = some (stores (apply_abnormal_protocol_filter f) state)
multiple_case f state ttl_200 = some (stores (apply_ttl200_filter f.ip) state)
multiple_case f state ttl_200_nonspoofed =
    some (stores (apply_ttl200_nonspoofed_filter f.ip f.tcp) state)
multiple_case f state no_tcp_options = some (stores (apply_no_tcp_options_filter f.tcp) state)
multiple_case f state tcpwin_1024 = some (stores (apply_tcpwin_1024_filter f.tcp) state)
multiple_case f state fragment = some (stores (apply_fragment_filter f.ip) state)
multiple_case f state last_src_ip_0 = some (stores (apply_last_src_byte0_filter f.ip) state)
multiple_case f state last_src_ip_255 = some (stores (apply_last_src_byte255_filter f.ip) state)
multiple_case f state same_src_dest_ip = some (stores (apply_same_src_dest_filter f.ip) state)
multiple_case f state udp_port_0 = some (stores (apply_udp_port_zero_filter f) state)
multiple_case f state tcp_port_0 = some (stores (apply_tcp_port_zero_filter f) state)
multiple_case f state udp_destport_80 = some (stores (apply_udp_destport_eighty_filter f) state)
multiple_case f state rfc5735 = some (stores (apply_rfc5735_filter f.ip) state)
multiple_case f state backscatter = some (stores (apply_backscatter_filter f) state)
multiple_case f state bittorrent = apply_bittorrent_filter f >>= λ r. some (stores r state)
multiple_case f state udp_0x31 = apply_udp_0x31_filter f >>= λ r. some (stores r state)
multiple_case f state sip_status = apply_sip_status_filter f >>= λ r. some (stores r state)
multiple_case f state udp_iplen_96 = some (stores (apply_udp_iplen_96_filter f.ip) state)
multiple_case f state udp_iplen_1500 = some (stores (apply_udp_iplen_1500_filter f.ip) state)
multiple_case f state port_53 = some (stores (apply_port_53_filter f.source_port f.dest_port) state)
multiple_case f state tcp_port_23 = some (stores (apply_port_tcp23_filter f) state)
multiple_case f state tcp_port_80 = some (stores (apply_port_tcp80_filter f) state)
multiple_case f state tcp_port_5000 = some (stores (apply_port_tcp5000_filter f) state)
multiple_case f state asn_208843_scan = some (stores (apply_asn_208843_scan_filter f) state)
multiple_case f state dns_resp_nonstandard =
    apply_dns_resp_oddport_filter f >>= λ r. some (stores r state)
multiple_case f state netbios_query_name =
    apply_netbios_name_filter f >>= λ r. some (stores r state)
multiple_case f state notip = some (stores (apply_notip_filter f.ip) state)
multiple_case f state (unknown i) = some no_callback

-- The int that the function returns: 0, or -1 at an identifier with no case.
pub data Status : Type 0 where
  done failed : Status

-- The loop over `torun[0 .. torun_count)`: the entries with their results, and what is returned. An
-- identifier with no case leaves its entry and those after it as they were.
multiple_loop : FilterParams → ℕ → List ToRun → Option (List ToRun × Status)
multiple_loop f state [] = some ([], done)
multiple_loop f state (t ∷ ts) = multiple_case f state t.filterid >>= elim [
  | no_callback ↦ some (t ∷ ts, failed)
  | stores r state' ↦ multiple_loop f state' ts >>= λ (rest, status).
      some (record t { result = to_u8 r } ∷ rest, status)
]

-- `corsaro_apply_multiple_filters`, past `_set_filter_params`.
unfoldable pub apply_multiple : FilterParams → List ToRun → Option (List ToRun × Status)
unfolding multiple_loop multiple_case
apply_multiple f torun = multiple_loop f 255 torun

-- The switch of corsaro_apply_filter_by_id, whose default case returns -1.
unfoldable pub by_id_case : FilterParams → FilterId → Option Verdict
by_id_case f spoofed = some (apply_spoofing_filter f)
by_id_case f erratic = apply_erratic_filter f true
by_id_case f routed = some (apply_routable_filter f.ip)
by_id_case f abnormal_protocol = some (apply_abnormal_protocol_filter f)
by_id_case f ttl_200 = some (apply_ttl200_filter f.ip)
by_id_case f ttl_200_nonspoofed = some (apply_ttl200_nonspoofed_filter f.ip f.tcp)
by_id_case f fragment = some (apply_fragment_filter f.ip)
by_id_case f last_src_ip_0 = some (apply_last_src_byte0_filter f.ip)
by_id_case f last_src_ip_255 = some (apply_last_src_byte255_filter f.ip)
by_id_case f same_src_dest_ip = some (apply_same_src_dest_filter f.ip)
by_id_case f udp_port_0 = some (apply_udp_port_zero_filter f)
by_id_case f tcp_port_0 = some (apply_tcp_port_zero_filter f)
by_id_case f udp_destport_80 = some (apply_udp_destport_eighty_filter f)
by_id_case f rfc5735 = some (apply_rfc5735_filter f.ip)
by_id_case f backscatter = some (apply_backscatter_filter f)
by_id_case f bittorrent = apply_bittorrent_filter f
by_id_case f udp_0x31 = apply_udp_0x31_filter f
by_id_case f sip_status = apply_sip_status_filter f
by_id_case f udp_iplen_96 = some (apply_udp_iplen_96_filter f.ip)
by_id_case f udp_iplen_1500 = some (apply_udp_iplen_1500_filter f.ip)
by_id_case f port_53 = some (apply_port_53_filter f.source_port f.dest_port)
by_id_case f tcp_port_23 = some (apply_port_tcp23_filter f)
by_id_case f tcp_port_80 = some (apply_port_tcp80_filter f)
by_id_case f tcp_port_5000 = some (apply_port_tcp5000_filter f)
by_id_case f asn_208843_scan = some (apply_asn_208843_scan_filter f)
by_id_case f dns_resp_nonstandard = apply_dns_resp_oddport_filter f
by_id_case f netbios_query_name = apply_netbios_name_filter f
by_id_case f _ = some missing

unfoldable pub apply_by_id : FilterParams → FilterId → Option Verdict
unfolding by_id_case
apply_by_id f filtid = if leb filterid_max (index filtid) then some missing else by_id_case f filtid

module _ (lt : Libtrace) where
  unfoldable pub corsaro_apply_multiple_filters :
      Option IpHeader → ℕ → List ToRun → Option (List ToRun × Status)
  unfolding apply_multiple
  corsaro_apply_multiple_filters ip iprem torun =
      set_filter_params lt ip iprem >>= λ f. apply_multiple f torun

  unfoldable pub corsaro_apply_filter_by_id : FilterId → lt.Packet → Option Verdict
  unfolding apply_by_id
  corsaro_apply_filter_by_id filtid packet =
      preprocess_packet lt packet >>= λ f. apply_by_id f filtid
