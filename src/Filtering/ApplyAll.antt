-- ===== src/Filtering/ApplyAll.antt =====
-- The functions of libcorsaro/libcorsaro_filtering.c that run many filters at once.
use corsaro.Base.{ℕ, Bool, not, Option, some, ltb, ◌==◌, ◌&&◌, ◌||◌, if◌then◌else◌, ◌>>=◌, store}
use corsaro.Filtering.Packet.{IpHeader, Libtrace, FilterParams, Verdict, to_u8}
use corsaro.Filtering.Params.{set_filter_params}
use corsaro.Filtering.Headers.{
  apply_asn_208843_scan_filter, apply_fragment_filter, apply_last_src_byte0_filter,
  apply_last_src_byte255_filter, apply_no_tcp_options_filter, apply_notip_filter,
  apply_port_53_filter, apply_port_tcp23_filter, apply_port_tcp5000_filter, apply_port_tcp80_filter,
  apply_same_src_dest_filter, apply_tcp_port_zero_filter, apply_tcpwin_1024_filter,
  apply_ttl200_filter, apply_ttl200_nonspoofed_filter, apply_udp_destport_eighty_filter,
  apply_udp_iplen_1500_filter, apply_udp_iplen_96_filter, apply_udp_port_zero_filter,
}
use corsaro.Filtering.Protocols.{
  apply_abnormal_protocol_filter, apply_backscatter_filter, apply_rfc5735_filter,
}
use corsaro.Filtering.Payload.{
  apply_bittorrent_filter, apply_dns_resp_oddport_filter, apply_netbios_name_filter,
  apply_sip_status_filter, apply_udp_0x31_filter,
}
use corsaro.Filtering.Ids.{
  FilterId, spoofed, erratic, routed, large_scale_scan, abnormal_protocol, ttl_200, no_tcp_options,
  tcpwin_1024, fragment, last_src_ip_0, last_src_ip_255, same_src_dest_ip, udp_port_0, tcp_port_0,
  udp_destport_80, rfc5735, backscatter, bittorrent, udp_0x31, sip_status, udp_iplen_96,
  udp_iplen_1500, port_53, tcp_port_23, tcp_port_80, tcp_port_5000, asn_208843_scan,
  dns_resp_nonstandard, netbios_query_name, notip, ttl_200_nonspoofed, filterid_max, index,
  of_index,
}

-- `corsaro_filter_torun_t`; the result is a `uint8_t`.
pub record ToRun : Type 0 where
  pub filterid : FilterId
  pub result : ℕ

-- `torun[i].result = r`
abbrev pub set_result : (ℕ → ToRun) → ℕ → ℕ → ℕ → ToRun
set_result torun i r = store torun i (record (torun i) { result = r })

-- `torun[id].result == 1`
abbrev pub ran_matched : (ℕ → ToRun) → FilterId → Bool
ran_matched torun id = (torun (index id)).result == 1

abbrev pub put : FilterId → Verdict → (ℕ → ToRun) → ℕ → ToRun
put id v torun = set_result torun (index id) (to_u8 v)

-- `if (test) { torun[id].result = 1; }`
abbrev pub put_if : Bool → FilterId → (ℕ → ToRun) → ℕ → ToRun
put_if test id torun = set_result torun (index id) (if test then 1 else (torun (index id)).result)

-- The first loop: 255 marks a filter that has not run.
abbrev pub start : (ℕ → ToRun) → ℕ → ToRun
start torun i =
    if ltb i filterid_max then record { filterid = of_index i; result = 255 } else torun i

-- From the TTL filter to the large scale scan.
abbrev pub run_scan : FilterParams → (ℕ → ToRun) → ℕ → ToRun
run_scan f t0 =
    let t1 = put ttl_200 (apply_ttl200_filter f.ip) t0 in
    let t2 = put ttl_200_nonspoofed (apply_ttl200_nonspoofed_filter f.ip f.tcp) t1 in
    let t3 = put no_tcp_options (apply_no_tcp_options_filter f.tcp) t2 in
    let t4 = put tcpwin_1024 (apply_tcpwin_1024_filter f.tcp) t3 in
    put_if (ran_matched t4 ttl_200 && ran_matched t4 no_tcp_options && ran_matched t4 tcpwin_1024)
      large_scale_scan t4

-- The filters that make a packet count as spoofed, and the inference from them.
abbrev pub run_spoofed : FilterParams → (ℕ → ToRun) → ℕ → ToRun
run_spoofed f t0 =
    let t1 = put abnormal_protocol (apply_abnormal_protocol_filter f) t0 in
    let t2 = put fragment (apply_fragment_filter f.ip) t1 in
    let t3 = put last_src_ip_0 (apply_last_src_byte0_filter f.ip) t2 in
    let t4 = put last_src_ip_255 (apply_last_src_byte255_filter f.ip) t3 in
    let t5 = put same_src_dest_ip (apply_same_src_dest_filter f.ip) t4 in
    let t6 = put udp_port_0 (apply_udp_port_zero_filter f) t5 in
    let t7 = put tcp_port_0 (apply_tcp_port_zero_filter f) t6 in
    let t8 = put udp_destport_80 (apply_udp_destport_eighty_filter f) t7 in
    let inferred =
      ran_matched t8 abnormal_protocol
      || ran_matched t8 udp_destport_80
      || ran_matched t8 fragment
      || ran_matched t8 last_src_ip_0
      || ran_matched t8 last_src_ip_255
      || ran_matched t8 same_src_dest_ip
      || ran_matched t8 ttl_200_nonspoofed
      || ran_matched t8 udp_port_0
      || ran_matched t8 tcp_port_0 in
    put_if inferred erratic (put_if inferred spoofed t8)

abbrev pub run_address : FilterParams → (ℕ → ToRun) → ℕ → ToRun
run_address f t0 =
    let t1 = put rfc5735 (apply_rfc5735_filter f.ip) t0 in
    let t2 = put_if (ran_matched t1 rfc5735) routed t1 in put notip (apply_notip_filter f.ip) t2

-- The filters that make a packet count as erratic.
abbrev pub run_erratic : FilterParams → (ℕ → ToRun) → Option (ℕ → ToRun)
run_erratic f t0 = do
  let t1 = put backscatter (apply_backscatter_filter f) t0
  v2 ← apply_bittorrent_filter f
  let t2 = put bittorrent v2 t1
  v3 ← apply_udp_0x31_filter f
  let t3 = put udp_0x31 v3 t2
  v4 ← apply_sip_status_filter f
  let t4 = put sip_status v4 t3
  let t5 = put udp_iplen_96 (apply_udp_iplen_96_filter f.ip) t4
  let t6 = put udp_iplen_1500 (apply_udp_iplen_1500_filter f.ip) t5
  let t7 = put port_53 (apply_port_53_filter f.source_port f.dest_port) t6
  let t8 = put tcp_port_23 (apply_port_tcp23_filter f) t7
  let t9 = put tcp_port_80 (apply_port_tcp80_filter f) t8
  let t10 = put tcp_port_5000 (apply_port_tcp5000_filter f) t9
  let t11 = put asn_208843_scan (apply_asn_208843_scan_filter f) t10
  v12 ← apply_dns_resp_oddport_filter f
  let t12 = put dns_resp_nonstandard v12 t11
  v13 ← apply_netbios_name_filter f
  let t13 = put netbios_query_name v13 t12
  some t13

-- The inference from them, for a packet that is not known to be erratic yet.
abbrev pub infer_erratic : (ℕ → ToRun) → ℕ → ToRun
infer_erratic t =
    put_if
      (not (ran_matched t erratic)
        && (ran_matched t backscatter
            || ran_matched t bittorrent
            || ran_matched t udp_0x31
            || ran_matched t sip_status
            || ran_matched t udp_iplen_96
            || ran_matched t udp_iplen_1500
            || ran_matched t port_53
            || ran_matched t tcp_port_23
            || ran_matched t tcp_port_80
            || ran_matched t tcp_port_5000
            || ran_matched t asn_208843_scan
            || ran_matched t ttl_200
            || ran_matched t dns_resp_nonstandard
            || ran_matched t netbios_query_name))
      erratic t

-- `corsaro_apply_all_filters`, past `_set_filter_params`; the int that it returns is always 0.
unfoldable pub apply_all : FilterParams → (ℕ → ToRun) → Option (ℕ → ToRun)
unfolding of_index
apply_all f torun =
    run_erratic f (run_address f (run_spoofed f (run_scan f (start torun)))) >>= λ t.
    some (infer_erratic t)

unfoldable pub corsaro_apply_all_filters :
    (lt : Libtrace) → Option IpHeader → ℕ → (ℕ → ToRun) → Option (ℕ → ToRun)
unfolding apply_all
corsaro_apply_all_filters lt ip iprem torun =
    set_filter_params lt ip iprem >>= λ f. apply_all f torun
