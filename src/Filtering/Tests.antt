-- ===== src/Filtering/Tests.antt =====
-- Sample packets for the filters, and the theorems at them.
use corsaro.Base.{
  ℕ, ◌≡◌, ◌↔◌, refl, arith, true, false, none, some, List, [], ◌∷◌, ◌++◌, ◌==◌, if◌then◌else◌,
}
use corsaro.Filtering.Packet.{
  IpHeader, TcpHeader, UdpHeader, Transport, Libtrace, FilterParams, Memory, Verdict, clear,
  matched, is_positive, ethertype_ip,
}
use corsaro.Filtering.Headers.{
  apply_ttl200_filter, apply_ttl200_nonspoofed_filter, apply_fragment_filter,
  apply_last_src_byte0_filter, apply_last_src_byte255_filter, apply_same_src_dest_filter,
  apply_udp_port_zero_filter, apply_tcp_port_zero_filter, apply_udp_destport_eighty_filter,
  apply_udp_iplen_96_filter, apply_udp_iplen_1500_filter, apply_port_53_filter,
  apply_port_tcp23_filter, apply_port_tcp80_filter, apply_port_tcp5000_filter,
  apply_asn_208843_scan_filter,
}
use corsaro.Filtering.Protocols.{
  apply_rfc5735_filter, apply_abnormal_protocol_filter, apply_backscatter_filter,
}
use corsaro.Filtering.Protocols.Rfc5735.{in_any, reserved, rfc5735_lem}
use corsaro.Filtering.Payload.{
  apply_udp_0x31_filter, apply_sip_status_filter, apply_dns_resp_oddport_filter,
  apply_netbios_name_filter, apply_bittorrent_filter,
}
use corsaro.Filtering.Payload.Bounds.{
  AgreeBelow, with_payload, payload_reads_in_bounds, bittorrent_reads_past_payload,
}
use corsaro.Filtering.Compound.{apply_spoofing_filter, apply_erratic_filter}
use corsaro.Filtering.Params.{set_filter_params}
use corsaro.Filtering.Params.Faults.{NullTransport, set_filter_params_faults}
use corsaro.Filtering.Ids.{
  FilterId, spoofed, erratic, port_53, ttl_200, unknown, IsEnumerator, index,
}
use corsaro.Filtering.ApplyAll.{ToRun, ran_matched, corsaro_apply_all_filters}
use corsaro.Filtering.ById.{
  done, apply_multiple, apply_by_id, corsaro_apply_filter_by_id, corsaro_apply_multiple_filters,
}
use corsaro.Filtering.Agreement.{alone, all_filters_agree}
use corsaro.Filtering.ById.Multiple.{
  Answered, multiple_filters_agree, multiple_filters_erratic_first,
}
use corsaro.Filtering.Entry.Agreement.{HasCase, entry_points_agree}

-- A UDP packet from 10.0.0.7 to port 80 of 44.0.0.1.
abbrev pub web_ip : IpHeader
web_ip = record {
  ip_len = 60;
  ip_off = 0;
  ip_ttl = 64;
  ip_p = 17;
  ip_src = 0x0a000007;
  ip_dst = 0x2c000001;
}

abbrev pub web_udp : UdpHeader
web_udp = record { source = 4000; dest = 80; len = 8 }

abbrev pub blank_tcp : TcpHeader
blank_tcp = record {
  source = 4000;
  dest = 80;
  doff = 0;
  fin = false;
  syn = false;
  rst = false;
  psh = false;
  ack = false;
  urg = false;
  window = 0;
}

abbrev pub web_transport : Transport
web_transport = record {
  as_tcp = blank_tcp;
  as_udp = web_udp;
  as_icmp = record { icmp_type = 15; code = 160 };
  bytes = λ i. 0;
}

-- A libtrace that knows that packet only, and reads its protocol from the header.
abbrev pub sample_trace : Libtrace
sample_trace = record {
  Packet = IpHeader;
  get_layer3 = λ ip. record { ip = some ip; ethertype = ethertype_ip; rem = 60 };
  get_payload_from_ip = λ ip rem. record { transport = some web_transport; proto = 17; rem = 40 };
  get_payload_from_udp = λ udp rem. (some (λ i. 0), 32);
  get_payload_from_tcp = λ tcp rem. (none, 0);
}

abbrev pub web_params : FilterParams
web_params = record {
  ip = some web_ip;
  tcp = none;
  udp = some web_udp;
  icmp = none;
  translen = 40;
  payloadlen = 32;
  source_port = 4000;
  dest_port = 80;
  payload = some (λ i. 0);
}

pub web_params_read : set_filter_params sample_trace (some web_ip) 60 ≡ some web_params
unfolding set_filter_params
web_params_read = refl

abbrev pub no_results : ℕ → ToRun
no_results i = record { filterid = unknown i; result = 0 }

abbrev pub requests : List ToRun
requests =
    record { filterid = spoofed; result = 9 }
    ∷ record { filterid = port_53; result = 9 }
    ∷ record { filterid = erratic; result = 9 }
    ∷ []

web_spoofed : is_positive (apply_spoofing_filter web_params) ≡ true
unfolding apply_spoofing_filter apply_abnormal_protocol_filter apply_ttl200_nonspoofed_filter
    apply_ttl200_filter apply_fragment_filter apply_last_src_byte0_filter
    apply_last_src_byte255_filter apply_same_src_dest_filter apply_udp_port_zero_filter
    apply_tcp_port_zero_filter apply_udp_destport_eighty_filter
web_spoofed = refl

web_not_erratic : apply_erratic_filter web_params false ≡ some clear
unfolding apply_erratic_filter apply_ttl200_filter apply_udp_0x31_filter apply_sip_status_filter
    apply_udp_iplen_96_filter apply_udp_iplen_1500_filter apply_port_53_filter
    apply_port_tcp23_filter apply_port_tcp80_filter apply_port_tcp5000_filter
    apply_asn_208843_scan_filter apply_dns_resp_oddport_filter apply_netbios_name_filter
    apply_backscatter_filter apply_bittorrent_filter
web_not_erratic = refl

all_filters_agree_example :
    (t : ℕ → ToRun) × (corsaro_apply_all_filters sample_trace (some web_ip) 60 no_results ≡ some t)
    × ((id : FilterId)
        → IsEnumerator id
        → (v : Verdict) × (alone web_params id ≡ some v)
          × (ran_matched t id ≡ is_positive v)
          × ((t (index id)).filterid ≡ id))
all_filters_agree_example = all_filters_agree sample_trace web_ip 60 no_results web_params_read

entry_points_agree_example :
    (t : ℕ → ToRun) × (corsaro_apply_all_filters sample_trace (some web_ip) 60 no_results ≡ some t)
    × ((id : FilterId)
        → HasCase id
        → (v : Verdict) × (corsaro_apply_filter_by_id sample_trace id web_ip ≡ some v)
          × (ran_matched t id ≡ is_positive v))
entry_points_agree_example =
    entry_points_agree sample_trace web_ip web_ip 60 refl web_params_read no_results

multiple_filters_agree_example :
    (ts' : List ToRun) × (corsaro_apply_multiple_filters sample_trace (some web_ip) 60 requests
      ≡ some (ts', done))
    × Answered web_params requests ts'
multiple_filters_agree_example =
    multiple_filters_agree sample_trace web_ip 60 requests web_params_read (tt, (tt, (refl, tt)))

abbrev before : ℕ → List ToRun
before n = record { filterid = ttl_200; result = n } ∷ []

multiple_filters_erratic_first_example :
    (apply_multiple web_params (before 9 ++ (record { filterid = erratic; result = 9 } ∷ []))
      ≡ some (before 0 ++ (record { filterid = erratic; result = 0 } ∷ []), done))
    × (apply_by_id web_params erratic ≡ some matched)
unfolding apply_multiple apply_ttl200_filter
multiple_filters_erratic_first_example =
    multiple_filters_erratic_first web_params 9 (before 9) [] ((λ c. cc), tt) web_spoofed
      web_not_erratic refl refl

rfc5735_lem_example : is_positive (apply_rfc5735_filter (some web_ip)) ≡ in_any reserved 0x0a000007
rfc5735_lem_example = rfc5735_lem web_ip (omega arith)

payload_reads_in_bounds_example :
    let other : Memory = λ i. if i == 40 then 7 else 0 in
    (apply_udp_0x31_filter (with_payload web_params (λ i. 0))
      ≡ apply_udp_0x31_filter (with_payload web_params other))
    × (apply_sip_status_filter (with_payload web_params (λ i. 0))
        ≡ apply_sip_status_filter (with_payload web_params other))
    × (apply_dns_resp_oddport_filter (with_payload web_params (λ i. 0))
        ≡ apply_dns_resp_oddport_filter (with_payload web_params other))
    × (apply_netbios_name_filter (with_payload web_params (λ i. 0))
        ≡ apply_netbios_name_filter (with_payload web_params other))
payload_reads_in_bounds_example =
    payload_reads_in_bounds web_params (λ i. 0) (λ i. if i == 40 then 7 else 0)
      (λ i h. ground arith)

abbrev pub short_params : FilterParams
short_params = record web_params { payloadlen = 0 }

bittorrent_reads_past_payload_example :
    (mem : Memory) × (mem' : Memory) × AgreeBelow 0 mem mem'
    × (apply_bittorrent_filter (with_payload short_params mem) ≡ some matched)
    × (apply_bittorrent_filter (with_payload short_params mem') ≡ some clear)
bittorrent_reads_past_payload_example =
    bittorrent_reads_past_payload short_params web_ip web_udp refl refl (omega arith) refl
      (omega arith)

set_filter_params_faults_example :
    (set_filter_params sample_trace (some web_ip) 60 ≡ none)
    ↔ NullTransport (sample_trace.get_payload_from_ip (some web_ip) 60)
set_filter_params_faults_example = set_filter_params_faults sample_trace (some web_ip) 60
