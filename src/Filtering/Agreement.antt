-- ===== src/Filtering/Agreement.antt =====
-- corsaro_apply_all_filters of libcorsaro/libcorsaro_filtering.c infers the broad filters from the
-- narrow ones. Here its results are compared with the filters run one by one.
use corsaro.Base.{
  ℕ, ◌≡◌, refl, arith, Bool, true, false, not, Option, some, ◌==◌, ◌&&◌, ◌||◌, if◌then◌else◌,
  Option-some,
}
use corsaro.Filtering.Packet.{
  IpHeader, Libtrace, FilterParams, Verdict, missing, clear, matched, is_positive, to_u8,
}
use corsaro.Filtering.Params.{set_filter_params}
use corsaro.Filtering.Params.Faults.{set_filter_params-ip}
use corsaro.Filtering.ApplyAll.{
  ToRun, ran_matched, corsaro_apply_all_filters, apply_all, infer_erratic, run_address, run_spoofed,
  run_scan, start, put,
}
use corsaro.Filtering.ById.{by_id_case}
use corsaro.Filtering.Headers.{
  apply_asn_208843_scan_filter, apply_fragment_filter, apply_last_src_byte0_filter,
  apply_last_src_byte255_filter, apply_no_tcp_options_filter, apply_notip_filter,
  apply_port_53_filter, apply_port_tcp23_filter, apply_port_tcp5000_filter, apply_port_tcp80_filter,
  apply_same_src_dest_filter, apply_tcp_port_zero_filter, apply_tcpwin_1024_filter,
  apply_ttl200_filter, apply_ttl200_nonspoofed_filter, apply_udp_destport_eighty_filter,
  apply_udp_iplen_1500_filter, apply_udp_iplen_96_filter, apply_udp_port_zero_filter,
}
use corsaro.Filtering.Protocols.{
  apply_abnormal_protocol_filter, apply_backscatter_filter, apply_routable_filter,
}
use corsaro.Filtering.Payload.{
  udp_0x31_runs, sip_status_runs, dns_resp_oddport_runs, netbios_name_runs, bittorrent_runs,
  apply_bittorrent_filter, apply_dns_resp_oddport_filter, apply_netbios_name_filter,
  apply_sip_status_filter, apply_udp_0x31_filter,
}
use corsaro.Filtering.Compound.{
  apply_spoofing_filter, apply_erratic_filter, apply_large_scale_scan_filter,
}
use corsaro.Filtering.Ids.{
  FilterId, spoofed, erratic, routed, large_scale_scan, no_tcp_options, tcpwin_1024, backscatter,
  bittorrent, udp_0x31, sip_status, udp_iplen_96, udp_iplen_1500, port_53, tcp_port_23, tcp_port_80,
  tcp_port_5000, asn_208843_scan, dns_resp_nonstandard, netbios_query_name, notip, unknown,
  IsEnumerator, index, of_index,
}

-- A filter on its own. The four that corsaro_apply_filter_by_id has no case for are added.
unfoldable pub alone : FilterParams → FilterId → Option Verdict
unfolding by_id_case
alone f large_scale_scan = some (apply_large_scale_scan_filter f)
alone f no_tcp_options = some (apply_no_tcp_options_filter f.tcp)
alone f tcpwin_1024 = some (apply_tcpwin_1024_filter f.tcp)
alone f notip = some (apply_notip_filter f.ip)
alone f id = by_id_case f id

pub u8_is_one : (v : Verdict) → (to_u8 v == 1) ≡ is_positive v
u8_is_one missing = refl
u8_is_one clear = refl
u8_is_one matched = refl

-- The results after the filters that may fault gave b, u, s, d and n.
abbrev all_results :
    FilterParams → (ℕ → ToRun) → Verdict → Verdict → Verdict → Verdict → Verdict → ℕ → ToRun
all_results f torun b u s d n =
    let t0 = run_address f (run_spoofed f (run_scan f (start torun))) in
    let t1 = put backscatter (apply_backscatter_filter f) t0 in
    let t2 = put bittorrent (b) t1 in
    let t3 = put udp_0x31 (u) t2 in
    let t4 = put sip_status (s) t3 in
    let t5 = put udp_iplen_96 (apply_udp_iplen_96_filter f.ip) t4 in
    let t6 = put udp_iplen_1500 (apply_udp_iplen_1500_filter f.ip) t5 in
    let t7 = put port_53 (apply_port_53_filter f.source_port f.dest_port) t6 in
    let t8 = put tcp_port_23 (apply_port_tcp23_filter f) t7 in
    let t9 = put tcp_port_80 (apply_port_tcp80_filter f) t8 in
    let t10 = put tcp_port_5000 (apply_port_tcp5000_filter f) t9 in
    let t11 = put asn_208843_scan (apply_asn_208843_scan_filter f) t10 in
    let t12 = put dns_resp_nonstandard (d) t11 in
    let t13 = put netbios_query_name (n) t12 in infer_erratic t13

-- A ladder of ifs that end in `matched`, as a disjunction.
is_positive-if :
    (c : Bool) (v : Verdict) → is_positive (if c then matched else v) ≡ (c || is_positive v)
is_positive-if true v = refl
is_positive-if false v = refl

if-some :
    (c : Bool) (v : Verdict)
    → (if c then some matched else some v) ≡ some (if c then matched else v)
if-some true v = refl
if-some false v = refl

if_one : (c : Bool) → ((if c then 1 else 255) == 1) ≡ c
if_one true = refl
if_one false = refl

-- The inference of `erratic`, over what it reads.
if_two : (x y : Bool) → ((if not x && y then 1 else if x then 1 else 255) == 1) ≡ (x || y)
if_two true y = refl
if_two false true = refl
if_two false false = refl

-- The order in which the two sides test the filters that imply `spoofed`.
spoofed_order :
    (a b c d e g h i j : Bool)
    → (a || j || c || d || e || g || b || h || i)
      ≡ (a || (b || (c || (d || (e || (g || (h || (i || (j || false)))))))))
spoofed_order a b c d e g h i j = ground arith

-- The same for `erratic`.
erratic_order :
    (x b1 b u s l1 l2 p q r k a t d n : Bool)
    → (x || (b1 || b || u || s || l1 || l2 || p || q || r || k || a || t || d || n)) ≡ (
        x
        || (t
            || (u
                || (s
                    || (l1
                        || (l2
                            || (p
                                || (q
                                    || (r
                                        || (k || (a || (d || (n || (b1 || (b || false)))))))))))))))
erratic_order true b1 b u s l1 l2 p q r k a t d n = refl
erratic_order false b1 b u s l1 l2 p q r k a t d n = ground arith

scan_order :
    (t o w : Verdict)
    → (is_positive t && is_positive o && is_positive w)
      ≡ is_positive (
          if not (is_positive o)
          then clear
          else if not (is_positive t)
          then clear
          else if not (is_positive w)
          then clear
          else matched)
scan_order t o w = ground arith

-- What the erratic filter returns once the filters that may fault gave u, s, d, n and b.
abbrev erratic_verdict : FilterParams → Verdict → Verdict → Verdict → Verdict → Verdict → Verdict
erratic_verdict f u s d n b =
    if is_positive (apply_spoofing_filter f)
    then matched
    else if is_positive (apply_ttl200_filter f.ip)
    then matched
    else if is_positive u
    then matched
    else if is_positive s
    then matched
    else if is_positive (apply_udp_iplen_96_filter f.ip)
    then matched
    else if is_positive (apply_udp_iplen_1500_filter f.ip)
    then matched
    else if is_positive (apply_port_53_filter f.source_port f.dest_port)
    then matched
    else if is_positive (apply_port_tcp23_filter f)
    then matched
    else if is_positive (apply_port_tcp80_filter f)
    then matched
    else if is_positive (apply_port_tcp5000_filter f)
    then matched
    else if is_positive (apply_asn_208843_scan_filter f)
    then matched
    else if is_positive d
    then matched
    else if is_positive n
    then matched
    else if is_positive (apply_backscatter_filter f)
    then matched
    else if is_positive b
    then matched
    else clear

spoofed_chain :
    (f : FilterParams)
    → (is_positive (apply_abnormal_protocol_filter f)
        || is_positive (apply_udp_destport_eighty_filter f)
        || is_positive (apply_fragment_filter f.ip)
        || is_positive (apply_last_src_byte0_filter f.ip)
        || is_positive (apply_last_src_byte255_filter f.ip)
        || is_positive (apply_same_src_dest_filter f.ip)
        || is_positive (apply_ttl200_nonspoofed_filter f.ip f.tcp)
        || is_positive (apply_udp_port_zero_filter f)
        || is_positive (apply_tcp_port_zero_filter f))
      ≡ is_positive (apply_spoofing_filter f)
unfolding apply_spoofing_filter
spoofed_chain f = simp is_positive-if (
    spoofed_order (is_positive (apply_abnormal_protocol_filter f))
      (is_positive (apply_ttl200_nonspoofed_filter f.ip f.tcp))
      (is_positive (apply_fragment_filter f.ip)) (is_positive (apply_last_src_byte0_filter f.ip))
      (is_positive (apply_last_src_byte255_filter f.ip))
      (is_positive (apply_same_src_dest_filter f.ip)) (is_positive (apply_udp_port_zero_filter f))
      (is_positive (apply_tcp_port_zero_filter f))
      (is_positive (apply_udp_destport_eighty_filter f)))

module _ (f : FilterParams) (torun : ℕ → ToRun) {b u s d n : Verdict}
    (eb : apply_bittorrent_filter f ≡ some b) (eu : apply_udp_0x31_filter f ≡ some u)
    (es : apply_sip_status_filter f ≡ some s) (ed : apply_dns_resp_oddport_filter f ≡ some d)
    (en : apply_netbios_name_filter f ≡ some n) where
  apply_all-results : apply_all f torun ≡ some (all_results f torun b u s d n)
  unfolding apply_all
  apply_all-results = rw (eb, eu, es, ed, en)

  erratic_value : apply_erratic_filter f true ≡ some (erratic_verdict f u s d n b)
  unfolding apply_erratic_filter
  erratic_value = rw (eu, es, ed, en, eb) (simp if-some)

  spoofed_agrees :
      ran_matched (all_results f torun b u s d n) spoofed ≡ is_positive (apply_spoofing_filter f)
  unfolding of_index
  spoofed_agrees = simp (u8_is_one, if_one) (spoofed_chain f)

  erratic_agrees :
      ran_matched (all_results f torun b u s d n) erratic
      ≡ is_positive (erratic_verdict f u s d n b)
  unfolding of_index
  erratic_agrees =
      simp (u8_is_one, if_one, if_two, is_positive-if, spoofed_chain f)
        (erratic_order (is_positive (apply_spoofing_filter f))
          (is_positive (apply_backscatter_filter f)) (is_positive (b)) (is_positive (u))
          (is_positive (s)) (is_positive (apply_udp_iplen_96_filter f.ip))
          (is_positive (apply_udp_iplen_1500_filter f.ip))
          (is_positive (apply_port_53_filter f.source_port f.dest_port))
          (is_positive (apply_port_tcp23_filter f)) (is_positive (apply_port_tcp80_filter f))
          (is_positive (apply_port_tcp5000_filter f)) (is_positive (apply_asn_208843_scan_filter f))
          (is_positive (apply_ttl200_filter f.ip)) (is_positive (d)) (is_positive (n)))

  scan_agrees :
      ran_matched (all_results f torun b u s d n) large_scale_scan
      ≡ is_positive (apply_large_scale_scan_filter f)
  unfolding of_index apply_large_scale_scan_filter
  scan_agrees =
      simp (u8_is_one, if_one)
        (scan_order (apply_ttl200_filter f.ip) (apply_no_tcp_options_filter f.tcp)
          (apply_tcpwin_1024_filter f.tcp))

  routed_agrees :
      ran_matched (all_results f torun b u s d n) routed ≡ is_positive (apply_routable_filter f.ip)
  unfolding of_index apply_routable_filter
  routed_agrees = simp (u8_is_one, if_one)

  -- One identifier: the filter on its own does not fault, and the entry has its verdict.
  abbrev Agrees : FilterId → Type 0
  Agrees id =
      (v : Verdict) × (alone f id ≡ some v)
      × (ran_matched (all_results f torun b u s d n) id ≡ is_positive v)
      × ((all_results f torun b u s d n (index id)).filterid ≡ id)

  each_filter : (id : FilterId) → IsEnumerator id → Agrees id
  unfolding of_index alone
  each_filter bittorrent h = (_, eb, u8_is_one _, refl)
  each_filter udp_0x31 h = (_, eu, u8_is_one _, refl)
  each_filter sip_status h = (_, es, u8_is_one _, refl)
  each_filter dns_resp_nonstandard h = (_, ed, u8_is_one _, refl)
  each_filter netbios_query_name h = (_, en, u8_is_one _, refl)
  each_filter spoofed h = (_, refl, spoofed_agrees, refl)
  each_filter erratic h = (_, erratic_value, erratic_agrees, refl)
  each_filter large_scale_scan h = (_, refl, scan_agrees, refl)
  each_filter routed h = (_, refl, routed_agrees, refl)
  each_filter (unknown i) h = absurd h
  each_filter _ h = (_, refl, u8_is_one _, refl)

-- The same, past _set_filter_params.
pub apply_all-alone :
    (f : FilterParams) (torun : ℕ → ToRun) {ip : IpHeader}
    → f.ip ≡ some ip
    → (t : ℕ → ToRun) × (apply_all f torun ≡ some t)
      × ((id : FilterId)
          → IsEnumerator id
          → (v : Verdict) × (alone f id ≡ some v)
            × (ran_matched t id ≡ is_positive v)
            × ((t (index id)).filterid ≡ id))
apply_all-alone f torun h =
    let (b, eb) = Option-some _ (bittorrent_runs f h) in
    let (u, eu) = Option-some _ (udp_0x31_runs f h) in
    let (s, es) = Option-some _ (sip_status_runs f h) in
    let (d, ed) = Option-some _ (dns_resp_oddport_runs f h) in
    let (n, en) = Option-some _ (netbios_name_runs f h) in
    (_, apply_all-results f torun eb eu es ed en, each_filter f torun eb eu es ed en)

pub alone_runs :
    (f : FilterParams) {ip : IpHeader}
    → f.ip ≡ some ip
    → (id : FilterId) → IsEnumerator id
    → (v : Verdict) × (alone f id ≡ some v)
alone_runs f h id k =
    let (t, _, agrees) = apply_all-alone f (λ i. record { filterid = unknown i; result = 0 }) h in
    let (v, e, _, _) = agrees id k in (v, e)

-- For an IP header whose packet _set_filter_params can take apart without a fault,
-- corsaro_apply_all_filters returns, and for every enumerator the entry at its number has its
-- identifier and is 1 exactly if the filter on its own, on what was taken apart, returns a positive
-- number. None of those runs faults either.
pub all_filters_agree :
    (lt : Libtrace) (ip : IpHeader) (iprem : ℕ) {f : FilterParams} (torun : ℕ → ToRun)
    → set_filter_params lt (some ip) iprem ≡ some f
    → (t : ℕ → ToRun) × (corsaro_apply_all_filters lt (some ip) iprem torun ≡ some t)
      × ((id : FilterId)
          → IsEnumerator id
          → (v : Verdict) × (alone f id ≡ some v)
            × (ran_matched t id ≡ is_positive v)
            × ((t (index id)).filterid ≡ id))
unfolding corsaro_apply_all_filters
all_filters_agree lt ip iprem {f} torun params =
    let (t, all, agrees) =
      apply_all-alone f torun (set_filter_params-ip lt (some ip) iprem params) in
    (t, rw params all, agrees)
