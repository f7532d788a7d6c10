-- ===== src/Filtering/Ids.antt =====
-- The filter identifiers of libcorsaro/libcorsaro_filtering.h, and their names.
use Prim.Native.String.{String}
use corsaro.Base.{ℕ, zero, suc, List, [], ◌∷◌, leb, if◌then◌else◌}

-- `corsaro_builtin_filter_id_t`; `unknown` is an int that is no enumerator below the last.
pub data FilterId : Type 0 where
  spoofed erratic routed large_scale_scan abnormal_protocol ttl_200 : FilterId
  no_tcp_options tcpwin_1024 fragment last_src_ip_0 last_src_ip_255 same_src_dest_ip : FilterId
  udp_port_0 tcp_port_0 udp_destport_80 rfc5735 backscatter bittorrent : FilterId
  udp_0x31 sip_status udp_iplen_96 udp_iplen_1500 port_53 tcp_port_23 : FilterId
  tcp_port_80 tcp_port_5000 asn_208843_scan dns_resp_nonstandard netbios_query_name notip : FilterId
  ttl_200_nonspoofed : FilterId
  unknown : ℕ → FilterId

-- `CORSARO_FILTERID_MAX`
abbrev pub filterid_max : ℕ
filterid_max = 31

-- The number that C gives an enumerator.
abbrev pub index : FilterId → ℕ
index spoofed = 0
index erratic = 1
index routed = 2
index large_scale_scan = 3
index abnormal_protocol = 4
index ttl_200 = 5
index no_tcp_options = 6
index tcpwin_1024 = 7
index fragment = 8
index last_src_ip_0 = 9
index last_src_ip_255 = 10
index same_src_dest_ip = 11
index udp_port_0 = 12
index tcp_port_0 = 13
index udp_destport_80 = 14
index rfc5735 = 15
index backscatter = 16
index bittorrent = 17
index udp_0x31 = 18
index sip_status = 19
index udp_iplen_96 = 20
index udp_iplen_1500 = 21
index port_53 = 22
index tcp_port_23 = 23
index tcp_port_80 = 24
index tcp_port_5000 = 25
index asn_208843_scan = 26
index dns_resp_nonstandard = 27
index netbios_query_name = 28
index notip = 29
index ttl_200_nonspoofed = 30
index (unknown i) = i

abbrev pub IsEnumerator : FilterId → Type 0
IsEnumerator (unknown i) = ⊥
IsEnumerator _ = Unit

-- The enumerators in order.
abbrev enumerators : List FilterId
enumerators =
    spoofed ∷ erratic ∷ routed ∷ large_scale_scan ∷ abnormal_protocol ∷ ttl_200 ∷ no_tcp_options
    ∷ tcpwin_1024 ∷ fragment ∷ last_src_ip_0 ∷ last_src_ip_255 ∷ same_src_dest_ip ∷ udp_port_0
    ∷ tcp_port_0 ∷ udp_destport_80 ∷ rfc5735 ∷ backscatter ∷ bittorrent ∷ udp_0x31 ∷ sip_status
    ∷ udp_iplen_96 ∷ udp_iplen_1500 ∷ port_53 ∷ tcp_port_23 ∷ tcp_port_80 ∷ tcp_port_5000
    ∷ asn_208843_scan ∷ dns_resp_nonstandard ∷ netbios_query_name ∷ notip ∷ ttl_200_nonspoofed ∷ []

id_at : List FilterId → ℕ → ℕ → FilterId
id_at [] i whole = unknown whole
id_at (x ∷ xs) zero whole = x
id_at (x ∷ xs) (suc i) whole = id_at xs i whole

-- The enumerator with a number, which the loop in corsaro_apply_all_filters stores.
unfoldable pub of_index : ℕ → FilterId
unfolding id_at
of_index i = id_at enumerators i i

-- What a returned `const char *` is: NULL, a literal, or a buffer of the call that has ended.
pub data Name : Type 0 where
  null : Name
  literal : String → Name
  dangling : Name

builtin_name : FilterId → Name
builtin_name spoofed = literal "spoofed"
builtin_name erratic = literal "erratic"
builtin_name routed = literal "routed"
builtin_name abnormal_protocol = literal "abnormal-protocol"
builtin_name ttl_200 = literal "ttl-200"
builtin_name fragment = literal "fragmented"
builtin_name last_src_ip_0 = literal "last-byte-src-0"
builtin_name last_src_ip_255 = literal "last-byte-src-255"
builtin_name same_src_dest_ip = literal "same-src-dst"
builtin_name udp_port_0 = literal "udp-port-0"
builtin_name tcp_port_0 = literal "tcp-port-0"
builtin_name udp_destport_80 = literal "udp-destport-80"
builtin_name rfc5735 = literal "rfc5735"
builtin_name backscatter = literal "backscatter"
builtin_name bittorrent = literal "bittorrent"
builtin_name udp_0x31 = literal "udp-0x31"
builtin_name sip_status = literal "sip-status"
builtin_name udp_iplen_96 = literal "udp-ip-len-96"
builtin_name udp_iplen_1500 = literal "udp-ip-len-1500"
builtin_name port_53 = literal "port-53"
builtin_name tcp_port_23 = literal "tcp-port-23"
builtin_name tcp_port_80 = literal "tcp-port-80"
builtin_name tcp_port_5000 = literal "tcp-port-5000"
builtin_name asn_208843_scan = literal "asn-208843-scan"
builtin_name dns_resp_nonstandard = literal "dns-resp-non-standard"
builtin_name netbios_query_name = literal "netbios-query-name"
builtin_name ttl_200_nonspoofed = literal "ttl-200-nonspoofed"
builtin_name _ = dangling

unfoldable pub corsaro_get_builtin_filter_name : FilterId → Name
unfolding builtin_name
corsaro_get_builtin_filter_name filtid =
    if leb filterid_max (index filtid) then null else builtin_name filtid
