-- ===== src/Filtering/Params.antt =====
-- How libcorsaro/libcorsaro_filtering.c takes a packet apart before the filters run.
pub mod Faults
use corsaro.Base.{ℕ, Option, none, some, leb, ◌==◌, if◌then◌else◌, ◌>>=◌}
use mathlib.Core.Option
use corsaro.Filtering.Packet.{
  IpHeader, Transport, IpPayload, Libtrace, FilterParams, ipproto_icmp, ipproto_tcp, ipproto_udp,
  ethertype_ip,
}

-- The state after `memset`, with the two fields that are set before the protocol is looked at.
blank_params : Option IpHeader → ℕ → FilterParams
blank_params ip translen = record {
  ip = ip;
  tcp = none;
  udp = none;
  icmp = none;
  translen = translen;
  payloadlen = 0;
  source_port = 0;
  dest_port = 0;
  payload = none;
}

-- `if (rem >= n) { source_port = ...; dest_port = ...; }`, where the two reads go through the header.
read_ports {ℓ} :
    {H : Type ℓ} → ℕ → ℕ → Option H → (H → ℕ) → (H → ℕ) → FilterParams → Option FilterParams
read_ports n rem header first second fparams =
    if leb n rem
    then (do h ← header; some (record fparams { source_port = first h; dest_port = second h }))
    else some fparams

module _ (lt : Libtrace) where
  open lt use {get_layer3, get_payload_from_ip, get_payload_from_udp, get_payload_from_tcp}

  -- `_set_filter_params` from the transport header on.
  set_transport : FilterParams → IpPayload → Option FilterParams
  set_transport fparams p =
      let udp = Option.map (λ (t : Transport). t.as_udp) p.transport in
      let tcp = Option.map (λ (t : Transport). t.as_tcp) p.transport in
      let icmp = Option.map (λ (t : Transport). t.as_icmp) p.transport in
      if p.proto == ipproto_udp
      then (do
        f ← read_ports 4 p.rem udp (λ h. h.source) (λ h. h.dest) (record fparams { udp = udp })
        let (payload, len) = get_payload_from_udp udp p.rem
        some (record f { payload = payload; payloadlen = len }))
      else if p.proto == ipproto_tcp
      then (do
        f ← read_ports 4 p.rem tcp (λ h. h.source) (λ h. h.dest) (record fparams { tcp = tcp })
        let (payload, len) = get_payload_from_tcp tcp p.rem
        some (record f { payload = payload; payloadlen = len }))
      else if p.proto == ipproto_icmp
      then read_ports 2 p.rem icmp (λ h. h.icmp_type) (λ h. h.code) (record fparams { icmp = icmp })
      else some fparams

  unfoldable pub set_filter_params : Option IpHeader → ℕ → Option FilterParams
  unfolding set_transport read_ports blank_params
  set_filter_params ip iprem =
      let p = get_payload_from_ip ip iprem in set_transport (blank_params ip p.rem) p

  -- The same part of `PREPROCESS_PACKET`, which is a copy of it in the source.
  preprocess_transport : FilterParams → IpPayload → Option FilterParams
  preprocess_transport fparams p =
      let udp = Option.map (λ (t : Transport). t.as_udp) p.transport in
      let tcp = Option.map (λ (t : Transport). t.as_tcp) p.transport in
      let icmp = Option.map (λ (t : Transport). t.as_icmp) p.transport in
      if p.proto == ipproto_udp
      then (do
        f ← read_ports 4 p.rem udp (λ h. h.source) (λ h. h.dest) (record fparams { udp = udp })
        let (payload, len) = get_payload_from_udp udp p.rem
        some (record f { payload = payload; payloadlen = len }))
      else if p.proto == ipproto_tcp
      then (do
        f ← read_ports 4 p.rem tcp (λ h. h.source) (λ h. h.dest) (record fparams { tcp = tcp })
        let (payload, len) = get_payload_from_tcp tcp p.rem
        some (record f { payload = payload; payloadlen = len }))
      else if p.proto == ipproto_icmp
      then read_ports 2 p.rem icmp (λ h. h.icmp_type) (λ h. h.code) (record fparams { icmp = icmp })
      else some fparams

  -- `PREPROCESS_PACKET`
  unfoldable pub preprocess_packet : lt.Packet → Option FilterParams
  unfolding preprocess_transport read_ports blank_params
  preprocess_packet packet =
      let l = get_layer3 packet in
      let p = get_payload_from_ip l.ip l.rem in
      if l.ethertype == ethertype_ip
      then preprocess_transport (blank_params l.ip p.rem) p
      else some (blank_params l.ip 0)
