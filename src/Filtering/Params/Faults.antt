-- ===== src/Filtering/Params/Faults.antt =====
-- When _set_filter_params of libcorsaro/libcorsaro_filtering.c reads through a null transport
-- pointer, and what it keeps.
use corsaro.Base.{ℕ, ◌≤◌, ◌≡◌, ◌↔◌, ◌⊎◌, refl, arith, Option, none, some}
use corsaro.Filtering.Packet.{
  IpHeader, IpPayload, Libtrace, FilterParams, ipproto_icmp, ipproto_tcp, ipproto_udp, ethertype_ip,
}
use corsaro.Filtering.Params.{
  preprocess_packet, set_filter_params, set_transport, preprocess_transport, read_ports,
  blank_params,
}

-- The transport is null although its protocol is one whose ports are read and enough bytes are left.
abbrev pub NullTransport : IpPayload → Type 0
NullTransport p =
    (p.transport ≡ none)
    × (((p.proto ≡ ipproto_udp) × (4 ≤ p.rem))
        ⊎ (((p.proto ≡ ipproto_tcp) × (4 ≤ p.rem)) ⊎ ((p.proto ≡ ipproto_icmp) × (2 ≤ p.rem))))

module _ (lt : Libtrace) (ip : Option IpHeader) (iprem : ℕ) where
  set_filter_params-fault_of_null :
      NullTransport (lt.get_payload_from_ip ip iprem) → set_filter_params lt ip iprem ≡ none
  unfolding set_filter_params set_transport read_ports blank_params
  set_filter_params-fault_of_null h = ground arith

  set_filter_params-null_of_fault :
      set_filter_params lt ip iprem ≡ none → NullTransport (lt.get_payload_from_ip ip iprem)
  unfolding set_filter_params set_transport read_ports blank_params
  set_filter_params-null_of_fault h = ground arith

  -- Taking a packet apart keeps the IP header that it was given.
  pub set_filter_params-ip : {f : FilterParams} → set_filter_params lt ip iprem ≡ some f → f.ip ≡ ip
  unfolding set_filter_params set_transport read_ports blank_params
  set_filter_params-ip h = ground arith

-- Taking a packet apart faults exactly if libtrace gives a null transport pointer for UDP or TCP with
-- at least four bytes left, or for ICMP with at least two.
pub set_filter_params_faults :
    (lt : Libtrace) (ip : Option IpHeader) (iprem : ℕ)
    → (set_filter_params lt ip iprem ≡ none) ↔ NullTransport (lt.get_payload_from_ip ip iprem)
set_filter_params_faults lt ip iprem =
    (set_filter_params-null_of_fault lt ip iprem, set_filter_params-fault_of_null lt ip iprem)

module _ (lt : Libtrace) where
  -- The two copies of the code that reads the transport header.
  preprocess_transport-set :
      (fparams : FilterParams) (p : IpPayload)
      → preprocess_transport lt fparams p ≡ set_transport lt fparams p
  unfolding preprocess_transport set_transport
  preprocess_transport-set fparams p = refl

  -- For an IPv4 packet PREPROCESS_PACKET and _set_filter_params do the same.
  pub preprocess-set :
      (packet : lt.Packet) (ip : IpHeader) (rem : ℕ)
      → lt.get_layer3 packet ≡ record { ip = some ip; ethertype = ethertype_ip; rem = rem }
      → preprocess_packet lt packet ≡ set_filter_params lt (some ip) rem
  unfolding preprocess_packet set_filter_params
  preprocess-set packet ip rem e = rw e (
      preprocess_transport-set (blank_params (some ip) (lt.get_payload_from_ip (some ip) rem).rem)
        (lt.get_payload_from_ip (some ip) rem))
