-- ===== src/Tagging/Tests.antt =====
-- Samples for libcorsaro/libcorsaro_tagging.c, and the theorems at them.
use corsaro.Base.{
  ℕ, ◌+◌, ◌-◌, ◌%◌, ◌^◌, ◌≡◌, ◌≢◌, refl, arith, true, false, some, none, List, [], ◌∷◌, ◌==◌,
  if◌then◌else◌, store, inr, max, Bool, ◌>>=◌,
}
use corsaro.Base.Or.{bit}
use corsaro.ByteSwap.{byteswap64}
use corsaro.Filtering.Packet.{Verdict, is_positive}
use corsaro.Filtering.ApplyAll.{corsaro_apply_all_filters}
use corsaro.Filtering.Params.{set_filter_params}
use corsaro.Filtering.Payload.{
  apply_bittorrent_filter, apply_udp_0x31_filter, apply_sip_status_filter,
  apply_dns_resp_oddport_filter, apply_netbios_name_filter,
}
use corsaro.Filtering.Ids.{FilterId, IsEnumerator, index}
use corsaro.Filtering.Agreement.{alone}
use corsaro.Filtering.Tests.{web_ip, web_params, sample_trace, web_params_read, no_results}
use corsaro.Tagging.Loss.{
  LossTracker, PacketHeader, update_tracker, receive_all, next_after, jumps, receive_all_counts,
}
use mathlib.Core.Option
use corsaro.Tagging.Taggers.{
  IpmetaState, PacketTagger, Taggers, leave_state, clear_state, corsaro_destroy_packet_tagger,
  create, replace, run,
}
use corsaro.Tagging.Taggers.Counted.{IsCounted}
use corsaro.Tagging.Taggers.Reachable.{
  IsFresh, Reachable, start, after, leave, clear, Reachable-IsCounted, destroy_runs,
}
use corsaro.Tagging.Tags.{Ipmeta, IpmetaRecord, PacketTags, tag_records, tag_ip_packet}
use corsaro.Tagging.Tags.Providers.{IsDistinct, any_usable, tag_records_used}
use corsaro.Tagging.FilterBits.{update_filter_tags, update_filter_tags-alone}

-- A tracker that expects packet 5 of tagger 77.
abbrev tracker : LossTracker
tracker = record {
  nextseq = 5;
  taggerid = 77;
  packetsreceived = 4;
  bytesreceived = 400;
  lostpackets = 0;
  lossinstances = 0;
}

abbrev header : ℕ → PacketHeader
header seqno = record { tagger_id = 77; seqno = seqno; pktlen = 100 }

abbrev headers : List PacketHeader
headers = header 5 ∷ header 8 ∷ header 9 ∷ []

two_lost :
    receive_all (some tracker) headers
    ≡ some (record {
      nextseq = 10;
      taggerid = 77;
      packetsreceived = 7;
      bytesreceived = 700;
      lostpackets = 2;
      lossinstances = 1;
    })
unfolding receive_all
two_lost = refl

-- A packet that comes late counts as lost.
late_packet : (update_tracker tracker (header 3)).lostpackets ≡ 1
unfolding update_tracker
late_packet = refl

receive_all_counts_example :
    (final : LossTracker) × (receive_all (some tracker) headers ≡ some final)
    × (final.nextseq ≡ next_after 5 headers)
    × ((final.packetsreceived + final.lostpackets) % 2 ^ 64
        ≡ (4 + 0 + (final.nextseq - 5)) % 2 ^ 64)
    × (final.lossinstances % 2 ^ 32 ≡ (0 + jumps 5 headers) % 2 ^ 32)
receive_all_counts_example = receive_all_counts tracker headers (omega arith) (
  refl,
  omega arith,
  omega arith,
  (refl, omega arith, omega arith, (refl, omega arith, omega arith, tt)),
)

update_filter_tags-alone_example :
    (bits : ℕ) × (update_filter_tags sample_trace no_results (some web_ip) 60 0
      ≡ some (byteswap64 bits))
    × ((id : FilterId)
        → IsEnumerator id
        → (v : Verdict) × (alone web_params id ≡ some v)
          × (bit (index id) bits ≡ (if is_positive v then 1 else 0)))
update_filter_tags-alone_example =
    update_filter_tags-alone sample_trace web_ip 60 web_params_read no_results

-- The program has the only reference to every state. State 0 has one provider.
abbrev unused : ℕ → IpmetaState
unused s = record {
  pfxipmeta = s == 0;
  maxmindipmeta = false;
  netacqipmeta = false;
  refcount = 1;
  ending = 0;
  freed = false;
}

abbrev tagger_of : ℕ → PacketTagger
tagger_of s = record { ipmeta_state = some s; providers = if s == 0 then 1 else 0; records = true }

abbrev used : ℕ → IpmetaState
used = store unused 0 (record (unused 0) { refcount = 2 })

abbrev one_tagger : Taggers
one_tagger = record { states = used; live = tagger_of 0 ∷ [] }

unused-IsFresh : IsFresh unused
unused-IsFresh s = (refl, refl)

one_tagger-Reachable : Reachable unused one_tagger (λ s. true)
unfolding run
one_tagger-Reachable = after (create true (some 0)) start (omega arith) refl

-- The program gives up state 0, and the tagger moves to state 1: state 0 is ending and is freed.
abbrev moved : Taggers
moved = record {
  states =
      store
        (store
          (store (store used 0 (record (used 0) { refcount = 1 })) 0
            (record (used 0) { refcount = 0; ending = 1 }))
          1 (record (unused 1) { refcount = 2 }))
        0 (record (used 0) { refcount = 0; ending = 1; freed = true });
  live = record (tagger_of 0) { ipmeta_state = some 1 } ∷ [];
}

moved-Reachable : Reachable unused moved (store (λ s. true) 0 false)
unfolding run leave_state clear_state
moved-Reachable =
    clear 0
      (after (replace 0 1) (leave 0 one_tagger-Reachable refl (omega arith) refl) (omega arith)
        refl)
      refl

Reachable-IsCounted_example : IsCounted moved (store (λ s. true) 0 false)
Reachable-IsCounted_example = Reachable-IsCounted unused-IsFresh moved-Reachable

destroy_runs_example : corsaro_destroy_packet_tagger 0 moved ≢ none
destroy_runs_example = destroy_runs 0 unused-IsFresh moved-Reachable refl

-- While the program has its reference, replacing the state of the only tagger ends nothing.
replacing_keeps :
    Option.map
      (λ (w : Taggers). ((w.states 0).ending ∷ (w.states 1).refcount ∷ []))
      (run (replace 0 1) one_tagger)
    ≡ some (0 ∷ 2 ∷ [])
unfolding run
replacing_keeps = refl

-- Once the program has given it up, replacing it by itself fails the assertion.
replacing_by_itself_fails : (leave_state 0 one_tagger >>= run (replace 0 0)) ≡ none
unfolding run leave_state
replacing_by_itself_fails = refl

-- Records of two providers; the second belongs to a group of two systems.
abbrev sample_meta : Ipmeta
sample_meta = record { maxmind = 1; netacq_edge = 2; pfx2as = 3; lookup_addr = λ a. none }

sample_meta-IsDistinct : IsDistinct sample_meta
sample_meta-IsDistinct = record {
  maxmind_netacq = omega arith;
  maxmind_pfx2as = omega arith;
  netacq_pfx2as = omega arith;
}

abbrev record_of : ℕ → List ℕ → IpmetaRecord
record_of source asn = record {
  source = source;
  continent_code = 0x5545;
  country_code = 0x4544;
  region_code = 12;
  polygon_ids_cnt = 1;
  polygon_ids = λ i. 9;
  asn = asn;
}

abbrev recs : List IpmetaRecord
recs = record_of 1 [] ∷ record_of 3 (64500 ∷ 64501 ∷ []) ∷ []

abbrev no_tags : PacketTags
no_tags = record {
  providers_used = 1;
  netacq_region = 0;
  netacq_polygon = λ i. 0;
  prefixasn = 0;
  maxmind_country = 0;
  netacq_country = 0;
  src_port = 0;
  dest_port = 0;
  maxmind_continent = 0;
  netacq_continent = 0;
  filterbits = 0;
  ft_hash = 0;
  protocol = 0;
}

tag_records_used_example :
    bit 3 (tag_records sample_meta recs no_tags).providers_used
    ≡ max (bit 3 1) (if any_usable sample_meta 3 recs then 1 else 0)
tag_records_used_example =
    tag_records_used sample_meta sample_meta-IsDistinct 3 (inr (inr refl)) recs no_tags

-- Without providers, providers_used stays in host byte order.
basic_only :
    Option.map
      (λ (r : Bool × PacketTags). r.1.providers_used)
      (tag_ip_packet sample_trace sample_meta 0 false no_results
        (some web_ip)
        60
        (record no_tags { providers_used = 0 }))
    ≡ some 1
unfolding tag_ip_packet corsaro_apply_all_filters set_filter_params apply_bittorrent_filter
    apply_udp_0x31_filter apply_sip_status_filter apply_dns_resp_oddport_filter
    apply_netbios_name_filter
basic_only = refl
