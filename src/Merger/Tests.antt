-- ===== src/Merger/Tests.antt =====
-- Two small inputs of corsaroftmerge/corsaroftmerge.c, and the theorems at them.
use corsaro.Base.{
  ℕ, ◌≡◌, ◌↔◌, refl, arith, true, false, some, none, List, [], ◌∷◌, ◌==◌, if◌then◌else◌, Bool-cases,
  inl, inr,
}
use corsaro.Flowtuple.{FlowtupleData}
use corsaro.PriorityQueue.{Cells, pqueue_insert, pqueue_pop}
use corsaro.Merger.{
  MergerFt, Reply, again, failed, received, merged, aborted, ft_same, ft_cmp_pri, run_merger,
}
use corsaro.Merger.Order.{key_leb, ft_cmp_pri-ft_same}
use corsaro.Merger.Streams.{sent, IsComplete}
use corsaro.Merger.Run.{IsInput, IsMerge, run_merger_correct}

-- A flow from one address, with a number of packets.
abbrev flow : ℕ → ℕ → FlowtupleData
flow src_ip packet_cnt = record {
  interval_ts = 60;
  src_ip = src_ip;
  dst_ip = 7;
  src_port = 4000;
  dst_port = 80;
  protocol = 6;
  ttl = 64;
  tcp_flags = 2;
  ip_len = 40;
  tcp_synlen = 40;
  tcp_synwinlen = 1024;
  packet_cnt = packet_cnt;
  hash_val = 0;
  is_spoofed = 0;
  is_masscan = 0;
  maxmind_country = 0;
  maxmind_continent = 0;
  netacq_country = 0;
  netacq_continent = 0;
  prefixasn = 0;
  tagproviders = 1;
}

-- Records 1 and 3 come from file 0, record 2 from file 1. 1 and 2 are of the same flow.
abbrev mem : ℕ → MergerFt
mem p = record { ft = if p == 3 then flow 9 5 else flow 8 p; source = if p == 2 then 1 else 0 }

abbrev two_files : ℕ → List Reply
two_files i =
    if i == 0
    then received (some 1) ∷ again ∷ received (some 3) ∷ received none ∷ []
    else again ∷ received (some 2) ∷ received none ∷ []

abbrev no_cells : Cells
no_cells = record { d = λ j. 0; pos = λ x. 0 }

merges_two_files :
    run_merger false mem true 2 no_cells two_files ≡ some (merged, flow 8 3 ∷ flow 9 5 ∷ [])
unfolding run_merger pqueue_pop pqueue_insert ft_cmp_pri
merges_two_files = refl

-- An error on a socket loses the record that waits to be written.
stops_at_error :
    run_merger false mem true 1 no_cells (λ i. received (some 1) ∷ failed ∷ []) ≡ some (aborted, [])
unfolding run_merger pqueue_pop pqueue_insert ft_cmp_pri
stops_at_error = refl

two_files-IsInput : IsInput mem 2 two_files
unfolding sent IsComplete key_leb
two_files-IsInput = record {
  complete = λ i h. elim (Bool-cases (i == 0)) [ inl e ↦ rw e tt | inr e ↦ rw e tt ];
  origin = λ i p h k. ground arith;
  once = λ i p h. ground arith;
  sorted = λ i h. elim (Bool-cases (i == 0)) [ inl e ↦ rw e (refl, tt) | inr e ↦ rw e tt ];
}

run_merger_correct_example :
    (written : List FlowtupleData) × (run_merger false mem true 2 no_cells two_files
      ≡ some (merged, written))
    × IsMerge mem 2 two_files written
run_merger_correct_example = run_merger_correct false mem 2 no_cells two_files two_files-IsInput

ft_cmp_pri-ft_same_example :
    ((ft_cmp_pri (mem 1) (mem 2) ≡ true) × (ft_cmp_pri (mem 2) (mem 1) ≡ true))
    ↔ (ft_same (some (mem 1)) (some (mem 2)) ≡ true)
ft_cmp_pri-ft_same_example = ft_cmp_pri-ft_same (mem 1) (mem 2)
