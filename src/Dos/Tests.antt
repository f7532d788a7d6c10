-- ===== src/Dos/Tests.antt =====
-- A list as an array of Judy, a few buckets of libcorsaro/plugins/corsaro_dos.c, and the theorems at
-- them.
use corsaro.Base.{
  ◌*◌, ℕ, ◌+◌, ◌≡◌, refl, arith, true, false, some, List, [], ◌∷◌, ◌==◌, if◌then◌else◌,
}
use corsaro.Dos.Entries.{Entry, lookup, write, remove, next}
use corsaro.Dos.{
  JudyL, DosConfig, corsaro_dos_finalise_config, PpmWindow, expire, expire_loop, passes,
  attack_vector_update_ppm_window, combine_ppm_list, calculate_maximum_ppm, maximum_loop, sum_loop,
}
use corsaro.Dos.Windows.{
  IsSound, finalise_config-IsSound, value, counted, IsCurrent, bucket_start,
  update_ppm_window_counts, update_ppm_window_flushes,
}
use corsaro.Dos.Combine.{count, combine_ppm_list_adds}
use corsaro.Dos.Vectors.{AttackVector}
use corsaro.Dos.Maximum.{IsMaximum, first_bucket, calculate_maximum_ppm_correct}

abbrev judy_list : JudyL (List Entry)
judy_list = record {
  jlg = λ a i. lookup i a;
  jli = λ a i v. write i v a;
  jld = λ a i. remove i a;
  jlf = λ a i. next i a;
  entries = λ a. a;
  reads = λ a i. refl;
  writes = λ a i v. refl;
  deletes = λ a i. refl;
  finds = λ a i. refl;
}

-- Windows of a minute, which slide by ten seconds.
abbrev minute : DosConfig
minute = record { ppm_window_size = 60; ppm_window_slide = 10 }

abbrev begun : PpmWindow judy_list
begun = record { window_start = 100; bucket = 3; ppm_bucket_list = (90, 5) ∷ [] }

updates : attack_vector_update_ppm_window judy_list minute 125 false begun ≡ record {
  window_start = 120;
  bucket = 1;
  ppm_bucket_list = (90, 5) ∷ (100, 3) ∷ (110, 0) ∷ [];
}
unfolding attack_vector_update_ppm_window passes expire_loop expire
updates = refl

-- The window from 130 on has the buckets of 130 and 170, and the bucket of 40 is removed.
finds_maximum :
    calculate_maximum_ppm judy_list 4 minute ((40, 50) ∷ (100, 3) ∷ (130, 4) ∷ (170, 6) ∷ []) 130
    ≡ some (10, (100, 3) ∷ (130, 4) ∷ (170, 6) ∷ [])
unfolding calculate_maximum_ppm maximum_loop sum_loop
finds_maximum = refl

finalise_config-IsSound_example :
    IsSound
      (record { ppm_window_size = 60; ppm_window_slide = 90 })
      (record { ppm_window_size = 60; ppm_window_slide = 60 })
unfolding corsaro_dos_finalise_config
finalise_config-IsSound_example =
    finalise_config-IsSound (record { ppm_window_size = 60; ppm_window_slide = 90 })
      (record { ppm_window_size = 60; ppm_window_slide = 60 }) refl

begun-IsCurrent : IsCurrent judy_list minute begun
begun-IsCurrent i h = ground (arith, h)

update_ppm_window_counts_example :
    ((i : ℕ)
      → counted judy_list minute
          (attack_vector_update_ppm_window judy_list minute 125 false begun)
          i
        ≡ counted judy_list minute begun i
          + (if i == bucket_start judy_list minute 125 begun then 1 else 0))
    × IsCurrent judy_list minute (attack_vector_update_ppm_window judy_list minute 125 false begun)
    × ((attack_vector_update_ppm_window judy_list minute 125 false begun).window_start
        ≡ bucket_start judy_list minute 125 begun)
update_ppm_window_counts_example =
    update_ppm_window_counts judy_list minute begun 125 (omega arith) (omega arith) (omega arith)
      (omega arith) (omega arith) begun-IsCurrent

update_ppm_window_flushes_example :
    value
      (lookup 100 (attack_vector_update_ppm_window judy_list minute 160 true begun).ppm_bucket_list)
    ≡ counted judy_list minute begun 100
update_ppm_window_flushes_example =
    update_ppm_window_flushes judy_list minute begun 160 (omega arith) (omega arith) (omega arith)
      (omega arith) begun-IsCurrent 100

combine_ppm_list_adds_example :
    count judy_list
      (combine_ppm_list judy_list 2 ((10, 1) ∷ (20, 4) ∷ []) ((10, 2) ∷ (30, 5) ∷ []))
      10
    ≡ count judy_list ((10, 1) ∷ (20, 4) ∷ []) 10 + count judy_list ((10, 2) ∷ (30, 5) ∷ []) 10
combine_ppm_list_adds_example =
    combine_ppm_list_adds judy_list 2 ((10, 1) ∷ (20, 4) ∷ []) ((10, 2) ∷ (30, 5) ∷ [])
      (omega arith, (omega arith, tt)) (λ k. ground arith) (omega arith) 10

calculate_maximum_ppm_correct_example :
    (result : ℕ × List Entry) × (calculate_maximum_ppm judy_list 2 minute
        ((100, 3) ∷ (130, 4) ∷ [])
        130
      ≡ some result)
    × IsMaximum judy_list 0 (first_bucket minute 130) 60 0 ((100, 3) ∷ (130, 4) ∷ []) result
calculate_maximum_ppm_correct_example =
    calculate_maximum_ppm_correct judy_list 2 130 minute ((100, 3) ∷ (130, 4) ∷ []) (omega arith)
      (omega arith) (omega arith, (omega arith, tt)) (omega arith)

abbrev at_time : ℕ → ℕ → ℕ → AttackVector
at_time first last packets = record {
  thread_cnt = 1;
  packet_cnt = packets;
  mismatches = 0;
  byte_cnt = packets * 60;
  start_time = record { tv_sec = first; tv_usec = 500 };
  latest_time = record { tv_sec = last; tv_usec = 0 };
  first_attack_port = first;
  first_target_port = 80;
  initial_packet = first;
  initial_packet_len = 60;
}
