-- ===== src/Dos/Windows.antt =====
-- The buckets of packets in libcorsaro/plugins/corsaro_dos.c.
use corsaro.Base.{
  ℕ, zero, suc, ◌+◌, ◌-◌, ◌*◌, ◌/◌, ◌^◌, ◌≤◌, ◌<◌, ◌≡◌, refl, sym, ap, subst, ◌∙◌, arith, true,
  false, Option, none, some, ltb, ◌==◌, if◌then◌else◌, Bool-cases, inl, inr, some-inj,
}
use native.Mathlib.Nat.{div-add-mod', mul-le-mul_left}
use corsaro.Dos.Entries.{lookup, lookup-write}
use corsaro.Dos.{
  JudyL, DosConfig, corsaro_dos_finalise_config, PpmWindow, expire, expire_loop, passes,
  attack_vector_update_ppm_window,
}

abbrev pub IsSound : DosConfig → DosConfig → Type 0
IsSound conf c =
    (1 ≤ c.ppm_window_slide)
    × (c.ppm_window_slide ≤ c.ppm_window_size)
    × (c.ppm_window_size ≡ conf.ppm_window_size)

-- After corsaro_dos_finalise_config has accepted a configuration, the slide is at least 1 and no more
-- than the window, which has not changed.
pub finalise_config-IsSound :
    (conf c : DosConfig) → corsaro_dos_finalise_config conf ≡ some c → IsSound conf c
unfolding corsaro_dos_finalise_config
finalise_config-IsSound conf c e = elim (Bool-cases (conf.ppm_window_size == 0)) [
  | inl none_size ↦ absurd (ground (arith, none_size, e))
  | inr some_size ↦ elim (Bool-cases (conf.ppm_window_slide == 0)) [
    | inl none_slide ↦ absurd (ground (arith, some_size, none_slide, e))
    | inr some_slide ↦ elim (Bool-cases (ltb conf.ppm_window_size conf.ppm_window_slide)) [
      | inl longer ↦
          let c0 : DosConfig = record conf { ppm_window_slide = conf.ppm_window_size } in
          let made : corsaro_dos_finalise_config conf ≡ some c0 =
            ground (arith, some_size, some_slide, longer) in
          subst (IsSound conf) (some-inj (sym made ∙ e))
            (ground (arith, some_size), omega arith, refl)
      | inr shorter ↦
          let made : corsaro_dos_finalise_config conf ≡ some conf =
            ground (arith, some_size, some_slide, shorter) in
          subst (IsSound conf) (some-inj (sym made ∙ e))
            (ground (arith, some_slide), ground (arith, shorter), refl)
    ]
  ]
]

abbrev pub value : Option ℕ → ℕ
value none = 0
value (some v) = v

module _ {Array : Type 0} (judy : JudyL Array) where
  pub lookup-jli :
      (a : Array) (i v k : ℕ)
      → lookup k (judy.entries (judy.jli a i v))
        ≡ (if i == k then some v else lookup k (judy.entries a))
  lookup-jli a i v k = ap (lookup k) (judy.writes a i v) ∙ lookup-write i v k (judy.entries a)

module _ {Array : Type 0} (judy : JudyL Array) (conf : DosConfig) where
  -- How many packets are counted for the bucket that starts at i.
  abbrev pub counted : PpmWindow judy → ℕ → ℕ
  counted ppm i =
      if i == ppm.window_start
      then ppm.bucket
      else value (lookup i (judy.entries ppm.ppm_bucket_list))

  -- Nothing is on the list for the bucket that is being filled, or a later one.
  abbrev pub IsCurrent : PpmWindow judy → Type 0
  IsCurrent ppm =
      (i : ℕ) → ppm.window_start ≤ i → lookup i (judy.entries ppm.ppm_bucket_list) ≡ none

  expire-counted :
      (ppm : PpmWindow judy)
      → 1 ≤ conf.ppm_window_slide
      → ppm.window_start + conf.ppm_window_slide < 2 ^ 32
      → IsCurrent ppm
      → ((i : ℕ) → counted (expire judy conf ppm) i ≡ counted ppm i)
        × IsCurrent (expire judy conf ppm)
  unfolding expire
  expire-counted ppm slides small current =
      let put = lookup-jli judy ppm.ppm_bucket_list ppm.window_start ppm.bucket in
      ((λ i. ground (arith, put i, current i)), (λ i later. ground (arith, put i, current i)))

  expire_loop-counted :
      (n : ℕ) (ppm : PpmWindow judy)
      → 1 ≤ conf.ppm_window_slide
      → ppm.window_start + n * conf.ppm_window_slide < 2 ^ 32
      → IsCurrent ppm
      → ((i : ℕ) → counted (expire_loop judy n conf ppm) i ≡ counted ppm i)
        × IsCurrent (expire_loop judy n conf ppm)
        × ((expire_loop judy n conf ppm).window_start
            ≡ ppm.window_start + n * conf.ppm_window_slide)
        × ((expire_loop judy n conf ppm).bucket ≤ ppm.bucket)
  unfolding expire_loop expire
  expire_loop-counted zero ppm slides small current =
      ((λ i. refl), current, omega arith, omega arith)
  expire_loop-counted (suc n) ppm slides small current =
      let ppm' = expire judy conf ppm in
      let (same, current') = expire-counted ppm slides (omega (arith, small)) current in
      let (same', current'', at, few) =
        expire_loop-counted n ppm' slides (omega (arith, small)) current' in
      ((λ i. same' i ∙ same i), current'', omega (arith, at, small), omega (arith, few))

  -- The start of the bucket that a packet belongs to: a packet from before the current bucket is
  -- counted there.
  abbrev pub bucket_start : ℕ → PpmWindow judy → ℕ
  bucket_start tv_sec ppm =
      ppm.window_start + (tv_sec - ppm.window_start) / conf.ppm_window_slide * conf.ppm_window_slide

  quotient-small : (x slide : ℕ) → 1 ≤ slide → (x / slide ≤ x) × (x / slide * slide ≤ x)
  quotient-small x slide some_slide =
      let whole = div-add-mod' x slide in
      let up : x / slide * 1 ≤ x / slide * slide = mul-le-mul_left (x / slide) some_slide in
      (omega (arith, whole, up), omega (arith, whole))

  passes_lem :
      (ppm : PpmWindow judy) (tv_sec : ℕ)
      → 1 ≤ conf.ppm_window_slide
      → tv_sec < 2 ^ 31
      → ppm.window_start < 2 ^ 32
      → ppm.window_start ≤ tv_sec + 2 ^ 31
      → (passes judy conf tv_sec ppm ≡ (tv_sec - ppm.window_start) / conf.ppm_window_slide)
        × (bucket_start tv_sec ppm < 2 ^ 32)
  unfolding passes
  passes_lem ppm tv_sec slides small started near =
      let slide = conf.ppm_window_slide in
      let (few, less) = quotient-small (tv_sec - ppm.window_start) slide slides in
      let (back, _) = quotient-small (ppm.window_start - tv_sec) slide slides in
      let whole : bucket_start tv_sec ppm < 2 ^ 32 = omega (arith, less, small, started) in
      elim (Bool-cases (ltb tv_sec ppm.window_start)) [
        | inl early ↦
            let none_on : (tv_sec - ppm.window_start) / slide ≡ 0 = ground (arith, few, early) in
            (ground (arith, early, none_on, back, near), whole)
        | inr late ↦ (ground (arith, late, few, small), whole)
      ]

  -- A packet at tv_sec, where the slide is at least 1, tv_sec is below 2^31, the start of the bucket
  -- below 2^32 and no more than 2^31 seconds after tv_sec, its count below 2^64 - 1, and nothing is on
  -- the list from the current bucket on, adds one to the count of the bucket to which it belongs and
  -- nothing to any other; that bucket is the current one then.
  pub update_ppm_window_counts :
      (ppm : PpmWindow judy) (tv_sec : ℕ)
      → 1 ≤ conf.ppm_window_slide
      → tv_sec < 2 ^ 31
      → ppm.window_start < 2 ^ 32
      → ppm.window_start ≤ tv_sec + 2 ^ 31
      → ppm.bucket + 1 < 2 ^ 64
      → IsCurrent ppm
      → ((i : ℕ)
          → counted (attack_vector_update_ppm_window judy conf tv_sec false ppm) i
            ≡ counted ppm i + (if i == bucket_start tv_sec ppm then 1 else 0))
        × IsCurrent (attack_vector_update_ppm_window judy conf tv_sec false ppm)
        × ((attack_vector_update_ppm_window judy conf tv_sec false ppm).window_start
            ≡ bucket_start tv_sec ppm)
  unfolding attack_vector_update_ppm_window
  update_ppm_window_counts ppm tv_sec slides small started near few current =
      let (n, fits) = passes_lem ppm tv_sec slides small started near in
      let k = (tv_sec - ppm.window_start) / conf.ppm_window_slide in
      let (same, current', at, less) = expire_loop-counted k ppm slides fits current in
      rw n ((λ i. let s = same i in ground (arith, s, at, less, few)), current', at)

  -- At the end of an interval at tv_sec, where the slide is at least 1, tv_sec is below 2^31, the start
  -- of the bucket below 2^32 and no more than 2^31 seconds after tv_sec, and nothing is on the list
  -- from the current bucket on, the list has for every bucket the packets that are counted for it.
  pub update_ppm_window_flushes :
      (ppm : PpmWindow judy) (tv_sec : ℕ)
      → 1 ≤ conf.ppm_window_slide
      → tv_sec < 2 ^ 31
      → ppm.window_start < 2 ^ 32
      → ppm.window_start ≤ tv_sec + 2 ^ 31
      → IsCurrent ppm
      → (i : ℕ)
      → value (
          lookup i (
            judy.entries
              (attack_vector_update_ppm_window judy conf tv_sec true ppm).ppm_bucket_list))
        ≡ counted ppm i
  unfolding attack_vector_update_ppm_window
  update_ppm_window_flushes ppm tv_sec slides small started near current i =
      let (n, fits) = passes_lem ppm tv_sec slides small started near in
      let k = (tv_sec - ppm.window_start) / conf.ppm_window_slide in
      let (same, current', at, less) = expire_loop-counted k ppm slides fits current in
      let ppm' = expire_loop judy k conf ppm in
      let put = lookup-jli judy ppm'.ppm_bucket_list ppm'.window_start ppm'.bucket i in
      rw n (elim (Bool-cases (ltb 0 ppm'.bucket)) [
        | inl some_count ↦ ground (arith, some_count, put, same i, current' i)
        | inr none_count ↦ ground (arith, none_count, same i, current' i)
      ])
