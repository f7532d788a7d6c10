-- ===== src/Dos.antt =====
-- The packet rates of libcorsaro/plugins/corsaro_dos.c.
pub mod Entries
pub mod Windows
pub mod Combine
pub mod Maximum
pub mod Vectors
mod Tests
use corsaro.Base.{
  ℕ, zero, suc, ◌+◌, ◌-◌, ◌*◌, ◌/◌, ◌%◌, ◌^◌, Bool, true, false, not, ◌&&◌, Option, none, some,
  List, [], ◌∷◌, ltb, leb, ◌==◌, if◌then◌else◌, ◌>>=◌, max, ◌≡◌,
}
use corsaro.Dos.Entries.{Entry, lookup, write, remove, next}

-- The macros of Judy that are called, for arrays of words by words, and the entries of an array in
-- ascending order, by which their documentation says what they do: JLG reads, JLI followed by an
-- assignment writes, JLD deletes, and JLF finds the first index from one on. JLN is JLF from the next
-- index on.
pub record JudyL (Array : Type 0) : Type 0 where
  pub jlg : Array → ℕ → Option ℕ
  pub jli : Array → ℕ → ℕ → Array
  pub jld : Array → ℕ → Array
  pub jlf : Array → ℕ → Option ℕ
  pub entries : Array → List Entry
  pub reads : (a : Array) (i : ℕ) → jlg a i ≡ lookup i (entries a)
  pub writes : (a : Array) (i v : ℕ) → entries (jli a i v) ≡ write i v (entries a)
  pub deletes : (a : Array) (i : ℕ) → entries (jld a i) ≡ remove i (entries a)
  pub finds : (a : Array) (i : ℕ) → jlf a i ≡ next i (entries a)

-- The part of `corsaro_dos_config_t` that is about windows.
pub record DosConfig : Type 0 where
  pub ppm_window_size : ℕ
  pub ppm_window_slide : ℕ

-- The checks of corsaro_dos_finalise_config; `none` is the result -1.
unfoldable pub corsaro_dos_finalise_config : DosConfig → Option DosConfig
corsaro_dos_finalise_config conf =
    if conf.ppm_window_size == 0
    then none
    else if conf.ppm_window_slide == 0
    then none
    else if ltb conf.ppm_window_size conf.ppm_window_slide
    then some (record conf { ppm_window_slide = conf.ppm_window_size })
    else some conf

module _ {Array : Type 0} (judy : JudyL Array) where
  -- What attack_vector_update_ppm_window changes: the start of the window, `buckets[0]`, and
  -- `ppm_bucket_list`.
  pub record PpmWindow : Type 0 where
    pub window_start : ℕ
    pub bucket : ℕ
    pub ppm_bucket_list : Array

  -- One pass of the loop: the bucket is put on the list, and an empty one is begun.
  unfoldable pub expire : DosConfig → PpmWindow → PpmWindow
  expire conf ppm = record {
    window_start = (ppm.window_start + conf.ppm_window_slide) % 2 ^ 32;
    bucket = 0;
    ppm_bucket_list = judy.jli ppm.ppm_bucket_list ppm.window_start ppm.bucket;
  }

  unfoldable pub expire_loop : ℕ → DosConfig → PpmWindow → PpmWindow
  expire_loop zero conf ppm = ppm
  expire_loop (suc buckoff) conf ppm = expire_loop buckoff conf (expire conf ppm)

  -- How often the loop runs: `buckoff` if it is positive, and otherwise 0. The quotient is that of two
  -- signed numbers of 64 bits, rounded towards 0, of which an `int` keeps the lower 32 bits; they are
  -- positive below 2^31.
  unfoldable pub passes : DosConfig → ℕ → PpmWindow → ℕ
  passes conf tv_sec ppm =
      let slide = conf.ppm_window_slide in
      let buckoff =
        if ltb tv_sec ppm.window_start
        then (2 ^ 32 - (ppm.window_start - tv_sec) / slide % 2 ^ 32) % 2 ^ 32
        else (tv_sec - ppm.window_start) / slide % 2 ^ 32 in
      if ltb buckoff (2 ^ 31) then buckoff else 0

  unfoldable pub attack_vector_update_ppm_window : DosConfig → ℕ → Bool → PpmWindow → PpmWindow
  attack_vector_update_ppm_window conf tv_sec forcelast ppm =
      let ppm' = expire_loop (passes conf tv_sec ppm) conf ppm in
      if forcelast && ltb 0 ppm'.bucket
      then record ppm' {
        ppm_bucket_list = judy.jli ppm'.ppm_bucket_list ppm'.window_start ppm'.bucket;
      }
      else record ppm' { bucket = (ppm'.bucket + 1) % 2 ^ 64 }

  -- What JLI points to before anything is written to it.
  abbrev pub value_at : Array → ℕ → ℕ
  value_at a i = elim (judy.jlg a i) [ none ↦ 0 | some v ↦ v ]

  -- The loop of combine_ppm_list, from index on. Each pass goes on to a later entry of b, so the
  -- number of the entries is enough fuel.
  unfoldable pub combine_loop : ℕ → ℕ → Array → Array → Array
  combine_loop zero index a b = a
  combine_loop (suc fuel) index a b = elim (judy.jlf b index) [
    | none ↦ a
    | some i ↦ combine_loop fuel (suc i) (judy.jli a i ((value_at a i + value_at b i) % 2 ^ 64)) b
  ]

  unfoldable pub combine_ppm_list : ℕ → Array → Array → Array
  combine_ppm_list fuel a b = combine_loop fuel 0 a b

  -- The inner loop of calculate_maximum_ppm: `pval` is the index of an entry, or none.
  unfoldable pub sum_loop : ℕ → Array → Option ℕ → ℕ → ℕ → ℕ
  sum_loop fuel buckets none indexend currentwin = currentwin
  sum_loop zero buckets (some i) indexend currentwin = currentwin
  sum_loop (suc fuel) buckets (some i) indexend currentwin =
      let rest =
        sum_loop fuel buckets (judy.jlf buckets (suc i)) indexend
          ((currentwin + value_at buckets i) % 2 ^ 32) in
      if ltb i indexend then rest else currentwin

  -- The outer loop, at the entry `winstart`: the maximum, and the buckets that are left.
  unfoldable pub maximum_loop : ℕ → ℕ → ℕ → Option ℕ → ℕ → Array → ℕ × Array
  maximum_loop fuel size prune none maxppm buckets = (maxppm, buckets)
  maximum_loop zero size prune (some i) maxppm buckets = (maxppm, buckets)
  maximum_loop (suc fuel) size prune (some i) maxppm buckets =
      if ltb i prune
      then (let fewer = judy.jld buckets i in
          maximum_loop fuel size prune (judy.jlf fewer (suc i)) maxppm fewer)
      else (let currentwin = sum_loop (suc fuel) buckets (some i) (i + size) 0 in
          maximum_loop fuel size prune (judy.jlf buckets (suc i))
            (if ltb maxppm currentwin then currentwin else maxppm) buckets)

  -- Each pass of either loop goes on to a later entry, so the number of the entries is enough fuel.
  -- `none` is a division by zero.
  unfoldable pub calculate_maximum_ppm : ℕ → DosConfig → Array → ℕ → Option (ℕ × Array)
  calculate_maximum_ppm fuel conf buckets ts =
      let itemsperwin = conf.ppm_window_size / conf.ppm_window_slide in
      if conf.ppm_window_slide == 0
      then none
      else if itemsperwin == 0
      then some (0, buckets)
      else let prune =
          (ts + (2 ^ 32 - (itemsperwin - 1) * conf.ppm_window_slide % 2 ^ 32)) % 2 ^ 32 in
        some (maximum_loop fuel conf.ppm_window_size prune (judy.jlf buckets 0) 0 buckets)
