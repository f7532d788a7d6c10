-- ===== src/Filtering/Custom.antt =====
-- The custom filters at the end of libcorsaro/libcorsaro_filtering.c.
pub mod Laws
mod Tests
use corsaro.Base.{
  ℕ, suc, ◌+◌, ◌-◌, ◌^◌, Bool, true, false, not, ◌&&◌, Option, none, some, List, [], ◌∷◌, ltb, ◌==◌,
  if◌then◌else◌,
}

-- The functions of libtrace that are called, for a packet: a filter is made of its string or not, and
-- an int, as its remainder modulo 2^32, says whether a filter matches.
pub record FilterCalls {ℓ} (Text Filter Packet : Type ℓ) : Type ℓ where
  pub trace_create_filter : Text → Option Filter
  pub trace_apply_filter : Filter → Packet → ℕ

-- `trace_apply_filter(ltfilter, packet) > 0`
abbrev pub is_positive : ℕ → Bool
is_positive r = ltb 0 r && ltb r (2 ^ 31)

module _ {ℓ} {Text Filter Packet : Type ℓ} (libtrace : FilterCalls Text Filter Packet) where
  -- `ltfilter && trace_apply_filter(ltfilter, packet) == 0`
  unfoldable pub misses : Packet → Option Filter → Bool
  misses packet none = false
  misses packet (some f) = libtrace.trace_apply_filter f packet == 0

  -- `ltfilter && trace_apply_filter(ltfilter, packet) > 0`
  unfoldable pub hits : Packet → Option Filter → Bool
  hits packet none = false
  hits packet (some f) = is_positive (libtrace.trace_apply_filter f packet)

  -- The number of libtrace's filters that exist, after trace_create_filter and after
  -- trace_destroy_filter, which is also called for a filter that could not be made.
  abbrev pub after_create : Option Filter → ℕ → ℕ
  after_create none filters = filters
  after_create (some f) filters = suc filters

  abbrev pub after_destroy : Option Filter → ℕ → ℕ
  after_destroy none filters = filters
  after_destroy (some f) filters = filters - 1

  -- The result, and how many filters exist then.
  unfoldable pub corsaro_apply_single_custom_filter : Text → Packet → ℕ → ℕ × ℕ
  corsaro_apply_single_custom_filter filterstring packet filters =
      let ltfilter = libtrace.trace_create_filter filterstring in
      let left = after_destroy ltfilter (after_create ltfilter filters) in
      if misses packet ltfilter then (1, left) else (0, left)

  -- The loop of corsaro_apply_custom_filters_AND.
  unfoldable pub and_loop : List Text → Packet → ℕ → ℕ × ℕ
  and_loop [] packet filters = (0, filters)
  and_loop (f ∷ n) packet filters =
      let ltfilter = libtrace.trace_create_filter f in
      let left = after_destroy ltfilter (after_create ltfilter filters) in
      let rest = and_loop n packet left in if misses packet ltfilter then (1, left) else rest

  -- `none` is a list that is NULL.
  unfoldable pub corsaro_apply_custom_filters_and : Option (List Text) → Packet → ℕ → ℕ × ℕ
  corsaro_apply_custom_filters_and none packet filters = (1, filters)
  corsaro_apply_custom_filters_and (some []) packet filters = (1, filters)
  corsaro_apply_custom_filters_and (some (f ∷ n)) packet filters = and_loop (f ∷ n) packet filters

  -- Whether one has matched.
  unfoldable pub or_loop : List Text → Packet → ℕ → Bool × ℕ
  or_loop [] packet filters = (false, filters)
  or_loop (f ∷ n) packet filters =
      let ltfilter = libtrace.trace_create_filter f in
      let left = after_destroy ltfilter (after_create ltfilter filters) in
      let rest = or_loop n packet left in if hits packet ltfilter then (true, left) else rest

  unfoldable pub corsaro_apply_custom_filters_or : Option (List Text) → Packet → ℕ → ℕ × ℕ
  corsaro_apply_custom_filters_or none packet filters = (1, filters)
  corsaro_apply_custom_filters_or (some []) packet filters = (1, filters)
  corsaro_apply_custom_filters_or (some (f ∷ n)) packet filters =
      let (matched, left) = or_loop (f ∷ n) packet filters in
      if matched then (0, left) else (1, left)
