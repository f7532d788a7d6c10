-- ===== src/Filtering/Custom/Laws.antt =====
-- What the custom filters of libcorsaro/libcorsaro_filtering.c decide.
use corsaro.Base.{
  ℕ, ◌+◌, ◌^◌, ◌<◌, ◌≡◌, ◌≢◌, refl, arith, Option, none, some, List, [], ◌∷◌, ◌==◌, if◌then◌else◌,
  Bool-cases, inl, inr,
}
use corsaro.Filtering.Custom.{
  FilterCalls, misses, hits, after_create, after_destroy, corsaro_apply_single_custom_filter,
  and_loop, corsaro_apply_custom_filters_and, or_loop, corsaro_apply_custom_filters_or,
}

module _ {ℓ} {Text Filter Packet : Type ℓ} (libtrace : FilterCalls Text Filter Packet)
    (packet : Packet) where
  abbrev single : Text → ℕ
  single f = (corsaro_apply_single_custom_filter libtrace f packet 0).0

  -- How many of the filters reject the packet on their own.
  abbrev pub rejections : List Text → ℕ
  rejections [] = 0
  rejections (f ∷ fs) = single f + rejections fs

  -- How many of them hit it.
  abbrev pub matches : List Text → ℕ
  matches [] = 0
  matches (f ∷ fs) =
      (if hits libtrace packet (libtrace.trace_create_filter f) then 1 else 0) + matches fs

  closed :
      (o : Option Filter) (filters : ℕ)
      → after_destroy libtrace o (after_create libtrace o filters) ≡ filters
  closed none filters = refl
  closed (some f) filters = omega arith

  and_loop-rejections :
      (fs : List Text) (filters : ℕ)
      → and_loop libtrace fs packet filters ≡ ((if rejections fs == 0 then 0 else 1), filters)
  unfolding and_loop corsaro_apply_single_custom_filter
  and_loop-rejections [] filters = refl
  and_loop-rejections (f ∷ fs) filters =
      let o = libtrace.trace_create_filter f in
      let ih = and_loop-rejections fs filters in
      rw (closed o filters) (elim (Bool-cases (misses libtrace packet o)) [
        | inl missed ↦ ground (arith, missed)
        | inr fits ↦ ground (arith, fits, ih)
      ])

  -- For filters of which there is at least one, corsaro_apply_custom_filters_AND returns 0 exactly if
  -- corsaro_apply_single_custom_filter does for each, and otherwise 1; it destroys every filter that
  -- it makes.
  pub custom_and_lem :
      (fs : List Text) (filters : ℕ)
      → fs ≢ []
      → corsaro_apply_custom_filters_and libtrace (some fs) packet filters
        ≡ ((if rejections fs == 0 then 0 else 1), filters)
  unfolding corsaro_apply_custom_filters_and
  custom_and_lem [] filters some_filter = absurd (some_filter refl)
  custom_and_lem (f ∷ fs) filters some_filter = and_loop-rejections (f ∷ fs) filters

  -- For a single filter that can be made and gives no negative number, the three functions agree.
  pub custom_filters_agree :
      (f : Text) (filter : Filter) (filters : ℕ)
      → libtrace.trace_create_filter f ≡ some filter
      → libtrace.trace_apply_filter filter packet < 2 ^ 31
      → (corsaro_apply_custom_filters_and libtrace (some (f ∷ [])) packet filters
          ≡ corsaro_apply_single_custom_filter libtrace f packet filters)
        × (corsaro_apply_custom_filters_or libtrace (some (f ∷ [])) packet filters
            ≡ corsaro_apply_single_custom_filter libtrace f packet filters)
  unfolding corsaro_apply_custom_filters_and corsaro_apply_custom_filters_or
      corsaro_apply_single_custom_filter and_loop or_loop misses hits
  custom_filters_agree f filter filters made signed =
      (ground (arith, made), ground (arith, made, signed))
