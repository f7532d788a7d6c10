-- ===== src/Filtering/Custom/Tests.antt =====
-- Three custom filters of libcorsaro/libcorsaro_filtering.c, and the theorems at them.
use corsaro.Base.{ℕ, ◌≡◌, refl, arith, none, some, [], ◌∷◌, ◌==◌, if◌then◌else◌}
use corsaro.Filtering.Custom.{
  FilterCalls, corsaro_apply_single_custom_filter, corsaro_apply_custom_filters_and,
  corsaro_apply_custom_filters_or,
}
use corsaro.Filtering.Custom.Laws.{rejections, custom_and_lem, custom_filters_agree}

-- A packet is its port, and the filter n matches port n; 0 is no filter.
abbrev by_port : FilterCalls ℕ ℕ ℕ
by_port = record {
  trace_create_filter = λ n. if n == 0 then none else some n;
  trace_apply_filter = λ n port. if n == port then 1 else 0;
}

custom_and_lem_example :
    corsaro_apply_custom_filters_and by_port (some (80 ∷ 0 ∷ 53 ∷ [])) 80 4
    ≡ ((if rejections by_port 80 (80 ∷ 0 ∷ 53 ∷ []) == 0 then 0 else 1), 4)
custom_and_lem_example =
    custom_and_lem by_port 80 (80 ∷ 0 ∷ 53 ∷ []) 4 (λ e. absurd (ground (arith, e)))

custom_filters_agree_example :
    (corsaro_apply_custom_filters_and by_port (some (53 ∷ [])) 80 4
      ≡ corsaro_apply_single_custom_filter by_port 53 80 4)
    × (corsaro_apply_custom_filters_or by_port (some (53 ∷ [])) 80 4
        ≡ corsaro_apply_single_custom_filter by_port 53 80 4)
custom_filters_agree_example = custom_filters_agree by_port 80 53 53 4 refl (omega arith)
