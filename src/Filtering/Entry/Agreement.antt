-- ===== src/Filtering/Entry/Agreement.antt =====
-- The two ways into libcorsaro/libcorsaro_filtering.c: a packet and one filter, or an IP header
-- and all filters.
use corsaro.Base.{ℕ, ◌≡◌, refl, ◌∙◌, some}
use corsaro.Filtering.Packet.{IpHeader, Libtrace, FilterParams, Verdict, is_positive, ethertype_ip}
use corsaro.Filtering.Params.{set_filter_params}
use corsaro.Filtering.Params.Faults.{preprocess-set}
use corsaro.Filtering.Ids.{
  FilterId, IsEnumerator, large_scale_scan, no_tcp_options, tcpwin_1024, notip, unknown,
}
use corsaro.Filtering.ApplyAll.{ToRun, ran_matched, corsaro_apply_all_filters}
use corsaro.Filtering.ById.{by_id_case, apply_by_id, corsaro_apply_filter_by_id}
use corsaro.Filtering.Agreement.{alone, all_filters_agree}

-- The identifiers that corsaro_apply_filter_by_id has a case for.
abbrev pub HasCase : FilterId → Type 0
HasCase large_scale_scan = ⊥
HasCase no_tcp_options = ⊥
HasCase tcpwin_1024 = ⊥
HasCase notip = ⊥
HasCase (unknown i) = ⊥
HasCase _ = Unit

HasCase-IsEnumerator : (id : FilterId) → HasCase id → IsEnumerator id
HasCase-IsEnumerator (unknown i) h = h
HasCase-IsEnumerator _ h = tt

by_id-alone : (f : FilterParams) (id : FilterId) → HasCase id → apply_by_id f id ≡ alone f id
unfolding apply_by_id by_id_case alone
by_id-alone f large_scale_scan h = absurd h
by_id-alone f no_tcp_options h = absurd h
by_id-alone f tcpwin_1024 h = absurd h
by_id-alone f notip h = absurd h
by_id-alone f (unknown i) h = absurd h
by_id-alone f _ h = refl

-- For an IPv4 packet that _set_filter_params can take apart without a fault, and each identifier that corsaro_apply_filter_by_id has
-- a case for, that function and corsaro_apply_all_filters on the packet's IP header both return, and
-- the entry is 1 exactly if the function returns a positive number.
pub entry_points_agree :
    (lt : Libtrace) (packet : lt.Packet) (ip : IpHeader) (rem : ℕ) {f : FilterParams}
    → lt.get_layer3 packet ≡ record { ip = some ip; ethertype = ethertype_ip; rem = rem }
    → set_filter_params lt (some ip) rem ≡ some f
    → (torun : ℕ → ToRun)
    → (t : ℕ → ToRun) × (corsaro_apply_all_filters lt (some ip) rem torun ≡ some t)
      × ((id : FilterId)
          → HasCase id
          → (v : Verdict) × (corsaro_apply_filter_by_id lt id packet ≡ some v)
            × (ran_matched t id ≡ is_positive v))
unfolding corsaro_apply_filter_by_id
entry_points_agree lt packet ip rem {f} layer params torun =
    let (t, all, agrees) = all_filters_agree lt ip rem torun params in
    (
      t,
      all,
      λ id h.
          let (v, own, ran, _) = agrees id (HasCase-IsEnumerator id h) in
          (v, rw (preprocess-set lt packet ip rem layer, params) (by_id-alone f id h ∙ own), ran),
    )
