-- ===== src/Filtering/ById/Multiple.antt =====
-- corsaro_apply_multiple_filters of libcorsaro/libcorsaro_filtering.c against the filters on
-- their own.
use corsaro.Base.{
  ℕ, ◌≡◌, ◌≢◌, refl, sym, ◌∙◌, arith, Bool, true, false, Option, some, List, [], ◌∷◌, ◌++◌, ◌==◌,
  if◌then◌else◌, ◌>>=◌, ap, some-inj, bind-some, Bool-cases, inl, inr,
}
use corsaro.Filtering.Params.{set_filter_params}
use corsaro.Filtering.Params.Faults.{set_filter_params-ip}
use corsaro.Filtering.Packet.{
  IpHeader, Libtrace, FilterParams, Verdict, clear, matched, is_positive, to_u8,
}
use corsaro.Filtering.Compound.{
  apply_spoofing_filter, apply_erratic_filter, erratic-spoofed, erratic-unspoofed,
}
use corsaro.Filtering.Ids.{
  FilterId, bittorrent, udp_0x31, sip_status, dns_resp_nonstandard, netbios_query_name, spoofed,
  erratic, unknown, IsEnumerator,
}
use corsaro.Filtering.ApplyAll.{ToRun}
use corsaro.Filtering.Agreement.{alone, alone_runs}
use corsaro.Filtering.ById.{
  stores, no_callback, Case, Status, failed, done, multiple_case, multiple_loop, apply_multiple,
  corsaro_apply_multiple_filters, by_id_case, apply_by_id,
}

-- A filter with a case returns what the filter on its own returns.
plain_case :
    (f : FilterParams) (state : ℕ) (id : FilterId)
    → IsEnumerator id
    → id ≢ spoofed
    → id ≢ erratic
    → multiple_case f state id ≡ (alone f id >>= λ r. some (stores r state))
unfolding multiple_case alone by_id_case
plain_case f state spoofed k a b = absurd (a refl)
plain_case f state erratic k a b = absurd (b refl)
plain_case f state (unknown i) k a b = absurd k
plain_case f state _ k a b = refl

-- Whether a filter may stand at a place of the list: an enumerator, and `erratic` only behind
-- `spoofed`.
abbrev pub Allowed : FilterId → Bool → Type 0
Allowed erratic seen = seen ≡ true
Allowed (unknown i) seen = ⊥
Allowed _ seen = Unit

abbrev pub seen_after : FilterId → Bool → Bool
seen_after spoofed seen = true
seen_after _ seen = seen

abbrev pub SpoofedFirst : Bool → List ToRun → Type 0
SpoofedFirst seen [] = Unit
SpoofedFirst seen (t ∷ ts) = Allowed t.filterid seen × SpoofedFirst (seen_after t.filterid seen) ts

-- The entries of the second list have the identifiers of the first and the verdicts of the filters
-- on their own.
abbrev pub Answered : FilterParams → List ToRun → List ToRun → Type 0
Answered f [] [] = Unit
Answered f [] (t' ∷ ts') = ⊥
Answered f (t ∷ ts) [] = ⊥
Answered f (t ∷ ts) (t' ∷ ts') =
    (t'.filterid ≡ t.filterid)
    × ((v : Verdict) × (alone f t.filterid ≡ some v) × (t'.result ≡ to_u8 v))
    × Answered f ts ts'

-- `spoofedstate` once `spoofed` has run or not.
abbrev state_of : FilterParams → Bool → ℕ
state_of f seen = if seen then if is_positive (apply_spoofing_filter f) then 1 else 0 else 255

spoofing_state :
    (f : FilterParams)
    → ◌≡◌ {A = ℕ}
        (if to_u8 (apply_spoofing_filter f) == 0 then 0 else 1)
        (if is_positive (apply_spoofing_filter f) then 1 else 0)
unfolding apply_spoofing_filter
spoofing_state f = ground arith

-- With the spoofing check done, the erratic filter needs it no more.
erratic_case :
    (f : FilterParams) {v : Verdict}
    → apply_erratic_filter f true ≡ some v
    → multiple_case f (if is_positive (apply_spoofing_filter f) then 1 else 0) erratic
      ≡ some (stores v (if is_positive (apply_spoofing_filter f) then 1 else 0))
unfolding multiple_case
erratic_case f e = elim (Bool-cases (is_positive (apply_spoofing_filter f))) [
  | inl p ↦ rw p (cc (e, erratic-spoofed f p))
  | inr p ↦ rw (p, ← erratic-unspoofed f p, e) refl
]

spoofed_alone : (f : FilterParams) → alone f spoofed ≡ some (apply_spoofing_filter f)
unfolding alone by_id_case
spoofed_alone f = refl

erratic_alone : (f : FilterParams) → alone f erratic ≡ apply_erratic_filter f true
unfolding alone by_id_case
erratic_alone f = refl

spoofed_case :
    (f : FilterParams) (state : ℕ)
    → multiple_case f state spoofed
      ≡ some (
          stores (apply_spoofing_filter f) (if is_positive (apply_spoofing_filter f) then 1 else 0))
unfolding multiple_case
spoofed_case f state = rw (spoofing_state f)

module _ (f : FilterParams)
    (runs : (id : FilterId) → IsEnumerator id → (v : Verdict) × (alone f id ≡ some v)) where
  -- One round of the loop.
  case_agrees :
      (id : FilterId) (seen : Bool)
      → Allowed id seen
      → (v : Verdict) × (multiple_case f (state_of f seen) id
          ≡ some (stores v (state_of f (seen_after id seen))))
        × (alone f id ≡ some v)
  case_agrees spoofed seen a = (_, spoofed_case f (state_of f seen), spoofed_alone f)
  case_agrees erratic true a =
      let (v, e) = runs erratic tt in (v, erratic_case f (sym (erratic_alone f) ∙ e), e)
  case_agrees erratic false a = cc
  case_agrees (unknown i) seen a = absurd a
  case_agrees id seen a =
      let (v, e) = runs id tt in
      (v, rw (plain_case f (state_of f seen) id tt (λ c. cc) (λ c. cc), e) refl, e)

  loop_agrees :
      (seen : Bool) (ts : List ToRun)
      → SpoofedFirst seen ts
      → (ts' : List ToRun) × (multiple_loop f (state_of f seen) ts ≡ some (ts', done))
        × Answered f ts ts'
  unfolding multiple_loop
  loop_agrees seen [] a = ([], refl, tt)
  loop_agrees seen (t ∷ ts) a =
      let (v, ran, own) = case_agrees t.filterid seen a.0 in
      let (ts', rest, answered) = loop_agrees (seen_after t.filterid seen) ts a.1 in
      (record t { result = to_u8 v } ∷ ts', rw (ran, rest) refl, (refl, (v, own, refl), answered))

-- For an IP header whose packet _set_filter_params can take apart without a fault, and a list of
-- enumerators in which `erratic` stands only behind `spoofed`, corsaro_apply_multiple_filters returns
-- 0 and stores the verdict of each filter on its own.
pub multiple_filters_agree :
    (lt : Libtrace) (ip : IpHeader) (iprem : ℕ) {f : FilterParams} (ts : List ToRun)
    → set_filter_params lt (some ip) iprem ≡ some f
    → SpoofedFirst false ts
    → (ts' : List ToRun) × (corsaro_apply_multiple_filters lt (some ip) iprem ts ≡ some (ts', done))
      × Answered f ts ts'
unfolding corsaro_apply_multiple_filters apply_multiple
multiple_filters_agree lt ip iprem {f} ts params a =
    let runs = alone_runs f (set_filter_params-ip lt (some ip) iprem params) in
    rw params (loop_agrees f runs false ts a)

abbrev pub NoSpoofed : List ToRun → Type 0
NoSpoofed [] = Unit
NoSpoofed (t ∷ ts) = (t.filterid ≢ spoofed) × NoSpoofed ts

-- Only `spoofed` changes the state.
case_keeps :
    (f : FilterParams) (state : ℕ) (id : FilterId) {r : Verdict} {state' : ℕ}
    → id ≢ spoofed
    → multiple_case f state id ≡ some (stores r state')
    → state' ≡ state
unfolding multiple_case
case_keeps f state spoofed a e = absurd (a refl)
case_keeps f state erratic a e = ground (arith, e)
case_keeps f state (unknown i) a e = absurd (ground (arith, e))
case_keeps f state bittorrent a e = ground (arith, e)
case_keeps f state udp_0x31 a e = ground (arith, e)
case_keeps f state sip_status a e = ground (arith, e)
case_keeps f state dns_resp_nonstandard a e = ground (arith, e)
case_keeps f state netbios_query_name a e = ground (arith, e)
case_keeps f state _ a e = ground (arith, e)

-- What a run of a list that is not empty did first.
loop_first :
    (f : FilterParams) (state : ℕ) (t : ToRun) (ts : List ToRun) {ts' : List ToRun}
    → multiple_loop f state (t ∷ ts) ≡ some (ts', done)
    → (r : Verdict) × (state' : ℕ) × (rest : List ToRun) × (multiple_case f state t.filterid
        ≡ some (stores r state'))
      × (multiple_loop f state' ts ≡ some (rest, done))
      × (ts' ≡ record t { result = to_u8 r } ∷ rest)
unfolding multiple_loop
loop_first f state t ts {ts'} e =
    let (c, ran, e1) = bind-some (multiple_case f state t.filterid) _ e in from_case c ran e1
  where
    from_case :
        (c : Case)
        → multiple_case f state t.filterid ≡ some c
        → ◌≡◌ {A = Option (List ToRun × Status)}
            (elim c [
              | no_callback ↦ some (t ∷ ts, failed)
              | stores r state' ↦ multiple_loop f state' ts >>= λ (rest, status).
                  some (record t { result = to_u8 r } ∷ rest, status)
            ])
            (some (ts', done))
        → (r : Verdict) × (state' : ℕ) × (rest : List ToRun) × (multiple_case f state t.filterid
            ≡ some (stores r state'))
          × (multiple_loop f state' ts ≡ some (rest, done))
          × (ts' ≡ record t { result = to_u8 r } ∷ rest)
    from_case no_callback ran e1 = absurd (ground (arith, e1))
    from_case (stores r state') ran e1 =
        let ((rest, status), got, made) = bind-some (multiple_loop f state' ts) _ e1 in
        let ended : status ≡ done = ap (λ (p : List ToRun × Status). p.1) (some-inj made) in
        let same = ap (λ (p : List ToRun × Status). p.0) (some-inj made) in
        (r, state', rest, ran, got ∙ ap (λ x. some (rest, x)) ended, sym same)

-- A list without `spoofed` that runs leaves the state to what stands behind it.
loop_append :
    (f : FilterParams) (state : ℕ) (pre ts : List ToRun) {pre' : List ToRun}
    {rest : List ToRun × Status}
    → NoSpoofed pre
    → multiple_loop f state pre ≡ some (pre', done)
    → multiple_loop f state ts ≡ some rest
    → multiple_loop f state (pre ++ ts) ≡ some (pre' ++ rest.0, rest.1)
unfolding multiple_loop
loop_append f state [] ts {pre'} {rest} a e e' =
    e' ∙ ap (λ (p : List ToRun × Status). some (p.0 ++ rest.0, rest.1)) (some-inj e)
loop_append f state (t ∷ pre) ts {pre'} {rest} a e e' =
    let (r, state', pre'', ran, run, made) = loop_first f state t pre e in
    let keeps = case_keeps f state t.filterid a.0 ran in
    let ran' = ran ∙ ap (λ x. some (stores r x)) keeps in
    let run' = ap (λ x. multiple_loop f x pre) (sym keeps) ∙ run in
    let more = loop_append f state pre ts a.1 run' e' in rw (ran', more, made) refl

-- An `erratic` with no `spoofed` before it is not given the spoofing check: for a packet that only
-- that check finds erratic, where the entries before it run, each with a case, and those behind it
-- run, 0 is stored for it, where corsaro_apply_filter_by_id returns 1 for a packet taken apart in
-- that way. The entries before it and behind it are answered as if it were not there.
pub multiple_filters_erratic_first :
    (f : FilterParams) (r : ℕ) (pre ts : List ToRun) {pre' : List ToRun}
    {rest : List ToRun × Status}
    → NoSpoofed pre
    → is_positive (apply_spoofing_filter f) ≡ true
    → apply_erratic_filter f false ≡ some clear
    → apply_multiple f pre ≡ some (pre', done)
    → apply_multiple f ts ≡ some rest
    → (apply_multiple f (pre ++ (record { filterid = erratic; result = r } ∷ ts))
        ≡ some (pre' ++ (record { filterid = erratic; result = 0 } ∷ rest.0), rest.1))
      × (apply_by_id f erratic ≡ some matched)
unfolding apply_multiple multiple_loop multiple_case apply_by_id by_id_case
multiple_filters_erratic_first f r pre ts a p c e e' =
    let behind : multiple_loop f 255 (record { filterid = erratic; result = r } ∷ ts) ≡ _ =
      rw (c, e') refl in
    (loop_append f 255 pre _ a e behind, erratic-spoofed f p)
