-- ===== src/Memhandler/Destroy.antt =====
-- How libcorsaro/libcorsaro_memhandler.c ends, and how it is misused.
use corsaro.Base.{
  false, ℕ, zero, suc, ◌+◌, ◌^◌, ◌≤◌, ◌<◌, ◌≡◌, ◌≢◌, arith, true, Option, none, some, List, [], ◌∷◌,
  length, store, ap, ◌∙◌, ltb, ◌==◌, if◌then◌else◌, ◌&&◌, Option-cases, inl, inr,
}
use native.Mathlib.Decide.{ℕ_discrete}
use corsaro.PriorityQueue.Print.{list_count}
use corsaro.Memhandler.{
  Memsource, State, Fresh, increment, lock, unlock, free_list, free_current,
  destroy_corsaro_memhandler, release_item, release_corsaro_memhandler_item,
}
use corsaro.Memhandler.Ledger.{Held, from}
use corsaro.Memhandler.Valid.{IsFreelist, IsValid, IsFreelist-store}
use corsaro.Memhandler.Reachable.{IsStart, Reachable, Reachable-IsOrdered}

-- The loop frees what stands on the free list, and no other source.
free_list-frees :
    (fuel p : ℕ) (free : List ℕ) (sources : ℕ → Option Memsource)
    → sources 0 ≡ none
    → IsFreelist sources p free
    → ((q : ℕ) → list_count q free ≤ 1)
    → length free ≤ fuel
    → (left : ℕ → Option Memsource) × (free_list fuel p sources ≡ some left)
      × ((q : ℕ) → left q ≡ (if list_count q free == 0 then sources q else none))
unfolding free_list
free_list-frees zero p [] sources null chain once enough =
    (sources, ground (arith, chain), λ q. ground arith)
free_list-frees (suc fuel) p [] sources null chain once enough =
    (sources, ground (arith, chain), λ q. ground arith)
free_list-frees zero p (r ∷ rest) sources null chain once enough = absurd (omega (arith, enough))
free_list-frees (suc fuel) p (r ∷ rest) sources null (e, m, found, chain) once enough =
    let away : list_count r rest ≡ 0 = ground (arith, once r) in
    let (left, run, gone) =
      free_list-frees fuel m.nextfree rest (store sources r none) (ground (arith, null, found))
        (IsFreelist-store sources m.nextfree r none rest away chain) (λ q. ground (arith, once q))
        (omega (arith, enough)) in
    let true_source : r ≢ 0 = λ same. absurd (ground (arith, null, found, same)) in
    (left, ground (arith, e, true_source, found, run), λ q. ground (arith, gone q, away))

-- Of the sources that are not current, those on the free list are those of which nothing is held.
others-frees :
    (s : State) (held : List Held) (free : List ℕ)
    → IsValid s held free
    → (q : ℕ) → q ≢ s.handler.current
    → (if list_count q free == 0 then s.sources q else none)
      ≡ (if from q held == 0 then none else s.sources q)
others-frees s held free v q other = elim (Option-cases (s.sources q)) [
  | inl away ↦ ground (arith, away)
  | inr (m, there) ↦
      let l = v.live q m there in
      elim (ℕ_discrete (from q held) 0) [
        | yes none_held ↦ ground (arith, none_held, l.kept other none_held)
        | no some_held ↦ elim (ℕ_discrete (list_count q free) 0) [
          | yes unlisted ↦ ground (arith, some_held, unlisted)
          | no listed ↦ absurd (some_held (l.unused (omega (arith, listed))))
        ]
      ]
]

-- The current source is freed if none of its items is held.
free_current-frees :
    (s : State) (held : List Held) (free : List ℕ)
    → IsValid s held free
    → (m : Memsource) → s.sources s.handler.current ≡ some m
    → (left : ℕ → Option Memsource) → left s.handler.current ≡ some m
    → (left' : ℕ → Option Memsource) × (free_current s.handler.current left ≡ some left')
      × ((q : ℕ) → left' q ≡ (if q == s.handler.current && from q held == 0 then none else left q))
unfolding free_current
free_current-frees s held free v m found left there =
    let c = s.handler.current in
    let l = v.live c m found in
    elim (ℕ_discrete (from c held) 0) [
      | yes none_held ↦ (
        store left c none,
        ground (arith, there, l.counted, none_held),
        λ q. elim (ℕ_discrete q c) [
          | yes same ↦ ground (arith, same, none_held)
          | no other ↦ ground (arith, other)
        ],
      )
      | no some_held ↦ (
        left,
        ground (arith, there, l.counted, some_held),
        λ q. elim (ℕ_discrete q c) [
          | yes same ↦ ground (arith, same, some_held)
          | no other ↦ ground (arith, other)
        ],
      )
    ]

-- After any calls, also by users who have joined and left, if one user is left, destroy_corsaro_memhandler ends with enough passes for the
-- free list, and frees the handler and exactly the sources of which no item is held.
pub destroy_frees :
    (new : Fresh) (itemsize items pagesize : ℕ) (s : State) (held : List Held) (fuel : ℕ)
    → IsStart new itemsize items pagesize
    → Reachable new itemsize items pagesize s held
    → s.handler.users ≡ 1
    → s.handler.freelistavail ≤ fuel
    → (left : ℕ → Option Memsource) × (destroy_corsaro_memhandler fuel s ≡ some (none, left))
      × ((q : ℕ) → left q ≡ (if from q held == 0 then none else s.sources q))
unfolding destroy_corsaro_memhandler free_current lock unlock
destroy_frees new itemsize items pagesize s held fuel start_ok r last enough =
    let (unlocked, free, v) = Reachable-IsOrdered new itemsize items pagesize start_ok r in
    let h = s.handler in
    let (left, run, gone) =
      free_list-frees fuel h.freelist free s.sources v.null v.chain v.once
        (omega (arith, v.avail, enough)) in
    let (m, found) = v.active in
    let there : left h.current ≡ some m = ground (arith, gone h.current, v.not_free, found) in
    let (left', run', gone') = free_current-frees s held free v m found left there in
    (
      left',
      ground (arith, unlocked, last, run, run'),
      λ q. elim (ℕ_discrete q h.current) [
        | yes same ↦
            ground (arith, same, gone' q, gone q, ap (λ q. list_count q free) same ∙ v.not_free)
        | no other ↦ gone' q ∙ ground (arith, other, gone q, others-frees s held free v q other)
      ],
    )

-- Where as many items of a source have come back as a blob has, and the lock is free, taking back one
-- more unlocks the lock twice, which is a fault.
pub release_twice_faults :
    (s : State) (p : ℕ) (m : Memsource)
    → s.locked ≡ false
    → s.sources p ≡ some m
    → s.handler.items_per_blob ≤ m.released
    → m.released + 1 < 2 ^ 32
    → release_corsaro_memhandler_item p s ≡ none
unfolding release_corsaro_memhandler_item release_item lock unlock
release_twice_faults s p m unheld found many small =
    let over : ltb s.handler.items_per_blob (increment m.released) ≡ true =
      ground (arith, many, small) in
    ground (arith, unheld, found, over)
