-- ===== src/Merger/Loop.antt =====
-- The second loop of run_merger in corsaroftmerge/corsaroftmerge.c.
use corsaro.Base.{
  ℕ, zero, suc, ◌+◌, ◌≤◌, ◌<◌, ◌≡◌, ◌∙◌, arith, Bool, true, Option, none, some, List, [], ◌∷◌, map,
  store, inl, inr,
}
use native.Mathlib.Decide.{ℕ_discrete}
use corsaro.PriorityQueue.{Pqueue, pqueue_pop}
use corsaro.PriorityQueue.Heap.{count1, held}
use corsaro.PriorityQueue.Remove.{pqueue_pop_correct}
use corsaro.PriorityQueue.Print.{list_count, held-empty, Held-member, Removed-held}
use corsaro.Merger.{MergerFt, Reply, arrived, merged, cmp, enqueue, merge_loop, advance, receive}
use corsaro.Merger.Order.{key, key_leb_trans, above, cmp-IsPriority}
use corsaro.Merger.Collapse.{collapse, IsChain, IsSorted}
use corsaro.Merger.Invariant.{IsReady, pop-IsReady}
use corsaro.Merger.Absorb.{absorb}
use corsaro.Merger.Setup.{budget}

-- Where the record x stands above all that the queue and the sockets still hold, and the rest is in
-- order, all is.
IsChain-count :
    (mem : ℕ → MergerFt) (x : ℕ) (ps : List ℕ)
    → ((y : ℕ) → 1 ≤ list_count y ps → above mem x y ≡ true)
    → IsSorted (map mem ps)
    → IsChain (key (mem x).ft) (map mem ps)
IsChain-count mem x [] h s = tt
IsChain-count mem x (p ∷ ps) h s =
    let self : count1 p p ≡ 1 = ground arith in (h p (omega (arith, self)), s)

module _ (allocated : Bool) (mem : ℕ → MergerFt) (N : ℕ) where
  -- The records in the order in which the second loop pops them.
  abbrev pub Popping : ℕ → Pqueue → (ℕ → List Reply) → (ℕ → List ℕ) → Option MergerFt → Type 0
  Popping fuel pq insocks R prev =
      (popped : List ℕ) × (merge_loop allocated mem fuel pq insocks prev
        ≡ (merged, collapse prev (map mem popped)))
      × IsSorted (map mem popped)
      × ((y : ℕ) → list_count y popped ≡ held pq y + list_count y (R (mem y).source))

  -- A queue that is empty: the sockets have nothing to send.
  nothing-left :
      (pq : Pqueue) (insocks : ℕ → List Reply) (R : ℕ → List ℕ)
      → IsReady mem N N N pq insocks R
      → pq.size ≡ 1
      → (y : ℕ) → 0 ≡ held pq y + list_count y (R (mem y).source)
  nothing-left pq insocks R v e y = elim (ℕ_discrete (list_count y (R (mem y).source)) 0) [
    | yes none_left ↦ omega (arith, none_left, held-empty pq y e)
    | no some_left ↦
        let i = (mem y).source in
        let inside = v.within i y (omega arith) in
        let (x, there, _, _) = v.covered i y inside (omega arith) (omega arith) in
        absurd (omega (arith, there, held-empty pq x e))
  ]

  -- A popped record stands above all that the queue and the sockets hold.
  popped-above :
      (pq : Pqueue) (insocks : ℕ → List Reply) (R : ℕ → List ℕ) (x : ℕ)
      → IsReady mem N N N pq insocks R
      → ((j : ℕ) → 1 ≤ j → j < pq.size → above mem x (pq.cells.d j) ≡ true)
      → (y : ℕ) → 1 ≤ held pq y + list_count y (R (mem y).source)
      → above mem x y ≡ true
  popped-above pq insocks R x v first y h = elim (ℕ_discrete (held pq y) 0) [
    | no there ↦ Held-member (λ z. above mem x z ≡ true) pq y first (omega arith)
    | yes away ↦
        let i = (mem y).source in
        let inside = v.within i y (omega arith) in
        let (z, there, _, up) = v.covered i y inside (omega arith) (omega arith) in
        key_leb_trans (key (mem x).ft) (key (mem z).ft) (key (mem y).ft)
          (Held-member (λ z. above mem x z ≡ true) pq z first there) up
  ]

  merge_loop-none :
      (fuel : ℕ) (pq : Pqueue) (insocks : ℕ → List Reply) (prev : Option MergerFt)
      → pqueue_pop (cmp mem) pq ≡ (none, pq)
      → merge_loop allocated mem (suc fuel) pq insocks prev ≡ (merged, collapse prev [])
  unfolding merge_loop collapse
  merge_loop-none fuel pq insocks prev e = rw (e, merge_loop)

  merge_loop-some :
      (fuel : ℕ) (pq : Pqueue) (insocks : ℕ → List Reply) (prev : Option MergerFt) (x : ℕ)
      (m : Option ℕ) (rest : List Reply) (xs : List MergerFt)
      → (pqueue_pop (cmp mem) pq).0 ≡ some x
      → receive (insocks (mem x).source) ≡ arrived m rest
      → merge_loop allocated mem fuel
          (enqueue allocated mem m (pqueue_pop (cmp mem) pq).1)
          (store insocks (mem x).source rest)
          (some (advance prev (mem x)).0)
        ≡ (merged, collapse (some (advance prev (mem x)).0) xs)
      → merge_loop allocated mem (suc fuel) pq insocks prev ≡ (merged, collapse prev (mem x ∷ xs))
  unfolding merge_loop collapse
  merge_loop-some fuel pq insocks prev x m rest xs e got ih = rw (e, got, ih, merge_loop)

  pub merge_loop-Popping :
      (fuel : ℕ) (pq : Pqueue) (insocks : ℕ → List Reply) (R : ℕ → List ℕ) (prev : Option MergerFt)
      → IsReady mem N N N pq insocks R
      → pq.size ≤ suc N
      → N < pq.avail
      → budget N pq R ≤ fuel
      → Popping fuel pq insocks R prev
  unfolding merge_loop collapse
  merge_loop-Popping zero pq insocks R prev v small room enough =
      absurd (omega (arith, v.valid.sized))
  merge_loop-Popping (suc fuel) pq insocks R prev v small room enough =
      let pq' = (pqueue_pop (cmp mem) pq).1 in
      let ih = merge_loop-Popping fuel in
      elim (pqueue_pop_correct (cmp mem) (above mem) (cmp-IsPriority mem) pq v.valid) [
        | inl (one, e) ↦
            ([], merge_loop-none fuel pq insocks prev e, tt, nothing-left pq insocks R v one)
        | inr (x, _, e, removed, smaller, kept, first) ↦
            let there = Removed-held (above mem) (λ y. Unit) pq x pq' removed in
            let s = (mem x).source in
            let (m, rest, got, a) =
              absorb allocated s (pop-IsReady x pq' v removed there) (v.started x there)
                (omega arith) (v.more x there) (v.left x there) (omega arith) (omega arith) in
            let (popped, run, ordered, counts) =
              ih (enqueue allocated mem m pq') (store insocks s rest) a.R'
                (some (advance prev (mem x)).0) a.ready (omega (arith, a.size))
                (omega (arith, a.avail)) (omega (arith, a.budget)) in
            let all = λ (y : ℕ). counts y ∙ a.counts y in
            (
              x ∷ popped,
              merge_loop-some fuel pq insocks prev x m rest (map mem popped) e got run,
              IsChain-count mem x popped
                  (λ y h. popped-above pq insocks R x v first y (omega (arith, all y, removed.1 y)))
                  ordered,
              (λ y. omega (arith, all y, removed.1 y)),
            )
      ]
