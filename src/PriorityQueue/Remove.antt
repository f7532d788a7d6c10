-- ===== src/PriorityQueue/Remove.antt =====
-- pqueue_pop and pqueue_remove of libcorsaro/pqueue.c.
use corsaro.Base.{
  ℕ, zero, suc, ◌+◌, ◌-◌, ◌≤◌, ◌<◌, ◌≡◌, ◌≢◌, ◌⊎◌, refl, sym, ◌∙◌, ap, subst, arith, Bool, true,
  false, Option, none, some, ◌==◌, store, Bool-cases, inl, inr,
}
use native.Mathlib.Decide.{ℕ_discrete}
use corsaro.PriorityQueue.{
  Cells, Pqueue, parent, bubble_up, percolate_down, pqueue_pop, pqueue_remove,
}
use corsaro.PriorityQueue.Order.{IsPriority}
use corsaro.PriorityQueue.Heap.{
  IsHeap, IsValid, count, count1, count-store, count-store_out, count-top, count-slot, held,
}
use corsaro.PriorityQueue.Heap.Up.{Sifted, bubble_up_sifts}
use corsaro.PriorityQueue.Heap.Down.{percolate_down_sifts}

root_first_below :
    (cmppri above : ℕ → ℕ → Bool)
    → IsPriority cmppri above
    → (d : ℕ → ℕ) (size k i : ℕ) → IsHeap above d size
    → i < k
    → 1 ≤ i
    → i < size
    → above (d 1) (d i) ≡ true
root_first_below cmppri above order d size zero i h f p r = absurd (omega arith)
root_first_below cmppri above order d size (suc k) i h f p r = ground (
  arith,
  h i,
  order.yes (d 1) (d 1),
  order.no (d 1) (d 1),
  order.trans (d 1) (d (parent i)) (d i),
  order.trans (d 1) (d 1) (d 1),
  root_first_below cmppri above order d size k (parent i) h,
)

-- The root of a heap may stand above every element.
pub root_first :
    (cmppri above : ℕ → ℕ → Bool)
    → IsPriority cmppri above
    → (d : ℕ → ℕ) (size i : ℕ) → IsHeap above d size
    → 1 ≤ i
    → i < size
    → above (d 1) (d i) ≡ true
root_first cmppri above order d size i h p r =
    root_first_below cmppri above order d size (suc i) i h (omega arith) p r

module _ (cmppri above : ℕ → ℕ → Bool) (order : IsPriority cmppri above) (q : Pqueue)
    (valid : IsValid above q) (i : ℕ) (low : 1 ≤ i) (high : i < q.size) where
  -- The array without the element in slot `i`: the last one takes its slot.
  abbrev cut : Cells
  cut = record q.cells { d = store q.cells.d i (q.cells.d (q.size - 1)) }

  cut_count : (y : ℕ) → count y cut.d (q.size - 1 - 1) + count1 y (q.cells.d i) ≡ held q y
  cut_count y =
      let n = q.size - 1 in
      let top = count-top y q.cells.d n (n - 1) (omega arith) in
      elim (ℕ_discrete i n) [
        | yes e ↦ omega (
          arith,
          top,
          count-store_out y q.cells.d i (q.cells.d n) (n - 1) (omega arith),
          ap (λ k. count1 y (q.cells.d k)) e,
        )
        | no e ↦
            omega (arith, top, count-store y q.cells.d i (q.cells.d n) (n - 1) low (omega arith))
      ]

  cut_placed : (j : ℕ) → 1 ≤ j → j < q.size - 1 → j ≢ i → cut.pos (cut.d j) ≡ j
  cut_placed j p r s = ground (arith, valid.placed j)

  cut_distinct : (j : ℕ) → 1 ≤ j → j < q.size - 1 → j ≢ i → cut.d j ≢ cut.d i
  cut_distinct j p r s = ground (arith, valid.placed j, valid.placed (q.size - 1))

  -- A sift of that array gives a valid queue without one element.
  abbrev Without : Cells → Type 0
  Without c =
      IsValid above (record q { size = q.size - 1; cells = c })
      × ((y : ℕ) → count y c.d (q.size - 1 - 1) + count1 y (q.cells.d i) ≡ held q y)

  Sifted-Without : (c : Cells) → 1 ≤ q.size - 1 → Sifted above (q.size - 1) cut c → Without c
  Sifted-Without c h s = (
    record {
      sized = h;
      fits = omega (arith, valid.fits);
      grows = valid.grows;
      heap = s.heap;
      placed = s.placed;
    },
    (λ y. omega (arith, s.same y, cut_count y)),
  )

  -- The last element may not stand above what was there: it sinks.
  percolated :
      (i ≡ 1) ⊎ (cmppri (q.cells.d i) (q.cells.d (q.size - 1)) ≡ false)
      → Without (percolate_down cmppri cut (q.size - 1) i)
  percolated why = Sifted-Without _ (omega arith) (
      percolate_down_sifts cmppri above order (q.size - 1) cut i
        (record {
          inside = low;
          edges = λ c p r s. ground (
            arith,
            valid.heap c,
            order.no (q.cells.d i) (q.cells.d (q.size - 1)),
            order.trans (q.cells.d (parent i)) (q.cells.d i) (q.cells.d (q.size - 1)),
            valid.heap i,
          );
          bridged = λ c p r s t. ground (
            arith,
            valid.heap i,
            valid.heap c,
            order.trans (q.cells.d (parent i)) (q.cells.d i) (q.cells.d c),
          );
        })
        cut_placed cut_distinct)

  -- Otherwise it rises.
  bubbled :
      i < q.size - 1
      → cmppri (q.cells.d i) (q.cells.d (q.size - 1)) ≡ true
      → Without (bubble_up cmppri cut i)
  bubbled inside rises = Sifted-Without _ (omega arith) (
      bubble_up_sifts cmppri above order (q.size - 1) cut i inside
        (record {
          inside = low;
          edges = λ c p r s. ground (
            arith,
            valid.heap c,
            order.yes (q.cells.d i) (q.cells.d (q.size - 1)),
            order.no (q.cells.d i) (q.cells.d (q.size - 1)),
            order.trans (q.cells.d (q.size - 1)) (q.cells.d i) (q.cells.d c),
          );
          bridged = λ c p r s t. ground (
            arith,
            valid.heap i,
            valid.heap c,
            order.trans (q.cells.d (parent i)) (q.cells.d i) (q.cells.d c),
          );
        })
        cut_placed cut_distinct)

-- `q'` is a valid queue of the elements of `q` without one `x`.
abbrev pub Removed : (ℕ → ℕ → Bool) → Pqueue → ℕ → Pqueue → Type 0
Removed above q x q' = IsValid above q' × ((y : ℕ) → held q' y + count1 y x ≡ held q y)

-- What pqueue_pop did: it returned NULL on an empty queue and changed nothing, or it removed an
-- element that may stand above every element of the queue.
abbrev pub Popped : (ℕ → ℕ → Bool) → Pqueue → Option ℕ × Pqueue → Type 0
Popped above q r =
    ((q.size ≡ 1) × (r ≡ (none, q)))
    ⊎ ((x : ℕ) × (1 < q.size)
        × (r.0 ≡ some x)
        × Removed above q x r.1
        × (r.1.size + 1 ≡ q.size)
        × (r.1.avail ≡ q.avail)
        × ((j : ℕ) → 1 ≤ j → j < q.size → above x (q.cells.d j) ≡ true))

-- Popping from a valid queue under a priority order.
pub pqueue_pop_correct :
    (cmppri above : ℕ → ℕ → Bool)
    → IsPriority cmppri above
    → (q : Pqueue) → IsValid above q
    → Popped above q (pqueue_pop cmppri q)
unfolding pqueue_pop
pqueue_pop_correct cmppri above order q valid = elim (Bool-cases (q.size == 1)) [
  | inl empty ↦ rw empty (inl (ground arith, refl))
  | inr more ↦
      let high : 1 < q.size = ground (arith, valid.sized) in
      rw more (
        inr (
          q.cells.d 1,
          high,
          refl,
          percolated cmppri above order q valid 1 (omega arith) high (inl refl),
          omega arith,
          refl,
          (λ j p r. root_first cmppri above order q.cells.d q.size j valid.heap p r),
        ))
]

-- An element before which the last one is to stand is not the last one.
below_last :
    (cmppri : ℕ → ℕ → Bool) (q : Pqueue) (i : ℕ)
    → i < q.size
    → (i + 1 ≢ q.size) ⊎ (cmppri (q.cells.d i) (q.cells.d i) ≡ false)
    → cmppri (q.cells.d i) (q.cells.d (q.size - 1)) ≡ true
    → i < q.size - 1
below_last cmppri q i high (inl inner) up = omega (arith, inner)
below_last cmppri q i high (inr strict) up = elim (ℕ_discrete i (q.size - 1)) [
  | yes last ↦
      absurd (ground (arith, strict, up, ap (λ k. cmppri (q.cells.d i) (q.cells.d k)) last))
  | no inner ↦ omega (arith, inner)
]

remove_slot :
    (cmppri above : ℕ → ℕ → Bool)
    → IsPriority cmppri above
    → (q : Pqueue) (i : ℕ) → IsValid above q
    → 1 ≤ i
    → i < q.size
    → (i + 1 ≢ q.size) ⊎ (cmppri (q.cells.d i) (q.cells.d i) ≡ false)
    → Removed above q (q.cells.d i) (pqueue_remove cmppri q (q.cells.d i))
unfolding pqueue_remove
remove_slot cmppri above order q i valid low high apart =
    let self : (i == i) ≡ true = ground arith in
    let last = q.cells.d (q.size - 1) in
    elim (Bool-cases (cmppri (q.cells.d i) (store q.cells.d i last i))) [
      | inl rises ↦
          let up : cmppri (q.cells.d i) last ≡ true = rw self at rises in
          let inside : i < q.size - 1 = below_last cmppri q i high apart up in
          rw (valid.placed i low high, rises)
            (bubbled cmppri above order q valid i low high inside up)
      | inr sinks ↦
          rw (valid.placed i low high, sinks)
            (percolated cmppri above order q valid i low high (inr (rw self at sinks)))
    ]

-- Removing an element that a valid queue holds, under a priority order, leaves a valid queue of the
-- other elements, if the element is not in the last slot of the heap or the callback is false of it
-- and itself.
pub pqueue_remove_correct :
    (cmppri above : ℕ → ℕ → Bool)
    → IsPriority cmppri above
    → (q : Pqueue) (x : ℕ) → IsValid above q
    → 1 ≤ held q x
    → (q.cells.pos x + 1 ≢ q.size) ⊎ (cmppri x x ≡ false)
    → Removed above q x (pqueue_remove cmppri q x)
pqueue_remove_correct cmppri above order q x valid holds apart =
    let (i, low, high, at) = count-slot x q.cells.d (q.size - 1) holds in
    let at_i : q.cells.pos x ≡ i = ap q.cells.pos (sym at) ∙ valid.placed i low (omega arith) in
    let apart' =
      subst (λ y. (i + 1 ≢ q.size) ⊎ (cmppri y y ≡ false)) (sym at)
        (subst (λ k. (k + 1 ≢ q.size) ⊎ (cmppri x x ≡ false)) at_i apart) in
    subst (λ y. Removed above q y (pqueue_remove cmppri q y)) at
      (remove_slot cmppri above order q i valid low (omega arith) apart')
