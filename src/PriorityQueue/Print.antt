-- ===== src/PriorityQueue/Print.antt =====
-- pqueue_print of libcorsaro/pqueue.c empties a copy of the queue in priority order.
use corsaro.Base.{
  ℕ, zero, suc, ◌+◌, ◌-◌, ◌≤◌, ◌<◌, ◌≡◌, ◌≢◌, refl, subst, arith, Bool, true, none, some, List, [],
  ◌∷◌, inl, inr,
}
use corsaro.PriorityQueue.{Pqueue, pqueue_pop, print_loop, pqueue_print}
use corsaro.PriorityQueue.Order.{IsPriority}
use corsaro.PriorityQueue.Heap.{IsValid, count, count1, count-absent, count-slot, held}
use corsaro.PriorityQueue.Remove.{Removed, pqueue_pop_correct}

abbrev pub list_count : ℕ → List ℕ → ℕ
list_count x [] = 0
list_count x (y ∷ ys) = count1 x y + list_count x ys

abbrev pub All : (ℕ → Type 0) → List ℕ → Type 0
All P [] = Unit
All P (x ∷ xs) = P x × All P xs

-- Every element may stand above all that follow it.
abbrev pub IsOrdered : (ℕ → ℕ → Bool) → List ℕ → Type 0
IsOrdered above [] = Unit
IsOrdered above (x ∷ xs) = All (λ y. above x y ≡ true) xs × IsOrdered above xs

pub held-empty : (q : Pqueue) (y : ℕ) → q.size ≡ 1 → 0 ≡ held q y
unfolding count
held-empty q y e = rw e refl

abbrev Held : (ℕ → Type 0) → Pqueue → Type 0
Held P q = (j : ℕ) → 1 ≤ j → j < q.size → P (q.cells.d j)

pub Held-member : (P : ℕ → Type 0) (q : Pqueue) (y : ℕ) → Held P q → 1 ≤ held q y → P y
Held-member P q y h there =
    let (i, p, r, at) = count-slot y q.cells.d (q.size - 1) there in
    subst P at (h i p (omega arith))

module _ (above : ℕ → ℕ → Bool) (P : ℕ → Type 0) (q : Pqueue) (x : ℕ) (q' : Pqueue)
    (removed : Removed above q x q') where
  pub Removed-held : 1 ≤ held q x
  Removed-held = let one : count1 x x ≡ 1 = ground arith in omega (arith, removed.1 x)

  Removed-Held : Held P q → Held P q'
  Removed-Held h j low high =
      let y = q'.cells.d j in
      let there : count y q'.cells.d (q'.size - 1) ≢ 0 =
        λ e. count-absent y q'.cells.d (q'.size - 1) j e low (omega arith) refl in
      Held-member P q y h (omega (arith, removed.1 y))

-- One round of the loop.
print_loop-none :
    (cmppri : ℕ → ℕ → Bool) (fuel : ℕ) (q : Pqueue)
    → pqueue_pop cmppri q ≡ (none, q)
    → print_loop cmppri (suc fuel) q ≡ []
unfolding print_loop
print_loop-none cmppri fuel q e = rw (e, print_loop)

print_loop-some :
    (cmppri : ℕ → ℕ → Bool) (fuel : ℕ) (q : Pqueue) {x : ℕ}
    → (pqueue_pop cmppri q).0 ≡ some x
    → print_loop cmppri (suc fuel) q ≡ x ∷ print_loop cmppri fuel (pqueue_pop cmppri q).1
unfolding print_loop
print_loop-some cmppri fuel q e = rw (e, print_loop)

module _ (cmppri above : ℕ → ℕ → Bool) (order : IsPriority cmppri above) where
  print_loop-All :
      (P : ℕ → Type 0) (fuel : ℕ) (q : Pqueue)
      → IsValid above q
      → Held P q
      → All P (print_loop cmppri fuel q)
  unfolding print_loop
  print_loop-All P zero q valid h = tt
  print_loop-All P (suc fuel) q valid h =
      let rest = λ (removed : IsValid above (pqueue_pop cmppri q).1).
        print_loop-All P fuel (pqueue_pop cmppri q).1 removed in
      elim (pqueue_pop_correct cmppri above order q valid) [
        | inl (_, e) ↦ rw (print_loop-none cmppri fuel q e) tt
        | inr (x, _, e, removed, _, _, _) ↦ rw (print_loop-some cmppri fuel q e) (
          Held-member P q x h (Removed-held above P q x (pqueue_pop cmppri q).1 removed),
          rest removed.0 (Removed-Held above P q x (pqueue_pop cmppri q).1 removed h),
        )
      ]

  print_loop_sorts :
      (fuel : ℕ) (q : Pqueue)
      → IsValid above q
      → q.size ≤ fuel
      → IsOrdered above (print_loop cmppri fuel q)
        × ((y : ℕ) → list_count y (print_loop cmppri fuel q) ≡ held q y)
  unfolding print_loop
  print_loop_sorts zero q valid f = absurd (omega (arith, valid.sized))
  print_loop_sorts (suc fuel) q valid f =
      let q' = (pqueue_pop cmppri q).1 in
      let ih = λ (v : IsValid above q') (g : q'.size ≤ fuel). print_loop_sorts fuel q' v g in
      elim (pqueue_pop_correct cmppri above order q valid) [
        | inl (one, e) ↦ rw (print_loop-none cmppri fuel q e) (tt, (λ y. held-empty q y one))
        | inr (x, _, e, removed, smaller, _, first) ↦
            let (ordered, counts) = ih removed.0 (omega arith) in
            rw (print_loop-some cmppri fuel q e) (
              (
                print_loop-All (λ y. above x y ≡ true) fuel q' removed.0
                    (Removed-Held above (λ y. above x y ≡ true) q x q' removed first),
                ordered,
              ),
              (λ y. omega (arith, counts y, removed.1 y)),
            )
      ]

-- pqueue_print on a valid queue under a priority order prints every element as often as the queue
-- holds it, and none before one that may not stand under it.
pub pqueue_print_sorts :
    (cmppri above : ℕ → ℕ → Bool)
    → IsPriority cmppri above
    → (q : Pqueue) → IsValid above q
    → IsOrdered above (pqueue_print cmppri q)
      × ((y : ℕ) → list_count y (pqueue_print cmppri q) ≡ held q y)
unfolding pqueue_print
pqueue_print_sorts cmppri above order q valid =
    print_loop_sorts cmppri above order q.size q valid (omega arith)
