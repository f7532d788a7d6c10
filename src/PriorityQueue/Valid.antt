-- ===== src/PriorityQueue/Valid.antt =====
-- pqueue_is_valid of libcorsaro/pqueue.c decides the heap order.
use corsaro.Base.{ℕ, zero, suc, ◌+◌, ◌≤◌, ◌<◌, ◌≡◌, ◌↔◌, refl, sym, subst, arith, Bool, true, not}
use native.Mathlib.Decide.{ℕ_discrete}
use corsaro.PriorityQueue.{Pqueue, parent, left, right, subtree_is_valid, pqueue_is_valid}
use corsaro.PriorityQueue.Heap.{IsHeap}

module _ (cmppri : ℕ → ℕ → Bool) (q : Pqueue) where
  abbrev InOrder : ℕ → Type 0
  InOrder c = not (cmppri (q.cells.d (parent c)) (q.cells.d c)) ≡ true

  heap_passes :
      (fuel i : ℕ)
      → 1 ≤ i
      → IsHeap (λ a b. not (cmppri a b)) q.cells.d q.size
      → subtree_is_valid cmppri fuel q i ≡ true
  unfolding subtree_is_valid
  heap_passes zero i low h = refl
  heap_passes (suc fuel) i low h =
      let l : parent (left i) ≡ i = omega arith in
      let r : parent (right i) ≡ i = omega arith in
      ground (
        arith,
        h (left i),
        h (right i),
        heap_passes fuel (left i) (omega arith) h,
        heap_passes fuel (right i) (omega arith) h,
      )

  left_passes :
      (fuel p : ℕ)
      → subtree_is_valid cmppri (suc fuel) q p ≡ true
      → left p < q.size
      → (not (cmppri (q.cells.d p) (q.cells.d (left p))) ≡ true)
        × (subtree_is_valid cmppri fuel q (left p) ≡ true)
  unfolding subtree_is_valid
  left_passes fuel p e h = ground arith

  right_passes :
      (fuel p : ℕ)
      → subtree_is_valid cmppri (suc fuel) q p ≡ true
      → right p < q.size
      → (not (cmppri (q.cells.d p) (q.cells.d (right p))) ≡ true)
        × (subtree_is_valid cmppri fuel q (right p) ≡ true)
  unfolding subtree_is_valid
  right_passes fuel p e h = ground arith

  -- A child's edge is in order, and its subtree passes, if its parent's subtree passes.
  child_passes :
      (fuel c : ℕ)
      → subtree_is_valid cmppri (suc fuel) q (parent c) ≡ true
      → c < q.size
      → InOrder c × (subtree_is_valid cmppri fuel q c ≡ true)
  child_passes fuel c e h = elim (ℕ_discrete c (left (parent c))) [
    | yes g ↦
        subst
          (λ k.
            (not (cmppri (q.cells.d (parent c)) (q.cells.d k)) ≡ true)
            × (subtree_is_valid cmppri fuel q k ≡ true))
          (sym g) (left_passes fuel (parent c) e (omega arith))
    | no g ↦
        let r : right (parent c) ≡ c = omega arith in
        subst
          (λ k.
            (not (cmppri (q.cells.d (parent c)) (q.cells.d k)) ≡ true)
            × (subtree_is_valid cmppri fuel q k ≡ true))
          r (right_passes fuel (parent c) e (omega arith))
  ]

  -- So every subtree passes, with fuel that reaches the last slot.
  all_pass :
      (k c : ℕ)
      → c < k
      → 1 ≤ c
      → c < q.size
      → pqueue_is_valid cmppri q ≡ true
      → (fuel : ℕ) × (q.size ≤ fuel + c) × (subtree_is_valid cmppri fuel q c ≡ true)
  unfolding pqueue_is_valid
  all_pass zero c f low high e = absurd (omega arith)
  all_pass (suc k) c f low high e = elim (ℕ_discrete c 1) [
    | yes one ↦ (q.size, omega arith, rw one e)
    | no more ↦
        let up = all_pass k (parent c) (omega arith) (omega arith) (omega arith) e in
        below up.0 up.1 up.2
  ]
    where
      below :
          (fuel : ℕ)
          → q.size ≤ fuel + parent c
          → subtree_is_valid cmppri fuel q (parent c) ≡ true
          → (fuel : ℕ) × (q.size ≤ fuel + c) × (subtree_is_valid cmppri fuel q c ≡ true)
      below zero g e = absurd (omega arith)
      below (suc fuel) g e = (fuel, omega arith, (child_passes fuel c e high).1)

  passes-IsHeap :
      pqueue_is_valid cmppri q ≡ true → IsHeap (λ a b. not (cmppri a b)) q.cells.d q.size
  passes-IsHeap e c low high =
      let up = all_pass (suc c) (parent c) (omega arith) (omega arith) (omega arith) e in
      edge up.0 up.1 up.2
    where
      edge :
          (fuel : ℕ)
          → q.size ≤ fuel + parent c
          → subtree_is_valid cmppri fuel q (parent c) ≡ true
          → InOrder c
      edge zero g e = absurd (omega arith)
      edge (suc fuel) g e = (child_passes fuel c e high).0

-- pqueue_is_valid returns 1 exactly if the callback is false of every element below the root and the
-- one above it.
pub pqueue_is_valid_iff :
    (cmppri : ℕ → ℕ → Bool) (q : Pqueue)
    → (pqueue_is_valid cmppri q ≡ true) ↔ IsHeap (λ a b. not (cmppri a b)) q.cells.d q.size
unfolding pqueue_is_valid
pqueue_is_valid_iff cmppri q = (passes-IsHeap cmppri q, heap_passes cmppri q q.size 1 (omega arith))
