-- ===== src/PriorityQueue/Heap/Up.antt =====
-- bubble_up of libcorsaro/pqueue.c.
use corsaro.Base.{
  ℕ, zero, suc, ◌-◌, ◌≤◌, ◌<◌, ◌≡◌, ◌≢◌, refl, arith, Bool, true, ltb, ◌&&◌, store, Bool-cases, inl,
  inr,
}
use corsaro.PriorityQueue.{Cells, parent, place, bubble_loop, bubble_up}
use corsaro.PriorityQueue.Order.{IsPriority}
use corsaro.PriorityQueue.Heap.{IsHeap, IsPlaced, IsPlacedBut, count, count-store}

-- With `m` in slot `i` of the array, only the edge above `i` may be out of order.
pub record UpInv (above : ℕ → ℕ → Bool) (size : ℕ) (d : ℕ → ℕ) (i m : ℕ) : Type 0 where
  pub inside : 1 ≤ i
  pub edges :
      (c : ℕ) → 1 < c → c < size → c ≢ i → above (store d i m (parent c)) (store d i m c) ≡ true
  pub bridged :
      (c : ℕ) → 1 < c → c < size → parent c ≡ i → 1 < i → above (d (parent i)) (d c) ≡ true

module _ (cmppri above : ℕ → ℕ → Bool) (order : IsPriority cmppri above) (size : ℕ) where
  rise-UpInv :
      (d : ℕ → ℕ) (i m : ℕ)
      → UpInv above size d i m
      → 1 < i
      → i < size
      → cmppri (d (parent i)) m ≡ true
      → UpInv above size (store d i (d (parent i))) (parent i) m
  rise-UpInv d i m v h inside below = record {
    inside = omega arith;
    edges = λ c p q r. ground (
      arith,
      v.edges c,
      v.edges (parent i),
      v.bridged c,
      order.yes (d (parent i)) m,
      order.no (d (parent i)) m,
      order.trans m (d (parent i)) (d c),
    );
    bridged = λ c p q r s. ground (
      arith,
      v.edges c,
      v.edges (parent i),
      order.trans (d (parent (parent i))) (d (parent i)) (d c),
    );
  }

  -- The loop ends in a heap.
  bubble_loop_restores :
      (fuel : ℕ) (c : Cells) (i m : ℕ)
      → i ≤ fuel
      → i < size
      → UpInv above size c.d i m
      → IsHeap above (bubble_loop cmppri fuel c i m).d size
  unfolding bubble_loop
  bubble_loop_restores zero c i m f h v = absurd (omega (arith, v.inside))
  bubble_loop_restores (suc fuel) c i m f h v =
      elim (Bool-cases (ltb 1 i && cmppri (c.d (parent i)) m)) [
        | inl rises ↦ rw rises (
            bubble_loop_restores fuel (place c i (c.d (parent i))) (parent i) m (ground arith)
              (ground arith) (rise-UpInv c.d i m v (ground arith) h (ground arith)))
        | inr ends ↦
            rw ends (λ k p q. ground (arith, v.edges k, v.inside, order.no (c.d (parent i)) m))
      ]

  -- It moves the elements only.
  count-bubble_loop :
      (x : ℕ) (fuel : ℕ) (c : Cells) (i m n : ℕ)
      → 1 ≤ i
      → i ≤ n
      → count x (bubble_loop cmppri fuel c i m).d n ≡ count x (store c.d i m) n
  unfolding bubble_loop
  count-bubble_loop x zero c i m n h k = refl
  count-bubble_loop x (suc fuel) c i m n h k =
      elim (Bool-cases (ltb 1 i && cmppri (c.d (parent i)) m)) [
        | inl rises ↦
            let p = parent i in
            let moved = store c.d i (c.d p) in
            rw rises (
              let ih =
                count-bubble_loop x fuel (place c i (c.d p)) p m n (ground arith) (ground arith) in
              ground (
                arith,
                ih,
                count-store x c.d i m n,
                count-store x c.d i (c.d p) n,
                count-store x moved p m n,
              ))
        | inr ends ↦ rw ends refl
      ]

  -- It keeps the positions.
  bubble_loop-IsPlaced :
      (fuel : ℕ) (c : Cells) (i m : ℕ)
      → 1 ≤ i
      → i < size
      → IsPlacedBut i c size
      → ((j : ℕ) → 1 ≤ j → j < size → j ≢ i → c.d j ≢ m)
      → IsPlaced (bubble_loop cmppri fuel c i m) size
  unfolding bubble_loop
  bubble_loop-IsPlaced zero c i m h k v w = λ j p q. ground (arith, v j, w j)
  bubble_loop-IsPlaced (suc fuel) c i m h k v w =
      elim (Bool-cases (ltb 1 i && cmppri (c.d (parent i)) m)) [
        | inl rises ↦ rw rises (
            bubble_loop-IsPlaced fuel (place c i (c.d (parent i))) (parent i) m (ground arith)
              (ground arith) (λ j p q r. ground (arith, v j, v (parent i)))
              (λ j p q r. ground (arith, w j, w (parent i))))
        | inr ends ↦ rw ends (λ j p q. ground (arith, v j, w j))
      ]

-- What a sift of the cells `c` leaves: a heap of the same elements, in known places.
pub record Sifted (above : ℕ → ℕ → Bool) (size : ℕ) (c c' : Cells) : Type 0 where
  pub heap : IsHeap above c'.d size
  pub same : (x : ℕ) → count x c'.d (size - 1) ≡ count x c.d (size - 1)
  pub placed : IsPlaced c' size

pub bubble_up_sifts :
    (cmppri above : ℕ → ℕ → Bool)
    → IsPriority cmppri above
    → (size : ℕ) (c : Cells) (i : ℕ) → i < size
    → UpInv above size c.d i (c.d i)
    → IsPlacedBut i c size
    → ((j : ℕ) → 1 ≤ j → j < size → j ≢ i → c.d j ≢ c.d i)
    → Sifted above size c (bubble_up cmppri c i)
unfolding bubble_up
bubble_up_sifts cmppri above order size c i h v p w =
    let m = c.d i in
    record {
      heap = bubble_loop_restores cmppri above order size i c i m (omega arith) h v;
      same = λ x. omega (
        arith,
        count-bubble_loop cmppri above order size x i c i m (size - 1) v.inside (omega arith),
        count-store x c.d i m (size - 1) v.inside (omega arith),
      );
      placed = bubble_loop-IsPlaced cmppri above order size i c i m v.inside h p w;
    }
