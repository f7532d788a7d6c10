-- ===== src/PriorityQueue/Heap/Down.antt =====
-- percolate_down of libcorsaro/pqueue.c.
use corsaro.Base.{
  ℕ, zero, suc, ◌+◌, ◌-◌, ◌*◌, ◌≤◌, ◌<◌, ◌≡◌, ◌≢◌, refl, arith, Bool, true, false, not, leb, ◌==◌,
  ◌&&◌, store, Bool-cases, inl, inr,
}
use native.Mathlib.Decide.{ℕ_discrete, dec_lt}
use corsaro.PriorityQueue.{Cells, parent, place, maxchild, percolate_loop, percolate_down}
use corsaro.PriorityQueue.Order.{IsPriority}
use corsaro.PriorityQueue.Heap.{IsHeap, IsPlaced, IsPlacedBut, count, count-store, count-store_out}
use corsaro.PriorityQueue.Heap.Up.{Sifted}

-- With `m` in slot `i` of the array, only the edges below `i` may be out of order.
pub record DownInv (above : ℕ → ℕ → Bool) (size : ℕ) (d : ℕ → ℕ) (i m : ℕ) : Type 0 where
  pub inside : 1 ≤ i
  pub edges :
      (c : ℕ)
      → 1 < c
      → c < size
      → parent c ≢ i
      → above (store d i m (parent c)) (store d i m c) ≡ true
  pub bridged :
      (c : ℕ) → 1 < c → c < size → parent c ≡ i → 1 < i → above (d (parent i)) (d c) ≡ true

-- A child that may stand above all children of `i`.
record IsMaxChild (above : ℕ → ℕ → Bool) (size : ℕ) (d : ℕ → ℕ) (i k : ℕ) : Type 0 where
  child : parent k ≡ i
  below : k < size
  over : (c : ℕ) → 1 < c → c < size → parent c ≡ i → above (d k) (d c) ≡ true

module _ (cmppri above : ℕ → ℕ → Bool) (order : IsPriority cmppri above) (size : ℕ) where
  maxchild-none : (d : ℕ → ℕ) (i : ℕ) → 1 ≤ i → maxchild cmppri d size i ≡ 0 → size ≤ 2 * i
  unfolding maxchild
  maxchild-none d i h e = ground arith

  maxchild-IsMaxChild :
      (d : ℕ → ℕ) (i : ℕ)
      → 1 ≤ i
      → maxchild cmppri d size i ≢ 0
      → IsMaxChild above size d i (maxchild cmppri d size i)
  unfolding maxchild
  maxchild-IsMaxChild d i h e = record {
    child = ground arith;
    below = ground arith;
    over = λ c p q r. ground (
      arith,
      order.yes (d (2 * i)) (d (2 * i)),
      order.no (d (2 * i)) (d (2 * i)),
      order.yes (d (2 * i + 1)) (d (2 * i + 1)),
      order.no (d (2 * i + 1)) (d (2 * i + 1)),
      order.yes (d (2 * i)) (d (2 * i + 1)),
      order.no (d (2 * i)) (d (2 * i + 1)),
      order.trans (d (2 * i)) (d (2 * i)) (d (2 * i)),
    );
  }

  sink-DownInv :
      (d : ℕ → ℕ) (i k m : ℕ)
      → DownInv above size d i m
      → IsMaxChild above size d i k
      → cmppri m (d k) ≡ true
      → DownInv above size (store d i (d k)) k m
  sink-DownInv d i k m v s sinks = record {
    inside = omega (arith, v.inside, s.child);
    edges = λ c p q r. ground (
      arith,
      v.inside,
      s.child,
      v.edges c,
      v.bridged k,
      s.over c,
      order.yes m (d k),
      order.no m (d k),
      s.below,
    );
    bridged = λ c p q r t. ground (arith, v.inside, s.child, v.edges c);
  }

  -- Whether the loop goes on from slot `i`.
  abbrev sinks : Cells → ℕ → ℕ → Bool
  sinks c i m = let k = maxchild cmppri c.d size i in not (k == 0) && cmppri m (c.d k)

  ends-IsHeap :
      (c : Cells) (i m : ℕ)
      → DownInv above size c.d i m
      → sinks c i m ≡ false
      → IsHeap above (store c.d i m) size
  ends-IsHeap c i m v stop = elim (ℕ_discrete (maxchild cmppri c.d size i) 0) [
    | yes e ↦ λ k p q. ground (arith, v.edges k, v.inside, maxchild-none c.d i v.inside e)
    | no e ↦
        let s = maxchild-IsMaxChild c.d i v.inside e in
        let k = maxchild cmppri c.d size i in
        λ j p q. ground (
          arith,
          v.edges j,
          v.inside,
          s.child,
          s.over j,
          order.no m (c.d k),
          order.trans m (c.d k) (c.d j),
        )
  ]

  percolate_loop_restores :
      (fuel : ℕ) (c : Cells) (i m : ℕ)
      → size ≤ fuel + i
      → DownInv above size c.d i m
      → IsHeap above (percolate_loop cmppri fuel c size i m).d size
  unfolding percolate_loop
  percolate_loop_restores zero c i m f v = λ k p q. ground (arith, v.edges k, v.inside)
  percolate_loop_restores (suc fuel) c i m f v = elim (Bool-cases (sinks c i m)) [
    | inl goes ↦
        let k = maxchild cmppri c.d size i in
        let s = maxchild-IsMaxChild c.d i v.inside (ground arith) in
        rw goes (
          percolate_loop_restores fuel (place c i (c.d k)) k m (omega (arith, v.inside, s.child))
            (sink-DownInv c.d i k m v s (ground arith)))
    | inr ends ↦ rw ends (ends-IsHeap c i m v ends)
  ]

  count-percolate_loop :
      (x : ℕ) (fuel : ℕ) (c : Cells) (i m n : ℕ)
      → 1 ≤ i
      → i ≤ n
      → size ≤ n + 1
      → count x (percolate_loop cmppri fuel c size i m).d n ≡ count x (store c.d i m) n
  unfolding percolate_loop
  count-percolate_loop x zero c i m n h k g = refl
  count-percolate_loop x (suc fuel) c i m n h k g = elim (Bool-cases (sinks c i m)) [
    | inl goes ↦
        let p = maxchild cmppri c.d size i in
        let s = maxchild-IsMaxChild c.d i h (ground arith) in
        let moved = store c.d i (c.d p) in
        rw goes (
          let ih =
            count-percolate_loop x fuel (place c i (c.d p)) p m n (omega (arith, s.child))
              (omega (arith, s.below)) g in
          ground (
            arith,
            ih,
            s.child,
            s.below,
            count-store x c.d i m n,
            count-store x c.d i (c.d p) n,
            count-store x moved p m n,
          ))
    | inr ends ↦ rw ends refl
  ]

  percolate_loop-IsPlaced :
      (fuel : ℕ) (c : Cells) (i m : ℕ)
      → 1 ≤ i
      → i < size
      → IsPlacedBut i c size
      → ((j : ℕ) → 1 ≤ j → j < size → j ≢ i → c.d j ≢ m)
      → IsPlaced (percolate_loop cmppri fuel c size i m) size
  unfolding percolate_loop
  percolate_loop-IsPlaced zero c i m h k v w = λ j p q. ground (arith, v j, w j)
  percolate_loop-IsPlaced (suc fuel) c i m h k v w = elim (Bool-cases (sinks c i m)) [
    | inl goes ↦
        let p = maxchild cmppri c.d size i in
        let s = maxchild-IsMaxChild c.d i h (ground arith) in
        rw goes (
          percolate_loop-IsPlaced fuel (place c i (c.d p)) p m (omega (arith, s.child)) s.below
            (λ j a b r. ground (arith, v j, v p, s.child, s.below))
            (λ j a b r. ground (arith, w j, w p, s.child, s.below)))
    | inr ends ↦ rw ends (λ j p q. ground (arith, v j, w j))
  ]

module _ (cmppri above : ℕ → ℕ → Bool) (order : IsPriority cmppri above) (size : ℕ) (c : Cells)
    (i : ℕ) (v : DownInv above size c.d i (c.d i)) (p : IsPlacedBut i c size)
    (w : (j : ℕ) → 1 ≤ j → j < size → j ≢ i → c.d j ≢ c.d i) where
  sifts_inside : i < size → Sifted above size c (percolate_down cmppri c size i)
  unfolding percolate_down
  sifts_inside h =
      let m = c.d i in
      record {
        heap = percolate_loop_restores cmppri above order size size c i m (omega arith) v;
        same = λ x. omega (
          arith,
          count-percolate_loop cmppri above order size x size c i m (size - 1) v.inside
              (omega arith) (omega arith),
          count-store x c.d i m (size - 1) v.inside (omega arith),
        );
        placed = percolate_loop-IsPlaced cmppri above order size size c i m v.inside h p w;
      }

  -- Behind the last element the loop only writes its slot.
  percolate_loop_outside :
      (fuel : ℕ) (m : ℕ) → size ≤ i → percolate_loop cmppri fuel c size i m ≡ place c i m
  unfolding percolate_loop maxchild
  percolate_loop_outside zero m h = refl
  percolate_loop_outside (suc fuel) m h =
      let e : leb size (2 * i) ≡ true = ground arith in rw e refl

  sifts_outside : size ≤ i → Sifted above size c (percolate_down cmppri c size i)
  unfolding percolate_down
  sifts_outside h = rw (percolate_loop_outside size (c.d i) h) (record {
    heap = λ k a b. ground (arith, v.edges k);
    same = λ x. count-store_out x c.d i (c.d i) (size - 1) (omega (arith, v.inside));
    placed = λ j a b. ground (arith, p j, w j);
  })

  pub percolate_down_sifts : Sifted above size c (percolate_down cmppri c size i)
  percolate_down_sifts = elim (dec_lt i size) [
    | yes h ↦ sifts_inside h
    | no h ↦ sifts_outside (omega arith)
  ]
