-- ===== src/PriorityQueue/Heap.antt =====
-- The invariants of the queue of libcorsaro/pqueue.c: the heap order, the elements it holds, and the
-- positions that they keep.
pub mod Up
pub mod Down
use corsaro.Base.{
  ℕ, zero, suc, ◌+◌, ◌-◌, ◌/◌, ◌≤◌, ◌<◌, ◌≡◌, ◌≢◌, refl, arith, Bool, true, false, ◌==◌,
  if◌then◌else◌, store,
}
use native.Mathlib.Decide.{ℕ_discrete}
use corsaro.PriorityQueue.{Cells, Pqueue, parent, place}

-- In the slots below `size`, every element stands under one that may stand above it.
abbrev pub IsHeap : (ℕ → ℕ → Bool) → (ℕ → ℕ) → ℕ → Type 0
IsHeap above d size = (c : ℕ) → 1 < c → c < size → above (d (parent c)) (d c) ≡ true

-- How often an element stands in the slots 1 to n.
unfoldable pub count : ℕ → (ℕ → ℕ) → ℕ → ℕ
count x d zero = 0
count x d (suc n) = (if d (suc n) == x then 1 else 0) + count x d n

-- Every element but the one in slot `hole` knows its slot.
abbrev pub IsPlacedBut : ℕ → Cells → ℕ → Type 0
IsPlacedBut hole c size = (j : ℕ) → 1 ≤ j → j < size → j ≢ hole → c.pos (c.d j) ≡ j

abbrev pub IsPlaced : Cells → ℕ → Type 0
IsPlaced c size = (j : ℕ) → 1 ≤ j → j < size → c.pos (c.d j) ≡ j

pub record IsValid (above : ℕ → ℕ → Bool) (q : Pqueue) : Type 0 where
  pub sized : 1 ≤ q.size
  pub fits : q.size ≤ q.avail
  pub grows : 1 ≤ q.step
  pub heap : IsHeap above q.cells.d q.size
  pub placed : IsPlaced q.cells q.size

abbrev pub count1 : ℕ → ℕ → ℕ
count1 x y = if y == x then 1 else 0

pub count-store_out :
    (x : ℕ) (d : ℕ → ℕ) (i v n : ℕ) → n < i → count x (store d i v) n ≡ count x d n
unfolding count
count-store_out x d i v zero p = refl
count-store_out x d i v (suc n) p = ground (arith, count-store_out x d i v n)

-- A store trades one element for another.
pub count-store :
    (x : ℕ) (d : ℕ → ℕ) (i v n : ℕ)
    → 1 ≤ i
    → i ≤ n
    → count x (store d i v) n + count1 x (d i) ≡ count x d n + count1 x v
unfolding count
count-store x d i v zero p q = absurd (omega arith)
count-store x d i v (suc n) p q = ground (arith, count-store x d i v n, count-store_out x d i v n)

-- The top slot of the range that is counted.
pub count-store_top :
    (x : ℕ) (d : ℕ → ℕ) (v n m : ℕ) → n ≡ suc m → count x (store d n v) n ≡ count1 x v + count x d m
unfolding count
count-store_top x d v zero m e = absurd (omega arith)
count-store_top x d v (suc n) m e = ground (arith, count-store_out x d (suc n) v n)

pub count-top :
    (x : ℕ) (d : ℕ → ℕ) (n m : ℕ) → n ≡ suc m → count x d n ≡ count1 x (d n) + count x d m
unfolding count
count-top x d zero m e = absurd (omega arith)
count-top x d (suc n) m e = ground arith

-- An element in a slot is counted.
pub count-absent : (x : ℕ) (d : ℕ → ℕ) (n j : ℕ) → count x d n ≡ 0 → 1 ≤ j → j ≤ n → d j ≢ x
unfolding count
count-absent x d zero j e p r = absurd (omega arith)
count-absent x d (suc n) j e p r = ground (arith, count-absent x d n j)

-- And a counted element is in a slot.
pub count-slot :
    (x : ℕ) (d : ℕ → ℕ) (n : ℕ) → 1 ≤ count x d n → (j : ℕ) × (1 ≤ j) × (j ≤ n) × (d j ≡ x)
unfolding count
count-slot x d zero h = absurd (omega arith)
count-slot x d (suc n) h = elim (ℕ_discrete (d (suc n)) x) [
  | yes e ↦ (suc n, omega arith, omega arith, e)
  | no e ↦ let (j, p, r, at) = count-slot x d n (ground arith) in (j, p, omega arith, at)
]

-- How often the queue holds an element.
abbrev pub held : Pqueue → ℕ → ℕ
held q x = count x q.cells.d (q.size - 1)
