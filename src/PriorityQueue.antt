-- ===== src/PriorityQueue.antt =====
-- libcorsaro/pqueue.c: a priority queue kept as a binary heap in an array whose slot 0 is unused.
pub mod Order
pub mod Heap
pub mod Insert
pub mod Remove
pub mod Print
pub mod Valid
mod Tests
use corsaro.Base.{
  ℕ, zero, suc, ◌+◌, ◌-◌, ◌*◌, ◌/◌, Bool, true, false, not, Option, none, some, List, [], ◌∷◌, ltb,
  leb, ◌==◌, ◌&&◌, if◌then◌else◌, store,
}

-- What the sift loops write: the array `d` of element pointers, and the position that `setpos`
-- keeps in each element. A pointer is a number.
pub record Cells : Type 0 where
  pub d : ℕ → ℕ
  pub pos : ℕ → ℕ

-- `pqueue_t`, with the positions that its elements keep. The callbacks are parameters.
pub record Pqueue : Type 0 where
  pub size : ℕ
  pub avail : ℕ
  pub step : ℕ
  pub cells : Cells

abbrev pub left : ℕ → ℕ
left i = 2 * i

abbrev pub right : ℕ → ℕ
right i = 2 * i + 1

abbrev pub parent : ℕ → ℕ
parent i = i / 2

-- `d[i] = x; setpos(x, i);`
abbrev pub place : Cells → ℕ → ℕ → Cells
place c i x = record { d = store c.d i x; pos = store c.pos x i }

-- `malloc` gives the array whatever it holds, and the positions are what they were. The flag says
-- whether both allocations succeed.
unfoldable pub pqueue_init : Bool → ℕ → Cells → Option Pqueue
pqueue_init allocated n cells =
    if allocated
    then some (record { size = 1; avail = n + 1; step = n + 1; cells = cells })
    else none

pub pqueue_size : Pqueue → ℕ
pqueue_size q = q.size - 1

module _ (cmppri : ℕ → ℕ → Bool) where
  -- The loop of bubble_up. The index falls in every round, so `i` rounds are enough; the loop's test
  -- fails at 0.
  unfoldable pub bubble_loop : ℕ → Cells → ℕ → ℕ → Cells
  bubble_loop zero c i moving_node = place c i moving_node
  bubble_loop (suc fuel) c i moving_node =
      let rest = bubble_loop fuel (place c i (c.d (parent i))) (parent i) moving_node in
      if ltb 1 i && cmppri (c.d (parent i)) moving_node then rest else place c i moving_node

  unfoldable pub bubble_up : Cells → ℕ → Cells
  unfolding bubble_loop
  bubble_up c i = bubble_loop i c i (c.d i)

  -- The child that may stand above the other, or 0 if there is none.
  unfoldable pub maxchild : (ℕ → ℕ) → ℕ → ℕ → ℕ
  maxchild d size i =
      let child_node = left i in
      if leb size child_node
      then 0
      else if ltb (child_node + 1) size && cmppri (d child_node) (d (child_node + 1))
      then child_node + 1
      else child_node

  -- The loop of percolate_down. The index grows, and an index of `size` or more has no child, so
  -- `size` rounds are enough.
  unfoldable pub percolate_loop : ℕ → Cells → ℕ → ℕ → ℕ → Cells
  unfolding maxchild
  percolate_loop zero c size i moving_node = place c i moving_node
  percolate_loop (suc fuel) c size i moving_node =
      let child_node = maxchild c.d size i in
      let rest = percolate_loop fuel (place c i (c.d child_node)) size child_node moving_node in
      if not (child_node == 0) && cmppri moving_node (c.d child_node)
      then rest
      else place c i moving_node

  unfoldable pub percolate_down : Cells → ℕ → ℕ → Cells
  unfolding percolate_loop
  percolate_down c size i = percolate_loop size c size i (c.d i)

  -- `pqueue_insert` on a queue that is not null: the int that it returns, 0 or 1, and the queue. The
  -- flag says whether `realloc` succeeds; on success it keeps the array.
  unfoldable pub pqueue_insert : Bool → Pqueue → ℕ → ℕ × Pqueue
  unfolding bubble_up
  pqueue_insert allocated q x =
      let insert = λ (avail : ℕ). record q {
        size = q.size + 1;
        avail = avail;
        cells = bubble_up (record q.cells { d = store q.cells.d q.size x }) q.size;
      } in
      if leb q.avail q.size
      then (if allocated then (0, insert (q.size + q.step)) else (1, q))
      else (0, insert q.avail)

  -- `pqueue_remove`, which returns 0.
  unfoldable pub pqueue_remove : Pqueue → ℕ → Pqueue
  unfolding bubble_up percolate_down
  pqueue_remove q x =
      let posn = q.cells.pos x in
      let size = q.size - 1 in
      let c = record q.cells { d = store q.cells.d posn (q.cells.d size) } in
      if cmppri x (c.d posn)
      then record q { size = size; cells = bubble_up c posn }
      else record q { size = size; cells = percolate_down c size posn }

  -- `pqueue_pop` on a queue that is not null; `none` is the NULL that an empty queue gives.
  unfoldable pub pqueue_pop : Pqueue → Option ℕ × Pqueue
  unfolding percolate_down
  pqueue_pop q =
      if q.size == 1
      then (none, q)
      else let size = q.size - 1 in
        let c = record q.cells { d = store q.cells.d 1 (q.cells.d size) } in
        (some (q.cells.d 1), record q { size = size; cells = percolate_down c size 1 })

  -- The loop of pqueue_print over the copy of the queue: the elements in the order in which they are
  -- printed. The queue loses one in every round.
  unfoldable pub print_loop : ℕ → Pqueue → List ℕ
  print_loop zero q = []
  print_loop (suc fuel) q =
      let (e, dup) = pqueue_pop q in elim e [ none ↦ [] | some x ↦ x ∷ print_loop fuel dup ]

  unfoldable pub pqueue_print : Pqueue → List ℕ
  unfolding print_loop
  pqueue_print q = print_loop q.size q

  -- A subtree below `size`; its root is at least 1, and a child's index is larger.
  unfoldable pub subtree_is_valid : ℕ → Pqueue → ℕ → Bool
  subtree_is_valid zero q i = true
  subtree_is_valid (suc fuel) q i =
      let below = λ (c : ℕ).
        if ltb c q.size
        then not (cmppri (q.cells.d i) (q.cells.d c)) && subtree_is_valid fuel q c
        else true in
      below (left i) && below (right i)

  unfoldable pub pqueue_is_valid : Pqueue → Bool
  unfolding subtree_is_valid
  pqueue_is_valid q = subtree_is_valid q.size q 1

-- `pqueue_peek` on a queue that is not null.
unfoldable pub pqueue_peek : Pqueue → Option ℕ
pqueue_peek q = if q.size == 1 then none else some (q.cells.d 1)
