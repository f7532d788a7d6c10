-- ===== src/PriorityQueue/Insert.antt =====
-- pqueue_insert of libcorsaro/pqueue.c.
use corsaro.Base.{
  ℕ, ◌+◌, ◌-◌, ◌≤◌, ◌<◌, ◌≡◌, ◌⊎◌, refl, arith, Bool, false, leb, store, Bool-cases, inl, inr,
}
use corsaro.PriorityQueue.{Cells, Pqueue, bubble_up, pqueue_insert}
use corsaro.PriorityQueue.Order.{IsPriority}
use corsaro.PriorityQueue.Heap.{IsValid, count, count1, count-store_top, count-absent, held}
use corsaro.PriorityQueue.Heap.Up.{Sifted, bubble_up_sifts}

module _ (cmppri above : ℕ → ℕ → Bool) (order : IsPriority cmppri above) (q : Pqueue) (x : ℕ)
    (valid : IsValid above q) (fresh : held q x ≡ 0) where
  abbrev grown : Cells
  grown = record q.cells { d = store q.cells.d q.size x }

  grown-Sifted : Sifted above (q.size + 1) grown (bubble_up cmppri grown q.size)
  grown-Sifted =
      bubble_up_sifts cmppri above order (q.size + 1) grown q.size (omega arith)
        (record {
          inside = valid.sized;
          edges = λ c p r s. ground (arith, valid.heap c);
          bridged = λ c p r s t. absurd (omega arith);
        })
        (λ j p r s. ground (arith, valid.placed j))
        (λ j p r s. ground (arith, count-absent x q.cells.d (q.size - 1) j fresh))

  inserted-IsValid :
      (avail : ℕ)
      → q.size < avail
      → IsValid above
          (record q { size = q.size + 1; avail = avail; cells = bubble_up cmppri grown q.size })
  inserted-IsValid avail h = record {
    sized = omega arith;
    fits = omega arith;
    grows = valid.grows;
    heap = grown-Sifted.heap;
    placed = grown-Sifted.placed;
  }

  inserted_held :
      (y : ℕ) → count y (bubble_up cmppri grown q.size).d (q.size + 1 - 1) ≡ held q y + count1 y x
  inserted_held y =
      let e : q.size + 1 - 1 ≡ q.size = omega arith in
      let same = rw e at (grown-Sifted.same y) in
      rw e (
        omega (
          arith,
          same,
          count-store_top y q.cells.d x q.size (q.size - 1) (omega (arith, valid.sized)),
        ))

-- What pqueue_insert did: it returned 1, and changed nothing, because the array was full and could
-- not grow; or it returned 0, and the queue holds the new element beside the old ones.
abbrev pub Inserted : (ℕ → ℕ → Bool) → Bool → Pqueue → ℕ → ℕ × Pqueue → Type 0
Inserted above allocated q x r =
    ((allocated ≡ false) × (q.size ≡ q.avail) × (r ≡ (1, q)))
    ⊎ ((r.0 ≡ 0)
        × IsValid above r.1
        × ((y : ℕ) → held r.1 y ≡ held q y + count1 y x)
        × (r.1.size ≡ q.size + 1)
        × (q.avail ≤ r.1.avail))

-- Inserting an element that the queue does not hold, into a valid queue under a priority order.
pub pqueue_insert_correct :
    (cmppri above : ℕ → ℕ → Bool)
    → IsPriority cmppri above
    → (allocated : Bool) (q : Pqueue) (x : ℕ) → IsValid above q
    → held q x ≡ 0
    → Inserted above allocated q x (pqueue_insert cmppri allocated q x)
unfolding pqueue_insert
pqueue_insert_correct cmppri above order allocated q x valid fresh =
    let done = inserted-IsValid cmppri above order q x valid fresh in
    let counts = inserted_held cmppri above order q x valid fresh in
    elim (Bool-cases (leb q.avail q.size)) [
      | inl full ↦ elim (Bool-cases allocated) [
        | inl grows ↦
            rw (full, grows)
              (inr (
                refl,
                done (q.size + q.step) (ground (arith, valid.grows, valid.fits)),
                counts,
                refl,
                ground (arith, valid.fits),
              ))
        | inr fails ↦ rw (full, fails) (inl (refl, ground (arith, valid.fits), refl))
      ]
      | inr room ↦ rw room (inr (refl, done q.avail (ground arith), counts, refl, omega arith))
    ]
