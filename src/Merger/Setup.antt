-- ===== src/Merger/Setup.antt =====
-- The first loop of run_merger in corsaroftmerge/corsaroftmerge.c.
use corsaro.Base.{
  ℕ, zero, suc, ◌+◌, ◌≤◌, ◌<◌, ◌≡◌, refl, subst, ◌∙◌, arith, Bool, Option, List, store, length,
  total,
}
use corsaro.PriorityQueue.{Pqueue}
use corsaro.PriorityQueue.Heap.{held}
use corsaro.PriorityQueue.Print.{list_count}
use corsaro.Merger.{MergerFt, Reply, arrived, merged, enqueue, setup_loop, receive}
use corsaro.Merger.Streams.{IsComplete, sent, store-other}
use corsaro.Merger.Invariant.{IsReady, start-next}
use corsaro.Merger.Absorb.{absorb}

-- What the sockets have yet to send, and the queue's records.
abbrev pub budget : ℕ → Pqueue → (ℕ → List ℕ) → ℕ
budget N pq R = pq.size + total N (λ i. length (R i))

-- A queue that the first loop leaves.
pub record IsSetUp (mem : ℕ → MergerFt) (N : ℕ) (pq : Pqueue) (R : ℕ → List ℕ) (pq' : Pqueue)
    (insocks' : ℕ → List Reply) : Type 0 where
  pub R' : ℕ → List ℕ
  pub ready : IsReady mem N N N pq' insocks' R'
  pub size : pq'.size ≤ suc N
  pub avail : N < pq'.avail
  pub spent : budget N pq' R' ≡ budget N pq R
  pub counts :
      (y : ℕ)
      → held pq' y + list_count y (R' (mem y).source) ≡ held pq y + list_count y (R (mem y).source)

module _ (allocated : Bool) (mem : ℕ → MergerFt) (N : ℕ) where
  setup_loop-suc :
      (left i : ℕ) (pq : Pqueue) (insocks : ℕ → List Reply) (m : Option ℕ) (rest : List Reply)
      → receive (insocks i) ≡ arrived m rest
      → setup_loop allocated mem (suc left) i pq insocks
        ≡ setup_loop allocated mem left (suc i) (enqueue allocated mem m pq) (store insocks i rest)
  unfolding setup_loop
  setup_loop-suc left i pq insocks m rest e = rw (e, setup_loop)

  pub setup_loop-IsSetUp :
      (left i : ℕ) (pq : Pqueue) (insocks : ℕ → List Reply) (R : ℕ → List ℕ)
      → i + left ≡ N
      → IsReady mem N i i pq insocks R
      → ((j : ℕ) → i ≤ j → j < N → IsComplete (insocks j))
      → ((j : ℕ) → i ≤ j → j < N → sent (insocks j) ≡ R j)
      → pq.size ≤ suc i
      → N < pq.avail
      → (pq' : Pqueue) × (insocks' : ℕ → List Reply) × (setup_loop allocated mem left i pq insocks
          ≡ (merged, pq', insocks'))
        × IsSetUp mem N pq R pq' insocks'
  unfolding setup_loop
  setup_loop-IsSetUp zero i pq insocks R e v complete remaining small room =
      let done : i ≡ N = omega arith in
      (
        pq,
        insocks,
        refl,
        record {
          R' = R;
          ready = subst (λ n. IsReady mem N n n pq insocks R) done v;
          size = omega arith;
          avail = room;
          spent = refl;
          counts = λ y. refl;
        },
      )
  setup_loop-IsSetUp (suc left) i pq insocks R e v complete remaining small room =
      let (m, rest, got, a) =
        absorb allocated i (start-next v) (omega arith) (omega arith)
          (complete i (omega arith) (omega arith)) (remaining i (omega arith) (omega arith))
          (omega arith) room in
      let later = λ (j : ℕ) (h : suc i ≤ j). store-other insocks i j rest (omega arith) in
      let (pq', insocks', run, s) =
        setup_loop-IsSetUp left (suc i) _ (store insocks i rest) a.R' (omega arith) a.ready
          (λ j h k. rw (later j h) (complete j (omega arith) k))
          (λ j h k. rw (later j h, a.others j (omega arith)) (remaining j (omega arith) k))
          (omega (arith, a.size)) (omega (arith, a.avail)) in
      (
        pq',
        insocks',
        setup_loop-suc left i pq insocks m rest got ∙ run,
        record {
          R' = s.R';
          ready = s.ready;
          size = s.size;
          avail = s.avail;
          spent = s.spent ∙ a.budget;
          counts = λ y. s.counts y ∙ a.counts y;
        },
      )
