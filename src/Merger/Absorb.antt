-- ===== src/Merger/Absorb.antt =====
-- Reading one message in run_merger of corsaroftmerge/corsaroftmerge.c, from a socket that has no
-- record in the queue.
use corsaro.Base.{
  ℕ, suc, ◌+◌, ◌≤◌, ◌<◌, ◌≡◌, ◌≢◌, refl, sym, subst, ◌∙◌, arith, Bool, Option, none, some, List, [],
  ◌∷◌, store, inl, inr, length, total,
}
use native.Mathlib.Decide.{ℕ_discrete}
use corsaro.PriorityQueue.{Pqueue, pqueue_insert}
use corsaro.PriorityQueue.Heap.{count1, held}
use corsaro.PriorityQueue.Insert.{pqueue_insert_correct}
use corsaro.PriorityQueue.Print.{list_count}
use corsaro.Merger.{MergerFt, Reply, arrived, receive, cmp, enqueue}
use corsaro.Merger.Order.{above, cmp-IsPriority}
use corsaro.Merger.Streams.{
  IsComplete, sent, receive-IsComplete, store-same, store-other, total-store,
}
use corsaro.Merger.Invariant.{IsReady, absorb-none}
use corsaro.Merger.Insertion.{absorb-some}

-- What the queue, the sockets and what they have yet to send are after the message.
pub record Absorbed (mem : ℕ → MergerFt) (N n s : ℕ) (pq : Pqueue) (R : ℕ → List ℕ) (pq' : Pqueue)
    (insocks' : ℕ → List Reply) : Type 0 where
  pub R' : ℕ → List ℕ
  pub ready : IsReady mem N n n pq' insocks' R'
  pub size : pq'.size ≤ pq.size + 1
  pub avail : pq.avail ≤ pq'.avail
  pub budget : pq'.size + total N (λ i. length (R' i)) ≡ pq.size + total N (λ i. length (R i))
  pub counts :
      (y : ℕ)
      → held pq' y + list_count y (R' (mem y).source) ≡ held pq y + list_count y (R (mem y).source)
  pub others : (j : ℕ) → s ≢ j → R' j ≡ R j

module _ (allocated : Bool) {mem : ℕ → MergerFt} {N n : ℕ} (s : ℕ) {pq : Pqueue}
    {insocks : ℕ → List Reply} {R : ℕ → List ℕ} (v : IsReady mem N n s pq insocks R) (low : s < n)
    (high : n ≤ N) (complete : IsComplete (insocks s)) (remaining : sent (insocks s) ≡ R s)
    (small : pq.size ≤ N) (room : N < pq.avail) where
  absorb_last :
      (rest : List Reply)
      → sent (insocks s) ≡ []
      → Absorbed mem N n s pq R pq (store insocks s rest)
  absorb_last rest e = record {
    R' = R;
    ready = absorb-none s rest v (sym remaining ∙ e);
    size = omega arith;
    avail = omega arith;
    budget = refl;
    counts = λ y. refl;
    others = λ j e. refl;
  }

  module _ (p : ℕ) (rest : List Reply) (e : sent (insocks s) ≡ p ∷ sent rest)
      (more : IsComplete rest) where
    first : R s ≡ p ∷ sent rest
    first = sym remaining ∙ e

    there : list_count p (R s) ≡ 1 + list_count p (sent rest)
    there = rw first (ground arith)

    -- The source of a record is the socket that sends it.
    split : (y : ℕ) → list_count y (R s) ≡ count1 y p + list_count y (sent rest)
    split y = rw first refl

    absorbed_counts :
        (y : ℕ)
        → count1 y p + list_count y (store R s (sent rest) (mem y).source)
          ≡ list_count y (R (mem y).source)
    absorbed_counts y = elim (ℕ_discrete s (mem y).source) [
      | yes e ↦ rw (sym e, store-same R s (sent rest)) (sym (split y))
      | no e ↦
          let other : count1 y p ≡ 0 = elim (ℕ_discrete p y) [
            | yes same ↦ absurd (
                e (
                  sym (subst (λ z. (mem z).source ≡ s) same (v.origin s p (omega (arith, there))))))
            | no different ↦ ground arith
          ] in
          rw (store-other R s (mem y).source (sent rest) e) (omega (arith, other))
    ]

    absorb_record :
        Absorbed mem N n s pq R (pqueue_insert (cmp mem) allocated pq p).1 (store insocks s rest)
    absorb_record =
        elim (pqueue_insert_correct (cmp mem) (above mem) (cmp-IsPriority mem) allocated pq p
          v.valid (v.fresh s p (omega (arith, there)))) [
            | inl (_, full, _) ↦ absurd (omega arith)
            | inr (_, valid, counts, size, avail) ↦ record {
              R' = store R s (sent rest);
              ready = absorb-some s p (sent rest) rest _ v low first more refl valid counts;
              size = omega arith;
              avail = avail;
              budget =
                  let fewer : length (R s) ≡ suc (length (sent rest)) = rw first refl in
                  omega (arith, total-store N R s (sent rest) (omega arith));
              counts = λ y. omega (arith, counts y, absorbed_counts y);
              others = λ j e. store-other R s j (sent rest) e;
            }
          ]

  pub absorb :
      (m : Option ℕ) × (rest : List Reply) × (receive (insocks s) ≡ arrived m rest)
      × Absorbed mem N n s pq R (enqueue allocated mem m pq) (store insocks s rest)
  absorb = elim (receive-IsComplete (insocks s) complete) [
    | inl (rest, e, empty) ↦ (none, rest, e, absorb_last rest empty)
    | inr (p, rest, e, first, more) ↦ (some p, rest, e, absorb_record p rest first more)
  ]
