-- ===== src/Merger/Insertion.antt =====
-- A record of a socket goes into the queue of run_merger in corsaroftmerge/corsaroftmerge.c.
use corsaro.Base.{
  ℕ, ◌+◌, ◌≤◌, ◌<◌, ◌≡◌, ◌≢◌, ◌⊎◌, refl, sym, subst, ◌∙◌, arith, true, List, [], ◌∷◌, map, store,
  inl, inr,
}
use native.Mathlib.Decide.{ℕ_discrete}
use corsaro.PriorityQueue.{Pqueue}
use corsaro.PriorityQueue.Heap.{IsValid, count1, held}
use corsaro.PriorityQueue.Print.{list_count}
use corsaro.Merger.{MergerFt, Reply}
use corsaro.Merger.Order.{key, key_leb_refl, above}
use corsaro.Merger.Collapse.{IsChain, IsSorted}
use corsaro.Merger.Streams.{IsComplete, sent, store-same, store-other}
use corsaro.Merger.Invariant.{IsReady, chain-above}

chain-IsSorted :
    (mem : ℕ → MergerFt) (k : List ℕ) (ps : List ℕ) → IsChain k (map mem ps) → IsSorted (map mem ps)
chain-IsSorted mem k [] c = tt
chain-IsSorted mem k (p ∷ ps) (_, c) = c

-- A record of socket s goes into the queue.
module _ {mem : ℕ → MergerFt} {N n : ℕ} {pq : Pqueue} {insocks : ℕ → List Reply} {R : ℕ → List ℕ}
    (s p : ℕ) (ps : List ℕ) (rest : List Reply) (pq' : Pqueue) (v : IsReady mem N n s pq insocks R)
    (low : s < n) (first : R s ≡ p ∷ ps) (complete : IsComplete rest) (remaining : sent rest ≡ ps)
    (valid : IsValid (above mem) pq') (counts : (y : ℕ) → held pq' y ≡ held pq y + count1 y p) where
  abbrev R' : ℕ → List ℕ
  R' = store R s ps

  at_s : R' s ≡ ps
  at_s = store-same R s ps

  counted : (q : ℕ) → list_count q (R s) ≡ count1 q p + list_count q ps
  counted q = rw first refl

  self : count1 p p ≡ 1
  self = ground arith

  source_p : (mem p).source ≡ s
  source_p = v.origin s p (omega (arith, counted p, self))

  fresh_p : held pq p ≡ 0
  fresh_p = v.fresh s p (omega (arith, counted p, self))

  fewer : (i q : ℕ) → list_count q (R' i) ≤ list_count q (R i)
  fewer i q = elim (ℕ_discrete s i) [
    | yes e ↦ rw (sym e, at_s) (omega (arith, counted q))
    | no e ↦ rw (store-other R s i ps e) (omega arith)
  ]

  newcomer : (y : ℕ) → 1 ≤ held pq' y → (y ≡ p) ⊎ (1 ≤ held pq y)
  newcomer y h = elim (ℕ_discrete p y) [
    | yes e ↦ inl (sym e)
    | no e ↦ inr (ground (arith, counts y))
  ]

  absorbed-started : (y : ℕ) → 1 ≤ held pq' y → (mem y).source < n
  absorbed-started y h = elim (newcomer y h) [
    | inl e ↦ rw (e, source_p) low
    | inr k ↦ v.started y k
  ]

  absorbed-apart :
      (x y : ℕ) → 1 ≤ held pq' x → 1 ≤ held pq' y → (mem x).source ≡ (mem y).source → x ≡ y
  absorbed-apart x y h k e = elim (newcomer x h) [
    | inl a ↦ elim (newcomer y k) [
      | inl b ↦ a ∙ sym b
      | inr b ↦ absurd (v.missing y b (sym e ∙ rw a source_p))
    ]
    | inr a ↦ elim (newcomer y k) [
      | inl b ↦ absurd (v.missing x a (e ∙ rw b source_p))
      | inr b ↦ v.apart x y a b e
    ]
  ]

  absorbed-more : (y : ℕ) → 1 ≤ held pq' y → IsComplete (store insocks s rest (mem y).source)
  absorbed-more y h = elim (newcomer y h) [
    | inl e ↦ rw (e, source_p, store-same insocks s rest) complete
    | inr k ↦
        rw (store-other insocks s (mem y).source rest (λ e. v.missing y k (sym e))) (v.more y k)
  ]

  absorbed-left :
      (y : ℕ) → 1 ≤ held pq' y → sent (store insocks s rest (mem y).source) ≡ R' (mem y).source
  absorbed-left y h = elim (newcomer y h) [
    | inl e ↦ rw (e, source_p, store-same insocks s rest, at_s) remaining
    | inr k ↦
        let other : s ≢ (mem y).source = λ e. v.missing y k (sym e) in
        rw
          (store-other insocks s (mem y).source rest other, store-other R s (mem y).source ps other)
          (v.left y k)
  ]

  absorbed-fresh : (i q : ℕ) → 1 ≤ list_count q (R' i) → held pq' q ≡ 0
  absorbed-fresh i q h =
      let before = v.fresh i q (omega (arith, fewer i q)) in
      elim (ℕ_discrete p q) [
        | yes e ↦
            let own : i ≡ s = sym (v.origin i q (omega (arith, fewer i q))) ∙ rw (sym e) source_p in
            let again : list_count p (R' i) ≡ list_count p ps = rw (own, at_s) refl in
            let there : 1 ≤ list_count p (R' i) = rw e h in
            absurd (omega (arith, again, there, counted p, self, v.once s p))
        | no e ↦ ground (arith, counts q, before)
      ]

  absorbed-IsSorted : (i : ℕ) → IsSorted (map mem (R' i))
  absorbed-IsSorted i = elim (ℕ_discrete s i) [
    | yes e ↦
        let c : IsSorted (map mem (p ∷ ps)) =
          subst (λ l. IsSorted (map mem l)) first (v.sorted s) in
        rw (sym e, at_s) (chain-IsSorted mem (key (mem p).ft) ps c)
    | no e ↦ rw (store-other R s i ps e) (v.sorted i)
  ]

  absorbed-covered :
      (i q : ℕ)
      → i < n
      → 1 ≤ list_count q (R' i)
      → (x : ℕ) × (1 ≤ held pq' x) × ((mem x).source ≡ i) × (above mem x q ≡ true)
  absorbed-covered i q h there = elim (ℕ_discrete s i) [
    | yes e ↦
        let c : IsSorted (map mem (p ∷ ps)) =
          subst (λ l. IsSorted (map mem l)) first (v.sorted s) in
        let k : 1 ≤ list_count q ps =
          subst (λ l. 1 ≤ list_count q l) at_s
            (subst (λ j. 1 ≤ list_count q (R' j)) (sym e) there) in
        (
          p,
          omega (arith, counts p, self),
          source_p ∙ e,
          chain-above mem p q (key (mem p).ft) ps (key_leb_refl (key (mem p).ft)) c k,
        )
    | no e ↦
        let k : 1 ≤ list_count q (R i) =
          subst (λ l. 1 ≤ list_count q l) (store-other R s i ps e) there in
        let (x, held_x, at, up) = v.covered i q h (λ a. e (sym a)) k in
        (x, omega (arith, counts x), at, up)
  ]

  pub absorb-some : IsReady mem N n n pq' (store insocks s rest) R'
  absorb-some = record {
    valid = valid;
    single = λ y. ground (arith, counts y, v.single y, fresh_p);
    started = absorbed-started;
    missing = λ y h. omega (arith, absorbed-started y h);
    apart = absorbed-apart;
    more = absorbed-more;
    left = absorbed-left;
    origin = λ i q h. v.origin i q (omega (arith, fewer i q));
    within = λ i q h. v.within i q (omega (arith, fewer i q));
    once = λ i q. omega (arith, v.once i q, fewer i q);
    fresh = absorbed-fresh;
    sorted = absorbed-IsSorted;
    covered = λ i q h other there. absorbed-covered i q h there;
  }
