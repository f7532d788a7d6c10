-- ===== src/Merger/Invariant.antt =====
-- What holds of the queue and the sockets of run_merger in corsaroftmerge/corsaroftmerge.c.
use corsaro.Base.{
  ℕ, suc, ◌≤◌, ◌<◌, ◌≡◌, ◌≢◌, refl, sym, subst, arith, true, List, [], ◌∷◌, map, store,
}
use native.Mathlib.Decide.{ℕ_discrete}
use corsaro.PriorityQueue.{Pqueue}
use corsaro.PriorityQueue.Heap.{IsValid, held}
use corsaro.PriorityQueue.Remove.{Removed}
use corsaro.PriorityQueue.Print.{list_count}
use corsaro.Merger.{MergerFt, Reply}
use corsaro.Merger.Order.{key, key_leb, key_leb_trans, above}
use corsaro.Merger.Collapse.{IsChain, IsSorted}
use corsaro.Merger.Streams.{IsComplete, sent, store-other}

-- The first n sockets have been read, and the queue holds one record for each that has more to send,
-- but for socket `s`. `R i` is what socket i has yet to send; there are N sockets.
pub record IsReady (mem : ℕ → MergerFt) (N n s : ℕ) (pq : Pqueue) (insocks : ℕ → List Reply)
    (R : ℕ → List ℕ) : Type 0 where
  pub valid : IsValid (above mem) pq
  pub single : (x : ℕ) → held pq x ≤ 1
  pub started : (x : ℕ) → 1 ≤ held pq x → (mem x).source < n
  pub missing : (x : ℕ) → 1 ≤ held pq x → (mem x).source ≢ s
  pub apart : (x y : ℕ) → 1 ≤ held pq x → 1 ≤ held pq y → (mem x).source ≡ (mem y).source → x ≡ y
  pub more : (x : ℕ) → 1 ≤ held pq x → IsComplete (insocks (mem x).source)
  pub left : (x : ℕ) → 1 ≤ held pq x → sent (insocks (mem x).source) ≡ R (mem x).source
  pub origin : (i p : ℕ) → 1 ≤ list_count p (R i) → (mem p).source ≡ i
  pub within : (i p : ℕ) → 1 ≤ list_count p (R i) → i < N
  pub once : (i p : ℕ) → list_count p (R i) ≤ 1
  pub fresh : (i p : ℕ) → 1 ≤ list_count p (R i) → held pq p ≡ 0
  pub sorted : (i : ℕ) → IsSorted (map mem (R i))
  pub covered :
      (i p : ℕ)
      → i < n
      → i ≢ s
      → 1 ≤ list_count p (R i)
      → (x : ℕ) × (1 ≤ held pq x) × ((mem x).source ≡ i) × (above mem x p ≡ true)

-- The first record of a sorted list stands above the others.
pub chain-above :
    (mem : ℕ → MergerFt) (x p : ℕ) (k : List ℕ) (ps : List ℕ)
    → key_leb (key (mem x).ft) k ≡ true
    → IsChain k (map mem ps)
    → 1 ≤ list_count p ps
    → above mem x p ≡ true
chain-above mem x p k [] le c h = absurd (omega arith)
chain-above mem x p k (q ∷ ps) le (first, c) h =
    let up = key_leb_trans (key (mem x).ft) k (key (mem q).ft) le first in
    elim (ℕ_discrete q p) [
      | yes e ↦ subst (λ y. above mem x y ≡ true) e up
      | no e ↦ chain-above mem x p (key (mem q).ft) ps up c (ground arith)
    ]

module _ {mem : ℕ → MergerFt} {N n : ℕ} {pq : Pqueue} {insocks : ℕ → List Reply}
    {R : ℕ → List ℕ} where
  -- The next socket in the first loop has no record in the queue yet.
  pub start-next : IsReady mem N n n pq insocks R → IsReady mem N (suc n) n pq insocks R
  start-next v = record {
    valid = v.valid;
    single = v.single;
    started = λ x h. omega (arith, v.started x h);
    missing = λ x h. omega (arith, v.started x h);
    apart = v.apart;
    more = v.more;
    left = v.left;
    origin = v.origin;
    within = v.within;
    once = v.once;
    fresh = v.fresh;
    sorted = v.sorted;
    covered = λ i p low other h. v.covered i p (omega arith) other h;
  }

  -- Popping a record leaves its socket without one.
  pub pop-IsReady :
      (x : ℕ) (pq' : Pqueue)
      → IsReady mem N n n pq insocks R
      → Removed (above mem) pq x pq'
      → 1 ≤ held pq x
      → IsReady mem N n (mem x).source pq' insocks R
  pop-IsReady x pq' v (valid, counts) there = record {
    valid = valid;
    single = λ y. omega (arith, v.single y, counts y);
    started = λ y h. v.started y (old y h);
    missing = λ y h e.
        let same : y ≡ x = v.apart y x (old y h) there e in ground (arith, counts y, v.single y);
    apart = λ y z h k e. v.apart y z (old y h) (old z k) e;
    more = λ y h. v.more y (old y h);
    left = λ y h. v.left y (old y h);
    origin = v.origin;
    within = v.within;
    once = v.once;
    fresh = λ i p h. omega (arith, v.fresh i p h, counts p);
    sorted = v.sorted;
    covered = λ i p low other h.
        let (y, k, at, up) = v.covered i p low (omega arith) h in
        (y, ground (arith, counts y), at, up);
  }
    where
      old : (y : ℕ) → 1 ≤ held pq' y → 1 ≤ held pq y
      old y h = omega (arith, counts y)

  -- The last message of socket s.
  pub absorb-none :
      (s : ℕ) (rest : List Reply)
      → IsReady mem N n s pq insocks R
      → R s ≡ []
      → IsReady mem N n n pq (store insocks s rest) R
  absorb-none s rest v empty = record {
    valid = v.valid;
    single = v.single;
    started = v.started;
    missing = λ x h. omega (arith, v.started x h);
    apart = v.apart;
    more = λ x h.
        rw (store-other insocks s (mem x).source rest (λ e. v.missing x h (sym e))) (v.more x h);
    left = λ x h.
        rw (store-other insocks s (mem x).source rest (λ e. v.missing x h (sym e))) (v.left x h);
    origin = v.origin;
    within = v.within;
    once = v.once;
    fresh = v.fresh;
    sorted = v.sorted;
    covered = λ i p low other h. elim (ℕ_discrete i s) [
      | yes e ↦ absurd (let none : list_count p (R i) ≡ 0 = rw (e, empty) refl in omega arith)
      | no e ↦ v.covered i p low e h
    ];
  }
