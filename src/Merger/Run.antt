-- ===== src/Merger/Run.antt =====
-- run_merger of corsaroftmerge/corsaroftmerge.c merges sorted inputs.
use corsaro.Base.{
  ℕ, suc, ◌+◌, ◌%◌, ◌^◌, ◌≤◌, ◌<◌, ◌≡◌, refl, sym, ap, subst, ◌∙◌, arith, Bool, true, false, none,
  some, List, [], ltb, if◌then◌else◌, map, length, total,
}
use native.Mathlib.Decide.{dec_lt}
use corsaro.Flowtuple.{FlowtupleData}
use corsaro.PriorityQueue.{Cells, Pqueue}
use corsaro.PriorityQueue.Heap.{IsValid}
use corsaro.PriorityQueue.Print.{list_count, held-empty}
use corsaro.Merger.{MergerFt, Reply, merged, setup_loop, merge_loop, proceed, run_merger}
use corsaro.Merger.Order.{above}
use corsaro.Merger.Collapse.{
  collapse, IsSorted, IsAscending, packets, has_flow, fts, collapse_all-IsAscending,
  collapse_all-packets, collapse_all-has_flow,
}
use corsaro.Merger.Streams.{IsComplete, sent, length-sent, total_mono}
use corsaro.Merger.Invariant.{IsReady}
use corsaro.Merger.Setup.{setup_loop-IsSetUp}
use corsaro.Merger.Loop.{merge_loop-Popping}

-- What the sockets send in all, by the number of the socket.
abbrev pub inputs : ℕ → (ℕ → List Reply) → ℕ → List ℕ
inputs tcount insocks i = if ltb i tcount then sent (insocks i) else []

-- Every socket sends pointers to records of its own, each once and in order, and then NULL.
pub record IsInput (mem : ℕ → MergerFt) (tcount : ℕ) (insocks : ℕ → List Reply) : Type 0 where
  pub complete : (i : ℕ) → i < tcount → IsComplete (insocks i)
  pub origin : (i p : ℕ) → i < tcount → 1 ≤ list_count p (sent (insocks i)) → (mem p).source ≡ i
  pub once : (i p : ℕ) → i < tcount → list_count p (sent (insocks i)) ≤ 1
  pub sorted : (i : ℕ) → i < tcount → IsSorted (map mem (sent (insocks i)))

-- What is written is in strict order, and has a record for exactly the flows of the records that are
-- sent, with their packets added up modulo 2^32.
abbrev pub IsMerge : (ℕ → MergerFt) → ℕ → (ℕ → List Reply) → List FlowtupleData → Type 0
IsMerge mem tcount insocks written =
    IsAscending written
    × ((popped : List ℕ) × ((y : ℕ)
          → list_count y popped ≡ list_count y (inputs tcount insocks (mem y).source))
        × ((k : List ℕ) → has_flow k written ≡ has_flow k (fts (map mem popped)))
        × ((k : List ℕ) → packets k written % 2 ^ 32 ≡ packets k (fts (map mem popped)) % 2 ^ 32))

module _ (mem : ℕ → MergerFt) (tcount : ℕ) (insocks : ℕ → List Reply)
    (input : IsInput mem tcount insocks) where
  abbrev R : ℕ → List ℕ
  R = inputs tcount insocks

  R-inside : (i : ℕ) → i < tcount → R i ≡ sent (insocks i)
  R-inside i h = let e : ltb i tcount ≡ true = ground arith in rw e refl

  R-outside : (i : ℕ) → tcount ≤ i → R i ≡ []
  R-outside i h = let e : ltb i tcount ≡ false = ground arith in rw e refl

  R-within : (i p : ℕ) → 1 ≤ list_count p (R i) → i < tcount
  R-within i p h = elim (dec_lt i tcount) [
    | yes low ↦ low
    | no high ↦
        absurd
          (let none : list_count p (R i) ≡ 0 = rw (R-outside i (omega arith)) refl in omega arith)
  ]

  R-sent : (i p : ℕ) → 1 ≤ list_count p (R i) → 1 ≤ list_count p (sent (insocks i))
  R-sent i p h = subst (λ l. 1 ≤ list_count p l) (R-inside i (R-within i p h)) h

  -- The queue that pqueue_init gives, before anything is read.
  starts-IsReady :
      (pq : Pqueue) → IsValid (above mem) pq → pq.size ≡ 1 → IsReady mem tcount 0 0 pq insocks R
  starts-IsReady pq valid one =
      let empty = λ (x : ℕ). held-empty pq x one in
      record {
        valid = valid;
        single = λ x. omega (arith, empty x);
        started = λ x h. absurd (omega (arith, empty x));
        missing = λ x h. absurd (omega (arith, empty x));
        apart = λ x y h k e. absurd (omega (arith, empty x));
        more = λ x h. absurd (omega (arith, empty x));
        left = λ x h. absurd (omega (arith, empty x));
        origin = λ i p h. input.origin i p (R-within i p h) (R-sent i p h);
        within = R-within;
        once = λ i p. elim (dec_lt i tcount) [
          | yes low ↦ rw (R-inside i low) (input.once i p low)
          | no high ↦ rw (R-outside i (omega arith)) (omega arith)
        ];
        fresh = λ i p h. sym (empty p);
        sorted = λ i. elim (dec_lt i tcount) [
          | yes low ↦ rw (R-inside i low) (input.sorted i low)
          | no high ↦ rw (R-outside i (omega arith)) tt
        ];
        covered = λ i p low other h. absurd (omega arith);
      }

  total-R : (n : ℕ) → total n (λ i. length (R i)) ≤ total n (λ i. length (insocks i))
  total-R n =
      total_mono n (λ i. length (R i)) (λ i. length (insocks i))
        (λ i. elim (dec_lt i tcount) [
          | yes low ↦ rw (R-inside i low) (length-sent (insocks i))
          | no high ↦ rw (R-outside i (omega arith)) (omega arith)
        ])

  starts-IsValid :
      (cells : Cells)
      → IsValid
          (above mem)
          (record { size = 1; avail = tcount + 1; step = tcount + 1; cells = cells })
  starts-IsValid cells = record {
    sized = omega arith;
    fits = omega arith;
    grows = omega arith;
    heap = λ c low high. absurd (omega arith);
    placed = λ j low high. absurd (omega arith);
  }

-- The two loops one after the other.
run_merger-merged :
    (allocated : Bool) (mem : ℕ → MergerFt) (tcount : ℕ) (cells : Cells) (insocks : ℕ → List Reply)
    (pq' : Pqueue) (insocks' : ℕ → List Reply)
    → setup_loop allocated mem tcount 0
        (record { size = 1; avail = tcount + 1; step = tcount + 1; cells = cells })
        insocks
      ≡ (merged, pq', insocks')
    → run_merger allocated mem true tcount cells insocks
      ≡ some (
          merge_loop allocated mem (suc (total tcount (λ i. length (insocks i)))) pq' insocks' none)
unfolding run_merger
run_merger-merged allocated mem tcount cells insocks pq' insocks' e =
    let fuel = suc (total tcount (λ i. length (insocks i))) in
    ap (λ r. some (proceed allocated mem fuel r)) e

-- If the queue can be allocated, and every reader sends records in order, each once, and then NULL,
-- with no error before it, run_merger ends, whether or not the queue could grow. What it has written
-- is in strict order, has a record for exactly the flows that were sent, and counts their packets
-- modulo 2^32.
pub run_merger_correct :
    (allocated : Bool) (mem : ℕ → MergerFt) (tcount : ℕ) (cells : Cells) (insocks : ℕ → List Reply)
    → IsInput mem tcount insocks
    → (written : List FlowtupleData) × (run_merger allocated mem true tcount cells insocks
        ≡ some (merged, written))
      × IsMerge mem tcount insocks written
run_merger_correct allocated mem tcount cells insocks input =
    let pq : Pqueue = record { size = 1; avail = tcount + 1; step = tcount + 1; cells = cells } in
    let (pq', insocks', first, s) =
      setup_loop-IsSetUp allocated mem tcount tcount 0 pq insocks (inputs tcount insocks)
        (omega arith)
        (starts-IsReady mem tcount insocks input pq (starts-IsValid mem tcount insocks input cells)
          refl)
        (λ j h k. input.complete j k) (λ j h k. sym (R-inside mem tcount insocks input j k))
        (omega arith) (omega arith) in
    let fuel = suc (total tcount (λ i. length (insocks i))) in
    let (popped, run, ordered, counts) =
      merge_loop-Popping allocated mem tcount fuel pq' insocks' s.R' none s.ready s.size s.avail
        (omega (arith, s.spent, total-R mem tcount insocks input tcount)) in
    let xs = map mem popped in
    (
      collapse none xs,
      run_merger-merged allocated mem tcount cells insocks pq' insocks' first ∙ rw run refl,
      (
        collapse_all-IsAscending xs ordered,
        (
          popped,
          (λ y. omega (arith, counts y, s.counts y, held-empty pq y refl)),
          (λ k. collapse_all-has_flow k xs),
          (λ k. collapse_all-packets k xs),
        ),
      ),
    )
