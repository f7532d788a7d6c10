-- ===== src/Dos/Combine.antt =====
-- How libcorsaro/plugins/corsaro_dos.c adds the buckets of two threads.
use corsaro.Base.{
  ℕ, zero, suc, ◌+◌, ◌%◌, ◌^◌, ◌≤◌, ◌<◌, ◌≡◌, refl, sym, ap, ◌∙◌, arith, Option, none, some, List,
  [], ◌∷◌, leb, ◌==◌, if◌then◌else◌, length, Option-cases, Bool-cases, inl, inr, some-inj,
}
use corsaro.Dos.Entries.{Entry, lookup, next, IsAscending, lookup-absent}
use corsaro.Dos.{JudyL, value_at, combine_loop, combine_ppm_list}
use corsaro.Dos.Windows.{value, lookup-jli}

-- How many entries have an index from i on.
abbrev pub later : ℕ → List Entry → ℕ
later i [] = 0
later i ((j, v) ∷ es) = (if leb i j then 1 else 0) + later i es

pub later_all : (i : ℕ) (es : List Entry) → later i es ≤ length es
later_all i [] = omega arith
later_all i ((j, v) ∷ es) = ground (arith, later_all i es)

later_mono : (i j : ℕ) (es : List Entry) → i ≤ j → later j es ≤ later i es
later_mono i j [] less = omega arith
later_mono i j ((k, v) ∷ es) less = ground (arith, later_mono i j es less)

pub later-none : (i k : ℕ) (es : List Entry) → later i es ≡ 0 → i ≤ k → lookup k es ≡ none
later-none i k [] e less = refl
later-none i k ((j, v) ∷ es) e less = elim (Bool-cases (leb i j)) [
  | inl here ↦ absurd (ground (arith, here, e))
  | inr below ↦ ground (arith, below, later-none i k es (ground (arith, below, e)) less)
]

-- Where there is no later entry.
pub next-none : (i k : ℕ) (es : List Entry) → next i es ≡ none → i ≤ k → lookup k es ≡ none
next-none i k [] e less = refl
next-none i k ((j, v) ∷ es) e less = elim (Bool-cases (leb i j)) [
  | inl here ↦ absurd (ground (arith, here, e))
  | inr below ↦ ground (arith, below, next-none i k es (ground (arith, below, e)) less)
]

-- Where there is one, it is the first.
pub next-some :
    (b i j : ℕ) (es : List Entry)
    → IsAscending b es
    → next i es ≡ some j
    → (i ≤ j) × ((k : ℕ) → i ≤ k → k < j → lookup k es ≡ none) × (later (suc j) es < later i es)
next-some b i j [] asc e = absurd (ground (arith, e))
next-some b i j ((h, v) ∷ es) (p, asc) e = elim (Bool-cases (leb i h)) [
  | inl here ↦
      let same : h ≡ j = some-inj (ground (arith, here, e)) in
      (
        ground (arith, here, same),
        (λ k q r. ground (arith, same, lookup-absent (suc h) k es asc (omega (arith, r, same)))),
        ground (arith, here, same, later_mono i (suc j) es (ground (arith, here, same))),
      )
  | inr below ↦
      let rest : next i es ≡ some j = ground (arith, below, e) in
      let (q, absent, fewer) = next-some (suc h) i j es asc rest in
      (q, (λ k r s. ground (arith, below, absent k r s)), ground (arith, below, fewer, q))
]

as_value : (o : Option ℕ) → (elim o [ none ↦ 0 | some v ↦ v ]) ≡ value o
as_value none = refl
as_value (some v) = refl

module _ {Array : Type 0} (judy : JudyL Array) where
  -- The count on a list for the bucket that starts at k.
  abbrev pub count : Array → ℕ → ℕ
  count a k = value (lookup k (judy.entries a))

  pub value_at-count : (a : Array) (k : ℕ) → value_at judy a k ≡ count a k
  value_at-count a k =
      ap (λ o. elim o [ none ↦ 0 | some v ↦ v ]) (judy.reads a k)
      ∙ as_value (lookup k (judy.entries a))

  combine_loop-count :
      (fuel index : ℕ) (a b : Array)
      → IsAscending 0 (judy.entries b)
      → ((k : ℕ) → index ≤ k → count a k + count b k < 2 ^ 64)
      → later index (judy.entries b) ≤ fuel
      → (k : ℕ)
      → count (combine_loop judy fuel index a b) k
        ≡ count a k + (if leb index k then count b k else 0)
  unfolding combine_loop
  combine_loop-count zero index a b asc fits enough k =
      ground (arith, later-none index k (judy.entries b) (omega arith))
  combine_loop-count (suc fuel) index a b asc fits enough k =
      elim (Option-cases (next index (judy.entries b))) [
        | inl over ↦
            let e : judy.jlf b index ≡ none = judy.finds b index ∙ over in
            rw (combine_loop, e) (ground (arith, next-none index k (judy.entries b) over))
        | inr (i, found) ↦
            let e : judy.jlf b index ≡ some i = judy.finds b index ∙ found in
            let (later_i, absent, fewer) = next-some 0 index i (judy.entries b) asc found in
            let a' = judy.jli a i ((value_at judy a i + value_at judy b i) % 2 ^ 64) in
            let put =
              λ (k : ℕ). lookup-jli judy a i ((value_at judy a i + value_at judy b i) % 2 ^ 64) k in
            let total : (value_at judy a i + value_at judy b i) % 2 ^ 64 ≡ count a i + count b i =
              omega (arith, value_at-count a i, value_at-count b i, fits i later_i) in
            let same : (k : ℕ) → i ≡ k → count a k + count b k ≡ count a i + count b i =
              λ k e. ap (λ k. count a k + count b k) (sym e) in
            let added : (k : ℕ)
                → count a' k ≡ (if i == k then count a k + count b k else count a k) =
              λ k. ground (arith, put k, total, same k) in
            let ih =
              combine_loop-count fuel (suc i) a' b asc
                (λ k above. ground (arith, added k, fits k, above, later_i))
                (omega (arith, fewer, enough)) k in
            rw (combine_loop, e) (ground (arith, ih, added k, absent k, later_i))
      ]

  -- Where the fuel is at least the number of entries of b, its entries ascend, and every sum keeps
  -- to 64 bits, combine_ppm_list gives a list with the sum of the two counts for every bucket.
  pub combine_ppm_list_adds :
      (fuel : ℕ) (a b : Array)
      → IsAscending 0 (judy.entries b)
      → ((k : ℕ) → count a k + count b k < 2 ^ 64)
      → length (judy.entries b) ≤ fuel
      → (k : ℕ) → count (combine_ppm_list judy fuel a b) k ≡ count a k + count b k
  unfolding combine_ppm_list
  combine_ppm_list_adds fuel a b asc fits enough k = ground (
    arith,
    combine_loop-count fuel 0 a b asc (λ k _. fits k)
        (omega (arith, later_all 0 (judy.entries b), enough)) k,
  )
