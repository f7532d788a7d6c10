-- ===== src/Dos/Maximum.antt =====
-- The greatest packet rate of a window in libcorsaro/plugins/corsaro_dos.c.
use corsaro.Base.{
  ℕ, zero, suc, ◌+◌, ◌-◌, ◌*◌, ◌/◌, ◌%◌, ◌^◌, ◌≤◌, ◌<◌, ◌≡◌, ◌⊎◌, refl, sym, ap, subst, ◌∙◌, arith,
  false, ◌&&◌, none, some, List, [], ◌∷◌, ltb, leb, ◌==◌, if◌then◌else◌, length, Option-cases,
  Bool-cases, inl, inr, some-inj,
}
use native.Mathlib.Nat.{le-div_iff_mul-le}
use native.Mathlib.Decide.{ℕ_discrete}
use corsaro.Dos.Entries.{
  Entry, lookup, remove, next, IsAscending, IsAscending-weaken, lookup-absent,
}
use corsaro.Dos.{JudyL, DosConfig, value_at, sum_loop, maximum_loop, calculate_maximum_ppm}
use corsaro.Dos.Windows.{value}
use corsaro.Dos.Combine.{later, later_all, next-none, next-some, value_at-count}

-- The sum of the counts of the buckets from lo on and below hi.
abbrev pub within : ℕ → ℕ → List Entry → ℕ
within lo hi [] = 0
within lo hi ((k, v) ∷ es) = (if leb lo k && ltb k hi then v else 0) + within lo hi es

-- The packets of the window that begins at i, as an unsigned number of 32 bits.
abbrev pub window : ℕ → List Entry → ℕ → ℕ
window size es i = within i (i + size) es % 2 ^ 32

within-empty : (lo hi : ℕ) (es : List Entry) → hi ≤ lo → within lo hi es ≡ 0
within-empty lo hi [] less = refl
within-empty lo hi ((k, v) ∷ es) less = ground (arith, within-empty lo hi es less)

within-none : (lo hi : ℕ) (es : List Entry) → next lo es ≡ none → within lo hi es ≡ 0
within-none lo hi [] e = refl
within-none lo hi ((k, v) ∷ es) e = elim (Bool-cases (leb lo k)) [
  | inl here ↦ absurd (ground (arith, here, e))
  | inr below ↦ ground (arith, below, within-none lo hi es (ground (arith, below, e)))
]

-- Only the entries from b on count.
within-from :
    (b lo hi : ℕ) (es : List Entry) → IsAscending b es → lo ≤ b → within lo hi es ≡ within b hi es
within-from b lo hi [] asc less = refl
within-from b lo hi ((k, v) ∷ es) (p, asc) less =
    let q = within-from (suc k) lo hi es asc (omega arith) in
    let r = within-from (suc k) b hi es asc (omega arith) in ground (arith, q, r)

within-first :
    (b lo hi i : ℕ) (es : List Entry)
    → IsAscending b es
    → next lo es ≡ some i
    → within lo hi es ≡ (if ltb i hi then value (lookup i es) else 0) + within (suc i) hi es
within-first b lo hi i [] asc e = absurd (ground (arith, e))
within-first b lo hi i ((k, v) ∷ es) (p, asc) e = elim (Bool-cases (leb lo k)) [
  | inl here ↦
      let same : k ≡ i = some-inj (ground (arith, here, e)) in
      let q = within-from (suc k) lo hi es asc (ground (arith, here)) in
      ground (arith, here, same, q)
  | inr below ↦
      let rest : next lo es ≡ some i = ground (arith, below, e) in
      let (up, _, _) = next-some (suc k) lo i es asc rest in
      ground (arith, below, up, within-first (suc k) lo hi i es asc rest)
]

within-next :
    (b lo hi i : ℕ) (es : List Entry)
    → IsAscending b es
    → next lo es ≡ some i
    → within lo hi es ≡ within i hi es
within-next b lo hi i [] asc e = absurd (ground (arith, e))
within-next b lo hi i ((k, v) ∷ es) (p, asc) e = elim (Bool-cases (leb lo k)) [
  | inl here ↦
      let same : k ≡ i = some-inj (ground (arith, here, e)) in
      let q = within-from (suc k) lo hi es asc (ground (arith, here)) in
      let r = within-from (suc k) i hi es asc (omega (arith, same)) in
      ground (arith, here, same, q, r)
  | inr below ↦
      let rest : next lo es ≡ some i = ground (arith, below, e) in
      let (up, _, _) = next-some (suc k) lo i es asc rest in
      ground (arith, below, up, within-next (suc k) lo hi i es asc rest)
]

next-lookup : (lo i : ℕ) (es : List Entry) → next lo es ≡ some i → (v : ℕ) × (lookup i es ≡ some v)
next-lookup lo i [] e = absurd (ground (arith, e))
next-lookup lo i ((k, v) ∷ es) e = elim (ℕ_discrete k i) [
  | yes same ↦ (v, ground (arith, same))
  | no other ↦
      let rest : next lo es ≡ some i = elim (Bool-cases (leb lo k)) [
        | inl here ↦ absurd (other (some-inj (ground (arith, here, e))))
        | inr below ↦ ground (arith, below, e)
      ] in
      let (u, at) = next-lookup lo i es rest in (u, ground (arith, other, at))
]

-- Removing an entry before the window.
within-remove :
    (b lo hi i : ℕ) (es : List Entry)
    → IsAscending b es
    → i < lo
    → within lo hi (remove i es) ≡ within lo hi es
within-remove b lo hi i [] asc less = refl
within-remove b lo hi i ((k, v) ∷ es) (p, asc) less =
    ground (arith, within-remove (suc k) lo hi i es asc less)

lookup-remove :
    (b i k : ℕ) (es : List Entry)
    → IsAscending b es
    → lookup k (remove i es) ≡ (if i == k then none else lookup k es)
lookup-remove b i k [] asc = ground arith
lookup-remove b i k ((j, v) ∷ es) (p, asc) =
    ground (arith, lookup-remove (suc j) i k es asc, lookup-absent (suc j) k es asc)

remove-IsAscending : (b i : ℕ) (es : List Entry) → IsAscending b es → IsAscending b (remove i es)
remove-IsAscending b i [] asc = tt
remove-IsAscending b i ((j, v) ∷ es) (p, asc) = elim (Bool-cases (j == i)) [
  | inl same ↦
      subst (IsAscending b) (ground (arith, same))
        (IsAscending-weaken (suc j) b es (omega arith) asc)
  | inr other ↦
      let e : (j, v) ∷ remove i es ≡ remove i ((j, v) ∷ es) = ground (arith, other) in
      subst (IsAscending b) e (p, remove-IsAscending (suc j) i es asc)
]

later-remove : (lo i : ℕ) (es : List Entry) → later lo (remove i es) ≤ later lo es
later-remove lo i [] = omega arith
later-remove lo i ((j, v) ∷ es) = ground (arith, later-remove lo i es)

-- Where the windows of an interval that ends with ts begin.
abbrev pub first_bucket : DosConfig → ℕ → ℕ
first_bucket conf ts =
    (ts
      + (2 ^ 32
          - (conf.ppm_window_size / conf.ppm_window_slide - 1) * conf.ppm_window_slide % 2 ^ 32))
    % 2 ^ 32

module _ {Array : Type 0} (judy : JudyL Array) where
  sum_loop-within :
      (fuel index hi acc : ℕ) (a : Array)
      → IsAscending 0 (judy.entries a)
      → acc < 2 ^ 32
      → later index (judy.entries a) ≤ fuel
      → sum_loop judy fuel a (judy.jlf a index) hi acc
        ≡ (acc + within index hi (judy.entries a)) % 2 ^ 32
  unfolding sum_loop
  sum_loop-within zero index hi acc a asc small enough =
      elim (Option-cases (next index (judy.entries a))) [
        | inl over ↦
            let e : judy.jlf a index ≡ none = judy.finds a index ∙ over in
            let empty = within-none index hi (judy.entries a) over in
            rw e (omega (arith, empty, small))
        | inr (i, found) ↦
            let (_, _, fewer) = next-some 0 index i (judy.entries a) asc found in
            absurd (omega (arith, fewer, enough))
      ]
  sum_loop-within (suc fuel) index hi acc a asc small enough =
      elim (Option-cases (next index (judy.entries a))) [
        | inl over ↦
            let e : judy.jlf a index ≡ none = judy.finds a index ∙ over in
            let empty = within-none index hi (judy.entries a) over in
            rw e (omega (arith, empty, small))
        | inr (i, found) ↦
            let e : judy.jlf a index ≡ some i = judy.finds a index ∙ found in
            let (_, _, fewer) = next-some 0 index i (judy.entries a) asc found in
            let first = within-first 0 index hi i (judy.entries a) asc found in
            let at = value_at-count judy a i in
            let ih =
              sum_loop-within fuel (suc i) hi ((acc + value_at judy a i) % 2 ^ 32) a asc
                (omega arith) (omega (arith, fewer, enough)) in
            rw e (elim (Bool-cases (ltb i hi)) [
              | inl inside ↦ ground (arith, inside, ih, at, first)
              | inr past ↦
                  let empty = within-empty (suc i) hi (judy.entries a) (ground (arith, past)) in
                  ground (arith, past, first, empty, small)
            ])
      ]

  -- What a run of the loop from index on gives, where the maximum was m before.
  pub record IsMaximum (index prune size m : ℕ) (a : Array) (result : ℕ × Array) : Type 0 where
    pub above :
        (i v : ℕ)
        → index ≤ i
        → prune ≤ i
        → lookup i (judy.entries a) ≡ some v
        → window size (judy.entries a) i ≤ result.0
    pub starts : m ≤ result.0
    pub reached :
        (result.0 ≡ m)
        ⊎ ((i : ℕ) × (v : ℕ) × (prune ≤ i)
            × (lookup i (judy.entries a) ≡ some v)
            × (window size (judy.entries a) i ≡ result.0))
    pub left :
        (k : ℕ)
        → lookup k (judy.entries result.1)
          ≡ (if leb index k && ltb k prune then none else lookup k (judy.entries a))

  over-IsMaximum :
      (index prune size m : ℕ) (a : Array)
      → next index (judy.entries a) ≡ none
      → IsMaximum index prune size m a (m, a)
  over-IsMaximum index prune size m a over = record {
    above = λ i v p q at. absurd (ground (arith, next-none index i (judy.entries a) over p, at));
    starts = omega arith;
    reached = inl refl;
    left = λ k. ground (arith, next-none index k (judy.entries a) over);
  }

  pruned-IsMaximum :
      (index prune size m i : ℕ) (a : Array) (result : ℕ × Array)
      → IsAscending 0 (judy.entries a)
      → next index (judy.entries a) ≡ some i
      → i < prune
      → IsMaximum (suc i) prune size m (judy.jld a i) result
      → IsMaximum index prune size m a result
  pruned-IsMaximum index prune size m i a result asc found early ih =
      let es = judy.entries a in
      let (low, absent, _) = next-some 0 index i es asc found in
      let gone : (k : ℕ)
          → lookup k (judy.entries (judy.jld a i)) ≡ (if i == k then none else lookup k es) =
        λ k. ap (lookup k) (judy.deletes a i) ∙ lookup-remove 0 i k es asc in
      let same : (k : ℕ)
          → prune ≤ k
          → window size (judy.entries (judy.jld a i)) k ≡ window size es k =
        λ k late.
          ap (λ n. n % 2 ^ 32)
            (ap (within k (k + size)) (judy.deletes a i)
              ∙ within-remove 0 k (k + size) i es asc (omega arith)) in
      record {
        above = λ k v p q at.
            subst (λ n. n ≤ result.0) (same k q)
              (ih.above k v (omega arith) q (ground (arith, gone k, at, early, q)));
        starts = ih.starts;
        reached = elim ih.reached [
          | inl e ↦ inl e
          | inr (k, v, q, at, e) ↦
              inr (k, v, q, ground (arith, gone k, at, early, q), sym (same k q) ∙ e)
        ];
        left = λ k. ground (arith, ih.left k, gone k, low, absent k);
      }

  kept-IsMaximum :
      (index prune size m i w : ℕ) (a : Array) (result : ℕ × Array)
      → IsAscending 0 (judy.entries a)
      → next index (judy.entries a) ≡ some i
      → prune ≤ i
      → w ≡ window size (judy.entries a) i
      → IsMaximum (suc i) prune size (if ltb m w then w else m) a result
      → IsMaximum index prune size m a result
  kept-IsMaximum index prune size m i w a result asc found late at_w ih =
      let es = judy.entries a in
      let (low, absent, _) = next-some 0 index i es asc found in
      let (v, here) = next-lookup index i es found in
      record {
        above = λ k u p q at. elim (ℕ_discrete k i) [
          | yes same ↦
              let e : window size es k ≡ w = ap (window size es) same ∙ sym at_w in
              ground (arith, e, ih.starts)
          | no other ↦ elim (Bool-cases (ltb k i)) [
            | inl before ↦ absurd (ground (arith, absent k p (ground (arith, before)), at))
            | inr after ↦ ih.above k u (ground (arith, after, other)) q at
          ]
        ];
        starts = ground (arith, ih.starts);
        reached = elim ih.reached [
          | inr r ↦ inr r
          | inl e ↦ elim (Bool-cases (ltb m w)) [
            | inl more ↦ inr (i, v, late, here, ground (arith, more, e, at_w))
            | inr less ↦ inl (ground (arith, less, e))
          ]
        ];
        left = λ k. ground (arith, ih.left k, low, absent k, late);
      }

  maximum_loop-IsMaximum :
      (fuel index prune size m : ℕ) (a : Array)
      → IsAscending 0 (judy.entries a)
      → later index (judy.entries a) ≤ fuel
      → IsMaximum index prune size m a (maximum_loop judy fuel size prune (judy.jlf a index) m a)
  unfolding maximum_loop
  maximum_loop-IsMaximum zero index prune size m a asc enough =
      elim (Option-cases (next index (judy.entries a))) [
        | inl over ↦
            let e : judy.jlf a index ≡ none = judy.finds a index ∙ over in
            rw e (over-IsMaximum index prune size m a over)
        | inr (i, found) ↦
            let (_, _, fewer) = next-some 0 index i (judy.entries a) asc found in
            absurd (omega (arith, fewer, enough))
      ]
  maximum_loop-IsMaximum (suc fuel) index prune size m a asc enough =
      elim (Option-cases (next index (judy.entries a))) [
        | inl over ↦
            let e : judy.jlf a index ≡ none = judy.finds a index ∙ over in
            rw e (over-IsMaximum index prune size m a over)
        | inr (i, found) ↦
            let e : judy.jlf a index ≡ some i = judy.finds a index ∙ found in
            let (_, _, fewer) = next-some 0 index i (judy.entries a) asc found in
            rw e (elim (Bool-cases (ltb i prune)) [
              | inl early ↦
                  let a' = judy.jld a i in
                  let asc' : IsAscending 0 (judy.entries a') =
                    subst (IsAscending 0) (sym (judy.deletes a i))
                      (remove-IsAscending 0 i (judy.entries a) asc) in
                  let fewer' : later (suc i) (judy.entries a') ≤ later (suc i) (judy.entries a) =
                    subst (λ es. later (suc i) es ≤ later (suc i) (judy.entries a))
                      (sym (judy.deletes a i)) (later-remove (suc i) i (judy.entries a)) in
                  let ih =
                    maximum_loop-IsMaximum fuel (suc i) prune size m a' asc'
                      (omega (arith, fewer, fewer', enough)) in
                  rw early
                    (pruned-IsMaximum index prune size m i a _ asc found (ground (arith, early)) ih)
              | inr late ↦
                  let w = sum_loop judy (suc fuel) a (some i) (i + size) 0 in
                  let sum =
                    sum_loop-within (suc fuel) index (i + size) 0 a asc (omega arith) enough in
                  let same : within index (i + size) (judy.entries a)
                      ≡ within i (i + size) (judy.entries a) =
                    within-next 0 index (i + size) i (judy.entries a) asc found in
                  let at_w : w ≡ window size (judy.entries a) i =
                    ap (λ o. sum_loop judy (suc fuel) a o (i + size) 0) (sym e)
                    ∙ sum
                    ∙ omega (arith, same) in
                  let ih =
                    maximum_loop-IsMaximum fuel (suc i) prune size (if ltb m w then w else m) a asc
                      (omega (arith, fewer, enough)) in
                  rw late (
                    kept-IsMaximum index prune size m i w a _ asc found (ground (arith, late)) at_w
                      ih)
            ])
      ]

  -- For a configuration with a slide of at least 1 and no more than the window, and enough passes for
  -- the entries, which ascend, calculate_maximum_ppm returns the greatest number of packets, modulo
  -- 2^32, in a window that begins with a bucket from `prune` on, 0 if there is none, and removes the
  -- buckets before.
  pub calculate_maximum_ppm_correct :
      (fuel ts : ℕ) (conf : DosConfig) (a : Array)
      → 1 ≤ conf.ppm_window_slide
      → conf.ppm_window_slide ≤ conf.ppm_window_size
      → IsAscending 0 (judy.entries a)
      → length (judy.entries a) ≤ fuel
      → (result : ℕ × Array) × (calculate_maximum_ppm judy fuel conf a ts ≡ some result)
        × IsMaximum 0 (first_bucket conf ts) conf.ppm_window_size 0 a result
  unfolding calculate_maximum_ppm
  calculate_maximum_ppm_correct fuel ts conf a slides fits asc enough =
      let some_slide : (conf.ppm_window_slide == 0) ≡ false = ground (arith, slides) in
      let some_items : (conf.ppm_window_size / conf.ppm_window_slide == 0) ≡ false = ground (
        arith,
        (le-div_iff_mul-le {x = 1} {y = conf.ppm_window_size} slides).1 (omega (arith, fits)),
      ) in
      (
        maximum_loop judy fuel conf.ppm_window_size (first_bucket conf ts) (judy.jlf a 0) 0 a,
        rw (some_slide, some_items) refl,
        maximum_loop-IsMaximum fuel 0 (first_bucket conf ts) conf.ppm_window_size 0 a asc
            (omega (arith, later_all 0 (judy.entries a), enough)),
      )
