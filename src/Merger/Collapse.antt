-- ===== src/Merger/Collapse.antt =====
-- What corsaroftmerge/corsaroftmerge.c makes of the records in the order in which they are popped.
use corsaro.Base.{
  ℕ, ◌+◌, ◌%◌, ◌^◌, ◌≡◌, refl, sym, ◌∙◌, arith, Bool, true, false, Option, none, some, List, [],
  ◌∷◌, ◌++◌, if◌then◌else◌, Bool-cases, inl, inr,
}
use corsaro.Flowtuple.{FlowtupleData}
use corsaro.Merger.{MergerFt, ft_same, same_flow, advance, combine_flowtuple_records, write}
use corsaro.Merger.Order.{key, key_leb, key_eq, key_leb-antisym, same_flow_iff}

-- The writes of run_merger, if the queue gives these records one after the other.
unfoldable pub collapse : Option MergerFt → List MergerFt → List FlowtupleData
unfolding advance
collapse prev [] = write prev
collapse prev (next ∷ rest) = let (now, out) = advance prev next in out ++ collapse (some now) rest

-- No record comes before the one that it follows.
abbrev pub IsChain : List ℕ → List MergerFt → Type 0
IsChain k [] = Unit
IsChain k (x ∷ xs) = (key_leb k (key x.ft) ≡ true) × IsChain (key x.ft) xs

abbrev pub IsSorted : List MergerFt → Type 0
IsSorted [] = Unit
IsSorted (x ∷ xs) = IsChain (key x.ft) xs

-- Every record comes before the next one, and is of another flow.
abbrev pub IsAscendingFrom : List ℕ → List FlowtupleData → Type 0
IsAscendingFrom k [] = Unit
IsAscendingFrom k (g ∷ gs) = (key_leb (key g) k ≡ false) × IsAscendingFrom (key g) gs

abbrev pub IsAscending : List FlowtupleData → Type 0
IsAscending [] = Unit
IsAscending (f ∷ fs) = IsAscendingFrom (key f) fs

-- The packets that a list of records counts for a flow.
abbrev pub packets : List ℕ → List FlowtupleData → ℕ
packets k [] = 0
packets k (f ∷ fs) = (if key_eq k (key f) then f.packet_cnt else 0) + packets k fs

-- Whether a list has a record of a flow.
abbrev pub has_flow : List ℕ → List FlowtupleData → Bool
has_flow k [] = false
has_flow k (f ∷ fs) = if key_eq k (key f) then true else has_flow k fs

abbrev pub fts : List MergerFt → List FlowtupleData
fts [] = []
fts (x ∷ xs) = x.ft ∷ fts xs

collapse-combines :
    (p x : MergerFt) (xs : List MergerFt)
    → same_flow p.ft x.ft ≡ true
    → collapse (some p) (x ∷ xs) ≡ collapse (some (combine_flowtuple_records p x)) xs
unfolding collapse ft_same
collapse-combines p x xs e = rw e refl

collapse-writes :
    (p x : MergerFt) (xs : List MergerFt)
    → same_flow p.ft x.ft ≡ false
    → collapse (some p) (x ∷ xs) ≡ p.ft ∷ collapse (some x) xs
unfolding collapse ft_same
collapse-writes p x xs e = rw e refl

combine-key : (p x : MergerFt) → key (combine_flowtuple_records p x).ft ≡ key x.ft
unfolding combine_flowtuple_records
combine-key p x = refl

-- Two records in order that are not of the same flow.
before :
    (f g : FlowtupleData)
    → key_leb (key f) (key g) ≡ true
    → same_flow f g ≡ false
    → key_leb (key g) (key f) ≡ false
before f g le differs = elim (Bool-cases (key_leb (key g) (key f))) [
  | inl ge ↦ absurd (
      let same = (same_flow_iff f g).1 (key_leb-antisym (key f) (key g) le ge) in
      ground (arith, same))
  | inr lt ↦ lt
]

-- If `prev` comes after a flow, so does all that is written, in strict order.
collapse-IsAscendingFrom :
    (k : List ℕ) (p : MergerFt) (xs : List MergerFt)
    → key_leb (key p.ft) k ≡ false
    → IsChain (key p.ft) xs
    → IsAscendingFrom k (collapse (some p) xs)
unfolding collapse
collapse-IsAscendingFrom k p [] h c = (h, tt)
collapse-IsAscendingFrom k p (x ∷ xs) h (le, c) = elim (Bool-cases (same_flow p.ft x.ft)) [
  | inl e ↦
      let same = (same_flow_iff p.ft x.ft).0 e in
      let q = combine_flowtuple_records p x in
      rw (collapse-combines p x xs e) (
        collapse-IsAscendingFrom k q xs (rw (combine-key p x, sym same) h) (rw (combine-key p x) c))
  | inr e ↦
      rw (collapse-writes p x xs e)
        (h, collapse-IsAscendingFrom (key p.ft) x xs (before p.ft x.ft le e) c)
]

collapse-IsAscending :
    (p : MergerFt) (xs : List MergerFt) → IsChain (key p.ft) xs → IsAscending (collapse (some p) xs)
unfolding collapse
collapse-IsAscending p [] c = tt
collapse-IsAscending p (x ∷ xs) (le, c) = elim (Bool-cases (same_flow p.ft x.ft)) [
  | inl e ↦
      let q = combine_flowtuple_records p x in
      rw (collapse-combines p x xs e) (collapse-IsAscending q xs (rw (combine-key p x) c))
  | inr e ↦
      rw (collapse-writes p x xs e)
        (collapse-IsAscendingFrom (key p.ft) x xs (before p.ft x.ft le e) c)
]

pub collapse_all-IsAscending : (xs : List MergerFt) → IsSorted xs → IsAscending (collapse none xs)
unfolding collapse
collapse_all-IsAscending [] s = tt
collapse_all-IsAscending (x ∷ xs) s = collapse-IsAscending x xs s

-- Combining two records of a flow adds their packets.
combine-packets :
    (k : List ℕ) (p x : MergerFt) (n : ℕ)
    → same_flow p.ft x.ft ≡ true
    → ((if key_eq k (key (combine_flowtuple_records p x).ft)
            then (combine_flowtuple_records p x).ft.packet_cnt
            else 0)
          + n)
        % 2 ^ 32
      ≡ ((if key_eq k (key p.ft) then p.ft.packet_cnt else 0)
          + ((if key_eq k (key x.ft) then x.ft.packet_cnt else 0) + n))
        % 2 ^ 32
unfolding combine_flowtuple_records
combine-packets k p x n e =
    let same = (same_flow_iff p.ft x.ft).0 e in
    rw same (elim (Bool-cases (key_eq k (key x.ft))) [
      | inl y ↦ rw y (omega arith)
      | inr y ↦ rw y (omega arith)
    ])

collapse-packets :
    (k : List ℕ) (p : MergerFt) (xs : List MergerFt)
    → packets k (collapse (some p) xs) % 2 ^ 32
      ≡ ((if key_eq k (key p.ft) then p.ft.packet_cnt else 0) + packets k (fts xs)) % 2 ^ 32
unfolding collapse
collapse-packets k p [] = refl
collapse-packets k p (x ∷ xs) = elim (Bool-cases (same_flow p.ft x.ft)) [
  | inl e ↦ rw (collapse-combines p x xs e) (
      collapse-packets k (combine_flowtuple_records p x) xs
      ∙ combine-packets k p x (packets k (fts xs)) e)
  | inr e ↦ rw (collapse-writes p x xs e) (omega (arith, collapse-packets k x xs))
]

pub collapse_all-packets :
    (k : List ℕ) (xs : List MergerFt)
    → packets k (collapse none xs) % 2 ^ 32 ≡ packets k (fts xs) % 2 ^ 32
unfolding collapse
collapse_all-packets k [] = refl
collapse_all-packets k (x ∷ xs) = collapse-packets k x xs

collapse-has_flow :
    (k : List ℕ) (p : MergerFt) (xs : List MergerFt)
    → has_flow k (collapse (some p) xs)
      ≡ (if key_eq k (key p.ft) then true else has_flow k (fts xs))
unfolding collapse
collapse-has_flow k p [] = refl
collapse-has_flow k p (x ∷ xs) = elim (Bool-cases (same_flow p.ft x.ft)) [
  | inl e ↦
      let same = (same_flow_iff p.ft x.ft).0 e in
      rw (collapse-combines p x xs e) (
        collapse-has_flow k (combine_flowtuple_records p x) xs
        ∙ rw (combine-key p x, same) (ground arith))
  | inr e ↦ rw (collapse-writes p x xs e) (ground (arith, collapse-has_flow k x xs))
]

pub collapse_all-has_flow :
    (k : List ℕ) (xs : List MergerFt) → has_flow k (collapse none xs) ≡ has_flow k (fts xs)
unfolding collapse
collapse_all-has_flow k [] = refl
collapse_all-has_flow k (x ∷ xs) = collapse-has_flow k x xs
