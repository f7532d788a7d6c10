-- ===== src/Merger/Order.antt =====
-- The order of flowtuples in corsaroftmerge/corsaroftmerge.c: by the eleven fields that identify one.
use corsaro.Base.{
  ℕ, ◌≡◌, ◌↔◌, refl, sym, arith, Bool, true, false, some, List, [], ◌∷◌, ◌==◌, ◌&&◌, ◌∙◌,
}
use corsaro.Flowtuple.{FlowtupleData}
use corsaro.PriorityQueue.Order.{IsPriority}
use corsaro.Merger.{MergerFt, same_flow, ft_same, ft_cmp_pri, by_field, cmp}

-- What identifies a flowtuple, in the order of ft_cmp_pri.
abbrev pub key : FlowtupleData → List ℕ
key f =
    f.interval_ts ∷ f.protocol ∷ f.ttl ∷ f.tcp_flags ∷ f.src_ip ∷ f.dst_ip ∷ f.src_port ∷ f.dst_port
    ∷ f.ip_len ∷ f.tcp_synlen ∷ f.tcp_synwinlen ∷ []

-- The lexicographic order.
unfoldable pub key_leb : List ℕ → List ℕ → Bool
key_leb [] ys = true
key_leb (x ∷ xs) [] = false
key_leb (x ∷ xs) (y ∷ ys) = by_field x y (key_leb xs ys)

pub key_leb-total : (xs ys : List ℕ) → key_leb xs ys ≡ false → key_leb ys xs ≡ true
unfolding key_leb
key_leb-total [] ys h = ground arith
key_leb-total (x ∷ xs) [] h = refl
key_leb-total (x ∷ xs) (y ∷ ys) h = ground (arith, key_leb-total xs ys)

pub key_leb_trans :
    (xs ys zs : List ℕ) → key_leb xs ys ≡ true → key_leb ys zs ≡ true → key_leb xs zs ≡ true
unfolding key_leb
key_leb_trans [] ys zs h k = refl
key_leb_trans (x ∷ xs) [] zs h k = ground arith
key_leb_trans (x ∷ xs) (y ∷ ys) [] h k = ground arith
key_leb_trans (x ∷ xs) (y ∷ ys) (z ∷ zs) h k = ground (arith, key_leb_trans xs ys zs)

pub key_leb_refl : (xs : List ℕ) → key_leb xs xs ≡ true
unfolding key_leb
key_leb_refl [] = refl
key_leb_refl (x ∷ xs) = ground (arith, key_leb_refl xs)

unfoldable pub key_eq : List ℕ → List ℕ → Bool
key_eq [] [] = true
key_eq [] (y ∷ ys) = false
key_eq (x ∷ xs) [] = false
key_eq (x ∷ xs) (y ∷ ys) = (x == y) && key_eq xs ys

-- Two keys that stand in both orders are equal.
pub key_leb-antisym : (xs ys : List ℕ) → key_leb xs ys ≡ true → key_leb ys xs ≡ true → xs ≡ ys
unfolding key_leb
key_leb-antisym [] [] h k = refl
key_leb-antisym [] (y ∷ ys) h k = absurd (ground arith)
key_leb-antisym (x ∷ xs) [] h k = absurd (ground arith)
key_leb-antisym (x ∷ xs) (y ∷ ys) h k =
    let e : x ≡ y = ground arith in rw (e, key_leb-antisym xs ys (ground arith) (ground arith)) refl

-- The callback says that `curr` comes before `next`, or that they are the same flow.
pub ft_cmp_pri-key_leb :
    (next curr : MergerFt) → ft_cmp_pri next curr ≡ key_leb (key curr.ft) (key next.ft)
unfolding ft_cmp_pri key_leb
ft_cmp_pri-key_leb next curr = refl

-- A flow may stand above the flows that do not come before it.
abbrev pub above : (ℕ → MergerFt) → ℕ → ℕ → Bool
above mem a b = key_leb (key (mem a).ft) (key (mem b).ft)

-- corsaroftmerge's callback orders a priority queue by the flows' keys, whatever the records are.
pub cmp-IsPriority : (mem : ℕ → MergerFt) → IsPriority (cmp mem) (above mem)
cmp-IsPriority mem = record {
  yes = λ a b e. sym (ft_cmp_pri-key_leb (mem a) (mem b)) ∙ e;
  no = λ a b e.
      key_leb-total (key (mem b).ft) (key (mem a).ft)
        (sym (ft_cmp_pri-key_leb (mem a) (mem b)) ∙ e);
  trans = λ a b c. key_leb_trans (key (mem a).ft) (key (mem b).ft) (key (mem c).ft);
}

pub key_eq_refl : (xs : List ℕ) → key_eq xs xs ≡ true
unfolding key_eq
key_eq_refl [] = refl
key_eq_refl (x ∷ xs) = ground (arith, key_eq_refl xs)

pub key_eq_sound : (xs ys : List ℕ) → key_eq xs ys ≡ true → xs ≡ ys
unfolding key_eq
key_eq_sound [] [] h = refl
key_eq_sound [] (y ∷ ys) h = absurd (ground arith)
key_eq_sound (x ∷ xs) [] h = absurd (ground arith)
key_eq_sound (x ∷ xs) (y ∷ ys) h =
    let e : x ≡ y = ground arith in rw (e, key_eq_sound xs ys (ground arith)) refl

pub same_flow-key_eq : (a b : FlowtupleData) → same_flow a b ≡ key_eq (key a) (key b)
unfolding same_flow key_eq
same_flow-key_eq a b = ground arith

-- Two records are of the same flow exactly if their keys are equal.
pub same_flow_iff : (a b : FlowtupleData) → (same_flow a b ≡ true) ↔ (key a ≡ key b)
same_flow_iff a b = (
  (λ e. key_eq_sound (key a) (key b) (sym (same_flow-key_eq a b) ∙ e)),
  (λ e. same_flow-key_eq a b ∙ rw e (key_eq_refl (key b))),
)

-- The comparison asks to exchange two records whichever of them comes first exactly if they are of
-- the same flow.
pub ft_cmp_pri-ft_same :
    (a b : MergerFt)
    → ((ft_cmp_pri a b ≡ true) × (ft_cmp_pri b a ≡ true)) ↔ (ft_same (some a) (some b) ≡ true)
unfolding ft_same
ft_cmp_pri-ft_same a b = (
  (λ (x, y). (same_flow_iff a.ft b.ft).1 (
      key_leb-antisym (key a.ft) (key b.ft) (sym (ft_cmp_pri-key_leb b a) ∙ y)
        (sym (ft_cmp_pri-key_leb a b) ∙ x))),
  (λ e.
      let same = (same_flow_iff a.ft b.ft).0 e in
      (
        ft_cmp_pri-key_leb a b ∙ rw same (key_leb_refl (key b.ft)),
        ft_cmp_pri-key_leb b a ∙ rw same (key_leb_refl (key b.ft)),
      )),
)
