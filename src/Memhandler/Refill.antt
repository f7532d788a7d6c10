-- ===== src/Memhandler/Refill.antt =====
-- How libcorsaro/libcorsaro_memhandler.c replaces a blob that is used up.
use corsaro.Base.{
  ℕ, suc, ◌+◌, ◌*◌, ◌/◌, ◌%◌, ◌^◌, ◌≤◌, ◌<◌, ◌≡◌, ◌≢◌, arith, Option, none, some, List, [], ◌∷◌,
  length, store, refl, ap, ◌∙◌, sym, inl, inr, subst, some-inj, Bool-cases, leb,
}
use native.Mathlib.Nat.{div-add-mod', mod-lt, mul_comm}
use native.Mathlib.Decide.{ℕ_discrete}
use corsaro.PriorityQueue.Print.{list_count}
use corsaro.Memhandler.{
  Memsource, Memhandler, State, Fresh, upsize, recycled, replace_current, refill, create_fresh_blob,
  decrement, increment,
}
use corsaro.Memhandler.Ledger.{Held, nth, from, from-nth, from-held, IsApart}
use corsaro.Memhandler.Store.{store-all, store-regions, store-IsPlaced}
use corsaro.Memhandler.Valid.{
  IsFreelist, IsLive, IsPlaced, IsValid, IsFresh, IsFreelist-store, IsFreelist-listed,
}

-- A blob has room for its items.
pub upsize_fits :
    (items size page : ℕ)
    → 1 ≤ page
    → size * items + page < 2 ^ 64
    → items * size ≤ upsize items size page
unfolding upsize
upsize_fits items size page whole_page small =
    let n = size * items in
    let whole = div-add-mod' n page in
    let part : n % page < page = mod-lt n whole_page in
    let same : n % 2 ^ 64 ≡ n = omega arith in
    let next : (n / page + 1) * page ≡ n / page * page + page = omega arith in
    let fits : n ≤ (n / page + 1) * page % 2 ^ 64 = omega (arith, next, whole, part) in
    rw (mul_comm items size, same) fits

-- A blob of which everything is back, or nothing is in use.
empty-IsLive :
    (h h' : Memhandler) (p : ℕ) (m : Memsource) (held idle idle' : ℕ)
    → IsLive h p m held idle
    → h'.items_per_blob ≡ h.items_per_blob
    → h'.itemsize ≡ h.itemsize
    → p ≡ h'.current
    → held ≡ 0
    → IsLive h' p (recycled m) held idle'
empty-IsLive h h' p m held idle idle' v items size here none_held = record {
  sized = v.sized ∙ sym items;
  item = v.item ∙ sym size;
  fits = rw (items, size) v.fits;
  counted = omega (arith, none_held);
  within = omega arith;
  used_up = λ other. absurd (other here);
  kept = λ other. absurd (other here);
  unused = λ _. none_held;
}

-- A source that stays as it is while the handler goes on to another current blob.
left-IsLive :
    (h h' : Memhandler) (p : ℕ) (m : Memsource) (held idle : ℕ)
    → IsLive h p m held idle
    → h'.items_per_blob ≡ h.items_per_blob
    → h'.itemsize ≡ h.itemsize
    → (p ≡ h.current → (m.alloceditems ≤ m.nextavail) × (m.released ≢ m.alloceditems))
    → IsLive h' p m held idle
left-IsLive h h' p m held idle v items size old = record {
  sized = v.sized ∙ sym items;
  item = v.item ∙ sym size;
  fits = rw (items, size) v.fits;
  counted = v.counted;
  within = rw items v.within;
  used_up = λ _. elim (ℕ_discrete p h.current) [
    | yes same ↦ let (full, _) = old same in omega (arith, full, v.sized, v.within, items)
    | no other ↦ v.used_up other ∙ sym items
  ];
  kept = λ _ none_held. elim (ℕ_discrete p h.current) [
    | yes same ↦
        let (full, some_left) = old same in
        absurd (some_left (omega (arith, full, v.sized, v.within, v.counted, none_held)))
    | no other ↦ v.kept other none_held
  ];
  unused = v.unused;
}

-- What refill leads to: the users hold what they held, and the current blob has a slot.
abbrev pub Refilled : Option State → State → List Held → Type 0
Refilled result s held =
    (s' : State) × (free' : List ℕ) × (m : Memsource) × (result ≡ some s')
    × IsValid s' held free'
    × (s'.sources s'.handler.current ≡ some m)
    × (m.nextavail < m.alloceditems)
    × (s'.locked ≡ s.locked)

-- The states that the two other ways to replace the current blob lead to.
abbrev fresh_source : ℕ → Memhandler → Memsource
fresh_source b h = record {
  blob = b;
  blobsize = upsize h.items_per_blob h.itemsize h.pagesize;
  itemsize = h.itemsize;
  alloceditems = h.items_per_blob;
  nextavail = 0;
  released = 0;
  nextfree = 0;
}

abbrev mapped : Fresh → ℕ → State → State
mapped new b s = record s {
  handler = record (s.handler) {
    current = new.source;
    unreleased = increment s.handler.unreleased;
  };
  sources = store s.sources new.source (some (fresh_source b s.handler));
}

abbrev popped : ℕ → Memsource → State → State
popped p m s = record s {
  handler = record (s.handler) {
    current = p;
    freelist = m.nextfree;
    freelistavail = decrement s.handler.freelistavail;
    unreleased = increment s.handler.unreleased;
  };
  sources = store s.sources p (some (recycled m));
}

module _ (s : State) (held : List Held) (free : List ℕ) (v : IsValid s held free) where
  -- A source of which nothing is held can be written where its region stays the same.
  recycle-IsPlaced :
      (p : ℕ) (m : Memsource)
      → from p held ≡ 0
      → (i : ℕ) (x : Held) → nth i held ≡ some x
      → IsPlaced (store s.sources p (some m)) x
  recycle-IsPlaced p m none_held i x at =
      store-IsPlaced s.sources p m x
        (λ same. absurd (ground (arith, from-nth i x held at, none_held, same))) (v.placed i x at)

  recycle-regions :
      (p : ℕ) (m : Memsource)
      → s.sources p ≡ some m
      → (q r : ℕ) (n n' : Memsource) → q ≢ r
      → store s.sources p (some (recycled m)) q ≡ some n
      → store s.sources p (some (recycled m)) r ≡ some n'
      → IsApart n.blob n.blobsize n'.blob n'.blobsize
  recycle-regions p m found =
      store-regions s.sources p (recycled m) v.regions
        (λ q n other at. v.regions p q m n (λ e. other (sym e)) found at)

  recycle_current :
      (m : Memsource)
      → s.sources s.handler.current ≡ some m
      → from s.handler.current held ≡ 0
      → IsValid
          (record s { sources = store s.sources s.handler.current (some (recycled m)) })
          held
          free
  recycle_current m found none_held =
      let h = s.handler in
      record {
        some_items = v.some_items;
        few_items = v.few_items;
        small = v.small;
        null = ground (arith, v.null, found);
        chain =
            IsFreelist-store s.sources h.freelist h.current (some (recycled m)) free v.not_free
              v.chain;
        once = v.once;
        avail = v.avail;
        short = v.short;
        active = (recycled m, ground arith);
        not_free = v.not_free;
        live =
            store-all s.sources h.current (recycled m)
              (λ p m. IsLive h p m (from p held) (list_count p free))
              (empty-IsLive h h h.current m _ _ _ (v.live h.current m found) refl refl refl
                none_held)
              (λ q n other at. v.live q n at);
        placed = recycle-IsPlaced h.current (recycled m) none_held;
        apart = v.apart;
        regions = recycle-regions h.current m found;
      }

  unplaced : (p : ℕ) → s.sources p ≡ none → from p held ≡ 0
  unplaced p away = elim (ℕ_discrete (from p held) 0) [
    | yes none_held ↦ none_held
    | no some_held ↦
        let (i, x, at, e) = from-held p held (omega arith) in
        let (m, found, _, _, _) = v.placed i x at in absurd (ground (arith, e, found, away))
  ]

  unlisted : (p : ℕ) → s.sources p ≡ none → list_count p free ≡ 0
  unlisted p away = elim (ℕ_discrete (list_count p free) 0) [
    | yes none_listed ↦ none_listed
    | no some_listed ↦
        let (m, found) =
          IsFreelist-listed s.sources s.handler.freelist p free (omega arith) v.chain in
        absurd (ground (arith, found, away))
  ]

  recycle_fresh :
      (new : Fresh) (b : ℕ)
      → new.source ≢ 0
      → s.sources new.source ≡ none
      → ((p : ℕ) (m : Memsource)
          → s.sources p ≡ some m
          → IsApart b
              (upsize s.handler.items_per_blob s.handler.itemsize s.handler.pagesize)
              m.blob
              m.blobsize)
      → ((m : Memsource)
          → s.sources s.handler.current ≡ some m
          → (m.alloceditems ≤ m.nextavail) × (m.released ≢ m.alloceditems))
      → IsValid (mapped new b s) held free
  recycle_fresh new b true_source away clear full =
      let h = s.handler in
      let p = new.source in
      let none_held : from p held ≡ 0 = unplaced p away in
      let none_free : list_count p free ≡ 0 = unlisted p away in
      let h' = (mapped new b s).handler in
      let m' = fresh_source b h in
      record {
        some_items = v.some_items;
        few_items = v.few_items;
        small = v.small;
        null = ground (arith, v.null, true_source);
        chain = IsFreelist-store s.sources h.freelist p (some m') free none_free v.chain;
        once = v.once;
        avail = v.avail;
        short = v.short;
        active = (m', ground arith);
        not_free = none_free;
        live =
            store-all s.sources p m' (λ q m. IsLive h' q m (from q held) (list_count q free))
              (record {
                sized = refl;
                item = refl;
                fits = upsize_fits h.items_per_blob h.itemsize h.pagesize v.small.0 v.small.1;
                counted = omega (arith, none_held);
                within = omega arith;
                used_up = λ other. absurd (other refl);
                kept = λ other. absurd (other refl);
                unused = λ _. none_held;
              })
              (λ q n other at.
                left-IsLive h h' q n _ _ (v.live q n at) refl refl
                  (λ same. full n (subst (λ x. s.sources x ≡ some n) same at)));
        placed = recycle-IsPlaced p m' none_held;
        apart = v.apart;
        regions = store-regions s.sources p m' v.regions (λ q n other at. clear q n at);
      }

  recycle_free :
      (p : ℕ) (rest : List ℕ) (m : Memsource)
      → free ≡ p ∷ rest
      → s.sources p ≡ some m
      → IsFreelist s.sources m.nextfree rest
      → ((m : Memsource)
          → s.sources s.handler.current ≡ some m
          → (m.alloceditems ≤ m.nextavail) × (m.released ≢ m.alloceditems))
      → IsValid (popped p m s) held rest
  recycle_free p rest m split found chain full =
      let h = s.handler in
      let h' = (popped p m s).handler in
      let count : (q : ℕ) → list_count q free ≡ list_count q (p ∷ rest) =
        λ q. ap (list_count q) split in
      let none_free : list_count p rest ≡ 0 = ground (arith, count p, v.once p) in
      let listed : 1 ≤ list_count p free = ground (arith, count p) in
      let none_held : from p held ≡ 0 = (v.live p m found).unused listed in
      let len : length free ≡ suc (length rest) = ap length split in
      record {
        some_items = v.some_items;
        few_items = v.few_items;
        small = v.small;
        null = ground (arith, v.null, found);
        chain = IsFreelist-store s.sources m.nextfree p (some (recycled m)) rest none_free chain;
        once = λ q. ground (arith, count q, v.once q);
        avail = omega (arith, len, v.avail, v.short);
        short = omega (arith, len, v.short);
        active = (recycled m, ground arith);
        not_free = none_free;
        live =
            store-all s.sources p (recycled m)
              (λ q m. IsLive h' q m (from q held) (list_count q rest))
              (empty-IsLive h h' p m _ _ _ (v.live p m found) refl refl refl none_held)
              (λ q n other at.
                let same : list_count q rest ≡ list_count q free = ground (arith, count q, other) in
                rw same (
                  left-IsLive h h' q n _ _ (v.live q n at) refl refl
                    (λ same. full n (subst (λ x. s.sources x ≡ some n) same at))));
        placed = recycle-IsPlaced p (recycled m) none_held;
        apart = v.apart;
        regions = recycle-regions p m found;
      }

  -- The free list that is not empty is taken apart.
  first_free :
      s.handler.freelist ≢ 0
      → (rest : List ℕ) × (m : Memsource) × (free ≡ s.handler.freelist ∷ rest)
        × (s.sources s.handler.freelist ≡ some m)
        × IsFreelist s.sources m.nextfree rest
  first_free some_free = taken free refl v.chain
    where
      taken :
          (list : List ℕ)
          → free ≡ list
          → IsFreelist s.sources s.handler.freelist list
          → (rest : List ℕ) × (m : Memsource) × (free ≡ s.handler.freelist ∷ rest)
            × (s.sources s.handler.freelist ≡ some m)
            × IsFreelist s.sources m.nextfree rest
      taken [] e chain = absurd (some_free chain)
      taken (q ∷ qs) e (first, m, found, chain) = (qs, m, rw first e, rw first found, chain)

  pub replace_current-IsValid :
      (new : Fresh) (m : Memsource)
      → IsFresh new s
      → s.sources s.handler.current ≡ some m
      → m.alloceditems ≤ m.nextavail
      → Refilled (replace_current new m s) s held
  unfolding replace_current create_fresh_blob
  replace_current-IsValid new m (true_source, away, b, given, clear) found full =
      let h = s.handler in
      let l = v.live h.current m found in
      let old : m.released ≢ m.alloceditems
          → (m' : Memsource) → s.sources h.current ≡ some m'
          → (m'.alloceditems ≤ m'.nextavail) × (m'.released ≢ m'.alloceditems) =
        λ some_left m' at.
          subst (λ m. (m.alloceditems ≤ m.nextavail) × (m.released ≢ m.alloceditems))
            (some-inj (sym found ∙ at)) (full, some_left) in
      elim (ℕ_discrete m.released m.alloceditems) [
        | yes whole ↦
            let none_held : from h.current held ≡ 0 =
              omega (arith, whole, l.counted, l.within, l.sized) in
            (
              record s { sources = store s.sources h.current (some (recycled m)) },
              free,
              recycled m,
              ground (arith, whole),
              recycle_current m found none_held,
              ground arith,
              omega (arith, l.sized, v.some_items),
              refl,
            )
        | no some_left ↦ elim (ℕ_discrete h.freelist 0) [
          | yes no_free ↦ (
            mapped new b s,
            free,
            fresh_source b h,
            ground (arith, some_left, no_free, true_source, given),
            recycle_fresh new b true_source away clear (old some_left),
            ground arith,
            omega (arith, v.some_items),
            refl,
          )
          | no some_free ↦
              let (rest, first, split, at, chain) = first_free some_free in
              let w = recycle_free h.freelist rest first split at chain (old some_left) in
              let one = w.live h.freelist (recycled first) (ground arith) in
              (
                popped h.freelist first s,
                rest,
                recycled first,
                ground (arith, some_left, some_free, at),
                w,
                ground arith,
                omega (arith, one.sized, v.some_items),
                refl,
              )
        ]
      ]

  pub refill-IsValid : (new : Fresh) → IsFresh new s → Refilled (refill new s) s held
  unfolding refill
  refill-IsValid new fresh =
      let (m, found) = v.active in
      elim (Bool-cases (leb m.alloceditems m.nextavail)) [
        | inl full ↦
            let (s', free', m', e, w, at, room, same) =
              replace_current-IsValid new m fresh found (ground arith) in
            (s', free', m', ground (arith, found, full, e), w, at, room, same)
        | inr room ↦ (s, free, m, ground (arith, found, room), v, found, ground arith, refl)
      ]
