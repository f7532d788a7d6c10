-- ===== src/Memhandler/Release.antt =====
-- How libcorsaro/libcorsaro_memhandler.c takes an item back.
use corsaro.Base.{
  ℕ, zero, suc, ◌≤◌, ◌<◌, ◌≡◌, ◌≢◌, arith, true, false, none, some, List, [], ◌∷◌, length, store,
  refl, ◌∙◌, sym, subst, ltb,
}
use native.Mathlib.Decide.{ℕ_discrete}
use corsaro.PriorityQueue.Print.{list_count}
use corsaro.Memhandler.{
  Memsource, Memhandler, State, increment, decrement, put_back, is_long, drop_first, trim,
  release_item,
}
use corsaro.Memhandler.Ledger.{
  Held, nth, from, from-nth, remove_at, shift, shift_distinct, nth-remove_at, from-remove_at,
  IsApart,
}
use corsaro.Memhandler.Store.{
  store-all, store-regions, store-IsPlaced_more, store-none, store-none-IsPlaced, store-store,
}
use corsaro.Memhandler.Valid.{IsFreelist, IsLive, IsPlaced, IsPool, IsValid, IsFreelist-store}

-- The first source of the free list is given back to the system.
abbrev dropped : ℕ → Memsource → State → State
dropped p m s = record s {
  handler = record (s.handler) {
    freelist = m.nextfree;
    freelistavail = decrement s.handler.freelistavail;
  };
  sources = store s.sources p none;
}

dropped-IsPool :
    (limit : ℕ) (s : State) (held : List Held) (p : ℕ) (rest : List ℕ) (m : Memsource)
    → IsPool (suc limit) s held (p ∷ rest)
    → limit < 1000
    → s.sources p ≡ some m
    → IsFreelist s.sources m.nextfree rest
    → IsPool limit (dropped p m s) held rest
dropped-IsPool limit s held p rest m v small found chain =
    let h = s.handler in
    let none_free : list_count p rest ≡ 0 = ground (arith, v.once p) in
    let none_held : from p held ≡ 0 = (v.live p m found).unused (ground arith) in
    let away : p ≢ h.current = λ same. absurd (ground (arith, v.not_free, same)) in
    let (a, at) = v.active in
    record {
      some_items = v.some_items;
      few_items = v.few_items;
      small = v.small;
      null = ground (arith, v.null);
      chain = IsFreelist-store s.sources m.nextfree p none rest none_free chain;
      once = λ q. ground (arith, v.once q);
      avail = omega (arith, v.avail, v.short, small);
      short = omega (arith, v.short);
      active = (a, ground (arith, at, away));
      not_free = ground (arith, v.not_free);
      live = λ q n e.
          let (other, at) = store-none s.sources p q n e in
          let l = v.live q n at in
          let same : list_count q (p ∷ rest) ≡ list_count q rest = ground (arith, other) in
          record {
            sized = l.sized;
            item = l.item;
            fits = l.fits;
            counted = l.counted;
            within = l.within;
            used_up = l.used_up;
            kept = λ other h. sym same ∙ l.kept other h;
            unused = λ listed. l.unused (omega (arith, listed, same));
          };
      placed = λ i x at.
          store-none-IsPlaced s.sources p x
            (λ same. absurd (ground (arith, from-nth i x held at, none_held, same)))
            (v.placed i x at);
      apart = v.apart;
      regions = λ q r n n' other e e'.
          v.regions q r n n' other (store-none s.sources p q n e).1
            (store-none s.sources p r n' e').1;
    }

within_limit :
    (limit limit' : ℕ) (s : State) (held : List Held) (free : List ℕ)
    → IsPool limit s held free
    → length free ≤ limit'
    → IsPool limit' s held free
within_limit limit limit' s held free v short = record {
  some_items = v.some_items;
  few_items = v.few_items;
  small = v.small;
  null = v.null;
  chain = v.chain;
  once = v.once;
  avail = v.avail;
  short = short;
  active = v.active;
  not_free = v.not_free;
  live = v.live;
  placed = v.placed;
  apart = v.apart;
  regions = v.regions;
}

trim-short : (fuel : ℕ) (s : State) → is_long s.handler.freelistavail ≡ false → trim fuel s ≡ some s
unfolding trim
trim-short zero s e = rw e refl
trim-short (suc fuel) s e = rw e refl

-- A free list that is too long by one is shortened.
trim-IsValid :
    (s : State) (held : List Held) (free : List ℕ) (fuel : ℕ)
    → IsPool 101 s held free
    → length free ≤ fuel
    → (s' : State) × (free' : List ℕ) × (trim fuel s ≡ some s')
      × IsValid s' held free'
      × (s'.locked ≡ s.locked)
unfolding trim drop_first
trim-IsValid s held [] fuel v enough = (
  s,
  [],
  trim-short fuel s (ground (arith, v.avail)),
  within_limit 101 100 s held [] v (omega arith),
  refl,
)
trim-IsValid s held (p ∷ rest) zero v enough = absurd (omega (arith, enough))
trim-IsValid s held (p ∷ rest) (suc fuel) v enough = elim (ℕ_discrete (length rest) 100) [
  | no fits ↦
      let few : length (p ∷ rest) ≤ 100 = omega (arith, fits, v.short) in
      (
        s,
        p ∷ rest,
        trim-short (suc fuel) s (ground (arith, v.avail, few)),
        within_limit 101 100 s held (p ∷ rest) v few,
        refl,
      )
  | yes long ↦
      let (first, m, found, chain) = v.chain in
      let w = dropped-IsPool 100 s held p rest m v (omega arith) found chain in
      let many : is_long s.handler.freelistavail ≡ true = ground (arith, v.avail, long) in
      let once : trim fuel (dropped p m s) ≡ some (dropped p m s) =
        trim-short fuel (dropped p m s) (ground (arith, w.avail, long)) in
      (dropped p m s, rest, rw (many, first, found) once, w, refl)
]

-- The state after an item of p, of which m is left, has been counted as back.
module _ (s : State) (held : List Held) (free : List ℕ) (v : IsValid s held free) (i : ℕ) (x : Held)
    (at : nth i held ≡ some x) (m : Memsource) (found : s.sources x.source ≡ some m) where
  back-IsPlaced :
      (m' : Memsource)
      → m'.blob ≡ m.blob
      → m'.itemsize ≡ m.itemsize
      → m'.nextavail ≡ m.nextavail
      → (j : ℕ) (y : Held) → nth j (remove_at i held) ≡ some y
      → IsPlaced (store s.sources x.source (some m')) y
  back-IsPlaced m' b size next j y e =
      store-IsPlaced_more s.sources x.source m' y m found b size (omega (arith, next))
        (v.placed (shift i j) y (sym (nth-remove_at i j held) ∙ e))

  back-IsApart :
      (j k : ℕ) (y z : Held)
      → j ≢ k
      → nth j (remove_at i held) ≡ some y
      → nth k (remove_at i held) ≡ some z
      → IsApart y.mem s.handler.itemsize z.mem s.handler.itemsize
  back-IsApart j k y z other e e' =
      v.apart (shift i j) (shift i k) y z (shift_distinct i j k other)
        (sym (nth-remove_at i j held) ∙ e) (sym (nth-remove_at i k held) ∙ e')

  back-regions :
      (m' : Memsource)
      → m'.blob ≡ m.blob
      → m'.blobsize ≡ m.blobsize
      → (q r : ℕ) (n n' : Memsource) → q ≢ r
      → store s.sources x.source (some m') q ≡ some n
      → store s.sources x.source (some m') r ≡ some n'
      → IsApart n.blob n.blobsize n'.blob n'.blobsize
  back-regions m' b size =
      store-regions s.sources x.source m' v.regions
        (λ q n other e. rw (b, size) (v.regions x.source q m n (λ same. other (sym same)) found e))

  -- One item fewer is held of its source, and as many of every other.
  one_back : suc (from x.source (remove_at i held)) ≡ from x.source held
  one_back = ground (arith, from-remove_at i x.source x held at)

  same_held : (q : ℕ) → q ≢ x.source → from q (remove_at i held) ≡ from q held
  same_held q other = ground (arith, from-remove_at i q x held at)

  not_listed : list_count x.source free ≡ 0
  not_listed = elim (ℕ_discrete (list_count x.source free) 0) [
    | yes e ↦ e
    | no some_free ↦
        let none_held = (v.live x.source m found).unused (omega arith) in
        absurd (omega (arith, none_held, one_back))
  ]

  abbrev back : Memsource
  back = record m { released = increment m.released }

  next_back : increment m.released ≡ suc m.released
  next_back =
      let l = v.live x.source m found in omega (arith, one_back, l.counted, l.within, v.few_items)

  back-active :
      (m' : Memsource)
      → (a : Memsource) × (store s.sources x.source (some m') s.handler.current ≡ some a)
  back-active m' = elim (ℕ_discrete s.handler.current x.source) [
    | yes same ↦ (m', ground (arith, same))
    | no other ↦ let (a, e) = v.active in (a, ground (arith, other))
  ]

  -- The source stays in use.
  back-IsValid :
      (x.source ≢ s.handler.current → suc m.released ≢ s.handler.items_per_blob)
      → IsValid
          (record s { sources = store s.sources x.source (some back) })
          (remove_at i held)
          free
  back-IsValid in_use =
      let h = s.handler in
      let l = v.live x.source m found in
      record {
        some_items = v.some_items;
        few_items = v.few_items;
        small = v.small;
        null = ground (arith, v.null, found);
        chain = IsFreelist-store s.sources h.freelist x.source (some back) free not_listed v.chain;
        once = v.once;
        avail = v.avail;
        short = v.short;
        active = back-active back;
        not_free = v.not_free;
        live =
            store-all s.sources x.source back
              (λ q m. IsLive h q m (from q (remove_at i held)) (list_count q free))
              (record {
                sized = l.sized;
                item = l.item;
                fits = l.fits;
                counted = omega (arith, one_back, next_back, l.counted);
                within = l.within;
                used_up = l.used_up;
                kept = λ other none_held.
                    absurd (
                      in_use other
                        (omega (arith, none_held, one_back, l.counted, l.used_up other)));
                unused = λ listed. absurd (omega (arith, listed, not_listed));
              })
              (λ q n other e. rw (same_held q other) (v.live q n e));
        placed = back-IsPlaced back refl refl refl;
        apart = back-IsApart;
        regions = back-regions back refl refl;
      }

  -- The source goes on the free list.
  abbrev listed : Memsource
  listed = record back { nextfree = s.handler.freelist }

  abbrev longer : Memhandler
  longer = record (s.handler) {
    freelist = x.source;
    freelistavail = increment s.handler.freelistavail;
    unreleased = decrement s.handler.unreleased;
  }

  listed-IsPool :
      x.source ≢ s.handler.current
      → suc m.released ≡ s.handler.items_per_blob
      → IsPool 101
          (record s { handler = longer; sources = store s.sources x.source (some listed) })
          (remove_at i held)
          (x.source ∷ free)
  listed-IsPool other whole =
      let h = s.handler in
      let l = v.live x.source m found in
      let none_held : from x.source (remove_at i held) ≡ 0 =
        omega (arith, one_back, l.counted, l.used_up other, whole) in
      record {
        some_items = v.some_items;
        few_items = v.few_items;
        small = v.small;
        null = ground (arith, v.null, found);
        chain = (
          refl,
          listed,
          ground arith,
          IsFreelist-store s.sources h.freelist x.source (some listed) free not_listed v.chain,
        );
        once = λ q. ground (arith, v.once q, not_listed);
        avail = omega (arith, v.avail, v.short);
        short = omega (arith, v.short);
        active = back-active listed;
        not_free = ground (arith, v.not_free, other);
        live =
            store-all s.sources x.source listed
              (λ q m.
                IsLive longer q m (from q (remove_at i held)) (list_count q (x.source ∷ free)))
              (record {
                sized = l.sized;
                item = l.item;
                fits = l.fits;
                counted = omega (arith, one_back, next_back, l.counted);
                within = l.within;
                used_up = l.used_up;
                kept = λ _ _. ground (arith, not_listed);
                unused = λ _. none_held;
              })
              (λ q n other e.
                let same : list_count q (x.source ∷ free) ≡ list_count q free =
                  ground (arith, other) in
                let l' = v.live q n e in
                rw (same_held q other, same)
                  (record {
                    sized = l'.sized;
                    item = l'.item;
                    fits = l'.fits;
                    counted = l'.counted;
                    within = l'.within;
                    used_up = l'.used_up;
                    kept = l'.kept;
                    unused = l'.unused;
                  }));
        placed = back-IsPlaced listed refl refl refl;
        apart = back-IsApart;
        regions = back-regions listed refl refl;
      }

  -- The assertion of the code.
  freelist-other : s.handler.freelist ≢ x.source
  freelist-other e = headed free v.chain not_listed
    where
      headed :
          (list : List ℕ)
          → IsFreelist s.sources s.handler.freelist list
          → list_count x.source list ≡ 0
          → ⊥
      headed [] chain none_listed = absurd (ground (arith, v.null, chain, e, found))
      headed (q ∷ qs) (first, _, _, _) none_listed = absurd (ground (arith, first, e, none_listed))

  -- What release_item does once the source has been looked at.
  release-trim :
      (s2 : State) (free2 : List ℕ)
      → put_back x.source back (record s { sources = store s.sources x.source (some back) })
        ≡ some s2
      → IsPool 101 s2 (remove_at i held) free2
      → s2.locked ≡ s.locked
      → (s' : State) × (free' : List ℕ) × (release_item x.source s ≡ some s')
        × IsValid s' (remove_at i held) free'
        × (s'.locked ≡ s.locked)
  unfolding release_item
  release-trim s2 free2 e w same =
      let l = v.live x.source m found in
      let few : ltb s.handler.items_per_blob (increment m.released) ≡ false =
        ground (arith, one_back, l.counted, l.within, next_back) in
      let (s', free', trimmed, w', same') =
        trim-IsValid s2 (remove_at i held) free2 s2.handler.freelistavail w
          (omega (arith, w.avail)) in
      (s', free', rw (found, few, e) trimmed, w', same' ∙ same)

  -- Taking an item back succeeds, and keeps the handler in order.
  pub release-IsValid :
      (s' : State) × (free' : List ℕ) × (release_item x.source s ≡ some s')
      × IsValid s' (remove_at i held) free'
      × (s'.locked ≡ s.locked)
  unfolding release_item put_back
  release-IsValid =
      let h = s.handler in
      let back_at = record s { sources = store s.sources x.source (some back) } in
      let as_is =
        λ (in_use : x.source ≢ h.current → suc m.released ≢ h.items_per_blob)
            (e : put_back x.source back back_at ≡ some back_at).
          release-trim back_at free e
            (within_limit 100 101 back_at _ free (back-IsValid in_use) (omega (arith, v.short)))
            refl in
      elim (ℕ_discrete x.source h.current) [
        | yes same ↦ as_is (λ other. absurd (other same)) (ground (arith, same))
        | no other ↦ elim (ℕ_discrete (suc m.released) h.items_per_blob) [
          | no some_left ↦ as_is (λ _. some_left) (ground (arith, other, some_left, next_back))
          | yes whole ↦
              release-trim
                (record s {
                  handler = longer;
                  sources = store (store s.sources x.source (some back)) x.source (some listed);
                })
                (x.source ∷ free) (ground (arith, other, whole, next_back, freelist-other))
                (subst
                  (λ f.
                    IsPool 101 (record s { handler = longer; sources = f }) (remove_at i held)
                      (x.source ∷ free))
                  (sym (store-store s.sources x.source (some back) (some listed)))
                  (listed-IsPool other whole))
                refl
        ]
      ]
