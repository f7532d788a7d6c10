-- ===== src/Memhandler/Get.antt =====
-- How libcorsaro/libcorsaro_memhandler.c hands out an item.
use corsaro.Base.{
  ℕ, zero, suc, ◌+◌, ◌*◌, ◌≤◌, ◌<◌, ◌≡◌, ◌≢◌, arith, some, List, ◌∷◌, store, refl, ap, ◌∙◌, sym,
  inl, inr, subst, some-inj,
}
use native.Mathlib.Nat.{mul-le-mul_right}
use native.Mathlib.Decide.{ℕ_discrete}
use corsaro.PriorityQueue.Print.{list_count}
use corsaro.Memhandler.{Memsource, Memhandler, State, Fresh, increment, take_slot, get_item}
use corsaro.Memhandler.Ledger.{Held, nth, from, IsApart}
use corsaro.Memhandler.Store.{swap, store-all, store-regions, store-IsPlaced_more}
use corsaro.Memhandler.Valid.{IsLive, IsPlaced, IsValid, IsFresh, IsFreelist-store}
use corsaro.Memhandler.Refill.{refill-IsValid}

-- A slot of a blob lies inside it.
slot_fits :
    (h : Memhandler) (p : ℕ) (m : Memsource) (held idle i : ℕ)
    → IsLive h p m held idle
    → i < h.items_per_blob
    → m.blob + i * m.itemsize + h.itemsize ≤ m.blob + m.blobsize
slot_fits h p m held idle i v inside =
    let up : suc i * h.itemsize ≤ h.items_per_blob * h.itemsize =
      mul-le-mul_right {m = suc i} h.itemsize (omega arith) in
    let one : suc i * h.itemsize ≡ i * h.itemsize + h.itemsize = omega arith in
    let same : i * m.itemsize ≡ i * h.itemsize = ap (λ k. i * k) v.item in
    omega (arith, up, one, same, v.fits)

parted :
    (a z d b c n y : ℕ)
    → a + z ≤ b + c
    → d + z ≤ n + y
    → b ≤ a
    → n ≤ d
    → IsApart b c n y
    → IsApart a z d z
parted a z d b c n y p q p' q' (inl h) = inl (omega (arith, p, q', h))
parted a z d b c n y p q p' q' (inr h) = inr (omega (arith, q, p', h))

-- The address of a free slot of the current blob, and the source with that slot in use.
abbrev slot : Memsource → ℕ
slot m = m.blob + m.nextavail * m.itemsize

abbrev taken : Memsource → Memsource
taken m = record m { nextavail = increment m.nextavail }

module _ (s : State) (held : List Held) (free : List ℕ) (v : IsValid s held free) (m : Memsource)
    (found : s.sources s.handler.current ≡ some m) (room : m.nextavail < m.alloceditems) where
  abbrev now : Held
  now = record { mem = slot m; source = s.handler.current }

  slot-IsApart :
      (j : ℕ) (y : Held)
      → nth j held ≡ some y
      → IsApart (slot m) s.handler.itemsize y.mem s.handler.itemsize
  slot-IsApart j y at =
      let h = s.handler in
      let (k, there, i, inside, e) = v.placed j y at in
      let l = v.live h.current m found in
      let l' = v.live y.source k there in
      elim (ℕ_discrete y.source h.current) [
        | yes same ↦
            let mk : m ≡ k = some-inj (sym found ∙ ap s.sources (sym same) ∙ there) in
            let inside' : i < m.nextavail = subst (λ k. i < k.nextavail) (sym mk) inside in
            let e' : y.mem ≡ m.blob + i * m.itemsize =
              subst (λ k. y.mem ≡ k.blob + i * k.itemsize) (sym mk) e in
            let up : suc i * m.itemsize ≤ m.nextavail * m.itemsize =
              mul-le-mul_right {m = suc i} m.itemsize (omega (arith, inside')) in
            let one : suc i * m.itemsize ≡ i * m.itemsize + m.itemsize = omega arith in
            inr (omega (arith, up, one, e', l.item))
        | no other ↦
            let here = slot_fits h h.current m _ _ m.nextavail l (omega (arith, room, l.sized)) in
            let there' = slot_fits h y.source k _ _ i l' (omega (arith, inside, l'.within)) in
            parted (slot m) h.itemsize y.mem m.blob m.blobsize k.blob k.blobsize here
              (omega (arith, there', e)) (omega arith) (omega (arith, e))
              (v.regions h.current y.source m k (λ e. other (sym e)) found there)
      ]

  take_slot-IsPlaced :
      increment m.nextavail ≡ suc m.nextavail
      → (i : ℕ) (x : Held) → nth i (now ∷ held) ≡ some x
      → IsPlaced (store s.sources s.handler.current (some (taken m))) x
  take_slot-IsPlaced next zero x at =
      let same : now ≡ x = some-inj at in
      subst (IsPlaced (store s.sources s.handler.current (some (taken m)))) same
        (taken m, ground arith, m.nextavail, omega (arith, next), refl)
  take_slot-IsPlaced next (suc i) x at =
      store-IsPlaced_more s.sources s.handler.current (taken m) x m found refl refl
        (omega (arith, next)) (v.placed i x at)

  take_slot-IsApart :
      (i j : ℕ) (x y : Held)
      → i ≢ j
      → nth i (now ∷ held) ≡ some x
      → nth j (now ∷ held) ≡ some y
      → IsApart x.mem s.handler.itemsize y.mem s.handler.itemsize
  take_slot-IsApart zero zero x y other at at' = absurd (other refl)
  take_slot-IsApart zero (suc j) x y other at at' =
      subst (λ a. IsApart a s.handler.itemsize y.mem s.handler.itemsize) (ap Held.mem (some-inj at))
        (slot-IsApart j y at')
  take_slot-IsApart (suc i) zero x y other at at' =
      subst (λ a. IsApart x.mem s.handler.itemsize a s.handler.itemsize)
        (ap Held.mem (some-inj at')) (swap _ _ _ _ (slot-IsApart i x at))
  take_slot-IsApart (suc i) (suc j) x y other at at' =
      v.apart i j x y (λ e. other (ap suc e)) at at'

  take_slot-IsValid :
      IsValid
        (record s { sources = store s.sources s.handler.current (some (taken m)) })
        (now ∷ held)
        free
  take_slot-IsValid =
      let h = s.handler in
      let l = v.live h.current m found in
      let next : increment m.nextavail ≡ suc m.nextavail =
        omega (arith, room, l.sized, v.few_items) in
      record {
        some_items = v.some_items;
        few_items = v.few_items;
        small = v.small;
        null = ground (arith, v.null, found);
        chain =
            IsFreelist-store s.sources h.freelist h.current (some (taken m)) free v.not_free
              v.chain;
        once = v.once;
        avail = v.avail;
        short = v.short;
        active = (taken m, ground arith);
        not_free = v.not_free;
        live =
            store-all s.sources h.current (taken m)
              (λ q m. IsLive h q m (from q (now ∷ held)) (list_count q free))
              (record {
                sized = l.sized;
                item = l.item;
                fits = l.fits;
                counted = ground (arith, l.counted, next);
                within = omega (arith, next, room, l.sized);
                used_up = λ other. absurd (other refl);
                kept = λ other. absurd (other refl);
                unused = λ listed. absurd (omega (arith, listed, v.not_free));
              })
              (λ q n other at.
                let same : from q (now ∷ held) ≡ from q held = ground (arith, other) in
                rw same (v.live q n at));
        placed = take_slot-IsPlaced next;
        apart = take_slot-IsApart;
        regions =
            store-regions s.sources h.current (taken m) v.regions
              (λ q n other at. v.regions h.current q m n (λ e. other (sym e)) found at);
      }

-- What an item handed out is to the items that are held: it overlaps none of them, and lies inside
-- a blob that is mapped.
abbrev pub IsNew : State → List Held → ℕ → ℕ → Type 0
IsNew s held mem source =
    ((j : ℕ) (y : Held)
      → nth j held ≡ some y
      → IsApart mem s.handler.itemsize y.mem s.handler.itemsize)
    × (m : Memsource) × (s.sources source ≡ some m)
    × (m.blob ≤ mem)
    × (mem + s.handler.itemsize ≤ m.blob + m.blobsize)

pub get_item-IsNew :
    (new : Fresh) (s : State) (held : List Held) (free : List ℕ)
    → IsValid s held free
    → IsFresh new s
    → (mem : ℕ) × (source : ℕ) × (s' : State) × (free' : List ℕ) × (get_item new s
        ≡ some (mem, source, s'))
      × IsValid s' (record { mem = mem; source = source } ∷ held) free'
      × IsNew s' held mem source
      × (s'.locked ≡ s.locked)
unfolding get_item take_slot
get_item-IsNew new s held free v fresh =
    let (s1, free1, m, e, v1, found, room, same) = refill-IsValid s held free v new fresh in
    let c = s1.handler.current in
    let l = v1.live c m found in
    (
      slot m,
      c,
      record s1 { sources = store s1.sources c (some (taken m)) },
      free1,
      rw (e, found) refl,
      take_slot-IsValid s1 held free1 v1 m found room,
      (
        slot-IsApart s1 held free1 v1 m found room,
        taken m,
        ground arith,
        omega arith,
        slot_fits s1.handler c m _ _ m.nextavail l (omega (arith, room, l.sized)),
      ),
      same,
    )
