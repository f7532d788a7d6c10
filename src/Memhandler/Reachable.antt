-- ===== src/Memhandler/Reachable.antt =====
-- What holds of a memory handler of libcorsaro/libcorsaro_memhandler.c after any calls.
use corsaro.Base.{
  ℕ, ◌+◌, ◌*◌, ◌^◌, ◌≤◌, ◌<◌, ◌≡◌, ◌≢◌, arith, Bool, true, false, Option, none, some, List, [], ◌∷◌,
  store, refl, ◌∙◌, sym, subst, ap, some-inj, bind-some, Option-some, Bool-cases, inl, inr, ltb,
  ◌&&◌, ◌>>=◌,
}
use corsaro.Memhandler.{
  Memsource, State, Fresh, decrement, destroy_corsaro_memhandler, increment, lock, unlock, upsize,
  init_corsaro_memhandler, add_corsaro_memhandler_user, get_corsaro_memhandler_item,
  release_corsaro_memhandler_item, create_fresh_blob, free_list, free_current,
}
use corsaro.Memhandler.Ledger.{Held, nth, remove_at}
use corsaro.Memhandler.Store.{store-all, store-regions}
use corsaro.Memhandler.Valid.{IsLive, IsPool, IsValid, IsFresh}
use corsaro.Memhandler.Refill.{upsize_fits}
use corsaro.Memhandler.Get.{IsNew, get_item-IsNew}
use corsaro.Memhandler.Release.{release-IsValid}

-- A new handler, with blobs of at least one item that a `uint32_t` counts, and of a size that is a
-- `size_t`. No source is in use before.
pub record IsStart (new : Fresh) (itemsize items pagesize : ℕ) : Type 0 where
  pub sized : 1 ≤ itemsize
  pub some_items : 1 ≤ items
  pub few_items : items < 2 ^ 32
  pub paged : 1 ≤ pagesize
  pub small : itemsize * items + pagesize < 2 ^ 64
  pub true_source : new.source ≢ 0
  pub mapped : new.region ≢ none

-- The states that calls lead to, with the items that have been handed out and not taken back. An
-- item is taken back once, by a user who holds it. A user leaves by destroy_corsaro_memhandler, after
-- which the handler is there for the others.
pub data Reachable (new : Fresh) (itemsize items pagesize : ℕ) : State → List Held → Type 0 where
  start :
      {s : State}
      → init_corsaro_memhandler new itemsize items pagesize (λ p. none) ≡ some s
      → Reachable new itemsize items pagesize s []
  join :
      {s s' : State} {held : List Held}
      → Reachable new itemsize items pagesize s held
      → add_corsaro_memhandler_user s ≡ some s'
      → Reachable new itemsize items pagesize s' held
  leave :
      {s s' : State} {held : List Held} {left : ℕ → Option Memsource} (fuel : ℕ)
      → Reachable new itemsize items pagesize s held
      → destroy_corsaro_memhandler fuel s ≡ some (some s', left)
      → Reachable new itemsize items pagesize s' held
  get :
      {s s' : State} {held : List Held} {mem source : ℕ} (next : Fresh)
      → Reachable new itemsize items pagesize s held
      → IsFresh next s
      → get_corsaro_memhandler_item next s ≡ some (mem, source, s')
      → Reachable new itemsize items pagesize s' (record { mem = mem; source = source } ∷ held)
  back :
      {s s' : State} {held : List Held} (i : ℕ) {x : Held}
      → Reachable new itemsize items pagesize s held
      → nth i held ≡ some x
      → release_corsaro_memhandler_item x.source s ≡ some s'
      → Reachable new itemsize items pagesize s' (remove_at i held)

-- Between calls the lock is free, and the handler is in order.
abbrev pub IsOrdered : State → List Held → Type 0
IsOrdered s held = (s.locked ≡ false) × (free : List ℕ) × IsValid s held free

-- Whether the lock is held does not matter to the handler.
relock :
    (limit : ℕ) (b : Bool) (users : ℕ) (s : State) (held : List Held) (free : List ℕ)
    → IsPool limit s held free
    → IsPool limit
        (record s { locked = b; handler = record (s.handler) { users = users } })
        held
        free
relock limit b users s held free v = record {
  some_items = v.some_items;
  few_items = v.few_items;
  small = v.small;
  null = v.null;
  chain = v.chain;
  once = v.once;
  avail = v.avail;
  short = v.short;
  active = v.active;
  not_free = v.not_free;
  live = λ p m e.
      let l = v.live p m e in
      record {
        sized = l.sized;
        item = l.item;
        fits = l.fits;
        counted = l.counted;
        within = l.within;
        used_up = l.used_up;
        kept = l.kept;
        unused = l.unused;
      };
  placed = v.placed;
  apart = v.apart;
  regions = v.regions;
}

-- What a user leaves behind while there are others.
leave-state :
    (fuel : ℕ) (s s' : State) (left : ℕ → Option Memsource)
    → s.locked ≡ false
    → destroy_corsaro_memhandler fuel s ≡ some (some s', left)
    → record s {
      locked = false;
      handler = record (s.handler) { users = decrement s.handler.users };
    }
      ≡ s'
unfolding destroy_corsaro_memhandler lock unlock
leave-state fuel s s' left unlocked e =
    let users = decrement s.handler.users in
    let s1 : State = record s { locked = false; handler = record (s.handler) { users = users } } in
    elim (Bool-cases (ltb 0 users && ltb users (2 ^ 31))) [
      | inl others ↦
          let made : destroy_corsaro_memhandler fuel s ≡ some (some s1, s.sources) =
            rw (unlocked, others) refl in
          some-inj
            (ap (λ (t : Option State × (ℕ → Option Memsource)). t.0) (some-inj (sym made ∙ e)))
      | inr last ↦
          let made : destroy_corsaro_memhandler fuel s ≡ (
              free_list fuel s.handler.freelist s.sources >>= λ sources.
              free_current s.handler.current sources >>= λ rest. some (none, rest)) =
            rw (unlocked, last) refl in
          let (sources, _, e1) =
            bind-some (free_list fuel s.handler.freelist s.sources) _ (sym made ∙ e) in
          let (rest, _, e2) = bind-some (free_current s.handler.current sources) _ e1 in
          absurd (ground (arith, e2))
    ]

get-runs :
    (new : Fresh) (s : State) (held : List Held)
    → IsOrdered s held
    → IsFresh new s
    → (mem : ℕ) × (source : ℕ) × (s' : State) × (get_corsaro_memhandler_item new s
        ≡ some (mem, source, s'))
      × IsOrdered s' (record { mem = mem; source = source } ∷ held)
      × IsNew s' held mem source
unfolding get_corsaro_memhandler_item lock unlock
get-runs new s held (unlocked, free, v) fresh =
    let s1 = record s { locked = true } in
    let v1 = relock 100 true s.handler.users s held free v in
    let (mem, source, s2, free2, e, v2, fine, same) = get_item-IsNew new s1 held free v1 fresh in
    (
      mem,
      source,
      record s2 { locked = false },
      rw (unlocked, e, same) refl,
      (refl, free2, relock 100 false s2.handler.users s2 _ free2 v2),
      fine,
    )

release-runs :
    (s : State) (held : List Held) (i : ℕ) (x : Held)
    → IsOrdered s held
    → nth i held ≡ some x
    → (s' : State) × (release_corsaro_memhandler_item x.source s ≡ some s')
      × IsOrdered s' (remove_at i held)
unfolding release_corsaro_memhandler_item lock unlock
release-runs s held i x (unlocked, free, v) at =
    let s1 = record s { locked = true } in
    let v1 = relock 100 true s.handler.users s held free v in
    let (m, found, _, _, _) = v1.placed i x at in
    let (s2, free2, e, v2, same) = release-IsValid s1 held free v1 i x at m found in
    (
      record s2 { locked = false },
      rw (unlocked, e, same) refl,
      (refl, free2, relock 100 false s2.handler.users s2 _ free2 v2),
    )

-- The handler that init makes, where its first blob is mapped at b.
abbrev first : Fresh → ℕ → ℕ → ℕ → ℕ → State
first new b itemsize items pagesize = record {
  handler = record {
    items_per_blob = items;
    itemsize = itemsize;
    users = 1;
    freelistavail = 0;
    current = new.source;
    freelist = 0;
    unreleased = 1;
    pagesize = pagesize;
  };
  locked = false;
  sources =
      store (λ p. none) new.source
        (some (record {
          blob = b;
          blobsize = upsize items itemsize pagesize;
          itemsize = itemsize;
          alloceditems = items;
          nextavail = 0;
          released = 0;
          nextfree = 0;
        }));
}

module _ (new : Fresh) (itemsize items pagesize : ℕ)
    (start_ok : IsStart new itemsize items pagesize) where
  first-IsValid : (b : ℕ) → IsValid (first new b itemsize items pagesize) [] []
  first-IsValid b =
      let s = first new b itemsize items pagesize in
      let m : Memsource = record {
        blob = b;
        blobsize = upsize items itemsize pagesize;
        itemsize = itemsize;
        alloceditems = items;
        nextavail = 0;
        released = 0;
        nextfree = 0;
      } in
      record {
        some_items = start_ok.some_items;
        few_items = start_ok.few_items;
        small = (start_ok.paged, start_ok.small);
        null = ground (arith, start_ok.true_source);
        chain = refl;
        once = λ q. omega arith;
        avail = refl;
        short = omega arith;
        active = (m, ground arith);
        not_free = refl;
        live =
            store-all (λ p. none) new.source m (λ q m. IsLive s.handler q m 0 0)
              (record {
                sized = refl;
                item = refl;
                fits = upsize_fits items itemsize pagesize start_ok.paged start_ok.small;
                counted = refl;
                within = omega arith;
                used_up = λ other. absurd (other refl);
                kept = λ other. absurd (other refl);
                unused = λ _. refl;
              })
              (λ q n other e. absurd (ground (arith, e)));
        placed = λ i x e. absurd (ground (arith, e));
        apart = λ i j x y other e e'. absurd (ground (arith, e));
        regions =
            store-regions (λ p. none) new.source m
              (λ q r n n' other e e'. absurd (ground (arith, e)))
              (λ q n other e. absurd (ground (arith, e)));
      }

  init-IsOrdered :
      (s : State)
      → init_corsaro_memhandler new itemsize items pagesize (λ p. none) ≡ some s
      → IsOrdered s []
  unfolding init_corsaro_memhandler create_fresh_blob
  init-IsOrdered s e =
      let (b, given) = Option-some new.region start_ok.mapped in
      let made : init_corsaro_memhandler new itemsize items pagesize (λ p. none)
          ≡ some (first new b itemsize items pagesize) =
        ground (arith, given, start_ok.true_source, start_ok.sized) in
      subst (λ s. IsOrdered s []) (some-inj (sym made ∙ e)) (refl, [], first-IsValid b)

  -- After any calls by which users join, leave while others remain, and hold the items of `held`, the
  -- lock is free; the free list in
  -- memory is that of a list of at most 100 different sources, as long as the handler counts; a
  -- source is on it exactly if it is not the current one and no item of it is held; the items that
  -- are held lie in sources that are allocated, and no two of them overlap.
  pub Reachable-IsOrdered :
      {s : State} {held : List Held}
      → Reachable new itemsize items pagesize s held
      → IsOrdered s held
  unfolding add_corsaro_memhandler_user lock unlock
  Reachable-IsOrdered (start {s = s} e) = init-IsOrdered s e
  Reachable-IsOrdered (join {s = s} {s' = s'} {held = held} r e) =
      let (unlocked, free, v) = Reachable-IsOrdered r in
      let joined : add_corsaro_memhandler_user s
          ≡ some (record s {
            locked = false;
            handler = record (s.handler) { users = increment s.handler.users };
          }) =
        ground (arith, unlocked) in
      subst (λ s. IsOrdered s held) (some-inj (sym joined ∙ e))
        (refl, free, relock 100 false (increment s.handler.users) s held free v)
  Reachable-IsOrdered (leave {s = s} {s' = s'} {held = held} {left = left} fuel r e) =
      let (unlocked, free, v) = Reachable-IsOrdered r in
      subst (λ s. IsOrdered s held) (leave-state fuel s s' left unlocked e)
        (refl, free, relock 100 false (decrement s.handler.users) s held free v)
  Reachable-IsOrdered (get {s = s} {held = held} next r fresh e) =
      let (mem, source, s', got, ordered, _) = get-runs next s held (Reachable-IsOrdered r) fresh in
      subst (λ (t : ℕ × ℕ × State). IsOrdered t.2 (record { mem = t.0; source = t.1 } ∷ held))
        (some-inj (sym got ∙ e)) ordered
  Reachable-IsOrdered (back {s = s} {held = held} i {x = x} r at e) =
      let (s', returned, ordered) = release-runs s held i x (Reachable-IsOrdered r) at in
      subst (λ s. IsOrdered s (remove_at i held)) (some-inj (sym returned ∙ e)) ordered

  -- After any calls, if malloc and mmap give memory that is not in use, get_corsaro_memhandler_item
  -- returns an item that overlaps no item that is held and lies inside an allocated blob.
  pub get_runs :
      {s : State} {held : List Held} (next : Fresh)
      → Reachable new itemsize items pagesize s held
      → IsFresh next s
      → (mem : ℕ) × (source : ℕ) × (s' : State) × (get_corsaro_memhandler_item next s
          ≡ some (mem, source, s'))
        × IsNew s' held mem source
  get_runs {s = s} {held = held} next r fresh =
      let (mem, source, s', got, _, fine) = get-runs next s held (Reachable-IsOrdered r) fresh in
      (mem, source, s', got, fine)

  -- After any calls, an item that is held can be taken back: release_corsaro_memhandler_item uses no
  -- freed source, fails no assertion, ends its loop and leaves the lock free.
  pub release_runs :
      {s : State} {held : List Held} (i : ℕ) {x : Held}
      → Reachable new itemsize items pagesize s held
      → nth i held ≡ some x
      → (s' : State) × (release_corsaro_memhandler_item x.source s ≡ some s') × (s'.locked ≡ false)
  release_runs {s = s} {held = held} i {x} r at =
      let (s', returned, ordered) = release-runs s held i x (Reachable-IsOrdered r) at in
      (s', returned, ordered.0)
