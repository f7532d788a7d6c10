-- ===== src/Memhandler/Tests.antt =====
-- A small memory handler of libcorsaro/libcorsaro_memhandler.c, and the theorems at it.
use corsaro.Base.{
  ℕ, ◌*◌, ◌≡◌, refl, arith, false, Option, none, some, List, [], ◌∷◌, inr, ◌==◌, if◌then◌else◌,
  store, ◌>>=◌,
}
use corsaro.Memhandler.{
  Memsource, State, Fresh, upsize, lock, unlock, create_fresh_blob, init_corsaro_memhandler, refill,
  replace_current, take_slot, get_item, get_corsaro_memhandler_item, put_back, trim, release_item,
  release_corsaro_memhandler_item, destroy_corsaro_memhandler, add_corsaro_memhandler_user,
}
use corsaro.Memhandler.Ledger.{Held, from, IsApart}
use corsaro.Memhandler.Store.{store-all}
use corsaro.Memhandler.Valid.{IsFresh}
use corsaro.Memhandler.Get.{IsNew}
use corsaro.Memhandler.Reachable.{
  IsStart, Reachable, start, join, leave, get, IsOrdered, Reachable-IsOrdered, get_runs,
  release_runs,
}
use corsaro.Memhandler.Destroy.{destroy_frees, release_twice_faults}

abbrev fresh : ℕ → Fresh
fresh n = record { source = n; region = some (n * 4096) }

abbrev blob_at : ℕ → ℕ → ℕ → Memsource
blob_at b nextavail released = record {
  blob = b;
  blobsize = 4096;
  itemsize = 8;
  alloceditems = 1;
  nextavail = nextavail;
  released = released;
  nextfree = 0;
}

-- One item of 8 bytes to a blob.
abbrev new : State
new = record {
  handler = record {
    items_per_blob = 1;
    itemsize = 8;
    users = 1;
    freelistavail = 0;
    current = 1;
    freelist = 0;
    unreleased = 1;
    pagesize = 4096;
  };
  locked = false;
  sources = store (λ p. none) 1 (some (blob_at 4096 0 0));
}

makes : init_corsaro_memhandler (fresh 1) 8 1 4096 (λ p. none) ≡ some new
unfolding init_corsaro_memhandler create_fresh_blob upsize
makes = refl

-- The address and the source of an item, where there is one.
abbrev item : Option (ℕ × ℕ × State) → Option (ℕ × ℕ)
item r = r >>= λ t. some (t.0, t.1)

abbrev after : ℕ → Option (ℕ × ℕ × State) → State
after n r = elim r [ none ↦ new | some t ↦ t.2 ]

-- The second item lies in a new blob, and once the first is back, its blob is used again for the
-- third.
abbrev used_twice : Option (ℕ × ℕ)
unfolding get_corsaro_memhandler_item get_item refill replace_current take_slot lock unlock
    create_fresh_blob upsize release_corsaro_memhandler_item release_item put_back trim
used_twice = get_corsaro_memhandler_item (fresh 2) new >>= λ a.
    get_corsaro_memhandler_item (fresh 2) a.2 >>= λ b.
    release_corsaro_memhandler_item a.1 b.2 >>= λ s. item (get_corsaro_memhandler_item (fresh 3) s)

used_twice_at : used_twice ≡ some (4096, 1)
unfolding used_twice
used_twice_at = refl

IsStart-ok : IsStart (fresh 1) 8 1 4096
IsStart-ok = record {
  sized = omega arith;
  some_items = omega arith;
  few_items = omega arith;
  paged = omega arith;
  small = omega arith;
  true_source = ground arith;
  mapped = ground arith;
}

next_ok : IsFresh (fresh 2) new
unfolding upsize
next_ok = (
  ground arith,
  refl,
  8192,
  refl,
  store-all (λ p. none) 1 (blob_at 4096 0 0) (λ p m. IsApart 8192 4096 m.blob m.blobsize)
      (inr (omega arith)) (λ q m other e. absurd (ground (arith, e))),
)

abbrev one_item : List Held
one_item = record { mem = 4096; source = 1 } ∷ []

abbrev one_held : State
one_held = record new { sources = store new.sources 1 (some (blob_at 4096 1 0)) }

gives_one : Reachable (fresh 1) 8 1 4096 one_held one_item
unfolding get_corsaro_memhandler_item get_item refill take_slot lock unlock
gives_one = get (fresh 2) (start makes) next_ok refl

Reachable-IsOrdered_example : IsOrdered one_held one_item
Reachable-IsOrdered_example = Reachable-IsOrdered (fresh 1) 8 1 4096 IsStart-ok gives_one

get_runs_example :
    (mem : ℕ) × (source : ℕ) × (s' : State) × (get_corsaro_memhandler_item (fresh 2) new
      ≡ some (mem, source, s'))
    × IsNew s' [] mem source
get_runs_example = get_runs (fresh 1) 8 1 4096 IsStart-ok (fresh 2) (start makes) next_ok

release_runs_example :
    (s' : State) × (release_corsaro_memhandler_item 1 one_held ≡ some s') × (s'.locked ≡ false)
release_runs_example = release_runs (fresh 1) 8 1 4096 IsStart-ok 0 gives_one refl

abbrev two_users : State
two_users = record one_held { handler = record (one_held.handler) { users = 2 } }

-- A second user joins, and one of the two leaves.
one_leaves : Reachable (fresh 1) 8 1 4096 one_held one_item
unfolding add_corsaro_memhandler_user destroy_corsaro_memhandler lock unlock
one_leaves = leave 0 (join {s' = two_users} gives_one refl) refl

-- The item that is held keeps its blob.
destroy_frees_example :
    (left : ℕ → Option Memsource) × (destroy_corsaro_memhandler 0 one_held ≡ some (none, left))
    × ((q : ℕ) → left q ≡ (if from q one_item == 0 then none else one_held.sources q))
destroy_frees_example =
    destroy_frees (fresh 1) 8 1 4096 one_held one_item 0 IsStart-ok one_leaves refl (omega arith)

-- The item of `one_held` is taken back twice.
abbrev returned : State
returned = record new { sources = store new.sources 1 (some (blob_at 4096 1 1)) }

release_twice_faults_example : release_corsaro_memhandler_item 1 returned ≡ none
release_twice_faults_example =
    release_twice_faults returned 1 (blob_at 4096 1 1) refl refl (omega arith) (omega arith)
