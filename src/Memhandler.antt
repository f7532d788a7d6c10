-- ===== src/Memhandler.antt =====
-- The memory handler of libcorsaro/libcorsaro_memhandler.c: its blobs, its free list and its lock.
pub mod Ledger
pub mod Valid
pub mod Store
pub mod Refill
pub mod Get
pub mod Release
pub mod Reachable
pub mod Destroy
mod Tests
use corsaro.Base.{
  ℕ, zero, suc, ◌+◌, ◌-◌, ◌*◌, ◌/◌, ◌%◌, ◌^◌, Bool, true, false, not, ◌&&◌, Option, none, some, ltb,
  leb, ◌==◌, if◌then◌else◌, store, ◌>>=◌,
}

-- `corsaro_memsource_t`. Pointers are addresses, and 0 is NULL.
pub record Memsource : Type 0 where
  pub blob : ℕ
  pub blobsize : ℕ
  pub itemsize : ℕ
  pub alloceditems : ℕ
  pub nextavail : ℕ
  pub released : ℕ
  pub nextfree : ℕ

-- `corsaro_memhandler_t` without its logger and its lock. An `int` is read modulo 2^32.
pub record Memhandler : Type 0 where
  pub items_per_blob : ℕ
  pub itemsize : ℕ
  pub users : ℕ
  pub freelistavail : ℕ
  pub current : ℕ
  pub freelist : ℕ
  pub unreleased : ℕ
  pub pagesize : ℕ

-- The handler, whether its lock is held, and the sources by their address. Where no source is
-- allocated there is `none`.
pub record State : Type 0 where
  pub handler : Memhandler
  pub locked : Bool
  pub sources : ℕ → Option Memsource

-- What `malloc` and `mmap` give to create_fresh_blob: the address of the source, and that of the
-- blob or `none` for MAP_FAILED.
pub record Fresh : Type 0 where
  pub source : ℕ
  pub region : Option ℕ

-- A result `none` is a run that uses a pointer to no source, that fails an assertion, that waits for
-- a lock that it holds itself, or that unlocks a lock that is not held.

abbrev pub increment : ℕ → ℕ
increment n = (n + 1) % 2 ^ 32

abbrev pub decrement : ℕ → ℕ
decrement n = (n + (2 ^ 32 - 1)) % 2 ^ 32

unfoldable pub lock : State → Option State
lock s = if s.locked then none else some (record s { locked = true })

unfoldable pub unlock : State → Option State
unlock s = if s.locked then some (record s { locked = false }) else none

-- The size of a mapping: a `size_t` of 64 bits.
unfoldable pub upsize : ℕ → ℕ → ℕ → ℕ
upsize itemcount itemsize pagesize =
    ((itemsize * itemcount % 2 ^ 64 / pagesize + 1) * pagesize) % 2 ^ 64

-- The pointer to the new source, which is NULL if the mapping failed, and the sources then.
unfoldable pub create_fresh_blob :
    Fresh → ℕ → ℕ → ℕ → (ℕ → Option Memsource) → Option (ℕ × (ℕ → Option Memsource))
create_fresh_blob new itemcount itemsize pagesize sources =
    if new.source == 0 then none else elim new.region [
      | none ↦ some (0, sources)
      | some blob ↦ some (
        new.source,
        store sources new.source (
            some (record {
              blob = blob;
              blobsize = upsize itemcount itemsize pagesize;
              itemsize = itemsize;
              alloceditems = itemcount;
              nextavail = 0;
              released = 0;
              nextfree = 0;
            })),
      )
    ]

unfoldable pub init_corsaro_memhandler : Fresh → ℕ → ℕ → ℕ → (ℕ → Option Memsource) → Option State
init_corsaro_memhandler new itemsize itemsperalloc pagesize sources =
    if itemsize == 0
    then none
    else create_fresh_blob new itemsperalloc itemsize pagesize sources >>= λ made. some (record {
      handler = record {
        items_per_blob = itemsperalloc;
        itemsize = itemsize;
        users = 1;
        freelistavail = 0;
        current = made.0;
        freelist = 0;
        unreleased = 1;
        pagesize = pagesize;
      };
      locked = false;
      sources = made.1;
    })

unfoldable pub add_corsaro_memhandler_user : State → Option State
unfolding lock unlock
add_corsaro_memhandler_user s = lock s >>= λ s1.
    unlock (record s1 { handler = record (s1.handler) { users = increment s1.handler.users } })

-- The source as a blob of which nothing is in use.
abbrev pub recycled : Memsource → Memsource
recycled m = record m { nextavail = 0; released = 0; nextfree = 0 }

-- The three ways to go on when the current blob is used up: use it again, map a new one, or take
-- one off the free list.
unfoldable pub replace_current : Fresh → Memsource → State → Option State
unfolding create_fresh_blob
replace_current new current s =
    let h = s.handler in
    if current.released == current.alloceditems
    then some (record s { sources = store s.sources h.current (some (recycled current)) })
    else if h.freelist == 0
    then (create_fresh_blob new h.items_per_blob h.itemsize h.pagesize s.sources >>= λ made.
        some (record s {
          handler = record h { current = made.0; unreleased = increment h.unreleased };
          sources = made.1;
        }))
    else s.sources h.freelist >>= λ m. some (record s {
      handler = record h {
        current = h.freelist;
        freelist = m.nextfree;
        freelistavail = decrement h.freelistavail;
        unreleased = increment h.unreleased;
      };
      sources = store s.sources h.freelist (some (recycled m));
    })

-- The test before that.
unfoldable pub refill : Fresh → State → Option State
refill new s = s.sources s.handler.current >>= λ current.
    if leb current.alloceditems current.nextavail then replace_current new current s else some s

-- The next slot of the current blob: its address, the source, and the state then.
unfoldable pub take_slot : State → Option (ℕ × ℕ × State)
take_slot s = s.sources s.handler.current >>= λ m. some (
  m.blob + m.nextavail * m.itemsize,
  s.handler.current,
  record s {
    sources =
        store s.sources s.handler.current (some (record m { nextavail = increment m.nextavail }));
  },
)

unfoldable pub get_item : Fresh → State → Option (ℕ × ℕ × State)
get_item new s = refill new s >>= take_slot

unfoldable pub get_corsaro_memhandler_item : Fresh → State → Option (ℕ × ℕ × State)
get_corsaro_memhandler_item new s = lock s >>= λ s1.
    get_item new s1 >>= λ (mem, source, s2). unlock s2 >>= λ s3. some (mem, source, s3)

abbrev pub get_corsaro_memhandler_item_nolock : Fresh → State → Option (ℕ × ℕ × State)
get_corsaro_memhandler_item_nolock = get_item

-- A source of which the last item has come back goes on the free list, unless it is the current one.
unfoldable pub put_back : ℕ → Memsource → State → Option State
put_back source m s =
    let h = s.handler in
    if not (source == h.current) && (m.released == h.items_per_blob)
    then if h.freelist == source
      then none
      else some (record s {
        handler = record h {
          freelist = source;
          freelistavail = increment h.freelistavail;
          unreleased = decrement h.unreleased;
        };
        sources = store s.sources source (some (record m { nextfree = h.freelist }));
      })
    else some s

-- `freelistavail > 100`, as a test of a signed number.
abbrev pub is_long : ℕ → Bool
is_long avail = ltb 100 avail && ltb avail (2 ^ 31)

-- One pass of the loop that shortens the free list.
unfoldable pub drop_first : State → Option State
drop_first s =
    let h = s.handler in
    s.sources h.freelist >>= λ m. some (record s {
      handler = record h { freelist = m.nextfree; freelistavail = decrement h.freelistavail };
      sources = store s.sources h.freelist none;
    })

unfoldable pub trim : ℕ → State → Option State
trim zero s = if is_long s.handler.freelistavail then none else some s
trim (suc fuel) s = if is_long s.handler.freelistavail then drop_first s >>= trim fuel else some s

unfoldable pub release_item : ℕ → State → Option State
release_item source s = s.sources source >>= λ m.
    let m' : Memsource = record m { released = increment m.released } in
    let s' : State = record s { sources = store s.sources source (some m') } in
    if ltb s.handler.items_per_blob m'.released
    then unlock s'
    else put_back source m' s' >>= λ s2. trim s2.handler.freelistavail s2

unfoldable pub release_corsaro_memhandler_item : ℕ → State → Option State
release_corsaro_memhandler_item source s = lock s >>= λ s1. release_item source s1 >>= unlock

abbrev pub release_corsaro_memhandler_item_nolock : ℕ → State → Option State
release_corsaro_memhandler_item_nolock = release_item

-- The loop that frees the free list, from its first source on. Each pass frees a source, so `fuel`
-- is the number of sources.
unfoldable pub free_list : ℕ → ℕ → (ℕ → Option Memsource) → Option (ℕ → Option Memsource)
free_list zero blob sources = if blob == 0 then some sources else none
free_list (suc fuel) blob sources =
    if blob == 0
    then some sources
    else sources blob >>= λ m. free_list fuel m.nextfree (store sources blob none)

-- The current blob is freed only if all its items have come back.
unfoldable pub free_current : ℕ → (ℕ → Option Memsource) → Option (ℕ → Option Memsource)
free_current current sources = sources current >>= λ m.
    if leb m.nextavail m.released then some (store sources current none) else some sources

-- The handler then, which is `none` once it is freed, and the sources.
unfoldable pub destroy_corsaro_memhandler :
    ℕ → State → Option (Option State × (ℕ → Option Memsource))
destroy_corsaro_memhandler fuel s = lock s >>= λ s1.
    let h = s1.handler in
    let users = decrement h.users in
    unlock (record s1 { handler = record h { users = users } }) >>= λ s2.
    if ltb 0 users && ltb users (2 ^ 31)
    then some (some s2, s2.sources)
    else free_list fuel h.freelist s2.sources >>= λ sources.
        free_current h.current sources >>= λ left. some (none, left)
