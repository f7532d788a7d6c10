-- ===== src/Memhandler/Valid.antt =====
-- What holds of a memory handler of libcorsaro/libcorsaro_memhandler.c between calls.
use corsaro.Base.{
  ℕ, ◌+◌, ◌*◌, ◌^◌, ◌≤◌, ◌<◌, ◌≡◌, ◌≢◌, arith, Option, none, some, List, [], ◌∷◌, length, store,
}
use native.Mathlib.Decide.{ℕ_discrete}
use corsaro.PriorityQueue.Print.{list_count}
use corsaro.Memhandler.{Memsource, Memhandler, State, Fresh, upsize}
use corsaro.Memhandler.Ledger.{Held, nth, from, IsApart}

-- The sources of the free list that starts at p.
abbrev pub IsFreelist : (ℕ → Option Memsource) → ℕ → List ℕ → Type 0
IsFreelist sources p [] = p ≡ 0
IsFreelist sources p (q ∷ qs) =
    (p ≡ q) × (m : Memsource) × (sources q ≡ some m) × IsFreelist sources m.nextfree qs

-- A source at p of which `held` items are held and which stands `idle` times on the free list.
pub record IsLive (h : Memhandler) (p : ℕ) (m : Memsource) (held idle : ℕ) : Type 0 where
  pub sized : m.alloceditems ≡ h.items_per_blob
  pub item : m.itemsize ≡ h.itemsize
  pub fits : h.items_per_blob * h.itemsize ≤ m.blobsize
  pub counted : held + m.released ≡ m.nextavail
  pub within : m.nextavail ≤ h.items_per_blob
  pub used_up : p ≢ h.current → m.nextavail ≡ h.items_per_blob
  pub kept : p ≢ h.current → held ≡ 0 → idle ≡ 1
  pub unused : 1 ≤ idle → held ≡ 0

-- An item that is held lies in a slot of its source that has been given out.
abbrev pub IsPlaced : (ℕ → Option Memsource) → Held → Type 0
IsPlaced sources x =
    (m : Memsource) × (sources x.source ≡ some m)
    × (i : ℕ) × (i < m.nextavail)
    × (x.mem ≡ m.blob + i * m.itemsize)

-- The number of bytes of a blob is a `size_t`, and pages have a size.
abbrev pub IsSmall : Memhandler → Type 0
IsSmall h = (1 ≤ h.pagesize) × (h.itemsize * h.items_per_blob + h.pagesize < 2 ^ 64)

-- The users hold the items of `held`, and `free` are the sources of the free list, which are no more
-- than `limit`.
pub record IsPool (limit : ℕ) (s : State) (held : List Held) (free : List ℕ) : Type 0 where
  pub some_items : 1 ≤ s.handler.items_per_blob
  pub few_items : s.handler.items_per_blob < 2 ^ 32
  pub small : IsSmall s.handler
  pub null : s.sources 0 ≡ none
  pub chain : IsFreelist s.sources s.handler.freelist free
  pub once : (q : ℕ) → list_count q free ≤ 1
  pub avail : s.handler.freelistavail ≡ length free
  pub short : length free ≤ limit
  pub active : (m : Memsource) × (s.sources s.handler.current ≡ some m)
  pub not_free : list_count s.handler.current free ≡ 0
  pub live :
      (p : ℕ) (m : Memsource)
      → s.sources p ≡ some m
      → IsLive s.handler p m (from p held) (list_count p free)
  pub placed : (i : ℕ) (x : Held) → nth i held ≡ some x → IsPlaced s.sources x
  pub apart :
      (i j : ℕ) (x y : Held)
      → i ≢ j
      → nth i held ≡ some x
      → nth j held ≡ some y
      → IsApart x.mem s.handler.itemsize y.mem s.handler.itemsize
  pub regions :
      (p q : ℕ) (m n : Memsource)
      → p ≢ q
      → s.sources p ≡ some m
      → s.sources q ≡ some n
      → IsApart m.blob m.blobsize n.blob n.blobsize

abbrev pub IsValid : State → List Held → List ℕ → Type 0
IsValid = IsPool 100

-- What malloc and mmap give is not in use, and there is memory.
abbrev pub IsFresh : Fresh → State → Type 0
IsFresh new s =
    (new.source ≢ 0)
    × (s.sources new.source ≡ none)
    × (b : ℕ) × (new.region ≡ some b)
    × ((p : ℕ) (m : Memsource)
        → s.sources p ≡ some m
        → IsApart b (upsize s.handler.items_per_blob s.handler.itemsize s.handler.pagesize) m.blob
            m.blobsize)

-- A source that is not on the free list can be written.
pub IsFreelist-store :
    (sources : ℕ → Option Memsource) (p q : ℕ) (v : Option Memsource) (free : List ℕ)
    → list_count q free ≡ 0
    → IsFreelist sources p free
    → IsFreelist (store sources q v) p free
IsFreelist-store sources p q v [] away chain = chain
IsFreelist-store sources p q v (r ∷ rs) away (e, m, found, chain) =
    (e, m, ground arith, IsFreelist-store sources m.nextfree q v rs (ground arith) chain)

-- What stands on the free list is a source.
pub IsFreelist-listed :
    (sources : ℕ → Option Memsource) (p q : ℕ) (free : List ℕ)
    → 1 ≤ list_count q free
    → IsFreelist sources p free
    → (m : Memsource) × (sources q ≡ some m)
IsFreelist-listed sources p q [] listed chain = absurd (omega arith)
IsFreelist-listed sources p q (r ∷ rs) listed (e, m, found, chain) = elim (ℕ_discrete q r) [
  | yes same ↦ (m, ground (arith, same, found))
  | no other ↦ IsFreelist-listed sources m.nextfree q rs (ground (arith, other)) chain
]
