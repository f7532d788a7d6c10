-- ===== src/Tagging/Taggers.antt =====
-- The taggers of libcorsaro/libcorsaro_tagging.c and the lookup states that they share, with what
-- corsarotagger/corsarotagger.c does to a state that it has replaced.
pub mod Counted
pub mod Reachable
use corsaro.Base.{
  ℕ, zero, suc, ◌+◌, ◌%◌, Bool, true, false, Option, none, some, List, [], ◌∷◌, ◌==◌, if◌then◌else◌,
  store, ◌>>=◌,
}

-- What `corsaro_ipmeta_state_t` has to do with its taggers, and whether its memory has been freed.
-- The three flags say which providers it has.
pub record IpmetaState : Type 0 where
  pub pfxipmeta : Bool
  pub maxmindipmeta : Bool
  pub netacqipmeta : Bool
  pub refcount : ℕ
  pub ending : ℕ
  pub freed : Bool

-- `corsaro_packet_tagger_t`; `records` says whether a record set was made.
pub record PacketTagger : Type 0 where
  pub ipmeta_state : Option ℕ
  pub providers : ℕ
  pub records : Bool

-- The states by their address, and the taggers that exist.
pub record Taggers : Type 0 where
  pub states : ℕ → IpmetaState
  pub live : List PacketTagger

-- `none` is a run that reads freed memory or a null pointer, or that fails an assertion.

-- `assert(state->ending == 0); state->refcount ++;` under the lock. The count has eight bits.
unfoldable pub acquire : IpmetaState → Option IpmetaState
acquire state =
    if state.freed
    then none
    else if state.ending == 0
    then some (record state { refcount = (state.refcount + 1) % 256 })
    else none

-- `state->refcount --;` under the lock, and what follows if it is 0 then. `frees` says whether that
-- frees the state.
unfoldable pub release : Bool → IpmetaState → Option IpmetaState
release frees state =
    let refcount = (state.refcount + 255) % 256 in
    if state.freed
    then none
    else if refcount == 0
    then some (record state { refcount = refcount; ending = 1; freed = frees })
    else some (record state { refcount = refcount })

abbrev pub one_if : Bool → ℕ
one_if b = if b then 1 else 0

-- If `calloc` gives no memory, NULL is returned and nothing changes.
unfoldable pub corsaro_create_packet_tagger : Bool → Option ℕ → Taggers → Option Taggers
unfolding acquire
corsaro_create_packet_tagger false ipmeta w = some w
corsaro_create_packet_tagger true none w =
    some
      (record w { live = record { ipmeta_state = none; providers = 0; records = false } ∷ w.live })
corsaro_create_packet_tagger true (some s) w =
    let state = w.states s in
    acquire state >>= λ state'. some (record {
      states = store w.states s state';
      live =
          record {
            ipmeta_state = some s;
            providers =
                one_if state.pfxipmeta + one_if state.maxmindipmeta + one_if state.netacqipmeta;
            records = true;
          }
          ∷ w.live;
    })

-- The tagger behind a pointer, and the list after writing it or freeing it. Pointers are positions.
abbrev pub nth : ℕ → List PacketTagger → Option PacketTagger
nth i [] = none
nth zero (t ∷ ts) = some t
nth (suc i) (t ∷ ts) = nth i ts

abbrev pub set_at : ℕ → PacketTagger → List PacketTagger → List PacketTagger
set_at i t' [] = []
set_at zero t' (t ∷ ts) = t' ∷ ts
set_at (suc i) t' (t ∷ ts) = t ∷ set_at i t' ts

abbrev pub remove_at : ℕ → List PacketTagger → List PacketTagger
remove_at i [] = []
remove_at zero (t ∷ ts) = ts
remove_at (suc i) (t ∷ ts) = t ∷ remove_at i ts

unfoldable pub corsaro_replace_tagger_ipmeta : ℕ → ℕ → Taggers → Option Taggers
unfolding acquire release
corsaro_replace_tagger_ipmeta i replace w = do
  tagger ← nth i w.live
  old ← tagger.ipmeta_state
  released ← release false (w.states old)
  let states = store w.states old released
  acquired ← acquire (states replace)
  some (record {
    states = store states replace acquired;
    live = set_at i (record tagger { ipmeta_state = some replace }) w.live;
  })

-- On a tagger that is not null.
unfoldable pub corsaro_destroy_packet_tagger : ℕ → Taggers → Option Taggers
unfolding release
corsaro_destroy_packet_tagger i w = do
  tagger ← nth i w.live
  elim tagger.ipmeta_state [
    | none ↦ some (record w { live = remove_at i w.live })
    | some old ↦ release true (w.states old) >>= λ released.
        some (record { states = store w.states old released; live = remove_at i w.live })
  ]

-- The end of corsaro_load_ipmeta_data: a state has one reference from the start, that of the program
-- which loaded it.
abbrev pub loaded : IpmetaState → IpmetaState
loaded state = record state { refcount = 1; ending = 0 }

-- In tagger_main_loop, once a new state has been loaded: the program gives up its reference to the
-- old one.
unfoldable pub leave_state : ℕ → Taggers → Option Taggers
unfolding release
leave_state s w = release false (w.states s) >>= λ released.
    some (record w { states = store w.states s released })

-- In main, after every round of the loop: `if (prev_ipmeta_state->ending)` the old state is freed.
unfoldable pub clear_state : ℕ → Taggers → Option Taggers
clear_state s w =
    let state = w.states s in
    if state.freed
    then none
    else if state.ending == 0
    then some w
    else some (record w { states = store w.states s (record state { freed = true }) })

-- The calls that a program makes, and running them.
pub data Call : Type 0 where
  create : Bool → Option ℕ → Call
  replace : ℕ → ℕ → Call
  destroy : ℕ → Call

unfoldable pub run : Call → Taggers → Option Taggers
unfolding corsaro_create_packet_tagger corsaro_replace_tagger_ipmeta corsaro_destroy_packet_tagger
run (create allocated ipmeta) w = corsaro_create_packet_tagger allocated ipmeta w
run (replace i s) w = corsaro_replace_tagger_ipmeta i s w
run (destroy i) w = corsaro_destroy_packet_tagger i w
