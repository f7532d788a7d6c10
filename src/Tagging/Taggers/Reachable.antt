-- ===== src/Tagging/Taggers/Reachable.antt =====
-- What holds of the taggers of libcorsaro/libcorsaro_tagging.c after any sequence of calls.
use corsaro.Base.{
  ℕ, ◌+◌, ◌<◌, ◌≡◌, ◌≢◌, arith, Bool, true, false, Option, none, some, [], ◌>>=◌, length, store, ap,
}
use corsaro.Tagging.Taggers.{
  IpmetaState, PacketTagger, Taggers, release, loaded, leave_state, clear_state, nth, remove_at,
  corsaro_destroy_packet_tagger, Call, run,
}
use corsaro.Tagging.Taggers.Counted.{
  points, holders, IsCounted, holders-remove_at, run-IsCounted, leave-IsCounted, clear-IsCounted,
}

-- States as corsaro_load_ipmeta_data leaves them: the program that loaded a state has the only
-- reference to it.
abbrev pub IsFresh : (ℕ → IpmetaState) → Type 0
IsFresh states = (s : ℕ) → (states s ≡ loaded (states s)) × ((states s).freed ≡ false)

-- What calls that succeed lead to, from states without a tagger. `owned` says to which states the
-- program has its own reference yet; it gives that up when it has loaded another state, and may free
-- a state that is ending. Before every call that takes or gives up a reference there are fewer than
-- 254 taggers, so that with the program's own no more than 255 references are made, which is what the
-- eight bits of the count allow.
pub data Reachable (states : ℕ → IpmetaState) : Taggers → (ℕ → Bool) → Type 0 where
  start : Reachable states (record { states = states; live = [] }) (λ s. true)
  after :
      (c : Call) {w w' : Taggers} {owned : ℕ → Bool}
      → Reachable states w owned
      → length w.live < 254
      → run c w ≡ some w'
      → Reachable states w' owned
  leave :
      (s : ℕ) {w w' : Taggers} {owned : ℕ → Bool}
      → Reachable states w owned
      → owned s ≡ true
      → length w.live < 254
      → leave_state s w ≡ some w'
      → Reachable states w' (store owned s false)
  clear :
      (s : ℕ) {w w' : Taggers} {owned : ℕ → Bool}
      → Reachable states w owned
      → clear_state s w ≡ some w'
      → Reachable states w' owned

release_runs :
    (frees : Bool) (state : IpmetaState) → state.freed ≡ false → release frees state ≢ none
unfolding release
release_runs frees state e f = ground arith

-- A tagger that exists can be destroyed.
IsCounted-destroy :
    (w : Taggers) (owned : ℕ → Bool) (i : ℕ) (t : PacketTagger)
    → IsCounted w owned
    → nth i w.live ≡ some t
    → corsaro_destroy_packet_tagger i w ≢ none
unfolding corsaro_destroy_packet_tagger
IsCounted-destroy w owned i t v found =
    rw found (destroyed t.ipmeta_state (λ x. holders-remove_at x i t w.live found))
  where
    destroyed :
        (m : Option ℕ)
        → ((x : ℕ) → holders x (remove_at i w.live) + points x m ≡ holders x w.live)
        → (elim m [
          | none ↦ some (record w { live = remove_at i w.live })
          | some old ↦ release true (w.states old) >>= λ released.
              some (record { states = store w.states old released; live = remove_at i w.live })
        ])
          ≢ none
    destroyed none parted e = absurd (ground arith)
    destroyed (some old) parted e =
        let self : points old (some old) ≡ 1 = ground arith in
        let kept : (w.states old).freed ≡ false = ground (arith, self, parted old, v.gone old) in
        absurd (ground (arith, release_runs true (w.states old) kept))

-- After any sequence of calls that create, replace and destroy taggers, with fewer than 254 taggers
-- before each, and steps by which the program gives up its reference to a state or frees a state
-- that is ending, from states as corsaro_load_ipmeta_data leaves them, the count of every state is
-- the number of the taggers that use it, and one more while the program has its reference, and a
-- state that is ending or freed has none of either.
pub Reachable-IsCounted :
    {states : ℕ → IpmetaState} {w : Taggers} {owned : ℕ → Bool}
    → IsFresh states
    → Reachable states w owned
    → IsCounted w owned
Reachable-IsCounted fresh start = record {
  counted = λ s. ap IpmetaState.refcount (fresh s).0;
  ended = λ s k. absurd (k (ap IpmetaState.ending (fresh s).0));
  gone = λ s k. absurd (ground (arith, (fresh s).1));
}
Reachable-IsCounted fresh (after c {w} {w'} {owned} r few e) =
    run-IsCounted c w w' owned (Reachable-IsCounted fresh r) few e
Reachable-IsCounted fresh (leave s {w} {w'} {owned} r has few e) =
    leave-IsCounted s w w' owned (Reachable-IsCounted fresh r) has few e
Reachable-IsCounted fresh (clear s {w} {w'} {owned} r e) =
    clear-IsCounted s w w' owned (Reachable-IsCounted fresh r) e

-- After any such calls and steps, destroying a tagger that exists reads no freed memory.
pub destroy_runs :
    {states : ℕ → IpmetaState} {w : Taggers} {owned : ℕ → Bool} (i : ℕ) {t : PacketTagger}
    → IsFresh states
    → Reachable states w owned
    → nth i w.live ≡ some t
    → corsaro_destroy_packet_tagger i w ≢ none
destroy_runs {w = w} {owned = owned} i {t} fresh r found =
    IsCounted-destroy w owned i t (Reachable-IsCounted fresh r) found
