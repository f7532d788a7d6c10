-- ===== src/Tagging/Taggers/Counted.antt =====
-- The reference counts of libcorsaro/libcorsaro_tagging.c.
use corsaro.Base.{
  ℕ, zero, suc, ◌+◌, ◌%◌, ◌≤◌, ◌<◌, ◌≡◌, ◌≢◌, sym, ap, subst, ◌∙◌, arith, Bool, true, false, Option,
  none, some, List, [], ◌∷◌, ◌==◌, if◌then◌else◌, store, ◌>>=◌, length, some-inj, bind-some,
  Bool-cases, inl, inr,
}
use corsaro.Tagging.Taggers.{
  IpmetaState, PacketTagger, Taggers, one_if, leave_state, clear_state, acquire, release,
  corsaro_create_packet_tagger, nth, set_at, remove_at, corsaro_replace_tagger_ipmeta,
  corsaro_destroy_packet_tagger, Call, create, replace, destroy, run,
}

abbrev pub points : ℕ → Option ℕ → ℕ
points s none = 0
points s (some x) = if x == s then 1 else 0

-- How many taggers use a state.
abbrev pub holders : ℕ → List PacketTagger → ℕ
holders s [] = 0
holders s (t ∷ ts) = points s t.ipmeta_state + holders s ts

-- Every count is the number of the references to the state, and a state that is ending or freed has
-- none.
pub record IsCountedBy (states : ℕ → IpmetaState) (h : ℕ → ℕ) : Type 0 where
  pub counted : (s : ℕ) → (states s).refcount ≡ h s
  pub ended : (s : ℕ) → (states s).ending ≢ 0 → h s ≡ 0
  pub gone : (s : ℕ) → (states s).freed ≡ true → h s ≡ 0

-- The references are those of the taggers, and that of the program where `owned` is true.
abbrev pub IsCounted : Taggers → (ℕ → Bool) → Type 0
IsCounted w owned = IsCountedBy w.states (λ s. holders s w.live + one_if (owned s))

holders-length : (s : ℕ) (ts : List PacketTagger) → holders s ts ≤ length ts
holders-length s [] = omega arith
holders-length s (t ∷ ts) = ground (arith, holders-length s ts)

points_of :
    (u t : PacketTagger) (s : ℕ)
    → some u ≡ some t
    → points s u.ipmeta_state ≡ points s t.ipmeta_state
points_of u t s e = ap (λ o. elim o [ none ↦ 0 | some x ↦ points s x.ipmeta_state ]) e

holders-set_at :
    (s i : ℕ) (t t' : PacketTagger) (ts : List PacketTagger)
    → nth i ts ≡ some t
    → holders s (set_at i t' ts) + points s t.ipmeta_state ≡ holders s ts + points s t'.ipmeta_state
holders-set_at s i t t' [] e = absurd (ground arith)
holders-set_at s zero t t' (u ∷ ts) e = omega (arith, points_of u t s e)
holders-set_at s (suc i) t t' (u ∷ ts) e = omega (arith, holders-set_at s i t t' ts e)

pub holders-remove_at :
    (s i : ℕ) (t : PacketTagger) (ts : List PacketTagger)
    → nth i ts ≡ some t
    → holders s (remove_at i ts) + points s t.ipmeta_state ≡ holders s ts
holders-remove_at s i t [] e = absurd (ground arith)
holders-remove_at s zero t (u ∷ ts) e = omega (arith, points_of u t s e)
holders-remove_at s (suc i) t (u ∷ ts) e = omega (arith, holders-remove_at s i t ts e)

acquire-cases :
    (state state' : IpmetaState)
    → acquire state ≡ some state'
    → (state.freed ≡ false)
      × (state.ending ≡ 0)
      × (state'.refcount ≡ (state.refcount + 1) % 256)
      × (state'.freed ≡ false)
      × (state'.ending ≡ 0)
unfolding acquire
acquire-cases state state' e = ground arith

release-cases :
    (frees : Bool) (state state' : IpmetaState)
    → release frees state ≡ some state'
    → (state.freed ≡ false)
      × (state'.refcount ≡ (state.refcount + 255) % 256)
      × (state'.ending ≢ 0 → state.ending ≡ 0 → state'.refcount ≡ 0)
      × (state'.freed ≡ true → state'.refcount ≡ 0)
unfolding release
release-cases frees state state' e = ground arith

module _ (states : ℕ → IpmetaState) (h h' : ℕ → ℕ) (s : ℕ) (state' : IpmetaState)
    (c : IsCountedBy states h) where
  acquire-IsCountedBy :
      acquire (states s) ≡ some state'
      → ((x : ℕ) → h' x ≡ h x + points x (some s))
      → h s < 255
      → IsCountedBy (store states s state') h'
  acquire-IsCountedBy e up room =
      let (fresh, open_, count, fresh', open') = acquire-cases (states s) state' e in
      record {
        counted = λ x. ground (arith, up x, c.counted x, count);
        ended = λ x k. ground (arith, up x, c.ended x, open');
        gone = λ x k. ground (arith, up x, c.gone x, fresh');
      }

  release-IsCountedBy :
      (frees : Bool)
      → release frees (states s) ≡ some state'
      → ((x : ℕ) → h x ≡ h' x + points x (some s))
      → h s ≤ 255
      → IsCountedBy (store states s state') h'
  release-IsCountedBy frees e down room =
      let (fresh, count, ended', gone') = release-cases frees (states s) state' e in
      record {
        counted = λ x. ground (arith, down x, c.counted x, count);
        ended = λ x k. ground (arith, down x, c.ended x, c.counted x, count, ended');
        gone = λ x k. ground (arith, down x, c.gone x, c.counted x, count, gone');
      }

IsCountedBy-ext :
    (states : ℕ → IpmetaState) (h h' : ℕ → ℕ)
    → IsCountedBy states h
    → ((s : ℕ) → h' s ≡ h s)
    → IsCountedBy states h'
IsCountedBy-ext states h h' c e = record {
  counted = λ s. c.counted s ∙ sym (e s);
  ended = λ s k. e s ∙ c.ended s k;
  gone = λ s k. e s ∙ c.gone s k;
}

module _ (w w' : Taggers) (owned : ℕ → Bool) (v : IsCounted w owned)
    (few : length w.live < 254) where
  abbrev references : ℕ → ℕ
  references s = holders s w.live + one_if (owned s)

  room : (s : ℕ) → references s < 255
  room s = ground (arith, holders-length s w.live)

  create-IsCounted :
      (allocated : Bool) (ipmeta : Option ℕ)
      → corsaro_create_packet_tagger allocated ipmeta w ≡ some w'
      → IsCounted w' owned
  unfolding corsaro_create_packet_tagger
  create-IsCounted false ipmeta e = subst (λ w. IsCounted w owned) (some-inj e) v
  create-IsCounted true none e =
      subst (λ w. IsCounted w owned) (some-inj e)
        (IsCountedBy-ext w.states _ _ v (λ s. omega arith))
  create-IsCounted true (some s) e =
      let (state', got, made) = bind-some (acquire (w.states s)) _ e in
      subst (λ w. IsCounted w owned) (some-inj made)
        (acquire-IsCountedBy w.states _ _ s state' v got (λ x. omega arith) (room s))

  replace-IsCounted : (i s : ℕ) → corsaro_replace_tagger_ipmeta i s w ≡ some w' → IsCounted w' owned
  unfolding corsaro_replace_tagger_ipmeta
  replace-IsCounted i s e =
      let (t, found, e1) = bind-some (nth i w.live) _ e in
      let (old, at, e2) = bind-some t.ipmeta_state _ e1 in
      let (state', let_go, e3) = bind-some (release false (w.states old)) _ e2 in
      let states = store w.states old state' in
      let (state'', got, made) = bind-some (acquire (states s)) _ e3 in
      let t' : PacketTagger = record t { ipmeta_state = some s } in
      let without = λ (x : ℕ). holders x (remove_at i w.live) + one_if (owned x) in
      let same = λ (x : ℕ). ap (points x) at in
      let parted = λ (x : ℕ). holders-remove_at x i t w.live found in
      let joined = λ (x : ℕ). holders-set_at x i t t' w.live found in
      let released =
        release-IsCountedBy w.states references without old state' v false let_go
          (λ x. omega (arith, same x, parted x)) (omega (arith, room old)) in
      subst (λ w. IsCounted w owned) (some-inj made)
        (acquire-IsCountedBy states without _ s state'' released got
          (λ x. omega (arith, same x, parted x, joined x)) (omega (arith, room s, parted s)))

  destroy-IsCounted : (i : ℕ) → corsaro_destroy_packet_tagger i w ≡ some w' → IsCounted w' owned
  unfolding corsaro_destroy_packet_tagger
  destroy-IsCounted i e =
      let (t, found, e1) = bind-some (nth i w.live) _ e in
      let parted = λ (x : ℕ). holders-remove_at x i t w.live found in
      freed t.ipmeta_state (λ x. parted x) e1
    where
      freed :
          (m : Option ℕ)
          → ((x : ℕ) → holders x (remove_at i w.live) + points x m ≡ holders x w.live)
          → elim m [
            | none ↦ some (record w { live = remove_at i w.live })
            | some old ↦ release true (w.states old) >>= λ released.
                some (record { states = store w.states old released; live = remove_at i w.live })
          ]
            ≡ some w'
          → IsCounted w' owned
      freed none parted e =
          subst (λ w. IsCounted w owned) (some-inj e)
            (IsCountedBy-ext w.states _ _ v (λ x. omega (arith, parted x)))
      freed (some old) parted e =
          let (state', let_go, made) = bind-some (release true (w.states old)) _ e in
          subst (λ w. IsCounted w owned) (some-inj made)
            (release-IsCountedBy w.states references _ old state' v true let_go
              (λ x. omega (arith, parted x)) (omega (arith, room old)))

pub run-IsCounted :
    (c : Call) (w w' : Taggers)
    → (owned : ℕ → Bool) → IsCounted w owned
    → length w.live < 254
    → run c w ≡ some w'
    → IsCounted w' owned
unfolding run
run-IsCounted (create allocated ipmeta) w w' owned v few e =
    create-IsCounted w w' owned v few allocated ipmeta e
run-IsCounted (replace i s) w w' owned v few e = replace-IsCounted w w' owned v few i s e
run-IsCounted (destroy i) w w' owned v few e = destroy-IsCounted w w' owned v few i e

-- The program gives up the reference that it has.
pub leave-IsCounted :
    (s : ℕ) (w w' : Taggers) (owned : ℕ → Bool)
    → IsCounted w owned
    → owned s ≡ true
    → length w.live < 254
    → leave_state s w ≡ some w'
    → IsCounted w' (store owned s false)
unfolding leave_state
leave-IsCounted s w w' owned v has few e =
    let (state', let_go, made) = bind-some (release false (w.states s)) _ e in
    subst (λ w. IsCounted w (store owned s false)) (some-inj made)
      (release-IsCountedBy w.states (λ x. holders x w.live + one_if (owned x)) _ s state' v false
        let_go (λ x. ground (arith, has)) (ground (arith, has, holders-length s w.live)))

-- A state that is ending is freed.
pub clear-IsCounted :
    (s : ℕ) (w w' : Taggers) (owned : ℕ → Bool)
    → IsCounted w owned
    → clear_state s w ≡ some w'
    → IsCounted w' owned
unfolding clear_state
clear-IsCounted s w w' owned v e = elim (Bool-cases (w.states s).freed) [
  | inl gone ↦ absurd (ground (arith, gone, e))
  | inr kept ↦ elim (Bool-cases ((w.states s).ending == 0)) [
    | inl open_ ↦
        let same : clear_state s w ≡ some w = ground (arith, kept, open_) in
        subst (λ w. IsCounted w owned) (some-inj (sym same ∙ e)) v
    | inr ending ↦
        let w2 : Taggers = record w {
          states = store w.states s (record (w.states s) { freed = true });
        } in
        let made : clear_state s w ≡ some w2 = ground (arith, kept, ending) in
        subst (λ w. IsCounted w owned) (some-inj (sym made ∙ e))
          (record {
            counted = λ x. ground (arith, v.counted x);
            ended = λ x k. ground (arith, v.ended x, ending);
            gone = λ x k. ground (arith, v.gone x, v.ended x, ending);
          })
  ]
]
