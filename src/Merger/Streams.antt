-- ===== src/Merger/Streams.antt =====
-- What the reader threads of corsaroftmerge/corsaroftmerge.c send: their records, then NULL.
use corsaro.Base.{
  ℕ, zero, suc, ◌+◌, ◌≤◌, ◌<◌, ◌≡◌, ◌≢◌, ◌⊎◌, refl, arith, true, false, none, some, List, [], ◌∷◌,
  ◌==◌, store, inl, inr, length, total,
}
use native.Mathlib.Decide.{ℕ_discrete}
use corsaro.Merger.{Reply, again, failed, received, arrived, receive}

-- The pointers before the first NULL.
unfoldable pub sent : List Reply → List ℕ
sent [] = []
sent (again ∷ rs) = sent rs
sent (failed ∷ rs) = []
sent (received none ∷ rs) = []
sent (received (some p) ∷ rs) = p ∷ sent rs

-- The NULL comes, and no error before it.
unfoldable pub IsComplete : List Reply → Type 0
IsComplete [] = ⊥
IsComplete (again ∷ rs) = IsComplete rs
IsComplete (failed ∷ rs) = ⊥
IsComplete (received none ∷ rs) = Unit
IsComplete (received (some p) ∷ rs) = IsComplete rs

-- A message from a complete socket: the last one, or a pointer.
abbrev pub Arrives : List Reply → Type 0
Arrives rs =
    ((rest : List Reply) × (receive rs ≡ arrived none rest) × (sent rs ≡ []))
    ⊎ ((p : ℕ) × (rest : List Reply) × (receive rs ≡ arrived (some p) rest)
        × (sent rs ≡ p ∷ sent rest)
        × IsComplete rest)

pub receive-IsComplete : (rs : List Reply) → IsComplete rs → Arrives rs
unfolding receive sent IsComplete
receive-IsComplete [] h = absurd h
receive-IsComplete (again ∷ rs) h = receive-IsComplete rs h
receive-IsComplete (failed ∷ rs) h = absurd h
receive-IsComplete (received none ∷ rs) h = inl (rs, refl, refl)
receive-IsComplete (received (some p) ∷ rs) h = inr (p, rs, refl, refl, h)

pub length-sent : (rs : List Reply) → length (sent rs) ≤ length rs
unfolding sent
length-sent [] = omega arith
length-sent (again ∷ rs) = omega (arith, length-sent rs)
length-sent (failed ∷ rs) = omega arith
length-sent (received none ∷ rs) = omega arith
length-sent (received (some p) ∷ rs) = omega (arith, length-sent rs)

pub total_mono : (n : ℕ) (f g : ℕ → ℕ) → ((i : ℕ) → f i ≤ g i) → total n f ≤ total n g
total_mono zero f g h = omega arith
total_mono (suc n) f g h = omega (arith, h n, total_mono n f g h)

pub store-same {ℓ} : {A : Type ℓ} (f : ℕ → A) (s : ℕ) (v : A) → store f s v s ≡ v
store-same f s v = let e : (s == s) ≡ true = ground arith in rw e refl

pub store-other {ℓ} : {A : Type ℓ} (f : ℕ → A) (s i : ℕ) (v : A) → s ≢ i → store f s v i ≡ f i
store-other f s i v h = let e : (s == i) ≡ false = ground arith in rw e refl

total-store_out :
    (n : ℕ) (R : ℕ → List ℕ) (s : ℕ) (xs : List ℕ)
    → n ≤ s
    → total n (λ i. length (store R s xs i)) ≡ total n (λ i. length (R i))
total-store_out zero R s xs h = refl
total-store_out (suc n) R s xs h =
    rw (store-other R s n xs (omega arith), total-store_out n R s xs (omega arith)) refl

pub total-store :
    (n : ℕ) (R : ℕ → List ℕ) (s : ℕ) (xs : List ℕ)
    → s < n
    → total n (λ i. length (store R s xs i)) + length (R s)
      ≡ total n (λ i. length (R i)) + length xs
total-store zero R s xs h = absurd (omega arith)
total-store (suc n) R s xs h = elim (ℕ_discrete n s) [
  | yes e ↦ rw (e, store-same R s xs, total-store_out s R s xs (omega arith)) (omega arith)
  | no e ↦
      rw (store-other R s n xs (omega arith)) (omega (arith, total-store n R s xs (omega arith)))
]
