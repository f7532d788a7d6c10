-- ===== src/Memhandler/Ledger.antt =====
-- The items that the users of libcorsaro/libcorsaro_memhandler.c hold.
use corsaro.Base.{
  ℕ, zero, suc, ◌+◌, ◌≤◌, ◌≡◌, ◌≢◌, ◌⊎◌, arith, Option, none, some, List, [], ◌∷◌, ltb, ◌==◌,
  if◌then◌else◌, refl,
}
use native.Mathlib.Decide.{ℕ_discrete}

-- An item: its address, and the source that it came from.
pub record Held : Type 0 where
  pub mem : ℕ
  pub source : ℕ

abbrev pub nth : ℕ → List Held → Option Held
nth i [] = none
nth zero (x ∷ xs) = some x
nth (suc i) (x ∷ xs) = nth i xs

abbrev pub remove_at : ℕ → List Held → List Held
remove_at i [] = []
remove_at zero (x ∷ xs) = xs
remove_at (suc i) (x ∷ xs) = x ∷ remove_at i xs

-- How many items of a source are held.
abbrev pub from : ℕ → List Held → ℕ
from p [] = 0
from p (x ∷ xs) = (if x.source == p then 1 else 0) + from p xs

-- Where the entries of the shorter list stood.
abbrev pub shift : ℕ → ℕ → ℕ
shift i j = if ltb j i then j else suc j

pub nth-remove_at : (i j : ℕ) (xs : List Held) → nth j (remove_at i xs) ≡ nth (shift i j) xs
nth-remove_at i j [] = refl
nth-remove_at zero zero (x ∷ xs) = ground arith
nth-remove_at zero (suc j) (x ∷ xs) = ground arith
nth-remove_at (suc i) zero (x ∷ xs) = ground arith
nth-remove_at (suc i) (suc j) (x ∷ xs) = ground (arith, nth-remove_at i j xs)

pub shift_distinct : (i j k : ℕ) → j ≢ k → shift i j ≢ shift i k
shift_distinct i j k h e = ground arith

pub from-remove_at :
    (i p : ℕ) (x : Held) (xs : List Held)
    → nth i xs ≡ some x
    → (if x.source == p then 1 else 0) + from p (remove_at i xs) ≡ from p xs
from-remove_at i p x [] e = absurd (ground arith)
from-remove_at zero p x (y ∷ xs) e = ground arith
from-remove_at (suc i) p x (y ∷ xs) e = ground (arith, from-remove_at i p x xs e)

-- An item that is held is counted.
pub from-nth : (i : ℕ) (x : Held) (xs : List Held) → nth i xs ≡ some x → 1 ≤ from x.source xs
from-nth i x [] e = absurd (ground arith)
from-nth zero x (y ∷ xs) e = ground arith
from-nth (suc i) x (y ∷ xs) e = ground (arith, from-nth i x xs e)

pub from-held :
    (p : ℕ) (xs : List Held)
    → 1 ≤ from p xs
    → (i : ℕ) × (x : Held) × (nth i xs ≡ some x) × (x.source ≡ p)
from-held p [] h = absurd (omega arith)
from-held p (x ∷ xs) h = elim (ℕ_discrete x.source p) [
  | yes same ↦ (0, x, refl, same)
  | no other ↦ let (i, y, at, e) = from-held p xs (ground (arith, other)) in (suc i, y, at, e)
]

-- Two stretches of memory that have no byte in common.
abbrev pub IsApart : ℕ → ℕ → ℕ → ℕ → Type 0
IsApart a size b size' = (a + size ≤ b) ⊎ (b + size' ≤ a)
