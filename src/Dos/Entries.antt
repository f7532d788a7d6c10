-- ===== src/Dos/Entries.antt =====
-- Arrays of Judy, which libcorsaro/plugins/corsaro_dos.c calls, as ascending lists of entries.
use corsaro.Base.{
  ℕ, suc, ◌≤◌, ◌<◌, ◌≡◌, refl, arith, Option, none, some, List, [], ◌∷◌, ltb, leb, ◌==◌,
  if◌then◌else◌,
}

-- An index and the value there.
abbrev pub Entry : Type 0
Entry = ℕ × ℕ

abbrev pub lookup : ℕ → List Entry → Option ℕ
lookup i [] = none
lookup i ((j, v) ∷ es) = if j == i then some v else lookup i es

abbrev pub write : ℕ → ℕ → List Entry → List Entry
write i v [] = (i, v) ∷ []
write i v ((j, w) ∷ es) =
    if ltb i j then (i, v) ∷ (j, w) ∷ es else if j == i then (i, v) ∷ es else (j, w) ∷ write i v es

abbrev pub remove : ℕ → List Entry → List Entry
remove i [] = []
remove i ((j, w) ∷ es) = if j == i then es else (j, w) ∷ remove i es

-- The first index that is no less than i.
abbrev pub next : ℕ → List Entry → Option ℕ
next i [] = none
next i ((j, w) ∷ es) = if leb i j then some j else next i es

-- Indices ascend, from one on.
abbrev pub IsAscending : ℕ → List Entry → Type 0
IsAscending i [] = Unit
IsAscending i ((j, v) ∷ es) = (i ≤ j) × IsAscending (suc j) es

pub lookup-write :
    (i v k : ℕ) (es : List Entry)
    → lookup k (write i v es) ≡ (if i == k then some v else lookup k es)
lookup-write i v k [] = refl
lookup-write i v k ((j, w) ∷ es) = ground (arith, lookup-write i v k es)

pub IsAscending-weaken : (i j : ℕ) (es : List Entry) → j ≤ i → IsAscending i es → IsAscending j es
IsAscending-weaken i j [] less h = tt
IsAscending-weaken i j ((k, v) ∷ es) less (h, t) = (omega arith, t)

-- Nothing stands below where the indices begin.
pub lookup-absent : (i k : ℕ) (es : List Entry) → IsAscending i es → k < i → lookup k es ≡ none
lookup-absent i k [] h less = refl
lookup-absent i k ((j, v) ∷ es) (p, h) less =
    ground (arith, lookup-absent (suc j) k es h (omega arith))
