-- ===== src/Memhandler/Store.antt =====
-- Writing one source of libcorsaro/libcorsaro_memhandler.c.
use corsaro.Base.{
  ℕ, ◌+◌, ◌*◌, ◌≤◌, ◌<◌, ◌≡◌, ◌≢◌, arith, Option, none, some, store, subst, refl, sym, some-inj,
  inl, inr,
}
use mathlib.Core.Path.{fun_ext}
use native.Mathlib.Decide.{ℕ_discrete}
use corsaro.Memhandler.{Memsource}
use corsaro.Memhandler.Ledger.{Held, IsApart}
use corsaro.Memhandler.Valid.{IsPlaced}

pub swap : (a m b n : ℕ) → IsApart a m b n → IsApart b n a m
swap a m b n (inl h) = inr h
swap a m b n (inr h) = inl h

module _ (sources : ℕ → Option Memsource) (p : ℕ) (v : Memsource) where
  -- What holds of the source that is written, and of every other one, holds of all.
  pub store-all :
      (P : ℕ → Memsource → Type 0)
      → P p v
      → ((q : ℕ) (m : Memsource) → q ≢ p → sources q ≡ some m → P q m)
      → (q : ℕ) (m : Memsource) → store sources p (some v) q ≡ some m
      → P q m
  store-all P here there q m e = elim (ℕ_discrete q p) [
    | yes same ↦
        let written : some v ≡ some m = ground (arith, same, e) in
        let vm : v ≡ m = some-inj written in
        subst (λ x. P q x) vm (subst (λ x. P x v) (sym same) here)
    | no other ↦ there q m other (ground (arith, other, e))
  ]

  pub store-regions :
      ((q r : ℕ) (m n : Memsource)
        → q ≢ r
        → sources q ≡ some m
        → sources r ≡ some n
        → IsApart m.blob m.blobsize n.blob n.blobsize)
      → ((q : ℕ) (n : Memsource)
          → q ≢ p
          → sources q ≡ some n
          → IsApart v.blob v.blobsize n.blob n.blobsize)
      → (q r : ℕ) (m n : Memsource) → q ≢ r
      → store sources p (some v) q ≡ some m
      → store sources p (some v) r ≡ some n
      → IsApart m.blob m.blobsize n.blob n.blobsize
  store-regions old new q r m n other at_q at_r =
      let from_v : (r : ℕ) (n : Memsource)
          → store sources p (some v) r ≡ some n
          → p ≢ r
          → IsApart v.blob v.blobsize n.blob n.blobsize =
        store-all (λ r n. p ≢ r → IsApart v.blob v.blobsize n.blob n.blobsize)
          (λ h. absurd (h refl)) (λ r n h e h'. new r n h e) in
      store-all
        (λ q m.
          (r : ℕ) (n : Memsource)
          → q ≢ r
          → store sources p (some v) r ≡ some n
          → IsApart m.blob m.blobsize n.blob n.blobsize)
        (λ r n h e. from_v r n e h)
        (λ q m away e r n h e'.
          store-all (λ r n. q ≢ r → IsApart m.blob m.blobsize n.blob n.blobsize)
            (λ h. swap _ _ _ _ (new q m away e)) (λ r n h e' h'. old q r m n h' e e') r n e' h)
        q m at_q r n other at_r

  -- An item of another source is where it was.
  pub store-IsPlaced :
      (x : Held) → x.source ≢ p → IsPlaced sources x → IsPlaced (store sources p (some v)) x
  store-IsPlaced x other (m, found, i, inside, at) = (m, ground (arith, other), i, inside, at)

  -- So is one of the source that is written, if that has no fewer slots in use.
  pub store-IsPlaced_more :
      (x : Held) (m : Memsource)
      → sources p ≡ some m
      → v.blob ≡ m.blob
      → v.itemsize ≡ m.itemsize
      → m.nextavail ≤ v.nextavail
      → IsPlaced sources x
      → IsPlaced (store sources p (some v)) x
  store-IsPlaced_more x m found b s more (k, at, i, inside, e) = elim (ℕ_discrete x.source p) [
    | no other ↦ store-IsPlaced x other (k, at, i, inside, e)
    | yes same ↦
        let mk : m ≡ k = some-inj (ground (arith, same, at, found)) in
        let inside' : i < m.nextavail = rw mk inside in
        let e' : x.mem ≡ m.blob + i * m.itemsize = rw mk e in
        (v, ground (arith, same), i, omega (arith, more), rw (b, s) e')
  ]

pub store-none :
    (sources : ℕ → Option Memsource) (p q : ℕ) (m : Memsource)
    → store sources p none q ≡ some m
    → (q ≢ p) × (sources q ≡ some m)
store-none sources p q m e =
    let other : q ≢ p = λ same. absurd (ground (arith, e, same)) in
    (other, ground (arith, e, other))

pub store-none-IsPlaced :
    (sources : ℕ → Option Memsource) (p : ℕ) (x : Held)
    → x.source ≢ p
    → IsPlaced sources x
    → IsPlaced (store sources p none) x
store-none-IsPlaced sources p x other (m, found, i, inside, at) =
    (m, ground (arith, other), i, inside, at)

-- The second of two writes counts.
pub store-store :
    (sources : ℕ → Option Memsource) (p : ℕ) (u v : Option Memsource)
    → store (store sources p u) p v ≡ store sources p v
store-store sources p u v = fun_ext (λ q. ground arith)
