-- ===== src/Tagging/FilterBits.antt =====
-- The filter bits of libcorsaro/libcorsaro_tagging.c.
use corsaro.Base.{
  ℕ, zero, suc, ◌+◌, ◌<◌, ◌≡◌, refl, arith, Option, none, some, ltb, leb, ◌==◌, ◌&&◌, if◌then◌else◌,
  ◌>>=◌, max, bit_or,
}
use corsaro.Base.Or.{bit, shifted, bit_zero, bit-bit_or, bit-shifted}
use corsaro.ByteSwap.{byteswap64}
use corsaro.Filtering.Packet.{IpHeader, Libtrace, FilterParams, Verdict, is_positive}
use corsaro.Filtering.Params.{set_filter_params}
use corsaro.Filtering.Ids.{FilterId, notip, unknown, IsEnumerator, index, filterid_max}
use corsaro.Filtering.ApplyAll.{ToRun, corsaro_apply_all_filters}
use corsaro.Filtering.Agreement.{alone, all_filters_agree}

-- The loop over the results, from entry `i` on.
unfoldable pub set_bits : ℕ → ℕ → (ℕ → ToRun) → ℕ → ℕ
set_bits zero i torun filterbits = filterbits
set_bits (suc left) i torun filterbits =
    set_bits left (suc i) torun
      (if (torun i).result == 1 then bit_or filterbits (shifted i) else filterbits)

-- `update_filter_tags`: what it makes of `filterbits`. `torun` is what the array on the stack holds
-- before.
unfoldable pub update_filter_tags :
    (lt : Libtrace) → (ℕ → ToRun) → Option IpHeader → ℕ → ℕ → Option ℕ
unfolding set_bits
update_filter_tags lt torun none iprem filterbits = some (shifted (index notip))
update_filter_tags lt torun (some ip) iprem filterbits =
    corsaro_apply_all_filters lt (some ip) iprem torun >>= λ t.
    some (byteswap64 (set_bits filterid_max 0 t filterbits))

set_bits-bit :
    (left i k : ℕ) (torun : ℕ → ToRun) (filterbits : ℕ)
    → bit k (set_bits left i torun filterbits)
      ≡ max
          (bit k filterbits)
          (if leb i k && ltb k (i + left) && ((torun k).result == 1) then 1 else 0)
unfolding set_bits
set_bits-bit zero i k torun filterbits = ground arith
set_bits-bit (suc left) i k torun filterbits = ground (
  arith,
  set_bits-bit left (suc i) k torun
      (if (torun i).result == 1 then bit_or filterbits (shifted i) else filterbits),
  bit-bit_or k filterbits (shifted i),
  bit-shifted k i,
)

index-below : (id : FilterId) → IsEnumerator id → index id < filterid_max
index-below (unknown i) h = absurd h
index-below _ h = omega arith

-- For a packet that can be taken apart, and filter bits that are clear before, update_filter_tags
-- stores the big-endian form of a number in which the bit of every filter is set exactly if the
-- filter on its own returns a positive number.
pub update_filter_tags-alone :
    (lt : Libtrace) (ip : IpHeader) (iprem : ℕ) {f : FilterParams}
    → set_filter_params lt (some ip) iprem ≡ some f
    → (torun : ℕ → ToRun)
    → (bits : ℕ) × (update_filter_tags lt torun (some ip) iprem 0 ≡ some (byteswap64 bits))
      × ((id : FilterId)
          → IsEnumerator id
          → (v : Verdict) × (alone f id ≡ some v)
            × (bit (index id) bits ≡ (if is_positive v then 1 else 0)))
unfolding update_filter_tags
update_filter_tags-alone lt ip iprem {f} params torun =
    let (t, all, agrees) = all_filters_agree lt ip iprem torun params in
    (
      set_bits filterid_max 0 t 0,
      rw all refl,
      λ id h.
          let (v, own, ran, _) = agrees id h in
          (
            v,
            own,
            ground (
              arith,
              set_bits-bit filterid_max 0 (index id) t 0,
              bit_zero (index id),
              index-below id h,
              ran,
            ),
          ),
    )
