-- ===== src/Tagging/Tags/Providers.antt =====
-- Which providers the tags of libcorsaro/libcorsaro_tagging.c say were used.
use corsaro.Base.{
  ℕ, ◌≡◌, ◌≢◌, ◌⊎◌, arith, Bool, false, not, List, [], ◌∷◌, ◌==◌, ◌&&◌, ◌||◌, if◌then◌else◌, max,
  length,
}
use corsaro.Base.Or.{bit, shifted, bit-bit_or, bit-shifted}
use corsaro.Tagging.Tags.{IpmetaRecord, Ipmeta, PacketTags, tag_record, tag_records}

-- The three providers have different numbers.
pub record IsDistinct (im : Ipmeta) : Type 0 where
  pub maxmind_netacq : im.maxmind ≢ im.netacq_edge
  pub maxmind_pfx2as : im.maxmind ≢ im.pfx2as
  pub netacq_pfx2as : im.netacq_edge ≢ im.pfx2as

abbrev pub IsProvider : Ipmeta → ℕ → Type 0
IsProvider im k = (k ≡ im.maxmind) ⊎ (k ≡ im.netacq_edge) ⊎ (k ≡ im.pfx2as)

-- Whether a provider's record can be used: an address that belongs to a group of systems counts as
-- one without.
abbrev pub usable : Ipmeta → ℕ → IpmetaRecord → Bool
usable im k rec = (rec.source == k) && (not (k == im.pfx2as) || (length rec.asn == 1))

abbrev pub any_usable : Ipmeta → ℕ → List IpmetaRecord → Bool
any_usable im k [] = false
any_usable im k (rec ∷ recs) = usable im k rec || any_usable im k recs

module _ (im : Ipmeta) (distinct : IsDistinct im) (k : ℕ) (provider : IsProvider im k) where
  tag_record-bit :
      (rec : IpmetaRecord) (tags : PacketTags)
      → bit k (tag_record im rec tags).providers_used
        ≡ max (bit k tags.providers_used) (if usable im k rec then 1 else 0)
  unfolding tag_record
  tag_record-bit rec tags = ground (
    arith,
    distinct.maxmind_netacq,
    distinct.maxmind_pfx2as,
    distinct.netacq_pfx2as,
    bit-bit_or k tags.providers_used (shifted im.maxmind),
    bit-bit_or k tags.providers_used (shifted im.netacq_edge),
    bit-bit_or k tags.providers_used (shifted im.pfx2as),
    bit-shifted k im.maxmind,
    bit-shifted k im.netacq_edge,
    bit-shifted k im.pfx2as,
  )

  tag_records-bit :
      (recs : List IpmetaRecord) (tags : PacketTags)
      → bit k (tag_records im recs tags).providers_used
        ≡ max (bit k tags.providers_used) (if any_usable im k recs then 1 else 0)
  unfolding tag_records
  tag_records-bit [] tags = omega arith
  tag_records-bit (rec ∷ recs) tags =
      ground (arith, tag_records-bit recs (tag_record im rec tags), tag_record-bit rec tags)

-- If the three providers have different numbers, then after the records of a lookup the bit of a
-- provider is set in providers_used exactly if it was set before or one of the records is the
-- provider's and can be used.
pub tag_records_used :
    (im : Ipmeta)
    → IsDistinct im
    → (k : ℕ) → IsProvider im k
    → (recs : List IpmetaRecord) (tags : PacketTags)
    → bit k (tag_records im recs tags).providers_used
      ≡ max (bit k tags.providers_used) (if any_usable im k recs then 1 else 0)
tag_records_used im distinct k provider recs tags = tag_records-bit im distinct k provider recs tags
