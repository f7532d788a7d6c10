-- ===== src/Flowtuple/Decode.antt =====
-- What decode_flowtuple_from_avro of libcorsaro/libcorsaro_flowtuple.c makes of what
-- encode_flowtuple_as_avro has written.
use corsaro.Base.{ℕ, suc, ◌%◌, ◌^◌, ◌≡◌, some, List, [], ◌∷◌, bit_or, if◌then◌else◌, length}
use corsaro.Base.Or.{shifted}
use corsaro.Avro.Values.{Value, whole, text, read_values}
use corsaro.Flowtuple.{FlowtupleData, AvroValue, uses_provider, flowtuple_result_schema}
use corsaro.Flowtuple.RoundTrip.{seen}

abbrev pub IsText : (ℕ → ℕ) → ℕ → List ℕ → Type 0
IsText p i [] = Unit
IsText p i (c ∷ cs) = (p i ≡ c) × IsText p (suc i) cs

-- What libavro gives for a field of a record.
abbrev pub IsValue : AvroValue → ℕ → Value → Type 0
IsValue av i (whole n) = (av.get_long i ≡ n) × (av.get_int i ≡ n % 2 ^ 32)
IsValue av i (text cs) = ((av.get_string i).1 ≡ length cs) × IsText (av.get_string i).0 0 cs

-- And for the fields from index i on.
abbrev pub Represents : AvroValue → ℕ → List Value → Type 0
Represents av i [] = Unit
Represents av i (v ∷ vs) = IsValue av i v × Represents av (suc i) vs

-- A reader of encoded records that follows the specification of avro.
abbrev pub IsReader : (List ℕ → AvroValue) → Type 0
IsReader libavro =
    (bytes : List ℕ) (values : List Value)
    → read_values flowtuple_result_schema bytes ≡ some (values, [])
    → Represents (libavro bytes) 0 values

module _ (maxmind netacq pfx2as : ℕ) where
  -- The record with the codes of the providers that were used, and the three providers.
  abbrev pub kept : FlowtupleData → FlowtupleData
  kept ft = record ft {
    hash_val = 0;
    maxmind_country = seen (uses_provider maxmind netacq pfx2as ft maxmind) ft.maxmind_country;
    maxmind_continent = seen (uses_provider maxmind netacq pfx2as ft maxmind) ft.maxmind_continent;
    netacq_country = seen (uses_provider maxmind netacq pfx2as ft netacq) ft.netacq_country;
    netacq_continent = seen (uses_provider maxmind netacq pfx2as ft netacq) ft.netacq_continent;
    prefixasn = if uses_provider maxmind netacq pfx2as ft pfx2as then ft.prefixasn else 0;
    tagproviders = bit_or (bit_or (shifted maxmind) (shifted netacq)) (shifted pfx2as);
  }
