-- ===== src/Flowtuple.antt =====
-- The flowtuple record of libcorsaro/libcorsaro_flowtuple.h, and libcorsaro/libcorsaro_flowtuple.c.
pub mod RoundTrip
pub mod Decode
mod Tests
use corsaro.Base.{
  ℕ, ◌+◌, ◌*◌, ◌/◌, ◌%◌, ◌^◌, Bool, true, false, not, Option, none, some, List, [], ◌∷◌, bit_and,
  bit_or, ltb, ◌==◌, if◌then◌else◌, ◌>>=◌,
}
use corsaro.Base.Or.{shifted}
use corsaro.Avro.{
  AvroWriter, bytes_of, FieldType, long, string, corsaro_start_avro_encoding,
  corsaro_encode_avro_field,
}

-- `struct corsaro_flowtuple_data`
pub record FlowtupleData : Type 0 where
  pub interval_ts : ℕ
  pub src_ip : ℕ
  pub dst_ip : ℕ
  pub src_port : ℕ
  pub dst_port : ℕ
  pub protocol : ℕ
  pub ttl : ℕ
  pub tcp_flags : ℕ
  pub ip_len : ℕ
  pub tcp_synlen : ℕ
  pub tcp_synwinlen : ℕ
  pub packet_cnt : ℕ
  pub hash_val : ℕ
  pub is_spoofed : ℕ
  pub is_masscan : ℕ
  pub maxmind_country : ℕ
  pub maxmind_continent : ℕ
  pub netacq_country : ℕ
  pub netacq_continent : ℕ
  pub prefixasn : ℕ
  pub tagproviders : ℕ

-- A call of corsaro_encode_avro_field: the type, the bytes behind the pointer, and the length.
pub record Field : Type 0 where
  pub fieldtype : FieldType
  pub fieldptr : ℕ → ℕ
  pub fieldlen : ℕ

-- A field of the record, of so many bytes.
abbrev pub number : ℕ → ℕ → Field
number fieldlen value = record { fieldtype = long; fieldptr = bytes_of value; fieldlen = fieldlen }

-- `valspace` with the two characters of a code.
abbrev pub code : ℕ → Field
code value = record {
  fieldtype = string;
  fieldptr = λ i. if i == 0 then value % 256 else if i == 1 then value / 256 % 256 else 0;
  fieldlen = 2;
}

-- `"??"`
abbrev pub no_code : Field
no_code = record { fieldtype = string; fieldptr = λ i. if ltb i 2 then 0x3f else 0; fieldlen = 2 }

-- What libavro gives for the fields of a record by their index: avro_value_get_long and
-- avro_value_get_int as the remainder modulo 2^64 and 2^32, and avro_value_get_string as the
-- characters and their number.
pub record AvroValue : Type 0 where
  pub get_long : ℕ → ℕ
  pub get_int : ℕ → ℕ
  pub get_string : ℕ → (ℕ → ℕ) × ℕ

-- `(uint16_t)(c)` of a `char` that is signed.
abbrev pub widen : ℕ → ℕ
widen c = if ltb c 128 then c else c + 0xff00

unfoldable pub join_code : (ℕ → ℕ) → ℕ
join_code str = (widen (str 0) + widen (str 1) * 256) % 2 ^ 16

-- Fails the assertion unless the string has two characters.
unfoldable pub get_code : AvroValue → ℕ → Option ℕ
get_code av i = if (av.get_string i).1 == 2 then some (join_code (av.get_string i).0) else none

-- One call after another, until one fails: whether none has. `allocated` says whether realloc gives
-- memory.
unfoldable pub encode_fields : Bool → List Field → AvroWriter → Option (Bool × AvroWriter)
encode_fields allocated [] writer = some (true, writer)
encode_fields allocated (f ∷ fs) writer =
    corsaro_encode_avro_field allocated allocated f.fieldtype f.fieldptr f.fieldlen writer
    >>= λ (ok, w). if ok then encode_fields allocated fs w else some (false, w)

-- The types of FLOWTUPLE_RESULT_SCHEMA; an `int` has the form of a `long`.
abbrev pub flowtuple_result_schema : List FieldType
flowtuple_result_schema =
    long ∷ long ∷ long ∷ long ∷ long ∷ long ∷ long ∷ long ∷ long ∷ long ∷ long ∷ long ∷ long ∷ long
    ∷ string ∷ string ∷ string ∷ string ∷ long ∷ []

-- libipmeta's numbers for its providers are parameters.
module _ (maxmind netacq pfx2as : ℕ) where
  abbrev pub uses_provider : FlowtupleData → ℕ → Bool
  uses_provider ft provider = not (bit_and ft.tagproviders (shifted provider) == 0)

  -- The fields in the order in which encode_flowtuple_as_avro encodes them, up to the assertion.
  unfoldable pub plain_fields : FlowtupleData → List Field
  plain_fields ft =
      number 4 ft.interval_ts
      ∷ number 4 ft.src_ip
      ∷ number 4 ft.dst_ip
      ∷ number 2 ft.src_port
      ∷ number 2 ft.dst_port
      ∷ number 1 ft.protocol
      ∷ number 1 ft.ttl
      ∷ number 1 ft.tcp_flags
      ∷ number 2 ft.ip_len
      ∷ number 2 ft.tcp_synlen
      ∷ number 2 ft.tcp_synwinlen
      ∷ number 4 ft.packet_cnt
      ∷ number 1 ft.is_spoofed
      ∷ number 1 ft.is_masscan
      ∷ []

  -- And after it.
  unfoldable pub tag_fields : FlowtupleData → List Field
  tag_fields ft =
      let by_maxmind = uses_provider ft maxmind in
      let by_netacq = uses_provider ft netacq in
      (if by_maxmind then code ft.maxmind_continent else no_code)
      ∷ (if by_maxmind then code ft.maxmind_country else no_code)
      ∷ (if by_netacq then code ft.netacq_continent else no_code)
      ∷ (if by_netacq then code ft.netacq_country else no_code)
      ∷ (if uses_provider ft pfx2as then number 4 ft.prefixasn else number 4 0)
      ∷ []

  -- `none` is a run that writes outside the buffer or fails the assertion.
  unfoldable pub encode_flowtuple_as_avro :
      Bool → Bool → FlowtupleData → AvroWriter → Option AvroWriter
  encode_flowtuple_as_avro allocated allocated' ft writer =
      let (started, w) : Bool × AvroWriter = corsaro_start_avro_encoding allocated writer in
      if started
      then (encode_fields allocated' (plain_fields ft) w >>= λ (ok, w').
          if not ok
          then some w'
          else if ft.tagproviders == 0
          then none
          else encode_fields allocated' (tag_fields ft) w' >>= λ (ok', w''). some w'')
      else some w

  unfoldable pub decode_flowtuple_from_avro : AvroValue → Option FlowtupleData
  decode_flowtuple_from_avro av = get_code av 14 >>= λ maxmind_continent.
      get_code av 15 >>= λ maxmind_country. get_code av 16 >>= λ netacq_continent.
      get_code av 17 >>= λ netacq_country. some (record {
        interval_ts = av.get_long 0 % 2 ^ 32;
        src_ip = av.get_long 1 % 2 ^ 32;
        dst_ip = av.get_long 2 % 2 ^ 32;
        src_port = av.get_int 3 % 2 ^ 16;
        dst_port = av.get_int 4 % 2 ^ 16;
        protocol = av.get_int 5 % 2 ^ 8;
        ttl = av.get_int 6 % 2 ^ 8;
        tcp_flags = av.get_int 7 % 2 ^ 8;
        ip_len = av.get_int 8 % 2 ^ 16;
        tcp_synlen = av.get_int 9 % 2 ^ 16;
        tcp_synwinlen = av.get_int 10 % 2 ^ 16;
        packet_cnt = av.get_long 11 % 2 ^ 32;
        hash_val = 0;
        is_spoofed = av.get_int 12 % 2 ^ 8;
        is_masscan = av.get_int 13 % 2 ^ 8;
        maxmind_country = maxmind_country;
        maxmind_continent = maxmind_continent;
        netacq_country = netacq_country;
        netacq_continent = netacq_continent;
        prefixasn = av.get_long 18 % 2 ^ 32;
        tagproviders = bit_or (bit_or (shifted maxmind) (shifted netacq)) (shifted pfx2as);
      })
