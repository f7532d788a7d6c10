-- ===== src/Flowtuple/Tests.antt =====
-- A record of libcorsaro/libcorsaro_flowtuple.c, a reader of avro, and the theorems at them.
use corsaro.Base.{
  ℕ, zero, suc, ◌%◌, ◌^◌, ◌≡◌, refl, arith, true, none, some, List, [], ◌∷◌, ◌++◌, length, ◌-◌,
  ◌==◌, if◌then◌else◌,
}
use corsaro.Avro.{AvroWriter, string, load, zigzag, encode_long, corsaro_encode_avro_field}
use corsaro.Avro.Groups.{read_long, encode_long-read_long}
use corsaro.Avro.Bounds.{Fits, field-Fits, long_overflows}
use corsaro.Avro.Values.{Value, whole, text, read_values}
use corsaro.Flowtuple.{FlowtupleData, AvroValue, flowtuple_result_schema}

-- The reader that follows the specification.
abbrev char_at : ℕ → List ℕ → ℕ
char_at i [] = 0
char_at zero (c ∷ cs) = c
char_at (suc i) (c ∷ cs) = char_at i cs

abbrev value_at : ℕ → List Value → Value
value_at i [] = whole 0
value_at zero (v ∷ vs) = v
value_at (suc i) (v ∷ vs) = value_at i vs

abbrev as_number : Value → ℕ
as_number (whole n) = n
as_number (text cs) = 0

abbrev as_string : Value → (ℕ → ℕ) × ℕ
as_string (whole n) = ((λ i. 0), 0)
as_string (text cs) = ((λ i. char_at i cs), length cs)

abbrev record_of : (ℕ → Value) → AvroValue
record_of f = record {
  get_long = λ i. as_number (f i);
  get_int = λ i. as_number (f i) % 2 ^ 32;
  get_string = λ i. as_string (f i);
}

abbrev read_record : List ℕ → AvroValue
read_record bytes = elim (read_values flowtuple_result_schema bytes) [
  | none ↦ record_of (λ i. whole 0)
  | some r ↦ record_of (λ i. value_at i r.0)
]

abbrev flow : FlowtupleData
flow = record {
  interval_ts = 1600000000;
  src_ip = 4000000000;
  dst_ip = 7;
  src_port = 40000;
  dst_port = 80;
  protocol = 6;
  ttl = 64;
  tcp_flags = 2;
  ip_len = 40;
  tcp_synlen = 40;
  tcp_synwinlen = 1024;
  packet_cnt = 3;
  hash_val = 9;
  is_spoofed = 0;
  is_masscan = 1;
  maxmind_country = 0x5355;
  maxmind_continent = 0x414e;
  netacq_country = 0;
  netacq_continent = 0;
  prefixasn = 65000;
  tagproviders = 2;
}

abbrev empty_writer : ℕ → List ℕ → AvroWriter
empty_writer size bytes = record { encodespace = true; encoded = bytes; encodesize = size }

-- -2 in eight bytes.
abbrev minus_two : ℕ → ℕ
minus_two i = if i == 0 then 0xfe else 0xff

encode_long-read_long_example :
    (bytes : List ℕ) × (encode_long true minus_two 8 (empty_writer 8096 [])
      ≡ some (true, empty_writer 8096 ([] ++ bytes)))
    × (read_long (bytes ++ 5 ∷ []) ≡ some (2 ^ 64 - 2, 5 ∷ []))
unfolding load
encode_long-read_long_example =
    encode_long-read_long minus_two 8 (2 ^ 64 - 2) (empty_writer 8096 []) (5 ∷ []) refl
      (omega arith) refl (omega arith) (omega arith)

field-Fits_example :
    Fits 16192
      (empty_writer 10 (1 ∷ 2 ∷ []))
      (corsaro_encode_avro_field true true string minus_two 300 (empty_writer 10 (1 ∷ 2 ∷ [])))
field-Fits_example =
    field-Fits string minus_two 300 (empty_writer 10 (1 ∷ 2 ∷ [])) (λ i. ground arith)
      (λ e. omega arith) (λ e. omega arith) refl (omega arith) (omega arith)

-- 2^62 in eight bytes.
abbrev large : ℕ → ℕ
large i = if i == 7 then 0x40 else 0

long_overflows_example : encode_long true large 8 (empty_writer 8 []) ≡ none
unfolding load zigzag
long_overflows_example =
    long_overflows true large 8 (2 ^ 62) (empty_writer 8 []) refl (omega arith) (omega arith)
      (omega arith)
