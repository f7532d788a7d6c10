-- ===== src/Avro.antt =====
-- The encoding of avro fields in libcorsaro/libcorsaro_avro.c.
pub mod Groups
pub mod Bounds
pub mod Values
use corsaro.Base.{
  ℕ, zero, suc, ◌+◌, ◌-◌, ◌*◌, ◌/◌, ◌%◌, ◌^◌, Bool, true, false, Option, none, some, List, [], ◌∷◌,
  ◌++◌, ltb, leb, ◌==◌, if◌then◌else◌, ◌>>=◌, length,
}

-- The part of `corsaro_avro_writer_t` that the encoding uses: whether `encodespace` is allocated, the
-- bytes that have been written to it, of which `encodeused` is the number, and `encodesize`. Bytes
-- past `encodeused` are never read.
pub record AvroWriter : Type 0 where
  pub encodespace : Bool
  pub encoded : List ℕ
  pub encodesize : ℕ

abbrev pub encodeused : AvroWriter → ℕ
encodeused writer = length writer.encoded

-- A result `none` is a run that writes outside the buffer.

-- Whether `malloc` gives memory. Returns whether there is a buffer.
unfoldable pub corsaro_start_avro_encoding : Bool → AvroWriter → Bool × AvroWriter
corsaro_start_avro_encoding allocated writer =
    if writer.encodespace
    then (true, record writer { encoded = [] })
    else (allocated, record { encodespace = allocated; encoded = []; encodesize = 8096 })

-- Whether `realloc` gives memory.
unfoldable pub grow_encode_buffer : Bool → AvroWriter → AvroWriter
grow_encode_buffer allocated writer = record writer {
  encodespace = allocated;
  encodesize = (writer.encodesize + 8096) % 2 ^ 32;
}

-- `if (writer->encodesize - writer->encodeused < n)`, by subtraction of `uint32_t`.
unfoldable pub reserve : Bool → ℕ → AvroWriter → AvroWriter
reserve allocated n writer =
    if ltb ((writer.encodesize + (2 ^ 32 - encodeused writer)) % 2 ^ 32) n
    then grow_encode_buffer allocated writer
    else writer

-- `writer->encodespace[writer->encodeused] = byte; writer->encodeused ++;`
unfoldable pub put : ℕ → AvroWriter → Option AvroWriter
put byte writer =
    if writer.encodespace
    then if ltb (encodeused writer) writer.encodesize
      then some (record writer { encoded = writer.encoded ++ byte ∷ [] })
      else none
    else none

-- Four bytes.
abbrev pub low32 : (ℕ → ℕ) → ℕ
low32 p = p 0 + 256 * p 1 + 65536 * p 2 + 16777216 * p 3

-- `l = *(uint8_t *)(fieldptr)` and the three others, on a little-endian host; `none` for any other
-- length. A signed number of 64 bits is its remainder modulo 2^64.
unfoldable pub load : (ℕ → ℕ) → ℕ → Option ℕ
load fieldptr fieldlen =
    if fieldlen == 1
    then some (fieldptr 0)
    else if fieldlen == 2
    then some (fieldptr 0 + 256 * fieldptr 1)
    else if fieldlen == 4
    then some (low32 fieldptr)
    else if fieldlen == 8
    then some (low32 fieldptr + 2 ^ 32 * low32 (λ i. fieldptr (i + 4)))
    else none

-- `(l << 1) ^ (l >> 63)`: the second operand is all zeros or all ones, and the latter flips every
-- bit.
unfoldable pub zigzag : ℕ → ℕ
zigzag l = if ltb l (2 ^ 63) then 2 * l else 2 ^ 64 - 1 - 2 * l % 2 ^ 64

-- The loop over the groups of seven bits: `n & ~0x7F` is not 0 exactly if n is at least 128, and
-- what is written then has the lowest seven bits of n and the eighth set. 64 bits have at most ten
-- groups.
unfoldable pub put_groups : ℕ → ℕ → AvroWriter → Option AvroWriter
put_groups zero n writer = none
put_groups (suc fuel) n writer =
    if leb 128 n then put (n % 128 + 128) writer >>= put_groups fuel (n / 128) else put n writer

unfoldable pub encode_long : Bool → (ℕ → ℕ) → ℕ → AvroWriter → Option (Bool × AvroWriter)
encode_long allocated fieldptr fieldlen writer = elim (load fieldptr fieldlen) [
  | none ↦ some (false, writer)
  | some l ↦ put_groups 10 (zigzag l) (reserve allocated 8 writer) >>= λ w. some (true, w)
]

-- `memcpy(writer->encodespace + writer->encodeused, fieldptr, fieldlen)`, from position i on.
unfoldable pub copy : ℕ → ℕ → (ℕ → ℕ) → AvroWriter → Option AvroWriter
copy zero i fieldptr writer = some writer
copy (suc n) i fieldptr writer = put (fieldptr i) writer >>= copy n (suc i) fieldptr

-- The bytes of a number in memory.
abbrev pub bytes_of : ℕ → ℕ → ℕ
bytes_of n i = n / 256 ^ i % 256

unfoldable pub encode_string : Bool → Bool → (ℕ → ℕ) → ℕ → AvroWriter → Option (Bool × AvroWriter)
encode_string allocated allocated' fieldptr fieldlen writer =
    encode_long allocated (bytes_of fieldlen) 4 writer >>= λ (ok, w).
    if ok
    then (copy fieldlen 0 fieldptr (reserve allocated' fieldlen w) >>= λ w'. some (true, w'))
    else some (false, w)

-- CORSARO_AVRO_LONG and CORSARO_AVRO_STRING
pub data FieldType : Type 0 where
  long : FieldType
  string : FieldType
  unexpected : FieldType

-- Whether the result is 0, and not -1. The two flags are for the at most two calls of realloc.
unfoldable pub corsaro_encode_avro_field :
    Bool → Bool → FieldType → (ℕ → ℕ) → ℕ → AvroWriter → Option (Bool × AvroWriter)
corsaro_encode_avro_field a a' long fieldptr fieldlen writer =
    encode_long a fieldptr fieldlen writer
corsaro_encode_avro_field a a' string fieldptr fieldlen writer =
    encode_string a a' fieldptr fieldlen writer
corsaro_encode_avro_field a a' unexpected fieldptr fieldlen writer = some (false, writer)

-- The elements from position i on.
unfoldable pub encode_elements :
    Bool → ℕ → ℕ → (ℕ → ℕ) → ℕ → AvroWriter → Option (Bool × AvroWriter)
encode_elements allocated zero i arrayptr fieldlen writer = some (true, writer)
encode_elements allocated (suc n) i arrayptr fieldlen writer =
    encode_long allocated (λ j. arrayptr (i * fieldlen + j)) fieldlen writer >>= λ (ok, w).
    if ok then encode_elements allocated n (suc i) arrayptr fieldlen w else some (false, w)

-- The number of elements, if it is not 0.
unfoldable pub encode_count : Bool → ℕ → AvroWriter → Option (Bool × AvroWriter)
encode_count allocated fieldcount writer =
    if fieldcount == 0
    then some (true, writer)
    else encode_long allocated (bytes_of fieldcount) 4 writer

-- `allocated` says whether all calls of realloc give memory.
unfoldable pub corsaro_encode_avro_integer_array :
    Bool → (ℕ → ℕ) → ℕ → ℕ → AvroWriter → Option (Bool × AvroWriter)
corsaro_encode_avro_integer_array allocated arrayptr fieldlen fieldcount writer =
    encode_count allocated fieldcount writer >>= λ (counted, w).
    if counted
    then (encode_elements allocated fieldcount 0 arrayptr fieldlen w >>= λ (ok, w').
        if ok then encode_long allocated (bytes_of 0) 1 w' else some (false, w'))
    else some (false, w)
