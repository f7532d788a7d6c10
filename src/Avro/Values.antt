-- ===== src/Avro/Values.antt =====
-- How the specification of avro reads a record, and the fields that libcorsaro/libcorsaro_avro.c
-- writes.
use corsaro.Base.{
  ◌-◌, ℕ, zero, suc, ◌+◌, ◌%◌, ◌^◌, ◌≤◌, ◌<◌, ◌≡◌, refl, ap, ◌∙◌, arith, true, false, Option, none,
  some, List, [], ◌∷◌, ◌++◌, ltb, ◌>>=◌, length,
}
use corsaro.Avro.{
  AvroWriter, encodeused, reserve, load, zigzag, copy, bytes_of, encode_string, FieldType, long,
  string, unexpected, corsaro_encode_avro_field,
}
use corsaro.Avro.Groups.{
  ++_assoc, length-++, groups, groups_short, read_groups, read_groups-groups, unzigzag,
  unzigzag-zigzag, read_long, put-room, encode_long-groups,
}

-- A number as its remainder modulo 2^64, or the characters of a string.
pub data Value : Type 0 where
  whole : ℕ → Value
  text : List ℕ → Value

-- So many bytes, and the rest.
unfoldable pub read_bytes : ℕ → List ℕ → Option (List ℕ × List ℕ)
read_bytes zero bytes = some ([], bytes)
read_bytes (suc n) [] = none
read_bytes (suc n) (b ∷ bs) = read_bytes n bs >>= λ (cs, rest). some (b ∷ cs, rest)

-- A string is its length and its characters.
unfoldable pub read_value : FieldType → List ℕ → Option (Value × List ℕ)
read_value long bytes = read_long bytes >>= λ (n, rest). some (whole n, rest)
read_value string bytes =
    read_long bytes >>= λ (n, rest). read_bytes n rest >>= λ (cs, rest'). some (text cs, rest')
read_value unexpected bytes = none

-- The fields of a record follow each other.
unfoldable pub read_values : List FieldType → List ℕ → Option (List Value × List ℕ)
read_values [] bytes = some ([], bytes)
read_values (t ∷ ts) bytes =
    read_value t bytes >>= λ (v, rest). read_values ts rest >>= λ (vs, rest'). some (v ∷ vs, rest')

-- A call of corsaro_encode_avro_field writes at most eight bytes, which are read as the value.
abbrev pub IsWritten : FieldType → (ℕ → ℕ) → ℕ → Value → Type 0
IsWritten type p len value =
    (bytes : List ℕ) × (length bytes ≤ 8)
    × ((rest : List ℕ) → read_value type (bytes ++ rest) ≡ some (value, rest))
    × ((w : AvroWriter)
        → w.encodespace ≡ true
        → encodeused w + 8 ≤ w.encodesize
        → w.encodesize < 2 ^ 32
        → corsaro_encode_avro_field true true type p len w
          ≡ some (true, record w { encoded = w.encoded ++ bytes }))

zigzag_low : (l : ℕ) → l < 2 ^ 32 → zigzag l < 128 ^ 5
unfolding zigzag
zigzag_low l small = ground arith

pub number-IsWritten :
    (p : ℕ → ℕ) (len l : ℕ) → load p len ≡ some l → l < 2 ^ 32 → IsWritten long p len (whole l)
unfolding corsaro_encode_avro_field read_value read_long
number-IsWritten p len l loaded small =
    let z = zigzag_low l small in
    let back : unzigzag (zigzag l) ≡ l = unzigzag-zigzag l (omega (arith, small)) in
    let few = groups_short 10 5 (zigzag l) z (omega arith) in
    (
      groups 10 (zigzag l),
      omega (arith, few),
      λ rest. rw (read_groups-groups 10 5 (zigzag l) rest z (omega arith) (omega arith), back) refl,
      λ w space room bounded.
          encode_long-groups 5 l p len w loaded z (omega arith) (omega arith) space
            (omega (arith, room)) room bounded,
    )

pub load_byte : (n : ℕ) → n < 256 → load (bytes_of n) 1 ≡ some n
unfolding load
load_byte n small = ap some (omega (arith, small))

pub load_short : (n : ℕ) → n < 2 ^ 16 → load (bytes_of n) 2 ≡ some n
unfolding load
load_short n small = ap some (omega (arith, small))

pub load_word : (n : ℕ) → n < 2 ^ 32 → load (bytes_of n) 4 ≡ some n
unfolding load
load_word n small = ap some (omega (arith, small))

pub code-IsWritten : (p : ℕ → ℕ) → IsWritten string p 2 (text (p 0 ∷ p 1 ∷ []))
unfolding corsaro_encode_avro_field encode_string read_value read_long read_bytes read_groups
    unzigzag groups zigzag copy reserve
code-IsWritten p =
    let z : zigzag 2 < 128 ^ 5 = zigzag_low 2 (omega arith) in
    (
      4 ∷ p 0 ∷ p 1 ∷ [],
      omega arith,
      λ rest. refl,
      λ w space room bounded.
          let first =
            encode_long-groups 5 2 (bytes_of 2) 4 w (load_word 2 (omega arith)) z (omega arith)
              (omega arith) space (omega (arith, room)) room bounded in
          let w1 = record w { encoded = w.encoded ++ 4 ∷ [] } in
          let one = length-++ w.encoded (4 ∷ []) in
          let enough : ltb ((w1.encodesize + (2 ^ 32 - encodeused w1)) % 2 ^ 32) 2 ≡ false =
            ground (arith, room, bounded, one) in
          let put1 = put-room (p 0) w1 space (omega (arith, room, one)) in
          let w2 = record w { encoded = w1.encoded ++ p 0 ∷ [] } in
          let put2 =
            put-room (p 1) w2 space (omega (arith, room, one, length-++ w1.encoded (p 0 ∷ []))) in
          let joined : (w1.encoded ++ p 0 ∷ []) ++ p 1 ∷ [] ≡ w.encoded ++ (4 ∷ p 0 ∷ p 1 ∷ []) =
            ap (λ l. l ++ p 1 ∷ []) (++_assoc w.encoded (4 ∷ []) (p 0 ∷ []))
            ∙ ++_assoc w.encoded (4 ∷ p 0 ∷ []) (p 1 ∷ []) in
          rw (encode_string, first, enough, put1, put2)
            (ap (λ l. some (true, record w { encoded = l })) joined),
    )
