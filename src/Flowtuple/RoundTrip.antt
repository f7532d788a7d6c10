-- ===== src/Flowtuple/RoundTrip.antt =====
-- Encoding and decoding the records of libcorsaro/libcorsaro_flowtuple.c.
use corsaro.Base.{
  ℕ, ◌+◌, ◌*◌, ◌/◌, ◌%◌, ◌^◌, ◌≤◌, ◌<◌, ◌≡◌, ◌≢◌, refl, sym, ap, subst, arith, Bool, true, false,
  some, List, [], ◌∷◌, ◌++◌, map, ◌==◌, if◌then◌else◌, length,
}
use corsaro.Avro.{
  AvroWriter, encodeused, bytes_of, FieldType, long, string, corsaro_start_avro_encoding,
}
use corsaro.Avro.Groups.{++_assoc, length-++}
use corsaro.Avro.Values.{
  Value, whole, text, read_values, IsWritten, number-IsWritten, load_byte, load_short, load_word,
  code-IsWritten,
}
use corsaro.Flowtuple.{
  FlowtupleData, Field, number, code, no_code, encode_fields, uses_provider, plain_fields,
  tag_fields, encode_flowtuple_as_avro, flowtuple_result_schema,
}

-- The widths of the fields, and a first character of each code that is ASCII.
pub record IsRecord (ft : FlowtupleData) : Type 0 where
  pub interval_ts : ft.interval_ts < 2 ^ 32
  pub src_ip : ft.src_ip < 2 ^ 32
  pub dst_ip : ft.dst_ip < 2 ^ 32
  pub src_port : ft.src_port < 2 ^ 16
  pub dst_port : ft.dst_port < 2 ^ 16
  pub protocol : ft.protocol < 256
  pub ttl : ft.ttl < 256
  pub tcp_flags : ft.tcp_flags < 256
  pub ip_len : ft.ip_len < 2 ^ 16
  pub tcp_synlen : ft.tcp_synlen < 2 ^ 16
  pub tcp_synwinlen : ft.tcp_synwinlen < 2 ^ 16
  pub packet_cnt : ft.packet_cnt < 2 ^ 32
  pub is_spoofed : ft.is_spoofed < 256
  pub is_masscan : ft.is_masscan < 256
  pub maxmind_country : (ft.maxmind_country < 2 ^ 16) × (ft.maxmind_country % 256 < 128)
  pub maxmind_continent : (ft.maxmind_continent < 2 ^ 16) × (ft.maxmind_continent % 256 < 128)
  pub netacq_country : (ft.netacq_country < 2 ^ 16) × (ft.netacq_country % 256 < 128)
  pub netacq_continent : (ft.netacq_continent < 2 ^ 16) × (ft.netacq_continent % 256 < 128)
  pub prefixasn : ft.prefixasn < 2 ^ 32
  pub tagproviders : ft.tagproviders ≢ 0

abbrev fields_of : List (Field × Value) → List Field
fields_of ps = map (λ p. p.0) ps

abbrev types_of : List (Field × Value) → List FieldType
types_of ps = map (λ p. p.0.fieldtype) ps

abbrev values_of : List (Field × Value) → List Value
values_of ps = map (λ p. p.1) ps

abbrev AllWritten : List (Field × Value) → Type 0
AllWritten [] = Unit
AllWritten ((f, v) ∷ ps) = IsWritten f.fieldtype f.fieldptr f.fieldlen v × AllWritten ps

++_nil : (xs : List ℕ) → xs ++ [] ≡ xs
++_nil [] = refl
++_nil (x ∷ xs) = ap (λ l. x ∷ l) (++_nil xs)

-- Fields that are encoded one after another are read one after another.
encode_fields-read_values :
    (ps : List (Field × Value)) (w : AvroWriter)
    → AllWritten ps
    → w.encodespace ≡ true
    → encodeused w + 8 * length ps ≤ w.encodesize
    → w.encodesize < 2 ^ 32
    → (bytes : List ℕ) × (length bytes ≤ 8 * length ps)
      × (encode_fields true (fields_of ps) w
          ≡ some (true, record w { encoded = w.encoded ++ bytes }))
      × ((ts : List FieldType) (rest : List ℕ) (vs : List Value)
          → read_values ts rest ≡ some (vs, [])
          → read_values (types_of ps ++ ts) (bytes ++ rest) ≡ some (values_of ps ++ vs, []))
unfolding encode_fields read_values
encode_fields-read_values [] w all space room bounded = (
  [],
  omega arith,
  ap (λ l. some (true, record w { encoded = l })) (sym (++_nil w.encoded)),
  λ ts rest vs e. e,
)
encode_fields-read_values ((f, v) ∷ ps) w ((bytes, few, read, run), all) space room bounded =
    let w1 = record w { encoded = w.encoded ++ bytes } in
    let (bytes', few', run', read') =
      encode_fields-read_values ps w1 all space
        (omega (arith, length-++ w.encoded bytes, few, room)) bounded in
    (
      bytes ++ bytes',
      omega (arith, length-++ bytes bytes', few, few'),
      rw (run w space (omega (arith, room)) bounded, run')
          (ap (λ l. some (true, record w { encoded = l })) (++_assoc w.encoded bytes bytes')),
      λ ts rest vs e.
          rw (++_assoc bytes bytes' rest, read (bytes' ++ rest), read' ts rest vs e) refl,
    )

-- The fields of a record with what is read for them.
abbrev plain_values : FlowtupleData → List (Field × Value)
plain_values ft =
    (number 4 ft.interval_ts, whole ft.interval_ts)
    ∷ (number 4 ft.src_ip, whole ft.src_ip)
    ∷ (number 4 ft.dst_ip, whole ft.dst_ip)
    ∷ (number 2 ft.src_port, whole ft.src_port)
    ∷ (number 2 ft.dst_port, whole ft.dst_port)
    ∷ (number 1 ft.protocol, whole ft.protocol)
    ∷ (number 1 ft.ttl, whole ft.ttl)
    ∷ (number 1 ft.tcp_flags, whole ft.tcp_flags)
    ∷ (number 2 ft.ip_len, whole ft.ip_len)
    ∷ (number 2 ft.tcp_synlen, whole ft.tcp_synlen)
    ∷ (number 2 ft.tcp_synwinlen, whole ft.tcp_synwinlen)
    ∷ (number 4 ft.packet_cnt, whole ft.packet_cnt)
    ∷ (number 1 ft.is_spoofed, whole ft.is_spoofed)
    ∷ (number 1 ft.is_masscan, whole ft.is_masscan)
    ∷ []

byte-IsWritten : (n : ℕ) → n < 256 → IsWritten long (bytes_of n) 1 (whole n)
byte-IsWritten n small =
    number-IsWritten (bytes_of n) 1 n (load_byte n small) (omega (arith, small))

short-IsWritten : (n : ℕ) → n < 2 ^ 16 → IsWritten long (bytes_of n) 2 (whole n)
short-IsWritten n small =
    number-IsWritten (bytes_of n) 2 n (load_short n small) (omega (arith, small))

word-IsWritten : (n : ℕ) → n < 2 ^ 32 → IsWritten long (bytes_of n) 4 (whole n)
word-IsWritten n small = number-IsWritten (bytes_of n) 4 n (load_word n small) small

plain-AllWritten : (ft : FlowtupleData) → IsRecord ft → AllWritten (plain_values ft)
plain-AllWritten ft r = (
  word-IsWritten ft.interval_ts r.interval_ts,
  (
    word-IsWritten ft.src_ip r.src_ip,
    (
      word-IsWritten ft.dst_ip r.dst_ip,
      (
        short-IsWritten ft.src_port r.src_port,
        (
          short-IsWritten ft.dst_port r.dst_port,
          (
            byte-IsWritten ft.protocol r.protocol,
            (
              byte-IsWritten ft.ttl r.ttl,
              (
                byte-IsWritten ft.tcp_flags r.tcp_flags,
                (
                  short-IsWritten ft.ip_len r.ip_len,
                  (
                    short-IsWritten ft.tcp_synlen r.tcp_synlen,
                    (
                      short-IsWritten ft.tcp_synwinlen r.tcp_synwinlen,
                      (
                        word-IsWritten ft.packet_cnt r.packet_cnt,
                        (
                          byte-IsWritten ft.is_spoofed r.is_spoofed,
                          (byte-IsWritten ft.is_masscan r.is_masscan, tt),
                        ),
                      ),
                    ),
                  ),
                ),
              ),
            ),
          ),
        ),
      ),
    ),
  ),
)

-- The code that is written for a provider that was not used is "??".
abbrev pub seen : Bool → ℕ → ℕ
seen used c = if used then c else 0x3f3f

-- A code as it is encoded: the characters of what is seen.
abbrev coded_as : Bool → ℕ → Field
coded_as used c = record {
  fieldtype = string;
  fieldptr = (if used then code c else no_code).fieldptr;
  fieldlen = 2;
}

abbrev coded : Bool → ℕ → Field × Value
coded used c = (coded_as used c, text (seen used c % 256 ∷ seen used c / 256 % 256 ∷ []))

coded_field : (used : Bool) (c : ℕ) → (if used then code c else no_code) ≡ coded_as used c
coded_field true c = refl
coded_field false c = refl

asn_field :
    (used : Bool) (n : ℕ)
    → (if used then number 4 n else number 4 0) ≡ number 4 (if used then n else 0)
asn_field true n = refl
asn_field false n = refl

coded-IsWritten :
    (used : Bool) (c : ℕ) → IsWritten string (coded_as used c).fieldptr 2 (coded used c).1
coded-IsWritten true c = code-IsWritten (code c).fieldptr
coded-IsWritten false c = code-IsWritten no_code.fieldptr

start-again :
    (w : AvroWriter)
    → w.encodespace ≡ true
    → corsaro_start_avro_encoding true w ≡ (true, record w { encoded = [] })
unfolding corsaro_start_avro_encoding
start-again w space =
    ap
      (λ b.
        if b
        then (true, record w { encoded = [] })
        else (true, record { encodespace = true; encoded = []; encodesize = 8096 }))
      space

module _ (maxmind netacq pfx2as : ℕ) (ft : FlowtupleData) where
  abbrev by_maxmind : Bool
  by_maxmind = uses_provider maxmind netacq pfx2as ft maxmind

  abbrev by_netacq : Bool
  by_netacq = uses_provider maxmind netacq pfx2as ft netacq

  abbrev by_pfx2as : Bool
  by_pfx2as = uses_provider maxmind netacq pfx2as ft pfx2as

  abbrev asn : ℕ
  asn = if by_pfx2as then ft.prefixasn else 0

  abbrev tag_values : List (Field × Value)
  tag_values =
      coded by_maxmind ft.maxmind_continent
      ∷ coded by_maxmind ft.maxmind_country
      ∷ coded by_netacq ft.netacq_continent
      ∷ coded by_netacq ft.netacq_country
      ∷ (number 4 asn, whole asn)
      ∷ []

  -- What is read of a record that was written.
  abbrev pub written_values : List Value
  written_values = values_of (plain_values ft) ++ values_of tag_values

  tag-AllWritten : IsRecord ft → AllWritten tag_values
  tag-AllWritten r = (
    coded-IsWritten by_maxmind ft.maxmind_continent,
    (
      coded-IsWritten by_maxmind ft.maxmind_country,
      (
        coded-IsWritten by_netacq ft.netacq_continent,
        (
          coded-IsWritten by_netacq ft.netacq_country,
          (word-IsWritten asn (ground (arith, r.prefixasn)), tt),
        ),
      ),
    ),
  )

  tag_fields-values_of : tag_fields maxmind netacq pfx2as ft ≡ fields_of tag_values
  unfolding tag_fields
  tag_fields-values_of =
      rw
        (
          coded_field by_maxmind ft.maxmind_continent,
          coded_field by_maxmind ft.maxmind_country,
          coded_field by_netacq ft.netacq_continent,
          coded_field by_netacq ft.netacq_country,
          asn_field by_pfx2as ft.prefixasn,
        )
        refl

  plain_fields-values_of : plain_fields maxmind netacq pfx2as ft ≡ fields_of (plain_values ft)
  unfolding plain_fields
  plain_fields-values_of = refl

  -- What encode_flowtuple_as_avro writes, and what the specification reads in it.
  pub encode_flowtuple-read_values :
      (w : AvroWriter)
      → IsRecord ft
      → w.encodespace ≡ true
      → 8096 ≤ w.encodesize
      → w.encodesize < 2 ^ 32
      → (w' : AvroWriter) × (encode_flowtuple_as_avro maxmind netacq pfx2as true true ft w
          ≡ some w')
        × (read_values flowtuple_result_schema w'.encoded ≡ some (written_values, []))
  unfolding encode_flowtuple_as_avro read_values
  encode_flowtuple-read_values w r space room bounded =
      let w0 = record w { encoded = [] } in
      let (bytes, few, run, read) =
        encode_fields-read_values (plain_values ft) w0 (plain-AllWritten ft r) space
          (omega (arith, room)) bounded in
      let w1 = record w { encoded = bytes } in
      let (bytes', few', run', read') =
        encode_fields-read_values tag_values w1 (tag-AllWritten r) space (omega (arith, room, few))
          bounded in
      let tagged : (ft.tagproviders == 0) ≡ false = ground (arith, r.tagproviders) in
      let read_tags : read_values (types_of tag_values) bytes' ≡ some (values_of tag_values, []) =
        subst (λ l. read_values (types_of tag_values) l ≡ some (values_of tag_values, []))
          (++_nil bytes') (read' [] [] [] refl) in
      (
        record w { encoded = bytes ++ bytes' },
        rw
            (
              encode_flowtuple_as_avro,
              start-again w space,
              plain_fields-values_of,
              run,
              tagged,
              tag_fields-values_of,
              run',
            )
            refl,
        read (types_of tag_values) bytes' (values_of tag_values) read_tags,
      )
