-- ===== src/Avro/Bounds.antt =====
-- Where the encoding of libcorsaro/libcorsaro_avro.c stays inside its buffer.
use corsaro.Base.{
  ℕ, zero, suc, ◌+◌, ◌-◌, ◌/◌, ◌%◌, ◌^◌, ◌≤◌, ◌<◌, ◌≡◌, ◌≢◌, refl, ap, arith, Bool, true, false,
  Option, none, some, [], ◌∷◌, ◌++◌, ltb, leb, length, inl, inr, Option-cases,
}
use corsaro.Avro.{
  AvroWriter, encodeused, reserve, put, load, zigzag, put_groups, encode_long, copy, bytes_of,
  encode_string, FieldType, long, string, unexpected, corsaro_encode_avro_field,
}
use corsaro.Avro.Groups.{
  length-++, groups, groups_short, put-room, put_groups-groups, IsReady, reserve-room,
}

-- A byte is less than 256.
abbrev pub IsMemory : (ℕ → ℕ) → Type 0
IsMemory p = (i : ℕ) → p i < 256

load_small : (p : ℕ → ℕ) (len l : ℕ) → IsMemory p → len ≢ 8 → load p len ≡ some l → l < 2 ^ 32
unfolding load
load_small p len l bytes other e = ground (arith, bytes 0, bytes 1, bytes 2, bytes 3)

zigzag_short : (l : ℕ) → l < 2 ^ 32 → zigzag l < 128 ^ 5
unfolding zigzag
zigzag_short l h = ground arith

-- A run that ends inside the buffer, which has not grown by more than `more`.
abbrev pub Fits : ℕ → AvroWriter → Option (Bool × AvroWriter) → Type 0
Fits more w result =
    (ok : Bool) × (w' : AvroWriter) × (result ≡ some (ok, w'))
    × (w'.encodespace ≡ true)
    × (encodeused w' ≤ w'.encodesize)
    × (w'.encodesize ≤ w.encodesize + more)

long-Fits :
    (p : ℕ → ℕ) (len : ℕ) (w : AvroWriter)
    → IsReady w
    → IsMemory p
    → len ≢ 8
    → Fits 8096 w (encode_long true p len w)
unfolding encode_long
long-Fits p len w (space, inside, small) bytes other = elim (Option-cases (load p len)) [
  | inl unread ↦ (false, w, rw (encode_long, unread) refl, space, inside, omega arith)
  | inr (l, loaded) ↦
      let l32 = load_small p len l bytes other loaded in
      let z : zigzag l < 128 ^ 5 = zigzag_short l l32 in
      let (w', e, space', same, room, grown) =
        reserve-room 8 w (space, inside, small) (omega arith) in
      let run =
        put_groups-groups 10 5 (zigzag l) w' z (omega arith) (omega arith) space'
          (ground (arith, room, same)) in
      let few = groups_short 10 5 (zigzag l) z (omega arith) in
      (
        true,
        record w' { encoded = w'.encoded ++ groups 10 (zigzag l) },
        rw (encode_long, loaded, e, run) refl,
        space',
        omega (arith, length-++ w'.encoded (groups 10 (zigzag l)), few, ap length same, room),
        grown,
      )
]

copy-fits :
    (n i : ℕ) (p : ℕ → ℕ) (w : AvroWriter)
    → w.encodespace ≡ true
    → encodeused w + n ≤ w.encodesize
    → (w' : AvroWriter) × (copy n i p w ≡ some w')
      × (w'.encodespace ≡ true)
      × (encodeused w' ≤ w'.encodesize)
      × (w'.encodesize ≡ w.encodesize)
unfolding copy
copy-fits zero i p w space room = (w, refl, space, omega arith, refl)
copy-fits (suc n) i p w space room =
    let w1 = record w { encoded = w.encoded ++ p i ∷ [] } in
    let first = put-room (p i) w space (omega arith) in
    let (w', run, space', room', same) =
      copy-fits n (suc i) p w1 space (omega (arith, length-++ w.encoded (p i ∷ []))) in
    (w', rw first run, space', room', same)

-- Where memory is given and the size of the buffer can grow twice below 2^32, encoding a field ends
-- inside the buffer, if a number does not have eight bytes and a string has at most 8096.
pub field-Fits :
    (type : FieldType) (p : ℕ → ℕ) (len : ℕ) (w : AvroWriter)
    → IsMemory p
    → (type ≡ long → len ≢ 8)
    → (type ≡ string → len ≤ 8096)
    → w.encodespace ≡ true
    → encodeused w ≤ w.encodesize
    → w.encodesize + 16192 < 2 ^ 32
    → Fits 16192 w (corsaro_encode_avro_field true true type p len w)
unfolding corsaro_encode_avro_field encode_string
field-Fits long p len w bytes other few space inside small =
    let (ok, w', e, s, i, g) = long-Fits p len w (space, inside, omega arith) bytes (other refl) in
    (ok, w', e, s, i, omega (arith, g))
field-Fits unexpected p len w bytes other few space inside small =
    (false, w, refl, space, inside, omega arith)
field-Fits string p len w bytes other few space inside small =
    let (ok, w1, e, s, i, g) =
      long-Fits (bytes_of len) 4 w (space, inside, omega arith) (λ j. omega arith) (omega arith) in
    after ok w1 e s i g
  where
    after :
        (ok : Bool) (w1 : AvroWriter)
        → encode_long true (bytes_of len) 4 w ≡ some (ok, w1)
        → w1.encodespace ≡ true
        → encodeused w1 ≤ w1.encodesize
        → w1.encodesize ≤ w.encodesize + 8096
        → Fits 16192 w (encode_string true true p len w)
    after false w1 e s i g = (false, w1, rw e refl, s, i, omega (arith, g))
    after true w1 e s i g =
        let (w2, r, s2, same, room, grown) =
          reserve-room len w1 (s, i, omega (arith, g, small)) (few refl) in
        let (w3, run, s3, i3, same3) =
          copy-fits len 0 p w2 s2 (omega (arith, ap length same, room)) in
        (true, w3, rw (e, r, run) refl, s3, i3, omega (arith, same3, grown, g))

power_down : (n k : ℕ) → 128 ^ suc k ≤ n → 128 ^ k ≤ n / 128
power_down n k h = omega (arith, h)

power-positive : (k : ℕ) → 1 ≤ 128 ^ k
power-positive zero = omega arith
power-positive (suc k) = omega (arith, power-positive k)

put_groups-overflow :
    (fuel k n : ℕ) (w : AvroWriter)
    → 128 ^ k ≤ n
    → encodeused w + k ≡ w.encodesize
    → put_groups fuel n w ≡ none
unfolding put_groups put
put_groups-overflow zero k n w large full = refl
put_groups-overflow (suc fuel) zero n w large full = ground (arith, large, full)
put_groups-overflow (suc fuel) (suc k) n w large full =
    let ih =
      put_groups-overflow fuel k (n / 128)
        (record w { encoded = w.encoded ++ (n % 128 + 128) ∷ [] }) (power_down n k large)
        (omega (arith, length-++ w.encoded ((n % 128 + 128) ∷ []), full)) in
    let many : leb 128 n ≡ true = ground (arith, large, power-positive k) in
    ground (arith, many, ih, full)

-- A number of eight bytes whose zigzag form takes more than eight groups is written past the end of
-- a buffer of less than 2^32 bytes that has just eight left.
pub long_overflows :
    (allocated : Bool) (p : ℕ → ℕ) (len l : ℕ) (w : AvroWriter)
    → load p len ≡ some l
    → 2 ^ 56 ≤ zigzag l
    → encodeused w + 8 ≡ w.encodesize
    → w.encodesize < 2 ^ 32
    → encode_long allocated p len w ≡ none
unfolding encode_long reserve
long_overflows allocated p len l w loaded large full small =
    let enough : ltb ((w.encodesize + (2 ^ 32 - encodeused w)) % 2 ^ 32) 8 ≡ false =
      ground (arith, full, small) in
    let run = put_groups-overflow 10 8 (zigzag l) w large full in
    rw (encode_long, loaded, enough, run) refl
