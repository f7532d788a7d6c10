-- ===== src/Avro/Groups.antt =====
-- The variable-length numbers of libcorsaro/libcorsaro_avro.c, and how the specification of avro
-- reads them.
use corsaro.Base.{
  ℕ, zero, suc, ◌+◌, ◌-◌, ◌*◌, ◌/◌, ◌%◌, ◌^◌, ◌≤◌, ◌<◌, ◌≡◌, refl, ap, arith, true, false, Option,
  none, some, List, [], ◌∷◌, ◌++◌, ltb, leb, ◌==◌, if◌then◌else◌, ◌>>=◌, length, Bool-cases, inl,
  inr,
}
use corsaro.Avro.{
  AvroWriter, encodeused, grow_encode_buffer, reserve, put, load, zigzag, put_groups, encode_long,
}

-- A number in groups of seven bits, the lowest first, each but the last with the eighth bit set.
unfoldable pub read_groups : List ℕ → Option (ℕ × List ℕ)
read_groups [] = none
read_groups (b ∷ bs) =
    if ltb b 128
    then some (b, bs)
    else read_groups bs >>= λ (n, rest). some (b - 128 + 128 * n, rest)

-- An even number is twice what it stands for, an odd one twice the distance below zero less one.
unfoldable pub unzigzag : ℕ → ℕ
unzigzag n = if n % 2 == 0 then n / 2 else 2 ^ 64 - 1 - n / 2

unfoldable pub read_long : List ℕ → Option (ℕ × List ℕ)
read_long bytes = read_groups bytes >>= λ (n, rest). some (unzigzag n, rest)

-- The bytes of a number.
unfoldable pub groups : ℕ → ℕ → List ℕ
groups zero n = []
groups (suc fuel) n = if leb 128 n then (n % 128 + 128) ∷ groups fuel (n / 128) else n ∷ []

pub ++_assoc : (xs ys zs : List ℕ) → (xs ++ ys) ++ zs ≡ xs ++ (ys ++ zs)
++_assoc [] ys zs = refl
++_assoc (x ∷ xs) ys zs = ap (λ l. x ∷ l) (++_assoc xs ys zs)

pub length-++ : (xs ys : List ℕ) → length (xs ++ ys) ≡ length xs + length ys
length-++ [] ys = omega arith
length-++ (x ∷ xs) ys = omega (arith, length-++ xs ys)

pub unzigzag-zigzag : (l : ℕ) → l < 2 ^ 64 → unzigzag (zigzag l) ≡ l
unfolding unzigzag zigzag
unzigzag-zigzag l small = ground arith

zigzag_small : (l : ℕ) → l < 2 ^ 64 → zigzag l < 128 ^ 10
unfolding zigzag
zigzag_small l small = ground arith

power_up : (n k : ℕ) → n < 128 ^ suc k → n / 128 < 128 ^ k
power_up n k h = omega (arith, h)

-- A number of at most k groups.
pub groups_short : (fuel k n : ℕ) → n < 128 ^ k → 1 ≤ k → length (groups fuel n) ≤ k
unfolding groups
groups_short zero k n small some_k = omega arith
groups_short (suc fuel) zero n small some_k = absurd (omega arith)
groups_short (suc fuel) (suc zero) n small some_k = ground (arith, small)
groups_short (suc fuel) (suc (suc k)) n small some_k =
    ground (arith, groups_short fuel (suc k) (n / 128) (power_up n (suc k) small) (omega arith))

pub read_groups-groups :
    (fuel k n : ℕ) (rest : List ℕ)
    → n < 128 ^ k
    → 1 ≤ k
    → k ≤ fuel
    → read_groups (groups fuel n ++ rest) ≡ some (n, rest)
unfolding read_groups groups
read_groups-groups fuel zero n rest small some_k enough = absurd (omega arith)
read_groups-groups zero (suc k) n rest small some_k enough = absurd (omega arith)
read_groups-groups (suc fuel) (suc zero) n rest small some_k enough = ground (arith, small)
read_groups-groups (suc fuel) (suc (suc k)) n rest small some_k enough =
    let ih =
      read_groups-groups fuel (suc k) (n / 128) rest (power_up n (suc k) small) (omega arith)
        (omega arith) in
    ground (arith, ih)

pub put-room :
    (byte : ℕ) (w : AvroWriter)
    → w.encodespace ≡ true
    → encodeused w < w.encodesize
    → put byte w ≡ some (record w { encoded = w.encoded ++ byte ∷ [] })
unfolding put
put-room byte w space room = ground (arith, space, room)

pub put_groups-groups :
    (fuel k n : ℕ) (w : AvroWriter)
    → n < 128 ^ k
    → 1 ≤ k
    → k ≤ fuel
    → w.encodespace ≡ true
    → encodeused w + k ≤ w.encodesize
    → put_groups fuel n w ≡ some (record w { encoded = w.encoded ++ groups fuel n })
unfolding put_groups put groups
put_groups-groups fuel zero n w small some_k enough space room = absurd (omega arith)
put_groups-groups zero (suc k) n w small some_k enough space room = absurd (omega arith)
put_groups-groups (suc fuel) (suc zero) n w small some_k enough space room =
    ground (arith, small, space, room)
put_groups-groups (suc fuel) (suc (suc k)) n w small some_k enough space room =
    let w' = record w { encoded = w.encoded ++ (n % 128 + 128) ∷ [] } in
    let ih =
      put_groups-groups fuel (suc k) (n / 128) w' (power_up n (suc k) small) (omega arith)
        (omega arith) space (omega (arith, length-++ w.encoded ((n % 128 + 128) ∷ []), room)) in
    let first = put-room (n % 128 + 128) w space (omega (arith, room)) in
    let last = put-room n w space (omega (arith, room)) in
    elim (Bool-cases (leb 128 n)) [
      | inl many ↦
          rw (many, first, ih)
            (ap (λ l. some (record w { encoded = l }))
              (++_assoc w.encoded ((n % 128 + 128) ∷ []) (groups fuel (n / 128))))
      | inr few ↦ rw (few, last) refl
    ]

-- A writer with a buffer, of a size that leaves room to grow.
abbrev pub IsReady : AvroWriter → Type 0
IsReady w = (w.encodespace ≡ true) × (encodeused w ≤ w.encodesize) × (w.encodesize + 8096 < 2 ^ 32)

-- The buffer after a call that makes sure of n bytes.
pub reserve-room :
    (n : ℕ) (w : AvroWriter)
    → IsReady w
    → n ≤ 8096
    → (w' : AvroWriter) × (reserve true n w ≡ w')
      × (w'.encodespace ≡ true)
      × (w'.encoded ≡ w.encoded)
      × (encodeused w + n ≤ w'.encodesize)
      × (w'.encodesize ≤ w.encodesize + 8096)
unfolding reserve grow_encode_buffer
reserve-room n w (space, inside, small) few =
    elim (Bool-cases (ltb ((w.encodesize + (2 ^ 32 - encodeused w)) % 2 ^ 32) n)) [
      | inl short ↦ (
        record w { encodespace = true; encodesize = (w.encodesize + 8096) % 2 ^ 32 },
        rw short refl,
        refl,
        refl,
        omega (arith, inside, few, small),
        omega (arith, small),
      )
      | inr enough ↦
          (w, rw enough refl, space, refl, ground (arith, inside, small, enough), omega arith)
    ]

-- What encode_long appends for a number of at most k groups.
pub encode_long-groups :
    (k l : ℕ) (p : ℕ → ℕ) (len : ℕ) (w : AvroWriter)
    → load p len ≡ some l
    → zigzag l < 128 ^ k
    → 1 ≤ k
    → k ≤ 10
    → w.encodespace ≡ true
    → encodeused w + k ≤ w.encodesize
    → encodeused w + 8 ≤ w.encodesize
    → w.encodesize < 2 ^ 32
    → encode_long true p len w
      ≡ some (true, record w { encoded = w.encoded ++ groups 10 (zigzag l) })
unfolding encode_long reserve
encode_long-groups k l p len w loaded small some_k few space room room' bounded =
    let e = put_groups-groups 10 k (zigzag l) w small some_k few space room in
    let enough : ltb ((w.encodesize + (2 ^ 32 - encodeused w)) % 2 ^ 32) 8 ≡ false =
      ground (arith, room', bounded) in
    rw (encode_long, loaded, enough, e) refl

-- A number of 64 bits that encode_long writes where ten bytes are left is read back.
pub encode_long-read_long :
    (p : ℕ → ℕ) (len l : ℕ) (w : AvroWriter) (rest : List ℕ)
    → load p len ≡ some l
    → l < 2 ^ 64
    → w.encodespace ≡ true
    → encodeused w + 10 ≤ w.encodesize
    → w.encodesize < 2 ^ 32
    → (bytes : List ℕ) × (encode_long true p len w
        ≡ some (true, record w { encoded = w.encoded ++ bytes }))
      × (read_long (bytes ++ rest) ≡ some (l, rest))
unfolding read_long
encode_long-read_long p len l w rest loaded small space room bounded =
    let z : zigzag l < 128 ^ 10 = zigzag_small l small in
    (
      groups 10 (zigzag l),
      encode_long-groups 10 l p len w loaded z (omega arith) (omega arith) space room
          (omega (arith, room)) bounded,
      rw
          (
            read_groups-groups 10 10 (zigzag l) rest z (omega arith) (omega arith),
            unzigzag-zigzag l small,
          )
          refl,
    )
