-- ===== src/Dos/Vectors.antt =====
-- How libcorsaro/plugins/corsaro_dos.c combines what two threads know of an attack.
use corsaro.Base.{
  ℕ, ◌+◌, ◌%◌, ◌^◌, ◌≡◌, ◌⊎◌, List, [], ◌∷◌, Bool, false, ◌&&◌, ◌||◌, ltb, ◌==◌, if◌then◌else◌,
}

-- `struct timeval`
pub record Timeval : Type 0 where
  pub tv_sec : ℕ
  pub tv_usec : ℕ

-- The fields of `attack_vector_t` that combine_attack_vectors changes by themselves, without its
-- tables. The initial packet is known by its address.
pub record AttackVector : Type 0 where
  pub thread_cnt : ℕ
  pub packet_cnt : ℕ
  pub mismatches : ℕ
  pub byte_cnt : ℕ
  pub start_time : Timeval
  pub latest_time : Timeval
  pub first_attack_port : ℕ
  pub first_target_port : ℕ
  pub initial_packet : ℕ
  pub initial_packet_len : ℕ

-- The tests of the two times, first the seconds and then the microseconds.
unfoldable pub earlier : Timeval → Timeval → Bool
earlier a b = ltb a.tv_sec b.tv_sec || (a.tv_sec == b.tv_sec && ltb a.tv_usec b.tv_usec)

-- What combine_attack_vectors does to a vector `existing` with another one for the same target.
unfoldable pub combine_vector : AttackVector → AttackVector → AttackVector
combine_vector existing toadd =
    let sooner = earlier toadd.start_time existing.start_time in
    record {
      thread_cnt = (existing.thread_cnt + 1) % 2 ^ 32;
      packet_cnt = (existing.packet_cnt + toadd.packet_cnt) % 2 ^ 64;
      mismatches = (existing.mismatches + toadd.mismatches) % 2 ^ 32;
      byte_cnt = (existing.byte_cnt + toadd.byte_cnt) % 2 ^ 64;
      start_time = if sooner then toadd.start_time else existing.start_time;
      first_attack_port = if sooner then toadd.first_attack_port else existing.first_attack_port;
      first_target_port = if sooner then toadd.first_target_port else existing.first_target_port;
      initial_packet = if sooner then toadd.initial_packet else existing.initial_packet;
      initial_packet_len = if sooner then toadd.initial_packet_len else existing.initial_packet_len;
      latest_time =
          if earlier existing.latest_time toadd.latest_time
          then toadd.latest_time
          else existing.latest_time;
    }

-- The vectors that the other threads have for the target, one thread after another.
unfoldable pub combine_all : AttackVector → List AttackVector → AttackVector
combine_all existing [] = existing
combine_all existing (v ∷ vs) = combine_all (combine_vector existing v) vs

abbrev pub sum : (AttackVector → ℕ) → List AttackVector → ℕ
sum f [] = 0
sum f (v ∷ vs) = f v + sum f vs

abbrev pub All : (AttackVector → Type 0) → List AttackVector → Type 0
All P [] = Unit
All P (v ∷ vs) = P v × All P vs

abbrev pub Any : (AttackVector → Type 0) → AttackVector → List AttackVector → Type 0
Any P e [] = P e
Any P e (v ∷ vs) = P e ⊎ Any P v vs

-- The fields that come from the vector that began first.
abbrev pub IsStartOf : AttackVector → AttackVector → Type 0
IsStartOf r v =
    (r.start_time ≡ v.start_time)
    × (r.first_attack_port ≡ v.first_attack_port)
    × (r.first_target_port ≡ v.first_target_port)
    × (r.initial_packet ≡ v.initial_packet)
    × (r.initial_packet_len ≡ v.initial_packet_len)

-- What the vectors of all threads come to.
pub record IsCombined (e : AttackVector) (vs : List AttackVector) (r : AttackVector) : Type 0 where
  pub packets : r.packet_cnt ≡ (e.packet_cnt + sum AttackVector.packet_cnt vs) % 2 ^ 64
  pub bytes : r.byte_cnt ≡ (e.byte_cnt + sum AttackVector.byte_cnt vs) % 2 ^ 64
  pub mismatched : r.mismatches ≡ (e.mismatches + sum AttackVector.mismatches vs) % 2 ^ 32
  pub begins : Any (IsStartOf r) e vs
  pub first : All (λ v. earlier v.start_time r.start_time ≡ false) (e ∷ vs)
  pub ends : Any (λ v. r.latest_time ≡ v.latest_time) e vs
  pub last : All (λ v. earlier r.latest_time v.latest_time ≡ false) (e ∷ vs)
