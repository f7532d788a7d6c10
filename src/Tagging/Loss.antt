-- ===== src/Tagging/Loss.antt =====
-- The loss tracker of libcorsaro/libcorsaro_tagging.c.
use corsaro.Base.{
  ℕ, ◌+◌, ◌-◌, ◌%◌, ◌^◌, ◌≤◌, ◌<◌, ◌≡◌, refl, subst, arith, Bool, not, Option, none, some, List, [],
  ◌∷◌, ltb, ◌==◌, ◌&&◌, if◌then◌else◌,
}

-- `corsaro_tagged_loss_tracker_t`
pub record LossTracker : Type 0 where
  pub nextseq : ℕ
  pub taggerid : ℕ
  pub packetsreceived : ℕ
  pub bytesreceived : ℕ
  pub lostpackets : ℕ
  pub lossinstances : ℕ

-- The fields of `corsaro_tagged_packet_header_t` that the tracker reads, in host byte order.
pub record PacketHeader : Type 0 where
  pub tagger_id : ℕ
  pub seqno : ℕ
  pub pktlen : ℕ

-- `calloc`, which gives zeros if it succeeds.
unfoldable pub corsaro_create_tagged_loss_tracker : Bool → Option LossTracker
corsaro_create_tagged_loss_tracker allocated =
    if allocated
    then some (record {
      nextseq = 0;
      taggerid = 0;
      packetsreceived = 0;
      bytesreceived = 0;
      lostpackets = 0;
      lossinstances = 0;
    })
    else none

unfoldable pub corsaro_reset_tagged_loss_tracker : LossTracker → LossTracker
corsaro_reset_tagged_loss_tracker tracker = record tracker {
  lostpackets = 0;
  lossinstances = 0;
  bytesreceived = 0;
  packetsreceived = 0;
}

-- The update for two pointers that are not null. The sequence numbers and three counters have 64
-- bits, and `lossinstances` has 32.
unfoldable pub update_tracker : LossTracker → PacketHeader → LossTracker
update_tracker tracker taghdr =
    let thisseq = taghdr.seqno in
    let nextseq = if taghdr.tagger_id == tracker.taggerid then tracker.nextseq else 0 in
    let gap = not (nextseq == 0) && not (thisseq == nextseq) in
    let lost = if ltb nextseq thisseq then thisseq - nextseq else 1 in
    let following = (thisseq + 1) % 2 ^ 64 in
    record {
      nextseq = if following == 0 then 1 else following;
      taggerid = taghdr.tagger_id;
      packetsreceived = (tracker.packetsreceived + 1) % 2 ^ 64;
      bytesreceived = (tracker.bytesreceived + taghdr.pktlen) % 2 ^ 64;
      lostpackets = if gap then (tracker.lostpackets + lost) % 2 ^ 64 else tracker.lostpackets;
      lossinstances = if gap then (tracker.lossinstances + 1) % 2 ^ 32 else tracker.lossinstances;
    }

-- `none` is the -1 for a null pointer, which changes nothing.
unfoldable pub corsaro_update_tagged_loss_tracker :
    Option LossTracker → Option PacketHeader → Option LossTracker
unfolding update_tracker
corsaro_update_tagged_loss_tracker none taghdr = none
corsaro_update_tagged_loss_tracker (some tracker) none = none
corsaro_update_tagged_loss_tracker (some tracker) (some taghdr) =
    some (update_tracker tracker taghdr)

-- The headers of a stream, one after the other.
unfoldable pub receive_all : Option LossTracker → List PacketHeader → Option LossTracker
unfolding corsaro_update_tagged_loss_tracker
receive_all tracker [] = tracker
receive_all tracker (h ∷ hs) = receive_all (corsaro_update_tagged_loss_tracker tracker (some h)) hs

-- Headers of one tagger with rising sequence numbers from `next` on, below the wrap-around.
abbrev pub IsRising : ℕ → ℕ → List PacketHeader → Type 0
IsRising id next [] = Unit
IsRising id next (h ∷ hs) =
    (h.tagger_id ≡ id) × (next ≤ h.seqno) × (h.seqno + 1 < 2 ^ 64) × IsRising id (h.seqno + 1) hs

-- The sequence number after the last header.
abbrev pub next_after : ℕ → List PacketHeader → ℕ
next_after next [] = next
next_after next (h ∷ hs) = next_after (h.seqno + 1) hs

-- How often the sequence numbers jump.
abbrev pub jumps : ℕ → List PacketHeader → ℕ
jumps next [] = 0
jumps next (h ∷ hs) = (if h.seqno == next then 0 else 1) + jumps (h.seqno + 1) hs

next_after_mono :
    (id next : ℕ) (hs : List PacketHeader) → IsRising id next hs → next ≤ next_after next hs
next_after_mono id next [] r = omega arith
next_after_mono id next (h ∷ hs) (same, low, high, r) =
    omega (arith, next_after_mono id (h.seqno + 1) hs r)

-- One header in order.
module _ (tracker : LossTracker) (h : PacketHeader) (known : 1 ≤ tracker.nextseq)
    (same : h.tagger_id ≡ tracker.taggerid) (low : tracker.nextseq ≤ h.seqno)
    (high : h.seqno + 1 < 2 ^ 64) where
  abbrev updated : LossTracker
  updated = update_tracker tracker h

  updated-nextseq : updated.nextseq ≡ h.seqno + 1
  unfolding update_tracker
  updated-nextseq = ground arith

  updated-counts :
      (updated.packetsreceived + updated.lostpackets) % 2 ^ 64
      ≡ (tracker.packetsreceived + tracker.lostpackets + (h.seqno + 1 - tracker.nextseq)) % 2 ^ 64
  unfolding update_tracker
  updated-counts = ground arith

  updated-instances :
      updated.lossinstances % 2 ^ 32
      ≡ (tracker.lossinstances + (if h.seqno == tracker.nextseq then 0 else 1)) % 2 ^ 32
  unfolding update_tracker
  updated-instances = ground arith

-- Through a stream of one tagger with rising sequence numbers, from a known one on, the tracker
-- expects the number after the last, it has counted every number passed over as a packet received or
-- lost, and every jump as an instance, each modulo the counter's width.
pub receive_all_counts :
    (tracker : LossTracker) (hs : List PacketHeader)
    → 1 ≤ tracker.nextseq
    → IsRising tracker.taggerid tracker.nextseq hs
    → (final : LossTracker) × (receive_all (some tracker) hs ≡ some final)
      × (final.nextseq ≡ next_after tracker.nextseq hs)
      × ((final.packetsreceived + final.lostpackets) % 2 ^ 64
          ≡ (tracker.packetsreceived + tracker.lostpackets + (final.nextseq - tracker.nextseq))
            % 2 ^ 64)
      × (final.lossinstances % 2 ^ 32 ≡ (tracker.lossinstances + jumps tracker.nextseq hs) % 2 ^ 32)
unfolding receive_all
receive_all_counts tracker [] known r = (tracker, refl, refl, omega arith, omega arith)
receive_all_counts tracker (h ∷ hs) known (same, low, high, r) =
    let t = update_tracker tracker h in
    let next = updated-nextseq tracker h known same low high in
    let id : t.taggerid ≡ tracker.taggerid = same in
    let (final, run, at, counted, seen) =
      receive_all_counts t hs (omega (arith, next)) (rw (id, next) r) in
    let at' : final.nextseq ≡ next_after (h.seqno + 1) hs =
      subst (λ n. final.nextseq ≡ next_after n hs) next at in
    let seen' : final.lossinstances % 2 ^ 32 ≡ (t.lossinstances + jumps (h.seqno + 1) hs) % 2 ^ 32 =
      subst (λ n. final.lossinstances % 2 ^ 32 ≡ (t.lossinstances + jumps n hs) % 2 ^ 32) next
        seen in
    (
      final,
      run,
      at',
      omega (
        arith,
        counted,
        next,
        at',
        updated-counts tracker h known same low high,
        next_after_mono tracker.taggerid (h.seqno + 1) hs r,
      ),
      omega (arith, seen', updated-instances tracker h known same low high),
    )
