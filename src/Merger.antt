-- ===== src/Merger.antt =====
-- corsaroftmerge/corsaroftmerge.c: merging sorted files of flowtuples into one.
pub mod Order
pub mod Collapse
pub mod Streams
pub mod Invariant
pub mod Insertion
pub mod Absorb
pub mod Setup
pub mod Loop
pub mod Run
mod Tests
use corsaro.Base.{
  ℕ, zero, suc, ◌+◌, ◌%◌, ◌^◌, Bool, true, false, Option, none, some, List, [], ◌∷◌, ◌++◌, ltb,
  ◌==◌, ◌&&◌, if◌then◌else◌, store, ◌>>=◌, length, total,
}
use corsaro.Flowtuple.{FlowtupleData}
use corsaro.PriorityQueue.{Cells, Pqueue, pqueue_init, pqueue_insert, pqueue_pop}

-- `struct merger_ft`. Its `pqueue_pos` is kept by the queue's `Cells`.
pub record MergerFt : Type 0 where
  pub ft : FlowtupleData
  pub source : ℕ

-- `ft_same` on two records that are not null.
unfoldable pub same_flow : FlowtupleData → FlowtupleData → Bool
same_flow a b =
    (a.interval_ts == b.interval_ts)
    && (a.protocol == b.protocol)
    && (a.ttl == b.ttl)
    && (a.tcp_flags == b.tcp_flags)
    && (a.src_ip == b.src_ip)
    && (a.dst_ip == b.dst_ip)
    && (a.src_port == b.src_port)
    && (a.dst_port == b.dst_port)
    && (a.ip_len == b.ip_len)
    && (a.tcp_synlen == b.tcp_synlen)
    && (a.tcp_synwinlen == b.tcp_synwinlen)

unfoldable pub ft_same : Option MergerFt → Option MergerFt → Bool
unfolding same_flow
ft_same none b = false
ft_same (some a) none = false
ft_same (some a) (some b) = same_flow a.ft b.ft

-- `if (curr != next) { return curr < next; }`, and what comes after it.
abbrev pub by_field : ℕ → ℕ → Bool → Bool
by_field curr next rest = if curr == next then rest else ltb curr next

unfoldable pub ft_cmp_pri : MergerFt → MergerFt → Bool
ft_cmp_pri next curr =
    let n = next.ft in
    let c = curr.ft in
    by_field c.interval_ts n.interval_ts (
      by_field c.protocol n.protocol (
        by_field c.ttl n.ttl (
          by_field c.tcp_flags n.tcp_flags (
            by_field c.src_ip n.src_ip (
              by_field c.dst_ip n.dst_ip (
                by_field c.src_port n.src_port (
                  by_field c.dst_port n.dst_port (
                    by_field c.ip_len n.ip_len (
                      by_field c.tcp_synlen n.tcp_synlen
                        (by_field c.tcp_synwinlen n.tcp_synwinlen true))))))))))

-- `combine_flowtuple_records`: what `next` becomes. The count is a `uint32_t`.
unfoldable pub combine_flowtuple_records : MergerFt → MergerFt → MergerFt
combine_flowtuple_records prev next = record next {
  ft = record next.ft { packet_cnt = (next.ft.packet_cnt + prev.ft.packet_cnt) % 2 ^ 32 };
}

-- The record that `prev` points to, if it is given to encode_flowtuple_as_avro.
abbrev pub write : Option MergerFt → List FlowtupleData
write none = []
write (some prev) = prev.ft ∷ []

-- Combine two equal records, or write the first of two different ones: what `prev` becomes, and what
-- is given to encode_flowtuple_as_avro.
unfoldable pub advance : Option MergerFt → MergerFt → MergerFt × List FlowtupleData
unfolding ft_same combine_flowtuple_records
advance none next = (next, [])
advance (some prev) next =
    if ft_same (some prev) (some next)
    then (combine_flowtuple_records prev next, [])
    else (next, write (some prev))

-- What one `zmq_recv` does: EAGAIN, another error, or a message of a pointer, which may be NULL.
pub data Reply : Type 0 where
  again failed : Reply
  received : Option ℕ → Reply

-- What comes of waiting for a message: none ever comes, an error, or a message and the replies that
-- are left.
pub data Wait : Type 0 where
  blocked broken : Wait
  arrived : Option ℕ → List Reply → Wait

-- The loop around `zmq_recv` while no signal is caught.
unfoldable pub receive : List Reply → Wait
receive [] = blocked
receive (again ∷ rs) = receive rs
receive (failed ∷ rs) = broken
receive (received m ∷ rs) = arrived m rs

-- How a run ends: it waits for ever, it goes to `endmerger` after an error, or it has merged all.
-- `spent` is a run that has used up its fuel.
pub data End : Type 0 where
  hanging aborted merged spent : End

-- The queue's callback reads the records behind two pointers.
abbrev pub cmp : (ℕ → MergerFt) → ℕ → ℕ → Bool
cmp mem next curr = ft_cmp_pri (mem next) (mem curr)

-- `mem` is what the reader threads have put behind the pointers that they send. `allocated` says
-- whether a growing queue gets its memory.
module _ (allocated : Bool) (mem : ℕ → MergerFt) where
  -- `if (*recvd != NULL) { pqueue_insert(pq, *recvd); }`, where the int that it returns is not read.
  abbrev pub enqueue : Option ℕ → Pqueue → Pqueue
  enqueue none pq = pq
  enqueue (some x) pq = (pqueue_insert (cmp mem) allocated pq x).1

  -- The first loop of run_merger, over the sockets from `i` on: its end, the queue, and the sockets.
  unfoldable pub setup_loop : ℕ → ℕ → Pqueue → (ℕ → List Reply) → End × Pqueue × (ℕ → List Reply)
  unfolding receive
  setup_loop zero i pq insocks = (merged, pq, insocks)
  setup_loop (suc left) i pq insocks = elim (receive (insocks i)) [
    | blocked ↦ (hanging, pq, insocks)
    | broken ↦ (aborted, pq, insocks)
    | arrived m rest ↦ setup_loop left (suc i) (enqueue m pq) (store insocks i rest)
  ]

  -- The second loop, and the write after it: its end, and the records written. What `prev` points
  -- to is held by value: no other pointer to a record that has left the queue is followed.
  unfoldable pub merge_loop :
      ℕ → Pqueue → (ℕ → List Reply) → Option MergerFt → End × List FlowtupleData
  unfolding receive advance
  merge_loop zero pq insocks prev = (spent, [])
  merge_loop (suc fuel) pq insocks prev =
      let (popped, pq') = pqueue_pop (cmp mem) pq in
      elim popped [
        | none ↦ (merged, write prev)
        | some p ↦
            let next = mem p in
            let (now, out) = advance prev next in
            elim (receive (insocks next.source)) [
              | blocked ↦ (hanging, out)
              | broken ↦ (aborted, out)
              | arrived m rest ↦
                  let (end, written) =
                    merge_loop fuel (enqueue m pq') (store insocks next.source rest) (some now) in
                  (end, out ++ written)
            ]
      ]

  -- The second loop is run only if the first one has read from every socket.
  unfoldable pub proceed : ℕ → End × Pqueue × (ℕ → List Reply) → End × List FlowtupleData
  unfolding merge_loop
  proceed fuel (merged, pq, insocks) = merge_loop fuel pq insocks none
  proceed fuel (early, pq, insocks) = (early, [])

  -- `run_merger` up to the release of what it holds; `none` is a run whose queue is a null pointer.
  -- A run pops no more records than its sockets have replies.
  unfoldable pub run_merger :
      Bool → ℕ → Cells → (ℕ → List Reply) → Option (End × List FlowtupleData)
  unfolding pqueue_init setup_loop proceed
  run_merger created tcount cells insocks =
      let fuel = suc (total tcount (λ i. length (insocks i))) in
      pqueue_init created tcount cells >>= λ pq.
      some (proceed fuel (setup_loop tcount 0 pq insocks))
