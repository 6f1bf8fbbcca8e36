-- ===== src/RdmaConnection/Slots.antt =====
-- The buffers and the pool indices of the queue pairs of rdma_connection.cc and rdma_worker_thread.cc.
use p4app_switch_ml.Prelude.{
  ℕ, ◌+◌, ◌*◌, ◌/◌, ◌%◌, ◌^◌, ◌≤◌, ◌<◌, ◌≡◌, subst, refl, sym, ◌∙◌, ap, arith, u16_mod, u32_mod,
  u64_mod,
}
use native.Mathlib.Nat.{mod-eq_of_lt, mul-div_cancel_left, mul-le-mul_right, div-add-mod}
use p4app_switch_ml.Config.{Config}
use p4app_switch_ml.Config.Rounding.{quotient_bounds, div_mono}
use p4app_switch_ml.Config.Validated.{RdmaReady}
use p4app_switch_ml.RdmaConnection.{
  packets_per_message, num_queue_pairs, qps_per_worker_thread, worker_thread_memory, msg_size,
  message_start, pool_index,
}
use p4app_switch_ml.RdmaConnection.Shares.{
  pairs_shared, packets_shared, queue_pairs_eq, some_packets, in_share,
}

bytes_shared :
    (p k n j mop pairs msg : ℕ)
    → mop ≡ k * pairs
    → pairs ≡ n * j
    → msg ≡ k * p
    → p * mop * 4 ≡ n * (j * (msg * 4))
bytes_shared p k n j mop pairs msg e1 e2 e3 = rw (e1, e2, e3) (grind arith)

-- A message of `bytes` in the share of a worker thread.
start_of :
    (address share tid q bytes size : ℕ)
    → address + size ≤ u64_mod
    → (tid + 1) * share ≤ size
    → (q + 1) * bytes ≤ share
    → 0 < bytes
    → ((address + tid * share) % u64_mod + q * bytes) % u64_mod ≡ address + tid * share + q * bytes
start_of address share tid q bytes size wraps last inside some =
    let split : (q + 1) * bytes ≡ q * bytes + bytes = grind arith in
    let split' : (tid + 1) * share ≡ tid * share + share = grind arith in
    let first : address + tid * share < u64_mod =
      omega (arith, split, split', inside, last, wraps, some) in
    let second : address + tid * share + q * bytes < u64_mod =
      omega (arith, split, split', inside, last, wraps, some) in
    rw (mod-eq_of_lt first, mod-eq_of_lt second) refl

module _ (c : Config) {asked given : ℕ} (h : RdmaReady c asked given) where
  packets_eq : c.general.max_outstanding_packets ≡ packets_per_message c * num_queue_pairs c
  packets_eq = packets_shared c h ∙ ap (λ x. packets_per_message c * x) (sym (queue_pairs_eq c h))

  -- The number of a queue pair among all of the connection.
  abbrev slot : ℕ → ℕ → ℕ
  slot tid q = qps_per_worker_thread c * tid + q

  slot_below :
      (tid q : ℕ)
      → tid < c.general.num_worker_threads
      → q < qps_per_worker_thread c
      → slot tid q + 1 ≤ num_queue_pairs c
  slot_below tid q le below = omega (arith, in_share c h tid le, below)

  -- With at most 2 ^ 15 outstanding packets, the pool index of a queue pair does not wrap: the packets of
  -- its message take two pool indices each from there on, below those of every later queue pair, and all
  -- below twice the outstanding packets.
  pub pool_index_lem :
      (tid q tid' q' : ℕ)
      → c.general.max_outstanding_packets ≤ 2 ^ 15
      → tid < c.general.num_worker_threads
      → q < qps_per_worker_thread c
      → tid' < c.general.num_worker_threads
      → q' < qps_per_worker_thread c
      → qps_per_worker_thread c * tid + q < qps_per_worker_thread c * tid' + q'
      → (pool_index c (qps_per_worker_thread c) tid q + 2 * packets_per_message c
          ≤ pool_index c (qps_per_worker_thread c) tid' q')
        × (pool_index c (qps_per_worker_thread c) tid' q' + 2 * packets_per_message c
            ≤ 2 * c.general.max_outstanding_packets + 1)
  unfolding pool_index
  pool_index_lem tid q tid' q' few le below le' below' before =
      let k = packets_per_message c in
      let top = mul-le-mul_right k (slot_below tid' q' le' below') in
      let next : (slot tid q + 1) * k ≤ slot tid' q' * k =
        mul-le-mul_right k (omega (arith, before)) in
      let some = some_packets c h in
      let all = packets_eq in
      let fits' : slot tid' q' * k * 2 + 1 < u16_mod = omega arith in
      let fits : slot tid q * k * 2 + 1 < u16_mod = omega arith in
      rw (mod-eq_of_lt fits, mod-eq_of_lt fits') (omega arith, omega arith)

  message_whole : c.rdma.msg_numel ≡ packets_per_message c * c.general.packet_numel
  message_whole =
      omega (arith, div-add-mod c.rdma.msg_numel c.general.packet_numel, h.message.whole)

  -- The size of the buffer, as that of the messages of all worker threads.
  buffer_shared :
      c.general.packet_numel * c.general.max_outstanding_packets * 4
      ≡ c.general.num_worker_threads * (qps_per_worker_thread c * (c.rdma.msg_numel * 4))
  buffer_shared =
      bytes_shared c.general.packet_numel (packets_per_message c) c.general.num_worker_threads
        (qps_per_worker_thread c) c.general.max_outstanding_packets (num_queue_pairs c)
        c.rdma.msg_numel packets_eq (pairs_shared c h) message_whole

  -- The bytes of the messages of one worker thread fit its share of a region that has room for all.
  memory_share :
      (size : ℕ)
      → c.general.packet_numel * c.general.max_outstanding_packets * 4 ≤ size
      → qps_per_worker_thread c * (c.rdma.msg_numel * 4) ≤ size / c.general.num_worker_threads
  memory_share size room =
      subst (λ x. x ≤ size / c.general.num_worker_threads)
        (mul-div_cancel_left (qps_per_worker_thread c * (c.rdma.msg_numel * 4)) h.threads)
        (div_mono c.general.num_worker_threads h.threads (omega (arith, buffer_shared, room)))

  -- For a memory region that is as large as the connection asks for, or larger, and does not wrap round
  -- the address space, and messages whose bytes fit 32 bits: the message of a queue pair starts as
  -- many messages into the share of its worker thread as there are queue pairs of the thread before
  -- it, and ends inside this share, and the share ends inside the region and starts where that of the
  -- thread before it ends: the messages of two queue pairs never overlap.
  pub message_start_lem :
      (address size tid q : ℕ)
      → c.rdma.msg_numel * 4 < u32_mod
      → c.general.packet_numel * c.general.max_outstanding_packets * 4 ≤ size
      → address + size ≤ u64_mod
      → tid < c.general.num_worker_threads
      → q < qps_per_worker_thread c
      → (message_start c (worker_thread_memory c address size tid) q
          ≡ address + tid * (size / c.general.num_worker_threads) + q * (c.rdma.msg_numel * 4))
        × ((q + 1) * (c.rdma.msg_numel * 4) ≤ size / c.general.num_worker_threads)
        × ((tid + 1) * (size / c.general.num_worker_threads) ≤ size)
  unfolding message_start worker_thread_memory msg_size
  message_start_lem address size tid q short room wraps le below =
      let n = c.general.num_worker_threads in
      let bytes = c.rdma.msg_numel * 4 in
      let share = size / n in
      let some : 0 < bytes = ground (arith, h.packet_size, h.message.one_packet) in
      let pairs : (q + 1) * bytes ≤ qps_per_worker_thread c * bytes =
        mul-le-mul_right bytes (omega (arith, below)) in
      let inside : (q + 1) * bytes ≤ share = omega (arith, pairs, memory_share size room) in
      let threads : (tid + 1) * share ≤ n * share = mul-le-mul_right share (omega (arith, le)) in
      let whole = (quotient_bounds size n h.threads).0 in
      let last : (tid + 1) * share ≤ size = grind (arith, threads, whole) in
      (
        rw (mod-eq_of_lt short) (start_of address share tid q bytes size wraps last inside some),
        inside,
        last,
      )
