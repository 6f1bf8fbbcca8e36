-- ===== src/RdmaConnection/Shares.antt =====
-- The shares of the worker threads in the queue pairs of rdma_connection.cc.
use p4app_switch_ml.Prelude.{
  take, drop, length-take-drop, get_elem?-take-drop, ℕ, ◌+◌, ◌*◌, ◌/◌, ◌≤◌, ◌<◌, ◌≡◌, refl, sym,
  ◌∙◌, ap, false, arith, ltb, le→ltb, List, length, get_elem?,
}
use native.Mathlib.Nat.{
  div-add-mod, mul-div_cancel_left, mul-pos, div-eq_of_lt-le, mul-le-mul_right,
}
use p4app_switch_ml.Outcome.{ok}
use p4app_switch_ml.Config.{Config}
use p4app_switch_ml.Config.Validated.{RdmaReady}
use p4app_switch_ml.Config.Rounding.{one_le_quotient}
use p4app_switch_ml.RdmaConnection.{
  packets_per_message, num_queue_pairs, qps_per_worker_thread, worker_thread_share,
  completion_queue_of, max_outstanding_msgs,
}

quotient_of : (tid q qps : ℕ) → q < qps → (qps * tid + q) / qps ≡ tid
quotient_of tid q qps h = div-eq_of_lt-le qps (omega arith) (omega arith)

module _ (c : Config) {asked given : ℕ} (h : RdmaReady c asked given) where
  pub some_packets : 0 < packets_per_message c
  some_packets =
      let pos : 0 < c.general.packet_numel = ground (arith, h.packet_size) in
      omega
        (arith, one_le_quotient c.rdma.msg_numel c.general.packet_numel pos h.message.one_packet)

  -- How many messages every worker thread has outstanding.
  abbrev pub messages : ℕ
  messages =
      c.general.max_outstanding_packets / (c.general.num_worker_threads * packets_per_message c)

  pub packets_shared :
      c.general.max_outstanding_packets
      ≡ packets_per_message c * (c.general.num_worker_threads * messages)
  packets_shared =
      let whole =
        div-add-mod c.general.max_outstanding_packets
          (c.general.num_worker_threads * packets_per_message c) in
      let even = h.messages.multiple in grind arith

  pub queue_pairs_eq : num_queue_pairs c ≡ c.general.num_worker_threads * messages
  unfolding num_queue_pairs
  queue_pairs_eq =
      ap (λ x. x / packets_per_message c) packets_shared
      ∙ mul-div_cancel_left (c.general.num_worker_threads * messages) some_packets

  pub qps_eq : qps_per_worker_thread c ≡ messages
  unfolding qps_per_worker_thread
  qps_eq =
      ap (λ x. x / c.general.num_worker_threads) queue_pairs_eq
      ∙ mul-div_cancel_left messages h.threads

  pub pairs_shared : num_queue_pairs c ≡ c.general.num_worker_threads * qps_per_worker_thread c
  pairs_shared = queue_pairs_eq ∙ ap (λ x. c.general.num_worker_threads * x) (sym qps_eq)

  pub qps_positive : 0 < qps_per_worker_thread c
  qps_positive =
      let pos : 0 < c.general.num_worker_threads * packets_per_message c =
        mul-pos h.threads some_packets in
      let one =
        one_le_quotient c.general.max_outstanding_packets
          (c.general.num_worker_threads * packets_per_message c) pos h.messages.some in
      omega (arith, one, qps_eq)

  -- The CHECK at the start of a worker thread: it has a queue pair for each outstanding message.
  pub outstanding_eq : max_outstanding_msgs c ≡ qps_per_worker_thread c
  unfolding max_outstanding_msgs qps_per_worker_thread num_queue_pairs
  outstanding_eq = refl

  pub in_share :
      (tid : ℕ)
      → tid < c.general.num_worker_threads
      → qps_per_worker_thread c * tid + qps_per_worker_thread c ≤ num_queue_pairs c
  in_share tid le =
      let bound : (tid + 1) * qps_per_worker_thread c
          ≤ c.general.num_worker_threads * qps_per_worker_thread c =
        mul-le-mul_right (qps_per_worker_thread c) (omega (arith, le)) in
      omega (arith, bound, pairs_shared)

  module _ {ℓ} {A : Type ℓ} (xs : List A) (all : length xs ≡ num_queue_pairs c) where
    -- In a configuration that Validate has made ready for RDMA, every worker thread gets its share of the
    -- queue pairs without reading past their vector. The share has a queue pair for each message that the
    -- thread has outstanding, its q-th is the one at q after the shares of the threads before, and that
    -- queue pair uses the completion queue of the thread.
    pub worker_thread_share_lem :
        (tid q : ℕ)
        → tid < c.general.num_worker_threads
        → q < max_outstanding_msgs c
        → (ys : List A) × (worker_thread_share c xs tid ≡ ok ys)
          × (length ys ≡ max_outstanding_msgs c)
          × (get_elem? ys q ≡ get_elem? xs (qps_per_worker_thread c * tid + q))
          × (completion_queue_of c (qps_per_worker_thread c * tid + q) ≡ tid)
    unfolding worker_thread_share completion_queue_of
    worker_thread_share_lem tid q le below =
        let qps = qps_per_worker_thread c in
        let fits = in_share tid le in
        let inside : ltb (length xs) (qps * tid + qps) ≡ false =
          le→ltb _ _ (omega (arith, all, fits)) in
        let low : q < qps = omega (arith, below, outstanding_eq) in
        (
          take qps (drop (qps * tid) xs),
          rw inside refl,
          length-take-drop qps (qps * tid) xs (omega (arith, all, fits)) ∙ sym outstanding_eq,
          get_elem?-take-drop qps (qps * tid) xs q low,
          quotient_of tid q qps low,
        )
