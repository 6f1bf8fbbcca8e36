-- ===== src/Dpdk/Resend.antt =====
-- The retransmissions of dpdk_worker_thread_utils.inc, when a timer expires, and the numbers of packets with
-- which dpdk_worker_thread.cc sets up a job slice.
use p4app_switch_ml.Prelude.{
  ℕ, ◌+◌, ◌*◌, ◌%◌, ◌≤◌, ◌<◌, min, Bool, if◌then◌else◌, leb, List, [], ◌∷◌, arith, u64_mod,
}
use p4app_switch_ml.Dpdk.{Packet, Job, Timer, build_packet}

-- The two `static thread_local` variables, the worker thread's cycles, and what is sent and counted.
pub record Resends : Type 0 where
  pub timeouts_counter : ℕ
  pub timeout_threshold : ℕ
  pub timer_cycles : ℕ
  pub resent : List Packet
  pub stats_timeouts : ℕ

unfoldable pub back_off : ℕ → Resends → Resends
back_off increment r =
    if leb r.timeout_threshold r.timeouts_counter
    then record r {
      timeouts_counter = 0;
      timeout_threshold = (r.timeout_threshold + increment) % u64_mod;
      timer_cycles = r.timer_cycles * 2 % u64_mod;
    }
    else r

unfoldable pub resend_packet : Job → Timer → Resends → Resends
unfolding build_packet
resend_packet job timer r = record r {
  resent =
      build_packet (record job { job_id = timer.timer_job_id }) timer.timer_pkt_id
        timer.timer_pool_index []
      ∷ r.resent;
  stats_timeouts = r.stats_timeouts + 1;
}

-- `ResendPacketCallback`.
unfoldable pub resend_packet_callback : Job → ℕ → Timer → Resends → Resends
unfolding back_off resend_packet
resend_packet_callback job increment timer r =
    resend_packet job timer
      (back_off increment (record r { timeouts_counter = (r.timeouts_counter + 1) % u64_mod }))

-- The size of a batch, and the number of packets with the extra batch.
unfoldable pub batch_and_total : ℕ → ℕ → Bool → ℕ × ℕ
batch_and_total max_outstanding_pkts main_num_pkts needs_extra_batch =
    let batch = min max_outstanding_pkts main_num_pkts in
    (batch, if needs_extra_batch then (main_num_pkts + batch) % u64_mod else main_num_pkts)

-- A batch is not more than can be outstanding, nor than all packets.
batch_and_total_lem :
    (max main : ℕ) (extra : Bool)
    → main + max < u64_mod
    → ((batch_and_total max main extra).0 ≤ max)
      × ((batch_and_total max main extra).0 ≤ (batch_and_total max main extra).1)
unfolding batch_and_total
batch_and_total_lem max main extra h = (ground arith, ground arith)

-- The callback leaves the counter below a positive threshold: a full count starts over.
resend_packet_callback_lem :
    (job : Job) (increment : ℕ) (timer : Timer) (r : Resends)
    → 0 < r.timeout_threshold
    → r.timeout_threshold + increment < u64_mod
    → r.timeouts_counter < r.timeout_threshold
    → (resend_packet_callback job increment timer r).timeouts_counter
      < (resend_packet_callback job increment timer r).timeout_threshold
unfolding resend_packet_callback
resend_packet_callback_lem job increment timer r pos small below = ground arith
