-- ===== src/Dpdk/Tests.antt =====
-- A slice of two packets, the answers to which arrive twice and with an answer to another job.
use p4app_switch_ml.Prelude.{ℕ, ◌≤◌, ◌≡◌, ◌≢◌, refl, false, List, [], ◌∷◌, length, arith}
use p4app_switch_ml.Outcome.{ok}
use p4app_switch_ml.Dpdk.{
  Packet, Job, Timer, Transfer, transfer, first_batch, receive_loop, receive_burst, receive_packet,
  new_transfer, accept, discard, send_next, pool_index_of,
}
use p4app_switch_ml.Dpdk.Once.{times, transfer_once, transfer_complete}
use p4app_switch_ml.Dpdk.Slots.{pool_index_of_differs}

abbrev job : Job
job = record {
  job_id = 300;
  packet_numel = 64;
  max_outstanding_pkts = 2;
  batch_num_pkts = 1;
  total_num_pkts = 2;
  switch_pool_index_start = 4;
  switch_pool_index_shift = 3;
  switch_addr = record { mac = 1; ip = 2; port = 3 };
  worker_addr = record { mac = 4; ip = 5; port = 6 };
  bitmap_bits = 512;
  preprocess = λ id payload. id ∷ [];
}

abbrev idle_timers : ℕ → Timer
idle_timers i = record { running = false; timer_job_id = 0; timer_pool_index = 0; timer_pkt_id = 0 }

abbrev answer : ℕ → ℕ → Packet
answer id short = record {
  s_addr = 1;
  d_addr = 4;
  version_ihl = 69;
  total_length = 294;
  time_to_live = 127;
  src_addr = 2;
  dst_addr = 5;
  src_port = 3;
  dst_port = 6;
  dgram_len = 274;
  pkt_id = id;
  switch_pool_index = 7;
  job_type_size = 17;
  short_job_id = short;
  payload = 9 ∷ [];
}

abbrev deliveries : List (List Packet)
deliveries = (answer 0 44 ∷ answer 0 44 ∷ []) ∷ [] ∷ (answer 1 43 ∷ []) ∷ (answer 1 44 ∷ []) ∷ []

transfer_once_example :
    (t : Transfer) × (transfer job idle_timers deliveries ≡ ok t)
    × ((m : ℕ) → times m t.posts ≤ 1)
    × (t.num_received_pkts ≡ length t.posts)
transfer_once_example =
    transfer_once job idle_timers deliveries (omega arith) (omega arith)
      ((omega arith, (omega arith, tt)), (tt, ((omega arith, tt), ((omega arith, tt), tt))))

whole : (t : Transfer) × (transfer job idle_timers deliveries ≡ ok t)
unfolding transfer first_batch receive_loop receive_burst receive_packet new_transfer accept discard
    send_next
whole = (_, refl)

transfer_complete_example : times 1 (whole.0).posts ≡ 1
unfolding whole accept discard send_next first_batch new_transfer
transfer_complete_example =
    transfer_complete job idle_timers deliveries 1 (omega arith) (omega arith)
      ((omega arith, (omega arith, tt)), (tt, ((omega arith, tt), ((omega arith, tt), tt)))) whole.1
      (omega arith) (omega arith)

pool_index_of_differs_example : pool_index_of job 0 ≢ pool_index_of job 2
pool_index_of_differs_example =
    pool_index_of_differs job 0 2 (omega arith) (omega arith) (omega arith) (omega arith)
      (omega arith)
