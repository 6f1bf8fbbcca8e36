-- ===== src/Dpdk.antt =====
-- dev_root/client_lib/src/backends/dpdk/dpdk_worker_thread.cc and dpdk_worker_thread_utils.inc, built with
-- TIMEOUTS: the packets of a job slice. A packet is what its headers say; byte orders and the checksums
-- that the network card computes are left out, and all packets given to DPDK are sent. The bitmap of
-- DPDK has `bitmap_bits` bits; what is beyond them is undefined. The context keeps running.
pub mod Slots
pub mod Once
pub mod Resend
mod Tests
use p4app_switch_ml.Prelude.{
  ℕ, zero, suc, ◌+◌, ◌-◌, ◌*◌, ◌/◌, ◌%◌, ◌^◌, Bool, true, false, not, ltb, leb, ◌==◌, if◌then◌else◌,
  List, [], ◌∷◌, length, update, min, u16_mod, u32_mod, u64_mod,
}
use p4app_switch_ml.Outcome.{Outcome, ok, crash, undefined, ◌>>=◌}

unfoldable pub pkt_id_2_pool_index : ℕ → ℕ → ℕ → ℕ → ℕ
pkt_id_2_pool_index pkt_id start shift max =
    let i = (pkt_id + shift) % u64_mod % (2 * max % u32_mod) in
    if ltb i max then (start + i) % u16_mod else (start + (i - max)) % 2 ^ 15 + 2 ^ 15

pub record E2eAddress : Type 0 where
  pub mac : ℕ
  pub ip : ℕ
  pub port : ℕ

-- The entries and the extra info, which the prepostprocessor fills.
abbrev pub Payload : Type 0
Payload = List ℕ

pub record Packet : Type 0 where
  pub s_addr : ℕ
  pub d_addr : ℕ
  pub version_ihl : ℕ
  pub total_length : ℕ
  pub time_to_live : ℕ
  pub src_addr : ℕ
  pub dst_addr : ℕ
  pub src_port : ℕ
  pub dst_port : ℕ
  pub dgram_len : ℕ
  pub pkt_id : ℕ
  pub switch_pool_index : ℕ
  pub job_type_size : ℕ
  pub short_job_id : ℕ
  pub payload : Payload

unfoldable pub pkt_len_enum : ℕ → ℕ
pkt_len_enum packet_numel =
    if ltb packet_numel 64
    then 0
    else (if ltb packet_numel 128 then 1 else (if ltb packet_numel 256 then 2 else 3))

-- What a job slice fixes, with the prepostprocessor's `PreprocessSingle`.
pub record Job : Type 0 where
  pub job_id : ℕ
  pub packet_numel : ℕ
  pub max_outstanding_pkts : ℕ
  pub batch_num_pkts : ℕ
  pub total_num_pkts : ℕ
  pub switch_pool_index_start : ℕ
  pub switch_pool_index_shift : ℕ
  pub switch_addr : E2eAddress
  pub worker_addr : E2eAddress
  pub bitmap_bits : ℕ
  pub preprocess : ℕ → Payload → Payload

-- `data_len` with headers of 14, 20, 8 and 8 bytes, elements of 4, and 2 bytes of extra info.
unfoldable pub data_len : ℕ → ℕ
data_len packet_numel = (14 + 20 + 8 + 8 + packet_numel * 4 + 2) % u16_mod

unfoldable pub build_packet : Job → ℕ → ℕ → Payload → Packet
unfolding pkt_len_enum data_len
build_packet job pkt_id pool_index old = record {
  s_addr = job.worker_addr.mac;
  d_addr = job.switch_addr.mac;
  version_ihl = 69;
  total_length = (data_len job.packet_numel + u16_mod - 14) % u16_mod;
  time_to_live = 128;
  src_addr = job.worker_addr.ip;
  dst_addr = job.switch_addr.ip;
  src_port = job.worker_addr.port;
  dst_port = job.switch_addr.port;
  dgram_len = (data_len job.packet_numel + u16_mod - 34) % u16_mod;
  pkt_id = pkt_id % u32_mod;
  switch_pool_index = pool_index;
  job_type_size = 16 + pkt_len_enum job.packet_numel;
  short_job_id = job.job_id % 256;
  payload = job.preprocess (pkt_id % u32_mod) old;
}

unfoldable pub reuse_packet : Job → Packet → ℕ → ℕ → Packet
reuse_packet job p pkt_id pool_index = record p {
  s_addr = job.worker_addr.mac;
  d_addr = job.switch_addr.mac;
  src_addr = job.worker_addr.ip;
  dst_addr = job.switch_addr.ip;
  src_port = job.worker_addr.port;
  dst_port = job.switch_addr.port;
  pkt_id = pkt_id;
  switch_pool_index = pool_index;
  payload = job.preprocess pkt_id p.payload;
}

-- A retransmission timer with `ResendPacketCallbackArgs`.
pub record Timer : Type 0 where
  pub running : Bool
  pub timer_job_id : ℕ
  pub timer_pool_index : ℕ
  pub timer_pkt_id : ℕ

pub record Transfer : Type 0 where
  pub received : ℕ → Bool
  pub num_received_pkts : ℕ
  pub timers : ℕ → Timer
  -- The packets sent and the calls of `PostprocessSingle`, the latest first.
  pub sent : List Packet
  pub posts : List (ℕ × Payload)
  pub stats_correct : ℕ
  pub stats_wrong : ℕ

unfoldable pub pool_index_of : Job → ℕ → ℕ
unfolding pkt_id_2_pool_index
pool_index_of job pkt_id =
    pkt_id_2_pool_index pkt_id job.switch_pool_index_start job.switch_pool_index_shift
      job.max_outstanding_pkts

-- The arguments of a timer, and its start.
unfoldable pub start_timer : Job → (ℕ → Timer) → ℕ → ℕ → ℕ → ℕ → Timer
start_timer job timers i pkt_id pool_index = update timers i (record {
  running = true;
  timer_job_id = job.job_id;
  timer_pool_index = pool_index;
  timer_pkt_id = pkt_id % u32_mod;
})

unfoldable pub stop_timer : (ℕ → Timer) → ℕ → ℕ → Timer
stop_timer timers i = update timers i (record (timers i) { running = false })

-- The first batch, `left` packets of it from `pkt_id` on: the timer is set after `pkt_id++`.
unfoldable pub first_batch : Job → ℕ → ℕ → Transfer → Transfer
unfolding build_packet pool_index_of start_timer
first_batch job zero pkt_id t = t
first_batch job (suc left) pkt_id t =
    let pool_index = pool_index_of job pkt_id in
    let next = (pkt_id + 1) % u64_mod in
    first_batch job left next (record t {
      sent = build_packet job pkt_id pool_index [] ∷ t.sent;
      timers = start_timer job t.timers (next % job.max_outstanding_pkts % u16_mod) next pool_index;
    })

-- The packet that reuses the buffer, where there is one.
unfoldable pub send_next : Job → Packet → Transfer → Transfer
unfolding reuse_packet pool_index_of start_timer stop_timer
send_next job p t =
    let next = (p.pkt_id + job.batch_num_pkts) % u32_mod in
    let i = next % job.max_outstanding_pkts in
    let timers = stop_timer t.timers i in
    if leb job.total_num_pkts next then record t { timers = timers } else record t {
      sent = reuse_packet job p next (pool_index_of job next) ∷ t.sent;
      timers = start_timer job timers i next (pool_index_of job next);
    }

unfoldable pub discard : Transfer → Transfer
discard t = record t { stats_wrong = t.stats_wrong + 1 }

unfoldable pub accept : Packet → Transfer → Transfer
accept p t = record t {
  posts = (p.pkt_id, p.payload) ∷ t.posts;
  num_received_pkts = (t.num_received_pkts + 1) % u32_mod;
  received = update t.received p.pkt_id true;
  stats_correct = t.stats_correct + 1;
}

-- One iteration over the received packets: a bit of the bitmap, then the job, then the acceptance.
unfoldable pub receive_packet : Job → Packet → Transfer → Outcome Transfer
unfolding send_next accept discard
receive_packet job p t =
    if ltb p.pkt_id job.bitmap_bits
    then (if t.received p.pkt_id
        then ok (discard t)
        else (if p.short_job_id == job.job_id % 256
            then ok (send_next job p (accept p t))
            else ok (discard t)))
    else crash undefined

unfoldable pub receive_burst : Job → List Packet → Transfer → Outcome Transfer
unfolding receive_packet
receive_burst job [] t = ok t
receive_burst job (p ∷ ps) t = receive_packet job p t >>= λ t'. receive_burst job ps t'

-- The receive and send loop, for the bursts that the network delivers.
unfoldable pub receive_loop : Job → List (List Packet) → Transfer → Outcome Transfer
unfolding receive_burst
receive_loop job [] t = ok t
receive_loop job (b ∷ bs) t =
    if ltb t.num_received_pkts job.total_num_pkts
    then (receive_burst job b t >>= λ t'. receive_loop job bs t')
    else ok t

unfoldable pub new_transfer : (ℕ → Timer) → Transfer
new_transfer timers = record {
  received = λ id. false;
  num_received_pkts = 0;
  timers = timers;
  sent = [];
  posts = [];
  stats_correct = 0;
  stats_wrong = 0;
}

-- A job slice: the first batch, then the loop.
unfoldable pub transfer : Job → (ℕ → Timer) → List (List Packet) → Outcome Transfer
unfolding first_batch receive_loop new_transfer
transfer job timers bursts =
    receive_loop job bursts (first_batch job job.batch_num_pkts 0 (new_transfer timers))

-- `switch_pool_index_shift` for the next job.
unfoldable pub next_shift : Job → ℕ
next_shift job =
    (job.switch_pool_index_shift + job.total_num_pkts) % u64_mod % (2 * job.max_outstanding_pkts)
