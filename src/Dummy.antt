-- ===== src/Dummy.antt =====
-- dev_root/client_lib/src/backends/dummy/dummy_backend.{h,cc} and dummy_worker_thread.cc: how a worker
-- thread of the dummy backend moves the packets of one job slice. The prepostprocessor and
-- ProcessPacket change buffers only: the model keeps the calls of them in order, newest first.
-- `std::rand` is a parameter, the k-th number that it gives.
pub mod Entries
pub mod Chains
pub mod Bursts
pub mod Answers
pub mod Totals
pub mod Delivery
pub mod Rounds
pub mod Loop
pub mod Ends
pub mod Setup
mod Tests
use p4app_switch_ml.Prelude.{
  ℕ, zero, suc, ◌+◌, ◌*◌, ◌/◌, ◌%◌, min, Bool, true, false, not, ltb, ◌==◌, if◌then◌else◌, List, [],
  ◌∷◌, ◌++◌, length, get_elem?, Option, none, some, u64_mod,
}
use p4app_switch_ml.Outcome.{
  Outcome, ok, crash, fatal, out_of_range, undefined, crash_if, ◌>>=◌, ◌>>◌,
}
use p4app_switch_ml.Common.{DataType, data_type_size}

pub record DummyPacket : Type 0 where
  pub pkt_id : ℕ
  pub job_id : ℕ
  pub numel : ℕ
  pub data_type : DataType
  pub entries_ptr : ℕ
  pub extra_info_ptr : ℕ

-- A call that changes buffers: PreprocessSingle, PostprocessSingle with the id and the two pointers
-- of the packet, and ProcessPacket.
pub data Call : Type 0 where
  preprocess : ℕ → ℕ → ℕ → Call
  postprocess : ℕ → ℕ → ℕ → Call
  process : DummyPacket → Call

-- What the worker thread has computed before it sends the first packet of a slice.
pub record Slice : Type 0 where
  pub job_id : ℕ
  pub packet_numel : ℕ
  pub data_type : DataType
  pub outstanding_entries : ℕ
  pub outstanding_extra_info : ℕ
  pub batch_num_pkts : ℕ
  pub total_num_pkts : ℕ
  pub process_packets : Bool

-- `total` is what SetupJobSlice returns, `extra` what NeedsExtraBatch does.
unfoldable pub batch_num : ℕ → ℕ → ℕ → ℕ
batch_num max_outstanding_packets num_worker_threads total =
    min (max_outstanding_packets / num_worker_threads) total

unfoldable pub total_num : ℕ → ℕ → Bool → ℕ
total_num total batch extra = if extra then (total + batch) % u64_mod else total

-- The buffers of a packet: those of its slot, `pkt_id % batch_num_pkts`.
unfoldable pub entries_at : Slice → DataType → ℕ → ℕ
entries_at s type id =
    (s.outstanding_entries + id % s.batch_num_pkts * data_type_size type * s.packet_numel) % u64_mod

unfoldable pub extra_info_at : Slice → ℕ → ℕ
extra_info_at s id = (s.outstanding_extra_info + id % s.batch_num_pkts * 2) % u64_mod

unfoldable pub new_packet : Slice → ℕ → DummyPacket
new_packet s id = record {
  pkt_id = id;
  job_id = s.job_id;
  numel = s.packet_numel;
  data_type = s.data_type;
  entries_ptr = entries_at s s.data_type id;
  extra_info_ptr = extra_info_at s id;
}

-- `backend.pending_packets_` of the thread, the calls made, how many numbers were drawn, and what the
-- thread counts: `num_packets_received`, and its statistics of packets sent and correctly received.
pub record Transfer : Type 0 where
  pub pending : List DummyPacket
  pub calls : List Call
  pub draws : ℕ
  pub num_packets_received : ℕ
  pub total_pkts_sent : ℕ
  pub correct_pkts_received : ℕ

-- The first batch: packets 0 to n - 1.
unfoldable pub first_batch_pkts : Slice → ℕ → List DummyPacket
first_batch_pkts s zero = []
first_batch_pkts s (suc n) = first_batch_pkts s n ++ (new_packet s n ∷ [])

abbrev pub preprocess_packet : DummyPacket → List Call → List Call
preprocess_packet p calls = preprocess p.pkt_id p.entries_ptr p.extra_info_ptr ∷ calls

unfoldable pub first_batch_calls : Slice → ℕ → List Call → List Call
first_batch_calls s zero calls = calls
first_batch_calls s (suc n) calls = preprocess_packet (new_packet s n) (first_batch_calls s n calls)

unfoldable pub send_burst : List DummyPacket → Transfer → Outcome Transfer
send_burst pkts t = do
  crash_if (length pkts == 0) fatal
  ok (record t { pending = t.pending ++ pkts; total_pkts_sent = t.total_pkts_sent + length pkts })

unfoldable pub send_first_batch : Slice → Transfer → Outcome Transfer
unfolding first_batch_calls first_batch_pkts send_burst
send_first_batch s t =
    send_burst (first_batch_pkts s s.batch_num_pkts)
      (record t { calls = first_batch_calls s s.batch_num_pkts t.calls; num_packets_received = 0 })

abbrev pub erase {ℓ} : {A : Type ℓ} → List A → ℕ → List A
erase [] i = []
erase (x ∷ xs) zero = xs
erase (x ∷ xs) (suc i) = x ∷ erase xs i

-- What ReceiveBurst has done so far.
pub record Burst : Type 0 where
  pub pending : List DummyPacket
  pub packets_received : List DummyPacket
  pub calls : List Call
  pub draws : ℕ

abbrev pub process_packet : Bool → DummyPacket → List Call → List Call
process_packet process_packets p calls = if process_packets then process p ∷ calls else calls

take_packet : Bool → Burst → ℕ → Option DummyPacket → Outcome Burst
take_packet process_packets b i none = crash out_of_range
take_packet process_packets b i (some p) = ok (record b {
  pending = erase b.pending i;
  packets_received = b.packets_received ++ (p ∷ []);
  calls = process_packet process_packets p b.calls;
})

-- One round of the loop of ReceiveBurst.
unfoldable pub receive_one : (ℕ → ℕ) → Bool → Burst → Outcome Burst
unfolding take_packet
receive_one rand process_packets b =
    let size = length b.pending in
    let i = rand b.draws % size in
    do
      crash_if (size == 0) undefined
      take_packet process_packets (record b { draws = b.draws + 1 }) i (get_elem? b.pending i)

unfoldable pub receive_all : (ℕ → ℕ) → Bool → ℕ → Burst → Outcome Burst
receive_all rand process_packets zero b = ok b
receive_all rand process_packets (suc num_receives) b =
    receive_one rand process_packets b >>= receive_all rand process_packets num_receives

unfoldable pub receive_burst : (ℕ → ℕ) → Bool → Transfer → Outcome Burst
unfolding receive_all
receive_burst rand process_packets t =
    let size = length t.pending in
    do
      crash_if (size == 0) fatal
      receive_all rand process_packets (rand t.draws % (size + 1)) (record {
        pending = t.pending;
        packets_received = [];
        calls = t.calls;
        draws = t.draws + 1;
      })

-- The packet that reuses the slot of a received one.
unfoldable pub next_packet : Slice → DummyPacket → DummyPacket
next_packet s p =
    let id = (p.pkt_id + s.batch_num_pkts) % u64_mod in
    record p {
      pkt_id = id;
      entries_ptr = entries_at s p.data_type id;
      extra_info_ptr = extra_info_at s id;
    }

-- The received packets in turn: the packets to send for them, and the calls.
unfoldable pub answer_packets : Slice → List DummyPacket → List Call → List DummyPacket × List Call
answer_packets s [] calls = ([], calls)
answer_packets s (p ∷ ps) calls =
    let next = next_packet s p in
    let done = postprocess p.pkt_id p.entries_ptr p.extra_info_ptr ∷ calls in
    let last = answer_packets s ps done in
    let more = answer_packets s ps (preprocess_packet next done) in
    if ltb next.pkt_id s.total_num_pkts then (next ∷ more.0, more.1) else last

-- The end of a round: send, unless there is nothing to send.
unfoldable pub send_next : List DummyPacket → Transfer → Outcome Transfer
unfolding send_burst
send_next packets_to_send t =
    if length packets_to_send == 0 then ok t else send_burst packets_to_send t

-- One round of the receive and send loop.
unfoldable pub iterate : Slice → (ℕ → ℕ) → Transfer → Outcome Transfer
unfolding receive_burst answer_packets send_next
iterate s rand t = do
  b ← receive_burst rand s.process_packets t
  let received = length b.packets_received
  let (packets_to_send, calls) = answer_packets s b.packets_received b.calls
  let t1 = record t { pending = b.pending; calls = b.calls; draws = b.draws }
  let t2 = record t1 {
    calls = calls;
    correct_pkts_received = t.correct_pkts_received + received;
    num_packets_received = t.num_packets_received + received;
  }
  if received == 0 then ok t1 else send_next packets_to_send t2

-- The loop, for as many rounds as the context stays in the running state, at most.
unfoldable pub transfer : Slice → (ℕ → ℕ) → ℕ → Transfer → Outcome Transfer
unfolding iterate
transfer s rand zero t = ok t
transfer s rand (suc rounds) t =
    let rest = iterate s rand t >>= transfer s rand rounds in
    if t.num_packets_received == s.total_num_pkts then ok t else rest
