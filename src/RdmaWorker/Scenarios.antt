-- ===== src/RdmaWorker/Scenarios.antt =====
-- Runs of a worker thread with two queue pairs on a slice of three messages, one of which arrives twice.
use p4app_switch_ml.Prelude.{
  ℕ, ◌+◌, ◌*◌, ◌≤◌, ◌<◌, ◌≡◌, refl, inr, true, false, List, [], ◌∷◌, length, count, arith,
}
use p4app_switch_ml.Outcome.{Outcome, ok, crash}
use p4app_switch_ml.TimeoutQueue.{
  new_queue, new_entry, push, link_front, remove, unlink, check, count_timeout,
}
use p4app_switch_ml.TimeoutQueue.Represents.{Represents, new_queue-Represents}
use p4app_switch_ml.RdmaWorker.{Worker, Request, Slice, Completion, recv_rdma_with_imm}
use p4app_switch_ml.RdmaWorker.Loop.{LoopState, Poll, round, transfer}
use p4app_switch_ml.RdmaWorker.Exact.{IsShort}
use p4app_switch_ml.RdmaWorker.Rounds.{Steady, Arrives}
use p4app_switch_ml.RdmaWorker.Delivery.{messages_once, messages_complete}
use p4app_switch_ml.RdmaWorker.Logs.{sent_as}
use p4app_switch_ml.RdmaWorker.Resends.{quiet, resends_missing}

abbrev slice : Slice
slice = record {
  registered_buffer_ptr = 65536;
  msg_size = 3072;
  num_pkts_per_msg = 3;
  batch_num_msgs = 2;
  total_num_msgs = 3;
}

abbrev worker : Worker
worker = record {
  send_wrs = λ qpn. record {
    rkey = 1;
    imm_data = 0;
    extra_info = 0;
    addr = 0;
    remote_addr = 0;
    signaled = false;
  };
  msg_ids = λ qpn. 0;
  write_posted_count_per_qp = λ qpn. 0;
  timeouts_queue = new_queue 2 10 100 100;
  posted_sends = [];
  posted_recvs = [];
  preprocessed = [];
  postprocessed = [];
  accepted = [];
  wrong_pkts_received = 0;
  total_pkts_sent = 0;
  iteration_num_received_msgs = 0;
}

abbrev message : ℕ → ℕ → Completion
message qpn id = record {
  success = true;
  opcode = recv_rdma_with_imm;
  with_imm = true;
  wr_id = 65536 + qpn;
  imm_data = id;
}

abbrev poll : List (Completion × ℕ) → ℕ → Poll
poll cs at = record {
  running = true;
  polled = true;
  completions = cs;
  checked_at = at;
  resent_at = at;
}

abbrev first_polls : List Poll
first_polls = poll ((message 0 0, 20) ∷ []) 30 ∷ poll ((message 0 0, 40) ∷ []) 50 ∷ []

abbrev all_polls : List Poll
all_polls =
    poll ((message 0 0, 20) ∷ []) 30
    ∷ poll ((message 0 0, 40) ∷ (message 1 1, 41) ∷ (message 0 2, 42) ∷ []) 50
    ∷ []

abbrev value : Outcome LoopState → LoopState
value (ok p) = p
value (crash why) = record {
  worker = worker;
  num_received_msgs = 0;
  correct_pkts_received = 0;
  timeouts = 0;
}

half : LoopState
unfolding transfer check count_timeout push remove unlink link_front new_queue new_entry
half = value (transfer slice (λ id. 0) (λ k. k) first_polls worker)

whole : LoopState
unfolding transfer check count_timeout push remove unlink link_front new_queue new_entry
whole = value (transfer slice (λ id. 0) (λ k. k) all_polls worker)

half_made : transfer slice (λ id. 0) (λ k. k) first_polls worker ≡ ok half
unfolding half transfer check count_timeout push remove unlink link_front new_queue new_entry
half_made = refl

whole_made : transfer slice (λ id. 0) (λ k. k) all_polls worker ≡ ok whole
unfolding whole transfer check count_timeout push remove unlink link_front new_queue new_entry
whole_made = refl

whole_all : 3 ≤ whole.num_received_msgs
unfolding whole transfer check count_timeout push remove unlink link_front new_queue new_entry
whole_all = omega arith

half_few : half.num_received_msgs < 3
unfolding half transfer check count_timeout push remove unlink link_front new_queue new_entry
half_few = omega arith

half_late : 50 + (half.worker.timeouts_queue.timeout + 1) * 1_000_000 ≤ 90_000_000
unfolding half transfer check count_timeout push remove unlink link_front new_queue new_entry
half_late = omega arith

slice-IsShort : IsShort slice
slice-IsShort = record { some = omega arith; batch = omega arith; narrow = omega arith }

room : 2 ≤ worker.timeouts_queue.num_entries
unfolding new_queue
room = omega arith

arrives : (qpn id : ℕ) → qpn < 2 → id < 3 → Arrives slice (message qpn id)
arrives qpn id pair low = (refl, inr (refl, refl, omega arith, omega arith))

first_polls-Steady : Steady slice 2 first_polls
first_polls-Steady = (
  refl,
  (omega arith, arrives 0 0 (omega arith) (omega arith), omega arith),
  (refl, (omega arith, arrives 0 0 (omega arith) (omega arith), omega arith), tt),
)

all_polls-Steady : Steady slice 2 all_polls
all_polls-Steady = (
  refl,
  (omega arith, arrives 0 0 (omega arith) (omega arith), omega arith),
  (
    refl,
    (
      omega arith,
      arrives 0 0 (omega arith) (omega arith),
      (
        omega arith,
        arrives 1 1 (omega arith) (omega arith),
        (omega arith, arrives 0 2 (omega arith) (omega arith), omega arith),
      ),
    ),
    tt,
  ),
)

messages_once_example :
    (p : LoopState) × (transfer slice (λ id. 0) (λ k. k) first_polls worker ≡ ok p)
    × ((m : ℕ) → count m p.worker.postprocessed ≤ 1)
    × (p.num_received_msgs ≡ length p.worker.postprocessed)
    × (p.worker.accepted ≡ p.worker.postprocessed)
messages_once_example =
    messages_once slice (λ id. 0) (λ k. k) first_polls worker slice-IsShort
      (new_queue-Represents 2 10 100 100) room (λ k. omega arith) first_polls-Steady

messages_complete_example :
    (count 2 whole.worker.preprocessed ≡ 1)
    × (sent_as slice 2 whole.worker.posted_sends ≡ true)
    × (count 2 whole.worker.accepted ≡ 1)
    × (count 2 whole.worker.postprocessed ≡ 1)
    × Represents whole.worker.timeouts_queue []
messages_complete_example =
    messages_complete slice (λ id. 0) (λ k. k) all_polls worker slice-IsShort
      (new_queue-Represents 2 10 100 100) room (λ k. omega arith) all_polls-Steady 2 whole_made
      whole_all (omega arith)

resends_missing_example :
    (q : ℕ) × (r : Request) × (p' : LoopState) × (round slice
        (λ id. 0)
        (quiet 90_000_000 90_000_005)
        half
      ≡ ok p')
    × (p'.worker.posted_sends ≡ (q, r) ∷ half.worker.posted_sends)
    × (r.imm_data ≡ half.worker.msg_ids q)
    × (count (half.worker.msg_ids q) half.worker.postprocessed ≡ 0)
    × (count (half.worker.msg_ids q) half.worker.preprocessed ≡ 1)
resends_missing_example =
    resends_missing slice (λ id. 0) (λ k. k) first_polls worker slice-IsShort
      (new_queue-Represents 2 10 100 100) room (λ k. omega arith) first_polls-Steady 90_000_000
      90_000_005 half_made half_few half_late (omega arith)
