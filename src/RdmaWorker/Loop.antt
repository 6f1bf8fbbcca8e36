-- ===== src/RdmaWorker/Loop.antt =====
-- dev_root/client_lib/src/backends/rdma/rdma_worker_thread.cc: the work requests at the start of a worker
-- thread, and how it moves the messages of one job slice. What each poll of the completion queue gives,
-- when, and whether the context still runs, is a list of polls; the model ends where the list does.
use p4app_switch_ml.Prelude.{
  ℕ, zero, suc, ◌+◌, ◌*◌, ◌%◌, ◌^◌, min, Bool, true, false, not, ltb, ◌&&◌, if◌then◌else◌, Option,
  none, some, List, [], ◌∷◌, update, u16_mod, u64_mod,
}
use p4app_switch_ml.Outcome.{Outcome, ok, fatal, crash_if, ◌>>=◌, ◌>>◌}
use p4app_switch_ml.Config.{Config}
use p4app_switch_ml.RdmaConnection.{max_outstanding_msgs, packets_per_message, pool_index}
use p4app_switch_ml.TimeoutQueue.{check}
use p4app_switch_ml.Stats.{
  Stats, add_correct_pkts_received, add_total_pkts_sent, add_wrong_pkts_received, add_timeouts,
}
use p4app_switch_ml.RdmaWorker.{
  Request, Worker, Slice, Completion, post_recv_wr, post_send_wr, process_completion,
}

-- The id of the work requests of a queue pair.
unfoldable pub work_request_id : ℕ → ℕ → ℕ
work_request_id tid qpn = tid % 2 ^ 16 * 2 ^ 16 + qpn

-- What the initialisation leaves in the send request of a queue pair.
unfoldable pub initial_request : Config → ℕ → ℕ → ℕ → Request
initial_request c qps tid qpn = record {
  rkey = pool_index c qps tid qpn;
  imm_data = 0;
  extra_info = 0;
  addr = 0;
  remote_addr = 0;
  signaled = false;
}

-- How many messages a slice of `main` messages takes, and how many of them make a batch.
unfoldable pub new_slice : Config → ℕ → ℕ → ℕ → Bool → Slice
new_slice c registered_buffer_ptr msg_size main extra_batch =
    let batch = min (max_outstanding_msgs c) main in
    record {
      registered_buffer_ptr = registered_buffer_ptr;
      msg_size = msg_size;
      num_pkts_per_msg = packets_per_message c;
      batch_num_msgs = batch;
      total_num_msgs = if extra_batch then (main + batch) % u64_mod else main;
    }

-- `msg_ids_[qpn] = qpn` for the first `n` queue pairs.
unfoldable pub reset_ids : ℕ → (ℕ → ℕ) → ℕ → ℕ
reset_ids zero ids = ids
reset_ids (suc n) ids = update (reset_ids n ids) n n

-- The state before the first batch of a slice: the statistics of the slice start at 0, and so do the
-- lists of the calls that the model keeps.
unfoldable pub start_slice : Slice → Worker → Worker
unfolding reset_ids
start_slice s w = record w {
  msg_ids = reset_ids s.batch_num_msgs w.msg_ids;
  preprocessed = [];
  postprocessed = [];
  accepted = [];
  posted_sends = [];
  wrong_pkts_received = 0;
  total_pkts_sent = 0;
}

-- The loop over the first batch, with `left` queue pairs to go from `qpn` on. `qpn` has 16 bits: a thread
-- has fewer than 2 ^ 16 queue pairs.
unfoldable pub send_first_batch : Slice → (ℕ → ℕ) → (ℕ → ℕ) → ℕ → ℕ → Worker → Outcome Worker
unfolding post_send_wr post_recv_wr
send_first_batch s preprocess clock zero qpn w = ok w
send_first_batch s preprocess clock (suc left) qpn w = do
  w' ← post_send_wr s preprocess (post_recv_wr w qpn) qpn false (clock qpn)
  send_first_batch s preprocess clock left (qpn + 1) w'

-- The variables of the loop that are not of the worker thread.
pub record LoopState : Type 0 where
  pub worker : Worker
  pub num_received_msgs : ℕ
  pub correct_pkts_received : ℕ
  pub timeouts : ℕ

-- A round of the loop: whether the context runs, what the completion queue gives (nothing where polling
-- fails) with the time at which each is handled, and the times of the check and of the retransmission.
pub record Poll : Type 0 where
  pub running : Bool
  pub polled : Bool
  pub completions : List (Completion × ℕ)
  pub checked_at : ℕ
  pub resent_at : ℕ

unfoldable pub process_completions :
    Slice → (ℕ → ℕ) → List (Completion × ℕ) → Worker → Outcome Worker
unfolding process_completion
process_completions s preprocess [] w = ok w
process_completions s preprocess ((c, now) ∷ cs) w = do
  w' ← process_completion s preprocess w c now
  process_completions s preprocess cs w'

-- The retransmission of the entry that timed out, if there is one.
unfoldable pub resend : Slice → (ℕ → ℕ) → Option ℕ → ℕ → LoopState → Outcome LoopState
unfolding post_send_wr
resend s preprocess none now p = ok p
resend s preprocess (some qpn) now p = do
  w ← post_send_wr s preprocess p.worker (qpn % u16_mod) true now
  ok (record p {
    worker = record w { total_pkts_sent = (w.total_pkts_sent + s.num_pkts_per_msg) % u64_mod };
    timeouts = (p.timeouts + s.num_pkts_per_msg) % u64_mod;
  })

unfoldable pub check_timeouts : Slice → (ℕ → ℕ) → Poll → LoopState → Outcome LoopState
unfolding resend
check_timeouts s preprocess poll p =
    let (expired, queue) = check p.worker.timeouts_queue poll.checked_at in
    resend s preprocess expired poll.resent_at
      (record p { worker = record p.worker { timeouts_queue = queue } })

-- The counters after the completions of a round.
unfoldable pub count_round : Slice → LoopState → Worker → LoopState
count_round s p w = record p {
  worker = w;
  num_received_msgs = (p.num_received_msgs + w.iteration_num_received_msgs) % u64_mod;
  correct_pkts_received =
      (p.correct_pkts_received + s.num_pkts_per_msg * w.iteration_num_received_msgs) % u64_mod;
}

unfoldable pub round : Slice → (ℕ → ℕ) → Poll → LoopState → Outcome LoopState
unfolding process_completions check_timeouts count_round
round s preprocess poll p = do
  crash_if (not poll.polled) fatal
  w ←
      process_completions s preprocess poll.completions
        (record p.worker { iteration_num_received_msgs = 0 })
  check_timeouts s preprocess poll (count_round s p w)

unfoldable pub receive_loop : Slice → (ℕ → ℕ) → List Poll → LoopState → Outcome LoopState
unfolding round
receive_loop s preprocess [] p = ok p
receive_loop s preprocess (poll ∷ polls) p =
    let rest = round s preprocess poll p >>= λ p'. receive_loop s preprocess polls p' in
    if ltb p.num_received_msgs s.total_num_msgs && poll.running then rest else ok p

-- A slice, from the reset of the ids to the end of the loop.
unfoldable pub transfer : Slice → (ℕ → ℕ) → (ℕ → ℕ) → List Poll → Worker → Outcome LoopState
unfolding start_slice send_first_batch receive_loop
transfer s preprocess clock polls w = do
  w1 ← send_first_batch s preprocess clock s.batch_num_msgs 0 (start_slice s w)
  receive_loop s preprocess polls (record {
    worker = record w1 {
      total_pkts_sent = (w1.total_pkts_sent + s.num_pkts_per_msg * s.batch_num_msgs) % u64_mod;
    };
    num_received_msgs = 0;
    correct_pkts_received = 0;
    timeouts = 0;
  })

-- What is added to the statistics of the context after the loop.
unfoldable pub report_slice : Stats → ℕ → LoopState → Outcome Stats
report_slice stats tid p = do
  s1 ← add_correct_pkts_received stats tid p.correct_pkts_received
  s2 ← add_total_pkts_sent s1 tid p.worker.total_pkts_sent
  s3 ← add_wrong_pkts_received s2 tid p.worker.wrong_pkts_received
  add_timeouts s3 tid p.timeouts
