-- ===== src/RdmaWorker.antt =====
-- dev_root/client_lib/src/backends/rdma/rdma_worker_thread.cc: the posting of requests and the handling of
-- completions, compiled with timeouts. What the prepostprocessor writes as extra information about a
-- message is a parameter, and its calls are kept, newest first, as are the requests handed to ibverbs and
-- the low halves of the immediate values of the messages that were accepted.
pub mod Loop
pub mod Waiting
pub mod Exact
pub mod Logs
pub mod Steps
pub mod Rounds
pub mod Complete
pub mod Delivery
pub mod Resends
pub mod Messages
mod Tests
mod Scenarios
use p4app_switch_ml.Prelude.{
  ℕ, ◌+◌, ◌-◌, ◌*◌, ◌%◌, ◌^◌, Bool, true, false, not, ltb, ◌==◌, if◌then◌else◌, List, [], ◌∷◌,
  update, u16_mod, u32_mod, u64_mod,
}
use p4app_switch_ml.Outcome.{Outcome, ok, fatal, crash_if, crash, ◌>>=◌, ◌>>◌}
use p4app_switch_ml.TimeoutQueue.{TimeoutQueue, push, remove}

-- What changes in a send request, with its scatter-gather element: `imm_data` is the low half of the
-- immediate value, `extra_info` the high half.
pub record Request : Type 0 where
  pub rkey : ℕ
  pub imm_data : ℕ
  pub extra_info : ℕ
  pub addr : ℕ
  pub remote_addr : ℕ
  pub signaled : Bool

pub record Worker : Type 0 where
  pub send_wrs : ℕ → Request
  pub msg_ids : ℕ → ℕ
  pub write_posted_count_per_qp : ℕ → ℕ
  pub timeouts_queue : TimeoutQueue
  pub posted_sends : List (ℕ × Request)
  pub posted_recvs : List ℕ
  pub preprocessed : List ℕ
  pub postprocessed : List ℕ
  pub accepted : List ℕ
  pub wrong_pkts_received : ℕ
  pub total_pkts_sent : ℕ
  pub iteration_num_received_msgs : ℕ

-- What stays the same during a job slice.
pub record Slice : Type 0 where
  pub registered_buffer_ptr : ℕ
  pub msg_size : ℕ
  pub num_pkts_per_msg : ℕ
  pub batch_num_msgs : ℕ
  pub total_num_msgs : ℕ

-- `rkey ^= 1`.
unfoldable pub flip_pool_bit : ℕ → ℕ
flip_pool_bit rkey = if rkey % 2 == 0 then rkey + 1 else rkey - 1

unfoldable pub message_at : Slice → ℕ → ℕ
message_at s qpn = (s.registered_buffer_ptr + qpn * s.msg_size) % u64_mod

unfoldable pub post_recv_wr : Worker → ℕ → Worker
post_recv_wr w qpn = record w { posted_recvs = qpn ∷ w.posted_recvs }

-- The request that PostSendWr hands over.
unfoldable pub next_request : Slice → (ℕ → ℕ) → Worker → ℕ → Bool → Request
unfolding flip_pool_bit message_at
next_request s preprocess w qpn is_retransmission =
    let message_start = message_at s qpn in
    let again = record (w.send_wrs qpn) {
      addr = message_start;
      signaled = w.write_posted_count_per_qp qpn % 1024 == 0;
    } in
    let new = record again {
      rkey = flip_pool_bit again.rkey;
      remote_addr = message_start;
      imm_data = w.msg_ids qpn % u16_mod;
      extra_info = preprocess (w.msg_ids qpn);
    } in
    if is_retransmission then again else new

unfoldable pub post_send_wr : Slice → (ℕ → ℕ) → Worker → ℕ → Bool → ℕ → Outcome Worker
unfolding next_request
post_send_wr s preprocess w qpn is_retransmission now =
    let request = next_request s preprocess w qpn is_retransmission in
    do
      timeouts ← push w.timeouts_queue qpn now
      ok (record w {
        send_wrs = update w.send_wrs qpn request;
        preprocessed = if is_retransmission then w.preprocessed else w.msg_ids qpn ∷ w.preprocessed;
        posted_sends = (qpn, request) ∷ w.posted_sends;
        timeouts_queue = timeouts;
        write_posted_count_per_qp =
            update w.write_posted_count_per_qp qpn
              ((w.write_posted_count_per_qp qpn + 1) % u32_mod);
      })

pub data Opcode : Type 0 where
  recv_rdma_with_imm rdma_write other : Opcode

-- A completion: whether its status is IBV_WC_SUCCESS, and whether it has an immediate value.
pub record Completion : Type 0 where
  pub success : Bool
  pub opcode : Opcode
  pub with_imm : Bool
  pub wr_id : ℕ
  pub imm_data : ℕ

-- A message that is not the one expected.
unfoldable pub drop_message : Slice → Worker → ℕ → Worker
unfolding post_recv_wr
drop_message s w qpn =
    let w1 = post_recv_wr w qpn in
    record w1 { wrong_pkts_received = (w.wrong_pkts_received + s.num_pkts_per_msg) % u64_mod }

-- The one expected, by the id that its immediate value has.
unfoldable pub take_message : Slice → (ℕ → ℕ) → Worker → ℕ → ℕ → ℕ → Outcome Worker
unfolding post_send_wr post_recv_wr
take_message s preprocess w qpn short_id now =
    let next_id = (w.msg_ids qpn + s.batch_num_msgs) % u64_mod in
    do
      timeouts ← remove w.timeouts_queue qpn
      let w1 = record w {
        postprocessed = w.msg_ids qpn ∷ w.postprocessed;
        accepted = short_id ∷ w.accepted;
        msg_ids = update w.msg_ids qpn next_id;
        timeouts_queue = timeouts;
        iteration_num_received_msgs = (w.iteration_num_received_msgs + 1) % u64_mod;
      }
      let sending = post_send_wr s preprocess (post_recv_wr w1 qpn) qpn false now >>= λ w2.
          ok (record w2 { total_pkts_sent = (w2.total_pkts_sent + s.num_pkts_per_msg) % u64_mod })
      if ltb next_id s.total_num_msgs then sending else ok w1

-- A received message.
unfoldable pub receive_message : Slice → (ℕ → ℕ) → Worker → Completion → ℕ → Outcome Worker
unfolding take_message drop_message
receive_message s preprocess w c now =
    let qpn = c.wr_id % u16_mod in
    let taken = take_message s preprocess w qpn (c.imm_data % u16_mod) now in
    do
      crash_if (not c.with_imm) fatal
      if c.imm_data % u16_mod == w.msg_ids qpn % u16_mod then taken else ok (drop_message s w qpn)

unfoldable pub handle_opcode : Opcode → Slice → (ℕ → ℕ) → Worker → Completion → ℕ → Outcome Worker
unfolding receive_message
handle_opcode recv_rdma_with_imm s preprocess w c now = receive_message s preprocess w c now
handle_opcode rdma_write s preprocess w c now = ok w
handle_opcode other s preprocess w c now = crash fatal

-- One completion of the loop.
unfoldable pub process_completion : Slice → (ℕ → ℕ) → Worker → Completion → ℕ → Outcome Worker
unfolding handle_opcode
process_completion s preprocess w c now = do
  crash_if (not c.success) fatal
  handle_opcode c.opcode s preprocess w c now
