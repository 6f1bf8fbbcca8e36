-- ===== src/RdmaWorker/Tests.antt =====
-- A worker thread with two queue pairs, whose messages 4 and 5 are next.
use p4app_switch_ml.Prelude.{◌+◌, ◌≡◌, refl, true, false, []}
use p4app_switch_ml.Outcome.{Outcome, ok, crash}
use p4app_switch_ml.TimeoutQueue.{new_queue, new_entry, push, link_front, remove, unlink}
use p4app_switch_ml.RdmaWorker.{
  Request, Worker, Slice, Completion, recv_rdma_with_imm, post_send_wr, next_request,
}

abbrev value {ℓ} : {A : Type ℓ} → Outcome A → A → A
value (ok v) other = v
value (crash why) other = other

abbrev slice : Slice
slice = record {
  registered_buffer_ptr = 65536;
  msg_size = 3072;
  num_pkts_per_msg = 3;
  batch_num_msgs = 2;
  total_num_msgs = 10;
}

abbrev request : Request
request = record {
  rkey = 1;
  imm_data = 0;
  extra_info = 0;
  addr = 0;
  remote_addr = 0;
  signaled = false;
}

idle : Worker
unfolding new_queue new_entry
idle = record {
  send_wrs = λ qpn. request;
  msg_ids = λ qpn. qpn + 4;
  write_posted_count_per_qp = λ qpn. 0;
  timeouts_queue = new_queue 2 10 100 100;
  posted_sends = [];
  posted_recvs = [];
  preprocessed = [];
  postprocessed = [];
  accepted = [];
  wrong_pkts_received = 0;
  total_pkts_sent = 0;
  iteration_num_received_msgs = 0;
}

sent : Worker
unfolding idle post_send_wr push link_front remove unlink
sent = value (post_send_wr slice (λ id. 0) idle 1 false 50) idle

resent : Worker
unfolding sent post_send_wr push link_front remove unlink
resent = value (post_send_wr slice (λ id. 0) sent 1 true 70) sent

sends : post_send_wr slice (λ id. 0) idle 1 false 50 ≡ ok sent
unfolding sent idle post_send_wr push link_front remove unlink new_queue new_entry
sends = refl

resends : post_send_wr slice (λ id. 0) sent 1 true 70 ≡ ok resent
unfolding resent sent idle post_send_wr push link_front remove unlink new_queue new_entry
    next_request
resends = refl

abbrev late : Completion
late = record {
  success = true;
  opcode = recv_rdma_with_imm;
  with_imm = true;
  wr_id = 65537;
  imm_data = 3;
}
