-- ===== src/RdmaWorker/Messages.antt =====
-- Retransmissions of rdma_worker_thread.cc, and the messages that come late.
use p4app_switch_ml.Prelude.{
  ℕ, ◌+◌, ◌%◌, ◌<◌, ◌≡◌, ◌≢◌, refl, sym, ◌∙◌, ap, Bool, true, false, ◌==◌, ne→==, ==_refl,
  if◌then◌else◌, if_true, if_false, ◌∷◌, update, u16_mod, arith,
}
use p4app_switch_ml.Outcome.{ok, bind_returned}
use p4app_switch_ml.TimeoutQueue.{push}
use p4app_switch_ml.RdmaWorker.{
  Request, Worker, Slice, Completion, recv_rdma_with_imm, next_request, post_send_wr, drop_message,
  receive_message, handle_opcode, process_completion,
}

ok_inj {ℓ} : {A : Type ℓ} {a b : A} → ok a ≡ ok b → a ≡ b
ok_inj h = cc

-- What a request says to the switch and to the other workers.
abbrev pub SameMessage : Request → Request → Type 0
SameMessage r r' =
    (r'.rkey ≡ r.rkey)
    × (r'.imm_data ≡ r.imm_data)
    × (r'.extra_info ≡ r.extra_info)
    × (r'.addr ≡ r.addr)
    × (r'.remote_addr ≡ r.remote_addr)

-- The state after a request, as far as the request goes.
posted :
    (s : Slice) (pre : ℕ → ℕ) (w : Worker) (qpn : ℕ) (again : Bool) (now : ℕ) {w' : Worker}
    → post_send_wr s pre w qpn again now ≡ ok w'
    → (w'.send_wrs ≡ update w.send_wrs qpn (next_request s pre w qpn again))
      × (w'.posted_sends ≡ (qpn, next_request s pre w qpn again) ∷ w.posted_sends)
      × (w'.msg_ids ≡ w.msg_ids)
      × (w'.preprocessed ≡ (if again then w.preprocessed else w.msg_ids qpn ∷ w.preprocessed))
unfolding post_send_wr
posted s pre w qpn again now h =
    let (q, e, h1) = bind_returned (push w.timeouts_queue qpn now) _ h in
    let same = sym (ok_inj e) in
    (
      ap (λ x. x.send_wrs) same,
      ap (λ x. x.posted_sends) same,
      ap (λ x. x.msg_ids) same,
      ap (λ x. x.preprocessed) same,
    )

-- A retransmission that follows the sending of a message posts the same message again, to the same pool
-- and the same place, and does not call the prepostprocessor again.
pub retransmission_lem :
    (s : Slice) (pre : ℕ → ℕ) (w : Worker) (qpn now later : ℕ) {w1 w2 : Worker}
    → post_send_wr s pre w qpn false now ≡ ok w1
    → post_send_wr s pre w1 qpn true later ≡ ok w2
    → (first : Request) × (second : Request) × (w2.posted_sends
        ≡ (qpn, second) ∷ (qpn, first) ∷ w.posted_sends)
      × SameMessage first second
      × (w2.preprocessed ≡ w.msg_ids qpn ∷ w.preprocessed)
unfolding next_request
retransmission_lem s pre w qpn now later {w1} h1 h2 =
    let (wrs1, sent1, ids1, pre1) = posted s pre w qpn false now h1 in
    let (wrs2, sent2, ids2, pre2) = posted s pre w1 qpn true later h2 in
    let stored : w1.send_wrs qpn ≡ next_request s pre w qpn false =
      ap (λ f. f qpn) wrs1 ∙ if_true _ (==_refl qpn) in
    (
      next_request s pre w qpn false,
      next_request s pre w1 qpn true,
      sent2 ∙ ap (λ xs. (qpn, next_request s pre w1 qpn true) ∷ xs) sent1,
      (
        ap (λ r. r.rkey) stored,
        ap (λ r. r.imm_data) stored,
        ap (λ r. r.extra_info) stored,
        refl,
        ap (λ r. r.remote_addr) stored,
      ),
      pre2 ∙ pre1,
    )

-- Two ids of messages less than 2 ^ 16 apart differ in their low half.
short_ids : (m id : ℕ) → m < id → id < m + u16_mod → m % u16_mod ≢ id % u16_mod
short_ids m id below near e = omega (arith, below, near, e)

-- A message that repeats an earlier one of its queue pair, whose id lies less than 2 ^ 16 back, is counted
-- as wrong and a receive request is posted for it: it changes nothing else.
pub duplicate_dropped :
    (s : Slice) (pre : ℕ → ℕ) (w : Worker) (c : Completion) (m now : ℕ)
    → c.success ≡ true
    → c.opcode ≡ recv_rdma_with_imm
    → c.with_imm ≡ true
    → c.imm_data % u16_mod ≡ m % u16_mod
    → m < w.msg_ids (c.wr_id % u16_mod)
    → w.msg_ids (c.wr_id % u16_mod) < m + u16_mod
    → process_completion s pre w c now ≡ ok (drop_message s w (c.wr_id % u16_mod))
unfolding process_completion handle_opcode receive_message
duplicate_dropped s pre w c m now success opcode imm short below near =
    let other : (c.imm_data % u16_mod == w.msg_ids (c.wr_id % u16_mod) % u16_mod) ≡ false =
      ne→== _ _ (λ e. short_ids m (w.msg_ids (c.wr_id % u16_mod)) below near (sym short ∙ e)) in
    rw (success, opcode, imm) (if_false _ other)
