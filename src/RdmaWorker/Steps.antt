-- ===== src/RdmaWorker/Steps.antt =====
-- What the handling of one message of rdma_worker_thread.cc keeps: the timers are those of the queue pairs
-- that wait, and the messages taken and sent are those below and up to the ones awaited.
use p4app_switch_ml.Prelude.{
  ℕ, ◌+◌, ◌%◌, ◌<◌, ◌≡◌, refl, sym, ◌∙◌, ap, Bool, true, false, ◌==◌, ltb, inl, inr, Bool-cases,
  if◌then◌else◌, if_true, if_false, ==_refl, ==→eq, ltb→lt, lt→ltb, List, ◌∷◌, count, All, update,
  arith, u16_mod, u64_mod,
}
use native.Mathlib.Nat.{mod-eq_of_lt, add-mod_right}
use p4app_switch_ml.Outcome.{ok, bind_ok}
use p4app_switch_ml.TimeoutQueue.{TimeoutQueue}
use p4app_switch_ml.RdmaWorker.{
  Worker, Slice, next_request, post_recv_wr, post_send_wr, take_message,
}
use p4app_switch_ml.RdmaWorker.Waiting.{Timers, Timers-push, Timers-remove, Timers-same}
use p4app_switch_ml.RdmaWorker.Logs.{Logged, Posted-new, Current-new, Current-done}
use p4app_switch_ml.RdmaWorker.Exact.{
  waits, IsShort, Tracked, missing_eq, next_ids, taken_next, sent_next,
}

-- What sending a message changes.
pub post_send_wr_lem :
    (s : Slice) (pre : ℕ → ℕ) (w : Worker) (q : ℕ) (again : Bool) (now : ℕ) {n : ℕ}
    {waiting : ℕ → Bool}
    → Timers n waiting now w.timeouts_queue
    → q < n
    → (w' : Worker) × (post_send_wr s pre w q again now ≡ ok w')
      × Timers n (update waiting q true) now w'.timeouts_queue
      × (w'.msg_ids ≡ w.msg_ids)
      × (w'.postprocessed ≡ w.postprocessed)
      × (w'.preprocessed ≡ (if again then w.preprocessed else w.msg_ids q ∷ w.preprocessed))
      × (w'.iteration_num_received_msgs ≡ w.iteration_num_received_msgs)
      × (w'.send_wrs ≡ update w.send_wrs q (next_request s pre w q again))
      × (w'.posted_sends ≡ (q, next_request s pre w q again) ∷ w.posted_sends)
      × (w'.accepted ≡ w.accepted)
unfolding post_send_wr
post_send_wr_lem s pre w q again now ts below =
    let (timeouts, e, ts') = Timers-push ts q below in
    (_, bind_ok _ e refl, ts', refl, refl, refl, refl, refl, refl, refl)

count_if :
    (c : Bool) (x m : ℕ) (xs : List ℕ)
    → count m (if c then x ∷ xs else xs) ≡ (if c then (if x == m then 1 else 0) else 0) + count m xs
count_if true x m xs = refl
count_if false x m xs = omega arith

All-if :
    (P : ℕ → Type 0) (c : Bool) (x : ℕ) (xs : List ℕ)
    → (c ≡ true → P x)
    → All P xs
    → All P (if c then x ∷ xs else xs)
All-if P true x xs p all = (p refl, all)
All-if P false x xs p all = all

-- A worker thread in the middle of a slice.
pub record Going (s : Slice) (received now : ℕ) (w : Worker) : Type 0 where
  pub tracked : Tracked s received w
  pub timers : Timers s.batch_num_msgs (waits s w.msg_ids) now w.timeouts_queue
  pub logged : Logged s w

module _ (s : Slice) (short : IsShort s) (pre : ℕ → ℕ) {received : ℕ} where
  -- The message that a queue pair waits for is taken, where another one follows.
  module _ {w : Worker} (tracked : Tracked s received w) (q : ℕ) (below : q < s.batch_num_msgs)
      (awaited : w.msg_ids q < s.total_num_msgs) where
    next_id : (w.msg_ids q + s.batch_num_msgs) % u64_mod ≡ w.msg_ids q + s.batch_num_msgs
    next_id = mod-eq_of_lt (omega (arith, short.narrow, awaited))

    next_class :
        (k : ℕ)
        → k < s.batch_num_msgs
        → next_ids s w.msg_ids q below (tracked.class q below) k % s.batch_num_msgs ≡ k
    next_class k le = elim (Bool-cases (k == q)) [
      | inl e ↦
          rw (e, ==→eq k q e) (add-mod_right (w.msg_ids q) s.batch_num_msgs ∙ tracked.class q below)
      | inr ne ↦ rw ne (tracked.class k le)
    ]

    -- The state with that message taken, and the next one sent if there is one.
    Tracked-take :
        (w' : Worker)
        → w'.msg_ids ≡ update w.msg_ids q (w.msg_ids q + s.batch_num_msgs)
        → w'.postprocessed ≡ w.msg_ids q ∷ w.postprocessed
        → w'.preprocessed ≡ (
            if ltb (w.msg_ids q + s.batch_num_msgs) s.total_num_msgs
            then (w.msg_ids q + s.batch_num_msgs) ∷ w.preprocessed
            else w.preprocessed)
        → w'.iteration_num_received_msgs ≡ w.iteration_num_received_msgs + 1
        → Tracked s received w'
    Tracked-take w' ids posts pres n = record {
      class = rw ids next_class;
      top = rw ids (λ k le. ground (arith, tracked.top k le));
      taken =
          rw (ids, posts)
            (λ m.
              omega
                (arith, tracked.taken m, taken_next s w.msg_ids q below (tracked.class q below) m));
      sent =
          rw (ids, pres)
            (λ m low. ground (
              arith,
              count_if (ltb (w.msg_ids q + s.batch_num_msgs) s.total_num_msgs)
                  (w.msg_ids q + s.batch_num_msgs) m w.preprocessed,
              tracked.sent m low,
              sent_next s w.msg_ids q below (tracked.class q below) m,
            ));
      within = rw posts (awaited, tracked.within);
      within_sent = rw pres (
          All-if _ (ltb (w.msg_ids q + s.batch_num_msgs) s.total_num_msgs) _ w.preprocessed
            (ltb→lt _ _) tracked.within_sent);
      counted = rw (posts, n) (omega (arith, tracked.counted));
    }

    next_waits :
        (k : ℕ)
        → update
            (update (waits s w.msg_ids) q false)
            q
            (ltb (w.msg_ids q + s.batch_num_msgs) s.total_num_msgs)
            k
          ≡ waits s (update w.msg_ids q (w.msg_ids q + s.batch_num_msgs)) k
    next_waits k = elim (Bool-cases (k == q)) [
      | inl e ↦ rw e (ground (arith, ==→eq k q e, lt→ltb k s.batch_num_msgs))
      | inr ne ↦ rw ne refl
    ]

    few : (w.iteration_num_received_msgs + 1) % u64_mod ≡ w.iteration_num_received_msgs + 1
    few = mod-eq_of_lt (omega (arith, tracked.counted, missing_eq tracked, short.narrow))

    Going-take :
        (w' : Worker) (now : ℕ)
        → w'.msg_ids ≡ update w.msg_ids q ((w.msg_ids q + s.batch_num_msgs) % u64_mod)
        → w'.postprocessed ≡ w.msg_ids q ∷ w.postprocessed
        → w'.preprocessed ≡ (
            if ltb (w.msg_ids q + s.batch_num_msgs) s.total_num_msgs
            then (w.msg_ids q + s.batch_num_msgs) ∷ w.preprocessed
            else w.preprocessed)
        → w'.iteration_num_received_msgs ≡ (w.iteration_num_received_msgs + 1) % u64_mod
        → Timers s.batch_num_msgs
            (update
              (update (waits s w.msg_ids) q false)
              q
              (ltb (w.msg_ids q + s.batch_num_msgs) s.total_num_msgs))
            now
            w'.timeouts_queue
        → Logged s w'
        → Going s received now w'
    Going-take w' now ids posts pres n ts logged =
        let ids' = ids ∙ ap (update w.msg_ids q) next_id in
        record {
          tracked = Tracked-take w' ids' posts pres (n ∙ few);
          timers =
              Timers-same ts (waits s w'.msg_ids)
                (λ k. next_waits k ∙ ap (λ f. waits s f k) (sym ids'));
          logged = logged;
        }

    -- The state with the message taken and no other one sent.
    abbrev after_take : ℕ → TimeoutQueue → Worker
    after_take short_id queue = record w {
      postprocessed = w.msg_ids q ∷ w.postprocessed;
      accepted = short_id ∷ w.accepted;
      msg_ids = update w.msg_ids q ((w.msg_ids q + s.batch_num_msgs) % u64_mod);
      timeouts_queue = queue;
      iteration_num_received_msgs = (w.iteration_num_received_msgs + 1) % u64_mod;
    }

    accepts :
        (short_id : ℕ)
        → short_id ≡ w.msg_ids q
        → Logged s w
        → (short_id ∷ w.accepted) ≡ (w.msg_ids q ∷ w.postprocessed)
    accepts short_id same (matched, _, _) = rw (same, matched) refl

    -- The request for the next message.
    next_imm :
        (short_id : ℕ) (queue : TimeoutQueue)
        → ltb (w.msg_ids q + s.batch_num_msgs) s.total_num_msgs ≡ true
        → (next_request s pre (post_recv_wr (after_take short_id queue) q) q false).imm_data
          ≡ (w.msg_ids q + s.batch_num_msgs) % u64_mod
    unfolding next_request post_recv_wr
    next_imm short_id queue more =
        let fits : w.msg_ids q + s.batch_num_msgs < u16_mod =
          omega (arith, short.narrow, ltb→lt _ _ more) in
        ap (λ k. k % u16_mod) (if_true _ (==_refl q) ∙ next_id) ∙ mod-eq_of_lt fits ∙ sym next_id

    take_last :
        (short_id now : ℕ)
        → short_id ≡ w.msg_ids q
        → Logged s w
        → ltb (w.msg_ids q + s.batch_num_msgs) s.total_num_msgs ≡ false
        → Timers s.batch_num_msgs (waits s w.msg_ids) now w.timeouts_queue
        → (w' : Worker) × (take_message s pre w q short_id now ≡ ok w') × Going s received now w'
    unfolding take_message
    take_last short_id now same logged last ts =
        let (queue, removed, ts1) = Timers-remove ts q below in
        (
          after_take short_id queue,
          bind_ok _ removed (if_false _ (ap (λ k. ltb k s.total_num_msgs) next_id ∙ last)),
          Going-take (after_take short_id queue) now refl refl (sym (if_false _ last)) refl
              (Timers-same ts1 _ (λ k. ground (arith, last)))
              (
                accepts short_id same logged,
                logged.1,
                Current-done s w.msg_ids w.send_wrs q _
                    (ap (λ k. ltb k s.total_num_msgs) next_id ∙ last) logged.2,
              ),
        )

    take_more :
        (short_id now : ℕ)
        → short_id ≡ w.msg_ids q
        → Logged s w
        → ltb (w.msg_ids q + s.batch_num_msgs) s.total_num_msgs ≡ true
        → Timers s.batch_num_msgs (waits s w.msg_ids) now w.timeouts_queue
        → (w' : Worker) × (take_message s pre w q short_id now ≡ ok w') × Going s received now w'
    unfolding take_message post_recv_wr
    take_more short_id now same logged more ts =
        let (queue, removed, ts1) = Timers-remove ts q below in
        let (w', made, ts2, ids, posts, pres, n, wrs, sends, accepted) =
          post_send_wr_lem s pre (post_recv_wr (after_take short_id queue) q) q false now ts1
            below in
        let id : ℕ = (w.msg_ids q + s.batch_num_msgs) % u64_mod in
        let request = next_request s pre (post_recv_wr (after_take short_id queue) q) q false in
        let imm = next_imm short_id queue more in
        let prepared : w'.preprocessed ≡ id ∷ w.preprocessed =
          pres ∙ ap (λ k. k ∷ w.preprocessed) (if_true _ (==_refl q)) in
        let place : id % s.batch_num_msgs ≡ q =
          ap (λ k. k % s.batch_num_msgs) next_id
          ∙ add-mod_right (w.msg_ids q) s.batch_num_msgs
          ∙ tracked.class q below in
        (
          record w' { total_pkts_sent = (w'.total_pkts_sent + s.num_pkts_per_msg) % u64_mod },
          bind_ok _ removed
              (if_true _ (ap (λ k. ltb k s.total_num_msgs) next_id ∙ more) ∙ bind_ok _ made refl),
          Going-take _ now ids posts
              (pres
                ∙ ap (λ k. k ∷ w.preprocessed) (if_true _ (==_refl q) ∙ next_id)
                ∙ sym (if_true _ more))
              n (Timers-same ts2 _ (λ k. ground (arith, more)))
              (
                accepted ∙ accepts short_id same logged ∙ sym posts,
                rw (prepared, sends)
                    (Posted-new s w.preprocessed w.posted_sends q request id place imm logged.1),
                rw (ids, wrs) (Current-new s w.msg_ids w.send_wrs q id request imm logged.2),
              ),
        )

    pub take_lem :
        (short_id now : ℕ)
        → short_id ≡ w.msg_ids q
        → Logged s w
        → Timers s.batch_num_msgs (waits s w.msg_ids) now w.timeouts_queue
        → (w' : Worker) × (take_message s pre w q short_id now ≡ ok w') × Going s received now w'
    take_lem short_id now same logged ts =
        elim (Bool-cases (ltb (w.msg_ids q + s.batch_num_msgs) s.total_num_msgs)) [
          | inl more ↦ take_more short_id now same logged more ts
          | inr last ↦ take_last short_id now same logged last ts
        ]
