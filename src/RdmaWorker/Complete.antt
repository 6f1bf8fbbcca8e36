-- ===== src/RdmaWorker/Complete.antt =====
-- A whole job slice of rdma_worker_thread.cc, from its first batch on.
use p4app_switch_ml.Prelude.{
  ℕ, zero, suc, ◌+◌, ◌%◌, ◌≤◌, ◌<◌, ◌≡◌, refl, sym, ap, ◌∙◌, true, false, ◌==◌, ==→eq, ltb, leb,
  inl, inr, Bool-cases, if◌then◌else◌, subst, ltb→lt, List, [], count, All, arith, u16_mod,
}
use native.Mathlib.Nat.{mod-eq_of_lt, mod-lt, mod-le}
use p4app_switch_ml.Outcome.{ok, bind_ok}
use p4app_switch_ml.TimeoutQueue.Represents.{Represents}
use p4app_switch_ml.RdmaWorker.{Worker, Slice, next_request, post_send_wr, post_recv_wr}
use p4app_switch_ml.RdmaWorker.Loop.{
  LoopState, Poll, reset_ids, start_slice, send_first_batch, transfer,
}
use p4app_switch_ml.RdmaWorker.Waiting.{Timers, Timers-same, Timers-later}
use p4app_switch_ml.RdmaWorker.Exact.{IsShort}
use p4app_switch_ml.RdmaWorker.Logs.{Posted, Posted-new}
use p4app_switch_ml.RdmaWorker.Steps.{Going, post_send_wr_lem}
use p4app_switch_ml.RdmaWorker.Rounds.{Steady, end_of, InLoop, loop_lem}

-- While the first batch is sent: the queue pairs below `i` have their first message.
record Starting (s : Slice) (i now : ℕ) (w : Worker) : Type 0 where
  ids : (k : ℕ) → k < s.batch_num_msgs → w.msg_ids k ≡ k
  posts : w.postprocessed ≡ []
  pres : (m : ℕ) → count m w.preprocessed ≡ (if ltb m i then 1 else 0)
  low : All (λ (m : ℕ). m < s.total_num_msgs) w.preprocessed
  timers : Timers s.batch_num_msgs (λ k. ltb k i) now w.timeouts_queue
  accepts : w.accepted ≡ []
  requests : Posted s w.preprocessed w.posted_sends
  current : (k : ℕ) → ltb k i ≡ true → (w.send_wrs k).imm_data ≡ k

reset_ids_lem : (n : ℕ) (ids : ℕ → ℕ) (k : ℕ) → k < n → reset_ids n ids k ≡ k
unfolding reset_ids
reset_ids_lem zero ids k h = absurd (omega arith)
reset_ids_lem (suc n) ids k h = ground (arith, reset_ids_lem n ids k)

first_sent :
    (m b id : ℕ)
    → 0 < b
    → id ≡ m % b
    → ◌≡◌ {A = ℕ} (if ltb m b then 1 else 0) (if leb m id then 1 else 0)
first_sent m b id some e = elim (Bool-cases (ltb m b)) [
  | inl low ↦ rw (low, e, mod-eq_of_lt (ltb→lt m b low)) (ground arith)
  | inr high ↦ rw (high, e) (ground (arith, mod-lt m some))
]

module _ (s : Slice) (short : IsShort s) (pre clock : ℕ → ℕ)
    (steady : (k : ℕ) → clock k ≤ clock (k + 1)) where
  start_lem :
      (w : Worker)
      → Represents w.timeouts_queue []
      → s.batch_num_msgs ≤ w.timeouts_queue.num_entries
      → Starting s 0 (clock 0) (start_slice s w)
  unfolding start_slice
  start_lem w r room = record {
    ids = reset_ids_lem s.batch_num_msgs w.msg_ids;
    posts = refl;
    pres = λ m. ground arith;
    low = tt;
    timers = record {
      running = [];
      represents = r;
      named = λ k. ground arith;
      past = tt;
      room = room;
    };
    accepts = refl;
    requests = λ m e. cc;
    current = λ k h. absurd (ground (arith, h));
  }

  send_lem :
      (i : ℕ) (w : Worker)
      → i < s.batch_num_msgs
      → Starting s i (clock i) w
      → (w' : Worker) × (post_send_wr s pre (post_recv_wr w i) i false (clock i) ≡ ok w')
        × Starting s (i + 1) (clock (i + 1)) w'
  unfolding post_recv_wr next_request
  send_lem i w le st =
      let (w', made, ts, ids, posts, pres, _, wrs, sends, accepted) =
        post_send_wr_lem s pre (post_recv_wr w i) i false (clock i) st.timers le in
      let here = st.ids i le in
      let request = next_request s pre (post_recv_wr w i) i false in
      let imm : request.imm_data ≡ i =
        ap (λ k. k % u16_mod) here ∙ mod-eq_of_lt (omega (arith, short.narrow)) in
      (
        w',
        made,
        record {
          ids = rw ids st.ids;
          posts = posts ∙ st.posts;
          pres = rw (pres, here) (λ m. ground (arith, st.pres m));
          low = rw (pres, here) (omega (arith, short.batch), st.low);
          timers =
              Timers-later (Timers-same ts (λ k. ltb k (i + 1)) (λ k. ground arith)) (clock (i + 1))
                (steady i);
          accepts = accepted ∙ st.accepts;
          requests =
              rw (pres, here, sends)
                (Posted-new s w.preprocessed w.posted_sends i request i (mod-eq_of_lt le) imm
                  st.requests);
          current = rw wrs (λ k h. elim (Bool-cases (k == i)) [
            | inl same ↦ rw same (imm ∙ sym (==→eq k i same))
            | inr other ↦ rw other (st.current k (ground (arith, other, h)))
          ]);
        },
      )

  first_batch_lem :
      (left i : ℕ) (w : Worker)
      → left + i ≡ s.batch_num_msgs
      → Starting s i (clock i) w
      → (w' : Worker) × (send_first_batch s pre clock left i w ≡ ok w')
        × Starting s s.batch_num_msgs (clock s.batch_num_msgs) w'
  unfolding send_first_batch
  first_batch_lem zero i w e st =
      let all : i ≡ s.batch_num_msgs = omega (arith, e) in
      (w, refl, subst (λ k. Starting s k (clock k) w) all st)
  first_batch_lem (suc left) i w e st =
      let (w1, first, st1) = send_lem i w (omega arith) st in
      let (w2, rest, st2) = first_batch_lem left (i + 1) w1 (omega arith) st1 in
      (w2, bind_ok (λ u. send_first_batch s pre clock left (i + 1) u) first rest, st2)

  Starting-Going :
      {now : ℕ} (w w' : Worker)
      → Starting s s.batch_num_msgs now w
      → w'.msg_ids ≡ w.msg_ids
      → w'.postprocessed ≡ w.postprocessed
      → w'.preprocessed ≡ w.preprocessed
      → w'.iteration_num_received_msgs ≡ 0
      → w'.timeouts_queue ≡ w.timeouts_queue
      → w'.accepted ≡ w.accepted
      → w'.posted_sends ≡ w.posted_sends
      → w'.send_wrs ≡ w.send_wrs
      → Going s 0 now w'
  Starting-Going w w' st ids posts pres n queue accepted sends wrs =
      let b = s.batch_num_msgs in
      record {
        tracked = record {
          class = rw ids (λ k le. rw (st.ids k le) (mod-eq_of_lt le));
          top = rw ids (λ k le. omega (arith, st.ids k le, short.batch));
          taken =
              rw (ids, posts, st.posts)
                (λ m. ground (arith, st.ids (m % b) (mod-lt m short.some), mod-le m b));
          sent =
              rw (ids, pres)
                (λ m le.
                  st.pres m
                  ∙ first_sent m b (w.msg_ids (m % b)) short.some
                      (st.ids (m % b) (mod-lt m short.some)));
          within = rw (posts, st.posts) tt;
          within_sent = rw pres st.low;
          counted = rw (posts, st.posts, n) refl;
        };
        timers =
            rw (ids, queue) (Timers-same st.timers _ (λ k. ground (arith, st.ids k, short.batch)));
        logged = (
          accepted ∙ st.accepts ∙ sym (posts ∙ st.posts),
          rw (pres, sends) st.requests,
          rw (ids, wrs)
              (λ k waiting.
                let pair : k < s.batch_num_msgs = ground (arith, waiting) in
                st.current k (ground (arith, pair)) ∙ sym (st.ids k pair)),
        );
      }

  pub transfer_lem :
      (polls : List Poll) (w : Worker)
      → Represents w.timeouts_queue []
      → s.batch_num_msgs ≤ w.timeouts_queue.num_entries
      → Steady s (clock s.batch_num_msgs) polls
      → (p : LoopState) × (transfer s pre clock polls w ≡ ok p)
        × InLoop s short pre (end_of (clock s.batch_num_msgs) polls) p
  unfolding transfer
  transfer_lem polls w r room arrivals =
      let (w1, sent, st) =
        first_batch_lem s.batch_num_msgs 0 (start_slice s w) (omega arith) (start_lem w r room) in
      let (p, looped, g) =
        loop_lem s short pre polls _
          (Starting-Going w1 _ st refl refl refl refl refl refl refl refl) arrivals in
      (p, bind_ok _ sent looped, g)
