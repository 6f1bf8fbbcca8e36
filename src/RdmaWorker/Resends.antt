-- ===== src/RdmaWorker/Resends.antt =====
-- The retransmissions of a worker thread of rdma_worker_thread.cc.
use p4app_switch_ml.Prelude.{
  ℕ, ◌+◌, ◌*◌, ◌%◌, ◌≤◌, ◌<◌, ◌≡◌, refl, ◌∙◌, ap, true, inl, inr, Option-cases, List, [], ◌∷◌,
  count, elem, arith, none, some, u16_mod,
}
use native.Mathlib.Nat.{mod-eq_of_lt}
use p4app_switch_ml.Outcome.{ok, bind_ok}
use p4app_switch_ml.TimeoutQueue.{TimeoutQueue, check}
use p4app_switch_ml.TimeoutQueue.Represents.{Represents, Stamped, keys, AtMost}
use p4app_switch_ml.TimeoutQueue.Check.{check_finds_oldest}
use p4app_switch_ml.RdmaWorker.{Worker, Slice, Request, post_send_wr, next_request}
use p4app_switch_ml.RdmaWorker.Loop.{
  LoopState, Poll, process_completions, resend, check_timeouts, count_round, round, transfer,
}
use p4app_switch_ml.RdmaWorker.Waiting.{Timers-check, Timers-later}
use p4app_switch_ml.RdmaWorker.Exact.{waits, IsShort}
use p4app_switch_ml.RdmaWorker.Steps.{post_send_wr_lem}
use p4app_switch_ml.RdmaWorker.Rounds.{Steady, end_of, InLoop, round_opened}
use p4app_switch_ml.RdmaWorker.Delivery.{reached, awaited, awaits_some}

-- A timer that runs is reported once its timeout has passed.
timer_late :
    (q : TimeoutQueue) (xs : Stamped) (k now at : ℕ)
    → Represents q xs
    → AtMost now xs
    → elem k (keys xs) ≡ true
    → now + (q.timeout + 1) * 1_000_000 ≤ at
    → (check q at).0 ≡ none
    → ⊥
timer_late q [] k now at r past here late quiet = cc
timer_late q ((i, t) ∷ xs) k now at r past here late quiet =
    let calm = (check_finds_oldest q ((i, t) ∷ xs) at r).0 quiet in omega (arith, calm.0, past.0)

-- A round in which nothing arrives.
abbrev pub quiet : ℕ → ℕ → Poll
quiet at later = record {
  running = true;
  polled = true;
  completions = [];
  checked_at = at;
  resent_at = later;
}

-- Such a round hands the message of the queue pair that the check finds to ibverbs again.
silence_resends :
    (s : Slice) (short : IsShort s) (pre : ℕ → ℕ) {now : ℕ} (at later q : ℕ) (p : LoopState)
    → InLoop s short pre now p
    → now ≤ later
    → waits s p.worker.msg_ids q ≡ true
    → (check p.worker.timeouts_queue at).0 ≡ some q
    → (r : Request) × (p' : LoopState) × (round s pre (quiet at later) p ≡ ok p')
      × (p'.worker.posted_sends ≡ (q, r) ∷ p.worker.posted_sends)
      × (r.imm_data ≡ p.worker.msg_ids q)
unfolding process_completions check_timeouts resend count_round next_request
silence_resends s short pre at later q p g le waiting found =
    let w0 = record p.worker { iteration_num_received_msgs = 0 } in
    let (ts, _) = Timers-check g.timers at in
    let p1 = count_round s p w0 in
    let wk = record p1.worker { timeouts_queue = (check p.worker.timeouts_queue at).1 } in
    let small : q % u16_mod ≡ q = mod-eq_of_lt (ground (arith, short.narrow, short.batch)) in
    let (w, made, _, _, _, _, _, _, sends, _) =
      post_send_wr_lem s pre wk q true later (Timers-later ts later le) (ground arith) in
    (
      next_request s pre wk q true,
      _,
      round_opened s short pre (quiet at later) p refl
          ∙ ap (λ e. resend s pre e later (record p1 { worker = wk })) found
          ∙ bind_ok _ (ap (λ k. post_send_wr s pre wk k true later) small ∙ made) refl,
      sends,
      g.logged.2 q waiting,
    )

module _ (s : Slice) (pre clock : ℕ → ℕ) (polls : List Poll) (w : Worker) (short : IsShort s)
    (idle : Represents w.timeouts_queue []) (room : s.batch_num_msgs ≤ w.timeouts_queue.num_entries)
    (steady : (k : ℕ) → clock k ≤ clock (k + 1))
    (arrivals : Steady s (clock s.batch_num_msgs) polls) where
  -- Whatever messages of the slice arrive, in any order and number, and whatever times out, while polling
  -- works and the clock does not go back: while the count has not reached the number of messages of the
  -- slice, a round in which nothing arrives, and whose check for timeouts comes more than a timeout
  -- after the last round, returns and hands to ibverbs, on one queue pair, the message that it waits
  -- for, which was prepared and not postprocessed yet. Before the slice no timer runs, and there is one
  -- for each queue pair of the batch; the slice has a message or more in its batch, is no smaller than
  -- it, and has at most 2 ^ 16 messages together with one more batch.
  pub resends_missing :
      (at later : ℕ) {p : LoopState}
      → transfer s pre clock polls w ≡ ok p
      → p.num_received_msgs < s.total_num_msgs
      → end_of (clock s.batch_num_msgs) polls + (p.worker.timeouts_queue.timeout + 1) * 1_000_000
        ≤ at
      → at ≤ later
      → (q : ℕ) × (r : Request) × (p' : LoopState) × (round s pre (quiet at later) p ≡ ok p')
        × (p'.worker.posted_sends ≡ (q, r) ∷ p.worker.posted_sends)
        × (r.imm_data ≡ p.worker.msg_ids q)
        × (count (p.worker.msg_ids q) p.worker.postprocessed ≡ 0)
        × (count (p.worker.msg_ids q) p.worker.preprocessed ≡ 1)
  resends_missing at later {p} made few late after =
      let g = reached s pre clock polls w short idle room steady arrivals made in
      let (k, waiting) = awaits_some short g.tracked (omega (arith, g.tracked.counted)) in
      let queue = p.worker.timeouts_queue in
      elim (Option-cases (check queue at).0) [
        | inl none_late ↦ absurd (
            timer_late queue g.timers.running k _ at g.timers.represents g.timers.past
              (g.timers.named k ∙ waiting) late none_late)
        | inr (q, found) ↦
            let waits_q = (Timers-check g.timers at).1 q found in
            let (_, _, taken, sent) = awaited short g.tracked q waits_q in
            let (r, p', returned, posts, imm) =
              silence_resends s short pre at later q p g (omega (arith, late, after)) waits_q
                found in
            (q, r, p', returned, posts, imm, taken, sent)
      ]
