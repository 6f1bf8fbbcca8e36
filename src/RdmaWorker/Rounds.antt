-- ===== src/RdmaWorker/Rounds.antt =====
-- What the rounds of the loop of rdma_worker_thread.cc keep, whatever the network delivers.
use p4app_switch_ml.Prelude.{
  ℕ, ◌+◌, ◌%◌, ◌≤◌, ◌<◌, ◌≡◌, refl, sym, ◌∙◌, ap, true, ◌==◌, ltb, ◌&&◌, not, inl, inr, ◌⊎◌,
  Bool-cases, if_true, if_false, ==→eq, List, [], ◌∷◌, update, arith, u16_mod, u64_mod, Option,
  none, some,
}
use native.Mathlib.Nat.{mod-eq_of_lt}
use p4app_switch_ml.Outcome.{ok, fatal, crash_if, ◌>>=◌, ◌>>◌, bind_ok}
use p4app_switch_ml.TimeoutQueue.{check}
use p4app_switch_ml.RdmaWorker.{
  Worker, Slice, Completion, Opcode, next_request, recv_rdma_with_imm, rdma_write, post_send_wr,
  drop_message, post_recv_wr, receive_message, handle_opcode, process_completion,
}
use p4app_switch_ml.RdmaWorker.Loop.{
  LoopState, Poll, process_completions, resend, check_timeouts, count_round, round, receive_loop,
}
use p4app_switch_ml.RdmaWorker.Waiting.{Timers, Timers-same, Timers-later, Timers-check}
use p4app_switch_ml.RdmaWorker.Exact.{waits, IsShort, missing_eq}
use p4app_switch_ml.RdmaWorker.Logs.{Logged, Posted-more, Current-again}
use p4app_switch_ml.RdmaWorker.Steps.{Going, post_send_wr_lem, take_lem}

-- A completion without errors: of a request that was sent, or a message of the slice for one of its queue
-- pairs, whether it was sent or taken before or not.
abbrev pub Arrives : Slice → Completion → Type 0
Arrives s c =
    (c.success ≡ true)
    × ((c.opcode ≡ rdma_write)
        ⊎ ((c.opcode ≡ recv_rdma_with_imm)
            × (c.with_imm ≡ true)
            × (c.wr_id % u16_mod < s.batch_num_msgs)
            × (c.imm_data % u16_mod < s.total_num_msgs)))

-- Such completions, handled at times from `now` to `until`.
abbrev pub Arrivals : Slice → ℕ → List (Completion × ℕ) → ℕ → Type 0
Arrivals s now [] until = now ≤ until
Arrivals s now ((c, at) ∷ cs) until = (now ≤ at) × Arrives s c × Arrivals s at cs until

-- Rounds in which polling works, such messages arrive, and the clock never goes back.
abbrev pub Steady : Slice → ℕ → List Poll → Type 0
Steady s now [] = Unit {0}
Steady s now (poll ∷ polls) =
    (poll.polled ≡ true)
    × Arrivals s now poll.completions poll.resent_at
    × Steady s poll.resent_at polls

-- When the last of the rounds ends.
abbrev pub end_of : ℕ → List Poll → ℕ
end_of now [] = now
end_of now (poll ∷ polls) = end_of poll.resent_at polls

Arrivals-le :
    (s : Slice) (now : ℕ) (cs : List (Completion × ℕ)) (until : ℕ)
    → Arrivals s now cs until
    → now ≤ until
Arrivals-le s now [] until le = le
Arrivals-le s now ((c, at) ∷ cs) until (le, _, rest) = omega (arith, Arrivals-le s at cs until rest)

Steady-le : (s : Slice) (now : ℕ) (polls : List Poll) → Steady s now polls → now ≤ end_of now polls
Steady-le s now [] steady = omega arith
Steady-le s now (poll ∷ polls) (_, arrivals, steady) = omega (
  arith,
  Arrivals-le s now poll.completions poll.resent_at arrivals,
  Steady-le s poll.resent_at polls steady,
)

-- What is not about the messages or the timers does not matter.
pub Going-same :
    {s : Slice} {received now : ℕ} {w : Worker} (received' later : ℕ) (w' : Worker)
    → Going s received now w
    → w'.msg_ids ≡ w.msg_ids
    → w'.postprocessed ≡ w.postprocessed
    → w'.preprocessed ≡ w.preprocessed
    → received' + w'.iteration_num_received_msgs ≡ received + w.iteration_num_received_msgs
    → Timers s.batch_num_msgs (waits s w.msg_ids) later w'.timeouts_queue
    → Logged s w'
    → Going s received' later w'
Going-same received' later w' g ids posts pres n ts logged = record {
  tracked = record {
    class = rw ids g.tracked.class;
    top = rw ids g.tracked.top;
    taken = rw (ids, posts) g.tracked.taken;
    sent = rw (ids, pres) g.tracked.sent;
    within = rw posts g.tracked.within;
    within_sent = rw pres g.tracked.within_sent;
    counted = rw posts (n ∙ g.tracked.counted);
  };
  timers = rw ids ts;
  logged = logged;
}

module _ (s : Slice) (short : IsShort s) (pre : ℕ → ℕ) where
  -- Of two ids of the slice whose low halves agree.
  same_id :
      (imm id : ℕ)
      → imm % u16_mod < s.total_num_msgs
      → id < s.total_num_msgs + s.batch_num_msgs
      → imm % u16_mod ≡ id % u16_mod
      → id < s.total_num_msgs
  same_id imm id low top e = omega (arith, short.narrow)

  exact_id :
      (imm id : ℕ)
      → imm % u16_mod < s.total_num_msgs
      → id < s.total_num_msgs + s.batch_num_msgs
      → imm % u16_mod ≡ id % u16_mod
      → imm % u16_mod ≡ id
  exact_id imm id low top e = omega (arith, short.narrow)

  receive_lem :
      {received now : ℕ} {w : Worker} (c : Completion)
      → Going s received now w
      → c.with_imm ≡ true
      → c.wr_id % u16_mod < s.batch_num_msgs
      → c.imm_data % u16_mod < s.total_num_msgs
      → (w' : Worker) × (receive_message s pre w c now ≡ ok w') × Going s received now w'
  unfolding receive_message drop_message post_recv_wr
  receive_lem {received} {now} {w} c g imm pair low =
      let q = c.wr_id % u16_mod in
      elim (Bool-cases (c.imm_data % u16_mod == w.msg_ids q % u16_mod)) [
        | inl expected ↦
            let (w', made, g') =
              take_lem s short pre g.tracked q pair
                (same_id c.imm_data (w.msg_ids q) low (g.tracked.top q pair) (==→eq _ _ expected))
                (c.imm_data % u16_mod) now
                (exact_id c.imm_data (w.msg_ids q) low (g.tracked.top q pair) (==→eq _ _ expected))
                g.logged g.timers in
            (w', rw imm (if_true _ expected ∙ made), g')
        | inr wrong ↦ (
          drop_message s w q,
          rw imm (if_false _ wrong),
          Going-same received now _ g refl refl refl refl g.timers g.logged,
        )
      ]

  opened :
      (c : Completion) (at : ℕ) (w : Worker) (kind : Opcode)
      → c.success ≡ true
      → c.opcode ≡ kind
      → process_completion s pre w c at ≡ handle_opcode kind s pre w c at
  unfolding process_completion
  opened c at w kind success same =
      ap (λ b. crash_if (not b) fatal >> handle_opcode c.opcode s pre w c at) success
      ∙ ap (λ o. handle_opcode o s pre w c at) same

  process_lem :
      {received now : ℕ} {w : Worker} (c : Completion) (at : ℕ)
      → Going s received now w
      → now ≤ at
      → Arrives s c
      → (w' : Worker) × (process_completion s pre w c at ≡ ok w') × Going s received at w'
  unfolding process_completion handle_opcode
  process_lem {received} {w = w} c at g le (success, kind) =
      let g1 =
        Going-same received at w g refl refl refl refl (Timers-later g.timers at le) g.logged in
      elim kind [
        | inl written ↦ (w, opened c at w rdma_write success written, g1)
        | inr (recv, imm, pair, low) ↦
            let (w', made, g') = receive_lem c g1 imm pair low in
            (w', opened c at w recv_rdma_with_imm success recv ∙ made, g')
      ]

  completions_lem :
      {received now : ℕ} {w : Worker} (cs : List (Completion × ℕ)) (until : ℕ)
      → Going s received now w
      → Arrivals s now cs until
      → (w' : Worker) × (process_completions s pre cs w ≡ ok w') × Going s received until w'
  unfolding process_completions
  completions_lem {received} {w = w} [] until g le = (
    w,
    refl,
    Going-same received until w g refl refl refl refl (Timers-later g.timers until le) g.logged,
  )
  completions_lem {now = now} ((c, at) ∷ cs) until g (le, arrives, rest) =
      let (w1, first, g1) = process_lem c at g le arrives in
      let (w2, others, g2) = completions_lem {now = at} cs until g1 rest in
      (w2, bind_ok (λ u. process_completions s pre cs u) first others, g2)

  -- Between two rounds: what the last round received has been counted.
  abbrev pub InLoop : ℕ → LoopState → Type 0
  InLoop now p =
      Going s p.num_received_msgs now (record p.worker { iteration_num_received_msgs = 0 })

  count_lem :
      {now : ℕ} (p : LoopState) (w : Worker)
      → Going s p.num_received_msgs now w
      → InLoop now (count_round s p w)
  unfolding count_round
  count_lem p w g =
      Going-same _ _ _ g refl refl refl
        (omega (arith, g.tracked.counted, missing_eq g.tracked, short.narrow)) g.timers g.logged

  still : (k q : ℕ) (w : ℕ → ℕ) → waits s w q ≡ true → update (waits s w) q true k ≡ waits s w k
  still k q w waiting = ground arith

  abbrev after_resend : LoopState → Worker → LoopState
  after_resend p w = record p {
    worker = record w { total_pkts_sent = (w.total_pkts_sent + s.num_pkts_per_msg) % u64_mod };
    timeouts = (p.timeouts + s.num_pkts_per_msg) % u64_mod;
  }

  resend_lem :
      {now : ℕ} (expired : Option ℕ) (at : ℕ) (p : LoopState)
      → InLoop now p
      → now ≤ at
      → ((i : ℕ) → expired ≡ some i → waits s p.worker.msg_ids i ≡ true)
      → (p' : LoopState) × (resend s pre expired at p ≡ ok p') × InLoop at p'
  unfolding resend next_request
  resend_lem none at p g le late =
      (p, refl, Going-same _ at _ g refl refl refl refl (Timers-later g.timers at le) g.logged)
  resend_lem (some qpn) at p g le late =
      let waiting = late qpn refl in
      let small : qpn % u16_mod ≡ qpn = mod-eq_of_lt (ground (arith, short.narrow, short.batch)) in
      let (w, made, ts, ids, posts, pres, n, wrs, sends, accepted) =
        post_send_wr_lem s pre p.worker qpn true at (Timers-later g.timers at le)
          (ground (arith)) in
      (
        after_resend p w,
        bind_ok _ (ap (λ k. post_send_wr s pre p.worker k true at) small ∙ made) refl,
        Going-same p.num_received_msgs at _ g ids posts pres refl
            (Timers-same ts _ (λ k. still k qpn p.worker.msg_ids waiting))
            (
              accepted ∙ g.logged.0 ∙ sym posts,
              rw (pres, sends)
                  (Posted-more s p.worker.preprocessed p.worker.posted_sends qpn
                    (next_request s pre p.worker qpn true) g.logged.1),
              rw (ids, wrs)
                  (Current-again s p.worker.msg_ids p.worker.send_wrs qpn
                    (next_request s pre p.worker qpn true) refl g.logged.2),
            ),
      )

  check_lem :
      (poll : Poll) (p : LoopState)
      → InLoop poll.resent_at p
      → (p' : LoopState) × (check_timeouts s pre poll p ≡ ok p') × InLoop poll.resent_at p'
  unfolding check_timeouts
  check_lem poll p g =
      let (ts, late) = Timers-check g.timers poll.checked_at in
      let (expired, queue) = check p.worker.timeouts_queue poll.checked_at in
      resend_lem expired poll.resent_at
        (record p { worker = record p.worker { timeouts_queue = queue } })
        (Going-same p.num_received_msgs poll.resent_at _ g refl refl refl refl ts g.logged)
        (omega arith) late

  pub round_opened :
      (poll : Poll) (p : LoopState)
      → poll.polled ≡ true
      → round s pre poll p ≡ (
          process_completions s pre poll.completions
            (record p.worker { iteration_num_received_msgs = 0 })
          >>= λ w. check_timeouts s pre poll (count_round s p w))
  unfolding round
  round_opened poll p polled =
      ap
        (λ b.
          crash_if (not b) fatal
          >> (process_completions s pre poll.completions
                (record p.worker { iteration_num_received_msgs = 0 })
              >>= λ w. check_timeouts s pre poll (count_round s p w)))
        polled

  round_lem :
      {now : ℕ} (poll : Poll) (p : LoopState)
      → InLoop now p
      → poll.polled ≡ true
      → Arrivals s now poll.completions poll.resent_at
      → (p' : LoopState) × (round s pre poll p ≡ ok p') × InLoop poll.resent_at p'
  round_lem poll p g polled arrivals =
      let (w, processed, g1) = completions_lem poll.completions poll.resent_at g arrivals in
      let (p', checked, g') = check_lem poll (count_round s p w) (count_lem p w g1) in
      (p', round_opened poll p polled ∙ bind_ok _ processed checked, g')

  pub loop_lem :
      (polls : List Poll) {now : ℕ} (p : LoopState)
      → InLoop now p
      → Steady s now polls
      → (p' : LoopState) × (receive_loop s pre polls p ≡ ok p') × InLoop (end_of now polls) p'
  unfolding receive_loop
  loop_lem [] p g steady = (p, refl, g)
  loop_lem (poll ∷ polls) {now} p g (polled, arrivals, steady) =
      elim (Bool-cases (ltb p.num_received_msgs s.total_num_msgs && poll.running)) [
        | inl more ↦
            let (p1, first, g1) = round_lem poll p g polled arrivals in
            let (p2, rest, g2) = loop_lem polls p1 g1 steady in
            (p2, if_true _ more ∙ bind_ok _ first rest, g2)
        | inr done ↦
            let le : now ≤ end_of poll.resent_at polls = omega (
              arith,
              Arrivals-le s now poll.completions poll.resent_at arrivals,
              Steady-le s poll.resent_at polls steady,
            ) in
            (
              p,
              if_false _ done,
              Going-same _ _ _ g refl refl refl refl (Timers-later g.timers _ le) g.logged,
            )
      ]
