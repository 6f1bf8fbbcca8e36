-- ===== src/Dummy/Rounds.antt =====
-- One round of the receive and send loop of dummy_worker_thread.cc.
use p4app_switch_ml.Prelude.{
  ℕ, ◌+◌, ◌%◌, ◌≡◌, ◌≢◌, refl, ◌∙◌, ap, inl, inr, arith, Bool-cases, ◌==◌, ==→eq, if_true, if_false,
  List, [], ◌∷◌, ◌++◌, length, length-append,
}
use p4app_switch_ml.Outcome.{ok, bind_ok}
use p4app_switch_ml.Dummy.{
  DummyPacket, Call, Slice, Transfer, Burst, send_burst, send_next, answer_packets, iterate,
}
use p4app_switch_ml.Dummy.Chains.{leads, same}
use p4app_switch_ml.Dummy.Bursts.{
  tally, tally-append, tally-length, pre_of, post_of, Moved, receive_burst-Moved,
}
use p4app_switch_ml.Dummy.Answers.{is_out, is_post, is_stray, Answered, answer_packets-Answered}
use p4app_switch_ml.Dummy.Delivery.{SliceReady, OnTheWay, some_pending}

module _ (s : Slice) (ready : SliceReady s) where
  abbrev opened : Transfer → Burst
  opened t = record {
    pending = t.pending;
    packets_received = [];
    calls = t.calls;
    draws = t.draws + 1;
  }

  length_zero : {A : Type 0} (xs : List A) → length xs ≡ 0 → xs ≡ []
  length_zero [] h = refl
  length_zero (x ∷ xs) h = absurd (omega arith)

  -- What a round leaves, with the packets `next` to send.
  abbrev round_end : Transfer → Burst → List DummyPacket → List Call → Transfer
  round_end t b next calls = record {
    pending = b.pending ++ next;
    calls = calls;
    draws = b.draws;
    num_packets_received = t.num_packets_received + length b.packets_received;
    total_pkts_sent = t.total_pkts_sent + length next;
    correct_pkts_received = t.correct_pkts_received + length b.packets_received;
  }

  module _ (t : Transfer) (h : OnTheWay s t) (b : Burst) (moved : Moved (opened t) b) where
    abbrev next : List DummyPacket
    next = (answer_packets s b.packets_received b.calls).0

    abbrev calls : List Call
    calls = (answer_packets s b.packets_received b.calls).1

    answered : Answered s b.packets_received b.calls next calls
    answered =
        answer_packets-Answered s ready.some ready.narrow b.packets_received b.calls
          (omega (arith, moved.kept (is_out s.total_num_pkts), h.small))

    round_end-OnTheWay : OnTheWay s (round_end t b next calls)
    round_end-OnTheWay = record {
      covered = λ m le. omega (
        arith,
        h.covered m le,
        answered.waiting m le,
        answered.posted m,
        moved.kept (λ p. leads s.batch_num_pkts m p.pkt_id),
        moved.calls_same (post_of m) (λ p. refl),
        tally-append (λ p. leads s.batch_num_pkts m p.pkt_id) b.pending next,
      );
      prepared = λ m. omega (
        arith,
        h.prepared m,
        answered.posted m,
        answered.prepared m,
        moved.kept (λ p. same m p.pkt_id),
        moved.calls_same (post_of m) (λ p. refl),
        moved.calls_same (pre_of m) (λ p. refl),
        tally-append (λ p. same m p.pkt_id) b.pending next,
      );
      strays = omega (
        arith,
        h.strays,
        answered.strays,
        moved.calls_same (is_stray s.total_num_pkts) (λ p. refl),
      );
      small = omega (
        arith,
        h.small,
        answered.small,
        moved.kept (is_out s.total_num_pkts),
        tally-append (is_out s.total_num_pkts) b.pending next,
      );
      counted = omega (arith, h.counted, answered.counted, moved.calls_same is_post (λ p. refl));
      correct = omega (arith, h.correct);
      sent = omega (
        arith,
        h.sent,
        length-append b.pending next,
        moved.kept (λ p. 1),
        tally-length b.pending,
        tally-length b.packets_received,
        tally-length t.pending,
      );
    }

    -- A round that receives nothing.
    idle_end :
        length b.packets_received ≡ 0
        → OnTheWay s (record t { pending = b.pending; calls = b.calls; draws = b.draws })
    idle_end none_received =
        let e = length_zero b.packets_received none_received in
        let keep : (f : DummyPacket → ℕ) → tally f b.pending ≡ tally f t.pending =
          λ f. omega (arith, moved.kept f, ap (tally f) e) in
        record {
          covered = λ m le. omega (
            arith,
            h.covered m le,
            keep (λ p. leads s.batch_num_pkts m p.pkt_id),
            moved.calls_same (post_of m) (λ p. refl),
          );
          prepared = λ m. omega (
            arith,
            h.prepared m,
            keep (λ p. same m p.pkt_id),
            moved.calls_same (post_of m) (λ p. refl),
            moved.calls_same (pre_of m) (λ p. refl),
          );
          strays =
              omega (arith, h.strays, moved.calls_same (is_stray s.total_num_pkts) (λ p. refl));
          small = omega (arith, h.small, keep (is_out s.total_num_pkts));
          counted = omega (arith, h.counted, moved.calls_same is_post (λ p. refl));
          correct = h.correct;
          sent =
              omega (arith, h.sent, keep (λ p. 1), tally-length b.pending, tally-length t.pending);
        }

    -- A round that has nothing to send.
    quiet_end :
        length next ≡ 0
        → OnTheWay s (record (round_end t b [] calls) {
          pending = b.pending;
          total_pkts_sent = t.total_pkts_sent;
        })
    quiet_end none_next =
        let h' = round_end-OnTheWay in
        let e = length_zero next none_next in
        let keep : (f : DummyPacket → ℕ) → tally f (b.pending ++ next) ≡ tally f b.pending =
          λ f. omega (arith, tally-append f b.pending next, ap (tally f) e) in
        record {
          covered =
              λ m le. omega (arith, h'.covered m le, keep (λ p. leads s.batch_num_pkts m p.pkt_id));
          prepared = λ m. omega (arith, h'.prepared m, keep (λ p. same m p.pkt_id));
          strays = h'.strays;
          small = omega (arith, h'.small, keep (is_out s.total_num_pkts));
          counted = h'.counted;
          correct = h'.correct;
          sent = omega (arith, h'.sent, length-append b.pending next);
        }

  pub iterate-OnTheWay :
      (rand : ℕ → ℕ) (t : Transfer)
      → OnTheWay s t
      → t.num_packets_received ≢ s.total_num_pkts
      → (t' : Transfer) × (iterate s rand t ≡ ok t')
        × OnTheWay s t'
        × (t'.num_packets_received ≡ t.num_packets_received + rand t.draws % (length t.pending + 1))
  unfolding iterate send_next send_burst
  iterate-OnTheWay rand t h more =
      let (b, e, moved, got) =
        receive_burst-Moved rand s.process_packets t (some_pending s ready t h more) in
      let sent = next t h b moved in
      elim (Bool-cases (length b.packets_received == 0)) [
        | inl idle ↦ (
          record t { pending = b.pending; calls = b.calls; draws = b.draws },
          bind_ok _ e (if_true _ idle),
          idle_end t h b moved (==→eq _ _ idle),
          omega (arith, ==→eq _ _ idle),
        )
        | inr busy ↦ elim (Bool-cases (length (next t h b moved) == 0)) [
          | inl quiet ↦ (
            record (round_end t b [] (calls t h b moved)) {
              pending = b.pending;
              total_pkts_sent = t.total_pkts_sent;
            },
            bind_ok _ e (if_false _ busy ∙ if_true _ quiet),
            quiet_end t h b moved (==→eq _ _ quiet),
            omega arith,
          )
          | inr loud ↦ (
            round_end t b (next t h b moved) (calls t h b moved),
            bind_ok _ e (if_false _ busy ∙ if_false _ loud ∙ rw loud refl),
            round_end-OnTheWay t h b moved,
            omega arith,
          )
        ]
      ]
