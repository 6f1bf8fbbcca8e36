-- ===== src/Dummy/Loop.antt =====
-- The whole transfer of a slice by dummy_worker_thread.cc.
use p4app_switch_ml.Prelude.{
  ℕ, zero, suc, ◌+◌, ◌≤◌, ◌<◌, ◌≡◌, refl, subst, sym, ◌∙◌, ap, inl, inr, ◌⊎◌, arith, Bool-cases,
  ◌==◌, if_true, if_false, [], length,
}
use p4app_switch_ml.Outcome.{Outcome, ok, bind_ok, ◌>>=◌}
use p4app_switch_ml.Dummy.{Slice, Transfer, send_first_batch, transfer}
use p4app_switch_ml.Dummy.Bursts.{pres, posts}
use p4app_switch_ml.Dummy.Answers.{asked}
use p4app_switch_ml.Dummy.Delivery.{
  SliceReady, OnTheWay, start, conservation, received_or_pending, all_posted, all_gone,
  send_first_batch-OnTheWay,
}
use p4app_switch_ml.Dummy.Rounds.{iterate-OnTheWay}

-- The transfer of a slice from its first packet, over at most `rounds` rounds.
unfoldable pub run : Slice → (ℕ → ℕ) → ℕ → ℕ → Outcome Transfer
unfolding transfer
run s rand draws rounds = send_first_batch s (start draws) >>= transfer s rand rounds

ok_inj : {a b : Transfer} → ok a ≡ ok b → a ≡ b
ok_inj h = cc

module _ (s : Slice) (ready : SliceReady s) (rand : ℕ → ℕ) where
  transfer-OnTheWay :
      (rounds : ℕ) (t : Transfer)
      → OnTheWay s t
      → (t' : Transfer) × (transfer s rand rounds t ≡ ok t') × OnTheWay s t'
  unfolding transfer
  transfer-OnTheWay zero t h = (t, refl, h)
  transfer-OnTheWay (suc rounds) t h =
      elim (Bool-cases (t.num_packets_received == s.total_num_pkts)) [
        | inl all_in ↦ (t, if_true _ all_in, h)
        | inr more ↦
            let (t1, e1, h1, got) =
              iterate-OnTheWay s ready rand t h (λ e. ground (arith, more, e)) in
            let (t2, e2, h2) = transfer-OnTheWay rounds t1 h1 in
            (t2, if_false _ more ∙ bind_ok _ e1 e2, h2)
      ]

  finished :
      (t : Transfer)
      → OnTheWay s t
      → s.total_num_pkts ≤ t.num_packets_received
      → t.num_packets_received ≡ s.total_num_pkts
  finished t h le = omega (arith, conservation s ready t h)

  run-OnTheWay :
      (draws rounds : ℕ) → (t : Transfer) × (run s rand draws rounds ≡ ok t) × OnTheWay s t
  unfolding run
  run-OnTheWay draws rounds =
      let (t1, e1, h1) = send_first_batch-OnTheWay s ready draws in
      let (t2, e2, h2) = transfer-OnTheWay rounds t1 h1 in
      (t2, bind_ok (transfer s rand rounds) e1 e2, h2)

  -- For every choice of the pending packets that are received, and after any number of rounds, the
  -- transfer of a slice has not ended the process: it never looks outside the pending packets, and never
  -- receives or sends when there is nothing to. One packet or more is pending unless as many packets were
  -- received as the slice has, and the packets sent are those received and those pending.
  pub run_safe :
      (draws rounds : ℕ)
      → (t : Transfer) × (run s rand draws rounds ≡ ok t)
        × ((t.num_packets_received ≡ s.total_num_pkts) ⊎ (0 < length t.pending))
        × (t.total_pkts_sent ≡ t.correct_pkts_received + length t.pending)
  run_safe draws rounds =
      let (t, e, h) = run-OnTheWay draws rounds in
      (t, e, received_or_pending s ready t h, omega (arith, h.sent, h.correct))

  -- Once the loop has received as many packets as the slice has, each packet of the slice was
  -- preprocessed once and postprocessed once, and none is pending.
  pub run_delivers :
      (draws rounds : ℕ) {t : Transfer}
      → run s rand draws rounds ≡ ok t
      → t.num_packets_received ≡ s.total_num_pkts
      → (m : ℕ) → m < s.total_num_pkts
      → (pres m t.calls ≡ 1) × (posts m t.calls ≡ 1) × (t.pending ≡ [])
  run_delivers draws rounds {t} e done m le =
      let (t', e', h') = run-OnTheWay draws rounds in
      let h : OnTheWay s t = subst (OnTheWay s) (ok_inj (sym e' ∙ e)) h' in
      let gone = all_gone s ready t h done in
      let once = all_posted s ready t h done m le in
      (omega (arith, h.prepared m, once, ap (asked m) gone), once, gone)
