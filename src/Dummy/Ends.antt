-- ===== src/Dummy/Ends.antt =====
-- The end of the receive and send loop of dummy_worker_thread.cc.
use p4app_switch_ml.Prelude.{
  ℕ, zero, suc, ◌+◌, ◌-◌, ◌*◌, ◌%◌, ◌≤◌, ◌<◌, ◌≡◌, ◌≢◌, refl, subst, sym, ◌∙◌, ap, inl, inr, arith,
  Bool-cases, ltb, ltb→lt, ltb→le, ◌==◌, ==→eq, ne→==, if_true, if_false, length,
}
use p4app_switch_ml.Outcome.{ok, bind_ok}
use p4app_switch_ml.Dummy.{Slice, Transfer, iterate, receive_burst, receive_all, transfer}
use p4app_switch_ml.Dummy.Delivery.{
  SliceReady, OnTheWay, conservation, some_pending, send_first_batch-OnTheWay,
}
use p4app_switch_ml.Dummy.Rounds.{iterate-OnTheWay}
use p4app_switch_ml.Dummy.Loop.{run}

-- Among any `gap` numbers drawn in a row, for every size of two or more one is no multiple of it.
abbrev pub Varied : (ℕ → ℕ) → ℕ → Type 0
Varied rand gap = (d size : ℕ) → 0 < size → (e : ℕ) × (e < gap) × (0 < rand (d + e) % (size + 1))

ok_inj : {a b : Transfer} → ok a ≡ ok b → a ≡ b
ok_inj h = cc

module _ (s : Slice) (ready : SliceReady s) (rand : ℕ → ℕ) (gap : ℕ)
    (varied : Varied rand gap) where
  -- A round that receives nothing has only drawn a number.
  iterate_nothing :
      (t : Transfer)
      → 0 < length t.pending
      → rand t.draws % (length t.pending + 1) ≡ 0
      → iterate s rand t ≡ ok (record t { draws = t.draws + 1 })
  unfolding iterate receive_burst receive_all
  iterate_nothing t some none =
      rw (ne→== (length t.pending) 0 (λ e. omega (arith, e, some)), none) refl

  -- The number drawn `wait` rounds from now makes a burst receive a packet.
  abbrev Lively : ℕ → Transfer → Type 0
  Lively wait t = 0 < length t.pending → 0 < rand (t.draws + wait) % (length t.pending + 1)

  next_wait : (t : Transfer) → (wait : ℕ) × (wait < gap) × Lively wait t
  next_wait t = elim (Bool-cases (ltb 0 (length t.pending))) [
    | inl some ↦
        let (e, soon, lively) = varied t.draws (length t.pending) (ltb→lt _ _ some) in
        (e, soon, λ q. lively)
    | inr none ↦
        let (e, soon, _) = varied 0 1 (omega arith) in
        (0, omega (arith, soon), λ q. absurd (omega (arith, q, ltb→le _ _ none)))
  ]

  waiting :
      (t : Transfer) (wait : ℕ)
      → 0 < length t.pending
      → Lively wait t
      → rand t.draws % (length t.pending + 1) ≡ 0
      → 0 < wait
  waiting t zero some lively nothing =
      let at : t.draws + 0 ≡ t.draws = omega arith in
      absurd
        (omega (arith, nothing, subst (λ d. 0 < rand d % (length t.pending + 1)) at (lively some)))
  waiting t (suc wait) some lively nothing = omega arith

  -- `left` packets or fewer are missing.
  ends :
      (rounds left wait : ℕ) (t : Transfer)
      → OnTheWay s t
      → s.total_num_pkts ≤ t.num_packets_received + left
      → Lively wait t
      → left * gap + wait + 1 ≤ rounds + gap
      → (t' : Transfer) × (transfer s rand rounds t ≡ ok t')
        × (t'.num_packets_received ≡ s.total_num_pkts)
  unfolding transfer
  ends zero zero wait t h few lively enough =
      (t, refl, omega (arith, few, conservation s ready t h))
  ends zero (suc left) wait t h few lively enough = absurd (grind (arith, enough))
  ends (suc rounds) left wait t h few lively enough =
      elim (Bool-cases (t.num_packets_received == s.total_num_pkts)) [
        | inl all_in ↦ (t, if_true _ all_in, ==→eq _ _ all_in)
        | inr more ↦
            let missing : t.num_packets_received ≢ s.total_num_pkts =
              λ e. ground (arith, more, e) in
            let some = some_pending s ready t h missing in
            let (t1, e1, h1, got) = iterate-OnTheWay s ready rand t h missing in
            elim (Bool-cases (ltb 0 (rand t.draws % (length t.pending + 1)))) [
              | inl one ↦
                  let (wait', soon, lively') = next_wait t1 in
                  let whole = conservation s ready t h in
                  let split : left ≡ left - 1 + 1 = omega (arith, few, whole, missing) in
                  let fewer : left * gap ≡ (left - 1) * gap + gap =
                    ap (λ x. x * gap) split ∙ grind arith in
                  let (t2, e2, done) =
                    ends rounds (left - 1) wait' t1 h1
                      (omega (arith, few, got, ltb→lt _ _ one, split)) lively'
                      (omega (arith, fewer, enough, soon)) in
                  (t2, if_false _ more ∙ bind_ok _ e1 e2, done)
              | inr none ↦
                  let nothing : rand t.draws % (length t.pending + 1) ≡ 0 =
                    omega (arith, ltb→le _ _ none) in
                  let later : 0 < wait = waiting t wait some lively nothing in
                  let same : t1 ≡ record t { draws = t.draws + 1 } =
                    ok_inj (sym e1 ∙ iterate_nothing t some nothing) in
                  let at : t.draws + wait ≡ t.draws + 1 + (wait - 1) = omega (arith, later) in
                  let (t2, e2, done) =
                    ends rounds left (wait - 1) t1 h1 (omega (arith, few, got, nothing))
                      (subst (Lively (wait - 1)) (sym same)
                        (λ q. subst (λ d. 0 < rand d % (length t.pending + 1)) at (lively q)))
                      (omega (arith, enough, later)) in
                  (t2, if_false _ more ∙ bind_ok _ e1 e2, done)
            ]
      ]

  -- Where among any `gap` numbers drawn in a row, for every size of two or more, one is no multiple of
  -- it, `gap` rounds for each packet of the slice end the loop with all of them received.
  pub run-finishes :
      (draws : ℕ)
      → (t : Transfer) × (run s rand draws (s.total_num_pkts * gap) ≡ ok t)
        × (t.num_packets_received ≡ s.total_num_pkts)
  unfolding run
  run-finishes draws =
      let (t1, e1, h1) = send_first_batch-OnTheWay s ready draws in
      let (wait, soon, lively) = next_wait t1 in
      let (t2, e2, done) =
        ends (s.total_num_pkts * gap) s.total_num_pkts wait t1 h1 (omega arith) lively
          (omega (arith, soon)) in
      (t2, bind_ok (transfer s rand (s.total_num_pkts * gap)) e1 e2, done)
