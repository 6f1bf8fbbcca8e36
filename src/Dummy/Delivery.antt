-- ===== src/Dummy/Delivery.antt =====
-- The packets of a slice between two rounds of dev_root/client_lib/src/backends/dummy/dummy_worker_thread.cc.
use p4app_switch_ml.Prelude.{
  sum_below, sum_add, sum_ones, sum_zero, sum_none, ℕ, zero, suc, ◌+◌, ◌%◌, ◌≤◌, ◌<◌, ◌≡◌, ◌≢◌,
  refl, sym, inl, inr, ◌⊎◌, false, arith, Bool-cases, ltb, ◌==◌, ==→eq, if◌then◌else◌, List, [],
  ◌∷◌, length, length-append, u64_mod,
}
use native.Mathlib.Nat.{mod-lt}
use p4app_switch_ml.Outcome.{ok}
use p4app_switch_ml.Dummy.{
  DummyPacket, Slice, Transfer, new_packet, first_batch_pkts, first_batch_calls, send_burst,
  send_first_batch,
}
use p4app_switch_ml.Dummy.Chains.{leads, same, leads_first, leads_self}
use p4app_switch_ml.Dummy.Bursts.{tally, tally-append, pres, posts}
use p4app_switch_ml.Dummy.Totals.{sum_posts}
use p4app_switch_ml.Dummy.Answers.{is_out, is_post, is_stray, waits, asked}

-- A slice as the worker thread sets it up: a batch of one packet or more, no larger than the slice, and
-- ids that stay below 2 ^ 64.
pub record SliceReady (s : Slice) : Type 0 where
  pub some : 0 < s.batch_num_pkts
  pub batch : s.batch_num_pkts ≤ s.total_num_pkts
  pub narrow : s.total_num_pkts + s.batch_num_pkts ≤ u64_mod

-- Between two rounds, with no packet in the hands of the worker thread. A packet was postprocessed, or
-- one packet that is pending leads to it; a packet was preprocessed when it was postprocessed or is
-- pending; only packets of the slice are about, and the counters are right.
pub record OnTheWay (s : Slice) (t : Transfer) : Type 0 where
  pub covered :
      (m : ℕ) → m < s.total_num_pkts → posts m t.calls + waits s.batch_num_pkts m t.pending ≡ 1
  pub prepared : (m : ℕ) → pres m t.calls ≡ posts m t.calls + asked m t.pending
  pub strays : tally (is_stray s.total_num_pkts) t.calls ≡ 0
  pub small : tally (is_out s.total_num_pkts) t.pending ≡ 0
  pub counted : t.num_packets_received ≡ tally is_post t.calls
  pub correct : t.correct_pkts_received ≡ t.num_packets_received
  pub sent : t.total_pkts_sent ≡ t.num_packets_received + length t.pending

-- The state before the first batch.
abbrev pub start : ℕ → Transfer
start draws = record {
  pending = [];
  calls = [];
  draws = draws;
  num_packets_received = 0;
  total_pkts_sent = 0;
  correct_pkts_received = 0;
}

module _ (s : Slice) (ready : SliceReady s) where
  record FirstBatch (n : ℕ) : Type 0 where
    pub waiting :
        (m : ℕ)
        → waits s.batch_num_pkts m (first_batch_pkts s n)
          ≡ (if ltb (m % s.batch_num_pkts) n then 1 else 0)
    pub asking : (m : ℕ) → pres m (first_batch_calls s n []) ≡ asked m (first_batch_pkts s n)
    pub none_posted : (m : ℕ) → posts m (first_batch_calls s n []) ≡ 0
    pub none_stray : tally (is_stray s.total_num_pkts) (first_batch_calls s n []) ≡ 0
    pub none_counted : tally is_post (first_batch_calls s n []) ≡ 0
    pub small : tally (is_out s.total_num_pkts) (first_batch_pkts s n) ≡ 0
    pub long : length (first_batch_pkts s n) ≡ n

  first_batch_lem : (n : ℕ) → n ≤ s.batch_num_pkts → FirstBatch n
  unfolding first_batch_pkts first_batch_calls new_packet
  first_batch_lem zero h = record {
    waiting = λ m. ground arith;
    asking = λ m. refl;
    none_posted = λ m. refl;
    none_stray = refl;
    none_counted = refl;
    small = refl;
    long = refl;
  }
  first_batch_lem (suc n) h =
      let rest = first_batch_lem n (omega arith) in
      let new = new_packet s n ∷ [] in
      record {
        waiting = λ m. ground (
          arith,
          rest.waiting m,
          tally-append (λ p. leads s.batch_num_pkts m p.pkt_id) (first_batch_pkts s n) new,
          leads_first s.batch_num_pkts m n (omega arith),
        );
        asking = λ m.
            omega (
              arith,
              rest.asking m,
              tally-append (λ p. same m p.pkt_id) (first_batch_pkts s n) new,
            );
        none_posted = λ m. omega (arith, rest.none_posted m);
        none_stray = omega (arith, rest.none_stray);
        none_counted = omega (arith, rest.none_counted);
        small = ground (
          arith,
          ready.batch,
          rest.small,
          tally-append (is_out s.total_num_pkts) (first_batch_pkts s n) new,
        );
        long = omega (arith, rest.long, length-append (first_batch_pkts s n) new);
      }

  pub send_first_batch-OnTheWay :
      (draws : ℕ) → (t : Transfer) × (send_first_batch s (start draws) ≡ ok t) × OnTheWay s t
  unfolding send_first_batch send_burst
  send_first_batch-OnTheWay draws =
      let batch = s.batch_num_pkts in
      let first = first_batch_lem batch (omega arith) in
      let some : (length (first_batch_pkts s batch) == 0) ≡ false =
        ground (arith, first.long, ready.some) in
      (
        record (start draws) {
          calls = first_batch_calls s batch [];
          pending = first_batch_pkts s batch;
          total_pkts_sent = 0 + length (first_batch_pkts s batch);
        },
        rw some refl,
        record {
          covered =
              λ m le. ground (arith, first.waiting m, first.none_posted m, mod-lt m ready.some);
          prepared = λ m. omega (arith, first.asking m, first.none_posted m);
          strays = first.none_stray;
          small = first.small;
          counted = sym first.none_counted;
          correct = refl;
          sent = omega arith;
        },
      )

  -- The packets received, and those waited for, are all the packets of the slice.
  pub conservation :
      (t : Transfer)
      → OnTheWay s t
      → t.num_packets_received
          + sum_below s.total_num_pkts (λ m. waits s.batch_num_pkts m t.pending)
        ≡ s.total_num_pkts
  conservation t h =
      let total = s.total_num_pkts in
      omega (
        arith,
        h.counted,
        sum_posts total t.calls h.strays,
        sum_add total (λ m. posts m t.calls) (λ m. waits s.batch_num_pkts m t.pending),
        sum_ones total (λ m. posts m t.calls + waits s.batch_num_pkts m t.pending) h.covered,
      )

  none_waiting :
      (ps : List DummyPacket)
      → length ps ≡ 0
      → sum_below s.total_num_pkts (λ m. waits s.batch_num_pkts m ps) ≡ 0
  none_waiting [] h = sum_none s.total_num_pkts
  none_waiting (p ∷ ps) h = absurd (omega arith)

  -- Until all packets are received, one is pending.
  pub some_pending :
      (t : Transfer)
      → OnTheWay s t
      → t.num_packets_received ≢ s.total_num_pkts
      → 0 < length t.pending
  some_pending t h more = elim (Bool-cases (length t.pending == 0)) [
    | inl none_left ↦
        absurd
          (more (omega (arith, conservation t h, none_waiting t.pending (==→eq _ _ none_left))))
    | inr some_left ↦ ground arith
  ]

  pub received_or_pending :
      (t : Transfer)
      → OnTheWay s t
      → (t.num_packets_received ≡ s.total_num_pkts) ⊎ (0 < length t.pending)
  received_or_pending t h = elim (Bool-cases (t.num_packets_received == s.total_num_pkts)) [
    | inl all_in ↦ inl (==→eq _ _ all_in)
    | inr more ↦ inr (some_pending t h (λ e. ground (arith, more, e)))
  ]

  -- When all packets are received, each was postprocessed once.
  pub all_posted :
      (t : Transfer)
      → OnTheWay s t
      → t.num_packets_received ≡ s.total_num_pkts
      → (m : ℕ) → m < s.total_num_pkts
      → posts m t.calls ≡ 1
  all_posted t h done m le = omega (
    arith,
    h.covered m le,
    sum_zero s.total_num_pkts (λ m. waits s.batch_num_pkts m t.pending)
        (omega (arith, conservation t h)) m le,
  )

  -- When all packets are received, none is pending.
  pub all_gone :
      (t : Transfer) → OnTheWay s t → t.num_packets_received ≡ s.total_num_pkts → t.pending ≡ []
  all_gone t h done =
      gone t.pending h.small (λ m le. omega (arith, h.covered m le, all_posted t h done m le))
    where
      gone :
          (ps : List DummyPacket)
          → tally (is_out s.total_num_pkts) ps ≡ 0
          → ((m : ℕ) → m < s.total_num_pkts → waits s.batch_num_pkts m ps ≡ 0)
          → ps ≡ []
      gone [] small waiting = refl
      gone (p ∷ ps) small waiting = absurd (
          omega
            (arith, leads_self s.batch_num_pkts p.pkt_id, waiting p.pkt_id (ground (arith, small))))
