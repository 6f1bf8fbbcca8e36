-- ===== src/Dummy/Tests.antt =====
-- Five packets in batches of two, where every draw is one.
use p4app_switch_ml.Prelude.{
  Bool-cases, inl, inr, ◌==◌, ◌+◌, ◌%◌, ℕ, ◌+◌, ◌%◌, ◌<◌, ◌≡◌, ◌⊎◌, true, [], length, arith,
}
use native.Mathlib.Nat.{mod-eq_of_lt}
use p4app_switch_ml.Outcome.{ok}
use p4app_switch_ml.Common.{int32}
use p4app_switch_ml.Dummy.{Slice, Transfer}
use p4app_switch_ml.Dummy.Bursts.{pres, posts}
use p4app_switch_ml.Dummy.Delivery.{SliceReady}
use p4app_switch_ml.Dummy.Loop.{run, run_safe, run_delivers}
use p4app_switch_ml.Dummy.Ends.{Varied, run-finishes}

abbrev five : Slice
five = record {
  job_id = 7;
  packet_numel = 256;
  data_type = int32;
  outstanding_entries = 4096;
  outstanding_extra_info = 8192;
  batch_num_pkts = 2;
  total_num_pkts = 5;
  process_packets = true;
}

five-SliceReady : SliceReady five
five-SliceReady = record { some = omega arith; batch = omega arith; narrow = omega arith }

abbrev ones : ℕ → ℕ
ones draw = 1

-- Every other number is zero.
abbrev turns : ℕ → ℕ
turns draw = draw % 2

turns-Varied : Varied turns 2
turns-Varied d size some =
    let small : 1 % (size + 1) ≡ 1 = mod-eq_of_lt (omega (arith, some)) in
    elim (Bool-cases (d % 2 == 0)) [
      | inl even ↦
          let odd : (d + 1) % 2 ≡ 1 = ground (arith, even) in
          (1, omega arith, rw odd (omega (arith, small)))
      | inr odd ↦
          let here : (d + 0) % 2 ≡ 1 = ground (arith, odd) in
          (0, omega arith, rw here (omega (arith, small)))
    ]

run_safe_example :
    (t : Transfer) × (run five ones 0 3 ≡ ok t)
    × ((t.num_packets_received ≡ 5) ⊎ (0 < length t.pending))
    × (t.total_pkts_sent ≡ t.correct_pkts_received + length t.pending)
run_safe_example = run_safe five five-SliceReady ones 0 3

run-finishes_example : (t : Transfer) × (run five turns 0 10 ≡ ok t) × (t.num_packets_received ≡ 5)
run-finishes_example = run-finishes five five-SliceReady turns 2 turns-Varied 0

five_ends : (t : Transfer) × (run five turns 0 10 ≡ ok t) × (t.num_packets_received ≡ 5)
five_ends = run-finishes five five-SliceReady turns 2 turns-Varied 0

run_delivers_example :
    (pres 4 five_ends.0.calls ≡ 1) × (posts 4 five_ends.0.calls ≡ 1) × (five_ends.0.pending ≡ [])
run_delivers_example =
    run_delivers five five-SliceReady turns 0 10 five_ends.1 five_ends.2 4 (omega arith)
