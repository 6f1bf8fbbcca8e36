-- ===== src/Dummy/Setup.antt =====
-- dev_root/client_lib/src/backends/dummy/dummy_worker_thread.cc: the counts of a slice that
-- the worker thread computes from the configuration.
use p4app_switch_ml.Prelude.{ℕ, ◌/◌, ◌≤◌, ◌<◌, Bool, arith, u64_mod}
use native.Mathlib.Nat.{le-div_iff_mul-le}
use p4app_switch_ml.Dummy.{Slice, batch_num, total_num}
use p4app_switch_ml.Dummy.Delivery.{SliceReady}

-- The slice `s` with the counts that the worker thread computes for it, where SetupJobSlice returned
-- `total` and NeedsExtraBatch `extra`.
unfoldable pub setup_slice : ℕ → ℕ → ℕ → Bool → Slice → Slice
unfolding batch_num total_num
setup_slice max_outstanding_packets num_worker_threads total extra s =
    let batch = batch_num max_outstanding_packets num_worker_threads total in
    record s { batch_num_pkts = batch; total_num_pkts = total_num total batch extra }

-- With a worker thread, an outstanding packet or more for each, and a slice of one packet or more, the
-- batch has a packet and is no larger than the slice; no id of a packet reaches 2 ^ 64 where the counts
-- are far below it.
pub setup_slice-SliceReady :
    (mop n total : ℕ) (extra : Bool) (s : Slice)
    → 0 < n
    → n ≤ mop
    → 0 < total
    → total < u64_mod / 4
    → mop < u64_mod / 4
    → SliceReady (setup_slice mop n total extra s)
unfolding setup_slice total_num batch_num
setup_slice-SliceReady mop n total extra s threads some packets small few =
    let one : 1 ≤ mop / n = (le-div_iff_mul-le threads).1 (omega arith) in
    record { some = omega arith; batch = ground arith; narrow = ground arith }
