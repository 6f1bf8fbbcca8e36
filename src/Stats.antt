-- ===== src/Stats.antt =====
-- dev_root/client_lib/src/stats.{h,cc}: the counters. The arrays have one element for each worker thread,
-- and `initialized` says that they were allocated. The counters are of 64 bits. What LogStats prints is not
-- modelled.
use p4app_switch_ml.Prelude.{
  ℕ, ◌+◌, ◌%◌, Bool, true, false, List, [], ◌∷◌, ◌++◌, ltb, leb, not, ◌^◌, if◌then◌else◌, update,
  u16_mod, u64_mod,
}
use p4app_switch_ml.Outcome.{Outcome, ok, fatal, out_of_range, undefined, crash_if, ◌>>=◌, ◌>>◌}

pub record Stats : Type 0 where
  pub num_worker_threads : ℕ
  pub initialized : Bool
  pub jobs_submitted_num : ℕ
  pub jobs_submitted_numel : List ℕ
  pub jobs_finished_num : ℕ
  pub total_pkts_sent : ℕ → ℕ
  pub wrong_pkts_received : ℕ → ℕ
  pub correct_pkts_received : ℕ → ℕ
  pub timeouts_num : ℕ → ℕ

-- The constructor.
unfoldable pub new_stats : Stats
new_stats = record {
  num_worker_threads = 0;
  initialized = false;
  jobs_submitted_num = 0;
  jobs_submitted_numel = [];
  jobs_finished_num = 0;
  total_pkts_sent = λ tid. 0;
  wrong_pkts_received = λ tid. 0;
  correct_pkts_received = λ tid. 0;
  timeouts_num = λ tid. 0;
}

-- The loop of `ResetStats` over an array: the elements of the worker threads become zero.
unfoldable pub cleared : ℕ → (ℕ → ℕ) → ℕ → ℕ
cleared n counts tid = if ltb tid n then 0 else counts tid

unfoldable pub reset_stats : Stats → Stats
unfolding cleared
reset_stats s = record s {
  jobs_submitted_num = 0;
  jobs_submitted_numel = [];
  jobs_finished_num = 0;
  total_pkts_sent = cleared s.num_worker_threads s.total_pkts_sent;
  wrong_pkts_received = cleared s.num_worker_threads s.wrong_pkts_received;
  correct_pkts_received = cleared s.num_worker_threads s.correct_pkts_received;
  timeouts_num = cleared s.num_worker_threads s.timeouts_num;
}

-- `num_worker_threads` is an `int16_t`, and arrays of a negative length cannot be allocated.
unfoldable pub init_stats : Stats → ℕ → Outcome Stats
unfolding reset_stats
init_stats s n = do
  crash_if s.initialized fatal
  let threads = n % u16_mod
  crash_if (leb (2 ^ 15) threads) out_of_range
  ok (reset_stats (record s { num_worker_threads = threads; initialized = true }))

unfoldable pub inc_jobs_submitted_num : Stats → Stats
inc_jobs_submitted_num s = record s { jobs_submitted_num = (s.jobs_submitted_num + 1) % u64_mod }

unfoldable pub append_job_submitted_numel : Stats → ℕ → Stats
append_job_submitted_numel s size = record s {
  jobs_submitted_numel = s.jobs_submitted_numel ++ (size ∷ []);
}

unfoldable pub inc_jobs_finished_num : Stats → Stats
inc_jobs_finished_num s = record s { jobs_finished_num = (s.jobs_finished_num + 1) % u64_mod }

-- An element of an array; an index of no worker thread is undefined behaviour.
unfoldable pub add_to : ℕ → (ℕ → ℕ) → ℕ → ℕ → Outcome (ℕ → ℕ)
add_to n counts tid to_add = do
  crash_if (not (ltb tid n)) undefined
  ok (update counts tid ((counts tid + to_add) % u64_mod))

unfoldable pub add_total_pkts_sent : Stats → ℕ → ℕ → Outcome Stats
unfolding add_to
add_total_pkts_sent s tid to_add = do
  counts ← add_to s.num_worker_threads s.total_pkts_sent tid to_add
  ok (record s { total_pkts_sent = counts })

unfoldable pub add_correct_pkts_received : Stats → ℕ → ℕ → Outcome Stats
unfolding add_to
add_correct_pkts_received s tid to_add = do
  counts ← add_to s.num_worker_threads s.correct_pkts_received tid to_add
  ok (record s { correct_pkts_received = counts })

unfoldable pub add_wrong_pkts_received : Stats → ℕ → ℕ → Outcome Stats
unfolding add_to
add_wrong_pkts_received s tid to_add = do
  counts ← add_to s.num_worker_threads s.wrong_pkts_received tid to_add
  ok (record s { wrong_pkts_received = counts })

unfoldable pub add_timeouts : Stats → ℕ → ℕ → Outcome Stats
unfolding add_to
add_timeouts s tid to_add = do
  counts ← add_to s.num_worker_threads s.timeouts_num tid to_add
  ok (record s { timeouts_num = counts })
