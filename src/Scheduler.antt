-- ===== src/Scheduler.antt =====
-- The FIFO scheduler of dev_root/client_lib/src/scheduler.{h,cc} and schedulers/fifo_scheduler.{h,cc}.
-- `GetJobSlice` gives up the mutex twice, at the barrier and while it waits for a job, so it is
-- three atomic parts: `may_enter`, the barrier's `Wait`, and `take_slice` once `has_work` holds.
-- `Stop` takes the mutex twice too: `set_stopped`, then `drain`.
pub mod Slices
mod Tests
pub mod Tables
use p4app_switch_ml.Prelude.{
  ℕ, ◌+◌, ◌-◌, ◌*◌, ◌/◌, ◌%◌, Bool, true, false, not, ◌||◌, ltb, ◌==◌, if◌then◌else◌, List, [], ◌∷◌,
  ◌++◌, Option, none, some, u32_mod, u64_mod,
}
use p4app_switch_ml.Outcome.{
  Outcome, ok, crash, fatal, out_of_range, undefined, crash_if, ◌>>=◌, ◌>>◌,
}
use p4app_switch_ml.Common.{Tensor, offset_ptrs}
use p4app_switch_ml.Barrier.{Barrier, new_barrier, destroy}
use p4app_switch_ml.Job.{Job, Jobs, queued, running, failed, set_status_of}
use Tables.{Counters, empty, insert, at, put, erase}

-- `struct JobSlice`, with the job by its id.
pub record JobSlice : Type 0 where
  pub job : ℕ
  pub slice : Tensor

pub record Scheduler : Type 0 where
  pub num_worker_threads : ℕ
  pub stopped : Bool
  pub queue : List ℕ
  pub finished_job_slices : Counters
  pub undispatched_job_slices : Counters
  pub barrier : Barrier

-- The constructors of `Scheduler` and `FifoScheduler`.
unfoldable pub new_scheduler : ℕ → Scheduler
new_scheduler n = record {
  num_worker_threads = n;
  stopped = false;
  queue = [];
  finished_job_slices = empty;
  undispatched_job_slices = empty;
  barrier = new_barrier n;
}

-- `EnqueueJob`.
unfoldable pub enqueue_job : Scheduler → Jobs → ℕ → Outcome (Scheduler × Jobs)
enqueue_job s jobs j = do
  jobs' ← set_status_of jobs j queued
  ok (
    record s {
      finished_job_slices = insert s.finished_job_slices j 0;
      undispatched_job_slices = insert s.undispatched_job_slices j s.num_worker_threads;
      queue = s.queue ++ j ∷ [];
    },
    jobs',
  )

-- How many elements worker thread `tid` of `n` gets, and from where. `tid` is not negative.
unfoldable pub slice_numel : ℕ → ℕ → ℕ → ℕ
slice_numel n numel tid = if ltb tid (numel % n) then (numel / n + 1) % u64_mod else numel / n

unfoldable pub slice_offset : ℕ → ℕ → ℕ → ℕ
slice_offset n numel tid =
    if ltb tid (numel % n)
    then tid * slice_numel n numel tid % u64_mod
    else (tid * slice_numel n numel tid + numel % n) % u64_mod

unfoldable pub construct_slice : ℕ → Tensor → ℕ → Tensor
construct_slice n t tid =
    offset_ptrs (record t { numel = slice_numel n t.numel tid }) (slice_offset n t.numel tid)

-- The first test of `GetJobSlice`.
unfoldable pub may_enter : Scheduler → Bool
may_enter s = not s.stopped

unfoldable pub is_empty : List ℕ → Bool
is_empty [] = true
is_empty (_ ∷ _) = false

-- The predicate of `job_submitted_event_`.
unfoldable pub has_work : Scheduler → Bool
unfolding is_empty
has_work s = s.stopped || not (is_empty s.queue)

-- An `int` counter as its bit pattern.
abbrev pub pred32 : ℕ → ℕ
pred32 c = (c + u32_mod - 1) % u32_mod

-- The counter of the front job, after its decrement: at 0 the job leaves the queue.
unfoldable pub dispatched : Scheduler → ℕ → List ℕ → ℕ → Scheduler
dispatched s j rest left =
    if left == 0
    then record s { queue = rest; undispatched_job_slices = erase s.undispatched_job_slices j }
    else record s { undispatched_job_slices = put s.undispatched_job_slices j left }

unfoldable pub take_front :
    Scheduler → Jobs → ℕ → List ℕ → Outcome (Option JobSlice × Scheduler × Jobs)
take_front s jobs tid [] = crash undefined
take_front s jobs tid (j ∷ rest) = do
  c ← at s.undispatched_job_slices j
  crash_if (s.num_worker_threads == 0) undefined
  jobs' ← set_status_of jobs j running
  ok (
    some (record { job = j; slice = construct_slice s.num_worker_threads (jobs j).tensor tid }),
    dispatched s j rest (pred32 c),
    jobs',
  )

-- `GetJobSlice` from the wait for a job on: `none` is its result `false`.
unfoldable pub take_slice : Scheduler → Jobs → ℕ → Outcome (Option JobSlice × Scheduler × Jobs)
unfolding take_front
take_slice s jobs tid = if s.stopped then ok (none, s, jobs) else take_front s jobs tid s.queue

-- The counter of a job's finished slices, after its increment.
unfoldable pub counted : Scheduler → ℕ → ℕ → Bool × Scheduler
counted s j f =
    if f == s.num_worker_threads
    then (true, record s { finished_job_slices = erase s.finished_job_slices j })
    else (false, record s { finished_job_slices = put s.finished_job_slices j f })

-- `NotifyJobSliceCompletion`.
unfoldable pub notify_completion : Scheduler → Jobs → ℕ → Outcome (Bool × Scheduler × Jobs)
notify_completion s jobs j =
    if s.stopped
    then (set_status_of jobs j failed >>= λ jobs'. ok (false, s, jobs'))
    else (at s.finished_job_slices j >>= λ f.
        let (last, s') = counted s j ((f + 1) % u32_mod) in ok (last, s', jobs))

-- `Scheduler::Stop`.
unfoldable pub set_stopped : Scheduler → Scheduler
set_stopped s = record s { stopped = true }

-- The loop of `FifoScheduler::Stop`.
unfoldable pub fail_all : Jobs → List ℕ → Outcome Jobs
fail_all jobs [] = ok jobs
fail_all jobs (j ∷ q) = set_status_of jobs j failed >>= λ jobs'. fail_all jobs' q

-- The rest of `FifoScheduler::Stop`.
unfoldable pub drain : Scheduler → Jobs → Outcome (Scheduler × Jobs)
drain s jobs = do
  jobs' ← fail_all jobs s.queue
  ok (
    record s {
      barrier = destroy s.barrier;
      queue = [];
      undispatched_job_slices = empty;
      finished_job_slices = empty;
    },
    jobs',
  )
