-- ===== src/Dispatch.antt =====
-- The worker threads of dev_root/client_lib/src/backends at the scheduler: each calls GetJobSlice, which
-- passes the barrier of schedulers/fifo_scheduler.cc and takes a slice, works on it, and calls
-- NotifyJobSliceCompletion, in a loop; the application submits jobs; in any interleaving of the parts
-- that hold the scheduler's lock or a job's, until Stop. The operations are those of Barrier, Scheduler and
-- Job.
pub mod Lists
pub mod Phases
pub mod Runs
pub mod Steps
pub mod Ends
pub mod Reached
pub mod Promises
pub mod Progress
mod Tests
pub mod Books
pub mod Slices
pub mod Endings
use p4app_switch_ml.Prelude.{
  ℕ, zero, suc, ◌≡◌, Bool, true, false, List, [], ◌∷◌, ◌++◌, some, get_elem?, set, elem, replicate,
  if◌then◌else◌,
}
use p4app_switch_ml.Outcome.{Outcome, ok}
use p4app_switch_ml.Barrier.{Barrier, sleeps, passes, arrive, may_leave}
use p4app_switch_ml.Job.{Jobs, init, finished, set_status_of}
use p4app_switch_ml.Scheduler.{
  Scheduler, JobSlice, new_scheduler, may_enter, has_work, enqueue_job, take_slice,
  notify_completion,
}

-- Where a worker thread is, and of how many slices it has notified the scheduler.
pub data Phase : Type 0 where
  -- About to call GetJobSlice.
  idle : ℕ → Phase
  -- Asleep in the barrier, with its copy of the flag.
  waiting : Bool → ℕ → Phase
  -- Past the barrier; it waits for a job.
  admitted : ℕ → Phase
  -- It works on a slice of the job with the first number.
  working : ℕ → ℕ → Phase
  -- It was the last to notify of a slice of that job, and is about to finish the job.
  finishing : ℕ → ℕ → Phase

pub record Pool : Type 0 where
  pub scheduler : Scheduler
  pub jobs : Jobs
  pub phases : List Phase
  -- All jobs that were submitted, in order.
  pub submitted : List ℕ

abbrev pub with_barrier : Scheduler → Barrier → Scheduler
with_barrier s b = record s { barrier = b }

-- `Context::NotifyJobSliceCompletion` goes on to finish the job after its last slice.
unfoldable pub after_notify : Bool → ℕ → ℕ → Phase
after_notify last j r = if last then finishing j r else idle (suc r)

pub data Step (p : Pool) : Pool → Type 0 where
  submit :
      (j : ℕ) (s : Scheduler) (jobs : Jobs)
      → elem j p.submitted ≡ false
      → (p.jobs j).status ≡ init
      → enqueue_job p.scheduler p.jobs j ≡ ok (s, jobs)
      → Step p (record p { scheduler = s; jobs = jobs; submitted = p.submitted ++ j ∷ [] })
  enter_sleeping :
      (i r : ℕ) (b : Barrier) (c : Bool)
      → get_elem? p.phases i ≡ some (idle r)
      → may_enter p.scheduler ≡ true
      → arrive p.scheduler.barrier ≡ ok (b, sleeps c)
      → Step p (record p {
        scheduler = with_barrier p.scheduler b;
        phases = set p.phases i (waiting c r);
      })
  enter_passing :
      (i r : ℕ) (b : Barrier)
      → get_elem? p.phases i ≡ some (idle r)
      → may_enter p.scheduler ≡ true
      → arrive p.scheduler.barrier ≡ ok (b, passes)
      → Step p (record p {
        scheduler = with_barrier p.scheduler b;
        phases = set p.phases i (admitted r);
      })
  leave :
      (i r : ℕ) (c : Bool)
      → get_elem? p.phases i ≡ some (waiting c r)
      → may_leave p.scheduler.barrier c ≡ true
      → Step p (record p { phases = set p.phases i (admitted r) })
  take :
      (i r : ℕ) (slice : JobSlice) (s : Scheduler) (jobs : Jobs)
      → get_elem? p.phases i ≡ some (admitted r)
      → has_work p.scheduler ≡ true
      → take_slice p.scheduler p.jobs i ≡ ok (some slice, s, jobs)
      → Step p
          (record p { scheduler = s; jobs = jobs; phases = set p.phases i (working slice.job r) })
  notify :
      (i j r : ℕ) (last : Bool) (s : Scheduler) (jobs : Jobs)
      → get_elem? p.phases i ≡ some (working j r)
      → notify_completion p.scheduler p.jobs j ≡ ok (last, s, jobs)
      → Step p
          (record p { scheduler = s; jobs = jobs; phases = set p.phases i (after_notify last j r) })
  finish :
      (i j r : ℕ) (jobs : Jobs)
      → get_elem? p.phases i ≡ some (finishing j r)
      → set_status_of p.jobs j finished ≡ ok jobs
      → Step p (record p { jobs = jobs; phases = set p.phases i (idle (suc r)) })

pub data Reach (origin : Pool) : Pool → Type 0 where
  at_start : Reach origin origin
  after : {p q : Pool} → Step p q → Reach origin p → Reach origin q

-- A new scheduler and its worker threads, before any job.
abbrev pub start : ℕ → Jobs → Pool
start n jobs = record {
  scheduler = new_scheduler n;
  jobs = jobs;
  phases = replicate n (idle 0);
  submitted = [];
}
