-- ===== src/Job/Status.antt =====
-- What a job's status can do over its life, from job.cc.
use p4app_switch_ml.Prelude.{◌≤◌, ◌<◌, ◌≡◌, ◌↔◌, true, List, [], ◌∷◌, arith}
use p4app_switch_ml.Outcome.{Outcome, ok, crash, fatal, ◌>>=◌, bind_returned}
use p4app_switch_ml.Job.{Job, JobStatus, rank, set_job_status, wait_returns}

-- The calls of `SetJobStatus` on one job, in order.
unfoldable pub set_all : Job → List JobStatus → Outcome Job
set_all j [] = ok j
set_all j (s ∷ ss) = set_job_status j s >>= λ k. set_all k ss

-- A waiter's predicate holds exactly where the waiters have been woken.
pub record IsSignalled (j : Job) : Type 0 where
  pub woken : wait_returns j ≡ true → j.notified ≡ true
  pub done : j.notified ≡ true → wait_returns j ≡ true

-- From `j` to `k` the status has not gone back, a finished wait stays finished, and the waiters
-- are woken exactly when they can return.
pub record Progress (j k : Job) : Type 0 where
  pub forward : rank j.status ≤ rank k.status
  pub stays : wait_returns j ≡ true → wait_returns k ≡ true
  pub signalled : IsSignalled k
  pub same : k.id ≡ j.id

-- `SetJobStatus` aborts the process exactly when the new status stands before the current one.
pub set_job_status_fatal :
    (j : Job) (s : JobStatus) → (set_job_status j s ≡ crash fatal) ↔ (rank s < rank j.status)
unfolding set_job_status
set_job_status_fatal j s = (λ h. ground arith, λ h. ground arith)

set_job_status-Progress :
    (j : Job) (s : JobStatus) {k : Job} → IsSignalled j → set_job_status j s ≡ ok k → Progress j k
unfolding set_job_status wait_returns
set_job_status-Progress j s i h = ground arith

-- Whatever calls of `SetJobStatus` succeed on a job, in any order and number, the status has only
-- gone forward, a client that could stop waiting still can, and whoever waits has been woken
-- exactly when the job is finished or failed.
pub set_all-Progress :
    (j : Job) (ss : List JobStatus) {k : Job} → IsSignalled j → set_all j ss ≡ ok k → Progress j k
unfolding set_all
set_all-Progress j [] i h = ground arith
set_all-Progress j (s ∷ ss) i h =
    let (m, rest, e) = bind_returned (set_job_status j s) (λ k. set_all k ss) h in
    let first = set_job_status-Progress j s i e in
    ground (arith, first, set_all-Progress m ss first.signalled rest)
