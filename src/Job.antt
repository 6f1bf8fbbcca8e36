-- ===== src/Job.antt =====
-- dev_root/client_lib/src/job.h and job.cc. A job is shared by pointer between the client, the
-- scheduler and the worker threads; here the jobs stand in a store under their ids.
pub mod Status
mod Tests
use p4app_switch_ml.Prelude.{
  ℕ, ◌+◌, ◌%◌, Bool, true, false, ◌||◌, ltb, ◌==◌, if◌then◌else◌, update, u64_mod,
}
use p4app_switch_ml.Outcome.{Outcome, ok, fatal, crash_if, ◌>>=◌, ◌>>◌}
use p4app_switch_ml.Common.{Tensor}

pub data JobType : Type 0 where
  allreduce broadcast : JobType

pub data AllReduceOperation : Type 0 where
  sum : AllReduceOperation

-- A union of the source; the job type says which member is in use.
pub data ExtraJobInfo : Type 0 where
  allreduce_operation : AllReduceOperation → ExtraJobInfo
  broadcast_root_rank : ℕ → ExtraJobInfo

pub data JobStatus : Type 0 where
  init queued running finished failed : JobStatus

-- The enum's values, by which the source compares two of them.
abbrev pub rank : JobStatus → ℕ
rank init = 0
rank queued = 1
rank running = 2
rank finished = 3
rank failed = 4

-- The test in `WaitToComplete` and in `SetJobStatus`.
abbrev pub is_over : JobStatus → Bool
is_over failed = true
is_over finished = true
is_over _ = false

-- `notified` says whether `job_finished_event_` has been signalled.
pub record Job : Type 0 where
  pub id : ℕ
  pub tensor : Tensor
  pub job_type : JobType
  pub extra_job_info : ExtraJobInfo
  pub status : JobStatus
  pub notified : Bool

-- The constructor, which takes the class's counter `next_id_` and returns it incremented.
unfoldable pub new_job : ℕ → Tensor → JobType → ExtraJobInfo → Job × ℕ
new_job next_id t ty extra = (
  record {
    id = next_id;
    tensor = t;
    job_type = ty;
    extra_job_info = extra;
    status = init;
    notified = false;
  },
  (next_id + 1) % u64_mod,
)

-- `GetJobStatus`.
unfoldable pub get_job_status : Job → JobStatus
get_job_status j = j.status

-- `SetJobStatus`: going back is fatal; the two final states wake the waiting threads.
unfoldable pub set_job_status : Job → JobStatus → Outcome Job
set_job_status j s = do
  crash_if (ltb (rank s) (rank j.status)) fatal
  ok (record j { status = s; notified = j.notified || is_over s })

-- `WaitToComplete` can return: the waiting thread is awake and its predicate holds. A thread that
-- comes late tests the predicate before it sleeps.
unfoldable pub wait_returns : Job → Bool
wait_returns j = is_over j.status

-- The jobs by id, as the shared pointers reach them.
abbrev pub Jobs : Type 0
Jobs = ℕ → Job

unfoldable pub set_status_of : Jobs → ℕ → JobStatus → Outcome Jobs
set_status_of jobs i s = do j ← set_job_status (jobs i) s; ok (update jobs i j)
