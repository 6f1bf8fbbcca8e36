-- ===== src/Job/Tests.antt =====
-- A new job of three elements, and the theorems at it.
use p4app_switch_ml.Prelude.{◌≡◌, refl, true, [], ◌∷◌, List}
use p4app_switch_ml.Outcome.{ok}
use p4app_switch_ml.Common.{Tensor, int32}
use p4app_switch_ml.Job.{
  Job, JobStatus, allreduce, allreduce_operation, sum, queued, running, finished, set_job_status,
  wait_returns, new_job,
}
use p4app_switch_ml.Job.Status.{IsSignalled, Progress, set_all, set_all-Progress}

abbrev tensor : Tensor
tensor = record { in_ptr = 4096; out_ptr = 8192; numel = 3; data_type = int32 }

abbrev job : Job
job = (new_job 7 tensor allreduce (allreduce_operation sum)).0

abbrev done : Job
done = record job { status = finished; notified = true }

job-IsSignalled : IsSignalled job
unfolding new_job wait_returns
job-IsSignalled = record { woken = λ h. h; done = λ h. h }

abbrev life : List JobStatus
life = queued ∷ running ∷ running ∷ finished ∷ []

life_runs : set_all job life ≡ ok done
unfolding set_all set_job_status new_job
life_runs = refl

set_all-Progress_example : Progress job done
set_all-Progress_example = set_all-Progress job life job-IsSignalled life_runs
