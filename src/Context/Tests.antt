-- ===== src/Context/Tests.antt =====
-- A context that was started, and one job that was submitted and enqueued.
use p4app_switch_ml.Prelude.{ℕ, ◌≡◌, ◌↔◌, refl, arith, true, Bool, some}
use p4app_switch_ml.Outcome.{Outcome, ok, crash}
use p4app_switch_ml.Common.{Tensor, int32}
use p4app_switch_ml.Job.{
  Jobs, new_job, set_status_of, set_job_status, allreduce, allreduce_operation, sum, ExtraJobInfo,
}
use p4app_switch_ml.Barrier.{new_barrier}
use p4app_switch_ml.Scheduler.{Scheduler, new_scheduler, enqueue_job}
use p4app_switch_ml.Config.{
  assign, validate, validate_threads, validate_rdma, whole_packets, whole_messages,
  round_outstanding,
}
use p4app_switch_ml.Config.Tests.{features, asked, node_files}
use p4app_switch_ml.Stats.{new_stats, init_stats, reset_stats}
use p4app_switch_ml.Context.{
  Context, new_context, start, chosen_config, create_job, count_job, submit, all_done,
}
use p4app_switch_ml.Context.Counts.{is_current}
use p4app_switch_ml.Context.Traffic.{Traffic, Reach, starts, moves, creates, counts, enqueues}
use p4app_switch_ml.Context.Moves.{Counted}
use p4app_switch_ml.Context.Reached.{Reach-Counted, all_done_lem}

abbrev tensor : Tensor
tensor = record { in_ptr = 4096; out_ptr = 8192; numel = 10; data_type = int32 }

abbrev summed : ExtraJobInfo
summed = allreduce_operation sum

no_jobs : Jobs
unfolding new_job
no_jobs id = (new_job id tensor allreduce summed).0

no_scheduler : Scheduler
unfolding new_scheduler new_barrier
no_scheduler = new_scheduler 0

abbrev value : Outcome (Bool × Context) → Context → Context
value (ok v) other = v.1
value (crash why) other = other

fresh_context : Context
unfolding new_context new_stats
fresh_context = new_context asked no_scheduler no_jobs

started : Context
unfolding fresh_context no_scheduler no_jobs start chosen_config assign validate validate_threads
    validate_rdma whole_packets whole_messages round_outstanding new_scheduler new_barrier
    init_stats reset_stats
started = value (start features node_files fresh_context (some asked)) fresh_context

path : (p : Traffic) × Reach p
unfolding started fresh_context no_scheduler no_jobs start chosen_config assign validate
    validate_threads validate_rdma whole_packets whole_messages round_outstanding new_scheduler
    new_barrier init_stats reset_stats new_context new_stats create_job count_job submit enqueue_job
    new_job set_status_of set_job_status
path = (
  _,
  moves (enqueues 0 refl refl) (
      moves (counts 0 refl) (
        moves (creates tensor allreduce summed (omega arith) refl) (
          starts {ctx = started} features node_files asked no_scheduler no_jobs (some asked)
            refl))),
)

Reach-Counted_example : Counted path.0
Reach-Counted_example = Reach-Counted path.1

all_done_lem_example :
    (all_done (path.0).ctx ≡ true) ↔ ((j : ℕ) → is_current ((path.0).stage j) ≡ 0)
all_done_lem_example = all_done_lem path.1
