-- ===== src/Dispatch/Tests.antt =====
-- Two worker threads and one job: the second thread works on it, the first is past the barrier.
use p4app_switch_ml.Prelude.{ℕ, ◌≡◌, ◌↔◌, ◌<◌, refl, false, some, arith, get_elem?, All}
use p4app_switch_ml.Common.{float32}
use p4app_switch_ml.Barrier.{new_barrier, arrive, may_leave}
use p4app_switch_ml.Job.{
  Jobs, allreduce, allreduce_operation, sum, init, finished, set_job_status, set_status_of,
}
use p4app_switch_ml.Scheduler.{
  new_scheduler, may_enter, has_work, enqueue_job, take_slice, take_front, dispatched,
}
use p4app_switch_ml.TimeoutQueue.Order.{Distinct}
use p4app_switch_ml.Dispatch.{
  Pool, Reach, Step, start, at_start, after, submit, enter_sleeping, enter_passing, leave, take,
}
use p4app_switch_ml.Dispatch.Promises.{completed, works_in_order, finished_lem}
use p4app_switch_ml.Dispatch.Progress.{not_stuck}

abbrev new_jobs : Jobs
new_jobs id = record {
  id = id;
  tensor = record { in_ptr = 0; out_ptr = 64; numel = 3; data_type = float32 };
  job_type = allreduce;
  extra_job_info = allreduce_operation sum;
  status = init;
  notified = false;
}

mid_run : (p : Pool) × Reach (start 2 new_jobs) p
unfolding new_scheduler new_barrier enqueue_job set_status_of set_job_status may_enter arrive
    has_work take_slice take_front dispatched may_leave
mid_run = (
  _,
  after (leave 0 0 _ refl refl) (
      after (take 1 0 _ _ _ refl refl refl) (
        after (enter_passing 1 0 _ refl refl refl) (
          after (enter_sleeping 0 0 _ _ refl refl refl)
            (after (submit 7 _ _ refl refl refl) at_start)))),
)

works_in_order_example :
    (get_elem? (mid_run.0).submitted 0 ≡ some 7)
    × Distinct (mid_run.0).submitted
    × (◌≡◌ {A = ℕ} 7 7)
    × (◌≡◌ {A = ℕ} 0 0)
unfolding mid_run new_scheduler new_barrier enqueue_job set_status_of set_job_status may_enter
    arrive has_work take_slice take_front dispatched may_leave
works_in_order_example =
    works_in_order 2 new_jobs 1 7 0 1 7 0 (omega arith) (omega arith) mid_run.1 refl refl

finished_lem_example :
    (((mid_run.0).jobs 7).status ≡ finished) ↔ All (λ x. 0 < completed x) (mid_run.0).phases
unfolding mid_run new_scheduler new_barrier enqueue_job set_status_of set_job_status may_enter
    arrive has_work take_slice take_front dispatched may_leave
finished_lem_example = finished_lem 2 new_jobs 0 7 (omega arith) (omega arith) mid_run.1 refl

not_stuck_example : (p' : Pool) × Step mid_run.0 p' × (p'.submitted ≡ (mid_run.0).submitted)
unfolding mid_run new_scheduler new_barrier enqueue_job set_status_of set_job_status may_enter
    arrive has_work take_slice take_front dispatched may_leave
not_stuck_example =
    not_stuck 2 new_jobs 0 7 (omega arith) (omega arith) mid_run.1 refl (λ h. absurd (not_yet h))
  where
    not_yet : ((mid_run.0).jobs 7).status ≡ finished → ⊥
    not_yet h = cc
