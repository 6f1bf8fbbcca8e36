-- ===== src/Context/Traffic.antt =====
-- What the threads that share the context of context.cc do after `Start`: the parts of `AllReduceAsync`,
-- `GetJobSlice` and `NotifyJobSliceCompletion` in any interleaving. The stage of a job says which parts of
-- its submission and of its completion are done.
use p4app_switch_ml.Prelude.{ℕ, ◌+◌, ◌^◌, ◌<◌, ◌≡◌, Bool, true, if◌then◌else◌, Option, update}
use p4app_switch_ml.Outcome.{ok}
use p4app_switch_ml.Common.{Tensor}
use p4app_switch_ml.Job.{Jobs, JobType, ExtraJobInfo}
use p4app_switch_ml.Scheduler.{Scheduler, JobSlice}
use p4app_switch_ml.Config.{Config, Features}
use p4app_switch_ml.Config.Load.{Files}
use p4app_switch_ml.Context.{
  Context, new_context, start, create_job, count_job, submit, count_submitted, get_job_slice,
  notify_scheduler, mark_finished, count_down,
}
use p4app_switch_ml.Context.Counts.{
  Stage, fresh, made, counted_in, enqueued, notified, marked, over,
}

pub record Traffic : Type 0 where
  pub ctx : Context
  pub stage : ℕ → Stage

abbrev pub at_stage : Traffic → Context → ℕ → Stage → Traffic
at_stage p ctx j to = record { ctx = ctx; stage = update p.stage j to }

-- One part of a call. Job ids stay below 2 ^ 31.
pub data Move (p : Traffic) : Traffic → Type 0 where
  creates :
      {r : ℕ × Context} (t : Tensor) (ty : JobType) (extra : ExtraJobInfo)
      → p.ctx.next_id + 1 < 2 ^ 31
      → create_job p.ctx t ty extra ≡ ok r
      → Move p (at_stage p r.1 r.0 made)
  counts : (j : ℕ) → p.stage j ≡ made → Move p (at_stage p (count_job p.ctx) j counted_in)
  enqueues :
      {to : Context} (j : ℕ)
      → p.stage j ≡ counted_in
      → submit p.ctx j ≡ ok to
      → Move p (at_stage p to j enqueued)
  records : (numel : ℕ) → Move p (record p { ctx = count_submitted p.ctx numel })
  gets :
      {r : Option JobSlice × Context} (tid : ℕ)
      → get_job_slice p.ctx tid ≡ ok r
      → Move p (record p { ctx = r.1 })
  notifies :
      {r : Bool × Context} (j : ℕ)
      → notify_scheduler p.ctx j ≡ ok r
      → Move p (if r.0 then at_stage p r.1 j notified else record p { ctx = r.1 })
  marks :
      {to : Context} (j : ℕ)
      → p.stage j ≡ notified
      → mark_finished p.ctx j ≡ ok to
      → Move p (at_stage p to j marked)
  counts_down : (j : ℕ) → p.stage j ≡ marked → Move p (at_stage p (count_down p.ctx) j over)

-- The states that a new context gets to once it was started.
pub data Reach : Traffic → Type 0 where
  starts :
      {ctx : Context} (f : Features) (files : Files) (own : Config) (scheduler : Scheduler)
      (jobs : Jobs) (given : Option Config)
      → start f files (new_context own scheduler jobs) given ≡ ok (true, ctx)
      → Reach (record { ctx = ctx; stage = λ j. fresh })
  moves : {p q : Traffic} → Move p q → Reach p → Reach q
