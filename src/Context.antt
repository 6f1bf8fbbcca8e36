-- ===== src/Context.antt =====
-- dev_root/client_lib/src/context.{h,cc}: the life of the context, the submission of jobs and their
-- completion. `AllReduceAsync` and `NotifyJobSliceCompletion` lock in turn, and are cut into the parts that
-- no other thread can come between. `all_jobs_finished` says whether `all_jobs_finished_event_` was
-- signalled. Starting and joining the threads of the backend is not modelled.
pub mod Counts
pub mod Traffic
pub mod Slices
pub mod Moves
pub mod Reached
mod Tests
use p4app_switch_ml.Prelude.{
  ℕ, ◌+◌, ◌-◌, ◌*◌, ◌/◌, ◌%◌, Bool, true, false, not, ◌||◌, ◌==◌, if◌then◌else◌, Option, none, some,
  update, u32_mod, u64_mod,
}
use p4app_switch_ml.Outcome.{Outcome, ok, crash, fatal, crash_if, ◌>>=◌, ◌>>◌}
use p4app_switch_ml.Common.{DataType, Tensor}
use p4app_switch_ml.Job.{Job, Jobs, JobType, ExtraJobInfo, new_job, finished, set_status_of}
use p4app_switch_ml.Scheduler.{
  Scheduler, JobSlice, new_scheduler, enqueue_job, take_slice, notify_completion, set_stopped,
  drain, pred32,
}
use p4app_switch_ml.Config.{Config, Features, validate, assign}
use p4app_switch_ml.Config.Load.{Files, load_from_file}
use p4app_switch_ml.Stats.{
  Stats, new_stats, init_stats, inc_jobs_submitted_num, append_job_submitted_numel,
  inc_jobs_finished_num,
}

pub data ContextState : Type 0 where
  created starting running stopping stopped : ContextState

abbrev pub is_created : ContextState → Bool
is_created created = true
is_created _ = false

abbrev pub is_running : ContextState → Bool
is_running running = true
is_running _ = false

pub record Context : Type 0 where
  pub context_state : ContextState
  pub config : Config
  pub scheduler : Scheduler
  pub stats : Stats
  pub jobs : Jobs
  pub next_id : ℕ
  pub number_of_current_jobs : ℕ
  pub all_jobs_finished : Bool

-- The constructor. The scheduler is the null pointer until `Start`, and no job was made.
unfoldable pub new_context : Config → Scheduler → Jobs → Context
unfolding new_stats
new_context config scheduler jobs = record {
  context_state = created;
  config = config;
  scheduler = scheduler;
  stats = new_stats;
  jobs = jobs;
  next_id = 0;
  number_of_current_jobs = 0;
  all_jobs_finished = false;
}

-- The configuration that `Start` goes on with: the one given, or what a default file says.
unfoldable pub chosen_config : Features → Files → Config → Option Config → Outcome Config
chosen_config f files own (some given) = ok (assign own given)
chosen_config f files own none = do
  (c, config_loaded) ← load_from_file f files own ""
  if config_loaded then ok c else crash fatal

-- `Start`: its result is whether the context was started.
unfoldable pub start : Features → Files → Context → Option Config → Outcome (Bool × Context)
unfolding chosen_config
start f files ctx given =
    let begin = chosen_config f files ctx.config given >>= λ asked. validate f asked >>= λ c.
    init_stats ctx.stats c.general.num_worker_threads >>= λ stats. ok (
      true,
      record ctx {
        context_state = running;
        config = c;
        stats = stats;
        scheduler = new_scheduler c.general.num_worker_threads;
      },
    ) in
    if is_created ctx.context_state then begin else ok (false, ctx)

-- `AllReduceAsync` up to its lock: the job, by its id. The constructor of a job increments the next id
-- without a lock: two of them are taken not to run at the same time.
unfoldable pub create_job : Context → Tensor → JobType → ExtraJobInfo → Outcome (ℕ × Context)
create_job ctx t ty extra = do
  crash_if (not (is_running ctx.context_state)) fatal
  let (job, next) = new_job ctx.next_id t ty extra
  ok (ctx.next_id, record ctx { jobs = update ctx.jobs ctx.next_id job; next_id = next })

-- What it does while it holds `access_mutex_`.
unfoldable pub count_job : Context → Context
count_job ctx = record ctx { number_of_current_jobs = (ctx.number_of_current_jobs + 1) % u32_mod }

-- The call of the scheduler.
unfoldable pub submit : Context → ℕ → Outcome Context
submit ctx j = enqueue_job ctx.scheduler ctx.jobs j >>= λ (s, jobs).
    ok (record ctx { scheduler = s; jobs = jobs })

-- The statistics, after it.
unfoldable pub count_submitted : Context → ℕ → Context
count_submitted ctx numel = record ctx {
  stats = append_job_submitted_numel (inc_jobs_submitted_num ctx.stats) numel;
}

-- `AllReduceAsync` by a thread alone: its four parts in their order.
unfoldable pub all_reduce_async : Context → Tensor → JobType → ExtraJobInfo → Outcome (ℕ × Context)
unfolding create_job count_job submit count_submitted
all_reduce_async ctx t ty extra = do
  (j, ctx1) ← create_job ctx t ty extra
  ctx2 ← submit (count_job ctx1) j
  ok (j, count_submitted ctx2 t.numel)

-- The predicate on which `WaitForAllJobs` waits.
unfoldable pub all_done : Context → Bool
all_done ctx = ctx.number_of_current_jobs == 0

-- `GetJobSlice`, from the scheduler's wait for a job on.
unfoldable pub get_job_slice : Context → ℕ → Outcome (Option JobSlice × Context)
get_job_slice ctx tid =
    let got = take_slice ctx.scheduler ctx.jobs tid >>= λ (slice, s, jobs).
    ok (slice, record ctx { scheduler = s; jobs = jobs }) in
    if is_running ctx.context_state then got else ok (none, ctx)

-- The call of the scheduler in `NotifyJobSliceCompletion`, and whether the job is finished.
unfoldable pub notify_scheduler : Context → ℕ → Outcome (Bool × Context)
notify_scheduler ctx j = notify_completion ctx.scheduler ctx.jobs j >>= λ (job_finished, s, jobs).
    ok (job_finished, record ctx { scheduler = s; jobs = jobs })

-- The status of a finished job.
unfoldable pub mark_finished : Context → ℕ → Outcome Context
mark_finished ctx j = do jobs ← set_status_of ctx.jobs j finished; ok (record ctx { jobs = jobs })

-- What follows under `access_mutex_`.
unfoldable pub count_down : Context → Context
count_down ctx =
    let left = pred32 ctx.number_of_current_jobs in
    record ctx {
      number_of_current_jobs = left;
      stats = inc_jobs_finished_num ctx.stats;
      all_jobs_finished = ctx.all_jobs_finished || (left == 0);
    }

-- `NotifyJobSliceCompletion` by a thread alone: its parts in their order.
unfoldable pub notify_job_slice_completion : Context → ℕ → Outcome Context
unfolding notify_scheduler mark_finished count_down
notify_job_slice_completion ctx j = do
  (job_finished, ctx1) ← notify_scheduler ctx j
  let finishing = mark_finished ctx1 j >>= λ ctx2. ok (count_down ctx2)
  if job_finished then finishing else ok ctx1

-- `Stop` up to the join of the threads, and what follows it.
unfoldable pub stop_scheduler : Context → Outcome Context
stop_scheduler ctx = do
  crash_if (not (is_running ctx.context_state)) fatal
  (s, jobs) ← drain (set_stopped ctx.scheduler) ctx.jobs
  ok (record ctx {
    context_state = stopping;
    scheduler = s;
    jobs = jobs;
    number_of_current_jobs = 0;
  })

unfoldable pub end_stop : Context → Context
end_stop ctx = record ctx { context_state = stopped; all_jobs_finished = true }
