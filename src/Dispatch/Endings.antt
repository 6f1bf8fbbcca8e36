-- ===== src/Dispatch/Endings.antt =====
-- `NotifyJobSliceCompletion` in the books of the scheduler: one thread less that works on the current job,
-- or that is to finish it.
use p4app_switch_ml.Prelude.{
  ℕ, suc, ◌+◌, ◌-◌, ◌%◌, ◌<◌, ◌≡◌, refl, ap, ◌∙◌, Bool, true, false, ◌==◌, List, some, none, inl,
  inr, get_elem?, arith, ==→eq, ==_refl, if_true, if_false, if◌then◌else◌, Bool-cases, u32_mod,
}
use p4app_switch_ml.Outcome.{ok, bind_ok}
use p4app_switch_ml.Job.{Jobs, finished, set_status_of}
use p4app_switch_ml.Scheduler.{Scheduler, notify_completion, counted}
use p4app_switch_ml.Scheduler.Tables.{Counters, put, erase, found}
use p4app_switch_ml.Dispatch.Books.{Books, set_status_lem}
use p4app_switch_ml.Dispatch.Slices.{Books-Operation}

-- A thread that has done its slice of the job `j`, the current one, notifies the scheduler.
module _ {n g b w v : ℕ} {s : Scheduler} {jobs : Jobs} {submitted : List ℕ} (q j : ℕ)
    (books : Books n g b (suc w) v s jobs submitted) (small : n < u32_mod)
    (here : get_elem? submitted q ≡ some j) (now : suc q ≡ g) where
  noted : s.finished_job_slices j ≡ some (n - (b + suc w))
  noted = books.to_finish q j here now (omega arith)

  now_finished : (n - (b + suc w) + 1) % u32_mod ≡ n - (b + w)
  now_finished = omega (arith, books.in_all)

  none_finishing : v ≡ 0
  none_finishing = ground (arith, books.alone)

  -- The operation, from what it does to the finished slices, with `v'` threads that are to finish the job.
  Books-notified :
      (counters : Counters) (v' : ℕ)
      → ((k : ℕ) → (k == j) ≡ false → counters k ≡ s.finished_job_slices k)
      → (0 < b + w → counters j ≡ some (n - (b + w)))
      → (if b + w == 0 then 1 else 0) ≡ v'
      → Books n g b w v' (record s { finished_job_slices = counters }) jobs submitted
  Books-notified counters v' count_other still is =
      Books-Operation q j books (omega arith) (record {
        here = here;
        now = now;
        in_all = ground (arith, books.in_all);
        alone = λ some_left. ground arith;
        going = books.going;
        workers = books.workers;
        queue_eq = books.queue_eq;
        others = λ k differ. (refl, count_other k differ, refl);
        to_take = books.to_take q j here now;
        to_finish = still;
        not_over = λ more. books.not_over q j here now (omega arith);
        over = λ none_left. absurd (ground arith);
      })

  counted_lem :
      (last : Bool) (s' : Scheduler)
      → counted s j (n - (b + w)) ≡ (last, s')
      → notify_completion s jobs j ≡ ok (last, s', jobs)
  unfolding notify_completion
  counted_lem last s' e =
      if_false _ books.going
      ∙ bind_ok _ (ap found noted) (
          ap (λ f. let (l, t) = counted s j f in ok (l, t, jobs)) now_finished
          ∙ ap (λ (x : Bool × Scheduler). ok (x.0, x.1, jobs)) e)

  pub notify_lem :
      (last : Bool) × (s' : Scheduler) × (notify_completion s jobs j ≡ ok (last, s', jobs))
      × (s'.barrier ≡ s.barrier)
      × Books n g b w (if last then 1 else 0) s' jobs submitted
  unfolding counted
  notify_lem = elim (Bool-cases (n - (b + w) == s.num_worker_threads)) [
    | inl full ↦
        let none_left : b + w ≡ 0 = omega (arith, ==→eq _ _ full, books.workers, books.in_all) in
        (
          true,
          record s { finished_job_slices = erase s.finished_job_slices j },
          counted_lem true _ (if_true _ full),
          refl,
          Books-notified (erase s.finished_job_slices j) 1 (λ k differ. if_false none differ)
              (λ more. absurd (omega (arith, none_left))) (ground arith),
        )
    | inr part ↦ (
      false,
      record s { finished_job_slices = put s.finished_job_slices j (n - (b + w)) },
      counted_lem false _ (if_false _ part),
      refl,
      Books-notified (put s.finished_job_slices j (n - (b + w))) 0
          (λ k differ. if_false (some (n - (b + w))) differ) (λ more. if_true _ (==_refl j))
          (ground (arith, part, books.workers)),
    )
  ]

-- The thread that was the last to notify finishes the job `j`, the current one.
module _ {n g b w v : ℕ} {s : Scheduler} {jobs : Jobs} {submitted : List ℕ} (q j : ℕ)
    (books : Books n g b w (suc v) s jobs submitted) (here : get_elem? submitted q ≡ some j)
    (now : suc q ≡ g) where
  pub finish_lem :
      (jobs' : Jobs) × (set_status_of jobs j finished ≡ ok jobs')
      × Books n g b w v s jobs' submitted
  finish_lem =
      let low = books.not_over q j here now (omega arith) in
      let (jobs', set, mine, others) = set_status_lem jobs j finished (omega (arith, low)) in
      let (nobody, single) = books.alone (omega arith) in
      (
        jobs',
        set,
        Books-Operation q j books (omega arith) (record {
          here = here;
          now = now;
          in_all = omega (arith, books.in_all);
          alone = λ some_left. absurd (omega (arith, single));
          going = books.going;
          workers = books.workers;
          queue_eq = books.queue_eq;
          others = λ k differ. (refl, refl, others k differ);
          to_take = books.to_take q j here now;
          to_finish = λ more. absurd (omega (arith, nobody));
          not_over = λ more. absurd (omega (arith, nobody, single));
          over = λ none_left. mine;
        }),
      )
