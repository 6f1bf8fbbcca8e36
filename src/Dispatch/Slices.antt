-- ===== src/Dispatch/Slices.antt =====
-- An operation on the current job in the books of the scheduler, and `GetJobSlice`: one thread less that has
-- still to take its slice of the current job.
use p4app_switch_ml.Prelude.{
  ℕ, suc, ◌+◌, ◌-◌, ◌≤◌, ◌<◌, ◌≡◌, ◌≢◌, refl, sym, ap, ◌∙◌, false, ◌==◌, List, ◌∷◌, some, none, inl,
  inr, length, get_elem?, elem, drop, some_inj, arith, ==→eq, ne→==, ==_refl, if_true, if_false,
  Bool-cases, u32_mod,
}
use p4app_switch_ml.Outcome.{ok, bind_ok, crash_if, undefined}
use p4app_switch_ml.Job.{Job, Jobs, running, finished, rank}
use p4app_switch_ml.Scheduler.{
  Scheduler, JobSlice, take_slice, take_front, dispatched, construct_slice, pred32,
}
use p4app_switch_ml.Scheduler.Tables.{found}
use p4app_switch_ml.TimeoutQueue.Order.{Distinct}
use p4app_switch_ml.Dispatch.Books.{Books, handed_out, set_status_lem, clash}
use p4app_switch_ml.Dispatch.Lists.{get_elem?-elem, get_elem?-lt, drop-front, Distinct-places}

-- Jobs at different places are different.
module _ (submitted : List ℕ) where
  apart :
      (p q : ℕ) {k j : ℕ}
      → Distinct submitted
      → get_elem? submitted p ≡ some k
      → get_elem? submitted q ≡ some j
      → p ≢ q
      → (k == j) ≡ false
  apart p q {k} {j} distinct here there differ =
      ne→== k j
        (λ same. differ (Distinct-places submitted p q distinct here (there ∙ ap some (sym same))))

  same_place :
      (p q : ℕ) {k j : ℕ}
      → get_elem? submitted p ≡ some k
      → get_elem? submitted q ≡ some j
      → p ≡ q
      → k ≡ j
  same_place p q here there e = some_inj (sym here ∙ ap (get_elem? submitted) e ∙ there)

  unknown :
      (q k : ℕ) {j : ℕ}
      → get_elem? submitted q ≡ some j
      → elem k submitted ≡ false
      → (k == j) ≡ false
  unknown q k {j} there out =
      ne→== k j (λ same. clash submitted (sym same) (get_elem?-elem submitted q there) out)

-- An operation on the job `j` at place `q`, the current one, with `b`, `w` and `v` threads after it.
pub record Operation (n g b w v q j : ℕ) (s s' : Scheduler) (jobs jobs' : Jobs) (submitted : List ℕ)
    : Type 0 where
  pub here : get_elem? submitted q ≡ some j
  pub now : suc q ≡ g
  pub in_all : b + w + v ≤ n
  pub alone : 0 < v → (b + w ≡ 0) × (v ≡ 1)
  pub going : s'.stopped ≡ false
  pub workers : s'.num_worker_threads ≡ n
  pub queue_eq : s'.queue ≡ drop (handed_out g b) submitted
  pub others :
      (k : ℕ)
      → (k == j) ≡ false
      → (s'.undispatched_job_slices k ≡ s.undispatched_job_slices k)
        × (s'.finished_job_slices k ≡ s.finished_job_slices k)
        × (jobs' k ≡ jobs k)
  pub to_take : 0 < b → s'.undispatched_job_slices j ≡ some b
  pub to_finish : 0 < b + w → s'.finished_job_slices j ≡ some (n - (b + w))
  pub not_over : 0 < b + w + v → rank (jobs' j).status ≤ 2
  pub over : b + w + v ≡ 0 → (jobs' j).status ≡ finished

pub Books-Operation :
    {n g b w v b' w' v' : ℕ} (q j : ℕ) {s s' : Scheduler} {jobs jobs' : Jobs} {submitted : List ℕ}
    → Books n g b w v s jobs submitted
    → 0 < b + w + v
    → Operation n g b' w' v' q j s s' jobs jobs' submitted
    → Books n g b' w' v' s' jobs' submitted
Books-Operation {n} {g} {b} {w} {v} {b'} {w'} {v'} q j {s} {s'} {jobs} {jobs'} {submitted} books
      busy op =
    let inside : q < length submitted = get_elem?-lt submitted q op.here in
    record {
      going = op.going;
      workers = op.workers;
      in_all = op.in_all;
      begun = λ h. omega (arith, op.now);
      alone = op.alone;
      queue_eq = op.queue_eq;
      reached = books.reached;
      ahead = λ h. absurd (omega (arith, op.now));
      distinct = books.distinct;
      fresh = λ k out.
          let (u, f, _) = op.others k (unknown submitted q k op.here out) in
          let (u', f') = books.fresh k out in (u ∙ u', f ∙ f');
      later = λ p k place past.
          let (u, f, same) = op.others k (
            apart submitted p q books.distinct place op.here
              (λ e. absurd (omega (arith, op.now)))) in
          let (u', f', queued_still) = books.later p k place past in
          (u ∙ u', f ∙ f', ap (λ (x : Job). x.status) same ∙ queued_still);
      to_take = λ p k place at_now more.
          let is : k ≡ j = same_place submitted p q place op.here (omega (arith, op.now)) in
          rw is (op.to_take more);
      to_finish = λ p k place at_now more.
          let is : k ≡ j = same_place submitted p q place op.here (omega (arith, op.now)) in
          rw is (op.to_finish more);
      not_over = λ p k place at_now more.
          let is : k ≡ j = same_place submitted p q place op.here (omega (arith, op.now)) in
          rw is (op.not_over more);
      over = λ p k place past. elim (Bool-cases (p == q)) [
        | inl same ↦
            let is : k ≡ j = same_place submitted p q place op.here (==→eq p q same) in
            rw is (op.over (ground (arith, ==→eq p q same, op.now, past)))
        | inr differ ↦
            let (_, _, same) = op.others k (
              apart submitted p q books.distinct place op.here
                (λ e. absurd (ground (arith, e, differ)))) in
            ap (λ (x : Job). x.status) same
            ∙ books.over p k place (ground (arith, differ, op.now, past))
      ];
    }

-- A thread that is past the barrier takes the current job, the front of the queue.
module _ {n g b w v : ℕ} {s : Scheduler} {jobs : Jobs} {submitted : List ℕ} (j : ℕ) (rest : List ℕ)
    (books : Books n g (suc b) w v s jobs submitted) (small : n < u32_mod)
    (queue_is : s.queue ≡ j ∷ rest) where
  current : (get_elem? submitted (g - 1) ≡ some j) × (drop g submitted ≡ rest) × (suc (g - 1) ≡ g)
  current =
      let one : suc (g - 1) ≡ g = omega (arith, books.begun (omega arith)) in
      let m : handed_out g (suc b) ≡ g - 1 = ground arith in
      let (here, next) =
        drop-front (g - 1) submitted
          (ap (λ k. drop k submitted) (sym m) ∙ sym books.queue_eq ∙ queue_is) in
      (here, ap (λ k. drop k submitted) (sym one) ∙ next, one)

  pred32_lem : pred32 (suc b) ≡ b
  pred32_lem = omega (arith, books.in_all)

  dispatched_lem :
      ((dispatched s j rest b).stopped ≡ s.stopped)
      × ((dispatched s j rest b).num_worker_threads ≡ s.num_worker_threads)
      × ((dispatched s j rest b).queue ≡ drop (handed_out g b) submitted)
      × ((dispatched s j rest b).finished_job_slices ≡ s.finished_job_slices)
      × (0 < b → (dispatched s j rest b).undispatched_job_slices j ≡ some b)
      × ((k : ℕ)
          → (k == j) ≡ false
          → (dispatched s j rest b).undispatched_job_slices k ≡ s.undispatched_job_slices k)
      × ((dispatched s j rest b).barrier ≡ s.barrier)
  unfolding dispatched
  dispatched_lem = elim (Bool-cases (b == 0)) [
    | inl last ↦ rw last (
      refl,
      refl,
      sym current.1,
      refl,
      λ more. absurd (ground (arith, last)),
      λ k differ. if_false none differ,
      refl,
    )
    | inr more ↦ rw more (
      refl,
      refl,
      books.queue_eq ∙ ap (λ m. drop m submitted) (ground arith),
      refl,
      λ h. if_true _ (==_refl j),
      λ k differ. if_false (some b) differ,
      refl,
    )
  ]

  pub take_lem :
      (tid : ℕ)
      → (slice : JobSlice) × (s' : Scheduler) × (jobs' : Jobs) × (take_slice s jobs tid
          ≡ ok (some slice, s', jobs'))
        × (get_elem? submitted (g - 1) ≡ some slice.job)
        × (s'.barrier ≡ s.barrier)
        × Books n g b (suc w) v s' jobs' submitted
  unfolding take_slice take_front
  take_lem tid =
      let (here, next, one) = current in
      let taken = books.to_take (g - 1) j here one (omega arith) in
      let noted = books.to_finish (g - 1) j here one (omega arith) in
      let low = books.not_over (g - 1) j here one (omega arith) in
      let (jobs', set, mine, others) = set_status_lem jobs j running low in
      let (going, workers, queue, finishing, left, left_other, same_barrier) = dispatched_lem in
      let some_threads : (s.num_worker_threads == 0) ≡ false =
        ne→== s.num_worker_threads 0 (λ e. absurd (omega (arith, books.workers, books.in_all))) in
      (
        record { job = j; slice = construct_slice s.num_worker_threads (jobs j).tensor tid },
        dispatched s j rest b,
        jobs',
        if_false _ books.going
            ∙ ap (take_front s jobs tid) queue_is
            ∙ bind_ok _ (ap found taken) (
                bind_ok _ (ap (λ t. crash_if t undefined) some_threads) (
                  bind_ok _ set (
                    ap
                      (λ m. ok (
                        some (record {
                          job = j;
                          slice = construct_slice s.num_worker_threads (jobs j).tensor tid;
                        }),
                        dispatched s j rest m,
                        jobs',
                      ))
                      pred32_lem))),
        here,
        same_barrier,
        Books-Operation (g - 1) j books (omega arith) (record {
          here = here;
          now = one;
          in_all = omega (arith, books.in_all);
          going = going ∙ books.going;
          workers = workers ∙ books.workers;
          queue_eq = queue;
          others = λ k differ. (left_other k differ, ap (λ m. m k) finishing, others k differ);
          to_take = left;
          alone = λ one_left. absurd (ground (arith, books.alone one_left));
          to_finish =
              λ more. ap (λ m. m j) finishing ∙ noted ∙ ap (λ m. some (n - m)) (omega arith);
          not_over = λ more. rw mine (omega arith);
          over = λ none_left. absurd (omega arith);
        }),
      )
