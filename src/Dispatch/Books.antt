-- ===== src/Dispatch/Books.antt =====
-- What the scheduler has noted of every job, for `n` threads of which `b` have still to take their
-- slices of the current job, `w` work on it and `v` are to finish it. `g` counts the rounds at the barrier, so that the
-- current job is the `g`-th that was submitted.
use p4app_switch_ml.Prelude.{
  ℕ, suc, ◌+◌, ◌-◌, ◌≤◌, ◌<◌, ◌≡◌, refl, sym, ap, ◌∙◌, subst, true, false, ◌||◌, ◌==◌,
  if◌then◌else◌, List, [], ◌∷◌, ◌++◌, some, none, inl, inr, length, length-append, get_elem?, elem,
  drop, arith, ==→eq, ==_refl, if_true, if_false, Bool-cases, update, le→ltb,
}
use p4app_switch_ml.Outcome.{ok, bind_ok}
use p4app_switch_ml.Barrier.{Barrier}
use p4app_switch_ml.Job.{
  Job, Jobs, JobStatus, init, queued, finished, rank, is_over, set_status_of, set_job_status,
}
use p4app_switch_ml.Scheduler.{Scheduler, enqueue_job}
use p4app_switch_ml.Scheduler.Tables.{Counters, insert, kept}
use p4app_switch_ml.TimeoutQueue.Order.{Distinct}
use p4app_switch_ml.Dispatch.{with_barrier}
use p4app_switch_ml.Dispatch.Lists.{
  elem-append, Distinct-append, get_elem?-elem, get_elem?-append, drop-append,
}

-- How many jobs are through when `b` threads are still at the current one.
abbrev pub handed_out : ℕ → ℕ → ℕ
handed_out g b = if b == 0 then g else g - 1

pub record Books (n g b w v : ℕ) (s : Scheduler) (jobs : Jobs) (submitted : List ℕ) : Type 0 where
  pub going : s.stopped ≡ false
  pub workers : s.num_worker_threads ≡ n
  pub in_all : b + w + v ≤ n
  pub begun : 0 < b + w + v → 0 < g
  pub alone : 0 < v → (b + w ≡ 0) × (v ≡ 1)
  pub queue_eq : s.queue ≡ drop (handed_out g b) submitted
  pub reached : g ≤ suc (length submitted)
  pub ahead : length submitted < g → b ≡ n
  pub distinct : Distinct submitted
  pub fresh :
      (j : ℕ)
      → elem j submitted ≡ false
      → (s.undispatched_job_slices j ≡ none) × (s.finished_job_slices j ≡ none)
  pub later :
      (p j : ℕ)
      → get_elem? submitted p ≡ some j
      → g ≤ p
      → (s.undispatched_job_slices j ≡ some n)
        × (s.finished_job_slices j ≡ some 0)
        × ((jobs j).status ≡ queued)
  pub to_take :
      (p j : ℕ)
      → get_elem? submitted p ≡ some j
      → suc p ≡ g
      → 0 < b
      → s.undispatched_job_slices j ≡ some b
  pub to_finish :
      (p j : ℕ)
      → get_elem? submitted p ≡ some j
      → suc p ≡ g
      → 0 < b + w
      → s.finished_job_slices j ≡ some (n - (b + w))
  pub not_over :
      (p j : ℕ)
      → get_elem? submitted p ≡ some j
      → suc p ≡ g
      → 0 < b + w + v
      → rank (jobs j).status ≤ 2
  pub over :
      (p j : ℕ)
      → get_elem? submitted p ≡ some j
      → p < handed_out g (b + w + v)
      → (jobs j).status ≡ finished

-- Setting a status that does not go back.
pub set_status_lem :
    (jobs : Jobs) (j : ℕ) (status : JobStatus)
    → rank (jobs j).status ≤ rank status
    → (jobs' : Jobs) × (set_status_of jobs j status ≡ ok jobs')
      × ((jobs' j).status ≡ status)
      × ((k : ℕ) → (k == j) ≡ false → jobs' k ≡ jobs k)
unfolding set_status_of set_job_status
set_status_lem jobs j status le =
    let moved : Job = record (jobs j) {
      status = status;
      notified = (jobs j).notified || is_over status;
    } in
    (
      update jobs j moved,
      rw (le→ltb (rank status) (rank (jobs j).status) le) refl,
      ap (λ (x : Job). x.status) (if_true (jobs j) (==_refl j)),
      λ k other. if_false moved other,
    )

module _ {n g b w v : ℕ} {s : Scheduler} {jobs : Jobs} {submitted : List ℕ}
    (books : Books n g b w v s jobs submitted) where
  -- The barrier is not in the books.
  pub Books-barrier : (x : Barrier) → Books n g b w v (with_barrier s x) jobs submitted
  Books-barrier x = record {
    going = books.going;
    workers = books.workers;
    in_all = books.in_all;
    begun = books.begun;
    alone = books.alone;
    queue_eq = books.queue_eq;
    reached = books.reached;
    ahead = books.ahead;
    distinct = books.distinct;
    fresh = books.fresh;
    later = books.later;
    to_take = books.to_take;
    to_finish = books.to_finish;
    not_over = books.not_over;
    over = books.over;
  }

-- The last thread at the barrier begins a round: nobody was behind or at work.
pub Books-round :
    {n g : ℕ} {s : Scheduler} {jobs : Jobs} {submitted : List ℕ}
    → 0 < n
    → Books n g 0 0 0 s jobs submitted
    → Books n (suc g) n 0 0 s jobs submitted
Books-round {n} {g} {s} {jobs} {submitted} some_threads books =
    let within : g ≤ length submitted = grind (arith, books.ahead) in
    record {
      going = books.going;
      workers = books.workers;
      in_all = omega arith;
      begun = λ h. omega arith;
      alone = λ h. absurd (omega arith);
      queue_eq = books.queue_eq ∙ ap (λ m. drop m submitted) (ground arith);
      reached = omega arith;
      ahead = λ h. refl;
      distinct = books.distinct;
      fresh = books.fresh;
      later = λ p j here past. books.later p j here (omega arith);
      to_take = λ p j here now more. (books.later p j here (omega arith)).0;
      to_finish =
          λ p j here now more. (books.later p j here (omega arith)).1 ∙ ap some (omega arith);
      not_over = λ p j here now more. rw ((books.later p j here (omega arith)).2) (omega arith);
      over = λ p j here past. books.over p j here (ground arith);
    }

pub handed_le :
    {n g b w v : ℕ} {s : Scheduler} {jobs : Jobs} {submitted : List ℕ}
    → 0 < n
    → Books n g b w v s jobs submitted
    → handed_out g b ≤ length submitted
handed_le some_threads books = grind (arith, books.reached, books.ahead)

inserted : (j : ℕ) (m : Counters) (v : ℕ) → m j ≡ none → insert m j v j ≡ some v
inserted j m v e = if_true (m j) (==_refl j) ∙ ap (λ o. kept o v) e

pub clash : {j k : ℕ} (xs : List ℕ) → k ≡ j → elem k xs ≡ true → elem j xs ≡ false → ⊥
clash xs e inside out = cc

longer : (j : ℕ) (submitted : List ℕ) → length (submitted ++ j ∷ []) ≡ suc (length submitted)
longer j submitted = length-append submitted (j ∷ []) ∙ omega arith

-- The jobs from before are others than a new one.
module _ (j : ℕ) (submitted : List ℕ) (new : elem j submitted ≡ false) where
  old_other : (p k : ℕ) → get_elem? submitted p ≡ some k → (k == j) ≡ false
  old_other p k old = elim (Bool-cases (k == j)) [
    | inl same ↦ absurd (clash submitted (==→eq k j same) (get_elem?-elem submitted p old) new)
    | inr apart ↦ apart
  ]

  undisturbed : (m : Counters) (v p k : ℕ) → get_elem? submitted p ≡ some k → insert m j v k ≡ m k
  undisturbed m v p k old = if_false (kept (m j) v) (old_other p k old)

  untouched :
      (m : Counters) (v k : ℕ)
      → elem k (submitted ++ j ∷ []) ≡ false
      → (insert m j v k ≡ m k) × (elem k submitted ≡ false)
  untouched m v k out = ground (arith, elem-append k j submitted)

-- What submitting a new job does to the books of the others, and its own.
module _ {n g b w v : ℕ} {s : Scheduler} {jobs : Jobs} {submitted : List ℕ} (j : ℕ)
    (books : Books n g b w v s jobs submitted) (new : elem j submitted ≡ false) where
  enqueued :
      (jobs j).status ≡ init
      → (jobs' : Jobs) × (enqueue_job s jobs j
          ≡ ok (
            record s {
              finished_job_slices = insert s.finished_job_slices j 0;
              undispatched_job_slices = insert s.undispatched_job_slices j s.num_worker_threads;
              queue = s.queue ++ j ∷ [];
            },
            jobs',
          ))
        × ((jobs' j).status ≡ queued)
        × ((k : ℕ) → (k == j) ≡ false → jobs' k ≡ jobs k)
  unfolding enqueue_job
  enqueued is_init =
      let (jobs'', set, mine, others) = set_status_lem jobs j queued (rw is_init (omega arith)) in
      (jobs'', bind_ok _ set refl, mine, others)

  -- The books after it, from the effects.
  Books-submitted :
      (jobs' : Jobs)
      → ((k : ℕ) → (k == j) ≡ false → jobs' k ≡ jobs k)
      → (jobs' j).status ≡ queued
      → 0 < n
      → Books n g b w v
          (record s {
            finished_job_slices = insert s.finished_job_slices j 0;
            undispatched_job_slices = insert s.undispatched_job_slices j s.num_worker_threads;
            queue = s.queue ++ j ∷ [];
          })
          jobs'
          (submitted ++ j ∷ [])
  Books-submitted jobs' others mine some_threads =
      let (no_u, no_f) = books.fresh j new in
      let mine_u =
        inserted j s.undispatched_job_slices s.num_worker_threads no_u ∙ ap some books.workers in
      let mine_f = inserted j s.finished_job_slices 0 no_f in
      record {
        going = books.going;
        workers = books.workers;
        in_all = books.in_all;
        begun = books.begun;
        alone = books.alone;
        queue_eq =
            ap (λ q. q ++ j ∷ []) books.queue_eq
            ∙ sym (drop-append j (handed_out g b) submitted (handed_le some_threads books));
        reached = omega (arith, longer j submitted, books.reached);
        ahead = λ h. absurd (omega (arith, longer j submitted, books.reached));
        distinct = Distinct-append j submitted books.distinct new;
        fresh = λ k out.
            let (same_u, out') =
              untouched j submitted new s.undispatched_job_slices s.num_worker_threads k out in
            let (same_f, _) = untouched j submitted new s.finished_job_slices 0 k out in
            let (u, f) = books.fresh k out' in (same_u ∙ u, same_f ∙ f);
        later = λ p k here past. elim (get_elem?-append j submitted p here) [
          | inl old ↦
              let (u, f, q) = books.later p k old past in
              (
                undisturbed j submitted new s.undispatched_job_slices s.num_worker_threads p k old
                    ∙ u,
                undisturbed j submitted new s.finished_job_slices 0 p k old ∙ f,
                ap (λ (x : Job). x.status) (others k (old_other j submitted new p k old)) ∙ q,
              )
          | inr (end, is) ↦ rw is (mine_u, mine_f, mine)
        ];
        to_take = λ p k here now more. elim (get_elem?-append j submitted p here) [
          | inl old ↦
              undisturbed j submitted new s.undispatched_job_slices s.num_worker_threads p k old
              ∙ books.to_take p k old now more
          | inr (end, is) ↦ rw (is, books.ahead (omega arith)) mine_u
        ];
        to_finish = λ p k here now more. elim (get_elem?-append j submitted p here) [
          | inl old ↦
              undisturbed j submitted new s.finished_job_slices 0 p k old
              ∙ books.to_finish p k old now more
          | inr (end, is) ↦
              let all = books.ahead (omega arith) in
              rw is (mine_f ∙ ap some (omega (arith, all, books.in_all)))
        ];
        not_over = λ p k here now more. elim (get_elem?-append j submitted p here) [
          | inl old ↦
              subst (λ (x : Job). rank x.status ≤ 2)
                (sym (others k (old_other j submitted new p k old)))
                (books.not_over p k old now more)
          | inr (end, is) ↦ rw (is, mine) (omega arith)
        ];
        over = λ p k here past. elim (get_elem?-append j submitted p here) [
          | inl old ↦
              ap (λ (x : Job). x.status) (others k (old_other j submitted new p k old))
              ∙ books.over p k old past
          | inr (end, is) ↦ absurd (grind (arith, books.reached, books.ahead, books.in_all))
        ];
      }

  pub submit_lem :
      0 < n
      → (jobs j).status ≡ init
      → (s' : Scheduler) × (jobs' : Jobs) × (enqueue_job s jobs j ≡ ok (s', jobs'))
        × (s'.barrier ≡ s.barrier)
        × Books n g b w v s' jobs' (submitted ++ j ∷ [])
  submit_lem some_threads is_init =
      let (jobs', made, mine, others) = enqueued is_init in
      (_, jobs', made, refl, Books-submitted jobs' others mine some_threads)
