-- ===== src/Dispatch/Promises.antt =====
-- What the scheduler and its worker threads do with the jobs that are submitted.
use p4app_switch_ml.Prelude.{
  ℕ, ◌+◌, ◌≤◌, ◌<◌, ◌≡◌, sym, ap, ◌∙◌, Bool, true, List, [], ◌∷◌, some, ◌↔◌, inl, inr, map, length,
  get_elem?, All, arith, u32_mod, Bool-cases, ltb, ltb→lt, ltb→le, some_inj,
}
use p4app_switch_ml.Outcome.{ok}
use p4app_switch_ml.Barrier.Threads.{InGeneration}
use p4app_switch_ml.Job.{Jobs, finished, rank}
use p4app_switch_ml.Scheduler.{Scheduler, JobSlice, has_work, take_slice, notify_completion}
use p4app_switch_ml.TimeoutQueue.Order.{Distinct}
use p4app_switch_ml.Dispatch.{
  Phase, idle, waiting, admitted, working, finishing, Pool, Reach, start,
}
use p4app_switch_ml.Dispatch.Books.{Books, handed_out}
use p4app_switch_ml.Dispatch.Phases.{get_elem?-set_here, view, behind, at_work, at_finish, total}
use p4app_switch_ml.Dispatch.Runs.{behind_now}
use p4app_switch_ml.Dispatch.Steps.{at_current, taken}
use p4app_switch_ml.Dispatch.Ends.{notified}
use p4app_switch_ml.Dispatch.Reached.{Reach-Sound}

-- Of how many slices the thread has notified the scheduler, and finished the job if it was the last to.
abbrev pub completed : Phase → ℕ
completed (idle r) = r
completed (waiting c r) = r
completed (admitted r) = r
completed (working j r) = r
completed (finishing j r) = r

-- In any interleaving of any number of worker threads from 1 to 2 ^ 32 - 1 and of submissions, until
-- Stop: a thread that is done with `r` slices and works on another has one of the `r`-th submitted job,
-- counted from 0, no job is submitted twice, and any other thread at work works on the same job.
pub works_in_order :
    (n : ℕ) (jobs : Jobs) {p : Pool} (i j r i' j' r' : ℕ)
    → 0 < n
    → n < u32_mod
    → Reach (start n jobs) p
    → get_elem? p.phases i ≡ some (working j r)
    → get_elem? p.phases i' ≡ some (working j' r')
    → (get_elem? p.submitted r ≡ some j) × Distinct p.submitted × (j' ≡ j) × (r' ≡ r)
works_in_order n jobs {p} i j r i' j' r' some_threads small run at at' =
    let (g, sound) = Reach-Sound n jobs some_threads small run in
    let here = sound.busy i j r at in
    let now = (at_current sound some_threads i j r at).0 in
    let now' = (at_current sound some_threads i' j' r' at').0 in
    let same : r' ≡ r = omega (arith, now, now') in
    (
      here,
      sound.books.distinct,
      some_inj (sym (sound.busy i' j' r' at') ∙ ap (get_elem? p.submitted) same ∙ here),
      same,
    )

-- Through all rounds but the last, and through the last where nobody is behind or at work.
completed_lem :
    (g q : ℕ) (f : Bool) (xs : List Phase)
    → All (InGeneration g f) (map view xs)
    → q < handed_out g (total (behind f) xs + total at_work xs + total at_finish xs)
    → All (λ x. q < completed x) xs
completed_lem g q f [] a h = tt
completed_lem g q f (idle r ∷ xs) a h =
    (ground (arith, a.0, h), completed_lem g q f xs a.1 (ground (arith, h)))
completed_lem g q f (waiting c r ∷ xs) a h =
    (ground (arith, a.0, h), completed_lem g q f xs a.1 (ground (arith, h)))
completed_lem g q f (admitted r ∷ xs) a h =
    (ground (arith, a.0, h), completed_lem g q f xs a.1 (ground (arith, h)))
completed_lem g q f (working j r ∷ xs) a h =
    (ground (arith, a.0, h), completed_lem g q f xs a.1 (ground (arith, h)))
completed_lem g q f (finishing j r ∷ xs) a h =
    (ground (arith, a.0, h), completed_lem g q f xs a.1 (ground (arith, h)))

within_lem :
    (g q : ℕ) (f : Bool) (xs : List Phase)
    → q < g
    → All (InGeneration g f) (map view xs)
    → All (λ x. q < completed x) xs
    → q < handed_out g (total (behind f) xs + total at_work xs + total at_finish xs)
within_lem g q f [] low a c = ground arith
within_lem g q f (idle r ∷ xs) low a c = ground (arith, within_lem g q f xs low a.1 c.1)
within_lem g q f (waiting d r ∷ xs) low a c =
    ground (arith, a.0, c.0, within_lem g q f xs low a.1 c.1)
within_lem g q f (admitted r ∷ xs) low a c =
    ground (arith, a.0, c.0, within_lem g q f xs low a.1 c.1)
within_lem g q f (working j r ∷ xs) low a c =
    ground (arith, a.0, c.0, within_lem g q f xs low a.1 c.1)
within_lem g q f (finishing j r ∷ xs) low a c =
    ground (arith, a.0, c.0, within_lem g q f xs low a.1 c.1)

below_generation :
    (g q : ℕ) (f : Bool) (xs : List Phase)
    → 0 < length xs
    → All (InGeneration g f) (map view xs)
    → All (λ x. q < completed x) xs
    → q < g
below_generation g q f [] h a c = absurd (omega arith)
below_generation g q f (idle r ∷ xs) h a c = omega (arith, a.0, c.0)
below_generation g q f (waiting d r ∷ xs) h a c = ground (arith, a.0, c.0)
below_generation g q f (admitted r ∷ xs) h a c = omega (arith, a.0, c.0)
below_generation g q f (working j r ∷ xs) h a c = omega (arith, a.0, c.0)
below_generation g q f (finishing j r ∷ xs) h a c = omega (arith, a.0, c.0)

-- A job that is not through is not finished.
unfinished :
    {n g b w v : ℕ} {s : Scheduler} {jobs : Jobs} {submitted : List ℕ} (q j : ℕ)
    → Books n g b w v s jobs submitted
    → get_elem? submitted q ≡ some j
    → handed_out g (b + w + v) ≤ q
    → rank (jobs j).status ≤ 2
unfinished {n} {g} {b} {w} {v} q j books here late = elim (Bool-cases (ltb q g)) [
  | inl below ↦
      let low = ltb→lt q g below in
      books.not_over q j here (ground (arith, low, late)) (ground (arith, low, late))
  | inr beyond ↦ rw ((books.later q j here (ltb→le q g beyond)).2) (omega arith)
]

-- In any interleaving of 1 to 2 ^ 32 - 1 worker threads and of submissions, until Stop,
-- a submitted job is finished exactly when every worker thread is done with its slice of it: has notified the
-- scheduler and, if it was the last to, has finished the job. The `q`-th job is, when each thread is done
-- with more than `q` slices.
pub finished_lem :
    (n : ℕ) (jobs : Jobs) {p : Pool} (q j : ℕ)
    → 0 < n
    → n < u32_mod
    → Reach (start n jobs) p
    → get_elem? p.submitted q ≡ some j
    → ((p.jobs j).status ≡ finished) ↔ All (λ x. q < completed x) p.phases
finished_lem n jobs {p} q j some_threads small run here =
    let (g, sound) = Reach-Sound n jobs some_threads small run in
    let f = p.scheduler.barrier.flag in
    let b = behind_now p.scheduler.barrier p.phases in
    let w = total at_work p.phases in
    let v = total at_finish p.phases in
    (
      λ is_finished. elim (Bool-cases (ltb q (handed_out g (b + w + v)))) [
        | inl through ↦
            completed_lem g q f p.phases sound.gates.in_step
              (ltb→lt q (handed_out g (b + w + v)) through)
        | inr late ↦ absurd (
            omega (
              arith,
              unfinished q j sound.books here (ltb→le q (handed_out g (b + w + v)) late),
              ap rank is_finished,
            ))
      ],
      λ all.
          let low =
            below_generation g q f p.phases (omega (arith, sound.size)) sound.gates.in_step all in
          sound.books.over q j here (within_lem g q f p.phases low sound.gates.in_step all),
    )

-- In any interleaving of 1 to 2 ^ 32 - 1 worker threads and of submissions, until Stop,
-- a thread past the barrier gets a slice as soon as the queue is not empty: GetJobSlice
-- does not end the process, and the slice is of the job at the place of the thread's count of slices.
pub take_returns :
    (n : ℕ) (jobs : Jobs) {p : Pool} (i r : ℕ)
    → 0 < n
    → n < u32_mod
    → Reach (start n jobs) p
    → get_elem? p.phases i ≡ some (admitted r)
    → has_work p.scheduler ≡ true
    → (slice : JobSlice) × (s : Scheduler) × (jobs' : Jobs) × (take_slice p.scheduler p.jobs i
        ≡ ok (some slice, s, jobs'))
      × (get_elem? p.submitted r ≡ some slice.job)
take_returns n jobs {p} i r some_threads small run at work =
    let (g, sound) = Reach-Sound n jobs some_threads small run in
    let (slice, s, jobs', made, sound') = taken sound some_threads small i r at work in
    (slice, s, jobs', made, sound'.busy i slice.job r (get_elem?-set_here p.phases i _ at))

-- In any interleaving of 1 to 2 ^ 32 - 1 worker threads and of submissions, until Stop,
-- a thread at work can notify the scheduler: NotifyJobSliceCompletion does not end the process.
pub notify_returns :
    (n : ℕ) (jobs : Jobs) {p : Pool} (i j r : ℕ)
    → 0 < n
    → n < u32_mod
    → Reach (start n jobs) p
    → get_elem? p.phases i ≡ some (working j r)
    → (last : Bool) × (s : Scheduler) × (notify_completion p.scheduler p.jobs j
        ≡ ok (last, s, p.jobs))
notify_returns n jobs {p} i j r some_threads small run at =
    let (g, sound) = Reach-Sound n jobs some_threads small run in
    let (last, s, made, _) = notified sound some_threads small i j r at in (last, s, made)
