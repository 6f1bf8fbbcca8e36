-- ===== src/Context/Counts.antt =====
-- The stages of the jobs of context.cc, and how many of them the context counts.
use p4app_switch_ml.Prelude.{
  sum_below, sum_change, ℕ, zero, suc, ◌+◌, ◌%◌, ◌≤◌, ◌<◌, ◌≡◌, ◌≢◌, ◌⊎◌, inl, inr, refl, sym, ◌∙◌,
  ap, subst, Bool, true, false, arith, Bool-cases, ◌==◌, ne→==, ==_refl, if_false, Option, none,
  some, update, u32_mod,
}
use p4app_switch_ml.Outcome.{ok, bind_returned}
use p4app_switch_ml.Job.{Jobs}
use p4app_switch_ml.Scheduler.{Scheduler, notify_completion, counted}
use p4app_switch_ml.Scheduler.Tables.{at, put, erase, found}

-- Where a job is: not made yet, made by its submission, counted by it, given to the scheduler; all its slices
-- notified, its status set to finished, and counted down.
pub data Stage : Type 0 where
  fresh made counted_in enqueued notified marked over : Stage

abbrev pub is_enqueued : Stage → ℕ
is_enqueued enqueued = 1
is_enqueued _ = 0

-- Between its being counted and its being counted down.
abbrev pub is_current : Stage → ℕ
is_current counted_in = 1
is_current enqueued = 1
is_current notified = 1
is_current marked = 1
is_current _ = 0

abbrev pub is_ended : Stage → ℕ
is_ended over = 1
is_ended _ = 0

-- Whether a job has an entry in the table of finished slices.
abbrev pub is_live : Option ℕ → ℕ
is_live none = 0
is_live (some f) = 1

found_some : (o : Option ℕ) {f : ℕ} → found o ≡ ok f → o ≡ some f
found_some none h = cc
found_some (some f) h = cc

ok_inj {ℓ} : {A : Type ℓ} {a b : A} → ok a ≡ ok b → a ≡ b
ok_inj h = cc

-- What a notification has changed in the scheduler.
abbrev Notified : Scheduler → ℕ → ℕ → Bool × Scheduler → Type 0
Notified s j f r =
    (r.1.stopped ≡ s.stopped)
    × (((r.0 ≡ true) × (r.1.finished_job_slices ≡ erase s.finished_job_slices j))
        ⊎ ((r.0 ≡ false) × (r.1.finished_job_slices ≡ put s.finished_job_slices j f)))

counted-Notified : (s : Scheduler) (j f : ℕ) → Notified s j f (counted s j f)
unfolding counted
counted-Notified s j f = elim (Bool-cases (f == s.num_worker_threads)) [
  | inl last ↦ rw last (refl, inl (refl, refl))
  | inr more ↦ rw more (refl, inr (refl, refl))
]

pub notify_cases :
    (s : Scheduler) (jobs : Jobs) (j : ℕ) {r : Bool × Scheduler × Jobs}
    → s.stopped ≡ false
    → notify_completion s jobs j ≡ ok r
    → (f : ℕ) × (s.finished_job_slices j ≡ some f) × Notified s j ((f + 1) % u32_mod) (r.0, r.1)
unfolding notify_completion
notify_cases s jobs j {r} going h =
    let (f, rest, e) = bind_returned (at s.finished_job_slices j) _ (sym (if_false _ going) ∙ h) in
    (
      f,
      found_some (s.finished_job_slices j) e,
      subst (λ x. Notified s j ((f + 1) % u32_mod) (x.0, x.1)) (ok_inj rest)
          (counted-Notified s j ((f + 1) % u32_mod)),
    )

-- Numbers of jobs: what a job that changes its stage changes in a sum over the jobs.
pub sum_stage :
    (weight : Stage → ℕ) (stage : ℕ → Stage) (n j : ℕ) (to : Stage)
    → j < n
    → sum_below n (λ k. weight (update stage j to k)) + weight (stage j)
      ≡ sum_below n (λ k. weight (stage k)) + weight to
sum_stage weight stage n j to le =
    let away : (k : ℕ) → k ≢ j → weight (stage k) ≡ weight (update stage j to k) =
      λ k differ. rw (ne→== k j differ) refl in
    let here : weight (update stage j to j) ≡ weight to = rw (==_refl j) refl in
    sum_change n (λ k. weight (stage k)) (λ k. weight (update stage j to k)) j le away
    ∙ ap (λ x. sum_below n (λ k. weight (stage k)) + x) here

-- There are no more jobs of a kind than jobs.
pub sum_few : (n : ℕ) (f : ℕ → ℕ) → ((k : ℕ) → f k ≤ 1) → sum_below n f ≤ n
sum_few zero f h = omega arith
sum_few (suc n) f h = omega (arith, h n, sum_few n f h)
