-- ===== src/Context/Slices.antt =====
-- What giving out a slice leaves alone in the scheduler of context.cc.
use p4app_switch_ml.Prelude.{
  ℕ, ◌≡◌, inl, inr, refl, sym, ◌∙◌, subst, Bool-cases, ◌==◌, if_true, if_false, Option, List, [],
  ◌∷◌,
}
use p4app_switch_ml.Outcome.{ok, undefined, crash_if, bind_returned}
use p4app_switch_ml.Job.{Jobs, running, set_status_of}
use p4app_switch_ml.Scheduler.{Scheduler, JobSlice, take_slice, take_front, dispatched, pred32}
use p4app_switch_ml.Scheduler.Tables.{at}

ok_inj {ℓ} : {A : Type ℓ} {a b : A} → ok a ≡ ok b → a ≡ b
ok_inj h = cc

-- Giving out a slice leaves the finished slices alone.
abbrev pub Same : Scheduler → Scheduler → Type 0
Same s s' = (s'.stopped ≡ s.stopped) × (s'.finished_job_slices ≡ s.finished_job_slices)

dispatched-Same :
    (s : Scheduler) (j : ℕ) (rest : List ℕ) (left : ℕ) → Same s (dispatched s j rest left)
unfolding dispatched
dispatched-Same s j rest left = elim (Bool-cases (left == 0)) [
  | inl gone ↦ rw gone (refl, refl)
  | inr kept ↦ rw kept (refl, refl)
]

take_front-Same :
    (s : Scheduler) (jobs : Jobs) (tid : ℕ) (queue : List ℕ)
    {r : Option JobSlice × Scheduler × Jobs}
    → take_front s jobs tid queue ≡ ok r
    → Same s r.1
unfolding take_front
take_front-Same s jobs tid [] h = cc
take_front-Same s jobs tid (j ∷ rest) {r} h =
    let (c, h1, e1) = bind_returned (at s.undispatched_job_slices j) _ h in
    let (x, h2, e2) = bind_returned (crash_if (s.num_worker_threads == 0) undefined) _ h1 in
    let (jobs', h3, e3) = bind_returned (set_status_of jobs j running) _ h2 in
    subst (λ x. Same s x.1) (ok_inj h3) (dispatched-Same s j rest (pred32 c))

pub take_slice-Same :
    (s : Scheduler) (jobs : Jobs) (tid : ℕ) {r : Option JobSlice × Scheduler × Jobs}
    → take_slice s jobs tid ≡ ok r
    → Same s r.1
unfolding take_slice
take_slice-Same s jobs tid {r} h = elim (Bool-cases s.stopped) [
  | inl halted ↦ subst (λ x. Same s x.1) (ok_inj (sym (if_true _ halted) ∙ h)) (refl, refl)
  | inr going ↦ take_front-Same s jobs tid s.queue (sym (if_false _ going) ∙ h)
]
