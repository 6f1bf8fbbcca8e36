-- ===== src/Dispatch/Reached.antt =====
-- What holds in every state that the worker threads and the application can reach.
use p4app_switch_ml.Prelude.{
  ℕ, zero, suc, ◌<◌, ◌≡◌, refl, sym, ap, ◌∙◌, subst, Bool, false, ◌∷◌, some, none, Option, map,
  length, get_elem?, set, replicate, arith, u32_mod,
}
use p4app_switch_ml.Outcome.{Outcome, ok}
use p4app_switch_ml.Barrier.{new_barrier}
use p4app_switch_ml.Barrier.Threads.{outside}
use p4app_switch_ml.Barrier.Rounds.{Inv, start-Inv}
use p4app_switch_ml.Job.{Jobs}
use p4app_switch_ml.Scheduler.{Scheduler, JobSlice, new_scheduler}
use p4app_switch_ml.Dispatch.{
  idle, working, finishing, Pool, after_notify, finish, Step, submit, enter_sleeping, enter_passing,
  leave, take, notify, Reach, after, at_start, start,
}
use p4app_switch_ml.Dispatch.Phases.{view, behind, at_work, at_finish, total}
use p4app_switch_ml.Dispatch.Runs.{
  Sound, Books-at, ok_inj, submit-Sound, sleep-Sound, pass-Sound, leave-Sound,
}
use p4app_switch_ml.Dispatch.Steps.{taken}
use p4app_switch_ml.Dispatch.Ends.{notified, ended}

module _ {n g : ℕ} {p : Pool} (sound : Sound n g p) (some_threads : 0 < n)
    (small : n < u32_mod) where
  Step-Sound : {q : Pool} → Step p q → (h : ℕ) × Sound n h q
  Step-Sound (submit j s jobs new is_init h) =
      (g, submit-Sound sound some_threads j s jobs new is_init h)
  Step-Sound (enter_sleeping i r b c at may h) = (g, sleep-Sound sound some_threads i r b c at h)
  Step-Sound (enter_passing i r b at may h) = (suc g, pass-Sound sound some_threads i r b at h)
  Step-Sound (leave i r c at h) = (g, leave-Sound sound some_threads i r c at h)
  Step-Sound (take i r slice s jobs at work h) =
      let (slice', s', jobs', made, sound') = taken sound some_threads small i r at work in
      (
        g,
        subst
            (λ (x : JobSlice × Scheduler × Jobs). Sound n g (record p {
              scheduler = x.1;
              jobs = x.2;
              phases = set p.phases i (working (x.0).job r);
            }))
            (taken_inj (sym made ∙ h)) sound',
      )
    where
      taken_inj :
          {a a' : JobSlice} {s s' : Scheduler} {jobs jobs' : Jobs}
          → ◌≡◌ {A = Outcome (Option JobSlice × Scheduler × Jobs)}
              (ok (some a, s, jobs))
              (ok (some a', s', jobs'))
          → ◌≡◌ {A = JobSlice × Scheduler × Jobs} (a, s, jobs) (a', s', jobs')
      taken_inj h = cc
  Step-Sound (notify i j r last s jobs at h) =
      let (last', s', made, sound') = notified sound some_threads small i j r at in
      (
        g,
        subst
            (λ (x : Bool × Scheduler × Jobs). Sound n g (record p {
              scheduler = x.1;
              jobs = x.2;
              phases = set p.phases i (after_notify x.0 j r);
            }))
            (ok_inj (sym made ∙ h)) sound',
      )
  Step-Sound (finish i j r jobs at h) =
      let (jobs', made, sound') = ended sound some_threads small i j r at in
      (
        g,
        subst (λ k. Sound n g (record p { jobs = k; phases = set p.phases i (idle (suc r)) }))
            (ok_inj (sym made ∙ h)) sound',
      )

-- Before any job.
start-Sound : (n : ℕ) (jobs : Jobs) → 0 < n → Sound n 0 (start n jobs)
unfolding new_scheduler
start-Sound n jobs some_threads = record {
  size = (fresh n false).0;
  gates =
      subst (λ ts. Inv 0 (record { barrier = new_barrier n; threads = ts })) (sym (fresh n false).3)
        (start-Inv n some_threads);
  books =
      Books-at (sym (fresh n ((new_barrier n).flag)).1) (sym (fresh n false).2)
        (sym (fresh n false).4)
        (record {
          going = refl;
          workers = refl;
          in_all = omega arith;
          begun = λ h. absurd (omega arith);
          alone = λ h. absurd (omega arith);
          queue_eq = refl;
          reached = omega arith;
          ahead = λ h. absurd (omega arith);
          distinct = tt;
          fresh = λ j out. (refl, refl);
          later = λ p j place past. absurd (no_place place);
          to_take = λ p j place now more. absurd (no_place place);
          to_finish = λ p j place now more. absurd (no_place place);
          not_over = λ p j place now more. absurd (no_place place);
          over = λ p j place past. absurd (no_place place);
        });
  busy = λ i j r at. absurd (not_busy n i at);
  ending = λ i j r at. absurd (not_ending n i at);
}
  where
    fresh :
        (n : ℕ) (f : Bool)
        → (length (replicate n (idle 0)) ≡ n)
          × (total (behind f) (replicate n (idle 0)) ≡ 0)
          × (total at_work (replicate n (idle 0)) ≡ 0)
          × (map view (replicate n (idle 0)) ≡ replicate n (outside 0))
          × (total at_finish (replicate n (idle 0)) ≡ 0)
    fresh zero f = (refl, refl, refl, refl, refl)
    fresh (suc n) f =
        let (size, b, w, v, e) = fresh n f in
        (ap suc size, omega arith, omega arith, ap (λ ts. outside 0 ∷ ts) v, omega arith)

    no_place : {j : ℕ} → none ≡ some j → ⊥
    no_place h = cc

    not_busy : (n i : ℕ) {j r : ℕ} → get_elem? (replicate n (idle 0)) i ≡ some (working j r) → ⊥
    not_busy zero i h = cc
    not_busy (suc n) zero h = cc
    not_busy (suc n) (suc i) h = not_busy n i h

    not_ending : (n i : ℕ) {j r : ℕ} → get_elem? (replicate n (idle 0)) i ≡ some (finishing j r) → ⊥
    not_ending zero i h = cc
    not_ending (suc n) zero h = cc
    not_ending (suc n) (suc i) h = not_ending n i h

pub Reach-Sound :
    (n : ℕ) (jobs : Jobs) {p : Pool}
    → 0 < n
    → n < u32_mod
    → Reach (start n jobs) p
    → (g : ℕ) × Sound n g p
Reach-Sound n jobs some_threads small at_start = (0, start-Sound n jobs some_threads)
Reach-Sound n jobs some_threads small (after step r) =
    let (g, sound) = Reach-Sound n jobs some_threads small r in
    Step-Sound sound some_threads small step
