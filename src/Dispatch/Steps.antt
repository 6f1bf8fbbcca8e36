-- ===== src/Dispatch/Steps.antt =====
-- Taking a slice, between all other steps.
use p4app_switch_ml.Prelude.{
  ℕ, suc, ◌-◌, ◌<◌, ◌≡◌, refl, sym, ap, ◌∙◌, subst, true, not, ◌||◌, List, [], ◌∷◌, some, inl, inr,
  map, length-set, get_elem?, set, arith, u32_mod,
}
use p4app_switch_ml.Outcome.{ok}
use p4app_switch_ml.Barrier.Threads.{InGeneration-get}
use p4app_switch_ml.Barrier.Rounds.{Inv}
use p4app_switch_ml.Job.{Jobs}
use p4app_switch_ml.Scheduler.{Scheduler, JobSlice, take_slice, has_work, is_empty}
use p4app_switch_ml.Dispatch.{admitted, working, Pool}
use p4app_switch_ml.Dispatch.Books.{Books}
use p4app_switch_ml.Dispatch.Phases.{
  view, behind, at_work, at_finish, total, total-set, weight_le, get_elem?-map, map-set_same,
  get_elem?-set,
}
use p4app_switch_ml.Dispatch.Slices.{take_lem}
use p4app_switch_ml.Dispatch.Runs.{
  Sound, behind_now, Books-at, gates-same, behind-same, working_inj, ending-set,
}

module _ {n g : ℕ} {p : Pool} (sound : Sound n g p) (some_threads : 0 < n) where
  -- A thread behind has the current job before it.
  pub ready_to_take :
      (i r : ℕ)
      → get_elem? p.phases i ≡ some (admitted r)
      → (suc r ≡ g) × (0 < behind_now p.scheduler.barrier p.phases)
  ready_to_take i r at = (
    InGeneration-get g p.scheduler.barrier.flag (map view p.phases) i sound.gates.in_step
        (get_elem?-map p.phases i at),
    weight_le (behind p.scheduler.barrier.flag) p.phases i at,
  )

  pub at_current :
      (i j r : ℕ)
      → get_elem? p.phases i ≡ some (working j r)
      → (suc r ≡ g) × (0 < total at_work p.phases)
  at_current i j r at = (
    InGeneration-get g p.scheduler.barrier.flag (map view p.phases) i sound.gates.in_step
        (get_elem?-map p.phases i at),
    weight_le at_work p.phases i at,
  )

  pub not_empty :
      has_work p.scheduler ≡ true → (j : ℕ) × (rest : List ℕ) × (p.scheduler.queue ≡ j ∷ rest)
  unfolding has_work is_empty
  not_empty h =
      nonempty p.scheduler.queue
        (sym (ap (λ t. t || not (is_empty p.scheduler.queue)) sound.books.going) ∙ h)
    where
      nonempty : (q : List ℕ) → not (is_empty q) ≡ true → (j : ℕ) × (rest : List ℕ) × (q ≡ j ∷ rest)
      nonempty [] h = cc
      nonempty (j ∷ rest) h = (j, rest, refl)

  module _ (small : n < u32_mod) where
    -- A thread past the barrier takes a slice of the current job as soon as there is one.
    pub taken :
        (i r : ℕ)
        → get_elem? p.phases i ≡ some (admitted r)
        → has_work p.scheduler ≡ true
        → (slice : JobSlice) × (s : Scheduler) × (jobs : Jobs) × (take_slice p.scheduler p.jobs i
            ≡ ok (some slice, s, jobs))
          × Sound n g (record p {
            scheduler = s;
            jobs = jobs;
            phases = set p.phases i (working slice.job r);
          })
    taken i r at work =
        let (now, some_behind) = ready_to_take i r at in
        let (j, rest, queue_is) = not_empty work in
        let b = behind_now p.scheduler.barrier p.phases in
        let books' : Books n g (suc (b - 1)) (total at_work p.phases) (total at_finish p.phases)
            p.scheduler p.jobs p.submitted =
          Books-at (omega arith) refl refl sound.books in
        let (slice, s, jobs, made, here, same, books'') = take_lem j rest books' small queue_is i in
        let moved =
          total-set (behind p.scheduler.barrier.flag) p.phases i (working slice.job r) at in
        let still = total-set at_work p.phases i (working slice.job r) at in
        let still' = total-set at_finish p.phases i (working slice.job r) at in
        (
          slice,
          s,
          jobs,
          made,
          record {
            size = length-set p.phases i (working slice.job r) ∙ sound.size;
            gates = gates-same (set p.phases i (working slice.job r)) same (
                subst (λ ts. Inv g (record { barrier = p.scheduler.barrier; threads = ts }))
                  (sym (map-set_same p.phases i (working slice.job r) at refl)) sound.gates);
            books =
                Books-at
                  (omega (arith, moved) ∙ behind-same (set p.phases i (working slice.job r)) same)
                  (omega (arith, still)) (omega (arith, still')) books'';
            busy = λ k j' q h. elim (get_elem?-set p.phases i k (working slice.job r) h) [
              | inl is ↦
                  let (same_job, same_place) = working_inj is in
                  ap (get_elem? p.submitted) (omega (arith, same_place, now))
                  ∙ here
                  ∙ ap some (sym same_job)
              | inr old ↦ sound.busy k j' q old
            ];
            ending = ending-set p.phases p.submitted i (working slice.job r) refl sound.ending;
          },
        )
