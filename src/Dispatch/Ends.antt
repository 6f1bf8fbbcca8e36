-- ===== src/Dispatch/Ends.antt =====
-- Notifying the scheduler and finishing a job, between all other steps.
use p4app_switch_ml.Prelude.{
  if◌then◌else◌, ℕ, suc, ◌-◌, ◌<◌, ◌≡◌, refl, sym, ap, ◌∙◌, subst, Bool, true, false, some, inl,
  inr, map, length-set, get_elem?, set, arith, u32_mod,
}
use p4app_switch_ml.Outcome.{ok}
use p4app_switch_ml.Barrier.Threads.{InGeneration-get}
use p4app_switch_ml.Barrier.Rounds.{Inv}
use p4app_switch_ml.Job.{Jobs, finished, set_status_of}
use p4app_switch_ml.Scheduler.{Scheduler, notify_completion}
use p4app_switch_ml.Dispatch.{idle, working, finishing, Pool, after_notify}
use p4app_switch_ml.Dispatch.Books.{Books}
use p4app_switch_ml.Dispatch.Phases.{
  view, behind, at_work, at_finish, total, total-set, weight_le, get_elem?-map, map-set_same,
  get_elem?-set,
}
use p4app_switch_ml.Dispatch.Endings.{notify_lem, finish_lem}
use p4app_switch_ml.Dispatch.Runs.{
  Sound, behind_now, Books-at, busy-set, gates-same, behind-same, finishing_inj, ending-set,
}
use p4app_switch_ml.Dispatch.Steps.{at_current}

module _ {n g : ℕ} {p : Pool} (sound : Sound n g p) (some_threads : 0 < n)
    (small : n < u32_mod) where
  -- The thread `i` no longer works, and is about to finish the job where it was the last to notify.
  notified-Sound :
      (last : Bool) (i j r : ℕ) (s : Scheduler)
      → get_elem? p.phases i ≡ some (working j r)
      → s.barrier ≡ p.scheduler.barrier
      → Books n g
          (behind_now p.scheduler.barrier p.phases)
          (total at_work p.phases - 1)
          (if last then 1 else 0)
          s
          p.jobs
          p.submitted
      → Sound n g (record p { scheduler = s; phases = set p.phases i (after_notify last j r) })
  unfolding after_notify
  notified-Sound true i j r s at same books =
      let (now, some_work) = at_current sound some_threads i j r at in
      let y = finishing j r in
      let moved = total-set (behind p.scheduler.barrier.flag) p.phases i y at in
      let still = total-set at_work p.phases i y at in
      let still' = total-set at_finish p.phases i y at in
      let alone : total at_finish p.phases ≡ 0 = ground (arith, sound.books.alone) in
      record {
        size = length-set p.phases i y ∙ sound.size;
        gates = gates-same (set p.phases i y) same (
            subst (λ ts. Inv g (record { barrier = p.scheduler.barrier; threads = ts }))
              (sym (map-set_same p.phases i y at refl)) sound.gates);
        books =
            Books-at (omega (arith, moved) ∙ behind-same (set p.phases i y) same)
              (omega (arith, still)) (omega (arith, still', alone)) books;
        busy = busy-set p.phases p.submitted i y refl sound.busy;
        ending = λ k j' q h. elim (get_elem?-set p.phases i k y h) [
          | inl is ↦
              let (same_job, same_place) = finishing_inj is in
              ap (get_elem? p.submitted) same_place ∙ sound.busy i j r at ∙ ap some (sym same_job)
          | inr old ↦ sound.ending k j' q old
        ];
      }
  notified-Sound false i j r s at same books =
      let (now, some_work) = at_current sound some_threads i j r at in
      let y = idle (suc r) in
      let moved = total-set (behind p.scheduler.barrier.flag) p.phases i y at in
      let still = total-set at_work p.phases i y at in
      let still' = total-set at_finish p.phases i y at in
      let alone : total at_finish p.phases ≡ 0 = ground (arith, sound.books.alone) in
      record {
        size = length-set p.phases i y ∙ sound.size;
        gates = gates-same (set p.phases i y) same (
            subst (λ ts. Inv g (record { barrier = p.scheduler.barrier; threads = ts }))
              (sym (map-set_same p.phases i y at refl)) sound.gates);
        books =
            Books-at (omega (arith, moved) ∙ behind-same (set p.phases i y) same)
              (omega (arith, still)) (omega (arith, still', alone)) books;
        busy = busy-set p.phases p.submitted i y refl sound.busy;
        ending = ending-set p.phases p.submitted i y refl sound.ending;
      }

  -- A thread that has done its slice can notify the scheduler.
  pub notified :
      (i j r : ℕ)
      → get_elem? p.phases i ≡ some (working j r)
      → (last : Bool) × (s : Scheduler) × (notify_completion p.scheduler p.jobs j
          ≡ ok (last, s, p.jobs))
        × Sound n g (record p { scheduler = s; phases = set p.phases i (after_notify last j r) })
  notified i j r at =
      let (now, some_work) = at_current sound some_threads i j r at in
      let w = total at_work p.phases in
      let books' : Books n g (behind_now p.scheduler.barrier p.phases) (suc (w - 1))
          (total at_finish p.phases) p.scheduler p.jobs p.submitted =
        Books-at refl (omega arith) refl sound.books in
      let (last, s, made, same, books'') = notify_lem r j books' small (sound.busy i j r at) now in
      (last, s, made, notified-Sound last i j r s at same books'')

  at_end :
      (i j r : ℕ)
      → get_elem? p.phases i ≡ some (finishing j r)
      → (suc r ≡ g) × (0 < total at_finish p.phases)
  at_end i j r at = (
    InGeneration-get g p.scheduler.barrier.flag (map view p.phases) i sound.gates.in_step
        (get_elem?-map p.phases i at),
    weight_le at_finish p.phases i at,
  )

  -- A thread that was the last to notify can finish the job.
  pub ended :
      (i j r : ℕ)
      → get_elem? p.phases i ≡ some (finishing j r)
      → (jobs' : Jobs) × (set_status_of p.jobs j finished ≡ ok jobs')
        × Sound n g (record p { jobs = jobs'; phases = set p.phases i (idle (suc r)) })
  ended i j r at =
      let (now, some_end) = at_end i j r at in
      let v = total at_finish p.phases in
      let books' : Books n g (behind_now p.scheduler.barrier p.phases) (total at_work p.phases)
          (suc (v - 1)) p.scheduler p.jobs p.submitted =
        Books-at refl refl (omega arith) sound.books in
      let (jobs', made, books'') = finish_lem r j books' (sound.ending i j r at) now in
      let y = idle (suc r) in
      let moved = total-set (behind p.scheduler.barrier.flag) p.phases i y at in
      let still = total-set at_work p.phases i y at in
      let still' = total-set at_finish p.phases i y at in
      (
        jobs',
        made,
        record {
          size = length-set p.phases i y ∙ sound.size;
          gates =
              subst (λ ts. Inv g (record { barrier = p.scheduler.barrier; threads = ts }))
                (sym (map-set_same p.phases i y at refl)) sound.gates;
          books =
              Books-at (omega (arith, moved)) (omega (arith, still)) (omega (arith, still'))
                books'';
          busy = busy-set p.phases p.submitted i y refl sound.busy;
          ending = ending-set p.phases p.submitted i y refl sound.ending;
        },
      )
