-- ===== src/Context/Reached.antt =====
-- The counts of the context in all states that the interleaved calls of context.cc lead to.
use p4app_switch_ml.Prelude.{
  sum_below_eq, sum_zero, sum_none, ℕ, ◌%◌, ◌^◌, ◌≡◌, ◌↔◌, inl, inr, refl, sym, ◌∙◌, ap, subst,
  true, arith, Bool-cases, ltb, ltb→lt, ltb→le, ==→eq, leb, Option, u16_mod,
}
use p4app_switch_ml.Outcome.{ok, fatal, out_of_range, crash_if, bind_returned}
use p4app_switch_ml.Config.{Config, Features, validate}
use p4app_switch_ml.Config.Load.{Files}
use p4app_switch_ml.Job.{Jobs}
use p4app_switch_ml.Scheduler.{Scheduler, new_scheduler}
use p4app_switch_ml.Stats.{Stats, new_stats, init_stats, reset_stats}
use p4app_switch_ml.Context.{Context, new_context, start, chosen_config, all_done}
use p4app_switch_ml.Context.Counts.{fresh, is_current}
use p4app_switch_ml.Context.Traffic.{Traffic, Reach, starts, moves}
use p4app_switch_ml.Context.Moves.{Counted, move-Counted}

ok_inj {ℓ} : {A : Type ℓ} {a b : A} → ok a ≡ ok b → a ≡ b
ok_inj h = cc

none_yet :
    (old : Stats) (n : ℕ) {stats : Stats}
    → init_stats old n ≡ ok stats
    → stats.jobs_finished_num ≡ 0
unfolding init_stats reset_stats
none_yet old n e =
    let (x, rest, e1) = bind_returned (crash_if old.initialized fatal) _ e in
    let (y, last, e2) = bind_returned (crash_if (leb (2 ^ 15) (n % u16_mod)) out_of_range) _ rest in
    ap (λ s. s.jobs_finished_num) (sym (ok_inj last))

start-Counted :
    (f : Features) (files : Files) (own : Config) (scheduler : Scheduler) (jobs : Jobs)
    (given : Option Config) {ctx : Context}
    → start f files (new_context own scheduler jobs) given ≡ ok (true, ctx)
    → Counted (record { ctx = ctx; stage = λ j. fresh })
unfolding start new_context new_scheduler
start-Counted f files own scheduler jobs given e =
    let (asked, h1, e1) = bind_returned (chosen_config f files own given) _ e in
    let (c, h2, e2) = bind_returned (validate f asked) _ h1 in
    let (stats, h3, e3) = bind_returned (init_stats new_stats c.general.num_worker_threads) _ h2 in
    let none_finished = none_yet new_stats c.general.num_worker_threads e3 in
    subst (λ x. Counted (record { ctx = x.1; stage = λ j. fresh })) (ok_inj h3)
      (record {
        going = refl;
        live = λ j. refl;
        unmade = λ j high. refl;
        current = refl;
        finished_ones = none_finished;
        few = omega arith;
      })

-- Whatever the threads do after Start, in any interleaving of the parts of their calls: the context's count
-- of current jobs is the number of jobs that their submissions have counted and that were not counted
-- down yet, the number of finished jobs is that of the jobs counted down, and the scheduler keeps a
-- counter for exactly the jobs enqueued and not notified in full; for fewer than 2 ^ 31 jobs.
pub Reach-Counted : {p : Traffic} → Reach p → Counted p
Reach-Counted (starts f files own scheduler jobs given e) =
    start-Counted f files own scheduler jobs given e
Reach-Counted (moves {p} {q} move before) = move-Counted p (Reach-Counted before) q move

-- In every such state the condition on which WaitForAllJobs waits holds exactly when there is no job that
-- its submission has counted and that was not counted down.
pub all_done_lem :
    {p : Traffic} → Reach p → (all_done p.ctx ≡ true) ↔ ((j : ℕ) → is_current (p.stage j) ≡ 0)
unfolding all_done
all_done_lem {p} path =
    let h = Reach-Counted path in
    let n = p.ctx.next_id in
    (
      λ done j. elim (Bool-cases (ltb j n)) [
        | inl low ↦
            sum_zero n (λ j. is_current (p.stage j)) (sym h.current ∙ ==→eq _ _ done) j
              (ltb→lt _ _ low)
        | inr high ↦ ap is_current (h.unmade j (ltb→le _ _ high))
      ],
      λ none.
          let zero_sum : p.ctx.number_of_current_jobs ≡ 0 =
            h.current ∙ sum_below_eq n _ (λ j. 0) (λ j low. none j) ∙ sum_none n in
          rw zero_sum refl,
    )
