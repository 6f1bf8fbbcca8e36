-- ===== src/Context/Moves.antt =====
-- What each part of the calls of context.cc keeps: the counts of the context.
use p4app_switch_ml.Prelude.{
  sum_below, sum_below_eq, ℕ, suc, ◌+◌, ◌%◌, ◌^◌, ◌≤◌, ◌<◌, ◌≡◌, ◌≢◌, inl, inr, refl, sym, ◌∙◌, ap,
  subst, Bool, false, not, arith, Bool-cases, ltb, ltb→lt, ltb→le, ◌==◌, ==→eq, ne→==, ==_refl,
  if_true, if_false, if◌then◌else◌, Option, Option-cases, update, u32_mod, u64_mod,
}
use native.Mathlib.Nat.{mod-eq_of_lt}
use p4app_switch_ml.Outcome.{ok, fatal, crash_if, bind_returned}
use p4app_switch_ml.Common.{Tensor}
use p4app_switch_ml.Job.{JobType, ExtraJobInfo, new_job, queued, finished, set_status_of}
use p4app_switch_ml.Scheduler.{JobSlice, enqueue_job, take_slice, notify_completion, pred32}
use p4app_switch_ml.Scheduler.Tables.{Counters, insert}
use p4app_switch_ml.Stats.{
  inc_jobs_submitted_num, append_job_submitted_numel, inc_jobs_finished_num,
}
use p4app_switch_ml.Context.{
  Context, create_job, count_job, submit, count_submitted, is_running, get_job_slice,
  notify_scheduler, mark_finished, count_down,
}
use p4app_switch_ml.Context.Counts.{
  Stage, fresh, made, counted_in, enqueued, notified, marked, over, is_enqueued, is_current,
  is_ended, is_live, notify_cases, sum_stage, sum_few,
}
use p4app_switch_ml.Context.Traffic.{
  Traffic, at_stage, Move, creates, counts, enqueues, records, gets, notifies, marks, counts_down,
}
use p4app_switch_ml.Context.Slices.{Same, take_slice-Same}

ok_inj {ℓ} : {A : Type ℓ} {a b : A} → ok a ≡ ok b → a ≡ b
ok_inj h = cc

-- The scheduler keeps a counter for exactly the enqueued jobs whose slices were not all notified, and
-- the context counts the jobs between their being counted and their being counted down.
pub record Counted (p : Traffic) : Type 0 where
  pub going : p.ctx.scheduler.stopped ≡ false
  pub live : (j : ℕ) → is_live (p.ctx.scheduler.finished_job_slices j) ≡ is_enqueued (p.stage j)
  pub unmade : (j : ℕ) → p.ctx.next_id ≤ j → p.stage j ≡ fresh
  pub current : p.ctx.number_of_current_jobs ≡ sum_below p.ctx.next_id (λ j. is_current (p.stage j))
  pub finished_ones :
      p.ctx.stats.jobs_finished_num ≡ sum_below p.ctx.next_id (λ j. is_ended (p.stage j))
  pub few : p.ctx.next_id < 2 ^ 31

current_le : (x : Stage) → is_current x ≤ 1
current_le fresh = omega arith
current_le made = omega arith
current_le counted_in = omega arith
current_le enqueued = omega arith
current_le notified = omega arith
current_le marked = omega arith
current_le over = omega arith

over_le : (x : Stage) → is_ended x ≤ 1
over_le fresh = omega arith
over_le made = omega arith
over_le counted_in = omega arith
over_le enqueued = omega arith
over_le notified = omega arith
over_le marked = omega arith
over_le over = omega arith

live_is : (x : Stage) → is_enqueued x ≡ 1 → x ≡ enqueued
live_is fresh h = absurd (omega (arith, h))
live_is made h = absurd (omega (arith, h))
live_is counted_in h = absurd (omega (arith, h))
live_is enqueued h = refl
live_is notified h = absurd (omega (arith, h))
live_is marked h = absurd (omega (arith, h))
live_is over h = absurd (omega (arith, h))

inserted_live : (t : Counters) (j : ℕ) → is_live (insert t j 0 j) ≡ 1
inserted_live t j = elim (Option-cases (t j)) [
  | inl e ↦ rw (==_refl j, e) refl
  | inr (f, e) ↦ rw (==_refl j, e) refl
]

module _ (p : Traffic) (h : Counted p) where
  below : (j : ℕ) {x : Stage} → p.stage j ≡ x → x ≢ fresh → j < p.ctx.next_id
  below j e differ = elim (Bool-cases (ltb j p.ctx.next_id)) [
    | inl low ↦ ltb→lt _ _ low
    | inr high ↦ absurd (differ (sym e ∙ h.unmade j (ltb→le _ _ high)))
  ]

  current_few : p.ctx.number_of_current_jobs ≤ p.ctx.next_id
  current_few = omega (arith, h.current, sum_few p.ctx.next_id _ (λ j. current_le (p.stage j)))

  over_few : p.ctx.stats.jobs_finished_num ≤ p.ctx.next_id
  over_few = omega (arith, h.finished_ones, sum_few p.ctx.next_id _ (λ j. over_le (p.stage j)))

  -- What follows when a job goes on to its next stage.
  staged :
      (ctx : Context) (j : ℕ) {from : Stage} (to : Stage)
      → p.stage j ≡ from
      → from ≢ fresh
      → ctx.next_id ≡ p.ctx.next_id
      → ctx.scheduler.stopped ≡ false
      → ((k : ℕ)
          → is_live (ctx.scheduler.finished_job_slices k) ≡ is_enqueued (update p.stage j to k))
      → ctx.number_of_current_jobs + is_current from ≡ p.ctx.number_of_current_jobs + is_current to
      → ctx.stats.jobs_finished_num + is_ended from ≡ p.ctx.stats.jobs_finished_num + is_ended to
      → Counted (at_stage p ctx j to)
  staged ctx j {from} to e differ ids going live current ended =
      let le = below j e differ in
      let n = p.ctx.next_id in
      record {
        going = going;
        live = live;
        unmade = λ k high.
            if_false _ (ne→== k j (λ same. omega (arith, same, le, high, ids)))
            ∙ h.unmade k (omega (arith, high, ids));
        current = rw ids (
            omega
              (arith, sum_stage is_current p.stage n j to le, ap is_current e, current, h.current));
        finished_ones = rw ids (
            omega
              (arith, sum_stage is_ended p.stage n j to le, ap is_ended e, ended, h.finished_ones));
        few = omega (arith, ids, h.few);
      }

  -- A stage without a counter, after another one without.
  live_same :
      (j : ℕ) {from : Stage} (to : Stage)
      → p.stage j ≡ from
      → is_enqueued from ≡ is_enqueued to
      → (k : ℕ)
      → is_live (p.ctx.scheduler.finished_job_slices k) ≡ is_enqueued (update p.stage j to k)
  live_same j {from} to e same k = elim (Bool-cases (k == j)) [
    | inl here ↦
        rw here
          (h.live k ∙ ap (λ i. is_enqueued (p.stage i)) (==→eq k j here) ∙ ap is_enqueued e ∙ same)
    | inr away ↦ rw away (h.live k)
  ]

  created :
      (t : Tensor) (ty : JobType) (extra : ExtraJobInfo) {r : ℕ × Context}
      → p.ctx.next_id + 1 < 2 ^ 31
      → create_job p.ctx t ty extra ≡ ok r
      → Counted (at_stage p r.1 r.0 made)
  unfolding create_job new_job
  created t ty extra room e =
      let n = p.ctx.next_id in
      let (x, made_it, e1) =
        bind_returned (crash_if (not (is_running p.ctx.context_state)) fatal) _ e in
      let id : (n + 1) % u64_mod ≡ suc n = mod-eq_of_lt {n = n + 1} (omega arith) ∙ omega arith in
      let apart : (weight : Stage → ℕ)
          → weight made ≡ 0
          → sum_below (suc n) (λ j. weight (update p.stage n made j))
            ≡ sum_below n (λ j. weight (p.stage j)) =
        λ weight none. omega (
          arith,
          ap weight (if_true {x = made} (p.stage n) (==_refl n)),
          none,
          sum_below_eq n (λ j. weight (update p.stage n made j)) (λ j. weight (p.stage j))
              (λ j le. ap weight (if_false _ (ne→== j n (λ same. omega (arith, same, le))))),
        ) in
      subst (λ r. Counted (at_stage p r.1 r.0 made)) (ok_inj made_it)
        (record {
          going = h.going;
          live = live_same n made (h.unmade n (omega arith)) refl;
          unmade = λ k high.
              if_false _ (ne→== k n (λ same. omega (arith, same, high, id)))
              ∙ h.unmade k (omega (arith, high, id));
          current = rw id (h.current ∙ sym (apart is_current refl));
          finished_ones = rw id (h.finished_ones ∙ sym (apart is_ended refl));
          few = omega (arith, id, room);
        })

  counted_job : (j : ℕ) → p.stage j ≡ made → Counted (at_stage p (count_job p.ctx) j counted_in)
  unfolding count_job
  counted_job j e =
      let count : (p.ctx.number_of_current_jobs + 1) % u32_mod ≡ p.ctx.number_of_current_jobs + 1 =
        mod-eq_of_lt (omega (arith, current_few, h.few)) in
      staged (count_job p.ctx) j counted_in e (λ e'. cc) refl h.going
        (live_same j counted_in e refl) (omega (arith, count)) refl

  enqueued_job :
      (j : ℕ) {to : Context}
      → p.stage j ≡ counted_in
      → submit p.ctx j ≡ ok to
      → Counted (at_stage p to j enqueued)
  unfolding submit enqueue_job
  enqueued_job j {to} e done =
      let (r, h1, e1) = bind_returned (enqueue_job p.ctx.scheduler p.ctx.jobs j) _ done in
      let (jobs, h2, e2) = bind_returned (set_status_of p.ctx.jobs j queued) _ e1 in
      let whole = ap (λ r. record p.ctx { scheduler = r.0; jobs = r.1 }) (ok_inj h2) ∙ ok_inj h1 in
      subst (λ c. Counted (at_stage p c j enqueued)) whole
        (staged _ j enqueued e (λ e'. cc) refl h.going
          (λ k. elim (Bool-cases (k == j)) [
            | inl here ↦ rw here (
                sym (ap is_live (if_true _ (==_refl j)))
                ∙ inserted_live p.ctx.scheduler.finished_job_slices j)
            | inr away ↦ rw away (h.live k)
          ])
          refl refl)

  notified_job :
      (j : ℕ) {r : Bool × Context}
      → notify_scheduler p.ctx j ≡ ok r
      → Counted (if r.0 then at_stage p r.1 j notified else record p { ctx = r.1 })
  unfolding notify_scheduler
  notified_job j {r} e =
      let (got, rest, e1) = bind_returned (notify_completion p.ctx.scheduler p.ctx.jobs j) _ e in
      let (f, live, table_changed) = notify_cases p.ctx.scheduler p.ctx.jobs j h.going e1 in
      let (same, changed) = table_changed in
      let was : p.stage j ≡ enqueued = live_is _ (sym (h.live j) ∙ ap is_live live) in
      let ctx = record p.ctx { scheduler = got.1; jobs = got.2 } in
      subst (λ r. Counted (if r.0 then at_stage p r.1 j notified else record p { ctx = r.1 }))
        (ok_inj rest)
        (elim changed [
          | inl (last, table) ↦ rw last (
              staged ctx j notified was (λ e'. cc) refl (same ∙ h.going)
                (λ k. ap (λ t. is_live (t k)) table ∙ elim (Bool-cases (k == j)) [
                  | inl here ↦ rw here refl
                  | inr away ↦ rw away (h.live k)
                ])
                refl refl)
          | inr (more, table) ↦ rw more (record {
            going = same ∙ h.going;
            live = λ k. ap (λ t. is_live (t k)) table ∙ elim (Bool-cases (k == j)) [
              | inl here ↦
                  rw here
                    (sym (ap (λ i. is_enqueued (p.stage i)) (==→eq k j here) ∙ ap is_enqueued was))
              | inr away ↦ rw away (h.live k)
            ];
            unmade = h.unmade;
            current = h.current;
            finished_ones = h.finished_ones;
            few = h.few;
          })
        ])

  marked_job :
      (j : ℕ) {to : Context}
      → p.stage j ≡ notified
      → mark_finished p.ctx j ≡ ok to
      → Counted (at_stage p to j marked)
  unfolding mark_finished
  marked_job j e done =
      let (jobs, rest, e1) = bind_returned (set_status_of p.ctx.jobs j finished) _ done in
      subst (λ c. Counted (at_stage p c j marked)) (ok_inj rest)
        (staged _ j marked e (λ e'. cc) refl h.going (live_same j marked e refl) refl refl)

  counted_down : (j : ℕ) → p.stage j ≡ marked → Counted (at_stage p (count_down p.ctx) j over)
  unfolding count_down inc_jobs_finished_num
  counted_down j e =
      let le = below j e (λ e'. cc) in
      let some : 1 ≤ p.ctx.number_of_current_jobs =
        omega (
          arith,
          sum_stage is_current p.stage p.ctx.next_id j over le,
          ap is_current e,
          h.current,
        ) in
      let down : pred32 p.ctx.number_of_current_jobs + 1 ≡ p.ctx.number_of_current_jobs =
        omega (arith, some, current_few, h.few) in
      let up : (p.ctx.stats.jobs_finished_num + 1) % u64_mod ≡ p.ctx.stats.jobs_finished_num + 1 =
        mod-eq_of_lt (omega (arith, over_few, h.few)) in
      staged (count_down p.ctx) j over e (λ e'. cc) refl h.going (live_same j over e refl)
        (omega (arith, down)) (omega (arith, up))

  kept :
      (ctx : Context)
      → ctx.next_id ≡ p.ctx.next_id
      → Same p.ctx.scheduler ctx.scheduler
      → ctx.number_of_current_jobs ≡ p.ctx.number_of_current_jobs
      → ctx.stats.jobs_finished_num ≡ p.ctx.stats.jobs_finished_num
      → Counted (record p { ctx = ctx })
  kept ctx ids (halted, table) number ended = record {
    going = halted ∙ h.going;
    live = λ j. ap (λ t. is_live (t j)) table ∙ h.live j;
    unmade = λ j high. h.unmade j (omega (arith, high, ids));
    current = rw ids (number ∙ h.current);
    finished_ones = rw ids (ended ∙ h.finished_ones);
    few = omega (arith, ids, h.few);
  }

  got_slice :
      (tid : ℕ) {r : Option JobSlice × Context}
      → get_job_slice p.ctx tid ≡ ok r
      → Counted (record p { ctx = r.1 })
  unfolding get_job_slice
  got_slice tid {r} e = elim (Bool-cases (is_running p.ctx.context_state)) [
    | inl on ↦
        let (got, rest, e1) =
          bind_returned (take_slice p.ctx.scheduler p.ctx.jobs tid) _ (sym (if_true _ on) ∙ e) in
        subst (λ x. Counted (record p { ctx = x.1 })) (ok_inj rest)
          (kept _ refl (take_slice-Same p.ctx.scheduler p.ctx.jobs tid e1) refl refl)
    | inr off ↦ subst (λ x. Counted (record p { ctx = x.1 })) (ok_inj (sym (if_false _ off) ∙ e)) h
  ]

  pub move-Counted : (q : Traffic) → Move p q → Counted q
  unfolding count_submitted inc_jobs_submitted_num append_job_submitted_numel
  move-Counted q (creates t ty extra room e) = created t ty extra room e
  move-Counted q (counts j e) = counted_job j e
  move-Counted q (enqueues j e done) = enqueued_job j e done
  move-Counted q (records numel) = kept (count_submitted p.ctx numel) refl (refl, refl) refl refl
  move-Counted q (gets tid e) = got_slice tid e
  move-Counted q (notifies j e) = notified_job j e
  move-Counted q (marks j e done) = marked_job j e done
  move-Counted q (counts_down j e) = counted_down j e
