-- ===== src/Dispatch/Runs.antt =====
-- What holds between the steps of the worker threads and the application.
use p4app_switch_ml.Prelude.{
  ℕ, zero, suc, ◌<◌, ◌≡◌, refl, sym, ap, ◌∙◌, subst, Bool, true, false, eqb, if◌then◌else◌, List,
  [], ◌∷◌, ◌++◌, some, inl, inr, map, length, length-set, length-map, get_elem?, set, elem, arith,
}
use p4app_switch_ml.Outcome.{ok}
use p4app_switch_ml.Barrier.{Barrier, sleeps, passes, arrive, may_leave}
use p4app_switch_ml.Barrier.Threads.{blocked}
use p4app_switch_ml.Barrier.Rounds.{
  System, Inv, sleep-Inv, pass-Inv, leave-Inv, arrive-sleeps, arrive-passes, may_leave_eq, not-true,
}
use p4app_switch_ml.Job.{Jobs, init}
use p4app_switch_ml.Scheduler.{Scheduler, enqueue_job}
use p4app_switch_ml.Dispatch.{
  Phase, idle, waiting, admitted, working, finishing, Pool, with_barrier,
}
use p4app_switch_ml.Dispatch.Books.{Books, Books-barrier, Books-round, submit_lem}
use p4app_switch_ml.Dispatch.Lists.{get_elem?-old}
use p4app_switch_ml.Dispatch.Phases.{
  view, behind, at_work, at_finish, total, total-set, parts-flip, map-set, get_elem?-map,
  get_elem?-set,
}

-- The barrier and the threads as Barrier.Rounds has them.
abbrev pub system : Barrier → List Phase → System
system b phases = record { barrier = b; threads = map view phases }

abbrev pub behind_now : Barrier → List Phase → ℕ
behind_now b phases = total (behind b.flag) phases

pub record Sound (n g : ℕ) (p : Pool) : Type 0 where
  pub size : length p.phases ≡ n
  pub gates : Inv g (system p.scheduler.barrier p.phases)
  pub books :
      Books n g
        (behind_now p.scheduler.barrier p.phases)
        (total at_work p.phases)
        (total at_finish p.phases)
        p.scheduler
        p.jobs
        p.submitted
  pub busy :
      (i j r : ℕ) → get_elem? p.phases i ≡ some (working j r) → get_elem? p.submitted r ≡ some j
  pub ending :
      (i j r : ℕ) → get_elem? p.phases i ≡ some (finishing j r) → get_elem? p.submitted r ≡ some j

pub Books-at :
    {n g b w v b' w' v' : ℕ} {s : Scheduler} {jobs : Jobs} {submitted : List ℕ}
    → b ≡ b'
    → w ≡ w'
    → v ≡ v'
    → Books n g b w v s jobs submitted
    → Books n g b' w' v' s jobs submitted
Books-at {n} {g} {b} {w} {w' = w'} {v' = v'} {s = s} {jobs} {submitted} eb ew ev books =
    subst (λ k. Books n g k w' v' s jobs submitted) eb
      (subst (λ k. Books n g b k v' s jobs submitted) ew
        (subst (λ k. Books n g b w k s jobs submitted) ev books))

pub ok_inj : {A : Type 0} {x y : A} → ok x ≡ ok y → x ≡ y
ok_inj h = cc

pub working_inj : {j r k q : ℕ} → working j r ≡ working k q → (j ≡ k) × (r ≡ q)
working_inj h = (cc, cc)

-- A thread that does not begin to work leaves what the others work on.
pub busy-set :
    (phases : List Phase) (submitted : List ℕ) (i : ℕ) (y : Phase)
    → at_work y ≡ 0
    → ((k j r : ℕ) → get_elem? phases k ≡ some (working j r) → get_elem? submitted r ≡ some j)
    → (k j r : ℕ) → get_elem? (set phases i y) k ≡ some (working j r)
    → get_elem? submitted r ≡ some j
busy-set phases submitted i y rests busy k j r h = elim (get_elem?-set phases i k y h) [
  | inl is ↦ absurd (omega (arith, ap at_work is))
  | inr old ↦ busy k j r old
]

pub finishing_inj : {j r k q : ℕ} → finishing j r ≡ finishing k q → (j ≡ k) × (r ≡ q)
finishing_inj h = (cc, cc)

-- A thread that is not about to finish a job leaves what the others are to finish.
pub ending-set :
    (phases : List Phase) (submitted : List ℕ) (i : ℕ) (y : Phase)
    → at_finish y ≡ 0
    → ((k j r : ℕ) → get_elem? phases k ≡ some (finishing j r) → get_elem? submitted r ≡ some j)
    → (k j r : ℕ) → get_elem? (set phases i y) k ≡ some (finishing j r)
    → get_elem? submitted r ≡ some j
ending-set phases submitted i y rests ending k j r h = elim (get_elem?-set phases i k y h) [
  | inl is ↦ absurd (omega (arith, ap at_finish is))
  | inr old ↦ ending k j r old
]

-- The same barrier, seen with the same flag.
pub gates-same :
    {g : ℕ} {b b' : Barrier} (phases : List Phase)
    → b' ≡ b
    → Inv g (system b phases)
    → Inv g (system b' phases)
gates-same {g} phases same gates = subst (λ x. Inv g (system x phases)) (sym same) gates

pub behind-same :
    {b b' : Barrier} (phases : List Phase) → b' ≡ b → behind_now b phases ≡ behind_now b' phases
behind-same phases same = ap (λ (x : Barrier). total (behind x.flag) phases) (sym same)

asleep_weight : (c f : Bool) (r : ℕ) → c ≡ f → behind f (waiting c r) ≡ 0
asleep_weight c f r same = ap (λ t. if t then 0 else 1) (sym (ap (eqb c) same) ∙ eqb_refl c)
  where
    eqb_refl : (b : Bool) → eqb b b ≡ true
    eqb_refl true = refl
    eqb_refl false = refl

module _ {n g : ℕ} {p : Pool} (sound : Sound n g p) (some_threads : 0 < n) where
  pub submit-Sound :
      (j : ℕ) (s : Scheduler) (jobs : Jobs)
      → elem j p.submitted ≡ false
      → (p.jobs j).status ≡ init
      → enqueue_job p.scheduler p.jobs j ≡ ok (s, jobs)
      → Sound n g (record p { scheduler = s; jobs = jobs; submitted = p.submitted ++ j ∷ [] })
  submit-Sound j s jobs new is_init h =
      let (s', jobs', made, same, books') = submit_lem j sound.books new some_threads is_init in
      subst
        (λ (x : Scheduler × Jobs).
          Sound n g (record p { scheduler = x.0; jobs = x.1; submitted = p.submitted ++ j ∷ [] }))
        (ok_inj (sym made ∙ h))
        (record {
          size = sound.size;
          gates = gates-same p.phases same sound.gates;
          books = Books-at (behind-same p.phases same) refl refl books';
          busy = λ i k r at. get_elem?-old j p.submitted r (sound.busy i k r at);
          ending = λ i k r at. get_elem?-old j p.submitted r (sound.ending i k r at);
        })

  pub sleep-Sound :
      (i r : ℕ) (b : Barrier) (c : Bool)
      → get_elem? p.phases i ≡ some (idle r)
      → arrive p.scheduler.barrier ≡ ok (b, sleeps c)
      → Sound n g (record p {
        scheduler = with_barrier p.scheduler b;
        phases = set p.phases i (waiting c r);
      })
  sleep-Sound i r b c at h =
      let v = sound.gates in
      let (more, count, flag, copy, num) =
        arrive-sleeps p.scheduler.barrier v.waiting_for v.count_eq c h in
      let moved = total-set (behind b.flag) p.phases i (waiting c r) at in
      let still = total-set at_work p.phases i (waiting c r) at in
      let still' = total-set at_finish p.phases i (waiting c r) at in
      record {
        size = length-set p.phases i (waiting c r) ∙ sound.size;
        gates =
            subst (λ ts. Inv g (record { barrier = b; threads = ts }))
              (sym (map-set p.phases i (waiting c r)))
              (sleep-Inv i r b c (get_elem?-map p.phases i at) h v);
        books =
            Books-at
              (ap (λ f. total (behind f) p.phases) (sym flag)
                ∙ omega (arith, moved, asleep_weight c b.flag r (copy ∙ sym flag)))
              (omega arith) (omega arith) (Books-barrier sound.books b);
        busy = busy-set p.phases p.submitted i (waiting c r) refl sound.busy;
        ending = ending-set p.phases p.submitted i (waiting c r) refl sound.ending;
      }

  pub pass-Sound :
      (i r : ℕ) (b : Barrier)
      → get_elem? p.phases i ≡ some (idle r)
      → arrive p.scheduler.barrier ≡ ok (b, passes)
      → Sound n (suc g) (record p {
        scheduler = with_barrier p.scheduler b;
        phases = set p.phases i (admitted r);
      })
  pass-Sound i r b at h =
      let v = sound.gates in
      let (last, count, flag, num) = arrive-passes p.scheduler.barrier v.waiting_for v.count_eq h in
      let all : suc (blocked p.scheduler.barrier.flag (map view p.phases)) ≡ length p.phases =
        omega (arith, v.missing, v.positive, length-map view p.phases) in
      let (no_b, no_w, no_v, all_b, still, still') =
        parts-flip p.scheduler.barrier.flag p.phases i r at all in
      record {
        size = length-set p.phases i (admitted r) ∙ sound.size;
        gates =
            subst (λ ts. Inv (suc g) (record { barrier = b; threads = ts }))
              (sym (map-set p.phases i (admitted r)))
              (pass-Inv i r b (get_elem?-map p.phases i at) h v);
        books =
            Books-at
              (sym (
                ap (λ f. total (behind f) (set p.phases i (admitted r))) flag ∙ all_b ∙ sound.size))
              (sym still) (sym still')
              (Books-round some_threads (Books-at no_b no_w no_v (Books-barrier sound.books b)));
        busy = busy-set p.phases p.submitted i (admitted r) refl sound.busy;
        ending = ending-set p.phases p.submitted i (admitted r) refl sound.ending;
      }

  pub leave-Sound :
      (i r : ℕ) (c : Bool)
      → get_elem? p.phases i ≡ some (waiting c r)
      → may_leave p.scheduler.barrier c ≡ true
      → Sound n g (record p { phases = set p.phases i (admitted r) })
  leave-Sound i r c at h =
      let v = sound.gates in
      let free : eqb c p.scheduler.barrier.flag ≡ false =
        not-true _ (sym (may_leave_eq p.scheduler.barrier v.waiting_for c v.count_eq) ∙ h) in
      let moved = total-set (behind p.scheduler.barrier.flag) p.phases i (admitted r) at in
      let still = total-set at_work p.phases i (admitted r) at in
      let still' = total-set at_finish p.phases i (admitted r) at in
      record {
        size = length-set p.phases i (admitted r) ∙ sound.size;
        gates =
            subst (λ ts. Inv g (record { barrier = p.scheduler.barrier; threads = ts }))
              (sym (map-set p.phases i (admitted r)))
              (leave-Inv i r c (get_elem?-map p.phases i at) h v);
        books =
            Books-at (omega (arith, moved, ap (λ t. if t then zero else suc zero) free))
              (omega arith) (omega arith) sound.books;
        busy = busy-set p.phases p.submitted i (admitted r) refl sound.busy;
        ending = ending-set p.phases p.submitted i (admitted r) refl sound.ending;
      }
