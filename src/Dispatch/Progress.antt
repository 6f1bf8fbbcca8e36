-- ===== src/Dispatch/Progress.antt =====
-- The worker threads and the scheduler do not wait for each other for ever.
use p4app_switch_ml.Prelude.{
  ℕ, suc, ◌+◌, ◌≤◌, ◌<◌, ◌≡◌, refl, ap, ◌∙◌, Bool, true, false, not, eqb, List, [], ◌∷◌, some, ◌≢◌,
  inl, inr, map, length, length-map, get_elem?, arith, u32_mod, Bool-cases, ltb, ltb→lt, ltb→le,
}
use p4app_switch_ml.Outcome.{ok}
use p4app_switch_ml.Barrier.{Barrier, Arrival, sleeps, passes, arrive}
use p4app_switch_ml.Barrier.Threads.{blocked}
use p4app_switch_ml.Barrier.Rounds.{arrive-ok, may_leave_eq}
use p4app_switch_ml.Job.{Jobs, finished}
use p4app_switch_ml.Scheduler.{may_enter, has_work, is_empty}
use p4app_switch_ml.Dispatch.{
  Phase, idle, waiting, admitted, working, finishing, Pool, Step, Reach, start, enter_sleeping,
  enter_passing, leave, take, notify, finish,
}
use p4app_switch_ml.Dispatch.Books.{handed_out}
use p4app_switch_ml.Dispatch.Lists.{get_elem?-lt, drop-some}
use p4app_switch_ml.Dispatch.Phases.{view, at_work, at_finish, total}
use p4app_switch_ml.Dispatch.Runs.{Sound, behind_now}
use p4app_switch_ml.Dispatch.Steps.{ready_to_take, taken}
use p4app_switch_ml.Dispatch.Ends.{notified, ended}
use p4app_switch_ml.Dispatch.Reached.{Reach-Sound}

-- A thread that is not blocked in the barrier, and its place.
abbrev Unblocked : Bool → Phase → Type 0
Unblocked f (waiting c r) = eqb c f ≡ false
Unblocked f _ = Unit {0}

find-Unblocked :
    (f : Bool) (xs : List Phase)
    → blocked f (map view xs) < length xs
    → (i : ℕ) × (x : Phase) × (get_elem? xs i ≡ some x) × Unblocked f x
find-Unblocked f [] h = absurd (omega arith)
find-Unblocked f (idle r ∷ xs) h = (0, idle r, refl, tt)
find-Unblocked f (admitted r ∷ xs) h = (0, admitted r, refl, tt)
find-Unblocked f (working j r ∷ xs) h = (0, working j r, refl, tt)
find-Unblocked f (finishing j r ∷ xs) h = (0, finishing j r, refl, tt)
find-Unblocked f (waiting c r ∷ xs) h = elim (Bool-cases (eqb c f)) [
  | inl same ↦
      let (i, x, place, free) = find-Unblocked f xs (ground (arith, same, h)) in
      (suc i, x, place, free)
  | inr differ ↦ (0, waiting c r, refl, differ)
]

module _ {n g : ℕ} {p : Pool} (sound : Sound n g p) (some_threads : 0 < n) (small : n < u32_mod)
    (q j : ℕ) (here : get_elem? p.submitted q ≡ some j)
    (pending : handed_out g (
        behind_now p.scheduler.barrier p.phases + total at_work p.phases + total at_finish p.phases)
      ≤ q) where
  -- While a job is not through, a thread past the barrier finds work.
  finds_work : (i r : ℕ) → get_elem? p.phases i ≡ some (admitted r) → has_work p.scheduler ≡ true
  unfolding has_work is_empty
  finds_work i r at =
      let (now, some_behind) = ready_to_take sound some_threads i r at in
      let inside = get_elem?-lt p.submitted q here in
      let (front, rest, is) =
        drop-some (handed_out g (behind_now p.scheduler.barrier p.phases)) p.submitted
          (ground (arith, some_behind, inside, pending)) in
      rw (sound.books.going, sound.books.queue_eq ∙ is) refl

  enters :
      (i r : ℕ) (x : Barrier × Arrival)
      → get_elem? p.phases i ≡ some (idle r)
      → may_enter p.scheduler ≡ true
      → arrive p.scheduler.barrier ≡ ok x
      → (p' : Pool) × Step p p' × (p'.submitted ≡ p.submitted)
  enters i r (b, sleeps c) at may made = (_, enter_sleeping i r b c at may made, refl)
  enters i r (b, passes) at may made = (_, enter_passing i r b at may made, refl)

  moves :
      (i : ℕ) (x : Phase)
      → get_elem? p.phases i ≡ some x
      → Unblocked p.scheduler.barrier.flag x
      → (p' : Pool) × Step p p' × (p'.submitted ≡ p.submitted)
  unfolding may_enter
  moves i (idle r) at free =
      let (x, made) = arrive-ok p.scheduler.barrier sound.gates.waiting_for sound.gates.count_eq in
      enters i r x at (ap not sound.books.going) made
  moves i (waiting c r) at free = (
    _,
    leave i r c at (
        may_leave_eq p.scheduler.barrier sound.gates.waiting_for c sound.gates.count_eq
        ∙ ap not free),
    refl,
  )
  moves i (admitted r) at free =
      let work = finds_work i r at in
      let (slice, s, jobs', made, _) = taken sound some_threads small i r at work in
      (_, take i r slice s jobs' at work made, refl)
  moves i (working k r) at free =
      let (last, s, made, _) = notified sound some_threads small i k r at in
      (_, notify i k r last s p.jobs at made, refl)
  moves i (finishing k r) at free =
      let (jobs', made, _) = ended sound some_threads small i k r at in
      (_, finish i k r jobs' at made, refl)

-- In any interleaving of any number of worker threads from 1 to 2 ^ 32 - 1 and of submissions, until
-- Stop, while a submitted job is not finished the threads are not stuck: one of them can take a step, without
-- another submission.
pub not_stuck :
    (n : ℕ) (jobs : Jobs) {p : Pool} (q j : ℕ)
    → 0 < n
    → n < u32_mod
    → Reach (start n jobs) p
    → get_elem? p.submitted q ≡ some j
    → (p.jobs j).status ≢ finished
    → (p' : Pool) × Step p p' × (p'.submitted ≡ p.submitted)
not_stuck n jobs {p} q j some_threads small run here pending =
    let (g, sound) = Reach-Sound n jobs some_threads small run in
    let b = behind_now p.scheduler.barrier p.phases in
    let w = total at_work p.phases in
    let v = total at_finish p.phases in
    let (i, x, place, free) =
      find-Unblocked p.scheduler.barrier.flag p.phases
        (omega (arith, sound.gates.missing, sound.gates.positive, length-map view p.phases)) in
    elim (Bool-cases (ltb q (handed_out g (b + w + v)))) [
      | inl through ↦
          absurd (pending (sound.books.over q j here (ltb→lt q (handed_out g (b + w + v)) through)))
      | inr late ↦
          moves sound some_threads small q j here (ltb→le q (handed_out g (b + w + v)) late) i x
            place free
    ]
