-- ===== src/Barrier/Safety.antt =====
-- What `Wait` of dev_root/client_lib/src/utils.cc promises to its threads.
use p4app_switch_ml.Prelude.{
  ℕ, suc, ◌≤◌, ◌<◌, ◌≡◌, refl, Bool, true, false, eqb, List, [], ◌∷◌, some, arith, length,
  get_elem?,
}
use p4app_switch_ml.Barrier.{Barrier, Arrival, arrive, may_leave}
use p4app_switch_ml.Outcome.{ok}
use p4app_switch_ml.Barrier.Threads.{
  Thread, outside, asleep, rounds, blocked, InGeneration, InGeneration-get,
}
use p4app_switch_ml.Barrier.Rounds.{System, Reach, start, Reach-Inv, may_leave_eq, arrive-ok}

-- The thread is in `Wait` and its predicate holds.
abbrev pub Released : System → Thread → Type 0
Released s (outside r) = ⊥
Released s (asleep c r) = may_leave s.barrier c ≡ true

InGeneration-rounds :
    (g : ℕ) (f : Bool) (t : Thread) → InGeneration g f t → (rounds t ≤ g) × (g ≤ suc (rounds t))
InGeneration-rounds g f (outside r) h = (omega arith, omega arith)
InGeneration-rounds g f (asleep c r) h = (ground arith, ground arith)

behind-Released :
    (g w : ℕ) (s : System) (t : Thread)
    → s.barrier.count ≡ some w
    → InGeneration g s.barrier.flag t
    → rounds t < g
    → Released s t
behind-Released g w s (outside r) e h l = absurd (omega arith)
behind-Released g w s (asleep c r) e h l = rw (may_leave_eq s.barrier w c e) (ground arith)

-- For every number `n` of threads, one or more, and every interleaving of their calls of `Wait` on
-- a barrier made for `n`: if one thread has returned from more calls than another, then from just
-- one more, and the other is already inside that call and free to return. So nobody gets past a
-- barrier before all have arrived.
pub no_overtaking :
    (n : ℕ) {s : System} (i j : ℕ) {a b : Thread}
    → 0 < n
    → Reach (start n) s
    → get_elem? s.threads i ≡ some a
    → get_elem? s.threads j ≡ some b
    → rounds b < rounds a
    → (rounds a ≡ suc (rounds b)) × Released s b
no_overtaking n {s} i j {a} {b} h r ei ej l =
    let (g, v) = Reach-Inv n h r in
    let ia = InGeneration-get g s.barrier.flag s.threads i v.in_step ei in
    let ib = InGeneration-get g s.barrier.flag s.threads j v.in_step ej in
    let ba = InGeneration-rounds g s.barrier.flag a ia in
    let bb = InGeneration-rounds g s.barrier.flag b ib in
    (omega arith, behind-Released g v.waiting_for s b v.count_eq ib (omega arith))

-- A thread that is not blocked, and its place.
abbrev Free : Bool → Thread → Type 0
Free f (outside r) = Unit {0}
Free f (asleep c r) = eqb c f ≡ false

find-Free :
    (f : Bool) (ts : List Thread)
    → blocked f ts < length ts
    → (i : ℕ) × (t : Thread) × (get_elem? ts i ≡ some t) × Free f t
find-Free f [] h = absurd (omega arith)
find-Free f (outside r ∷ ts) h = (0, outside r, refl, tt)
find-Free true (asleep false r ∷ ts) h = (0, asleep false r, refl, refl)
find-Free false (asleep true r ∷ ts) h = (0, asleep true r, refl, refl)
find-Free true (asleep true r ∷ ts) h =
    let (i, t, e, p) = find-Free true ts (omega arith) in (suc i, t, e, p)
find-Free false (asleep false r ∷ ts) h =
    let (i, t, e, p) = find-Free false ts (omega arith) in (suc i, t, e, p)

-- The thread can call `Wait` with no abort, or is in it and can return.
abbrev pub CanMove : System → Thread → Type 0
CanMove s (outside r) = (x : Barrier × Arrival) × (arrive s.barrier ≡ ok x)
CanMove s (asleep c r) = may_leave s.barrier c ≡ true

Free-CanMove :
    (w : ℕ) (s : System) (t : Thread)
    → s.barrier.count ≡ some w
    → Free s.barrier.flag t
    → CanMove s t
Free-CanMove w s (outside r) e h = arrive-ok s.barrier w e
Free-CanMove w s (asleep c r) e h = rw (may_leave_eq s.barrier w c e, h)

-- In no interleaving do all threads of a barrier sleep with nobody left to wake them: some thread
-- is outside `Wait`, where its call does not abort, or sleeps with its predicate true.
pub no_deadlock :
    (n : ℕ) {s : System}
    → 0 < n
    → Reach (start n) s
    → (i : ℕ) × (t : Thread) × (get_elem? s.threads i ≡ some t) × CanMove s t
no_deadlock n {s} h r =
    let (g, v) = Reach-Inv n h r in
    let (i, t, e, p) = find-Free s.barrier.flag s.threads (omega (arith, v.positive, v.missing)) in
    (i, t, e, Free-CanMove v.waiting_for s t v.count_eq p)
