-- ===== src/Barrier/Rounds.antt =====
-- Any number of threads that use one barrier, in any interleaving, until it is destroyed.
use p4app_switch_ml.Prelude.{
  ltb, ℕ, zero, suc, ◌+◌, ◌-◌, ◌≤◌, ◌<◌, ◌≡◌, refl, Bool, true, false, not, eqb, List, some, arith,
  sym, ◌∙◌, length, get_elem?, set, All, length-set, replicate,
}
use p4app_switch_ml.Outcome.{ok}
use p4app_switch_ml.Barrier.{Barrier, Arrival, sleeps, passes, new_barrier, arrive, may_leave}
use p4app_switch_ml.Barrier.Threads.{
  Thread, outside, asleep, blocked, InGeneration, blocked-sleep, blocked-leave, blocked-flip,
  InGeneration-set, InGeneration-get,
}

pub record System : Type 0 where
  pub barrier : Barrier
  pub threads : List Thread

-- A thread calls `Wait` and falls asleep, or passes; a sleeping thread whose predicate holds
-- returns from `Wait`.
pub data Step (s : System) : System → Type 0 where
  sleep :
      (i r : ℕ) (b : Barrier) (c : Bool)
      → get_elem? s.threads i ≡ some (outside r)
      → arrive s.barrier ≡ ok (b, sleeps c)
      → Step s (record { barrier = b; threads = set s.threads i (asleep c r) })
  pass :
      (i r : ℕ) (b : Barrier)
      → get_elem? s.threads i ≡ some (outside r)
      → arrive s.barrier ≡ ok (b, passes)
      → Step s (record { barrier = b; threads = set s.threads i (outside (suc r)) })
  leave :
      (i r : ℕ) (c : Bool)
      → get_elem? s.threads i ≡ some (asleep c r)
      → may_leave s.barrier c ≡ true
      → Step s (record s { threads = set s.threads i (outside (suc r)) })

pub data Reach (origin : System) : System → Type 0 where
  after : {s t : System} → Step s t → Reach origin s → Reach origin t
  at_start : Reach origin origin

-- What holds until the barrier is destroyed: `count_` is the number of participants that are not
-- asleep in this generation, and the generation `g` says how many rounds each thread has done.
pub record Inv (g : ℕ) (s : System) : Type 0 where
  pub waiting_for : ℕ
  pub count_eq : s.barrier.count ≡ some waiting_for
  pub positive : 0 < waiting_for
  pub missing : waiting_for + blocked s.barrier.flag s.threads ≡ length s.threads
  pub participants : s.barrier.num_participants ≡ length s.threads
  pub in_step : All (InGeneration g s.barrier.flag) s.threads

-- The effect of an arrival that puts the thread to sleep, and of one that does not.
module _ (b : Barrier) (w : ℕ) {b' : Barrier} (count_eq : b.count ≡ some w) where
  pub arrive-sleeps :
      (c : Bool)
      → arrive b ≡ ok (b', sleeps c)
      → (1 < w)
        × (b'.count ≡ some (w - 1))
        × (b'.flag ≡ b.flag)
        × (c ≡ b.flag)
        × (b'.num_participants ≡ b.num_participants)
  unfolding arrive
  arrive-sleeps c h = ground arith

  pub arrive-passes :
      arrive b ≡ ok (b', passes)
      → (w ≤ 1)
        × (b'.count ≡ some b.num_participants)
        × (b'.flag ≡ not b.flag)
        × (b'.num_participants ≡ b.num_participants)
  unfolding arrive
  arrive-passes h = ground arith

pub may_leave_eq :
    (b : Barrier) (w : ℕ) (c : Bool) → b.count ≡ some w → may_leave b c ≡ not (eqb c b.flag)
unfolding may_leave
may_leave_eq b w c count_eq = ground arith

arrive-cases :
    (b : Barrier) (w : ℕ) (test : Bool)
    → ltb 1 w ≡ test
    → b.count ≡ some w
    → (x : Barrier × Arrival) × (arrive b ≡ ok x)
unfolding arrive
arrive-cases b w true h e = ((record b { count = some (w - 1) }, sleeps b.flag), ground arith)
arrive-cases b w false h e =
    ((record b { flag = not b.flag; count = some b.num_participants }, passes), ground arith)

-- Until the barrier is destroyed a call of `Wait` does not abort.
pub arrive-ok :
    (b : Barrier) (w : ℕ) → b.count ≡ some w → (x : Barrier × Arrival) × (arrive b ≡ ok x)
arrive-ok b w e = arrive-cases b w (ltb 1 w) refl e

pub not-true : (b : Bool) → not b ≡ true → b ≡ false
not-true b h = ground arith

eqb_refl : (b : Bool) → eqb b b ≡ true
eqb_refl true = refl
eqb_refl false = refl

pub sleep-Inv :
    {g : ℕ} {s : System} (i r : ℕ) (b : Barrier) (c : Bool)
    → get_elem? s.threads i ≡ some (outside r)
    → arrive s.barrier ≡ ok (b, sleeps c)
    → Inv g s
    → Inv g (record { barrier = b; threads = set s.threads i (asleep c r) })
sleep-Inv {g} {s} i r b c at a v =
    let (more, count, flag, copy, num) = arrive-sleeps s.barrier v.waiting_for v.count_eq c a in
    let r_eq : r ≡ g = InGeneration-get g s.barrier.flag s.threads i v.in_step at in
    rw copy (record {
      waiting_for = v.waiting_for - 1;
      count_eq = count;
      positive = omega arith;
      missing =
          rw
            (
              flag,
              length-set s.threads i (asleep s.barrier.flag r),
              blocked-sleep s.barrier.flag s.threads i r at,
            )
            (omega (arith, v.missing));
      participants = rw (num, length-set s.threads i (asleep s.barrier.flag r)) v.participants;
      in_step = rw flag (
          InGeneration-set g s.barrier.flag s.threads i (asleep s.barrier.flag r) v.in_step
            (rw eqb_refl r_eq));
    })

pub pass-Inv :
    {g : ℕ} {s : System} (i r : ℕ) (b : Barrier)
    → get_elem? s.threads i ≡ some (outside r)
    → arrive s.barrier ≡ ok (b, passes)
    → Inv g s
    → Inv (suc g) (record { barrier = b; threads = set s.threads i (outside (suc r)) })
pass-Inv {g} {s} i r b at a v =
    let (last, count, flag, num) = arrive-passes s.barrier v.waiting_for v.count_eq a in
    let all : suc (blocked s.barrier.flag s.threads) ≡ length s.threads =
      omega (arith, v.missing, v.positive) in
    let (none_left, later) = blocked-flip g s.barrier.flag s.threads i r at all v.in_step in
    record {
      waiting_for = s.barrier.num_participants;
      count_eq = count;
      positive = omega (arith, v.participants, v.missing, v.positive);
      missing =
          rw (flag, none_left, length-set s.threads i (outside (suc r)))
            (omega (arith, v.participants));
      participants = rw (num, length-set s.threads i (outside (suc r))) v.participants;
      in_step = rw flag later;
    }

pub leave-Inv :
    {g : ℕ} {s : System} (i r : ℕ) (c : Bool)
    → get_elem? s.threads i ≡ some (asleep c r)
    → may_leave s.barrier c ≡ true
    → Inv g s
    → Inv g (record s { threads = set s.threads i (outside (suc r)) })
leave-Inv {g} {s} i r c at l v =
    let free : eqb c s.barrier.flag ≡ false =
      not-true _ (sym (may_leave_eq s.barrier v.waiting_for c v.count_eq) ∙ l) in
    let r_eq = InGeneration-get g s.barrier.flag s.threads i v.in_step at in
    record {
      waiting_for = v.waiting_for;
      count_eq = v.count_eq;
      positive = v.positive;
      missing =
          rw
            (
              blocked-leave s.barrier.flag c s.threads i r (suc r) at free,
              length-set s.threads i (outside (suc r)),
            )
            v.missing;
      participants = rw (length-set s.threads i (outside (suc r))) v.participants;
      in_step =
          InGeneration-set g s.barrier.flag s.threads i (outside (suc r)) v.in_step
            (rw free at r_eq);
    }

Step-Inv : {g : ℕ} {s t : System} → Step s t → Inv g s → (h : ℕ) × Inv h t
Step-Inv {g} (sleep i r b c at a) v = (g, sleep-Inv i r b c at a v)
Step-Inv {g} (pass i r b at a) v = (suc g, pass-Inv i r b at a v)
Step-Inv {g} (leave i r c at l) v = (g, leave-Inv i r c at l v)

-- A new barrier, and as many threads as it was made for.
abbrev pub start : ℕ → System
start n = record { barrier = new_barrier n; threads = replicate n (outside 0) }

fresh_threads :
    (n : ℕ)
    → (length (replicate n (outside 0)) ≡ n)
      × (blocked false (replicate n (outside 0)) ≡ 0)
      × All (InGeneration 0 false) (replicate n (outside 0))
fresh_threads zero = (refl, refl, tt)
fresh_threads (suc n) = let (l, b, a) = fresh_threads n in (omega arith, b, (refl, a))

pub start-Inv : (n : ℕ) → 0 < n → Inv 0 (start n)
unfolding new_barrier
start-Inv n h =
    let (l, b, a) = fresh_threads n in
    record {
      waiting_for = n;
      count_eq = refl;
      positive = h;
      missing = omega arith;
      participants = omega arith;
      in_step = a;
    }

pub Reach-Inv : (n : ℕ) {s : System} → 0 < n → Reach (start n) s → (g : ℕ) × Inv g s
Reach-Inv n h at_start = (0, start-Inv n h)
Reach-Inv n h (after st r) = let (g, v) = Reach-Inv n h r in Step-Inv st v
