-- ===== src/Barrier/Threads.antt =====
-- Threads at a barrier: each is outside `Wait`, or asleep in it with its copy of the flag. A
-- thread carries the number of rounds that it has been through.
use p4app_switch_ml.Prelude.{
  ℕ, zero, suc, ◌≤◌, ◌≡◌, refl, Bool, true, false, not, eqb, if◌then◌else◌, List, [], ◌∷◌, some,
  arith, length, get_elem?, set, All, subst, some_inj,
}

pub data Thread : Type 0 where
  outside : ℕ → Thread
  asleep : Bool → ℕ → Thread

abbrev pub rounds : Thread → ℕ
rounds (outside r) = r
rounds (asleep c r) = r

-- How many sleep with the flag as it is now, so that they cannot leave.
abbrev pub blocked : Bool → List Thread → ℕ
blocked f [] = 0
blocked f (outside r ∷ ts) = blocked f ts
blocked f (asleep c r ∷ ts) = if eqb c f then suc (blocked f ts) else blocked f ts

-- In generation `g` a thread has been through `g` rounds; one that was released and has not left
-- yet is about to complete the last of them.
abbrev pub InGeneration : ℕ → Bool → Thread → Type 0
InGeneration g f (outside r) = r ≡ g
InGeneration g f (asleep c r) = (if eqb c f then r else suc r) ≡ g

blocked_le : (f : Bool) (ts : List Thread) → blocked f ts ≤ length ts
blocked_le f [] = omega arith
blocked_le f (outside r ∷ ts) = omega (arith, blocked_le f ts)
blocked_le f (asleep c r ∷ ts) = ground (arith, blocked_le f ts)

pub blocked-lt :
    (f : Bool) (ts : List Thread) (i r : ℕ)
    → get_elem? ts i ≡ some (outside r)
    → suc (blocked f ts) ≤ length ts
blocked-lt f [] i r h = cc
blocked-lt f (outside s ∷ ts) zero r h = omega (arith, blocked_le f ts)
blocked-lt f (asleep c s ∷ ts) zero r h = cc
blocked-lt f (outside s ∷ ts) (suc i) r h = omega (arith, blocked-lt f ts i r h)
blocked-lt f (asleep c s ∷ ts) (suc i) r h = ground (arith, blocked-lt f ts i r h)

-- A thread that falls asleep is blocked.
pub blocked-sleep :
    (f : Bool) (ts : List Thread) (i r : ℕ)
    → get_elem? ts i ≡ some (outside r)
    → blocked f (set ts i (asleep f r)) ≡ suc (blocked f ts)
blocked-sleep f [] i r h = cc
blocked-sleep f (outside s ∷ ts) zero r h = ground arith
blocked-sleep f (asleep c s ∷ ts) zero r h = cc
blocked-sleep f (outside s ∷ ts) (suc i) r h = blocked-sleep f ts i r h
blocked-sleep f (asleep c s ∷ ts) (suc i) r h = ground (arith, blocked-sleep f ts i r h)

-- A released thread that leaves was not blocked.
pub blocked-leave :
    (f c : Bool) (ts : List Thread) (i r s : ℕ)
    → get_elem? ts i ≡ some (asleep c r)
    → eqb c f ≡ false
    → blocked f (set ts i (outside s)) ≡ blocked f ts
blocked-leave f c [] i r s h e = cc
blocked-leave f c (outside q ∷ ts) zero r s h e = cc
blocked-leave f c (asleep d q ∷ ts) zero r s h e = ground arith
blocked-leave f c (outside q ∷ ts) (suc i) r s h e = blocked-leave f c ts i r s h e
blocked-leave f c (asleep d q ∷ ts) (suc i) r s h e = ground (arith, blocked-leave f c ts i r s h e)

-- If all are asleep with the flag `f`, a flip releases all of them, into the next generation.
blocked-All :
    (g : ℕ) (f : Bool) (ts : List Thread)
    → blocked f ts ≡ length ts
    → All (InGeneration g f) ts
    → (blocked (not f) ts ≡ 0) × All (InGeneration (suc g) (not f)) ts
blocked-All g f [] e a = (refl, tt)
blocked-All g f (outside s ∷ ts) e a = absurd (omega (arith, blocked_le f ts))
blocked-All g true (asleep true s ∷ ts) e a =
    let (none_left, next) = blocked-All g true ts (omega arith) a.1 in
    (none_left, (omega arith, next))
blocked-All g false (asleep false s ∷ ts) e a =
    let (none_left, next) = blocked-All g false ts (omega arith) a.1 in
    (none_left, (omega arith, next))
blocked-All g true (asleep false s ∷ ts) e a = absurd (omega (arith, blocked_le true ts))
blocked-All g false (asleep true s ∷ ts) e a = absurd (omega (arith, blocked_le false ts))

-- The last thread to arrive finds all others asleep with the flag: its flip releases them all.
pub blocked-flip :
    (g : ℕ) (f : Bool) (ts : List Thread) (i r : ℕ)
    → get_elem? ts i ≡ some (outside r)
    → suc (blocked f ts) ≡ length ts
    → All (InGeneration g f) ts
    → (blocked (not f) (set ts i (outside (suc r))) ≡ 0)
      × All (InGeneration (suc g) (not f)) (set ts i (outside (suc r)))
blocked-flip g f [] i r h e a = cc
blocked-flip g f (outside s ∷ ts) zero r h e a =
    let (none_left, next) = blocked-All g f ts (omega arith) a.1 in
    (none_left, (ground arith, next))
blocked-flip g f (asleep c s ∷ ts) zero r h e a = cc
blocked-flip g f (outside s ∷ ts) (suc i) r h e a = absurd (omega (arith, blocked-lt f ts i r h))
blocked-flip g true (asleep true s ∷ ts) (suc i) r h e a =
    let (none_left, next) = blocked-flip g true ts i r h (omega arith) a.1 in
    (none_left, (omega arith, next))
blocked-flip g false (asleep false s ∷ ts) (suc i) r h e a =
    let (none_left, next) = blocked-flip g false ts i r h (omega arith) a.1 in
    (none_left, (omega arith, next))
blocked-flip g true (asleep false s ∷ ts) (suc i) r h e a =
    absurd (omega (arith, blocked-lt true ts i r h))
blocked-flip g false (asleep true s ∷ ts) (suc i) r h e a =
    absurd (omega (arith, blocked-lt false ts i r h))

pub InGeneration-set :
    (g : ℕ) (f : Bool) (ts : List Thread) (i : ℕ) (t : Thread)
    → All (InGeneration g f) ts
    → InGeneration g f t
    → All (InGeneration g f) (set ts i t)
InGeneration-set g f [] i t a h = tt
InGeneration-set g f (x ∷ ts) zero t a h = (h, a.1)
InGeneration-set g f (x ∷ ts) (suc i) t a h = (a.0, InGeneration-set g f ts i t a.1 h)

pub InGeneration-get :
    (g : ℕ) (f : Bool) (ts : List Thread) (i : ℕ) {t : Thread}
    → All (InGeneration g f) ts
    → get_elem? ts i ≡ some t
    → InGeneration g f t
InGeneration-get g f [] i a h = cc
InGeneration-get g f (x ∷ ts) zero {t} a h = subst (InGeneration g f) (some_inj h) a.0
InGeneration-get g f (x ∷ ts) (suc i) a h = InGeneration-get g f ts i a.1 h
