-- ===== src/Dispatch/Phases.antt =====
-- How many worker threads are at which part of their loop.
use p4app_switch_ml.Prelude.{
  ℕ, zero, suc, ◌+◌, ◌≤◌, ◌<◌, ◌≡◌, refl, sym, ap, ◌∙◌, Bool, true, false, not, eqb, if◌then◌else◌,
  List, [], ◌∷◌, some, ◌⊎◌, inl, inr, map, length, length-set, get_elem?, set, arith, some_inj,
}
use p4app_switch_ml.Barrier.Threads.{Thread, outside, asleep, blocked}
use p4app_switch_ml.Dispatch.{Phase, idle, waiting, admitted, working, finishing}

-- What the barrier sees of a thread: how many rounds it has been through.
abbrev pub view : Phase → Thread
view (idle r) = outside r
view (waiting c r) = asleep c r
view (admitted r) = outside (suc r)
view (working j r) = outside (suc r)
view (finishing j r) = outside (suc r)

-- The thread is through the current round of the barrier and has not taken its slice.
abbrev pub behind : Bool → Phase → ℕ
behind f (idle r) = 0
behind f (waiting c r) = if eqb c f then 0 else 1
behind f (admitted r) = 1
behind f (working j r) = 0
behind f (finishing j r) = 0

abbrev pub at_work : Phase → ℕ
at_work (working j r) = 1
at_work _ = 0

abbrev pub at_finish : Phase → ℕ
at_finish (finishing j r) = 1
at_finish _ = 0

abbrev pub total : (Phase → ℕ) → List Phase → ℕ
total weight [] = 0
total weight (x ∷ xs) = weight x + total weight xs

pub total-set :
    (weight : Phase → ℕ) (xs : List Phase) (i : ℕ) {x : Phase} (y : Phase)
    → get_elem? xs i ≡ some x
    → total weight (set xs i y) + weight x ≡ total weight xs + weight y
total-set weight [] i y h = cc
total-set weight (z ∷ zs) zero {x} y h = omega (arith, ap weight (some_inj h))
total-set weight (z ∷ zs) (suc i) y h = omega (arith, total-set weight zs i y h)

pub weight_le :
    (weight : Phase → ℕ) (xs : List Phase) (i : ℕ) {x : Phase}
    → get_elem? xs i ≡ some x
    → weight x ≤ total weight xs
weight_le weight [] i h = cc
weight_le weight (z ∷ zs) zero h = omega (arith, ap weight (some_inj h))
weight_le weight (z ∷ zs) (suc i) h = omega (arith, weight_le weight zs i h)

-- A thread is blocked, behind, at work, finishing or none of these.
pub parts_le :
    (f : Bool) (xs : List Phase)
    → blocked f (map view xs) + (total (behind f) xs + total at_work xs + total at_finish xs)
      ≤ length xs
parts_le f [] = omega arith
parts_le f (idle r ∷ xs) = omega (arith, parts_le f xs)
parts_le f (waiting c r ∷ xs) = ground (arith, parts_le f xs)
parts_le f (admitted r ∷ xs) = omega (arith, parts_le f xs)
parts_le f (working j r ∷ xs) = omega (arith, parts_le f xs)
parts_le f (finishing j r ∷ xs) = omega (arith, parts_le f xs)

pub parts_lt :
    (f : Bool) (xs : List Phase) (i r : ℕ)
    → get_elem? xs i ≡ some (idle r)
    → blocked f (map view xs) + (total (behind f) xs + total at_work xs + total at_finish xs)
      < length xs
parts_lt f [] i r h = cc
parts_lt f (idle s ∷ xs) zero r h = omega (arith, parts_le f xs)
parts_lt f (waiting c s ∷ xs) zero r h = cc
parts_lt f (admitted s ∷ xs) zero r h = cc
parts_lt f (working j s ∷ xs) zero r h = cc
parts_lt f (finishing j s ∷ xs) zero r h = cc
parts_lt f (idle s ∷ xs) (suc i) r h = omega (arith, parts_lt f xs i r h)
parts_lt f (waiting c s ∷ xs) (suc i) r h = ground (arith, parts_lt f xs i r h)
parts_lt f (admitted s ∷ xs) (suc i) r h = omega (arith, parts_lt f xs i r h)
parts_lt f (working j s ∷ xs) (suc i) r h = omega (arith, parts_lt f xs i r h)
parts_lt f (finishing j s ∷ xs) (suc i) r h = omega (arith, parts_lt f xs i r h)

-- A flip of the flag puts those behind that were blocked.
released_le : (f : Bool) (xs : List Phase) → blocked f (map view xs) ≤ total (behind (not f)) xs
released_le f [] = omega arith
released_le f (idle r ∷ xs) = omega (arith, released_le f xs)
released_le true (waiting true r ∷ xs) = omega (arith, released_le true xs)
released_le true (waiting false r ∷ xs) = omega (arith, released_le true xs)
released_le false (waiting true r ∷ xs) = omega (arith, released_le false xs)
released_le false (waiting false r ∷ xs) = omega (arith, released_le false xs)
released_le f (admitted r ∷ xs) = omega (arith, released_le f xs)
released_le f (working j r ∷ xs) = omega (arith, released_le f xs)
released_le f (finishing j r ∷ xs) = omega (arith, released_le f xs)

-- The last thread to arrive: before, nobody is behind, at work or finishing; after, all are behind.
pub parts-flip :
    (f : Bool) (xs : List Phase) (i r : ℕ)
    → get_elem? xs i ≡ some (idle r)
    → suc (blocked f (map view xs)) ≡ length xs
    → (total (behind f) xs ≡ 0)
      × (total at_work xs ≡ 0)
      × (total at_finish xs ≡ 0)
      × (total (behind (not f)) (set xs i (admitted r)) ≡ length xs)
      × (total at_work (set xs i (admitted r)) ≡ 0)
      × (total at_finish (set xs i (admitted r)) ≡ 0)
parts-flip f xs i r h all =
    let before = parts_lt f xs i r h in
    let after = parts_le (not f) (set xs i (admitted r)) in
    let size = length-set xs i (admitted r) in
    let moved = total-set (behind (not f)) xs i (admitted r) h in
    let still = total-set at_work xs i (admitted r) h in
    let still' = total-set at_finish xs i (admitted r) h in
    let released = released_le f xs in
    (omega arith, omega arith, omega arith, omega arith, omega arith, omega arith)

pub map-set :
    (xs : List Phase) (i : ℕ) (y : Phase) → map view (set xs i y) ≡ set (map view xs) i (view y)
map-set [] i y = refl
map-set (x ∷ xs) zero y = refl
map-set (x ∷ xs) (suc i) y = ap (λ ts. view x ∷ ts) (map-set xs i y)

pub get_elem?-map :
    (xs : List Phase) (i : ℕ) {x : Phase}
    → get_elem? xs i ≡ some x
    → get_elem? (map view xs) i ≡ some (view x)
get_elem?-map [] i h = cc
get_elem?-map (y ∷ ys) zero h = ap (λ z. some (view z)) (some_inj h)
get_elem?-map (y ∷ ys) (suc i) h = get_elem?-map ys i h

-- A step that the barrier does not see.
pub map-set_same :
    (xs : List Phase) (i : ℕ) {x : Phase} (y : Phase)
    → get_elem? xs i ≡ some x
    → view x ≡ view y
    → map view (set xs i y) ≡ map view xs
map-set_same [] i y h e = refl
map-set_same (z ∷ zs) zero y h e = ap (λ t. t ∷ map view zs) (sym e ∙ ap view (sym (some_inj h)))
map-set_same (z ∷ zs) (suc i) y h e = ap (λ ts. view z ∷ ts) (map-set_same zs i y h e)

pub get_elem?-set :
    (xs : List Phase) (i k : ℕ) (y : Phase) {z : Phase}
    → get_elem? (set xs i y) k ≡ some z
    → (z ≡ y) ⊎ (get_elem? xs k ≡ some z)
get_elem?-set [] i k y h = inr h
get_elem?-set (x ∷ xs) zero zero y h = inl (sym (some_inj h))
get_elem?-set (x ∷ xs) zero (suc k) y h = inr h
get_elem?-set (x ∷ xs) (suc i) zero y h = inr h
get_elem?-set (x ∷ xs) (suc i) (suc k) y h = get_elem?-set xs i k y h

pub get_elem?-set_here :
    (xs : List Phase) (i : ℕ) {x : Phase} (y : Phase)
    → get_elem? xs i ≡ some x
    → get_elem? (set xs i y) i ≡ some y
get_elem?-set_here [] i y h = cc
get_elem?-set_here (x ∷ xs) zero y h = refl
get_elem?-set_here (x ∷ xs) (suc i) y h = get_elem?-set_here xs i y h
