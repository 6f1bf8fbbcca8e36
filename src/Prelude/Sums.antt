-- ===== src/Prelude/Sums.antt =====
-- Sums over the numbers below a bound, and how often a number occurs in a list.
use Prim.Native.Nat.{ℕ, zero, suc, ◌+◌, ◌-◌, ◌<◌, ◌≤◌}
use mathlib.Core.Path.{◌≡◌, refl, ◌∙◌, ap}
use mathlib.Core.Logic.{◌≢◌, inl, inr}
use mathlib.Core.List.{List, [], ◌∷◌}
use native.Mathlib.Omega.{arith}
use p4app_switch_ml.Prelude.Tests.{Bool-cases, ltb, ◌==◌, ==→eq, if◌then◌else◌, if_true, lt→ltb}
use p4app_switch_ml.Prelude.Lists.{length, All}

abbrev pub sum_below : ℕ → (ℕ → ℕ) → ℕ
sum_below zero f = 0
sum_below (suc n) f = f n + sum_below n f

pub sum_add : (n : ℕ) (f g : ℕ → ℕ) → sum_below n (λ m. f m + g m) ≡ sum_below n f + sum_below n g
sum_add zero f g = omega arith
sum_add (suc n) f g = omega (arith, sum_add n f g)

pub sum_ones : (n : ℕ) (f : ℕ → ℕ) → ((m : ℕ) → m < n → f m ≡ 1) → sum_below n f ≡ n
sum_ones zero f h = refl
sum_ones (suc n) f h =
    omega (arith, h n (omega arith), sum_ones n f (λ m le. h m (omega (arith, le))))

pub sum_zero : (n : ℕ) (f : ℕ → ℕ) → sum_below n f ≡ 0 → (m : ℕ) → m < n → f m ≡ 0
sum_zero zero f h m le = absurd (omega (arith, le))
sum_zero (suc n) f h m le = elim (Bool-cases (m == n)) [
  | inl last ↦ ap f (==→eq _ _ last) ∙ omega (arith, h)
  | inr before ↦ sum_zero n f (omega (arith, h)) m (ground (arith, before, le))
]

pub sum_none : (n : ℕ) → sum_below n (λ m. 0) ≡ 0
sum_none zero = refl
sum_none (suc n) = omega (arith, sum_none n)

pub sum_same :
    (n id : ℕ) → sum_below n (λ m. if id == m then 1 else 0) + (if ltb id n then 0 else 1) ≡ 1
sum_same zero id = ground arith
sum_same (suc n) id = ground (arith, sum_same n id)

pub sum_below_eq :
    (n : ℕ) (f g : ℕ → ℕ) → ((m : ℕ) → m < n → f m ≡ g m) → sum_below n f ≡ sum_below n g
sum_below_eq zero f g h = refl
sum_below_eq (suc n) f g h =
    omega (arith, h n (omega arith), sum_below_eq n f g (λ m le. h m (omega (arith, le))))

-- Two functions that differ at one place.
pub sum_change :
    (n : ℕ) (f g : ℕ → ℕ) (k : ℕ)
    → k < n
    → ((m : ℕ) → m ≢ k → f m ≡ g m)
    → sum_below n g + f k ≡ sum_below n f + g k
sum_change zero f g k le h = absurd (omega (arith, le))
sum_change (suc n) f g k le h = elim (Bool-cases (k == n)) [
  | inl last ↦
      let e = ==→eq _ _ last in
      omega
        (arith, ap f e, ap g e, sum_below_eq n f g (λ m low. h m (λ eq. omega (arith, eq, e, low))))
  | inr before ↦
      let differ : n ≢ k = λ eq. ground (arith, eq, before) in
      omega (arith, h n differ, sum_change n f g k (ground (arith, le, before)) h)
]

-- What is missing from one each.
pub missing :
    (n : ℕ) (f : ℕ → ℕ) → ((m : ℕ) → f m ≤ 1) → sum_below n f + sum_below n (λ m. 1 - f m) ≡ n
missing zero f h = omega arith
missing (suc n) f h = omega (arith, h n, missing n f h)

abbrev pub count : ℕ → List ℕ → ℕ
count a [] = 0
count a (x ∷ xs) = (if x == a then 1 else 0) + count a xs

-- The counts of the numbers below a bound add up to the length of a list of such numbers.
pub sum-count :
    (n : ℕ) (xs : List ℕ) → All (λ (x : ℕ). x < n) xs → sum_below n (λ a. count a xs) ≡ length xs
sum-count n [] a = sum_none n
sum-count n (x ∷ xs) a = omega (
  arith,
  sum_add n (λ m. if x == m then 1 else 0) (λ m. count m xs),
  sum_same n x,
  if_true {x = zero} (suc zero) (lt→ltb x n a.0),
  sum-count n xs a.1,
)
