-- ===== src/TimeoutQueue/Order.antt =====
-- Neighbours in a list of distinct indices, and how taking one out changes them. These are the
-- facts about lists on which the doubly linked list of the timeout queue rests.
use p4app_switch_ml.Prelude.{
  ℕ, ◌≡◌, refl, true, false, ◌==◌, if◌then◌else◌, List, [], ◌∷◌, Option, none, some, elem, arith,
}
use p4app_switch_ml.TimeoutQueue.{same_link}

abbrev pub first_of_list : List ℕ → Option ℕ
first_of_list [] = none
first_of_list (x ∷ xs) = some x

-- The last index, or `p` where there is none.
abbrev pub last_of : Option ℕ → List ℕ → Option ℕ
last_of p [] = p
last_of p (x ∷ xs) = last_of (some x) xs

abbrev pub next_of : List ℕ → ℕ → Option ℕ
next_of [] j = none
next_of (x ∷ xs) j = if j == x then first_of_list xs else next_of xs j

-- The index before `j`, in a list that comes after `p`.
abbrev pub prev_of : Option ℕ → List ℕ → ℕ → Option ℕ
prev_of p [] j = none
prev_of p (x ∷ xs) j = if j == x then p else prev_of (some x) xs j

abbrev pub without : ℕ → List ℕ → List ℕ
without i [] = []
without i (x ∷ xs) = if i == x then xs else x ∷ without i xs

abbrev pub Distinct : List ℕ → Type 0
Distinct [] = Unit {0}
Distinct (x ∷ xs) = (elem x xs ≡ false) × Distinct xs

pub elem-without :
    (i j : ℕ) (xs : List ℕ)
    → Distinct xs
    → elem j (without i xs) ≡ (if j == i then false else elem j xs)
elem-without i j [] d = ground arith
elem-without i j (x ∷ xs) d = ground (arith, elem-without i j xs)

pub Distinct-without : (i : ℕ) (xs : List ℕ) → Distinct xs → Distinct (without i xs)
Distinct-without i [] d = tt
Distinct-without i (x ∷ xs) d = ground (arith, Distinct-without i xs, elem-without i x xs)

-- A neighbour is in the list, or is what stands before it.
next_in : (xs : List ℕ) (j i : ℕ) → elem i xs ≡ false → same_link (next_of xs j) (some i) ≡ false
next_in [] j i h = refl
next_in (x ∷ []) j i h = ground arith
next_in (x ∷ y ∷ xs) j i h = ground (arith, next_in (y ∷ xs) j i)

prev_in :
    (p : Option ℕ) (xs : List ℕ) (j i : ℕ)
    → elem i xs ≡ false
    → same_link p (some i) ≡ false
    → same_link (prev_of p xs j) (some i) ≡ false
prev_in p [] j i h o = refl
prev_in p (x ∷ xs) j i h o = ground (arith, prev_in (some x) xs j i)

last_in :
    (p : Option ℕ) (xs : List ℕ) (i : ℕ)
    → elem i xs ≡ false
    → same_link p (some i) ≡ false
    → same_link (last_of p xs) (some i) ≡ false
last_in p [] i h o = o
last_in p (x ∷ xs) i h o = ground (arith, last_in (some x) xs i)

pub first-without :
    (i : ℕ) (xs : List ℕ)
    → first_of_list (without i xs)
      ≡ (if same_link (first_of_list xs) (some i) then next_of xs i else first_of_list xs)
first-without i [] = refl
first-without i (x ∷ xs) = ground arith

pub next-without :
    (i j : ℕ) (xs : List ℕ)
    → Distinct xs
    → (j == i) ≡ false
    → next_of (without i xs) j
      ≡ (if same_link (next_of xs j) (some i) then next_of xs i else next_of xs j)
next-without i j [] d ne = refl
next-without i j (x ∷ xs) d ne =
    ground (arith, next-without i j xs, next_in xs j i, first-without i xs)

pub prev-without :
    (p : Option ℕ) (i j : ℕ) (xs : List ℕ)
    → Distinct xs
    → (j == i) ≡ false
    → same_link p (some i) ≡ false
    → prev_of p (without i xs) j
      ≡ (if same_link (prev_of p xs j) (some i) then prev_of p xs i else prev_of p xs j)
prev-without p i j [] d ne o = refl
prev-without p i j (x ∷ []) d ne o = ground arith
prev-without p i j (x ∷ y ∷ xs) d ne o =
    ground (arith, prev-without (some x) i j (y ∷ xs), prev_in (some y) xs j i)

pub last-without :
    (p : Option ℕ) (i : ℕ) (xs : List ℕ)
    → Distinct xs
    → same_link p (some i) ≡ false
    → last_of p (without i xs)
      ≡ (if same_link (last_of p xs) (some i) then prev_of p xs i else last_of p xs)
last-without p i [] d o = ground arith
last-without p i (x ∷ []) d o = ground arith
last-without p i (x ∷ y ∷ xs) d o =
    ground (arith, last-without (some x) i (y ∷ xs), last_in (some y) xs i)

-- `j` stands before `i` exactly where `i` stands after `j`.
pub prev-next :
    (p : Option ℕ) (i j : ℕ) (xs : List ℕ)
    → Distinct xs
    → elem i xs ≡ true
    → elem j xs ≡ true
    → same_link p (some j) ≡ false
    → same_link (prev_of p xs i) (some j) ≡ same_link (next_of xs j) (some i)
prev-next p i j [] d hi hj o = cc
prev-next p i j (x ∷ []) d hi hj o = ground arith
prev-next p i j (x ∷ y ∷ xs) d hi hj o =
    ground (arith, prev-next (some x) i j (y ∷ xs), next_in (y ∷ xs) j x, prev_in (some y) xs i x)
