-- ===== src/Prelude/Parts.antt =====
-- The first elements of a list and the others, and what holds of all of them.
use Prim.Native.Nat.{ℕ, zero, suc, ◌+◌, ◌-◌, ◌≤◌, ◌<◌}
use mathlib.Core.Path.{◌≡◌, refl, sym, ap, ◌∙◌}
use mathlib.Core.List.{List, [], ◌∷◌, ◌++◌, map}
use native.Mathlib.Omega.{arith}
use p4app_switch_ml.Prelude.Lists.{length, get_elem?, All}

add_suc : (n m : ℕ) → suc n + m ≡ suc (n + m)
add_suc n m = omega arith

module _ {ℓ} {A : Type ℓ} where
  abbrev pub take : ℕ → List A → List A
  take zero xs = []
  take (suc n) [] = []
  take (suc n) (x ∷ xs) = x ∷ take n xs

  abbrev pub drop : ℕ → List A → List A
  drop zero xs = xs
  drop (suc n) [] = []
  drop (suc n) (x ∷ xs) = drop n xs

  pub take_all : (xs : List A) → take (length xs) xs ≡ xs
  take_all [] = refl
  take_all (x ∷ xs) = ap (λ ys. x ∷ ys) (take_all xs)

  pub drop_all : (xs : List A) → drop (length xs) xs ≡ []
  drop_all [] = refl
  drop_all (x ∷ xs) = drop_all xs

  pub take-append : (xs ys : List A) → take (length xs) (xs ++ ys) ≡ xs
  take-append [] ys = refl
  take-append (x ∷ xs) ys = ap (λ zs. x ∷ zs) (take-append xs ys)

  pub drop-append : (xs ys : List A) → drop (length xs) (xs ++ ys) ≡ ys
  drop-append [] ys = refl
  drop-append (x ∷ xs) ys = drop-append xs ys

  -- Two adjacent parts of a list.
  take-nil : (m : ℕ) → take m [] ≡ []
  take-nil zero = refl
  take-nil (suc m) = refl

  pub take-add : (n m : ℕ) (xs : List A) → take (n + m) xs ≡ take n xs ++ take m (drop n xs)
  take-add zero m xs = ap (λ k. take k xs) (omega arith)
  take-add (suc n) m [] = ap (λ k. take k []) (add_suc n m) ∙ sym (take-nil m)
  take-add (suc n) m (x ∷ xs) = rw (add_suc n m, take-add n m xs) refl

  pub map-append {κ} :
      {B : Type κ} (f : A → B) (xs ys : List A) → map f (xs ++ ys) ≡ map f xs ++ map f ys
  map-append f [] ys = refl
  map-append f (x ∷ xs) ys = ap (λ zs. f x ∷ zs) (map-append f xs ys)

  pub length-map {κ} : {B : Type κ} (f : A → B) (xs : List A) → length (map f xs) ≡ length xs
  length-map f [] = refl
  length-map f (x ∷ xs) = ap suc (length-map f xs)

  pub take-drop : (n : ℕ) (xs : List A) → take n xs ++ drop n xs ≡ xs
  take-drop zero xs = refl
  take-drop (suc n) [] = refl
  take-drop (suc n) (x ∷ xs) = ap (λ ys. x ∷ ys) (take-drop n xs)

pub length-drop {ℓ} : {A : Type ℓ} (n : ℕ) (xs : List A) → length (drop n xs) ≡ length xs - n
length-drop zero xs = omega arith
length-drop (suc n) [] = omega arith
length-drop (suc n) (x ∷ xs) = omega (arith, length-drop n xs)

pub length-take {ℓ} : {A : Type ℓ} (n : ℕ) (xs : List A) → n ≤ length xs → length (take n xs) ≡ n
length-take zero xs h = refl
length-take (suc n) [] h = omega arith
length-take (suc n) (x ∷ xs) h = omega (arith, length-take n xs (omega arith))

pub length-take-drop {ℓ} :
    {A : Type ℓ} (n m : ℕ) (xs : List A) → m + n ≤ length xs → length (take n (drop m xs)) ≡ n
length-take-drop n m xs h = length-take n (drop m xs) (omega (arith, length-drop m xs))

pub get_elem?-take {ℓ} :
    {A : Type ℓ} (n : ℕ) (xs : List A) (q : ℕ) → q < n → get_elem? (take n xs) q ≡ get_elem? xs q
get_elem?-take zero xs q h = absurd (omega arith)
get_elem?-take (suc n) [] q h = refl
get_elem?-take (suc n) (x ∷ xs) zero h = refl
get_elem?-take (suc n) (x ∷ xs) (suc q) h = get_elem?-take n xs q (omega arith)

pub get_elem?-drop {ℓ} :
    {A : Type ℓ} (m : ℕ) (xs : List A) (q : ℕ) → get_elem? (drop m xs) q ≡ get_elem? xs (m + q)
get_elem?-drop zero xs q = ap (get_elem? xs) (omega arith)
get_elem?-drop (suc m) [] q = refl
get_elem?-drop (suc m) (x ∷ xs) q =
    get_elem?-drop m xs q ∙ ap (get_elem? (x ∷ xs)) {x = suc (m + q)} {y = suc m + q} (omega arith)

pub get_elem?-take-drop {ℓ} :
    {A : Type ℓ} (n m : ℕ) (xs : List A) (q : ℕ)
    → q < n
    → get_elem? (take n (drop m xs)) q ≡ get_elem? xs (m + q)
get_elem?-take-drop n m xs q h = get_elem?-take n (drop m xs) q h ∙ get_elem?-drop m xs q

pub All-take {ℓ} : (P : ℕ → Type ℓ) (n : ℕ) (xs : List ℕ) → All P xs → All P (take n xs)
All-take P zero xs a = tt
All-take P (suc n) [] a = tt
All-take P (suc n) (x ∷ xs) a = (a.0, All-take P n xs a.1)

pub All-drop {ℓ} : (P : ℕ → Type ℓ) (n : ℕ) (xs : List ℕ) → All P xs → All P (drop n xs)
All-drop P zero xs a = a
All-drop P (suc n) [] a = tt
All-drop P (suc n) (x ∷ xs) a = All-drop P n xs a.1
