-- ===== src/Dispatch/Lists.antt =====
-- Lists without repetitions that grow at their end.
use p4app_switch_ml.Prelude.{
  ℕ, zero, suc, ◌≤◌, ◌<◌, ◌≡◌, refl, ap, true, false, ◌==◌, if◌then◌else◌, List, [], ◌∷◌, ◌++◌,
  some, ◌⊎◌, inl, inr, length, get_elem?, elem, drop, some_inj, arith,
}
use p4app_switch_ml.TimeoutQueue.Order.{Distinct}

pub elem-append :
    (k j : ℕ) (xs : List ℕ) → elem k (xs ++ j ∷ []) ≡ (if k == j then true else elem k xs)
elem-append k j [] = ground arith
elem-append k j (x ∷ xs) = ground (arith, elem-append k j xs)

pub Distinct-append :
    (j : ℕ) (xs : List ℕ) → Distinct xs → elem j xs ≡ false → Distinct (xs ++ j ∷ [])
Distinct-append j [] d new = (refl, tt)
Distinct-append j (x ∷ xs) d new =
    (ground (arith, elem-append x j xs, d.0), Distinct-append j xs d.1 (ground arith))

pub get_elem?-elem : (xs : List ℕ) (p : ℕ) {k : ℕ} → get_elem? xs p ≡ some k → elem k xs ≡ true
get_elem?-elem [] p h = cc
get_elem?-elem (x ∷ xs) zero h = ground arith
get_elem?-elem (x ∷ xs) (suc p) h = ground (arith, get_elem?-elem xs p h)

pub get_elem?-lt : (xs : List ℕ) (p : ℕ) {k : ℕ} → get_elem? xs p ≡ some k → p < length xs
get_elem?-lt [] p h = cc
get_elem?-lt (x ∷ xs) zero h = omega arith
get_elem?-lt (x ∷ xs) (suc p) h = omega (arith, get_elem?-lt xs p h)

-- An element of a list that has grown is old or at the end.
pub get_elem?-append :
    (j : ℕ) (xs : List ℕ) (p : ℕ) {k : ℕ}
    → get_elem? (xs ++ j ∷ []) p ≡ some k
    → (get_elem? xs p ≡ some k) ⊎ ((p ≡ length xs) × (k ≡ j))
get_elem?-append j [] zero h = inr (refl, cc)
get_elem?-append j [] (suc p) h = cc
get_elem?-append j (x ∷ xs) zero h = inl h
get_elem?-append j (x ∷ xs) (suc p) h = elim (get_elem?-append j xs p h) [
  | inl old ↦ inl old
  | inr new ↦ inr (ap suc new.0, new.1)
]

pub get_elem?-old :
    (j : ℕ) (xs : List ℕ) (p : ℕ) {k : ℕ}
    → get_elem? xs p ≡ some k
    → get_elem? (xs ++ j ∷ []) p ≡ some k
get_elem?-old j [] p h = cc
get_elem?-old j (x ∷ xs) zero h = h
get_elem?-old j (x ∷ xs) (suc p) h = get_elem?-old j xs p h

pub drop-append :
    (j m : ℕ) (xs : List ℕ) → m ≤ length xs → drop m (xs ++ j ∷ []) ≡ drop m xs ++ j ∷ []
drop-append j zero xs h = refl
drop-append j (suc m) [] h = absurd (omega arith)
drop-append j (suc m) (x ∷ xs) h = drop-append j m xs (omega arith)

-- The first of the rest of a list.
pub drop-front :
    (m : ℕ) (xs : List ℕ) {j : ℕ} {rest : List ℕ}
    → drop m xs ≡ j ∷ rest
    → (get_elem? xs m ≡ some j) × (drop (suc m) xs ≡ rest)
drop-front zero [] h = cc
drop-front zero (x ∷ xs) h = (cc, cc)
drop-front (suc m) [] h = cc
drop-front (suc m) (x ∷ xs) h = drop-front m xs h

pub drop-some :
    (m : ℕ) (xs : List ℕ) → m < length xs → (j : ℕ) × (rest : List ℕ) × (drop m xs ≡ j ∷ rest)
drop-some m [] h = absurd (omega arith)
drop-some zero (x ∷ xs) h = (x, xs, refl)
drop-some (suc m) (x ∷ xs) h = drop-some m xs (omega arith)

clash : {x k : ℕ} (xs : List ℕ) → x ≡ k → elem x xs ≡ false → elem k xs ≡ true → ⊥
clash xs e out inside = cc

-- An element stands at one place only.
pub Distinct-places :
    (xs : List ℕ) (p q : ℕ) {k : ℕ}
    → Distinct xs
    → get_elem? xs p ≡ some k
    → get_elem? xs q ≡ some k
    → p ≡ q
Distinct-places [] p q d h h' = cc
Distinct-places (x ∷ xs) zero zero d h h' = refl
Distinct-places (x ∷ xs) zero (suc q) {k} d h h' =
    absurd (clash xs (some_inj h) d.0 (get_elem?-elem xs q h'))
Distinct-places (x ∷ xs) (suc p) zero d h h' =
    absurd (clash xs (some_inj h') d.0 (get_elem?-elem xs p h))
Distinct-places (x ∷ xs) (suc p) (suc q) d h h' = ap suc (Distinct-places xs p q d.1 h h')
