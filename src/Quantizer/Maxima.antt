-- ===== src/Quantizer/Maxima.antt =====
-- The maximum over a unit's elements and its exponent, in both builds.
use p4app_switch_ml.Prelude.{
  take, drop, length-take, length-drop, take-drop, map-append, All-take, All-drop, ℕ, zero, suc,
  ◌*◌, ◌/◌, ◌≤◌, ◌<◌, max, ◌≡◌, refl, sym, ap, ◌∙◌, Bool, true, false, if◌then◌else◌, List, [], ◌∷◌,
  ◌++◌, map, length, replicate, All, arith,
}
use native.Mathlib.Nat.{div-add-mod}
use p4app_switch_ml.Quantizer.{
  abs, infinity, greater, single_max, vector_max, lanes_max, absolute_max,
}
use p4app_switch_ml.Quantizer.Vectors.{Arithmetic}

abbrev pub maximum : List ℕ → ℕ
maximum [] = 0
maximum (x ∷ xs) = max x (maximum xs)

-- No NaN, whatever the sign.
abbrev pub Ordered : ℕ → Type 0
Ordered v = abs v ≤ infinity

-- On numbers without sign that are not NaN, `max` of two lanes is the larger, and `horizontal_max`
-- the largest of the lanes.
pub record TakesMaxima (ar : Arithmetic) : Type 0 where
  pub lane : (a b : ℕ) → a ≤ infinity → b ≤ infinity → ar.lane_max a b ≡ max a b
  pub lanes : (xs : List ℕ) → All (λ x. x ≤ infinity) xs → ar.horizontal_max xs ≡ maximum xs

maximum_le : (m : ℕ) (xs : List ℕ) → All (λ x. x ≤ m) xs → maximum xs ≤ m
maximum_le m [] a = omega arith
maximum_le m (x ∷ xs) a = omega (arith, a.0, maximum_le m xs a.1)

-- What is below a bound above the maximum, and the other way round.
pub maximum_below :
    (b : ℕ) (ws : List ℕ) → 0 < b → All (λ v. abs v < b) ws → maximum (map abs ws) < b
maximum_below b [] pos a = pos
maximum_below b (v ∷ vs) pos a = omega (arith, a.0, maximum_below b vs pos a.1)

pub below_maximum : (b : ℕ) (ws : List ℕ) → maximum (map abs ws) < b → All (λ v. abs v < b) ws
below_maximum b [] h = tt
below_maximum b (v ∷ vs) h = (omega (arith, h), below_maximum b vs (omega (arith, h)))

maximum-append : (xs ys : List ℕ) → maximum (xs ++ ys) ≡ max (maximum xs) (maximum ys)
maximum-append [] ys = omega arith
maximum-append (x ∷ xs) ys = omega (arith, maximum-append xs ys)

All-map-abs : (xs : List ℕ) → All Ordered xs → All (λ x. x ≤ infinity) (map abs xs)
All-map-abs [] a = tt
All-map-abs (x ∷ xs) a = (a.0, All-map-abs xs a.1)

length-map-abs : (xs : List ℕ) → length (map abs xs) ≡ length xs
length-map-abs [] = refl
length-map-abs (x ∷ xs) = ap suc (length-map-abs xs)

single_max_step : (c v : ℕ) → c ≤ infinity → v ≤ infinity → (if greater v c then v else c) ≡ max c v
unfolding greater
single_max_step c v hc hv = ground arith

single_max_lem :
    (c : ℕ) (ws : List ℕ)
    → c ≤ infinity
    → All Ordered ws
    → single_max c ws ≡ max c (maximum (map abs ws))
unfolding single_max
single_max_lem c [] h a = omega arith
single_max_lem c (v ∷ vs) h a =
    rw (single_max_step c (abs v) h a.0)
      (omega (arith, single_max_lem (max c (abs v)) vs (omega (arith, a.0)) a.1))

module _ (ar : Arithmetic) (laws : TakesMaxima ar) where
  lanes_max_lem :
      (xs ys : List ℕ)
      → length xs ≡ length ys
      → All (λ x. x ≤ infinity) xs
      → All (λ x. x ≤ infinity) ys
      → (maximum (lanes_max ar true xs ys) ≡ max (maximum xs) (maximum ys))
        × (length (lanes_max ar true xs ys) ≡ length xs)
        × All (λ x. x ≤ infinity) (lanes_max ar true xs ys)
  lanes_max_lem [] [] e a b = (omega arith, refl, tt)
  lanes_max_lem [] (y ∷ ys) e a b = absurd (omega arith)
  lanes_max_lem (x ∷ xs) [] e a b = absurd (omega arith)
  lanes_max_lem (x ∷ xs) (y ∷ ys) e a b =
      let (top, size, fine) = lanes_max_lem xs ys (omega arith) a.1 b.1 in
      rw (laws.lane x y a.0 b.0) (omega (arith, top), ap suc size, (omega (arith, a.0, b.0), fine))

  vector_max_lem :
      (m : ℕ) (lanes ws : List ℕ)
      → length lanes ≡ 16
      → m * 16 ≤ length ws
      → All (λ x. x ≤ infinity) lanes
      → All Ordered ws
      → vector_max ar true m lanes ws ≡ max (maximum lanes) (maximum (map abs ws))
  unfolding vector_max
  vector_max_lem zero lanes ws e h a b =
      rw (laws.lanes lanes a) (single_max_lem (maximum lanes) ws (maximum_le infinity lanes a) b)
  vector_max_lem (suc m) lanes ws e h a b =
      let size = length-take 16 ws (omega arith) in
      let rest = length-drop 16 ws in
      let (top, len, fine) =
        lanes_max_lem lanes (map abs (take 16 ws)) (omega (arith, length-map-abs (take 16 ws))) a
          (All-map-abs (take 16 ws) (All-take Ordered 16 ws b)) in
      let split : maximum (map abs ws)
          ≡ max (maximum (map abs (take 16 ws))) (maximum (map abs (drop 16 ws))) =
        ap (λ xs. maximum (map abs xs)) (sym (take-drop 16 ws))
        ∙ ap maximum (map-append abs (take 16 ws) (drop 16 ws))
        ∙ maximum-append (map abs (take 16 ws)) (map abs (drop 16 ws)) in
      let later =
        vector_max_lem m (lanes_max ar true lanes (map abs (take 16 ws))) (drop 16 ws) (omega arith)
          (omega arith) fine (All-drop Ordered 16 ws b) in
      omega (arith, later, top, split)

  pub absolute_max_lem :
      (vcl : Bool) (ws : List ℕ) → All Ordered ws → absolute_max ar vcl ws ≡ maximum (map abs ws)
  unfolding absolute_max
  absolute_max_lem false ws a = omega (arith, single_max_lem 0 ws (omega arith) a)
  absolute_max_lem true ws a =
      let whole = div-add-mod (length ws) 16 in
      omega (arith, vector_max_lem (length ws / 16) (replicate 16 0) ws refl (omega arith) zeros a)
    where
      zeros : All (λ x. x ≤ infinity) (replicate 16 0)
      zeros = ground arith
