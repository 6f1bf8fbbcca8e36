-- ===== src/Quantizer/Exponents.antt =====
-- The exponent that `PreprocessSingle` puts into a packet for the unit of the next batch.
use p4app_switch_ml.Prelude.{
  ℕ, ◌+◌, ◌-◌, ◌*◌, ◌^◌, ◌<◌, ◌≡◌, refl, ◌∙◌, Bool, List, [], ◌∷◌, ltb, if◌then◌else◌, All, arith,
  lt→ltb, if_true,
}
use p4app_switch_ml.Outcome.{ok, bind_ok}
use p4app_switch_ml.Quantizer.{Quantizer, abs, absolute_max, exponent_of, exponent_ltu, load_ltu}
use p4app_switch_ml.Quantizer.Maxima.{
  Ordered, TakesMaxima, maximum_below, below_maximum, absolute_max_lem,
}
use p4app_switch_ml.Quantizer.Vectors.{Arithmetic}

-- The bit pattern of the float `2 ^ e`, for an `int8_t` `e` of -126 or more.
abbrev pub power_of_two : ℕ → ℕ
power_of_two e = (if ltb e 128 then e + 127 else e - 129) * 2 ^ 23

-- The floats without sign below `2 ^ 127`: two and four times as much have no exponent in a byte.
abbrev pub exponent_limit : ℕ
exponent_limit = 254 * 2 ^ 23

Small-Ordered : (ws : List ℕ) → All (λ v. abs v < exponent_limit) ws → All Ordered ws
Small-Ordered [] a = tt
Small-Ordered (v ∷ vs) a = (omega (arith, a.0), Small-Ordered vs a.1)

exponent_of_lem :
    (m : ℕ) → m < exponent_limit → (exponent_of m < 256) × (m < power_of_two (exponent_of m))
unfolding exponent_of
exponent_of_lem m h = (ground arith, ground arith)

-- Where every element of a unit that is to be sent is below 2 ^ 127 in absolute value, in a build with
-- VCL or without, PreprocessSingle computes an exponent for it, a byte, and every element is below 2 to
-- that exponent in absolute value. Floats without sign are compared by their bit patterns.
pub exponent_bounds :
    (ar : Arithmetic) (vcl : Bool) (q : Quantizer) (ltu_id old : ℕ) (ws : List ℕ)
    → TakesMaxima ar
    → load_ltu q ltu_id ≡ ok ws
    → ltu_id < q.total_main_num_ltus
    → All (λ v. abs v < exponent_limit) ws
    → (e : ℕ) × (exponent_ltu ar vcl q ltu_id old ≡ ok e)
      × (e < 256)
      × All (λ v. abs v < power_of_two e) ws
unfolding exponent_ltu
exponent_bounds ar vcl q ltu_id old ws laws loaded main small =
    let m = absolute_max ar vcl ws in
    let m_eq = absolute_max_lem ar laws vcl ws (Small-Ordered ws small) in
    let below = maximum_below exponent_limit ws (omega arith) small in
    let (byte, above) = exponent_of_lem m (omega (arith, m_eq, below)) in
    (
      exponent_of m,
      if_true (ok old) (lt→ltb ltu_id q.total_main_num_ltus main)
          ∙ bind_ok (λ ws'. ok (exponent_of (absolute_max ar vcl ws'))) loaded refl,
      byte,
      below_maximum (power_of_two (exponent_of m)) ws (omega (arith, m_eq, above)),
    )
