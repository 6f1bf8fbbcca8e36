-- ===== src/Quantizer/Tests.antt =====
-- A tensor of three floats, in units of two and batches of one, with simple operations on patterns in
-- place of the floating-point ones.
use p4app_switch_ml.Prelude.{
  length, take, drop, ◌++◌, ℕ, ◌+◌, ◌-◌, ◌*◌, ◌^◌, ◌<◌, max, ◌≡◌, refl, true, false, [], ◌∷◌, map,
  none, some, arith, All,
}
use p4app_switch_ml.Outcome.{ok}
use p4app_switch_ml.Common.{float32, int32, data_type_size}
use p4app_switch_ml.Quantizer.{
  Quantizer, Slice, Packet, abs, setup_job_slice, preprocess_single, postprocess_single,
  exponent_ltu, load_ltu, ltu_numel, numel_offset, postprocess_float,
}
use p4app_switch_ml.Quantizer.Buffers.{read}
use p4app_switch_ml.Quantizer.Extents.{Shape}
use p4app_switch_ml.Quantizer.RoundTrip.{unit_of, postprocess-preprocess}
use p4app_switch_ml.Quantizer.Vectors.{Arithmetic, nth}
use p4app_switch_ml.Quantizer.Maxima.{maximum, TakesMaxima}
use p4app_switch_ml.Quantizer.Exponents.{exponent_bounds, power_of_two}
use p4app_switch_ml.Quantizer.Builds.{postprocess_single_agrees}
use p4app_switch_ml.Quantizer.Flight.{InFlight, Reach, set_up, answered}
use p4app_switch_ml.Quantizer.Factors.{never_undefined}

abbrev simple : Arithmetic
simple = record {
  mul = λ a f. a + f;
  div = λ a f. a - f;
  round_to_u32 = λ a. a;
  roundi = λ a. a;
  to_float = λ a. a;
  powf_2 = λ e. e;
  times = λ n f. n * f;
  int32_max_over = λ f. f + 1;
  permute64 = λ indices bytes. map (nth bytes) indices;
  lane_max = λ a b. max a b;
  horizontal_max = maximum;
}

simple-TakesMaxima : TakesMaxima simple
simple-TakesMaxima = record { lane = λ a b ha hb. refl; lanes = λ xs a. refl }

abbrev idle : Quantizer
idle = record {
  ltu_size = 8;
  batch_max_num_ltus = 1;
  num_workers = 2;
  slice = record { in_words = []; out_words = []; numel = 0; data_type = int32 };
  scaling_factors = [];
  total_main_num_ltus = 0;
  batch_num_ltus = 0;
}

abbrev tensor : Slice
tensor = record {
  in_words = 127 * 2 ^ 23 ∷ 128 * 2 ^ 23 ∷ 5 ∷ [];
  out_words = 0 ∷ 0 ∷ 0 ∷ [];
  numel = 3;
  data_type = float32;
}

abbrev packet : Packet
packet = record { entries = 0 ∷ 0 ∷ []; exponent = 3 }

abbrev ready : Quantizer
ready = record {
  ltu_size = 8;
  batch_max_num_ltus = 1;
  num_workers = 2;
  slice = tensor;
  scaling_factors = none ∷ none ∷ [];
  total_main_num_ltus = 2;
  batch_num_ltus = 1;
}

ready_lem : setup_job_slice idle tensor ≡ ready
unfolding setup_job_slice data_type_size
ready_lem = refl

abbrev scaled : Quantizer
scaled = record ready { scaling_factors = some 7 ∷ none ∷ [] }

first-InFlight : InFlight (setup_job_slice idle tensor) [] 0
unfolding setup_job_slice data_type_size
first-InFlight = record { in_range = omega arith; follows = λ late. absurd (omega arith) }

scaled-Reach : Reach simple false (setup_job_slice idle tensor) ((0, 3) ∷ []) scaled
unfolding setup_job_slice data_type_size postprocess_single ltu_numel postprocess_float
scaled-Reach = answered 0 packet set_up first-InFlight (omega arith) refl

second-InFlight : InFlight scaled ((0, 3) ∷ []) 1
unfolding setup_job_slice data_type_size
second-InFlight = record { in_range = omega arith; follows = λ late. (3, refl) }

exponent_bounds_example :
    (e : ℕ) × (exponent_ltu simple true ready 0 9 ≡ ok e)
    × (e < 256)
    × All (λ v. abs v < power_of_two e) (127 * 2 ^ 23 ∷ 128 * 2 ^ 23 ∷ [])
unfolding load_ltu abs data_type_size read
exponent_bounds_example =
    exponent_bounds simple true ready 0 9 (127 * 2 ^ 23 ∷ 128 * 2 ^ 23 ∷ []) simple-TakesMaxima refl
      (omega arith) (omega arith, (omega arith, tt))

postprocess_single_agrees_example :
    postprocess_single simple true scaled 1 packet ≡ postprocess_single simple false scaled 1 packet
postprocess_single_agrees_example =
    postprocess_single_agrees simple scaled 1 packet (λ indices bytes. refl)

never_undefined_example :
    ((p' : Packet) × (preprocess_single simple false scaled 1 packet ≡ ok p'))
    × ((q' : Quantizer) × (postprocess_single simple false scaled 1 packet ≡ ok q'))
unfolding ltu_numel data_type_size
never_undefined_example =
    never_undefined simple false idle tensor 1 packet (λ indices bytes. refl) (omega arith) refl
      refl (omega arith) scaled-Reach second-InFlight (omega arith)

abbrev integers : Quantizer
integers = record {
  ltu_size = 8;
  batch_max_num_ltus = 1;
  num_workers = 2;
  slice = record {
    in_words = 1 ∷ 2 ∷ 16909060 ∷ [];
    out_words = 0 ∷ 0 ∷ 0 ∷ [];
    numel = 3;
    data_type = int32;
  };
  scaling_factors = [];
  total_main_num_ltus = 2;
  batch_num_ltus = 1;
}

integers-Shape : Shape integers
integers-Shape = record {
  element = omega arith;
  total_eq = refl;
  batch_le = omega arith;
  in_size = refl;
  out_size = refl;
  fits = omega arith;
}

postprocess-preprocess_example :
    (p' : Packet) × (q' : Quantizer) × (preprocess_single simple true integers 1 packet ≡ ok p')
    × (postprocess_single simple true integers 1 p' ≡ ok q')
    × (q'.slice.out_words
        ≡ take (numel_offset integers 1) (0 ∷ 0 ∷ 0 ∷ [])
          ++ (unit_of integers 1
              ++ drop (numel_offset integers 1 + length (unit_of integers 1)) (0 ∷ 0 ∷ 0 ∷ [])))
unfolding ltu_numel data_type_size
postprocess-preprocess_example =
    postprocess-preprocess simple true integers 1 packet (λ indices bytes. refl) integers-Shape refl
      (omega arith, (omega arith, (omega arith, tt))) (omega arith) (omega arith)
