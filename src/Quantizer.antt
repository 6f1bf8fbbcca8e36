-- ===== src/Quantizer.antt =====
-- dev_root/client_lib/src/prepostprocessors/cpu_exponent_quantizer_ppp.{h,cc}. A build with VCL
-- (`vcl`) handles blocks of 16 elements with vector operations, and only the remainder one by one.
-- A slice's buffers are lists of the words from `in_ptr` and `out_ptr` on, so that offsets count words.
-- The branch for other data types is left out, as `DataType` has no others.
pub mod Buffers
pub mod Vectors
pub mod Maxima
pub mod Sizes
pub mod Flight
pub mod Factors
mod Tests
pub mod Extents
pub mod Builds
pub mod RoundTrip
pub mod Exponents
use p4app_switch_ml.Prelude.{
  take, drop, ℕ, zero, suc, ◌+◌, ◌-◌, ◌*◌, ◌/◌, ◌%◌, ◌^◌, min, Bool, true, false, not, ◌&&◌, ltb,
  if◌then◌else◌, List, [], ◌∷◌, ◌++◌, map, Option, none, some, length, get_elem?, set, replicate,
  u64_mod,
}
use p4app_switch_ml.Outcome.{Outcome, ok, crash, undefined, ◌>>=◌}
use p4app_switch_ml.Common.{DataType, float32, int32, data_type_size}
use Buffers.{read, write}
use Vectors.{Arithmetic, htonl, blocks, permute_block}

-- The slice of the `job_slice_`.
pub record Slice : Type 0 where
  pub in_words : List ℕ
  pub out_words : List ℕ
  pub numel : ℕ
  pub data_type : DataType

-- An element of `scaling_factors_` has no value until it is assigned.
pub record Quantizer : Type 0 where
  pub ltu_size : ℕ
  pub batch_max_num_ltus : ℕ
  pub num_workers : ℕ
  pub slice : Slice
  pub scaling_factors : List (Option ℕ)
  pub total_main_num_ltus : ℕ
  pub batch_num_ltus : ℕ

-- What `entries_ptr` and `exponent_ptr` point to.
pub record Packet : Type 0 where
  pub entries : List ℕ
  pub exponent : ℕ

new_factors : DataType → ℕ → List (Option ℕ) → List (Option ℕ)
new_factors float32 total old = replicate total none
new_factors int32 total old = old

unfoldable pub setup_job_slice : Quantizer → Slice → Quantizer
unfolding new_factors
setup_job_slice q slice =
    let tensor_size = slice.numel * data_type_size slice.data_type % u64_mod in
    let total = (tensor_size + q.ltu_size - 1) % u64_mod / q.ltu_size in
    record q {
      slice = slice;
      total_main_num_ltus = total;
      batch_num_ltus = min total q.batch_max_num_ltus;
      scaling_factors = new_factors slice.data_type total q.scaling_factors;
    }

is_float : DataType → Bool
is_float float32 = true
is_float int32 = false

unfoldable pub needs_extra_batch : Quantizer → Bool
unfolding is_float
needs_extra_batch q = is_float q.slice.data_type

unfoldable pub cleanup_job_slice : Quantizer → Quantizer
cleanup_job_slice q = record q { scaling_factors = [] }

-- `ltu_numel`, `job_slice_numel_offset` and `numel_to_process`.
unfoldable pub ltu_numel : Quantizer → ℕ
ltu_numel q = q.ltu_size / data_type_size q.slice.data_type

unfoldable pub numel_offset : Quantizer → ℕ → ℕ
unfolding ltu_numel
numel_offset q ltu_id = ltu_id * ltu_numel q % u64_mod

unfoldable pub numel_to_process : Quantizer → ℕ → ℕ
unfolding ltu_numel numel_offset
numel_to_process q ltu_id =
    min (ltu_numel q) ((q.slice.numel + (u64_mod - numel_offset q ltu_id)) % u64_mod)

-- The elements of a unit, read from the client's tensor, and written back to it.
unfoldable pub load_ltu : Quantizer → ℕ → Outcome (List ℕ)
unfolding numel_offset numel_to_process
load_ltu q ltu_id = read q.slice.in_words (numel_offset q ltu_id) (numel_to_process q ltu_id)

unfoldable pub store_ltu : Quantizer → ℕ → List ℕ → Outcome Quantizer
unfolding numel_offset
store_ltu q ltu_id ws = do
  out ← write q.slice.out_words (numel_offset q ltu_id) ws
  ok (record q { slice = record (q.slice) { out_words = out } })

-- `scaling_factors_[ltu_id]`, read.
unfoldable pub factor_at : List (Option ℕ) → ℕ → Outcome ℕ
factor_at factors ltu_id = value (get_elem? factors ltu_id)
  where
    value : Option (Option ℕ) → Outcome ℕ
    value (some (some f)) = ok f
    value (some none) = crash undefined
    value none = crash undefined

-- `std::abs` clears the sign; a comparison with a NaN is false.
unfoldable pub abs : ℕ → ℕ
abs v = v % 2 ^ 31

abbrev pub infinity : ℕ
infinity = 255 * 2 ^ 23

unfoldable pub greater : ℕ → ℕ → Bool
greater v current = ltb current v && not (ltb infinity v) && not (ltb infinity current)

unfoldable pub single_max : ℕ → List ℕ → ℕ
unfolding abs greater
single_max current [] = current
single_max current (v ∷ vs) = single_max (if greater (abs v) current then abs v else current) vs

-- How many blocks of 16 there are below `to_vector_process`.
unfoldable pub num_blocks : Bool → ℕ → ℕ
num_blocks vcl n = if vcl then n / 16 else 0

-- `((bits & 0x7f800000) >> 23) - 126` as an `int8_t`.
unfoldable pub exponent_of : ℕ → ℕ
exponent_of bits = (bits / 2 ^ 23 % 256 + 130) % 256

unfoldable pub scaling_factor : Arithmetic → ℕ → ℕ → ℕ
scaling_factor ar num_workers exponent =
    ar.int32_max_over (ar.times num_workers (ar.powf_2 exponent))

unfoldable pub store_factor : Arithmetic → Quantizer → ℕ → ℕ → Quantizer
unfolding scaling_factor
store_factor ar q ltu_id exponent =
    if ltb ltu_id q.total_main_num_ltus
    then record q {
      scaling_factors =
          set q.scaling_factors ltu_id (some (scaling_factor ar q.num_workers exponent));
    }
    else q

module _ (ar : Arithmetic) (vcl : Bool) where
  abbrev pub lanes_max : List ℕ → List ℕ → List ℕ
  lanes_max (a ∷ xs) (b ∷ ys) = ar.lane_max a b ∷ lanes_max xs ys
  lanes_max _ _ = []

  unfoldable pub vector_max : ℕ → List ℕ → List ℕ → ℕ
  unfolding abs single_max
  vector_max zero lanes ws = single_max (ar.horizontal_max lanes) ws
  vector_max (suc m) lanes ws = vector_max m (lanes_max lanes (map abs (take 16 ws))) (drop 16 ws)

  unfoldable pub absolute_max : List ℕ → ℕ
  unfolding single_max vector_max
  absolute_max ws = if vcl then vector_max (length ws / 16) (replicate 16 0) ws else single_max 0 ws

  unfoldable pub quantize : ℕ → List ℕ → List ℕ
  unfolding permute_block htonl num_blocks
  quantize factor ws =
      blocks (λ b. permute_block ar (map (λ v. ar.roundi (ar.mul v factor)) b))
        (λ v. htonl (ar.round_to_u32 (ar.mul v factor))) (num_blocks vcl (length ws)) ws

  unfoldable pub dequantize : ℕ → List ℕ → List ℕ
  unfolding permute_block htonl num_blocks
  dequantize factor ws =
      blocks (λ b. map (λ w. ar.div (ar.to_float w) factor) (permute_block ar b))
        (λ w. ar.div (ar.to_float (htonl w)) factor) (num_blocks vcl (length ws)) ws

  -- Both directions of an integer's byte order.
  unfoldable pub convert : List ℕ → List ℕ
  unfolding permute_block htonl num_blocks
  convert ws = blocks (permute_block ar) htonl (num_blocks vcl (length ws)) ws

  -- The parts of `PreprocessSingle`: quantization of unit `k`, and the exponent of unit `ltu_id`.
  unfoldable pub quantize_ltu : Quantizer → ℕ → List ℕ → Outcome (List ℕ)
  unfolding quantize load_ltu factor_at write
  quantize_ltu q k entries = do
    factor ← factor_at q.scaling_factors k
    ws ← load_ltu q k
    write entries 0 (quantize factor ws)

  unfoldable pub exponent_ltu : Quantizer → ℕ → ℕ → Outcome ℕ
  unfolding exponent_of absolute_max load_ltu
  exponent_ltu q ltu_id old =
      if ltb ltu_id q.total_main_num_ltus
      then (load_ltu q ltu_id >>= λ ws. ok (exponent_of (absolute_max ws)))
      else ok old

  unfoldable pub preprocess_float : Quantizer → ℕ → Packet → Outcome Packet
  unfolding quantize_ltu exponent_ltu
  preprocess_float q ltu_id p = do
    entries ←
        (if ltb ltu_id q.batch_num_ltus
          then ok p.entries
          else quantize_ltu q (ltu_id - q.batch_num_ltus) p.entries)
    exponent ← exponent_ltu q ltu_id p.exponent
    ok (record { entries = entries; exponent = exponent })

  unfoldable pub preprocess_int : Quantizer → ℕ → Packet → Outcome Packet
  unfolding convert load_ltu write
  preprocess_int q ltu_id p = do
    ws ← load_ltu q ltu_id
    entries ← write p.entries 0 (convert ws)
    ok (record p { entries = entries })

  preprocess_as : DataType → Quantizer → ℕ → Packet → Outcome Packet
  preprocess_as float32 = preprocess_float
  preprocess_as int32 = preprocess_int

  unfoldable pub preprocess_single : Quantizer → ℕ → Packet → Outcome Packet
  unfolding preprocess_as
  preprocess_single q = preprocess_as q.slice.data_type q

  -- The parts of `PostprocessSingle`: dequantization of unit `k`, and the scaling factor of `ltu_id`.
  unfoldable pub dequantize_ltu : Quantizer → ℕ → List ℕ → Outcome Quantizer
  unfolding dequantize store_ltu factor_at numel_to_process read
  dequantize_ltu q k entries = do
    factor ← factor_at q.scaling_factors k
    ws ← read entries 0 (numel_to_process q k)
    store_ltu q k (dequantize factor ws)

  unfoldable pub postprocess_float : Quantizer → ℕ → Packet → Outcome Quantizer
  unfolding dequantize_ltu store_factor
  postprocess_float q ltu_id p = do
    q' ←
        (if ltb ltu_id q.batch_num_ltus
          then ok q
          else dequantize_ltu q (ltu_id - q.batch_num_ltus) p.entries)
    ok (store_factor ar q' ltu_id p.exponent)

  unfoldable pub postprocess_int : Quantizer → ℕ → Packet → Outcome Quantizer
  unfolding convert store_ltu numel_to_process read
  postprocess_int q ltu_id p = do
    ws ← read p.entries 0 (numel_to_process q ltu_id)
    store_ltu q ltu_id (convert ws)

  postprocess_as : DataType → Quantizer → ℕ → Packet → Outcome Quantizer
  postprocess_as float32 = postprocess_float
  postprocess_as int32 = postprocess_int

  unfoldable pub postprocess_single : Quantizer → ℕ → Packet → Outcome Quantizer
  unfolding postprocess_as
  postprocess_single q = postprocess_as q.slice.data_type q
