-- ===== src/Quantizer/Extents.antt =====
-- Which elements of the slice a unit has: offsets, sizes, and reads and writes within the tensor.
use p4app_switch_ml.Prelude.{
  take, drop, length-take, length-drop, ℕ, suc, ◌+◌, ◌-◌, ◌*◌, ◌/◌, ◌%◌, ◌≤◌, ◌<◌, min, ◌≡◌, refl,
  ap, ◌∙◌, List, ◌++◌, length, arith, u64_mod,
}
use native.Mathlib.Nat.{mod-eq_of_lt, mul-div-le, mul-le-mul_left, mul-le-mul_right}
use p4app_switch_ml.Outcome.{ok, bind_ok}
use p4app_switch_ml.Common.{DataType, float32, int32, data_type_size}
use p4app_switch_ml.Quantizer.{
  Quantizer, Slice, ltu_numel, numel_offset, numel_to_process, load_ltu, store_ltu, setup_job_slice,
}
use p4app_switch_ml.Quantizer.Buffers.{read_lem, write_lem, length-write}

-- A quantizer that was set up for a slice: units of an element or more, a tensor that has its elements,
-- and whose bytes, rounded up to units, are below 2 ^ 64.
pub record Shape (q : Quantizer) : Type 0 where
  pub element : 4 ≤ q.ltu_size
  pub total_eq : q.total_main_num_ltus ≡ (q.slice.numel * 4 + q.ltu_size - 1) / q.ltu_size
  pub batch_le : q.batch_num_ltus ≤ q.total_main_num_ltus
  pub in_size : length q.slice.in_words ≡ q.slice.numel
  pub out_size : length q.slice.out_words ≡ q.slice.numel
  pub fits : q.slice.numel * 4 + q.ltu_size ≤ u64_mod

pub four_bytes : (d : DataType) → data_type_size d ≡ 4
unfolding data_type_size
four_bytes float32 = refl
four_bytes int32 = refl

pub ltu_numel_lem : (q : Quantizer) → ltu_numel q ≡ q.ltu_size / 4
unfolding ltu_numel
ltu_numel_lem q = ap (λ n. q.ltu_size / n) (four_bytes q.slice.data_type)

module _ (q : Quantizer) (shape : Shape q) (k : ℕ) (main : k < q.total_main_num_ltus) where
  -- The unit begins within the tensor.
  pub starts : k * (q.ltu_size / 4) < q.slice.numel
  starts =
      let bytes = q.slice.numel * 4 + q.ltu_size - 1 in
      let units : q.total_main_num_ltus * q.ltu_size ≤ bytes =
        rw shape.total_eq (omega (arith, mul-div-le bytes q.ltu_size)) in
      let before = mul-le-mul_right {m = suc k} {n = q.total_main_num_ltus} q.ltu_size main in
      let elements = mul-le-mul_left {m = 4 * (q.ltu_size / 4)} {n = q.ltu_size} k (omega arith) in
      omega (arith, shape.element)

  pub unit_lem :
      (numel_offset q k ≡ k * (q.ltu_size / 4))
      × (numel_to_process q k ≡ min (q.ltu_size / 4) (q.slice.numel - k * (q.ltu_size / 4)))
      × (numel_offset q k + numel_to_process q k ≤ q.slice.numel)
  unfolding numel_offset numel_to_process
  unit_lem = rw ltu_numel_lem (
      let low : k * (q.ltu_size / 4) % u64_mod ≡ k * (q.ltu_size / 4) =
        mod-eq_of_lt (omega (arith, starts, shape.fits)) in
      rw low (refl, omega (arith, starts, shape.fits), omega (arith, starts, shape.fits)))

  -- A unit can be read from the tensor, and written to it.
  pub load_ok :
      load_ltu q k ≡ ok (take (numel_to_process q k) (drop (numel_offset q k) q.slice.in_words))
  unfolding load_ltu
  load_ok = read_lem q.slice.in_words _ _ (omega (arith, unit_lem.2, shape.in_size))

  pub loaded_size :
      length (take (numel_to_process q k) (drop (numel_offset q k) q.slice.in_words))
      ≡ numel_to_process q k
  loaded_size =
      length-take _ _
        (omega (arith, unit_lem.2, shape.in_size, length-drop (numel_offset q k) q.slice.in_words))

  unfoldable pub stored : List ℕ → Quantizer
  stored ws =
      let after = drop (numel_offset q k + length ws) q.slice.out_words in
      record q {
        slice = record (q.slice) {
          out_words = take (numel_offset q k) q.slice.out_words ++ (ws ++ after);
        };
      }

  pub store_ok :
      (ws : List ℕ)
      → length ws ≡ numel_to_process q k
      → (store_ltu q k ws ≡ ok (stored ws)) × Shape (stored ws)
  unfolding store_ltu stored
  store_ok ws size =
      let inside : numel_offset q k + length ws ≤ length q.slice.out_words =
        omega (arith, unit_lem.2, shape.out_size) in
      (
        bind_ok (λ out. ok (record q { slice = record (q.slice) { out_words = out } }))
            (write_lem q.slice.out_words (numel_offset q k) ws inside) refl,
        record {
          element = shape.element;
          total_eq = shape.total_eq;
          batch_le = shape.batch_le;
          in_size = shape.in_size;
          out_size = length-write q.slice.out_words (numel_offset q k) ws inside ∙ shape.out_size;
          fits = shape.fits;
        },
      )

pub setup-Shape :
    (q : Quantizer) (slice : Slice)
    → 4 ≤ q.ltu_size
    → length slice.in_words ≡ slice.numel
    → length slice.out_words ≡ slice.numel
    → slice.numel * 4 + q.ltu_size ≤ u64_mod
    → Shape (setup_job_slice q slice)
unfolding setup_job_slice
setup-Shape q slice element in_size out_size fits = record {
  element = element;
  total_eq =
      rw
        (
          four_bytes slice.data_type,
          mod-eq_of_lt {n = slice.numel * 4} {m = u64_mod} (omega (arith, fits)),
          mod-eq_of_lt {n = slice.numel * 4 + q.ltu_size - 1} {m = u64_mod} (omega (arith, fits)),
        )
        refl;
  batch_le = omega arith;
  in_size = in_size;
  out_size = out_size;
  fits = fits;
}
