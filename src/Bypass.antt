-- ===== src/Bypass.antt =====
-- dev_root/client_lib/src/prepostprocessors/bypass_ppp.h: the prepostprocessor that leaves the buffers
-- alone. Its `SetupJobSlice` counts the transmission units (LTUs) of a slice, of `ltu_size` bytes each.
use p4app_switch_ml.Prelude.{ℕ, ◌+◌, ◌-◌, ◌*◌, ◌/◌, ◌%◌, ◌≤◌, ◌<◌, ◌≡◌, Bool, false, arith, u64_mod}
use native.Mathlib.Nat.{mod-eq_of_lt, mod-lt, div-add-mod}
use p4app_switch_ml.Common.{DataType, data_type_size}

unfoldable pub setup_job_slice : ℕ → ℕ → DataType → ℕ
setup_job_slice ltu_size numel data_type =
    let tensor_size = numel * data_type_size data_type % u64_mod in
    (tensor_size + ltu_size - 1) % u64_mod / ltu_size

unfoldable pub needs_extra_batch : Bool
needs_extra_batch = false

-- For units of a byte or more and a slice whose bytes, rounded up to units, are below 2 ^ 64, the units
-- are as many as hold the slice and no more.
pub setup_job_slice_covers :
    (ltu_size numel : ℕ) (data_type : DataType)
    → 0 < ltu_size
    → numel * data_type_size data_type + ltu_size ≤ u64_mod
    → (numel * data_type_size data_type ≤ setup_job_slice ltu_size numel data_type * ltu_size)
      × (setup_job_slice ltu_size numel data_type * ltu_size
          < numel * data_type_size data_type + ltu_size)
unfolding setup_job_slice
setup_job_slice_covers ltu_size numel data_type pos fits =
    let bytes = numel * data_type_size data_type in
    let low : bytes % u64_mod ≡ bytes = mod-eq_of_lt (omega arith) in
    let below : bytes + ltu_size - 1 < u64_mod = omega arith in
    let whole = div-add-mod (bytes + ltu_size - 1) ltu_size in
    let rem = mod-lt (bytes + ltu_size - 1) pos in
    rw (low, mod-eq_of_lt below) (omega arith, omega arith)
