-- ===== src/Scheduler/Tests.antt =====
-- Eleven elements over four worker threads, and the theorems at them.
use p4app_switch_ml.Prelude.{ℕ, ◌+◌, ◌*◌, ◌≤◌, ◌<◌, ◌≡◌, refl, [], ◌∷◌, arith, map}
use p4app_switch_ml.Common.{Tensor, float32}
use p4app_switch_ml.Scheduler.{slice_numel, slice_offset, construct_slice}
use p4app_switch_ml.Scheduler.Slices.{Owns, slices_partition, construct_slice_lem}

abbrev tensor : Tensor
tensor = record { in_ptr = 4096; out_ptr = 8192; numel = 11; data_type = float32 }

offsets : map (slice_offset 4 11) (0 ∷ 1 ∷ 2 ∷ 3 ∷ []) ≡ 0 ∷ 3 ∷ 6 ∷ 9 ∷ []
unfolding slice_offset slice_numel
offsets = refl

slices_partition_example :
    ((e : ℕ) → e < 11 → (tid : ℕ) × Owns 4 11 tid e × ((k : ℕ) → Owns 4 11 k e → k ≡ tid))
    × ((tid : ℕ) → tid < 4 → slice_offset 4 11 tid + slice_numel 4 11 tid ≤ 11)
    × ((i j : ℕ) → i < 4 → j < 4 → slice_numel 4 11 i ≤ slice_numel 4 11 j + 1)
slices_partition_example = slices_partition 4 11 (omega arith) (omega arith)

construct_slice_lem_example :
    let s = construct_slice 4 tensor 2 in
    (s.in_ptr ≡ 4096 + 4 * slice_offset 4 11 2)
    × (s.out_ptr ≡ 8192 + 4 * slice_offset 4 11 2)
    × (s.in_ptr + 4 * s.numel ≤ 4140)
    × (s.out_ptr + 4 * s.numel ≤ 8236)
    × (s.data_type ≡ float32)
construct_slice_lem_example =
    construct_slice_lem 4 tensor 2 (omega arith) (omega arith) (omega arith)
