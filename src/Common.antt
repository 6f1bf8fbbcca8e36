-- ===== src/Common.antt =====
-- dev_root/client_lib/src/common.h: data types and tensors. Pointers are byte addresses below
-- 2 ^ 64; `DataType` has the two values that `DataTypeSize` and `OffsetPtrs` accept.
use p4app_switch_ml.Prelude.{ℕ, ◌+◌, ◌*◌, ◌%◌, u64_mod, ◌≡◌, arith}

pub data DataType : Type 0 where
  float32 int32 : DataType

unfoldable pub data_type_size : DataType → ℕ
data_type_size float32 = 4
data_type_size int32 = 4

pub record Tensor : Type 0 where
  pub in_ptr : ℕ
  pub out_ptr : ℕ
  pub numel : ℕ
  pub data_type : DataType

-- `ptr += numel` on a `float*` or an `int32_t*`, both of four bytes.
abbrev pub advance : ℕ → ℕ → ℕ
advance ptr numel = (ptr + 4 * numel) % u64_mod

offset_as : DataType → Tensor → ℕ → Tensor
offset_as float32 t n = record t { in_ptr = advance t.in_ptr n; out_ptr = advance t.out_ptr n }
offset_as int32 t n = record t { in_ptr = advance t.in_ptr n; out_ptr = advance t.out_ptr n }

unfoldable pub offset_ptrs : Tensor → ℕ → Tensor
unfolding offset_as
offset_ptrs t n = offset_as t.data_type t n

-- Both data types take the same branch, in effect.
pub offset_ptrs_lem :
    (t : Tensor) (n : ℕ)
    → offset_ptrs t n ≡ record t { in_ptr = advance t.in_ptr n; out_ptr = advance t.out_ptr n }
unfolding offset_ptrs
offset_ptrs_lem t n = ground arith
