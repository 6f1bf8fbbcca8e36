-- ===== src/Prelude/Ints.antt =====
-- Machine widths: the modulus of each unsigned type of the source.
use Prim.Native.Nat.{ℕ, ◌^◌}

abbrev pub u16_mod : ℕ
u16_mod = 2 ^ 16

abbrev pub u32_mod : ℕ
u32_mod = 2 ^ 32

abbrev pub u64_mod : ℕ
u64_mod = 2 ^ 64
