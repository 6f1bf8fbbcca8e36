-- ===== src/Dummy/Entries.antt =====
-- dev_root/client_lib/src/backends/dummy/dummy_backend.cc, SWAP_INT32 and `ProcessPacket`: the bits of
-- a 32-bit element as a number. The four masks are disjoint, so that their `|` is a sum.
use p4app_switch_ml.Prelude.{
  ℕ, ◌+◌, ◌*◌, ◌/◌, ◌%◌, ◌<◌, ◌≡◌, refl, ◌∙◌, ap, List, [], ◌∷◌, map, arith, u32_mod,
}
use native.Mathlib.Nat.{mod-lt}

unfoldable pub swap_int32 : ℕ → ℕ
swap_int32 a =
    a / 16777216 % 256 + a / 256 % 256 * 65536 + a / 65536 % 256 * 256 + a % 256 * 16777216

-- What `ProcessPacket` does to an element: `int32_t *= uint16_t`, the low 32 bits of the product.
unfoldable pub process_entry : ℕ → ℕ → ℕ
process_entry num_workers a = swap_int32 (swap_int32 a * num_workers % u32_mod)

unfoldable pub process_entries : ℕ → List ℕ → List ℕ
process_entries num_workers = map (process_entry num_workers)

-- Swapping the bytes of a 32-bit number twice gives it back, and what is swapped has 32 bits.
pub swap-swap : (a : ℕ) → a < u32_mod → (swap_int32 (swap_int32 a) ≡ a) × (swap_int32 a < u32_mod)
unfolding swap_int32
swap-swap a h = (omega (arith, h), omega (arith, h))

process_entry_lem :
    (num_workers a : ℕ)
    → swap_int32 (process_entry num_workers a) ≡ swap_int32 a * num_workers % u32_mod
unfolding process_entry
process_entry_lem num_workers a =
    (swap-swap (swap_int32 a * num_workers % u32_mod) (mod-lt _ (omega arith))).0

-- Read in host byte order, ProcessPacket multiplies every element by the number of workers, modulo
-- 2 ^ 32, as the sum of that many equal elements.
pub swap-process_entries :
    (num_workers : ℕ) (xs : List ℕ)
    → map swap_int32 (process_entries num_workers xs)
      ≡ map (λ a. swap_int32 a * num_workers % u32_mod) xs
unfolding process_entries
swap-process_entries num_workers [] = refl
swap-process_entries num_workers (a ∷ xs) =
    ap (λ x. x ∷ map swap_int32 (process_entries num_workers xs)) (process_entry_lem num_workers a)
    ∙ ap (λ ys. (swap_int32 a * num_workers % u32_mod) ∷ ys) (swap-process_entries num_workers xs)
