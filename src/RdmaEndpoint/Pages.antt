-- ===== src/RdmaEndpoint/Pages.antt =====
-- The size of a memory region in huge pages.
use p4app_switch_ml.Prelude.{
  ℕ, zero, suc, ◌+◌, ◌-◌, ◌*◌, ◌/◌, ◌%◌, ◌^◌, ◌≤◌, ◌<◌, ◌≡◌, refl, sym, ◌∙◌, ◌&&◌, ◌==◌,
  if◌then◌else◌, arith, u64_mod, some, ==_refl, Bool, true, false,
}
use native.Mathlib.Nat.{
  mod-eq_of_lt, div-div-eq-div-mul, one-le-pow, div-eq_of_lt, zero-mul, div-add-mod', mod-lt,
  pow-succ', mul-mod_left,
}
use p4app_switch_ml.Outcome.{ok}
use p4app_switch_ml.RdmaEndpoint.{
  Memory, MemoryRegion, and_not, round_to_pages, allocate_at_address, check_some,
}

low_bit : (x : ℕ) → (if x % 2 == 1 && true then 1 else 0) ≡ x % 2
low_bit x = ground arith

high_bit : (b : Bool) → (let bit : ℕ = if b && false then 1 else 0 in bit) ≡ 0
high_bit true = refl
high_bit false = refl

-- Clearing no bit.
and_not-zero : (w x : ℕ) → x < 2 ^ w → and_not w x 0 ≡ x
unfolding and_not
and_not-zero zero x small = omega (arith, small)
and_not-zero (suc w) x small =
    rw (low_bit x, and_not-zero w (x / 2) (omega (arith, small))) (omega arith)

-- The lowest k + 1 bits set.
ones : (k : ℕ) → ((2 ^ suc k - 1) % 2 ≡ 1) × ((2 ^ suc k - 1) / 2 ≡ 2 ^ k - 1)
ones k =
    let twice = pow-succ' 2 k in
    let pos : 0 < 2 ^ k = one-le-pow k 2 (omega arith) in
    (omega (arith, twice, pos), omega (arith, twice, pos))

halves : (k x : ℕ) → x / 2 ^ suc k ≡ x / 2 / 2 ^ k
halves k x = rw (pow-succ' 2 k) (sym (div-div-eq-div-mul x 2 (2 ^ k)))

-- Clearing the k lowest bits.
and_not_lem : (w k x : ℕ) → x < 2 ^ w → and_not w x (2 ^ k - 1) ≡ x / 2 ^ k * 2 ^ k
unfolding and_not
and_not_lem w zero x small = and_not-zero w x small ∙ omega arith
and_not_lem zero (suc k) x small =
    rw
      (div-eq_of_lt {n = x} {m = 2 ^ suc k}
        (omega (arith, small, one-le-pow (suc k) 2 (omega arith))))
      (sym (zero-mul (2 ^ suc k)))
and_not_lem (suc w) (suc k) x small =
    let (odd, half) = ones k in
    rw (odd, half, and_not_lem w k (x / 2) (omega (arith, small)), halves k x, pow-succ' 2 k)
      (rw (high_bit (x % 2 == 1)) (grind arith))

-- The size as 64 bits compute it, for pages of a power of 2.
round_to_pages_eq :
    (k asked : ℕ)
    → asked + 2 ^ k ≤ u64_mod
    → round_to_pages (2 ^ k) asked ≡ (asked + (2 ^ k - 1)) / 2 ^ k * 2 ^ k
unfolding round_to_pages
round_to_pages_eq k asked fits =
    let pos = one-le-pow k 2 (omega arith) in
    let less : (2 ^ k + u64_mod - 1) % u64_mod ≡ 2 ^ k - 1 = omega (arith, fits, pos) in
    let small : asked + (2 ^ k - 1) < u64_mod = omega (arith, fits, pos) in
    rw (less, mod-eq_of_lt small) (and_not_lem 64 k (asked + (2 ^ k - 1)) small)

-- A region is a whole number of pages, with room for the bytes asked for and less than a page more.
pub record Region (page asked at : ℕ) (r : MemoryRegion) : Type 0 where
  pub addr : r.addr ≡ at
  pub whole : r.length % page ≡ 0
  pub room : asked ≤ r.length
  pub tight : r.length < asked + page

round_to_pages-Region :
    (k asked at : ℕ)
    → asked + 2 ^ k ≤ u64_mod
    → Region (2 ^ k) asked at (record { addr = at; length = round_to_pages (2 ^ k) asked })
round_to_pages-Region k asked at fits =
    let pos = one-le-pow k 2 (omega arith) in
    let up = asked + (2 ^ k - 1) in
    let split = div-add-mod' up (2 ^ k) in
    let rest = mod-lt up pos in
    rw (round_to_pages_eq k asked fits) (record {
      addr = refl;
      whole = mul-mod_left (up / 2 ^ k) (2 ^ k);
      room = omega (arith, split, rest, pos);
      tight = omega (arith, split, rest, pos);
    })

-- Where a huge page is a power of 2, the rounding does not leave 64 bits, `mmap` gives the requested
-- address and the device registers what was mapped, AllocateAtAddress returns a region at that
-- address: a whole number of huge pages, with room for the bytes asked for and less than a page more.
pub allocate_lem :
    (m : Memory) (k at asked : ℕ)
    → m.hugepagesize ≡ 2 ^ k
    → asked + 2 ^ k ≤ u64_mod
    → ((size : ℕ) → m.mmap at size ≡ some at)
    → ((size : ℕ) → m.reg_mr at size ≡ true)
    → (r : MemoryRegion) × (allocate_at_address m at asked ≡ ok r) × Region (2 ^ k) asked at r
unfolding allocate_at_address check_some
allocate_lem m k at asked pages fits mapped registered =
    let size = round_to_pages (2 ^ k) asked in
    (
      record { addr = at; length = size },
      rw (pages, mapped size, ==_refl at, registered size) refl,
      round_to_pages-Region k asked at fits,
    )
