-- ===== src/Dpdk/Slots.antt =====
-- The pool indices of the packets of the DPDK backend.
use p4app_switch_ml.Prelude.{
  ℕ, suc, ◌+◌, ◌-◌, ◌*◌, ◌/◌, ◌%◌, ◌^◌, ◌≤◌, ◌<◌, ◌≡◌, ◌≢◌, refl, sym, ap, ◌∙◌, ltb, if◌then◌else◌,
  Bool-cases, inl, inr, arith, u16_mod, u32_mod, u64_mod, ltb→lt, ltb→le,
}
use native.Mathlib.Nat.{mod-eq_of_lt, mod-lt, div-add-mod, mul-le-mul_left, add-mod-mod, mod-le}
use p4app_switch_ml.Dpdk.{Job, pkt_id_2_pool_index, pool_index_of, next_shift}

-- Numbers less than a modulus apart leave different remainders.
mod_apart : (a b m : ℕ) → 0 < m → a < b → b < a + m → a % m ≢ b % m
mod_apart a b m pos lt near same =
    let da = div-add-mod a m in
    let db = div-add-mod b m in
    elim (Bool-cases (ltb (a / m) (b / m))) [
      | inl below ↦
          let le = mul-le-mul_left {m = suc (a / m)} {n = b / m} m (ltb→lt (a / m) (b / m) below) in
          absurd (omega arith)
      | inr above ↦
          let le = mul-le-mul_left {m = b / m} {n = a / m} m (ltb→le (a / m) (b / m) above) in
          absurd (omega arith)
    ]

-- The index from the place in the two pools.
index_lem :
    (i j start max : ℕ)
    → i < 2 * max
    → j < 2 * max
    → start + max ≤ 2 ^ 15
    → (if ltb i max then (start + i) % u16_mod else (start + (i - max)) % 2 ^ 15 + 2 ^ 15)
      ≡ (if ltb j max then (start + j) % u16_mod else (start + (j - max)) % 2 ^ 15 + 2 ^ 15)
    → i ≡ j
index_lem i j start max hi hj fits same = ground arith

-- The index, where nothing wraps.
pool_index_lem :
    (job : Job) (a : ℕ)
    → job.switch_pool_index_start + job.max_outstanding_pkts ≤ 2 ^ 15
    → a + job.switch_pool_index_shift < u64_mod
    → pool_index_of job a ≡ (
        let i = (a + job.switch_pool_index_shift) % (2 * job.max_outstanding_pkts) in
        if ltb i job.max_outstanding_pkts
        then (job.switch_pool_index_start + i) % u16_mod
        else (job.switch_pool_index_start + (i - job.max_outstanding_pkts)) % 2 ^ 15 + 2 ^ 15)
unfolding pool_index_of pkt_id_2_pool_index
pool_index_lem job a fits small =
    let low : (a + job.switch_pool_index_shift) % u64_mod ≡ a + job.switch_pool_index_shift =
      mod-eq_of_lt small in
    let pools : 2 * job.max_outstanding_pkts % u32_mod ≡ 2 * job.max_outstanding_pkts =
      mod-eq_of_lt (omega (arith, fits)) in
    rw (low, pools) refl

-- Two packets of a slice whose ids are less than two batches apart have different pool indices, in
-- particular a packet and the one that follows it in its slot; for one or more outstanding packets, whose
-- indices fit the 15 bits beside the one that selects the pool.
pub pool_index_of_differs :
    (job : Job) (a b : ℕ)
    → 0 < job.max_outstanding_pkts
    → job.switch_pool_index_start + job.max_outstanding_pkts ≤ 2 ^ 15
    → b + job.switch_pool_index_shift < u64_mod
    → a < b
    → b < a + 2 * job.max_outstanding_pkts
    → pool_index_of job a ≢ pool_index_of job b
pool_index_of_differs job a b pos fits small lt near same =
    let pools = 2 * job.max_outstanding_pkts in
    let some_pools : 0 < pools = omega arith in
    let a' = a + job.switch_pool_index_shift in
    let b' = b + job.switch_pool_index_shift in
    mod_apart a' b' pools some_pools (omega arith) (omega arith) (
      index_lem (a' % pools) (b' % pools) job.switch_pool_index_start job.max_outstanding_pkts
        (mod-lt a' some_pools) (mod-lt b' some_pools) fits
        (sym (pool_index_lem job a fits (omega arith)) ∙ same ∙ pool_index_lem job b fits small))

-- The pool indices of the next job go on where those of this one would.
pub next_shift_continues :
    (job : Job) (k : ℕ)
    → 0 < job.max_outstanding_pkts
    → job.switch_pool_index_start + job.max_outstanding_pkts ≤ 2 ^ 15
    → job.total_num_pkts + k + job.switch_pool_index_shift < u64_mod
    → pool_index_of (record job { switch_pool_index_shift = next_shift job }) k
      ≡ pool_index_of job (job.total_num_pkts + k)
unfolding next_shift
next_shift_continues job k pos fits small =
    let pools = 2 * job.max_outstanding_pkts in
    let done = job.switch_pool_index_shift + job.total_num_pkts in
    let low : done % u64_mod ≡ done = mod-eq_of_lt (omega arith) in
    let bound : done % pools ≤ done = mod-le done pools in
    let same : (k + done % u64_mod % pools) % pools
        ≡ (job.total_num_pkts + k + job.switch_pool_index_shift) % pools =
      ap (λ d. (k + d % pools) % pools) low
      ∙ add-mod-mod k done pools
      ∙ ap (λ d. d % pools) (omega arith) in
    pool_index_lem (record job { switch_pool_index_shift = next_shift job }) k fits
      (omega (arith, bound, low, ap (λ d. d % pools) low))
    ∙ ap
        (λ i.
          if ltb i job.max_outstanding_pkts
          then (job.switch_pool_index_start + i) % u16_mod
          else (job.switch_pool_index_start + (i - job.max_outstanding_pkts)) % 2 ^ 15 + 2 ^ 15)
        same
    ∙ sym (pool_index_lem job (job.total_num_pkts + k) fits small)
