-- ===== src/Dummy/Chains.antt =====
-- The packets of one slot are those whose ids agree modulo the size of a batch, one batch apart.
use p4app_switch_ml.Prelude.{
  ℕ, ◌+◌, ◌*◌, ◌/◌, ◌%◌, ◌≤◌, ◌<◌, ◌≡◌, ◌≢◌, refl, ap, inl, inr, Bool, true, false, arith,
  Bool-cases, ltb, leb, ltb→lt, ltb→le, ◌==◌, ◌&&◌, ==→eq, if◌then◌else◌,
}
use native.Mathlib.Nat.{mod-eq_of_lt, div-add-mod, add-mod_right, mod-le}

-- Whether packet `id` is the one that packet `m` waits for in its slot, or an earlier one.
unfoldable pub leads : ℕ → ℕ → ℕ → ℕ
leads batch m id = if leb id m && (id % batch == m % batch) then 1 else 0

abbrev pub same : ℕ → ℕ → ℕ
same m id = if id == m then 1 else 0

mul-le : (j k unit : ℕ) → j ≤ k → j * unit ≤ k * unit
mul-le j k unit h = grind arith

-- Two different packets of a slot are a batch apart.
pub apart_by_batch : (batch m id : ℕ) → id % batch ≡ m % batch → id < m → id + batch ≤ m
apart_by_batch batch m id e h =
    let dm = div-add-mod m batch in
    let di = div-add-mod id batch in
    elim (Bool-cases (ltb (id / batch) (m / batch))) [
      | inl below ↦
          let le = mul-le (id / batch + 1) (m / batch) batch (omega (arith, ltb→lt _ _ below)) in
          omega arith
      | inr above ↦ let le = mul-le (m / batch) (id / batch) batch (ltb→le _ _ above) in omega arith
    ]

-- The packet `id` and the one a batch on, where `slot` says whether `m` has their slot.
lead_cases :
    (batch m id : ℕ) (slot : Bool)
    → 0 < batch
    → (slot ≡ true → id < m → id + batch ≤ m)
    → (slot ≡ false → id ≢ m)
    → (if id == m then 1 else 0) + (if leb (id + batch) m && slot then 1 else 0)
      ≡ (if leb id m && slot then 1 else 0)
lead_cases batch m id true pos after other = ground (arith, after refl)
lead_cases batch m id false pos after other = ground (arith, other refl)

-- A packet that waits for `id` has it next, or waits for the packet one batch on.
pub leads_next :
    (batch m id : ℕ) → 0 < batch → same m id + leads batch m (id + batch) ≡ leads batch m id
unfolding leads
leads_next batch m id pos =
    let next : (id + batch) % batch ≡ id % batch = add-mod_right id batch in
    rw next (
      lead_cases batch m id (id % batch == m % batch) pos
        (λ slot below. apart_by_batch batch m id (==→eq _ _ slot) below)
        (λ other e. ground (arith, other, ap (λ k. k % batch) e)))

-- Only the packet of the slot's number, in the first batch, waits for a packet.
pub leads_first : (batch m id : ℕ) → id < batch → leads batch m id ≡ same (m % batch) id
unfolding leads
leads_first batch m id h =
    let low : id % batch ≡ id = mod-eq_of_lt h in
    let le : m % batch ≤ m = mod-le m batch in rw low (ground arith)

pub leads_self : (batch m : ℕ) → leads batch m m ≡ 1
unfolding leads
leads_self batch m = ground arith
