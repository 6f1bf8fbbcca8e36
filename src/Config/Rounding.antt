-- ===== src/Config/Rounding.antt =====
-- Rounding a count of packets to a multiple, as `Config::Validate` does.
use p4app_switch_ml.Prelude.{
  ℕ, ◌+◌, ◌-◌, ◌*◌, ◌/◌, ◌%◌, ◌≤◌, ◌<◌, ◌≡◌, ◌⊎◌, inl, inr, max, arith, Bool-cases, ltb, ltb→lt,
  ltb→le,
}
use native.Mathlib.Nat.{
  mod-eq_of_lt, mod-lt, div-add-mod, mul-mod_left, div-eq_of_lt, le-div_iff_mul-le,
  dvd_iff_mod-eq-zero, dvd_of_mod-eq-zero, dvd_trans, dvd-mul_right,
}
use p4app_switch_ml.Config.{round_outstanding}

-- How far two counts are apart.
abbrev pub apart : ℕ → ℕ → ℕ
apart a b = (a - b) + (b - a)

-- The lower multiple `low` is at most `mop`, or it is the first one and `mop` lies below it.
abbrev LowerMultiple : ℕ → ℕ → ℕ → Type 0
LowerMultiple mop per unit =
    ((per * unit ≤ mop) × (mop < per * unit + unit)) ⊎ ((mop < unit) × (per ≡ 1))

pub quotient_bounds :
    (mop unit : ℕ) → 0 < unit → (mop / unit * unit ≤ mop) × (mop < mop / unit * unit + unit)
quotient_bounds mop unit h =
    let rem : mop % unit < unit = mod-lt mop h in
    let whole = div-add-mod mop unit in (grind arith, grind arith)

pub one_le_quotient : (mop unit : ℕ) → 0 < unit → unit ≤ mop → 1 ≤ mop / unit
one_le_quotient mop unit h le = (le-div_iff_mul-le h).1 (omega arith)

pub quotient-LowerMultiple :
    (mop unit : ℕ) → 0 < unit → 1 ≤ mop / unit → LowerMultiple mop (mop / unit) unit
quotient-LowerMultiple mop unit h le = inl (quotient_bounds mop unit h)

pub lower-LowerMultiple : (mop unit : ℕ) → 0 < unit → LowerMultiple mop (max 1 (mop / unit)) unit
lower-LowerMultiple mop unit h = elim (Bool-cases (ltb mop unit)) [
  | inl below ↦
      let zero_times = div-eq_of_lt (ltb→lt _ _ below) in
      inr (ltb→lt _ _ below, omega (arith, zero_times))
  | inr above ↦
      let some_times = one_le_quotient mop unit h (ltb→le _ _ above) in
      let same : max 1 (mop / unit) ≡ mop / unit = omega arith in
      rw same (inl (quotient_bounds mop unit h))
]

pub mul-le : (j k unit : ℕ) → j ≤ k → j * unit ≤ k * unit
mul-le j k unit h = grind arith

-- Every positive multiple is at most the lower one, or at least the one above it.
other_multiples : (k per unit : ℕ) → (k * unit ≤ per * unit) ⊎ (per * unit + unit ≤ k * unit)
other_multiples k per unit = elim (Bool-cases (ltb per k)) [
  | inl over ↦ inr (omega (arith, mul-le (per + 1) k unit (omega (arith, ltb→lt _ _ over))))
  | inr under ↦ inl (mul-le k per unit (ltb→le _ _ under))
]

-- Rounding gives a multiple of the unit, one or more times, which is as near to the number as any
-- such multiple, and less than a unit above it unless it is the unit itself.
pub record Rounded (mop unit result : ℕ) : Type 0 where
  pub multiple : result % unit ≡ 0
  pub some : unit ≤ result
  pub nearest : (k : ℕ) → 1 ≤ k → apart mop result ≤ apart mop (k * unit)
  pub bounded : result ≤ mop + unit

module _ (mop per unit : ℕ) (h : 0 < unit) (positive : 1 ≤ per)
    (low : LowerMultiple mop per unit) where
  next_multiple : (per + 1) * unit ≡ per * unit + unit
  next_multiple = omega arith

  higher-Rounded :
      per * unit < mop
      → per * unit + unit - mop < mop - per * unit
      → Rounded mop unit ((per + 1) * unit)
  higher-Rounded above closer = record {
    multiple = mul-mod_left (per + 1) unit;
    some = omega (arith, mul-le 1 per unit positive);
    nearest = λ k some. elim (other_multiples k per unit) [
      | inl below ↦ ground arith
      | inr over ↦ ground arith
    ];
    bounded = omega arith;
  }

  lower-Rounded :
      (mop ≤ per * unit) ⊎ (mop - per * unit ≤ per * unit + unit - mop)
      → Rounded mop unit (per * unit)
  lower-Rounded closer = record {
    multiple = mul-mod_left per unit;
    some = omega (arith, mul-le 1 per unit positive);
    nearest = λ k some. elim (other_multiples k per unit) [
      | inl below ↦ ground (arith, mul-le 1 k unit some)
      | inr over ↦ ground arith
    ];
    bounded = ground arith;
  }

  pub round_outstanding-Rounded : Rounded mop unit (round_outstanding mop per unit)
  unfolding round_outstanding
  round_outstanding-Rounded = elim (Bool-cases (ltb (per * unit) mop)) [
    | inl above ↦ elim (Bool-cases (ltb ((per + 1) * unit - mop) (mop - per * unit))) [
      | inl closer ↦
          rw (above, closer) (higher-Rounded (ltb→lt _ _ above) (omega (arith, ltb→lt _ _ closer)))
      | inr further ↦ rw (above, further) (lower-Rounded (inr (omega (arith, ltb→le _ _ further))))
    ]
    | inr under ↦ rw under (lower-Rounded (inl (ltb→le _ _ under)))
  ]

-- A number that is a multiple already is its own rounding.
pub multiple-Rounded : (mop unit : ℕ) → mop % unit ≡ 0 → unit ≤ mop → Rounded mop unit mop
multiple-Rounded mop unit e le = record {
  multiple = e;
  some = le;
  nearest = λ k one. omega arith;
  bounded = omega arith;
}

pub le_of_multiple : (mop unit : ℕ) → mop % unit ≡ 0 → 0 < mop → unit ≤ mop
le_of_multiple mop unit e pos = elim (Bool-cases (ltb mop unit)) [
  | inl below ↦ absurd (omega (arith, mod-eq_of_lt (ltb→lt mop unit below)))
  | inr above ↦ ltb→le _ _ above
]

pub le_of_quotient : (mop unit : ℕ) → 0 < unit → 1 ≤ mop / unit → unit ≤ mop
le_of_quotient mop unit pos one =
    omega (arith, (quotient_bounds mop unit pos).1, mul-le 1 (mop / unit) unit one)

pub multiple_trans : (mop unit k : ℕ) → mop % (unit * k) ≡ 0 → mop % unit ≡ 0
multiple_trans mop unit k e =
    (dvd_iff_mod-eq-zero unit).0
      (dvd_trans unit (dvd-mul_right unit k) (dvd_of_mod-eq-zero (unit * k) e))

pub div_mono : (k : ℕ) {a b : ℕ} → 0 < k → a ≤ b → a / k ≤ b / k
div_mono k {a} {b} pos h = (le-div_iff_mul-le pos).1 (omega (arith, (quotient_bounds a k pos).0))
