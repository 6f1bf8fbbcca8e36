-- ===== src/Outcome.antt =====
-- How a call of the library can end: with a value, or by ending the process. glog's LOG(FATAL) and
-- CHECK abort, a standard container's at() throws, and some accesses are undefined.
use p4app_switch_ml.Prelude.{Bool, true, false, ◌≡◌, refl, ap, ◌∙◌}

pub data Crash : Type 0 where
  fatal : Crash
  out_of_range : Crash
  undefined : Crash

pub data Outcome {ℓ} (A : Type ℓ) : Type ℓ where
  ok : A → Outcome A
  crash : Crash → Outcome A

-- What follows a step runs only on the value that the step returned.
module _ {ℓ κ} {A : Type ℓ} {B : Type κ} where
  infixl 5 ◌>>=◌
  abbrev pub ◌>>=◌ : Outcome A → (A → Outcome B) → Outcome B
  ◌>>=◌ (crash why) after = crash why
  ◌>>=◌ (ok v) after = after v

  -- A chain that returned got a value from its first step.
  pub bind_returned :
      (first : Outcome A) (after : A → Outcome B) {w : B}
      → (first >>= after) ≡ ok w
      → (v : A) × (after v ≡ ok w) × (first ≡ ok v)
  bind_returned (crash why) after e = cc
  bind_returned (ok v) after e = (v, e, refl)

  pub bind_ok :
      {first : Outcome A} (after : A → Outcome B) {v : A} {w : B}
      → first ≡ ok v
      → after v ≡ ok w
      → (first >>= after) ≡ ok w
  bind_ok after e e' = ap (λ x. x >>= after) e ∙ e'

infixl 5 ◌>>◌
abbrev pub ◌>>◌ {κ} : {B : Type κ} → Outcome (Unit {0}) → Outcome B → Outcome B
check >> after = check >>= λ _. after

-- LOG_IF(FATAL, test) and a failed CHECK: go on only where the test is false.
abbrev pub crash_if : Bool → Crash → Outcome (Unit {0})
crash_if false why = ok tt
crash_if true why = crash why

-- What follows a step counts only on the values that the step can return.
pub bind_same {ℓ κ} :
    {A : Type ℓ} {B : Type κ} (first : Outcome A) (f g : A → Outcome B)
    → ((v : A) → first ≡ ok v → f v ≡ g v)
    → (first >>= f) ≡ (first >>= g)
bind_same (crash why) f g same = refl
bind_same (ok v) f g same = same v refl
