-- ===== src/Quantizer/Flight.antt =====
-- The packets of one slice, in any order in which a packet follows the answer to the packet a batch
-- before it, as the slots of a backend make it.
use p4app_switch_ml.Prelude.{
  ℕ, zero, suc, ◌+◌, ◌-◌, ◌≤◌, ◌<◌, ◌≡◌, refl, sym, ap, ◌∙◌, subst, Bool, false, if◌then◌else◌, ltb,
  ◌==◌, Option, none, some, List, [], ◌∷◌, length, arith, get_elem?, set, ne→==, length-set,
  Bool-cases, inl, inr, if_true, if_false, ==→eq, ltb→lt, ltb→le, replicate, some_inj,
}
use p4app_switch_ml.Outcome.{ok}
use p4app_switch_ml.Common.{DataType, float32, int32}
use p4app_switch_ml.Quantizer.{
  Quantizer, Slice, Packet, ltu_numel, setup_job_slice, new_factors, needs_extra_batch, is_float,
  factor_at, scaling_factor, store_factor, postprocess_single,
}
use p4app_switch_ml.Quantizer.Extents.{Shape, stored}
use p4app_switch_ml.Quantizer.Vectors.{Arithmetic}

-- The answers that were postprocessed, the latest first: the id and the exponent of each.
abbrev pub lookup : List (ℕ × ℕ) → ℕ → Option ℕ
lookup [] id = none
lookup ((i, e) ∷ answers) id = if id == i then some e else lookup answers id

-- A packet that a backend may hold: of the first batch, or its slot's last packet was answered.
pub record InFlight (q : Quantizer) (answers : List (ℕ × ℕ)) (id : ℕ) : Type 0 where
  pub in_range : id < q.total_main_num_ltus + (if needs_extra_batch q then q.batch_num_ltus else 0)
  pub follows : q.batch_num_ltus ≤ id → (e : ℕ) × (lookup answers (id - q.batch_num_ltus) ≡ some e)

get-set :
    {A : Type 0} (xs : List A) (i : ℕ) (x : A) → i < length xs → get_elem? (set xs i x) i ≡ some x
get-set [] i x h = absurd (omega arith)
get-set (y ∷ ys) zero x h = refl
get-set (y ∷ ys) (suc i) x h = get-set ys i x (omega arith)

get-set_other :
    {A : Type 0} (xs : List A) (i j : ℕ) (x : A)
    → (j == i) ≡ false
    → get_elem? (set xs i x) j ≡ get_elem? xs j
get-set_other [] i j x h = refl
get-set_other (y ∷ ys) zero zero x h = absurd (ground arith)
get-set_other (y ∷ ys) zero (suc j) x h = refl
get-set_other (y ∷ ys) (suc i) zero x h = refl
get-set_other (y ∷ ys) (suc i) (suc j) x h = get-set_other ys i j x (ground arith)

-- A unit that is neither of the first batch of floats nor beyond the last.
pub main_unit :
    {q : Quantizer} {answers : List (ℕ × ℕ)} {id : ℕ}
    → InFlight q answers id
    → q.slice.data_type ≡ float32
    → q.batch_num_ltus ≤ id
    → id - q.batch_num_ltus < q.total_main_num_ltus
unfolding needs_extra_batch is_float
main_unit {q} {answers} {id} flight floats later =
    let range =
      subst (λ d. id < q.total_main_num_ltus + (if is_float d then q.batch_num_ltus else 0)) floats
        flight.in_range in
    omega arith

pub int_unit :
    {q : Quantizer} {answers : List (ℕ × ℕ)} {id : ℕ}
    → InFlight q answers id
    → q.slice.data_type ≡ int32
    → id < q.total_main_num_ltus
unfolding needs_extra_batch is_float
int_unit {q} {answers} {id} flight ints =
    let range =
      subst (λ d. id < q.total_main_num_ltus + (if is_float d then q.batch_num_ltus else 0)) ints
        flight.in_range in
    omega arith

Shape-factors :
    {q : Quantizer} (factors : List (Option ℕ))
    → Shape q
    → Shape (record q { scaling_factors = factors })
Shape-factors factors shape = record {
  element = shape.element;
  total_eq = shape.total_eq;
  batch_le = shape.batch_le;
  in_size = shape.in_size;
  out_size = shape.out_size;
  fits = shape.fits;
}

module _ (ar : Arithmetic) (vcl : Bool) where
  pub data Reach (origin : Quantizer) : List (ℕ × ℕ) → Quantizer → Type 0 where
    set_up : Reach origin [] origin
    answered :
        {answers : List (ℕ × ℕ)} {q q' : Quantizer} (id : ℕ) (p : Packet)
        → Reach origin answers q
        → InFlight q answers id
        → ltu_numel q ≤ length p.entries
        → postprocess_single ar vcl q id p ≡ ok q'
        → Reach origin ((id, p.exponent) ∷ answers) q'

  -- What holds in between: the factors of the answered units are known.
  pub record Known (answers : List (ℕ × ℕ)) (q : Quantizer) : Type 0 where
    pub shape : Shape q
    pub room : q.slice.data_type ≡ float32 → length q.scaling_factors ≡ q.total_main_num_ltus
    pub factors :
        (k e : ℕ)
        → q.slice.data_type ≡ float32
        → k < q.total_main_num_ltus
        → lookup answers k ≡ some e
        → get_elem? q.scaling_factors k ≡ some (some (scaling_factor ar q.num_workers e))

  pub factor_eq :
      {q : Quantizer} {answers : List (ℕ × ℕ)} (k e : ℕ)
      → Known answers q
      → q.slice.data_type ≡ float32
      → k < q.total_main_num_ltus
      → lookup answers k ≡ some e
      → factor_at q.scaling_factors k ≡ ok (scaling_factor ar q.num_workers e)
  unfolding factor_at
  factor_eq k e known floats main found = rw (known.factors k e floats main found) refl

  -- The factor of an answered unit is stored.
  module _ {q : Quantizer} {answers : List (ℕ × ℕ)} (id e : ℕ) (known : Known answers q) where
    Known-set :
        id < q.total_main_num_ltus
        → q.slice.data_type ≡ float32
        → Known ((id, e) ∷ answers) (record q {
          scaling_factors = set q.scaling_factors id (some (scaling_factor ar q.num_workers e));
        })
    Known-set main floats = record {
      shape = Shape-factors _ known.shape;
      room = λ same. length-set q.scaling_factors id _ ∙ known.room same;
      factors = λ k e' same below found. elim (Bool-cases (k == id)) [
        | inl at ↦
            rw (==→eq k id at, sym (some_inj (sym (if_true _ at) ∙ found)))
              (get-set q.scaling_factors id _ (omega (arith, known.room floats)))
        | inr other ↦
            get-set_other q.scaling_factors id k _ other
            ∙ known.factors k e' same below (sym (if_false _ other) ∙ found)
      ];
    }

    Known-beyond : q.total_main_num_ltus ≤ id → Known ((id, e) ∷ answers) q
    Known-beyond beyond = record {
      shape = known.shape;
      room = known.room;
      factors = λ k e' same below found.
          known.factors k e' same below
            (sym (if_false _ (ne→== k id (λ at. absurd (omega arith)))) ∙ found);
    }

    pub Known-ints : q.slice.data_type ≡ int32 → Known ((id, e) ∷ answers) q
    Known-ints ints = record {
      shape = known.shape;
      room = known.room;
      factors = λ k e' same below found. absurd (not_both (sym same ∙ ints));
    }
      where
        not_both : float32 ≡ int32 → ⊥
        not_both h = cc

    pub Known-factor :
        q.slice.data_type ≡ float32 → Known ((id, e) ∷ answers) (store_factor ar q id e)
    unfolding store_factor
    Known-factor floats = elim (Bool-cases (ltb id q.total_main_num_ltus)) [
      | inl below ↦ rw below (Known-set (ltb→lt _ _ below) floats)
      | inr above ↦ rw above (Known-beyond (ltb→le _ _ above))
    ]

    -- Writes to the tensor do not touch the factors.
    pub Known-stored :
        (k : ℕ) (main : k < q.total_main_num_ltus) (ws : List ℕ)
        → Shape (stored q known.shape k main ws)
        → Known answers (stored q known.shape k main ws)
    unfolding stored
    Known-stored k main ws shape = record {
      shape = shape;
      room = known.room;
      factors = known.factors;
    }

length-new_factors :
    (d : DataType) (total : ℕ) (old : List (Option ℕ))
    → d ≡ float32
    → length (new_factors d total old) ≡ total
unfolding new_factors
length-new_factors float32 total old h = length-replicate total none
  where
    length-replicate : (n : ℕ) (x : Option ℕ) → length (replicate n x) ≡ n
    length-replicate zero x = refl
    length-replicate (suc n) x = ap suc (length-replicate n x)
length-new_factors int32 total old h = absurd (not_both h)
  where
    not_both : int32 ≡ float32 → ⊥
    not_both h = cc

-- Nothing is answered when a slice is set up.
pub Known-setup :
    (ar : Arithmetic) (vcl : Bool) (q0 : Quantizer) (slice : Slice)
    → Shape (setup_job_slice q0 slice)
    → Known ar vcl [] (setup_job_slice q0 slice)
unfolding setup_job_slice
Known-setup ar vcl q0 slice shape = record {
  shape = shape;
  room = length-new_factors slice.data_type _ q0.scaling_factors;
  factors = λ k e floats main found. absurd (not_found found);
}
  where
    not_found : {e : ℕ} → none ≡ some e → ⊥
    not_found h = cc
