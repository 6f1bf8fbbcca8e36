-- ===== src/RdmaConnection/Cluster/Calls.antt =====
-- At which of its remote calls in rdma_connection.cc a worker is, and how many it made of the barrier.
use p4app_switch_ml.Prelude.{
  ℕ, zero, suc, ◌-◌, ◌≤◌, ◌≡◌, ◌≢◌, refl, sym, ◌∙◌, ap, ◌==◌, if_true, if_false, ne→==, List, [],
  ◌∷◌, get_elem?, some, arith,
}
use p4app_switch_ml.Config.{Config}
use p4app_switch_ml.RdmaConnection.Bringup.{
  Environment, SessionRequest, RemoteCall, barrier, create_session, session_calls,
}
use p4app_switch_ml.RdmaConnection.Cluster.{barriers, calls}

-- The calls of worker 0, and those of any other one.
abbrev first_calls : SessionRequest → ℕ → List RemoteCall
first_calls r k = create_session r ∷ barrier k ∷ barrier k ∷ []

abbrev other_calls : SessionRequest → ℕ → List RemoteCall
other_calls r k = barrier k ∷ create_session r ∷ barrier k ∷ []

barrier_inj : {a b : ℕ} → some (barrier a) ≡ some (barrier b) → b ≡ a
barrier_inj h = cc

module _ (r : SessionRequest) (k : ℕ) where
  first_create :
      (d : ℕ) {q : SessionRequest} → get_elem? (first_calls r k) d ≡ some (create_session q) → d ≡ 0
  first_create zero h = refl
  first_create (suc zero) h = cc
  first_create (suc (suc zero)) h = cc
  first_create (suc (suc (suc d))) h = cc

  first_barrier :
      (d : ℕ) {x : ℕ}
      → get_elem? (first_calls r k) d ≡ some (barrier x)
      → (1 ≤ d) × (d ≤ 2) × (x ≡ k)
  first_barrier zero h = cc
  first_barrier (suc zero) h = (omega arith, omega arith, barrier_inj h)
  first_barrier (suc (suc zero)) h = (omega arith, omega arith, barrier_inj h)
  first_barrier (suc (suc (suc d))) h = cc

  first_count : (d : ℕ) → d ≤ 3 → barriers (first_calls r k) d ≡ d - 1
  first_count zero h = omega arith
  first_count (suc zero) h = omega arith
  first_count (suc (suc zero)) h = omega arith
  first_count (suc (suc (suc zero))) h = omega arith
  first_count (suc (suc (suc (suc d)))) h = absurd (omega arith)

  other_create :
      (d : ℕ) {q : SessionRequest} → get_elem? (other_calls r k) d ≡ some (create_session q) → d ≡ 1
  other_create zero h = cc
  other_create (suc zero) h = refl
  other_create (suc (suc zero)) h = cc
  other_create (suc (suc (suc d))) h = cc

  other_barrier :
      (d : ℕ) {x : ℕ}
      → get_elem? (other_calls r k) d ≡ some (barrier x)
      → (d ≢ 1) × (d ≤ 2) × (x ≡ k)
  other_barrier zero h = (omega arith, omega arith, barrier_inj h)
  other_barrier (suc zero) h = cc
  other_barrier (suc (suc zero)) h = (omega arith, omega arith, barrier_inj h)
  other_barrier (suc (suc (suc d))) h = cc

  -- Calls begun by a worker that has made `d` and is at its next one, if `b` is 1.
  other_count :
      (d : ℕ)
      → d ≤ 3
      → (d ≤ 1 → barriers (other_calls r k) d ≡ d) × (2 ≤ d → barriers (other_calls r k) d ≡ d - 1)
  other_count zero h = ((λ e. refl), λ e. absurd (omega arith))
  other_count (suc zero) h = ((λ e. refl), λ e. absurd (omega arith))
  other_count (suc (suc zero)) h = ((λ e. absurd (omega arith)), λ e. omega arith)
  other_count (suc (suc (suc zero))) h = ((λ e. absurd (omega arith)), λ e. omega arith)
  other_count (suc (suc (suc (suc d)))) h = absurd (omega arith)

-- How many calls of a worker come before its request for a session, and up to it.
abbrev pub before : ℕ → ℕ
before zero = 0
before (suc i) = 1

pub before_le : (i : ℕ) → before i ≤ 1
before_le zero = omega arith
before_le (suc i) = omega arith

module _ (n : ℕ) (c : ℕ → Config) (env : ℕ → Environment) (request : ℕ → SessionRequest)
    (ranks : (i : ℕ) → (c i).general.rank ≡ i) where
  calls_zero : calls n c env request 0 ≡ first_calls (request 0) (c 0).general.num_workers
  unfolding session_calls
  calls_zero = if_true _ (ap (λ k. k == 0) (ranks 0))

  calls_suc :
      (i : ℕ)
      → calls n c env request (suc i)
        ≡ other_calls (request (suc i)) (c (suc i)).general.num_workers
  unfolding session_calls
  calls_suc i =
      if_false _
        (ap (λ k. k == 0) (ranks (suc i)) ∙ ne→== (suc i) 0 (λ e. absurd (omega (arith, e))))

  -- Where a worker is when it asks for a session, and when it is at the barrier.
  pub at_create :
      (i d : ℕ) {q : SessionRequest}
      → get_elem? (calls n c env request i) d ≡ some (create_session q)
      → d ≡ before i
  at_create zero d h = first_create _ _ d (ap (λ xs. get_elem? xs d) (sym calls_zero) ∙ h)
  at_create (suc i) d h = other_create _ _ d (ap (λ xs. get_elem? xs d) (sym (calls_suc i)) ∙ h)

  pub at_barrier :
      (i d : ℕ) {x : ℕ}
      → get_elem? (calls n c env request i) d ≡ some (barrier x)
      → (d ≢ before i) × (d ≤ 2) × (x ≡ (c i).general.num_workers)
  at_barrier zero d h =
      let (low, high, same) =
        first_barrier _ _ d (ap (λ xs. get_elem? xs d) (sym calls_zero) ∙ h) in
      ((λ e. omega (arith, e, low)), high, same)
  at_barrier (suc i) d h = other_barrier _ _ d (ap (λ xs. get_elem? xs d) (sym (calls_suc i)) ∙ h)

  pub count_zero : (d : ℕ) → d ≤ 3 → barriers (calls n c env request 0) d ≡ d - 1
  count_zero d h =
      ap (λ xs. barriers xs d) calls_zero ∙ first_count (request 0) (c 0).general.num_workers d h

  pub count_low : (i d : ℕ) → d ≤ 1 → barriers (calls n c env request (suc i)) d ≡ d
  count_low i d h =
      ap (λ xs. barriers xs d) (calls_suc i)
      ∙ (other_count (request (suc i)) (c (suc i)).general.num_workers d (omega (arith, h))).0 h

  pub count_high : (i d : ℕ) → 2 ≤ d → d ≤ 3 → barriers (calls n c env request (suc i)) d ≡ d - 1
  count_high i d h h' =
      ap (λ xs. barriers xs d) (calls_suc i)
      ∙ (other_count (request (suc i)) (c (suc i)).general.num_workers d h').1 h

  pub count_two : (i : ℕ) → barriers (calls n c env request i) 2 ≡ 1
  count_two zero = count_zero 2 (omega arith)
  count_two (suc i) = count_high i 2 (omega arith) (omega arith)
