-- ===== src/RdmaConnection/Cluster.antt =====
-- The workers of a session while they exchange their connection information in rdma_connection.cc: each
-- makes the remote calls of `session_calls` in order, all in any interleaving. The controller handles a
-- request for a session at one moment, and a call of its barrier, which carries a number of workers, ends
-- only once that number of workers have begun as many calls of it.
pub mod Calls
pub mod Sessions
mod Tests
use p4app_switch_ml.Prelude.{
  ℕ, zero, suc, ◌+◌, ◌≤◌, ◌<◌, ◌≡◌, ◌≢◌, refl, sym, ◌∙◌, ap, subst, Bool, true, false, ◌==◌,
  if◌then◌else◌, leb, sum_below, if_true, if_false, ==_refl, ==→eq, ne→==, Bool-cases, inl, inr,
  ◌⊎◌, List, [], ◌∷◌, ◌++◌, get_elem?, Option, none, some, some_inj, elem, update, arith,
}
use p4app_switch_ml.Config.{Config}
use p4app_switch_ml.RdmaConnection.Bringup.{
  Environment, SessionRequest, RemoteCall, broadcast, barrier, create_session, session_calls,
}

-- How many of the first `d` calls are of the barrier.
abbrev pub barriers : List RemoteCall → ℕ → ℕ
barriers [] d = 0
barriers (x ∷ xs) zero = 0
barriers (barrier k ∷ xs) (suc d) = suc (barriers xs d)
barriers (create_session r ∷ xs) (suc d) = barriers xs d
barriers (broadcast v r k t ∷ xs) (suc d) = barriers xs d

-- How many calls each worker has made, whether it is inside a call of the barrier, and the workers whose
-- sessions the controller has created, newest first.
pub record Cluster : Type 0 where
  pub made : ℕ → ℕ
  pub inside : ℕ → Bool
  pub sessions : List ℕ

abbrev pub none_made : Cluster
none_made = record { made = λ i. 0; inside = λ i. false; sessions = [] }

module _ (n : ℕ) (c : ℕ → Config) (env : ℕ → Environment) (request : ℕ → SessionRequest) where
  abbrev pub calls : ℕ → List RemoteCall
  calls i = session_calls (c i) (env i) (request i)

  -- How many calls of the barrier a worker has begun.
  abbrev pub begun : Cluster → ℕ → ℕ
  begun p i = barriers (calls i) (p.made i) + (if p.inside i then 1 else 0)

  pub data Exchange (p : Cluster) : Cluster → Type 0 where
    create :
        (i : ℕ) (r : SessionRequest)
        → i < n
        → get_elem? (calls i) (p.made i) ≡ some (create_session r)
        → Exchange p
            (record p { made = update p.made i (suc (p.made i)); sessions = i ∷ p.sessions })
    enter :
        (i k : ℕ)
        → i < n
        → get_elem? (calls i) (p.made i) ≡ some (barrier k)
        → Exchange p (record p { inside = update p.inside i true })
    leave :
        (i k : ℕ)
        → i < n
        → get_elem? (calls i) (p.made i) ≡ some (barrier k)
        → p.inside i ≡ true
        → k ≤ sum_below n (λ j. if leb (begun p i) (begun p j) then 1 else 0)
        → Exchange p
            (record p { made = update p.made i (suc (p.made i)); inside = update p.inside i false })

  pub data Exchanges : Cluster → Type 0 where
    start : Exchanges none_made
    after : {p q : Cluster} → Exchange p q → Exchanges p → Exchanges q
