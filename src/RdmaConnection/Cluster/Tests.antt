-- ===== src/RdmaConnection/Cluster/Tests.antt =====
-- Two workers, of which the first is through the exchange and the other is inside its last barrier.
use p4app_switch_ml.Prelude.{ℕ, ◌+◌, ◌≡◌, refl, true, List, [], ◌∷◌, ◌++◌, elem, arith}
use p4app_switch_ml.Config.{Config}
use p4app_switch_ml.Config.Tests.{given}
use p4app_switch_ml.RdmaConnection.Bringup.{Environment, SessionRequest, session_calls}
use p4app_switch_ml.RdmaConnection.Cluster.{Cluster, create, enter, leave, Exchanges, start, after}
use p4app_switch_ml.RdmaConnection.Cluster.Sessions.{sessions_created}

abbrev worker : ℕ → Config
worker i = record given { general = record given.general { rank = i; num_workers = 2 } }

abbrev environment : ℕ → Environment
environment i = record {
  creates_queue = λ k. true;
  qp_num = λ k. 100 + k;
  accepts = λ k a. true;
  endpoint_mac = i;
  endpoint_ipv4 = 2;
  region_rkey = 3;
  now = 1000;
  broadcast_value = λ v. v;
  session = λ request. record { ipv4 = 9; mac = 8; rkey = 5; qpns = []; psns = [] };
}

abbrev request : ℕ → SessionRequest
request i = record {
  session_id = 1000;
  rank = i;
  num_workers = 2;
  mac = i;
  ipv4 = 2;
  rkey = 3;
  long_packets = true;
  message_size = 3072;
  qpns = [];
  psns = [];
}

exchange_run : (p : Cluster) × Exchanges 2 worker environment request p
unfolding session_calls
exchange_run = (
  _,
  after (leave 0 _ (omega arith) refl refl (omega arith)) (
      after (enter 1 _ (omega arith) refl) (
        after (enter 0 _ (omega arith) refl) (
          after (create 1 _ (omega arith) refl) (
            after (leave 0 _ (omega arith) refl refl (omega arith)) (
              after (leave 1 _ (omega arith) refl refl (omega arith)) (
                after (enter 0 _ (omega arith) refl) (
                  after (enter 1 _ (omega arith) refl)
                    (after (create 0 _ (omega arith) refl) start)))))))),
)

sessions_created_example :
    (elem 1 (exchange_run.0).sessions ≡ true)
    × ((xs : List ℕ) × ((exchange_run.0).sessions ≡ xs ++ 0 ∷ []))
unfolding exchange_run session_calls
sessions_created_example =
    sessions_created 2 worker environment request (λ i. refl) (λ i le. refl) 0 1 exchange_run.1 refl
      (omega arith)
