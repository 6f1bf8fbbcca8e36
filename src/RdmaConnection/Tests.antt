-- ===== src/RdmaConnection/Tests.antt =====
-- The configuration of Config/Tests: 84 queue pairs for three worker threads.
use p4app_switch_ml.Prelude.{
  zero, suc, ◌/◌, ◌<◌, true, false, [], ◌∷◌, some, none, ℕ, ◌+◌, ◌*◌, ◌≤◌, ◌≡◌, refl, arith, List,
  length, get_elem?, replicate,
}
use p4app_switch_ml.Outcome.{ok}
use p4app_switch_ml.Config.Rounding.{Rounded}
use p4app_switch_ml.Config.Validated.{RdmaReady}
use p4app_switch_ml.Config.Accepted.{validate-RdmaReady}
use p4app_switch_ml.Config.Tests.{features, asked, given, asked-Fits, validated}
use p4app_switch_ml.RdmaConnection.Bringup.{
  Environment, Connection, connect, init, ready_to_receive, ready_to_send,
}
use p4app_switch_ml.RdmaConnection.Connects.{connect_lem, reply, switch_gid}
use p4app_switch_ml.RdmaConnection.{
  has_long_mtu, packets_per_message, num_queue_pairs, qps_per_worker_thread, max_outstanding_msgs,
  worker_thread_share, completion_queue_of, worker_thread_memory, message_start, pool_index,
}
use p4app_switch_ml.RdmaConnection.Shares.{worker_thread_share_lem}
use p4app_switch_ml.RdmaConnection.Slots.{pool_index_lem, message_start_lem}

ready : (r : ℕ) × Rounded 256 3 r × RdmaReady given 1000 r
ready = validate-RdmaReady features asked asked-Fits refl refl validated

abbrev pairs : List ℕ
pairs = replicate 84 7

pairs_long : length pairs ≡ num_queue_pairs given
unfolding num_queue_pairs
pairs_long = refl

worker_thread_share_lem_example :
    (ys : List ℕ) × (worker_thread_share given pairs 1 ≡ ok ys)
    × (length ys ≡ max_outstanding_msgs given)
    × (get_elem? ys 27 ≡ get_elem? pairs (qps_per_worker_thread given * 1 + 27))
    × (completion_queue_of given (qps_per_worker_thread given * 1 + 27) ≡ 1)
unfolding max_outstanding_msgs
worker_thread_share_lem_example =
    worker_thread_share_lem given ready.2 pairs pairs_long 1 27 (omega arith) (omega arith)

pool_index_lem_example :
    (pool_index given (qps_per_worker_thread given) 0 27 + 2 * packets_per_message given
      ≤ pool_index given (qps_per_worker_thread given) 1 0)
    × (pool_index given (qps_per_worker_thread given) 1 0 + 2 * packets_per_message given ≤ 505)
unfolding qps_per_worker_thread num_queue_pairs
pool_index_lem_example =
    pool_index_lem given ready.2 0 27 1 0 (omega arith) (omega arith) (omega arith) (omega arith)
      (omega arith) (omega arith)

-- The buffer of 258048 bytes in one huge page.
message_start_lem_example :
    (message_start given (worker_thread_memory given 17592186044416 2097152 1) 3
      ≡ 17592186044416 + 1 * 699050 + 3 * 3072)
    × ((3 + 1) * 3072 ≤ 699050)
    × ((1 + 1) * 699050 ≤ 2097152)
unfolding qps_per_worker_thread num_queue_pairs
message_start_lem_example =
    message_start_lem given ready.2 17592186044416 2097152 1 3 (omega arith) (omega arith)
      (omega arith) (omega arith) (omega arith)

-- The switch gives every queue pair the number 7 and the sequence number 3.
abbrev environment : Environment
environment = record {
  creates_queue = λ i. true;
  qp_num = λ i. 100 + i;
  accepts = λ i a. true;
  endpoint_mac = 1;
  endpoint_ipv4 = 2;
  region_rkey = 3;
  now = 1000;
  broadcast_value = λ v. v;
  session = λ request. record {
    ipv4 = 9;
    mac = 8;
    rkey = 5;
    qpns = replicate 84 7;
    psns = replicate 84 3;
  };
}

abbrev new_connection : Connection
new_connection = record {
  completion_queues = λ i. false;
  queue_pairs = λ i. none;
  modified = λ i. [];
  neighbor_gids = λ i j. 0;
  neighbor_qpns = λ i. 0;
  neighbor_psns = λ i. 0;
  neighbor_rkeys = λ i. 0;
  remote_calls = [];
}

get-replicate : (n x i : ℕ) → i < n → get_elem? (replicate n x) i ≡ some x
get-replicate zero x i h = absurd (omega arith)
get-replicate (suc n) x zero h = refl
get-replicate (suc n) x (suc i) h = get-replicate n x i (omega arith)

pairs_eq : num_queue_pairs given ≡ 84
unfolding num_queue_pairs
pairs_eq = refl

connect_lem_example :
    (u : Connection) × (connect given environment new_connection ≡ ok u)
    × (u.modified 30
        ≡ ready_to_send 65
          ∷ ready_to_receive 7 3
              (switch_gid given (reply given environment))
              given.rdma.device_port_id
              given.rdma.gid_index
              (has_long_mtu given)
          ∷ init given.rdma.device_port_id
          ∷ [])
    × (u.queue_pairs 30 ≡ some (30 / qps_per_worker_thread given))
connect_lem_example =
    connect_lem given ready.2 environment (λ i a. refl) (λ i. refl) (λ i. 7) (λ i. 3)
      (λ i h. get-replicate 84 7 i (omega (arith, pairs_eq, h)))
      (λ i h. get-replicate 84 3 i (omega (arith, pairs_eq, h))) new_connection 30
      (omega (arith, pairs_eq)) refl
