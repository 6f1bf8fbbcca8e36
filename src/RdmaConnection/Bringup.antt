-- ===== src/RdmaConnection/Bringup.antt =====
-- dev_root/client_lib/src/backends/rdma/rdma_connection.cc: `Connect`, from the creation of the queue pairs
-- to the state in which they send. What ibverbs and the controller answer is a parameter; the calls of
-- `ibv_modify_qp` are kept for each queue pair, newest first, and so are the remote calls.
use p4app_switch_ml.Prelude.{
  ℕ, zero, suc, ◌*◌, ◌/◌, ◌%◌, Bool, true, not, ltb, leb, ◌==◌, if◌then◌else◌, List, [], ◌∷◌, ◌++◌,
  get_elem?, Option, none, some, update, u32_mod,
}
use p4app_switch_ml.Outcome.{Outcome, ok, fatal, undefined, crash, crash_if, ◌>>=◌, ◌>>◌}
use p4app_switch_ml.Config.{Config}
use p4app_switch_ml.Addresses.{Gid, ipv4_to_gid, mac_to_gid}
use p4app_switch_ml.RdmaConnection.{has_long_mtu, num_queue_pairs, qps_per_worker_thread}

-- `for (i = 0; i < n; ++i)`.
unfoldable pub for_below {ℓ} : {S : Type ℓ} → (ℕ → S → Outcome S) → ℕ → S → Outcome S
for_below body zero s = ok s
for_below body (suc n) s = for_below body n s >>= body n

-- What is given to `ibv_modify_qp`, but for what is the same for all queue pairs of a connection and not
-- taken from the configuration.
pub data Attributes : Type 0 where
  -- The port.
  init : ℕ → Attributes
  -- The number, the first packet sequence number and the address of the remote queue pair, the port,
  -- the index of the local address, and whether the MTU is the long one.
  ready_to_receive : ℕ → ℕ → Gid → ℕ → ℕ → Bool → Attributes
  -- The first packet sequence number.
  ready_to_send : ℕ → Attributes

pub record SessionRequest : Type 0 where
  pub session_id : ℕ
  pub rank : ℕ
  pub num_workers : ℕ
  pub mac : ℕ
  pub ipv4 : ℕ
  pub rkey : ℕ
  pub long_packets : Bool
  pub message_size : ℕ
  pub qpns : List ℕ
  pub psns : List ℕ

pub record SessionResponse : Type 0 where
  pub ipv4 : ℕ
  pub mac : ℕ
  pub rkey : ℕ
  pub qpns : List ℕ
  pub psns : List ℕ

pub data RemoteCall : Type 0 where
  -- Value, rank, number of workers and root.
  broadcast : ℕ → ℕ → ℕ → ℕ → RemoteCall
  barrier : ℕ → RemoteCall
  create_session : SessionRequest → RemoteCall

-- What the connection does not decide: whether the n-th completion queue is created, the number of the
-- n-th queue pair, whether the result of `ibv_modify_qp` is not negative, the endpoint, the clock and the
-- answers of the controller.
pub record Environment : Type 0 where
  pub creates_queue : ℕ → Bool
  pub qp_num : ℕ → ℕ
  pub accepts : ℕ → Attributes → Bool
  pub endpoint_mac : ℕ
  pub endpoint_ipv4 : ℕ
  pub region_rkey : ℕ
  pub now : ℕ
  pub broadcast_value : ℕ → ℕ
  pub session : SessionRequest → SessionResponse

pub record Connection : Type 0 where
  pub completion_queues : ℕ → Bool
  -- The completion queue of each queue pair.
  pub queue_pairs : ℕ → Option ℕ
  pub modified : ℕ → List Attributes
  pub neighbor_gids : ℕ → Gid
  pub neighbor_qpns : ℕ → ℕ
  pub neighbor_psns : ℕ → ℕ
  pub neighbor_rkeys : ℕ → ℕ
  pub remote_calls : List RemoteCall

module _ (c : Config) (env : Environment) where
  -- A change of the state of a queue pair; a negative result ends the process.
  unfoldable pub modify : ℕ → Attributes → Connection → Outcome Connection
  modify i attributes conn = do
    crash_if (not (env.accepts i attributes)) fatal
    ok (record conn { modified = update conn.modified i (attributes ∷ conn.modified i) })

  unfoldable pub move_to_init : ℕ → Connection → Outcome Connection
  unfolding modify
  move_to_init i conn = modify i (init c.rdma.device_port_id) conn

  unfoldable pub move_to_rtr : ℕ → Connection → Outcome Connection
  unfolding modify
  move_to_rtr i conn =
      modify i
        (ready_to_receive (conn.neighbor_qpns i) (conn.neighbor_psns i) (conn.neighbor_gids i)
          c.rdma.device_port_id c.rdma.gid_index (has_long_mtu c))
        conn

  unfoldable pub move_to_rts : ℕ → Connection → Outcome Connection
  unfolding modify
  move_to_rts i conn = modify i (ready_to_send (env.qp_num i / 2)) conn

  unfoldable pub create_completion_queue : ℕ → Connection → Outcome Connection
  create_completion_queue i conn = do
    crash_if (not (env.creates_queue i)) fatal
    ok (record conn { completion_queues = update conn.completion_queues i true })

  -- A division by zero, or an index outside the vector of completion queues, is undefined behaviour.
  unfoldable pub create_queue_pair : ℕ → Connection → Outcome Connection
  create_queue_pair i conn =
      let qps = qps_per_worker_thread c in
      do
        crash_if (qps == 0) undefined
        crash_if (not (ltb (i / qps) c.general.num_worker_threads)) undefined
        ok (record conn { queue_pairs = update conn.queue_pairs i (some (i / qps)) })

  unfoldable pub initialize_queue_pairs : Connection → Outcome Connection
  unfolding create_completion_queue create_queue_pair move_to_init for_below
  initialize_queue_pairs conn = do
    conn1 ← for_below create_completion_queue c.general.num_worker_threads conn
    conn2 ← for_below create_queue_pair (num_queue_pairs c) conn1
    for_below move_to_init (num_queue_pairs c) conn2

  -- The first `n` elements of `numbers`, in order.
  unfoldable pub list_below : (ℕ → ℕ) → ℕ → List ℕ
  list_below numbers zero = []
  list_below numbers (suc n) = list_below numbers n ++ numbers n ∷ []

  unfoldable pub session_request : ℕ → SessionRequest
  unfolding list_below
  session_request session_id = record {
    session_id = session_id;
    rank = c.general.rank;
    num_workers = c.general.num_workers;
    mac = env.endpoint_mac;
    ipv4 = env.endpoint_ipv4;
    rkey = env.region_rkey;
    long_packets = has_long_mtu c;
    message_size = c.rdma.msg_numel * 4 % u32_mod;
    qpns = list_below env.qp_num (num_queue_pairs c);
    psns = list_below (λ i. env.qp_num i / 2) (num_queue_pairs c);
  }

  -- The data of the remote queue pair; an index past the end of the response is undefined behaviour.
  unfoldable pub element : List ℕ → ℕ → Outcome ℕ
  element xs i = elim (get_elem? xs i) [ none ↦ crash undefined | some x ↦ ok x ]

  unfoldable pub copy_neighbor : SessionResponse → ℕ → Connection → Outcome Connection
  unfolding element
  copy_neighbor response i conn = do
    qpn ← element response.qpns i
    psn ← element response.psns i
    let gid = if leb 2 c.rdma.gid_index then ipv4_to_gid response.ipv4 else mac_to_gid response.mac
    ok (record conn {
      neighbor_gids = update conn.neighbor_gids i gid;
      neighbor_rkeys = update conn.neighbor_rkeys i response.rkey;
      neighbor_qpns = update conn.neighbor_qpns i qpn;
      neighbor_psns = update conn.neighbor_psns i psn;
    })

  -- The calls after the broadcast, in order.
  unfoldable pub session_calls : SessionRequest → List RemoteCall
  session_calls request =
      if c.general.rank == 0
      then create_session request
        ∷ barrier c.general.num_workers
        ∷ barrier c.general.num_workers
        ∷ []
      else barrier c.general.num_workers
        ∷ create_session request
        ∷ barrier c.general.num_workers
        ∷ []

  unfoldable pub exchange_connection_info : Connection → Outcome Connection
  unfolding session_request session_calls copy_neighbor for_below
  exchange_connection_info conn =
      let asked = if c.general.rank == 0 then env.now else 0 in
      let request = session_request (env.broadcast_value asked) in
      let calls = broadcast asked c.general.rank c.general.num_workers 0 ∷ session_calls request in
      for_below (copy_neighbor (env.session request)) (num_queue_pairs c)
        (record conn { remote_calls = conn.remote_calls ++ calls })

  unfoldable pub connect_queue_pairs : Connection → Outcome Connection
  unfolding move_to_rtr move_to_rts for_below
  connect_queue_pairs conn = do
    conn' ← for_below move_to_rtr (num_queue_pairs c) conn
    for_below move_to_rts (num_queue_pairs c) conn'

  unfoldable pub connect : Connection → Outcome Connection
  unfolding initialize_queue_pairs exchange_connection_info connect_queue_pairs
  connect conn = do
    conn1 ← initialize_queue_pairs conn
    conn2 ← exchange_connection_info conn1
    connect_queue_pairs conn2
