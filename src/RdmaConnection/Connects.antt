-- ===== src/RdmaConnection/Connects.antt =====
-- `Connect` of rdma_connection.cc as a whole: every queue pair ends in the state in which it sends.
use p4app_switch_ml.Prelude.{
  ℕ, suc, ◌/◌, ◌<◌, ◌≡◌, refl, sym, ◌∙◌, ap, true, false, not, leb, ◌==◌, if◌then◌else◌, if_true,
  if_false, ne→==, lt→ltb, le→ltb, [], ◌∷◌, get_elem?, Option, none, some, update, arith,
}
use native.Mathlib.Nat.{div-lt_iff_lt-mul}
use p4app_switch_ml.Outcome.{Outcome, ok, crash, crash_if, fatal, undefined, bind_ok}
use p4app_switch_ml.Config.{Config}
use p4app_switch_ml.Config.Validated.{RdmaReady}
use p4app_switch_ml.Addresses.{Gid, ipv4_to_gid, mac_to_gid}
use p4app_switch_ml.RdmaConnection.{has_long_mtu, num_queue_pairs, qps_per_worker_thread}
use p4app_switch_ml.RdmaConnection.Shares.{pairs_shared, qps_positive}
use p4app_switch_ml.RdmaConnection.Bringup.{
  Attributes, init, ready_to_receive, ready_to_send, Connection, Environment, SessionResponse,
  move_to_init, create_completion_queue, create_queue_pair, initialize_queue_pairs, element,
  copy_neighbor, session_request, exchange_connection_info, connect,
}
use p4app_switch_ml.RdmaConnection.Connected.{
  for_rule, Filled, fill, moved_lem, receiving, connected_lem,
}

-- What the controller answers to a connection, and the address that it says the switch has.
abbrev pub reply : Config → Environment → SessionResponse
reply c env =
    env.session
      (session_request c env (env.broadcast_value (if c.general.rank == 0 then env.now else 0)))

abbrev pub switch_gid : Config → SessionResponse → Gid
switch_gid c response =
    if leb 2 c.rdma.gid_index then ipv4_to_gid response.ipv4 else mac_to_gid response.mac

-- The queue pairs below `i` are created, on the completion queues of their threads.
record Paired (qps : ℕ) (old : Connection) (i : ℕ) (t : Connection) : Type 0 where
  pairs : Filled (λ k. some (k / qps)) old.queue_pairs i t.queue_pairs
  same : t.modified ≡ old.modified

-- The data of the queue pairs below `i` are copied from the response.
record Copied (gid : Gid) (qpns psns : ℕ → ℕ) (old : Connection) (i : ℕ) (t : Connection)
    : Type 0 where
  gids : Filled (λ k. gid) old.neighbor_gids i t.neighbor_gids
  numbers : Filled qpns old.neighbor_qpns i t.neighbor_qpns
  sequences : Filled psns old.neighbor_psns i t.neighbor_psns
  same : t.modified ≡ old.modified
  pairs : t.queue_pairs ≡ old.queue_pairs

unfilled {ℓ} : {A : Type ℓ} (new f : ℕ → A) → Filled new f 0 f
unfilled new f k = sym (if_false _ (le→ltb k 0 (omega arith)))

module _ (c : Config) {asked given : ℕ} (h : RdmaReady c asked given) (env : Environment)
    (accepts : (i : ℕ) (a : Attributes) → env.accepts i a ≡ true)
    (creates : (i : ℕ) → env.creates_queue i ≡ true) where
  create_lem :
      (old t : Connection) (i : ℕ)
      → i < num_queue_pairs c
      → Paired (qps_per_worker_thread c) old i t
      → (u : Connection) × (create_queue_pair c env i t ≡ ok u)
        × Paired (qps_per_worker_thread c) old (suc i) u
  unfolding create_queue_pair
  create_lem old t i le p =
      let some_pairs : (qps_per_worker_thread c == 0) ≡ false =
        ne→== _ 0 (λ e. absurd (omega (arith, qps_positive c h))) in
      let inside : i / qps_per_worker_thread c < c.general.num_worker_threads =
        (div-lt_iff_lt-mul (qps_positive c h)).1 (omega (arith, pairs_shared c h, le)) in
      (
        record t { queue_pairs = update t.queue_pairs i (some (i / qps_per_worker_thread c)) },
        bind_ok _ (ap (λ b. crash_if b undefined) some_pairs)
            (bind_ok _ (ap (λ b. crash_if (not b) undefined) (lt→ltb _ _ inside)) refl),
        record { pairs = fill _ old.queue_pairs t.queue_pairs i _ p.pairs refl; same = p.same },
      )

  initialized :
      (old : Connection)
      → (u : Connection) × (initialize_queue_pairs c env old ≡ ok u)
        × ((k : ℕ)
            → k < num_queue_pairs c
            → (u.modified k ≡ init c.rdma.device_port_id ∷ old.modified k)
              × (u.queue_pairs k ≡ some (k / qps_per_worker_thread c)))
  unfolding initialize_queue_pairs create_completion_queue move_to_init
  initialized old =
      let (t1, first, same1) =
        for_rule (λ i t. t.modified ≡ old.modified) (create_completion_queue c env)
          c.general.num_worker_threads old refl
          (λ i t le same. (
            record t { completion_queues = update t.completion_queues i true },
            bind_ok _ (ap (λ b. crash_if (not b) fatal) (creates i)) refl,
            same,
          )) in
      let (t2, second, paired) =
        for_rule (Paired (qps_per_worker_thread c) t1) (create_queue_pair c env) (num_queue_pairs c)
          t1 (record { pairs = unfilled _ t1.queue_pairs; same = refl })
          (λ i t le p. create_lem t1 t i le p) in
      let (u, third, moved) =
        moved_lem c env accepts (move_to_init c env) (λ i. init c.rdma.device_port_id) t2
          (λ i t same. refl) (num_queue_pairs c) in
      (
        u,
        bind_ok _ first (bind_ok _ second third),
        λ k le.
            let inside = lt→ltb k (num_queue_pairs c) le in
            (
              moved.changed k
                  ∙ if_true _ inside
                  ∙ ap (λ f. init c.rdma.device_port_id ∷ f k) (paired.same ∙ same1),
              ap (λ f. f k) moved.pairs ∙ paired.pairs k ∙ if_true _ inside,
            ),
      )

  module _ (qpns psns : ℕ → ℕ)
      (numbered : (i : ℕ) → i < num_queue_pairs c → get_elem? (reply c env).qpns i ≡ some (qpns i))
      (sequenced : (i : ℕ)
        → i < num_queue_pairs c
        → get_elem? (reply c env).psns i ≡ some (psns i)) where
    copy_lem :
        (old t : Connection) (i : ℕ)
        → i < num_queue_pairs c
        → Copied (switch_gid c (reply c env)) qpns psns old i t
        → (u : Connection) × (copy_neighbor c env (reply c env) i t ≡ ok u)
          × Copied (switch_gid c (reply c env)) qpns psns old (suc i) u
    unfolding copy_neighbor element
    copy_lem old t i le p = (
      record t {
        neighbor_gids = update t.neighbor_gids i (switch_gid c (reply c env));
        neighbor_rkeys = update t.neighbor_rkeys i (reply c env).rkey;
        neighbor_qpns = update t.neighbor_qpns i (qpns i);
        neighbor_psns = update t.neighbor_psns i (psns i);
      },
      bind_ok _ (ap found (numbered i le)) (bind_ok _ (ap found (sequenced i le)) refl),
      record {
        gids = fill _ old.neighbor_gids t.neighbor_gids i _ p.gids refl;
        numbers = fill _ old.neighbor_qpns t.neighbor_qpns i _ p.numbers refl;
        sequences = fill _ old.neighbor_psns t.neighbor_psns i _ p.sequences refl;
        same = p.same;
        pairs = p.pairs;
      },
    )
      where
        found : Option ℕ → Outcome ℕ
        found o = elim o [ none ↦ crash undefined | some x ↦ ok x ]

    exchanged :
        (old : Connection)
        → (u : Connection) × (exchange_connection_info c env old ≡ ok u)
          × Copied (switch_gid c (reply c env)) qpns psns old (num_queue_pairs c) u
    unfolding exchange_connection_info
    exchanged old =
        for_rule (Copied (switch_gid c (reply c env)) qpns psns old)
          (copy_neighbor c env (reply c env)) (num_queue_pairs c) _
          (record {
            gids = unfilled _ old.neighbor_gids;
            numbers = unfilled _ old.neighbor_qpns;
            sequences = unfilled _ old.neighbor_psns;
            same = refl;
            pairs = refl;
          })
          (λ i t le p. copy_lem old t i le p)

    -- For a configuration that the RDMA backend accepted, where ibverbs creates what it is asked for and
    -- takes the changes, and where the controller's answer has numbers for all queue pairs: `Connect`
    -- returns, and every queue pair of a new connection was moved to the states INIT, ready to receive
    -- and ready to send, once each and in this order, with the number, the sequence number and the
    -- address of its own remote queue pair; it uses the completion queue of its worker thread.
    pub connect_lem :
        (old : Connection) (i : ℕ)
        → i < num_queue_pairs c
        → old.modified i ≡ []
        → (u : Connection) × (connect c env old ≡ ok u)
          × (u.modified i
              ≡ ready_to_send (env.qp_num i / 2)
                ∷ ready_to_receive
                    (qpns i)
                    (psns i)
                    (switch_gid c (reply c env))
                    c.rdma.device_port_id
                    c.rdma.gid_index
                    (has_long_mtu c)
                ∷ init c.rdma.device_port_id
                ∷ [])
          × (u.queue_pairs i ≡ some (i / qps_per_worker_thread c))
    unfolding connect
    connect_lem old i le new =
        let inside = lt→ltb i (num_queue_pairs c) le in
        let (t1, first, ready) = initialized old in
        let (t2, second, copied) = exchanged t1 in
        let (u, third, changed, paired, _) = connected_lem c env accepts t2 in
        let gid = copied.gids i ∙ if_true _ inside in
        let number = copied.numbers i ∙ if_true _ inside in
        let sequence = copied.sequences i ∙ if_true _ inside in
        let before : t2.modified i ≡ init c.rdma.device_port_id ∷ [] =
          ap (λ f. f i) copied.same
          ∙ (ready i le).0
          ∙ ap (λ xs. init c.rdma.device_port_id ∷ xs) new in
        let same_states : ready_to_send (env.qp_num i / 2)
              ∷ receiving c env accepts t2 i
              ∷ t2.modified i
            ≡ ready_to_send (env.qp_num i / 2)
              ∷ ready_to_receive (qpns i) (psns i) (switch_gid c (reply c env))
                  c.rdma.device_port_id c.rdma.gid_index (has_long_mtu c)
              ∷ init c.rdma.device_port_id
              ∷ [] =
          cc in
        (
          u,
          bind_ok _ first (bind_ok _ second third),
          changed i le ∙ same_states,
          ap (λ f. f i) (paired ∙ copied.pairs) ∙ (ready i le).1,
        )
