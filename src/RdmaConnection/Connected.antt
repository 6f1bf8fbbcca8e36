-- ===== src/RdmaConnection/Connected.antt =====
-- What `Connect` of rdma_connection.cc does with every queue pair.
use p4app_switch_ml.Prelude.{
  ℕ, zero, suc, ◌/◌, ◌<◌, ◌≡◌, refl, sym, ◌∙◌, ap, true, not, ltb, ◌==◌, if◌then◌else◌, if_true,
  if_false, lt→ltb, le→ltb, ==→eq, inl, inr, Bool-cases, ◌∷◌, update, arith,
}
use p4app_switch_ml.Outcome.{Outcome, ok, crash_if, fatal, ◌>>◌, bind_ok}
use p4app_switch_ml.Config.{Config}
use p4app_switch_ml.Addresses.{Gid}
use p4app_switch_ml.RdmaConnection.{has_long_mtu, num_queue_pairs}
use p4app_switch_ml.RdmaConnection.Bringup.{
  for_below, Attributes, ready_to_receive, ready_to_send, Connection, Environment, modify,
  move_to_rtr, move_to_rts, connect_queue_pairs,
}

-- A loop whose every round keeps what holds returns.
pub for_rule {ℓ κ} :
    {S : Type ℓ} (P : ℕ → S → Type κ) (body : ℕ → S → Outcome S) (n : ℕ) (s : S)
    → P 0 s
    → ((i : ℕ) (t : S) → i < n → P i t → (u : S) × (body i t ≡ ok u) × P (suc i) u)
    → (u : S) × (for_below body n s ≡ ok u) × P n u
unfolding for_below
for_rule P body zero s start keep = (s, refl, start)
for_rule P body (suc n) s start keep =
    let (t, before, p) = for_rule P body n s start (λ i t le. keep i t (omega arith)) in
    let (u, last, q) = keep n t (omega arith) p in (u, bind_ok _ before last, q)

-- A table that a loop has filled up to `i`.
abbrev pub Filled {ℓ} : {A : Type ℓ} → (ℕ → A) → (ℕ → A) → ℕ → (ℕ → A) → Type ℓ
Filled new old i f = (k : ℕ) → f k ≡ (if ltb k i then new k else old k)

pub fill {ℓ} :
    {A : Type ℓ} (new old f : ℕ → A) (i : ℕ) (v : A)
    → Filled new old i f
    → v ≡ new i
    → Filled new old (suc i) (update f i v)
fill new old f i v h e k = elim (Bool-cases (k == i)) [
  | inl same ↦
      let is = ==→eq k i same in
      if_true _ same ∙ e ∙ ap new (sym is) ∙ sym (if_true _ (lt→ltb k (suc i) (omega arith)))
  | inr apart ↦
      let as_before : ltb k (suc i) ≡ ltb k i = ground (arith, apart) in
      if_false _ apart ∙ h k ∙ ap (λ b. if b then new k else old k) (sym as_before)
]

-- The neighbors as they were.
abbrev pub SameNeighbors : Connection → Connection → Type 0
SameNeighbors old t =
    (t.neighbor_gids ≡ old.neighbor_gids)
    × (t.neighbor_qpns ≡ old.neighbor_qpns)
    × (t.neighbor_psns ≡ old.neighbor_psns)

-- The queue pairs below `i` were given one more change.
pub record Moved (a : ℕ → Attributes) (old : Connection) (i : ℕ) (t : Connection) : Type 0 where
  pub changed : Filled (λ k. a k ∷ old.modified k) old.modified i t.modified
  pub pairs : t.queue_pairs ≡ old.queue_pairs
  pub neighbors : SameNeighbors old t

module _ (c : Config) (env : Environment)
    (accepts : (i : ℕ) (a : Attributes) → env.accepts i a ≡ true) where
  modify_lem :
      (a : ℕ → Attributes) (old t : Connection) (i : ℕ)
      → Moved a old i t
      → (u : Connection) × (modify c env i (a i) t ≡ ok u) × Moved a old (suc i) u
  unfolding modify
  modify_lem a old t i m = (
    record t { modified = update t.modified i (a i ∷ t.modified i) },
    ap
        (λ b.
          crash_if (not b) fatal
          >> ok (record t { modified = update t.modified i (a i ∷ t.modified i) }))
        (accepts i (a i)),
    record {
      changed =
          fill (λ k. a k ∷ old.modified k) old.modified t.modified i _ m.changed
            (ap (λ xs. a i ∷ xs) (m.changed i ∙ if_false _ (le→ltb i i (omega arith))));
      pairs = m.pairs;
      neighbors = m.neighbors;
    },
  )

  -- A loop that changes every queue pair in a way that the neighbors determine.
  pub moved_lem :
      (body : ℕ → Connection → Outcome Connection) (a : ℕ → Attributes) (old : Connection)
      → ((i : ℕ) (t : Connection) → SameNeighbors old t → body i t ≡ modify c env i (a i) t)
      → (n : ℕ) → (u : Connection) × (for_below body n old ≡ ok u) × Moved a old n u
  moved_lem body a old same n =
      for_rule (Moved a old) body n old
        (record {
          changed = λ k. sym (if_false _ (le→ltb k 0 (omega arith)));
          pairs = refl;
          neighbors = (refl, refl, refl);
        })
        (λ i t le m.
          let (u, made, m') = modify_lem a old t i m in (u, same i t m.neighbors ∙ made, m'))

  abbrev pub receiving : Connection → ℕ → Attributes
  receiving old i =
      ready_to_receive (old.neighbor_qpns i) (old.neighbor_psns i) (old.neighbor_gids i)
        c.rdma.device_port_id c.rdma.gid_index (has_long_mtu c)

  -- The state in which a queue pair receives, from neighbors that stayed as they were.
  receiving_same :
      (old t : Connection) (i : ℕ)
      → SameNeighbors old t
      → move_to_rtr c env i t ≡ modify c env i (receiving old i) t
  unfolding move_to_rtr
  receiving_same old t i (gids, qpns, psns) =
      let with_all : (ℕ → Gid) → (ℕ → ℕ) → (ℕ → ℕ) → Outcome Connection = λ g q p.
        modify c env i
          (ready_to_receive (q i) (p i) (g i) c.rdma.device_port_id c.rdma.gid_index
            (has_long_mtu c))
          t in
      ap (λ g. with_all g t.neighbor_qpns t.neighbor_psns) gids
      ∙ ap (λ q. with_all old.neighbor_gids q t.neighbor_psns) qpns
      ∙ ap (λ p. with_all old.neighbor_gids old.neighbor_qpns p) psns

  pub connected_lem :
      (old : Connection)
      → (u : Connection) × (connect_queue_pairs c env old ≡ ok u)
        × ((k : ℕ)
            → k < num_queue_pairs c
            → u.modified k ≡ ready_to_send (env.qp_num k / 2) ∷ receiving old k ∷ old.modified k)
        × (u.queue_pairs ≡ old.queue_pairs)
        × SameNeighbors old u
  unfolding connect_queue_pairs move_to_rts
  connected_lem old =
      let (t, first, m) =
        moved_lem (move_to_rtr c env) (receiving old) old (λ i t same. receiving_same old t i same)
          (num_queue_pairs c) in
      let (u, second, m') =
        moved_lem (move_to_rts c env) (λ i. ready_to_send (env.qp_num i / 2)) t (λ i t same. refl)
          (num_queue_pairs c) in
      (
        u,
        bind_ok _ first second,
        λ k le.
            let inside = lt→ltb k (num_queue_pairs c) le in
            m'.changed k
            ∙ if_true _ inside
            ∙ ap (λ xs. ready_to_send (env.qp_num k / 2) ∷ xs) (m.changed k ∙ if_true _ inside),
        m'.pairs ∙ m.pairs,
        (
          m'.neighbors.0 ∙ m.neighbors.0,
          m'.neighbors.1 ∙ m.neighbors.1,
          m'.neighbors.2 ∙ m.neighbors.2,
        ),
      )
