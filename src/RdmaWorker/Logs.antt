-- ===== src/RdmaWorker/Logs.antt =====
-- What the logs of rdma_worker_thread.cc agree on: the messages accepted are those postprocessed, and there
-- is a request for every message that was prepared.
use p4app_switch_ml.Prelude.{
  ℕ, ◌%◌, ◌≡◌, refl, sym, ◌∙◌, ap, Bool, true, false, ◌==◌, ◌&&◌, ◌||◌, Bool-cases, inl, inr,
  ==_refl, ==→eq, List, [], ◌∷◌, elem, ltb, update, arith, if_false,
}
use p4app_switch_ml.RdmaWorker.{Worker, Slice, Request}
use p4app_switch_ml.RdmaWorker.Exact.{waits}

-- Whether a request for a message was handed to ibverbs, on its queue pair.
abbrev pub sent_as : Slice → ℕ → List (ℕ × Request) → Bool
sent_as s m [] = false
sent_as s m ((q, r) ∷ sends) = (q == m % s.batch_num_msgs && r.imm_data == m) || sent_as s m sends

abbrev pub Posted : Slice → List ℕ → List (ℕ × Request) → Type 0
Posted s prepared sends = (m : ℕ) → elem m prepared ≡ true → sent_as s m sends ≡ true

-- The request that a queue pair waits for an answer to.
abbrev pub Current : Slice → (ℕ → ℕ) → (ℕ → Request) → Type 0
Current s ids wrs = (k : ℕ) → waits s ids k ≡ true → (wrs k).imm_data ≡ ids k

abbrev pub Logged : Slice → Worker → Type 0
Logged s w =
    (w.accepted ≡ w.postprocessed)
    × Posted s w.preprocessed w.posted_sends
    × Current s w.msg_ids w.send_wrs

eq→true : (a b : ℕ) → a ≡ b → (a == b) ≡ true
eq→true a b e = rw e (==_refl b)

module _ (s : Slice) (prepared : List ℕ) (sends : List (ℕ × Request)) (q : ℕ) (r : Request) where
  pub Posted-more : Posted s prepared sends → Posted s prepared ((q, r) ∷ sends)
  Posted-more h m e = elim (Bool-cases (q == m % s.batch_num_msgs && r.imm_data == m)) [
    | inl here ↦ rw here refl
    | inr away ↦ rw away (h m e)
  ]

  pub Posted-new :
      (id : ℕ)
      → id % s.batch_num_msgs ≡ q
      → r.imm_data ≡ id
      → Posted s prepared sends
      → Posted s (id ∷ prepared) ((q, r) ∷ sends)
  Posted-new id place imm h m e = elim (Bool-cases (m == id)) [
    | inl same ↦
        let is = ==→eq m id same in
        let slot : (q == m % s.batch_num_msgs) ≡ true =
          eq→true _ _ (sym place ∙ ap (λ k. k % s.batch_num_msgs) (sym is)) in
        rw (slot, eq→true _ _ (imm ∙ sym is)) refl
    | inr other ↦ Posted-more h m (sym (if_false _ other) ∙ e)
  ]

-- A queue pair that waits for the message that it sends.
pub Current-new :
    (s : Slice) (ids : ℕ → ℕ) (wrs : ℕ → Request) (q id : ℕ) (r : Request)
    → r.imm_data ≡ id
    → Current s ids wrs
    → Current s (update ids q id) (update wrs q r)
Current-new s ids wrs q id r imm h k waiting = elim (Bool-cases (k == q)) [
  | inl same ↦ rw same imm
  | inr other ↦ rw other (h k (rw (sym waiting, other) refl))
]

-- A queue pair that sends the same message again.
pub Current-again :
    (s : Slice) (ids : ℕ → ℕ) (wrs : ℕ → Request) (q : ℕ) (r : Request)
    → r.imm_data ≡ (wrs q).imm_data
    → Current s ids wrs
    → Current s ids (update wrs q r)
Current-again s ids wrs q r imm h k waiting = elim (Bool-cases (k == q)) [
  | inl same ↦
      let is = ==→eq k q same in rw same (imm ∙ ap (λ i. (wrs i).imm_data) (sym is) ∙ h k waiting)
  | inr other ↦ rw other (h k waiting)
]

-- A queue pair that waits for nothing any more.
pub Current-done :
    (s : Slice) (ids : ℕ → ℕ) (wrs : ℕ → Request) (q id : ℕ)
    → ltb id s.total_num_msgs ≡ false
    → Current s ids wrs
    → Current s (update ids q id) wrs
Current-done s ids wrs q id last h k waiting = elim (Bool-cases (k == q)) [
  | inl same ↦ absurd (ground (arith, same, last, waiting))
  | inr other ↦ rw other (h k (rw (sym waiting, other) refl))
]
