-- ===== src/RdmaWorker/Delivery.antt =====
-- What a worker thread of rdma_worker_thread.cc achieves on a job slice.
use p4app_switch_ml.Prelude.{
  ℕ, zero, suc, ◌+◌, ◌-◌, ◌%◌, ◌≤◌, ◌<◌, ◌≡◌, refl, sym, ◌∙◌, ap, subst, Bool, true, false, ltb,
  inl, inr, Bool-cases, ltb→lt, ltb→le, List, [], ◌∷◌, length, count, elem, arith, sum_below,
  sum_zero, ◌==◌, ne→==,
}
use native.Mathlib.Nat.{mod-lt}
use p4app_switch_ml.Outcome.{ok}
use p4app_switch_ml.TimeoutQueue.{TimeoutQueue}
use p4app_switch_ml.TimeoutQueue.Represents.{Represents, Stamped, keys}
use p4app_switch_ml.RdmaWorker.{Worker, Slice}
use p4app_switch_ml.RdmaWorker.Loop.{LoopState, Poll, transfer}
use p4app_switch_ml.RdmaWorker.Waiting.{Timers}
use p4app_switch_ml.RdmaWorker.Exact.{waits, IsShort, Tracked, once, missing_eq}
use p4app_switch_ml.RdmaWorker.Logs.{sent_as}
use p4app_switch_ml.RdmaWorker.Rounds.{Steady, end_of, InLoop}
use p4app_switch_ml.RdmaWorker.Complete.{transfer_lem}

ok_inj {ℓ} : {A : Type ℓ} {a b : A} → ok a ≡ ok b → a ≡ b
ok_inj h = cc

no_keys : (xs : Stamped) → ((k : ℕ) → elem k (keys xs) ≡ false) → xs ≡ []
no_keys [] h = refl
no_keys ((k, t) ∷ xs) h = absurd (ground (arith, h k))

-- Where nothing waits, no timer runs.
idle-Represents :
    {n now : ℕ} {waiting : ℕ → Bool} {q : TimeoutQueue}
    → Timers n waiting now q
    → ((k : ℕ) → waiting k ≡ false)
    → Represents q []
idle-Represents {q = q} ts h =
    subst (Represents q) (no_keys ts.running (λ k. ts.named k ∙ h k)) ts.represents

some_below : (n : ℕ) (f : ℕ → ℕ) → 0 < sum_below n f → (m : ℕ) × (m < n) × (0 < f m)
some_below zero f h = absurd (omega (arith, h))
some_below (suc n) f h = elim (Bool-cases (ltb 0 (f n))) [
  | inl here ↦ (n, omega arith, ltb→lt _ _ here)
  | inr gone ↦
      let (m, le, positive) = some_below n f (omega (arith, h, ltb→le _ _ gone)) in
      (m, omega arith, positive)
]

count_elem : (m : ℕ) (xs : List ℕ) → 0 < count m xs → elem m xs ≡ true
count_elem m [] h = absurd (omega (arith, h))
count_elem m (x ∷ xs) h = elim (Bool-cases (m == x)) [
  | inl here ↦ rw here refl
  | inr other ↦
      let apart : (x == m) ≡ false = ne→== x m (λ e. ground (arith, other, e)) in
      rw other (count_elem m xs (ground (arith, h, apart)))
]

module _ {s : Slice} (short : IsShort s) {received : ℕ} {w : Worker}
    (tracked : Tracked s received w) where
  all_taken :
      s.total_num_msgs ≤ length w.postprocessed
      → (m : ℕ) → m < s.total_num_msgs
      → count m w.postprocessed ≡ 1
  all_taken all m le =
      let full = missing_eq tracked in
      let gap = sum_zero s.total_num_msgs (λ k. 1 - count k w.postprocessed) (omega arith) m le in
      omega (arith, gap, once tracked m)

  -- A queue pair that waits: its message was sent and not taken.
  pub awaited :
      (k : ℕ)
      → waits s w.msg_ids k ≡ true
      → (k < s.batch_num_msgs)
        × (w.msg_ids k < s.total_num_msgs)
        × (count (w.msg_ids k) w.postprocessed ≡ 0)
        × (count (w.msg_ids k) w.preprocessed ≡ 1)
  awaited k h =
      let pair : k < s.batch_num_msgs = ground arith in
      let low : w.msg_ids k < s.total_num_msgs = ground arith in
      let same = ap w.msg_ids (tracked.class k pair) in
      (
        pair,
        low,
        ground (arith, tracked.taken (w.msg_ids k), same),
        ground (arith, tracked.sent (w.msg_ids k) low, same),
      )

  awaits_none : s.total_num_msgs ≤ length w.postprocessed → (k : ℕ) → waits s w.msg_ids k ≡ false
  awaits_none all k = elim (Bool-cases (waits s w.msg_ids k)) [
    | inl waiting ↦
        let (_, low, none_yet, _) = awaited k waiting in
        absurd (omega (arith, none_yet, all_taken all (w.msg_ids k) low))
    | inr no_wait ↦ no_wait
  ]

  pub awaits_some :
      length w.postprocessed < s.total_num_msgs → (k : ℕ) × (waits s w.msg_ids k ≡ true)
  awaits_some few =
      let (m, low, gap) =
        some_below s.total_num_msgs (λ m. 1 - count m w.postprocessed)
          (omega (arith, missing_eq tracked)) in
      (m % s.batch_num_msgs, ground (arith, mod-lt m short.some, tracked.taken m, gap, low))

module _ (s : Slice) (pre clock : ℕ → ℕ) (polls : List Poll) (w : Worker) (short : IsShort s)
    (idle : Represents w.timeouts_queue []) (room : s.batch_num_msgs ≤ w.timeouts_queue.num_entries)
    (steady : (k : ℕ) → clock k ≤ clock (k + 1))
    (arrivals : Steady s (clock s.batch_num_msgs) polls) where
  pub reached :
      {p : LoopState}
      → transfer s pre clock polls w ≡ ok p
      → InLoop s short pre (end_of (clock s.batch_num_msgs) polls) p
  reached made =
      let (p, made', g) = transfer_lem s short pre clock steady polls w idle room arrivals in
      subst (InLoop s short pre (end_of (clock s.batch_num_msgs) polls)) (ok_inj (sym made' ∙ made))
        g

  -- Whatever messages of the slice arrive, in any order and number, and whatever times out, while polling
  -- works and the clock does not go back: the worker thread goes through its rounds without a crash,
  -- postprocesses no message twice, counts the messages that it postprocesses, and the short ids of
  -- the messages that it accepted are, in order, the ids that it postprocessed. Before the slice no
  -- timer runs, and there is one for each queue pair of the batch; the slice has a message or more in
  -- its batch, is no smaller than it, and has at most 2 ^ 16 messages together with one more batch. A
  -- message is of the slice when its queue pair and its short id are.
  pub messages_once :
      (p : LoopState) × (transfer s pre clock polls w ≡ ok p)
      × ((m : ℕ) → count m p.worker.postprocessed ≤ 1)
      × (p.num_received_msgs ≡ length p.worker.postprocessed)
      × (p.worker.accepted ≡ p.worker.postprocessed)
  messages_once =
      let (p, made, g) = transfer_lem s short pre clock steady polls w idle room arrivals in
      (p, made, once g.tracked, omega (arith, g.tracked.counted), g.logged.0)

  -- Whatever messages of the slice arrive, in any order and number, and whatever times out, while polling
  -- works and the clock does not go back: once the count has reached the number of messages of the
  -- slice, so that the loop ends, every message of it was prepared exactly once, was handed to ibverbs
  -- on its queue pair once or more, with its id, was accepted and postprocessed exactly once, and no
  -- timer runs any more. Before the slice no timer runs, and there is one for each queue pair of the
  -- batch; the slice has a message or more in its batch, is no smaller than it, and has at most 2 ^ 16
  -- messages together with one more batch.
  pub messages_complete :
      (m : ℕ) {p : LoopState}
      → transfer s pre clock polls w ≡ ok p
      → s.total_num_msgs ≤ p.num_received_msgs
      → m < s.total_num_msgs
      → (count m p.worker.preprocessed ≡ 1)
        × (sent_as s m p.worker.posted_sends ≡ true)
        × (count m p.worker.accepted ≡ 1)
        × (count m p.worker.postprocessed ≡ 1)
        × Represents p.worker.timeouts_queue []
  messages_complete m {p} made all le =
      let g = reached made in
      let full : s.total_num_msgs ≤ length p.worker.postprocessed =
        omega (arith, g.tracked.counted) in
      let taken = all_taken short g.tracked full m le in
      let prepared : count m p.worker.preprocessed ≡ 1 =
        ground (arith, g.tracked.sent m le, g.tracked.taken m, taken) in
      (
        prepared,
        g.logged.1 m (count_elem m p.worker.preprocessed (omega (arith, prepared))),
        ap (count m) g.logged.0 ∙ taken,
        taken,
        idle-Represents g.timers (awaits_none short g.tracked full),
      )
