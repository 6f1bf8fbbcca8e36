-- ===== src/RdmaWorker/Exact.antt =====
-- Which messages of a job slice rdma_worker_thread.cc has taken at any time.
use p4app_switch_ml.Prelude.{
  ℕ, ◌+◌, ◌*◌, ◌/◌, ◌-◌, ◌%◌, ◌≤◌, ◌<◌, ◌≡◌, sym, ◌∙◌, ap, Bool, false, ◌==◌, ltb, leb, ◌&&◌, inl,
  inr, Bool-cases, if◌then◌else◌, ==_refl, ==→eq, ne→==, ltb→lt, ltb→le, length, count, sum_below,
  sum-count, missing, All, update, arith, u16_mod,
}
use native.Mathlib.Nat.{add-mod_right, div-add-mod, mul-le-mul_left}
use p4app_switch_ml.RdmaWorker.{Worker, Slice}

-- Whether a queue pair waits for a message.
abbrev pub waits : Slice → (ℕ → ℕ) → ℕ → Bool
waits s ids k = ltb k s.batch_num_msgs && ltb (ids k) s.total_num_msgs

-- A slice as the worker thread sets it up, with messages that 16 bits tell apart.
pub record IsShort (s : Slice) : Type 0 where
  pub some : 0 < s.batch_num_msgs
  pub batch : s.batch_num_msgs ≤ s.total_num_msgs
  pub narrow : s.total_num_msgs + s.batch_num_msgs ≤ u16_mod

-- The messages below the one that its queue pair waits for were taken, and those up to it were sent.
pub record Tracked (s : Slice) (received : ℕ) (w : Worker) : Type 0 where
  pub class : (k : ℕ) → k < s.batch_num_msgs → w.msg_ids k % s.batch_num_msgs ≡ k
  pub top : (k : ℕ) → k < s.batch_num_msgs → w.msg_ids k < s.total_num_msgs + s.batch_num_msgs
  pub taken :
      (m : ℕ)
      → count m w.postprocessed ≡ (if ltb m (w.msg_ids (m % s.batch_num_msgs)) then 1 else 0)
  pub sent :
      (m : ℕ)
      → m < s.total_num_msgs
      → count m w.preprocessed ≡ (if leb m (w.msg_ids (m % s.batch_num_msgs)) then 1 else 0)
  pub within : All (λ (m : ℕ). m < s.total_num_msgs) w.postprocessed
  pub within_sent : All (λ (m : ℕ). m < s.total_num_msgs) w.preprocessed
  pub counted : received + w.iteration_num_received_msgs ≡ length w.postprocessed

-- There are no more messages taken than messages of the slice.
module _ {s : Slice} {received : ℕ} {w : Worker} (tracked : Tracked s received w) where
  pub once : (m : ℕ) → count m w.postprocessed ≤ 1
  once m = ground (arith, tracked.taken m)

  pub missing_eq :
      length w.postprocessed + sum_below s.total_num_msgs (λ m. 1 - count m w.postprocessed)
      ≡ s.total_num_msgs
  missing_eq = omega (
    arith,
    sum-count s.total_num_msgs w.postprocessed tracked.within,
    missing s.total_num_msgs (λ m. count m w.postprocessed) once,
  )

-- Of two numbers less than a batch apart in one class, there is only one.
same_class : (m id b : ℕ) → m % b ≡ id % b → id ≤ m → m < id + b → m ≡ id
same_class m id b e le lt = elim (Bool-cases (ltb (id / b) (m / b))) [
  | inl above ↦
      let step : b * (id / b + 1) ≡ b * (id / b) + b = grind arith in
      absurd (
        omega (
          arith,
          div-add-mod m b,
          div-add-mod id b,
          mul-le-mul_left {m = id / b + 1} {n = m / b} b (omega (arith, ltb→lt _ _ above)),
        ))
  | inr below ↦
      omega (arith, div-add-mod m b, div-add-mod id b, mul-le-mul_left b (ltb→le _ _ below))
]

-- What a queue pair took or sent, once it waits for the message a batch further on.
module _ (s : Slice) (ids : ℕ → ℕ) (q : ℕ) (below : q < s.batch_num_msgs)
    (same : ids q % s.batch_num_msgs ≡ q) where
  abbrev pub next_ids : ℕ → ℕ
  next_ids = update ids q (ids q + s.batch_num_msgs)

  in_class :
      (m : ℕ) → ids q ≤ m → m < ids q + s.batch_num_msgs → m % s.batch_num_msgs ≡ q → m ≡ ids q
  in_class m le lt e = same_class m (ids q) s.batch_num_msgs (e ∙ sym same) le lt

  pub taken_next :
      (m : ℕ)
      → (if ltb m (next_ids (m % s.batch_num_msgs)) then 1 else 0)
        ≡ (if ids q == m then 1 else 0) + (if ltb m (ids (m % s.batch_num_msgs)) then 1 else 0)
  taken_next m = elim (Bool-cases (m % s.batch_num_msgs == q)) [
    | inl e ↦ let here = ==→eq _ _ e in rw (here, ==_refl q) (ground (arith, in_class m))
    | inr ne ↦
        let other : (ids q == m) ≡ false =
          ne→== _ _ (λ e. ground (arith, ne, same, ap (λ k. k % s.batch_num_msgs) e)) in
        rw (ne, other) (omega arith)
  ]

  pub sent_next :
      (m : ℕ)
      → (if leb m (next_ids (m % s.batch_num_msgs)) then 1 else 0)
        ≡ (if ids q + s.batch_num_msgs == m then 1 else 0)
          + (if leb m (ids (m % s.batch_num_msgs)) then 1 else 0)
  sent_next m = elim (Bool-cases (m % s.batch_num_msgs == q)) [
    | inl e ↦ let here = ==→eq _ _ e in rw (here, ==_refl q) (ground (arith, in_class m))
    | inr ne ↦
        let other : (ids q + s.batch_num_msgs == m) ≡ false = ne→== _ _ (λ e. ground (
          arith,
          ne,
          same,
          add-mod_right (ids q) s.batch_num_msgs,
          ap (λ k. k % s.batch_num_msgs) e,
        )) in
        rw (ne, other) (omega arith)
  ]
