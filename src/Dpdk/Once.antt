-- ===== src/Dpdk/Once.antt =====
-- Which packets a job slice of the DPDK backend postprocesses, whatever the network delivers.
use p4app_switch_ml.Prelude.{
  ℕ, zero, suc, ◌+◌, ◌-◌, ◌%◌, ◌≤◌, ◌<◌, ◌≡◌, refl, sym, ap, ◌∙◌, subst, Bool, true, false, ltb,
  leb, ◌==◌, if◌then◌else◌, List, [], ◌∷◌, length, update, All, Bool-cases, inl, inr, arith,
  if_true, if_false, lt→ltb, ==→eq, u32_mod, sum_below, sum_add, sum_same, sum_none, sum_zero,
  missing,
}
use native.Mathlib.Nat.{mod-eq_of_lt}
use p4app_switch_ml.Outcome.{ok, bind_ok}
use p4app_switch_ml.Dpdk.{
  Payload, Packet, Job, Timer, Transfer, first_batch, send_next, discard, accept, receive_packet,
  receive_burst, receive_loop, new_transfer, transfer,
}

-- How often a packet was postprocessed.
abbrev pub times : ℕ → List (ℕ × Payload) → ℕ
times m [] = 0
times m ((id, x) ∷ posts) = (if id == m then 1 else 0) + times m posts

record Tracked (total : ℕ) (t : Transfer) : Type 0 where
  once : (m : ℕ) → times m t.posts ≡ (if t.received m then 1 else 0)
  counted : t.num_received_pkts ≡ length t.posts % u32_mod
  within : All (λ (x : ℕ × Payload). x.0 < total) t.posts

-- What does not change what was received leaves it tracked.
Tracked-same :
    (total : ℕ) (t t' : Transfer)
    → t'.received ≡ t.received
    → t'.posts ≡ t.posts
    → t'.num_received_pkts ≡ t.num_received_pkts
    → Tracked total t
    → Tracked total t'
Tracked-same total t t' r p n tracked = record {
  once = λ m. ap (times m) p ∙ tracked.once m ∙ ap (λ f. if f m then 1 else 0) (sym r);
  counted = n ∙ tracked.counted ∙ ap (λ ps. length ps % u32_mod) (sym p);
  within = subst (All (λ (x : ℕ × Payload). x.0 < total)) (sym p) tracked.within;
}

Tracked-send_next :
    (job : Job) (p : Packet) (t : Transfer)
    → Tracked job.total_num_pkts t
    → Tracked job.total_num_pkts (send_next job p t)
unfolding send_next
Tracked-send_next job p t tracked =
    elim (Bool-cases (leb job.total_num_pkts ((p.pkt_id + job.batch_num_pkts) % u32_mod))) [
      | inl last ↦ rw last (Tracked-same job.total_num_pkts t _ refl refl refl tracked)
      | inr more ↦ rw more (Tracked-same job.total_num_pkts t _ refl refl refl tracked)
    ]

bump :
    (id m k : ℕ) (f : ℕ → Bool)
    → f id ≡ false
    → k ≡ (if f m then 1 else 0)
    → (if id == m then 1 else 0) + k ≡ (if update f id true m then 1 else 0)
bump id m k f new h = elim (Bool-cases (id == m)) [
  | inl same ↦ ground (arith, h, ap f (sym (==→eq id m same)) ∙ new)
  | inr other ↦ ground (arith, h, other)
]

Tracked-accept :
    (total : ℕ) (p : Packet) (t : Transfer)
    → p.pkt_id < total
    → t.received p.pkt_id ≡ false
    → Tracked total t
    → Tracked total (accept p t)
unfolding accept
Tracked-accept total p t low new tracked = record {
  once = λ m. bump p.pkt_id m (times m t.posts) t.received new (tracked.once m);
  counted = omega (arith, tracked.counted);
  within = (low, tracked.within);
}

receive_packet_lem :
    (job : Job) (p : Packet) (t : Transfer)
    → p.pkt_id < job.total_num_pkts
    → job.total_num_pkts ≤ job.bitmap_bits
    → Tracked job.total_num_pkts t
    → (t' : Transfer) × (receive_packet job p t ≡ ok t') × Tracked job.total_num_pkts t'
unfolding receive_packet discard
receive_packet_lem job p t low bits tracked =
    let inside = if_true _ (lt→ltb p.pkt_id job.bitmap_bits (omega arith)) in
    elim (Bool-cases (t.received p.pkt_id)) [
      | inl old ↦ (
        _,
        inside ∙ if_true _ old,
        Tracked-same job.total_num_pkts t (discard t) refl refl refl tracked,
      )
      | inr new ↦ elim (Bool-cases (p.short_job_id == job.job_id % 256)) [
        | inl ours ↦ (
          send_next job p (accept p t),
          inside ∙ if_false _ new ∙ if_true _ ours,
          Tracked-send_next job p (accept p t)
              (Tracked-accept job.total_num_pkts p t low new tracked),
        )
        | inr others ↦ (
          discard t,
          inside ∙ if_false _ new ∙ if_false _ others,
          Tracked-same job.total_num_pkts t (discard t) refl refl refl tracked,
        )
      ]
    ]

module _ (job : Job) (bits : job.total_num_pkts ≤ job.bitmap_bits) where
  receive_burst_lem :
      (ps : List Packet) (t : Transfer)
      → All (λ (p : Packet). p.pkt_id < job.total_num_pkts) ps
      → Tracked job.total_num_pkts t
      → (t' : Transfer) × (receive_burst job ps t ≡ ok t') × Tracked job.total_num_pkts t'
  unfolding receive_burst
  receive_burst_lem [] t low tracked = (t, refl, tracked)
  receive_burst_lem (p ∷ ps) t low tracked =
      let (t', first, tracked') = receive_packet_lem job p t low.0 bits tracked in
      let (t'', rest, tracked'') = receive_burst_lem ps t' low.1 tracked' in
      (t'', bind_ok (λ u. receive_burst job ps u) first rest, tracked'')

  receive_loop_lem :
      (bursts : List (List Packet)) (t : Transfer)
      → All (All (λ (p : Packet). p.pkt_id < job.total_num_pkts)) bursts
      → Tracked job.total_num_pkts t
      → (t' : Transfer) × (receive_loop job bursts t ≡ ok t') × Tracked job.total_num_pkts t'
  unfolding receive_loop
  receive_loop_lem [] t low tracked = (t, refl, tracked)
  receive_loop_lem (b ∷ bs) t low tracked =
      elim (Bool-cases (ltb t.num_received_pkts job.total_num_pkts)) [
        | inl more ↦
            let (t', first, tracked') = receive_burst_lem b t low.0 tracked in
            let (t'', rest, tracked'') = receive_loop_lem bs t' low.1 tracked' in
            (t'', if_true _ more ∙ bind_ok (λ u. receive_loop job bs u) first rest, tracked'')
        | inr done ↦ (t, if_false _ done, tracked)
      ]

  first_batch-Tracked :
      (left pkt_id : ℕ) (t : Transfer)
      → Tracked job.total_num_pkts t
      → Tracked job.total_num_pkts (first_batch job left pkt_id t)
  unfolding first_batch
  first_batch-Tracked zero pkt_id t tracked = tracked
  first_batch-Tracked (suc left) pkt_id t tracked =
      first_batch-Tracked left _ _ (Tracked-same job.total_num_pkts t _ refl refl refl tracked)

  transfer_lem :
      (timers : ℕ → Timer) (bursts : List (List Packet))
      → All (All (λ (p : Packet). p.pkt_id < job.total_num_pkts)) bursts
      → (t : Transfer) × (transfer job timers bursts ≡ ok t) × Tracked job.total_num_pkts t
  unfolding transfer new_transfer
  transfer_lem timers bursts low = receive_loop_lem bursts _ low (
      first_batch-Tracked job.batch_num_pkts 0 (new_transfer timers)
        (record { once = λ m. refl; counted = refl; within = tt }))

-- The sum over all packets counts every call.
sum_times :
    (n : ℕ) (posts : List (ℕ × Payload))
    → All (λ (x : ℕ × Payload). x.0 < n) posts
    → sum_below n (λ m. times m posts) ≡ length posts
sum_times n [] a = sum_none n
sum_times n ((id, x) ∷ posts) a = omega (
  arith,
  sum_add n (λ m. if id == m then 1 else 0) (λ m. times m posts),
  sum_same n id,
  if_true {x = zero} (suc zero) (lt→ltb id n a.0),
  sum_times n posts a.1,
)

once_le : (total : ℕ) (t : Transfer) → Tracked total t → (m : ℕ) → times m t.posts ≤ 1
once_le total t tracked m = ground (arith, tracked.once m)

count_lem :
    (total : ℕ) (t : Transfer)
    → total < u32_mod
    → Tracked total t
    → (t.num_received_pkts ≡ length t.posts)
      × (sum_below total (λ m. times m t.posts) ≡ length t.posts)
      × (length t.posts + sum_below total (λ m. 1 - times m t.posts) ≡ total)
count_lem total t small tracked =
    let all = sum_times total t.posts tracked.within in
    let rest = missing total (λ m. times m t.posts) (once_le total t tracked) in
    (tracked.counted ∙ mod-eq_of_lt (omega (arith, all, rest)), all, omega (arith, all, rest))

-- Whatever packets arrive, in any order and number, with ids of the slice: the worker thread returns,
-- postprocesses no packet twice, and counts the packets that it postprocessed. The slice has fewer than 2 ^ 32 packets and a bit of the bitmap for each.
pub transfer_once :
    (job : Job) (timers : ℕ → Timer) (bursts : List (List Packet))
    → job.total_num_pkts ≤ job.bitmap_bits
    → job.total_num_pkts < u32_mod
    → All (All (λ (p : Packet). p.pkt_id < job.total_num_pkts)) bursts
    → (t : Transfer) × (transfer job timers bursts ≡ ok t)
      × ((m : ℕ) → times m t.posts ≤ 1)
      × (t.num_received_pkts ≡ length t.posts)
transfer_once job timers bursts bits small low =
    let (t, made, tracked) = transfer_lem job bits timers bursts low in
    (
      t,
      made,
      once_le job.total_num_pkts t tracked,
      (count_lem job.total_num_pkts t small tracked).0,
    )

-- Whatever packets arrive, in any order and number, with ids of the slice: once the count has reached the
-- number of packets, so that the loop ends, every packet of the slice was postprocessed exactly once. The
-- slice has fewer than 2 ^ 32 packets and a bit of the bitmap for each.
pub transfer_complete :
    (job : Job) (timers : ℕ → Timer) (bursts : List (List Packet)) (m : ℕ) {t : Transfer}
    → job.total_num_pkts ≤ job.bitmap_bits
    → job.total_num_pkts < u32_mod
    → All (All (λ (p : Packet). p.pkt_id < job.total_num_pkts)) bursts
    → transfer job timers bursts ≡ ok t
    → job.total_num_pkts ≤ t.num_received_pkts
    → m < job.total_num_pkts
    → times m t.posts ≡ 1
transfer_complete job timers bursts m {t} bits small low made all inside =
    let (t', made', tracked') = transfer_lem job bits timers bursts low in
    let tracked = subst (Tracked job.total_num_pkts) (ok_inj (sym made' ∙ made)) tracked' in
    let (count, total, rest) = count_lem job.total_num_pkts t small tracked in
    let none_missing =
      sum_zero job.total_num_pkts (λ k. 1 - times k t.posts) (omega arith) m inside in
    omega (arith, none_missing, once_le job.total_num_pkts t tracked m)
  where
    ok_inj : {a b : Transfer} → ok a ≡ ok b → a ≡ b
    ok_inj h = cc
