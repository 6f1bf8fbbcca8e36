-- ===== src/Dummy/Answers.antt =====
-- What the worker thread of dummy_worker_thread.cc does with the packets of a burst.
use p4app_switch_ml.Prelude.{
  ℕ, ◌+◌, ◌≤◌, ◌<◌, ◌≡◌, refl, ap, inl, inr, arith, Bool-cases, ltb, ltb→le, if◌then◌else◌, List,
  [], ◌∷◌, length, u64_mod,
}
use native.Mathlib.Nat.{mod-eq_of_lt}
use p4app_switch_ml.Dummy.{
  DummyPacket, Call, preprocess, postprocess, process, Slice, next_packet, answer_packets,
  preprocess_packet,
}
use p4app_switch_ml.Dummy.Chains.{leads, same, leads_next}
use p4app_switch_ml.Dummy.Bursts.{tally, pres, posts}

-- One for a packet that is not of the slice, and for a call that postprocesses such a packet.
abbrev pub is_out : ℕ → DummyPacket → ℕ
is_out total p = if ltb p.pkt_id total then 0 else 1

abbrev pub is_post : Call → ℕ
is_post (preprocess id entries extra) = 0
is_post (postprocess id entries extra) = 1
is_post (process p) = 0

abbrev pub is_stray : ℕ → Call → ℕ
is_stray total (preprocess id entries extra) = 0
is_stray total (postprocess id entries extra) = if ltb id total then 0 else 1
is_stray total (process p) = 0

-- Every packet waits for the packets of its slot from its own on.
abbrev pub waits : ℕ → ℕ → List DummyPacket → ℕ
waits batch m = tally (λ p. leads batch m p.pkt_id)

abbrev pub asked : ℕ → List DummyPacket → ℕ
asked m = tally (λ p. same m p.pkt_id)

pub record Answered (s : Slice) (ps : List DummyPacket) (calls : List Call)
    (next : List DummyPacket) (calls' : List Call) : Type 0 where
  pub waiting :
      (m : ℕ)
      → m < s.total_num_pkts
      → asked m ps + waits s.batch_num_pkts m next ≡ waits s.batch_num_pkts m ps
  pub posted : (m : ℕ) → posts m calls' ≡ posts m calls + asked m ps
  pub prepared : (m : ℕ) → pres m calls' ≡ pres m calls + asked m next
  pub strays : tally (is_stray s.total_num_pkts) calls' ≡ tally (is_stray s.total_num_pkts) calls
  pub small : tally (is_out s.total_num_pkts) next ≡ 0
  pub counted : tally is_post calls' ≡ tally is_post calls + length ps

module _ (s : Slice) (pos : 0 < s.batch_num_pkts)
    (narrow : s.total_num_pkts + s.batch_num_pkts ≤ u64_mod) where
  next_id :
      (p : DummyPacket)
      → p.pkt_id < s.total_num_pkts
      → (next_packet s p).pkt_id ≡ p.pkt_id + s.batch_num_pkts
  unfolding next_packet
  next_id p h = mod-eq_of_lt (omega arith)

  -- The last packet of a slot leaves no later one waiting.
  leads_last :
      (m id : ℕ)
      → m < s.total_num_pkts
      → s.total_num_pkts ≤ id + s.batch_num_pkts
      → leads s.batch_num_pkts m (id + s.batch_num_pkts) ≡ 0
  unfolding leads
  leads_last m id h le = ground arith

  pub answer_packets-Answered :
      (ps : List DummyPacket) (calls : List Call)
      → tally (is_out s.total_num_pkts) ps ≡ 0
      → Answered s ps calls (answer_packets s ps calls).0 (answer_packets s ps calls).1
  unfolding answer_packets
  answer_packets-Answered [] calls h = record {
    waiting = λ m le. omega arith;
    posted = λ m. omega arith;
    prepared = λ m. omega arith;
    strays = refl;
    small = refl;
    counted = omega arith;
  }
  answer_packets-Answered (p ∷ ps) calls h =
      let inside : p.pkt_id < s.total_num_pkts = ground arith in
      let next = next_packet s p in
      let e : next.pkt_id ≡ p.pkt_id + s.batch_num_pkts = next_id p inside in
      let done = postprocess p.pkt_id p.entries_ptr p.extra_info_ptr ∷ calls in
      let last = answer_packets-Answered ps done (ground arith) in
      let more = answer_packets-Answered ps (preprocess_packet next done) (ground arith) in
      let slot : (m : ℕ)
          → same m p.pkt_id + leads s.batch_num_pkts m next.pkt_id
            ≡ leads s.batch_num_pkts m p.pkt_id =
        λ m. rw e (leads_next s.batch_num_pkts m p.pkt_id pos) in
      elim (Bool-cases (ltb next.pkt_id s.total_num_pkts)) [
        | inl reused ↦ rw reused (record {
          waiting = λ m le. omega (arith, more.waiting m le, slot m);
          posted = λ m. omega (arith, more.posted m);
          prepared = λ m. omega (arith, more.prepared m);
          strays = ground (arith, more.strays);
          small = ground (arith, more.small);
          counted = omega (arith, more.counted);
        })
        | inr over ↦ rw over (record {
          waiting = λ m le. omega (
            arith,
            last.waiting m le,
            slot m,
            leads_last m p.pkt_id le (omega (arith, e, ltb→le _ _ over)),
            ap (leads s.batch_num_pkts m) e,
          );
          posted = λ m. omega (arith, last.posted m);
          prepared = λ m. omega (arith, last.prepared m);
          strays = ground (arith, last.strays);
          small = last.small;
          counted = omega (arith, last.counted);
        })
      ]
