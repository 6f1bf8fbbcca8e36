-- ===== src/Config/Validated.antt =====
-- What a configuration is like after `Config::Validate` has accepted it.
use p4app_switch_ml.Prelude.{
  ℕ, subst, ◌+◌, ◌*◌, ◌/◌, ◌%◌, ◌≤◌, ◌<◌, ◌≡◌, refl, sym, ◌⊎◌, inl, inr, max, not, ◌&&◌, arith,
  Bool-cases, ltb, ◌==◌, ==→eq, if◌then◌else◌, u32_mod,
}
use native.Mathlib.Nat.{mul-pos, mul-le-mul_left, mod-eq_of_lt, mul-mod_left}
use p4app_switch_ml.Outcome.{ok, bind_returned, crash_if, fatal, undefined}
use p4app_switch_ml.Config.{
  Config, set_outstanding, round_outstanding, validate_threads, whole_packets, whole_messages,
  validate_rdma,
}
use p4app_switch_ml.Config.Rounding.{
  Rounded, round_outstanding-Rounded, quotient-LowerMultiple, lower-LowerMultiple, multiple-Rounded,
  le_of_multiple, le_of_quotient, quotient_bounds, div_mono, one_le_quotient, mul-le,
}

-- Only `max_outstanding_packets` has changed, to its rounding to the unit.
pub record RoundedConfig (c c' : Config) (unit : ℕ) : Type 0 where
  pub rounded : Rounded c.general.max_outstanding_packets unit c'.general.max_outstanding_packets
  pub same : c' ≡ set_outstanding c c'.general.max_outstanding_packets

round_width : (mop unit r : ℕ) → Rounded mop unit r → mop + unit < u32_mod → r % u32_mod ≡ r
round_width mop unit r h small = mod-eq_of_lt (omega (arith, h.bounded))

set_outstanding-RoundedConfig :
    (c : Config) (unit r : ℕ)
    → Rounded c.general.max_outstanding_packets unit r
    → c.general.max_outstanding_packets + unit < u32_mod
    → RoundedConfig c (set_outstanding c (r % u32_mod)) unit
set_outstanding-RoundedConfig c unit r h small = record {
  rounded = rw (round_width c.general.max_outstanding_packets unit r h small) h;
  same = refl;
}

ok_inj : {a b : Config} → ok a ≡ ok b → a ≡ b
ok_inj h = cc

-- What `validate_threads` returns.
threads_result :
    (c : Config)
    → 0 < c.general.num_worker_threads
    → 1 ≤ c.general.max_outstanding_packets / c.general.num_worker_threads
    → c.general.max_outstanding_packets + c.general.num_worker_threads < u32_mod
    → RoundedConfig c
        (if c.general.max_outstanding_packets % c.general.num_worker_threads == 0
          then c
          else set_outstanding c (
              round_outstanding c.general.max_outstanding_packets
                (c.general.max_outstanding_packets / c.general.num_worker_threads)
                c.general.num_worker_threads
              % u32_mod))
        c.general.num_worker_threads
threads_result c pos one small =
    let mop = c.general.max_outstanding_packets in
    let n = c.general.num_worker_threads in
    elim (Bool-cases (mop % n == 0)) [
      | inl even ↦ rw even (record {
        rounded = multiple-Rounded mop n (==→eq _ _ even) (le_of_quotient mop n pos one);
        same = refl;
      })
      | inr odd ↦ rw odd (
          set_outstanding-RoundedConfig c n (round_outstanding mop (mop / n) n)
            (round_outstanding-Rounded mop (mop / n) n pos one
              (quotient-LowerMultiple mop n pos one))
            small)
    ]

-- The part for every backend.
pub validate_threads-RoundedConfig :
    (c : Config) {c' : Config}
    → c.general.max_outstanding_packets + c.general.num_worker_threads < u32_mod
    → validate_threads c ≡ ok c'
    → (0 < c.general.num_worker_threads) × RoundedConfig c c' c.general.num_worker_threads
unfolding validate_threads
validate_threads-RoundedConfig c {c'} small h =
    let mop = c.general.max_outstanding_packets in
    let n = c.general.num_worker_threads in
    let (x, h1, e1) = bind_returned (crash_if (n == 0) undefined) _ h in
    let (y, h2, e2) = bind_returned (crash_if (mop / n == 0) fatal) _ h1 in
    let pos : 0 < n = ground (arith, e1) in
    let one : 1 ≤ mop / n = ground (arith, e2) in
    (pos, subst (λ d. RoundedConfig c d n) (ok_inj h2) (threads_result c pos one small))

-- A message, cut down to whole packets.
pub record WholeMessage (packet asked msg : ℕ) : Type 0 where
  pub whole : msg % packet ≡ 0
  pub one_packet : packet ≤ msg
  pub shorter : msg ≤ asked
  pub longest : asked < msg + packet

whole_packets-WholeMessage :
    (c : Config)
    → 0 < c.general.packet_numel
    → c.general.packet_numel ≤ c.rdma.msg_numel
    → c.rdma.msg_numel < u32_mod
    → WholeMessage c.general.packet_numel c.rdma.msg_numel (whole_packets c).rdma.msg_numel
unfolding whole_packets
whole_packets-WholeMessage c pos le small =
    let msg = c.rdma.msg_numel in
    let packet = c.general.packet_numel in
    let (below, above) = quotient_bounds msg packet pos in
    let one = one_le_quotient msg packet pos le in
    elim (Bool-cases (msg % packet == 0)) [
      | inl even ↦ rw even (record {
        whole = ==→eq _ _ even;
        one_packet = le;
        shorter = omega arith;
        longest = omega arith;
      })
      | inr odd ↦
          let fits : msg / packet * packet % u32_mod ≡ msg / packet * packet =
            mod-eq_of_lt (omega arith) in
          rw (odd, fits)
            (record {
              whole = mul-mod_left (msg / packet) packet;
              one_packet = omega (arith, mul-le 1 (msg / packet) packet one);
              shorter = below;
              longest = above;
            })
    ]

whole_messages-RoundedConfig :
    (c : Config) (unit : ℕ)
    → unit ≡ c.general.num_worker_threads * (c.rdma.msg_numel / c.general.packet_numel)
    → 0 < unit
    → 0 < c.general.max_outstanding_packets
    → c.general.max_outstanding_packets + unit < u32_mod
    → RoundedConfig c (whole_messages c) unit
unfolding whole_messages
whole_messages-RoundedConfig c unit e pos some small =
    let mop = c.general.max_outstanding_packets in
    rw (sym e) (elim (Bool-cases (mop % unit == 0)) [
      | inl even ↦ rw even (record {
        rounded =
            multiple-Rounded mop unit (==→eq _ _ even)
              (le_of_multiple mop unit (==→eq _ _ even) some);
        same = refl;
      })
      | inr odd ↦ rw odd (
          set_outstanding-RoundedConfig c unit (round_outstanding mop (max 1 (mop / unit)) unit)
            (round_outstanding-Rounded mop (max 1 (mop / unit)) unit pos (omega arith)
              (lower-LowerMultiple mop unit pos))
            small)
    ])

-- What the RDMA backend relies on in a configuration: its `asked` size of a message and `given`
-- number of outstanding packets are those that the user asked for.
pub record RdmaReady (c : Config) (asked given : ℕ) : Type 0 where
  pub packet_size : (c.general.packet_numel ≡ 256) ⊎ (c.general.packet_numel ≡ 64)
  pub message : WholeMessage c.general.packet_numel asked c.rdma.msg_numel
  pub threads : 0 < c.general.num_worker_threads
  pub messages :
      Rounded given
        (c.general.num_worker_threads * (c.rdma.msg_numel / c.general.packet_numel))
        c.general.max_outstanding_packets

packet_sizes :
    (packet : ℕ)
    → crash_if (not (packet == 256) && not (packet == 64)) fatal ≡ ok tt
    → (packet ≡ 256) ⊎ (packet ≡ 64)
packet_sizes packet e = ground (arith, e)

-- `d` is the configuration with its message cut down.
rounded-RdmaReady :
    (c d c' : Config) (unit : ℕ)
    → d.general ≡ c.general
    → (c.general.packet_numel ≡ 256) ⊎ (c.general.packet_numel ≡ 64)
    → 0 < c.general.num_worker_threads
    → WholeMessage c.general.packet_numel c.rdma.msg_numel d.rdma.msg_numel
    → unit ≡ c.general.num_worker_threads * (d.rdma.msg_numel / c.general.packet_numel)
    → RoundedConfig d c' unit
    → RdmaReady c' c.rdma.msg_numel c.general.max_outstanding_packets
rounded-RdmaReady c d c' unit e sizes threads message eq h =
    subst (λ x. RdmaReady x c.rdma.msg_numel c.general.max_outstanding_packets) (sym h.same)
      (record {
        packet_size = rw e sizes;
        message = rw e message;
        threads = rw e threads;
        messages =
            rw (e, sym eq)
              (subst
                (λ g. Rounded g.max_outstanding_packets unit c'.general.max_outstanding_packets) e
                h.rounded);
      })

whole_packets-general : (c : Config) → (whole_packets c).general ≡ c.general
unfolding whole_packets
whole_packets-general c = elim (Bool-cases (c.rdma.msg_numel % c.general.packet_numel == 0)) [
  | inl even ↦ rw even refl
  | inr odd ↦ rw odd refl
]

pub validate_rdma-RdmaReady :
    (c : Config) {c' : Config}
    → 0 < c.general.num_worker_threads
    → 0 < c.general.max_outstanding_packets
    → c.rdma.msg_numel < u32_mod
    → c.general.max_outstanding_packets
        + c.general.num_worker_threads * (c.rdma.msg_numel / c.general.packet_numel)
      < u32_mod
    → validate_rdma c ≡ ok c'
    → RdmaReady c' c.rdma.msg_numel c.general.max_outstanding_packets
unfolding validate_rdma
validate_rdma-RdmaReady c {c'} threads some small fits h =
    let packet = c.general.packet_numel in
    let (x, h1, e1) =
      bind_returned (crash_if (not (packet == 256) && not (packet == 64)) fatal) _ h in
    let (y, h2, e2) = bind_returned (crash_if (ltb c.rdma.msg_numel packet) fatal) _ h1 in
    let sizes = packet_sizes packet e1 in
    let pos : 0 < packet = ground (arith, sizes) in
    let message = whole_packets-WholeMessage c pos (ground (arith, e2)) small in
    let d = whole_packets c in
    let unit = c.general.num_worker_threads * (d.rdma.msg_numel / packet) in
    let one = one_le_quotient d.rdma.msg_numel packet pos message.one_packet in
    let shorter : d.rdma.msg_numel / packet ≤ c.rdma.msg_numel / packet =
      div_mono packet pos message.shorter in
    let unit_pos : 0 < unit = mul-pos threads (omega (arith, one)) in
    let unit_small : unit ≤ c.general.num_worker_threads * (c.rdma.msg_numel / packet) =
      mul-le-mul_left c.general.num_worker_threads shorter in
    let e = whole_packets-general c in
    rounded-RdmaReady c d c' unit e sizes threads message refl (
      subst (λ x. RoundedConfig d x unit) (ok_inj h2)
        (whole_messages-RoundedConfig d unit (rw e refl) unit_pos (rw e some)
          (rw e (omega (arith, fits, unit_small)))))
