-- ===== src/Config/Accepted.antt =====
-- What `Config::Validate` promises for the configurations that it accepts, and which those are.
use p4app_switch_ml.Prelude.{
  ℕ, subst, ◌+◌, ◌*◌, ◌/◌, ◌%◌, ◌≤◌, ◌<◌, ◌≡◌, refl, sym, ◌∙◌, ap, ◌⊎◌, inl, inr, Bool, true, false,
  not, ◌&&◌, ◌||◌, le→ltb, arith, if_true, if_false, Bool-cases, ◌==◌, if◌then◌else◌, u32_mod,
}
use Prim.Native.String.{String}
use text.Mathlib.Text.{◌==◌ as str_eq}
use native.Mathlib.Nat.{mul-le-mul_left}
use p4app_switch_ml.Outcome.{ok, bind_returned, bind_ok, crash_if, fatal}
use p4app_switch_ml.Config.{
  Config, Features, set_outstanding, validate_threads, validate_dpdk, validate_rdma, validate,
  round_outstanding, whole_packets, whole_messages,
}
use p4app_switch_ml.Config.Rounding.{Rounded, multiple_trans, one_le_quotient}
use p4app_switch_ml.Config.Validated.{
  RoundedConfig, RdmaReady, validate_threads-RoundedConfig, validate_rdma-RdmaReady,
}

-- The configuration holds values of the source's unsigned 32-bit fields, and no rounding of its
-- packets leaves 32 bits.
pub record Fits (c : Config) : Type 0 where
  pub msg_numel : c.rdma.msg_numel < u32_mod
  pub rounded : c.general.max_outstanding_packets + c.general.num_worker_threads < u32_mod
  pub twice :
      c.general.max_outstanding_packets
        + c.general.num_worker_threads
        + c.general.num_worker_threads * (c.rdma.msg_numel / c.general.packet_numel)
      < u32_mod

-- The worker threads can share the outstanding packets evenly.
pub record ThreadsReady (c : Config) : Type 0 where
  pub threads : 0 < c.general.num_worker_threads
  pub some : c.general.num_worker_threads ≤ c.general.max_outstanding_packets
  pub even : c.general.max_outstanding_packets % c.general.num_worker_threads ≡ 0

RdmaReady-ThreadsReady : (c : Config) {asked given : ℕ} → RdmaReady c asked given → ThreadsReady c
RdmaReady-ThreadsReady c h =
    let n = c.general.num_worker_threads in
    let pos : 0 < c.general.packet_numel = ground (arith, h.packet_size) in
    let one = one_le_quotient c.rdma.msg_numel c.general.packet_numel pos h.message.one_packet in
    record {
      threads = h.threads;
      some = omega (arith, h.messages.some, mul-le-mul_left n one);
      even =
          multiple_trans c.general.max_outstanding_packets n
            (c.rdma.msg_numel / c.general.packet_numel) h.messages.multiple;
    }

-- The RDMA part, after the part for every backend.
rounded-RdmaReady :
    (c c1 : Config) {c' : Config}
    → Fits c
    → 0 < c.general.num_worker_threads
    → RoundedConfig c c1 c.general.num_worker_threads
    → validate_rdma c1 ≡ ok c'
    → RdmaReady c' c.rdma.msg_numel c1.general.max_outstanding_packets
rounded-RdmaReady c c1 {c'} fits threads h e =
    let r = c1.general.max_outstanding_packets in
    validate_rdma-RdmaReady (set_outstanding c r) threads (omega (arith, h.rounded.some))
      fits.msg_numel (omega (arith, fits.twice, h.rounded.bounded))
      (subst (λ d. validate_rdma d ≡ ok c') h.same e)

ok_inj : {a b : Config} → ok a ≡ ok b → a ≡ b
ok_inj h = cc

rounded-ThreadsReady :
    (c c1 : Config)
    → 0 < c.general.num_worker_threads
    → RoundedConfig c c1 c.general.num_worker_threads
    → ThreadsReady c1
rounded-ThreadsReady c c1 threads h =
    subst ThreadsReady (sym h.same)
      (record { threads = threads; some = h.rounded.some; even = h.rounded.multiple })

-- Where no rounding leaves 32 bits, the configuration that Validate returns has a worker thread, and
-- its outstanding packets are a multiple of the worker threads and not fewer than them.
pub validate-ThreadsReady :
    (f : Features) (c : Config) {c' : Config} → Fits c → validate f c ≡ ok c' → ThreadsReady c'
unfolding validate
validate-ThreadsReady f c {c'} fits h =
    let (c1, h1, e1) = bind_returned (validate_threads c) _ h in
    let (threads, r) = validate_threads-RoundedConfig c fits.rounded e1 in
    let (x, h2, e2) =
      bind_returned (if f.dpdk && str_eq c1.general.backend "dpdk" then validate_dpdk c1 else ok tt)
        _ h1 in
    elim (Bool-cases (f.rdma && str_eq c1.general.backend "rdma")) [
      | inl rdma ↦
          RdmaReady-ThreadsReady c'
            (rounded-RdmaReady c c1 fits threads r (sym (if_true _ rdma) ∙ h2))
      | inr other ↦
          subst ThreadsReady (ok_inj (sym (if_false _ other) ∙ h2))
            (rounded-ThreadsReady c c1 threads r)
    ]

chosen : (b : Bool) {name : String} → b ≡ true → name ≡ "rdma" → b && str_eq name "rdma" ≡ true
chosen b e named = rw (e, named) refl

-- Where no rounding leaves 32 bits and the backend is RDMA, the configuration that Validate returns
-- has packets of 256 or 64 elements, the largest message of whole packets that is not longer than the
-- one asked for, and outstanding packets which are one message or more for every worker thread and
-- none over: the nearest such number to the nearest multiple of the worker threads.
pub validate-RdmaReady :
    (f : Features) (c : Config) {c' : Config}
    → Fits c
    → f.rdma ≡ true
    → c.general.backend ≡ "rdma"
    → validate f c ≡ ok c'
    → (given : ℕ) × Rounded c.general.max_outstanding_packets c.general.num_worker_threads given
      × RdmaReady c' c.rdma.msg_numel given
unfolding validate
validate-RdmaReady f c {c'} fits rdma backend h =
    let (c1, h1, e1) = bind_returned (validate_threads c) _ h in
    let (threads, r) = validate_threads-RoundedConfig c fits.rounded e1 in
    let (x, h2, e2) =
      bind_returned (if f.dpdk && str_eq c1.general.backend "dpdk" then validate_dpdk c1 else ok tt)
        _ h1 in
    let named : c1.general.backend ≡ "rdma" = ap (λ d. d.general.backend) r.same ∙ backend in
    (
      c1.general.max_outstanding_packets,
      r.rounded,
      rounded-RdmaReady c c1 fits threads r (sym (if_true _ (chosen f.rdma rdma named)) ∙ h2),
    )

-- What `Validate` asks of a configuration before it rounds anything.
pub record Acceptable (f : Features) (c : Config) : Type 0 where
  pub threads : 0 < c.general.num_worker_threads
  pub some : 1 ≤ c.general.max_outstanding_packets / c.general.num_worker_threads
  pub packet_size :
      (f.dpdk && str_eq c.general.backend "dpdk") || (f.rdma && str_eq c.general.backend "rdma")
        ≡ true
      → (c.general.packet_numel ≡ 256) ⊎ (c.general.packet_numel ≡ 64)
  pub one_packet :
      f.rdma && str_eq c.general.backend "rdma" ≡ true → c.general.packet_numel ≤ c.rdma.msg_numel

-- Of the checks that look at the packets, those that hold let the chain go on.
sizes_pass :
    (packet : ℕ)
    → (packet ≡ 256) ⊎ (packet ≡ 64)
    → crash_if (not (packet == 256) && not (packet == 64)) fatal ≡ ok tt
sizes_pass packet h = ground (arith, h)

threads_pass :
    (f : Features) (c : Config)
    → Acceptable f c
    → (r : ℕ) × (validate_threads c ≡ ok (set_outstanding c r))
unfolding validate_threads
threads_pass f c h =
    let n = c.general.num_worker_threads in
    let mop = c.general.max_outstanding_packets in
    let pos : (n == 0) ≡ false = ground (arith, h.threads) in
    let some : (mop / n == 0) ≡ false = ground (arith, h.some) in
    elim (Bool-cases (mop % n == 0)) [
      | inl even ↦ (mop, rw (pos, some, even) refl)
      | inr odd ↦ (round_outstanding mop (mop / n) n % u32_mod, rw (pos, some, odd) refl)
    ]

rdma_pass :
    (c : Config)
    → (c.general.packet_numel ≡ 256) ⊎ (c.general.packet_numel ≡ 64)
    → c.general.packet_numel ≤ c.rdma.msg_numel
    → (c' : Config) × (validate_rdma c ≡ ok c')
unfolding validate_rdma
rdma_pass c sizes le = (
  whole_messages (whole_packets c),
  rw (sizes_pass c.general.packet_numel sizes, le→ltb c.rdma.msg_numel c.general.packet_numel le)
      refl,
)

rdma_named :
    (f : Features) (c : Config)
    → f.rdma && str_eq c.general.backend "rdma" ≡ true
    → (f.dpdk && str_eq c.general.backend "dpdk") || (f.rdma && str_eq c.general.backend "rdma")
      ≡ true
rdma_named f c h = elim (Bool-cases (f.dpdk && str_eq c.general.backend "dpdk")) [
  | inl dpdk ↦ rw dpdk refl
  | inr other ↦ rw other h
]

dpdk_pass :
    (f : Features) (c : Config)
    → Acceptable f c
    → (r : ℕ)
    → (if f.dpdk && str_eq c.general.backend "dpdk"
        then validate_dpdk (set_outstanding c r)
        else ok tt)
      ≡ ok tt
unfolding validate_dpdk
dpdk_pass f c h r = elim (Bool-cases (f.dpdk && str_eq c.general.backend "dpdk")) [
  | inl dpdk ↦ if_true _ dpdk ∙ sizes_pass c.general.packet_numel (h.packet_size (rw dpdk refl))
  | inr other ↦ if_false _ other
]

-- Validate returns, and does not end the process, on every configuration that has a worker thread, at
-- least one outstanding packet for each, for the DPDK and the RDMA backend packets of 256 or 64
-- elements, and for RDMA messages of one packet or more.
pub validate-Acceptable :
    (f : Features) (c : Config) → Acceptable f c → (c' : Config) × (validate f c ≡ ok c')
unfolding validate
validate-Acceptable f c h =
    let (r, e) = threads_pass f c h in
    let d = set_outstanding c r in
    let pass = dpdk_pass f c h r in
    elim (Bool-cases (f.rdma && str_eq c.general.backend "rdma")) [
      | inl rdma ↦
          let (c', e') = rdma_pass d (h.packet_size (rdma_named f c rdma)) (h.one_packet rdma) in
          (c', bind_ok _ e (bind_ok _ pass (if_true _ rdma ∙ e')))
      | inr other ↦ (d, bind_ok _ e (bind_ok _ pass (if_false _ other)))
    ]
