-- ===== src/Config/Checks.antt =====
-- Exactly which configurations `Config::Validate` accepts.
use p4app_switch_ml.Prelude.{
  ℕ, subst, ◌/◌, ◌%◌, ◌≤◌, ◌<◌, ◌≡◌, ◌↔◌, sym, ◌∙◌, ◌⊎◌, inl, inr, Bool, false, true, not, ◌&&◌,
  ◌||◌, ltb, arith, if_true, if_false, Bool-cases, ◌==◌, if◌then◌else◌,
}
use text.Mathlib.Text.{◌==◌ as str_eq}
use p4app_switch_ml.Outcome.{ok, bind_returned, crash_if, fatal, undefined}
use p4app_switch_ml.Config.{
  Config, Features, set_outstanding, validate_threads, validate_dpdk, validate_rdma, validate,
}
use p4app_switch_ml.Config.Accepted.{Acceptable, validate-Acceptable}

ok_inj : {a b : Config} → ok a ≡ ok b → a ≡ b
ok_inj h = cc

-- What the part for every backend has checked, and that it changes the outstanding packets only.
threads_checked :
    (c : Config) {c1 : Config}
    → validate_threads c ≡ ok c1
    → (0 < c.general.num_worker_threads)
      × (1 ≤ c.general.max_outstanding_packets / c.general.num_worker_threads)
      × ((r : ℕ) × (c1 ≡ set_outstanding c r))
unfolding validate_threads
threads_checked c {c1} h =
    let mop = c.general.max_outstanding_packets in
    let n = c.general.num_worker_threads in
    let (x, h1, e1) = bind_returned (crash_if (n == 0) undefined) _ h in
    let (y, h2, e2) = bind_returned (crash_if (mop / n == 0) fatal) _ h1 in
    let same = sym (ok_inj h2) in
    (
      ground (arith, e1),
      ground (arith, e2),
      elim (Bool-cases (mop % n == 0)) [
        | inl even ↦ (mop, same ∙ if_true _ even)
        | inr odd ↦ (_, same ∙ if_false _ odd)
      ],
    )

sizes_checked :
    (packet : ℕ) {x : Unit {0}}
    → crash_if (not (packet == 256) && not (packet == 64)) fatal ≡ ok x
    → (packet ≡ 256) ⊎ (packet ≡ 64)
sizes_checked packet h = ground (arith, h)

rdma_checked :
    (c : Config) {c' : Config}
    → validate_rdma c ≡ ok c'
    → ((c.general.packet_numel ≡ 256) ⊎ (c.general.packet_numel ≡ 64))
      × (c.general.packet_numel ≤ c.rdma.msg_numel)
unfolding validate_rdma
rdma_checked c h =
    let packet = c.general.packet_numel in
    let (x, h1, e1) =
      bind_returned (crash_if (not (packet == 256) && not (packet == 64)) fatal) _ h in
    let (y, h2, e2) = bind_returned (crash_if (ltb c.rdma.msg_numel packet) fatal) _ h1 in
    (sizes_checked packet e1, ground (arith, e2))

second_of : (a b : Bool) → a ≡ false → a || b ≡ true → b ≡ true
second_of true b e h = cc
second_of false b e h = h

checked-Acceptable :
    (f : Features) (c : Config) (r : ℕ) {x : Unit {0}} {c' : Config}
    → 0 < c.general.num_worker_threads
    → 1 ≤ c.general.max_outstanding_packets / c.general.num_worker_threads
    → (if f.dpdk && str_eq c.general.backend "dpdk"
        then validate_dpdk (set_outstanding c r)
        else ok tt)
      ≡ ok x
    → (if f.rdma && str_eq c.general.backend "rdma"
        then validate_rdma (set_outstanding c r)
        else ok (set_outstanding c r))
      ≡ ok c'
    → Acceptable f c
unfolding validate_dpdk
checked-Acceptable f c r threads some dpdk rdma =
    let d = set_outstanding c r in
    record {
      threads = threads;
      some = some;
      packet_size = λ chosen. elim (Bool-cases (f.dpdk && str_eq c.general.backend "dpdk")) [
        | inl named ↦ sizes_checked c.general.packet_numel (sym (if_true _ named) ∙ dpdk)
        | inr unnamed ↦ (rdma_checked d (sym (if_true _ (second_of _ _ unnamed chosen)) ∙ rdma)).0
      ];
      one_packet = λ chosen. (rdma_checked d (sym (if_true _ chosen) ∙ rdma)).1;
    }

-- Validate returns a configuration, and does not end the process, exactly for those configurations that
-- have a worker thread, at least one outstanding packet for each, for the DPDK and the RDMA backend
-- packets of 256 or 64 elements, and for RDMA messages of one packet or more.
pub accepted_lem :
    (f : Features) (c : Config) → ((c' : Config) × (validate f c ≡ ok c')) ↔ Acceptable f c
unfolding validate
accepted_lem f c = (
  λ (c', h).
      let (c1, h1, e1) = bind_returned (validate_threads c) _ h in
      let (x, h2, e2) =
        bind_returned
          (if f.dpdk && str_eq c1.general.backend "dpdk" then validate_dpdk c1 else ok tt) _ h1 in
      let (threads, some, (r, same)) = threads_checked c e1 in
      checked-Acceptable f c r threads some
        (subst
          (λ d.
            (if f.dpdk && str_eq d.general.backend "dpdk" then validate_dpdk d else ok tt) ≡ ok x)
          same e2)
        (subst
          (λ d.
            (if f.rdma && str_eq d.general.backend "rdma" then validate_rdma d else ok d) ≡ ok c')
          same h2),
  λ h. validate-Acceptable f c h,
)
