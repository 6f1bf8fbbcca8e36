-- ===== src/Config/Load/Defaults.antt =====
-- What `Validate` makes of a configuration whose file leaves the packets to their defaults.
use text.Mathlib.Text.{◌==◌ as str_eq}
use p4app_switch_ml.Prelude.{
  true, ◌≡◌, refl, subst, sym, ◌∙◌, ap, if_true, if_false, ◌&&◌, ◌==◌, not, ◌/◌, ◌%◌, none, some,
  if◌then◌else◌, Bool-cases, inl, inr,
}
use p4app_switch_ml.Outcome.{ok, fatal, undefined, crash, crash_if, bind_returned}
use p4app_switch_ml.Config.{
  Config, Features, validate, validate_threads, validate_dpdk, validate_rdma,
}
use p4app_switch_ml.Config.Load.{Settings, notify_options, general_options, default_value}

ok_inj : {a b : Config} → ok a ≡ ok b → a ≡ b
ok_inj h = cc

-- The part for every backend leaves the size of the packets and the backend as they were.
validate_threads-keeps :
    (c : Config) {c1 : Config}
    → validate_threads c ≡ ok c1
    → (c1.general.packet_numel ≡ c.general.packet_numel) × (c1.general.backend ≡ c.general.backend)
unfolding validate_threads
validate_threads-keeps c {c1} h =
    let mop = c.general.max_outstanding_packets in
    let n = c.general.num_worker_threads in
    let (x, h1, e1) = bind_returned (crash_if (n == 0) undefined) _ h in
    let (y, h2, e2) = bind_returned (crash_if (mop / n == 0) fatal) _ h1 in
    let same = sym (ok_inj h2) in
    elim (Bool-cases (mop % n == 0)) [
      | inl even ↦
          let r = same ∙ if_true _ even in
          (ap (λ d. d.general.packet_numel) r, ap (λ d. d.general.backend) r)
      | inr odd ↦
          let r = same ∙ if_false _ odd in
          (ap (λ d. d.general.packet_numel) r, ap (λ d. d.general.backend) r)
    ]

crashed : {x : Unit {0}} → ¬ (crash fatal ≡ ok x)
crashed h = cc

wrong_size :
    (c : Config) {c1 : Config} → c.general.packet_numel ≡ 1024 → ¬ (validate_rdma c ≡ ok c1)
unfolding validate_rdma
wrong_size c {c1} e h =
    let (x, h1, e1) =
      bind_returned
        (crash_if (not (c.general.packet_numel == 256) && not (c.general.packet_numel == 64)) fatal)
        _ h in
    crashed (subst (λ n. crash_if (not (n == 256) && not (n == 64)) fatal ≡ ok x) e e1)

-- What LoadFromFile fills in for such a file.
notified :
    (f : Features) (s : Settings) (c : Config)
    → s.text "general.backend" ≡ some "rdma"
    → s.number "general.packet_numel" ≡ none
    → ((notify_options f s c).general.packet_numel ≡ 1024)
      × ((notify_options f s c).general.backend ≡ "rdma")
unfolding notify_options general_options default_value
notified f s c backend unset = elim (Bool-cases f.timeouts) [
  | inl on ↦ (rw (on, unset) refl, rw (on, backend) refl)
  | inr off ↦ (rw (off, unset) refl, rw (off, backend) refl)
]

-- Where the library has the RDMA backend and a file chooses it and does not set
-- `general.packet_numel`, Validate does not accept the configuration that LoadFromFile fills in,
-- whatever else the file sets: the default of 1024 elements is neither 256 nor 64.
pub unset_packet_numel :
    (f : Features) (s : Settings) (c c' : Config)
    → f.rdma ≡ true
    → s.text "general.backend" ≡ some "rdma"
    → s.number "general.packet_numel" ≡ none
    → ¬ (validate f (notify_options f s c) ≡ ok c')
unfolding validate
unset_packet_numel f s c c' rdma backend unset h =
    let loaded = notify_options f s c in
    let (c1, h1, e1) = bind_returned (validate_threads loaded) _ h in
    let (x, h2, e2) =
      bind_returned (if f.dpdk && str_eq c1.general.backend "dpdk" then validate_dpdk c1 else ok tt)
        _ h1 in
    let (packet, name) = validate_threads-keeps loaded e1 in
    let (packet_default, chosen) = notified f s c backend unset in
    let used : f.rdma && str_eq c1.general.backend "rdma" ≡ true = rw (rdma, name, chosen) refl in
    wrong_size c1 (packet ∙ packet_default) (sym (if_true _ used) ∙ h2)
