-- ===== src/Config.antt =====
-- dev_root/client_lib/src/config.h and config.cc: the configuration and `Config::Validate`. The
-- backends that the library was compiled with (DPDK, RDMA, DUMMY, TIMEOUTS) are a record. `timeout` is
-- the whole number of milliseconds that the RDMA backend casts the source's `double` to, and
-- `bandwidth` the whole part of the source's `float`: `Validate` reads neither.
pub mod Rounding
pub mod Validated
pub mod Accepted
pub mod Checks
pub mod Load
pub mod Tests
use Prim.Native.String.{String}
use text.Mathlib.Text.{◌==◌ as str_eq}
use p4app_switch_ml.Prelude.{
  ℕ, ◌+◌, ◌-◌, ◌*◌, ◌/◌, ◌%◌, max, Bool, true, false, not, ◌&&◌, ltb, ◌==◌, if◌then◌else◌, u32_mod,
}
use p4app_switch_ml.Outcome.{Outcome, ok, fatal, undefined, crash_if, ◌>>=◌, ◌>>◌}

pub record Features : Type 0 where
  pub dpdk : Bool
  pub rdma : Bool
  pub dummy : Bool
  pub timeouts : Bool

pub record GeneralConfig : Type 0 where
  pub rank : ℕ
  pub num_workers : ℕ
  pub num_worker_threads : ℕ
  pub max_outstanding_packets : ℕ
  pub packet_numel : ℕ
  pub backend : String
  pub scheduler : String
  pub prepostprocessor : String
  pub instant_job_completion : Bool
  pub controller_ip_str : String
  pub controller_port : ℕ
  pub timeout : ℕ
  pub timeout_threshold : ℕ
  pub timeout_threshold_increment : ℕ

pub record DpdkBackendConfig : Type 0 where
  pub worker_port : ℕ
  pub worker_ip_str : String
  pub cores_str : String
  pub extra_eal_options : String
  pub port_id : ℕ
  pub pool_size : ℕ
  pub pool_cache_size : ℕ
  pub burst_rx : ℕ
  pub burst_tx : ℕ
  pub bulk_drain_tx_us : ℕ

pub record RdmaBackendConfig : Type 0 where
  pub msg_numel : ℕ
  pub device_name : String
  pub device_port_id : ℕ
  pub gid_index : ℕ

pub record DummyBackendConfig : Type 0 where
  pub bandwidth : ℕ
  pub process_packets : Bool

pub record Config : Type 0 where
  pub general : GeneralConfig
  pub dpdk : DpdkBackendConfig
  pub rdma : RdmaBackendConfig
  pub dummy : DummyBackendConfig

-- `operator=`.
unfoldable pub assign : Config → Config → Config
assign this other = record this {
  general = other.general;
  dpdk = other.dpdk;
  rdma = other.rdma;
  dummy = other.dummy;
}

-- Both places of `Validate` that round `max_outstanding_packets` (`mop`) to a multiple of `unit`: the
-- `per`-th multiple, or the one above where that is nearer. The subtractions do not wrap, since
-- `&&` looks at them only for `per * unit < mop`, and `(per + 1) * unit` is above `mop`.
unfoldable pub round_outstanding : ℕ → ℕ → ℕ → ℕ
round_outstanding mop per unit =
    if ltb (per * unit) mop && ltb ((per + 1) * unit - mop) (mop - per * unit)
    then (per + 1) * unit
    else per * unit

abbrev pub set_outstanding : Config → ℕ → Config
set_outstanding c mop = record c { general = record (c.general) { max_outstanding_packets = mop } }

-- What `Validate` does for every backend. The result is written to a `uint32_t`.
unfoldable pub validate_threads : Config → Outcome Config
validate_threads c =
    let mop = c.general.max_outstanding_packets in
    let n = c.general.num_worker_threads in
    do
      crash_if (n == 0) undefined
      crash_if (mop / n == 0) fatal
      ok (
          if mop % n == 0
          then c
          else set_outstanding c (round_outstanding mop (mop / n) n % u32_mod))

-- The part for DPDK.
unfoldable pub validate_dpdk : Config → Outcome (Unit {0})
validate_dpdk c =
    crash_if (not (c.general.packet_numel == 256) && not (c.general.packet_numel == 64)) fatal

-- `rdma.msg_numel` rounded down to whole packets.
unfoldable pub whole_packets : Config → Config
whole_packets c =
    let packet = c.general.packet_numel in
    if c.rdma.msg_numel % packet == 0 then c else record c {
      rdma = record (c.rdma) { msg_numel = c.rdma.msg_numel / packet * packet % u32_mod };
    }

-- `max_outstanding_packets` rounded to whole messages for every worker thread.
unfoldable pub whole_messages : Config → Config
whole_messages c =
    let mop = c.general.max_outstanding_packets in
    let unit = c.general.num_worker_threads * (c.rdma.msg_numel / c.general.packet_numel) in
    if mop % unit == 0
    then c
    else set_outstanding c (round_outstanding mop (max 1 (mop / unit)) unit % u32_mod)

-- The part for RDMA.
unfoldable pub validate_rdma : Config → Outcome Config
unfolding whole_packets whole_messages
validate_rdma c = do
  crash_if (not (c.general.packet_numel == 256) && not (c.general.packet_numel == 64)) fatal
  crash_if (ltb c.rdma.msg_numel c.general.packet_numel) fatal
  ok (whole_messages (whole_packets c))

unfoldable pub validate : Features → Config → Outcome Config
unfolding validate_threads validate_dpdk validate_rdma
validate f c = do
  c1 ← validate_threads c
  if f.dpdk && str_eq c1.general.backend "dpdk" then validate_dpdk c1 else ok tt
  if f.rdma && str_eq c1.general.backend "rdma" then validate_rdma c1 else ok c1
