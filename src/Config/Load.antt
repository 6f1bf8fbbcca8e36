-- ===== src/Config/Load.antt =====
-- dev_root/client_lib/src/config.cc: `Config::LoadFromFile`. The files, the host's name and what
-- boost::program_options reads in a file are parameters; `notify` stores for every option the value
-- of the file or, where the file does not set the option, its default value. The `double` 10 of
-- `general.timeout` and the `float` 1000.0 of `backend.dummy.bandwidth` are whole numbers here.
pub mod Found
pub mod Defaults
use Prim.Native.String.{String, ◌++◌ as append}
use text.Mathlib.Text.{◌==◌ as str_eq}
use p4app_switch_ml.Prelude.{ℕ, Bool, true, false, Option, none, some, ◌*◌, if◌then◌else◌}
use p4app_switch_ml.Outcome.{Outcome, ok, crash, fatal, ◌>>=◌}
use p4app_switch_ml.Config.{
  Config, Features, GeneralConfig, DpdkBackendConfig, RdmaBackendConfig, DummyBackendConfig,
}

-- What a file sets, by the option's name, in the option's type.
pub record Settings : Type 0 where
  pub number : String → Option ℕ
  pub text : String → Option String
  pub flag : String → Option Bool

-- `ifs.good()` after opening a path, `gethostname` where it succeeds, and `parse_config_file`, which
-- throws on a file that it cannot read.
pub record Files : Type 0 where
  pub good : String → Bool
  pub hostname : Option String
  pub parse_config_file : String → Outcome Settings

unfoldable pub default_value {ℓ} : {A : Type ℓ} → A → Option A → A
default_value d none = d
default_value d (some v) = v

abbrev pub timeout_options : Settings → GeneralConfig → GeneralConfig
timeout_options s c = record c {
  timeout = default_value 10 (s.number "general.timeout");
  timeout_threshold = default_value 100 (s.number "general.timeout_threshold");
  timeout_threshold_increment = default_value 100 (s.number "general.timeout_threshold_increment");
}

unfoldable pub general_options : Features → Settings → GeneralConfig → GeneralConfig
unfolding default_value
general_options f s old =
    let c : GeneralConfig = record old {
      rank = default_value 0 (s.number "general.rank");
      num_workers = default_value 1 (s.number "general.num_workers");
      num_worker_threads = default_value 4 (s.number "general.num_worker_threads");
      max_outstanding_packets = default_value 256 (s.number "general.max_outstanding_packets");
      packet_numel = default_value 1024 (s.number "general.packet_numel");
      backend = default_value "dummy" (s.text "general.backend");
      scheduler = default_value "fifo" (s.text "general.scheduler");
      prepostprocessor = default_value "cpu_exponent_quantizer" (s.text "general.prepostprocessor");
      instant_job_completion = default_value false (s.flag "general.instant_job_completion");
      controller_ip_str = default_value "127.0.0.1" (s.text "general.controller_ip");
      controller_port = default_value 50099 (s.number "general.controller_port");
    } in
    if f.timeouts then timeout_options s c else c

unfoldable pub dummy_options : Settings → DummyBackendConfig
unfolding default_value
dummy_options s = record {
  bandwidth = default_value 1000 (s.number "backend.dummy.bandwidth");
  process_packets = default_value true (s.flag "backend.dummy.process_packets");
}

unfoldable pub dpdk_options : Settings → DpdkBackendConfig
unfolding default_value
dpdk_options s = record {
  worker_port = default_value 4000 (s.number "backend.dpdk.worker_port");
  worker_ip_str = default_value "10.0.0.1" (s.text "backend.dpdk.worker_ip");
  cores_str = default_value "0-3" (s.text "backend.dpdk.cores");
  extra_eal_options = default_value "" (s.text "backend.dpdk.extra_eal_options");
  port_id = default_value 0 (s.number "backend.dpdk.port_id");
  pool_size = default_value (8192 * 32) (s.number "backend.dpdk.pool_size");
  pool_cache_size = default_value (256 * 2) (s.number "backend.dpdk.pool_cache_size");
  burst_rx = default_value 64 (s.number "backend.dpdk.burst_rx");
  burst_tx = default_value 64 (s.number "backend.dpdk.burst_tx");
  bulk_drain_tx_us = default_value 100 (s.number "backend.dpdk.bulk_drain_tx_us");
}

unfoldable pub rdma_options : Settings → RdmaBackendConfig
unfolding default_value
rdma_options s = record {
  msg_numel = default_value 1024 (s.number "backend.rdma.msg_numel");
  device_name = default_value "mlx5_0" (s.text "backend.rdma.device_name");
  device_port_id = default_value 1 (s.number "backend.rdma.device_port_id");
  gid_index = default_value 3 (s.number "backend.rdma.gid_index");
}

-- `po::notify`: the options that the library was compiled with.
unfoldable pub notify_options : Features → Settings → Config → Config
unfolding general_options dummy_options dpdk_options rdma_options
notify_options f s c = record c {
  general = general_options f s c.general;
  dpdk = if f.dpdk then dpdk_options s else c.dpdk;
  rdma = if f.rdma then rdma_options s else c.rdma;
  dummy = if f.dummy then dummy_options s else c.dummy;
}

abbrev pub default_path1 : String
default_path1 = "/etc/switchml.cfg"

abbrev pub default_path2 : String
default_path2 = "switchml.cfg"

unfoldable pub default_path3 : String → String
default_path3 hostname = append (append "switchml-" hostname) ".cfg"

-- The last default path, with the name of the host.
unfoldable pub open_host_file : Files → Option String → Outcome (Option String)
open_host_file files none = crash fatal
open_host_file files (some hostname) =
    ok (if files.good (default_path3 hostname) then some (default_path3 hostname) else none)

-- The path of the file that `ifs` has open, or none where no file could be opened.
unfoldable pub open_config_file : Files → String → Outcome (Option String)
unfolding open_host_file
open_config_file files path =
    if str_eq path ""
    then if files.good default_path1
      then ok (some default_path1)
      else if files.good default_path2
      then ok (some default_path2)
      else open_host_file files files.hostname
    else ok (if files.good path then some path else none)

unfoldable pub load_opened : Features → Files → Config → Option String → Outcome (Config × Bool)
unfolding notify_options
load_opened f files c none = ok (c, false)
load_opened f files c (some file) = do
  s ← files.parse_config_file file
  ok (notify_options f s c, true)

unfoldable pub load_from_file : Features → Files → Config → String → Outcome (Config × Bool)
unfolding open_config_file load_opened
load_from_file f files c path = do
  opened ← open_config_file files path
  load_opened f files c opened
