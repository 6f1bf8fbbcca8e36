-- ===== src/Config/Tests.antt =====
-- The loading of one configuration file, and the validation of one configuration.
use Prim.Native.String.{String}
use text.Mathlib.Text.{◌==◌ as str_eq}
use p4app_switch_ml.Prelude.{
  none, some, if◌then◌else◌, ◌⊎◌, ◌≡◌, ◌↔◌, refl, true, false, inl, arith, ℕ,
}
use p4app_switch_ml.Outcome.{ok, ◌>>=◌}
use p4app_switch_ml.Config.{
  Config, Features, set_outstanding, validate, validate_threads, validate_rdma, whole_packets,
  whole_messages, round_outstanding,
}
use p4app_switch_ml.Config.Load.{
  Settings, Files, load_from_file, open_config_file, open_host_file, load_opened, notify_options,
  general_options, rdma_options, dummy_options, default_value, default_path3,
}
use p4app_switch_ml.Config.Load.Found.{candidates, first_good, load_from_file_lem}
use p4app_switch_ml.Config.Load.Defaults.{unset_packet_numel}
use p4app_switch_ml.Config.Rounding.{Rounded}
use p4app_switch_ml.Config.Validated.{RdmaReady}
use p4app_switch_ml.Config.Checks.{accepted_lem}
use p4app_switch_ml.Config.Accepted.{Fits, Acceptable, validate-RdmaReady}

abbrev pub features : Features
features = record { dpdk = false; rdma = true; dummy = true; timeouts = true }

-- 256 outstanding packets for 3 threads, in messages of 1000 elements.
abbrev pub asked : Config
asked = record {
  general = record {
    rank = 0;
    num_workers = 2;
    num_worker_threads = 3;
    max_outstanding_packets = 256;
    packet_numel = 256;
    backend = "rdma";
    scheduler = "fifo";
    prepostprocessor = "bypass";
    instant_job_completion = false;
    controller_ip_str = "127.0.0.1";
    controller_port = 50099;
    timeout = 10;
    timeout_threshold = 100;
    timeout_threshold_increment = 100;
  };
  dpdk = record {
    worker_port = 4000;
    worker_ip_str = "10.0.0.1";
    cores_str = "10-13";
    extra_eal_options = "";
    port_id = 0;
    pool_size = 32768;
    pool_cache_size = 128;
    burst_rx = 64;
    burst_tx = 64;
    bulk_drain_tx_us = 1;
  };
  rdma = record { msg_numel = 1000; device_name = "mlx5_0"; device_port_id = 1; gid_index = 3 };
  dummy = record { bandwidth = 100; process_packets = true };
}

-- 252 packets are 28 messages of 3 packets for every thread.
abbrev pub given : Config
given = record (set_outstanding asked 252) { rdma = record (asked.rdma) { msg_numel = 768 } }

pub validated : validate features asked ≡ ok given
unfolding validate validate_threads validate_rdma whole_packets whole_messages round_outstanding
validated = refl

pub asked-Fits : Fits asked
asked-Fits = record { msg_numel = omega arith; rounded = omega arith; twice = omega arith }

asked-Acceptable : Acceptable features asked
asked-Acceptable = record {
  threads = omega arith;
  some = omega arith;
  packet_size = λ h. inl refl;
  one_packet = λ h. omega arith;
}

validate-RdmaReady_example : (r : ℕ) × Rounded 256 3 r × RdmaReady given 1000 r
validate-RdmaReady_example = validate-RdmaReady features asked asked-Fits refl refl validated

accepted_lem_example : ((c : Config) × (validate features asked ≡ ok c)) ↔ Acceptable features asked
accepted_lem_example = accepted_lem features asked

returned : (c : Config) × (validate features asked ≡ ok c)
returned = (accepted_lem features asked).1 asked-Acceptable

-- The host `node1` has only its own file, which chooses RDMA with packets of 64 elements.
abbrev pub settings : Settings
settings = record {
  number = λ name. if str_eq name "general.packet_numel" then some 64 else none;
  text = λ name. if str_eq name "general.backend" then some "rdma" else none;
  flag = λ name. none;
}

abbrev pub node_files : Files
node_files = record {
  good = λ path. str_eq path "switchml-node1.cfg";
  hostname = some "node1";
  parse_config_file = λ path. ok settings;
}

abbrev pub loaded : Config
loaded = record asked {
  general = record {
    rank = 0;
    num_workers = 1;
    num_worker_threads = 4;
    max_outstanding_packets = 256;
    packet_numel = 64;
    backend = "rdma";
    scheduler = "fifo";
    prepostprocessor = "cpu_exponent_quantizer";
    instant_job_completion = false;
    controller_ip_str = "127.0.0.1";
    controller_port = 50099;
    timeout = 10;
    timeout_threshold = 100;
    timeout_threshold_increment = 100;
  };
  rdma = record { msg_numel = 1024; device_name = "mlx5_0"; device_port_id = 1; gid_index = 3 };
  dummy = record { bandwidth = 1000; process_packets = true };
}

load_node : load_from_file features node_files asked "" ≡ ok (loaded, true)
unfolding load_from_file open_config_file open_host_file load_opened notify_options general_options
    rdma_options dummy_options default_value default_path3
load_node = refl

load_from_file_lem_example :
    (first_good node_files.good (candidates "" "node1") ≡ none
      × (load_from_file features node_files asked "" ≡ ok (asked, false)))
    ⊎ ((file : String) × (first_good node_files.good (candidates "" "node1") ≡ some file)
        × (load_from_file features node_files asked "" ≡ (
            node_files.parse_config_file file >>= λ s. ok (notify_options features s asked, true))))
load_from_file_lem_example = load_from_file_lem features node_files asked "" "node1" refl

-- The same file without the size of the packets.
abbrev pub short_settings : Settings
short_settings = record settings { number = λ name. none }

unset_packet_numel_example :
    ¬ (validate features (notify_options features short_settings asked) ≡ ok given)
unset_packet_numel_example = unset_packet_numel features short_settings asked given refl refl refl
