-- ===== src/RdmaEndpoint.antt =====
-- dev_root/client_lib/src/backends/rdma/rdma_endpoint.{h,cc}: the device and its port, and the memory
-- region at a requested address, and what queues are asked for. What ibverbs, `mmap`, `gethugepagesize` and the time stamp counter
-- answer is a parameter; a query gives none where its result is negative. Freeing the device list, and
-- closing the device, have no answer that the class keeps.
pub mod Pages
mod Tests
use Prim.Native.String.{String}
use text.Mathlib.Text.{◌==◌ as str_eq}
use p4app_switch_ml.Prelude.{
  ℕ, zero, suc, ◌+◌, ◌-◌, ◌*◌, ◌/◌, ◌%◌, Bool, true, false, not, ◌&&◌, ◌||◌, ltb, ◌==◌,
  if◌then◌else◌, List, [], ◌∷◌, length, Option, none, some, u64_mod,
}
use p4app_switch_ml.Outcome.{Outcome, ok, crash, fatal, crash_if, ◌>>=◌, ◌>>◌}
use p4app_switch_ml.Addresses.{Gid, gid_to_mac, gid_to_ipv4}

-- The parts of `ibv_port_attr` and `ibv_device_attr` that are read.
pub record PortAttributes : Type 0 where
  pub gid_tbl_len : ℕ

-- A device of the list by its place in it.
pub record Verbs : Type 0 where
  pub device_names : Option (List String)
  pub open_device : ℕ → Bool
  pub phys_port_cnt : Option ℕ
  pub query_port : ℕ → Option PortAttributes
  pub query_gid : ℕ → ℕ → Option Gid
  pub alloc_pd : Bool
  pub rdtsc_start : ℕ
  pub rdtsc_end : ℕ

pub record RdmaEndpoint : Type 0 where
  pub device : ℕ
  pub device_port_id : ℕ
  pub port_attributes : PortAttributes
  pub gid_index : ℕ
  pub gid : Gid
  pub ticks_per_sec : ℕ

-- `CHECK` of a pointer, and `PCHECK` of a query.
unfoldable pub check_some {ℓ} : {A : Type ℓ} → Option A → Outcome A
check_some none = crash fatal
check_some (some v) = ok v

-- The loop over the devices, from device `i` on: the last device of the name, or the only device.
unfoldable pub search_device : ℕ → String → ℕ → List String → Option ℕ → Option ℕ
search_device num_devices device_name i [] found = found
search_device num_devices device_name i (name ∷ names) found =
    search_device num_devices device_name (i + 1) names
      (if num_devices == 1 || str_eq device_name name then some i else found)

-- The loop that logs the addresses of the port, from address `i` on.
unfoldable pub log_gids : Verbs → ℕ → ℕ → ℕ → Outcome (Unit {0})
unfolding check_some
log_gids v port i zero = ok tt
log_gids v port i (suc n) = do gid ← check_some (v.query_gid port i); log_gids v port (i + 1) n

-- Whether one of the bytes of `subnet_prefix` and `interface_id` is not 0: bytes 0 to `n` - 1.
unfoldable pub has_byte : Gid → ℕ → Bool
has_byte gid zero = false
has_byte gid (suc n) = not (gid n == 0) || has_byte gid n

unfoldable pub new_endpoint : Verbs → String → ℕ → ℕ → Outcome RdmaEndpoint
unfolding check_some search_device log_gids has_byte
new_endpoint v device_name device_port_id gid_index = do
  devices ← check_some v.device_names
  device ← check_some (search_device (length devices) device_name 0 devices none)
  crash_if (not (v.open_device device)) fatal
  phys_port_cnt ← check_some v.phys_port_cnt
  crash_if (ltb phys_port_cnt device_port_id) fatal
  port_attributes ← check_some (v.query_port device_port_id)
  log_gids v device_port_id 0 port_attributes.gid_tbl_len
  gid ← check_some (v.query_gid device_port_id gid_index)
  crash_if (not (has_byte gid 16)) fatal
  crash_if (not v.alloc_pd) fatal
  ok (record {
    device = device;
    device_port_id = device_port_id;
    port_attributes = port_attributes;
    gid_index = gid_index;
    gid = gid;
    ticks_per_sec = (v.rdtsc_end + u64_mod - v.rdtsc_start) % u64_mod;
  })

unfoldable pub get_mac : Verbs → RdmaEndpoint → Outcome ℕ
unfolding check_some
get_mac v e = do mac_gid ← check_some (v.query_gid e.device_port_id 0); ok (gid_to_mac mac_gid)

unfoldable pub get_ipv4 : Verbs → RdmaEndpoint → Outcome ℕ
unfolding check_some
get_ipv4 v e = do ipv4_gid ← check_some (v.query_gid e.device_port_id 2); ok (gid_to_ipv4 ipv4_gid)

-- `x & ~m` for numbers of the given width.
unfoldable pub and_not : ℕ → ℕ → ℕ → ℕ
and_not zero x m = 0
and_not (suc width) x m =
    (if x % 2 == 1 && m % 2 == 0 then 1 else 0) + 2 * and_not width (x / 2) (m / 2)

-- The size of the region, rounded up to huge pages.
unfoldable pub round_to_pages : ℕ → ℕ → ℕ
unfolding and_not
round_to_pages hugepagesize size =
    let less = (hugepagesize + u64_mod - 1) % u64_mod in and_not 64 ((size + less) % u64_mod) less

pub record MemoryRegion : Type 0 where
  pub addr : ℕ
  pub length : ℕ

-- `mmap` of an address and a size, none for `MAP_FAILED`, and whether `ibv_reg_mr` returns a region.
pub record Memory : Type 0 where
  pub hugepagesize : ℕ
  pub mmap : ℕ → ℕ → Option ℕ
  pub reg_mr : ℕ → ℕ → Bool

-- `AllocateAtAddress`. The check of the page size holds for every `size_t`.
unfoldable pub allocate_at_address : Memory → ℕ → ℕ → Outcome MemoryRegion
unfolding round_to_pages check_some
allocate_at_address m requested_address asked = do
  let size = round_to_pages m.hugepagesize asked
  buf ← check_some (m.mmap requested_address size)
  crash_if (not (buf == requested_address)) fatal
  crash_if (not (m.reg_mr buf size)) fatal
  ok (record { addr = buf; length = size })

-- What `CreateQueuePair` asks for.
pub record QueuePairAttributes : Type 0 where
  pub send_cq : ℕ
  pub recv_cq : ℕ
  pub unreliable_connection : Bool
  pub sq_sig_all : Bool
  pub max_send_wr : ℕ
  pub max_recv_wr : ℕ
  pub max_send_sge : ℕ
  pub max_recv_sge : ℕ
  pub max_inline_data : ℕ

abbrev pub completion_queue_depth : ℕ
completion_queue_depth = 4096

-- `CreateCompletionQueue`, where ibverbs creates the queue of a number, for a depth, or none.
unfoldable pub create_cq : (ℕ → Option ℕ) → Option ℕ
create_cq ibv_create_cq = ibv_create_cq completion_queue_depth

abbrev pub queue_pair_attributes : ℕ → QueuePairAttributes
queue_pair_attributes completion_queue = record {
  send_cq = completion_queue;
  recv_cq = completion_queue;
  unreliable_connection = true;
  sq_sig_all = false;
  max_send_wr = 2048;
  max_recv_wr = 2048;
  max_send_sge = 1;
  max_recv_sge = 1;
  max_inline_data = 16;
}

-- `CreateQueuePair`, where ibverbs creates the queue pair of a number or none.
unfoldable pub create_qp : (QueuePairAttributes → Option ℕ) → ℕ → Outcome ℕ
unfolding check_some
create_qp ibv_create_qp completion_queue =
    check_some (ibv_create_qp (queue_pair_attributes completion_queue))
