-- ===== src/RdmaConnection.antt =====
-- dev_root/client_lib/src/backends/rdma/rdma_connection.cc, how the RDMA connection splits its queue pairs
-- and its buffer among the worker threads, and the slots that rdma_worker_thread.cc computes from them.
-- The objects of ibverbs (queue pairs, completion queues) are of a type that is a parameter; the memory
-- region is its address and its length.
pub mod Bringup
pub mod Connected
pub mod Connects
pub mod Cluster
pub mod Shares
pub mod Slots
mod Tests
use p4app_switch_ml.Prelude.{
  take, drop, ℕ, zero, suc, ◌+◌, ◌*◌, ◌/◌, ◌%◌, Bool, true, false, not, ltb, ◌==◌, if◌then◌else◌,
  List, [], ◌∷◌, ◌++◌, map, length, Option, none, some, get_elem?, u16_mod, u32_mod, u64_mod,
}
use p4app_switch_ml.Outcome.{Outcome, ok, undefined, crash_if, ◌>>=◌, ◌>>◌}
use p4app_switch_ml.Config.{Config}

-- `mtu_`, of which `true` is IBV_MTU_1024.
unfoldable pub has_long_mtu : Config → Bool
has_long_mtu c = c.general.packet_numel == 256

abbrev pub packets_per_message : Config → ℕ
packets_per_message c = c.rdma.msg_numel / c.general.packet_numel

unfoldable pub num_queue_pairs : Config → ℕ
num_queue_pairs c = c.general.max_outstanding_packets / packets_per_message c

-- The size of the buffer, in 64 bits.
unfoldable pub buffer_size : Config → ℕ
buffer_size c = c.general.packet_numel * c.general.max_outstanding_packets * 4 % u64_mod

unfoldable pub qps_per_worker_thread : Config → ℕ
unfolding num_queue_pairs
qps_per_worker_thread c = num_queue_pairs c / c.general.num_worker_threads

-- `GetWorkerThreadQueuePairs` and `GetWorkerThreadRkeys`: the elements of a vector from `start` on, as
-- many as a worker thread has queue pairs. Iterators past the end of the vector are undefined behaviour.
unfoldable pub worker_thread_share {ℓ} : {A : Type ℓ} → Config → List A → ℕ → Outcome (List A)
worker_thread_share c xs tid =
    let qps = qps_per_worker_thread c in
    let start = qps * tid in
    do crash_if (ltb (length xs) (start + qps)) undefined; ok (take qps (drop start xs))

-- `GetWorkerThreadMemoryRegion`, the address.
unfoldable pub worker_thread_memory : Config → ℕ → ℕ → ℕ → ℕ
worker_thread_memory c address length tid =
    let bytes_per_worker_thread = length / c.general.num_worker_threads in
    (address + tid * bytes_per_worker_thread) % u64_mod

-- The completion queue of queue pair `i`, in `InitializeQueuePairs`.
unfoldable pub completion_queue_of : Config → ℕ → ℕ
completion_queue_of c i = i / qps_per_worker_thread c

-- rdma_worker_thread.cc: how many messages of a worker thread are outstanding at most, the size of a
-- message, and where the message of a queue pair stands in the buffer of the worker thread.
unfoldable pub max_outstanding_msgs : Config → ℕ
max_outstanding_msgs c =
    c.general.max_outstanding_packets / packets_per_message c / c.general.num_worker_threads

unfoldable pub msg_size : Config → ℕ
msg_size c = c.rdma.msg_numel * 4 % u32_mod

unfoldable pub message_start : Config → ℕ → ℕ → ℕ
unfolding msg_size
message_start c registered_buffer_ptr qpn = (registered_buffer_ptr + qpn * msg_size c) % u64_mod

-- The pool index of a queue pair of a worker thread that has `qps` of them, with the pool bit set.
unfoldable pub pool_index : Config → ℕ → ℕ → ℕ → ℕ
pool_index c qps tid qpn = ((qps * tid + qpn) * packets_per_message c * 2 + 1) % u16_mod
