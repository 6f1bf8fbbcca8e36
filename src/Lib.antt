-- ===== src/Lib.antt =====
-- The client library of SwitchML (dev_root/client_lib/src) sums tensors over several machines with
-- the help of a switch. An application submits a job (a tensor to sum) to the context; the context
-- queues it with the scheduler; every worker thread takes its slice of the job from the scheduler,
-- cuts it into packets or messages, moves these through the slots of its backend, and notifies the
-- scheduler; the notification of the last slice finishes the job. All paths below start at
-- dev_root/client_lib/src.
--
-- Parts, and the files that model them:
-- - Common: common.h, `DataType`, `Tensor` and `OffsetPtrs`. Pointers are byte addresses below 2 ^ 64.
-- - Barrier: utils.{h,cc}, `Barrier`. `arrive` is `Wait` up to the sleep, `may_leave` the predicate of
--   the sleep, `destroy` is `Destroy`; -1 in `count_` is `none`. Barrier/Threads interleaves the calls
--   of any number of threads, Barrier/Rounds has the invariant, Barrier/Safety the theorems.
-- - Job: job.{h,cc}, the status of a job and `WaitToComplete`.
-- - Scheduler: scheduler.{h,cc} and schedulers/fifo_scheduler.{h,cc}: `enqueue_job`, `take_slice`
--   (`GetJobSlice`), `notify_completion` and `drain` (`Stop`). Scheduler/Slices has the static slices.
-- - Dispatch: the worker threads at the scheduler, with the barrier and the jobs, in any interleaving until
--   Stop, as a relation of steps (`Step`). Dispatch/Books is what the scheduler notes of every job,
--   Slices and Endings the operations on it, Phases the counts of threads, Runs, Steps, Ends and Reached
--   the invariant, Promises and Progress the theorems.
-- - TimeoutQueue: backends/rdma/rdma_timeout_queue.{h,cc}, the linked list inside a vector with
--   `push`, `remove` and `check`. TimeoutQueue/Represents relates it to a list of indices.
-- - Config: config.{h,cc}, the configuration and `validate`. Config/Load is `LoadFromFile`.
--   Config/Rounding is about the rounding of the outstanding packets, Config/Validated, Accepted and Checks
--   about what is accepted.
-- - Bypass: prepostprocessors/bypass_ppp.h, how many transmission units a slice needs.
-- - Quantizer: prepostprocessors/cpu_exponent_quantizer_ppp.{h,cc}. Floats are bit patterns, and the
--   floating-point operations and those of the vector library are a parameter. Quantizer/Buffers has the
--   accesses to buffers, Vectors the vector operations, Maxima and Exponents are about the exponents, Builds
--   about the builds with and without vectors, RoundTrip about integers, and Extents, Sizes, Flight and
--   Factors about the runs.
-- - Dummy: backends/dummy/dummy_backend.{h,cc} and dummy_worker_thread.cc, the transfer of a slice.
--   `iterate` is a round of the receive and send loop, `receive_burst` the backend's ReceiveBurst,
--   `answer_packets` the reuse of the slots. Dummy/Chains, Bursts, Answers, Totals, Delivery, Rounds,
--   Loop and Ends hold the lemmas about the transfer.
-- - Dpdk: backends/dpdk/dpdk_worker_thread.cc and dpdk_worker_thread_utils.inc. `transfer` is a job slice,
--   `receive_packet` an iteration over the received packets, the network is the bursts that it delivers.
--   Dpdk/Once is about the packets postprocessed, Slots about the pool indices, Resend has the timers' callback.
-- - Addresses: backends/rdma/rdma_utils.h and backends/dpdk/dpdk_utils.cc, conversions of addresses.
-- - RdmaConnection: backends/rdma/rdma_connection.{h,cc} and rdma_worker_thread.cc, the shares of the
--   worker threads in the queue pairs, the buffer and the pool indices. RdmaConnection/Bringup is `connect`,
--   where the answers of ibverbs and of the controller are an `Environment`; RdmaConnection/Connected and
--   Connects are about the queue pairs of one worker, Cluster about all workers of a session, where a call
--   of the controller's barrier is assumed to wait for as many calls of every worker.
-- - RdmaEndpoint: backends/rdma/rdma_endpoint.{h,cc}, the device, its addresses and the memory region,
--   where the answers of ibverbs are parameters; RdmaEndpoint/Pages is about the size of the region.
-- - RdmaWorker: backends/rdma/rdma_worker_thread.cc, `post_send_wr` and the handling of one completion.
--   RdmaWorker/Loop has the whole of a job slice, `transfer`: the first batch and the rounds of the receive
--   loop, of which the completions, the times and the state of the context are an input. RdmaWorker/Waiting
--   is about the timers, Exact, Logs and Steps about one message, Rounds, Complete and Resends about the loop.
-- - Factories: backend.cc, scheduler.cc and prepostprocessor.cc, the choice of implementations by name.
-- - Stats: stats.{h,cc}. Context: context.{h,cc}, the states of the context, `start`, the parts of
--   `AllReduceAsync` and `NotifyJobSliceCompletion` that no other thread comes between, `get_job_slice` and
--   `stop_scheduler`; Context/Traffic interleaves them, and Context/Moves and Reached are about the counts.
-- - Outcome: how a call ends; glog's LOG(FATAL) and CHECK end the process, `at()` out of range throws.
-- - Prelude: names and lemmas that the parts share.
--
-- Numbers are natural numbers, and wrap where the source's type does. Shared state is passed on
-- explicitly; threads are interleaved at their locks. Loops are structural, but for the receive and
-- send loop of the dummy backend: it runs for a given number of rounds, since its `rand` may choose to
-- receive nothing for ever.
--
-- Not modelled: the switch program and its controller, ibverbs,
-- DPDK and gRPC calls, the printing of statistics, the loops of the worker threads over job slices,
-- the floating-point arithmetic itself, logging, and the integrations with PyTorch and NCCL.
mod Prelude
mod Outcome
pub mod Common
pub mod Barrier
pub mod Job
pub mod Scheduler
pub mod TimeoutQueue
pub mod Config
pub mod Addresses
pub mod RdmaConnection
pub mod RdmaEndpoint
pub mod RdmaWorker
pub mod Factories
pub mod Stats
pub mod Context
pub mod Quantizer
pub mod Dispatch
pub mod Dpdk
pub mod Bypass
pub mod Dummy
