-- ===== src/Lib.antt =====
-- The verification of the core of mccl, a collective-communication and distributed-memory library for
-- clusters of Apple machines. Paths are those of the repository.
--
-- The parts and how they interact. A cluster manager (csrc/runtime/ClusterManager.cpp) keeps the nodes'
-- states, elects a leader, and owns the memory catalog and the scheduler: a node that fails loses its
-- catalog entries and its jobs. The memory manager (csrc/dmem) registers regions, publishes them in the
-- catalog, resolves global addresses and copies to them in chunks. The coherence protocol
-- (csrc/coherence) sends its messages through the memory manager: a home node handles requests for
-- pages against a directory, the other nodes cache pages. The allreduce algorithms
-- (csrc/backend/AllreduceAlgos.cpp) work on the chunks of a tensor, one for each rank, and the memory
-- pool (csrc/runtime/MemoryPool.cpp) lends the staging buffers. The process group
-- (csrc/backend/ProcessGroupMCCL.cpp) chooses among the algorithms and adds the other collectives; it
-- hands its tasks to a queue (csrc/backend/Progress.cpp) that completes their work objects, and sends
-- over a mesh of sockets (csrc/backend/PeerMesh.cpp). The runtime (csrc/runtime) divides shader
-- dispatches over agents (csrc/agent), which answer commands. The ranks of a process group meet through a
-- shared store (csrc/runtime/Rendezvous.cpp), and the memory manager reaches its peers over connections
-- and registered buffers (csrc/transport/rdma).
--
-- Which file models which part:
--   Base and its children: tests on numbers, lists, association lists, bytes in memory.
--   Dmem/Address: GlobalAddress.hpp. Dmem/Catalog: MemoryCatalog.hpp and MemoryCatalog.cpp; an
--   operation of the class is the function of the same name on the record Catalog. Dmem/Manager:
--   DistributedMemoryManager.cpp, registration, resolution, put and get. Dmem/Completions: the polling
--   for completions and drain_pending of the same file. Dmem/Signals: its put_with_imm and fence.
--   Pool: MemoryPool.hpp and MemoryPool.cpp. Pool/Guards: the guards PooledBuffer and their moves.
--   Scheduler/Types, Jobs, Allocation, Tick: Scheduler.hpp and Scheduler.cpp; the members of the class
--   are the fields of the record Scheduler, and schedule_tick is the composition of its three loops;
--   it has no result where it pushes to the queue that it iterates over, which is undefined.
--   Allreduce/Chunks, Ring, Butterfly, Tree: chunkize, allreduce_ring, allreduce_butterfly and
--   allreduce_tree, for all ranks at once; Allreduce/Fold has their specification.
--   Collective/Choice: allreduce of ProcessGroupMCCL.cpp, its checks, its wire format, its choice
--   of the algorithm and the scratch buffer. Collective/Exchange: _allgather_base and
--   alltoall_base. Collective/ReduceScatter: _reduce_scatter_base. Collective/Lists: broadcast,
--   allgather, reduce_scatter and alltoall of lists of tensors. Collective/Messages: send and recv
--   with their headers.
--   Rendezvous: the loops of exchange_endpoints and barrier in Rendezvous.cpp, of the exchange in
--   PeerMesh.cpp and of the barrier of ProcessGroupMCCL.cpp, as steps of the ranks on a shared store;
--   Rendezvous/Keys has the keys that they set.
--   Transport/Connection: RdmaConnection.cpp. Transport/Peers: the connections of a process with their
--   moves. Transport/Destination: RdmaDestination. Transport/Buffer: SharedBuffer.cpp. The calls of the
--   driver are kept in Transport/Ledger.
--   Progress/Work: WorkMCCL.cpp and the task of async_submit_. Progress/Queue: Progress.cpp and
--   Progress/Engine: ProgressEngine.cpp, each a relation of the steps of its threads, one constructor
--   for each step that a thread can take, and a run is a sequence of them (Steps, in Base/Runs).
--   Mesh/Streams, Endpoint, Interfaces: read_all and write_all, the endpoints, the choice of addresses.
--   Runtime/Dispatch, Metrics: ShaderDispatch.hpp and Metrics.cpp.
--   Runtime/Agents: the agents of DistributedMetalRuntime.cpp, sync_all, and dispatch_data_parallel with
--   the calls of Coherence that it makes.
--   Agent: handle_connection of Agent.cpp; Agent/Session has the requests and their answers.
--   Coherence/Directory: CoherenceDirectory. Coherence/Node: messages, the state of a node and calls
--   that may throw. Coherence/Protocol: handle_message, and in
--   Coherence/Protocol/BarrierAll barrier_all. Coherence/Cache: the page cache and release.
--   Cluster: ClusterManager.cpp, the membership; Cluster/Services: its regions, jobs and rounds.
--   Cluster/Leader, Counting, Failure, Scheduling have the theorems of both.
--   The Tests modules run the code on small inputs.
--
-- Conventions. A number of w bits is a natural number, and what wraps is taken modulo 2^w. A mutex
-- makes an operation one step. A call that throws returns what it changed before, or none where it
-- changes nothing. The clock, std::sort, the comparison of doubles in the fair share,
-- posix_memalign, the answers of the driver and the NIC, the socket buffers, the conversion to 16
-- bits, the store, the text of a number and the reduction kernels are parameters. The loop of
-- put_chunked and get_chunked runs on as many rounds as the length has staging buffers, and one
-- more, which is enough. The loops of the tree have the number of ranks for fuel, since their masks
-- double up to it, the agent's loop has more fuel than requests, and drain_pending ends in two
-- rounds. All other loops are structural. Collectives are modelled for all ranks at once: a result
-- is that of every rank, and there is none if a rank would wait for a message that is not sent.
-- Where the threads of two ranks both send before they receive, what the socket buffers hold is a
-- parameter, and there is no result if both block. A thread that waits on a condition variable goes
-- on only after a notification.
--
-- Not modelled: sockets and their handshakes, the verbs and Metal libraries and the loading of
-- their tables, the staging of tensors and the Python package, since they are I/O or glue for
-- libraries; the pipeline dispatch, whose transfers have a null destination; the start and end of
-- the threads, the poller's thread of the memory manager, and the registration of the message
-- buffers in the coherence protocol's start.
pub mod Base
pub mod Dmem
pub mod Pool
pub mod Scheduler
pub mod Allreduce
pub mod Collective
pub mod Progress
pub mod Mesh
pub mod Runtime
pub mod Agent
pub mod Transport
pub mod Rendezvous
pub mod Coherence
pub mod Cluster
