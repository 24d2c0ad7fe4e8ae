-- ===== src/Cluster/Tests.antt =====
-- Runs of csrc/runtime/ClusterManager.cpp.
use mccl.Base.{stay, go, refl, arith}
use mccl.Scheduler.Jobs
use mccl.Scheduler.Jobs.Lifecycle.{IsValid}
use mccl.Cluster.{
  NodeInfo, no_node, ClusterManager, elect_leader, init, handle_join, handle_node_failure,
}
use mccl.Cluster.Counting.{Step, join, fail, Steps-IsCounted, IsCounted, count_online}

-- The manager of node 1 of three, alone, and after node 0 has joined.
abbrev alone : ClusterManager
alone = init 1 3 9800 2000 100

abbrev peer : NodeInfo
peer = record no_node { node_id = 0; total_memory = 100; free_memory = 60; heartbeat_seq = 4 }

abbrev both : ClusterManager
both = handle_join 5 peer alone

alone-IsCounted : IsCounted alone.state
unfolding init count_online
alone-IsCounted = record { eight = refl; counted = refl }

alone-IsValid : IsValid alone.scheduler
unfolding init Jobs.init
alone-IsValid = record { once = λ i. omega arith; fresh = λ i h. refl }

-- Node 0 joins and fails.
Steps-IsCounted_example : IsCounted (handle_node_failure 9 0 both).state
unfolding init handle_join elect_leader
Steps-IsCounted_example =
    let joined : Step alone both = join 5 peer (omega arith) refl in
    let failed : Step both (handle_node_failure 9 0 both) = fail 9 0 (omega arith) refl in
    Steps-IsCounted alone (handle_node_failure 9 0 both)
      (go alone both _ joined (go both _ _ failed (stay _))) alone-IsCounted
