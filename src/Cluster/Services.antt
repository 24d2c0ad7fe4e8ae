-- ===== src/Cluster/Services.antt =====
-- What the manager of csrc/runtime/ClusterManager.cpp does with the catalog and the scheduler: the
-- regions that it publishes, a round of its monitor's loop over the nodes, the jobs that it submits, and a
-- round of its scheduler's loop.
use Prim.Native.String.{String}
use mccl.Base.{
  ℕ, zero, suc, ◌+◌, ◌*◌, Bool, true, false, not, ◌&&◌, Option, none, some, List, [], ◌∷◌, set, ltb,
  ◌==◌, if◌then◌else◌,
}
use mccl.Dmem.Catalog.{Entry, Catalog}
use mccl.Dmem.Catalog
use mccl.Scheduler.Types.{Job, JobPriority, pending, NodeLoad, sub64}
use mccl.Scheduler.Jobs
use mccl.Scheduler.Tick.{schedule_tick}
use mccl.Cluster.{
  online, degraded, NodeInfo, ClusterManager, node_at, handle_node_failure, online_nodes, node_info,
}

-- The entry goes by the region alone: `node_id` is not used.
unfoldable pub publish_region : ℕ → ℕ → ℕ → ℕ → ℕ → ClusterManager → ClusterManager
publish_region node_id region_id local_addr length rkey c = record c {
  catalog =
      Catalog.upsert region_id
        (record { local_addr = local_addr; length = length; rkey = rkey; flags = 0x03; epoch = 1 })
        c.catalog;
}

unfoldable pub lookup_region : ℕ → ℕ → ClusterManager → Option Entry
lookup_region node_id region_id c = Catalog.lookup node_id region_id c.catalog

unfoldable pub unpublish_region : ℕ → ℕ → ClusterManager → ClusterManager
unpublish_region node_id region_id c = record c { catalog = Catalog.remove region_id c.catalog }

-- One round of the monitor's loop over the nodes `i`, `i + 1`, … of which `k` are left.
abbrev is_watched : NodeInfo → Bool
is_watched n = elim n.status [ online ↦ true | degraded ↦ true | _ ↦ false ]

abbrev pub has_timed_out : ℕ → ℕ → NodeInfo → Bool
has_timed_out now timeout_ms n =
    is_watched n && ltb (timeout_ms * 1000) (sub64 now n.last_heartbeat_us)

unfoldable pub monitor_from : ℕ → ℕ → ℕ → ClusterManager → ClusterManager
unfolding handle_node_failure
monitor_from now zero i c = c
monitor_from now (suc k) i c =
    let node = node_at i c.state.nodes in
    let hit = not (i == c.node_id) && has_timed_out now c.heartbeat_timeout_ms node in
    monitor_from now k (i + 1) (if hit then handle_node_failure now node.node_id c else c)

unfoldable pub monitor_round : ℕ → ClusterManager → ClusterManager
unfolding monitor_from
monitor_round now c = monitor_from now c.total_nodes 0 c

-- The job that `submit_job` hands to the scheduler.
abbrev pub described : String → String → ℕ → ℕ → JobPriority → Job
described name owner nodes memory_per_node priority = record {
  job_id = 0;
  name = name;
  owner = owner;
  requested_nodes = nodes;
  memory_per_node = memory_per_node;
  priority = priority;
  status = pending;
  assigned_nodes = [];
  submitted_at_us = 0;
  started_at_us = 0;
  completed_at_us = 0;
}

unfoldable pub submit_job :
    ℕ → String → String → ℕ → ℕ → JobPriority → ClusterManager → ClusterManager × ℕ
submit_job now name owner nodes memory_per_node priority c =
    let (s, id) =
      Jobs.submit now (described name owner nodes memory_per_node priority) c.scheduler in
    (record c { scheduler = s }, id)

unfoldable pub cancel_job : ℕ → ℕ → ClusterManager → ClusterManager × Bool
cancel_job now id c =
    let (s, ok) = Jobs.cancel now id c.scheduler in (record c { scheduler = s }, ok)

unfoldable pub complete_job : ℕ → ℕ → Bool → ClusterManager → ClusterManager × Bool
complete_job now id success c =
    let (s, ok) = Jobs.complete now id success c.scheduler in (record c { scheduler = s }, ok)

abbrev pub pending_jobs : ClusterManager → List Job
pending_jobs c = Jobs.pending_jobs c.scheduler

abbrev pub active_jobs : ClusterManager → List Job
active_jobs c = Jobs.active_jobs c.scheduler

abbrev idle : NodeLoad
idle = record { memory_used = 0; active_jobs = 0 }

abbrev pub no_loads : List NodeLoad
no_loads = idle ∷ idle ∷ idle ∷ idle ∷ idle ∷ idle ∷ idle ∷ idle ∷ []

-- `loads[nid].memory_used = info->total_memory - info->free_memory` for each online node.
unfoldable pub node_loads : ClusterManager → List ℕ → List NodeLoad → List NodeLoad
unfolding node_info
node_loads c [] loads = loads
node_loads c (i ∷ is) loads = node_loads c is (elim (node_info i c) [
  | none ↦ loads
  | some n ↦
      set loads i (record { memory_used = sub64 n.total_memory n.free_memory; active_jobs = 0 })
])

-- One round of the scheduler's loop; none where its tick is undefined.
unfoldable pub scheduler_round :
    (List Job → List Job) → (ℕ → ℕ → ℕ → Bool) → (ℕ → ℕ) → ClusterManager → Option ClusterManager
unfolding online_nodes node_loads
scheduler_round sort below_share clock c =
    let up = online_nodes c in
    elim (schedule_tick sort below_share clock up (node_loads c up no_loads) c.scheduler) [
      | none ↦ none
      | some (s, loads, started) ↦ some (record c { scheduler = s })
    ]
