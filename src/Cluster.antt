-- ===== src/Cluster.antt =====
-- csrc/runtime/ClusterManager.hpp and ClusterManager.cpp: the membership of the cluster and its leader.
-- `now` is what `now_us()` returns in the call. `compute_capacity` is left out: nothing reads it. Node
-- ids are below 8, the length of `nodes`.
pub mod Leader
pub mod Counting
pub mod Failure
pub mod Services
pub mod Scheduling
mod Tests
use Prim.Native.String.{String}
use mccl.Base.{
  ℕ, zero, suc, ◌+◌, ◌-◌, ◌*◌, ◌%◌, ◌^◌, Bool, true, false, not, ◌&&◌, ◌||◌, Option, none, some,
  List, [], ◌∷◌, get_elem?, get_or, set, ltb, ◌==◌, if◌then◌else◌,
}
use mccl.Dmem.Catalog.{Entry, Catalog}
use mccl.Dmem.Catalog
use mccl.Scheduler.Types.{Job, JobPriority, pending, Scheduler, NodeLoad, sub64}
use mccl.Scheduler.Jobs
use mccl.Scheduler.Tick.{schedule_tick}

abbrev pub max_cluster_nodes : ℕ
max_cluster_nodes = 8

pub data NodeStatus : Type 0 where
  unknown online degraded offline : NodeStatus

pub record NodeInfo : Type 0 where
  pub node_id : ℕ
  pub hostname : String
  pub ip_address : String
  pub control_port : ℕ
  pub total_memory : ℕ
  pub free_memory : ℕ
  pub status : NodeStatus
  pub last_heartbeat_us : ℕ
  pub heartbeat_seq : ℕ

-- `NodeInfo{}`
abbrev pub no_node : NodeInfo
no_node = record {
  node_id = 0;
  hostname = "";
  ip_address = "";
  control_port = 9800;
  total_memory = 0;
  free_memory = 0;
  status = unknown;
  last_heartbeat_us = 0;
  heartbeat_seq = 0;
}

-- `online_count` is an `int`, kept as its 32 bits.
pub record ClusterState : Type 0 where
  pub nodes : List NodeInfo
  pub version : ℕ
  pub leader_id : ℕ
  pub online_count : ℕ

pub record ClusterManager : Type 0 where
  pub node_id : ℕ
  pub total_nodes : ℕ
  pub heartbeat_timeout_ms : ℕ
  pub state : ClusterState
  pub catalog : Catalog
  pub scheduler : Scheduler

abbrev pub inc32 : ℕ → ℕ
inc32 x = (x + 1) % 2 ^ 32

abbrev pub dec32 : ℕ → ℕ
dec32 x = (x + 2 ^ 32 - 1) % 2 ^ 32

abbrev pub inc64 : ℕ → ℕ
inc64 x = (x + 1) % 2 ^ 64

abbrev pub is_online : NodeInfo → Bool
is_online n = elim n.status [ online ↦ true | _ ↦ false ]

-- `state_.nodes[i]`
abbrev pub node_at : ℕ → List NodeInfo → NodeInfo
node_at i nodes = get_or nodes i no_node

-- The lowest online node from `i` on.
unfoldable pub first_online : List NodeInfo → ℕ → Option ℕ
first_online [] i = none
first_online (n ∷ ns) i = if is_online n then some i else first_online ns (i + 1)

-- `elect_leader`, at node `self`.
unfoldable pub elect_leader : ℕ → ClusterState → ClusterState
unfolding first_online
elect_leader self s = elim (first_online s.nodes 0) [
  | some i ↦ record s { leader_id = i }
  | none ↦ record s { leader_id = self }
]

abbrev pub with_state : ClusterManager → ClusterState → ClusterManager
with_state c s = record c { state = s }

unfoldable pub handle_join : ℕ → NodeInfo → ClusterManager → ClusterManager
unfolding elect_leader
handle_join now info c =
    let entry : NodeInfo = record info { status = online; last_heartbeat_us = now } in
    let s = c.state in
    with_state c (
      elect_leader c.node_id (record s {
        nodes = set s.nodes info.node_id entry;
        online_count = inc32 s.online_count;
        version = inc64 s.version;
      }))

-- The node is marked offline, and the count and the version follow.
abbrev pub mark_offline : ℕ → ClusterState → ClusterState
mark_offline id s = record s {
  nodes = set s.nodes id (record (node_at id s.nodes) { status = offline });
  online_count = dec32 s.online_count;
  version = inc64 s.version;
}

unfoldable pub handle_node_failure : ℕ → ℕ → ClusterManager → ClusterManager
unfolding elect_leader
handle_node_failure now failed c =
    let s = mark_offline failed c.state in
    record c {
      state = if s.leader_id == c.node_id then elect_leader c.node_id s else s;
      catalog = Catalog.remove_node failed c.catalog;
      scheduler = Jobs.evict_node now failed c.scheduler;
    }

-- `none` is a deadlock: `handle_node_failure` locks the mutex that the caller holds.
unfoldable pub handle_leave : ℕ → ClusterManager → Option ClusterManager
unfolding elect_leader
handle_leave id c =
    let s = elect_leader c.node_id (mark_offline id c.state) in
    let left = record c { state = s; catalog = Catalog.remove_node id c.catalog } in
    elim (node_at id c.state.nodes).status [
      | offline ↦ some c
      | _ ↦ if id == s.leader_id then none else some left
    ]

-- The entry that a heartbeat leaves, but for its status.
abbrev beat : ℕ → NodeInfo → NodeInfo → NodeInfo
beat now info entry = record entry {
  last_heartbeat_us = now;
  heartbeat_seq = info.heartbeat_seq;
  free_memory = info.free_memory;
}

unfoldable pub handle_heartbeat : ℕ → NodeInfo → ClusterManager → ClusterManager
handle_heartbeat now info c =
    let s = c.state in
    let entry = node_at info.node_id s.nodes in
    let fresh : NodeInfo = record (beat now info info) { status = online } in
    let known : NodeInfo = record (beat now info entry) { status = online } in
    with_state c (elim entry.status [
      | unknown ↦ record s { nodes = set s.nodes info.node_id fresh }
      | online ↦ record s { nodes = set s.nodes info.node_id known }
      | _ ↦ record s {
        nodes = set s.nodes info.node_id known;
        online_count = inc32 s.online_count;
        version = inc64 s.version;
      }
    ])

-- The online nodes from `i` on.
unfoldable pub online_from : List NodeInfo → ℕ → List ℕ
online_from [] i = []
online_from (n ∷ ns) i = let rest = online_from ns (i + 1) in if is_online n then i ∷ rest else rest

unfoldable pub online_nodes : ClusterManager → List ℕ
unfolding online_from
online_nodes c = online_from c.state.nodes 0

unfoldable pub node_info : ℕ → ClusterManager → Option NodeInfo
node_info id c = elim (get_elem? c.state.nodes id) [
  | none ↦ none
  | some n ↦ elim n.status [ unknown ↦ none | _ ↦ some n ]
]

unfoldable pub is_node_alive : ℕ → ClusterManager → Bool
is_node_alive id c = elim (get_elem? c.state.nodes id) [ none ↦ false | some n ↦ is_online n ]

unfoldable pub is_leader : ClusterManager → Bool
is_leader c = c.state.leader_id == c.node_id

abbrev pub leader_id : ClusterManager → ℕ
leader_id c = c.state.leader_id

abbrev pub get_state : ClusterManager → ClusterState
get_state c = c.state

-- The constructor of the manager of node `self`, below 8.
unfoldable pub init : ℕ → ℕ → ℕ → ℕ → ℕ → ClusterManager
init self total_nodes control_port timeout_ms memory_per_node =
    let me : NodeInfo = record no_node {
      node_id = self;
      status = online;
      hostname = "localhost";
      control_port = control_port;
    } in
    let blank =
      no_node ∷ no_node ∷ no_node ∷ no_node ∷ no_node ∷ no_node ∷ no_node ∷ no_node ∷ [] in
    record {
      node_id = self;
      total_nodes = total_nodes;
      heartbeat_timeout_ms = timeout_ms;
      state = record { nodes = set blank self me; version = 0; leader_id = self; online_count = 1 };
      catalog = record { entries = []; version = 0 };
      scheduler = Jobs.init (record {
        total_nodes = total_nodes;
        memory_per_node = memory_per_node;
        preemption_enabled = true;
      });
    }
