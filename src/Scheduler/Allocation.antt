-- ===== src/Scheduler/Allocation.antt =====
-- `can_allocate` and `allocate` of csrc/runtime/Scheduler.cpp. The loads are a vector by node id.
pub mod Capacity
pub mod Exact
use mccl.Base.{
  ℕ, suc, ◌+◌, ◌%◌, ◌^◌, Bool, true, false, ◌||◌, Option, none, some, List, [], ◌∷◌, ◌++◌, length,
  get_elem?, set, ltb, leb, ◌==◌, if◌then◌else◌,
}
use mccl.Scheduler.Types.{Job, NodeLoad, add64}

-- `load.memory_used + job.memory_per_node <= config_.memory_per_node`; the sum has 64 bits.
abbrev pub has_room : ℕ → ℕ → NodeLoad → Bool
has_room cap need l = leb (add64 l.memory_used need) cap

-- A node that is beyond the loads is skipped.
unfoldable pub node_has_room : ℕ → ℕ → List NodeLoad → ℕ → Bool
node_has_room cap need loads n = elim (get_elem? loads n) [
  | none ↦ false
  | some l ↦ has_room cap need l
]

unfoldable pub available : ℕ → ℕ → List ℕ → List NodeLoad → ℕ
available cap need [] loads = 0
available cap need (n ∷ ns) loads =
    (if node_has_room cap need loads n then 1 else 0) + available cap need ns loads

unfoldable pub can_allocate : ℕ → Job → List ℕ → List NodeLoad → Bool
can_allocate cap job online loads =
    leb job.requested_nodes (available cap job.memory_per_node online loads)

-- The load of a node that takes the job.
abbrev pub charged : ℕ → NodeLoad → NodeLoad
charged need l = record l {
  memory_used = add64 l.memory_used need;
  active_jobs = l.active_jobs + 1;
}

unfoldable pub charge_node : ℕ → ℕ → List NodeLoad → List NodeLoad
charge_node need n loads = elim (get_elem? loads n) [
  | none ↦ loads
  | some l ↦ set loads n (charged need l)
]

-- The loop of `allocate`, which appends to `job.assigned_nodes`.
unfoldable pub allocate_loop : ℕ → ℕ → ℕ → List ℕ → List ℕ → List NodeLoad → List ℕ × List NodeLoad
allocate_loop cap need requested [] assigned loads = (assigned, loads)
allocate_loop cap need requested (n ∷ ns) assigned loads =
    let skip = allocate_loop cap need requested ns assigned loads in
    let take_it =
      allocate_loop cap need requested ns (assigned ++ (n ∷ [])) (charge_node need n loads) in
    if leb requested (length assigned)
    then (assigned, loads)
    else if node_has_room cap need loads n
    then take_it
    else skip

unfoldable pub allocate : ℕ → Job → List ℕ → List NodeLoad → Job × List NodeLoad
allocate cap job online loads =
    let (nodes, loads') =
      allocate_loop cap job.memory_per_node job.requested_nodes online [] loads in
    (record job { assigned_nodes = nodes }, loads')
