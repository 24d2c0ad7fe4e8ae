-- ===== src/Scheduler/Allocation/Capacity.antt =====
-- The loads that `allocate` of csrc/runtime/Scheduler.cpp leaves.
use mccl.Base.{
  ℕ, suc, ◌≤◌, ◌≡◌, refl, true, Option, none, some, List, [], ◌∷◌, ◌++◌, arith, get_elem?, set, All,
}
use mccl.Scheduler.Types.{Job, NodeLoad}
use mccl.Scheduler.Allocation.{node_has_room, charged, charge_node, allocate_loop, allocate}

-- Every node's memory is within the capacity.
abbrev pub Within : ℕ → List NodeLoad → Type 0
Within cap = All (λ l. l.memory_used ≤ cap)

set-Within :
    (cap n : ℕ) (l : NodeLoad) (loads : List NodeLoad)
    → l.memory_used ≤ cap
    → Within cap loads
    → Within cap (set loads n l)
set-Within cap n l [] h w = tt
set-Within cap ℕ.zero l (x ∷ loads) h w = (h, w.1)
set-Within cap (suc n) l (x ∷ loads) h w = (w.0, set-Within cap n l loads h w.1)

pub charge_node-Within :
    (cap need n : ℕ) (loads : List NodeLoad)
    → node_has_room cap need loads n ≡ true
    → Within cap loads
    → Within cap (charge_node need n loads)
unfolding node_has_room charge_node
charge_node-Within cap need n loads h w = go (get_elem? loads n) refl
  where
    go : (o : Option NodeLoad) → get_elem? loads n ≡ o → Within cap (charge_node need n loads)
    go none e = rw (e, charge_node) w
    go (some l) e =
        rw (e, charge_node) (set-Within cap n (charged need l) loads (ground (arith, e)) w)

allocate_loop-Within :
    (cap need requested : ℕ) (ns assigned : List ℕ) (loads : List NodeLoad)
    → Within cap loads
    → Within cap (allocate_loop cap need requested ns assigned loads).1
unfolding allocate_loop
allocate_loop-Within cap need requested [] assigned loads w = w
allocate_loop-Within cap need requested (n ∷ ns) assigned loads w = ground (
  arith,
  allocate_loop-Within cap need requested ns assigned loads w,
  allocate_loop-Within cap need requested ns (assigned ++ (n ∷ [])) (charge_node need n loads),
  charge_node-Within cap need n loads,
)

-- If no node is loaded beyond the capacity, none is after `allocate`, whatever the job asks for.
pub allocate-Within :
    (cap : ℕ) (job : Job) (online : List ℕ) (loads : List NodeLoad)
    → Within cap loads
    → Within cap (allocate cap job online loads).1
unfolding allocate
allocate-Within cap job online loads w =
    allocate_loop-Within cap job.memory_per_node job.requested_nodes online [] loads w
