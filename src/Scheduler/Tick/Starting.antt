-- ===== src/Scheduler/Tick/Starting.antt =====
-- The loop of `schedule_tick` in csrc/runtime/Scheduler.cpp that starts jobs.
use mccl.Base.{
  ℕ, zero, suc, ◌==◌, ◌+◌, ◌^◌, ◌≤◌, ◌<◌, ◌≡◌, inl, inr, true, false, some, List, [], ◌∷◌, ◌++◌,
  arith, get_elem?, All, Bool-cases, Option-cases,
}
use mccl.Scheduler.Types.{Job, running, NodeLoad}
use mccl.Scheduler.Allocation.{
  node_has_room, available, can_allocate, charge_node, allocate_loop, allocate,
}
use mccl.Scheduler.Allocation.Capacity.{Within, charge_node-Within, allocate-Within}
use mccl.Scheduler.Allocation.Exact.{get_elem?-charge_node_self, get_elem?-charge_node_ne}
use mccl.Scheduler.Tick.{Round, start_loop}

-- A request for memory that cannot wrap beside a load within the capacity.
abbrev pub Modest : ℕ → ℕ → Type 0
Modest cap need = cap + need < 2 ^ 64

Within-get_elem? :
    (cap n : ℕ) (l : NodeLoad) (loads : List NodeLoad)
    → get_elem? loads n ≡ some l
    → Within cap loads
    → l.memory_used ≤ cap
Within-get_elem? cap n l [] e w = cc
Within-get_elem? cap zero l (x ∷ loads) e w = ground (arith, w.0)
Within-get_elem? cap (suc n) l (x ∷ loads) e w = Within-get_elem? cap n l loads e w.1

-- A node that has room for a job after another was charged had room before.
has_room_before :
    (cap need k n m : ℕ) (loads : List NodeLoad)
    → node_has_room cap k loads n ≡ true
    → Modest cap k
    → Modest cap need
    → Within cap loads
    → node_has_room cap need (charge_node k n loads) m ≡ true
    → node_has_room cap need loads m ≡ true
unfolding node_has_room
has_room_before cap need k n m loads h mk mn w r = elim (Option-cases (get_elem? loads n)) [
  | inl e ↦ ground (arith, e)
  | inr (l, e) ↦ elim (Bool-cases (n == m)) [
    | inl same ↦
        ground
          (arith, e, same, get_elem?-charge_node_self k n loads, Within-get_elem? cap n l loads e w)
    | inr other ↦ ground (arith, other, get_elem?-charge_node_ne k n m loads)
  ]
]

available-charge_node :
    (cap need k n : ℕ) (ns : List ℕ) (loads : List NodeLoad)
    → node_has_room cap k loads n ≡ true
    → Modest cap k
    → Modest cap need
    → Within cap loads
    → available cap need ns (charge_node k n loads) ≤ available cap need ns loads
unfolding available
available-charge_node cap need k n [] loads h mk mn w = omega arith
available-charge_node cap need k n (m ∷ ns) loads h mk mn w = ground (
  arith,
  available-charge_node cap need k n ns loads h mk mn w,
  has_room_before cap need k n m loads h mk mn w,
)

available-allocate_loop :
    (cap need k requested : ℕ) (online ns assigned : List ℕ) (loads : List NodeLoad)
    → Modest cap k
    → Modest cap need
    → Within cap loads
    → available cap need online (allocate_loop cap k requested ns assigned loads).1
      ≤ available cap need online loads
unfolding allocate_loop
available-allocate_loop cap need k requested online [] assigned loads mk mn w = omega arith
available-allocate_loop cap need k requested online (n ∷ ns) assigned loads mk mn w = ground (
  arith,
  available-allocate_loop cap need k requested online ns assigned loads mk mn w,
  available-allocate_loop cap need k requested online ns (assigned ++ (n ∷ []))
      (charge_node k n loads) mk mn,
  charge_node-Within cap k n loads,
  available-charge_node cap need k n online loads,
)

module _ (cap : ℕ) (online : List ℕ) (clock : ℕ → ℕ) where
  abbrev ModestJobs : List Job → Type 0
  ModestJobs = All (λ j. Modest cap j.memory_per_node)

  abbrev final : List Job → List Job → List NodeLoad → ℕ → Round
  final = start_loop cap online clock

  available-start_loop :
      (need : ℕ) (js active : List Job) (loads : List NodeLoad) (started : ℕ)
      → ModestJobs js
      → Modest cap need
      → Within cap loads
      → (available cap need online (final js active loads started).loads
          ≤ available cap need online loads)
        × Within cap (final js active loads started).loads
  unfolding start_loop allocate
  available-start_loop need [] active loads started ms mn w = (omega arith, w)
  available-start_loop need (j ∷ js) active loads started ms mn w =
      let r = allocate cap j online loads in
      let run : Job = record r.0 { status = running; started_at_us = clock started } in
      let kept = available-start_loop need js active loads started ms.1 mn w in
      let went =
        available-start_loop need js (active ++ (run ∷ [])) r.1 (started + 1) ms.1 mn
          (allocate-Within cap j online loads w) in
      let less =
        available-allocate_loop cap need j.memory_per_node j.requested_nodes online online [] loads
          ms.0 mn w in
      elim (Bool-cases (can_allocate cap j online loads)) [
        | inl e ↦ rw e (ground (arith, went, less), went.1)
        | inr e ↦ rw e kept
      ]

  -- The loop that starts jobs leaves no node loaded beyond its memory, and no job in the queue that
  -- could still be allocated when the loop ends. The conditions are that no node is overloaded
  -- before, and that no job asks for so much memory that a sum of 64 bits wraps.
  pub start_loop_lem :
      (js active : List Job) (loads : List NodeLoad) (started : ℕ)
      → ModestJobs js
      → Within cap loads
      → let r = start_loop cap online clock js active loads started in
        Within cap r.loads × All (λ j. can_allocate cap j online r.loads ≡ false) r.queue
  unfolding start_loop can_allocate
  start_loop_lem [] active loads started ms w = (w, tt)
  start_loop_lem (j ∷ js) active loads started ms w =
      let r = allocate cap j online loads in
      let run : Job = record r.0 { status = running; started_at_us = clock started } in
      let kept = start_loop_lem js active loads started ms.1 w in
      let went =
        start_loop_lem js (active ++ (run ∷ [])) r.1 (started + 1) ms.1
          (allocate-Within cap j online loads w) in
      let less = available-start_loop j.memory_per_node js active loads started ms.1 ms.0 w in
      elim (Bool-cases (can_allocate cap j online loads)) [
        | inl e ↦ rw e went
        | inr e ↦ rw e (kept.0, (ground (arith, less, e), kept.1))
      ]
