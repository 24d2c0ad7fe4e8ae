-- ===== src/Scheduler/Allocation/Exact.antt =====
-- What `allocate` of csrc/runtime/Scheduler.cpp chooses, and what it charges.
use mathlib.Core.List.{append-nil, append_assoc}
use mathlib.Core.Option
use mccl.Base.{
  ℕ, zero, suc, ◌-◌, min, ◌≡◌, ◌≢◌, ◌↔◌, refl, sym, ◌∙◌, ap, inl, inr, Bool, true, false, Option,
  none, some, List, [], ◌∷◌, ◌++◌, arith, length, get_elem?, take, keep_if, All, Distinct, ◌==◌,
  if◌then◌else◌, Bool-cases, Option-cases, length-append, get_elem?-set_ne, get_elem?-set_self,
}
use mccl.Scheduler.Types.{Job, NodeLoad}
use mccl.Scheduler.Jobs.{contains}
use mccl.Scheduler.Allocation.{
  has_room, node_has_room, available, can_allocate, charged, charge_node, allocate_loop, allocate,
}

pub get_elem?-charge_node_ne :
    (need n m : ℕ) (loads : List NodeLoad)
    → n ≢ m
    → get_elem? (charge_node need n loads) m ≡ get_elem? loads m
unfolding charge_node
get_elem?-charge_node_ne need n m loads h = elim (Option-cases (get_elem? loads n)) [
  | inl e ↦ rw (e, charge_node)
  | inr (l, e) ↦ rw (e, charge_node) (get_elem?-set_ne loads n m (charged need l) h)
]

pub get_elem?-charge_node_self :
    (need n : ℕ) (loads : List NodeLoad)
    → get_elem? (charge_node need n loads) n ≡ Option.map (charged need) (get_elem? loads n)
unfolding charge_node
get_elem?-charge_node_self need n loads = elim (Option-cases (get_elem? loads n)) [
  | inl e ↦ rw (e, charge_node) (e ∙ refl)
  | inr (l, e) ↦ rw (e, charge_node) (get_elem?-set_self loads n (charged need l) l e)
]

node_has_room-charge_node :
    (cap need n m : ℕ) (loads : List NodeLoad)
    → n ≢ m
    → node_has_room cap need (charge_node need n loads) m ≡ node_has_room cap need loads m
unfolding node_has_room
node_has_room-charge_node cap need n m loads h =
    ap (λ o. elim o [ none ↦ false | some l ↦ has_room cap need l ])
      (get_elem?-charge_node_ne need n m loads h)

-- The nodes with room for the job, in the order of the online nodes.
abbrev pub roomy : ℕ → ℕ → List NodeLoad → List ℕ → List ℕ
roomy cap need loads = keep_if (node_has_room cap need loads)

roomy-charge_node :
    (cap need n : ℕ) (loads : List NodeLoad) (ns : List ℕ)
    → All (λ m. n ≢ m) ns
    → roomy cap need (charge_node need n loads) ns ≡ roomy cap need loads ns
roomy-charge_node cap need n loads [] h = refl
roomy-charge_node cap need n loads (m ∷ ns) h = ground (
  arith,
  node_has_room-charge_node cap need n m loads h.0,
  roomy-charge_node cap need n loads ns h.1,
)

length-roomy :
    (cap need : ℕ) (loads : List NodeLoad) (ns : List ℕ)
    → length (roomy cap need loads ns) ≡ available cap need ns loads
unfolding available
length-roomy cap need loads [] = refl
length-roomy cap need loads (n ∷ ns) = ground (arith, length-roomy cap need loads ns)

take-nil : (k : ℕ) → take {A = ℕ} k [] ≡ []
take-nil zero = refl
take-nil (suc k) = refl

take-all : (k : ℕ) (xs : List ℕ) → length (take k xs) ≡ min k (length xs)
take-all zero xs = omega arith
take-all (suc k) [] = omega arith
take-all (suc k) (x ∷ xs) = omega (arith, take-all k xs)

take-cons : (k : ℕ) (x : ℕ) (xs : List ℕ) → k ≢ 0 → take k (x ∷ xs) ≡ x ∷ take (k - 1) xs
take-cons zero x xs h = absurd (h refl)
take-cons (suc k) x xs h = ap (λ j. x ∷ take j xs) (omega arith)

allocate_loop_nodes :
    (cap need requested : ℕ) (ns assigned : List ℕ) (loads : List NodeLoad)
    → Distinct ns
    → (allocate_loop cap need requested ns assigned loads).0
      ≡ assigned ++ take (requested - length assigned) (roomy cap need loads ns)
unfolding allocate_loop
allocate_loop_nodes cap need requested [] assigned loads d =
    sym (ap (◌++◌ assigned) (take-nil _) ∙ append-nil assigned)
allocate_loop_nodes cap need requested (n ∷ ns) assigned loads d =
    let left = requested - length assigned in
    let rest = roomy cap need loads ns in
    ground (
      arith,
      append-nil assigned,
      allocate_loop_nodes cap need requested ns assigned loads d.1,
      allocate_loop_nodes cap need requested ns (assigned ++ (n ∷ [])) (charge_node need n loads)
          d.1,
      append_assoc assigned (n ∷ []) (take (left - 1) rest),
      length-append assigned (n ∷ []),
      roomy-charge_node cap need n loads ns d.0,
      take-cons left n rest,
    )

not_chosen :
    (n k : ℕ) (p : ℕ → Bool) (ns : List ℕ)
    → All (λ m. n ≢ m) ns
    → contains n (take k (keep_if p ns)) ≡ false
unfolding contains
not_chosen n zero p ns h = refl
not_chosen n (suc k) p [] h = refl
not_chosen n (suc k) p (m ∷ ns) h =
    ground (arith, not_chosen n k p ns h.1, not_chosen n (suc k) p ns h.1)

-- What `allocate` leaves at node `m`, if it chose `nodes`.
abbrev pub load_after : ℕ → List ℕ → List NodeLoad → ℕ → Option NodeLoad
load_after need nodes loads m =
    if contains m nodes then Option.map (charged need) (get_elem? loads m) else get_elem? loads m

allocate_loop_loads :
    (cap need requested m : ℕ) (ns assigned : List ℕ) (loads : List NodeLoad)
    → Distinct ns
    → get_elem? (allocate_loop cap need requested ns assigned loads).1 m
      ≡ load_after need (take (requested - length assigned) (roomy cap need loads ns)) loads m
unfolding allocate_loop contains
allocate_loop_loads cap need requested m [] assigned loads d =
    rw (take-nil (requested - length assigned))
allocate_loop_loads cap need requested m (n ∷ ns) assigned loads d =
    let left = requested - length assigned in
    let rest = roomy cap need loads ns in
    let full : left ≡ 0 → take left (roomy cap need loads (n ∷ ns)) ≡ [] =
      λ e. ap (λ k. take k (roomy cap need loads (n ∷ ns))) e in
    elim (Bool-cases (n == m)) [
      | inl same ↦ ground (
        arith,
        full,
        allocate_loop_loads cap need requested m ns assigned loads d.1,
        allocate_loop_loads cap need requested m ns (assigned ++ (n ∷ []))
            (charge_node need n loads) d.1,
        length-append assigned (n ∷ []),
        roomy-charge_node cap need n loads ns d.0,
        take-cons left n rest,
        not_chosen n (left - 1) (node_has_room cap need loads) ns d.0,
        get_elem?-charge_node_self need n loads,
      )
      | inr other ↦ ground (
        arith,
        full,
        allocate_loop_loads cap need requested m ns assigned loads d.1,
        allocate_loop_loads cap need requested m ns (assigned ++ (n ∷ []))
            (charge_node need n loads) d.1,
        length-append assigned (n ∷ []),
        roomy-charge_node cap need n loads ns d.0,
        take-cons left n rest,
        get_elem?-charge_node_ne need n m loads,
      )
    ]

-- If the online nodes are distinct, `allocate` assigns the first nodes with room for the job, as many
-- as it requests or as there are; it charges each of them once with the job and its memory, and
-- changes no other node's load.
pub allocate_lem :
    (cap : ℕ) (job : Job) (online : List ℕ) (loads : List NodeLoad)
    → Distinct online
    → let (job', loads') = allocate cap job online loads in
      (job'.assigned_nodes ≡ take job.requested_nodes (roomy cap job.memory_per_node loads online))
      × ((m : ℕ) → get_elem? loads' m ≡ load_after job.memory_per_node job'.assigned_nodes loads m)
unfolding allocate
allocate_lem cap job online loads d =
    let need = job.memory_per_node in
    let k = job.requested_nodes in
    let whole : k - 0 ≡ k = omega arith in
    let nodes =
      allocate_loop_nodes cap need k online [] loads d
      ∙ ap (λ i. take i (roomy cap need loads online)) whole in
    (
      nodes,
      λ m.
          allocate_loop_loads cap need k m online [] loads d
          ∙ ap (λ i. load_after need (take i (roomy cap need loads online)) loads m) whole
          ∙ ap (λ ns. load_after need ns loads m) (sym nodes),
    )

-- `can_allocate` is exact: on distinct online nodes it says yes exactly when `allocate` gives the job
-- all the nodes that it requests.
pub can_allocate_exact :
    (cap : ℕ) (job : Job) (online : List ℕ) (loads : List NodeLoad)
    → Distinct online
    → (can_allocate cap job online loads ≡ true)
      ↔ (length (allocate cap job online loads).0.assigned_nodes ≡ job.requested_nodes)
unfolding can_allocate
can_allocate_exact cap job online loads d =
    let chosen = (allocate_lem cap job online loads d).0 in
    let count =
      ap length chosen
      ∙ take-all job.requested_nodes (roomy cap job.memory_per_node loads online) in
    let room = length-roomy cap job.memory_per_node loads online in
    (λ h. ground (arith, count, room), λ h. ground (arith, count, room))
