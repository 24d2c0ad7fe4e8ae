-- ===== src/Cluster/Leader.antt =====
-- The election of csrc/runtime/ClusterManager.cpp.
use mccl.Base.{
  ℕ, zero, suc, ◌+◌, ◌<◌, ◌≡◌, ◌≢◌, refl, sym, subst, ◌∙◌, ap, ◌⊎◌, inl, inr, true, false, none,
  some, List, [], ◌∷◌, arith, Bool-cases, All, Distinct,
}
use mccl.Cluster.{
  NodeStatus, unknown, online, degraded, offline, NodeInfo, ClusterState, is_online, node_at,
  first_online, elect_leader, online_from,
}

pub status-cases :
    (s : NodeStatus) → (s ≡ unknown) ⊎ ((s ≡ online) ⊎ ((s ≡ degraded) ⊎ (s ≡ offline)))
status-cases unknown = inl refl
status-cases online = inr (inl refl)
status-cases degraded = inr (inr (inl refl))
status-cases offline = inr (inr (inr refl))

-- The node is online, and none below it is.
pub record IsLowestOnline (nodes : List NodeInfo) (l : ℕ) : Type 0 where
  pub up : is_online (node_at l nodes) ≡ true
  pub below : (k : ℕ) → k < l → is_online (node_at k nodes) ≡ false

-- No node is online.
abbrev pub AllDown : List NodeInfo → Type 0
AllDown nodes = (k : ℕ) → is_online (node_at k nodes) ≡ false

first_online_lem :
    (nodes : List NodeInfo) (i : ℕ)
    → ((l : ℕ) × (first_online nodes i ≡ some (i + l)) × IsLowestOnline nodes l)
      ⊎ ((first_online nodes i ≡ none) × AllDown nodes)
unfolding first_online
first_online_lem [] i = inr (refl, λ k. refl)
first_online_lem (n ∷ ns) i = elim (Bool-cases (is_online n)) [
  | inl up ↦
      let start : i ≡ i + 0 = omega arith in
      inl (0, rw up (ap some start), record { up = up; below = λ k h. absurd (omega arith) })
  | inr down ↦ elim (first_online_lem ns (i + 1)) [
    | inl (l, e, v) ↦
        let index : i + 1 + l ≡ i + suc l = omega arith in
        inl (
          suc l,
          rw down (e ∙ ap some index),
          record {
            up = v.up;
            below = elim [ zero ↦ λ h. down | suc k ↦ λ h. v.below k (omega arith) ];
          },
        )
    | inr (e, v) ↦ inr (rw down e, elim [ zero ↦ down | suc k ↦ v k ])
  ]
]

-- The elected leader is the lowest online node, or the electing node itself if none is online.
pub elect_leader_lem :
    (self : ℕ) (s : ClusterState)
    → IsLowestOnline s.nodes (elect_leader self s).leader_id
      ⊎ (AllDown s.nodes × ((elect_leader self s).leader_id ≡ self))
unfolding elect_leader
elect_leader_lem self s = elim (first_online_lem s.nodes 0) [
  | inl (l, e, v) ↦
      let index : 0 + l ≡ l = omega arith in
      inl (rw (e, elect_leader) (subst (IsLowestOnline s.nodes) (sym index) v))
  | inr (e, v) ↦ inr (v, rw (e, elect_leader))
]

pub nodes-elect_leader : (self : ℕ) (s : ClusterState) → (elect_leader self s).nodes ≡ s.nodes
unfolding elect_leader
nodes-elect_leader self s = ground arith

pub count-elect_leader :
    (self : ℕ) (s : ClusterState) → (elect_leader self s).online_count ≡ s.online_count
unfolding elect_leader
count-elect_leader self s = ground arith

online_from-gt : (nodes : List NodeInfo) (i j : ℕ) → i < j → All (λ k. i ≢ k) (online_from nodes j)
unfolding online_from
online_from-gt [] i j h = tt
online_from-gt (n ∷ ns) i j h =
    let apart : i ≢ j = omega arith in
    ground (arith, apart, online_from-gt ns i (j + 1) (omega arith))

-- The online nodes are listed without repetition.
pub online_from-Distinct : (nodes : List NodeInfo) (i : ℕ) → Distinct (online_from nodes i)
unfolding online_from
online_from-Distinct [] i = tt
online_from-Distinct (n ∷ ns) i =
    ground (arith, online_from-gt ns i (i + 1) (omega arith), online_from-Distinct ns (i + 1))
