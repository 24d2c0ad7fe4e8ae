-- ===== src/Cluster/Failure.antt =====
-- What the failure and the departure of a node do in csrc/runtime/ClusterManager.cpp.
use mccl.Base.{
  ℕ, ◌<◌, ◌≡◌, ◌≢◌, refl, sym, subst, ◌∙◌, inl, inr, true, false, some, length, ◌==◌, ==_ne, ◌⊎◌,
  get_or-set_self, set,
}
use mathlib.Core.Bool.{true≢false}
use mccl.Dmem.Catalog
use mccl.Cluster.{
  offline, NodeInfo, no_node, ClusterState, ClusterManager, mark_offline, is_online, node_at,
  elect_leader, handle_node_failure, handle_leave,
}
use mccl.Cluster.Leader.{
  status-cases, IsLowestOnline, AllDown, elect_leader_lem, nodes-elect_leader,
}

-- At a node that is not the leader, the failure of the leader leaves it the leader, though it is
-- offline.
pub handle_node_failure_stale :
    (now : ℕ) (c : ClusterManager)
    → c.state.leader_id < length c.state.nodes
    → c.state.leader_id ≢ c.node_id
    → ((handle_node_failure now c.state.leader_id c).state.leader_id ≡ c.state.leader_id)
      × (is_online
            (node_at c.state.leader_id (handle_node_failure now c.state.leader_id c).state.nodes)
          ≡ false)
unfolding handle_node_failure
handle_node_failure_stale now c h other =
    let n : NodeInfo = record (node_at c.state.leader_id c.state.nodes) { status = offline } in
    let kept = get_or-set_self c.state.nodes c.state.leader_id n no_node h in
    rw (==_ne c.state.leader_id c.node_id other) (refl, rw (node_at, kept))

-- The election after a node's departure never elects that node, unless it is the one that elects.
elect_leader-mark_offline :
    (self id : ℕ) (s : ClusterState)
    → id < length s.nodes
    → id ≢ self
    → id ≢ (elect_leader self (mark_offline id s)).leader_id
elect_leader-mark_offline self id s h other e =
    let n : NodeInfo = record (node_at id s.nodes) { status = offline } in
    let down : is_online (node_at id (set s.nodes id n)) ≡ false =
      rw (node_at, get_or-set_self s.nodes id n no_node h) in
    elim (elect_leader_lem self (mark_offline id s)) [
      | inl v ↦
          true≢false
            (sym (subst (λ k. is_online (node_at k (set s.nodes id n)) ≡ true) (sym e) v.up) ∙ down)
      | inr (_, own) ↦ other (e ∙ own)
    ]

-- What is left when the node `id` has gone from `c`.
pub record IsWithout (id : ℕ) (c left : ClusterManager) : Type 0 where
  pub down : is_online (node_at id left.state.nodes) ≡ false
  pub jobs : left.scheduler ≡ c.scheduler
  pub leader :
      IsLowestOnline left.state.nodes left.state.leader_id
      ⊎ (AllDown left.state.nodes × (left.state.leader_id ≡ c.node_id))

-- When another node that is not offline leaves, there is no deadlock: it is offline afterwards, the
-- scheduler is untouched, and the leader is the lowest online node, or the manager's own if there
-- is none.
pub handle_leave_lem :
    (id : ℕ) (c : ClusterManager)
    → id < length c.state.nodes
    → (node_at id c.state.nodes).status ≢ offline
    → id ≢ c.node_id
    → (left : ClusterManager) × (handle_leave id c ≡ some left) × IsWithout id c left
unfolding handle_leave
handle_leave_lem id c h up other =
    let n : NodeInfo = record (node_at id c.state.nodes) { status = offline } in
    let s = elect_leader c.node_id (mark_offline id c.state) in
    let down : is_online (node_at id s.nodes) ≡ false = rw (
      nodes-elect_leader c.node_id (mark_offline id c.state),
      node_at,
      get_or-set_self c.state.nodes id n no_node h,
    ) in
    let kept : (id == s.leader_id) ≡ false =
      ==_ne id s.leader_id (elect_leader-mark_offline c.node_id id c.state h other) in
    let left : ClusterManager = record c {
      state = s;
      catalog = Catalog.remove_node id c.catalog;
    } in
    let elected : IsLowestOnline s.nodes s.leader_id
        ⊎ (AllDown s.nodes × (s.leader_id ≡ c.node_id)) =
      subst (λ ns. IsLowestOnline ns s.leader_id ⊎ (AllDown ns × (s.leader_id ≡ c.node_id)))
        (sym (nodes-elect_leader c.node_id (mark_offline id c.state)))
        (elect_leader_lem c.node_id (mark_offline id c.state)) in
    (
      left,
      elim (status-cases (node_at id c.state.nodes).status) [
        | inl e ↦ rw (handle_leave, e, kept)
        | inr (inl e) ↦ rw (handle_leave, e, kept)
        | inr (inr (inl e)) ↦ rw (handle_leave, e, kept)
        | inr (inr (inr e)) ↦ absurd (up e)
      ],
      record { down = down; jobs = refl; leader = elected },
    )
