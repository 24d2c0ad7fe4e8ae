-- ===== src/Cluster/Counting.antt =====
-- The count of online nodes that csrc/runtime/ClusterManager.cpp keeps.
use mccl.Base.{
  ℕ, zero, suc, ◌+◌, ◌≤◌, ◌<◌, ◌≡◌, ◌≢◌, refl, sym, subst, ◌∙◌, ap, inl, inr, true, false, List, [],
  ◌∷◌, arith, length, length-set, ◌==◌, set, if◌then◌else◌, Bool-cases, Steps, Steps-keep,
}
use mccl.Cluster.{
  unknown, online, offline, NodeInfo, ClusterState, ClusterManager, inc32, inc64, mark_offline,
  is_online, node_at, beat, elect_leader, handle_join, handle_node_failure, handle_heartbeat,
}
use mccl.Cluster.Leader.{status-cases, nodes-elect_leader, count-elect_leader}

abbrev up : NodeInfo → ℕ
up n = if is_online n then 1 else 0

unfoldable pub count_online : List NodeInfo → ℕ
count_online [] = 0
count_online (n ∷ ns) = (if is_online n then 1 else 0) + count_online ns

-- The count is that of the online nodes, and there are eight nodes.
pub record IsCounted (s : ClusterState) : Type 0 where
  pub eight : length s.nodes ≡ 8
  pub counted : s.online_count ≡ count_online s.nodes

count_online-set :
    (nodes : List NodeInfo) (i : ℕ) (n : NodeInfo)
    → i < length nodes
    → count_online (set nodes i n) + up (node_at i nodes) ≡ count_online nodes + up n
unfolding count_online
count_online-set [] i n h = absurd (omega arith)
count_online-set (m ∷ nodes) zero n h = omega arith
count_online-set (m ∷ nodes) (suc i) n h = omega (arith, count_online-set nodes i n (omega arith))

count_online-le : (nodes : List NodeInfo) → count_online nodes ≤ length nodes
unfolding count_online
count_online-le [] = omega arith
count_online-le (n ∷ nodes) = ground (arith, count_online-le nodes)

elect_leader-IsCounted :
    (self : ℕ) (s : ClusterState) → IsCounted s → IsCounted (elect_leader self s)
unfolding elect_leader
elect_leader-IsCounted self s v = record {
  eight = ap length (nodes-elect_leader self s) ∙ v.eight;
  counted =
      count-elect_leader self s ∙ v.counted ∙ ap count_online (sym (nodes-elect_leader self s));
}

-- The entry of a node that is not online is replaced by one that is.
set-IsCounted :
    (i : ℕ) (n : NodeInfo) (s : ClusterState)
    → i < 8
    → is_online (node_at i s.nodes) ≡ false
    → is_online n ≡ true
    → IsCounted s
    → IsCounted (record s {
      nodes = set s.nodes i n;
      online_count = inc32 s.online_count;
      version = inc64 s.version;
    })
set-IsCounted i n s h down on v =
    let size : length (set s.nodes i n) ≡ 8 = length-set s.nodes i n ∙ v.eight in
    record {
      eight = size;
      counted = ground (
        arith,
        count_online-set s.nodes i n (subst (λ k. i < k) (sym v.eight) h),
        count_online-le (set s.nodes i n),
        size,
        v.counted,
        down,
        on,
      );
    }

-- When a node that is not online joins, the count stays that of the online nodes.
pub handle_join-IsCounted :
    (now : ℕ) (info : NodeInfo) (c : ClusterManager)
    → info.node_id < 8
    → is_online (node_at info.node_id c.state.nodes) ≡ false
    → IsCounted c.state
    → IsCounted (handle_join now info c).state
unfolding handle_join
handle_join-IsCounted now info c h down v =
    let entry : NodeInfo = record info { status = online; last_heartbeat_us = now } in
    elect_leader-IsCounted c.node_id _ (set-IsCounted info.node_id entry c.state h down refl v)

-- The entry of an online node is replaced by one that is not.
mark_offline-IsCounted :
    (i : ℕ) (s : ClusterState)
    → i < 8
    → is_online (node_at i s.nodes) ≡ true
    → IsCounted s
    → IsCounted (mark_offline i s)
mark_offline-IsCounted i s h on v =
    let n : NodeInfo = record (node_at i s.nodes) { status = offline } in
    let size : length (set s.nodes i n) ≡ 8 = length-set s.nodes i n ∙ v.eight in
    record {
      eight = size;
      counted = ground (
        arith,
        count_online-set s.nodes i n (subst (λ k. i < k) (sym v.eight) h),
        count_online-le s.nodes,
        v.eight,
        v.counted,
        on,
      );
    }

-- When an online node fails, the count stays that of the online nodes.
pub handle_node_failure-IsCounted :
    (now failed : ℕ) (c : ClusterManager)
    → failed < 8
    → is_online (node_at failed c.state.nodes) ≡ true
    → IsCounted c.state
    → IsCounted (handle_node_failure now failed c).state
unfolding handle_node_failure
handle_node_failure-IsCounted now failed c h on v =
    let marked = mark_offline-IsCounted failed c.state h on v in
    elim (Bool-cases (c.state.leader_id == c.node_id)) [
      | inl e ↦ rw e (elect_leader-IsCounted c.node_id _ marked)
      | inr e ↦ rw e marked
    ]

-- The entry of an online node is replaced by another online one.
refresh-IsCounted :
    (i : ℕ) (n : NodeInfo) (s : ClusterState)
    → i < 8
    → is_online (node_at i s.nodes) ≡ true
    → is_online n ≡ true
    → IsCounted s
    → IsCounted (record s { nodes = set s.nodes i n })
refresh-IsCounted i n s h up on v = record {
  eight = length-set s.nodes i n ∙ v.eight;
  counted =
      ground (
        arith,
        count_online-set s.nodes i n (subst (λ k. i < k) (sym v.eight) h),
        v.counted,
        up,
        on,
      );
}

-- A heartbeat of a node whose status is not unknown keeps the count that of the online nodes.
pub handle_heartbeat-IsCounted :
    (now : ℕ) (info : NodeInfo) (c : ClusterManager)
    → info.node_id < 8
    → (node_at info.node_id c.state.nodes).status ≢ unknown
    → IsCounted c.state
    → IsCounted (handle_heartbeat now info c).state
unfolding handle_heartbeat
handle_heartbeat-IsCounted now info c h known v =
    let i = info.node_id in
    let old = node_at i c.state.nodes in
    let n : NodeInfo = record (beat now info old) { status = online } in
    elim (status-cases old.status) [
      | inl e ↦ absurd (known e)
      | inr (inl e) ↦ rw e (refresh-IsCounted i n c.state h (rw (is_online, e)) refl v)
      | inr (inr (inl e)) ↦ rw e (set-IsCounted i n c.state h (rw (is_online, e)) refl v)
      | inr (inr (inr e)) ↦ rw e (set-IsCounted i n c.state h (rw (is_online, e)) refl v)
    ]

-- A heartbeat of a node whose status is unknown makes it online, and the count stays one behind.
pub handle_heartbeat_unknown :
    (now : ℕ) (info : NodeInfo) (c : ClusterManager)
    → info.node_id < 8
    → (node_at info.node_id c.state.nodes).status ≡ unknown
    → IsCounted c.state
    → count_online (handle_heartbeat now info c).state.nodes
      ≡ (handle_heartbeat now info c).state.online_count + 1
unfolding handle_heartbeat
handle_heartbeat_unknown now info c h e v =
    let n : NodeInfo = record (beat now info info) { status = online } in
    let change =
      count_online-set c.state.nodes info.node_id n
        (subst (λ k. info.node_id < k) (sym v.eight) h) in
    let down : is_online (node_at info.node_id c.state.nodes) ≡ false = rw (is_online, e) in
    rw e (ground (arith, change, v.counted, down))

-- The messages that the manager is meant to get: a node joins while it is not online, an online one
-- fails, and a node that is known sends heartbeats.
pub data Step (c : ClusterManager) : ClusterManager → Type 0 where
  join :
      (now : ℕ) (info : NodeInfo)
      → info.node_id < 8
      → is_online (node_at info.node_id c.state.nodes) ≡ false
      → Step c (handle_join now info c)
  fail :
      (now failed : ℕ)
      → failed < 8
      → is_online (node_at failed c.state.nodes) ≡ true
      → Step c (handle_node_failure now failed c)
  heartbeat :
      (now : ℕ) (info : NodeInfo)
      → info.node_id < 8
      → (node_at info.node_id c.state.nodes).status ≢ unknown
      → Step c (handle_heartbeat now info c)

Step-IsCounted : (c d : ClusterManager) → Step c d → IsCounted c.state → IsCounted d.state
Step-IsCounted c d (join now info h down) v = handle_join-IsCounted now info c h down v
Step-IsCounted c d (fail now failed h up) v = handle_node_failure-IsCounted now failed c h up v
Step-IsCounted c d (heartbeat now info h known) v = handle_heartbeat-IsCounted now info c h known v

-- Whatever joins, failures and heartbeats follow one another, the count stays that of the online
-- nodes. The conditions are that a node joins only while it is not online, fails only while it is, and
-- sends heartbeats only once it is known.
pub Steps-IsCounted :
    (c d : ClusterManager) → Steps Step c d → IsCounted c.state → IsCounted d.state
Steps-IsCounted c d steps v = Steps-keep Step (λ e. IsCounted e.state) Step-IsCounted c d steps v
