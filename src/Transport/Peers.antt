-- ===== src/Transport/Peers.antt =====
-- The connections of a process, such as `peer_conns_` of csrc/dmem/DistributedMemoryManager.hpp, and the
-- operations of csrc/transport/rdma/RdmaConnection.cpp on them, the moves among them. An operation on a
-- connection that is not there leaves all as it is.
pub mod Stepping
pub mod Balance
use mccl.Base.{
  ℕ, ◌==◌, Bool, Option, none, some, List, [], ◌∷◌, ◌++◌, if◌then◌else◌, get_elem?, set,
}
use mccl.Transport.Ledger.{Segment, Usage, Call}
use mccl.Transport.Connection.{
  Connection, closed, destroy, Driver, open_connection, Destination, PortInfo, local_destination,
  init, activate, post_send, post_recv, post_rdma_write, post_rdma_read, post_rdma_write_with_imm,
  post_fence, poll,
}

pub record Peers : Type 0 where
  pub conns : List Connection
  pub calls : List Call

abbrev pub change :
    Peers → ℕ → (Connection → List Call → Connection × List Call) → Option Connection → Peers
change p i f none = p
change p i f (some c) =
    let (c', calls) = f c p.calls in record { conns = set p.conns i c'; calls = calls }

-- An operation of the connection `i`.
unfoldable pub on_slot : Peers → ℕ → (Connection → List Call → Connection × List Call) → Peers
on_slot p i f = change p i f (get_elem? p.conns i)

abbrev pub move_from : Peers → ℕ → Option Connection → Peers
move_from p j none = p
move_from p j (some other) = record {
  conns = set p.conns j closed ++ (other ∷ []);
  calls = p.calls;
}

-- A further connection, constructed from `std::move(conns[j])`.
unfoldable pub move_construct : Peers → ℕ → Peers
move_construct p j = move_from p j (get_elem? p.conns j)

abbrev pub move_between : Peers → (i j : ℕ) → Option Connection → Option Connection → Peers
move_between p i j none other = p
move_between p i j (some mine) none = p
move_between p i j (some mine) (some other) = record {
  conns = set (set p.conns i other) j closed;
  calls = (destroy mine p.calls).1;
}

-- `conns[i] = std::move(conns[j])`
unfoldable pub move_assign : Peers → (i j : ℕ) → Peers
unfolding destroy
move_assign p i j =
    if i == j then p else move_between p i j (get_elem? p.conns i) (get_elem? p.conns j)

-- The operations, with the answers of the driver.
pub data Op : Type 0 where
  opens : Driver → Op
  destroys : Op
  inits : (port : ℕ) → Bool → Op
  activates : Destination → (port : ℕ) → (first second : Bool) → Op
  asks_destination : (port : ℕ) → PortInfo → Op
  sends : Segment → (wr_id : ℕ) → Bool → Op
  receives : Segment → (wr_id : ℕ) → Bool → Op
  writes : Segment → (remote_addr rkey wr_id : ℕ) → (signaled answer : Bool) → Op
  reads : Segment → (remote_addr rkey wr_id : ℕ) → (signaled answer : Bool) → Op
  writes_imm : Segment → (remote_addr rkey imm_data wr_id : ℕ) → Bool → Op
  fences : (wr_id : ℕ) → Bool → Op
  polls : (max_wc : ℕ) → Option ℕ → Op

unfoldable pub apply : Op → Connection → List Call → Connection × List Call
unfolding open_connection destroy init activate local_destination post_send post_recv
    post_rdma_write post_rdma_read post_rdma_write_with_imm post_fence poll
apply (opens d) c log = let (c', log', ok) = open_connection d c log in (c', log')
apply destroys c log = destroy c log
apply (inits port a) c log = (c, (init c port a log).0)
apply (activates remote port a b) c log = (c, (activate c remote port a b log).0)
apply (asks_destination port info) c log = (c, (local_destination c port info log).0)
apply (sends sge wr_id a) c log = (c, (post_send c sge wr_id a log).0)
apply (receives sge wr_id a) c log = (c, (post_recv c sge wr_id a log).0)
apply (writes sge addr rkey wr_id s a) c log =
    (c, (post_rdma_write c sge addr rkey wr_id s a log).0)
apply (reads sge addr rkey wr_id s a) c log = (c, (post_rdma_read c sge addr rkey wr_id s a log).0)
apply (writes_imm sge addr rkey imm wr_id a) c log =
    (c, (post_rdma_write_with_imm c sge addr rkey imm wr_id a log).0)
apply (fences wr_id a) c log = (c, (post_fence c wr_id a log).0)
apply (polls max_wc a) c log = (c, (poll c max_wc a log).0)

pub data Action : Type 0 where
  on : ℕ → Op → Action
  constructs : (j : ℕ) → Action
  assigns : (i j : ℕ) → Action

unfoldable pub act : Action → Peers → Peers
unfolding on_slot apply move_construct move_assign
act (on i op) p = on_slot p i (apply op)
act (constructs j) p = move_construct p j
act (assigns i j) p = move_assign p i j

unfoldable pub act_all : List Action → Peers → Peers
unfolding act
act_all [] p = p
act_all (a ∷ actions) p = act_all actions (act a p)

-- The destructors of the connections of a list.
unfoldable pub destroy_all : List Connection → List Call → List Call
unfolding destroy
destroy_all [] log = log
destroy_all (c ∷ conns) log = destroy_all conns (destroy c log).1
