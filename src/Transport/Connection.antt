-- ===== src/Transport/Connection.antt =====
-- csrc/transport/rdma/RdmaConnection.cpp. An operation takes the connection and the calls made so far; the
-- answers of the driver, a null pointer included, are arguments. A return code of 0 is true.
pub mod Owned
use mccl.Base.{
  ℕ, ◌+◌, ◌*◌, ◌^◌, ◌≡◌, refl, Bool, true, false, Option, none, some, List, [], ◌∷◌, arith,
  if◌then◌else◌,
}
use mccl.Transport.Ledger.{
  Kind, context, domain, completions, pair, to_init, to_rtr, to_rts, Opcode, rdma_write,
  rdma_write_with_imm, send, rdma_read, Segment, Request, Usage, modified, queried_port,
  queried_gid, posted, posted_recv, polled, Call, acquired, released, used, let_go,
}

pub record Connection : Type 0 where
  pub fns : Bool
  pub ctx : Option ℕ
  pub pd : Option ℕ
  pub cq : Option ℕ
  pub qp : Option ℕ

-- A connection that is constructed, moved from or destroyed.
abbrev pub closed : Connection
closed = record { fns = false; ctx = none; pd = none; cq = none; qp = none }

unfoldable pub destroy : Connection → List Call → Connection × List Call
unfolding let_go
destroy c log =
    if c.fns
    then (
      closed,
      let_go context c.ctx (let_go domain c.pd (let_go completions c.cq (let_go pair c.qp log))),
    )
    else (c, log)

-- The answers of `open_device`, `alloc_pd`, `create_cq` and `create_qp`, and whether the table of verbs is
-- loaded and a device is given.
pub record Driver : Type 0 where
  pub loaded : Bool
  pub device : Bool
  pub open_device : Option ℕ
  pub alloc_pd : Option ℕ
  pub create_cq : Option ℕ
  pub create_qp : Option ℕ

abbrev pub Opened : Type 0
Opened = Connection × List Call × Bool

abbrev pub give_up : Connection × List Call → Opened
give_up (c, log) = (c, log, false)

unfoldable pub make_pair : Option ℕ → Connection → List Call → Opened
unfolding destroy
make_pair none c log = give_up (destroy c log)
make_pair (some q) c log = (record c { qp = some q }, acquired pair q ∷ log, true)

unfoldable pub make_queue : Driver → Option ℕ → Connection → List Call → Opened
unfolding destroy make_pair
make_queue d none c log = give_up (destroy c log)
make_queue d (some q) c log =
    make_pair d.create_qp (record c { cq = some q }) (acquired completions q ∷ log)

unfoldable pub make_domain : Driver → Option ℕ → Connection → List Call → Opened
unfolding destroy make_queue
make_domain d none c log = give_up (destroy c log)
make_domain d (some p) c log =
    make_queue d d.create_cq (record c { pd = some p }) (acquired domain p ∷ log)

unfoldable pub make_context : Driver → Option ℕ → Connection → List Call → Opened
unfolding make_domain
make_context d none c log = (record c { ctx = none }, log, false)
make_context d (some x) c log =
    make_domain d d.alloc_pd (record c { ctx = some x }) (acquired context x ∷ log)

-- The handles are overwritten, whatever they were.
unfoldable pub open_connection : Driver → Connection → List Call → Opened
unfolding make_context
open_connection d c log =
    let tried = record c { fns = d.loaded } in
    if d.loaded
    then (if d.device then make_context d d.open_device tried log else (tried, log, false))
    else (tried, log, false)

-- A call of the driver on the pair, and what it answers: `if (!fns_ || !qp_) return false`.
abbrev pub on_pair : Option ℕ → Usage → Bool → List Call → List Call × Bool
on_pair none u answer log = (log, false)
on_pair (some q) u answer log = (used pair q u ∷ log, answer)

unfoldable pub use_pair : Connection → Usage → Bool → List Call → List Call × Bool
use_pair c u answer log = if c.fns then on_pair c.qp u answer log else (log, false)

pub record Destination : Type 0 where
  pub local_id : ℕ
  pub qp_number : ℕ
  pub packet_seq_number : ℕ
  pub gid : ℕ

-- `LOCAL_WRITE | REMOTE_WRITE | REMOTE_READ`
abbrev pub access_flags : ℕ
access_flags = 1 + 2 + 4

abbrev pub mtu_4096 : ℕ
mtu_4096 = 5

unfoldable pub init : Connection → (port : ℕ) → Bool → List Call → List Call × Bool
unfolding use_pair
init c port answer log = use_pair c (modified (to_init 0 port access_flags)) answer log

abbrev pub and_then : List Call × Bool → (List Call → List Call × Bool) → List Call × Bool
and_then (log, false) next = (log, false)
and_then (log, true) next = next log

-- `activate`: the second transition is not tried if the first is refused.
abbrev pub ready_to_receive : Destination → ℕ → Usage
ready_to_receive remote port =
    modified (
      to_rtr mtu_4096 remote.qp_number remote.packet_seq_number 1 12 remote.local_id remote.gid
        port)

abbrev pub ready_to_send : Usage
ready_to_send = modified (to_rts 0 14 7 7 1)

-- The second transition is not tried if the first is refused.
unfoldable pub activate :
    Connection → Destination → (port : ℕ) → (first second : Bool) → List Call → List Call × Bool
unfolding use_pair
activate c remote port first second log =
    and_then (use_pair c (ready_to_receive remote port) first log)
      (λ log'. use_pair c ready_to_send second log')

abbrev pub send_fence : ℕ
send_fence = 1

abbrev pub send_signaled : ℕ
send_signaled = 2

unfoldable pub post_send : Connection → Segment → (wr_id : ℕ) → Bool → List Call → List Call × Bool
unfolding use_pair
post_send c sge wr_id answer log =
    use_pair c
      (posted (record {
        wr_id = wr_id;
        sg_list = sge ∷ [];
        opcode = send;
        send_flags = send_signaled;
        imm_data = 0;
        remote_addr = 0;
        rkey = 0;
      }))
      answer log

unfoldable pub post_recv : Connection → Segment → (wr_id : ℕ) → Bool → List Call → List Call × Bool
unfolding use_pair
post_recv c sge wr_id answer log = use_pair c (posted_recv wr_id sge) answer log

abbrev pub one_sided : Opcode → Segment → (remote_addr rkey wr_id : ℕ) → Bool → Usage
one_sided op sge remote_addr rkey wr_id signaled = posted (record {
  wr_id = wr_id;
  sg_list = sge ∷ [];
  opcode = op;
  send_flags = if signaled then send_signaled else 0;
  imm_data = 0;
  remote_addr = remote_addr;
  rkey = rkey;
})

unfoldable pub post_rdma_write :
    Connection
    → Segment
    → (remote_addr rkey wr_id : ℕ) → (signaled answer : Bool) → List Call
    → List Call × Bool
unfolding use_pair
post_rdma_write c sge remote_addr rkey wr_id signaled answer log =
    use_pair c (one_sided rdma_write sge remote_addr rkey wr_id signaled) answer log

unfoldable pub post_rdma_read :
    Connection
    → Segment
    → (remote_addr rkey wr_id : ℕ) → (signaled answer : Bool) → List Call
    → List Call × Bool
unfolding use_pair
post_rdma_read c sge remote_addr rkey wr_id signaled answer log =
    use_pair c (one_sided rdma_read sge remote_addr rkey wr_id signaled) answer log

unfoldable pub post_rdma_write_with_imm :
    Connection
    → Segment
    → (remote_addr rkey imm_data wr_id : ℕ) → Bool
    → List Call
    → List Call × Bool
unfolding use_pair
post_rdma_write_with_imm c sge remote_addr rkey imm_data wr_id answer log =
    use_pair c
      (posted (record {
        wr_id = wr_id;
        sg_list = sge ∷ [];
        opcode = rdma_write_with_imm;
        send_flags = send_signaled;
        imm_data = imm_data;
        remote_addr = remote_addr;
        rkey = rkey;
      }))
      answer log

-- A write of no bytes, behind all earlier requests of the pair.
unfoldable pub post_fence : Connection → (wr_id : ℕ) → Bool → List Call → List Call × Bool
unfolding use_pair
post_fence c wr_id answer log =
    use_pair c
      (posted (record {
        wr_id = wr_id;
        sg_list = [];
        opcode = rdma_write;
        send_flags = send_signaled + send_fence;
        imm_data = 0;
        remote_addr = 0;
        rkey = 0;
      }))
      answer log

abbrev pub on_queue : Option ℕ → ℕ → Option ℕ → List Call → List Call × Option ℕ
on_queue none max_wc answer log = (log, none)
on_queue (some q) max_wc answer log = (used completions q (polled max_wc) ∷ log, answer)

-- The number of completions, none for a negative one.
unfoldable pub poll : Connection → ℕ → Option ℕ → List Call → List Call × Option ℕ
poll c max_wc answer log = if c.fns then on_queue c.cq max_wc answer log else (log, none)

-- The lid, the pair's number and the gid that the driver gives.
pub record PortInfo : Type 0 where
  pub lid : ℕ
  pub qp_num : ℕ
  pub gid : ℕ

abbrev pub no_destination : Destination
no_destination = record { local_id = 0; qp_number = 0; packet_seq_number = 0; gid = 0 }

abbrev pub queried : Option ℕ → Option ℕ → ℕ → PortInfo → List Call → List Call × Destination
queried none x port info log = (log, no_destination)
queried (some q) none port info log = (log, no_destination)
queried (some q) (some x) port info log = (
  used context x (queried_gid port) ∷ used context x (queried_port port) ∷ log,
  record { local_id = info.lid; qp_number = info.qp_num; packet_seq_number = 0; gid = info.gid },
)

unfoldable pub local_destination :
    Connection → (port : ℕ) → PortInfo → List Call → List Call × Destination
local_destination c port info log =
    if c.fns then queried c.qp c.ctx port info log else (log, no_destination)
