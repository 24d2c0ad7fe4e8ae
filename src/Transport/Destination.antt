-- ===== src/Transport/Destination.antt =====
-- `RdmaDestination` of csrc/transport/rdma/RdmaConnection.hpp: the 26 bytes that two sides exchange, and the
-- transitions of their pairs that follow.
use mccl.Base.{
  ℕ, ◌^◌, ◌<◌, ◌≡◌, refl, ◌∙◌, true, some, List, ◌∷◌, arith, Memory, write_value, read_value,
  read_value-write_self, read_value-write_apart,
}
use mccl.Transport.Ledger.{pair, modified, to_rtr, Call, used}
use mccl.Transport.Connection.{
  Connection, Destination, PortInfo, local_destination, activate, ready_to_send, use_pair, mtu_4096,
}

unfoldable pub serialize : Destination → Memory → Memory
serialize d buf =
    write_value
      (write_value (write_value (write_value buf 0 2 d.local_id) 2 4 d.qp_number) 6 4
        d.packet_seq_number)
      10 16 d.gid

unfoldable pub deserialize : Memory → Destination
deserialize buf = record {
  local_id = read_value buf 0 2;
  qp_number = read_value buf 2 4;
  packet_seq_number = read_value buf 6 4;
  gid = read_value buf 10 16;
}

-- The widths of the fields.
pub record Fitting (d : Destination) : Type 0 where
  pub local_id : d.local_id < 256 ^ 2
  pub qp_number : d.qp_number < 256 ^ 4
  pub packet_seq_number : d.packet_seq_number < 256 ^ 4
  pub gid : d.gid < 256 ^ 16

module _ (d : Destination) (buf : Memory) (f : Fitting d) where
  local_id_back : read_value (serialize d buf) 0 2 ≡ d.local_id
  unfolding serialize
  local_id_back =
      read_value-write_apart _ 10 16 d.gid 0 2 (omega arith)
      ∙ read_value-write_apart _ 6 4 d.packet_seq_number 0 2 (omega arith)
      ∙ read_value-write_apart _ 2 4 d.qp_number 0 2 (omega arith)
      ∙ read_value-write_self buf 0 2 d.local_id f.local_id

  qp_number_back : read_value (serialize d buf) 2 4 ≡ d.qp_number
  unfolding serialize
  qp_number_back =
      read_value-write_apart _ 10 16 d.gid 2 4 (omega arith)
      ∙ read_value-write_apart _ 6 4 d.packet_seq_number 2 4 (omega arith)
      ∙ read_value-write_self _ 2 4 d.qp_number f.qp_number

  psn_back : read_value (serialize d buf) 6 4 ≡ d.packet_seq_number
  unfolding serialize
  psn_back =
      read_value-write_apart _ 10 16 d.gid 6 4 (omega arith)
      ∙ read_value-write_self _ 6 4 d.packet_seq_number f.packet_seq_number

  gid_back : read_value (serialize d buf) 10 16 ≡ d.gid
  unfolding serialize
  gid_back = read_value-write_self _ 10 16 d.gid f.gid

  -- A destination whose fields fit their widths is read back as it was written, into whatever buffer.
  pub deserialize-serialize : deserialize (serialize d buf) ≡ d
  unfolding deserialize
  deserialize-serialize = ground (arith, local_id_back, qp_number_back, psn_back, gid_back)

-- What a side that has its pair reports.
abbrev pub reported : PortInfo → Destination
reported info = record {
  local_id = info.lid;
  qp_number = info.qp_num;
  packet_seq_number = 0;
  gid = info.gid;
}

-- Between two sides with their pairs, one reports its destination, and the bytes reach the other. The other
-- side, if the driver accepts both transitions, has made its pair ready to receive from the number, the
-- lid and the gid of the first side's pair with the packet number 0, and then ready to send with that
-- same packet number.
pub activate-local_destination :
    (a b : Connection) (port : ℕ) (info : PortInfo) (buf : Memory) (log log' : List Call)
    {x q q' : ℕ}
    → Fitting (reported info)
    → a.fns ≡ true
    → a.ctx ≡ some x
    → a.qp ≡ some q
    → b.fns ≡ true
    → b.qp ≡ some q'
    → activate b
        (deserialize (serialize (local_destination a port info log).1 buf))
        port
        true
        true
        log'
      ≡ (
        used pair q' ready_to_send
            ∷ (used pair q' (modified (to_rtr mtu_4096 info.qp_num 0 1 12 info.lid info.gid port))
                ∷ log'),
        true,
      )
unfolding local_destination activate use_pair
activate-local_destination a b port info buf log log' f on context_a pair_a on' pair_b = rw on (
    rw context_a
      (rw pair_a (rw (deserialize-serialize (reported info) buf f) (rw on' (rw pair_b refl)))))
