-- ===== src/Transport/Tests.antt =====
-- The theorems on csrc/transport/rdma at two connections and a buffer.
use mccl.Base.{ℕ, ◌≡◌, refl, true, some, List, [], ◌∷◌, arith, Memory}
use mccl.Transport.Ledger.{Kind, pair, modified, to_rtr, used, acquisitions, releases, Orderly}
use mccl.Transport.Connection.{
  Connection, Driver, PortInfo, local_destination, activate, ready_to_send, mtu_4096,
}
use mccl.Transport.Destination.{
  serialize, deserialize, Fitting, reported, activate-local_destination,
}
use mccl.Transport.Peers.{opens, inits, fences, Action, on, constructs, assigns, act}
use mccl.Transport.Peers.Balance.{MayActAll, start, all_calls, all_calls_lem}
use mccl.Transport.Buffer.Balance.{
  BufferOp, allocates, registers, replaces, buffer_calls, buffer_calls_lem,
}

abbrev driver : Driver
driver = record {
  loaded = true;
  device = true;
  open_device = some 1;
  alloc_pd = some 2;
  create_cq = some 3;
  create_qp = some 4;
}

-- Connection 0 is opened and moved to a new one, 2, which is used and moved into 1.
abbrev actions : List Action
actions =
    on 0 (opens driver)
    ∷ (constructs 0 ∷ (on 2 (inits 1 true) ∷ (on 2 (fences 7 true) ∷ (assigns 1 2 ∷ []))))

actions_allowed : MayActAll actions (start 2)
unfolding MayActAll act
actions_allowed = ((refl, refl, refl, refl), (tt, (tt, (tt, (tt, tt)))))

all_calls_lem_example :
    Orderly (all_calls 2 actions)
    × ((j : Kind) (m : ℕ)
        → acquisitions j m (all_calls 2 actions) ≡ releases j m (all_calls 2 actions))
all_calls_lem_example = all_calls_lem 2 actions actions_allowed

abbrev buffer_ops : List BufferOp
buffer_ops = allocates 4096 (some 10) ∷ (registers true (some 11) ∷ (replaces 64 (some 12) ∷ []))

buffer_calls_lem_example :
    Orderly (buffer_calls true buffer_ops)
    × ((j : Kind) (m : ℕ)
        → acquisitions j m (buffer_calls true buffer_ops)
          ≡ releases j m (buffer_calls true buffer_ops))
buffer_calls_lem_example = buffer_calls_lem true buffer_ops

abbrev side : Connection
side = record { fns = true; ctx = some 1; pd = some 2; cq = some 3; qp = some 4 }

abbrev info : PortInfo
info = record { lid = 5; qp_num = 300; gid = 70000 }

abbrev zeros : Memory
zeros i = 0

info-Fitting : Fitting (reported info)
info-Fitting = record {
  local_id = omega arith;
  qp_number = omega arith;
  packet_seq_number = omega arith;
  gid = omega arith;
}

activate-local_destination_example :
    activate side
      (deserialize (serialize (local_destination side 1 info []).1 zeros))
      1
      true
      true
      []
    ≡ (
      used pair 4 ready_to_send
          ∷ (used pair 4 (modified (to_rtr mtu_4096 300 0 1 12 5 70000 1)) ∷ []),
      true,
    )
activate-local_destination_example =
    activate-local_destination side side 1 info zeros [] [] info-Fitting refl refl refl refl refl
