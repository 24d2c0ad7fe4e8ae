-- ===== src/Coherence/Protocol.antt =====
-- csrc/coherence/CoherenceProtocol.cpp: the messages that a home node handles. The poller hands them
-- over one after the other.
pub mod Keeping
pub mod Frame
pub mod Sending
pub mod Exclusive
pub mod Barrier
pub mod BarrierAll
use mccl.Base.{
  ℕ, zero, suc, ◌+◌, ◌-◌, ◌*◌, ◌/◌, ◌%◌, ◌^◌, Bool, true, false, not, ◌&&◌, ◌||◌, Option, none,
  some, List, [], ◌∷◌, ◌++◌, ltb, leb, ◌==◌, if◌then◌else◌,
}
use mccl.Coherence.Directory.{
  CoherenceState, uncached, shared, exclusive, DirectoryEntry, Directory, has_sharer, add_sharer,
  sharer_count, clear_all_sharers, entry_at, update_entry,
}
use mccl.Coherence.Node.{
  CoherenceOp, read_req, read_reply, read_reply_dirty, exclusive_req, exclusive_grant, invalidate,
  inval_ack, writeback_req, writeback_data, barrier_enter, barrier_leave, Message, page_index,
  no_address, Node, Outcome, done, M, ◌>>◌, skip, when, inc64, advance_epoch, entry_of,
  send_message,
}

-- A change of the message's page in the directory.
unfoldable pub update : Message → (DirectoryEntry → DirectoryEntry) → M
update msg f n =
    let d = update_entry msg.page_addr.region_id (page_index msg.page_addr.offset) f n.directory in
    (done, record n { directory = d })

-- A message about the same page, with no sequence number.
abbrev pub about : CoherenceOp → Message → ℕ → Message
about op msg epoch = record { op = op; page_addr = msg.page_addr; epoch = epoch; sender_seq = 0 }

abbrev pub bump_epoch : DirectoryEntry → DirectoryEntry
bump_epoch e = record e { epoch = inc64 e.epoch }

abbrev pub share_if_uncached : DirectoryEntry → DirectoryEntry
share_if_uncached e = record e { state = elim e.state [ uncached ↦ shared | s ↦ s ] }

abbrev pub is_exclusive : DirectoryEntry → Bool
is_exclusive e = elim e.state [ exclusive ↦ true | _ ↦ false ]

-- The owner is set before `clear_all_sharers`, which resets it.
abbrev pub grant_to : ℕ → DirectoryEntry → DirectoryEntry
grant_to sender e =
    let owned : DirectoryEntry = record e { state = exclusive; exclusive_owner = sender % 256 } in
    bump_epoch (add_sharer sender (clear_all_sharers owned))

abbrev pub reset_barrier : M
reset_barrier n = (done, record n { barrier_count = 0 })

module _ (delivers : ℕ → Bool) where
  -- The loop over the nodes `i`, `i + 1`, … of the next `k` that sends to those that `wanted` names.
  unfoldable pub send_each : (ℕ → Bool) → Message → ℕ → ℕ → M
  send_each wanted msg zero i n = (done, n)
  send_each wanted msg (suc k) i n =
      let rest = send_each wanted msg k (i + 1) in
      (when (not (i == n.node_id) && wanted i) (send_message delivers i msg) >> rest) n

  -- `INVALIDATE` goes out with no address: the message is `CoherenceMessage{}` but for `op` and `epoch`.
  unfoldable pub invalidate_sharers : Message → M
  unfolding send_each
  invalidate_sharers msg n =
      let e = entry_of msg n in
      send_each (has_sharer e)
        (record { op = invalidate; page_addr = no_address; epoch = e.epoch; sender_seq = 0 })
        n.num_nodes 0 n

  -- Ask the owner of an exclusive page for its data, if `wanted`.
  unfoldable pub request_writeback : (DirectoryEntry → Bool) → Message → M
  request_writeback wanted msg n =
      let e = entry_of msg n in
      when (is_exclusive e && wanted e)
        (send_message delivers e.exclusive_owner (about writeback_req msg msg.epoch)) n

  unfoldable pub reply_read : Message → ℕ → M
  reply_read msg sender n =
      let e = entry_of msg n in
      let op = if is_exclusive e then read_reply_dirty else read_reply in
      send_message delivers sender (about op msg e.epoch) n

  unfoldable pub handle_read_req : Message → ℕ → M
  unfolding request_writeback reply_read
  handle_read_req msg sender =
      update msg (λ e. e)
      >> request_writeback (λ e. true) msg
      >> update msg (λ e. bump_epoch (share_if_uncached (add_sharer sender e)))
      >> reply_read msg sender

  unfoldable pub reply_grant : Message → ℕ → M
  reply_grant msg sender n =
      send_message delivers sender (about exclusive_grant msg (entry_of msg n).epoch) n

  unfoldable pub invalidate_if_shared : Message → M
  unfolding invalidate_sharers
  invalidate_if_shared msg n =
      when (ltb 0 (sharer_count (entry_of msg n))) (invalidate_sharers msg) n

  unfoldable pub handle_exclusive_req : Message → ℕ → M
  unfolding request_writeback reply_grant invalidate_if_shared
  handle_exclusive_req msg sender =
      update msg (λ e. e)
      >> invalidate_if_shared msg
      >> request_writeback (λ e. not (e.exclusive_owner == sender)) msg
      >> update msg (grant_to sender)
      >> reply_grant msg sender

  unfoldable pub handle_writeback_data : Message → M
  handle_writeback_data msg = update msg (λ e. bump_epoch (record e { state = uncached }))

  -- `BARRIER_LEAVE` to every other node.
  unfoldable pub broadcast_leave : M
  unfolding send_each
  broadcast_leave n =
      let leave : Message = record {
        op = barrier_leave;
        page_addr = no_address;
        epoch = n.global_epoch;
        sender_seq = 0;
      } in
      (advance_epoch >> send_each (λ i. true) leave n.num_nodes 0) n

  -- `num_nodes_ - 1` is compared as a `uint32_t`: `num_nodes` is at least 1.
  unfoldable pub handle_barrier_enter : M
  unfolding broadcast_leave
  handle_barrier_enter n =
      let count = (n.barrier_count + 1) % 2 ^ 32 in
      when (leb (n.num_nodes - 1) count) (broadcast_leave >> reset_barrier)
        (record n { barrier_count = count })

  unfoldable pub handle_message : Message → ℕ → M
  unfolding handle_read_req handle_exclusive_req handle_writeback_data handle_barrier_enter
  handle_message msg sender = elim msg.op [
    | read_req ↦ handle_read_req msg sender
    | exclusive_req ↦ handle_exclusive_req msg sender
    | writeback_data ↦ handle_writeback_data msg
    | inval_ack ↦ skip
    | barrier_enter ↦ handle_barrier_enter
    | barrier_leave ↦ advance_epoch
    | _ ↦ skip
  ]
