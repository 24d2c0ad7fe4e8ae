-- ===== src/Coherence/Protocol/Keeping.antt =====
-- The handlers of csrc/coherence/CoherenceProtocol.cpp, each with the predicates of the state that it keeps,
-- also when it throws.
use mccl.Base.{
  ℕ, zero, suc, ◌+◌, ◌≡◌, ◌-◌, ◌%◌, ◌^◌, refl, inl, inr, Bool, true, false, not, ◌&&◌, ltb, List,
  ◌==◌, if◌then◌else◌, Bool-cases, Option-cases, find, leb,
}
use mccl.Coherence.Directory.{
  uncached, DirectoryEntry, Directory, has_sharer, add_sharer, sharer_count,
}
use mccl.Coherence.Node.{
  CoherenceOp, read_req, exclusive_req, writeback_data, barrier_enter, barrier_leave, Message,
  Effect, Node, Outcome, done, M, no_address, writeback_req, invalidate, read_reply,
  read_reply_dirty, exclusive_grant, inc64, ◌>>◌, when, entry_of, send_message,
}
use mccl.Coherence.Protocol.{
  update, send_each, invalidate_sharers, request_writeback, reply_read, handle_read_req,
  reply_grant, invalidate_if_shared, handle_exclusive_req, handle_writeback_data, broadcast_leave,
  handle_barrier_enter, handle_message, about, is_exclusive, bump_epoch, share_if_uncached,
  grant_to, reset_barrier,
}

-- What holds of the state before a call holds after it, whatever its outcome.
abbrev pub Keeps : (Node → Type 0) → M → Type 0
Keeps P m = (n : Node) → P n → P (m n).1

>>-Keeps : (P : Node → Type 0) (m k : M) → Keeps P m → Keeps P k → Keeps P (m >> k)
>>-Keeps P m k hm hk n p = go (m n).0 refl
  where
    go : (o : Outcome) → (m n).0 ≡ o → P ((m >> k) n).1
    go done e = rw (e, ◌>>◌) (hk (m n).1 (hm n p))
    go _ e = rw (e, ◌>>◌) (hm n p)

-- A predicate that does not look at the trace and the epoch.
abbrev pub IsQuiet : (Node → Type 0) → Type 0
IsQuiet P =
    (n : Node) (t : List Effect) (e : ℕ) → P n → P (record n { trace = t; global_epoch = e })

module _ (P : Node → Type 0) (quiet : IsQuiet P) (delivers : ℕ → Bool) where
  when-Keeps : (b : Bool) (m : M) → Keeps P m → Keeps P (when b m)
  when-Keeps true m h n p = h n p
  when-Keeps false m h n p = p

  send_message-Keeps : (target : ℕ) (msg : Message) → Keeps P (send_message delivers target msg)
  unfolding send_message
  send_message-Keeps target msg n p = elim (Option-cases (find target n.msg_bufs)) [
    | inl e ↦ rw (e, send_message) p
    | inr (r, e) ↦ elim (Bool-cases (delivers target)) [
      | inl d ↦ rw (e, send_message, d) (quiet n _ n.global_epoch p)
      | inr d ↦ rw (e, send_message, d) p
    ]
  ]

  send_each-Keeps :
      (wanted : ℕ → Bool) (msg : Message) (k i : ℕ) → Keeps P (send_each delivers wanted msg k i)
  unfolding send_each
  send_each-Keeps wanted msg zero i n p = p
  send_each-Keeps wanted msg (suc k) i n p =
      >>-Keeps P (when (not (i == n.node_id) && wanted i) (send_message delivers i msg))
        (send_each delivers wanted msg k (i + 1))
        (when-Keeps (not (i == n.node_id) && wanted i) _ (send_message-Keeps i msg))
        (send_each-Keeps wanted msg k (i + 1)) n p

  invalidate_if_shared-Keeps : (msg : Message) → Keeps P (invalidate_if_shared delivers msg)
  unfolding invalidate_if_shared
  invalidate_if_shared-Keeps msg n p =
      when-Keeps (ltb 0 (sharer_count (entry_of msg n))) (invalidate_sharers delivers msg)
        (λ m q.
          send_each-Keeps (has_sharer (entry_of msg m))
            (record {
              op = invalidate;
              page_addr = no_address;
              epoch = (entry_of msg m).epoch;
              sender_seq = 0;
            })
            m.num_nodes 0 m q)
        n p

  request_writeback-Keeps :
      (wanted : DirectoryEntry → Bool) (msg : Message)
      → Keeps P (request_writeback delivers wanted msg)
  unfolding request_writeback
  request_writeback-Keeps wanted msg n p =
      let e = entry_of msg n in
      let ask = about writeback_req msg msg.epoch in
      when-Keeps (is_exclusive e && wanted e) (send_message delivers e.exclusive_owner ask)
        (send_message-Keeps e.exclusive_owner ask) n p

  reply_read-Keeps : (msg : Message) (sender : ℕ) → Keeps P (reply_read delivers msg sender)
  unfolding reply_read
  reply_read-Keeps msg sender n p =
      let e = entry_of msg n in
      let op = if is_exclusive e then read_reply_dirty else read_reply in
      send_message-Keeps sender (about op msg e.epoch) n p

  reply_grant-Keeps : (msg : Message) (sender : ℕ) → Keeps P (reply_grant delivers msg sender)
  unfolding reply_grant
  reply_grant-Keeps msg sender n p =
      send_message-Keeps sender (about exclusive_grant msg (entry_of msg n).epoch) n p

  broadcast_leave-Keeps : Keeps P (broadcast_leave delivers)
  unfolding broadcast_leave
  broadcast_leave-Keeps n p =
      let leave : Message = record {
        op = barrier_leave;
        page_addr = no_address;
        epoch = n.global_epoch;
        sender_seq = 0;
      } in
      send_each-Keeps (λ i. true) leave n.num_nodes 0
        (record n { global_epoch = inc64 n.global_epoch }) (quiet n n.trace _ p)

  -- A change of the message's page keeps the predicate.
  abbrev UpdateKeeps : Message → (DirectoryEntry → DirectoryEntry) → Type 0
  UpdateKeeps msg f = Keeps P (update msg f)

  read_req-Keeps :
      (msg : Message) (sender : ℕ)
      → UpdateKeeps msg (λ e. e)
      → UpdateKeeps msg (λ e. bump_epoch (share_if_uncached (add_sharer sender e)))
      → Keeps P (handle_read_req delivers msg sender)
  unfolding handle_read_req
  read_req-Keeps msg sender touched read =
      let f : DirectoryEntry → DirectoryEntry =
        λ e. bump_epoch (share_if_uncached (add_sharer sender e)) in
      let ask = request_writeback delivers (λ e. true) msg in
      let reply = reply_read delivers msg sender in
      >>-Keeps P (update msg (λ e. e) >> ask >> update msg f) reply
        (>>-Keeps P (update msg (λ e. e) >> ask) (update msg f)
          (>>-Keeps P (update msg (λ e. e)) ask touched (request_writeback-Keeps (λ e. true) msg))
          read)
        (reply_read-Keeps msg sender)

  exclusive_req-Keeps :
      (msg : Message) (sender : ℕ)
      → UpdateKeeps msg (λ e. e)
      → UpdateKeeps msg (grant_to sender)
      → Keeps P (handle_exclusive_req delivers msg sender)
  unfolding handle_exclusive_req
  exclusive_req-Keeps msg sender touched granted =
      let other : DirectoryEntry → Bool = λ e. not (e.exclusive_owner == sender) in
      let start = update msg (λ e. e) in
      let inv = invalidate_if_shared delivers msg in
      let ask = request_writeback delivers other msg in
      let grant = update msg (grant_to sender) in
      >>-Keeps P (start >> inv >> ask >> grant) (reply_grant delivers msg sender)
        (>>-Keeps P (start >> inv >> ask) grant
          (>>-Keeps P (start >> inv) ask
            (>>-Keeps P start inv touched (invalidate_if_shared-Keeps msg))
            (request_writeback-Keeps other msg))
          granted)
        (reply_grant-Keeps msg sender)

  -- A message keeps a predicate that the changes which it can make to its page's entry keep.
  pub handle_message-Keeps :
      (msg : Message) (sender : ℕ)
      → UpdateKeeps msg (λ e. e)
      → UpdateKeeps msg (λ e. bump_epoch (share_if_uncached (add_sharer sender e)))
      → UpdateKeeps msg (grant_to sender)
      → UpdateKeeps msg (λ e. bump_epoch (record e { state = uncached }))
      → Keeps P (handle_barrier_enter delivers)
      → Keeps P (handle_message delivers msg sender)
  unfolding handle_message handle_writeback_data
  handle_message-Keeps msg sender touched read granted written entered n p = go msg.op refl
    where
      go : (op : CoherenceOp) → msg.op ≡ op → P (handle_message delivers msg sender n).1
      go read_req e = rw (e, handle_message) (read_req-Keeps msg sender touched read n p)
      go exclusive_req e =
          rw (e, handle_message) (exclusive_req-Keeps msg sender touched granted n p)
      go writeback_data e = rw (e, handle_message) (written n p)
      go barrier_enter e = rw (e, handle_message) (entered n p)
      go barrier_leave e = rw (e, handle_message) (quiet n n.trace _ p)
      go _ e = rw (e, handle_message) p

-- A predicate of the directory alone.
module _ (Q : Directory → Type 0) (delivers : ℕ → Bool) where
  abbrev OfDirectory : Node → Type 0
  OfDirectory n = Q n.directory

  barrier_enter-Keeps : Keeps OfDirectory (handle_barrier_enter delivers)
  unfolding handle_barrier_enter
  barrier_enter-Keeps n p =
      let count = (n.barrier_count + 1) % 2 ^ 32 in
      when-Keeps OfDirectory (λ m t e q. q) delivers (leb (n.num_nodes - 1) count)
        (broadcast_leave delivers >> reset_barrier)
        (>>-Keeps OfDirectory (broadcast_leave delivers) reset_barrier
          (broadcast_leave-Keeps OfDirectory (λ m t e q. q) delivers) (λ m q. q))
        (record n { barrier_count = count }) p

  pub directory-Keeps :
      (msg : Message) (sender : ℕ)
      → Keeps OfDirectory (update msg (λ e. e))
      → Keeps OfDirectory (update msg (λ e. bump_epoch (share_if_uncached (add_sharer sender e))))
      → Keeps OfDirectory (update msg (grant_to sender))
      → Keeps OfDirectory (update msg (λ e. bump_epoch (record e { state = uncached })))
      → Keeps OfDirectory (handle_message delivers msg sender)
  directory-Keeps msg sender touched read granted written =
      handle_message-Keeps OfDirectory (λ m t e q. q) delivers msg sender touched read granted
        written barrier_enter-Keeps
