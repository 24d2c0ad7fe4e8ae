-- ===== src/Coherence/Protocol/Exclusive.antt =====
-- Exclusive access: `EXCLUSIVE_REQ` and `READ_REQ` of csrc/coherence/CoherenceProtocol.cpp.
use mccl.Base.{
  ℕ, ◌<◌, ◌≡◌, ◌⊎◌, sym, subst, ◌∙◌, ap, inl, inr, Bool, true, false, not, ◌&&◌, ◌||◌, none, some,
  List, [], ◌∷◌, ◌++◌, arith, ltb, ◌==◌, if◌then◌else◌, find,
}
use mccl.Coherence.Directory.{exclusive, DirectoryEntry, has_sharer, sharer_count, entry_at}
use mccl.Coherence.Directory.Sharers.{in_mask-mask_with, in_mask-zero}
use mccl.Coherence.Node.{
  exclusive_grant, invalidate, writeback_req, Message, no_address, Effect, sends, Node, done,
  no_message_buffer, ◌>>◌, inc64, entry_of, page_index, send_message,
}
use mccl.Coherence.Protocol.{
  update, invalidate_sharers, invalidate_if_shared, request_writeback, reply_grant, about,
  is_exclusive, grant_to, handle_exclusive_req, handle_read_req,
}
use mccl.Coherence.Protocol.Sending.{
  HasBuffers, logged, >>-done, when-logged, sends_to, entry_of-update, send_message_lem,
  send_each_lem,
}

-- The messages that an exclusive request for the page with entry `e` makes the node send.
abbrev pub invalidations : Node → DirectoryEntry → List Effect
invalidations n e =
    if ltb 0 (sharer_count e)
    then sends_to (has_sharer e)
        (record { op = invalidate; page_addr = no_address; epoch = e.epoch; sender_seq = 0 })
        n.node_id n.num_nodes 0
    else []

abbrev pub writeback_wanted : ℕ → DirectoryEntry → Bool
writeback_wanted sender e = is_exclusive e && not (e.exclusive_owner == sender)

abbrev pub writeback_requests : Message → ℕ → DirectoryEntry → List Effect
writeback_requests msg sender e =
    if writeback_wanted sender e
    then sends e.exclusive_owner (about writeback_req msg msg.epoch) ∷ []
    else []

-- Whether the recorded owner, if it has to be asked, can be.
abbrev pub OwnerReachable : Message → ℕ → Node → Type 0
OwnerReachable msg sender n =
    (writeback_wanted sender (entry_of msg n) ≡ false)
    ⊎ ((r : ℕ) × (find (entry_of msg n).exclusive_owner n.msg_bufs ≡ some r))

module _ (delivers : ℕ → Bool) (open_links : (i : ℕ) → delivers i ≡ true) where
  invalidate_lem :
      (msg : Message) (n : Node)
      → HasBuffers n
      → invalidate_if_shared delivers msg n ≡ (done, logged (invalidations n (entry_of msg n)) n)
  unfolding invalidate_if_shared
  invalidate_lem msg n b =
      let e = entry_of msg n in
      let inv : Message = record {
        op = invalidate;
        page_addr = no_address;
        epoch = e.epoch;
        sender_seq = 0;
      } in
      when-logged (ltb 0 (sharer_count e)) (invalidate_sharers delivers msg)
        (sends_to (has_sharer e) inv n.node_id n.num_nodes 0) n
        (λ _. send_each_lem delivers open_links (has_sharer e) inv n.num_nodes 0 n b (omega arith))

  request_lem :
      (msg : Message) (sender : ℕ) (n : Node)
      → OwnerReachable msg sender n
      → request_writeback delivers (λ e. not (e.exclusive_owner == sender)) msg n
        ≡ (done, logged (writeback_requests msg sender (entry_of msg n)) n)
  unfolding request_writeback
  request_lem msg sender n reach =
      let e = entry_of msg n in
      let ask = about writeback_req msg msg.epoch in
      when-logged (writeback_wanted sender e) (send_message delivers e.exclusive_owner ask)
        (sends e.exclusive_owner ask ∷ []) n (asked reach)
    where
      asked :
          OwnerReachable msg sender n
          → writeback_wanted sender (entry_of msg n) ≡ true
          → send_message delivers
              (entry_of msg n).exclusive_owner
              (about writeback_req msg msg.epoch)
              n
            ≡ (
              done,
              logged
                  (sends (entry_of msg n).exclusive_owner (about writeback_req msg msg.epoch) ∷ [])
                  n,
            )
      asked (inl miss) hit = cc
      asked (inr (r, known)) hit =
          send_message_lem delivers open_links (entry_of msg n).exclusive_owner
            (about writeback_req msg msg.epoch) n known

  -- The state after an exclusive request, in the order of the handler's steps.
  abbrev touched : Message → Node → Node
  touched msg n = (update msg (λ e. e) n).1

  abbrev asked_all : Message → ℕ → Node → Node
  asked_all msg sender n =
      logged (writeback_requests msg sender (entry_of msg (touched msg n)))
        (logged (invalidations n (entry_of msg (touched msg n))) (touched msg n))

  abbrev granted : Message → ℕ → Node → Node
  granted msg sender n =
      let n' = (update msg (grant_to sender) (asked_all msg sender n)).1 in
      logged (sends sender (about exclusive_grant msg (entry_of msg n').epoch) ∷ []) n'

  exclusive_steps :
      (msg : Message) (sender s : ℕ) (n : Node)
      → HasBuffers n
      → find sender n.msg_bufs ≡ some s
      → OwnerReachable msg sender n
      → handle_exclusive_req delivers msg sender n ≡ (done, granted msg sender n)
  unfolding handle_exclusive_req update reply_grant
  exclusive_steps msg sender s n b to_sender reach =
      let start = update msg (λ e. e) in
      let inv = invalidate_if_shared delivers msg in
      let ask = request_writeback delivers (λ e. not (e.exclusive_owner == sender)) msg in
      let grant = update msg (grant_to sender) in
      let n₁ = touched msg n in
      let n₂ = logged (invalidations n (entry_of msg n₁)) n₁ in
      let same = entry_of-update msg (λ e. e) n in
      let reach₂ : OwnerReachable msg sender n₂ =
        subst
          (λ e.
            (writeback_wanted sender e ≡ false)
            ⊎ ((r : ℕ) × (find e.exclusive_owner n.msg_bufs ≡ some r)))
          (sym same) reach in
      let done₂ : (start >> inv) n ≡ (done, n₂) = invalidate_lem msg n₁ b in
      let done₃ : (start >> inv >> ask) n ≡ (done, asked_all msg sender n) =
        >>-done (start >> inv) ask n n₂ done₂ ∙ request_lem msg sender n₂ reach₂ in
      let done₄ : (start >> inv >> ask >> grant) n ≡ grant (asked_all msg sender n) =
        >>-done (start >> inv >> ask) grant n (asked_all msg sender n) done₃ in
      >>-done (start >> inv >> ask >> grant) (reply_grant delivers msg sender) n
        (grant (asked_all msg sender n)).1 done₄
      ∙ send_message_lem delivers open_links sender
          (about exclusive_grant msg (entry_of msg (grant (asked_all msg sender n)).1).epoch)
          (grant (asked_all msg sender n)).1 to_sender

  -- An exclusive request is answered: invalidations go to the sharers, but with no page's address in
  -- them, a writeback request to the recorded owner of an exclusive page if that is not the sender, and
  -- the grant to the sender, in this order. The page's entry is then exclusive, has the next epoch, and
  -- has the sender as its only sharer, but the recorded owner is node 0 whoever asked. The conditions
  -- are that the sender's number is below 8, since the sharers are 8 bits, that every call of the memory
  -- manager succeeds, and that the sender, every other node and the recorded owner, if it is asked, have
  -- message buffers.
  pub handle_exclusive_req_lem :
      (msg : Message) (sender m s : ℕ) (n : Node)
      → HasBuffers n
      → sender < 8
      → m < 8
      → find sender n.msg_bufs ≡ some s
      → OwnerReachable msg sender n
      → let e = entry_of msg n in
        let (o, n') = handle_exclusive_req delivers msg sender n in
        let e' = entry_of msg n' in
        (o ≡ done)
        × (n'.trace
            ≡ ((n.trace ++ invalidations n e) ++ writeback_requests msg sender e)
              ++ (sends sender (about exclusive_grant msg (inc64 e.epoch)) ∷ []))
        × (e'.state ≡ exclusive)
        × (e'.epoch ≡ inc64 e.epoch)
        × (has_sharer e' m ≡ (sender == m))
        × (e'.exclusive_owner ≡ 0)
  unfolding update
  handle_exclusive_req_lem msg sender m s n b hs hm to_sender reach =
      let whole = exclusive_steps msg sender s n b to_sender reach in
      let final = granted msg sender n in
      let same = entry_of-update msg (λ e. e) n in
      let entry : entry_of msg final ≡ grant_to sender (entry_of msg n) =
        entry_of-update msg (grant_to sender) (asked_all msg sender n)
        ∙ ap (grant_to sender) same in
      let entry' : entry_of msg (handle_exclusive_req delivers msg sender n).1
          ≡ grant_to sender (entry_of msg n) =
        ap (λ r. entry_of msg r.1) whole ∙ entry in
      let member =
        in_mask-mask_with 0 sender m (omega arith) hs hm
        ∙ ap (λ x. sender == m || x) (in_mask-zero m hm) in
      (
        ap (λ r. r.0) whole,
        ap (λ r. r.1.trace) whole
            ∙ ap
                (λ e.
                  ((n.trace ++ invalidations n e) ++ writeback_requests msg sender e)
                  ++ (sends sender (about exclusive_grant msg (entry_of msg final).epoch) ∷ []))
                same
            ∙ ap
                (λ e.
                  ((n.trace ++ invalidations n (entry_of msg n))
                    ++ writeback_requests msg sender (entry_of msg n))
                  ++ (sends sender (about exclusive_grant msg e.epoch) ∷ []))
                entry,
        ap (λ e. e.state) entry',
        ap (λ e. e.epoch) entry',
        ap (λ e. has_sharer e m) entry' ∙ member ∙ ground arith,
        ap (λ e. e.exclusive_owner) entry',
      )

  read_of_exclusive :
      (msg : Message) (reader : ℕ) (n : Node)
      → (entry_of msg n).state ≡ exclusive
      → (entry_of msg n).exclusive_owner ≡ 0
      → find 0 n.msg_bufs ≡ none
      → handle_read_req delivers msg reader n ≡ (no_message_buffer, touched msg n)
  unfolding handle_read_req update request_writeback send_message
  read_of_exclusive msg reader n ex owner self =
      let same = entry_of-update msg (λ e. e) n in
      let ex' : (entry_of msg (touched msg n)).state ≡ exclusive = ap (λ e. e.state) same ∙ ex in
      let owner' : (entry_of msg (touched msg n)).exclusive_owner ≡ 0 =
        ap (λ e. e.exclusive_owner) same ∙ owner in
      let missing : find (entry_of msg (touched msg n)).exclusive_owner n.msg_bufs ≡ none =
        ap (λ i. find i n.msg_bufs) owner' ∙ self in
      ground (arith, ex', missing)

  -- At node 0, once any node was granted a page, no read of that page is answered: the handler asks
  -- the recorded owner, which is node 0 itself and has no message buffer there, and throws before it
  -- sends anything. The conditions are those of the grant, and that the node has no buffer for itself.
  pub read_after_grant :
      (msg read : Message) (sender reader s : ℕ) (n : Node)
      → HasBuffers n
      → sender < 8
      → find sender n.msg_bufs ≡ some s
      → OwnerReachable msg sender n
      → find 0 n.msg_bufs ≡ none
      → read.page_addr ≡ msg.page_addr
      → let n' = (handle_exclusive_req delivers msg sender n).1 in
        ((handle_read_req delivers read reader n').0 ≡ no_message_buffer)
        × ((handle_read_req delivers read reader n').1.trace ≡ n'.trace)
  unfolding update
  read_after_grant msg read sender reader s n b hs to_sender reach self same =
      let n' = (handle_exclusive_req delivers msg sender n).1 in
      let granted = handle_exclusive_req_lem msg sender 0 s n b hs (omega arith) to_sender reach in
      let page : entry_of read n' ≡ entry_of msg n' =
        ap (λ a. entry_at a.region_id (page_index a.offset) n'.directory) same in
      let bufs : n'.msg_bufs ≡ n.msg_bufs =
        ap (λ r. r.1.msg_bufs) (exclusive_steps msg sender s n b to_sender reach) in
      let fails =
        read_of_exclusive read reader n' (ap (λ e. e.state) page ∙ granted.2)
          (ap (λ e. e.exclusive_owner) page ∙ granted.5) (ap (find 0) bufs ∙ self) in
      (ap (λ r. r.0) fails, ap (λ r. r.1.trace) fails)
