-- ===== src/Coherence/Protocol/BarrierAll.antt =====
-- `barrier_all` of csrc/coherence/CoherenceProtocol.cpp. A message is handled whole between two reads of
-- the loop's condition; the reads that fall inside a handler are not modelled.
use mccl.Base.{
  ℕ, suc, ◌+◌, ◌-◌, ◌%◌, ◌^◌, ◌≤◌, ◌<◌, ◌≡◌, refl, sym, ◌∙◌, ap, inl, inr, Bool, true, false,
  Option, none, some, List, [], ◌∷◌, find, arith, leb, ltb, if◌then◌else◌, Bool-cases, Option-cases,
}
use mccl.Coherence.Node.{
  barrier_enter, barrier_leave, no_address, Message, Node, Outcome, M, ◌>>◌, inc64, advance_epoch,
  send_message,
}
use mccl.Coherence.Protocol.{
  broadcast_leave, reset_barrier, handle_barrier_enter, handle_message, update,
}
use mccl.Coherence.Protocol.Keeping.{Keeps, handle_message-Keeps}
use mccl.Coherence.Protocol.Barrier.{enter_waits, enter_releases}
use mccl.Coherence.Protocol.Sending.{HasBuffers}

-- The condition of the head's loop.
abbrev pub head_waits : Node → Bool
head_waits n = ltb n.barrier_count (n.num_nodes - 1)

-- The condition of an agent's loop; `wait_epoch` is the epoch of its message.
abbrev pub agent_waits : ℕ → Node → Bool
agent_waits wait_epoch n = leb n.global_epoch ((wait_epoch + 1) % 2 ^ 64)

abbrev pub enter_message : ℕ → Message
enter_message epoch = record {
  op = barrier_enter;
  page_addr = no_address;
  epoch = epoch;
  sender_seq = 0;
}

module _ (delivers : ℕ → Bool) where
  -- The head's call with the messages that are handled meanwhile; none if it waits after all of them.
  unfoldable pub head_barrier : List (Message × ℕ) → Node → Option (Outcome × Node)
  unfolding broadcast_leave handle_message
  head_barrier [] n =
      if head_waits n then none else some ((broadcast_leave delivers >> reset_barrier) n)
  head_barrier ((msg, sender) ∷ msgs) n =
      let rest = head_barrier msgs (handle_message delivers msg sender n).1 in
      if head_waits n then rest else some ((broadcast_leave delivers >> reset_barrier) n)

  -- An agent's call up to its loop.
  unfoldable pub agent_enter : M
  unfolding send_message
  agent_enter n = (advance_epoch >> send_message delivers 0 (enter_message n.global_epoch)) n

module _ (delivers : ℕ → Bool) (open_links : (i : ℕ) → delivers i ≡ true) where
  -- Fewer have entered than are to be waited for, and the head's peers are those of `n`.
  abbrev Waits : Node → Node → Type 0
  Waits n m =
      (m.num_nodes ≡ n.num_nodes)
      × (m.node_id ≡ n.node_id)
      × (m.msg_bufs ≡ n.msg_bufs)
      × (m.barrier_count < n.num_nodes - 1)

  module _ (n : Node) (two : 2 ≤ n.num_nodes) (small : n.num_nodes < 2 ^ 32)
      (b : HasBuffers n) where
    buffers : (m : Node) → Waits n m → HasBuffers m
    buffers m w i h other =
        let (r, e) = b i (omega (arith, w.0)) (λ q. other (q ∙ sym w.1)) in (r, ap (find i) w.2 ∙ e)

    enter-Waits : Keeps (Waits n) (handle_barrier_enter delivers)
    enter-Waits m w = elim (Bool-cases (ltb (suc m.barrier_count) (m.num_nodes - 1))) [
      | inl below ↦
          rw (enter_waits delivers open_links m (ground arith) (omega arith))
            (w.0, w.1, w.2, ground arith)
      | inr last ↦
          rw (enter_releases delivers open_links m (ground arith) (omega arith) (buffers m w))
            (w.0, w.1, w.2, omega arith)
    ]

    handle_message-Waits :
        (msg : Message) (sender : ℕ) → Keeps (Waits n) (handle_message delivers msg sender)
    unfolding update
    handle_message-Waits msg sender =
        handle_message-Keeps (Waits n) (λ m t e w. w) delivers msg sender (λ m w. w) (λ m w. w)
          (λ m w. w) (λ m w. w) enter-Waits

    head_barrier-none :
        (msgs : List (Message × ℕ)) (m : Node) → Waits n m → head_barrier delivers msgs m ≡ none
    unfolding head_barrier
    head_barrier-none [] m w = let waits : head_waits m ≡ true = ground arith in rw waits refl
    head_barrier-none ((msg, sender) ∷ msgs) m w =
        let waits : head_waits m ≡ true = ground arith in
        rw waits (
          head_barrier-none msgs (handle_message delivers msg sender m).1
            (handle_message-Waits msg sender m w))

    -- However many messages are handled, and whichever they are, a head that calls `barrier_all` before all
    -- other nodes have entered is still waiting: the handler of the last `BARRIER_ENTER` sets the count
    -- that the head waits for back to 0. The conditions are that there is another node, that every other
    -- node has a message buffer, that every call of the memory manager succeeds, and that no read of the
    -- loop's condition falls inside a handler.
    pub head_barrier_lem :
        (msgs : List (Message × ℕ))
        → n.barrier_count < n.num_nodes - 1
        → head_barrier delivers msgs n ≡ none
    head_barrier_lem msgs below = head_barrier-none msgs n (refl, refl, refl, below)

entered_epoch :
    (delivers : ℕ → Bool) (n : Node)
    → (agent_enter delivers n).1.global_epoch ≡ inc64 n.global_epoch
unfolding agent_enter send_message
entered_epoch delivers n = elim (Option-cases (find 0 n.msg_bufs)) [
  | inl e ↦ rw (e, send_message) refl
  | inr (r, e) ↦ elim (Bool-cases (delivers 0)) [
    | inl d ↦ rw (e, send_message, d) refl
    | inr d ↦ rw (e, send_message, d) refl
  ]
]

left_epoch :
    (delivers : ℕ → Bool) (leave : Message) (sender : ℕ) (n : Node)
    → leave.op ≡ barrier_leave
    → (handle_message delivers leave sender n).1.global_epoch ≡ inc64 n.global_epoch
unfolding handle_message
left_epoch delivers leave sender n is_leave = rw (is_leave, handle_message) refl

-- An agent that has entered waits, and once a `BARRIER_LEAVE` is handled it does not, whether or not its
-- message has gone out. The condition is that the epoch does not wrap.
pub agent_enter_lem :
    (delivers : ℕ → Bool) (n : Node) (sender : ℕ) (leave : Message)
    → n.global_epoch + 2 < 2 ^ 64
    → leave.op ≡ barrier_leave
    → let entered = (agent_enter delivers n).1 in
      (agent_waits n.global_epoch entered ≡ true)
      × (agent_waits n.global_epoch (handle_message delivers leave sender entered).1 ≡ false)
agent_enter_lem delivers n sender leave small is_leave =
    let first = entered_epoch delivers n in
    let second = left_epoch delivers leave sender (agent_enter delivers n).1 is_leave in
    let next : inc64 n.global_epoch ≡ n.global_epoch + 1 = omega arith in
    let next' : inc64 (n.global_epoch + 1) ≡ n.global_epoch + 2 = omega arith in
    (ground arith, rw second (rw first (ground arith)))
