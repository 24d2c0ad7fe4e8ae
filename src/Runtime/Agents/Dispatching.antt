-- ===== src/Runtime/Agents/Dispatching.antt =====
-- What a data-parallel dispatch of csrc/runtime/DistributedMetalRuntime.cpp comes to on the head.
use mccl.Base.{
  ℕ, ◌-◌, ◌^◌, ◌≤◌, ◌<◌, ◌≡◌, ◌≢◌, refl, sym, ◌∙◌, ap, Bool, true, false, none, List, [], ◌∷◌,
  arith, find, if◌then◌else◌,
}
use mccl.Dmem.Address.{GlobalAddress}
use mccl.Coherence.Node.{
  Message, read_req, exclusive_req, Node, Outcome, done, no_message_buffer, put_failed, null_source,
  send_message,
}
use mccl.Coherence.Cache.{align, read_page}
use mccl.Coherence.Protocol.Sending.{HasBuffers}
use mccl.Coherence.Protocol.BarrierAll.{head_barrier, head_barrier_lem}
use mccl.Runtime.Agents.{
  Work, Runtime, returns, read_inputs, all_remote, meet_and_run, dispatch_data_parallel,
}

-- The fields that the barrier looks at are the same.
abbrev SameBarrier : Node → Node → Type 0
SameBarrier n m =
    (m.num_nodes ≡ n.num_nodes)
    × (m.node_id ≡ n.node_id)
    × (m.msg_bufs ≡ n.msg_bufs)
    × (m.barrier_count ≡ n.barrier_count)

module _ (delivers : ℕ → Bool) where
  send_message-Same :
      (target : ℕ) (msg : Message) (n : Node) → SameBarrier n (send_message delivers target msg n).1
  unfolding send_message
  send_message-Same target msg n = ground arith

  read_page-Same :
      (a : GlobalAddress) (w : Bool) (n : Node) → SameBarrier n (read_page delivers a w n).1
  unfolding read_page
  read_page-Same a w n =
      let request : Message = record {
        op = if w then exclusive_req else read_req;
        page_addr = align a;
        epoch = n.global_epoch;
        sender_seq = 0;
      } in
      ground (arith, send_message-Same (align a).node_id request n)

  read_inputs-Same :
      (as' : List GlobalAddress) (n : Node) → SameBarrier n (read_inputs delivers as' n).1
  unfolding read_inputs
  read_inputs-Same [] n = (refl, refl, refl, refl)
  read_inputs-Same (a ∷ as') n =
      let here = read_page-Same a false n in
      let rest = read_inputs-Same as' (read_page delivers a false n).1 in ground (arith, here, rest)

  -- What is left of a dispatch whose barrier waits, or whose reading of the inputs threw.
  meet_and_run-waits :
      (before after : List (Message × ℕ)) (rt : Runtime) (works : List Work) (o : Outcome)
      (n : Node)
      → head_barrier delivers before n ≡ none
      → let (e, events, m) = meet_and_run delivers before after rt works (o, n) in
        (events ≡ []) × (e ≢ returns)
  unfolding meet_and_run
  meet_and_run-waits before after rt works done n h = ground (arith, h)
  meet_and_run-waits before after rt works no_message_buffer n h = (refl, λ e. cc)
  meet_and_run-waits before after rt works put_failed n h = (refl, λ e. cc)
  meet_and_run-waits before after rt works null_source n h = (refl, λ e. cc)

-- A data-parallel dispatch sends no agent a command and does not return, whatever the works and whichever
-- messages the head handles meanwhile: reading a remote input throws, or the head waits in its first
-- `barrier_all`. The conditions are those of the barrier: there is another node and not all of them have
-- entered yet, every other node has a message buffer, every call of the memory manager succeeds, and no
-- read of the barrier's condition falls inside a handler.
pub dispatch_data_parallel_lem :
    (delivers : ℕ → Bool) (before after : List (Message × ℕ)) (rt : Runtime) (works : List Work)
    (n : Node)
    → ((i : ℕ) → delivers i ≡ true)
    → 2 ≤ n.num_nodes
    → n.num_nodes < 2 ^ 32
    → HasBuffers n
    → n.barrier_count < n.num_nodes - 1
    → let (e, events, m) = dispatch_data_parallel delivers before after rt works n in
      (events ≡ []) × (e ≢ returns)
unfolding dispatch_data_parallel
dispatch_data_parallel_lem delivers before after rt works n open_links two small b below =
    let inputs = all_remote (λ b. b.is_input) works in
    let m : Node = (read_inputs delivers inputs n).1 in
    let same = read_inputs-Same delivers inputs n in
    let buffers : HasBuffers m = λ i h other.
      let (r, e) = b i (omega (arith, same.0)) (λ q. other (q ∙ sym same.1)) in
      (r, ap (find i) same.2 ∙ e) in
    meet_and_run-waits delivers before after rt works (read_inputs delivers inputs n).0 m (
      head_barrier_lem delivers open_links m (omega (arith, same.0)) (omega (arith, same.0)) buffers
        before (omega (arith, same.0, same.3)))
