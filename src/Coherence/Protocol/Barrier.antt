-- ===== src/Coherence/Protocol/Barrier.antt =====
-- The barrier at the head node: `BARRIER_ENTER` of csrc/coherence/CoherenceProtocol.cpp.
use mccl.Base.{
  ℕ, zero, suc, ◌+◌, ◌-◌, ◌%◌, ◌^◌, ◌≤◌, ◌<◌, ◌≡◌, ◌∙◌, ap, inl, inr, Bool, true, List, ◌++◌, arith,
  leb, ltb, if◌then◌else◌, Bool-cases,
}
use mccl.Coherence.Node.{barrier_leave, no_address, Effect, Node, Outcome, done, ◌>>◌, inc64}
use mccl.Coherence.Protocol.{broadcast_leave, reset_barrier, handle_barrier_enter}
use mccl.Coherence.Protocol.Sending.{HasBuffers, logged, >>-done, sends_to, send_each_lem}

-- The messages that release the other nodes at this epoch.
abbrev pub releases : Node → List Effect
releases n =
    sends_to (λ i. true)
      (record {
        op = barrier_leave;
        page_addr = no_address;
        epoch = n.global_epoch;
        sender_seq = 0;
      })
      n.node_id n.num_nodes 0

-- `k` nodes enter the barrier, one after the other.
unfoldable pub enter : (ℕ → Bool) → ℕ → Node → Outcome × Node
enter delivers zero n = (done, n)
enter delivers (suc k) n = (enter delivers k >> handle_barrier_enter delivers) n

module _ (delivers : ℕ → Bool) (open_links : (i : ℕ) → delivers i ≡ true) where
  pub enter_waits :
      (n : Node)
      → suc n.barrier_count < n.num_nodes - 1
      → n.num_nodes < 2 ^ 32
      → handle_barrier_enter delivers n ≡ (done, record n { barrier_count = suc n.barrier_count })
  unfolding handle_barrier_enter
  enter_waits n h small =
      let count : (n.barrier_count + 1) % 2 ^ 32 ≡ suc n.barrier_count = omega arith in
      ground (arith, count)

  pub enter_releases :
      (n : Node)
      → suc n.barrier_count ≡ n.num_nodes - 1
      → n.num_nodes < 2 ^ 32
      → HasBuffers n
      → handle_barrier_enter delivers n ≡ (
        done,
        record n {
          barrier_count = 0;
          global_epoch = inc64 n.global_epoch;
          trace = n.trace ++ releases n;
        },
      )
  unfolding handle_barrier_enter broadcast_leave
  enter_releases n h small b =
      let n₁ : Node = record n {
        barrier_count = (n.barrier_count + 1) % 2 ^ 32;
        global_epoch = inc64 n.global_epoch;
      } in
      let last : leb (n.num_nodes - 1) ((n.barrier_count + 1) % 2 ^ 32) ≡ true = ground arith in
      rw last (
        >>-done (broadcast_leave delivers) reset_barrier
          (record n { barrier_count = (n.barrier_count + 1) % 2 ^ 32 }) (logged (releases n) n₁)
          (send_each_lem delivers open_links (λ i. true)
            (record {
              op = barrier_leave;
              page_addr = no_address;
              epoch = n.global_epoch;
              sender_seq = 0;
            })
            n.num_nodes 0 n₁ b (omega arith)))

  enter_below :
      (k : ℕ) (n : Node)
      → k < n.num_nodes - 1
      → n.num_nodes < 2 ^ 32
      → n.barrier_count ≡ 0
      → enter delivers k n ≡ (done, record n { barrier_count = k })
  unfolding enter
  enter_below zero n h small z = λ i. (done, record n { barrier_count = z i })
  enter_below (suc k) n h small z =
      >>-done (enter delivers k) (handle_barrier_enter delivers) n (record n { barrier_count = k })
        (enter_below k n (omega arith) small z)
      ∙ enter_waits (record n { barrier_count = k }) h small

  -- While fewer than all other nodes have entered an empty barrier, entering only counts; when the
  -- last of them enters, the head sends `BARRIER_LEAVE` to every other node once, advances the epoch
  -- and is ready for the next round. The conditions are that there is another node, that every other
  -- node has a message buffer and that every call of the memory manager succeeds.
  pub enter_lem :
      (k : ℕ) (n : Node)
      → 2 ≤ n.num_nodes
      → n.num_nodes < 2 ^ 32
      → HasBuffers n
      → n.barrier_count ≡ 0
      → k ≤ n.num_nodes - 1
      → enter delivers k n ≡ (
        done,
        if ltb k (n.num_nodes - 1) then record n { barrier_count = k } else record n {
          barrier_count = 0;
          global_epoch = inc64 n.global_epoch;
          trace = n.trace ++ releases n;
        },
      )
  unfolding enter
  enter_lem k n two small b z h = elim (Bool-cases (ltb k (n.num_nodes - 1))) [
    | inl below ↦ rw below (enter_below k n (ground (arith, below)) small z)
    | inr all ↦
        let j : ℕ = n.num_nodes - 2 in
        let count : k ≡ suc j = ground (arith, all) in
        let before : Node = record n { barrier_count = j } in
        rw all (
          ap (λ i. enter delivers i n) count
          ∙ >>-done (enter delivers j) (handle_barrier_enter delivers) n before
              (enter_below j n (omega arith) small z)
          ∙ enter_releases before (omega arith) small b)
  ]
