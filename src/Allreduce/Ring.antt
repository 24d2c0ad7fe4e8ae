-- ===== src/Allreduce/Ring.antt =====
-- `allreduce_ring` of csrc/backend/AllreduceAlgos.cpp, for all ranks at once. Each rank sends once to
-- its successor and receives once from its predecessor in a round, over streams that keep their
-- order, so round `k` of a rank receives what round `k` of its predecessor sent: a round is one step
-- of the whole ring. A value `V` is the content of a chunk; `reduce dst src` is
-- `metal_reduce_op_view`, `scale` is `metal_scale_inplace_view` by `1 / world`.
pub mod Schedule
pub mod Phases
pub mod Result
use mccl.Base.{
  ℕ, zero, suc, ◌+◌, ◌-◌, ◌%◌, ◌<◌, Bool, true, false, Option, none, some, ltb, ◌==◌, if◌then◌else◌,
}

-- What each rank holds of each chunk.
abbrev pub Tensors : Type 0 → Type 0
Tensors V = ℕ → ℕ → V

-- `(rank - 1 + world) % world`
unfoldable pub prev_rank : ℕ → ℕ → ℕ
prev_rank world rank = (rank + world - 1) % world

unfoldable pub next_rank : ℕ → ℕ → ℕ
next_rank world rank = (rank + 1) % world

-- The chunks that a rank sends and receives in round `k` of the reduce-scatter.
unfoldable pub reduce_send : ℕ → ℕ → ℕ → ℕ
reduce_send world rank k = (rank + world - k) % world

unfoldable pub reduce_recv : ℕ → ℕ → ℕ → ℕ
reduce_recv world rank k = (rank + world - k - 1) % world

-- The same in the allgather.
unfoldable pub gather_send : ℕ → ℕ → ℕ → ℕ
gather_send world rank k = (rank + 1 + world - k) % world

unfoldable pub gather_recv : ℕ → ℕ → ℕ → ℕ
gather_recv world rank k = (rank + world - k) % world

module _ {V : Type 0} (reduce : V → V → V) (world : ℕ) where
  unfoldable pub reduce_round : ℕ → Tensors V → Tensors V
  reduce_round k t r c =
      let p = prev_rank world r in
      if c == reduce_recv world r k then reduce (t r c) (t p (reduce_send world p k)) else t r c

  unfoldable pub gather_round : ℕ → Tensors V → Tensors V
  gather_round k t r c =
      let p = prev_rank world r in
      if c == gather_recv world r k then t p (gather_send world p k) else t r c

  -- The two loops: after their first `n` rounds.
  unfoldable pub reduce_scatter : ℕ → Tensors V → Tensors V
  unfolding reduce_round
  reduce_scatter zero t = t
  reduce_scatter (suc n) t = reduce_round n (reduce_scatter n t)

  unfoldable pub allgather : ℕ → Tensors V → Tensors V
  unfolding gather_round
  allgather zero t = t
  allgather (suc n) t = gather_round n (allgather n t)

  -- `none` is the failed check that there is an element for each rank.
  unfoldable pub allreduce_ring : ℕ → Bool → (V → V) → Tensors V → Option (Tensors V)
  unfolding reduce_scatter allgather
  allreduce_ring numel avg scale t =
      let out = allgather (world - 1) (reduce_scatter (world - 1) t) in
      if ltb numel world then none else some (λ r c. if avg then scale (out r c) else out r c)
