-- ===== src/Collective/Lists.antt =====
-- The collectives of csrc/backend/ProcessGroupMCCL.cpp that take lists of tensors, for all ranks at once.
-- All ranks pass lists of the same length. A receive of more or fewer bytes than are sent is a stall, or
-- upsets the stream, and has no result; nor has a failed check. `room` is what the socket buffers hold,
-- as in Collective/Exchange: a pair of ranks whose threads both block in their sends has no result.
pub mod Contents
pub mod Scattering
use mccl.Base.{
  ℕ, zero, suc, ◌-◌, Bool, true, false, ◌&&◌, Option, none, some, List, [], ◌∷◌, ◌==◌, ◌>>=◌,
  if◌then◌else◌,
}
use mccl.Allreduce.Tree.{every_rank}
use mccl.Allreduce.Butterfly.{own_chunk}
use mccl.Collective.Exchange.{all_pass}

-- A tensor of some bytes.
pub record Tensor (V : Type 0) : Type 0 where
  pub nbytes : ℕ
  pub content : V

-- The loop over the tensors of a list; it ends at the first that fails.
unfoldable pub for_each {ℓ κ} :
    {A : Type ℓ} {B : Type κ} → (A → Option B) → List A → Option (List B)
for_each f [] = some []
for_each f (x ∷ xs) = do y ← f x; ys ← for_each f xs; some (y ∷ ys)

-- One tensor of `allgather`: the input of the rank `r`, the number of its outputs, and the `p`-th.
pub record Gather (V : Type 0) : Type 0 where
  pub input : ℕ → Tensor V
  pub out_count : ℕ → ℕ
  pub outs : ℕ → ℕ → Tensor V

-- `ins r p` and `outs r p` are the `p`-th tensors of the lists of the rank `r`.
pub record Sides (V : Type 0) : Type 0 where
  pub in_count : ℕ → ℕ
  pub out_count : ℕ → ℕ
  pub ins : ℕ → ℕ → Tensor V
  pub outs : ℕ → ℕ → Tensor V

-- One tensor of `reduce_scatter`: `parts r p` is the part of the rank `r` for the rank `p`.
pub record Scatter (V : Type 0) : Type 0 where
  pub in_count : ℕ → ℕ
  pub parts : ℕ → ℕ → Tensor V
  pub out : ℕ → Tensor V

module _ {V : Type 0} where
  abbrev pub filled : Tensor V → Tensor V → Tensor V
  filled dst src = record dst { content = src.content }

  -- One tensor of `broadcast`: `t r` is that of the rank `r`.
  unfoldable pub broadcast_tensor : (world root : ℕ) → (ℕ → Tensor V) → Option (ℕ → Tensor V)
  broadcast_tensor world root t =
      if every_rank (λ r. (t r).nbytes == (t root).nbytes) world
      then some (λ r. if r == root then t r else filled (t r) (t root))
      else none

  unfoldable pub broadcast : (world root : ℕ) → List (ℕ → Tensor V) → Option (List (ℕ → Tensor V))
  unfolding for_each broadcast_tensor
  broadcast world root [] = if world == 1 then some [] else none
  broadcast world root (t ∷ ts) =
      if world == 1 then some (t ∷ ts) else for_each (broadcast_tensor world root) (t ∷ ts)

  abbrev pub gather_fits : ℕ → Gather V → ℕ → ℕ → Bool
  gather_fits world g r p =
      (g.input p).nbytes == (g.input r).nbytes && (g.outs r p).nbytes == (g.input r).nbytes

  unfoldable pub allgather_tensor : (ℕ → ℕ → ℕ) → ℕ → Gather V → Option (ℕ → ℕ → Tensor V)
  allgather_tensor room world g =
      if every_rank (λ r. g.out_count r == world && every_rank (gather_fits world g r) world) world
        && all_pass world room (λ r p. (g.input r).nbytes)
      then some (λ r p. filled (g.outs r p) (g.input p))
      else none

  abbrev pub copy_first : Gather V → ℕ → ℕ → Tensor V
  copy_first g zero zero = filled (g.outs 0 0) (g.input 0)
  copy_first g zero (suc p) = g.outs zero (suc p)
  copy_first g (suc r) p = g.outs (suc r) p

  abbrev pub left_alone : List (Gather V) → List (ℕ → ℕ → Tensor V)
  left_alone [] = []
  left_alone (g ∷ gs) = g.outs ∷ left_alone gs

  -- With one rank only the first output of the first list is copied.
  unfoldable pub allgather_alone : List (Gather V) → Option (List (ℕ → ℕ → Tensor V))
  allgather_alone [] = none
  allgather_alone (g ∷ gs) =
      if g.out_count 0 == 0 then none else some (copy_first g ∷ left_alone gs)

  unfoldable pub allgather : (ℕ → ℕ → ℕ) → ℕ → List (Gather V) → Option (List (ℕ → ℕ → Tensor V))
  unfolding for_each allgather_tensor allgather_alone
  allgather room world gs =
      if world == 1 then allgather_alone gs else for_each (allgather_tensor room world) gs

  -- What stands in `recv_bufs[p]` of the rank `r` when its thread for `p` has ended: what the thread for
  -- `r` of the rank `p` sent.
  abbrev pub received_from : (ℕ → ℕ → Tensor V) → ℕ → ℕ → Tensor V
  received_from sent r p = sent p r

  -- A rank's own part is copied, and the others come from the threads.
  unfoldable pub alltoall : (ℕ → ℕ → ℕ) → ℕ → Sides V → Option (ℕ → ℕ → Tensor V)
  alltoall room world s =
      if every_rank (λ r. s.in_count r == world && s.out_count r == world) world
      then (if every_rank (λ r. every_rank (λ p. (s.outs r p).nbytes == (s.ins p r).nbytes) world)
              world
            && all_pass world room (λ r p. (s.ins r p).nbytes)
          then some (λ r p.
            if p == r
            then filled (s.outs r r) (s.ins r r)
            else filled (s.outs r p) (received_from s.ins r p))
          else none)
      else none

  -- What a rank sends to each peer is as long as its part for rank 0. A part of another length, which the
  -- code reads beyond or cuts, has no result here.
  abbrev pub scatter_fits : ℕ → Scatter V → ℕ → Bool
  scatter_fits world s r =
      s.in_count r == world
      && (s.out r).nbytes == (s.parts r 0).nbytes
      && (s.parts r 0).nbytes == (s.parts 0 0).nbytes
      && every_rank (λ p. (s.parts r p).nbytes == (s.parts r 0).nbytes) world

  abbrev pub outs_alone : List (Scatter V) → List (ℕ → Tensor V)
  outs_alone [] = []
  outs_alone (s ∷ ss) = s.out ∷ outs_alone ss

  module _ (reduce : V → V → V) (avg : Bool) (scale : V → V) where
    unfoldable pub reduce_scatter_tensor : (ℕ → ℕ → ℕ) → ℕ → Scatter V → Option (ℕ → Tensor V)
    unfolding own_chunk
    reduce_scatter_tensor room world s =
        if every_rank (scatter_fits world s) world
          && all_pass world room (λ r p. (s.parts r p).nbytes)
        then some (λ r.
          let total = own_chunk reduce world (λ q c. (s.parts q c).content) r in
          record (s.out r) { content = if avg then scale total else total })
        else none

    -- With one rank the first part of the first list is copied, and no other.
    unfoldable pub reduce_scatter_alone : List (Scatter V) → Option (List (ℕ → Tensor V))
    reduce_scatter_alone [] = none
    reduce_scatter_alone (s ∷ ss) =
        if s.in_count 0 == 0
        then none
        else some
            ((λ r. if r == 0 then filled (s.out 0) (s.parts 0 0) else s.out r) ∷ outs_alone ss)

    unfoldable pub reduce_scatter :
        (ℕ → ℕ → ℕ) → ℕ → List (Scatter V) → Option (List (ℕ → Tensor V))
    unfolding for_each reduce_scatter_tensor reduce_scatter_alone
    reduce_scatter room world ss =
        if world == 1
        then reduce_scatter_alone ss
        else for_each (reduce_scatter_tensor room world) ss
