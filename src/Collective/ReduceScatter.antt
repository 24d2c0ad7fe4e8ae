-- ===== src/Collective/ReduceScatter.antt =====
-- `_reduce_scatter_base` of csrc/backend/ProcessGroupMCCL.cpp, for all ranks at once. Each rank keeps
-- its own part of its input, receives that part of every peer's, and reduces them in the order of the
-- ranks; that is the first phase of the butterfly.
use mathlib.Core.Option
use mccl.Base.{ℕ, ◌*◌, ◌<◌, ◌≡◌, Bool, ◌&&◌, Option, none, some, arith, ◌==◌, if◌then◌else◌}
use mccl.Allreduce.Fold.{IsReduction, over_all}
use mccl.Allreduce.Ring.{Tensors}
use mccl.Allreduce.Butterfly.{own_chunk, own_chunk_lem}
use mccl.Allreduce.Tree.{every_rank}
use mccl.Collective.Exchange.{all_pass}

-- The check of a rank, and that its part is of the size that rank 0 sends.
abbrev pub sizes_agree : ℕ → (ℕ → ℕ) → (ℕ → ℕ) → ℕ → Bool
sizes_agree world in_bytes out_bytes r =
    in_bytes r == out_bytes r * world && out_bytes r == out_bytes 0

module _ {V : Type 0} (reduce : V → V → V) where
  -- `t q r` is the part for rank `r` of rank `q`'s input.
  unfoldable pub reduce_scatter_base :
      (ℕ → ℕ → ℕ) → ℕ → (ℕ → ℕ) → (ℕ → ℕ) → Bool → (V → V) → Tensors V → Option (ℕ → V)
  reduce_scatter_base room world in_bytes out_bytes avg scale t =
      if every_rank (sizes_agree world in_bytes out_bytes) world
        && all_pass world room (λ r p. out_bytes r)
      then some
          (λ r. if avg then scale (own_chunk reduce world t r) else own_chunk reduce world t r)
      else none

  -- Unless the sizes of some rank's tensors disagree or a pair of ranks blocks in its sends, `_reduce_scatter_base` leaves at every rank `r`
  -- the parts for `r` of all ranks' inputs reduced, scaled if an average is asked for. The condition is
  -- that the reduction is associative and commutative.
  pub reduce_scatter_base_lem :
      (room : ℕ → ℕ → ℕ) (world : ℕ) (in_bytes out_bytes : ℕ → ℕ) (avg : Bool) (scale : V → V)
      (t : Tensors V) (r : ℕ)
      → IsReduction reduce
      → r < world
      → Option.map (λ out. out r) (reduce_scatter_base room world in_bytes out_bytes avg scale t)
        ≡ (let total = over_all reduce world (λ q. t q r) in
            if every_rank (sizes_agree world in_bytes out_bytes) world
              && all_pass world room (λ r p. out_bytes r)
            then some (if avg then scale total else total)
            else none)
  unfolding reduce_scatter_base
  reduce_scatter_base_lem room world in_bytes out_bytes avg scale t r laws h =
      ground (arith, own_chunk_lem reduce world r t laws h)
