-- ===== src/Collective/Lists/Scattering.antt =====
-- What `reduce_scatter` of csrc/backend/ProcessGroupMCCL.cpp leaves at the ranks.
use mccl.Base.{
  ℕ, ◌≤◌, ◌<◌, ◌≡◌, refl, ap, Bool, true, false, some, List, [], ◌∷◌, arith, ◌==◌, if◌then◌else◌,
  All,
}
use mccl.Allreduce.Tree.{every_rank}
use mccl.Allreduce.Fold.{IsReduction, over_all}
use mccl.Allreduce.Butterfly.{own_chunk, own_chunk_lem}
use mccl.Collective.Exchange.Result.{Fit, Fit-all_pass}
use mccl.Collective.Lists.{Tensor, Scatter, scatter_fits, reduce_scatter_tensor, reduce_scatter}
use mccl.Collective.Lists.Contents.{All₂, for_each_lem, every_true}

module _ {V : Type 0} (room : ℕ → ℕ → ℕ) (world : ℕ) where
  module _ (reduce : V → V → V) (avg : Bool) (scale : V → V) where
    pub record ScatterFits (s : Scatter V) : Type 0 where
      pub counts : (r : ℕ) → r < world → s.in_count r ≡ world
      pub outputs : (r : ℕ) → r < world → (s.out r).nbytes ≡ (s.parts r 0).nbytes
      pub inputs : (r p : ℕ) → r < world → p < world → (s.parts r p).nbytes ≡ (s.parts 0 0).nbytes
      pub room_left : Fit room world (λ r p. (s.parts r p).nbytes)

    -- Every rank holds its parts of all ranks, reduced.
    abbrev pub IsScattered : Scatter V → (ℕ → Tensor V) → Type 0
    IsScattered s out =
        (r : ℕ)
        → r < world
        → let total = over_all reduce world (λ q. (s.parts q r).content) in
          (out r).content ≡ (if avg then scale total else total)

    reduce_scatter_tensor_lem :
        (s : Scatter V)
        → IsReduction reduce
        → 2 ≤ world
        → ScatterFits s
        → (out : ℕ → Tensor V) × (reduce_scatter_tensor reduce avg scale room world s ≡ some out)
          × IsScattered s out
    unfolding reduce_scatter_tensor
    reduce_scatter_tensor_lem s laws two h =
        let row = λ (r : ℕ) (below : r < world).
          every_true world (λ p. (s.parts r p).nbytes == (s.parts r 0).nbytes)
            (λ p below_p.
              ground (arith, h.inputs r p below below_p, h.inputs r 0 below (omega arith))) in
        let fits : every_rank (scatter_fits world s) world ≡ true = every_true world _ (λ r below.
          ground (
            arith,
            row r below,
            h.counts r below,
            h.outputs r below,
            h.inputs r 0 below (omega arith),
          )) in
        let through = Fit-all_pass room world (λ r p. (s.parts r p).nbytes) h.room_left in
        rw (fits, through)
          (
            (λ r.
                let total = own_chunk reduce world (λ q c. (s.parts q c).content) r in
                record (s.out r) { content = if avg then scale total else total }),
            refl,
            λ r below.
                ap (λ t. if avg then scale t else t)
                  (own_chunk_lem reduce world r (λ q c. (s.parts q c).content) laws below),
          )

    pub reduce_scatter_lem :
        (ss : List (Scatter V))
        → IsReduction reduce
        → 2 ≤ world
        → All ScatterFits ss
        → (outs : List (ℕ → Tensor V)) × (reduce_scatter reduce avg scale room world ss ≡ some outs)
          × All₂ IsScattered ss outs
    unfolding reduce_scatter
    reduce_scatter_lem ss laws two h =
        let several : (world == 1) ≡ false = ground arith in
        rw several (
          for_each_lem (reduce_scatter_tensor reduce avg scale room world) IsScattered ss
            (each ss h))
      where
        each :
            (xs : List (Scatter V))
            → All ScatterFits xs
            → All
                (λ x.
                  (out : ℕ → Tensor V) × (reduce_scatter_tensor reduce avg scale room world x
                    ≡ some out)
                  × IsScattered x out)
                xs
        each [] h = tt
        each (x ∷ xs) h = (reduce_scatter_tensor_lem x laws two h.0, each xs h.1)
