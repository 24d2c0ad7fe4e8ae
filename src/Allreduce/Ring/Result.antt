-- ===== src/Allreduce/Ring/Result.antt =====
-- What `allreduce_ring` of csrc/backend/AllreduceAlgos.cpp leaves on every rank.
use mathlib.Core.Option
use mccl.Base.{
  ℕ, zero, suc, ◌+◌, ◌-◌, ◌≤◌, ◌<◌, ◌≡◌, sym, ◌∙◌, ap, ap₂, Bool, none, some, arith, ltb,
  if◌then◌else◌,
}
use mccl.Allreduce.Fold.{IsReduction, over_ranks, over_all, over_ranks-append}
use mccl.Allreduce.Ring.{Tensors, prev_rank, allreduce_ring}
use mccl.Allreduce.Ring.Schedule.{prev_rank_lem}
use mccl.Allreduce.Ring.Phases.{chain, reduced, ring_result}

module _ {V : Type 0} (reduce : V → V → V) (world : ℕ) where
  chain_down :
      (t : Tensors V) (m r c : ℕ)
      → m ≤ r
      → r < world
      → chain reduce world t m r c ≡ over_ranks reduce (λ q. t q c) m (r - m)
  unfolding chain over_ranks
  chain_down t zero r c h hr = ap (λ q. t q c) (omega arith)
  chain_down t (suc m) r c h hr =
      let before : prev_rank world r ≡ r - 1 = ground (arith, prev_rank_lem world r hr) in
      ap₂ reduce (ap (λ q. t q c) (omega arith)) (
        ap (λ q. chain reduce world t m q c) before
        ∙ chain_down t m (r - 1) c (omega arith) (omega arith)
        ∙ ap (over_ranks reduce (λ q. t q c) m) (omega arith))

  chain_round :
      (t : Tensors V) (k r c : ℕ)
      → IsReduction reduce
      → r < world
      → chain reduce world t (suc r + k) r c
        ≡ reduce (over_ranks reduce (λ q. t q c) r 0) (chain reduce world t k (world - 1) c)
  unfolding chain over_ranks
  chain_round t k zero c laws hr =
      let count : suc zero + k ≡ suc k = omega arith in
      let before : prev_rank world 0 ≡ world - 1 = ground (arith, prev_rank_lem world 0 hr) in
      ap (λ m. chain reduce world t m 0 c) count
      ∙ ap (λ q. reduce (t 0 c) (chain reduce world t k q c)) before
  chain_round t k (suc r) c laws hr =
      let count : suc (suc r) + k ≡ suc (suc r + k) = omega arith in
      let before : prev_rank world (suc r) ≡ r = ground (arith, prev_rank_lem world (suc r) hr) in
      let index : suc r ≡ 0 + suc r = omega arith in
      let x : ℕ → V = λ q. t q c in
      ap (λ m. chain reduce world t m (suc r) c) count
      ∙ ap (λ q. reduce (t (suc r) c) (chain reduce world t (suc r + k) q c)) before
      ∙ ap (reduce (t (suc r) c)) (chain_round t k r c laws (omega arith))
      ∙ sym (laws.assoc _ _ _)
      ∙ ap
          (λ i.
            reduce (reduce (t i c) (over_ranks reduce x r 0))
              (chain reduce world t k (world - 1) c))
          index

  reduced_lem :
      (t : Tensors V) (c : ℕ)
      → IsReduction reduce
      → c < world
      → reduced reduce world t c ≡ over_all reduce world (λ q. t q c)
  unfolding reduced
  reduced_lem t zero laws hc =
      let before : prev_rank world 0 ≡ world - 1 = ground (arith, prev_rank_lem world 0 hc) in
      ap (λ q. chain reduce world t (world - 1) q 0) before
      ∙ chain_down t (world - 1) (world - 1) 0 (omega arith) (omega arith)
      ∙ ap (over_ranks reduce (λ q. t q 0) (world - 1)) (omega arith)
  reduced_lem t (suc c) laws hc =
      let before : prev_rank world (suc c) ≡ c = ground (arith, prev_rank_lem world (suc c) hc) in
      let k : ℕ = world - 1 - suc c in
      let count : world - 1 ≡ suc c + k = omega arith in
      let count' : k + suc c ≡ world - 1 = omega arith in
      let index : world - 1 - k ≡ 0 + suc c = omega arith in
      let x : ℕ → V = λ q. t q (suc c) in
      ap (λ q. chain reduce world t (world - 1) q (suc c)) before
      ∙ ap (λ m. chain reduce world t m c (suc c)) count
      ∙ chain_round t k c (suc c) laws (omega arith)
      ∙ ap (reduce (over_ranks reduce x c 0)) (
          chain_down t k (world - 1) (suc c) (omega arith) (omega arith)
          ∙ ap (over_ranks reduce x k) index)
      ∙ laws.comm _ _
      ∙ over_ranks-append reduce x k c 0 laws
      ∙ ap (λ n. over_ranks reduce x n 0) count'

-- With at least one element for each rank, the ring leaves every rank `r` with every chunk `c`
-- reduced over all ranks, and scaled if an average is asked for; with fewer it fails. The condition
-- is that the reduction is associative and commutative.
pub allreduce_ring_lem :
    {V : Type 0} (reduce : V → V → V) (world numel : ℕ) (avg : Bool) (scale : V → V) (t : Tensors V)
    (r c : ℕ)
    → IsReduction reduce
    → r < world
    → c < world
    → let total = over_all reduce world (λ q. t q c) in
      Option.map (λ out. out r c) (allreduce_ring reduce world numel avg scale t)
      ≡ (if ltb numel world then none else some (if avg then scale total else total))
unfolding allreduce_ring
allreduce_ring_lem reduce world numel avg scale t r c laws hr hc =
    let whole = ring_result reduce world t r c hr hc ∙ reduced_lem reduce world t c laws hc in
    ground (arith, whole)
