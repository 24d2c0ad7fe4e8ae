-- ===== src/Allreduce/Fold.antt =====
-- The specification of the algorithms of csrc/backend/AllreduceAlgos.cpp: a chunk reduced over a range
-- of ranks, and laws that hold if the reduction is associative (and commutative).
use mccl.Base.{ℕ, zero, suc, ◌+◌, ◌-◌, ◌≡◌, ◌∙◌, ap, arith}

-- What the program's reductions are meant to satisfy. Floating-point addition does so only up to
-- rounding.
pub record IsReduction {V : Type 0} (reduce : V → V → V) : Type 0 where
  pub assoc : (a b c : V) → reduce (reduce a b) c ≡ reduce a (reduce b c)
  pub comm : (a b : V) → reduce a b ≡ reduce b a

module _ {V : Type 0} (reduce : V → V → V) where
  -- The values of the ranks `k`, `k + 1`, …, `k + n`.
  unfoldable pub over_ranks : (ℕ → V) → ℕ → ℕ → V
  over_ranks x zero k = x k
  over_ranks x (suc n) k = reduce (x (k + suc n)) (over_ranks x n k)

  -- The values of all ranks.
  abbrev pub over_all : ℕ → (ℕ → V) → V
  over_all world x = over_ranks x (world - 1) 0

  -- Two adjacent ranges make one.
  pub over_ranks-append :
      (x : ℕ → V) (n m k : ℕ)
      → IsReduction reduce
      → reduce (over_ranks x n (k + suc m)) (over_ranks x m k) ≡ over_ranks x (n + suc m) k
  unfolding over_ranks
  over_ranks-append x zero m k laws =
      let count : suc m ≡ zero + suc m = omega arith in ap (λ i. over_ranks x i k) count
  over_ranks-append x (suc n) m k laws =
      let index : k + suc m + suc n ≡ k + suc (n + suc m) = omega arith in
      let count : suc (n + suc m) ≡ suc n + suc m = omega arith in
      laws.assoc _ _ _
      ∙ ap (reduce (x (k + suc m + suc n))) (over_ranks-append x n m k laws)
      ∙ ap (λ i. reduce (x i) (over_ranks x (n + suc m) k)) index
      ∙ ap (λ i. over_ranks x i k) count
