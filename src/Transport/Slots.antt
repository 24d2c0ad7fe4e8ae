-- ===== src/Transport/Slots.antt =====
-- The owners of a list, such as `peer_conns_` of csrc/dmem/DistributedMemoryManager.hpp, counted together.
use mccl.Base.{ℕ, zero, suc, ◌+◌, ◌≡◌, some, List, [], ◌∷◌, ◌++◌, arith, get_elem?, set}

module _ {A : Type 0} (owned : A → ℕ) where
  unfoldable pub total : List A → ℕ
  total [] = 0
  total (x ∷ xs) = owned x + total xs

  pub total-append : (xs ys : List A) → total (xs ++ ys) ≡ total xs + total ys
  unfolding total
  total-append [] ys = omega arith
  total-append (x ∷ xs) ys = omega (arith, total-append xs ys)

  pub total-set :
      (xs : List A) (i : ℕ) (old new : A)
      → get_elem? xs i ≡ some old
      → total (set xs i new) + owned old ≡ total xs + owned new
  unfolding total
  total-set [] i old new h = cc
  total-set (x ∷ xs) zero old new h = ground arith
  total-set (x ∷ xs) (suc i) old new h = omega (arith, total-set xs i old new h)
