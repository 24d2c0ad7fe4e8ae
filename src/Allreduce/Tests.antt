-- ===== src/Allreduce/Tests.antt =====
-- Runs of csrc/backend/AllreduceAlgos.cpp.
use mathlib.Core.Option
use mccl.Base.{ℕ, ◌+◌, ◌<◌, ◌≡◌, false, ◌||◌, none, some, arith, ltb, if◌then◌else◌}
use mccl.Allreduce.Fold.{IsReduction, over_all}
use mccl.Allreduce.Ring.{Tensors, allreduce_ring}
use mccl.Allreduce.Ring.Result.{allreduce_ring_lem}
use mccl.Allreduce.Tree.{allreduce_tree}
use mccl.Allreduce.Tree.Result.{allreduce_tree_lem}
use mccl.Allreduce.Butterfly.{some_too_small, allreduce_butterfly, allreduce_butterfly_lem}

abbrev add : ℕ → ℕ → ℕ
add a b = a + b

abbrev grid : Tensors ℕ
grid r c = r + r + c

add-IsReduction : IsReduction add
add-IsReduction = record { assoc = λ a b c. omega arith; comm = λ a b. omega arith }

allreduce_ring_lem_example :
    let total = over_all add 3 (λ q. grid q 2) in
    Option.map (λ out. out 1 2) (allreduce_ring add 3 10 false (λ v. v) grid)
    ≡ (if ltb 10 3 then none else some (if false then total else total))
allreduce_ring_lem_example =
    allreduce_ring_lem add 3 10 false (λ v. v) grid 1 2 add-IsReduction (omega arith) (omega arith)

abbrev buffers : ℕ → ℕ
buffers r = 64

allreduce_butterfly_lem_example :
    let total = over_all add 3 (λ q. grid q 2) in
    Option.map (λ out. out 1 2) (allreduce_butterfly add 3 10 4 buffers false (λ v. v) grid) ≡ (
      if ltb 10 3 || some_too_small 10 4 3 buffers 3
      then none
      else some (if false then total else total))
allreduce_butterfly_lem_example =
    allreduce_butterfly_lem add 3 10 4 buffers false (λ v. v) grid 1 2 add-IsReduction (omega arith)
      (omega arith)

allreduce_tree_lem_example :
    (out : ℕ → ℕ) × (allreduce_tree add 3 false (λ v. v) (λ r. r + 4) ≡ some out)
    × ((r : ℕ)
        → r < 3
        → out r ≡ (let total = over_all add 3 (λ r. r + 4) in if false then total else total))
allreduce_tree_lem_example =
    allreduce_tree_lem add 3 false (λ v. v) (λ r. r + 4) add-IsReduction (omega arith)
