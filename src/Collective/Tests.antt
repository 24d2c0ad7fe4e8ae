-- ===== src/Collective/Tests.antt =====
-- Runs of csrc/backend/ProcessGroupMCCL.cpp.
use mathlib.Core.Option
use mccl.Base.{
  ℕ, ◌+◌, ◌*◌, ◌/◌, ◌≤◌, ◌%◌, ◌^◌, ◌≡◌, true, false, none, some, List, [], ◌∷◌, ◌++◌, arith, Memory,
  length, take, ◌==◌, if◌then◌else◌,
}
use mccl.Allreduce.Fold.{IsReduction, over_all}
use mccl.Allreduce.Ring.{Tensors}
use mccl.Collective.Choice.{Settings, TensorTraits, Wire, ring, butterfly, scratch_numel, allreduce}
use mccl.Collective.Choice.Result.{allreduce_lem}
use mccl.Collective.Exchange.{Sides}
use mccl.Collective.Lists
use mccl.Collective.Lists.{Tensor, Scatter}
use mccl.Collective.Choice.Bounds.{received_bytes, received_bytes-scratch_numel}
use mccl.Collective.Messages.{
  received, size_mismatch, tag_mismatch, accepts, send_tensor, recv_tensor, recv_tensor-send_tensor,
}

abbrev add : ℕ → ℕ → ℕ
add a b = a + b

abbrev grid : Tensors ℕ
grid r c = r + r + c

add-IsReduction : IsReduction add
add-IsReduction = record { assoc = λ a b c. omega arith; comm = λ a b. omega arith }

abbrev by_ring : Settings
by_ring = record { algorithm = some ring; tree_below = none; wire_bf16 = true }

abbrev traits : TensorTraits
traits = record {
  is_mps = λ r. true;
  is_contiguous = λ r. true;
  cpu_accessible = λ r. true;
  is_float = true;
}

-- On the wire the numbers are halves.
abbrev halves : Wire ℕ ℕ
halves = record { to_bf16 = λ v. v / 2; from_bf16 = λ w. w + w; reduce = add; scale = λ w. w }

allreduce_lem_example :
    Option.map (λ out. out 1 2) (allreduce add halves 3 10 4 false (λ v. v) by_ring traits grid)
    ≡ some (let sum = over_all add 3 (λ q. grid q 2 / 2) in sum + sum)
allreduce_lem_example =
    allreduce_lem add halves 3 false (λ v. v) grid 1 2 10 4 by_ring traits add-IsReduction
      add-IsReduction (omega arith) (omega arith) (omega arith)

-- Three ranks with two bytes for each.
abbrev inputs : ℕ → Memory
inputs r i = r * 10 + i

abbrev even_sides : ℕ → Sides
even_sides r = record { in_numel = 6; out_numel = 6; in_splits = []; out_splits = [] }

-- The socket buffers hold four bytes.
abbrev room : ℕ → ℕ → ℕ
room p r = 4

-- One byte of room, and two bytes for each rank.
abbrev narrow : ℕ → ℕ → ℕ
narrow p r = 1

abbrev three_bytes : List ℕ
three_bytes = 7 ∷ 8 ∷ 9 ∷ []

recv_tensor-send_tensor_example : recv_tensor 5 4 (send_tensor 5 three_bytes ++ (1 ∷ [])) ≡ (
    if accepts 5 5
    then (if length three_bytes % 2 ^ 32 == 4
        then received (take (length three_bytes % 2 ^ 32) three_bytes) (1 ∷ [])
        else size_mismatch)
    else tag_mismatch)
recv_tensor-send_tensor_example = recv_tensor-send_tensor 5 5 4 three_bytes (1 ∷ []) (omega arith)

abbrev tensor : ℕ → ℕ → Tensor ℕ
tensor n v = record { nbytes = n; content = v }

abbrev scatter : Scatter ℕ
scatter = record { in_count = λ r. 2; parts = λ r p. tensor 4 (10 * r + p); out = λ r. tensor 4 0 }

received_bytes-scratch_numel_example :
    received_bytes 10 4 3 2 butterfly ≤ scratch_numel 10 3 butterfly * 4
received_bytes-scratch_numel_example = received_bytes-scratch_numel 10 4 3 2 butterfly
