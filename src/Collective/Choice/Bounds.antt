-- ===== src/Collective/Choice/Bounds.antt =====
-- What each algorithm receives, against the scratch buffer that is chosen for it.
use mccl.Base.{ℕ, zero, suc, ◌+◌, ◌-◌, ◌*◌, ◌≤◌, ◌≡◌, refl, sym, false, arith}
use native.Mathlib.Nat.{mul_assoc, mul-le-mul_left, mul-le-mul_right}
use mccl.Allreduce.Chunks.{per_chunk, chunk}
use mccl.Allreduce.Butterfly.{some_too_small}
use mccl.Collective.Choice.{Algorithm, auto, tree, ring, butterfly, unknown, scratch_numel}

pub chunk_fits :
    (numel elem_size world i : ℕ)
    → (chunk numel elem_size world i).byte_len ≤ per_chunk numel world * elem_size
unfolding chunk
chunk_fits numel elem_size world i =
    let per : ℕ = per_chunk numel world in
    let next : (i + 1) * per ≡ i * per + per = omega arith in
    mul-le-mul_right elem_size (omega arith)

pub slots_fit :
    (numel elem_size world n : ℕ)
    → some_too_small numel elem_size world (λ r. (world - 1) * per_chunk numel world * elem_size) n
      ≡ false
unfolding some_too_small
slots_fit numel elem_size world zero = refl
slots_fit numel elem_size world (suc n) =
    let fits : (world - 1) * (chunk numel elem_size world n).byte_len
        ≤ (world - 1) * (per_chunk numel world * elem_size) =
      mul-le-mul_left (world - 1) (chunk_fits numel elem_size world n) in
    let same : (world - 1) * (per_chunk numel world * elem_size)
        ≡ (world - 1) * per_chunk numel world * elem_size =
      sym (mul_assoc (world - 1) (per_chunk numel world) elem_size) in
    ground (arith, slots_fit numel elem_size world n)

-- The bytes that a rank receives before it reduces them: a chunk in the ring, the chunk of every peer
-- in the butterfly, the tensor in the tree.
abbrev pub received_bytes : ℕ → ℕ → ℕ → ℕ → Algorithm → ℕ
received_bytes numel elem_size world i ring = (chunk numel elem_size world i).byte_len
received_bytes numel elem_size world i butterfly =
    (world - 1) * (chunk numel elem_size world i).byte_len
received_bytes numel elem_size world i auto = numel * elem_size
received_bytes numel elem_size world i tree = numel * elem_size
received_bytes numel elem_size world i unknown = numel * elem_size

-- The scratch buffer that is made for an algorithm holds whatever a rank receives in it.
pub received_bytes-scratch_numel :
    (numel elem_size world i : ℕ) (a : Algorithm)
    → received_bytes numel elem_size world i a ≤ scratch_numel numel world a * elem_size
unfolding scratch_numel
received_bytes-scratch_numel numel elem_size world i ring = chunk_fits numel elem_size world i
received_bytes-scratch_numel numel elem_size world i butterfly =
    let fits : (world - 1) * (chunk numel elem_size world i).byte_len
        ≤ (world - 1) * (per_chunk numel world * elem_size) =
      mul-le-mul_left (world - 1) (chunk_fits numel elem_size world i) in
    omega (arith, mul_assoc (world - 1) (per_chunk numel world) elem_size)
received_bytes-scratch_numel numel elem_size world i auto = omega arith
received_bytes-scratch_numel numel elem_size world i tree = omega arith
received_bytes-scratch_numel numel elem_size world i unknown = omega arith
