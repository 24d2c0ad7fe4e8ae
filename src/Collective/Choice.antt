-- ===== src/Collective/Choice.antt =====
-- `ProcessGroupMCCL::allreduce`: the checks of a tensor, its wire format, the algorithm for it and its
-- scratch buffer. The environment variables, the same at all ranks, and the conversions between the types
-- of elements are parameters. Sizes are below 2^63.
pub mod Bounds
pub mod Result
use mathlib.Core.Option
use mccl.Base.{
  ℕ, zero, suc, ◌+◌, ◌-◌, ◌*◌, ◌/◌, ◌%◌, ◌^◌, Bool, true, false, ◌&&◌, ◌||◌, Option, none, some,
  ltb, leb, ◌==◌, if◌then◌else◌,
}
use mccl.Allreduce.Chunks.{per_chunk}
use mccl.Allreduce.Ring.{Tensors, allreduce_ring}
use mccl.Allreduce.Butterfly.{allreduce_butterfly}
use mccl.Allreduce.Tree.{every_rank, allreduce_tree}

-- The names of `MCCL_ALLREDUCE_ALGO`; a name that the code does not know is `unknown`.
pub data Algorithm : Type 0 where
  auto : Algorithm
  tree : Algorithm
  ring : Algorithm
  butterfly : Algorithm
  unknown : Algorithm

-- `MCCL_ALLREDUCE_ALGO` and `MCCL_TREE_BELOW`, if they are set, and whether `MCCL_WIRE_DTYPE` is `bf16`.
pub record Settings : Type 0 where
  pub algorithm : Option Algorithm
  pub tree_below : Option ℕ
  pub wire_bf16 : Bool

-- What is read of the tensors of the ranks besides their elements: `cpu_accessible` says that `cpu_ptr` of
-- its buffer is not null, and `is_float` that the type of the elements is `kFloat`.
pub record TensorTraits : Type 0 where
  pub is_mps : ℕ → Bool
  pub is_contiguous : ℕ → Bool
  pub cpu_accessible : ℕ → Bool
  pub is_float : Bool

-- `check_mps_`
abbrev pub check_mps : TensorTraits → ℕ → Bool
check_mps traits r = traits.is_mps r && traits.is_contiguous r

-- The type of 16 bits on the wire: the conversions from and to the type of the tensor, and the kernels.
pub record Wire (V W : Type 0) : Type 0 where
  pub to_bf16 : V → W
  pub from_bf16 : W → V
  pub reduce : W → W → W
  pub scale : W → W

abbrev pub default_algorithm : Option Algorithm → Algorithm
default_algorithm none = auto
default_algorithm (some a) = a

abbrev pub tree_limit : Option ℕ → ℕ
tree_limit none = 256 * 1024
tree_limit (some n) = n

-- `alg == "auto"`, by the number of bytes.
abbrev pub resolve_auto : ℕ → ℕ → Algorithm → Algorithm
resolve_auto limit bytes auto = if leb bytes limit then tree else ring
resolve_auto limit bytes tree = tree
resolve_auto limit bytes ring = ring
resolve_auto limit bytes butterfly = butterfly
resolve_auto limit bytes unknown = unknown

-- The tests that fall back on the tree.
abbrev pub fall_back : ℕ → ℕ → Algorithm → Algorithm
fall_back numel world auto = auto
fall_back numel world tree = tree
fall_back numel world ring = if ltb numel world then tree else ring
fall_back numel world butterfly = if ltb world 2 || ltb numel world then tree else butterfly
fall_back numel world unknown = unknown

unfoldable pub choose_algorithm : Settings → ℕ → ℕ → ℕ → Algorithm
choose_algorithm settings bytes numel world =
    fall_back numel world
      (resolve_auto (tree_limit settings.tree_below) bytes (default_algorithm settings.algorithm))

-- The elements of `recv_scratch`.
unfoldable pub scratch_numel : ℕ → ℕ → Algorithm → ℕ
scratch_numel numel world ring = per_chunk numel world
scratch_numel numel world butterfly = (world - 1) * per_chunk numel world
scratch_numel numel world auto = numel
scratch_numel numel world tree = numel
scratch_numel numel world unknown = numel

-- `static_cast<uint32_t>(wt.numel())`
abbrev pub args_numel : ℕ → ℕ
args_numel numel = numel % 2 ^ 32

module _ {V : Type 0} (reduce : V → V → V) (world numel elem_size : ℕ) (avg : Bool)
    (scale : V → V) where
  -- The loop's body that runs the algorithm. The tree works on whole tensors.
  unfoldable pub run_algorithm : Algorithm → Tensors V → Option (Tensors V)
  unfolding scratch_numel
  run_algorithm ring t = allreduce_ring reduce world (args_numel numel) avg scale t
  run_algorithm butterfly t =
      allreduce_butterfly reduce world (args_numel numel) elem_size
        (λ r. scratch_numel numel world butterfly * elem_size) avg scale t
  run_algorithm auto t =
      allreduce_tree (λ a b c. reduce (a c) (b c)) world avg (λ a c. scale (a c)) t
  run_algorithm tree t =
      allreduce_tree (λ a b c. reduce (a c) (b c)) world avg (λ a c. scale (a c)) t
  run_algorithm unknown t =
      allreduce_tree (λ a b c. reduce (a c) (b c)) world avg (λ a c. scale (a c)) t

  -- The algorithm that is chosen for the tensor; each one reads the buffers of all ranks by `byte_ptr`.
  unfoldable pub reduce_work : Settings → TensorTraits → Tensors V → Option (Tensors V)
  unfolding choose_algorithm run_algorithm
  reduce_work settings traits t =
      if every_rank traits.cpu_accessible world
      then run_algorithm (choose_algorithm settings (numel * elem_size) numel world) t
      else none

module _ {V W : Type 0} (reduce : V → V → V) (wire : Wire V W) (world numel elem_size : ℕ)
    (avg : Bool) (scale : V → V) where
  -- One tensor of `elem_size` bytes an element; a group of one rank leaves it as it is.
  unfoldable pub allreduce : Settings → TensorTraits → Tensors V → Option (Tensors V)
  unfolding reduce_work
  allreduce settings traits t =
      if world == 1
      then some t
      else if every_rank (check_mps traits) world
      then if settings.wire_bf16 && traits.is_float
        then Option.map (λ out r c. wire.from_bf16 (out r c))
            (reduce_work wire.reduce world numel 2 avg wire.scale settings traits
              (λ r c. wire.to_bf16 (t r c)))
        else reduce_work reduce world numel elem_size avg scale settings traits t
      else none
