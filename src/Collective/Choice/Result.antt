-- ===== src/Collective/Choice/Result.antt =====
-- `ProcessGroupMCCL::allreduce` as a whole.
use mathlib.Core.Option
use native.Mathlib.Nat.{mod-eq_of_lt}
use mccl.Base.{
  ℕ, zero, suc, ◌+◌, ◌-◌, ◌*◌, ◌%◌, ◌^◌, ◌≤◌, ◌<◌, ◌≡◌, refl, ◌∙◌, ap, ap₂, fun_ext, Bool,
  Bool-cases, true, false, inl, inr, ◌&&◌, ◌||◌, Option, none, some, arith, ltb, ◌==◌,
  if◌then◌else◌,
}
use mccl.Allreduce.Chunks.{per_chunk}
use mccl.Allreduce.Fold.{IsReduction, over_ranks, over_all}
use mccl.Allreduce.Ring.{Tensors}
use mccl.Allreduce.Ring.Result.{allreduce_ring_lem}
use mccl.Allreduce.Butterfly.{allreduce_butterfly_lem}
use mccl.Allreduce.Tree.{every_rank, allreduce_tree}
use mccl.Allreduce.Tree.Result.{allreduce_tree_lem}
use mccl.Collective.Choice.{
  Algorithm, auto, tree, ring, butterfly, unknown, Settings, default_algorithm, tree_limit,
  resolve_auto, fall_back, choose_algorithm, scratch_numel, run_algorithm, reduce_work,
  TensorTraits, check_mps, Wire, allreduce,
}
use mccl.Collective.Choice.Bounds.{slots_fit}

-- An algorithm that is given a tensor too small for it.
abbrev Fits : ℕ → ℕ → Algorithm → Type 0
Fits numel world a = (a ≡ ring → world ≤ numel) × (a ≡ butterfly → world ≤ numel)

fall_back-Fits : (numel world : ℕ) (a : Algorithm) → Fits numel world (fall_back numel world a)
fall_back-Fits numel world auto = (λ e. ground arith, λ e. ground arith)
fall_back-Fits numel world tree = (λ e. ground arith, λ e. ground arith)
fall_back-Fits numel world unknown = (λ e. ground arith, λ e. ground arith)
fall_back-Fits numel world ring = (λ e. ground arith, λ e. ground arith)
fall_back-Fits numel world butterfly = (λ e. ground arith, λ e. ground arith)

choose_algorithm-Fits :
    (settings : Settings) (bytes numel world : ℕ)
    → Fits numel world (choose_algorithm settings bytes numel world)
unfolding choose_algorithm
choose_algorithm-Fits settings bytes numel world =
    let limit : ℕ = tree_limit settings.tree_below in
    fall_back-Fits numel world (resolve_auto limit bytes (default_algorithm settings.algorithm))

if-at :
    {V : Type 0} (b : Bool) (f g : ℕ → V) (c : ℕ)
    → (if b then f else g) c ≡ (if b then f c else g c)
if-at true f g c = refl
if-at false f g c = refl

module _ {V : Type 0} (reduce : V → V → V) where
  whole_tensors : IsReduction reduce → IsReduction (λ (a b : ℕ → V) c. reduce (a c) (b c))
  whole_tensors laws = record {
    assoc = λ a b d. fun_ext (λ c. laws.assoc (a c) (b c) (d c));
    comm = λ a b. fun_ext (λ c. laws.comm (a c) (b c));
  }

  over_ranks_at :
      (x : Tensors V) (n k c : ℕ)
      → over_ranks (λ (a b : ℕ → V) i. reduce (a i) (b i)) x n k c
        ≡ over_ranks reduce (λ q. x q c) n k
  unfolding over_ranks
  over_ranks_at x zero k c = refl
  over_ranks_at x (suc n) k c = ap (reduce (x (k + suc n) c)) (over_ranks_at x n k c)

  module _ (world : ℕ) (avg : Bool) (scale : V → V) (t : Tensors V) (r c : ℕ)
      (laws : IsReduction reduce) (hr : r < world) (hc : c < world) where
    -- The value that is meant to stand at every rank.
    abbrev total : V
    total = let sum = over_all reduce world (λ q. t q c) in if avg then scale sum else sum

    tree_lem :
        Option.map
          (λ out. out r c)
          (allreduce_tree (λ a b i. reduce (a i) (b i)) world avg (λ a i. scale (a i)) t)
        ≡ some total
    tree_lem =
        let (out, e, all) =
          allreduce_tree_lem (λ (a b : ℕ → V) i. reduce (a i) (b i)) world avg (λ a i. scale (a i))
            t (whole_tensors laws) (omega arith) in
        rw e (
          ap some (
            ap (λ o. o c) (all r hr)
            ∙ if-at avg _ _ c
            ∙ ap (λ s. if avg then scale s else s) (over_ranks_at t (world - 1) 0 c)))

    run_lem :
        (numel elem_size : ℕ) (a : Algorithm)
        → numel < 2 ^ 32
        → Fits numel world a
        → Option.map (λ out. out r c) (run_algorithm reduce world numel elem_size avg scale a t)
          ≡ some total
    unfolding run_algorithm scratch_numel
    run_lem numel elem_size auto h fits = tree_lem
    run_lem numel elem_size tree h fits = tree_lem
    run_lem numel elem_size unknown h fits = tree_lem
    run_lem numel elem_size ring h fits =
        let small : numel % 2 ^ 32 ≡ numel = mod-eq_of_lt h in
        let enough : world ≤ numel = fits.0 refl in
        let large : ltb numel world ≡ false = ground arith in
        rw small (
          allreduce_ring_lem reduce world numel avg scale t r c laws hr hc
          ∙ ap (λ b. if b then none else some total) large)
    run_lem numel elem_size butterfly h fits =
        let small : numel % 2 ^ 32 ≡ numel = mod-eq_of_lt h in
        let enough : world ≤ numel = fits.1 refl in
        let large : ltb numel world ≡ false = ground arith in
        let roomy = slots_fit numel elem_size world world in
        rw small (
          allreduce_butterfly_lem reduce world numel elem_size
            (λ r. (world - 1) * per_chunk numel world * elem_size) avg scale t r c laws hr hc
          ∙ ap₂ (λ b d. if b || d then none else some total) large roomy)

    work_lem :
        (numel elem_size : ℕ) (settings : Settings) (traits : TensorTraits)
        → numel < 2 ^ 32
        → Option.map
            (λ out. out r c)
            (reduce_work reduce world numel elem_size avg scale settings traits t)
          ≡ (if every_rank traits.cpu_accessible world then some total else none)
    unfolding reduce_work
    work_lem numel elem_size settings traits h =
        let a : Algorithm = choose_algorithm settings (numel * elem_size) numel world in
        elim (Bool-cases (every_rank traits.cpu_accessible world)) [
          | inl readable ↦
              rw readable
                (run_lem numel elem_size a h (choose_algorithm-Fits settings _ numel world))
          | inr not_readable ↦ rw not_readable refl
        ]

map-map :
    {A B C D : Type 0} (f : A → B) (g : B → C) (h : A → D) (k : D → C) (o : Option A)
    → ((a : A) → g (f a) ≡ k (h a))
    → Option.map g (Option.map f o) ≡ Option.map k (Option.map h o)
map-map f g h k none e = refl
map-map f g h k (some a) e = ap some (e a)

map-if :
    {A B : Type 0} (f : A → B) (b : Bool) (a : A)
    → Option.map f (if b then some a else none) ≡ (if b then some (f a) else none)
map-if f true a = refl
map-if f false a = refl

-- Whatever algorithm the settings name, an allreduce among several ranks whose tensors pass `check_mps_`
-- and can be read by the CPU fails no check and waits for no message that is not sent: it leaves at every
-- rank `r` every chunk `c` reduced over all ranks, and scaled if an average is asked for. With
-- `MCCL_WIRE_DTYPE=bf16` and a tensor of floats that is done on the elements rounded to 16 bits, and the
-- result is converted back. If a tensor fails a check it has no result, and one rank alone keeps its
-- tensor as it is. The conditions are that both reductions are associative and commutative and that the
-- tensor has fewer than 2^32 elements.
pub allreduce_lem :
    {V W : Type 0} (reduce : V → V → V) (wire : Wire V W) (world : ℕ) (avg : Bool) (scale : V → V)
    (t : Tensors V) (r c numel elem_size : ℕ) (settings : Settings) (traits : TensorTraits)
    → IsReduction reduce
    → IsReduction wire.reduce
    → r < world
    → c < world
    → numel < 2 ^ 32
    → Option.map
        (λ out. out r c)
        (allreduce reduce wire world numel elem_size avg scale settings traits t)
      ≡ (let sum = over_all reduce world (λ q. t q c) in
          let wire_sum = over_all wire.reduce world (λ q. wire.to_bf16 (t q c)) in
          let value =
            if settings.wire_bf16 && traits.is_float
            then wire.from_bf16 (if avg then wire.scale wire_sum else wire_sum)
            else if avg
            then scale sum
            else sum in
          if world == 1
          then some (t r c)
          else if every_rank (check_mps traits) world && every_rank traits.cpu_accessible world
          then some value
          else none)
unfolding allreduce
allreduce_lem reduce wire world avg scale t r c numel elem_size settings traits laws laws' hr hc h =
    let plain =
      work_lem reduce world avg scale t r c laws hr hc numel elem_size settings traits h in
    let rounded : Tensors _ = λ q i. wire.to_bf16 (t q i) in
    let narrow =
      work_lem wire.reduce world avg wire.scale rounded r c laws' hr hc numel 2 settings traits h in
    elim (Bool-cases (world == 1)) [
      | inl alone ↦ rw alone refl
      | inr others ↦ elim (Bool-cases (every_rank (check_mps traits) world)) [
        | inr refused ↦ rw (others, refused) refl
        | inl passed ↦ elim (Bool-cases (settings.wire_bf16 && traits.is_float)) [
          | inl short ↦
              rw (others, passed, short)
                (map-map (λ out q i. wire.from_bf16 (out q i)) (λ out. out r c) (λ out. out r c)
                    wire.from_bf16
                    (reduce_work wire.reduce world numel 2 avg wire.scale settings traits rounded)
                    (λ out. refl)
                  ∙ ap (Option.map wire.from_bf16) narrow
                  ∙ map-if wire.from_bf16 (every_rank traits.cpu_accessible world) _)
          | inr full ↦ rw (others, passed, full) plain
        ]
      ]
    ]
