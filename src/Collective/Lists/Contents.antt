-- ===== src/Collective/Lists/Contents.antt =====
-- What the collectives on lists of csrc/backend/ProcessGroupMCCL.cpp leave at the ranks.
use mccl.Base.{
  ℕ, ◌≤◌, ◌<◌, ◌≡◌, refl, sym, ap, Bool, true, false, ◌&&◌, Bool-cases, inl, inr, Option, some,
  List, [], ◌∷◌, arith, ◌==◌, if◌then◌else◌, All,
}
use mccl.Allreduce.Tree.{every_rank}
use mccl.Allreduce.Tree.Rounds.{every_rank-intro}
use mccl.Collective.Exchange.Result.{Fit, Fit-all_pass}
use mccl.Collective.Lists.{
  Tensor, for_each, filled, broadcast_tensor, broadcast, Gather, gather_fits, allgather_tensor,
  allgather, Sides, received_from, alltoall,
}

-- The elements of two lists are related one by one.
abbrev pub All₂ {ℓ κ} : {A : Type ℓ} {B : Type κ} → (A → B → Type 0) → List A → List B → Type 0
All₂ P [] [] = Unit
All₂ P [] (y ∷ ys) = ⊥
All₂ P (x ∷ xs) [] = ⊥
All₂ P (x ∷ xs) (y ∷ ys) = P x y × All₂ P xs ys

module _ {A : Type 0} {B : Type 0} (f : A → Option B) (P : A → B → Type 0) where
  abbrev pub Gives : A → Type 0
  Gives x = (y : B) × (f x ≡ some y) × P x y

  pub for_each_lem :
      (xs : List A) → All Gives xs → (ys : List B) × (for_each f xs ≡ some ys) × All₂ P xs ys
  unfolding for_each
  for_each_lem [] h = ([], refl, tt)
  for_each_lem (x ∷ xs) h =
      let (y, e, p) = h.0 in
      let (ys, es, ps) = for_each_lem xs h.1 in rw e (rw es ((y ∷ ys), refl, (p, ps)))

pub every_true :
    (world : ℕ) (p : ℕ → Bool) → ((r : ℕ) → r < world → p r ≡ true) → every_rank p world ≡ true
every_true world p h = every_rank-intro p world h

module _ {V : Type 0} (world : ℕ) where
  -- Every rank holds what the root held.
  abbrev pub IsSpread : ℕ → (ℕ → Tensor V) → (ℕ → Tensor V) → Type 0
  IsSpread root t out =
      (r : ℕ) → r < world → ((out r).content ≡ (t root).content) × ((out r).nbytes ≡ (t r).nbytes)

  abbrev pub SameSizes : ℕ → (ℕ → Tensor V) → Type 0
  SameSizes root t = (r : ℕ) → r < world → (t r).nbytes ≡ (t root).nbytes

  broadcast_tensor_lem :
      (root : ℕ) (t : ℕ → Tensor V)
      → SameSizes root t
      → (out : ℕ → Tensor V) × (broadcast_tensor world root t ≡ some out) × IsSpread root t out
  unfolding broadcast_tensor
  broadcast_tensor_lem root t h =
      let fits : every_rank (λ r. (t r).nbytes == (t root).nbytes) world ≡ true =
        every_true world _
          (λ r below. let same : (t r).nbytes ≡ (t root).nbytes = h r below in ground arith) in
      rw fits (
        (λ r. if r == root then t r else filled (t r) (t root)),
        refl,
        λ r below. elim (Bool-cases (r == root)) [
          | inl self ↦ let e : r ≡ root = ground arith in rw self (ap (λ q. (t q).content) e, refl)
          | inr other ↦ rw other (refl, refl)
        ],
      )

  -- Among several ranks that pass at least one tensor, and tensors of the same size at each place of
  -- their lists, `broadcast` gives every rank at each place what the root holds there, and leaves the
  -- sizes.
  pub broadcast_lem :
      (root : ℕ) (t : ℕ → Tensor V) (ts : List (ℕ → Tensor V))
      → 2 ≤ world
      → All (SameSizes root) (t ∷ ts)
      → (outs : List (ℕ → Tensor V)) × (broadcast world root (t ∷ ts) ≡ some outs)
        × All₂ (IsSpread root) (t ∷ ts) outs
  unfolding broadcast
  broadcast_lem root t ts two h =
      let several : (world == 1) ≡ false = ground arith in
      rw several
        (for_each_lem (broadcast_tensor world root) (IsSpread root) (t ∷ ts) (each (t ∷ ts) h))
    where
      each :
          (xs : List (ℕ → Tensor V))
          → All (SameSizes root) xs
          → All
              (λ x.
                (out : ℕ → Tensor V) × (broadcast_tensor world root x ≡ some out)
                × IsSpread root x out)
              xs
      each [] h = tt
      each (x ∷ xs) h = (broadcast_tensor_lem root x h.0, each xs h.1)

module _ {V : Type 0} (room : ℕ → ℕ → ℕ) (world : ℕ) where
  -- Every rank holds in its `p`-th output the input of the rank `p`.
  abbrev pub IsGathered : Gather V → (ℕ → ℕ → Tensor V) → Type 0
  IsGathered g out = (r p : ℕ) → r < world → p < world → (out r p).content ≡ (g.input p).content

  pub record GatherFits (g : Gather V) : Type 0 where
    pub counts : (r : ℕ) → r < world → g.out_count r ≡ world
    pub inputs : (r p : ℕ) → r < world → p < world → (g.input p).nbytes ≡ (g.input r).nbytes
    pub outputs : (r p : ℕ) → r < world → p < world → (g.outs r p).nbytes ≡ (g.input r).nbytes
    pub room_left : Fit room world (λ r p. (g.input r).nbytes)

  allgather_tensor_lem :
      (g : Gather V)
      → GatherFits g
      → (out : ℕ → ℕ → Tensor V) × (allgather_tensor room world g ≡ some out) × IsGathered g out
  unfolding allgather_tensor
  allgather_tensor_lem g h =
      let row = λ (r : ℕ) (below : r < world).
        every_true world (gather_fits world g r)
          (λ p below_p. ground (arith, h.inputs r p below below_p, h.outputs r p below below_p)) in
      let fits : every_rank
            (λ r. g.out_count r == world && every_rank (gather_fits world g r) world) world
          ≡ true =
        every_true world _ (λ r below. ground (arith, row r below, h.counts r below)) in
      let through = Fit-all_pass room world (λ r p. (g.input r).nbytes) h.room_left in
      rw (fits, through) ((λ r p. filled (g.outs r p) (g.input p)), refl, λ r p below below_p. refl)

  -- Among several ranks, if at each place of the lists every rank has an output for each rank and all
  -- inputs and outputs have the same size, and of any two ranks one sends the other no more than the
  -- socket buffers hold, `allgather` gives every rank the inputs of all ranks.
  pub allgather_lem :
      (gs : List (Gather V))
      → 2 ≤ world
      → All GatherFits gs
      → (outs : List (ℕ → ℕ → Tensor V)) × (allgather room world gs ≡ some outs)
        × All₂ IsGathered gs outs
  unfolding allgather
  allgather_lem gs two h =
      let several : (world == 1) ≡ false = ground arith in
      rw several (for_each_lem (allgather_tensor room world) IsGathered gs (each gs h))
    where
      each :
          (xs : List (Gather V))
          → All GatherFits xs
          → All
              (λ x.
                (out : ℕ → ℕ → Tensor V) × (allgather_tensor room world x ≡ some out)
                × IsGathered x out)
              xs
      each [] h = tt
      each (x ∷ xs) h = (allgather_tensor_lem x h.0, each xs h.1)

  pub record SidesFit (s : Sides V) : Type 0 where
    pub in_counts : (r : ℕ) → r < world → s.in_count r ≡ world
    pub out_counts : (r : ℕ) → r < world → s.out_count r ≡ world
    pub sizes : (r p : ℕ) → r < world → p < world → (s.outs r p).nbytes ≡ (s.ins p r).nbytes
    pub room_left : Fit room world (λ r p. (s.ins r p).nbytes)

  -- If every rank has an input and an output for each rank, of the sizes that the peers expect, and of any
  -- two ranks one sends the other no more than the socket buffers hold, `alltoall` gives the rank `r` as
  -- its `p`-th tensor the `r`-th of the rank `p`.
  pub alltoall_lem :
      (s : Sides V)
      → SidesFit s
      → (out : ℕ → ℕ → Tensor V) × (alltoall room world s ≡ some out)
        × ((r p : ℕ) → (out r p).content ≡ (s.ins p r).content)
  unfolding alltoall
  alltoall_lem s h =
      let counts : every_rank (λ r. s.in_count r == world && s.out_count r == world) world ≡ true =
        every_true world _ (λ r below. ground (arith, h.in_counts r below, h.out_counts r below)) in
      let row = λ (r : ℕ) (below : r < world).
        every_true world (λ p. (s.outs r p).nbytes == (s.ins p r).nbytes)
          (λ p below_p. ground (arith, h.sizes r p below below_p)) in
      let sizes : every_rank
            (λ r. every_rank (λ p. (s.outs r p).nbytes == (s.ins p r).nbytes) world) world
          ≡ true =
        every_true world _ row in
      let through = Fit-all_pass room world (λ r p. (s.ins r p).nbytes) h.room_left in
      rw counts (
        rw (sizes, through)
          (
            (λ r p.
                if p == r
                then filled (s.outs r r) (s.ins r r)
                else filled (s.outs r p) (received_from s.ins r p)),
            refl,
            λ r p. elim (Bool-cases (p == r)) [
              | inl own ↦
                  let e : p ≡ r = ground arith in rw own (ap (λ q. (s.ins q r).content) (sym e))
              | inr other ↦ rw other refl
            ],
          ))
