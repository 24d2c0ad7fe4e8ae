-- ===== src/Allreduce/Tree/Result.antt =====
-- `allreduce_tree`: what every rank holds at the end.
use native.Mathlib.Nat.{mod-eq_of_lt, mod-one, pow-succ', one-le-pow}
use mccl.Base.{
  ℕ, zero, suc, ◌+◌, ◌-◌, ◌*◌, ◌/◌, ◌%◌, ◌^◌, ◌<◌, ◌≤◌, min, ◌≡◌, refl, sym, ◌∙◌, ap, Bool,
  Bool-cases, true, false, inl, inr, Option, some, arith, ltb, leb, ◌==◌, if◌then◌else◌,
}
use mccl.Allreduce.Fold.{IsReduction, over_ranks, over_all}
use mccl.Allreduce.Tree.{
  Ranks, top_mask, tree_reduce_round, tree_reduce, spread_round, spread, allreduce_tree,
}
use mccl.Allreduce.Tree.Rounds.{
  AreMultiples, HoldRanges, rounds_paired, active_step, range_step, spread_rounds_paired,
  spread_step,
}

-- The mask that the second loop starts with is a power of two that, doubled, reaches the number of
-- ranks.
abbrev IsTop : ℕ → ℕ → Type 0
IsTop world mask = (k : ℕ) × (mask ≡ 2 ^ k) × (world ≤ 2 * mask) × (k ≤ world)

top_mask-Top :
    (world fuel k mask : ℕ)
    → mask ≡ 2 ^ k
    → 0 < mask
    → world ≤ mask + fuel
    → k + fuel ≤ world
    → IsTop world (top_mask world fuel mask)
unfolding top_mask
top_mask-Top world zero k mask e h enough le = (k, e, omega arith, omega arith)
top_mask-Top world (suc fuel) k mask e h enough le =
    let double : 2 * mask ≡ 2 ^ suc k = ap (λ i. 2 * i) e ∙ sym (pow-succ' 2 k) in
    elim (Bool-cases (ltb (mask * 2) world)) [
      | inl more ↦ rw more (
          top_mask-Top world fuel (suc k) (2 * mask) double (omega arith) (omega arith)
            (omega arith))
      | inr last ↦ rw last ((k, e, ground arith, omega arith))
    ]

module _ {V : Type 0} (reduce : V → V → V) (world : ℕ) (x : ℕ → V) where
  -- What the first loop leaves at rank 0.
  abbrev Gathered : Option (Ranks V) → Type 0
  Gathered o = (s : Ranks V) × (o ≡ some s) × (s.tensor 0 ≡ over_all reduce world x)

  gathered :
      (mask : ℕ) (s : Ranks V)
      → 0 < world
      → world ≤ mask
      → HoldRanges reduce world x mask s.tensor
      → s.tensor 0 ≡ over_all reduce world x
  gathered mask s pos le held =
      let count : min (0 + mask) world - 1 - 0 ≡ world - 1 = omega arith in
      held 0 pos (mod-eq_of_lt (omega arith)) ∙ ap (λ i. over_ranks reduce x i 0) count

  tree_reduce-Gathered :
      (fuel mask : ℕ) (s : Ranks V)
      → IsReduction reduce
      → 0 < world
      → 0 < mask
      → world ≤ mask + fuel
      → AreMultiples mask s.active
      → HoldRanges reduce world x mask s.tensor
      → Gathered (tree_reduce reduce world fuel mask s)
  unfolding tree_reduce
  tree_reduce-Gathered zero mask s laws pos h enough act held =
      let done : ltb mask world ≡ false = ground arith in
      rw done ((s, refl, gathered mask s pos (omega arith) held))
  tree_reduce-Gathered (suc fuel) mask s laws pos h enough act held =
      elim (Bool-cases (ltb mask world)) [
        | inl more ↦ rw more (
            rw (rounds_paired world mask s.active h act) (
              tree_reduce-Gathered fuel (2 * mask) (tree_reduce_round reduce world mask s) laws pos
                (omega arith) (omega arith) (active_step world mask s.active h act)
                (range_step reduce world x mask s laws h act held)))
        | inr last ↦ rw last ((s, refl, gathered mask s pos (ground arith) held))
      ]

  initial_ranges : HoldRanges reduce world x 1 x
  unfolding over_ranks
  initial_ranges r lt e =
      let none_more : min (r + 1) world - 1 - r ≡ 0 = omega arith in
      ap (λ i. over_ranks reduce x i r) (sym none_more)

spread-zero : {V : Type 0} (world fuel : ℕ) (t : ℕ → V) → spread world fuel 0 t ≡ some t
unfolding spread
spread-zero world zero t = refl
spread-zero world (suc fuel) t = refl

spread_lem :
    {V : Type 0} (world fuel k mask : ℕ) (t : ℕ → V) (v : V)
    → mask ≡ 2 ^ k
    → k < fuel
    → ((r : ℕ) → r < world → r % (2 * mask) ≡ 0 → t r ≡ v)
    → (out : ℕ → V) × (spread world fuel mask t ≡ some out) × ((r : ℕ) → r < world → out r ≡ v)
unfolding spread
spread_lem world zero k mask t v e lt held = absurd (omega arith)
spread_lem world (suc fuel) zero mask t v e lt held =
    let pos : 0 < mask = omega arith in
    let more : leb 1 mask ≡ true = ground arith in
    let halved : mask / 2 ≡ 0 = omega arith in
    let each : (r : ℕ) → r % mask ≡ 0 = λ r. ap (λ i. r % i) e ∙ mod-one r in
    rw more (
      rw (spread_rounds_paired world mask pos) (
        rw halved (
          (
            spread_round world mask t,
            spread-zero world fuel (spread_round world mask t),
            λ r lt. spread_step world mask pos t v held r lt (each r),
          ))))
spread_lem world (suc fuel) (suc k) mask t v e lt held =
    let half : mask ≡ 2 * 2 ^ k = e ∙ pow-succ' 2 k in
    let base : 1 ≤ 2 ^ k = one-le-pow k 2 (omega arith) in
    let pos : 0 < mask = omega arith in
    let more : leb 1 mask ≡ true = ground arith in
    let halved : mask / 2 ≡ 2 ^ k = omega arith in
    let doubled : 2 * (mask / 2) ≡ mask = omega arith in
    rw more (
      rw (spread_rounds_paired world mask pos) (
        spread_lem world fuel k (mask / 2) (spread_round world mask t) v halved (omega arith)
          (λ r lt e. spread_step world mask pos t v held r lt (ap (λ i. r % i) (sym doubled) ∙ e))))

all_active : (r : ℕ) → true ≡ (r % 1 == 0)
all_active r = let least : r % 1 ≡ 0 = mod-one r in ground arith

module _ {V : Type 0} (reduce : V → V → V) where
  -- The tree never waits for a message that is not sent, and leaves at every rank the tensors of all
  -- ranks reduced, scaled if an average is asked for. The condition is that the reduction is
  -- associative and commutative.
  pub allreduce_tree_lem :
      (world : ℕ) (avg : Bool) (scale : V → V) (t : ℕ → V)
      → IsReduction reduce
      → 0 < world
      → (out : ℕ → V) × (allreduce_tree reduce world avg scale t ≡ some out)
        × ((r : ℕ)
            → r < world
            → out r ≡ (let total = over_all reduce world t in if avg then scale total else total))
  unfolding allreduce_tree
  allreduce_tree_lem world avg scale t laws pos =
      let start : Ranks V = record { active = λ r. true; tensor = t } in
      let (s, e, total) =
        tree_reduce-Gathered reduce world t world 1 start laws pos (omega arith) (omega arith)
          all_active (initial_ranges reduce world t) in
      let (k, power, wide, few) =
        top_mask-Top world world 0 1 refl (omega arith) (omega arith) (omega arith) in
      let (out, spread_out, all) =
        spread_lem world (suc world) k (top_mask world world 1) s.tensor (over_all reduce world t)
          power (omega arith)
          (λ r lt e. ap s.tensor (sym (mod-eq_of_lt (omega arith)) ∙ e) ∙ total) in
      rw e (
        rw spread_out (
          (
            (λ r. if avg then scale (out r) else out r),
            refl,
            (λ r lt. ap (λ u. if avg then scale u else u) (all r lt)),
          )))
