-- ===== src/Allreduce/Tree/Rounds.antt =====
-- Rounds of `allreduce_tree`.
use mccl.Base.{
  ℕ, zero, suc, ◌+◌, ◌-◌, ◌*◌, ◌/◌, ◌%◌, ◌<◌, ◌≤◌, min, ◌≡◌, refl, sym, ◌∙◌, ap, ap₂, Bool,
  Bool-cases, true, false, not, ◌&&◌, inl, inr, arith, ltb, leb, ◌==◌, mod_unique, div_unique,
  mod-double-cases,
}
use native.Mathlib.Nat.{div-add-mod, mod-lt, add-mod_right}
use mccl.Allreduce.Fold.{IsReduction, over_ranks, over_ranks-append}
use mccl.Allreduce.Tree.{
  every_rank, Ranks, reduce_sends, reduce_recvs, reduce_paired, spread_sends, spread_recvs,
  spread_paired, tree_reduce_round, spread_round,
}

pub every_rank-intro :
    (p : ℕ → Bool) (n : ℕ) → ((r : ℕ) → r < n → p r ≡ true) → every_rank p n ≡ true
every_rank-intro p zero h = refl
every_rank-intro p (suc n) h =
    let here : p n ≡ true = h n (omega arith) in
    let below : every_rank p n ≡ true = every_rank-intro p n (λ r lt. h r (omega arith)) in
    ground arith

-- A multiple of the mask and the next one.
module _ (m r : ℕ) (h : 0 < m) where
  pub next-mod : (r + m) % m ≡ r % m
  next-mod = add-mod_right r m

  pub next-div : (r + m) / m ≡ r / m + 1
  next-div =
      let split : m * (r / m) + r % m ≡ r = div-add-mod r m in
      div_unique (r + m) m (r / m + 1) (r % m) (omega arith) (mod-lt r h)

  pub next-bit : (r / m) % 2 ≡ 0 → ((r + m) / m) % 2 ≡ 1
  next-bit e = let step : (r + m) / m ≡ r / m + 1 = next-div in omega arith

module _ (m r : ℕ) (h : 0 < m) (odd : (r / m) % 2 ≡ 1) where
  pub odd-le : m ≤ r
  odd-le =
      let split : m * (r / m) + r % m ≡ r = div-add-mod r m in
      let half : r / m ≡ 2 * ((r / m) / 2) + 1 = omega arith in
      let times : m * (r / m) ≡ m * (2 * ((r / m) / 2) + 1) = ap (λ i. m * i) half in omega arith

  pub prev-back : (r - m) + m ≡ r
  prev-back = let le : m ≤ r = odd-le in omega arith

  pub prev-mod : (r - m) % m ≡ r % m
  prev-mod = sym (next-mod m (r - m) h) ∙ ap (λ i. i % m) prev-back

  pub prev-bit : ((r - m) / m) % 2 ≡ 0
  prev-bit =
      let step : (r - m + m) / m ≡ (r - m) / m + 1 = next-div m (r - m) h in
      let same : (r - m + m) / m ≡ r / m = ap (λ i. i / m) prev-back in omega arith

-- The ranks that are active before the round with mask `m`.
abbrev pub AreMultiples : ℕ → (ℕ → Bool) → Type 0
AreMultiples m active = (r : ℕ) → active r ≡ (r % m == 0)

module _ (world m : ℕ) (active : ℕ → Bool) (h : 0 < m) (act : AreMultiples m active) where
  sends_paired :
      (r : ℕ)
      → r < world
      → reduce_sends world m active r ≡ true
      → (leb m r && reduce_recvs world m active (r - m)) ≡ true
  unfolding reduce_sends reduce_recvs
  sends_paired r lt sent =
      let here : active r ≡ (r % m == 0) = act r in
      let there : active (r - m) ≡ ((r - m) % m == 0) = act (r - m) in
      let odd : (r / m) % 2 ≡ 1 = ground arith in
      let back : (r - m) + m ≡ r = prev-back m r h odd in
      let le : m ≤ r = odd-le m r h odd in
      let even : ((r - m) / m) % 2 ≡ 0 = prev-bit m r h odd in
      let rest : (r - m) % m ≡ r % m = prev-mod m r h odd in ground arith

  recvs_paired :
      (r : ℕ) → reduce_recvs world m active r ≡ true → reduce_sends world m active (r + m) ≡ true
  unfolding reduce_sends reduce_recvs
  recvs_paired r received =
      let here : active r ≡ (r % m == 0) = act r in
      let there : active (r + m) ≡ ((r + m) % m == 0) = act (r + m) in
      let even : (r / m) % 2 ≡ 0 = ground arith in
      let odd : ((r + m) / m) % 2 ≡ 1 = next-bit m r h even in
      let rest : (r + m) % m ≡ r % m = next-mod m r h in ground arith

  pub rounds_paired : every_rank (reduce_paired world m active) world ≡ true
  unfolding reduce_paired
  rounds_paired =
      every_rank-intro (reduce_paired world m active) world
        (λ r lt. ground (arith, sends_paired r lt, recvs_paired r))

  pub active_step : (r : ℕ) → (active r && not (reduce_sends world m active r)) ≡ (r % (2 * m) == 0)
  unfolding reduce_sends
  active_step r =
      let here : active r ≡ (r % m == 0) = act r in
      elim (mod-double-cases r m h) [ inl e ↦ ground arith | inr e ↦ ground arith ]

module _ {V : Type 0} (reduce : V → V → V) (world : ℕ) (x : ℕ → V) where
  -- What the ranks hold before the round with mask `m`: each active rank has reduced the ranks from
  -- itself to the next active one.
  abbrev pub HoldRanges : ℕ → (ℕ → V) → Type 0
  HoldRanges m t =
      (r : ℕ) → r < world → r % m ≡ 0 → t r ≡ over_ranks reduce x (min (r + m) world - 1 - r) r

  -- Two adjacent ranges make the range of the doubled mask.
  merge_ranges :
      (m r : ℕ)
      → IsReduction reduce
      → 0 < m
      → r + m < world
      → reduce
          (over_ranks reduce x (min (r + m) world - 1 - r) r)
          (over_ranks reduce x (min (r + m + m) world - 1 - (r + m)) (r + m))
        ≡ over_ranks reduce x (min (r + 2 * m) world - 1 - r) r
  merge_ranges zero r laws h lt = absurd (omega arith)
  merge_ranges (suc m) r laws h lt =
      let n = min (r + suc m + suc m) world - 1 - (r + suc m) in
      let first : min (r + suc m) world - 1 - r ≡ m = omega arith in
      let count : n + suc m ≡ min (r + 2 * suc m) world - 1 - r = omega arith in
      laws.comm _ _
      ∙ ap (λ i. reduce (over_ranks reduce x n (r + suc m)) (over_ranks reduce x i r)) first
      ∙ over_ranks-append reduce x n m r laws
      ∙ ap (λ i. over_ranks reduce x i r) count

  pub range_step :
      (m : ℕ) (s : Ranks V)
      → IsReduction reduce
      → 0 < m
      → AreMultiples m s.active
      → HoldRanges m s.tensor
      → HoldRanges (2 * m) (tree_reduce_round reduce world m s).tensor
  unfolding tree_reduce_round reduce_recvs
  range_step m s laws h act held r lt e =
      let here : s.active r ≡ (r % m == 0) = act r in
      elim (mod-double-cases r m h) [
        | inl even ↦
            let mine : s.tensor r ≡ over_ranks reduce x (min (r + m) world - 1 - r) r =
              held r lt (omega arith) in
            elim (Bool-cases (ltb (r + m) world)) [
              | inl more ↦
                  let next : s.tensor (r + m)
                      ≡ over_ranks reduce x (min (r + m + m) world - 1 - (r + m)) (r + m) =
                    held (r + m) (ground arith) (next-mod m r h ∙ omega arith) in
                  let received : reduce_recvs world m s.active r ≡ true = ground arith in
                  rw received (ap₂ reduce mine next ∙ merge_ranges m r laws h (ground arith))
              | inr last ↦
                  let alone : reduce_recvs world m s.active r ≡ false = ground arith in
                  let count : min (r + m) world - 1 - r ≡ min (r + 2 * m) world - 1 - r =
                    ground arith in
                  rw alone (mine ∙ ap (λ i. over_ranks reduce x i r) count)
            ]
        | inr odd ↦ absurd (omega arith)
      ]

module _ (world m : ℕ) (h : 0 < m) where
  spread_next : (r : ℕ) → r % (2 * m) ≡ 0 → (r + m) % (2 * m) ≡ m
  spread_next r e =
      let split : 2 * m * (r / (2 * m)) + r % (2 * m) ≡ r = div-add-mod r (2 * m) in
      mod_unique (r + m) (2 * m) (r / (2 * m)) m (omega arith) (omega arith)

  spread_le : (r : ℕ) → r % (2 * m) ≡ m → m ≤ r
  spread_le r e =
      let split : 2 * m * (r / (2 * m)) + r % (2 * m) ≡ r = div-add-mod r (2 * m) in omega arith

  spread_prev : (r : ℕ) → r % (2 * m) ≡ m → (r - m) % (2 * m) ≡ 0
  spread_prev r e =
      let split : 2 * m * (r / (2 * m)) + r % (2 * m) ≡ r = div-add-mod r (2 * m) in
      mod_unique (r - m) (2 * m) (r / (2 * m)) 0 (omega arith) (omega arith)

  pub spread_rounds_paired : every_rank (spread_paired world m) world ≡ true
  unfolding spread_paired spread_sends spread_recvs
  spread_rounds_paired = every_rank-intro (spread_paired world m) world (λ r lt.
      let le : r % (2 * m) ≡ m → m ≤ r = spread_le r in
      let next : r % (2 * m) ≡ 0 → (r + m) % (2 * m) ≡ m = spread_next r in
      let prev : r % (2 * m) ≡ m → (r - m) % (2 * m) ≡ 0 = spread_prev r in ground arith)

  -- The ranks that hold a value before the round with mask `m`, and after it.
  pub spread_step :
      {V : Type 0} (t : ℕ → V) (v : V)
      → ((r : ℕ) → r < world → r % (2 * m) ≡ 0 → t r ≡ v)
      → (r : ℕ) → r < world
      → r % m ≡ 0
      → spread_round world m t r ≡ v
  unfolding spread_round spread_recvs spread_sends
  spread_step t v held r lt e = elim (mod-double-cases r m h) [
    | inl even ↦ let mine : t r ≡ v = held r lt (omega arith) in ground arith
    | inr odd ↦
        let theirs : t (r - m) ≡ v = held (r - m) (omega arith) (spread_prev r (omega arith)) in
        ground arith
  ]
