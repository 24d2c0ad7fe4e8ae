-- ===== src/Runtime/Dispatch.antt =====
-- `ShaderDispatch::data_parallel` of csrc/runtime/ShaderDispatch.hpp: the share of each node of a grid.
-- The numbers of elements and of threads are below 2^64.
use native.Mathlib.Nat.{div-add-mod, mod-lt, mod-eq_of_lt, mul-le-mul_left, mul-le-mul_right}
use mccl.Base.{
  ℕ, ◌+◌, ◌-◌, ◌*◌, ◌/◌, ◌%◌, ◌^◌, ◌≤◌, ◌<◌, ◌≡◌, refl, subst, Bool-cases, inl, inr, leb, true,
  false, List, [], ◌∷◌, arith, length, ◌==◌, if◌then◌else◌,
}

pub record NodeWork : Type 0 where
  pub node_id : ℕ
  pub grid_offset : ℕ
  pub grid_size : ℕ
  pub threadgroup_count : ℕ

-- `(a + b - 1) / b`
abbrev pub round_up_div : ℕ → ℕ → ℕ
round_up_div a b = (a + b - 1) / b

module _ (total threadgroup_size elements_per_thread num_nodes : ℕ) where
  abbrev pub elements_per_node : ℕ
  elements_per_node = total / num_nodes

  abbrev pub node_grid : ℕ → ℕ
  node_grid i = if i == num_nodes - 1 then total - i * elements_per_node else elements_per_node

  unfoldable pub node_work : ℕ → ℕ → NodeWork
  node_work i id =
      let threads = round_up_div (node_grid i) elements_per_thread in
      record {
        node_id = id;
        grid_offset = i * elements_per_node;
        grid_size = node_grid i;
        threadgroup_count = round_up_div threads threadgroup_size % 2 ^ 32;
      }

  -- The loop from the node `i` on.
  unfoldable pub node_works : ℕ → List ℕ → List NodeWork
  unfolding node_work
  node_works i [] = []
  node_works i (id ∷ ids) = node_work i id ∷ node_works (i + 1) ids

-- The shares of the nodes; the code divides by the number of nodes, which must not be 0.
unfoldable pub data_parallel : ℕ → ℕ → ℕ → List ℕ → List NodeWork
unfolding node_works
data_parallel total threadgroup_size elements_per_thread ids =
    node_works total threadgroup_size elements_per_thread (length ids) 0 ids

-- From `start`, the share of each node begins where the one before ends, the last ends at `total`, and
-- each has enough threads for its elements.
abbrev pub Tiles : ℕ → ℕ → ℕ → ℕ → List NodeWork → Type 0
Tiles total threadgroup_size elements_per_thread start [] = start ≡ total
Tiles total threadgroup_size elements_per_thread start (w ∷ works) =
    (w.grid_offset ≡ start)
    × (w.grid_size ≤ w.threadgroup_count * threadgroup_size * elements_per_thread)
    × Tiles total threadgroup_size elements_per_thread (start + w.grid_size) works

round_up_div_covers : (a b : ℕ) → 0 < b → a ≤ round_up_div a b * b
round_up_div_covers a b h = omega (arith, div-add-mod (a + b - 1) b, mod-lt (a + b - 1) h)

round_up_div_le : (a b : ℕ) → 0 < b → round_up_div a b ≤ a
round_up_div_le a b h =
    let q : ℕ = round_up_div a b in
    let split : b * q + (a + b - 1) % b ≡ a + b - 1 = div-add-mod (a + b - 1) b in
    elim (Bool-cases (leb q a)) [
      | inl small ↦ ground arith
      | inr large ↦
          let over : b * (a + 1) ≤ b * q = mul-le-mul_left b (ground arith) in
          let grows : 1 * a ≤ b * a = mul-le-mul_right a h in absurd (omega arith)
    ]

module _ (total tg ept n : ℕ) (h_tg : 0 < tg) (h_ept : 0 < ept) (small : total < 2 ^ 32) where
  enough_threads :
      (size : ℕ) → size ≤ total → size ≤ round_up_div (round_up_div size ept) tg % 2 ^ 32 * tg * ept
  enough_threads size h =
      let threads : ℕ = round_up_div size ept in
      let groups : ℕ = round_up_div threads tg in
      let few : threads ≤ size = round_up_div_le size ept h_ept in
      let fewer : groups ≤ threads = round_up_div_le threads tg h_tg in
      let uncut : groups % 2 ^ 32 ≡ groups = mod-eq_of_lt (omega arith) in
      let covers : threads ≤ groups * tg = round_up_div_covers threads tg h_tg in
      let times : threads * ept ≤ groups * tg * ept = mul-le-mul_right ept covers in
      let all : size ≤ threads * ept = round_up_div_covers size ept h_ept in rw uncut (omega arith)

  node_works-Tiles :
      (ids : List ℕ) (i : ℕ)
      → 0 < length ids
      → i + length ids ≡ n
      → Tiles total tg ept (i * (total / n)) (node_works total tg ept n i ids)
  unfolding node_works node_work
  node_works-Tiles [] i pos e = absurd (omega arith)
  node_works-Tiles (id ∷ []) i pos e =
      let q : ℕ = total / n in
      let split : n * q + total % n ≡ total = div-add-mod total n in
      let within : i * q ≤ n * q = mul-le-mul_right q (omega arith) in
      let last : (i == n - 1) ≡ true = ground arith in
      rw last ((refl, enough_threads (total - i * q) (omega arith), omega arith))
  node_works-Tiles (id ∷ (next ∷ ids)) i pos e =
      let q : ℕ = total / n in
      let split : n * q + total % n ≡ total = div-add-mod total n in
      let within : 1 * q ≤ n * q = mul-le-mul_right q (omega arith) in
      let before : (i == n - 1) ≡ false = ground arith in
      let step : (i + 1) * q ≡ i * q + q = omega arith in
      let rest = node_works-Tiles (next ∷ ids) (i + 1) (omega arith) (omega arith) in
      rw before (
        (
          refl,
          enough_threads q (omega arith),
          subst (λ a. Tiles total tg ept a (node_works total tg ept n (i + 1) (next ∷ ids))) step
              rest,
        ))

-- The shares of the nodes, in their order, tile the grid without gap or overlap, and each share has at
-- least one thread for each of its groups of elements. The conditions are that there is a node, that
-- neither size is 0, and that the grid has fewer than 2^32 elements.
pub data_parallel-Tiles :
    (total tg ept : ℕ) (ids : List ℕ)
    → 0 < length ids
    → 0 < tg
    → 0 < ept
    → total < 2 ^ 32
    → Tiles total tg ept 0 (data_parallel total tg ept ids)
unfolding data_parallel
data_parallel-Tiles total tg ept ids some_node h_tg h_ept small =
    let start : 0 * (total / length ids) ≡ 0 = omega arith in
    subst (λ a. Tiles total tg ept a (node_works total tg ept (length ids) 0 ids)) start
      (node_works-Tiles total tg ept (length ids) h_tg h_ept small ids 0 some_node (omega arith))
