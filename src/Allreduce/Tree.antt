-- ===== src/Allreduce/Tree.antt =====
-- `allreduce_tree` of csrc/backend/AllreduceAlgos.cpp, for all ranks at once. A round is the passage
-- of every rank through the body of a loop with the same mask; a rank whose receive has no send waits
-- for ever, and a send without a receive upsets the stream, so a round in which they do not pair off
-- has no result. Values and reductions are those of the ring, of whole tensors here.
pub mod Rounds
pub mod Result
use mccl.Base.{
  ℕ, zero, suc, ◌+◌, ◌-◌, ◌*◌, ◌/◌, ◌%◌, Bool, true, false, not, ◌&&◌, ◌||◌, Option, none, some,
  ltb, leb, ◌==◌, if◌then◌else◌,
}

-- `rank & mask`, where the mask is a power of two.
abbrev pub has_bit : ℕ → ℕ → Bool
has_bit rank mask = (rank / mask) % 2 == 1

-- A test of all ranks below a bound.
abbrev pub every_rank : (ℕ → Bool) → ℕ → Bool
every_rank p zero = true
every_rank p (suc n) = p n && every_rank p n

-- The tensors of the ranks, and the ranks' flags `active`.
pub record Ranks (V : Type 0) : Type 0 where
  pub active : ℕ → Bool
  pub tensor : ℕ → V

module _ (world mask : ℕ) (active : ℕ → Bool) where
  unfoldable pub reduce_sends : ℕ → Bool
  reduce_sends rank = active rank && has_bit rank mask

  unfoldable pub reduce_recvs : ℕ → Bool
  reduce_recvs rank = active rank && not (has_bit rank mask) && ltb (rank + mask) world

  -- Whether the sends and the receives of a round pair off.
  unfoldable pub reduce_paired : ℕ → Bool
  unfolding reduce_sends reduce_recvs
  reduce_paired rank =
      (not (reduce_recvs rank) || reduce_sends (rank + mask))
      && (not (reduce_sends rank) || (leb mask rank && reduce_recvs (rank - mask)))

module _ (world mask : ℕ) where
  unfoldable pub spread_sends : ℕ → Bool
  spread_sends rank = rank % (2 * mask) == 0 && ltb (rank + mask) world

  unfoldable pub spread_recvs : ℕ → Bool
  spread_recvs rank = not (spread_sends rank) && rank % (2 * mask) == mask

  unfoldable pub spread_paired : ℕ → Bool
  unfolding spread_sends spread_recvs
  spread_paired rank =
      (not (spread_sends rank) || spread_recvs (rank + mask))
      && (not (spread_recvs rank) || (leb mask rank && spread_sends (rank - mask)))

-- `top_mask`, from the mask on.
unfoldable pub top_mask : ℕ → ℕ → ℕ → ℕ
top_mask world zero mask = mask
top_mask world (suc fuel) mask =
    let rest = top_mask world fuel (2 * mask) in if ltb (mask * 2) world then rest else mask

module _ {V : Type 0} (reduce : V → V → V) (world : ℕ) where
  -- One round of the first loop, at every rank.
  unfoldable pub tree_reduce_round : ℕ → Ranks V → Ranks V
  unfolding reduce_sends reduce_recvs
  tree_reduce_round mask s = record {
    active = λ r. s.active r && not (reduce_sends world mask s.active r);
    tensor = λ r.
        if reduce_recvs world mask s.active r
        then reduce (s.tensor r) (s.tensor (r + mask))
        else s.tensor r;
  }

  -- The first loop, from the mask on; the fuel bounds the rounds.
  unfoldable pub tree_reduce : ℕ → ℕ → Ranks V → Option (Ranks V)
  unfolding tree_reduce_round reduce_paired
  tree_reduce zero mask s = if ltb mask world then none else some s
  tree_reduce (suc fuel) mask s =
      let rest = tree_reduce fuel (2 * mask) (tree_reduce_round mask s) in
      if ltb mask world
      then (if every_rank (reduce_paired world mask s.active) world then rest else none)
      else some s

module _ {V : Type 0} (world : ℕ) where
  -- One round of the second loop.
  unfoldable pub spread_round : ℕ → (ℕ → V) → ℕ → V
  unfolding spread_recvs
  spread_round mask t r = if spread_recvs world mask r then t (r - mask) else t r

  -- The second loop, from the mask down.
  unfoldable pub spread : ℕ → ℕ → (ℕ → V) → Option (ℕ → V)
  unfolding spread_round spread_paired
  spread zero mask t = if leb 1 mask then none else some t
  spread (suc fuel) mask t =
      let rest = spread fuel (mask / 2) (spread_round mask t) in
      if leb 1 mask
      then (if every_rank (spread_paired world mask) world then rest else none)
      else some t

  abbrev pub spread_all : Option (Ranks V) → Option (ℕ → V)
  spread_all none = none
  spread_all (some s) = spread (suc world) (top_mask world world 1) s.tensor

module _ {V : Type 0} where
  abbrev pub tree_scaled : Bool → (V → V) → Option (ℕ → V) → Option (ℕ → V)
  tree_scaled avg scale none = none
  tree_scaled avg scale (some t) = some (λ r. if avg then scale (t r) else t r)

module _ {V : Type 0} (reduce : V → V → V) (world : ℕ) where
  -- The fuel, the number of ranks, is enough for masks that double up to it.
  unfoldable pub allreduce_tree : Bool → (V → V) → (ℕ → V) → Option (ℕ → V)
  unfolding tree_reduce spread top_mask
  allreduce_tree avg scale t = tree_scaled avg scale (
      spread_all world
        (tree_reduce reduce world world 1 (record { active = λ r. true; tensor = t })))
