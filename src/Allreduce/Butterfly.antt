-- ===== src/Allreduce/Butterfly.antt =====
-- `allreduce_butterfly` of csrc/backend/AllreduceAlgos.cpp, for all ranks at once. The threads of a
-- phase are joined before the next begins, and each pair of ranks exchanges one chunk each way, so a
-- phase is one step. Values and reductions are those of the ring.
use mathlib.Core.Option
use mccl.Base.{
  ℕ, zero, suc, ◌+◌, ◌-◌, ◌*◌, ◌<◌, ◌≡◌, refl, sym, ◌∙◌, ap, Bool, true, false, ◌||◌, Option, none,
  some, List, [], ◌∷◌, map, arith, ltb, ◌==◌, if◌then◌else◌,
}
use mccl.Allreduce.Chunks.{chunk}
use mccl.Allreduce.Fold.{IsReduction, over_ranks, over_all, over_ranks-append}
use mccl.Allreduce.Ring.{Tensors}

-- The peers `p`, `p + 1`, … of a rank, of the next `n` ranks, in the order of their slots.
unfoldable pub peers_from : ℕ → ℕ → ℕ → List ℕ
peers_from rank zero p = []
peers_from rank (suc n) p =
    let rest = peers_from rank n (p + 1) in if p == rank then rest else p ∷ rest

-- Whether `recv_view` is too small at some rank below `n`: `recv_bytes` gives its size.
unfoldable pub some_too_small : ℕ → ℕ → ℕ → (ℕ → ℕ) → ℕ → Bool
some_too_small numel elem_size world recv_bytes zero = false
some_too_small numel elem_size world recv_bytes (suc n) =
    ltb (recv_bytes n) ((world - 1) * (chunk numel elem_size world n).byte_len)
    || some_too_small numel elem_size world recv_bytes n

module _ {V : Type 0} (reduce : V → V → V) where
  -- The loop that reduces the received slots into the rank's own chunk.
  unfoldable pub reduce_slots : V → List V → V
  reduce_slots own [] = own
  reduce_slots own (slot ∷ slots) = reduce_slots (reduce own slot) slots

  -- Rank `r`'s own chunk after the first phase: each peer `p` has sent its chunk `r`.
  unfoldable pub own_chunk : ℕ → Tensors V → ℕ → V
  unfolding reduce_slots peers_from
  own_chunk world t r = reduce_slots (t r r) (map (λ p. t p r) (peers_from r world 0))

  -- The second phase: each rank sends its own chunk to all others.
  unfoldable pub share_chunks : ℕ → Tensors V → Tensors V
  unfolding own_chunk
  share_chunks world t r c = if c == r then own_chunk world t r else own_chunk world t c

  -- `none` is a failed check, of the number of elements or of the size of a receive buffer.
  unfoldable pub allreduce_butterfly :
      ℕ → ℕ → ℕ → (ℕ → ℕ) → Bool → (V → V) → Tensors V → Option (Tensors V)
  unfolding share_chunks some_too_small
  allreduce_butterfly world numel elem_size recv_bytes avg scale t =
      let out = share_chunks world t in
      if ltb numel world
      then none
      else if some_too_small numel elem_size world recv_bytes world
      then none
      else some (λ r c. if avg then scale (out r c) else out r c)

  -- A range of ranks beside a value, where the range may be empty.
  abbrev with_range : (ℕ → V) → V → ℕ → ℕ → V
  with_range x v zero p = v
  with_range x v (suc n) p = reduce (over_ranks reduce x n p) v

  with_range-step :
      (x : ℕ → V) (v : V) (n p : ℕ)
      → IsReduction reduce
      → with_range x (reduce v (x p)) n (p + 1) ≡ with_range x v (suc n) p
  unfolding over_ranks
  with_range-step x v zero p laws = laws.comm _ _
  with_range-step x v (suc n) p laws =
      let count : n + suc 0 ≡ suc n = omega arith in
      ap (reduce (over_ranks reduce x n (p + 1))) (laws.comm _ _)
      ∙ sym (laws.assoc _ _ _)
      ∙ ap (λ u. reduce u v)
          (over_ranks-append reduce x n 0 p laws ∙ ap (λ i. over_ranks reduce x i p) count)

  reduce_slots_past :
      (x : ℕ → V) (v : V) (rank n p : ℕ)
      → IsReduction reduce
      → rank < p
      → reduce_slots v (map x (peers_from rank n p)) ≡ with_range x v n p
  unfolding reduce_slots peers_from
  reduce_slots_past x v rank zero p laws h = refl
  reduce_slots_past x v rank (suc n) p laws h = ground (
    arith,
    reduce_slots_past x (reduce v (x p)) rank n (p + 1) laws (omega arith),
    with_range-step x v n p laws,
  )

  reduce_slots_around :
      (x : ℕ → V) (v : V) (rank n m k p : ℕ)
      → IsReduction reduce
      → k ≡ n + suc m
      → rank ≡ p + n
      → reduce_slots v (map x (peers_from rank k p))
        ≡ with_range x (with_range x v n p) m (suc rank)
  unfolding reduce_slots peers_from
  reduce_slots_around x v rank n m zero p laws e f = absurd (omega arith)
  reduce_slots_around x v rank zero m (suc k) p laws e f =
      let same : (p == rank) ≡ true = ground arith in
      let count : k ≡ m = omega arith in
      let start : p + 1 ≡ suc rank = omega arith in
      rw same (
        reduce_slots_past x v rank k (p + 1) laws (omega arith)
        ∙ ap (λ i. with_range x v i (p + 1)) count
        ∙ ap (with_range x v m) start)
  reduce_slots_around x v rank (suc n) m (suc k) p laws e f =
      let other : (p == rank) ≡ false = ground arith in
      rw other (
        reduce_slots_around x (reduce v (x p)) rank n m k (p + 1) laws (omega arith) (omega arith)
        ∙ ap (λ u. with_range x u m (suc rank)) (with_range-step x v n p laws))

  with_range_below :
      (x : ℕ → V) (r : ℕ) → IsReduction reduce → with_range x (x r) r 0 ≡ over_ranks reduce x r 0
  unfolding over_ranks
  with_range_below x zero laws = refl
  with_range_below x (suc r) laws =
      let index : suc r ≡ 0 + suc r = omega arith in
      laws.comm _ _ ∙ ap (λ i. reduce (x i) (over_ranks reduce x r 0)) index

  with_range_above :
      (x : ℕ → V) (m r n : ℕ)
      → IsReduction reduce
      → n ≡ m + r
      → with_range x (over_ranks reduce x r 0) m (suc r) ≡ over_ranks reduce x n 0
  with_range_above x zero r n laws e =
      let count : r ≡ n = omega arith in ap (λ i. over_ranks reduce x i 0) count
  with_range_above x (suc m) r n laws e =
      let index : suc r ≡ 0 + suc r = omega arith in
      let count : m + suc r ≡ n = omega arith in
      ap (λ i. reduce (over_ranks reduce x m i) (over_ranks reduce x r 0)) index
      ∙ over_ranks-append reduce x m r 0 laws
      ∙ ap (λ i. over_ranks reduce x i 0) count

  pub own_chunk_lem :
      (world r : ℕ) (t : Tensors V)
      → IsReduction reduce
      → r < world
      → own_chunk world t r ≡ over_all reduce world (λ q. t q r)
  unfolding own_chunk
  own_chunk_lem world r t laws h =
      let x : ℕ → V = λ q. t q r in
      reduce_slots_around x (t r r) r r (world - 1 - r) world 0 laws (omega arith) (omega arith)
      ∙ ap (λ v. with_range x v (world - 1 - r) (suc r)) (with_range_below x r laws)
      ∙ with_range_above x (world - 1 - r) r (world - 1) laws (omega arith)

  -- The butterfly fails exactly on its two checks, that there is an element for each rank and that the
  -- receive buffers hold a slot for each peer; otherwise it leaves every rank `r` with every chunk `c`
  -- reduced over all ranks, and scaled if an average is asked for. The condition is that the reduction
  -- is associative and commutative.
  pub allreduce_butterfly_lem :
      (world numel elem_size : ℕ) (recv_bytes : ℕ → ℕ) (avg : Bool) (scale : V → V) (t : Tensors V)
      (r c : ℕ)
      → IsReduction reduce
      → r < world
      → c < world
      → let total = over_all reduce world (λ q. t q c) in
        Option.map
          (λ out. out r c)
          (allreduce_butterfly world numel elem_size recv_bytes avg scale t)
        ≡ (if ltb numel world || some_too_small numel elem_size world recv_bytes world
            then none
            else some (if avg then scale total else total))
  unfolding allreduce_butterfly share_chunks
  allreduce_butterfly_lem world numel elem_size recv_bytes avg scale t r c laws hr hc =
      ground (arith, own_chunk_lem world r t laws hr, own_chunk_lem world c t laws hc)
