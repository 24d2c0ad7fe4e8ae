-- ===== src/Allreduce/Ring/Phases.antt =====
-- What the two loops of `allreduce_ring` leave on every rank.
use mccl.Base.{
  ℕ, zero, suc, ◌-◌, ◌<◌, ◌≡◌, ◌≢◌, sym, ◌∙◌, ap, ap₂, ◌⊎◌, inl, inr, arith, leb, ◌==◌,
  if◌then◌else◌, Bool-cases, ==_iff,
}
use mccl.Allreduce.Ring.{Tensors, prev_rank, reduce_recv, gather_recv, reduce_scatter, allgather}
use mccl.Allreduce.Ring.Schedule.{
  steps_back, prev_rank_lem, prev_rank-lt, rounds_match, reduce_recv-steps_back,
  gather_recv-steps_back, steps_back-prev, steps_back-lt,
}

module _ {V : Type 0} (reduce : V → V → V) (world : ℕ) where
  -- The chunk `c` of rank `r` reduced with that of the `m` ranks before it, the nearest first.
  unfoldable pub chain : Tensors V → ℕ → ℕ → ℕ → V
  chain t zero r c = t r c
  chain t (suc m) r c = reduce (t r c) (chain t m (prev_rank world r) c)

  chain_at : (t : Tensors V) (r c : ℕ) {m n : ℕ} → m ≡ n → chain t m r c ≡ chain t n r c
  chain_at t r c e = ap (λ k. chain t k r c) e

  reduce_scatter_lem :
      (t : Tensors V) (n r c : ℕ)
      → n < world
      → r < world
      → c < world
      → reduce_scatter reduce world n t r c
        ≡ (if leb (steps_back world r c) n then chain t (steps_back world r c) r c else t r c)
  unfolding reduce_scatter chain
  reduce_scatter_lem t zero r c hn hr hc =
      ground (arith, chain_at t r c {m = steps_back world r c} {n = 0})
  reduce_scatter_lem t (suc n) r c hn hr hc =
      let p = prev_rank world r in
      let here = reduce_scatter_lem t n r c (omega arith) hr hc in
      let there = reduce_scatter_lem t n p c (omega arith) (prev_rank-lt world r hr) hc in
      let sent = sym (rounds_match world r n hr hn).0 in
      let back = steps_back-prev world r c hr hc in
      let chunk = reduce_recv-steps_back world r c n hr hc hn in
      elim (Bool-cases (c == reduce_recv world r n)) [
        | inl e ↦
            let got : c ≡ reduce_recv world r n = (==_iff _ _).0 e in
            let far : steps_back world r c ≡ suc n = chunk.0 got in
            let near : steps_back world p c ≡ n = ground (arith, back, far) in
            let own : reduce_scatter reduce world n t r c ≡ t r c = ground (arith, here, far) in
            let theirs : reduce_scatter reduce world n t p c ≡ chain t n p c =
              there ∙ ground (arith, near) ∙ chain_at t p c near in
            let moved = ap (reduce_scatter reduce world n t p) (sent ∙ sym got) in
            let whole = chain_at t r c far in
            rw (e, reduce_scatter) (ap₂ reduce own (moved ∙ theirs) ∙ ground (arith, far, whole))
        | inr e ↦
            let far : steps_back world r c ≢ suc n = λ q. cc ((==_iff c _).1 (chunk.1 q)) in
            rw (e, reduce_scatter) (here ∙ ground (arith, far))
      ]

  -- The value that the reduce-scatter leaves of a chunk at the rank before the chunk's own.
  unfoldable pub reduced : Tensors V → ℕ → V
  unfolding chain
  reduced t c = chain t (world - 1) (prev_rank world c) c

  -- Rounds that were received, and the chunk that a rank held whole from the start.
  allgather_lem :
      (t u : Tensors V) (n r c : ℕ)
      → ((q d : ℕ) → q < world → d < world → steps_back world q d ≡ world - 1 → u q d ≡ reduced t d)
      → n < world
      → r < world
      → c < world
      → ((steps_back world r c < n) ⊎ (steps_back world r c ≡ world - 1))
      → allgather reduce world n u r c ≡ reduced t c
  unfolding allgather
  allgather_lem t u zero r c whole hn hr hc h = whole r c hr hc (omega arith)
  allgather_lem t u (suc n) r c whole hn hr hc h =
      let p = prev_rank world r in
      let hp = prev_rank-lt world r hr in
      let sent = sym (rounds_match world r n hr hn).1 in
      let back = steps_back-prev world r c hr hc in
      let chunk = gather_recv-steps_back world r c n hr hc hn in
      elim (Bool-cases (c == gather_recv world r n)) [
        | inl e ↦
            let got : c ≡ gather_recv world r n = (==_iff _ _).0 e in
            let far : steps_back world r c ≡ n = chunk.0 got in
            let near : (steps_back world p c < n) ⊎ (steps_back world p c ≡ world - 1) =
              ground (arith, back, far) in
            rw (e, allgather)
              (ap (allgather reduce world n u p) (sent ∙ sym got)
                ∙ allgather_lem t u n p c whole (omega arith) hp hc near)
        | inr e ↦
            let far : steps_back world r c ≢ n = λ q. cc ((==_iff c _).1 (chunk.1 q)) in
            rw (e, allgather) (allgather_lem t u n r c whole (omega arith) hr hc (omega arith))
      ]

  steps_back-owner :
      (q d : ℕ) → q < world → d < world → steps_back world q d ≡ world - 1 → q ≡ prev_rank world d
  unfolding steps_back
  steps_back-owner q d hq hd e = ground (arith, prev_rank_lem world d hd)

  -- After both loops every rank holds of every chunk the same value: the chunk of all ranks reduced
  -- one after the other along the ring, from the chunk's own rank on.
  pub ring_result :
      (t : Tensors V) (r c : ℕ)
      → r < world
      → c < world
      → allgather reduce world (world - 1) (reduce_scatter reduce world (world - 1) t) r c
        ≡ reduced t c
  unfolding reduced
  ring_result t r c hr hc =
      allgather_lem t (reduce_scatter reduce world (world - 1) t) (world - 1) r c whole
        (omega arith) hr hc (omega (arith, steps_back-lt world r c hr hc))
    where
      whole :
          (q d : ℕ)
          → q < world
          → d < world
          → steps_back world q d ≡ world - 1
          → reduce_scatter reduce world (world - 1) t q d ≡ reduced t d
      whole q d hq hd e =
          reduce_scatter_lem t (world - 1) q d (omega arith) hq hd
          ∙ ground (arith, e)
          ∙ chain_at t q d e
          ∙ ap (λ k. chain t (world - 1) k d) (steps_back-owner q d hq hd e)
