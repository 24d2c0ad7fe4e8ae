-- ===== src/Dmem/Manager/Chunking.antt =====
-- The chunks of a large put in csrc/dmem/DistributedMemoryManager.cpp.
use mccl.Base.{
  ℕ, zero, suc, ◌+◌, ◌-◌, ◌*◌, ◌%◌, ◌^◌, ◌≤◌, ◌<◌, min, ◌≡◌, refl, ◌∙◌, ap, ap₂, leb→le, inl, inr,
  Bool, true, ◌&&◌, List, [], ◌∷◌, ◌++◌, arith, ltb, leb, ◌==◌, if◌then◌else◌, Bool-cases, Memory,
}
use native.Mathlib.Nat.{mod-eq_of_lt}
use mccl.Dmem.Manager.{
  MemoryManager, Action, stages, writes, reads, polls, unstages, rdma_buf_size, next_wr, put_loop,
  rounds, put_chunked,
}

-- Every copy and every request is within the staging buffer, and a request has the region's key.
abbrev pub StayInBuffer : ℕ → List Action → Type 0
StayInBuffer rkey [] = Unit
StayInBuffer rkey (stages source n ∷ as') = (n ≤ rdma_buf_size) × StayInBuffer rkey as'
StayInBuffer rkey (writes addr key n w ∷ as') =
    (n ≤ rdma_buf_size) × (key ≡ rkey) × StayInBuffer rkey as'
StayInBuffer rkey (reads addr key n w ∷ as') =
    (n ≤ rdma_buf_size) × (key ≡ rkey) × StayInBuffer rkey as'
StayInBuffer rkey (polls w ∷ as') = StayInBuffer rkey as'
StayInBuffer rkey (unstages dst n ∷ as') = (n ≤ rdma_buf_size) × StayInBuffer rkey as'

-- `n` bytes from address `from` of `src` to address `to` of `dst`.
abbrev pub copy_bytes : Memory → ℕ → Memory → ℕ → ℕ → Memory
copy_bytes dst to src from n a = if leb to a && ltb a (to + n) then src (from + (a - to)) else dst a

-- The remote memory after the writes of the actions, where the node's own memory is `mem`, the staging
-- buffer holds `staging`, and the NIC reads the staging buffer when a write is posted.
pub written : List Action → Memory → Memory → Memory → Memory
written [] mem staging there = there
written (stages source n ∷ as') mem staging there =
    written as' mem (copy_bytes staging 0 mem source n) there
written (writes addr key n w ∷ as') mem staging there =
    written as' mem staging (copy_bytes there addr staging 0 n)
written (reads addr key n w ∷ as') mem staging there = written as' mem staging there
written (polls w ∷ as') mem staging there = written as' mem staging there
written (unstages dst n ∷ as') mem staging there = written as' mem staging there

-- A chunk that is staged and written arrives.
through_staging :
    (there staging mem : Memory) (addr source n a : ℕ)
    → copy_bytes there addr (copy_bytes staging 0 mem source n) 0 n a
      ≡ copy_bytes there addr mem source n a
through_staging there staging mem addr source n a =
    elim (Bool-cases (leb addr a && ltb a (addr + n))) [
      | inr out ↦ ground (arith, out)
      | inl there' ↦
          let inside : (leb 0 (0 + (a - addr)) && ltb (0 + (a - addr)) (0 + n)) ≡ true =
            ground arith in
          let index : source + (0 + (a - addr) - 0) ≡ source + (a - addr) = omega arith in
          rw there' (rw inside (ap mem index))
    ]

-- Two copies, one behind the other, are one.
joined :
    (x there mem : Memory) (to from n m a : ℕ)
    → x a ≡ copy_bytes there to mem from n a
    → copy_bytes x (to + n) mem (from + n) m a ≡ copy_bytes there to mem from (n + m) a
joined x there mem to from n m a e = elim (Bool-cases (leb (to + n) a)) [
  | inl late ↦
      let past : to + n ≤ a = leb→le (to + n) a late in
      let index : from + n + (a - (to + n)) ≡ from + (a - to) = omega arith in
      let same : mem (from + n + (a - (to + n))) ≡ mem (from + (a - to)) = ap mem index in
      ground (arith, late, same, e)
  | inr early ↦ ground (arith, early, e)
]

module _ (accepts : ℕ → Bool) (all : (w : ℕ) → accepts w ≡ true) (remote rkey source length : ℕ)
    (mem : Memory) where
  put_loop-written :
      (k remaining w : ℕ) (staging there : Memory) (a : ℕ)
      → remote + length < 2 ^ 64
      → remaining ≤ length
      → remaining ≤ k * rdma_buf_size
      → let t = put_loop accepts remote rkey source length k remaining w in
        (t.returned ≡ true)
        × StayInBuffer rkey t.actions
        × (written t.actions mem staging there a
            ≡ copy_bytes there
                (remote + (length - remaining))
                mem
                (source + (length - remaining))
                remaining
                a)
  unfolding put_loop written
  put_loop-written zero remaining w staging there a fits le enough =
      (ground arith, tt, ground arith)
  put_loop-written (suc k) remaining w staging there a fits le enough =
      elim (Bool-cases (remaining == 0)) [
        | inl e ↦ rw e (refl, tt, ground (arith, e))
        | inr e ↦
            let chunk = min remaining rdma_buf_size in
            let offset : ℕ = length - remaining in
            let staging' = copy_bytes staging 0 mem (source + offset) chunk in
            let there' = copy_bytes there (remote + offset) staging' 0 chunk in
            let rest =
              put_loop-written k (remaining - chunk) (next_wr w) staging' there' a fits
                (omega arith) (omega arith) in
            let at : (remote + offset) % 2 ^ 64 ≡ remote + offset = mod-eq_of_lt (omega arith) in
            let here =
              through_staging there staging mem (remote + offset) (source + offset) chunk a in
            let both =
              joined there' there mem (remote + offset) (source + offset) chunk (remaining - chunk)
                a here in
            let shift : (b : ℕ) → b + (length - (remaining - chunk)) ≡ b + offset + chunk =
              λ b. omega arith in
            let whole : chunk + (remaining - chunk) ≡ remaining = omega arith in
            let rest_at : copy_bytes there' (remote + (length - (remaining - chunk))) mem
                  (source + (length - (remaining - chunk))) (remaining - chunk) a
                ≡ copy_bytes there' (remote + offset + chunk) mem (source + offset + chunk)
                    (remaining - chunk) a =
              ap₂ (λ b c. copy_bytes there' b mem c (remaining - chunk) a) (shift remote)
                (shift source) in
            rw (e, all w, at)
              (
                rest.0,
                (omega arith, (omega arith, refl, rest.1)),
                rest.2
                    ∙ rest_at
                    ∙ both
                    ∙ ap (λ n. copy_bytes there (remote + offset) mem (source + offset) n a) whole,
              )
      ]

-- If the NIC accepts every request, `put_chunked` returns, whatever the length. Its copies and requests stay
-- within the staging buffer and have the region's key, and if the NIC reads the staging buffer for each
-- write before the next chunk is copied into it, for which the code does not wait, the `length` bytes of
-- the source arrive at the remote address and nothing else of the remote memory changes. The other
-- condition is that the remote range does not wrap.
pub put_chunked-written :
    (accepts : ℕ → Bool) (remote rkey source length : ℕ) (m : MemoryManager)
    (mem staging there : Memory) (a : ℕ)
    → ((w : ℕ) → accepts w ≡ true)
    → remote + length < 2 ^ 64
    → let t = (put_chunked accepts remote rkey source length m).0 in
      (t.returned ≡ true)
      × StayInBuffer rkey t.actions
      × (written t.actions mem staging there a ≡ (
          if leb remote a && ltb a (remote + length) then mem (source + (a - remote)) else there a))
unfolding put_chunked written
put_chunked-written accepts remote rkey source length m mem staging there a all fits =
    elim (Bool-cases (leb length rdma_buf_size)) [
      | inl e ↦
          let small = leb→le length rdma_buf_size e in
          rw (e, all m.next_wr_id)
            (
              refl,
              (small, (small, refl, tt)),
              through_staging there staging mem remote source length a,
            )
      | inr e ↦
          let many =
            put_loop-written accepts all remote rkey source length mem (rounds length) length
              m.next_wr_id staging there a fits (omega arith) (omega arith) in
          let start : (b : ℕ) → b + (length - length) ≡ b = λ b. omega arith in
          rw e (
            many.0,
            many.1,
            many.2 ∙ ap₂ (λ b c. copy_bytes there b mem c length a) (start remote) (start source),
          )
    ]

-- A put of more than one chunk leaves no pending operation behind, so `drain_pending` has nothing of it
-- to wait for; one of a single chunk leaves its request, if the NIC accepts it.
pub put_chunked-pending :
    (accepts : ℕ → Bool) (remote rkey source length : ℕ) (m : MemoryManager)
    → (put_chunked accepts remote rkey source length m).1.pending ≡ (
        if leb length rdma_buf_size && accepts m.next_wr_id
        then m.pending ++ (m.next_wr_id ∷ [])
        else m.pending)
unfolding put_chunked
put_chunked-pending accepts remote rkey source length m = ground arith
