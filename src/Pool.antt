-- ===== src/Pool.antt =====
-- csrc/runtime/MemoryPool.hpp and MemoryPool.cpp: the pool of staging buffers. `posix_memalign` is a
-- parameter: `memalign alignment n` is the address that it returns, or none where it fails. The mutex
-- makes each operation one step.
pub mod Fit
pub mod Accounting
pub mod Guards
mod Tests
use mccl.Base.{
  ℕ, zero, suc, ◌+◌, ◌-◌, ◌*◌, ◌/◌, ◌%◌, ◌^◌, Bool, true, false, Option, none, some, List, [], ◌∷◌,
  ◌++◌, length, leb, ltb, ◌==◌, if◌then◌else◌,
}

pub record Buffer : Type 0 where
  pub data_addr : ℕ
  pub capacity : ℕ
  pub used : ℕ

pub record MemoryPool : Type 0 where
  pub alignment : ℕ
  pub pool : List Buffer
  pub total_allocated : ℕ

-- `(n + alignment - 1) & ~(alignment - 1)`, for an alignment that is a power of two
unfoldable pub align_up : ℕ → ℕ → ℕ
align_up n alignment = let top = (n + alignment - 1) % 2 ^ 64 in top - top % alignment

-- The loop for the smallest buffer of at least `n` bytes: `best` is the index and the capacity of the
-- best one so far.
unfoldable pub best_fit : ℕ → List Buffer → ℕ → Option (ℕ × ℕ) → Option (ℕ × ℕ)
best_fit n [] i best = best
best_fit n (b ∷ bs) i best =
    let keep = best_fit n bs (i + 1) best in
    let change = best_fit n bs (i + 1) (some (i, b.capacity)) in
    if leb n b.capacity
    then elim best [ none ↦ change | some p ↦ if ltb b.capacity p.1 then change else keep ]
    else keep

-- `pool_[best]` and `pool_.erase(pool_.begin() + best)`
unfoldable pub pick : ℕ → List Buffer → Option (Buffer × List Buffer)
pick i [] = none
pick zero (b ∷ bs) = some (b, bs)
pick (suc i) (b ∷ bs) = elim (pick i bs) [ none ↦ none | some (c, cs) ↦ some (c, b ∷ cs) ]

-- The size of a new buffer.
unfoldable pub alloc_size : ℕ → ℕ → ℕ
unfolding align_up
alloc_size n alignment =
    align_up (if leb n (256 * 2 ^ 20) then (n + n / 4) % 2 ^ 64 else n) alignment

-- `none` is the exception; it leaves the pool as it is.
unfoldable pub acquire : (ℕ → ℕ → Option ℕ) → ℕ → MemoryPool → Option (Buffer × MemoryPool)
unfolding align_up best_fit pick alloc_size
acquire memalign nbytes p =
    let n = align_up nbytes p.alignment in
    let size = alloc_size n p.alignment in
    elim (best_fit n p.pool 0 none) [
      | some found ↦ elim (pick found.0 p.pool) [
        | none ↦ none
        | some (b, rest) ↦ some (record b { used = n }, record p { pool = rest })
      ]
      | none ↦ elim (memalign p.alignment size) [
        | none ↦ none
        | some addr ↦ some (
          record { data_addr = addr; capacity = size; used = n },
          record p { total_allocated = (p.total_allocated + size) % 2 ^ 64 },
        )
      ]
    ]

unfoldable pub release : Buffer → MemoryPool → MemoryPool
release b p =
    if b.data_addr == 0 then p else record p { pool = p.pool ++ (record b { used = 0 } ∷ []) }

abbrev pub pooled_count : MemoryPool → ℕ
pooled_count p = length p.pool

-- The loop of `trim`, over the total.
unfoldable pub free_all : List Buffer → ℕ → ℕ
free_all [] total = total
free_all (b ∷ bs) total = free_all bs ((total + 2 ^ 64 - b.capacity) % 2 ^ 64)

unfoldable pub trim : MemoryPool → MemoryPool
unfolding free_all
trim p = record p { pool = []; total_allocated = free_all p.pool p.total_allocated }
