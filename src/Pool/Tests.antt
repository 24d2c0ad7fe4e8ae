-- ===== src/Pool/Tests.antt =====
-- Runs of csrc/runtime/MemoryPool.cpp.
use mccl.Base.{stay, go, ◌≢◌, ℕ, ◌≡◌, refl, Option, some, [], ◌∷◌, arith}
use mccl.Pool.{MemoryPool, align_up, alloc_size, best_fit, acquire, trim}
use mccl.Pool.Accounting.{pooled_bytes}
use mccl.Pool.Guards.{Guards, construct, end_guard, move_construct}
use mccl.Pool.Guards.Holding.{held}
use mccl.Pool.Guards.Balance.{IsBalanced, joined, Steps-IsBalanced, constructs, ends, moves, trims}

abbrev pool : MemoryPool
pool = record {
  alignment = 64;
  pool =
      record { data_addr = 4096; capacity = 512; used = 0 }
      ∷ record { data_addr = 8192; capacity = 256; used = 0 }
      ∷ [];
  total_allocated = 1024;
}

abbrev heap : ℕ → ℕ → Option ℕ
heap alignment n = some 65536

-- A guard for 200 bytes is constructed in an empty pool, moved into a second one, which ends, and the
-- pool is trimmed.
abbrev empty : Guards
empty = record { guards = []; pool = record { alignment = 64; pool = []; total_allocated = 0 } }

abbrev one_guard : Guards
one_guard =
    joined empty (record { data_addr = 65536; capacity = 320; used = 256 })
      (record { alignment = 64; pool = []; total_allocated = 320 })

abbrev two_guards : Guards
two_guards = move_construct 0 one_guard

abbrev given_back : Guards
given_back = end_guard 1 two_guards

abbrev trimmed : Guards
trimmed = record given_back { pool = trim given_back.pool }

heap_named : (alignment n addr : ℕ) → heap alignment n ≡ some addr → addr ≢ 0
heap_named alignment n addr e = ground (arith, e)

empty-IsBalanced : IsBalanced empty
unfolding held pooled_bytes
empty-IsBalanced = record { bytes = refl; small = omega arith; addressed = tt }

one_guard_made : construct heap 200 empty ≡ some one_guard
unfolding construct acquire best_fit align_up alloc_size
one_guard_made = refl

Steps-IsBalanced_example : IsBalanced trimmed
unfolding align_up alloc_size
Steps-IsBalanced_example =
    Steps-IsBalanced heap heap_named empty trimmed
      (go empty one_guard trimmed
        (constructs empty one_guard 200 65536 refl (omega arith) one_guard_made)
        (go one_guard two_guards trimmed (moves one_guard 0) (
          go two_guards given_back trimmed (ends two_guards 1)
            (go given_back trimmed trimmed (trims given_back) (stay trimmed)))))
      empty-IsBalanced
