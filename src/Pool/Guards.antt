-- ===== src/Pool/Guards.antt =====
-- PooledBuffer of csrc/runtime/MemoryPool.cpp: the guards that give a buffer back to the pool of
-- `staging_memory_pool()` when they end, and their moves. A guard that has ended stays in the list as an
-- empty one.
pub mod Holding
pub mod Balance
use mccl.Base.{
  ℕ, ◌==◌, Bool, true, false, not, ◌&&◌, Option, none, some, List, [], ◌∷◌, ◌++◌, if◌then◌else◌,
  get_elem?, set,
}
use mccl.Pool.{Buffer, MemoryPool, acquire, release}

-- `has_pool` is whether `pool_` is set.
pub record PooledBuffer : Type 0 where
  pub has_pool : Bool
  pub buf : Buffer

pub record Guards : Type 0 where
  pub guards : List PooledBuffer
  pub pool : MemoryPool

-- What a guard is after it was moved from.
abbrev pub moved : PooledBuffer
moved = record { has_pool = false; buf = record { data_addr = 0; capacity = 0; used = 0 } }

-- `pool_ && buf_.data`
abbrev pub owns : PooledBuffer → Bool
owns g = g.has_pool && not (g.buf.data_addr == 0)

-- The destructor.
unfoldable pub destroy : PooledBuffer → MemoryPool → MemoryPool
destroy g p = if owns g then release g.buf p else p

-- A further guard for `nbytes`; `none` is the exception of `acquire`.
unfoldable pub construct : (ℕ → ℕ → Option ℕ) → ℕ → Guards → Option Guards
construct memalign nbytes s = elim (acquire memalign nbytes s.pool) [
  | none ↦ none
  | some (b, p) ↦
      some (record { guards = s.guards ++ (record { has_pool = true; buf = b } ∷ []); pool = p })
]

-- The end of the guard `i`.
unfoldable pub end_guard : ℕ → Guards → Guards
unfolding destroy
end_guard i s = elim (get_elem? s.guards i) [
  | none ↦ s
  | some g ↦ record { guards = set s.guards i moved; pool = destroy g s.pool }
]

-- A further guard, constructed from `std::move(guards[j])`.
unfoldable pub move_construct : ℕ → Guards → Guards
move_construct j s = elim (get_elem? s.guards j) [
  | none ↦ s
  | some other ↦ record s { guards = set s.guards j moved ++ (other ∷ []) }
]

-- `guards[i] = std::move(guards[j])`
unfoldable pub move_assign : (i j : ℕ) → Guards → Guards
unfolding destroy
move_assign i j s = if i == j then s else elim (get_elem? s.guards i) [
  | none ↦ s
  | some mine ↦ elim (get_elem? s.guards j) [
    | none ↦ s
    | some other ↦ record {
      guards = set (set s.guards i other) j moved;
      pool = destroy mine s.pool;
    }
  ]
]
