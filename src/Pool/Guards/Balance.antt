-- ===== src/Pool/Guards/Balance.antt =====
-- The bytes and the buffers that the guards of csrc/runtime/MemoryPool.cpp hold.
use mccl.Base.{
  Steps, Steps-keep, ℕ, ◌+◌, ◌^◌, ◌<◌, ◌≡◌, ◌≢◌, refl, ◌∙◌, ap, inl, inr, Option, some, [], ◌∷◌,
  ◌++◌, arith, get_elem?, set, ◌==◌, Option-cases, All, true, Bool-cases, get_elem?-set_ne, ==_ne,
}
use mccl.Pool.{Buffer, MemoryPool, align_up, alloc_size, trim}
use mccl.Pool.Accounting.{pooled_bytes, acquire_returns, IsAcquired, trim_lem}
use mccl.Pool.Guards.{
  PooledBuffer, Guards, moved, construct, end_guard, move_construct, move_assign,
}
use mccl.Pool.Guards.Holding.{
  held_by, held, held-append, held-set, destroy-bytes, NonNull, destroy-NonNull, along,
  acquire-NonNull,
}

-- All bytes of the pool are pooled or held by one guard, and no pooled buffer is null.
pub record IsBalanced (s : Guards) : Type 0 where
  pub bytes : pooled_bytes s.pool.pool + held s.guards ≡ s.pool.total_allocated
  pub small : s.pool.total_allocated < 2 ^ 64
  pub addressed : All NonNull s.pool.pool

end_guard-IsBalanced : (i : ℕ) (s : Guards) → IsBalanced s → IsBalanced (end_guard i s)
unfolding end_guard
end_guard-IsBalanced i s v = elim (Option-cases (get_elem? s.guards i)) [
  | inl e ↦ rw (e, end_guard) v
  | inr (g, e) ↦
      let (bytes, total) = destroy-bytes g s.pool in
      let freed = held-set s.guards i g moved e in
      rw (e, end_guard)
        (record {
          bytes = omega (arith, v.bytes, bytes, total, freed);
          small = omega (arith, v.small, total);
          addressed = destroy-NonNull g s.pool v.addressed;
        })
]

move_construct-IsBalanced : (j : ℕ) (s : Guards) → IsBalanced s → IsBalanced (move_construct j s)
unfolding move_construct
move_construct-IsBalanced j s v = elim (Option-cases (get_elem? s.guards j)) [
  | inl e ↦ rw (e, move_construct) v
  | inr (g, e) ↦
      let freed = held-set s.guards j g moved e in
      let more = held-append (set s.guards j moved) g in
      rw (e, move_construct)
        (record {
          bytes = omega (arith, v.bytes, freed, more);
          small = v.small;
          addressed = v.addressed;
        })
]

move_assign-IsBalanced : (i j : ℕ) (s : Guards) → IsBalanced s → IsBalanced (move_assign i j s)
unfolding move_assign
move_assign-IsBalanced i j s v = elim (Bool-cases (i == j)) [
  | inl self ↦ rw self v
  | inr apart ↦ rw apart (elim (Option-cases (get_elem? s.guards i)) [
    | inl gone ↦ rw gone v
    | inr (mine, at) ↦ elim (Option-cases (get_elem? s.guards j)) [
      | inl gone ↦ rw (at, gone) v
      | inr (other, there) ↦
          let (bytes, total) = destroy-bytes mine s.pool in
          let taken = held-set s.guards i mine other at in
          let still = get_elem?-set_ne s.guards i j other (ground arith) ∙ there in
          let left = held-set (set s.guards i other) j other moved still in
          rw (at, there)
            (record {
              bytes = omega (arith, v.bytes, bytes, total, taken, left);
              small = omega (arith, v.small, total);
              addressed = destroy-NonNull mine s.pool v.addressed;
            })
    ]
  ])
]

-- The guards with one more.
abbrev pub joined : Guards → Buffer → MemoryPool → Guards
joined s b p' = record {
  guards = s.guards ++ (record { has_pool = true; buf = b } ∷ []);
  pool = p';
}

joined-IsBalanced :
    (nbytes : ℕ) (s : Guards) (b : Buffer) (p' : MemoryPool)
    → IsAcquired nbytes s.pool b p'
    → NonNull b
    → All NonNull p'.pool
    → s.pool.total_allocated + alloc_size (align_up nbytes s.pool.alignment) s.pool.alignment
      < 2 ^ 64
    → IsBalanced s
    → IsBalanced (joined s b p')
joined-IsBalanced nbytes s b p' acquired real rest fits v =
    let g : PooledBuffer = record { has_pool = true; buf = b } in
    let more = held-append s.guards g in
    let mine : held_by g ≡ b.capacity = rw (==_ne b.data_addr 0 real) refl in
    record {
      bytes = omega (arith, acquired.accounted, acquired.grows, more, mine, v.bytes);
      small = elim acquired.choice [
        | inl (_, _, same) ↦ omega (arith, same, v.small)
        | inr (_, size, same) ↦
            omega
              (arith, size, ap pooled_bytes same, acquired.grows, acquired.accounted, fits, v.bytes)
      ];
      addressed = rest;
    }

module _ (memalign : ℕ → ℕ → Option ℕ)
    (named : (alignment n addr : ℕ) → memalign alignment n ≡ some addr → addr ≢ 0) where
  -- The steps of the guards of a pool: one is constructed for `nbytes` where `posix_memalign` succeeds and
  -- the total stays below 2^64, one ends or is moved, or the pool is trimmed.
  pub data Step : Guards → Guards → Type 0 where
    constructs :
        (s s' : Guards) (nbytes addr : ℕ)
        → memalign s.pool.alignment (alloc_size (align_up nbytes s.pool.alignment) s.pool.alignment)
          ≡ some addr
        → s.pool.total_allocated + alloc_size (align_up nbytes s.pool.alignment) s.pool.alignment
          < 2 ^ 64
        → construct memalign nbytes s ≡ some s'
        → Step s s'
    ends : (s : Guards) (i : ℕ) → Step s (end_guard i s)
    moves : (s : Guards) (j : ℕ) → Step s (move_construct j s)
    assigns : (s : Guards) (i j : ℕ) → Step s (move_assign i j s)
    trims : (s : Guards) → Step s (record s { pool = trim s.pool })

  construct-IsBalanced :
      (s s' : Guards) (nbytes addr : ℕ)
      → memalign s.pool.alignment (alloc_size (align_up nbytes s.pool.alignment) s.pool.alignment)
        ≡ some addr
      → s.pool.total_allocated + alloc_size (align_up nbytes s.pool.alignment) s.pool.alignment
        < 2 ^ 64
      → construct memalign nbytes s ≡ some s'
      → IsBalanced s
      → IsBalanced s'
  unfolding construct
  construct-IsBalanced s s' nbytes addr given fits e v =
      let (b, p', got, acquired) =
        acquire_returns memalign nbytes addr s.pool given fits (omega (arith, v.bytes)) in
      let (real, rest) = acquire-NonNull memalign named nbytes s.pool b p' got v.addressed in
      along IsBalanced (joined s b p') s' (rw (construct, got) refl) e
        (joined-IsBalanced nbytes s b p' acquired real rest fits v)

  Step-IsBalanced : (s s' : Guards) → Step s s' → IsBalanced s → IsBalanced s'
  unfolding trim pooled_bytes
  Step-IsBalanced _ _ (constructs s s' n addr given fits e) v =
      construct-IsBalanced s s' n addr given fits e v
  Step-IsBalanced _ _ (ends s i) v = end_guard-IsBalanced i s v
  Step-IsBalanced _ _ (moves s j) v = move_construct-IsBalanced j s v
  Step-IsBalanced _ _ (assigns s i j) v = move_assign-IsBalanced i j s v
  Step-IsBalanced _ _ (trims s) v =
      let (total, _, _) = trim_lem s.pool (omega (arith, v.bytes)) v.small in
      record {
        bytes = omega (arith, total, v.bytes);
        small = omega (arith, total, v.small);
        addressed = tt;
      }

  -- However the guards of a pool are constructed, moved, ended and the pool trimmed, the bytes allocated
  -- are those of the pooled buffers and those that the guards hold, each once. The conditions are that it
  -- holds at first, that `posix_memalign` returns no null address, that it has memory for each buffer
  -- constructed, and that the total stays below 2^64.
  pub Steps-IsBalanced : (s s' : Guards) → Steps Step s s' → IsBalanced s → IsBalanced s'
  Steps-IsBalanced = Steps-keep Step IsBalanced Step-IsBalanced
