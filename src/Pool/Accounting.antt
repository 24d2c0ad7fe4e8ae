-- ===== src/Pool/Accounting.antt =====
-- The bytes that csrc/runtime/MemoryPool.cpp counts, and what `acquire` returns.
use mccl.Base.{
  ℕ, zero, suc, ◌+◌, ◌-◌, ◌%◌, ◌^◌, ◌≤◌, ◌<◌, ◌≡◌, refl, sym, subst, ◌∙◌, ap, ◌⊎◌, inl, inr, Option,
  none, some, List, [], ◌∷◌, ◌++◌, arith, get_elem?, ◌==◌, if◌then◌else◌, Option-cases, All,
}
use mccl.Pool.{
  Buffer, MemoryPool, align_up, alloc_size, best_fit, pick, acquire, release, free_all, trim,
}
use mccl.Pool.Fit.{Least, best_fit-Least, best_fit-Origin, best_fit-none}

-- The bytes of the pooled buffers.
unfoldable pub pooled_bytes : List Buffer → ℕ
pooled_bytes [] = 0
pooled_bytes (b ∷ bs) = b.capacity + pooled_bytes bs

-- The bytes that the callers hold.
abbrev pub in_use : MemoryPool → ℕ
in_use p = p.total_allocated - pooled_bytes p.pool

pub pooled_bytes-append :
    (bs : List Buffer) (b : Buffer) → pooled_bytes (bs ++ (b ∷ [])) ≡ pooled_bytes bs + b.capacity
unfolding pooled_bytes
pooled_bytes-append [] b = omega arith
pooled_bytes-append (c ∷ bs) b = omega (arith, pooled_bytes-append bs b)

free_all_lem :
    (bs : List Buffer) (total : ℕ)
    → pooled_bytes bs ≤ total
    → total < 2 ^ 64
    → free_all bs total ≡ total - pooled_bytes bs
unfolding free_all pooled_bytes
free_all_lem [] total v h = omega arith
free_all_lem (b ∷ bs) total v h =
    let left : (total + 2 ^ 64 - b.capacity) % 2 ^ 64 ≡ total - b.capacity = omega arith in
    let rest = free_all_lem bs (total - b.capacity) (omega arith) (omega arith) in
    ap (free_all bs) left ∙ rest ∙ omega arith

pick_lem :
    (j : ℕ) (bs : List Buffer) (b : Buffer)
    → get_elem? bs j ≡ some b
    → (rest : List Buffer) × (pick j bs ≡ some (b, rest))
      × (pooled_bytes bs ≡ b.capacity + pooled_bytes rest)
unfolding pick pooled_bytes
pick_lem j [] b e = ground (arith, e)
pick_lem zero (c ∷ bs) b e = (bs, ground (arith, e), ground (arith, e))
pick_lem (suc j) (c ∷ bs) b e =
    let (rest, picked, bytes) = pick_lem j bs b e in
    (c ∷ rest, rw (pick, picked) refl, omega (arith, bytes))

-- What `acquire` returned: a buffer of at least `nbytes`, the smallest of the pool that fits if there is
-- one, and a new one of `alloc_size` bytes if there is none; the bytes in use grow by its capacity.
pub record IsAcquired (nbytes : ℕ) (p : MemoryPool) (b : Buffer) (p' : MemoryPool) : Type 0 where
  pub used : b.used ≡ align_up nbytes p.alignment
  pub choice :
      (Least (align_up nbytes p.alignment) b.capacity p.pool
        × (align_up nbytes p.alignment ≤ b.capacity)
        × (p'.total_allocated ≡ p.total_allocated))
      ⊎ (All (λ x. x.capacity < align_up nbytes p.alignment) p.pool
          × (b.capacity ≡ alloc_size (align_up nbytes p.alignment) p.alignment)
          × (p'.pool ≡ p.pool))
  pub accounted : pooled_bytes p'.pool ≤ p'.total_allocated
  pub grows : in_use p' ≡ in_use p + b.capacity

pub acquire_returns :
    (memalign : ℕ → ℕ → Option ℕ) (nbytes addr : ℕ) (p : MemoryPool)
    → let size = alloc_size (align_up nbytes p.alignment) p.alignment in
      memalign p.alignment size ≡ some addr
      → p.total_allocated + size < 2 ^ 64
      → pooled_bytes p.pool ≤ p.total_allocated
      → (b : Buffer) × (p' : MemoryPool) × (acquire memalign nbytes p ≡ some (b, p'))
        × IsAcquired nbytes p b p'
unfolding acquire
acquire_returns memalign nbytes addr p given fits v =
    let n = align_up nbytes p.alignment in
    elim (Option-cases (best_fit n p.pool 0 none)) [
      | inl e ↦
          let size = alloc_size n p.alignment in
          let none_fits = best_fit-none n p.pool 0 none e in
          let total : (p.total_allocated + size) % 2 ^ 64 ≡ p.total_allocated + size =
            omega (arith, fits) in
          let b : Buffer = record { data_addr = addr; capacity = size; used = n } in
          let p' : MemoryPool = record p {
            total_allocated = (p.total_allocated + size) % 2 ^ 64;
          } in
          (
            b,
            p',
            rw (acquire, e, given) refl,
            record {
              used = refl;
              choice = inr (none_fits.1, refl, refl);
              accounted = omega (arith, total, v);
              grows = omega (arith, total, v);
            },
          )
      | inr ((k, c), e) ↦ elim (best_fit-Origin n p.pool 0 none k c e) [
        | inl bad ↦ ground (arith, bad)
        | inr (j, b, at, got, cap, enough) ↦
            let (rest, picked, bytes) = pick_lem j p.pool b got in
            let index : k ≡ j = omega (arith, at) in
            let least = best_fit-Least n p.pool 0 none k c e in
            let b' : Buffer = record b { used = n } in
            let p' : MemoryPool = record p { pool = rest } in
            (
              b',
              p',
              rw (acquire, e, index, picked) refl,
              record {
                used = refl;
                choice = inl (
                  subst (λ x. Least n x p.pool) (sym cap) least.0,
                  omega (arith, cap, enough),
                  refl,
                );
                accounted = omega (arith, bytes, v);
                grows = omega (arith, bytes, v);
              },
            )
      ]
    ]

-- Releasing a buffer that is in use gives its bytes back; a null buffer changes nothing.
pub release_bytes :
    (b : Buffer) (p : MemoryPool)
    → b.capacity ≤ in_use p
    → in_use (release b p) ≡ in_use p - (if b.data_addr == 0 then 0 else b.capacity)
unfolding release
release_bytes b p h = ground (arith, pooled_bytes-append p.pool (record b { used = 0 }))

-- `trim` frees exactly the pooled bytes: what is in use stays so, and nothing is pooled.
pub trim_lem :
    (p : MemoryPool)
    → pooled_bytes p.pool ≤ p.total_allocated
    → p.total_allocated < 2 ^ 64
    → ((trim p).total_allocated ≡ in_use p) × ((trim p).pool ≡ []) × (in_use (trim p) ≡ in_use p)
unfolding trim pooled_bytes
trim_lem p v h = (
  free_all_lem p.pool p.total_allocated v h,
  refl,
  omega (arith, free_all_lem p.pool p.total_allocated v h),
)
