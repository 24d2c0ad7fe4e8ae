-- ===== src/Pool/Guards/Holding.antt =====
-- What one guard of csrc/runtime/MemoryPool.cpp holds and gives back, and that no buffer lent is null.
use mccl.Base.{
  ℕ, zero, suc, ◌+◌, ◌%◌, ◌^◌, ◌≡◌, ◌≢◌, refl, subst, inl, inr, Option, none, some, List, [], ◌∷◌,
  ◌++◌, arith, get_elem?, set, ◌==◌, if◌then◌else◌, Option-cases, All, false, Bool-cases,
  All-append,
}
use mccl.Pool.{Buffer, MemoryPool, align_up, alloc_size, best_fit, pick, acquire, release}
use mccl.Pool.Accounting.{pooled_bytes, pooled_bytes-append}
use mccl.Pool.Guards.{PooledBuffer, owns, destroy}

-- The bytes that a guard gives back when it ends.
abbrev pub held_by : PooledBuffer → ℕ
held_by g = if owns g then g.buf.capacity else 0

unfoldable pub held : List PooledBuffer → ℕ
held [] = 0
held (g ∷ gs) = held_by g + held gs

pub held-append :
    (gs : List PooledBuffer) (g : PooledBuffer) → held (gs ++ (g ∷ [])) ≡ held gs + held_by g
unfolding held
held-append [] g = omega arith
held-append (h ∷ gs) g = omega (arith, held-append gs g)

pub held-set :
    (gs : List PooledBuffer) (i : ℕ) (g h : PooledBuffer)
    → get_elem? gs i ≡ some g
    → held (set gs i h) + held_by g ≡ held gs + held_by h
unfolding held
held-set [] i g h e = ground (arith, e)
held-set (x ∷ gs) zero g h e = ground (arith, e)
held-set (x ∷ gs) (suc i) g h e = omega (arith, held-set gs i g h e)

pub destroy-bytes :
    (g : PooledBuffer) (p : MemoryPool)
    → (pooled_bytes (destroy g p).pool ≡ pooled_bytes p.pool + held_by g)
      × ((destroy g p).total_allocated ≡ p.total_allocated)
unfolding destroy release pooled_bytes
destroy-bytes g p =
    (ground (arith, pooled_bytes-append p.pool (record g.buf { used = 0 })), ground arith)

-- Every pooled buffer has an address.
abbrev pub NonNull : Buffer → Type 0
NonNull b = b.data_addr ≢ 0

pub destroy-NonNull :
    (g : PooledBuffer) (p : MemoryPool) → All NonNull p.pool → All NonNull (destroy g p).pool
unfolding destroy release
destroy-NonNull g p h = elim (Bool-cases (owns g)) [
  | inl mine ↦
      let named : (g.buf.data_addr == 0) ≡ false = ground arith in
      rw (mine, named) (All-append NonNull p.pool _ h ((λ e. ground arith), tt))
  | inr none_held ↦ rw none_held h
]

-- Two answers of one call are the same.
pub along :
    {A : Type 0} (P : A → Type 0) {o : Option A} (x y : A) → o ≡ some x → o ≡ some y → P x → P y
along P x y first second = subst P cc

impossible : {A : Type 0} {o : Option A} {x : A} → o ≡ none → o ≡ some x → ⊥
impossible gone there = ground (arith, gone, there)

pick-NonNull :
    (i : ℕ) (bs : List Buffer) (b : Buffer) (rest : List Buffer)
    → pick i bs ≡ some (b, rest)
    → All NonNull bs
    → NonNull b × All NonNull rest
unfolding pick
pick-NonNull i [] b rest e h = ground (arith, e)
pick-NonNull zero (c ∷ bs) b rest e h = ground (arith, e, h)
pick-NonNull (suc i) (c ∷ bs) b rest e h = elim (Option-cases (pick i bs)) [
  | inl gone ↦ absurd (ground (arith, e, gone))
  | inr ((d, ds), there) ↦
      let (kept, others) = pick-NonNull i bs d ds there h.1 in
      let found : pick (suc i) (c ∷ bs) ≡ some (d, c ∷ ds) = rw (pick, there) refl in
      along (λ (q : Buffer × List Buffer). NonNull q.0 × All NonNull q.1) (d, c ∷ ds) (b, rest)
        found e (kept, (h.0, others))
]

module _ (memalign : ℕ → ℕ → Option ℕ)
    (named : (alignment n addr : ℕ) → memalign alignment n ≡ some addr → addr ≢ 0) where
  pub acquire-NonNull :
      (nbytes : ℕ) (p : MemoryPool) (b : Buffer) (p' : MemoryPool)
      → acquire memalign nbytes p ≡ some (b, p')
      → All NonNull p.pool
      → NonNull b × All NonNull p'.pool
  unfolding acquire
  acquire-NonNull nbytes p b p' e h =
      let n = align_up nbytes p.alignment in
      let both : Buffer × MemoryPool → Type 0 = λ q. NonNull q.0 × All NonNull q.1.pool in
      elim (Option-cases (best_fit n p.pool 0 none)) [
        | inl fresh ↦ elim (Option-cases (memalign p.alignment (alloc_size n p.alignment))) [
          | inl refused ↦ absurd (impossible (rw (acquire, fresh, refused) refl) e)
          | inr (addr, given) ↦
              along both
                (
                  record { data_addr = addr; capacity = alloc_size n p.alignment; used = n },
                  record p {
                    total_allocated = (p.total_allocated + alloc_size n p.alignment) % 2 ^ 64;
                  },
                )
                (b, p') (rw (acquire, fresh, given) refl) e (named _ _ addr given, h)
        ]
        | inr (found, fits) ↦ elim (Option-cases (pick found.0 p.pool)) [
          | inl gone ↦ absurd (impossible (rw (acquire, fits, gone) refl) e)
          | inr ((c, rest), picked) ↦
              along both (record c { used = n }, record p { pool = rest }) (b, p')
                (rw (acquire, fits, picked) refl) e (pick-NonNull found.0 p.pool c rest picked h)
        ]
      ]
