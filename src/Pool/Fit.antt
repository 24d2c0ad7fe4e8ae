-- ===== src/Pool/Fit.antt =====
-- The choice of a buffer in csrc/runtime/MemoryPool.cpp.
use mccl.Base.{
  ℕ, suc, ◌+◌, ◌≤◌, ◌<◌, ◌≡◌, refl, ◌⊎◌, inl, inr, true, Option, none, some, List, [], ◌∷◌, arith,
  get_elem?, leb, ltb, Bool-cases, All,
}
use mccl.Pool.{Buffer, best_fit}

abbrev pub AtMost : ℕ → Option (ℕ × ℕ) → Type 0
AtMost c none = Unit
AtMost c (some p) = c ≤ p.1

abbrev pub Least : ℕ → ℕ → List Buffer → Type 0
Least n c = All (λ b. n ≤ b.capacity → c ≤ b.capacity)

-- The loop ends with a capacity that is no greater than that of each buffer that fits, nor than the
-- one that it began with.
pub best_fit-Least :
    (n : ℕ) (bs : List Buffer) (i : ℕ) (best : Option (ℕ × ℕ)) (k c : ℕ)
    → best_fit n bs i best ≡ some (k, c)
    → Least n c bs × AtMost c best
unfolding best_fit
best_fit-Least n [] i none k c e = ground (arith, e)
best_fit-Least n [] i (some q) k c e = ground (arith, e)
best_fit-Least n (b ∷ bs) i none k c e = ground (
  arith,
  best_fit-Least n bs (i + 1) none k c,
  best_fit-Least n bs (i + 1) (some (i, b.capacity)) k c,
)
best_fit-Least n (b ∷ bs) i (some q) k c e = ground (
  arith,
  best_fit-Least n bs (i + 1) (some q) k c,
  best_fit-Least n bs (i + 1) (some (i, b.capacity)) k c,
)

-- The index and the capacity are those that the loop began with, or those of a buffer that fits.
abbrev pub Origin : ℕ → List Buffer → ℕ → Option (ℕ × ℕ) → ℕ → ℕ → Type 0
Origin n bs i best k c =
    (best ≡ some (k, c))
    ⊎ ((j : ℕ) × (b : Buffer) × (k ≡ i + j)
        × (get_elem? bs j ≡ some b)
        × (b.capacity ≡ c)
        × (n ≤ c))

Origin-later :
    (n : ℕ) (b : Buffer) (bs : List Buffer) (i : ℕ) (best : Option (ℕ × ℕ)) (k c : ℕ)
    → Origin n bs (i + 1) best k c
    → Origin n (b ∷ bs) i best k c
Origin-later n b bs i best k c (inl e) = inl e
Origin-later n b bs i best k c (inr (j, x, e, at, cap, fits)) =
    inr (suc j, x, omega (arith, e), at, cap, fits)

Origin-here :
    (n : ℕ) (b : Buffer) (bs : List Buffer) (i : ℕ) (best : Option (ℕ × ℕ)) (k c : ℕ)
    → leb n b.capacity ≡ true
    → Origin n bs (i + 1) (some (i, b.capacity)) k c
    → Origin n (b ∷ bs) i best k c
Origin-here n b bs i best k c fits (inl e) =
    let index : i ≡ k = ground (arith, e) in
    let cap : b.capacity ≡ c = ground (arith, e) in
    inr (0, b, omega (arith, index), refl, cap, ground (arith, fits, cap))
Origin-here n b bs i best k c fits (inr (j, x, e, at, cap, fit)) =
    inr (suc j, x, omega (arith, e), at, cap, fit)

pub best_fit-Origin :
    (n : ℕ) (bs : List Buffer) (i : ℕ) (best : Option (ℕ × ℕ)) (k c : ℕ)
    → best_fit n bs i best ≡ some (k, c)
    → Origin n bs i best k c
unfolding best_fit
best_fit-Origin n [] i best k c e = inl e
best_fit-Origin n (b ∷ bs) i none k c e = elim (Bool-cases (leb n b.capacity)) [
  | inl fits ↦
      Origin-here n b bs i none k c fits
        (best_fit-Origin n bs (i + 1) (some (i, b.capacity)) k c (ground (arith, e, fits)))
  | inr small ↦
      Origin-later n b bs i none k c
        (best_fit-Origin n bs (i + 1) none k c (ground (arith, e, small)))
]
best_fit-Origin n (b ∷ bs) i (some q) k c e = elim (Bool-cases (leb n b.capacity)) [
  | inl fits ↦ elim (Bool-cases (ltb b.capacity q.1)) [
    | inl less ↦
        Origin-here n b bs i (some q) k c fits
          (best_fit-Origin n bs (i + 1) (some (i, b.capacity)) k c (ground (arith, e, fits, less)))
    | inr more ↦
        Origin-later n b bs i (some q) k c
          (best_fit-Origin n bs (i + 1) (some q) k c (ground (arith, e, fits, more)))
  ]
  | inr small ↦
      Origin-later n b bs i (some q) k c
        (best_fit-Origin n bs (i + 1) (some q) k c (ground (arith, e, small)))
]

-- It ends with none exactly where it began with none and no buffer fits.
pub best_fit-none :
    (n : ℕ) (bs : List Buffer) (i : ℕ) (best : Option (ℕ × ℕ))
    → best_fit n bs i best ≡ none
    → (best ≡ none) × All (λ b. b.capacity < n) bs
unfolding best_fit
best_fit-none n [] i best e = (e, tt)
best_fit-none n (b ∷ bs) i none e =
    ground
      (arith, best_fit-none n bs (i + 1) none, best_fit-none n bs (i + 1) (some (i, b.capacity)))
best_fit-none n (b ∷ bs) i (some q) e =
    ground (
      arith,
      best_fit-none n bs (i + 1) (some q),
      best_fit-none n bs (i + 1) (some (i, b.capacity)),
    )
