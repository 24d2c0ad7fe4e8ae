-- ===== src/Base/Halving.antt =====
-- Remainders by a power of two and by its double, for the masks of csrc/backend/AllreduceAlgos.cpp.
use Prim.Native.Nat.{ℕ, ◌+◌, ◌*◌, ◌/◌, ◌%◌, ◌<◌}
use mathlib.Core.Path.{◌≡◌, ap, ◌∙◌}
use mathlib.Core.Logic.{◌⊎◌, inl, inr}
use native.Mathlib.Nat.{
  div-add-mod, mod-lt, mul-add-mod_self_left, mod-eq_of_lt, add-mul-div_left, div-eq_of_lt,
}
use native.Mathlib.Omega.{arith}

-- A remainder is determined by a quotient and a small rest.
pub mod_unique : (n m q d : ℕ) → n ≡ m * q + d → d < m → n % m ≡ d
mod_unique n m q d e h = ap (λ i. i % m) e ∙ mul-add-mod_self_left m q d ∙ mod-eq_of_lt h

pub div_unique : (n m q d : ℕ) → n ≡ m * q + d → d < m → n / m ≡ q
div_unique n m q d e h =
    let swap : m * q + d ≡ d + m * q = omega arith in
    let none_over : d / m ≡ 0 = div-eq_of_lt h in
    let zero_quotient : d / m + q ≡ q = omega arith in
    ap (λ i. i / m) (e ∙ swap) ∙ add-mul-div_left d q (omega arith) ∙ zero_quotient

two_cases : (b : ℕ) → b < 2 → (b ≡ 0) ⊎ (b ≡ 1)
two_cases b h = ground arith

pub mod-double : (n m : ℕ) → 0 < m → n % (2 * m) ≡ m * ((n / m) % 2) + n % m
mod-double n m h =
    let outer : m * (n / m) + n % m ≡ n = div-add-mod n m in
    let inner : 2 * ((n / m) / 2) + (n / m) % 2 ≡ n / m = div-add-mod (n / m) 2 in
    let small : n % m < m = mod-lt n h in
    let bit : (n / m) % 2 < 2 = mod-lt (n / m) (omega arith) in
    let times : m * (2 * ((n / m) / 2) + (n / m) % 2) ≡ m * (n / m) = ap (λ i. m * i) inner in
    elim (two_cases ((n / m) % 2) bit) [
      | inl e ↦
          let none_over : m * ((n / m) % 2) ≡ m * 0 = ap (λ i. m * i) e in
          mod_unique n (2 * m) ((n / m) / 2) (m * ((n / m) % 2) + n % m) (omega arith) (omega arith)
      | inr e ↦
          let one_over : m * ((n / m) % 2) ≡ m * 1 = ap (λ i. m * i) e in
          mod_unique n (2 * m) ((n / m) / 2) (m * ((n / m) % 2) + n % m) (omega arith) (omega arith)
    ]

-- The quotient's last bit is set exactly if the doubled divisor leaves `m` more.
pub mod-double-cases :
    (n m : ℕ)
    → 0 < m
    → (((n / m) % 2 ≡ 0) × (n % (2 * m) ≡ n % m)) ⊎ (((n / m) % 2 ≡ 1) × (n % (2 * m) ≡ m + n % m))
mod-double-cases n m h =
    let bit : (n / m) % 2 < 2 = mod-lt (n / m) (omega arith) in
    let split : n % (2 * m) ≡ m * ((n / m) % 2) + n % m = mod-double n m h in
    elim (two_cases ((n / m) % 2) bit) [
      | inl e ↦
          let none_over : m * ((n / m) % 2) ≡ m * 0 = ap (λ i. m * i) e in inl (e, omega arith)
      | inr e ↦ let one_over : m * ((n / m) % 2) ≡ m * 1 = ap (λ i. m * i) e in inr (e, omega arith)
    ]
