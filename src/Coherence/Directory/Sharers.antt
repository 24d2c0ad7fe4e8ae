-- ===== src/Coherence/Directory/Sharers.antt =====
-- The sharer masks of csrc/coherence/CoherenceDirectory.hpp as sets of the node ids below 8. The
-- tables run over all masks and ids.
use mccl.Base.{
  ℕ, zero, suc, ◌<◌, ◌≡◌, refl, ◌∙◌, Bool, true, false, not, ◌&&◌, ◌||◌, arith, ◌==◌, if◌then◌else◌,
  ==_self,
}
use native.Mathlib.Decide.{dec_lt}
use mccl.Coherence.Directory.{in_mask, mask_with, mask_without}

-- Whether a test passes on each number below a bound.
passes : (ℕ → Bool) → ℕ → Bool
passes test zero = true
passes test (suc k) = if test k then passes test k else false

passes-lt : (test : ℕ → Bool) (k m : ℕ) → passes test k ≡ true → m < k → test m ≡ true
unfolding passes
passes-lt test zero m ok below = absurd (omega arith)
passes-lt test (suc k) m ok below = ground (arith, passes-lt test k m)

same : Bool → Bool → Bool
same true b = b
same false b = not b

same_eq : (a b : Bool) → same a b ≡ true → a ≡ b
unfolding same
same_eq a b h = ground arith

with_table :
    passes
      (λ s.
        passes (λ n. passes (λ m. same (in_mask (mask_with s n) m) (n == m || in_mask s m)) 8) 8)
      256
    ≡ true
unfolding passes same in_mask mask_with
with_table = refl

without_table :
    passes
      (λ s.
        passes
          (λ n. passes (λ m. same (in_mask (mask_without s n) m) (not (n == m) && in_mask s m)) 8)
          8)
      256
    ≡ true
unfolding passes same in_mask mask_without
without_table = refl

-- Adding a node to a mask makes it a sharer and changes no other.
pub in_mask-mask_with :
    (s n m : ℕ) → s < 256 → n < 8 → m < 8 → in_mask (mask_with s n) m ≡ (n == m || in_mask s m)
in_mask-mask_with s n m hs hn hm =
    same_eq _ _ (passes-lt _ 8 m (passes-lt _ 8 n (passes-lt _ 256 s with_table hs) hn) hm)

-- Removing a node from a mask makes it no sharer and changes no other.
pub in_mask-mask_without :
    (s n m : ℕ)
    → s < 256
    → n < 8
    → m < 8
    → in_mask (mask_without s n) m ≡ (not (n == m) && in_mask s m)
in_mask-mask_without s n m hs hn hm =
    same_eq _ _ (passes-lt _ 8 m (passes-lt _ 8 n (passes-lt _ 256 s without_table hs) hn) hm)

pub in_mask-zero : (m : ℕ) → m < 8 → in_mask 0 m ≡ false
unfolding passes same in_mask
in_mask-zero m h = same_eq _ _ (passes-lt (λ n. same (in_mask 0 n) false) 8 m refl h)

pub mask_with-lt : (s n : ℕ) → mask_with s n < 256
unfolding mask_with
mask_with-lt s n = omega arith

-- A mask with a sharer is not empty.
pub mask_with-pos : (s n : ℕ) → s < 256 → n < 8 → 0 < mask_with s n
mask_with-pos s n hs hn = elim (dec_lt 0 (mask_with s n)) [
  | yes p ↦ p
  | no p ↦
      let empty : mask_with s n ≡ 0 = omega arith in
      let here : in_mask (mask_with s n) n ≡ true =
        in_mask-mask_with s n n hs hn hn ∙ rw (==_self n) in
      cc (rw empty at here, in_mask-zero n hn)
]
