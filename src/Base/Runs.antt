-- ===== src/Base/Runs.antt =====
-- Runs of a step relation.

module _ {ℓ κ} {A : Type ℓ} (R : A → A → Type κ) where
  pub data Steps : A → A → Type (ℓ ⊔ κ) where
    stay : (a : A) → Steps a a
    go : (a b c : A) → R a b → Steps b c → Steps a c

  pub Steps-append : (a b c : A) → Steps a b → Steps b c → Steps a c
  Steps-append a b c (stay x) ys = ys
  Steps-append a b c (go x y z s xs) ys = go a y c s (Steps-append y b c xs ys)

  pub Steps-keep {μ} :
      (P : A → Type μ) → ((a b : A) → R a b → P a → P b) → (a b : A) → Steps a b → P a → P b
  Steps-keep P kept a b (stay x) p = p
  Steps-keep P kept a b (go x y z s xs) p = Steps-keep P kept y b xs (kept a y s p)
