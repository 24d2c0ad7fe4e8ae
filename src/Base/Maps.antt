-- ===== src/Base/Maps.antt =====
-- A map with numbers for keys (`std::unordered_map<uint64_t, V>`) as an association list.
use Prim.Native.Nat.{ℕ}
use mathlib.Core.Path.{◌≡◌, refl}
use mathlib.Core.Bool.{Bool}
use mathlib.Core.List.{List, [], ◌∷◌}
use mathlib.Core.Option.{Option, none, some}
use native.Mathlib.Omega.{arith}
use mccl.Base.Tests.{◌==◌, if◌then◌else◌}

module _ {ℓ} {V : Type ℓ} where
  unfoldable pub find : ℕ → List (ℕ × V) → Option V
  find k [] = none
  find k ((j, v) ∷ m) = if j == k then some v else find k m

  -- `m[k] = v`
  unfoldable pub put : ℕ → V → List (ℕ × V) → List (ℕ × V)
  put k v [] = (k, v) ∷ []
  put k v ((j, w) ∷ m) = if j == k then (k, v) ∷ m else (j, w) ∷ put k v m

  -- The loop `it = drop(it->first) ? erase(it) : ++it`.
  unfoldable pub erase_if : (ℕ → Bool) → List (ℕ × V) → List (ℕ × V)
  erase_if drops [] = []
  erase_if drops ((j, w) ∷ m) = if drops j then erase_if drops m else (j, w) ∷ erase_if drops m

  -- `m.erase(k)`
  abbrev pub erase : ℕ → List (ℕ × V) → List (ℕ × V)
  erase k = erase_if (λ j. j == k)

  pub find-put :
      (k j : ℕ) (v : V) (m : List (ℕ × V))
      → find j (put k v m) ≡ (if k == j then some v else find j m)
  unfolding find put
  find-put k j v [] = refl
  find-put k j v ((i, w) ∷ m) = ground (arith, find-put k j v m)

  pub find-erase_if :
      (drops : ℕ → Bool) (j : ℕ) (m : List (ℕ × V))
      → find j (erase_if drops m) ≡ (if drops j then none else find j m)
  unfolding find erase_if
  find-erase_if drops j [] = ground arith
  find-erase_if drops j ((i, w) ∷ m) = ground (arith, find-erase_if drops j m)
