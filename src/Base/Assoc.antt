-- ===== src/Base/Assoc.antt =====
-- `std::unordered_map` keyed by numbers, as an association list.
use Prim.Native.Nat.{ℕ}
use mathlib.Core.Path.{◌≡◌, refl}
use mathlib.Core.Option.{Option, none, some}
use mathlib.Core.List.{List, [], ◌∷◌}
use native.Mathlib.Omega.{arith}
use rmw_robotops.Base.Tests.{◌==◌, if◌then◌else◌}

module _ {ℓ} {V : Type ℓ} where
  unfoldable pub find : List (ℕ × V) → ℕ → Option V
  find [] k = none
  find ((j, v) ∷ m) k = if j == k then some v else find m k

  -- `m[k] = v`.
  unfoldable pub put : List (ℕ × V) → ℕ → V → List (ℕ × V)
  put [] k v = (k, v) ∷ []
  put ((j, w) ∷ m) k v = if j == k then (k, v) ∷ m else (j, w) ∷ put m k v

  unfoldable pub erase : List (ℕ × V) → ℕ → List (ℕ × V)
  erase [] k = []
  erase ((j, w) ∷ m) k = let rest = erase m k in if j == k then rest else (j, w) ∷ rest

  pub find-put :
      (m : List (ℕ × V)) (k j : ℕ) (v : V)
      → find (put m k v) j ≡ (if k == j then some v else find m j)
  unfolding find put
  find-put [] k j v = refl
  find-put ((i, w) ∷ m) k j v = ground (arith, find-put m k j v)

  pub find-erase :
      (m : List (ℕ × V)) (k j : ℕ) → find (erase m k) j ≡ (if k == j then none else find m j)
  unfolding find erase
  find-erase [] k j = ground arith
  find-erase ((i, w) ∷ m) k j = ground (arith, find-erase m k j)

  -- What is put under a key and erased leaves the other keys as they were.
  pub find-erase-put :
      (m : List (ℕ × V)) (k j : ℕ) (v : V)
      → find (erase (put m k v) k) j ≡ (if k == j then none else find m j)
  find-erase-put m k j v = ground (arith, find-erase (put m k v) k j, find-put m k j v)
