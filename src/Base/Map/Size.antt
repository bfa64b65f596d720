-- ===== src/Base/Map/Size.antt =====
-- The number of keys of a map, as keys are taken out.
use Prim.Native.Nat.{ℕ, ◌+◌, ◌≤◌, ◌<◌}
use mathlib.Core.Path.{◌≡◌}
use mathlib.Core.Logic.{◌≢◌}
use mathlib.Core.Bool.{true}
use mathlib.Core.List.{[], ◌∷◌}
use mathlib.Core.Option.{some, none}
use eos_base.Base.Map.Count.{IsKeyed}
use native.Mathlib.Omega.{arith}
use eos_base.Base.Map
use eos_base.Base.Map.{Map, get-remove}

module _ {ℓ} {T : Type ℓ} where
  pub size-remove_le : (m : Map T) (k : ℕ) → Map.size (Map.remove m k) ≤ Map.size m
  unfolding Map.size Map.remove
  size-remove_le [] k = ground arith
  size-remove_le ((j, v) ∷ m) k = ground (arith, size-remove_le m k)

  pub size-remove_lt :
      (m : Map T) (k : ℕ) → Map.contains_key m k ≡ true → Map.size (Map.remove m k) < Map.size m
  unfolding Map.size Map.remove Map.contains_key Map.get
  size-remove_lt [] k h = ground arith
  size-remove_lt ((j, v) ∷ m) k h = ground (arith, size-remove_le m k, size-remove_lt m k)

  pub contains_key-remove :
      (m : Map T) (k j : ℕ) → k ≢ j → Map.contains_key (Map.remove m k) j ≡ Map.contains_key m j
  unfolding Map.contains_key
  contains_key-remove m k j ne = ground (arith, get-remove m k j)

  pub size-insert :
      (m : Map T) (k : ℕ) (v : T)
      → Map.get m k ≡ none
      → Map.size (Map.insert m k v) ≡ Map.size m + 1
  unfolding Map.size Map.insert Map.get
  size-insert [] k v h = ground arith
  size-insert ((j, w) ∷ m) k v h = ground (arith, size-insert m k v)

  size-remove-none :
      (m : Map T) (k : ℕ) → Map.get m k ≡ none → Map.size (Map.remove m k) ≡ Map.size m
  unfolding Map.size Map.remove Map.get
  size-remove-none [] k h = ground arith
  size-remove-none ((j, w) ∷ m) k h = ground (arith, size-remove-none m k)

  pub size-remove :
      (m : Map T) (k : ℕ) (v : T)
      → IsKeyed m
      → Map.get m k ≡ some v
      → Map.size m ≡ Map.size (Map.remove m k) + 1
  unfolding Map.size Map.remove Map.get IsKeyed
  size-remove [] k v u h = absurd (ground arith)
  size-remove ((j, w) ∷ m) k v u h =
      ground (arith, size-remove m k v u.1, size-remove-none m k, u.0)
