-- ===== src/Base/Map/Count.antt =====
-- The number of keys of a map whose values pass a test, as keys come and go.
use Prim.Native.Nat.{ℕ, ◌+◌, ◌≤◌}
use mathlib.Core.Path.{◌≡◌}
use mathlib.Core.Bool.{Bool}
use mathlib.Core.Option.{none, some}
use mathlib.Core.List.{[], ◌∷◌}
use native.Mathlib.Omega.{arith}
use eos_base.Base.Tests.{if◌then◌else◌}
use eos_base.Base.Map
use eos_base.Base.Map.{Map, get-insert, get-remove}

abbrev pub bit {ℓ} : {V : Type ℓ} → (V → Bool) → V → ℕ
bit P v = if P v then 1 else 0

-- No key stands in the list twice.
unfoldable pub IsKeyed {ℓ} : {V : Type ℓ} → Map V → Type ℓ
IsKeyed [] = Unit
IsKeyed ((k, v) ∷ m) = (Map.get m k ≡ none) × IsKeyed m

module _ {ℓ} {V : Type ℓ} (P : V → Bool) where
  unfoldable pub count : Map V → ℕ
  count [] = 0
  count ((_, v) ∷ m) = bit P v + count m

  pub count_le : (m : Map V) → count m ≤ Map.size m
  unfolding count Map.size
  count_le [] = ground arith
  count_le ((k, v) ∷ m) = ground (arith, count_le m)

  pub count-insert :
      (m : Map V) (k : ℕ) (v : V)
      → Map.get m k ≡ none
      → count (Map.insert m k v) ≡ count m + bit P v
  unfolding count Map.insert Map.get
  count-insert [] k v h = ground arith
  count-insert ((j, w) ∷ m) k v h = ground (arith, count-insert m k v)

  pub count-remove-none :
      (m : Map V) (k : ℕ) → Map.get m k ≡ none → count (Map.remove m k) ≡ count m
  unfolding count Map.remove Map.get
  count-remove-none [] k h = ground arith
  count-remove-none ((j, w) ∷ m) k h = ground (arith, count-remove-none m k)

  pub count-remove :
      (m : Map V) (k : ℕ) (v : V)
      → IsKeyed m
      → Map.get m k ≡ some v
      → count m ≡ count (Map.remove m k) + bit P v
  unfolding count Map.remove Map.get IsKeyed
  count-remove [] k v u h = absurd (ground arith)
  count-remove ((j, w) ∷ m) k v u h =
      ground (arith, count-remove m k v u.1, count-remove-none m k, u.0)

module _ {ℓ} {V : Type ℓ} where
  pub insert-IsKeyed :
      (m : Map V) (k : ℕ) (v : V) → Map.get m k ≡ none → IsKeyed m → IsKeyed (Map.insert m k v)
  unfolding Map.insert Map.get IsKeyed
  insert-IsKeyed [] k v h u = ground arith
  insert-IsKeyed ((j, w) ∷ m) k v h u =
      ground (arith, insert-IsKeyed m k v, get-insert m k v j, u.0, u.1)

  pub remove-IsKeyed : (m : Map V) (k : ℕ) → IsKeyed m → IsKeyed (Map.remove m k)
  unfolding Map.remove Map.get IsKeyed
  remove-IsKeyed [] k u = tt
  remove-IsKeyed ((j, w) ∷ m) k u = ground (arith, remove-IsKeyed m k, get-remove m k j, u.0, u.1)
