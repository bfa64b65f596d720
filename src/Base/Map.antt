-- ===== src/Base/Map.antt =====
-- `BTreeMap<usize, V>` (and `HashMap` with such keys): an association list in ascending order of
-- keys, which is the order in which a `BTreeMap` is iterated.
pub mod Size
pub mod Count
use Prim.Native.Nat.{ℕ, suc}
use mathlib.Core.Path.{◌≡◌, refl}
use mathlib.Core.Bool.{Bool, true, false}
use mathlib.Core.Option.{Option, none, some}
use mathlib.Core.List.{List, [], ◌∷◌}
use native.Mathlib.Omega.{arith}
use eos_base.Base.Tests.{◌==◌, ltb, if◌then◌else◌}

abbrev pub Map {ℓ} : Type ℓ → Type ℓ
Map V = List (ℕ × V)

module _ {ℓ} {V : Type ℓ} where
  unfoldable pub get : Map V → ℕ → Option V
  get [] k = none
  get ((j, v) ∷ m) k = if j == k then some v else get m k

  unfoldable pub insert : Map V → ℕ → V → Map V
  insert [] k v = (k, v) ∷ []
  insert ((j, w) ∷ m) k v =
      let rest = insert m k v in
      if j == k then (k, v) ∷ m else if ltb k j then (k, v) ∷ (j, w) ∷ m else (j, w) ∷ rest

  unfoldable pub remove : Map V → ℕ → Map V
  remove [] k = []
  remove ((j, w) ∷ m) k = let rest = remove m k in if j == k then rest else (j, w) ∷ rest

  unfoldable pub contains_key : Map V → ℕ → Bool
  contains_key m k = elim (get m k) [ none ↦ false | some v ↦ true ]

  unfoldable pub size : Map V → ℕ
  size [] = 0
  size (_ ∷ m) = suc (size m)

  pub get-insert :
      (m : Map V) (k : ℕ) (v : V) (j : ℕ)
      → get (insert m k v) j ≡ (if k == j then some v else get m j)
  unfolding get insert
  get-insert [] k v j = refl
  get-insert ((i, w) ∷ m) k v j = ground (arith, get-insert m k v j)

  pub get-remove : (m : Map V) (k j : ℕ) → get (remove m k) j ≡ (if k == j then none else get m j)
  unfolding get remove
  get-remove [] k j = ground arith
  get-remove ((i, w) ∷ m) k j = ground (arith, get-remove m k j)

  pub get-empty : (k : ℕ) → get [] k ≡ none
  unfolding get
  get-empty k = refl

pub ruleset map_laws = (get-insert, get-remove, get-empty)
