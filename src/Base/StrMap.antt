-- ===== src/Base/StrMap.antt =====
-- `HashMap<String, V>`: an association list; its order is never observed.
use mathlib.Core.Path.{◌≡◌, refl}
use mathlib.Core.Bool.{Bool, true, false}
use mathlib.Core.Option.{Option, none, some}
use mathlib.Core.List.{List, [], ◌∷◌}
use native.Mathlib.Omega.{arith}
use eos_base.Base.Tests.{if◌then◌else◌}
use eos_base.Base.Text.{Str, str_eq, str_eq_iff}

abbrev pub StrMap {ℓ} : Type ℓ → Type ℓ
StrMap V = List (Str × V)

module _ {ℓ} {V : Type ℓ} where
  unfoldable pub get : StrMap V → Str → Option V
  get [] k = none
  get ((j, v) ∷ m) k = if str_eq j k then some v else get m k

  unfoldable pub insert : StrMap V → Str → V → StrMap V
  insert [] k v = (k, v) ∷ []
  insert ((j, w) ∷ m) k v = if str_eq j k then (k, v) ∷ m else (j, w) ∷ insert m k v

  unfoldable pub remove : StrMap V → Str → StrMap V
  remove [] k = []
  remove ((j, w) ∷ m) k = let rest = remove m k in if str_eq j k then rest else (j, w) ∷ rest

  unfoldable pub contains_key : StrMap V → Str → Bool
  contains_key m k = elim (get m k) [ none ↦ false | some v ↦ true ]

  pub get-insert :
      (m : StrMap V) (k : Str) (v : V) (j : Str)
      → get (insert m k v) j ≡ (if str_eq k j then some v else get m j)
  unfolding get insert
  get-insert [] k v j = refl
  get-insert ((i, w) ∷ m) k v j =
      ground (arith, str_eq_iff k j, str_eq_iff i k, str_eq_iff i j, get-insert m k v j)

  pub get-remove :
      (m : StrMap V) (k j : Str) → get (remove m k) j ≡ (if str_eq k j then none else get m j)
  unfolding get remove
  get-remove [] k j = ground arith
  get-remove ((i, w) ∷ m) k j =
      ground (arith, str_eq_iff k j, str_eq_iff i k, str_eq_iff i j, get-remove m k j)

  pub get-empty : (k : Str) → get [] k ≡ none
  unfolding get
  get-empty k = refl

pub ruleset strmap_laws = (get-insert, get-remove, get-empty)
