-- ===== src/SchemeUtils/HandleMap/Fresh.antt =====
-- The search for a free id ends: a table has fewer ids in use than a search looks at.
use eos_base.Base.{
  sym, ◌∙◌, Bool-cases, inl, inr, false, some, ℕ, zero, suc, ◌+◌, ◌%◌, ◌^◌, ◌≤◌, ◌<◌, ◌≡◌, ◌≢◌,
  refl, arith,
}
use eos_base.Base.Map
use eos_base.Base.Map.{Map, get-remove}
use eos_base.Base.Map.Size.{size-remove_lt, contains_key-remove}
use eos_base.SchemeUtils.HandleMap.{first_free, wrapping_next}

module _ {ℓ} {T : Type ℓ} where
  -- Taking out an id that the search does not meet does not change the search.
  first_free-remove :
      (f : ℕ) (m : Map T) (k d : ℕ)
      → k < 2 ^ 64
      → 0 < d
      → d + f ≤ 2 ^ 64
      → first_free f (Map.remove m k) ((k + d) % 2 ^ 64) ≡ first_free f m ((k + d) % 2 ^ 64)
  unfolding first_free
  first_free-remove zero m k d h p q = refl
  first_free-remove (suc f) m k d h p q =
      ground (arith, contains_key-remove m k ((k + d) % 2 ^ 64), first_free-remove f m k (d + 1) h)

  -- With more fuel than ids in use the search ends.
  pub first_free_total :
      (f : ℕ) (m : Map T) (n : ℕ)
      → n < 2 ^ 64
      → Map.size m < f
      → f ≤ 2 ^ 64
      → (k : ℕ) × (first_free f m n ≡ some k)
  unfolding first_free
  first_free_total zero m n r h q = absurd (omega arith)
  first_free_total (suc f) m n r h q = elim (Bool-cases (Map.contains_key m n)) [
    | inr unused ↦ (n, rw unused)
    | inl used ↦
        let smaller = size-remove_lt m n used in
        let (k, found) =
          first_free_total f (Map.remove m n) (wrapping_next n) (omega arith)
            (omega (arith, smaller)) (omega arith) in
        (k, rw used (sym (first_free-remove f m n 1 r (omega arith) (omega arith)) ∙ found))
  ]

  -- What it finds is not in use.
  pub first_free_unused :
      (f : ℕ) (m : Map T) (n k : ℕ) → first_free f m n ≡ some k → Map.contains_key m k ≡ false
  unfolding first_free
  first_free_unused zero m n k h = ground arith
  first_free_unused (suc f) m n k h = ground (arith, first_free_unused f m (wrapping_next n) k)

  -- It finds an id of the window that it looks at.
  pub first_free-ne :
      (f : ℕ) (m : Map T) (k d j : ℕ)
      → k < 2 ^ 64
      → 0 < d
      → d + f ≤ 2 ^ 64
      → first_free f m ((k + d) % 2 ^ 64) ≡ some j
      → (j ≢ k) × (j < 2 ^ 64)
  unfolding first_free
  first_free-ne zero m k d j h p q e = absurd (ground arith)
  first_free-ne (suc f) m k d j h p q e = ground (arith, first_free-ne f m k (d + 1) j h)
