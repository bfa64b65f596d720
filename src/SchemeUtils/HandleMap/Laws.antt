-- ===== src/SchemeUtils/HandleMap/Laws.antt =====
-- What the callers of `HandleMap` rely on: a new handle gets an id that no open handle has, and the
-- other handles stay as they were.
use eos_base.Base.{
  Option-cases, inl, inr, ℕ, suc, ◌+◌, ◌^◌, ◌<◌, ◌≡◌, refl, false, none, some, arith, ◌==◌,
  if◌then◌else◌,
}
use eos_base.Base.Map
use eos_base.Base.Map.{get-insert, get-remove, map_laws}
use eos_base.Base.Result.{ok, err, ebadf}
use eos_base.SchemeUtils.HandleMap.{HandleMap, insert, get, remove, first_free, wrapping_next}
use eos_base.SchemeUtils.HandleMap.Fresh.{first_free_total, first_free_unused, first_free-ne}

-- The next id is a `usize` that no handle has.
pub record IsValid {ℓ} {T : Type ℓ} (h : HandleMap T) : Type ℓ where
  pub in_range : h.next_id < 2 ^ 64
  pub unused : Map.get h.handles h.next_id ≡ none

module _ {ℓ} {T : Type ℓ} where
  not_contained : (m : Map.Map T) (k : ℕ) → Map.contains_key m k ≡ false → Map.get m k ≡ none
  unfolding Map.contains_key
  not_contained m k h = ground arith

  insert_next :
      (h : HandleMap T) (t : T) (k : ℕ)
      → IsValid h
      → Map.size h.handles + 1 < 2 ^ 64
      → first_free (suc (Map.size h.handles)) h.handles (wrapping_next h.next_id) ≡ some k
      → IsValid (record h { handles = Map.insert h.handles h.next_id t; next_id = k })
  insert_next h t k v small found = ground (
    arith,
    get-insert h.handles h.next_id t k,
    not_contained h.handles k,
    first_free_unused (suc (Map.size h.handles)) h.handles (wrapping_next h.next_id) k found,
    first_free-ne (suc (Map.size h.handles)) h.handles h.next_id 1 k,
  )

  -- What `insert` makes of a table that is not full.
  pub insert_table :
      (h : HandleMap T) (t : T)
      → IsValid h
      → Map.size h.handles + 1 < 2 ^ 64
      → (h' : HandleMap T) × (insert h t ≡ some (h.next_id, h'))
        × (h'.handles ≡ Map.insert h.handles h.next_id t)
        × IsValid h'
  unfolding insert
  insert_table h t v small =
      let (k, found) =
        first_free_total (suc (Map.size h.handles)) h.handles (wrapping_next h.next_id)
          (omega arith) (omega arith) (omega arith) in
      (
        record h { handles = Map.insert h.handles h.next_id t; next_id = k },
        rw (found, insert),
        refl,
        insert_next h t k v small found,
      )

  -- The id that `insert` gives has the new handle.
  pub insert-names :
      (h : HandleMap T) (t : T) (id : ℕ) (h' : HandleMap T)
      → insert h t ≡ some (id, h')
      → Map.get h'.handles id ≡ some t
  unfolding insert
  insert-names h t id h' done =
      elim (Option-cases
        (first_free (suc (Map.size h.handles)) h.handles (wrapping_next h.next_id))) [
          | inl loops ↦ absurd (ground (arith, loops))
          | inr (k, found) ↦ ground (arith, found, get-insert h.handles h.next_id t h.next_id)
        ]

  -- `insert` on a valid table that is not full ends and gives an id that had no handle. That id then has
  -- the new handle, each other id has what it had, and the table is ready for the next `insert`.
  pub insert_lem :
      (h : HandleMap T) (t : T)
      → IsValid h
      → Map.size h.handles + 1 < 2 ^ 64
      → (h' : HandleMap T) × (insert h t ≡ some (h.next_id, h'))
        × (get h h.next_id ≡ err ebadf)
        × ((j : ℕ) → get h' j ≡ (if h.next_id == j then ok t else get h j))
        × IsValid h'
  unfolding get
  insert_lem h t v small =
      let (h', inserted, handles, valid) = insert_table h t v small in
      (
        h',
        inserted,
        rw v.unused,
        (λ j. rw handles (ground (arith, get-insert h.handles h.next_id t j))),
        valid,
      )

  -- `remove` gives the handle of its id and closes that id alone.
  pub remove_lem :
      (h : HandleMap T) (id j : ℕ)
      → get (remove h id).1 j ≡ (if id == j then err ebadf else get h j)
  unfolding get remove
  remove_lem h id j = ground (arith, get-remove h.handles id j)

  pub remove-IsValid : (h : HandleMap T) (id : ℕ) → IsValid h → IsValid (remove h id).1
  unfolding remove
  remove-IsValid h id v = ground (arith, get-remove h.handles id h.next_id)
