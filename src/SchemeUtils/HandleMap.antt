-- ===== src/SchemeUtils/HandleMap.antt =====
-- `HandleMap` of scheme-utils/src/lib.rs: handles by id, with ids that wrap around at 2 ^ 64.
pub mod Fresh
pub mod Laws
use eos_base.Base.{ℕ, zero, suc, ◌+◌, ◌%◌, ◌^◌, ◌≡◌, Option, none, some, [], if◌then◌else◌}
use eos_base.Base.Map
use eos_base.Base.Map.{Map}
use eos_base.Base.Result.{Result, ok_or, ebadf}

-- `Wrapping(a) + Wrapping(1)` on `usize`.
abbrev pub wrapping_next : ℕ → ℕ
wrapping_next a = (a + 1) % 2 ^ 64

pub record HandleMap {ℓ} (T : Type ℓ) : Type ℓ where
  pub handles : Map T
  pub next_id : ℕ

module _ {ℓ} {T : Type ℓ} where
  abbrev pub new : HandleMap T
  new = record { handles = []; next_id = 1 }

  -- The `loop` of `insert`, on fuel: the first id from `n` on that is not in use.
  unfoldable pub first_free : ℕ → Map T → ℕ → Option ℕ
  first_free zero m n = none
  first_free (suc fuel) m n =
      let rest = first_free fuel m (wrapping_next n) in
      if Map.contains_key m n then rest else some n

  -- `insert`: the id given is the one that was next; the loop looks for the one after it while the
  -- new handle is not yet in the table. `none` is a loop that does not end.
  unfoldable pub insert : HandleMap T → T → Option (ℕ × HandleMap T)
  insert h handle =
      elim (first_free (suc (Map.size h.handles)) h.handles (wrapping_next h.next_id)) [
        | none ↦ none
        | some next ↦ some (
          h.next_id,
          record h { handles = Map.insert h.handles h.next_id handle; next_id = next },
        )
      ]

  unfoldable pub remove : HandleMap T → ℕ → Option T × HandleMap T
  remove h id = (Map.get h.handles id, record h { handles = Map.remove h.handles id })

  unfoldable pub get : HandleMap T → ℕ → Result T
  get h id = ok_or (Map.get h.handles id) ebadf

  -- `get_mut` followed by a write through the reference.
  pub get_mut : HandleMap T → ℕ → (T → T) → Result (HandleMap T)
  get_mut h id f = elim (Map.get h.handles id) [
    | none ↦ Result.err ebadf
    | some t ↦ Result.ok (record h { handles = Map.insert h.handles id (f t) })
  ]
