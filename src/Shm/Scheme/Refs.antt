-- ===== src/Shm/Scheme/Refs.antt =====
-- The references of the shared objects: each object counts the handles that are open for its name,
-- so that no handle names an object that is gone.
pub mod Close
pub mod Requests
use eos_base.Base.{
  ℕ, zero, suc, ◌+◌, ◌-◌, ◌%◌, ◌^◌, ◌≤◌, ◌<◌, ◌≡◌, ◌≢◌, refl, ap, ◌∙◌, sym, Bool, true, false,
  Option, none, some, arith, ◌==◌, if◌then◌else◌, Bool-cases, Option-cases, inl, inr, ◌&&◌, not,
  bit_and,
}
use eos_base.Base.Text.{Str, str_eq, str_eq_iff, str_eq_refl}
use eos_base.Base.Map
use eos_base.Base.Map.{get-insert, get-remove}
use eos_base.Base.Map.Count.{
  IsKeyed, bit, count, count_le, count-insert, count-remove, insert-IsKeyed, remove-IsKeyed,
}
use eos_base.Base.StrMap
use eos_base.Base.Syscall.{Syscall, this_scheme}
use eos_base.Base.Result.{ok, Result-cases}
use eos_base.SchemeUtils.HandleMap
use eos_base.SchemeUtils.HandleMap.Laws.{insert_table, remove-IsValid}
use eos_base.SchemeUtils.HandleMap.Laws
use eos_base.Shm.Guard.{Kernel}
use eos_base.Shm.Scheme.{
  Handle, shm, scheme_root, ShmHandle, ShmScheme, entry, openat, release, on_close, add_handle,
  unlink, unlinkat, fsize,
}

-- Whether a handle names the object.
abbrev pub names : Str → Handle → Bool
names path (shm p) = str_eq p path
names path scheme_root = false

abbrev pub refs_of : Option ShmHandle → ℕ
refs_of none = 0
refs_of (some e) = e.refs

-- The references of each name are the open handles that name it.
pub record IsCounted (s : ShmScheme) : Type 0 where
  pub valid : Laws.IsValid s.handles
  pub keyed : IsKeyed s.handles.handles
  pub counted : (p : Str) → refs_of (StrMap.get s.maps p) ≡ count (names p) s.handles.handles

-- A handle that names an object is one of its references.
pub handle_counts :
    (s : ShmScheme) (id : ℕ) (path : Str)
    → IsCounted s
    → Map.get s.handles.handles id ≡ some (shm path)
    → 0 < refs_of (StrMap.get s.maps path)
handle_counts s id path c h =
    let one = count-remove (names path) s.handles.handles id (shm path) c.keyed h in
    let same = str_eq_refl path in ground (arith, c.counted path, one, same)

add_ref :
    (s : ShmScheme) (path : Str) (e : ShmHandle) (h' : HandleMap.HandleMap Handle)
    → IsCounted s
    → e.refs ≡ refs_of (StrMap.get s.maps path)
    → h'.handles ≡ Map.insert s.handles.handles s.handles.next_id (shm path)
    → Laws.IsValid h'
    → Map.size s.handles.handles + 1 < 2 ^ 64
    → IsCounted (record {
      maps = StrMap.insert s.maps path (record e { refs = (e.refs + 1) % 2 ^ 64 });
      handles = h';
    })
add_ref s path e h' c same inserted v small = record {
  valid = v;
  keyed =
      rw inserted
        (insert-IsKeyed s.handles.handles s.handles.next_id (shm path) c.valid.unused c.keyed);
  counted = λ p. rw inserted (
      ground (
        arith,
        StrMap.get-insert s.maps path (record e { refs = (e.refs + 1) % 2 ^ 64 }) p,
        count-insert (names p) s.handles.handles s.handles.next_id (shm path) c.valid.unused,
        c.counted p,
        c.counted path,
        count_le (names path) s.handles.handles,
        str_eq_iff path p,
      ));
}

module _ (sys : Syscall) (at_removedir : ℕ) (k : Kernel) where
  entry-refs :
      (found : Option ShmHandle) (flags : ℕ) (e : ShmHandle)
      → entry sys at_removedir k found flags ≡ ok e
      → e.refs ≡ refs_of found
  unfolding entry
  entry-refs none flags e h = ground arith
  entry-refs (some f) flags e h = ground arith

  -- If the references of each name are its open handles and the table of handles is not full, they
  -- still are after an object was opened, or failed to be.
  pub openat-IsCounted :
      (s : ShmScheme) (dirfd : ℕ) (path : Str) (flags : ℕ)
      → IsCounted s
      → Map.size s.handles.handles + 1 < 2 ^ 64
      → IsCounted (openat sys at_removedir k dirfd path flags s).1
  unfolding openat HandleMap.get
  openat-IsCounted s dirfd path flags c small =
      let (h', inserted, handles, valid) = insert_table s.handles (shm path) c.valid small in
      elim (Option-cases (Map.get s.handles.handles dirfd)) [
        | inl nothing ↦ rw nothing c
        | inr (shm p, found) ↦ rw found c
        | inr (scheme_root, found) ↦
            elim (Result-cases (entry sys at_removedir k (StrMap.get s.maps path) flags)) [
              | inl (e, opened) ↦
                  rw (found, opened, add_handle, inserted)
                    (add_ref s path e h' c (entry-refs (StrMap.get s.maps path) flags e opened)
                      handles valid small)
              | inr (inl (e, refused)) ↦ rw (found, refused) c
              | inr (inr broken) ↦ rw (found, broken) c
            ]
      ]

  unlink-refs :
      (path p : Str) (e : ShmHandle) (maps : StrMap.StrMap ShmHandle)
      → StrMap.get maps path ≡ some e
      → refs_of (StrMap.get (unlink sys at_removedir k path e maps) p) ≡ refs_of (StrMap.get maps p)
  unfolding unlink
  unlink-refs path p e maps found = ground (
    arith,
    StrMap.get-insert maps path (record e { unlinked = true }) p,
    StrMap.get-remove maps path p,
    str_eq_iff path p,
  )

  -- If the references of each name are its open handles, they still are after a name was unlinked, or
  -- failed to be.
  pub unlinkat-IsCounted :
      (s : ShmScheme) (dirfd : ℕ) (path : Str) (flags : ℕ)
      → IsCounted s
      → IsCounted (unlinkat sys at_removedir k dirfd path flags s).1
  unfolding unlinkat HandleMap.get StrMap.get
  unlinkat-IsCounted s dirfd path flags c = elim (Option-cases (Map.get s.handles.handles dirfd)) [
    | inl nothing ↦ rw nothing c
    | inr (shm p, found) ↦ rw found c
    | inr (scheme_root, found) ↦ elim (Bool-cases (bit_and flags at_removedir == at_removedir)) [
      | inl dir ↦ rw (found, dir) c
      | inr file ↦ elim (Option-cases (StrMap.get s.maps path)) [
        | inl nothing ↦ rw (found, file, nothing) c
        | inr (e, there) ↦
            rw (found, file, there)
              (record {
                valid = c.valid;
                keyed = c.keyed;
                counted = λ p. unlink-refs path p e s.maps there ∙ c.counted p;
              })
      ]
    ]
  ]
