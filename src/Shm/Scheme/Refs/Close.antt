-- ===== src/Shm/Scheme/Refs/Close.antt =====
-- What the counted references give: a handle that is open closes and finds its object, and an object
-- lives until it is unlinked and its last handle is closed.
use eos_base.Base.{
  ℕ, suc, ◌-◌, ◌^◌, ◌<◌, ◌≡◌, refl, some, arith, ◌==◌, if◌then◌else◌, Option-cases, inl, inr, ◌&&◌,
  not,
}
use eos_base.Base.Text.{Str, str_eq, str_eq_iff, str_eq_refl}
use eos_base.Base.Map
use eos_base.Base.Map.{get-insert, get-remove}
use eos_base.Base.Map.Count.{count, count_le, count-remove, remove-IsKeyed}
use eos_base.Base.StrMap
use eos_base.Base.Syscall.{Syscall}
use eos_base.Base.Result.{ok}
use eos_base.SchemeUtils.HandleMap
use eos_base.SchemeUtils.HandleMap.Laws.{remove-IsValid}
use eos_base.Shm.Guard.{Kernel}
use eos_base.Shm.Scheme.{Handle, shm, scheme_root, ShmHandle, ShmScheme, release, on_close, fsize}
use eos_base.Shm.Scheme.Refs.{names, refs_of, IsCounted, handle_counts}

module _ (sys : Syscall) (at_removedir : ℕ) (k : Kernel) where
  release-refs :
      (path p : Str) (e : ShmHandle) (maps : StrMap.StrMap ShmHandle)
      → StrMap.get maps path ≡ some e
      → 0 < e.refs
      → e.refs < 2 ^ 64
      → refs_of (StrMap.get (release sys at_removedir k path e maps) p)
        ≡ (if str_eq path p then e.refs - 1 else refs_of (StrMap.get maps p))
  unfolding release
  release-refs path p e maps found pos fits = ground (
    arith,
    StrMap.get-insert maps path (record e { refs = e.refs - 1 }) p,
    StrMap.get-remove maps path p,
  )

  -- If the references of each name are its open handles, of which there are fewer than 2 ^ 64 in all, a
  -- handle that is open closes without a panic, and the references still are the open handles.
  pub on_close-IsCounted :
      (s : ShmScheme) (id : ℕ) (h : Handle)
      → IsCounted s
      → Map.size s.handles.handles < 2 ^ 64
      → Map.get s.handles.handles id ≡ some h
      → ((on_close sys at_removedir k id s).0 ≡ ok tt)
        × IsCounted (on_close sys at_removedir k id s).1
  unfolding on_close HandleMap.remove
  on_close-IsCounted s id scheme_root c small held =
      rw (on_close, held)
        (
          refl,
          record {
            valid = remove-IsValid s.handles id c.valid;
            keyed = remove-IsKeyed s.handles.handles id c.keyed;
            counted = λ p. ground (
              arith,
              c.counted p,
              count-remove (names p) s.handles.handles id scheme_root c.keyed held,
            );
          },
        )
  on_close-IsCounted s id (shm path) c small held = elim (Option-cases (StrMap.get s.maps path)) [
    | inl gone ↦ absurd (ground (arith, handle_counts s id path c held))
    | inr (e, found) ↦
        rw (on_close, held, found)
          (
            refl,
            record {
              valid = remove-IsValid s.handles id c.valid;
              keyed = remove-IsKeyed s.handles.handles id c.keyed;
              counted = λ p.
                  let pos : 0 < e.refs = ground (arith, handle_counts s id path c held) in
                  let fits : e.refs < 2 ^ 64 =
                    ground (arith, c.counted path, count_le (names path) s.handles.handles) in
                  ground (
                    arith,
                    release-refs path p e s.maps found pos fits,
                    c.counted p,
                    c.counted path,
                    str_eq_iff path p,
                    count-remove (names p) s.handles.handles id (shm path) c.keyed held,
                  );
            },
          )
  ]

  release-contains_key :
      (path : Str) (e : ShmHandle) (maps : StrMap.StrMap ShmHandle)
      → 0 < e.refs
      → e.refs < 2 ^ 64
      → StrMap.contains_key (release sys at_removedir k path e maps) path
        ≡ not ((e.refs == 1) && e.unlinked)
  unfolding release StrMap.contains_key
  release-contains_key path e maps pos fits = ground (
    arith,
    StrMap.get-insert maps path (record e { refs = e.refs - 1 }) path,
    StrMap.get-remove maps path path,
    str_eq_refl path,
  )

  -- If the references of each name are its open handles, of which there are fewer than 2 ^ 64 in all,
  -- closing a handle of an object drops the object exactly if the object is unlinked and no other open
  -- handle names it.
  pub on_close-contains_key :
      (s : ShmScheme) (id : ℕ) (path : Str) (e : ShmHandle)
      → IsCounted s
      → Map.size s.handles.handles < 2 ^ 64
      → Map.get s.handles.handles id ≡ some (shm path)
      → StrMap.get s.maps path ≡ some e
      → StrMap.contains_key (on_close sys at_removedir k id s).1.maps path
        ≡ not ((count (names path) (Map.remove s.handles.handles id) == 0) && e.unlinked)
  unfolding on_close HandleMap.remove
  on_close-contains_key s id path e c small held found =
      let one = count-remove (names path) s.handles.handles id (shm path) c.keyed held in
      let same = str_eq_refl path in
      let refs : e.refs ≡ suc (count (names path) (Map.remove s.handles.handles id)) =
        ground (arith, c.counted path, one) in
      let fits : e.refs < 2 ^ 64 =
        ground (arith, c.counted path, count_le (names path) s.handles.handles) in
      rw (on_close, held, found)
        (ground (arith, release-contains_key path e s.maps (omega arith) fits))

  -- If the references of each name are its open handles, an open handle of an object has its object:
  -- asking for its size gives the length of the object of that name, and is no panic.
  pub fsize-IsCounted :
      (s : ShmScheme) (id : ℕ) (path : Str)
      → IsCounted s
      → Map.get s.handles.handles id ≡ some (shm path)
      → (e : ShmHandle) × (StrMap.get s.maps path ≡ some e)
        × (fsize sys at_removedir k id s ≡ (ok e.buffer.len, s))
  unfolding fsize HandleMap.get
  fsize-IsCounted s id path c held = elim (Option-cases (StrMap.get s.maps path)) [
    | inl gone ↦ absurd (ground (arith, handle_counts s id path c held))
    | inr (e, found) ↦ (e, found, rw (held, found))
  ]
