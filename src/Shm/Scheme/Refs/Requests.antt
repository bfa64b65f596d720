-- ===== src/Shm/Scheme/Refs/Requests.antt =====
-- All requests to ipcd/src/shm.rs in any order, from the start on.
use eos_base.Base.{ℕ, ◌+◌, ◌^◌, ◌<◌, ◌≡◌, refl, some, arith, Option-cases, inl, inr}
use eos_base.Base.Text.{Str, str_eq_iff}
use eos_base.Base.Map
use eos_base.Base.Map.Count.{
  count, count-remove-none, remove-IsKeyed, IsKeyed, insert-IsKeyed, count-insert,
}
use eos_base.Base.StrMap
use eos_base.Base.Syscall.{Syscall}
use eos_base.Base.Result.{Result, ok, err, panic, ◌>>=◌}
use eos_base.SchemeUtils.HandleMap
use eos_base.SchemeUtils.HandleMap.Laws.{remove-IsValid, insert_table}
use eos_base.Shm.Guard
use eos_base.Shm.Guard.{Kernel, MmapGuard}
use eos_base.Shm.Scheme
use eos_base.Shm.Scheme.{
  Handle, shm, scheme_root, ShmHandle, ShmScheme, scheme_root_id, add_handle, on_buffer, openat,
  on_close, unlinkat, ftruncate, write, fsize,
}
use eos_base.Shm.Scheme.Refs.{names, IsCounted, openat-IsCounted, unlinkat-IsCounted}
use eos_base.Shm.Scheme.Refs.Close.{on_close-IsCounted, fsize-IsCounted}

-- The requests that change the state.
pub data Request : Type 0 where
  root : Request
  opens : ℕ → Str → ℕ → Request
  unlinks : ℕ → Str → ℕ → Request
  truncates : ℕ → ℕ → Request
  writes : ℕ → ℕ → Str → Request
  closes : ℕ → Request

module _ (sys : Syscall) (at_removedir : ℕ) (k : Kernel) where
  unfoldable pub handle : Request → ShmScheme → ShmScheme
  handle root s = (scheme_root_id s).1
  handle (opens dirfd path flags) s = (openat sys at_removedir k dirfd path flags s).1
  handle (unlinks dirfd path flags) s = (unlinkat sys at_removedir k dirfd path flags s).1
  handle (truncates id len) s = (ftruncate sys at_removedir k id len s).1
  handle (writes id offset buf) s = (write sys at_removedir k id offset buf s).1
  handle (closes id) s = (on_close sys at_removedir k id s).1

  -- What requests make of a state, while the ids of the machine are not used up.
  pub data Reach (s : ShmScheme) : ShmScheme → Type 0 where
    here : Reach s s
    after :
        {s' : ShmScheme}
        → Reach s s'
        → Map.size s'.handles.handles + 1 < 2 ^ 64
        → (r : Request) → Reach s (handle r s')

  root-IsCounted :
      (s : ShmScheme)
      → IsCounted s
      → Map.size s.handles.handles + 1 < 2 ^ 64
      → IsCounted (scheme_root_id s).1
  unfolding scheme_root_id
  root-IsCounted s c small =
      let (h', inserted, handles, valid) = insert_table s.handles scheme_root c.valid small in
      rw (add_handle, inserted)
        (record {
          valid = valid;
          keyed = rw handles (
              insert-IsKeyed s.handles.handles s.handles.next_id scheme_root c.valid.unused
                c.keyed);
          counted = λ p. rw handles (
              ground (
                arith,
                c.counted p,
                count-insert (names p) s.handles.handles s.handles.next_id scheme_root
                    c.valid.unused,
              ));
        })

  -- An object whose buffer changes.
  on_buffer-IsCounted :
      (s : ShmScheme) (path : Str) (e : ShmHandle) (d : Result ℕ × MmapGuard)
      → IsCounted s
      → StrMap.get s.maps path ≡ some e
      → IsCounted (on_buffer sys at_removedir k path e d s).1
  on_buffer-IsCounted s path e (r, g) c there = record {
    valid = c.valid;
    keyed = c.keyed;
    counted = λ p. ground (
      arith,
      c.counted p,
      there,
      StrMap.get-insert s.maps path (record e { buffer = g }) p,
      str_eq_iff path p,
    );
  }

  -- A call that changes the buffer of an open object.
  abbrev change : ℕ → (ShmHandle → Result ℕ × MmapGuard) → Scheme.M ℕ
  change id f = do
    path ← Scheme.path_of id
    e ← Scheme.object sys at_removedir k path
    on_buffer sys at_removedir k path e (f e)

  change-IsCounted :
      (s : ShmScheme) (id : ℕ) (f : ShmHandle → Result ℕ × MmapGuard)
      → IsCounted s
      → IsCounted (change id f s).1
  unfolding HandleMap.get
  change-IsCounted s id f c = elim (Option-cases (Map.get s.handles.handles id)) [
    | inl nothing ↦ rw (change, nothing) c
    | inr (scheme_root, held) ↦ rw (change, held) c
    | inr (shm path, held) ↦ elim (Option-cases (StrMap.get s.maps path)) [
      | inl gone ↦ rw (change, held) (rw gone c)
      | inr (e, there) ↦ rw (change, held) (rw there (on_buffer-IsCounted s path e (f e) c there))
    ]
  ]

  on_close-state :
      (s : ShmScheme) (id : ℕ)
      → IsCounted s
      → Map.size s.handles.handles + 1 < 2 ^ 64
      → IsCounted (on_close sys at_removedir k id s).1
  unfolding on_close HandleMap.remove
  on_close-state s id c small = elim (Option-cases (Map.get s.handles.handles id)) [
    | inl nothing ↦
        rw (on_close, nothing)
          (record {
            valid = remove-IsValid s.handles id c.valid;
            keyed = remove-IsKeyed s.handles.handles id c.keyed;
            counted = λ p.
                ground
                  (arith, c.counted p, count-remove-none (names p) s.handles.handles id nothing);
          })
    | inr (h, held) ↦ (on_close-IsCounted sys at_removedir k s id h c (omega (arith, small)) held).1
  ]

  handle-IsCounted :
      (r : Request) (s : ShmScheme)
      → Map.size s.handles.handles + 1 < 2 ^ 64
      → IsCounted s
      → IsCounted (handle r s)
  unfolding handle ftruncate write
  handle-IsCounted root s small c = root-IsCounted s c small
  handle-IsCounted (opens dirfd path flags) s small c =
      openat-IsCounted sys at_removedir k s dirfd path flags c small
  handle-IsCounted (unlinks dirfd path flags) s small c =
      unlinkat-IsCounted sys at_removedir k s dirfd path flags c
  handle-IsCounted (truncates id len) s small c =
      change-IsCounted s id
        (λ e.
          let (r, g) = Guard.grow_to k e.buffer len in
          (elim r [ ok _ ↦ ok 0 | err x ↦ err x | panic ↦ panic ], g))
        c
  handle-IsCounted (writes id offset buf) s small c =
      change-IsCounted s id (λ e. Guard.write k e.buffer offset buf) c
  handle-IsCounted (closes id) s small c = on_close-state s id c small

  Reach-IsCounted : {s s' : ShmScheme} → IsCounted s → Reach s s' → IsCounted s'
  Reach-IsCounted c here = c
  Reach-IsCounted c (after {s'} q small r) = handle-IsCounted r s' small (Reach-IsCounted c q)

  new-IsCounted : IsCounted Scheme.new
  unfolding Map.get StrMap.get count IsKeyed
  new-IsCounted = record {
    valid = record { in_range = omega arith; unused = refl };
    keyed = tt;
    counted = λ p. refl;
  }

  -- After any requests from the start on, as long as ids are left: an open handle of an object has its
  -- object, whose references are the open handles of its name. Asking for the size gives the length of
  -- that object, and closing the handle is no panic.
  pub Reach-object :
      (s : ShmScheme) (id : ℕ) (path : Str)
      → Reach Scheme.new s
      → Map.size s.handles.handles < 2 ^ 64
      → Map.get s.handles.handles id ≡ some (shm path)
      → (e : ShmHandle) × (StrMap.get s.maps path ≡ some e)
        × (e.refs ≡ count (names path) s.handles.handles)
        × (fsize sys at_removedir k id s ≡ (ok e.buffer.len, s))
        × ((on_close sys at_removedir k id s).0 ≡ ok tt)
  Reach-object s id path q small held =
      let c = Reach-IsCounted new-IsCounted q in
      let (e, there, size) = fsize-IsCounted sys at_removedir k s id path c held in
      let (closed, _) = on_close-IsCounted sys at_removedir k s id (shm path) c small held in
      (e, there, ground (arith, c.counted path, there), size, closed)
