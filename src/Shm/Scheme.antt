-- ===== src/Shm/Scheme.antt =====
-- `ShmScheme` of ipcd/src/shm.rs: the objects by name, with the number of open handles of each, and
-- the table of handles.
pub mod Refs
use eos_base.Base.{
  ℕ, ◌+◌, ◌-◌, ◌%◌, ◌^◌, Bool, true, false, ◌&&◌, not, Option, none, some, [], ◌∷◌, ◌==◌, bit_and,
  if◌then◌else◌,
}
use eos_base.Base.Text.{Str, bytes}
use eos_base.Base.StrMap
use eos_base.Base.StrMap.{StrMap}
use eos_base.Base.Syscall.{Syscall, OpenResult, this_scheme}
use eos_base.Base.Result.{
  Result, ok, err, panic, Exec, ebadf, eacces, eexist, enoent, enotdir, lift, expect, ◌>>=◌, ◌>>◌,
  gets,
}
use eos_base.SchemeUtils.HandleMap
use eos_base.SchemeUtils.HandleMap.{HandleMap}
use eos_base.SchemeUtils.FpathWriter.{with}
use eos_base.Shm.Guard
use eos_base.Shm.Guard.{Kernel, MmapGuard}

pub data Handle : Type 0 where
  shm : Str → Handle
  scheme_root : Handle

pub record ShmHandle : Type 0 where
  pub buffer : MmapGuard
  pub refs : ℕ
  pub unlinked : Bool

pub record ShmScheme : Type 0 where
  pub maps : StrMap ShmHandle
  pub handles : HandleMap Handle

abbrev pub new : ShmScheme
new = record { maps = []; handles = HandleMap.new }

abbrev pub M : Type 0 → Type 0
M = Exec ShmScheme

abbrev pub as_shm : Handle → Result Str
as_shm (shm path) = ok path
as_shm scheme_root = err ebadf

abbrev pub require_root : Handle → Result (Unit {0})
require_root scheme_root = ok tt
require_root (shm path) = err eacces

-- `self.handles.get(id)?`
abbrev pub handle : ℕ → M Handle
handle id s = (HandleMap.get s.handles id, s)

-- `self.handles.get(id).and_then(Handle::as_shm)?`
abbrev pub path_of : ℕ → M Str
path_of id = do h ← handle id; lift (as_shm h)

abbrev pub put : Str → ShmHandle → M (Unit {0})
put path e s = (ok tt, record s { maps = StrMap.insert s.maps path e })

-- `self.handles.insert(..)`; a table with 2 ^ 64 - 1 handles would keep it from returning.
abbrev pub add_handle : Handle → M ℕ
add_handle h s = elim (HandleMap.insert s.handles h) [
  | none ↦ (panic, s)
  | some (id, handles) ↦ (ok id, record s { handles = handles })
]

unfoldable pub scheme_root_id : M ℕ
scheme_root_id = add_handle scheme_root

abbrev pub fresh : ShmHandle
fresh = record { buffer = Guard.new; refs = 0; unlinked = false }

module _ (sys : Syscall) (at_removedir : ℕ) (k : Kernel) where
  -- `flags & FLAG != 0`
  abbrev pub any : ℕ → ℕ → Bool
  any flags flag = not (bit_and flags flag == 0)

  -- The entry of a name, made if it is not there.
  unfoldable pub entry : Option ShmHandle → ℕ → Result ShmHandle
  entry (some e) flags = if any flags sys.o_excl && any flags sys.o_creat then err eexist else ok e
  entry none flags = if bit_and flags sys.o_creat == 0 then err enoent else ok fresh

  unfoldable pub openat : ℕ → Str → ℕ → M OpenResult
  unfolding entry
  openat dirfd path flags = do
    h ← handle dirfd
    lift (require_root h)
    found ← gets (λ s. StrMap.get s.maps path)
    e ← lift (entry found flags)
    put path (record e { refs = (e.refs + 1) % 2 ^ 64 })
    id ← add_handle (shm path)
    lift (ok (this_scheme id))

  -- `refs -= 1` on `usize`, which wraps in a release build.
  abbrev pub minus_one : ℕ → ℕ
  minus_one refs = (refs + (2 ^ 64 - 1)) % 2 ^ 64

  -- The entry after a handle is gone.
  unfoldable pub release : Str → ShmHandle → StrMap ShmHandle → StrMap ShmHandle
  release path e maps =
      if minus_one e.refs == 0 && e.unlinked
      then StrMap.remove maps path
      else StrMap.insert maps path (record e { refs = minus_one e.refs })

  unfoldable pub on_close : ℕ → M (Unit {0})
  unfolding release
  on_close id s =
      let (h, handles) = HandleMap.remove s.handles id in
      elim h [
        | none ↦ (panic, record s { handles = handles })
        | some scheme_root ↦ (ok tt, record s { handles = handles })
        | some (shm path) ↦ elim (StrMap.get s.maps path) [
          | none ↦ (panic, record s { handles = handles })
          | some e ↦ (ok tt, record s { handles = handles; maps = release path e s.maps })
        ]
      ]

  unfoldable pub unlink : Str → ShmHandle → StrMap ShmHandle → StrMap ShmHandle
  unlink path e maps =
      if e.refs == 0
      then StrMap.remove maps path
      else StrMap.insert maps path (record e { unlinked = true })

  unfoldable pub unlinkat : ℕ → Str → ℕ → M (Unit {0})
  unfolding unlink
  unlinkat dirfd path flags = do
    h ← handle dirfd
    lift (require_root h)
    (if bit_and flags at_removedir == at_removedir then lift (err enotdir) else (λ s.
        elim (StrMap.get s.maps path) [
          | none ↦ (err enoent, s)
          | some e ↦ (ok tt, record s { maps = unlink path e s.maps })
        ]))

  -- `self.maps.get(path).expect(..)`
  abbrev pub object : Str → M ShmHandle
  object path s = (expect (StrMap.get s.maps path), s)

  -- `fsize`, and the size that `fstat` reports.
  unfoldable pub fsize : ℕ → M ℕ
  fsize id = do path ← path_of id; e ← object path; lift (ok e.buffer.len)

  -- What a call on the buffer gives, and the object with the new buffer.
  abbrev pub on_buffer : Str → ShmHandle → Result ℕ × MmapGuard → M ℕ
  on_buffer path e (r, g) s =
      (r, record s { maps = StrMap.insert s.maps path (record e { buffer = g }) })

  unfoldable pub ftruncate : ℕ → ℕ → M ℕ
  ftruncate id len = do
    path ← path_of id
    e ← object path
    let (r, g) = Guard.grow_to k e.buffer len
    on_buffer path e (elim r [ ok _ ↦ ok 0 | err x ↦ err x | panic ↦ panic ], g)

  unfoldable pub mmap_prep : ℕ → ℕ → ℕ → M ℕ
  mmap_prep id offset size = do
    path ← path_of id
    e ← object path
    lift (Guard.mmap k e.buffer offset size)

  unfoldable pub read : ℕ → ℕ → ℕ → M Str
  read id offset size = do
    path ← path_of id
    e ← object path
    lift (Guard.read k e.buffer offset size)

  unfoldable pub write : ℕ → ℕ → Str → M ℕ
  write id offset buf = do
    path ← path_of id
    e ← object path
    on_buffer path e (Guard.write k e.buffer offset buf)

  unfoldable pub fpath : ℕ → Str → ShmScheme → Result ℕ × Str
  fpath id buf s =
      with buf (bytes "shm")
        (elim (path_of id s).0 [ ok p ↦ ok (p ∷ []) | err e ↦ err e | panic ↦ panic ])
