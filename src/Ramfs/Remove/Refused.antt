-- ===== src/Ramfs/Remove/Refused.antt =====
-- `unlinkat` of ramfs/src/scheme.rs on the root.
use eos_base.Base.{ℕ, ◌-◌, ◌^◌, ◌<◌, ◌≡◌, some, arith, false, ◌==◌}
use eos_base.Base.Text.{Str}
use eos_base.Base.Map
use eos_base.Base.Syscall.{bit_not}
use eos_base.Base.Result.{err, eacces}
use eos_base.SchemeUtils.HandleMap
use eos_base.Ramfs.{FsFlags, Scheme, CallerCtx, root_inode}
use eos_base.Ramfs.Remove.{unlinkat}

complement_root : (inode : ℕ) → inode < 2 ^ 64 - 2 → (bit_not inode == root_inode) ≡ false
complement_root inode low = ground arith

module _ (fl : FsFlags) where
  -- `unlinkat` on a handle of any inode with a number below 2 ^ 64 - 2, the root's included, is refused
  -- and changes nothing, whatever the path, the flags and the user.
  pub unlinkat-refused :
      (s : Scheme) (dirfd inode : ℕ) (path : Str) (flags : ℕ) (ctx : CallerCtx)
      → Map.get s.handles.handles dirfd ≡ some inode
      → inode < 2 ^ 64 - 2
      → unlinkat fl dirfd path flags ctx s ≡ (err eacces, s)
  unfolding unlinkat HandleMap.get
  unlinkat-refused s dirfd inode path flags ctx held low = rw held (rw (complement_root inode low))
