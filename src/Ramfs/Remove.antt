-- ===== src/Ramfs/Remove.antt =====
-- `remove_dentry` and `unlinkat` of ramfs/src/scheme.rs.
pub mod Refused
use eos_base.Base.{
  ℕ, Bool, true, false, not, ◌&&◌, Option, none, some, List, [], ◌∷◌, ◌==◌, bit_and, if◌then◌else◌,
}
use eos_base.Base.Text.{Str}
use eos_base.Base.Map
use eos_base.Base.StrMap
use eos_base.Base.StrMap.{StrMap}
use eos_base.Base.Syscall.{bit_not, has}
use eos_base.Base.Result.{
  Result, Error, ok, err, eacces, einval, eio, eisdir, enotdir, enoent, enotempty, lift, modify,
  ok_or, ◌>>=◌, ◌>>◌,
}
use eos_base.Ramfs.{
  FsFlags, FileData, regular, directory, File, CallerCtx, M, root_inode, inode_of, file, set_files,
  put, wrapping_sub,
}
use eos_base.Ramfs.Permission.{current_perm}
use eos_base.Ramfs.Path.{resolve_except_last}

abbrev pub dentries_of : FileData → Error → Result (StrMap ℕ)
dentries_of (directory dentries) e = ok dentries
dentries_of (regular _) e = err e

abbrev pub is_empty {ℓ} : {A : Type ℓ} → List A → Bool
is_empty [] = true
is_empty (_ ∷ _) = false

module _ (fl : FsFlags) where
  -- The entry is a directory: it must be asked for, and empty, and the parent loses its `..`.
  unfoldable pub leave_parent : ℕ → Option File → Bool → M (Unit {0})
  leave_parent parent_dir_inode none wanted = lift (ok tt)
  leave_parent parent_dir_inode (some f) wanted = elim f.contents [
    | regular _ ↦ lift (ok tt)
    | directory entries ↦
        if not wanted
        then lift (err eisdir)
        else if not (is_empty entries)
        then lift (err enotempty)
        else (do
          parent ← file parent_dir_inode eio
          put parent_dir_inode (record parent { nlink = wrapping_sub parent.nlink 1 }))
  ]

  -- The links of the file that is removed.
  unfoldable pub drop_links : File → Bool → Result ℕ
  drop_links f wanted = elim f.contents [
    | regular _ ↦ if wanted then err eisdir else ok (wrapping_sub f.nlink 1)
    | directory _ ↦ if wanted then ok (wrapping_sub f.nlink 2) else err enotdir
  ]

  unfoldable pub drop_file : ℕ → File → ℕ → M (Unit {0})
  drop_file inode f links =
      if links == 0 && f.open_handles == 0
      then modify (set_files (λ files. Map.remove files inode))
      else put inode (record f { nlink = links })

  unfoldable pub remove_dentry : Str → ℕ → ℕ → Bool → M (Unit {0})
  unfolding leave_parent drop_links drop_file
  remove_dentry path uid gid wanted = do
    (parent_dir_inode, last) ← (λ s. (resolve_except_last fl s.filesystem uid gid path, s))
    name_to_delete ← lift (ok_or last einval)
    parent ← file parent_dir_inode eio
    lift (if bit_and (current_perm fl parent uid gid) 0o2 == 0 then err eacces else ok tt)
    dentries ← lift (dentries_of parent.contents enotdir)
    entry_inode ← lift (ok_or (StrMap.get dentries name_to_delete) enoent)
    put parent_dir_inode
        (record parent { contents = directory (StrMap.remove dentries name_to_delete) })
    entry ← (λ s. (ok (Map.get s.filesystem.files entry_inode), s))
    leave_parent parent_dir_inode entry wanted
    removed ← file entry_inode eio
    links ← lift (drop_links removed wanted)
    drop_file entry_inode removed links

  -- The handle's inode is complemented before it is compared.
  unfoldable pub unlinkat : ℕ → Str → ℕ → CallerCtx → M (Unit {0})
  unfolding remove_dentry
  unlinkat dirfd path flags ctx = do
    dir ← inode_of dirfd
    lift (if bit_not dir == root_inode then ok tt else err eacces)
    remove_dentry path ctx.uid ctx.gid (has flags fl.at_removedir)
