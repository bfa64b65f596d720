-- ===== src/Ramfs/Handles/Changes.antt =====
-- The handlers of ramfs/src/scheme.rs that change files but make no handle, and all requests in any
-- order.
use eos_base.Base.{
  ℕ, ◌≡◌, refl, Bool, not, Option, none, some, List, ◌∷◌, arith, ◌==◌, ◌&&◌, if◌then◌else◌,
  Bool-cases, inl, inr, bit_and, bit_or, length,
}
use eos_base.Base.Text.{Str}
use eos_base.Base.Map
use eos_base.Base.Map.{get-insert, get-remove}
use eos_base.Base.StrMap
use eos_base.Base.Result.{
  ok, err, and_then-keeps, ok_or, ok_or-some, eio, einval, eacces, enoent, enotdir, ebadfd, eisdir,
}
use eos_base.Base.Syscall.{has, bit_not}
use eos_base.SchemeUtils.HandleMap
use eos_base.Ramfs.{
  FsFlags, TimeSpec, File, FileData-cases, regular, directory, Scheme, CallerCtx, root_inode,
  set_files, wrapping_sub,
}
use eos_base.Ramfs.Permission.{current_perm}
use eos_base.Ramfs.Path.{resolve_except_last}
use eos_base.Ramfs.Remove.{
  remove_dentry, unlinkat, leave_parent, drop_links, drop_file, dentries_of, is_empty,
}
use eos_base.Ramfs.Contents.{write, ftruncate, write_bytes, is_dir, reserve, resize}
use eos_base.Ramfs.Attributes.{fchmod, fchown_inode, futimens}
use eos_base.Ramfs.Handles.{IsCounted, put_file, remove_file}

module _ (fl : FsFlags) where
  leave_parent-IsCounted :
      (s : Scheme) (parent : ℕ) (entry : Option File) (wanted : Bool)
      → IsCounted s
      → IsCounted (leave_parent fl parent entry wanted s).1
  unfolding leave_parent
  leave_parent-IsCounted s parent none wanted c = c
  leave_parent-IsCounted s parent (some f) wanted c = elim (FileData-cases f.contents) [
    | inl (bytes, plain) ↦ rw plain c
    | inr (entries, dir) ↦ elim (Bool-cases (not wanted)) [
      | inl unwanted ↦ rw (dir) (rw unwanted c)
      | inr asked ↦ elim (Bool-cases (not (is_empty entries))) [
        | inl full ↦ rw dir (rw (asked, full) c)
        | inr empty ↦ rw dir (
            rw (asked, empty)
              (and_then-keeps IsCounted (ok_or (Map.get s.filesystem.files parent) eio) _ s c
                λ p found.
                  put_file s none parent p (record p { nlink = wrapping_sub p.nlink 1 }) c
                    (ok_or-some _ eio p found) refl refl))
      ]
    ]
  ]

  drop_file-IsCounted :
      (s : Scheme) (inode : ℕ) (f : File) (links : ℕ)
      → IsCounted s
      → Map.get s.filesystem.files inode ≡ some f
      → IsCounted (drop_file fl inode f links s).1
  unfolding drop_file
  drop_file-IsCounted s inode f links c found =
      elim (Bool-cases (links == 0 && f.open_handles == 0)) [
        | inl gone ↦ rw (drop_file, gone) (remove_file s inode f c found (ground arith))
        | inr stays ↦
            rw (drop_file, stays)
              (put_file s none inode f (record f { nlink = links }) c found refl refl)
      ]

  pub remove_dentry-IsCounted :
      (s : Scheme) (path : Str) (uid gid : ℕ) (wanted : Bool)
      → IsCounted s
      → IsCounted (remove_dentry fl path uid gid wanted s).1
  unfolding remove_dentry
  remove_dentry-IsCounted s path uid gid wanted c =
      and_then-keeps IsCounted (resolve_except_last fl s.filesystem uid gid path) _ s c λ place _.
        and_then-keeps IsCounted (ok_or place.1 einval) _ s c λ name _.
          and_then-keeps IsCounted (ok_or (Map.get s.filesystem.files place.0) eio) _ s c
            λ parent found.
              and_then-keeps IsCounted
                (if bit_and (current_perm fl parent uid gid) 0o2 == 0 then err eacces else ok tt) _
                s c
                λ _ _.
                  and_then-keeps IsCounted (dentries_of parent.contents enotdir) _ s c λ dentries _.
                    and_then-keeps IsCounted (ok_or (StrMap.get dentries name) enoent) _ s c
                      λ inode _.
                        let parent' = record parent {
                          contents = directory (StrMap.remove dentries name);
                        } in
                        let s1 = set_files (λ files. Map.insert files place.0 parent') s in
                        let c1 : IsCounted s1 =
                          put_file s none place.0 parent parent' c
                            (ok_or-some (Map.get s.filesystem.files place.0) eio parent found) refl
                            refl in
                        let entry = Map.get s1.filesystem.files inode in
                        let left = leave_parent fl place.0 entry wanted s1 in
                        let c2 = leave_parent-IsCounted s1 place.0 entry wanted c1 in
                        and_then-keeps IsCounted left.0 _ left.1 c2 λ _ _.
                          and_then-keeps IsCounted
                            (ok_or (Map.get left.1.filesystem.files inode) eio) _ left.1 c2
                            λ removed there.
                              and_then-keeps IsCounted (drop_links fl removed wanted) _ left.1 c2
                                λ links _. drop_file-IsCounted left.1 inode removed links c2 (
                                  ok_or-some (Map.get left.1.filesystem.files inode) eio removed
                                    there)

  pub unlinkat-IsCounted :
      (s : Scheme) (dirfd : ℕ) (path : Str) (flags : ℕ) (ctx : CallerCtx)
      → IsCounted s
      → IsCounted (unlinkat fl dirfd path flags ctx s).1
  unfolding unlinkat
  unlinkat-IsCounted s dirfd path flags ctx c =
      and_then-keeps IsCounted (HandleMap.get s.handles dirfd) _ s c λ dir _.
        and_then-keeps IsCounted (if bit_not dir == root_inode then ok tt else err eacces) _ s c
          λ _ _. remove_dentry-IsCounted s path ctx.uid ctx.gid (has flags fl.at_removedir) c

  pub fchmod-IsCounted :
      (s : Scheme) (fd mode : ℕ) → IsCounted s → IsCounted (fchmod fl fd mode s).1
  unfolding fchmod
  fchmod-IsCounted s fd mode c =
      and_then-keeps IsCounted (HandleMap.get s.handles fd) _ s c λ inode _.
        and_then-keeps IsCounted (ok_or (Map.get s.filesystem.files inode) ebadfd) _ s c λ f found.
          put_file s none inode f (record f { mode = bit_or mode (bit_and f.mode fl.mode_type) }) c
            (ok_or-some (Map.get s.filesystem.files inode) ebadfd f found) refl refl

  pub fchown_inode-IsCounted :
      (s : Scheme) (inode uid gid : ℕ) → IsCounted s → IsCounted (fchown_inode fl inode uid gid s).1
  unfolding fchown_inode
  fchown_inode-IsCounted s inode uid gid c =
      and_then-keeps IsCounted (ok_or (Map.get s.filesystem.files inode) ebadfd) _ s c λ f found.
        put_file s none inode f (record f { uid = uid; gid = gid }) c
          (ok_or-some (Map.get s.filesystem.files inode) ebadfd f found) refl refl

  pub futimens-IsCounted :
      (s : Scheme) (fd : ℕ) (a m : TimeSpec) (rest : List TimeSpec)
      → IsCounted s
      → IsCounted (futimens fl fd (a ∷ m ∷ rest) s).1
  unfolding futimens
  futimens-IsCounted s fd a m rest c =
      and_then-keeps IsCounted (HandleMap.get s.handles fd) _ s c λ inode _.
        and_then-keeps IsCounted (ok_or (Map.get s.filesystem.files inode) ebadfd) _ s c λ f found.
          put_file s none inode f (record f { atime = a; mtime = m }) c
            (ok_or-some (Map.get s.filesystem.files inode) ebadfd f found) refl refl

module _ (fl : FsFlags) (room : ℕ → Bool) where
  pub write-IsCounted :
      (s : Scheme) (fd : ℕ) (buf : Str) (offset : ℕ)
      → IsCounted s
      → IsCounted (write fl room fd buf offset s).1
  unfolding write
  write-IsCounted s fd buf offset c =
      and_then-keeps IsCounted (HandleMap.get s.handles fd) _ s c λ inode _.
        and_then-keeps IsCounted (ok_or (Map.get s.filesystem.files inode) ebadfd) _ s c λ f found.
          elim (FileData-cases f.contents) [
            | inr (entries, dir) ↦ rw dir c
            | inl (bytes, plain) ↦ elim (Bool-cases (is_dir fl room f)) [
              | inl odd ↦ rw plain (rw odd c)
              | inr file ↦ rw plain (
                  rw file (
                    and_then-keeps IsCounted (write_bytes fl room bytes offset buf) _ s c
                      λ bytes' _.
                        put_file s none inode f (record f { contents = regular bytes' }) c
                          (ok_or-some (Map.get s.filesystem.files inode) ebadfd f found) refl refl))
            ]
          ]

  pub ftruncate-IsCounted :
      (s : Scheme) (fd size : ℕ) → IsCounted s → IsCounted (ftruncate fl room fd size s).1
  unfolding ftruncate
  ftruncate-IsCounted s fd size c =
      and_then-keeps IsCounted (HandleMap.get s.handles fd) _ s c λ inode _.
        and_then-keeps IsCounted (ok_or (Map.get s.filesystem.files inode) ebadfd) _ s c λ f found.
          and_then-keeps IsCounted (if is_dir fl room f then err eisdir else ok tt) _ s c λ _ _.
            elim (FileData-cases f.contents) [
              | inr (entries, dir) ↦ rw dir c
              | inl (bytes, plain) ↦ rw plain (
                  and_then-keeps IsCounted (reserve fl room size (length bytes)) _ s c λ _ _.
                    put_file s none inode f (record f { contents = regular (resize bytes size) }) c
                      (ok_or-some (Map.get s.filesystem.files inode) ebadfd f found) refl refl)
            ]
