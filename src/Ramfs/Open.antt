-- ===== src/Ramfs/Open.antt =====
-- Handles in ramfs/src/scheme.rs: opening and making files, and closing.
pub mod Found
use eos_base.Base.{
  ℕ, ◌+◌, Bool, true, false, ◌&&◌, ◌||◌, not, none, some, [], ◌==◌, bit_and, bit_or, if◌then◌else◌,
}
use eos_base.Base.Text.{Str}
use eos_base.Base.Map
use eos_base.Base.StrMap
use eos_base.Base.Syscall.{OpenResult, this_scheme, has}
use eos_base.Base.Result.{
  Result, ok, err, panic, eacces, eexist, einval, eio, eisdir, enotdir, ebadfd, lift, ok_or, ◌>>=◌,
  ◌>>◌,
}
use eos_base.SchemeUtils.HandleMap
use eos_base.Ramfs.{
  FsFlags, TimeSpec, FileData, regular, directory, File, Scheme, CallerCtx, M, root_inode, inode_of,
  file, set_files, put, add_handle, next_inode_number, wrapping_add, wrapping_sub,
}
use eos_base.Ramfs.Permission.{current_perm, check_permissions}
use eos_base.Ramfs.Path.{resolve, resolve_except_last}

module _ (fl : FsFlags) where
  -- `flags & FLAG != 0`
  abbrev pub any : ℕ → ℕ → Bool
  any flags flag = not (bit_and flags flag == 0)

  abbrev pub is_type : File → ℕ → Bool
  is_type f type = bit_and f.mode fl.mode_type == type

  -- The checks of `open_existing` on the kind of the file.
  unfoldable pub check_kind : File → ℕ → Result (Unit {0})
  check_kind f flags =
      if not (any flags fl.o_stat) && (any flags fl.o_directory && not (is_type f fl.mode_dir))
      then err enotdir
      else if not (any flags fl.o_stat) && (not (any flags fl.o_directory) && is_type f fl.mode_dir)
      then err eisdir
      else ok tt

  abbrev pub opened_as_write : ℕ → Bool
  opened_as_write flags =
      bit_and flags fl.o_accmode == fl.o_wronly || bit_and flags fl.o_accmode == fl.o_rdwr

  -- The contents behind `O_TRUNC`.
  unfoldable pub truncated : FileData → ℕ → Result FileData
  truncated contents flags =
      if has flags fl.o_trunc && opened_as_write flags
      then (elim contents [ directory _ ↦ err ebadfd | regular _ ↦ ok (regular []) ])
      else ok contents

  unfoldable pub open_existing : Str → ℕ → ℕ → ℕ → M ℕ
  unfolding check_kind truncated
  open_existing path flags uid gid = do
    inode ← (λ s. (resolve fl s.filesystem uid gid path, s))
    f ← file inode eio
    lift (check_kind f flags)
    lift (check_permissions fl flags (current_perm fl f uid gid))
    contents ← lift (truncated f.contents flags)
    put inode (record f { contents = contents; open_handles = wrapping_add f.open_handles 1 })
    lift (ok inode)

  -- The kind of a new file from the flags: the mode and the links.
  unfoldable pub new_mode : ℕ → Result ℕ
  new_mode flags =
      let mode = bit_and flags 0xFFFF in
      let kind = if any flags fl.o_directory then fl.mode_dir else fl.mode_file in
      let typed = if bit_and mode fl.mode_type == 0 then bit_or mode kind else mode in
      if any flags fl.o_directory
      then (if bit_and typed fl.mode_type == fl.mode_dir then ok typed else err einval)
      else if bit_and typed fl.mode_type == fl.mode_dir
      then err einval
      else ok typed

  unfoldable pub new_inode : ℕ → ℕ → ℕ → CallerCtx → TimeSpec → File
  new_inode flags mode parent_dir_inode ctx current_time = record {
    mode = mode;
    uid = ctx.uid;
    gid = ctx.gid;
    nlink = if any flags fl.o_directory then 2 else 1;
    parent = parent_dir_inode;
    open_handles = 1;
    atime = current_time;
    ctime = current_time;
    mtime = current_time;
    contents = if any flags fl.o_directory then directory [] else regular [];
  }

  -- A name in a directory; the file it names is already there.
  unfoldable pub link : ℕ → Str → ℕ → M (Unit {0})
  link parent_dir_inode new_name inode = do
    parent_file ← file parent_dir_inode eio
    elim parent_file.contents [
      | regular _ ↦ lift (err eio)
      | directory entries ↦
          put parent_dir_inode
            (record parent_file { contents = directory (StrMap.insert entries new_name inode) })
    ]

  -- `self.filesystem.next_inode_number()?`
  abbrev pub take_inode_number : M ℕ
  take_inode_number s =
      let (r, fs) = next_inode_number s.filesystem in (r, record s { filesystem = fs })

  -- The branch of `openat` that makes a file.
  unfoldable pub create : Str → ℕ → CallerCtx → TimeSpec → M ℕ
  unfolding new_mode new_inode link
  create path flags ctx current_time = do
    lift (if any flags fl.o_stat then err einval else ok tt)
    (parent_dir_inode, last) ← (λ s. (resolve_except_last fl s.filesystem ctx.uid ctx.gid path, s))
    new_name ← lift (ok_or last einval)
    new_inode_number ← take_inode_number
    mode ← lift (new_mode flags)
    let f = new_inode flags mode parent_dir_inode ctx current_time
    lift (check_permissions fl flags (current_perm fl f ctx.uid ctx.gid))
    put new_inode_number f
    link parent_dir_inode new_name new_inode_number
    lift (ok new_inode_number)

  abbrev pub require_root : ℕ → Result (Unit {0})
  require_root inode = if inode == root_inode then ok tt else err eacces

  -- `resolve(..).is_ok()`
  abbrev pub is_ok {ℓ} : {A : Type ℓ} → Result A → Result Bool
  is_ok (ok _) = ok true
  is_ok (err _) = ok false
  is_ok panic = panic

  unfoldable pub open_inode : Str → ℕ → ℕ → CallerCtx → TimeSpec → Bool → M ℕ
  unfolding create open_existing
  open_inode path flags fcntl_flags ctx current_time exists =
      if any flags fl.o_creat && exists
      then open_existing path flags ctx.uid ctx.gid
      else if any flags fl.o_creat
      then create path flags ctx current_time
      else open_existing path (bit_or flags fcntl_flags) ctx.uid ctx.gid

  -- The clock is read where a file is made.
  unfoldable pub openat : ℕ → Str → ℕ → ℕ → CallerCtx → TimeSpec → M OpenResult
  unfolding open_inode
  openat dirfd path flags fcntl_flags ctx current_time = do
    dir ← inode_of dirfd
    lift (require_root dir)
    exists ← (λ s. (is_ok (resolve fl s.filesystem 0 0 path), s))
    lift (if any flags fl.o_creat && (any flags fl.o_excl && exists) then err eexist else ok tt)
    inode ← open_inode path flags fcntl_flags ctx current_time exists
    new_id ← add_handle inode
    lift (ok (this_scheme new_id))

-- A file with one handle less, and its removal when nothing refers to it.
unfoldable pub close_file : ℕ → File → Scheme → Scheme
close_file inode f s =
    let left = wrapping_sub f.open_handles 1 in
    if f.nlink == 0 && left == 0
    then set_files (λ files. Map.remove files inode) s
    else set_files (λ files. Map.insert files inode (record f { open_handles = left })) s

unfoldable pub on_close : ℕ → Scheme → Scheme
unfolding close_file
on_close fd s =
    let (inode, handles) = HandleMap.remove s.handles fd in
    let s' = record s { handles = handles } in
    elim inode [
      | none ↦ s'
      | some i ↦ elim (Map.get s.filesystem.files i) [ none ↦ s' | some f ↦ close_file i f s' ]
    ]
