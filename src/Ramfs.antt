-- ===== src/Ramfs.antt =====
-- The file system in memory of ramfs/src: files by inode number in ramfs/src/filesystem.rs, and the
-- handlers of ramfs/src/scheme.rs over a table of handles.
pub mod Time
pub mod Permission
pub mod Path
pub mod Open
pub mod Remove
pub mod Contents
pub mod Attributes
pub mod Names
pub mod Handles
use eos_base.Base.{
  ℕ, ◌+◌, ◌-◌, ◌%◌, ◌^◌, Option, none, some, [], ◌∷◌, bit_or, length, ltb, ◌≡◌, refl, ◌⊎◌, inl, inr,
  if◌then◌else◌,
}
use eos_base.Base.Text.{Str}
use eos_base.Base.Int.{ℤ}
use eos_base.Base.Map
use eos_base.Base.Map.{Map}
use eos_base.Base.StrMap.{StrMap}
use eos_base.Base.Result.{Result, ok, err, panic, Exec, Error, ok_or, enfile}
use eos_base.SchemeUtils.HandleMap
use eos_base.SchemeUtils.HandleMap.{HandleMap}

-- The flags and mode bits of the `syscall` crate.
pub record FsFlags : Type 0 where
  pub o_accmode : ℕ
  pub o_creat : ℕ
  pub o_directory : ℕ
  pub o_excl : ℕ
  pub o_rdonly : ℕ
  pub o_rdwr : ℕ
  pub o_stat : ℕ
  pub o_trunc : ℕ
  pub o_wronly : ℕ
  pub mode_dir : ℕ
  pub mode_file : ℕ
  pub mode_perm : ℕ
  pub mode_type : ℕ
  pub at_removedir : ℕ

-- `tv_sec` is an `i64`, `tv_nsec` an `i32` that is never negative here.
pub record TimeSpec : Type 0 where
  pub tv_sec : ℤ
  pub tv_nsec : ℕ

-- A directory is an `IndexMap`, in the order of insertion.
pub data FileData : Type 0 where
  regular : Str → FileData
  directory : StrMap ℕ → FileData

abbrev pub size : FileData → ℕ
size (regular bytes) = length bytes
size (directory _) = 0

pub FileData-cases :
    (d : FileData)
    → ((bytes : Str) × (d ≡ regular bytes)) ⊎ ((dentries : StrMap ℕ) × (d ≡ directory dentries))
FileData-cases (regular bytes) = inl (bytes, refl)
FileData-cases (directory dentries) = inr (dentries, refl)

pub record File : Type 0 where
  pub mode : ℕ
  pub uid : ℕ
  pub gid : ℕ
  pub nlink : ℕ
  pub parent : ℕ
  pub open_handles : ℕ
  pub atime : TimeSpec
  pub ctime : TimeSpec
  pub mtime : TimeSpec
  pub contents : FileData

pub record Filesystem : Type 0 where
  pub files : Map File
  pub last_inode_number : ℕ

-- The only constructor of `Handle` is an inode.
pub record Scheme : Type 0 where
  pub scheme_name : Str
  pub filesystem : Filesystem
  pub handles : HandleMap ℕ

pub record CallerCtx : Type 0 where
  pub pid : ℕ
  pub uid : ℕ
  pub gid : ℕ

abbrev pub M : Type 0 → Type 0
M = Exec Scheme

abbrev pub root_inode : ℕ
root_inode = 1

unfoldable pub create_root_inode : FsFlags → TimeSpec → File
create_root_inode fl cur_time = record {
  mode = bit_or fl.mode_dir 0o755;
  uid = 0;
  gid = 0;
  nlink = 1;
  parent = root_inode;
  open_handles = 0;
  atime = cur_time;
  ctime = cur_time;
  mtime = cur_time;
  contents = directory [];
}

-- `Filesystem::new` and `Scheme::new`, once their descriptors are open.
unfoldable pub new : FsFlags → TimeSpec → Str → Scheme
unfolding create_root_inode
new fl cur_time name = record {
  scheme_name = name;
  filesystem = record {
    files = (root_inode, create_root_inode fl cur_time) ∷ [];
    last_inode_number = root_inode;
  };
  handles = HandleMap.new;
}

-- `a - b` on `usize` in a release build.
abbrev pub wrapping_add : ℕ → ℕ → ℕ
wrapping_add a b = (a + b) % 2 ^ 64

abbrev pub wrapping_sub : ℕ → ℕ → ℕ
wrapping_sub a b = (a + (2 ^ 64 - b)) % 2 ^ 64

-- `self.handles.get(fd)?.as_inode()?`
abbrev pub inode_of : ℕ → M ℕ
inode_of fd s = (HandleMap.get s.handles fd, s)

-- `self.filesystem.files.get_mut(&inode).ok_or(..)?`
abbrev pub file : ℕ → Error → M File
file inode e s = (ok_or (Map.get s.filesystem.files inode) e, s)

abbrev pub set_files : (Map File → Map File) → Scheme → Scheme
set_files f s = record s {
  filesystem = record {
    files = f s.filesystem.files;
    last_inode_number = s.filesystem.last_inode_number;
  };
}

-- The writes through the reference that `get_mut` gave.
abbrev pub put : ℕ → File → M (Unit {0})
put inode f s = (ok tt, set_files (λ files. Map.insert files inode f) s)

-- `self.handles.insert(..)`; a table with 2 ^ 64 - 1 handles would keep it from returning.
abbrev pub add_handle : ℕ → M ℕ
add_handle inode s = elim (HandleMap.insert s.handles inode) [
  | none ↦ (panic, s)
  | some (id, handles) ↦ (ok id, record s { handles = handles })
]

unfoldable pub scheme_root : M ℕ
scheme_root = add_handle root_inode

-- `checked_add(1)` on `usize`.
abbrev pub checked_next : ℕ → Option ℕ
checked_next n = if ltb (n + 1) (2 ^ 64) then some (n + 1) else none

unfoldable pub next_inode_number : Filesystem → Result ℕ × Filesystem
next_inode_number fs = elim (checked_next fs.last_inode_number) [
  | none ↦ (err enfile, fs)
  | some n ↦ (ok n, record fs { last_inode_number = n })
]
