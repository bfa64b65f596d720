-- ===== src/Tests/Files.antt =====
-- Runs of the file system in memory.
use eos_base.Base.{
  ◌+◌, ◌∷◌, [], ◌-◌, max, min, length, none, some, ◌≢◌, true, false, ◌++◌, ℕ, ◌<◌, ◌≡◌, refl, Bool,
  true, Option, none, some, arith,
}
use eos_base.Base.Text.{Str, bytes, str_eq}
use eos_base.Base.Int.{pos}
use eos_base.Base.Map
use eos_base.Base.StrMap
use eos_base.SchemeUtils.HandleMap
use eos_base.Ramfs
use eos_base.Base.Result.{Result, ok, err, eacces}
use eos_base.Base.Syscall.{this_scheme}
use eos_base.Ramfs.Path.Dots.{ArePlain, resolve_generic-dots}
use eos_base.Ramfs.Remove.{unlinkat}
use eos_base.Ramfs.Remove.Refused.{unlinkat-refused}
use eos_base.Ramfs.Contents.{write, read, write_bytes, overwrite, resize}
use eos_base.Ramfs.Contents.Bytes.{at, stored}
use eos_base.Ramfs.Contents.Stored.{IsOpen, write-stored, read-at}
use eos_base.Ramfs.Names.{fpath, relpathat}
use eos_base.Ramfs.Handles.Reach.{Reach-path, Reach-openat}
use eos_base.Ramfs.{
  regular, FsFlags, TimeSpec, File, Scheme, CallerCtx, regular, directory, root_inode,
  next_inode_number, scheme_root,
}
use eos_base.Ramfs.Permission.{current_perm, check_permissions}
use eos_base.Ramfs.Path.{
  resolve, resolve_generic, split, non_empty, path_components, trim_start, walk, permitted, enter,
  split_last, resolve_except_last,
}
use eos_base.Ramfs.Open.{
  openat, open_inode, create, new_mode, new_inode, link, on_close, close_file,
}
use eos_base.Ramfs.Handles.Reach.{
  Request, root, opens, closes, handle, HasRoom, Reach, here, next, Reach-file,
}

-- The flags as they are on Redox.
abbrev flags : FsFlags
flags = record {
  o_accmode = 0x30000;
  o_creat = 0x2000000;
  o_directory = 0x10000000;
  o_excl = 0x8000000;
  o_rdonly = 0x10000;
  o_rdwr = 0x30000;
  o_stat = 0x20000000;
  o_trunc = 0x4000000;
  o_wronly = 0x20000;
  mode_dir = 0x4000;
  mode_file = 0x8000;
  mode_perm = 0xFFF;
  mode_type = 0xF000;
  at_removedir = 0x200;
}

abbrev enough : ℕ → Bool
enough _ = true

abbrev nobody : ℕ → Option Str
nobody _ = none

abbrev time : TimeSpec
time = record { tv_sec = pos 7; tv_nsec = 0 }

abbrev user : CallerCtx
user = record { pid = 3; uid = 0; gid = 0 }

abbrev empty : Scheme
empty = Ramfs.new flags time (bytes "ram")

-- With the handle 1 of the root.
abbrev mounted : Scheme
mounted = handle flags enough nobody root empty

empty-HasRoom : HasRoom flags enough nobody empty
unfolding Map.size Map.get Ramfs.new Ramfs.create_root_inode
empty-HasRoom = record { table = omega arith; opens = λ i ne. ground arith }

mounted_reached : Reach flags enough nobody empty mounted
mounted_reached = next here empty-HasRoom root

abbrev creating : ℕ
creating = 0x20301A4

abbrev opening : Request
opening = opens 1 (bytes "a") 0x20301A4 0 user time

-- A second handle of the root was opened and closed again, which takes the count of the root below 0.
abbrev twice : Scheme
twice = handle flags enough nobody root mounted

abbrev closed : Scheme
closed = handle flags enough nobody (closes 2) twice

abbrev with_a : Scheme
with_a = handle flags enough nobody opening closed

mounted-HasRoom : HasRoom flags enough nobody mounted
unfolding handle scheme_root Map.size Map.insert Map.get Ramfs.new HandleMap.insert
    HandleMap.first_free Map.contains_key Ramfs.create_root_inode
mounted-HasRoom = record { table = omega arith; opens = λ i ne. ground arith }

twice-HasRoom : HasRoom flags enough nobody twice
unfolding handle scheme_root Map.size Map.insert Map.get Ramfs.new HandleMap.insert
    HandleMap.first_free Map.contains_key Ramfs.create_root_inode
twice-HasRoom = record { table = omega arith; opens = λ i ne. ground arith }

closed-HasRoom : HasRoom flags enough nobody closed
unfolding handle scheme_root Map.size Map.insert Map.get Ramfs.new HandleMap.insert
    HandleMap.first_free Map.contains_key Ramfs.create_root_inode on_close close_file
    HandleMap.remove Map.remove
closed-HasRoom = record { table = omega arith; opens = λ i ne. ground arith }

closed_reached : Reach flags enough nobody empty closed
closed_reached = next (next mounted_reached mounted-HasRoom root) twice-HasRoom (closes 2)

with_a_handle : Map.get with_a.handles.handles 3 ≡ some 2
unfolding on_close close_file HandleMap.remove Map.remove handle openat open_inode create new_mode
    new_inode link next_inode_number scheme_root resolve resolve_generic split non_empty
    path_components trim_start walk permitted enter split_last resolve_except_last check_permissions
    current_perm str_eq StrMap.get StrMap.insert Map.size Map.insert Map.get Ramfs.new
    HandleMap.insert HandleMap.get HandleMap.first_free Map.contains_key Ramfs.create_root_inode
with_a_handle = refl

Reach-file_example :
    (f : File) × (Map.get with_a.filesystem.files 2 ≡ some f) × (0 < f.open_handles)
Reach-file_example =
    Reach-file flags enough nobody time (bytes "ram") with_a 3 2
      (next closed_reached closed-HasRoom opening) with_a_handle (ground arith)

Reach-path_example :
    ((r : Result ℕ × Str) × (fpath 3 (0 ∷ 0 ∷ []) with_a ≡ some r))
    × ((r : Result ℕ × Str) × (relpathat 1 3 (0 ∷ 0 ∷ []) with_a ≡ some r))
Reach-path_example =
    Reach-path flags enough nobody time (bytes "ram") with_a 1 3 (0 ∷ 0 ∷ [])
      (next closed_reached closed-HasRoom opening)

opened_a : (openat flags 1 (bytes "a") 0x20301A4 0 user time mounted).0 ≡ ok (this_scheme 2)
unfolding handle openat open_inode create new_mode new_inode link next_inode_number scheme_root
    resolve resolve_generic split non_empty path_components trim_start walk permitted enter
    split_last resolve_except_last check_permissions current_perm str_eq StrMap.get StrMap.insert
    Map.size Map.insert Map.get Ramfs.new HandleMap.insert HandleMap.get HandleMap.first_free
    Map.contains_key Ramfs.create_root_inode
opened_a = refl

Reach-openat_example :
    let s' = (openat flags 1 (bytes "a") 0x20301A4 0 user time mounted).1 in
    (i : ℕ) × (Map.get s'.handles.handles 2 ≡ some i)
    × (resolve flags s'.filesystem 0 0 (bytes "a") ≡ ok i)
Reach-openat_example =
    Reach-openat flags enough nobody time (bytes "ram") mounted 1 (bytes "a") 0x20301A4 0 user time
      2 mounted_reached opened_a

-- The handle 2 is open for a file of three bytes.
abbrev file : File
file = record {
  mode = 0x81A4;
  uid = 0;
  gid = 0;
  nlink = 1;
  parent = 1;
  open_handles = 1;
  atime = time;
  ctime = time;
  mtime = time;
  contents = regular (1 ∷ 2 ∷ 3 ∷ []);
}

abbrev three : Str
three = 1 ∷ 2 ∷ 3 ∷ []

abbrev two : Str
two = 8 ∷ 9 ∷ []

abbrev stored_file : Scheme
stored_file = record {
  scheme_name = [];
  filesystem = record { files = (2, file) ∷ []; last_inode_number = 2 };
  handles = record { handles = (1, 1) ∷ (2, 2) ∷ []; next_id = 3 };
}

stored_file-IsOpen : IsOpen flags stored_file 2 2 file (1 ∷ 2 ∷ 3 ∷ [])
unfolding HandleMap.get Map.get
stored_file-IsOpen = record { handle = refl; there = refl; plain = refl; kind = refl }

stored_file-write : (write flags enough 2 (8 ∷ 9 ∷ []) 2 stored_file).0 ≡ ok 2
unfolding write write_bytes overwrite resize HandleMap.get Map.get
stored_file-write = refl

write-stored_example :
    let s' = (write flags enough 2 two 2 stored_file).1 in
    (2 ≡ length two)
    × ((bytes' : Str) × IsOpen flags s' 2 2 (record file { contents = regular bytes' }) bytes'
        × (length bytes' ≡ max (length three) (2 + length two))
        × ((i : ℕ) → at bytes' i ≡ stored (at three) 2 two i))
    × ((j : ℕ) → 2 ≢ j → Map.get s'.filesystem.files j ≡ Map.get stored_file.filesystem.files j)
write-stored_example =
    write-stored flags enough stored_file 2 2 file three two 2 2 stored_file-IsOpen
      stored_file-write

read-at_example :
    (r : Str) × (read flags enough 2 8 1 0x30000 stored_file ≡ (ok r, stored_file))
    × (length r ≡ min (length three - 1) 8)
    × ((i : ℕ) → i < length r → at r i ≡ at three (1 + i))
read-at_example =
    read-at flags enough stored_file 2 2 file three 8 1 0x30000 stored_file-IsOpen refl

root_handle : Map.get stored_file.handles.handles 1 ≡ some 1
unfolding Map.get
root_handle = refl

unlinkat-refused_example :
    unlinkat flags 1 (bytes "a") 0 user stored_file ≡ (err eacces, stored_file)
unlinkat-refused_example =
    unlinkat-refused flags stored_file 1 1 (bytes "a") 0 user root_handle (omega arith)

a-ArePlain : ArePlain (bytes "a" ∷ [])
unfolding ArePlain str_eq
a-ArePlain = (refl, tt)

two_dots : Ramfs.Path.is_dots (bytes "..") ≡ true
unfolding str_eq
two_dots = refl

plain_b : Ramfs.Path.is_dots (bytes "b") ≡ false
unfolding str_eq
plain_b = refl

resolve_generic-dots_example :
    resolve_generic flags with_a.filesystem 0 0 ((bytes "a" ∷ []) ++ (bytes ".." ∷ bytes "b" ∷ []))
    ≡ resolve_generic flags with_a.filesystem 0 0 ((bytes "a" ∷ []) ++ (bytes "b" ∷ []))
resolve_generic-dots_example =
    resolve_generic-dots flags with_a.filesystem 0 0 (bytes "a" ∷ []) (bytes "..") (bytes "b") []
      a-ArePlain two_dots plain_b
