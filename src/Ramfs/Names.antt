-- ===== src/Ramfs/Names.antt =====
-- The names of files in ramfs/src/scheme.rs: the path from a directory to a file, and the entries of
-- a directory. The writer of entries is a parameter, that of the `syscall` crate.
pub mod Ends
use eos_base.Base.{
  ℕ, zero, suc, ◌+◌, Bool, true, false, ◌||◌, Option, none, some, List, [], ◌∷◌, ◌++◌, ◌==◌, ltb,
  length, take, drop, if◌then◌else◌,
}
use mathlib.Core.List.{reverse}
use eos_base.Base.Text.{Str, bytes}
use eos_base.Base.Map
use eos_base.Base.Map.{Map}
use eos_base.Base.StrMap.{StrMap}
use eos_base.Base.Result.{Result, ok, err, panic, ebadfd, enoent, enotdir, erange, lift, ◌>>=◌}
use eos_base.SchemeUtils.FpathWriter.{with}
use eos_base.Ramfs.{regular, directory, File, Scheme, M, root_inode, inode_of, file}

-- `dir.iter().find(|(_, inode)| inode == ..)`
unfoldable pub name_of : StrMap ℕ → ℕ → Option Str
name_of [] inode = none
name_of ((name, i) ∷ dir) inode = if i == inode then some name else name_of dir inode

-- One round of the loops of `fpath` and `relpathat`: the name of a file in its parent, and the
-- parent.
unfoldable pub step_up : Map File → ℕ → File → Result (Str × ℕ × File)
unfolding name_of
step_up files inode info = elim (Map.get files info.parent) [
  | none ↦ err ebadfd
  | some parent_info ↦ elim parent_info.contents [
    | regular _ ↦ err ebadfd
    | directory dir ↦ elim (name_of dir inode) [
      | none ↦ err enoent
      | some name ↦ ok (name, info.parent, parent_info)
    ]
  ]
]

abbrev pub push_name : Str → Option (Result (List Str)) → Option (Result (List Str))
push_name name none = none
push_name name (some (ok chain)) = some (ok (name ∷ chain))
push_name name (some other) = some other

-- The loops, on fuel: the names from a file up to where the loop stops, the last of them first.
-- `none` is a loop that does not end.
unfoldable pub chain : ℕ → (ℕ → Bool) → Map File → ℕ → File → Option (Result (List Str))
unfolding step_up
chain zero stop files inode info = if stop inode then some (ok []) else none
chain (suc fuel) stop files inode info =
    let up : Option (Result (List Str)) = elim (step_up files inode info) [
      | ok (name, parent, parent_info) ↦ push_name name (chain fuel stop files parent parent_info)
      | err e ↦ some (err e)
      | panic ↦ some panic
    ] in
    if stop inode then some (ok []) else up

-- A slash before each component but the first.
unfoldable pub slashed : List Str → List Str
slashed [] = []
slashed (c ∷ []) = c ∷ []
slashed (c ∷ d ∷ rest) = c ∷ bytes "/" ∷ slashed (d ∷ rest)

abbrev pub path_parts : Result (List Str) → Result (List Str)
path_parts (ok names) = ok (slashed (reverse names))
path_parts (err e) = err e
path_parts panic = panic

abbrev pub is_root : ℕ → Bool
is_root inode = inode == root_inode

-- The inode of a handle and its file.
abbrev pub opened : ℕ → M (ℕ × File)
opened fd = do inode ← inode_of fd; info ← file inode ebadfd; lift (ok (inode, info))

-- The numbers of parents are less than those of their children, so an inode's number is enough fuel.
unfoldable pub fpath : ℕ → Str → Scheme → Option (Result ℕ × Str)
unfolding chain
fpath fd buf s =
    let fails = λ (e : Result (List Str)). some (with buf s.scheme_name e) in
    elim (opened fd s).0 [
      | err e ↦ fails (err e)
      | panic ↦ fails panic
      | ok (inode, info) ↦ elim (chain inode is_root s.filesystem.files inode info) [
        | none ↦ none
        | some names ↦ some (with buf s.scheme_name (path_parts names))
      ]
    ]

-- `path[offset..][..bytes.len()].copy_from_slice(bytes)`
abbrev pub place : Str → ℕ → Str → Str
place path offset bytes = take offset path ++ (bytes ++ drop (offset + length bytes) path)

-- The loop that writes the components; `first` tells whether none is written yet.
unfoldable pub write_components : Bool → ℕ → Str → List Str → Result ℕ × Str
write_components first offset path [] = (ok offset, path)
write_components first offset path (c ∷ rest) =
    let slash : Str = if first then [] else bytes "/" in
    let start = offset + length slash in
    let path' = place path offset slash in
    let done = write_components false (start + length c) (place path' start c) rest in
    if ltb (length path) start
    then (err erange, path)
    else if ltb (length path) (start + length c)
    then (err erange, path')
    else done

abbrev pub opened_below : ℕ → ℕ → M (ℕ × ℕ × File)
opened_below dir_id id = do
  dir_inode ← inode_of dir_id
  (inode, info) ← opened id
  lift (ok (dir_inode, inode, info))

unfoldable pub relpathat : ℕ → ℕ → Str → Scheme → Option (Result ℕ × Str)
unfolding chain write_components
relpathat dir_id id path s = elim (opened_below dir_id id s).0 [
  | err e ↦ some (err e, path)
  | panic ↦ some (panic, path)
  | ok (dir_inode, inode, info) ↦
      elim (chain inode (λ i. i == dir_inode || i == root_inode) s.filesystem.files inode info) [
        | none ↦ none
        | some (ok names) ↦ some (write_components true 0 path (reverse names))
        | some (err e) ↦ some (err e, path)
        | some panic ↦ some (panic, path)
      ]
]

pub record DirEntry : Type 0 where
  pub inode : ℕ
  pub name : Str
  pub next_opaque_id : ℕ

module _ {B : Type 0} (entry : B → DirEntry → Result B) where
  -- The loop of `getdents`: the entries from the index on.
  unfoldable pub put_entries : ℕ → StrMap ℕ → B → Result B
  put_entries i [] buf = ok buf
  put_entries i ((name, inode) ∷ dir) buf =
      elim (entry buf (record { inode = inode; name = name; next_opaque_id = i + 1 })) [
        | ok buf' ↦ put_entries (i + 1) dir buf'
        | err e ↦ err e
        | panic ↦ panic
      ]

  unfoldable pub getdents : ℕ → B → ℕ → M B
  unfolding put_entries
  getdents fd buf offset = do
    inode ← inode_of fd
    f ← file inode ebadfd
    elim f.contents [
      | regular _ ↦ lift (err enotdir)
      | directory dir ↦ lift (put_entries offset (drop offset dir) buf)
    ]
