-- ===== src/Ramfs/Path.antt =====
-- Paths in ramfs/src/filesystem.rs: their components, and the files that they name.
pub mod Walk
pub mod Extend
pub mod Last
pub mod Dots
use eos_base.Base.{ℕ, Bool, Option, none, some, List, [], ◌∷◌, ◌||◌, ◌==◌, bit_and, if◌then◌else◌}
use eos_base.Base.Text.{Str, str_eq, bytes}
use eos_base.Base.Map
use eos_base.Base.StrMap
use eos_base.Base.Result.{Result, ok, err, panic, enoent, eacces, eio}
use eos_base.Ramfs.{FsFlags, File, Filesystem, regular, directory, root_inode}
use eos_base.Ramfs.Permission.{current_perm}

-- A byte in front of the first piece.
abbrev pub cons_first : ℕ → List Str → List Str
cons_first c [] = (c ∷ []) ∷ []
cons_first c (s ∷ rest) = (c ∷ s) ∷ rest

-- `split('/')`
unfoldable pub split : Str → List Str
split [] = [] ∷ []
split (c ∷ s) = let rest = split s in if c == b'/' then [] ∷ rest else cons_first c rest

-- `filter(|item| !item.is_empty())`
unfoldable pub non_empty : List Str → List Str
non_empty [] = []
non_empty ([] ∷ rest) = non_empty rest
non_empty ((c ∷ s) ∷ rest) = (c ∷ s) ∷ non_empty rest

-- `path_components_iter`
unfoldable pub path_components : Str → List Str
unfolding split non_empty
path_components path = non_empty (split path)

-- `trim_start_matches('/')`
unfoldable pub trim_start : Str → Str
trim_start [] = []
trim_start (c ∷ s) = let rest = trim_start s in if c == b'/' then rest else c ∷ s

abbrev pub is_dots : Str → Bool
is_dots part = str_eq part (bytes ".") || str_eq part (bytes "..")

-- Where a walk stands: an inode and its file.
abbrev pub Place : Type 0
Place = ℕ × File

module _ (fl : FsFlags) (fs : Filesystem) (uid gid : ℕ) where
  -- The look-up of one component, `permitted` its directory and the right to search it.
  unfoldable pub permitted : File → Result (StrMap.StrMap ℕ)
  permitted f = elim f.contents [
    | regular _ ↦ err enoent
    | directory dentries ↦
        if bit_and (current_perm fl f uid gid) 0o1 == 0 then err eacces else ok dentries
  ]

  unfoldable pub enter : StrMap.StrMap ℕ → Str → Result Place
  enter dentries part = elim (StrMap.get dentries part) [
    | none ↦ err enoent
    | some inode ↦ elim (Map.get fs.files inode) [ none ↦ err eio | some f ↦ ok (inode, f) ]
  ]

  -- `?` on a result, with what comes after it.
  abbrev pub then_do {ℓ} : {A B : Type ℓ} → Result A → (A → Result B) → Result B
  then_do (ok a) f = f a
  then_do (err e) f = err e
  then_do panic f = panic

  -- The loop of `resolve_generic`, over the components from the index on. A component of dots is
  -- taken out, and the one that follows it, which must be there, is looked up in its place. What `..`
  -- takes out before the index is not looked at again, so the index itself is not kept.
  unfoldable pub walk : List Str → Place → Result Place
  walk [] place = ok place
  walk (part ∷ []) place =
      then_do (permitted place.1) λ dentries. if is_dots part then panic else enter dentries part
  walk (part ∷ next ∷ rest) place =
      let skip = λ (dentries : StrMap.StrMap ℕ). then_do (enter dentries next) (walk rest) in
      let take =
        λ (dentries : StrMap.StrMap ℕ). then_do (enter dentries part) (walk (next ∷ rest)) in
      then_do (permitted place.1) λ dentries. if is_dots part then skip dentries else take dentries

  unfoldable pub resolve_generic : List Str → Result ℕ
  unfolding walk
  resolve_generic parts = elim (Map.get fs.files root_inode) [
    | none ↦ err enoent
    | some f ↦ then_do (walk parts (root_inode, f)) (λ place. ok place.0)
  ]

  unfoldable pub resolve : Str → Result ℕ
  unfolding resolve_generic
  resolve path = resolve_generic (path_components (trim_start path))

  -- `pop` on the components.
  unfoldable pub split_last : List Str → List Str × Option Str
  split_last [] = ([], none)
  split_last (part ∷ []) = ([], some part)
  split_last (part ∷ next ∷ rest) =
      let (parts, last) = split_last (next ∷ rest) in (part ∷ parts, last)

  unfoldable pub resolve_except_last : Str → Result (ℕ × Option Str)
  unfolding resolve_generic split_last
  resolve_except_last path =
      let (parts, last) = split_last (path_components (trim_start path)) in
      then_do (resolve_generic parts) (λ inode. ok (inode, last))
