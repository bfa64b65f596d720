-- ===== src/Ramfs/Names/Ends.antt =====
-- The loops of `fpath` and `relpathat` in ramfs/src/scheme.rs end: each round goes to a parent, whose
-- number is less.
use eos_base.Base.{
  ◌==◌, ◌||◌, ℕ, zero, suc, ◌≤◌, ◌≡◌, refl, Bool, true, some, List, [], ◌∷◌, arith, Option-cases,
  Bool-cases, inl, inr,
}
use eos_base.Base.Text.{Str}
use eos_base.Base.Map
use eos_base.Base.Map.{Map}
use eos_base.Base.Result.{Result, ok, err, panic, Result-cases}
use eos_base.SchemeUtils.HandleMap
use eos_base.Ramfs.{Scheme, File, FileData-cases, root_inode}
use eos_base.Ramfs.Names.{
  opened_below, relpathat, opened, opened_below, is_root, fpath, relpathat, name_of, step_up, chain,
  push_name,
}
use eos_base.Ramfs.Handles.{climbs}

-- The files of which each but the root has a number above its parent's.
abbrev pub Climbing : Map File → Type 0
Climbing files = (i : ℕ) → climbs i (Map.get files i) ≡ true

step_up-found :
    (files : Map File) (inode : ℕ) (info parent_info : File) (name : Str) (parent : ℕ)
    → step_up files inode info ≡ ok (name, parent, parent_info)
    → (parent ≡ info.parent) × (Map.get files parent ≡ some parent_info)
unfolding step_up
step_up-found files inode info parent_info name parent h =
    elim (Option-cases (Map.get files info.parent)) [
      | inl gone ↦ absurd (ground arith)
      | inr (f, there) ↦ elim (FileData-cases f.contents) [
        | inl (bytes, plain) ↦ absurd (ground arith)
        | inr (dir, entries) ↦ elim (Option-cases (name_of dir inode)) [
          | inl unnamed ↦ absurd (ground arith)
          | inr (n, named) ↦ (ground arith, ground arith)
        ]
      ]
    ]

push_name-some :
    (name : Str) (r : Result (List Str))
    → (r' : Result (List Str)) × (push_name name (some r) ≡ some r')
push_name-some name (ok names) = (ok (name ∷ names), refl)
push_name-some name (err e) = (err e, refl)
push_name-some name panic = (panic, refl)

chain_total :
    (stop : ℕ → Bool) (files : Map File)
    → stop root_inode ≡ true
    → Climbing files
    → (fuel inode : ℕ) (info : File) → Map.get files inode ≡ some info
    → inode ≤ fuel
    → (r : Result (List Str)) × (chain fuel stop files inode info ≡ some r)
unfolding chain
chain_total stop files at_root climbing zero inode info there enough =
    absurd (ground (arith, climbing inode))
chain_total stop files at_root climbing (suc fuel) inode info there enough =
    elim (Bool-cases (stop inode)) [
      | inl here ↦ (ok [], ground arith)
      | inr on ↦ elim (Result-cases (step_up files inode info)) [
        | inl ((name, parent, parent_info), up) ↦
            let (same, above) = step_up-found files inode info parent_info name parent up in
            let (r, ends) =
              chain_total stop files at_root climbing fuel parent parent_info above
                (ground (arith, climbing inode)) in
            let (r', pushed) = push_name-some name r in
            (r', rw (chain, on) (rw up (rw ends pushed)))
        | inr (inl (e, failed)) ↦ (err e, rw (chain, on) (rw failed refl))
        | inr (inr failed) ↦ (panic, rw (chain, on) (rw failed refl))
      ]
    ]

opened-there :
    (s : Scheme) (fd inode : ℕ) (info : File)
    → (opened fd s).0 ≡ ok (inode, info)
    → Map.get s.filesystem.files inode ≡ some info
opened-there s fd inode info h = elim (Result-cases (HandleMap.get s.handles fd)) [
  | inl (i, held) ↦ elim (Option-cases (Map.get s.filesystem.files i)) [
    | inl gone ↦ absurd (ground arith)
    | inr (f, there) ↦ ground arith
  ]
  | inr (inl (e, failed)) ↦ absurd (ground arith)
  | inr (inr failed) ↦ absurd (ground arith)
]

opened_below-there :
    (s : Scheme) (dir_id id dir_inode inode : ℕ) (info : File)
    → (opened_below dir_id id s).0 ≡ ok (dir_inode, inode, info)
    → Map.get s.filesystem.files inode ≡ some info
opened_below-there s dir_id id dir_inode inode info h =
    elim (Result-cases (HandleMap.get s.handles dir_id)) [
      | inl (d, held) ↦ elim (Result-cases (opened id s).0) [
        | inl ((i, f), here) ↦ opened-there s id inode info (ground arith)
        | inr (inl (e, failed)) ↦ absurd (ground arith)
        | inr (inr failed) ↦ absurd (ground arith)
      ]
      | inr (inl (e, failed)) ↦ absurd (ground arith)
      | inr (inr failed) ↦ absurd (ground arith)
    ]

pub fpath-ends :
    (s : Scheme) (fd : ℕ) (buf : Str)
    → Climbing s.filesystem.files
    → (r : Result ℕ × Str) × (fpath fd buf s ≡ some r)
unfolding fpath
fpath-ends s fd buf climbing = elim (Result-cases (opened fd s).0) [
  | inl ((inode, info), here) ↦
      let there = opened-there s fd inode info here in
      let (names, ends) =
        chain_total is_root s.filesystem.files refl climbing inode inode info there
          (ground arith) in
      rw (fpath, here) (rw ends (_, refl))
  | inr (inl (e, failed)) ↦ rw (fpath, failed) (_, refl)
  | inr (inr failed) ↦ rw (fpath, failed) (_, refl)
]

pub relpathat-ends :
    (s : Scheme) (dir_id id : ℕ) (path : Str)
    → Climbing s.filesystem.files
    → (r : Result ℕ × Str) × (relpathat dir_id id path s ≡ some r)
unfolding relpathat
relpathat-ends s dir_id id path climbing = elim (Result-cases (opened_below dir_id id s).0) [
  | inl ((dir_inode, inode, info), here) ↦
      let there = opened_below-there s dir_id id dir_inode inode info here in
      let stop = λ (i : ℕ). i == dir_inode || i == root_inode in
      let (names, ends) =
        chain_total stop s.filesystem.files (ground arith) climbing inode inode info there
          (ground arith) in
      elim (Result-cases names) [
        | inl (parts, e) ↦ rw (relpathat, here) (rw (ends, e) (_, refl))
        | inr (inl (error, e)) ↦ rw (relpathat, here) (rw (ends, e) (_, refl))
        | inr (inr e) ↦ rw (relpathat, here) (rw (ends, e) (_, refl))
      ]
  | inr (inl (e, failed)) ↦ rw (relpathat, failed) (_, refl)
  | inr (inr failed) ↦ rw (relpathat, failed) (_, refl)
]
