-- ===== src/Ramfs/Handles/Opening.antt =====
-- `openat` and `scheme_root` of ramfs/src/scheme.rs count the handles that they make.
use eos_base.Base.{
  ℕ, ◌+◌, ◌^◌, ◌<◌, ◌≡◌, ◌≢◌, refl, Bool, Option, none, some, arith, ltb, ◌&&◌, if◌then◌else◌,
  Bool-cases, Option-cases, inl, inr, ◌⊎◌, bit_or,
}
use eos_base.Base.Text.{Str}
use eos_base.Base.Map
use eos_base.Base.Map.{get-insert, get-remove}
use eos_base.Base.StrMap
use eos_base.Base.Result.{
  ok, err, panic, Result, Error, Exec, and_then, and_then-keeps, and_then-ensures, ok_or, eio,
  einval, ok_or-some, enfile, eexist,
}
use eos_base.SchemeUtils.HandleMap
use eos_base.Ramfs.Path.{resolve, resolve_except_last}
use eos_base.Ramfs.Permission.{check_permissions, current_perm}
use eos_base.Ramfs.Path.Walk.{resolve_except_last-found}
use eos_base.Ramfs.{
  FsFlags, TimeSpec, File, FileData-cases, directory, Filesystem, Scheme, CallerCtx, root_inode,
  set_files, add_handle, next_inode_number, scheme_root, wrapping_add,
}
use eos_base.Ramfs.Open.{
  open_existing, create, open_inode, openat, link, new_inode, any, new_mode, require_root, is_ok,
  check_kind, truncated,
}
use eos_base.Ramfs.Handles.{opens_of, Counted, IsCounted, weaken, put_file, add_handle-Counted}

-- The result of opening a file: if it is an inode, its handle is about to be made. The table of handles
-- is as it was.
record Opened (h : HandleMap.HandleMap ℕ) (r : Result ℕ × Scheme) : Type 0 where
  same : r.1.handles ≡ h
  state : IsCounted r.1
  next : (i : ℕ) → r.0 ≡ ok i → Counted (some i) r.1

failed : (e : Error) (s : Scheme) → IsCounted s → Opened s.handles (err e, s)
failed e s c = record { same = refl; state = c; next = λ i h. absurd (cc) }

panicked : (s : Scheme) → IsCounted s → Opened s.handles (panic, s)
panicked s c = record { same = refl; state = c; next = λ i h. absurd (cc) }

opened : (j : ℕ) (s : Scheme) → Counted (some j) s → Opened s.handles (ok j, s)
opened j s c = record {
  same = refl;
  state = weaken j s c;
  next = λ i h. let e : j ≡ i = cc in rw (← e) c;
}

-- A step of a chain that leaves the state alone.
step :
    {A : Type 0} (r : Result A) (k : A → Exec Scheme ℕ) (s : Scheme)
    → IsCounted s
    → ((a : A) → r ≡ ok a → Opened s.handles (k a s))
    → Opened s.handles (and_then r k s)
step r k s c rest =
    and_then-ensures (Opened s.handles) r k s (λ e. failed e s c) (panicked s c) rest

-- One more open of a file that is there, and the first of a new file.
open_file :
    (s : Scheme) (inode : ℕ) (g f : File)
    → IsCounted s
    → Map.get s.filesystem.files inode ≡ some g
    → f.open_handles ≡ wrapping_add g.open_handles 1
    → (inode ≢ root_inode → g.open_handles + 1 < 2 ^ 64)
    → f.parent ≡ g.parent
    → Counted (some inode) (set_files (λ files. Map.insert files inode f) s)
open_file s inode g f c found more fits above = record {
  valid = c.valid;
  keyed = c.keyed;
  counted = λ i ne. ground (arith, c.counted i ne, get-insert s.filesystem.files inode f i);
  bounded = λ i. ground (arith, c.bounded i, get-insert s.filesystem.files inode f i);
  numbered = λ i new. ground (arith, c.numbered i new, get-insert s.filesystem.files inode f i);
  rooted = λ i. ground (arith, c.rooted i, get-insert s.filesystem.files inode f i);
}

new_file :
    (s : Scheme) (f : File)
    → IsCounted s
    → f.open_handles ≡ 1
    → f.parent < s.filesystem.last_inode_number + 1
    → let n = s.filesystem.last_inode_number + 1 in
      Counted (some n) (record s {
        filesystem = record { files = Map.insert s.filesystem.files n f; last_inode_number = n };
      })
new_file s f c one above =
    let n = s.filesystem.last_inode_number + 1 in
    record {
      valid = c.valid;
      keyed = c.keyed;
      counted =
          λ i ne. ground (arith, c.counted i ne, c.numbered n, get-insert s.filesystem.files n f i);
      bounded = λ i. ground (arith, c.bounded i, get-insert s.filesystem.files n f i);
      numbered = λ i new. ground (arith, c.numbered i, get-insert s.filesystem.files n f i);
      rooted = λ i. ground (arith, c.rooted i, above, get-insert s.filesystem.files n f i);
    }

-- An inode number that is spent.
spend :
    (s : Scheme)
    → IsCounted s
    → IsCounted (record s {
      filesystem = record s.filesystem { last_inode_number = s.filesystem.last_inode_number + 1 };
    })
spend s c = record {
  valid = c.valid;
  keyed = c.keyed;
  counted = c.counted;
  bounded = c.bounded;
  numbered = λ i new. c.numbered i (omega arith);
  rooted = c.rooted;
}

pub next_inode_number-cases :
    (fs : Filesystem)
    → (next_inode_number fs ≡ (
      ok (fs.last_inode_number + 1),
      record fs { last_inode_number = fs.last_inode_number + 1 },
    ))
      ⊎ (next_inode_number fs ≡ (err enfile, fs))
unfolding next_inode_number
next_inode_number-cases fs = elim (Bool-cases (ltb (fs.last_inode_number + 1) (2 ^ 64))) [
  | inl fits ↦ inl (ground arith)
  | inr full ↦ inr (ground arith)
]

module _ (fl : FsFlags) where
  open_existing-Opened :
      (s : Scheme) (path : Str) (flags uid gid : ℕ)
      → IsCounted s
      → ((i : ℕ) → i ≢ root_inode → opens_of (Map.get s.filesystem.files i) + 1 < 2 ^ 64)
      → Opened s.handles (open_existing fl path flags uid gid s)
  unfolding open_existing
  open_existing-Opened s path flags uid gid c few =
      step (resolve fl s.filesystem uid gid path) _ s c λ inode _.
        step (ok_or (Map.get s.filesystem.files inode) eio) _ s c λ f found.
          step (check_kind fl f flags) _ s c λ _ _.
            step (check_permissions fl flags (current_perm fl f uid gid)) _ s c λ _ _.
              step (truncated fl f.contents flags) _ s c λ contents _.
                let there = ok_or-some (Map.get s.filesystem.files inode) eio f found in
                opened inode _ (
                  open_file s inode f
                    (record f { contents = contents; open_handles = wrapping_add f.open_handles 1 })
                    c there refl (λ ne. ground (arith, few inode ne)) refl)

  link-Opened :
      (s : Scheme) (parent n : ℕ) (name : Str)
      → Counted (some n) s
      → Opened s.handles
          (and_then (link fl parent name n s).0 (λ _ s'. (ok n, s')) (link fl parent name n s).1)
  unfolding link
  link-Opened s parent n name c = elim (Option-cases (Map.get s.filesystem.files parent)) [
    | inl nothing ↦ rw (link, nothing) (failed eio s (weaken n s c))
    | inr (f, found) ↦ elim (FileData-cases f.contents) [
      | inl (bytes, plain) ↦ rw (link, found) (rw plain (failed eio s (weaken n s c)))
      | inr (entries, dir) ↦
          rw (link, found)
            (rw dir (
              opened n _ (
                put_file s (some n) parent f
                  (record f { contents = directory (StrMap.insert entries name n) }) c found refl
                  refl)))
    ]
  ]

  -- The directory that a path names is there, so its number is given out.
  parent_below :
      (s : Scheme) (path : Str) (uid gid : ℕ) (place : ℕ × Option Str)
      → IsCounted s
      → resolve_except_last fl s.filesystem uid gid path ≡ ok place
      → place.0 < s.filesystem.last_inode_number + 1
  parent_below s path uid gid place c found =
      let (f, there) = resolve_except_last-found fl s.filesystem uid gid path place found in
      ground (arith, c.numbered place.0)

  create-Opened :
      (s : Scheme) (path : Str) (flags : ℕ) (ctx : CallerCtx) (current_time : TimeSpec)
      → IsCounted s
      → Opened s.handles (create fl path flags ctx current_time s)
  unfolding create new_inode
  create-Opened s path flags ctx current_time c =
      step (if any fl flags fl.o_stat then err einval else ok tt) _ s c λ _ _.
        step (resolve_except_last fl s.filesystem ctx.uid ctx.gid path) _ s c λ place found.
          step (ok_or place.1 einval) _ s c λ new_name _.
            elim (next_inode_number-cases s.filesystem) [
              | inr full ↦ rw full (failed enfile s c)
              | inl taken ↦
                  let above = parent_below s path ctx.uid ctx.gid place c found in
                  let n = s.filesystem.last_inode_number + 1 in
                  let s1 = record s {
                    filesystem = record s.filesystem { last_inode_number = n };
                  } in
                  rw taken (
                    step (new_mode fl flags) _ s1 (spend s c) λ mode _.
                      let f = new_inode fl flags mode place.0 ctx current_time in
                      step (check_permissions fl flags (current_perm fl f ctx.uid ctx.gid)) _ s1
                        (spend s c)
                        λ _ _. link-Opened _ place.0 n new_name (new_file s f c refl above))
            ]

  open_inode-Opened :
      (s : Scheme) (path : Str) (flags fcntl_flags : ℕ) (ctx : CallerCtx) (current_time : TimeSpec)
      (exists : Bool)
      → IsCounted s
      → ((i : ℕ) → i ≢ root_inode → opens_of (Map.get s.filesystem.files i) + 1 < 2 ^ 64)
      → Opened s.handles (open_inode fl path flags fcntl_flags ctx current_time exists s)
  unfolding open_inode
  open_inode-Opened s path flags fcntl_flags ctx current_time exists c few =
      elim (Bool-cases (any fl flags fl.o_creat)) [
        | inr plain ↦
            rw (open_inode, plain)
              (open_existing-Opened s path (bit_or flags fcntl_flags) ctx.uid ctx.gid c few)
        | inl creates ↦ elim (Bool-cases exists) [
          | inl old ↦
              rw (open_inode, creates, old)
                (open_existing-Opened s path flags ctx.uid ctx.gid c few)
          | inr new ↦ rw (open_inode, creates, new) (create-Opened s path flags ctx current_time c)
        ]
      ]

  -- A valid table of handles and counted opens stay so when `openat` opens or makes a file, or fails,
  -- if neither the table nor the opens of a file other than the root are at the limit.
  pub openat-IsCounted :
      (s : Scheme) (dirfd : ℕ) (path : Str) (flags fcntl_flags : ℕ) (ctx : CallerCtx)
      (current_time : TimeSpec)
      → IsCounted s
      → ((i : ℕ) → i ≢ root_inode → opens_of (Map.get s.filesystem.files i) + 1 < 2 ^ 64)
      → Map.size s.handles.handles + 1 < 2 ^ 64
      → IsCounted (openat fl dirfd path flags fcntl_flags ctx current_time s).1
  unfolding openat
  openat-IsCounted s dirfd path flags fcntl_flags ctx current_time c few small =
      and_then-keeps IsCounted (HandleMap.get s.handles dirfd) _ s c λ dir _.
        and_then-keeps IsCounted (require_root fl dir) _ s c λ _ _.
          and_then-keeps IsCounted (is_ok fl (resolve fl s.filesystem 0 0 path)) _ s c λ exists _.
            and_then-keeps IsCounted
              (if any fl flags fl.o_creat && (any fl flags fl.o_excl && exists)
                then err eexist
                else ok tt)
              _ s c
              λ _ _.
                let r = open_inode fl path flags fcntl_flags ctx current_time exists s in
                let o = open_inode-Opened s path flags fcntl_flags ctx current_time exists c few in
                and_then-keeps IsCounted r.0 _ r.1 o.state λ inode done.
                  let added =
                    add_handle-Counted r.1 (some inode) inode (o.next inode done) (inr refl)
                      (rw o.same small) in
                  and_then-keeps IsCounted (add_handle inode r.1).0 _ (add_handle inode r.1).1 added
                    λ _ _. added

-- A handle of the root is not counted.
pub scheme_root-IsCounted :
    (s : Scheme)
    → IsCounted s
    → Map.size s.handles.handles + 1 < 2 ^ 64
    → IsCounted (scheme_root s).1
unfolding scheme_root
scheme_root-IsCounted s c small = add_handle-Counted s none root_inode c (inl refl) small
