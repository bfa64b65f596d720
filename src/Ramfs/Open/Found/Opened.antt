-- ===== src/Ramfs/Open/Found/Opened.antt =====
-- What `openat` of ramfs/src/scheme.rs opens is found by its path, and its handle names it.
use eos_base.Base.{
  Option-cases, refl, ◌&&◌, ℕ, ◌+◌, ◌≡◌, ◌∙◌, ap, Bool, none, some, arith, Bool-cases, inl, inr,
  if◌then◌else◌, bit_or,
}
use eos_base.Base.Text.{Str}
use eos_base.Base.Map
use eos_base.Base.Map.{get-insert}
use eos_base.Base.Result.{
  Result, ok, err, Error, Exec, and_then, and_then-ensures, ok_or, ok_or-some, eio, einval,
  Result-cases,
}
use eos_base.Ramfs.{FsFlags, TimeSpec, File, FileData-cases, Scheme, CallerCtx, set_files}
use eos_base.Ramfs.Permission.{current_perm, check_permissions}
use eos_base.Ramfs.Path.{resolve, resolve_except_last}
use eos_base.Ramfs.Path.Last.{Reached, resolve_except_last-Reached}
use eos_base.Base.Syscall.{OpenResult, this_scheme}
use eos_base.SchemeUtils.HandleMap
use eos_base.SchemeUtils.HandleMap.Laws.{insert-names}
use eos_base.Base.Result.{eexist}
use eos_base.Ramfs.{add_handle, wrapping_add}
use eos_base.Ramfs.Open.{
  openat, require_root, open_existing, create, open_inode, is_ok, truncated, check_kind, link,
  new_inode, new_mode, any,
}
use eos_base.Ramfs.Open.Found.{resolve-Extends, put-Extends, truncated-directory}
use eos_base.Ramfs.Open.Found.Created.{resolve-with_file}
use eos_base.Ramfs.Handles.{IsCounted}
use eos_base.Ramfs.Handles.Opening.{next_inode_number-cases}

module _ (fl : FsFlags) (path : Str) where
  -- The inode that is opened is what the path names then.
  abbrev pub Finds : Result ℕ × Scheme → Type 0
  Finds r = (i : ℕ) → r.0 ≡ ok i → resolve fl r.1.filesystem 0 0 path ≡ ok i

  step :
      {A : Type 0} (r : Result A) (k : A → Exec Scheme ℕ) (s : Scheme)
      → ((a : A) → r ≡ ok a → Finds (k a s))
      → Finds (and_then r k s)
  step r k s rest = and_then-ensures Finds r k s (λ e i h. absurd (cc)) (λ i h. absurd (cc)) rest

  open_existing-Finds :
      (s : Scheme) (flags uid gid : ℕ) → Finds (open_existing fl path flags uid gid s)
  unfolding open_existing
  open_existing-Finds s flags uid gid =
      step (resolve fl s.filesystem uid gid path) _ s λ inode found.
        step (ok_or (Map.get s.filesystem.files inode) eio) _ s λ f held.
          step (check_kind fl f flags) _ s λ _ _.
            step (check_permissions fl flags (current_perm fl f uid gid)) _ s λ _ _.
              step (truncated fl f.contents flags) _ s λ contents cut i h.
                let there = ok_or-some (Map.get s.filesystem.files inode) eio f held in
                let f' = record f {
                  contents = contents;
                  open_handles = wrapping_add f.open_handles 1;
                } in
                let e : inode ≡ i = ground (arith, h) in
                rw (← e) (
                  resolve-Extends fl s.filesystem
                    (set_files (λ files. Map.insert files inode f') s).filesystem uid gid path inode
                    (put-Extends fl s inode f f' there
                      (λ d dir. truncated-directory fl f.contents contents flags d cut dir))
                    found)

  -- The state behind the new file and before its link.
  abbrev pub with_new : Scheme → ℕ → File → Scheme
  with_new s n f = record s {
    filesystem = record { files = Map.insert s.filesystem.files n f; last_inode_number = n };
  }

  link-Finds :
      (s : Scheme) (n : ℕ) (f : File) (parent : ℕ) (name : Str) (uid gid : ℕ) (e : Error)
      → Map.get s.filesystem.files n ≡ none
      → Reached fl s.filesystem uid gid path parent name
      → resolve fl s.filesystem 0 0 path ≡ err e
      → Finds (
          and_then
            (link fl parent name n (with_new s n f)).0
            (λ _ s'. (ok n, s'))
            (link fl parent name n (with_new s n f)).1)
  unfolding link
  link-Finds s n f parent name uid gid e new q missing =
      let there : Map.get (Map.insert s.filesystem.files n f) parent ≡ some q.parent =
        ground (arith, q.there, new, get-insert s.filesystem.files n f parent) in
      elim (FileData-cases q.parent.contents) [
        | inl (bytes, plain) ↦ rw (link, there) (rw plain (λ i h. absurd (cc)))
        | inr (entries, dir) ↦
            rw (link, there)
              (rw dir (λ i h.
                let same : n ≡ i = ground (arith, h) in
                rw (← same) (
                  resolve-with_file fl s.filesystem n f parent q.parent entries name new q.there dir
                    uid gid path e q missing)))
      ]

  create-Finds :
      (s : Scheme) (flags : ℕ) (ctx : CallerCtx) (current_time : TimeSpec) (e : Error)
      → IsCounted s
      → resolve fl s.filesystem 0 0 path ≡ err e
      → Finds (create fl path flags ctx current_time s)
  unfolding create new_inode link
  create-Finds s flags ctx current_time e c missing =
      step (if any fl flags fl.o_stat then err einval else ok tt) _ s λ _ _.
        step (resolve_except_last fl s.filesystem ctx.uid ctx.gid path) _ s λ place found.
          step (ok_or place.1 einval) _ s λ name named.
            elim (next_inode_number-cases s.filesystem) [
              | inr full ↦ rw full (λ i h. absurd (cc))
              | inl taken ↦
                  let n = s.filesystem.last_inode_number + 1 in
                  let s1 = record s {
                    filesystem = record s.filesystem { last_inode_number = n };
                  } in
                  rw taken (
                    step (new_mode fl flags) _ s1 λ mode _.
                      let f = new_inode fl flags mode place.0 ctx current_time in
                      step (check_permissions fl flags (current_perm fl f ctx.uid ctx.gid)) _ s1
                        λ _ _.
                          link-Finds s n f place.0 name ctx.uid ctx.gid e
                            (c.numbered n (omega arith))
                            (resolve_except_last-Reached fl s.filesystem ctx.uid ctx.gid path
                              place.0 name
                              (found
                                ∙ ap (λ l. ok (place.0, l)) (ok_or-some place.1 einval name named)))
                            missing)
            ]

  open_inode-Finds :
      (s : Scheme) (flags fcntl_flags : ℕ) (ctx : CallerCtx) (current_time : TimeSpec)
      (exists : Bool)
      → IsCounted s
      → is_ok fl (resolve fl s.filesystem 0 0 path) ≡ ok exists
      → Finds (open_inode fl path flags fcntl_flags ctx current_time exists s)
  unfolding open_inode
  open_inode-Finds s flags fcntl_flags ctx current_time exists c known =
      elim (Bool-cases (any fl flags fl.o_creat)) [
        | inr plain ↦
            rw (open_inode, plain)
              (open_existing-Finds s (bit_or flags fcntl_flags) ctx.uid ctx.gid)
        | inl creates ↦ elim (Bool-cases exists) [
          | inl old ↦ rw (open_inode, creates, old) (open_existing-Finds s flags ctx.uid ctx.gid)
          | inr new ↦ elim (Result-cases (resolve fl s.filesystem 0 0 path)) [
            | inl (i, there) ↦ absurd (ground (arith, known, there, new))
            | inr (inl (e, missing)) ↦
                rw (open_inode, creates, new) (create-Finds s flags ctx current_time e c missing)
            | inr (inr panics) ↦ absurd (ground (arith, known, panics, new))
          ]
        ]
      ]

  add_handle-names :
      (s : Scheme) (inode id : ℕ)
      → (add_handle inode s).0 ≡ ok id
      → (Map.get (add_handle inode s).1.handles.handles id ≡ some inode)
        × ((add_handle inode s).1.filesystem ≡ s.filesystem)
  add_handle-names s inode id h = elim (Option-cases (HandleMap.insert s.handles inode)) [
    | inl loops ↦ absurd (ground (arith, loops))
    | inr ((i, handles), inserted) ↦
        rw (add_handle, inserted)
          (ground (arith, h, insert-names s.handles inode i handles inserted), refl)
  ]

  -- A handle that `openat` gives names a file that the path names then.
  pub openat-found :
      (s : Scheme) (dirfd flags fcntl_flags : ℕ) (ctx : CallerCtx) (current_time : TimeSpec)
      (id : ℕ)
      → IsCounted s
      → (openat fl dirfd path flags fcntl_flags ctx current_time s).0 ≡ ok (this_scheme id)
      → let s' = (openat fl dirfd path flags fcntl_flags ctx current_time s).1 in
        (i : ℕ) × (Map.get s'.handles.handles id ≡ some i)
        × (resolve fl s'.filesystem 0 0 path ≡ ok i)
  unfolding openat
  openat-found s dirfd flags fcntl_flags ctx current_time id c =
      let Q : Result OpenResult × Scheme → Type 0 = λ r.
        r.0 ≡ ok (this_scheme id)
        → (i : ℕ) × (Map.get r.1.handles.handles id ≡ some i)
          × (resolve fl r.1.filesystem 0 0 path ≡ ok i) in
      and_then-ensures Q (HandleMap.get s.handles dirfd) _ s (λ e h. absurd (cc)) (λ h. absurd (cc))
        λ dir _.
          and_then-ensures Q (require_root fl dir) _ s (λ e h. absurd (cc)) (λ h. absurd (cc))
            λ _ _.
              and_then-ensures Q (is_ok fl (resolve fl s.filesystem 0 0 path)) _ s
                (λ e h. absurd (cc)) (λ h. absurd (cc))
                λ exists known.
                  and_then-ensures Q
                    (if any fl flags fl.o_creat && (any fl flags fl.o_excl && exists)
                      then err eexist
                      else ok tt)
                    _ s (λ e h. absurd (cc)) (λ h. absurd (cc))
                    λ _ _.
                      let r = open_inode fl path flags fcntl_flags ctx current_time exists s in
                      and_then-ensures Q r.0 _ r.1 (λ e h. absurd (cc)) (λ h. absurd (cc))
                        λ inode done.
                          and_then-ensures Q (add_handle inode r.1).0 _ (add_handle inode r.1).1
                            (λ e h. absurd (cc)) (λ h. absurd (cc))
                            λ new_id added h.
                              let same : new_id ≡ id = ground (arith, h) in
                              let (named, files) = add_handle-names r.1 inode new_id added in
                              (
                                inode,
                                rw (← same) named,
                                rw files (
                                    open_inode-Finds s flags fcntl_flags ctx current_time exists c
                                      known inode done),
                              )
