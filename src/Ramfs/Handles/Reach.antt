-- ===== src/Ramfs/Handles/Reach.antt =====
-- All requests to ramfs/src/scheme.rs in any order, from the start on.
use eos_base.Base.{
  ℕ, ◌+◌, ◌^◌, ◌<◌, ◌≡◌, ◌≢◌, refl, Bool, not, ◌&&◌, ◌||◌, ◌==◌, Option, none, some, List, [], ◌∷◌,
  arith, if◌then◌else◌, ◌%◌, ◌/◌, Option-cases, inl, inr,
}
use eos_base.Base.Text.{Str}
use eos_base.Base.Map
use eos_base.Base.Map.Count.{count, count-remove, IsKeyed}
use eos_base.Base.Result.{Result, ok, err, eperm, einval, ebadfd, ok_or, and_then-keeps}
use eos_base.SchemeUtils.HandleMap
use eos_base.Ramfs
use eos_base.Ramfs.{FsFlags, TimeSpec, File, Scheme, CallerCtx, root_inode, scheme_root}
use eos_base.Ramfs.Open.{openat, on_close}
use eos_base.Ramfs.Remove.{unlinkat}
use eos_base.Ramfs.Contents.{write, ftruncate}
use eos_base.Ramfs.Attributes.{
  StdFsCallKind, fchown, other, fchmod, fchown_inode, futimens, std_fs_call, get_uid_gid_from_pid,
  read_u32,
}
use eos_base.Ramfs.Names.{fpath, relpathat}
use eos_base.Ramfs.Names.Ends.{fpath-ends, relpathat-ends}
use eos_base.Base.Syscall.{this_scheme}
use eos_base.Ramfs.Path.{resolve}
use eos_base.Ramfs.Open.Found.Opened.{openat-found}
use eos_base.Ramfs.Handles.{names, opens_of, IsCounted, on_close-IsCounted}
use eos_base.Ramfs.Handles.Opening.{openat-IsCounted, scheme_root-IsCounted}
use eos_base.Ramfs.Handles.Changes.{
  unlinkat-IsCounted, write-IsCounted, ftruncate-IsCounted, fchmod-IsCounted,
  fchown_inode-IsCounted, futimens-IsCounted,
}

-- The requests that change the state.
pub data Request : Type 0 where
  root : Request
  opens : ℕ → Str → ℕ → ℕ → CallerCtx → TimeSpec → Request
  unlinks : ℕ → Str → ℕ → CallerCtx → Request
  writes : ℕ → Str → ℕ → Request
  truncates : ℕ → ℕ → Request
  changes_mode : ℕ → ℕ → Request
  changes_times : ℕ → List TimeSpec → Request
  calls : ℕ → StdFsCallKind → ℕ → CallerCtx → Request
  closes : ℕ → Request

module _ (fl : FsFlags) (room : ℕ → Bool) (credentials : ℕ → Option Str) where
  unfoldable pub handle : Request → Scheme → Scheme
  handle root s = (scheme_root s).1
  handle (opens dirfd path flags fcntl_flags ctx time) s =
      (openat fl dirfd path flags fcntl_flags ctx time s).1
  handle (unlinks dirfd path flags ctx) s = (unlinkat fl dirfd path flags ctx s).1
  handle (writes fd buf offset) s = (write fl room fd buf offset s).1
  handle (truncates fd size) s = (ftruncate fl room fd size s).1
  handle (changes_mode fd mode) s = (fchmod fl fd mode s).1
  handle (changes_times fd times) s = (futimens fl fd times s).1
  handle (calls id kind arg1 ctx) s = (std_fs_call fl credentials id kind arg1 ctx s).1
  handle (closes fd) s = on_close fd s

  -- The numbers of the machine are not used up: one more handle fits the table, and one more open the
  -- count of each file. The count of the root is free to wrap, since closing a handle that
  -- `scheme_root` gave takes one off it that nothing has added.
  pub record HasRoom (s : Scheme) : Type 0 where
    pub table : Map.size s.handles.handles + 1 < 2 ^ 64
    pub opens : (i : ℕ) → i ≢ root_inode → opens_of (Map.get s.filesystem.files i) + 1 < 2 ^ 64

  -- What requests make of a state.
  pub data Reach (s : Scheme) : Scheme → Type 0 where
    here : Reach s s
    next : {t : Scheme} → Reach s t → HasRoom t → (r : Request) → Reach s (handle r t)

  futimens_any-IsCounted :
      (fd : ℕ) (times : List TimeSpec) (s : Scheme)
      → IsCounted s
      → IsCounted (futimens fl fd times s).1
  unfolding futimens
  futimens_any-IsCounted fd [] s c =
      and_then-keeps IsCounted (HandleMap.get s.handles fd) _ s c λ inode _.
        and_then-keeps IsCounted (ok_or (Map.get s.filesystem.files inode) ebadfd) _ s c λ f _. c
  futimens_any-IsCounted fd (a ∷ []) s c =
      and_then-keeps IsCounted (HandleMap.get s.handles fd) _ s c λ inode _.
        and_then-keeps IsCounted (ok_or (Map.get s.filesystem.files inode) ebadfd) _ s c λ f _. c
  futimens_any-IsCounted fd (a ∷ m ∷ rest) s c = futimens-IsCounted fl s fd a m rest c

  credentials-state : (buffer : Option Str) (s : Scheme) → (get_uid_gid_from_pid fl buffer s).1 ≡ s
  unfolding get_uid_gid_from_pid
  credentials-state buffer s =
      and_then-keeps (λ t. t ≡ s) (ok_or buffer einval) _ s refl
        λ b _.
          and_then-keeps (λ t. t ≡ s) (read_u32 fl b 0) _ s refl
            λ _ _.
              and_then-keeps (λ t. t ≡ s) (read_u32 fl b 12) _ s refl
                λ _ _. and_then-keeps (λ t. t ≡ s) (read_u32 fl b 24) _ s refl λ _ _. refl

  std_fs_call-IsCounted :
      (id : ℕ) (kind : StdFsCallKind) (arg1 : ℕ) (ctx : CallerCtx) (s : Scheme)
      → IsCounted s
      → IsCounted (std_fs_call fl credentials id kind arg1 ctx s).1
  unfolding std_fs_call
  std_fs_call-IsCounted id other arg1 ctx s c = c
  std_fs_call-IsCounted id fchown arg1 ctx s c =
      let got = get_uid_gid_from_pid fl (credentials ctx.pid) s in
      let same = credentials-state (credentials ctx.pid) s in
      let c' : IsCounted got.1 = rw same c in
      and_then-keeps IsCounted got.0 _ got.1 c' λ ids _.
        and_then-keeps IsCounted
          (if not (ids.1 == 0) && (not (ids.1 == ctx.uid) || not (ids.2 == ctx.gid))
            then err eperm
            else ok tt)
          _ got.1 c'
          λ _ _.
            let c2 = fchown_inode-IsCounted fl got.1 id (arg1 % 2 ^ 32) (arg1 / 2 ^ 32) c' in
            and_then-keeps IsCounted (fchown_inode fl id (arg1 % 2 ^ 32) (arg1 / 2 ^ 32) got.1).0 _
              (fchown_inode fl id (arg1 % 2 ^ 32) (arg1 / 2 ^ 32) got.1).1 c2 λ _ _. c2

  handle-IsCounted : (r : Request) (s : Scheme) → HasRoom s → IsCounted s → IsCounted (handle r s)
  unfolding handle
  handle-IsCounted root s room_left c = scheme_root-IsCounted s c room_left.table
  handle-IsCounted (opens dirfd path flags fcntl_flags ctx time) s room_left c =
      openat-IsCounted fl s dirfd path flags fcntl_flags ctx time c room_left.opens room_left.table
  handle-IsCounted (unlinks dirfd path flags ctx) s room_left c =
      unlinkat-IsCounted fl s dirfd path flags ctx c
  handle-IsCounted (writes fd buf offset) s room_left c = write-IsCounted fl room s fd buf offset c
  handle-IsCounted (truncates fd size) s room_left c = ftruncate-IsCounted fl room s fd size c
  handle-IsCounted (changes_mode fd mode) s room_left c = fchmod-IsCounted fl s fd mode c
  handle-IsCounted (changes_times fd times) s room_left c = futimens_any-IsCounted fd times s c
  handle-IsCounted (calls id kind arg1 ctx) s room_left c =
      std_fs_call-IsCounted id kind arg1 ctx s c
  handle-IsCounted (closes fd) s room_left c = on_close-IsCounted s fd c

  Reach-IsCounted : {s t : Scheme} → IsCounted s → Reach s t → IsCounted t
  Reach-IsCounted c here = c
  Reach-IsCounted c (next {t} r room_left q) = handle-IsCounted q t room_left (Reach-IsCounted c r)

  root_files :
      (time : TimeSpec) (name : Str) (i : ℕ)
      → (opens_of (Map.get (Ramfs.new fl time name).filesystem.files i) ≡ 0)
        × (1 < i → Map.get (Ramfs.new fl time name).filesystem.files i ≡ none)
  unfolding Ramfs.new Ramfs.create_root_inode Map.get
  root_files time name i = (ground arith, λ large. ground arith)

  new-IsCounted : (time : TimeSpec) (name : Str) → IsCounted (Ramfs.new fl time name)
  unfolding Ramfs.new Map.get IsKeyed count
  new-IsCounted time name = record {
    valid = record { in_range = ground arith; unused = refl };
    keyed = tt;
    counted = λ i ne. ground arith;
    bounded = λ i. ground (arith, (root_files time name i).0);
    numbered = λ i large. (root_files time name i).1 large;
    rooted = λ i. ground (arith, root_files time name i);
  }

  -- After any requests from the start on, as long as the table of handles is not full and no file
  -- but the root has 2 ^ 64 - 1 opens, the file of each open handle, other than the root's, is there
  -- and counts the handle.
  pub Reach-file :
      (time : TimeSpec) (name : Str) (s : Scheme) (fd inode : ℕ)
      → Reach (Ramfs.new fl time name) s
      → Map.get s.handles.handles fd ≡ some inode
      → inode ≢ root_inode
      → (f : File) × (Map.get s.filesystem.files inode ≡ some f) × (0 < f.open_handles)
  Reach-file time name s fd inode r held ne =
      let c = Reach-IsCounted (new-IsCounted time name) r in
      let one = count-remove (names inode) s.handles.handles fd inode c.keyed held in
      elim (Option-cases (Map.get s.filesystem.files inode)) [
        | inl gone ↦ absurd (ground (arith, c.counted inode ne, one))
        | inr (f, there) ↦ (f, there, ground (arith, c.counted inode ne, one))
      ]

  -- After any requests from the start on, as long as the table of handles is not full and no file
  -- but the root has 2 ^ 64 - 1 opens, the loops of `fpath` and of `relpathat` end: both give a
  -- result, whatever the handles and the buffer.
  pub Reach-path :
      (time : TimeSpec) (name : Str) (s : Scheme) (dir_id fd : ℕ) (buf : Str)
      → Reach (Ramfs.new fl time name) s
      → ((r : Result ℕ × Str) × (fpath fd buf s ≡ some r))
        × ((r : Result ℕ × Str) × (relpathat dir_id fd buf s ≡ some r))
  Reach-path time name s dir_id fd buf r =
      let c = Reach-IsCounted (new-IsCounted time name) r in
      (fpath-ends s fd buf c.rooted, relpathat-ends s dir_id fd buf c.rooted)

  -- After any requests from the start on, as long as the table of handles is not full and no file
  -- but the root has 2 ^ 64 - 1 opens: when `openat` gives a handle, whether of a file that it made or
  -- of one that was there, the handle names an inode, and the path names the same inode then.
  pub Reach-openat :
      (time : TimeSpec) (name : Str) (s : Scheme) (dirfd : ℕ) (path : Str) (flags fcntl_flags : ℕ)
      (ctx : CallerCtx) (current_time : TimeSpec) (id : ℕ)
      → Reach (Ramfs.new fl time name) s
      → (openat fl dirfd path flags fcntl_flags ctx current_time s).0 ≡ ok (this_scheme id)
      → let s' = (openat fl dirfd path flags fcntl_flags ctx current_time s).1 in
        (i : ℕ) × (Map.get s'.handles.handles id ≡ some i)
        × (resolve fl s'.filesystem 0 0 path ≡ ok i)
  Reach-openat time name s dirfd path flags fcntl_flags ctx current_time id r =
      openat-found fl path s dirfd flags fcntl_flags ctx current_time id
        (Reach-IsCounted (new-IsCounted time name) r)
