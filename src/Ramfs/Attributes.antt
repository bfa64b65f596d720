-- ===== src/Ramfs/Attributes.antt =====
-- Modes, owners and times of files in ramfs/src/scheme.rs. The size of a block, and the credentials
-- of a process as the bytes that the process manager writes, are parameters.
use eos_base.Base.{
  ℕ, ◌+◌, ◌-◌, ◌*◌, ◌/◌, ◌%◌, ◌^◌, ◌&&◌, ◌||◌, not, Option, none, some, List, [], ◌∷◌, ◌==◌, ltb,
  bit_and, bit_or, drop, if◌then◌else◌,
}
use eos_base.Base.Text.{Str}
use eos_base.Base.Int.{to_unsigned}
use eos_base.Base.Result.{
  Result, ok, err, panic, ebadfd, einval, eopnotsupp, eoverflow, eperm, lift, ok_or, ◌>>=◌, ◌>>◌,
}
use eos_base.Ramfs.{FsFlags, TimeSpec, File, CallerCtx, M, size, inode_of, file, put}

pub record Stat : Type 0 where
  pub st_mode : ℕ
  pub st_uid : ℕ
  pub st_gid : ℕ
  pub st_ino : ℕ
  pub st_nlink : ℕ
  pub st_size : ℕ
  pub st_blksize : ℕ
  pub st_blocks : ℕ
  pub st_atime : ℕ × ℕ
  pub st_ctime : ℕ × ℕ
  pub st_mtime : ℕ × ℕ

-- `StdFsCallKind`, of which one is handled.
pub data StdFsCallKind : Type 0 where
  fchown other : StdFsCallKind

-- The seconds as `u64`, and the nanoseconds.
abbrev pub unsigned_time : TimeSpec → Result (ℕ × ℕ)
unsigned_time t = elim (to_unsigned t.tv_sec) [
  | none ↦ err eoverflow
  | some sec ↦ ok (sec, t.tv_nsec)
]

-- `u64::next_multiple_of`, which divides, and wraps in a release build.
abbrev pub next_multiple_of : ℕ → ℕ → Result ℕ
next_multiple_of n m = if m == 0 then panic else ok ((n + (m - 1)) / m * m % 2 ^ 64)

module _ (fl : FsFlags) where
  unfoldable pub stat_of : ℕ → ℕ → File → M Stat
  stat_of block_size inode f = do
    nlink ← lift (if ltb f.nlink (2 ^ 32) then ok f.nlink else err eoverflow)
    blocks ← lift (next_multiple_of (size f.contents) block_size)
    atime ← lift (unsigned_time f.atime)
    ctime ← lift (unsigned_time f.ctime)
    mtime ← lift (unsigned_time f.mtime)
    lift (
        ok (record {
          st_mode = f.mode;
          st_uid = f.uid;
          st_gid = f.gid;
          st_ino = inode;
          st_nlink = nlink;
          st_size = size f.contents;
          st_blksize = block_size;
          st_blocks = blocks;
          st_atime = atime;
          st_ctime = ctime;
          st_mtime = mtime;
        }))

  unfoldable pub fstat : ℕ → ℕ → M Stat
  unfolding stat_of
  fstat block_size fd = do inode ← inode_of fd; f ← file inode ebadfd; stat_of block_size inode f

  unfoldable pub fchmod : ℕ → ℕ → M (Unit {0})
  fchmod fd mode = do
    inode ← inode_of fd
    f ← file inode ebadfd
    put inode (record f { mode = bit_or mode (bit_and f.mode fl.mode_type) })

  -- The argument is taken for an inode.
  unfoldable pub fchown_inode : ℕ → ℕ → ℕ → M (Unit {0})
  fchown_inode inode uid gid = do
    f ← file inode ebadfd
    put inode (record f { uid = uid; gid = gid })

  unfoldable pub futimens : ℕ → List TimeSpec → M (Unit {0})
  futimens fd [] = do inode ← inode_of fd; f ← file inode ebadfd; lift (err einval)
  futimens fd (_ ∷ []) = do inode ← inode_of fd; f ← file inode ebadfd; lift (err einval)
  futimens fd (new_atime ∷ new_mtime ∷ _) = do
    inode ← inode_of fd
    f ← file inode ebadfd
    put inode (record f { atime = new_atime; mtime = new_mtime })

  -- The first four bytes as a little-endian number.
  unfoldable pub first_u32 : Str → Result ℕ
  first_u32 (a ∷ b ∷ c ∷ d ∷ _) = ok (a + 2 ^ 8 * b + 2 ^ 16 * c + 2 ^ 24 * d)
  first_u32 _ = err einval

  unfoldable pub read_u32 : Str → ℕ → Result ℕ
  unfolding first_u32
  read_u32 buffer offset = first_u32 (drop offset buffer)

  -- The process, user and group of the credentials; an error of the call is EINVAL.
  unfoldable pub get_uid_gid_from_pid : Option Str → M (ℕ × ℕ × ℕ)
  unfolding read_u32
  get_uid_gid_from_pid credentials = do
    buffer ← lift (ok_or credentials einval)
    pid ← lift (read_u32 buffer 0)
    uid ← lift (read_u32 buffer 12)
    gid ← lift (read_u32 buffer 24)
    lift (ok (pid, uid, gid))

  -- `arg1` holds the new user in its low half and the new group in its high half.
  unfoldable pub std_fs_call : (ℕ → Option Str) → ℕ → StdFsCallKind → ℕ → CallerCtx → M ℕ
  unfolding get_uid_gid_from_pid fchown_inode
  std_fs_call credentials id other arg1 ctx = lift (err eopnotsupp)
  std_fs_call credentials id fchown arg1 ctx = do
    (_, uid, gid) ← get_uid_gid_from_pid (credentials ctx.pid)
    lift (
        if not (uid == 0) && (not (uid == ctx.uid) || not (gid == ctx.gid))
        then err eperm
        else ok tt)
    fchown_inode id (arg1 % 2 ^ 32) (arg1 / 2 ^ 32)
    lift (ok 0)
