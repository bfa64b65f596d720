-- ===== src/Ramfs/Contents.antt =====
-- Reading and writing files in ramfs/src/scheme.rs. Memory is a parameter: `room` tells whether
-- `try_reserve` finds that many bytes.
pub mod Bytes
pub mod Stored
use eos_base.Base.{
  ℕ, ◌+◌, ◌-◌, ◌^◌, Bool, ◌||◌, ◌++◌, ◌==◌, ltb, leb, min, bit_and, length, take, drop, replicate,
  if◌then◌else◌,
}
use eos_base.Base.Text.{Str}
use eos_base.Base.Result.{
  Result, ok, err, ebadf, ebadfd, eisdir, enomem, eoverflow, lift, ◌>>=◌, ◌>>◌,
}
use eos_base.Ramfs.{FsFlags, regular, directory, File, M, inode_of, file, put}

-- `bytes[offset..][..buf.len()].copy_from_slice(buf)`
abbrev pub overwrite : Str → ℕ → Str → Str
overwrite bytes offset buf = take offset bytes ++ (buf ++ drop (offset + length buf) bytes)

-- `resize(size, 0)`
unfoldable pub resize : Str → ℕ → Str
resize bytes size = take size bytes ++ replicate (size - length bytes) 0

module _ (fl : FsFlags) (room : ℕ → Bool) where
  abbrev pub is_dir : File → Bool
  is_dir f = bit_and f.mode fl.mode_type == fl.mode_dir

  abbrev pub readable : ℕ → Bool
  readable fcntl_flags =
      bit_and fcntl_flags fl.o_accmode == fl.o_rdonly
      || bit_and fcntl_flags fl.o_accmode == fl.o_rdwr

  -- The bytes that a read into a buffer of `len` bytes copies; all offsets fit `usize`.
  unfoldable pub read : ℕ → ℕ → ℕ → ℕ → M Str
  read fd len offset fcntl_flags = do
    inode ← inode_of fd
    f ← file inode ebadfd
    lift (if readable fcntl_flags then ok tt else err ebadf)
    elim f.contents [
      | directory _ ↦ lift (err eisdir)
      | regular bytes ↦
          if is_dir f
          then lift (err ebadfd)
          else lift (ok (take (min (length bytes - offset) len) (drop offset bytes)))
    ]

  -- Room for `additional` bytes, if there are any.
  abbrev pub reserve : ℕ → ℕ → Result (Unit {0})
  reserve wanted have =
      if ltb have wanted then (if room (wanted - have) then ok tt else err enomem) else ok tt

  unfoldable pub write_bytes : Str → ℕ → Str → Result Str
  unfolding resize
  write_bytes bytes offset buf =
      let end_off = offset + length buf in
      if leb (2 ^ 64) end_off
      then err eoverflow
      else if ltb (length bytes) end_off
      then (if room (end_off - length bytes)
          then ok (overwrite (resize bytes end_off) offset buf)
          else err enomem)
      else ok (overwrite bytes offset buf)

  unfoldable pub write : ℕ → Str → ℕ → M ℕ
  unfolding write_bytes
  write fd buf offset = do
    inode ← inode_of fd
    f ← file inode ebadfd
    elim f.contents [
      | directory _ ↦ lift (err eisdir)
      | regular bytes ↦ if is_dir f then lift (err ebadfd) else (do
        bytes' ← lift (write_bytes bytes offset buf)
        put inode (record f { contents = regular bytes' })
        lift (ok (length buf)))
    ]

  unfoldable pub ftruncate : ℕ → ℕ → M (Unit {0})
  unfolding resize
  ftruncate fd size = do
    inode ← inode_of fd
    f ← file inode ebadfd
    lift (if is_dir f then err eisdir else ok tt)
    elim f.contents [
      | directory _ ↦ lift (err ebadfd)
      | regular bytes ↦ (do
        lift (reserve size (length bytes))
        put inode (record f { contents = regular (resize bytes size) }))
    ]
