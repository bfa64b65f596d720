-- ===== src/Ramfs/Contents/Stored.antt =====
-- The handlers that read and write files, against arrays of bytes.
use eos_base.Base.{
  ℕ, ◌+◌, ◌-◌, ◌<◌, ◌≡◌, ◌≢◌, refl, Bool, true, false, some, arith, min, max, length, take, drop,
  length-take, length-drop, inl, inr, ◌==◌, bit_and,
}
use eos_base.Base.Text.{Str}
use eos_base.Base.Map
use eos_base.Base.Map.{get-insert}
use eos_base.Base.Result.{ok, err, panic, Result-cases}
use eos_base.SchemeUtils.HandleMap
use eos_base.Ramfs.{FsFlags, regular, File, Scheme}
use eos_base.Ramfs.Contents.{readable, read, write, write_bytes}
use eos_base.Ramfs.Contents.Bytes.{at, at-take, at-drop, stored, write_bytes-stored}

-- The handle `fd` is open for the regular file `f` with these bytes.
pub record IsOpen (fl : FsFlags) (s : Scheme) (fd inode : ℕ) (f : File) (bytes : Str) : Type 0 where
  pub handle : HandleMap.get s.handles fd ≡ ok inode
  pub there : Map.get s.filesystem.files inode ≡ some f
  pub plain : f.contents ≡ regular bytes
  pub kind : (bit_and f.mode fl.mode_type == fl.mode_dir) ≡ false

module _ (fl : FsFlags) (room : ℕ → Bool) where
  write-bytes :
      (s : Scheme) (fd inode : ℕ) (f : File) (bytes buf bytes' : Str) (offset : ℕ)
      → IsOpen fl s fd inode f bytes
      → write_bytes fl room bytes offset buf ≡ ok bytes'
      → write fl room fd buf offset s ≡ (
        ok (length buf),
        (record s {
          filesystem = record {
            files = Map.insert s.filesystem.files inode (record f { contents = regular bytes' });
            last_inode_number = s.filesystem.last_inode_number;
          };
        }),
      )
  unfolding write
  write-bytes s fd inode f bytes buf bytes' offset o w =
      rw (o.handle, o.there, o.plain, o.kind) (rw w)

  write-result :
      (s : Scheme) (fd inode : ℕ) (f : File) (bytes buf : Str) (offset : ℕ)
      → IsOpen fl s fd inode f bytes
      → (write fl room fd buf offset s).0 ≡ (elim (write_bytes fl room bytes offset buf) [
        | ok _ ↦ ok (length buf)
        | err e ↦ err e
        | panic ↦ panic
      ])
  unfolding write
  write-result s fd inode f bytes buf offset o =
      elim (Result-cases (write_bytes fl room bytes offset buf)) [
        | inl (b, w) ↦ rw (o.handle, o.there, o.plain, o.kind) (rw w)
        | inr (inl (e, w)) ↦ rw (o.handle, o.there, o.plain, o.kind) (rw w)
        | inr (inr w) ↦ rw (o.handle, o.there, o.plain, o.kind) (rw w)
      ]

  -- A write to an open file that returns has written all its bytes. The file is then the array of
  -- bytes that it was with these bytes in their place, it ends behind the write if it ended before,
  -- and no other file changes.
  pub write-stored :
      (s : Scheme) (fd inode : ℕ) (f : File) (bytes buf : Str) (offset n : ℕ)
      → IsOpen fl s fd inode f bytes
      → (write fl room fd buf offset s).0 ≡ ok n
      → let s' = (write fl room fd buf offset s).1 in
        (n ≡ length buf)
        × ((bytes' : Str) × IsOpen fl s' fd inode (record f { contents = regular bytes' }) bytes'
            × (length bytes' ≡ max (length bytes) (offset + length buf))
            × ((i : ℕ) → at bytes' i ≡ stored (at bytes) offset buf i))
        × ((j : ℕ) → inode ≢ j → Map.get s'.filesystem.files j ≡ Map.get s.filesystem.files j)
  write-stored s fd inode f bytes buf offset n o h =
      elim (Result-cases (write_bytes fl room bytes offset buf)) [
        | inr (inl (e, w)) ↦ absurd (cc (rw (write-result s fd inode f bytes buf offset o, w) at h))
        | inr (inr w) ↦ absurd (cc (rw (write-result s fd inode f bytes buf offset o, w) at h))
        | inl (bytes', w) ↦
            let f' = record f { contents = regular bytes' } in
            let wrote = write_bytes-stored fl room bytes offset buf bytes' w in
            let all = rw (write-result s fd inode f bytes buf offset o, w) at h in
            rw (write-bytes s fd inode f bytes buf bytes' offset o w) (
              (cc (all)),
              (
                bytes',
                record {
                  handle = o.handle;
                  there = ground (arith, get-insert s.filesystem.files inode f' inode);
                  plain = refl;
                  kind = o.kind;
                },
                wrote.0,
                wrote.1,
              ),
              λ j ne. ground (arith, get-insert s.filesystem.files inode f' j),
            )
      ]

  -- A read of an open file gives the bytes from the offset on, as many as the buffer holds and the
  -- file has, and changes nothing.
  pub read-at :
      (s : Scheme) (fd inode : ℕ) (f : File) (bytes : Str) (len offset fcntl_flags : ℕ)
      → IsOpen fl s fd inode f bytes
      → readable fl room fcntl_flags ≡ true
      → (r : Str) × (read fl room fd len offset fcntl_flags s ≡ (ok r, s))
        × (length r ≡ min (length bytes - offset) len)
        × ((i : ℕ) → i < length r → at r i ≡ at bytes (offset + i))
  unfolding read
  read-at s fd inode f bytes len offset fcntl_flags o may =
      let r = take (min (length bytes - offset) len) (drop offset bytes) in
      let count : length r ≡ min (length bytes - offset) len = omega (
        arith,
        length-take (min (length bytes - offset) len) (drop offset bytes),
        length-drop offset bytes,
      ) in
      (
        r,
        rw (o.handle, o.there, may) (rw (o.plain, o.kind)),
        count,
        λ i inside. ground (
          arith,
          at-take (min (length bytes - offset) len) (drop offset bytes) i,
          at-drop offset bytes i,
          count,
        ),
      )
