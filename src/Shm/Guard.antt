-- ===== src/Shm/Guard.antt =====
-- `MmapGuard` of ipcd/src/shm.rs: one mapping that grows. The kernel's `fmap` and `mremap` are
-- parameters: whether they succeed and the address of the mapping, and the bytes that a mapping
-- has. The memory behind `base` is part of the state; it is shared with the clients' mappings, whose
-- own writes are not modelled.
pub mod Laws
use eos_base.Base.{
  ℕ, ◌+◌, ◌-◌, ◌*◌, ◌/◌, ◌%◌, ◌^◌, [], ◌++◌, ◌==◌, min, ltb, leb, if◌then◌else◌, length, take, drop,
  replicate,
}
use eos_base.Base.Text.{Str}
use eos_base.Base.Result.{Result, ok, err, panic, erange}

pub record Kernel : Type 0 where
  pub page_size : ℕ
  -- Of a size: the address, and zeroed memory behind it.
  pub fmap : ℕ → Result ℕ
  -- Of an address, the old and the new size.
  pub mremap : ℕ → ℕ → ℕ → Result ℕ
  -- The bytes of a mapping after it went from one size to another.
  pub remapped : Str → ℕ → ℕ → Str

-- `base` is 0 while nothing is mapped.
pub record MmapGuard : Type 0 where
  pub base : ℕ
  pub len : ℕ
  pub memory : Str

abbrev pub new : MmapGuard
new = record { base = 0; len = 0; memory = [] }

module _ (k : Kernel) where
  -- `usize::div_ceil` and `usize::next_multiple_of`, which wraps in a release build.
  abbrev pub div_ceil : ℕ → ℕ
  div_ceil n = (n + (k.page_size - 1)) / k.page_size

  abbrev pub next_multiple_of_page : ℕ → ℕ
  next_multiple_of_page n = div_ceil n * k.page_size % 2 ^ 64

  unfoldable pub total_capacity : MmapGuard → ℕ
  total_capacity g = next_multiple_of_page g.len

  -- The `?` behind the system call, and the two assignments.
  abbrev pub mapped : MmapGuard → ℕ → Str → Result ℕ → Result (Unit {0}) × MmapGuard
  mapped g new_len memory (ok base) =
      (ok tt, record { base = base; len = new_len; memory = memory })
  mapped g new_len memory (err e) = (err e, g)
  mapped g new_len memory panic = (panic, g)

  unfoldable pub grow_to : MmapGuard → ℕ → Result (Unit {0}) × MmapGuard
  unfolding total_capacity
  grow_to g new_len =
      let alloc_size = div_ceil (new_len - total_capacity g) * k.page_size % 2 ^ 64 in
      let old_size = next_multiple_of_page g.len in
      let new_size = next_multiple_of_page new_len in
      if leb new_len (total_capacity g)
      then (ok tt, record g { len = new_len })
      else if g.base == 0
      then mapped g new_len (replicate alloc_size 0) (k.fmap alloc_size)
      else mapped g new_len (k.remapped g.memory old_size new_size)
          (k.mremap g.base old_size new_size)

  -- `offset + size` is an unchecked addition: it wraps in a release build.
  unfoldable pub mmap : MmapGuard → ℕ → ℕ → Result ℕ
  mmap g offset size =
      if ltb (next_multiple_of_page g.len) ((offset + size) % 2 ^ 64)
      then err erange
      else if size == 0
      then ok 0
      else ok ((g.base + offset) % 2 ^ 64)

  -- `read` into a buffer of `size` bytes: the bytes read.
  unfoldable pub read : MmapGuard → ℕ → ℕ → Result Str
  read g offset size =
      if leb g.len offset
      then ok []
      else ok (take (min (g.len - offset) size) (drop offset g.memory))

  -- `copy_nonoverlapping` of `n` bytes of `buf` to `offset`.
  abbrev pub overwrite : Str → ℕ → Str → Str
  overwrite memory offset bytes =
      take offset memory ++ (bytes ++ drop (offset + length bytes) memory)

  abbrev pub store : MmapGuard → ℕ → Str → Result (Unit {0}) → Result ℕ × MmapGuard
  store g offset buf (ok _) =
      let to_write = min (g.len - offset) (length buf) in
      (ok to_write, record g { memory = overwrite g.memory offset (take to_write buf) })
  store g offset buf (err e) = (err e, g)
  store g offset buf panic = (panic, g)

  unfoldable pub write : MmapGuard → ℕ → Str → Result ℕ × MmapGuard
  write g offset buf =
      let (grown, g') = grow_to g (offset + length buf) in
      if ltb (offset + length buf) (2 ^ 64) then store g' offset buf grown else (err erange, g)
