-- ===== src/Tests/Tables.antt =====
-- Runs of the handle table, the path writer, the transfer ring and the shared objects.
use eos_base.Base.{
  ℕ, ◌+◌, ◌^◌, ◌<◌, ◌≤◌, ◌*◌, ◌≡◌, refl, true, not, ◌&&◌, some, [], ◌∷◌, ◌++◌, arith, min, length,
  ◌==◌, if◌then◌else◌,
}
use eos_base.Base.Text.{Str, bytes}
use eos_base.Base.Map
use eos_base.Base.Result.{ok, err, panic, ebadf}
use eos_base.SchemeUtils.HandleMap.{HandleMap, insert, get, remove}
use eos_base.SchemeUtils.HandleMap.Laws.{IsValid, insert_lem, remove_lem}
use eos_base.SchemeUtils.FpathWriter.{with_prefix}
use eos_base.SchemeUtils.FpathWriter.Laws.{concat, fill, with_prefix_lem}
use eos_base.Xhci.Trb.{Trb, bit}
use eos_base.Xhci.Ring.{Ring, next, base, phys_addr_to_entry}
use eos_base.Xhci.Ring.Laws.{at_end, next_lem, phys_addr_to_entry_past_end}
use eos_base.Xhci.Ring.Laws
use eos_base.Shm.Guard.{Kernel, MmapGuard, read, write, grow_to}
use eos_base.Shm.Guard.Laws.{read-write_guard, write-len}

-- The id after the next one is in use.
abbrev table : HandleMap ℕ
table = record { handles = (2, 70) ∷ (5, 80) ∷ []; next_id = 1 }

table-IsValid : IsValid table
unfolding Map.get
table-IsValid = record { in_range = omega arith; unused = refl }

table_small : Map.size table.handles + 1 < 2 ^ 64
unfolding Map.size
table_small = omega arith

insert_lem_example :
    (h' : HandleMap ℕ) × (insert table 90 ≡ some (1, h'))
    × (get table 1 ≡ err ebadf)
    × ((j : ℕ) → get h' j ≡ (if 1 == j then ok 90 else get table j))
    × IsValid h'
insert_lem_example = insert_lem table 90 table-IsValid table_small

remove_lem_example : get (remove table 5).1 2 ≡ (if 5 == 2 then err ebadf else get table 2)
remove_lem_example = remove_lem table 5 2

with_prefix_lem_example :
    let text = concat (bytes "shm" ∷ bytes ":" ∷ []) ++ concat (bytes "abc" ∷ []) in
    with_prefix (0 ∷ 0 ∷ 0 ∷ 0 ∷ 0 ∷ []) (bytes "shm" ∷ bytes ":" ∷ []) (ok (bytes "abc" ∷ []))
    ≡ (ok (min (length text) 5), fill (0 ∷ 0 ∷ 0 ∷ 0 ∷ 0 ∷ []) text)
with_prefix_lem_example =
    with_prefix_lem (0 ∷ 0 ∷ 0 ∷ 0 ∷ 0 ∷ []) (bytes "shm" ∷ bytes ":" ∷ []) (bytes "abc" ∷ [])

abbrev trb : Trb
trb = record { data_low = 0; data_high = 0; status = 0; control = 0 }

-- A ring of three blocks whose index stands on the link.
abbrev ring : Ring
ring = record { link = true; trbs = trb ∷ trb ∷ trb ∷ []; physical = 4096; i = 2; cycle = true }

ring-IsValid : Laws.IsValid ring
ring-IsValid = record { in_range = omega arith; room = omega arith }

next_lem_example :
    (i : ℕ) × (r' : Ring) × (next ring ≡ some (i, r'.cycle, r'))
    × (i + bit ring.link < length ring.trbs)
    × (r'.cycle ≡ (if ring.link && at_end ring then not ring.cycle else ring.cycle))
    × Laws.IsValid r'
    × (length r'.trbs ≡ length ring.trbs)
next_lem_example = next_lem ring ring-IsValid

phys_addr_to_entry_past_end_example :
    phys_addr_to_entry true ring (base true ring + length ring.trbs * 16) ≡ panic
phys_addr_to_entry_past_end_example = phys_addr_to_entry_past_end true ring

-- Pages of four bytes, all of them to be had.
abbrev kernel : Kernel
kernel = record {
  page_size = 4;
  fmap = λ _. ok 4096;
  mremap = λ base _ _. ok base;
  remapped = λ memory _ _. memory;
}

-- An object of four bytes.
abbrev object : MmapGuard
object = record { base = 4096; len = 4; memory = 1 ∷ 2 ∷ 3 ∷ 4 ∷ [] }

abbrev written : MmapGuard
written = record { base = 4096; len = 3; memory = 1 ∷ 8 ∷ 9 ∷ 4 ∷ [] }

write_inside : write kernel object 1 (8 ∷ 9 ∷ []) ≡ (ok 2, written)
unfolding write grow_to
write_inside = refl

object_reaches : 3 ≤ length (grow_to kernel object 3).1.memory
unfolding grow_to
object_reaches = omega arith

read-write_guard_example : read kernel written 1 2 ≡ ok (8 ∷ 9 ∷ [])
read-write_guard_example =
    read-write_guard kernel object 1 2 (8 ∷ 9 ∷ []) written write_inside object_reaches

write-len_example : let two : Str = 8 ∷ 9 ∷ [] in (2 ≡ length two) × (written.len ≡ 1 + length two)
write-len_example = write-len kernel object 1 2 (8 ∷ 9 ∷ []) written write_inside
