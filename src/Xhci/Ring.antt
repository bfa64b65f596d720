-- ===== src/Xhci/Ring.antt =====
-- `Ring` of drivers/usb/xhcid/src/xhci/ring.rs: the blocks of a ring, the index of the next one, and
-- the cycle bit that tells the controller which blocks are new. The physical address of the blocks
-- is fixed by the allocator.
pub mod Laws
use eos_base.Base.{
  ℕ, zero, suc, ◌+◌, ◌-◌, ◌*◌, ◌/◌, ◌%◌, Bool, true, not, Option, none, some, List, ◌==◌, leb, ltb,
  if◌then◌else◌, length, get_elem?, set, bit_and, bit_or,
}
use eos_base.Base.Result.{Result, ok, panic}
use eos_base.Xhci.Trb.{Trb, bit}
use eos_base.Xhci.Trb.Commands.{link_trb}

pub record Ring : Type 0 where
  pub link : Bool
  pub trbs : List Trb
  pub physical : ℕ
  pub i : ℕ
  pub cycle : Bool

-- A TRB has 16 bytes.
abbrev pub trb_size : ℕ
trb_size = 16

-- A ring over zeroed memory; the allocation is the list and its address.
unfoldable pub new : List Trb → ℕ → Bool → Ring
new trbs physical link = record {
  link = link;
  trbs = trbs;
  physical = physical;
  i = 0;
  cycle = link;
}

unfoldable pub register : Ring → ℕ
register r = bit_or (r.physical + r.i * trb_size) (bit r.cycle)

-- The last block of a ring with a link becomes a link block, and the cycle bit turns.
unfoldable pub close_lap : Ring → Ring
unfolding link_trb
close_lap r = record r {
  trbs = set r.trbs r.i (link_trb r.physical true r.cycle);
  cycle = not r.cycle;
  i = 0;
}

-- The loop of `next_index`, on fuel: `none` is a loop that does not end, or an index out of range.
unfoldable pub next_index : ℕ → Ring → Option (ℕ × Ring)
unfolding close_lap
next_index zero r = none
next_index (suc fuel) r =
    let again = next_index fuel (close_lap r) in
    if leb (length r.trbs) (r.i + 1)
    then (if r.link
        then (if ltb r.i (length r.trbs) then again else none)
        else some (r.i, record r { i = 0 }))
    else some (r.i, record r { i = r.i + 1 })

-- `next`: the index of the block to fill, and the cycle bit to fill it with.
unfoldable pub next : Ring → Option (ℕ × Bool × Ring)
unfolding next_index
next r = elim (next_index 2 r) [
  | none ↦ none
  | some (i, r') ↦ if ltb i (length r'.trbs) then some (i, r'.cycle, r') else none
]

-- The address of the blocks as the controller sees it.
abbrev pub base : Bool → Ring → ℕ
base ac64 r = bit_and r.physical (if ac64 then 0xffff_ffff_ffff_ffff else 0xffff_ffff)

-- `phys_addr_to_index`; an unaligned address fails the assertion.
unfoldable pub phys_addr_to_index : Bool → Ring → ℕ → Result (Option ℕ)
phys_addr_to_index ac64 r paddr =
    let offset = paddr - base ac64 r in
    let index = offset / trb_size in
    if ltb paddr (base ac64 r)
    then ok none
    else if offset % trb_size == 0
    then ok (if ltb (length r.trbs) index then none else some index)
    else panic

-- `self.trbs[index]`
abbrev pub index : List Trb → Option ℕ → Result (Option Trb)
index trbs none = ok none
index trbs (some i) = elim (get_elem? trbs i) [ none ↦ panic | some t ↦ ok (some t) ]

-- `phys_addr_to_entry` and `phys_addr_to_entry_ref`
unfoldable pub phys_addr_to_entry : Bool → Ring → ℕ → Result (Option Trb)
unfolding phys_addr_to_index
phys_addr_to_entry ac64 r paddr = elim (phys_addr_to_index ac64 r paddr) [
  | ok i ↦ index r.trbs i
  | Result.err e ↦ Result.err e
  | panic ↦ panic
]

-- `trb_phys_ptr` of the block at an index; the pointer is that index times the size of a block.
unfoldable pub trb_phys_ptr : Bool → Ring → ℕ → Result ℕ
trb_phys_ptr ac64 r i =
    if ltb (length r.trbs * trb_size) (i * trb_size) then panic else ok (base ac64 r + i * trb_size)

-- The iterator of `iter`: the next item and the next index.
unfoldable pub iter_next : Ring → ℕ → Option Trb × ℕ
iter_next r i = (get_elem? r.trbs i, (i + 1) % length r.trbs)
