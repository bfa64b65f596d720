-- ===== src/Xhci/Ring/Laws.antt =====
-- The producer's side of a ring: which blocks are handed out, when the cycle bit turns, and the
-- physical addresses of blocks.
use eos_base.Base.{
  ℕ, ◌+◌, ◌*◌, ◌≤◌, ◌<◌, ◌≡◌, refl, Bool, true, not, none, some, List, [], ◌∷◌, ◌&&◌, arith, leb,
  if◌then◌else◌, length, get_elem?, length-set, Bool-cases, inl, inr,
}
use eos_base.Base.Result.{ok, panic}
use eos_base.Xhci.Trb.{bit}
use eos_base.Xhci.Trb.Commands.{link_trb}
use eos_base.Xhci.Ring.{
  Ring, close_lap, next_index, next, base, trb_phys_ptr, phys_addr_to_index, phys_addr_to_entry,
}

-- A ring with a link has room for a block beside the link.
pub record IsValid (r : Ring) : Type 0 where
  pub in_range : r.i < length r.trbs
  pub room : bit r.link + 1 ≤ length r.trbs

-- Whether the index is that of the last block.
abbrev pub at_end : Ring → Bool
at_end r = leb (length r.trbs) (r.i + 1)

get_elem?-length {ℓ} : {A : Type ℓ} (xs : List A) → get_elem? xs (length xs) ≡ none
get_elem?-length [] = refl
get_elem?-length (x ∷ xs) = get_elem?-length xs

next_index-link :
    (r : Ring)
    → IsValid r
    → r.link ≡ true
    → at_end r ≡ true
    → next_index 2 r ≡ some (0, record (close_lap r) { i = 1 })
unfolding next_index close_lap
next_index-link r v l e = ground (arith, length-set r.trbs r.i (link_trb r.physical true r.cycle))

-- `next` on a valid ring gives an index and the cycle bit of the ring after it. The index is that of
-- a block of the ring, and not of the link if the ring has one; the bit turned exactly if the ring has
-- a link and its index stood at the last block; and the ring stays valid and keeps its length.
pub next_lem :
    (r : Ring)
    → IsValid r
    → (i : ℕ) × (r' : Ring) × (next r ≡ some (i, r'.cycle, r'))
      × (i + bit r.link < length r.trbs)
      × (r'.cycle ≡ (if r.link && at_end r then not r.cycle else r.cycle))
      × IsValid r'
      × (length r'.trbs ≡ length r.trbs)
unfolding next close_lap
next_lem r v =
    let len = length-set r.trbs r.i (link_trb r.physical true r.cycle) in
    elim (Bool-cases (at_end r)) [
      | inr more ↦ (
        r.i,
        record r { i = r.i + 1 },
        ground arith,
        ground arith,
        ground arith,
        ground arith,
        refl,
      )
      | inl end ↦ elim (Bool-cases r.link) [
        | inr plain ↦
            (r.i, record r { i = 0 }, ground arith, ground arith, ground arith, ground arith, refl)
        | inl linked ↦ (
          0,
          record (close_lap r) { i = 1 },
          ground (arith, next_index-link r v linked end, len),
          ground arith,
          ground arith,
          ground (arith, len),
          len,
        )
      ]
    ]

-- The address that is computed for a block leads back to the block's index.
phys_addr_to_index-trb_phys_ptr :
    (ac64 : Bool) (r : Ring) (i p : ℕ)
    → trb_phys_ptr ac64 r i ≡ ok p
    → phys_addr_to_index ac64 r p ≡ ok (some i)
unfolding trb_phys_ptr phys_addr_to_index
phys_addr_to_index-trb_phys_ptr ac64 r i p h = ground arith

-- The address just past the ring is taken for that of a block, and reading the block there is a
-- panic.
pub phys_addr_to_entry_past_end :
    (ac64 : Bool) (r : Ring) → phys_addr_to_entry ac64 r (base ac64 r + length r.trbs * 16) ≡ panic
unfolding phys_addr_to_entry phys_addr_to_index
phys_addr_to_entry_past_end ac64 r = ground (arith, get_elem?-length r.trbs)
