-- ===== src/Xhci/Trb/Commands.antt =====
-- The blocks that drivers/usb/xhcid/src/xhci/trb.rs builds. A failed assertion is a panic; the
-- arguments are machine words, of the widths that the source gives them.
use eos_base.Base.{ℕ, ◌*◌, Bool, true, false, ◌&&◌, ◌==◌, bit_and, bit_or}
use eos_base.Base.Result.{Result, ok, panic}
use eos_base.Xhci.Trb.{Trb, TrbType, code, set, shl, bit}
use eos_base.Xhci.Trb

-- `TransferKind` and `StreamContextType`, with their numbers.
pub data TransferKind : Type 0 where
  no_data reserved out_data in_data : TransferKind

abbrev pub kind : TransferKind → ℕ
kind no_data = 0
kind TransferKind.reserved = 1
kind out_data = 2
kind in_data = 3

-- The control word of a command: type and cycle bit, below the other fields.
abbrev pub typed : TrbType → Bool → ℕ
typed c cycle = bit_or (shl (code c) 10) (bit cycle)

abbrev pub require : Bool → Trb → Result Trb
require true t = ok t
require false t = panic

-- `x & mask == x`
abbrev pub masked : ℕ → ℕ → Bool
masked x mask = bit_and x mask == x

unfoldable pub reserved_trb : Bool → Trb
unfolding set code
reserved_trb cycle = set 0 0 (typed Trb.reserved cycle)

unfoldable pub link_trb : ℕ → Bool → Bool → Trb
unfolding set code
link_trb address toggle cycle =
    set address 0 (bit_or (bit_or (shl (code Trb.link) 10) (shl (bit toggle) 1)) (bit cycle))

unfoldable pub no_op_cmd : Bool → Trb
unfolding set code
no_op_cmd cycle = set 0 0 (typed Trb.no_op_cmd cycle)

unfoldable pub enable_slot : ℕ → Bool → Trb
unfolding set code
enable_slot slot_type cycle =
    set 0 0 (
      bit_or (bit_or (shl (bit_and slot_type 0x1f) 16) (shl (code Trb.enable_slot) 10)) (bit cycle))

-- `slot << 24 | type << 10 | cycle`
abbrev pub slot_typed : ℕ → TrbType → Bool → ℕ
slot_typed slot c cycle = bit_or (bit_or (shl slot 24) (shl (code c) 10)) (bit cycle)

unfoldable pub disable_slot : ℕ → Bool → Trb
unfolding set code
disable_slot slot cycle = set 0 0 (slot_typed slot Trb.disable_slot cycle)

-- `slot << 24 | type << 10 | flag << 9 | cycle`
abbrev pub slot_flagged : ℕ → TrbType → Bool → Bool → ℕ
slot_flagged slot c flag cycle =
    bit_or (bit_or (bit_or (shl slot 24) (shl (code c) 10)) (shl (bit flag) 9)) (bit cycle)

abbrev pub aligned : ℕ → Bool
aligned p = masked p 0xffff_ffff_ffff_fff0

unfoldable pub address_device : ℕ → ℕ → Bool → Bool → Result Trb
unfolding set code
address_device slot input_ctx_ptr bsr cycle =
    require (aligned input_ctx_ptr)
      (set input_ctx_ptr 0 (slot_flagged slot Trb.address_device bsr cycle))

unfoldable pub configure_endpoint : ℕ → ℕ → Bool → Result Trb
unfolding set code
configure_endpoint slot input_ctx_ptr cycle =
    require (aligned input_ctx_ptr)
      (set input_ctx_ptr 0 (slot_typed slot Trb.configure_endpoint cycle))

unfoldable pub evaluate_context : ℕ → ℕ → Bool → Bool → Result Trb
unfolding set code
evaluate_context slot input_ctx_ptr bsr cycle =
    require (aligned input_ctx_ptr)
      (set input_ctx_ptr 0 (slot_flagged slot Trb.evaluate_context bsr cycle))

unfoldable pub reset_endpoint : ℕ → ℕ → Bool → Bool → Result Trb
unfolding set code
reset_endpoint slot endp_num_xhc tsp cycle = require (masked endp_num_xhc 0x1f) (
    set 0 0 (
      bit_or
        (bit_or
          (bit_or (bit_or (shl slot 24) (shl endp_num_xhc 16)) (shl (code Trb.reset_endpoint) 10))
          (shl (bit tsp) 9))
        (bit cycle)))

-- `sct` is the number of the stream context type.
unfoldable pub set_tr_deque_ptr : ℕ → Bool → ℕ → ℕ → ℕ → ℕ → Result Trb
unfolding set code
set_tr_deque_ptr deque_ptr cycle sct stream_id endp_num_xhc slot =
    require (masked deque_ptr 0xffff_ffff_ffff_fff1 && masked endp_num_xhc 0x1f) (
      set (bit_or deque_ptr (sct * 2)) (shl stream_id 16) (
        bit_or
          (bit_or (bit_or (shl slot 24) (shl endp_num_xhc 16))
            (shl (code Trb.set_tr_dequeue_pointer) 10))
          (bit cycle)))

unfoldable pub stop_endpoint : ℕ → ℕ → Bool → Bool → Result Trb
unfolding set code
stop_endpoint slot endp_num_xhc suspend cycle = require (masked endp_num_xhc 0x1f) (
    set 0 0 (
      bit_or
        (bit_or (bit_or (bit_or (shl slot 24) (shl (bit suspend) 23)) (shl endp_num_xhc 16))
          (shl (code Trb.stop_endpoint) 10))
        (bit cycle)))

unfoldable pub reset_device : ℕ → Bool → Trb
unfolding set code
reset_device slot cycle = set 0 0 (slot_typed slot Trb.reset_device cycle)

-- `type << 10 | ioc << 5 | ch << 4 | ent << 1 | cycle`
abbrev pub chained : ℕ → Bool → Bool → Bool → Bool → ℕ
chained high ioc ch ent cycle =
    bit_or (bit_or (bit_or (bit_or high (shl (bit ioc) 5)) (shl (bit ch) 4)) (shl (bit ent) 1))
      (bit cycle)

unfoldable pub transfer_no_op : ℕ → Bool → Bool → Bool → Bool → Trb
unfolding set code
transfer_no_op interrupter ent ch ioc cycle =
    set 0 (shl interrupter 22) (chained (shl (code Trb.no_op) 10) ioc ch ent cycle)

-- `setup` is the eight bytes of the request as a number.
unfoldable pub setup_trb : ℕ → TransferKind → Bool → Trb
unfolding set code
setup_trb setup transfer cycle = set setup 8 (
    bit_or (bit_or (bit_or (shl (kind transfer) 16) (shl (code Trb.setup_stage) 10)) (shl 1 6))
      (bit cycle))

unfoldable pub data_trb : ℕ → ℕ → Bool → Bool → Trb
unfolding set code
data_trb buffer length input cycle =
    set buffer length
      (bit_or (bit_or (shl (bit input) 16) (shl (code Trb.data_stage) 10)) (bit cycle))

unfoldable pub status_trb : ℕ → Bool → Bool → Bool → Bool → Bool → Trb
unfolding set code
status_trb interrupter input ioc ch ent cycle =
    set 0 (shl interrupter 22)
      (chained (bit_or (shl (bit input) 16) (shl (code Trb.status_stage) 10)) ioc ch ent cycle)

pub record NormalFlags : Type 0 where
  pub ent : Bool
  pub isp : Bool
  pub chain : Bool
  pub ioc : Bool
  pub idt : Bool
  pub bei : Bool

unfoldable pub normal : ℕ → ℕ → Bool → ℕ → ℕ → NormalFlags → Result Trb
unfolding set code
normal buffer len cycle estimated_td_size interrupter f = require (masked estimated_td_size 0x1f) (
    set buffer (bit_or (bit_or len (shl estimated_td_size 17)) (shl interrupter 22)) (
      bit_or
        (bit_or
          (bit_or
            (bit_or
              (bit_or (bit_or (bit_or (bit cycle) (shl (bit f.ent) 1)) (shl (bit f.isp) 2))
                (shl (bit f.chain) 4))
              (shl (bit f.ioc) 5))
            (shl (bit f.idt) 6))
          (shl (bit f.bei) 9))
        (shl (code Trb.normal) 10)))
