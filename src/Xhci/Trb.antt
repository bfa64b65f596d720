-- ===== src/Xhci/Trb.antt =====
-- `Trb` of drivers/usb/xhcid/src/xhci/trb.rs: the four words of a transfer request block. The
-- registers are memory, so a block is its words; a write that sets all of them gives a new block.
pub mod Commands
use eos_base.Base.{
  List, [], ◌∷◌, ◌||◌, ℕ, ◌+◌, ◌*◌, ◌/◌, ◌%◌, ◌^◌, Bool, true, false, Option, none, some, ◌==◌,
  if◌then◌else◌, bit_and, bit_or,
}

pub record Trb : Type 0 where
  pub data_low : ℕ
  pub data_high : ℕ
  pub status : ℕ
  pub control : ℕ

-- `TrbType`, in the order of its numbers.
pub data TrbType : Type 0 where
  reserved normal setup_stage data_stage status_stage isoch link event_data no_op : TrbType
  enable_slot disable_slot address_device configure_endpoint evaluate_context : TrbType
  reset_endpoint stop_endpoint set_tr_dequeue_pointer reset_device force_event : TrbType
  negotiate_bandwidth set_latency_tolerance_value get_port_bandwidth force_header : TrbType
  no_op_cmd get_extended_property set_extended_property : TrbType
  rsv26 rsv27 rsv28 rsv29 rsv30 rsv31 transfer command_completion port_status_change : TrbType
  bandwidth_request doorbell host_controller device_notification mfindex_wrap : TrbType

-- `TrbType as u8`
unfoldable pub code : TrbType → ℕ
code reserved = 0
code normal = 1
code setup_stage = 2
code data_stage = 3
code status_stage = 4
code isoch = 5
code link = 6
code event_data = 7
code no_op = 8
code enable_slot = 9
code disable_slot = 10
code address_device = 11
code configure_endpoint = 12
code evaluate_context = 13
code reset_endpoint = 14
code stop_endpoint = 15
code set_tr_dequeue_pointer = 16
code reset_device = 17
code force_event = 18
code negotiate_bandwidth = 19
code set_latency_tolerance_value = 20
code get_port_bandwidth = 21
code force_header = 22
code no_op_cmd = 23
code get_extended_property = 24
code set_extended_property = 25
code rsv26 = 26
code rsv27 = 27
code rsv28 = 28
code rsv29 = 29
code rsv30 = 30
code rsv31 = 31
code transfer = 32
code command_completion = 33
code port_status_change = 34
code bandwidth_request = 35
code doorbell = 36
code host_controller = 37
code device_notification = 38
code mfindex_wrap = 39

abbrev pub u32_mod : ℕ
u32_mod = 2 ^ 32

-- `<<` on `u32`
abbrev pub shl : ℕ → ℕ → ℕ
shl x k = x * 2 ^ k % u32_mod

-- `bool as u32`
abbrev pub bit : Bool → ℕ
bit true = 1
bit false = 0

-- `set`
unfoldable pub set : ℕ → ℕ → ℕ → Trb
set data64 status control = record {
  data_low = data64 % u32_mod;
  data_high = data64 / u32_mod % u32_mod;
  status = status;
  control = control;
}

-- `read_data`
unfoldable pub read_data : Trb → ℕ
read_data t = bit_or t.data_low (t.data_high * 2 ^ 32)

unfoldable pub completion_code : Trb → ℕ
completion_code t = t.status / 2 ^ 24 % 2 ^ 8

unfoldable pub completion_param : Trb → ℕ
completion_param t = bit_and t.status 0xffffff

-- Ring underrun, ring overrun and a full event ring of a virtual function have no pointer.
unfoldable pub has_completion_trb_pointer : Trb → Bool
unfolding completion_code
has_completion_trb_pointer t =
    if completion_code t == 0x0e
    then false
    else if completion_code t == 0x0f
    then false
    else if completion_code t == 0x10
    then false
    else true

unfoldable pub event_slot : Trb → ℕ
event_slot t = t.control / 2 ^ 24 % 2 ^ 8

unfoldable pub transfer_length : Trb → ℕ
transfer_length t = bit_and t.status 0xffffff

-- `readf` tests whether all bits of a flag are set.
unfoldable pub event_data_bit : Trb → Bool
event_data_bit t = bit_and t.control 4 == 4

unfoldable pub event_data_of : Trb → Option ℕ
unfolding event_data_bit read_data
event_data_of t = if event_data_bit t then some (read_data t) else none

unfoldable pub endpoint_id : Trb → ℕ
endpoint_id t = bit_and t.control 0x1f0000 / 2 ^ 16 % 2 ^ 8

unfoldable pub trb_type : Trb → ℕ
trb_type t = bit_and t.control 0xfc00 / 2 ^ 10 % 2 ^ 8

unfoldable pub cycle : Trb → Bool
cycle t = bit_and t.control 1 == 1

-- The three checks of the type are `debug_assert_eq!`, which a release build leaves out.
unfoldable pub completion_trb_pointer : Trb → Option ℕ
unfolding has_completion_trb_pointer read_data
completion_trb_pointer t = if has_completion_trb_pointer t then some (read_data t) else none

unfoldable pub transfer_event_trb_pointer : Trb → Option ℕ
unfolding has_completion_trb_pointer read_data
transfer_event_trb_pointer t = if has_completion_trb_pointer t then some (read_data t) else none

unfoldable pub port_status_change_port_id : Trb → Option ℕ
unfolding has_completion_trb_pointer read_data
port_status_change_port_id t =
    if has_completion_trb_pointer t then some (bit_and (read_data t / 2 ^ 24) 0xff) else none

-- `valid_trb_types.contains(&self.trb_type())`
abbrev pub contains : List TrbType → ℕ → Bool
contains [] n = false
contains (c ∷ cs) n = code c == n || contains cs n

unfoldable pub is_command_trb : Trb → Bool
unfolding trb_type code
is_command_trb t =
    contains
      (no_op_cmd ∷ enable_slot ∷ disable_slot ∷ address_device ∷ configure_endpoint
        ∷ evaluate_context ∷ reset_endpoint ∷ stop_endpoint ∷ set_tr_dequeue_pointer ∷ reset_device
        ∷ force_event ∷ negotiate_bandwidth ∷ set_latency_tolerance_value ∷ get_port_bandwidth
        ∷ force_header ∷ get_extended_property ∷ set_extended_property ∷ [])
      (trb_type t)

unfoldable pub is_transfer_trb : Trb → Bool
unfolding trb_type code
is_transfer_trb t =
    contains (normal ∷ setup_stage ∷ data_stage ∷ status_stage ∷ isoch ∷ no_op ∷ []) (trb_type t)
