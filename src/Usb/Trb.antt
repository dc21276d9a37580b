-- ===== src/Usb/Trb.antt =====
-- kernel/include/usb/xhci_ring.h and kernel/src/usb/xhci_ring.cpp: the transfer request blocks (TRBs) of
-- an xHCI controller and the events read from them.
pub mod Laws
use bek_os.Common.{ℕ, ◌+◌, ◌-◌, ◌*◌, ◌/◌, ◌%◌, ◌^◌, Bool, true, false, ◌&&◌, ◌||◌, not}
use bek_os.Common.Tests.{◌==◌, leb, if◌then◌else◌, word32}
use bek_os.Common.Outcome.{Outcome, ok, panic, ◌>>=◌, ◌>>◌, verify}

-- A `u8` that is cast to the enumeration may be none of the named values.
pub data TrbType : Type 0 where
  normal setup data_stage status_stage isoch : TrbType
  link event no_op enable_slot disable_slot : TrbType
  address_device config_endpoint evaluate_context reset_endpoint stop_endpoint : TrbType
  set_tr_dequeue_ptr reset_device neg_bandwidth get_port_bandwidth force_header : TrbType
  no_op_command transfer_event command_completion port_status_change bandwidth_request : TrbType
  host_controller_event device_notification mfindex_wrap : TrbType
  unnamed : ℕ → TrbType

unfoldable pub type_code : TrbType → ℕ
type_code normal = 1
type_code setup = 2
type_code data_stage = 3
type_code status_stage = 4
type_code isoch = 5
type_code link = 6
type_code event = 7
type_code no_op = 8
type_code enable_slot = 9
type_code disable_slot = 10
type_code address_device = 11
type_code config_endpoint = 12
type_code evaluate_context = 13
type_code reset_endpoint = 14
type_code stop_endpoint = 15
type_code set_tr_dequeue_ptr = 16
type_code reset_device = 17
type_code neg_bandwidth = 19
type_code get_port_bandwidth = 21
type_code force_header = 22
type_code no_op_command = 23
type_code transfer_event = 32
type_code command_completion = 33
type_code port_status_change = 34
type_code bandwidth_request = 35
type_code host_controller_event = 37
type_code device_notification = 38
type_code mfindex_wrap = 39
type_code (unnamed n) = n

-- The value of the enumeration for a code.
unfoldable pub type_of : ℕ → TrbType
type_of n =
    if n == 1
    then normal
    else if n == 2
    then setup
    else if n == 3
    then data_stage
    else if n == 4
    then status_stage
    else if n == 5
    then isoch
    else if n == 6
    then link
    else if n == 7
    then event
    else if n == 8
    then no_op
    else if n == 9
    then enable_slot
    else if n == 10
    then disable_slot
    else if n == 11
    then address_device
    else if n == 12
    then config_endpoint
    else if n == 13
    then evaluate_context
    else if n == 14
    then reset_endpoint
    else if n == 15
    then stop_endpoint
    else if n == 16
    then set_tr_dequeue_ptr
    else if n == 17
    then reset_device
    else if n == 19
    then neg_bandwidth
    else if n == 21
    then get_port_bandwidth
    else if n == 22
    then force_header
    else if n == 23
    then no_op_command
    else if n == 32
    then transfer_event
    else if n == 33
    then command_completion
    else if n == 34
    then port_status_change
    else if n == 35
    then bandwidth_request
    else if n == 37
    then host_controller_event
    else if n == 38
    then device_notification
    else if n == 39
    then mfindex_wrap
    else unnamed n

-- data[0] to data[3], each a `u32`.
pub record Trb : Type 0 where
  pub data_0 : ℕ
  pub data_1 : ℕ
  pub data_2 : ℕ
  pub data_3 : ℕ

abbrev pub zero_trb : Trb
zero_trb = record { data_0 = 0; data_1 = 0; data_2 = 0; data_3 = 0 }

unfoldable pub parameter : Trb → ℕ
parameter trb = trb.data_0 + trb.data_1 * 2 ^ 32

unfoldable pub set_parameter : Trb → ℕ → Trb
set_parameter trb p = record trb { data_0 = p % 2 ^ 32; data_1 = p / 2 ^ 32 }

-- A control word with the type field, bits 10 to 15, set to a type.
abbrev pub with_type : ℕ → TrbType → ℕ
with_type control t = control - control / 2 ^ 10 % 2 ^ 6 * 2 ^ 10 + type_code t % 2 ^ 6 * 2 ^ 10

unfoldable pub trb_type : Trb → TrbType
unfolding type_of
trb_type trb = type_of (trb.data_3 / 2 ^ 10 % 2 ^ 6)

unfoldable pub set_trb_type : Trb → TrbType → Trb
unfolding type_code
set_trb_type trb t = record trb { data_3 = with_type trb.data_3 t }

unfoldable pub cycle : Trb → Bool
cycle trb = trb.data_3 % 2 == 1

unfoldable pub set_cycle : Trb → Bool → Trb
set_cycle trb c = record trb { data_3 = trb.data_3 - trb.data_3 % 2 + (if c then 1 else 0) }

unfoldable pub create : TrbType → ℕ → ℕ → ℕ → Trb
unfolding type_code
create kind p status control = record {
  data_0 = p % 2 ^ 32;
  data_1 = p / 2 ^ 32;
  data_2 = status;
  data_3 = with_type control kind;
}

-- The create of two parameter words.
unfoldable pub create_words : TrbType → ℕ → ℕ → ℕ → ℕ → Trb
unfolding type_code
create_words kind p0 p1 status control = record {
  data_0 = p0;
  data_1 = p1;
  data_2 = status;
  data_3 = with_type control kind;
}

-- address_device, and create_address_dev_cmd, which is the same. The fields that are joined by `|`
-- are bits that are still 0, and are added.
unfoldable pub address_device_command : ℕ → ℕ → Bool → Trb
unfolding set_trb_type set_parameter
address_device_command in_ctx_dma slot_id make_request =
    let trb = set_trb_type (set_parameter zero_trb in_ctx_dma) address_device in
    record trb { data_3 = trb.data_3 + slot_id * 2 ^ 24 + (if make_request then 0 else 2 ^ 9) }

unfoldable pub configure_endpoint : ℕ → ℕ → Bool → Trb
unfolding create
configure_endpoint in_ctx_dma slot_id deconfigure =
    create config_endpoint in_ctx_dma 0 (slot_id * 2 ^ 24 + (if deconfigure then 2 ^ 9 else 0))

-- usb::SetupPacket.
pub record SetupPacket : Type 0 where
  pub request_type : ℕ
  pub request : ℕ
  pub value : ℕ
  pub index : ℕ
  pub data_length : ℕ

-- Whether the direction of the data stage is Direction::In.
unfoldable pub direction_in : SetupPacket → Bool
direction_in packet = packet.request_type / 2 ^ 7 % 2 == 1

unfoldable pub make_setup : SetupPacket → Bool → Bool → Trb
unfolding create_words
make_setup packet with_data data_in =
    create_words setup (packet.request_type + packet.request * 2 ^ 8 + packet.value * 2 ^ 16)
      (packet.index + packet.data_length * 2 ^ 16) 8
      (2 ^ 6 + (if with_data then if data_in then 3 else 2 else 0) * 2 ^ 16)

unfoldable pub make_data_stage : ℕ → ℕ → Bool → Bool → Outcome Trb
unfolding create
make_data_stage data_dma_ptr transfer_length chain data_in = do
  verify (leb transfer_length (64 * 1024))
  ok (
      create data_stage data_dma_ptr (transfer_length % 2 ^ 17)
        ((if chain then 2 ^ 4 else 0) + (if data_in then 2 ^ 16 else 0)))

unfoldable pub make_status : Bool → Bool → Trb
unfolding create
make_status status_in ioc =
    create status_stage 0 0 ((if status_in then 2 ^ 16 else 0) + (if ioc then 2 ^ 5 else 0))

-- EventTRB. Each union is one field: `pointer` is trb_ptr or notification_data, `length` is
-- transfer_length or completion_parameter, and `detail` is port_id, vf_id, endpoint_id or
-- notification_type.
pub record EventTrb : Type 0 where
  pub pointer : ℕ
  pub length : ℕ
  pub kind : TrbType
  pub completion_code : ℕ
  pub slot_id : ℕ
  pub detail : ℕ
  pub ed_flag : Bool

-- The fields of an event by its kind, where the others are 0.
unfoldable pub event_fields : Trb → EventTrb → TrbType → Outcome EventTrb
unfolding parameter
event_fields trb base transfer_event = ok (record base {
  pointer = parameter trb;
  length = trb.data_2 % 2 ^ 24;
  slot_id = trb.data_3 / 2 ^ 24 % 2 ^ 8;
  detail = trb.data_3 / 2 ^ 16 % 2 ^ 8 % 2 ^ 5;
  ed_flag = trb.data_3 / 2 ^ 2 % 2 == 1;
})
event_fields trb base command_completion = ok (record base {
  pointer = parameter trb;
  length = trb.data_2 % 2 ^ 24;
  slot_id = trb.data_3 / 2 ^ 24 % 2 ^ 8;
  detail = trb.data_3 / 2 ^ 16 % 2 ^ 8;
})
event_fields trb base port_status_change = ok (record base { detail = trb.data_0 / 2 ^ 24 % 2 ^ 8 })
event_fields trb base bandwidth_request = ok (record base { slot_id = trb.data_3 / 2 ^ 24 % 2 ^ 8 })
event_fields trb base host_controller_event = ok base
event_fields trb base device_notification = ok (record base {
  pointer = parameter trb / 2 ^ 8 * 2 ^ 8;
  detail = parameter trb / 2 ^ 4 % 2 ^ 4;
  slot_id = trb.data_3 / 2 ^ 24 % 2 ^ 8;
})
event_fields trb base mfindex_wrap = ok base
event_fields trb base _ = panic

-- EventTRB::fromTRB.
unfoldable pub from_trb : Trb → Outcome EventTrb
unfolding event_fields trb_type
from_trb trb =
    let kind = trb_type trb in
    event_fields trb
      (record {
        pointer = 0;
        length = 0;
        kind = kind;
        completion_code = trb.data_2 / 2 ^ 24 % 2 ^ 8;
        slot_id = 0;
        detail = 0;
        ed_flag = false;
      })
      kind
