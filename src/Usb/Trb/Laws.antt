-- ===== src/Usb/Trb/Laws.antt =====
-- The fields of a TRB come back as they were written.
use bek_os.Common.{
  ℕ, ◌+◌, ◌-◌, ◌*◌, ◌/◌, ◌%◌, ◌^◌, ◌<◌, ◌≡◌, refl, ap, ◌∙◌, Bool, true, false, arith,
}
use bek_os.Common.Tests.{◌==◌, if◌then◌else◌}
use bek_os.Usb.Trb.{
  TrbType, normal, setup, data_stage, status_stage, isoch, link, event, no_op, enable_slot,
  disable_slot, address_device, config_endpoint, evaluate_context, reset_endpoint, stop_endpoint,
  set_tr_dequeue_ptr, reset_device, neg_bandwidth, get_port_bandwidth, force_header, no_op_command,
  transfer_event, command_completion, port_status_change, bandwidth_request, host_controller_event,
  device_notification, mfindex_wrap, unnamed, type_code, type_of, parameter, create, cycle,
  set_cycle, trb_type,
}

-- The named types.
abbrev pub IsNamed : TrbType → Type 0
IsNamed (unnamed n) = ⊥
IsNamed _ = Unit

type_of-type_code : (t : TrbType) → IsNamed t → type_of (type_code t % 2 ^ 6) ≡ t
unfolding type_of type_code
type_of-type_code normal h = refl
type_of-type_code setup h = refl
type_of-type_code data_stage h = refl
type_of-type_code status_stage h = refl
type_of-type_code isoch h = refl
type_of-type_code link h = refl
type_of-type_code event h = refl
type_of-type_code no_op h = refl
type_of-type_code enable_slot h = refl
type_of-type_code disable_slot h = refl
type_of-type_code address_device h = refl
type_of-type_code config_endpoint h = refl
type_of-type_code evaluate_context h = refl
type_of-type_code reset_endpoint h = refl
type_of-type_code stop_endpoint h = refl
type_of-type_code set_tr_dequeue_ptr h = refl
type_of-type_code reset_device h = refl
type_of-type_code neg_bandwidth h = refl
type_of-type_code get_port_bandwidth h = refl
type_of-type_code force_header h = refl
type_of-type_code no_op_command h = refl
type_of-type_code transfer_event h = refl
type_of-type_code command_completion h = refl
type_of-type_code port_status_change h = refl
type_of-type_code bandwidth_request h = refl
type_of-type_code host_controller_event h = refl
type_of-type_code device_notification h = refl
type_of-type_code mfindex_wrap h = refl
type_of-type_code (unnamed n) h = absurd h

type_code-lt : (t : TrbType) → IsNamed t → type_code t < 2 ^ 6
unfolding type_code
type_code-lt normal h = omega arith
type_code-lt setup h = omega arith
type_code-lt data_stage h = omega arith
type_code-lt status_stage h = omega arith
type_code-lt isoch h = omega arith
type_code-lt link h = omega arith
type_code-lt event h = omega arith
type_code-lt no_op h = omega arith
type_code-lt enable_slot h = omega arith
type_code-lt disable_slot h = omega arith
type_code-lt address_device h = omega arith
type_code-lt config_endpoint h = omega arith
type_code-lt evaluate_context h = omega arith
type_code-lt reset_endpoint h = omega arith
type_code-lt stop_endpoint h = omega arith
type_code-lt set_tr_dequeue_ptr h = omega arith
type_code-lt reset_device h = omega arith
type_code-lt neg_bandwidth h = omega arith
type_code-lt get_port_bandwidth h = omega arith
type_code-lt force_header h = omega arith
type_code-lt no_op_command h = omega arith
type_code-lt transfer_event h = omega arith
type_code-lt command_completion h = omega arith
type_code-lt port_status_change h = omega arith
type_code-lt bandwidth_request h = omega arith
type_code-lt host_controller_event h = omega arith
type_code-lt device_notification h = omega arith
type_code-lt mfindex_wrap h = omega arith
type_code-lt (unnamed n) h = absurd h

type_bits :
    (control code : ℕ) (c : Bool)
    → let d = control - control / 2 ^ 10 % 2 ^ 6 * 2 ^ 10 + code % 2 ^ 6 * 2 ^ 10 in
      (d - d % 2 + (if c then 1 else 0)) / 2 ^ 10 % 2 ^ 6 ≡ code % 2 ^ 6
type_bits control code true = omega arith
type_bits control code false = omega arith

cycle_bit :
    (control code : ℕ) (c : Bool)
    → let d = control - control / 2 ^ 10 % 2 ^ 6 * 2 ^ 10 + code % 2 ^ 6 * 2 ^ 10 in
      ((d - d % 2 + (if c then 1 else 0)) % 2 == 1) ≡ c
cycle_bit control code true = ground arith
cycle_bit control code false = ground arith

-- The type and the parameter of a TRB that create makes are the ones that it was given, and setting
-- its cycle bit changes neither of them.
pub trb_type-create :
    (t : TrbType) (p status control : ℕ) (c : Bool)
    → IsNamed t
    → p < 2 ^ 64
    → let trb = set_cycle (create t p status control) c in
      (trb_type trb ≡ t) × (parameter trb ≡ p) × (cycle trb ≡ c)
unfolding trb_type parameter create set_cycle cycle
trb_type-create t p status control c named h = (
  ap type_of (type_bits control (type_code t) c) ∙ type_of-type_code t named,
  omega arith,
  cycle_bit control (type_code t) c,
)
