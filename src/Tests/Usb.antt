-- ===== src/Tests/Usb.antt =====
-- The xHCI rings at concrete inputs (kernel/src/usb/xhci_ring.cpp).
use bek_os.Common.{ℕ, ◌-◌, ◌≡◌, refl, true, false, [], ◌∷◌, none, some, arith}
use bek_os.Common.Outcome.{ok, ◌>>=◌}
use bek_os.Usb.Trb.{command_completion, Trb, cycle, SetupPacket, EventTrb, from_trb}
use bek_os.Usb.ProducerRing.{
  ring_size, put, ProducerRing, make_producer_ring, push_command, process_completion,
}
use bek_os.Usb.ProducerRing.Laws.{IsValid, Pushed, make_producer_ring-IsValid, push_command_lem}
use bek_os.Usb.ProducerRing.Completion.{push_all, process_completion-push_command}
use bek_os.Usb.EventRing.{EventRing, process_interrupt}
use bek_os.Usb.EventRing.Laws.{process_interrupt_lem}

abbrev new_ring : ProducerRing ℕ
new_ring = make_producer_ring ℕ 4096

abbrev no_op : Trb
no_op = record { data_0 = 0; data_1 = 0; data_2 = 0; data_3 = 23552 }

push_command_lem_example :
    (r' : ProducerRing ℕ) × (push_command ℕ new_ring no_op (some 7) ≡ ok r')
    × IsValid ℕ r'
    × Pushed ℕ new_ring no_op (some 7) r'
push_command_lem_example =
    push_command_lem ℕ new_ring no_op (some 7) (make_producer_ring-IsValid ℕ 4096)

-- GET_DESCRIPTOR of the 18 bytes of a device descriptor.
abbrev get_descriptor : SetupPacket
get_descriptor = record {
  request_type = 128;
  request = 6;
  value = 256;
  index = 0;
  data_length = 18;
}

abbrev completed : EventTrb
completed = record {
  pointer = 4096;
  length = 0;
  kind = command_completion;
  completion_code = 1;
  slot_id = 1;
  detail = 0;
  ed_flag = false;
}

process_completion-push_command_example :
    (r' : ProducerRing ℕ) × ((push_command ℕ new_ring no_op (some 7) >>= λ r1.
    push_all ℕ r1 ((no_op, none) ∷ []))
      ≡ ok r')
    × (process_completion ℕ r' completed
        ≡ ok (some 7, record r' { completions = put r'.completions 0 none }))
unfolding make_producer_ring
process_completion-push_command_example =
    process_completion-push_command ℕ new_ring no_op (some 7) ((no_op, none) ∷ []) completed
      (make_producer_ring-IsValid ℕ 4096) (omega arith) (omega arith) refl refl

-- A completed command of slot 1 in each place.
abbrev completion_trb : Trb
completion_trb = record { data_0 = 4096; data_1 = 0; data_2 = 16777216; data_3 = 16811009 }

abbrev last_slot : EventRing
last_slot = record {
  dma_ptr = 4096;
  ring_array = λ _. completion_trb;
  dequeue_index = ring_size - 1;
  current_ccs = true;
}

process_interrupt_lem_example :
    process_interrupt 2 last_slot
    ≡ ok (completed ∷ [], record last_slot { dequeue_index = 0; current_ccs = false })
unfolding cycle from_trb
process_interrupt_lem_example =
    process_interrupt_lem (completed ∷ []) last_slot 2 (omega arith) (omega arith)
      (refl, refl, refl) (omega arith)
