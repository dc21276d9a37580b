-- ===== src/Usb/ProducerRing.antt =====
-- kernel/include/usb/xhci_ring.h and kernel/src/usb/xhci_ring.cpp: the ring in which the kernel puts
-- commands and transfers for the controller, with a callback for each.
pub mod Laws
pub mod Completion
use bek_os.Common.{
  ℕ, ◌+◌, ◌-◌, ◌*◌, ◌/◌, ◌%◌, ◌^◌, Bool, true, false, ◌&&◌, ◌||◌, not, Option, none, some,
}
use bek_os.Common.Tests.{◌==◌, ltb, leb, if◌then◌else◌, sub64}
use bek_os.Common.Outcome.{Outcome, ok, panic, ◌>>=◌, ◌>>◌, verify}
use bek_os.Usb.Trb.{
  Trb, TrbType, EventTrb, SetupPacket, zero_trb, cycle, set_cycle, create, link, type_code,
  transfer_event, command_completion, direction_in, make_setup, make_data_stage, make_status,
}

abbrev pub ring_size : ℕ
ring_size = 128

-- A write to a slot of an array.
abbrev pub put {ℓ} : {A : Type ℓ} → (ℕ → A) → ℕ → A → ℕ → A
put f i v j = if j == i then v else f j

abbrev pub same : Bool → Bool → Bool
same true b = b
same false b = not b

abbrev pub is_completion : TrbType → Bool
is_completion command_completion = true
is_completion transfer_event = true
is_completion _ = false

-- The arrays are functions of the index, which the operations keep below ring_size. `Callback` is
-- the type of the callbacks; an empty one is `none`.
module _ (Callback : Type 0) where
  pub record ProducerRing : Type 0 where
    pub dma_ptr : ℕ
    pub ring_array : ℕ → Trb
    pub enqueue_index : ℕ
    pub current_pcs : Bool
    pub completions : ℕ → Option Callback

  unfoldable pub make_producer_ring : ℕ → ProducerRing
  make_producer_ring dma_ptr = record {
    dma_ptr = dma_ptr;
    ring_array = λ _. zero_trb;
    enqueue_index = 0;
    current_pcs = true;
    completions = λ _. none;
  }

  -- The TRB at the end of the ring, which leads back to its start.
  unfoldable pub link_trb : ProducerRing → Trb
  unfolding type_code
  link_trb r = record {
    data_0 = r.dma_ptr % 2 ^ 32;
    data_1 = r.dma_ptr / 2 ^ 32;
    data_2 = 0;
    data_3 = type_code link * 2 ^ 10 + 2 ^ 1 + (if r.current_pcs then 1 else 0);
  }

  -- The last part of push_command: the index goes on, and back to the start behind the last slot but
  -- one.
  unfoldable pub advance : ProducerRing → ProducerRing
  unfolding link_trb
  advance r =
      let next = r.enqueue_index + 1 in
      if next == ring_size - 1
      then record r {
        ring_array = put r.ring_array next (link_trb r);
        enqueue_index = 0;
        current_pcs = not r.current_pcs;
      }
      else record r { enqueue_index = next }

  unfoldable pub push_command : ProducerRing → Trb → Option Callback → Outcome ProducerRing
  unfolding advance
  push_command r raw_trb callback = do
    verify (not (same (cycle (r.ring_array r.enqueue_index)) r.current_pcs))
    ok (
        advance (record r {
          completions = put r.completions r.enqueue_index callback;
          ring_array = put r.ring_array r.enqueue_index (set_cycle raw_trb r.current_pcs);
        }))

  -- The callback that is called, and the ring that it is taken out of.
  unfoldable pub process_completion :
      ProducerRing → EventTrb → Outcome (Option Callback × ProducerRing)
  process_completion r trb = do
    verify (is_completion trb.kind)
    let index = sub64 trb.pointer r.dma_ptr / 16
    verify (ltb index ring_size)
    ok (r.completions index, record r { completions = put r.completions index none })

  abbrev pub is_some : Option Callback → Bool
  is_some none = false
  is_some (some c) = true

  -- The data stage of a control transfer, if there is one.
  unfoldable pub push_data_stage : ProducerRing → Bool → ℕ → ℕ → Bool → Outcome ProducerRing
  push_data_stage r true data_dma_ptr data_size data_in = do
    trb ← make_data_stage data_dma_ptr data_size false data_in
    push_command r trb none
  push_data_stage r false data_dma_ptr data_size data_in = ok r

  -- The data buffer is its address and its size.
  unfoldable pub push_control_transfer :
      ProducerRing → SetupPacket → ℕ → ℕ → Option Callback → Outcome ProducerRing
  push_control_transfer r packet data_dma_ptr data_size callback = do
    let with_data = not (data_size == 0)
    let data_in = direction_in packet
    let status_in = data_size == 0 || not (direction_in packet)
    verify (leb data_size (64 * 1024))
    verify (data_size == packet.data_length)
    r' ← push_command r (make_setup packet with_data data_in) none
    r'' ← push_data_stage r' with_data data_dma_ptr data_size data_in
    push_command r'' (make_status status_in (is_some callback)) callback
