-- ===== src/Usb/EventRing.antt =====
-- kernel/include/usb/xhci_ring.h: the ring in which the controller puts events, and the loop of
-- kernel/src/usb/xhci.cpp that takes them out.
pub mod Laws
use bek_os.Common.{
  ℕ, zero, suc, ◌+◌, ◌*◌, Bool, true, false, not, List, [], ◌∷◌, Option, none, some,
}
use bek_os.Common.Tests.{◌==◌, if◌then◌else◌}
use bek_os.Common.Outcome.{Outcome, ok, spin, ◌>>=◌}
use bek_os.Usb.Trb.{Trb, EventTrb, cycle, from_trb, zero_trb}
use bek_os.Usb.ProducerRing.{ring_size, same}

-- The array is memory that the controller writes, too: `ring_array` is what stands in it when the
-- events are taken out.
pub record EventRing : Type 0 where
  pub dma_ptr : ℕ
  pub ring_array : ℕ → Trb
  pub dequeue_index : ℕ
  pub current_ccs : Bool

unfoldable pub make_event_ring : ℕ → EventRing
make_event_ring dma_ptr = record {
  dma_ptr = dma_ptr;
  ring_array = λ _. zero_trb;
  dequeue_index = 0;
  current_ccs = true;
}

-- The ring behind the slot that is read.
unfoldable pub step : EventRing → EventRing
step r =
    if r.dequeue_index + 1 == ring_size
    then record r { dequeue_index = 0; current_ccs = not r.current_ccs }
    else record r { dequeue_index = r.dequeue_index + 1 }

unfoldable pub process : EventRing → Outcome (Option EventTrb × EventRing)
unfolding step
process r =
    let trb = r.ring_array r.dequeue_index in
    if same (cycle trb) r.current_ccs
    then (from_trb trb >>= λ event. ok (some event, step r))
    else ok (none, r)

unfoldable pub current_ring_dma_ptr : EventRing → ℕ
current_ring_dma_ptr r = r.dma_ptr + r.dequeue_index * 16

-- The loop of process_interrupt, for at most so many rounds: the events in the order in which the
-- callback is called with them, and the ring whose place the controller is told.
unfoldable pub process_interrupt : ℕ → EventRing → Outcome (List EventTrb × EventRing)
process_interrupt zero r = spin
process_interrupt (suc fuel) r = process r >>= λ (found, r'). elim found [
  | none ↦ ok ([], r')
  | some event ↦ process_interrupt fuel r' >>= λ (events, r''). ok (event ∷ events, r'')
]
