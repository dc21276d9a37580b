-- ===== src/Usb/EventRing/Laws.antt =====
-- The events that the loop takes out are those that the controller has put in, in their order.
use bek_os.Common.{
  ℕ, zero, suc, ◌+◌, ◌%◌, ◌<◌, ◌≡◌, refl, sym, ap, ap₂, ◌∙◌, Bool, true, false, not, List, [], ◌∷◌,
  none, some, arith,
}
use bek_os.Common.Tests.{ltb, if◌then◌else◌}
use bek_os.Common.Lists.{length}
use bek_os.Common.Outcome.{ok}
use bek_os.Usb.Trb.{EventTrb, cycle, from_trb}
use bek_os.Usb.ProducerRing.{ring_size, same}
use bek_os.Usb.EventRing.{EventRing, step, process, process_interrupt}

-- The slot and the cycle bit of the event that is `k` places behind the next.
abbrev pub place : EventRing → ℕ → ℕ
place r k = (r.dequeue_index + k) % ring_size

abbrev pub bit_of : EventRing → ℕ → Bool
bit_of r k = if ltb (r.dequeue_index + k) ring_size then r.current_ccs else not r.current_ccs

-- What the controller has put into the ring from a place on: for each event a TRB of the cycle bit
-- that is due there, and behind them one of another cycle bit.
abbrev pub Waiting : EventRing → ℕ → List EventTrb → Type 0
Waiting r k [] = same (cycle (r.ring_array (place r k))) (bit_of r k) ≡ false
Waiting r k (event ∷ events) =
    (same (cycle (r.ring_array (place r k))) (bit_of r k) ≡ true)
    × (from_trb (r.ring_array (place r k)) ≡ ok event)
    × Waiting r (k + 1) events

not-not : (b : Bool) → not (not b) ≡ b
not-not true = refl
not-not false = refl

step_lem :
    (r : EventRing)
    → r.dequeue_index < ring_size
    → step r ≡ record r { dequeue_index = place r 1; current_ccs = bit_of r 1 }
unfolding step
step_lem r h = ground arith

place-step :
    (r : EventRing) (k : ℕ) → r.dequeue_index < ring_size → place (step r) k ≡ place r (k + 1)
place-step r k h = rw (step_lem r h) (omega arith)

step_bit :
    (r : EventRing) (k : ℕ)
    → r.dequeue_index < ring_size
    → k < ring_size
    → bit_of (step r) k ≡ bit_of r (k + 1)
step_bit r k h l = rw (step_lem r h) (ground (arith, not-not r.current_ccs))

step_array : (r : EventRing) → (step r).ring_array ≡ r.ring_array
unfolding step
step_array r = ground arith

Waiting-step :
    (events : List EventTrb) (r : EventRing) (k : ℕ)
    → r.dequeue_index < ring_size
    → k + length events < ring_size
    → Waiting r (k + 1) events
    → Waiting (step r) k events
Waiting-step [] r k h l w = rw (step_array r, place-step r k h, step_bit r k h (omega arith)) w
Waiting-step (event ∷ events) r k h l (here, found, rest) =
    rw (step_array r, place-step r k h, step_bit r k h (omega arith))
      (here, found, Waiting-step events r (k + 1) h (omega arith) rest)

process_event :
    (r : EventRing) (event : EventTrb)
    → same (cycle (r.ring_array r.dequeue_index)) r.current_ccs ≡ true
    → from_trb (r.ring_array r.dequeue_index) ≡ ok event
    → process r ≡ ok (some event, step r)
unfolding process
process_event r event here found = rw (here, found) refl

process-none :
    (r : EventRing)
    → same (cycle (r.ring_array r.dequeue_index)) r.current_ccs ≡ false
    → process r ≡ ok (none, r)
unfolding process
process-none r here = rw here refl

process_interrupt_goes :
    (fuel : ℕ) (r r' r'' : EventRing) (event : EventTrb) (events : List EventTrb)
    → process r ≡ ok (some event, r')
    → process_interrupt fuel r' ≡ ok (events, r'')
    → process_interrupt (suc fuel) r ≡ ok (event ∷ events, r'')
unfolding process_interrupt
process_interrupt_goes fuel r r' r'' event events a b = rw (a, process_interrupt) (rw b refl)

process_interrupt_stops :
    (fuel : ℕ) (r : EventRing)
    → process r ≡ ok (none, r)
    → process_interrupt (suc fuel) r ≡ ok ([], r)
unfolding process_interrupt
process_interrupt_stops fuel r a = rw (a, process_interrupt) refl

here_place : (r : EventRing) → r.dequeue_index < ring_size → place r 0 ≡ r.dequeue_index
here_place r h = omega arith

here_bit : (r : EventRing) → r.dequeue_index < ring_size → bit_of r 0 ≡ r.current_ccs
here_bit r h = ground arith

step_inside : (r : EventRing) → r.dequeue_index < ring_size → (step r).dequeue_index < ring_size
step_inside r h = rw (step_lem r h) (omega arith)

end_step :
    (r : EventRing) (n : ℕ)
    → r.dequeue_index < ring_size
    → n < ring_size
    → record (step r) { dequeue_index = place (step r) n; current_ccs = bit_of (step r) n }
      ≡ record r { dequeue_index = place r (suc n); current_ccs = bit_of r (suc n) }
end_step r n h l = rw (step_lem r h) (
    ap₂ (λ p b. record r { dequeue_index = p; current_ccs = b }) (omega arith)
      (ground (arith, not-not r.current_ccs)))

-- process_interrupt takes fewer than 128 events that the controller has put into the ring out in their
-- order, and stops at the slot behind them, with the cycle bit that is due there; a round for each and
-- one more are enough.
pub process_interrupt_lem :
    (events : List EventTrb) (r : EventRing) (fuel : ℕ)
    → r.dequeue_index < ring_size
    → length events < ring_size
    → Waiting r 0 events
    → length events < fuel
    → process_interrupt fuel r
      ≡ ok (
        events,
        record r {
          dequeue_index = place r (length events);
          current_ccs = bit_of r (length events);
        },
      )
process_interrupt_lem events r zero h l w f = absurd (omega arith)
process_interrupt_lem [] r (suc fuel) h l w f =
    let at = here_place r h in
    let bit = here_bit r h in
    let stop : same (cycle (r.ring_array r.dequeue_index)) r.current_ccs ≡ false =
      rw (at, bit) at w in
    process_interrupt_stops fuel r (process-none r stop)
    ∙ ap₂ (λ p b. ok ([], record r { dequeue_index = p; current_ccs = b })) (sym at) (sym bit)
process_interrupt_lem (event ∷ events) r (suc fuel) h l (here, found, rest) f =
    let at = here_place r h in
    let bit = here_bit r h in
    let here' : same (cycle (r.ring_array r.dequeue_index)) r.current_ccs ≡ true =
      rw (at, bit) at here in
    let found' : from_trb (r.ring_array r.dequeue_index) ≡ ok event = rw at at found in
    let later =
      process_interrupt_lem events (step r) fuel (omega (arith, step_inside r h)) (omega arith)
        (Waiting-step events r 0 h (omega arith) rest) (omega arith) in
    process_interrupt_goes fuel r (step r) _ event events (process_event r event here' found') later
    ∙ ap (λ u. ok (event ∷ events, u)) (end_step r (length events) h (omega arith))
