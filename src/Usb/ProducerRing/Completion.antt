-- ===== src/Usb/ProducerRing/Completion.antt =====
-- A completion calls the callback that was pushed with its TRB.
use bek_os.Common.{
  ℕ, ◌+◌, ◌-◌, ◌*◌, ◌/◌, ◌%◌, ◌<◌, ◌≡◌, ◌≢◌, refl, ap, ◌∙◌, true, Option, none, List, [], ◌∷◌,
  arith,
}
use bek_os.Common.Tests.{ltb, sub64, word}
use bek_os.Common.Lists.{length}
use bek_os.Common.Outcome.{Outcome, ok, ◌>>=◌}
use bek_os.Usb.Trb.{Trb, EventTrb}
use bek_os.Usb.ProducerRing.{
  ProducerRing, push_command, process_completion, is_completion, put, ring_size,
}
use bek_os.Usb.ProducerRing.Laws.{IsValid, push_command_lem, put_self, put_other}

module _ (Callback : Type 0) where
  -- The pushes that follow, each with a callback or none.
  abbrev pub push_all :
      ProducerRing Callback → List (Trb × Option Callback) → Outcome (ProducerRing Callback)
  push_all r [] = ok r
  push_all r ((trb, callback) ∷ rest) =
      push_command Callback r trb callback >>= λ r'. push_all r' rest

  -- `k` slots behind index `i`, on the ring.
  abbrev pub on_ring : ℕ → ℕ → ℕ
  on_ring i k = (i + k) % (ring_size - 1)

  -- Further pushes that do not come round to a slot leave its callback.
  push_all_keeps :
      (rest : List (Trb × Option Callback)) (r : ProducerRing Callback) (i k : ℕ)
      → IsValid Callback r
      → i < ring_size - 1
      → r.enqueue_index ≡ on_ring i (k + 1)
      → k + length rest < ring_size - 1
      → (r' : ProducerRing Callback) × (push_all r rest ≡ ok r')
        × IsValid Callback r'
        × (r'.dma_ptr ≡ r.dma_ptr)
        × (r'.completions i ≡ r.completions i)
  push_all_keeps [] r i k v h at room = (r, refl, v, refl, refl)
  push_all_keeps ((trb, callback) ∷ rest) r i k v h at room =
      let (r1, run, v1, p1) = push_command_lem Callback r trb callback v in
      let (r', run', v', base, kept) =
        push_all_keeps rest r1 i (k + 1) v1 h (omega (arith, p1.1)) (omega arith) in
      let apart : i ≢ r.enqueue_index = λ e. omega arith in
      (
        r',
        rw run run',
        v',
        base ∙ p1.0,
        kept ∙ ap (λ f. f i) p1.2 ∙ put_other r.completions r.enqueue_index i callback apart,
      )

  -- In a valid ring whose array is below 2 ^ 64: a TRB that is pushed, and then up to 126 others: the event of its completion, whose pointer is the
  -- address of its slot, calls the callback that it was pushed with, and takes it out of the ring.
  pub process_completion-push_command :
      (r : ProducerRing Callback) (trb : Trb) (callback : Option Callback)
      (rest : List (Trb × Option Callback)) (event : EventTrb)
      → IsValid Callback r
      → length rest < ring_size - 1
      → r.dma_ptr + ring_size * 16 < word
      → is_completion event.kind ≡ true
      → event.pointer ≡ r.dma_ptr + r.enqueue_index * 16
      → (r' : ProducerRing Callback) × ((push_command Callback r trb callback >>= λ r1.
            push_all r1 rest)
          ≡ ok r')
        × (process_completion Callback r' event
            ≡ ok (callback, record r' { completions = put r'.completions r.enqueue_index none }))
  unfolding process_completion
  process_completion-push_command r trb callback rest event v short w kind pointer =
      let (r1, run, v1, p1) = push_command_lem Callback r trb callback v in
      let (r', run', v', base, kept) =
        push_all_keeps rest r1 r.enqueue_index 0 v1 v.0 (omega (arith, p1.1)) (omega arith) in
      let found : r'.completions r.enqueue_index ≡ callback =
        kept ∙ ap (λ f. f r.enqueue_index) p1.2 ∙ put_self r.completions r.enqueue_index callback in
      let base' : r'.dma_ptr ≡ r.dma_ptr = base ∙ p1.0 in
      let index : sub64 event.pointer r'.dma_ptr / 16 ≡ r.enqueue_index = omega (arith, v.0) in
      let inside : ltb r.enqueue_index ring_size ≡ true = ground (arith, v.0) in
      (r', rw run run', rw (kind, index, inside, found) refl)
