-- ===== src/Usb/ProducerRing/Laws.antt =====
-- The cycle bits say which slots are the controller's, and a push never finds its slot taken.
use bek_os.Common.{
  ℕ, ◌+◌, ◌-◌, ◌*◌, ◌%◌, ◌^◌, ◌<◌, ◌≤◌, ◌≡◌, ◌≢◌, refl, ap, ◌∙◌, Bool, true, false, not, ◌||◌, inl,
  inr, ◌⊎◌, Option, none, arith,
}
use bek_os.Common.Tests.{◌==◌, ltb, leb, if◌then◌else◌, Bool-cases}
use bek_os.Common.Outcome.{ok}
use bek_os.Usb.Trb.{
  Trb, SetupPacket, create, data_stage, type_code, cycle, set_cycle, make_setup, make_status,
  make_data_stage, direction_in,
}
use bek_os.Usb.ProducerRing.{
  ProducerRing, make_producer_ring, advance, push_command, push_data_stage, push_control_transfer,
  link_trb, put, ring_size, same, is_some,
}

cycle-set_cycle : (trb : Trb) (c : Bool) → cycle (set_cycle trb c) ≡ c
unfolding cycle set_cycle
cycle-set_cycle trb true = ground arith
cycle-set_cycle trb false = ground arith

same_not : (b : Bool) → same (not b) b ≡ false
same_not true = refl
same_not false = refl

pub put_self {ℓ} : {A : Type ℓ} (f : ℕ → A) (i : ℕ) (v : A) → put f i v i ≡ v
put_self f i v = ground arith

pub put_other {ℓ} : {A : Type ℓ} (f : ℕ → A) (i j : ℕ) (v : A) → j ≢ i → put f i v j ≡ f j
put_other f i j v h = ground arith

module _ (Callback : Type 0) where
  -- The slots before the index have the cycle bit of the round, and the others that of the last round.
  abbrev pub IsValid : ProducerRing Callback → Type 0
  IsValid r =
      (r.enqueue_index < ring_size - 1)
      × ((j : ℕ)
          → j < ring_size - 1
          → cycle (r.ring_array j)
            ≡ (if ltb j r.enqueue_index then r.current_pcs else not r.current_pcs))

  -- A new ring is valid.
  pub make_producer_ring-IsValid : (dma_ptr : ℕ) → IsValid (make_producer_ring Callback dma_ptr)
  unfolding make_producer_ring cycle
  make_producer_ring-IsValid dma_ptr = (omega arith, λ j h. ground arith)

  -- The link of a ring at this address: its address in two halves, and the type, the toggle bit and
  -- the cycle bit.
  abbrev pub IsLink : ℕ → Bool → Trb → Type 0
  IsLink dma_ptr c trb =
      (trb.data_0 + trb.data_1 * 2 ^ 32 ≡ dma_ptr)
      × (trb.data_0 < 2 ^ 32)
      × (trb.data_2 ≡ 0)
      × (trb.data_3 ≡ 6 * 1024 + 2 + (if c then 1 else 0))

  -- The end of the ring: behind the last slot but one, the last slot has the link with the round's
  -- cycle bit and the round is over; otherwise the last slot and the round are what they were.
  abbrev pub Ended : ProducerRing Callback → ProducerRing Callback → Type 0
  Ended r r' =
      ((r.enqueue_index + 1 ≡ ring_size - 1)
        × IsLink r.dma_ptr r.current_pcs (r'.ring_array (ring_size - 1))
        × (r'.current_pcs ≡ not r.current_pcs))
      ⊎ ((r.enqueue_index + 1 < ring_size - 1)
          × (r'.ring_array (ring_size - 1) ≡ r.ring_array (ring_size - 1))
          × (r'.current_pcs ≡ r.current_pcs))

  -- The slots but that of the index and the last are what they were.
  abbrev pub Kept : ProducerRing Callback → ProducerRing Callback → Type 0
  Kept r r' = (j : ℕ) → j < ring_size - 1 → j ≢ r.enqueue_index → r'.ring_array j ≡ r.ring_array j

  -- What push_command leaves: the callback and the TRB with the cycle bit in the slot, the index
  -- behind it, the end of the ring and the other slots.
  abbrev pub Pushed : ProducerRing Callback → Trb → Option Callback → ProducerRing Callback → Type 0
  Pushed r trb callback r' =
      (r'.dma_ptr ≡ r.dma_ptr)
      × (r'.enqueue_index ≡ (r.enqueue_index + 1) % (ring_size - 1))
      × (r'.completions ≡ put r.completions r.enqueue_index callback)
      × (r'.ring_array r.enqueue_index ≡ set_cycle trb r.current_pcs)
      × Ended r r'
      × Kept r r'

  -- The slots up to the index have the cycle bit of the round.
  abbrev Filled : ProducerRing Callback → Type 0
  Filled r =
      (r.enqueue_index < ring_size - 1)
      × ((j : ℕ)
          → j < ring_size - 1
          → cycle (r.ring_array j)
            ≡ (if leb j r.enqueue_index then r.current_pcs else not r.current_pcs))

  abbrev Advanced : ProducerRing Callback → ProducerRing Callback → Type 0
  Advanced r r' =
      (r'.dma_ptr ≡ r.dma_ptr)
      × (r'.enqueue_index ≡ (r.enqueue_index + 1) % (ring_size - 1))
      × (r'.completions ≡ r.completions)
      × (r'.ring_array r.enqueue_index ≡ r.ring_array r.enqueue_index)
      × Ended r r'
      × Kept r r'

  advance_around :
      (r : ProducerRing Callback)
      → Filled r
      → (r.enqueue_index + 1 == ring_size - 1) ≡ true
      → IsValid (advance Callback r) × Advanced r (advance Callback r)
  unfolding advance link_trb type_code
  advance_around r f e = rw e (
    (omega arith, λ j h. ground (arith, f.1 j h)),
    (
      refl,
      ground arith,
      refl,
      ground arith,
      inl (ground arith, ground arith, refl),
      λ j h k. ground arith,
    ),
  )

  advance_on :
      (r : ProducerRing Callback)
      → Filled r
      → (r.enqueue_index + 1 == ring_size - 1) ≡ false
      → IsValid (advance Callback r) × Advanced r (advance Callback r)
  unfolding advance
  advance_on r f e = rw e (
    (ground arith, λ j h. ground (arith, f.1 j h)),
    (refl, ground arith, refl, refl, inr (ground arith, refl, refl), λ j h k. refl),
  )

  advance_lem :
      (r : ProducerRing Callback)
      → Filled r
      → IsValid (advance Callback r) × Advanced r (advance Callback r)
  advance_lem r f = elim (Bool-cases (r.enqueue_index + 1 == ring_size - 1)) [
    | inl e ↦ advance_around r f e
    | inr e ↦ advance_on r f e
  ]

  -- The slot of the index is not the last.
  Ended-put :
      (r : ProducerRing Callback) (trb : Trb) (callback : Option Callback)
      (r' : ProducerRing Callback)
      → r.enqueue_index < ring_size - 1
      → Ended
          (record r {
            completions = put r.completions r.enqueue_index callback;
            ring_array = put r.ring_array r.enqueue_index (set_cycle trb r.current_pcs);
          })
          r'
      → Ended r r'
  Ended-put r trb callback r' h (inl e) = inl e
  Ended-put r trb callback r' h (inr e) =
      let last =
        put_other r.ring_array r.enqueue_index (ring_size - 1) (set_cycle trb r.current_pcs)
          (λ k. absurd (omega arith)) in
      inr (e.0, e.1 ∙ last, e.2)

  -- push_command in a valid ring finds its slot free, and leaves a valid ring with the callback and the TRB of the round's cycle bit in that slot, and the index at the next of
  -- the 127 slots. Behind the last of these, the link back to the ring's address, with the round's
  -- cycle bit, is put into the slot at the end and the cycle bit changes; otherwise both are kept. The
  -- other slots are kept in either case.
  pub push_command_lem :
      (r : ProducerRing Callback) (trb : Trb) (callback : Option Callback)
      → IsValid r
      → (r' : ProducerRing Callback) × (push_command Callback r trb callback ≡ ok r')
        × IsValid r'
        × Pushed r trb callback r'
  unfolding push_command
  push_command_lem r trb callback v =
      let r1 : ProducerRing Callback = record r {
        completions = put r.completions r.enqueue_index callback;
        ring_array = put r.ring_array r.enqueue_index (set_cycle trb r.current_pcs);
      } in
      let bit = cycle-set_cycle trb r.current_pcs in
      let filled : Filled r1 = (v.0, λ j h. ground (arith, v.1 j h)) in
      let free : same (cycle (r.ring_array r.enqueue_index)) r.current_pcs ≡ false =
        ground (arith, v.1 r.enqueue_index v.0) in
      let slot : r1.ring_array r.enqueue_index ≡ set_cycle trb r.current_pcs = ground arith in
      let (valid, (base, index, callbacks, kept, end, others)) = advance_lem r1 filled in
      (
        advance Callback r1,
        rw (free, push_command) refl,
        valid,
        (
          base,
          index,
          callbacks,
          kept ∙ slot,
          Ended-put r trb callback (advance Callback r1) v.0 end,
          λ j h k. others j h k ∙ put_other r.ring_array r.enqueue_index j _ k,
        ),
      )

  push_data_stage_lem :
      (r : ProducerRing Callback) (with_data : Bool) (data_dma_ptr data_size : ℕ) (data_in : Bool)
      → IsValid r
      → data_size ≤ 65536
      → (r' : ProducerRing Callback) × (push_data_stage Callback r with_data data_dma_ptr data_size
            data_in
          ≡ ok r')
        × IsValid r'
        × (r'.enqueue_index ≡ (r.enqueue_index + (if with_data then 1 else 0)) % (ring_size - 1))
  unfolding push_data_stage make_data_stage
  push_data_stage_lem r true data_dma_ptr data_size data_in v h =
      let fits : leb data_size (64 * 1024) ≡ true = ground arith in
      let trb =
        create data_stage data_dma_ptr (data_size % 2 ^ 17) (0 + (if data_in then 2 ^ 16 else 0)) in
      let (r', run, valid, pushed) = push_command_lem r trb none v in
      (r', rw fits run, valid, pushed.1)
  push_data_stage_lem r false data_dma_ptr data_size data_in v h = (r, refl, v, omega (arith, v.0))

  push_control_transfer_steps :
      (r r1 r2 r3 : ProducerRing Callback) (packet : SetupPacket) (data_dma_ptr data_size : ℕ)
      (callback : Option Callback)
      → data_size ≤ 65536
      → data_size ≡ packet.data_length
      → push_command Callback r
          (make_setup packet (not (data_size == 0)) (direction_in packet))
          none
        ≡ ok r1
      → push_data_stage Callback r1
          (not (data_size == 0))
          data_dma_ptr
          data_size
          (direction_in packet)
        ≡ ok r2
      → push_command Callback r2
          (make_status (data_size == 0 || not (direction_in packet)) (is_some Callback callback))
          callback
        ≡ ok r3
      → push_control_transfer Callback r packet data_dma_ptr data_size callback ≡ ok r3
  unfolding push_control_transfer
  push_control_transfer_steps r r1 r2 r3 packet data_dma_ptr data_size callback h e a b c =
      let fits : leb data_size (64 * 1024) ≡ true = ground arith in
      let agrees : (data_size == packet.data_length) ≡ true = ground arith in
      rw (fits, agrees, a) (rw b c)

  -- push_control_transfer of a packet whose length is that of the data, and at most 64 KiB, in a valid
  -- ring: two blocks, or three if there is data, are pushed and the ring stays valid. The callback
  -- stands in the slot of the last.
  pub push_control_transfer_lem :
      (r : ProducerRing Callback) (packet : SetupPacket) (data_dma_ptr data_size : ℕ)
      (callback : Option Callback)
      → IsValid r
      → data_size ≤ 65536
      → data_size ≡ packet.data_length
      → let blocks : ℕ = if data_size == 0 then 2 else 3 in
        (r' : ProducerRing Callback) × (push_control_transfer Callback r packet data_dma_ptr
            data_size callback
          ≡ ok r')
        × IsValid r'
        × (r'.enqueue_index ≡ (r.enqueue_index + blocks) % (ring_size - 1))
        × (r'.completions ((r.enqueue_index + blocks - 1) % (ring_size - 1)) ≡ callback)
  push_control_transfer_lem r packet data_dma_ptr data_size callback v h e =
      let with_data = not (data_size == 0) in
      let data_in = direction_in packet in
      let (r1, a, v1, p1) = push_command_lem r (make_setup packet with_data data_in) none v in
      let (r2, b, v2, i2) = push_data_stage_lem r1 with_data data_dma_ptr data_size data_in v1 h in
      let (r3, c, v3, p3) =
        push_command_lem r2
          (make_status (data_size == 0 || not data_in) (is_some Callback callback)) callback v2 in
      let blocks : ℕ = if data_size == 0 then 2 else 3 in
      let at : (r.enqueue_index + blocks - 1) % (ring_size - 1) ≡ r2.enqueue_index =
        ground (arith, p1.1, i2) in
      (
        r3,
        push_control_transfer_steps r r1 r2 r3 packet data_dma_ptr data_size callback h e a b c,
        v3,
        ground (arith, p1.1, i2, p3.1),
        ap r3.completions at
            ∙ ap (λ f. f r2.enqueue_index) p3.2
            ∙ put_self r2.completions r2.enqueue_index callback,
      )
