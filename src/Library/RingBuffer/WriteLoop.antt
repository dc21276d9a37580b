-- ===== src/Library/RingBuffer/WriteLoop.antt =====
-- ring_buffer::write_to as a whole: what one round does, and that two rounds are enough.
use bek_os.Common.{
  ℕ, zero, suc, ◌+◌, ◌-◌, ◌<◌, ◌≤◌, ◌≡◌, refl, sym, ap, ap₂, ◌∙◌, Bool, true, false, not, List, [],
  ◌++◌, ◌&&◌, append_assoc, append-nil, arith, min, inl, inr, ◌⊎◌, dec_lt,
}
use bek_os.Common.Tests.{◌==◌, leb, ltb, if◌then◌else◌, add64, sub64, Bool-cases, word}
use bek_os.Common.Lists.{
  length, slice, drop, take, length-append, length-take, length-drop, take-add, drop-drop,
}
use bek_os.Common.Outcome.{ok, err, eagain, ◌>>=◌}
use bek_os.Common.Memory.{memory_write_lem}
use bek_os.Library.TransactionalBuffer.{TransactionalBuffer}
use bek_os.Library.TransactionalBuffer.Laws.{IsLawful}
use bek_os.Library.RingBuffer.{
  RingBuffer, Progress, segment_write_space, free_bytes, write_segment, write_loop, write_to,
}
use bek_os.Library.RingBuffer.Contents.{IsValid, contents, pending_bytes-free_bytes}
use bek_os.Library.RingBuffer.Write.{
  advance_write, room, contents-advance_write, advance_write-IsValid, in_array, same_length,
}

pub segment_write_space_lem : {r : RingBuffer} → IsValid r → segment_write_space r ≡ room r
unfolding segment_write_space
segment_write_space_lem v = ground arith

-- The rounds of the loop that the room in the ring can still ask for.
pub rounds : RingBuffer → ℕ
rounds r =
    if free_bytes r == 0
    then 0
    else if leb r.read_idx r.write_idx
    then (if r.read_idx == 0 then 1 else 2)
    else 1

pub rounds_pos : (r : RingBuffer) → 0 < free_bytes r → 0 < rounds r
unfolding rounds
rounds_pos r h = ground arith

pub rounds-le : (r : RingBuffer) → rounds r ≤ 2
unfolding rounds
rounds-le r = ground arith

pub room_pos : {r : RingBuffer} → IsValid r → 0 < free_bytes r → 0 < room r
unfolding free_bytes
room_pos v h = ground arith

-- A whole segment written saves a round.
rounds-advance_write :
    (r : RingBuffer) (bytes : List ℕ)
    → IsValid r
    → 0 < free_bytes r
    → length bytes ≡ room r
    → rounds (advance_write r bytes) < rounds r
unfolding rounds free_bytes
rounds-advance_write r bytes v h e = ground (arith, same_length r v bytes (omega arith))

module _ (T : TransactionalBuffer) (L : IsLawful T) where
  -- What has happened between two points of a write: bytes of the caller's buffer, from where the
  -- count stood, have come to the end of the ring's queue.
  pub record Writes (r : RingBuffer) (b : T.Buffer) (done : ℕ) (s : Progress T) : Type 0 where
    pub bytes : List ℕ
    pub put : contents s.0 ≡ contents r ++ bytes
    pub from : bytes ≡ slice done (length bytes) (L.contents b)
    pub same : s.1 ≡ b
    pub count : s.2 ≡ done + length bytes
    pub fits : s.2 ≤ T.size b
    pub valid : IsValid s.0
    pub capacity : length s.0.buffer ≡ length r.buffer

  pub Writes-none :
      (r : RingBuffer) (b : T.Buffer) (done : ℕ)
      → IsValid r
      → done ≤ T.size b
      → Writes r b done (r, b, done)
  Writes-none r b done v h = record {
    bytes = [];
    put = sym (append-nil (contents r));
    from = refl;
    same = refl;
    count = omega arith;
    fits = h;
    valid = v;
    capacity = refl;
  }

  pub Writes-then :
      {r : RingBuffer} (b : T.Buffer) {done : ℕ} {s t : Progress T}
      → Writes r b done s
      → Writes s.0 b s.2 t
      → Writes r b done t
  Writes-then {r} b {done} x y =
      let n = length-append x.bytes y.bytes in
      let d = drop-drop done (length x.bytes) (done + length x.bytes) (L.contents b) refl in
      let a =
        take-add (length x.bytes) (length y.bytes) (length (x.bytes ++ y.bytes))
          (drop done (L.contents b)) n in
      let y' = y.from ∙ ap (λ t. slice t (length y.bytes) (L.contents b)) x.count in
      record {
        bytes = x.bytes ++ y.bytes;
        put = y.put ∙ ap (λ t. t ++ y.bytes) x.put ∙ append_assoc (contents r) x.bytes y.bytes;
        from = ap₂ ◌++◌ x.from (y' ∙ ap (λ t. take (length y.bytes) t) (sym d)) ∙ sym a;
        same = y.same;
        count = omega (arith, x.count, y.count);
        fits = y.fits;
        valid = y.valid;
        capacity = y.capacity ∙ x.capacity;
      }

  pub write_segment_lem :
      (r : RingBuffer) (b : T.Buffer) (done : ℕ)
      → IsValid r
      → T.size b < word
      → done < T.size b
      → (s : Progress T) × (write_segment T r b done ≡ ok s)
        × Writes r b done s
        × (0 < free_bytes r → (s.2 ≡ T.size b) ⊎ (rounds s.0 < rounds r))
        × (s.2 ≡ done + min (room r) (T.size b - done))
  unfolding write_segment
  write_segment_lem r b done v small g =
      let space = segment_write_space r in
      let exact = segment_write_space_lem v in
      let k = min space (sub64 (T.size b) done) in
      let fits : k ≤ T.size b - done = omega arith in
      let bytes = slice done k (L.contents b) in
      let len : length bytes ≡ k = omega (
        arith,
        length-take k (drop done (L.contents b)),
        length-drop done (L.contents b),
        L.size_lem b,
      ) in
      let within : length bytes ≤ room r = omega arith in
      let array = in_array r v bytes within in
      let moved : add64 r.write_idx k ≡ r.write_idx + length bytes = omega arith in
      let counted : add64 done k ≡ done + k = omega arith in
      (
        (advance_write r bytes, b, done + k),
        rw (
          L.read_lem k done b (omega arith),
          memory_write_lem r.buffer r.write_idx bytes array,
          moved,
          counted,
        ),
        record {
          bytes = bytes;
          put = contents-advance_write r v bytes within;
          from = ap (λ n. slice done n (L.contents b)) (sym len);
          same = refl;
          count = omega arith;
          fits = omega arith;
          valid = advance_write-IsValid r v bytes within;
          capacity = same_length r v bytes within;
        },
        λ h. elim (dec_lt space (T.size b - done)) [
          | yes p ↦ inr (rounds-advance_write r bytes v h (omega arith))
          | no p ↦ inl (omega arith)
        ],
        omega arith,
      )

  -- What ends the loop: the ring is full, or the caller's buffer is empty.
  abbrev pub Ends : T.Buffer → Progress T → Type 0
  Ends b s = (free_bytes s.0 ≡ 0) ⊎ (s.2 ≡ T.size b)

  loop_stops :
      (fuel : ℕ) (r : RingBuffer) (b : T.Buffer) (done : ℕ)
      → (not (free_bytes r == 0) && ltb done (T.size b)) ≡ false
      → write_loop T (suc fuel) r b done ≡ ok (r, b, done)
  unfolding write_loop
  loop_stops fuel r b done e = rw (e, write_loop)

  loop_steps :
      (fuel : ℕ) (r : RingBuffer) (b : T.Buffer) (done : ℕ)
      → (not (free_bytes r == 0) && ltb done (T.size b)) ≡ true
      → write_loop T (suc fuel) r b done
        ≡ (write_segment T r b done >>= λ s. write_loop T fuel s.0 s.1 s.2)
  unfolding write_loop
  loop_steps fuel r b done e = rw (e, write_loop)

  write_loop_lem :
      (fuel : ℕ) (r : RingBuffer) (b : T.Buffer) (done : ℕ)
      → IsValid r
      → T.size b < word
      → done ≤ T.size b
      → ((done ≡ T.size b) ⊎ (rounds r < suc fuel))
      → (s : Progress T) × (write_loop T (suc fuel) r b done ≡ ok s) × Writes r b done s × Ends b s
  write_loop_lem zero r b done v small h enough =
      elim (Bool-cases (not (free_bytes r == 0) && ltb done (T.size b))) [
        | inr e ↦ ((r, b, done), loop_stops zero r b done e, Writes-none r b done v h, ground arith)
        | inl e ↦
            let pos : 0 < free_bytes r = ground arith in absurd (ground (arith, rounds_pos r pos))
      ]
  write_loop_lem (suc fuel) r b done v small h enough =
      elim (Bool-cases (not (free_bytes r == 0) && ltb done (T.size b))) [
        | inr e ↦
            ((r, b, done), loop_stops (suc fuel) r b done e, Writes-none r b done v h, ground arith)
        | inl e ↦
            let (s, run, writes, progress, counted) =
              write_segment_lem r b done v small (ground arith) in
            let less = progress (ground arith) in
            let (t, run', writes', ends) =
              write_loop_lem fuel s.0 b s.2 writes.valid small writes.fits (ground arith) in
            (
              t,
              loop_steps (suc fuel) r b done e
                  ∙ rw run (ap (λ c. write_loop T (suc fuel) s.0 c s.2) writes.same ∙ run'),
              Writes-then b writes writes',
              ends,
            )
      ]

  -- What a write that copied leaves: the smaller of the bytes free and the buffer's size have been
  -- appended to the ring's queue, from the front of the buffer, which stays as it was.
  pub record Appended (r : RingBuffer) (b : T.Buffer) (s : Progress T) : Type 0 where
    pub count : s.2 ≡ min (free_bytes r) (T.size b)
    pub valid : IsValid s.0
    pub queue : contents s.0 ≡ contents r ++ take s.2 (L.contents b)
    pub same : s.1 ≡ b

  pub Writes-Appended :
      (r : RingBuffer) (b : T.Buffer) (s : Progress T)
      → IsValid r
      → Writes r b 0 s
      → Ends b s
      → Appended r b s
  Writes-Appended r b s v x ends =
      let before = pending_bytes-free_bytes v in
      let after = pending_bytes-free_bytes x.valid in
      let parts = ap length x.put ∙ length-append (contents r) x.bytes in
      let n : s.2 ≡ length x.bytes = omega (arith, x.count) in
      record {
        count = elim ends [
          | inl e ↦ omega (arith, x.fits, x.capacity)
          | inr e ↦ omega (arith, x.capacity)
        ];
        valid = x.valid;
        queue =
            x.put ∙ ap (λ t. contents r ++ t) (x.from ∙ ap (λ k. take k (L.contents b)) (sym n));
        same = x.same;
      }

  -- On a valid ring, ring_buffer::write_to answers EAGAIN exactly if a whole write was asked for and
  -- the ring has too little room. Otherwise it ends within two rounds of copying, and the ring left is
  -- valid: the count returned is the smaller of the bytes free and the buffer's size, and so many
  -- bytes from the front of the caller's buffer stand at the end of the ring's queue.
  pub write_to_lem :
      (r : RingBuffer) (b : T.Buffer) (partial : Bool)
      → IsValid r
      → T.size b < word
      → ((partial ≡ false) × (free_bytes r < T.size b) × (write_to T r b partial ≡ err eagain))
        ⊎ (((partial ≡ true) ⊎ (T.size b ≤ free_bytes r))
            × (s : Progress T) × (write_to T r b partial ≡ ok s)
            × Appended r b s)
  unfolding write_to
  write_to_lem r b partial v small =
      elim (Bool-cases (ltb (free_bytes r) (T.size b) && not partial)) [
        | inl e ↦ inl (ground arith, ground arith, rw e)
        | inr e ↦
            let (s, run, writes, ends) =
              write_loop_lem 2 r b 0 v small (omega arith) (inr (omega (arith, rounds-le r))) in
            inr (ground arith, s, rw e run, Writes-Appended r b s v writes ends)
      ]
