-- ===== src/Library/RingBuffer/ReadLoop.antt =====
-- ring_buffer::read_to as a whole: what one round does, and that two rounds are enough.
use bek_os.Common.{
  ℕ, zero, suc, ◌+◌, ◌-◌, ◌<◌, ◌≤◌, ◌≡◌, refl, sym, ap, ap₂, ◌∙◌, Bool, true, false, not, List, [],
  ◌++◌, ◌&&◌, ◌||◌, append_assoc, arith, min, inl, inr, subst, dec_lt, ◌⊎◌,
}
use bek_os.Common.Tests.{◌==◌, leb, ltb, if◌then◌else◌, add64, sub64, Bool-cases, word}
use bek_os.Common.Lists.{
  length, slice, splice, drop, take, length-append, length-take, length-drop, splice-splice,
  length-splice, take-append-drop, take-append_self, drop-append_self,
}
use bek_os.Common.Outcome.{ok, err, eagain, ◌>>=◌}
use bek_os.Common.Memory.{memory_read_lem}
use bek_os.Library.TransactionalBuffer.{TransactionalBuffer}
use bek_os.Library.TransactionalBuffer.Laws.{IsLawful}
use bek_os.Library.RingBuffer.{
  RingBuffer, Progress, segment_read_space, pending_bytes, read_segment, read_loop, read_to,
}
use bek_os.Library.RingBuffer.Contents.{IsValid, contents, length-contents}
use bek_os.Library.RingBuffer.Read.{advance_read, contents-advance_read, advance_read-IsValid}

-- segment_read_space with no wrap-around.
segment_read_space_lem :
    {r : RingBuffer}
    → IsValid r
    → segment_read_space r ≡ (
        if leb r.read_idx r.write_idx
        then r.write_idx - r.read_idx
        else length r.buffer - r.read_idx)
unfolding segment_read_space
segment_read_space_lem v = ground arith

segment_read_space_bounds :
    {r : RingBuffer}
    → IsValid r
    → 0 < pending_bytes r
    → (0 < segment_read_space r) × (r.read_idx + segment_read_space r ≤ length r.buffer)
unfolding segment_read_space pending_bytes
segment_read_space_bounds v h = ground arith

-- The rounds of the loop that the bytes in the ring can still ask for.
pub rounds : RingBuffer → ℕ
rounds r = if pending_bytes r == 0 then 0 else if leb r.read_idx r.write_idx then 1 else 2

rounds_pos : (r : RingBuffer) → 0 < pending_bytes r → 0 < rounds r
unfolding rounds
rounds_pos r h = ground arith

pub rounds-le : (r : RingBuffer) → rounds r ≤ 2
unfolding rounds
rounds-le r = ground arith

-- A whole segment read saves a round.
rounds-advance_read :
    {r : RingBuffer}
    → IsValid r
    → 0 < pending_bytes r
    → rounds (advance_read r (segment_read_space r)) < rounds r
unfolding rounds segment_read_space pending_bytes
rounds-advance_read v h = ground arith

zero_more : (n : ℕ) → n + 0 ≡ n
zero_more n = omega arith

module _ (T : TransactionalBuffer) (L : IsLawful T) where
  -- What has happened between two points of a read: the bytes that left the ring stand in the
  -- caller's buffer, from where the count stood.
  pub record Reads (r : RingBuffer) (b : T.Buffer) (done : ℕ) (s : Progress T) : Type 0 where
    pub bytes : List ℕ
    pub took : contents r ≡ bytes ++ contents s.0
    pub put : L.contents s.1 ≡ splice (L.contents b) done bytes
    pub count : s.2 ≡ done + length bytes
    pub fits : s.2 ≤ T.size b
    pub same_size : T.size s.1 ≡ T.size b
    pub valid : IsValid s.0

  Reads-none :
      (r : RingBuffer) (b : T.Buffer) (done : ℕ)
      → IsValid r
      → done ≤ T.size b
      → Reads r b done (r, b, done)
  Reads-none r b done v h = record {
    bytes = [];
    took = refl;
    put = sym (
        ap (λ t. take done (L.contents b) ++ drop t (L.contents b)) (zero_more done)
        ∙ take-append-drop done (L.contents b));
    count = omega arith;
    fits = h;
    same_size = refl;
    valid = v;
  }

  Reads-then :
      {r : RingBuffer} {b : T.Buffer} {done : ℕ} {s t : Progress T}
      → Reads r b done s
      → Reads s.0 s.1 s.2 t
      → Reads r b done t
  Reads-then {b = b} {done = done} {t = t} x y = record {
    bytes = x.bytes ++ y.bytes;
    took =
        x.took ∙ ap (λ t. x.bytes ++ t) y.took ∙ sym (append_assoc x.bytes y.bytes (contents t.0));
    put =
        y.put
        ∙ ap₂ (λ c n. splice c n y.bytes) x.put x.count
        ∙ splice-splice (L.contents b) done x.bytes y.bytes
            (omega (arith, x.count, x.fits, L.size_lem b));
    count = omega (arith, x.count, y.count, length-append x.bytes y.bytes);
    fits = omega (arith, y.fits, x.same_size);
    same_size = y.same_size ∙ x.same_size;
    valid = y.valid;
  }

  read_segment_lem :
      (r : RingBuffer) (b : T.Buffer) (done : ℕ)
      → IsValid r
      → T.size b < word
      → 0 < pending_bytes r
      → done < T.size b
      → (s : Progress T) × (read_segment T r b done ≡ ok s)
        × Reads r b done s
        × ((s.2 ≡ T.size b) ⊎ (rounds s.0 < rounds r))
  unfolding read_segment
  read_segment_lem r b done v small h g =
      let space = segment_read_space r in
      let bounds = segment_read_space_bounds v h in
      let k = min space (sub64 (T.size b) done) in
      let bytes = slice r.read_idx k r.buffer in
      let fits : k ≤ T.size b - done = omega arith in
      let len : length bytes ≡ k =
        omega (arith, length-take k (drop r.read_idx r.buffer), length-drop r.read_idx r.buffer) in
      let (b', run, put) = L.write_lem bytes done b (omega arith) in
      let moved : add64 r.read_idx k ≡ r.read_idx + k = omega arith in
      let counted : add64 done k ≡ done + k = omega arith in
      (
        (advance_read r k, b', done + k),
        rw (memory_read_lem r.buffer r.read_idx k (omega arith), run, moved, counted),
        record {
          bytes = bytes;
          took = contents-advance_read r v k (omega (arith, segment_read_space_lem v));
          put = put;
          count = omega arith;
          fits = omega arith;
          same_size = omega (
            arith,
            L.size_lem b,
            L.size_lem b',
            ap length put,
            length-splice (L.contents b) done bytes,
          );
          valid = advance_read-IsValid r v k (omega arith);
        },
        elim (dec_lt space (T.size b - done)) [
          | yes p ↦
              let whole : space ≡ k = omega arith in
              inr
                (subst (λ n. rounds (advance_read r n) < rounds r) whole (rounds-advance_read v h))
          | no p ↦ inl (omega arith)
        ],
      )

  -- What ends the loop: the ring is empty, or the caller's buffer is full.
  abbrev pub Ends : T.Buffer → Progress T → Type 0
  Ends b s = (pending_bytes s.0 ≡ 0) ⊎ (s.2 ≡ T.size b)

  loop_stops :
      (fuel : ℕ) (r : RingBuffer) (b : T.Buffer) (done : ℕ)
      → (not (pending_bytes r == 0) && ltb done (T.size b)) ≡ false
      → read_loop T (suc fuel) r b done ≡ ok (r, b, done)
  unfolding read_loop
  loop_stops fuel r b done e = rw (e, read_loop)

  loop_steps :
      (fuel : ℕ) (r : RingBuffer) (b : T.Buffer) (done : ℕ)
      → (not (pending_bytes r == 0) && ltb done (T.size b)) ≡ true
      → read_loop T (suc fuel) r b done
        ≡ (read_segment T r b done >>= λ s. read_loop T fuel s.0 s.1 s.2)
  unfolding read_loop
  loop_steps fuel r b done e = rw (e, read_loop)

  pub read_loop_lem :
      (fuel : ℕ) (r : RingBuffer) (b : T.Buffer) (done : ℕ)
      → IsValid r
      → T.size b < word
      → done ≤ T.size b
      → ((done ≡ T.size b) ⊎ (rounds r < suc fuel))
      → (s : Progress T) × (read_loop T (suc fuel) r b done ≡ ok s) × Reads r b done s × Ends b s
  read_loop_lem zero r b done v small h enough =
      elim (Bool-cases (not (pending_bytes r == 0) && ltb done (T.size b))) [
        | inr e ↦ ((r, b, done), loop_stops zero r b done e, Reads-none r b done v h, ground arith)
        | inl e ↦
            let pos : 0 < pending_bytes r = ground arith in
            absurd (ground (arith, rounds_pos r pos))
      ]
  read_loop_lem (suc fuel) r b done v small h enough =
      elim (Bool-cases (not (pending_bytes r == 0) && ltb done (T.size b))) [
        | inr e ↦
            ((r, b, done), loop_stops (suc fuel) r b done e, Reads-none r b done v h, ground arith)
        | inl e ↦
            let (s, run, reads, less) =
              read_segment_lem r b done v small (ground arith) (ground arith) in
            let (t, run', reads', ends) =
              read_loop_lem fuel s.0 s.1 s.2 reads.valid (omega (arith, reads.same_size))
                (omega (arith, reads.fits, reads.same_size)) (ground (arith, reads.same_size)) in
            (
              t,
              loop_steps (suc fuel) r b done e ∙ rw run run',
              Reads-then reads reads',
              ground (arith, reads.same_size),
            )
      ]

  -- What a read that copied leaves: the smaller of the bytes pending and the buffer's size have moved
  -- from the front of the ring's queue to the front of the buffer.
  pub record Moved (r : RingBuffer) (b : T.Buffer) (s : Progress T) : Type 0 where
    pub count : s.2 ≡ min (pending_bytes r) (T.size b)
    pub valid : IsValid s.0
    pub rest : contents s.0 ≡ drop s.2 (contents r)
    pub got : L.contents s.1 ≡ splice (L.contents b) 0 (take s.2 (contents r))

  pub Reads-Moved :
      (r : RingBuffer) (b : T.Buffer) (s : Progress T)
      → IsValid r
      → Reads r b 0 s
      → Ends b s
      → Moved r b s
  Reads-Moved r b s v x ends =
      let whole = length-contents v in
      let left = length-contents x.valid in
      let parts = ap length x.took ∙ length-append x.bytes (contents s.0) in
      let n : s.2 ≡ length x.bytes = omega (arith, x.count) in
      let front = take-append_self x.bytes (contents s.0) in
      let back = drop-append_self x.bytes (contents s.0) in
      record {
        count = elim ends [ inl e ↦ omega (arith, x.fits) | inr e ↦ omega arith ];
        valid = x.valid;
        rest = sym (ap₂ drop n x.took ∙ back);
        got = x.put ∙ ap (λ t. splice (L.contents b) 0 t) (sym (ap₂ take n x.took ∙ front));
      }

  -- Where the assertion of ring_buffer::read_to holds, on a valid ring it answers EAGAIN exactly if a
  -- whole read was asked for and the ring holds too little. Otherwise it ends within two rounds of
  -- copying, and the ring left is valid: the count returned is the smaller of the bytes pending and
  -- the buffer's size, and so many bytes have moved from the front of the ring's queue to the front
  -- of the buffer.
  pub read_to_lem :
      (r : RingBuffer) (b : T.Buffer) (partial : Bool)
      → IsValid r
      → T.size b < word
      → (partial || ltb (T.size b) (length r.buffer)) ≡ true
      → ((partial ≡ false) × (pending_bytes r < T.size b) × (read_to T r b partial ≡ err eagain))
        ⊎ (((partial ≡ true) ⊎ (T.size b ≤ pending_bytes r))
            × (s : Progress T) × (read_to T r b partial ≡ ok s)
            × Moved r b s)
  unfolding read_to
  read_to_lem r b partial v small h =
      elim (Bool-cases (not partial && ltb (pending_bytes r) (T.size b))) [
        | inl e ↦ inl (ground arith, ground arith, rw (h, e))
        | inr e ↦
            let (s, run, reads, ends) =
              read_loop_lem 2 r b 0 v small (omega arith) (inr (omega (arith, rounds-le r))) in
            inr (ground arith, s, rw (h, e) run, Reads-Moved r b s v reads ends)
      ]
