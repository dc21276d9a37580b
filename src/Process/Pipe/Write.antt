-- ===== src/Process/Pipe/Write.antt =====
-- Pipe::write puts the whole buffer into the pipe, in order, whatever a reader takes meanwhile.
use bek_os.Common.{
  ℕ, zero, suc, ◌+◌, ◌-◌, ◌<◌, ◌≤◌, ◌≡◌, refl, sym, ap, ap₂, ◌∙◌, Bool, true, false, not, List, [],
  ◌∷◌, ◌++◌, ◌&&◌, append_assoc, append-nil, arith, inl, inr, ◌⊎◌, dec_lt,
}
use bek_os.Common.Tests.{ltb, Bool-cases, word}
use bek_os.Common.Lists.{
  length, drop, length-append, drop-drop, replicate, drop_all, take-append-drop,
}
use bek_os.Common.Outcome.{Outcome, ok, err, panic, fault, eagain, spin, ◌>>=◌}
use bek_os.Library.TransactionalBuffer.{TransactionalBuffer}
use bek_os.Library.TransactionalBuffer.Laws.{IsLawful}
use bek_os.Library.RingBuffer.{Progress, free_bytes, write_segment}
use bek_os.Library.RingBuffer.Contents.{IsValid, contents, pending_bytes-free_bytes}
use bek_os.Library.RingBuffer.WriteLoop.{
  rounds, rounds-le, rounds_pos, room_pos, Writes, Writes-none, Writes-then, write_segment_lem,
  Appended, Writes-Appended,
}
use bek_os.Process.Pipe.{Pipe, write_loop, write}

-- Nobody else touches the pipe for so many rounds.
abbrev pub quiet : ℕ → List (Pipe → Pipe)
quiet n = replicate n (λ p. p)

-- What a reader takes off a pipe between two rounds, and the pipe that it leaves.
abbrev pub Reader : Type 0
Reader = Pipe → List ℕ × Pipe

abbrev pub actions : List Reader → List (Pipe → Pipe)
actions [] = []
actions (reader ∷ readers) = (λ p. (reader p).1) ∷ actions readers

module _ (T : TransactionalBuffer) (L : IsLawful T) where
  loop_stops :
      (other : Pipe → Pipe) (others : List (Pipe → Pipe)) (p : Pipe) (b : T.Buffer) (done : ℕ)
      → T.size b ≤ done
      → write_loop T (other ∷ others) p b done ≡ ok (other p, b, done)
  unfolding write_loop
  loop_stops other others p b done h =
      let e : ltb done (T.size b) ≡ false = ground arith in rw (e, write_loop)

  loop_steps :
      (other : Pipe → Pipe) (others : List (Pipe → Pipe)) (p : Pipe) (b : T.Buffer) (done : ℕ)
      → done < T.size b
      → write_loop T (other ∷ others) p b done
        ≡ (write_segment T (other p) b done >>= λ s. write_loop T others s.0 s.1 s.2)
  unfolding write_loop
  loop_steps other others p b done h =
      let e : ltb done (T.size b) ≡ true = ground arith in rw (e, write_loop)

  -- With room for what is left, the loop ends by itself.
  abbrev QuietLoop : ℕ → Type 0
  QuietLoop n =
      (p : Pipe) (b : T.Buffer) (done : ℕ)
      → IsValid p
      → T.size b < word
      → done ≤ T.size b
      → T.size b ≤ done + free_bytes p
      → ((done ≡ T.size b) ⊎ (rounds p < n))
      → (s : Progress T) × (write_loop T (quiet n) p b done ≡ ok s)
        × Writes T L p b done s
        × (s.2 ≡ T.size b)

  quiet_end :
      (n : ℕ) (p : Pipe) (b : T.Buffer) (done : ℕ)
      → IsValid p
      → done ≡ T.size b
      → (s : Progress T) × (write_loop T (quiet (suc n)) p b done ≡ ok s)
        × Writes T L p b done s
        × (s.2 ≡ T.size b)
  quiet_end n p b done v h = (
    (p, b, done),
    loop_stops (λ q. q) (quiet n) p b done (omega arith),
    Writes-none T L p b done v (omega arith),
    h,
  )

  quiet_loop_lem : (n : ℕ) → QuietLoop (suc n)
  quiet_loop_lem zero p b done v small h space enough = elim (dec_lt done (T.size b)) [
    | no g ↦ quiet_end zero p b done v (omega arith)
    | yes g ↦ let pos : 0 < free_bytes p = omega arith in absurd (ground (arith, rounds_pos p pos))
  ]
  quiet_loop_lem (suc n) p b done v small h space enough = elim (dec_lt done (T.size b)) [
    | no g ↦ quiet_end (suc n) p b done v (omega arith)
    | yes g ↦
        let (s, run, writes, progress, counted) = write_segment_lem T L p b done v small g in
        let less = progress (omega arith) in
        let before = pending_bytes-free_bytes v in
        let after = pending_bytes-free_bytes writes.valid in
        let parts = ap length writes.put ∙ length-append (contents p) writes.bytes in
        let (t, run', writes', all) =
          quiet_loop_lem n s.0 b s.2 writes.valid small writes.fits
            (omega (arith, writes.capacity, writes.count)) (ground arith) in
        (
          t,
          loop_steps (λ q. q) (quiet (suc n)) p b done g
              ∙ rw run (ap (λ c. write_loop T (quiet (suc n)) s.0 c s.2) writes.same ∙ run'),
          Writes-then T L b writes writes',
          all,
        )
  ]

  -- With too little room and nobody reading, the loop never ends.
  quiet_loop_spins :
      (n : ℕ) (p : Pipe) (b : T.Buffer) (done : ℕ)
      → IsValid p
      → T.size b < word
      → done + free_bytes p < T.size b
      → write_loop T (quiet n) p b done ≡ spin
  unfolding write_loop
  quiet_loop_spins zero p b done v small h = refl
  quiet_loop_spins (suc n) p b done v small h =
      let g : done < T.size b = omega arith in
      let (s, run, writes, progress, counted) = write_segment_lem T L p b done v small g in
      let before = pending_bytes-free_bytes v in
      let after = pending_bytes-free_bytes writes.valid in
      let parts = ap length writes.put ∙ length-append (contents p) writes.bytes in
      loop_steps (λ q. q) (quiet n) p b done g
      ∙ rw run (
          ap (λ c. write_loop T (quiet n) s.0 c s.2) writes.same
          ∙ quiet_loop_spins n s.0 b s.2 writes.valid small
              (omega (arith, writes.capacity, writes.count)))

  -- Pipe::write with nobody else on the pipe. Without room for the whole buffer it answers EAGAIN if
  -- it may not block, and otherwise spins however many rounds it is given. With room it ends within
  -- three rounds, has copied the whole buffer to the end of the pipe's queue, and leaves the buffer as
  -- it was and the pipe valid.
  pub write_alone :
      (p : Pipe) (b : T.Buffer) (blocking : Bool)
      → IsValid p
      → T.size b < word
      → ((free_bytes p < T.size b)
          × (blocking ≡ false)
          × (write T (quiet 3) p b blocking ≡ err eagain))
        ⊎ ((free_bytes p < T.size b)
            × (blocking ≡ true)
            × ((n : ℕ) → write T (quiet n) p b blocking ≡ spin))
        ⊎ ((s : Progress T) × (write T (quiet 3) p b blocking ≡ ok s)
            × (s.2 ≡ T.size b)
            × Appended T L p b s)
  unfolding write
  write_alone p b blocking v small = elim (dec_lt (free_bytes p) (T.size b)) [
    | yes h ↦ elim (Bool-cases blocking) [
      | inr e ↦ inl (h, e, ground arith)
      | inl e ↦
          let goes : (ltb (free_bytes p) (T.size b) && not blocking) ≡ false = ground arith in
          inr (inl (h, e, λ n. rw goes (quiet_loop_spins n p b 0 v small (omega arith))))
    ]
    | no h ↦
        let goes : (ltb (free_bytes p) (T.size b) && not blocking) ≡ false = ground arith in
        let (s, run, writes, all) =
          quiet_loop_lem 2 p b 0 v small (omega arith) (omega arith)
            (inr (omega (arith, rounds-le p))) in
        inr (inr (s, rw goes run, all, Writes-Appended T L p b s v writes (inr all)))
  ]

  -- A reader that takes what it takes off the front, and at least one byte if there is no room.
  pub record IsReader (reader : Reader) : Type 0 where
    pub valid : (p : Pipe) → IsValid p → IsValid (reader p).1
    pub capacity : (p : Pipe) → length (reader p).1.buffer ≡ length p.buffer
    pub front : (p : Pipe) → IsValid p → contents p ≡ (reader p).0 ++ contents (reader p).1
    pub room_left : (p : Pipe) → IsValid p → 1 < length p.buffer → 0 < free_bytes (reader p).1

  abbrev pub AllReaders : List Reader → Type 0
  AllReaders [] = Unit
  AllReaders (reader ∷ readers) = IsReader reader × AllReaders readers

  abbrev after_segment : Outcome (Progress T) → (Progress T → List ℕ) → List ℕ
  after_segment (ok s) next = next s
  after_segment (err e) next = []
  after_segment panic next = []
  after_segment fault next = []
  after_segment spin next = []

  -- What the readers take, one after the other, as the loop of write runs.
  unfoldable pub received : List Reader → Pipe → T.Buffer → ℕ → List ℕ
  received [] p b done = []
  received (reader ∷ readers) p b done = elim (ltb done (T.size b)) [
    | false ↦ (reader p).0
    | true ↦
        (reader p).0
        ++ after_segment (write_segment T (reader p).1 b done) (λ s. received readers s.0 s.1 s.2)
  ]

  received_stops :
      (reader : Reader) (readers : List Reader) (p : Pipe) (b : T.Buffer) (done : ℕ)
      → T.size b ≤ done
      → received (reader ∷ readers) p b done ≡ (reader p).0
  unfolding received
  received_stops reader readers p b done h =
      let e : ltb done (T.size b) ≡ false = ground arith in rw (e, received) refl

  received_steps :
      (reader : Reader) (readers : List Reader) (p : Pipe) (b : T.Buffer) (done : ℕ)
      (s : Progress T)
      → done < T.size b
      → write_segment T (reader p).1 b done ≡ ok s
      → s.1 ≡ b
      → received (reader ∷ readers) p b done ≡ (reader p).0 ++ received readers s.0 b s.2
  unfolding received
  received_steps reader readers p b done s h run same =
      let e : ltb done (T.size b) ≡ true = ground arith in
      rw (e, received)
        (ap (λ r. (reader p).0 ++ after_segment r (λ s. received readers s.0 s.1 s.2)) run
          ∙ ap (λ c. (reader p).0 ++ received readers s.0 c s.2) same)

  -- The bytes that have left the pipe, those in it and those still to be written keep their order.
  abbrev InOrder : List ℕ → Pipe → T.Buffer → ℕ → Progress T → Type 0
  InOrder gone p b done s = contents p ++ drop done (L.contents b) ≡ gone ++ contents s.0

  order_end :
      (p : Pipe) (b : T.Buffer) (done : ℕ) (gone : List ℕ) (q : Pipe)
      → contents p ≡ gone ++ contents q
      → length (L.contents b) ≤ done
      → contents p ++ drop done (L.contents b) ≡ gone ++ contents q
  order_end p b done gone q front h =
      ap (λ t. contents p ++ t) (drop_all done (L.contents b) h) ∙ append-nil (contents p) ∙ front

  order_step :
      (p : Pipe) (b : T.Buffer) (done : ℕ) (gone : List ℕ) (last : Pipe) {q : Pipe} {s : Progress T}
      → contents p ≡ gone ++ contents q
      → Writes T L q b done s
      → (gone' : List ℕ) → contents s.0 ++ drop s.2 (L.contents b) ≡ gone' ++ contents last
      → contents p ++ drop done (L.contents b) ≡ (gone ++ gone') ++ contents last
  order_step p b done gone last {q} {s} front w gone' order =
      let c = L.contents b in
      let n = length w.bytes in
      let rest : drop n (drop done c) ≡ drop s.2 c = drop-drop done n s.2 c w.count in
      let split : drop done c ≡ w.bytes ++ drop s.2 c =
        sym (take-append-drop n (drop done c)) ∙ ap₂ ◌++◌ (sym w.from) rest in
      ap₂ ◌++◌ front split
      ∙ append_assoc gone (contents q) (w.bytes ++ drop s.2 c)
      ∙ ap (λ u. gone ++ u)
          (sym (append_assoc (contents q) w.bytes (drop s.2 c))
            ∙ ap (λ u. u ++ drop s.2 c) (sym w.put)
            ∙ order)
      ∙ sym (append_assoc gone gone' (contents last))

  reading_loop_lem :
      (readers : List Reader) (p : Pipe) (b : T.Buffer) (done : ℕ)
      → AllReaders readers
      → IsValid p
      → 1 < length p.buffer
      → T.size b < word
      → done ≤ T.size b
      → T.size b - done < length readers
      → (s : Progress T) × (write_loop T (actions readers) p b done ≡ ok s)
        × (s.2 ≡ T.size b)
        × IsValid s.0
        × InOrder (received readers p b done) p b done s
  reading_loop_lem [] p b done rs v cap small h enough = absurd (omega arith)
  reading_loop_lem (reader ∷ readers) p b done rs v cap small h enough =
      let r = rs.0 in
      let q = (reader p).1 in
      let gone = (reader p).0 in
      let front = r.front p v in
      elim (dec_lt done (T.size b)) [
        | no g ↦ (
          (q, b, done),
          loop_stops (λ p. (reader p).1) (actions readers) p b done (omega arith),
          omega arith,
          r.valid p v,
          order_end p b done gone q front (omega (arith, L.size_lem b))
              ∙ ap (λ t. t ++ contents q)
                  (sym (received_stops reader readers p b done (omega arith))),
        )
        | yes g ↦
            let (s, run, writes, progress, counted) =
              write_segment_lem T L q b done (r.valid p v) small g in
            let pos = room_pos (r.valid p v) (r.room_left p v cap) in
            let (t, run', all, v', order) =
              reading_loop_lem readers s.0 b s.2 rs.1 writes.valid
                (omega (arith, writes.capacity, r.capacity p)) small writes.fits (omega arith) in
            let gone' = received readers s.0 b s.2 in
            (
              t,
              loop_steps (λ p. (reader p).1) (actions readers) p b done g
                  ∙ rw run (ap (λ c. write_loop T (actions readers) s.0 c s.2) writes.same ∙ run'),
              all,
              v',
              order_step p b done gone t.0 front writes gone' order
                  ∙ ap (λ t'. t' ++ contents t.0)
                      (sym (received_steps reader readers p b done s g run writes.same)),
            )
      ]

  -- Pipe::write, blocking, on a pipe of more than one byte, against readers that take bytes off the
  -- front and never leave the pipe full: it ends once they have acted more often than the buffer has
  -- bytes, returns the buffer's size, and leaves a valid pipe; what the readers received as the loop
  -- ran, followed by what the pipe still holds, is what the pipe held before followed by the whole
  -- buffer.
  pub write_against_reader :
      (readers : List Reader) (p : Pipe) (b : T.Buffer)
      → AllReaders readers
      → IsValid p
      → 1 < length p.buffer
      → T.size b < word
      → T.size b < length readers
      → (s : Progress T) × (write T (actions readers) p b true ≡ ok s)
        × (s.2 ≡ T.size b)
        × IsValid s.0
        × (received readers p b 0 ++ contents s.0 ≡ contents p ++ L.contents b)
  unfolding write
  write_against_reader readers p b rs v cap small enough =
      let goes : (ltb (free_bytes p) (T.size b) && not true) ≡ false = ground arith in
      let (s, run, all, valid, order) =
        reading_loop_lem readers p b 0 rs v cap small (omega arith) (omega arith) in
      (s, rw goes run, all, valid, sym order)
