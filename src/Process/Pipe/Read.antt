-- ===== src/Process/Pipe/Read.antt =====
-- Pipe::read waits for bytes, and then reads as the ring buffer does.
use bek_os.Common.{◌<◌, ◌≡◌, true, false, List, [], ◌∷◌, ◌++◌, arith, inl, inr, ◌⊎◌, dec_lt}
use bek_os.Common.Tests.{◌==◌, word}
use bek_os.Common.Outcome.{ok, err, eagain}
use bek_os.Library.TransactionalBuffer.{TransactionalBuffer}
use bek_os.Library.TransactionalBuffer.Laws.{IsLawful}
use bek_os.Library.RingBuffer.{Progress, pending_bytes}
use bek_os.Library.RingBuffer.Contents.{IsValid}
use bek_os.Library.RingBuffer.ReadLoop.{read_loop_lem, Reads-Moved, rounds-le, Moved}
use bek_os.Process.Pipe.{Pipe, wait_readable, read}

-- Every one of these pipes is empty.
abbrev pub Empty : List Pipe → Type 0
Empty [] = Unit
Empty (p ∷ ps) = (pending_bytes p ≡ 0) × Empty ps

-- A blocking wait ends at the first sight of a pipe that holds bytes.
wait_readable_lem :
    (before later : List Pipe) (p : Pipe)
    → Empty before
    → 0 < pending_bytes p
    → wait_readable (before ++ p ∷ later) true ≡ ok p
unfolding wait_readable
wait_readable_lem [] later p e h = ground arith
wait_readable_lem (q ∷ before) later p e h = rw (wait_readable_lem before later p e.1 h, e.0)

-- A call that does not block looks once.
wait_readable_once : (p : Pipe) (later : List Pipe) → wait_readable (p ∷ later) false ≡ ok p
unfolding wait_readable
wait_readable_once p later = ground arith

module _ (T : TransactionalBuffer) (L : IsLawful T) where
  -- Pipe::read, blocking, on a pipe that is seen empty some times and then with bytes: it returns the
  -- smaller of the bytes pending then and the buffer's size, moved from the front of the pipe's queue
  -- to the front of the buffer, and leaves the pipe valid.
  pub read_blocking :
      (before later : List Pipe) (p : Pipe) (b : T.Buffer)
      → Empty before
      → 0 < pending_bytes p
      → IsValid p
      → T.size b < word
      → (s : Progress T) × (read T (before ++ p ∷ later) b true ≡ ok s) × Moved T L p b s
  unfolding read
  read_blocking before later p b e h v small =
      let (s, run, reads, ends) =
        read_loop_lem T L 2 p b 0 v small (omega arith) (inr (omega (arith, rounds-le p))) in
      let some_space : (pending_bytes p == 0) ≡ false = ground arith in
      (
        s,
        rw (wait_readable_lem before later p e h, some_space) run,
        Reads-Moved T L p b s v reads ends,
      )

  -- Pipe::read, not blocking: EAGAIN exactly on an empty pipe, and otherwise the same as a blocking
  -- read that finds the pipe as it is.
  pub read_nonblocking :
      (later : List Pipe) (p : Pipe) (b : T.Buffer)
      → IsValid p
      → T.size b < word
      → ((pending_bytes p ≡ 0) × (read T (p ∷ later) b false ≡ err eagain))
        ⊎ ((0 < pending_bytes p)
            × (s : Progress T) × (read T (p ∷ later) b false ≡ ok s)
            × Moved T L p b s)
  unfolding read
  read_nonblocking later p b v small = elim (dec_lt 0 (pending_bytes p)) [
    | yes h ↦
        let (s, run, reads, ends) =
          read_loop_lem T L 2 p b 0 v small (omega arith) (inr (omega (arith, rounds-le p))) in
        let some_space : (pending_bytes p == 0) ≡ false = ground arith in
        inr (
          h,
          s,
          rw (wait_readable_once p later, some_space) run,
          Reads-Moved T L p b s v reads ends,
        )
    | no h ↦
        let none_left : (pending_bytes p == 0) ≡ true = ground arith in
        inl (omega arith, rw (wait_readable_once p later, none_left))
  ]
