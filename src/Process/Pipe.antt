-- ===== src/Process/Pipe.antt =====
-- kernel/src/process/pipe.cpp and kernel/include/process/pipe.h: a pipe is a byte ring of fixed size
-- on which a blocking call spins until the other end has moved. The functions take what other
-- threads do to the pipe meanwhile as an argument.
pub mod Write
pub mod Read
use bek_os.Common.{ℕ, zero, suc, ◌+◌, ◌<◌, Bool, true, false, ◌&&◌, not, List, [], ◌∷◌}
use bek_os.Common.Tests.{◌==◌, ltb, if◌then◌else◌}
use bek_os.Common.Outcome.{Outcome, ok, err, spin, eagain, enotsup, ◌>>=◌, ◌>>◌}
use bek_os.Library.TransactionalBuffer.{TransactionalBuffer}
use bek_os.Library.RingBuffer.{
  RingBuffer, Progress, make_ring_buffer, pending_bytes, free_bytes, read_segment, write_segment,
  read_loop,
}

-- m_data, m_read_idx and m_write_idx of Pipe: the fields of a ring buffer, used the same way.
abbrev pub Pipe : Type 0
Pipe = RingBuffer

abbrev pub pipe_default_size : ℕ
pipe_default_size = 4096

unfoldable pub make_pipe : Pipe
unfolding make_ring_buffer
make_pipe = make_ring_buffer pipe_default_size

-- The m_is_reader and m_is_blocking of PipeHandle; the pipe that it shares is the argument.
pub record PipeHandle : Type 0 where
  pub is_reader : Bool
  pub is_blocking : Bool

-- The wait of Pipe::read: the pipe as it stands at each evaluation of read_space.
unfoldable pub wait_readable : List Pipe → Bool → Outcome Pipe
wait_readable [] blocking = spin
wait_readable (p ∷ later) blocking =
    let again = wait_readable later blocking in
    if pending_bytes p == 0 && blocking then again else ok p

module _ (T : TransactionalBuffer) where
  -- The loop of Pipe::write, which tests no room: a round on a full pipe copies nothing. Before each
  -- of its tests the next of `others` acts on the pipe; with none left the loop still spins.
  unfoldable pub write_loop : List (Pipe → Pipe) → Pipe → T.Buffer → ℕ → Outcome (Progress T)
  write_loop [] p b bytes_written = spin
  write_loop (other ∷ others) p b bytes_written = elim (ltb bytes_written (T.size b)) [
    | false ↦ ok (other p, b, bytes_written)
    | true ↦ write_segment T (other p) b bytes_written >>= λ s. write_loop others s.0 s.1 s.2
  ]

  -- Pipe::write.
  unfoldable pub write : List (Pipe → Pipe) → Pipe → T.Buffer → Bool → Outcome (Progress T)
  write others p b blocking =
      if ltb (free_bytes p) (T.size b) && not blocking then err eagain else write_loop others p b 0

  -- Pipe::read. Its copying loop is that of ring_buffer::read_to.
  unfoldable pub read : List Pipe → T.Buffer → Bool → Outcome (Progress T)
  unfolding wait_readable
  read seen b blocking = do
    p ← wait_readable seen blocking
    if pending_bytes p == 0 then err eagain else read_loop T 3 p b 0

  unfoldable pub handle_read : PipeHandle → List Pipe → T.Buffer → Outcome (Progress T)
  unfolding read
  handle_read h seen b = if h.is_reader then read seen b h.is_blocking else err enotsup

  unfoldable pub handle_write :
      PipeHandle → List (Pipe → Pipe) → Pipe → T.Buffer → Outcome (Progress T)
  unfolding write
  handle_write h others p b =
      if not h.is_reader then write others p b h.is_blocking else err enotsup
