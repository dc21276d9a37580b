-- ===== src/Library/RingBuffer.antt =====
-- kernel/src/library/ringbuffer.cpp: a byte ring in which one byte always stays free, so that equal
-- indices mean that it is empty.
pub mod Contents
pub mod Read
pub mod ReadLoop
pub mod Write
pub mod WriteLoop
use bek_os.Common.{ℕ, zero, suc, ◌+◌, ◌<◌, ◌≤◌, Bool, true, false, ◌&&◌, ◌||◌, not, List, min}
use bek_os.Common.Tests.{◌==◌, ltb, leb, if◌then◌else◌, add64, sub64}
use bek_os.Common.Lists.{length, replicate}
use bek_os.Common.Outcome.{Outcome, ok, err, spin, eagain, ◌>>=◌, ◌>>◌, verify}
use bek_os.Common.Memory.{memory_read, memory_write}
use bek_os.Library.TransactionalBuffer.{TransactionalBuffer}

-- The fields m_buffer, m_read_idx and m_write_idx.
pub record RingBuffer : Type 0 where
  pub buffer : List ℕ
  pub read_idx : ℕ
  pub write_idx : ℕ

unfoldable pub make_ring_buffer : ℕ → RingBuffer
make_ring_buffer size = record { buffer = replicate size 0; read_idx = 0; write_idx = 0 }

unfoldable pub pending_bytes : RingBuffer → ℕ
pending_bytes r =
    if leb r.read_idx r.write_idx
    then sub64 r.write_idx r.read_idx
    else add64 (sub64 (length r.buffer) r.read_idx) r.write_idx

unfoldable pub free_bytes : RingBuffer → ℕ
free_bytes r =
    if leb r.read_idx r.write_idx
    then sub64 (add64 (sub64 (length r.buffer) r.write_idx) r.read_idx) 1
    else sub64 (sub64 r.read_idx r.write_idx) 1

-- An index that has reached the end of the array goes back to its start.
abbrev pub wrap_index : ℕ → ℕ → ℕ
wrap_index size i = if i == size then 0 else i

-- segment_read_space and segment_write_space: what can be copied without going round.
unfoldable pub segment_read_space : RingBuffer → ℕ
segment_read_space r =
    if leb r.read_idx r.write_idx
    then sub64 r.write_idx r.read_idx
    else sub64 (length r.buffer) r.read_idx

unfoldable pub segment_write_space : RingBuffer → ℕ
segment_write_space r =
    let space =
      if leb r.read_idx r.write_idx
      then sub64 (length r.buffer) r.write_idx
      else sub64 (sub64 r.read_idx r.write_idx) 1 in
    if r.read_idx == 0 then sub64 space 1 else space

module _ (T : TransactionalBuffer) where
  -- The ring, the caller's buffer and the count of bytes copied so far.
  abbrev pub Progress : Type 0
  Progress = RingBuffer × T.Buffer × ℕ

  -- The body of the loop of ring_buffer::read_to.
  unfoldable pub read_segment : RingBuffer → T.Buffer → ℕ → Outcome Progress
  unfolding segment_read_space
  read_segment r b bytes_read = do
    let to_read = min (segment_read_space r) (sub64 (T.size b) bytes_read)
    bytes ← memory_read r.buffer r.read_idx to_read
    b' ← T.write_from bytes bytes_read b
    ok (
      record r { read_idx = wrap_index (length r.buffer) (add64 r.read_idx to_read) },
      b',
      add64 bytes_read to_read,
    )

  -- The loop of ring_buffer::read_to, for at most so many rounds.
  unfoldable pub read_loop : ℕ → RingBuffer → T.Buffer → ℕ → Outcome Progress
  read_loop zero r b bytes_read = spin
  read_loop (suc fuel) r b bytes_read =
      elim (not (pending_bytes r == 0) && ltb bytes_read (T.size b)) [
        | false ↦ ok (r, b, bytes_read)
        | true ↦ read_segment r b bytes_read >>= λ s. read_loop fuel s.0 s.1 s.2
      ]

  -- ring_buffer::read_to. Three rounds are two of copying and the one that ends the loop.
  unfoldable pub read_to : RingBuffer → T.Buffer → Bool → Outcome Progress
  read_to r b partial = do
    verify (partial || ltb (T.size b) (length r.buffer))
    if not partial && ltb (pending_bytes r) (T.size b) then err eagain else read_loop 3 r b 0

  -- The body of the loop of ring_buffer::write_to.
  unfoldable pub write_segment : RingBuffer → T.Buffer → ℕ → Outcome Progress
  write_segment r b bytes_written = do
    let to_write = min (segment_write_space r) (sub64 (T.size b) bytes_written)
    bytes ← T.read_to to_write bytes_written b
    buffer' ← memory_write r.buffer r.write_idx bytes
    ok (
      record r {
        buffer = buffer';
        write_idx = wrap_index (length r.buffer) (add64 r.write_idx to_write);
      },
      b,
      add64 bytes_written to_write,
    )

  unfoldable pub write_loop : ℕ → RingBuffer → T.Buffer → ℕ → Outcome Progress
  write_loop zero r b bytes_written = spin
  write_loop (suc fuel) r b bytes_written =
      elim (not (free_bytes r == 0) && ltb bytes_written (T.size b)) [
        | false ↦ ok (r, b, bytes_written)
        | true ↦ write_segment r b bytes_written >>= λ s. write_loop fuel s.0 s.1 s.2
      ]

  -- ring_buffer::write_to.
  unfoldable pub write_to : RingBuffer → T.Buffer → Bool → Outcome Progress
  write_to r b partial =
      if ltb (free_bytes r) (T.size b) && not partial then err eagain else write_loop 3 r b 0
