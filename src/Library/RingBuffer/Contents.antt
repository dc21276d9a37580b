-- ===== src/Library/RingBuffer/Contents.antt =====
-- The queue of bytes that a ring holds, and the invariant of its indices.
use bek_os.Common.{ℕ, ◌+◌, ◌-◌, ◌<◌, ◌≤◌, ◌^◌, ◌≡◌, List, ◌++◌, arith}
use bek_os.Common.Tests.{leb, if◌then◌else◌}
use bek_os.Common.Lists.{
  length, slice, drop, take, length-append, length-take, length-drop, length-replicate,
}
use bek_os.Library.RingBuffer.{RingBuffer, make_ring_buffer, pending_bytes, free_bytes}

-- Both indices lie in the array, and the array is no larger than half the address space.
pub record IsValid (r : RingBuffer) : Type 0 where
  pub read_in : r.read_idx < length r.buffer
  pub write_in : r.write_idx < length r.buffer
  pub small : length r.buffer ≤ 2 ^ 63

-- The bytes written and not yet read, oldest first.
abbrev pub contents : RingBuffer → List ℕ
contents r =
    if leb r.read_idx r.write_idx
    then slice r.read_idx (r.write_idx - r.read_idx) r.buffer
    else drop r.read_idx r.buffer ++ take r.write_idx r.buffer

pub length-contents : {r : RingBuffer} → IsValid r → length (contents r) ≡ pending_bytes r
unfolding pending_bytes
length-contents {r} v = ground (
  arith,
  length-append (drop r.read_idx r.buffer) (take r.write_idx r.buffer),
  length-drop r.read_idx r.buffer,
  length-take r.write_idx r.buffer,
  length-take (r.write_idx - r.read_idx) (drop r.read_idx r.buffer),
)

-- pending_bytes is the length of the queue, and with free_bytes it is one less than the capacity.
pub pending_bytes-free_bytes :
    {r : RingBuffer}
    → IsValid r
    → (pending_bytes r ≡ length (contents r))
      × (pending_bytes r + free_bytes r + 1 ≡ length r.buffer)
unfolding pending_bytes free_bytes
pending_bytes-free_bytes {r} v = ground (arith, length-contents v)

-- A new ring of at least one byte is valid.
pub make_ring_buffer-IsValid :
    (size : ℕ) → 0 < size → size ≤ 2 ^ 63 → IsValid (make_ring_buffer size)
unfolding make_ring_buffer
make_ring_buffer-IsValid size h k = omega (arith, length-replicate {A = ℕ} size 0)
