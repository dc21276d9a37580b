-- ===== src/Mm/BitmapAllocator.antt =====
-- kernel/src/mm/kmalloc.cpp: the bitmap allocator of the kernel heap, in chunks of 128 bytes.
pub mod Laws
use bek_os.Common.{ℕ, ◌+◌, ◌-◌, ◌*◌, ◌/◌, ◌%◌, Bool, true, false, ◌&&◌, Option, none, some}
use bek_os.Common.Tests.{◌==◌, ltb, leb, if◌then◌else◌, add64, sub64, word, ceil_div}
use bek_os.Common.Outcome.{Outcome, ok, ◌>>=◌, ◌>>◌, verify}
use bek_os.Library.Bitset.{Bitset, set_range, find_first_fit}

abbrev pub chunk_size : ℕ
chunk_size = 128

pub record BitmapAllocator : Type 0 where
  pub data_start : ℕ
  pub chunk_count : ℕ
  pub allocated_chunks : ℕ
  pub bitmap : Bitset

abbrev pub calculate_chunk_count : ℕ → ℕ
calculate_chunk_count size = size * 8 % word / (chunk_size * 8 + 1)

-- bek::ceil_div by the size of a chunk, in 64 bits.
abbrev pub chunks_for : ℕ → ℕ
chunks_for size = sub64 (add64 size chunk_size) 1 / chunk_size

-- The constructor; `memory` is the bits behind the chunks.
unfoldable pub make_bitmap_allocator : (ℕ → Bool) → ℕ → ℕ → Outcome BitmapAllocator
make_bitmap_allocator memory data_start size =
    let count = calculate_chunk_count size in
    verify (leb (count * chunk_size + ceil_div count 8) size)
    >> ok (record {
      data_start = data_start;
      chunk_count = count;
      allocated_chunks = 0;
      bitmap = record { bits = memory; length = count };
    })

-- What allocate does with the chunks that it has found.
unfoldable pub take_chunks : BitmapAllocator → ℕ → ℕ × ℕ → Outcome (Option ℕ × BitmapAllocator)
take_chunks a chunks_needed (index, size) = if index == 0 && size == 0 then ok (none, a) else (do
  bitmap' ← set_range a.bitmap index chunks_needed true
  ok (
    some (add64 a.data_start (index * chunk_size % word)),
    record a { bitmap = bitmap'; allocated_chunks = add64 a.allocated_chunks chunks_needed },
  ))

unfoldable pub allocate : BitmapAllocator → ℕ → ℕ → Outcome (Option ℕ × BitmapAllocator)
unfolding take_chunks
allocate a size alignment = do
  let chunk_alignment = chunks_for alignment
  verify (chunk_alignment * chunk_size % word % alignment == 0)
  verify (a.data_start % chunk_size == 0)
  found ←
      find_first_fit a.bitmap (chunks_for size) false 0 chunk_alignment
        (a.data_start / chunk_size % chunk_alignment) (word - 1)
  take_chunks a (chunks_for size) found

unfoldable pub free : BitmapAllocator → ℕ → ℕ → Outcome BitmapAllocator
free a ptr size = do
  verify (leb a.data_start ptr && ltb ptr (add64 a.data_start (chunk_size * a.chunk_count % word)))
  bitmap' ← set_range a.bitmap (sub64 ptr a.data_start / chunk_size) (chunks_for size) false
  ok (record a { bitmap = bitmap'; allocated_chunks = sub64 a.allocated_chunks (chunks_for size) })
