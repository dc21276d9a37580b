-- ===== src/Mm/BitmapAllocator/Laws.antt =====
-- What the bitmap allocator hands out.
use bek_os.Common.{ℕ, ◌+◌, ◌*◌, ◌/◌, ◌%◌, ◌≤◌, ◌<◌, ◌≡◌, ◌^◌, refl, Bool, true, false, ◌&&◌, arith}
use bek_os.Common.Tests.{ltb, leb, add64, sub64, word, ceil_div}
use bek_os.Common.Outcome.{ok}
use bek_os.Library.Bitset.Loops.{fill}
use bek_os.Library.Bitset.Range.{set_range_lem, reach}
use bek_os.Mm.BitmapAllocator.{
  BitmapAllocator, chunk_size, calculate_chunk_count, chunks_for, make_bitmap_allocator, free,
}

-- The chunks and the bitmap behind them fit into the memory that the constructor is given, if it has
-- less than 2 ^ 61 bytes: its check never fails. One chunk more would take all of the memory or not
-- fit.
pub make_bitmap_allocator_lem :
    (memory : ℕ → Bool) (data_start size : ℕ)
    → size < 2 ^ 61
    → (a : BitmapAllocator) × (make_bitmap_allocator memory data_start size ≡ ok a)
      × (a.chunk_count ≡ a.bitmap.length)
      × (a.chunk_count * chunk_size + (a.chunk_count + 7) / 8 ≤ size)
      × (size < (a.chunk_count + 1) * chunk_size + (a.chunk_count + 1 + 7) / 8 + 1)
unfolding make_bitmap_allocator
make_bitmap_allocator_lem memory data_start size h =
    let count = calculate_chunk_count size in
    let fits : leb (count * chunk_size + ceil_div count 8) size ≡ true = ground arith in
    (
      record {
        data_start = data_start;
        chunk_count = count;
        allocated_chunks = 0;
        bitmap = record { bits = memory; length = count };
      },
      rw fits refl,
      refl,
      omega arith,
      omega arith,
    )

-- free of an object of the allocator whose chunks end before the last clears their bits, and those up
-- to the end that set_range writes.
pub free_lem :
    (a : BitmapAllocator) (index size : ℕ)
    → index < a.chunk_count
    → a.data_start + chunk_size * a.chunk_count < word
    → a.bitmap.length < word
    → size < 2 ^ 32
    → index + (size + 127) / chunk_size < a.bitmap.length
    → free a (a.data_start + index * chunk_size) size
      ≡ ok (record a {
        bitmap = fill a.bitmap index (reach index (index + (size + 127) / chunk_size)) false;
        allocated_chunks = sub64 a.allocated_chunks ((size + 127) / chunk_size);
      })
unfolding free
free_lem a index size h w l s r =
    let ptr = a.data_start + index * chunk_size in
    let inside : (leb a.data_start ptr
          && ltb ptr (add64 a.data_start (chunk_size * a.chunk_count % word)))
        ≡ true =
      ground arith in
    let at : sub64 ptr a.data_start / chunk_size ≡ index = omega arith in
    let chunks : chunks_for size ≡ (size + 127) / chunk_size = omega arith in
    rw (inside, at, chunks, set_range_lem a.bitmap index ((size + 127) / chunk_size) false r l) refl
