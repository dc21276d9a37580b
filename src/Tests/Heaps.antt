-- ===== src/Tests/Heaps.antt =====
-- The bitmap allocator at work.
use bek_os.Common.{ℕ, ◌+◌, ◌*◌, ◌/◌, ◌≤◌, ◌<◌, ◌≡◌, Bool, false, arith}
use bek_os.Common.Tests.{ltb}
use bek_os.Common.Outcome.{ok}
use bek_os.Mm.BitmapAllocator.{BitmapAllocator, chunk_size, make_bitmap_allocator}
use bek_os.Mm.BitmapAllocator.Laws.{make_bitmap_allocator_lem}

abbrev zeros : ℕ → Bool
zeros j = false

-- The first 24 chunks are taken.
abbrev busy : BitmapAllocator
busy = record {
  data_start = 0x10000;
  chunk_count = 64;
  allocated_chunks = 24;
  bitmap = record { bits = λ j. ltb j 24; length = 64 };
}

make_bitmap_allocator_lem_example :
    (a : BitmapAllocator) × (make_bitmap_allocator zeros 0x10000 1048576 ≡ ok a)
    × (a.chunk_count ≡ a.bitmap.length)
    × (a.chunk_count * chunk_size + (a.chunk_count + 7) / 8 ≤ 1048576)
    × (1048576 < (a.chunk_count + 1) * chunk_size + (a.chunk_count + 1 + 7) / 8 + 1)
make_bitmap_allocator_lem_example = make_bitmap_allocator_lem zeros 0x10000 1048576 (omega arith)
