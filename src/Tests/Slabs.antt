-- ===== src/Tests/Slabs.antt =====
-- The slabs and the front of the kernel heap at work (kernel/src/mm/kmalloc.cpp).
use bek_os.Common.{ℕ, ◌+◌, ◌≤◌, ◌≡◌, refl, inl, false, List, [], ◌∷◌, Option, some, arith}
use bek_os.Common.Tests.{ltb}
use bek_os.Common.Outcome.{Outcome, ok, panic, ◌>>=◌}
use bek_os.Mm.Addresses.{contains_ptr}
use bek_os.Mm.BitmapAllocator
use bek_os.Mm.PageAllocator
use bek_os.Mm.RegionPages
use bek_os.Mm.RegionPages.{free_loop}
use bek_os.Mm.Slab.{
  SlabBlock, data_begin, data_end, make_slab_block, allocate_object, deallocate_object,
  link_objects, SlabAllocator, default_block_size, slab_allocate, slab_free,
}
use bek_os.Mm.Slab.Block.{Absent, IsValid, deallocate_object-allocate_object}
use bek_os.Mm.Slab.Laws.{IsSlab, IsSource, IsGiven, slab_allocate_lem}
use bek_os.Mm.KernelAllocator.{KernelAllocator, kernel_free}

-- A block with room for three objects, the second of which is in use.
abbrev three_objects : SlabBlock
three_objects = record {
  base = 4096;
  object_size = 1024;
  freelist = 7168 ∷ 5120 ∷ [];
  allocated_objects = 1;
  total_objects = 3;
}

three_objects-IsValid : IsValid three_objects
unfolding data_begin data_end
three_objects-IsValid = (
  omega arith,
  omega arith,
  refl,
  (
    omega arith,
    omega arith,
    refl,
    ((λ e. absurd (omega (arith, e))), tt),
    (omega arith, omega arith, refl, tt, tt),
  ),
)

deallocate_object-allocate_object_example :
    (p : ℕ) × (b' : SlabBlock) × (allocate_object three_objects three_objects.freelist
      ≡ (some p, b'))
    × IsValid b'
    × Absent p b'.freelist
    × (b'.allocated_objects ≡ 2)
    × (data_begin 4096 1024 ≤ p)
    × (p + 1024 ≤ data_end three_objects)
    × (deallocate_object b' p ≡ ok three_objects)
deallocate_object-allocate_object_example =
    deallocate_object-allocate_object three_objects three_objects-IsValid (omega arith)

-- Memory below the slabs that gives out what is next.
abbrev next_free : ℕ → ℕ → ℕ → Outcome (Option ℕ × ℕ)
next_free heap size align = ok (some heap, heap + size)

abbrev new_slab : SlabAllocator
new_slab = record { free_blocks = []; full_blocks = []; obj_size = 32; blk_size = 4096 }

slab_allocate_lem_example :
    (p : ℕ) × (s' : SlabAllocator) × (heap : ℕ) × (slab_allocate ℕ next_free new_slab 8192
      ≡ ok (some p, s', heap))
    × IsSlab s'
    × ((b : SlabBlock) × (rest : List SlabBlock) × IsSource new_slab 8192 b rest
        × IsGiven new_slab b rest p s')
unfolding default_block_size
slab_allocate_lem_example =
    slab_allocate_lem ℕ next_free new_slab 8192 12288 8192 (inl refl, refl, tt, tt) refl refl

-- The last object of the block goes out first, and can be given back.
slab_runs :
    (slab_allocate ℕ next_free new_slab 8192 >>= λ (p, s', heap).
    slab_free s' 12256 >>= λ s''. ok p)
    ≡ ok (some 12256)
unfolding slab_allocate slab_free make_slab_block link_objects data_begin data_end deallocate_object
slab_runs = refl

-- A heap whose pages are those behind the chunks of its bitmap allocator, the first sixteen of them in use.
abbrev small_heap : KernelAllocator
small_heap = record {
  bitmap_allocator = record {
    data_start = 65536;
    chunk_count = 64;
    allocated_chunks = 0;
    bitmap = record { bits = λ j. false; length = 64 };
  };
  slab_allocators = new_slab ∷ [];
  page_allocator =
      some (record {
        region = record { start = 131072; size = 131072 };
        free_bitmap = λ j. ltb j 16;
        continuation_bitmap = λ j. ltb j 15;
        last_freed = 0;
      })
      ∷ [];
}

-- The pages can be given back, but then the call goes on to the bitmap allocator, which panics.
large_region : kernel_free 32 small_heap 131072 65536 16 ≡ panic
unfolding kernel_free PageAllocator.free_region contains_ptr RegionPages.free_region free_loop
    BitmapAllocator.free
large_region = refl
