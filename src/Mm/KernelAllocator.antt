-- ===== src/Mm/KernelAllocator.antt =====
-- kernel/src/mm/kmalloc.cpp: the kernel heap, over the page allocator, the slabs and the bitmap
-- allocator. A block of a slab is larger than every slab's objects and smaller than 64 KiB, so that the
-- slabs' own requests end in the bitmap allocator.
use bek_os.Common.{ℕ, ◌/◌, ◌%◌, Bool, true, false, ◌&&◌, List, [], ◌∷◌, Option, none, some}
use bek_os.Common.Tests.{◌==◌, leb, add64, sub64, page_size}
use bek_os.Common.Outcome.{Outcome, ok, ◌>>=◌, ◌>>◌, verify}
use bek_os.Mm.Addresses.{Region}
use bek_os.Mm.BitmapAllocator.{BitmapAllocator, make_bitmap_allocator}
use bek_os.Mm.BitmapAllocator
use bek_os.Mm.PageAllocator.{PageAllocator, allocate_region}
use bek_os.Mm.PageAllocator
use bek_os.Mm.Slab.{SlabAllocator, make_slab_allocator, slab_allocate, slab_free}

-- 64 KiB
abbrev pub page_threshold : ℕ
page_threshold = 65536

-- The heap, with the page allocator that it calls.
pub record KernelAllocator : Type 0 where
  pub bitmap_allocator : BitmapAllocator
  pub slab_allocators : List SlabAllocator
  pub page_allocator : PageAllocator

abbrev pub make_slabs : List ℕ → Outcome (List SlabAllocator)
make_slabs [] = ok []
make_slabs (object_size ∷ sizes) =
    make_slab_allocator object_size >>= λ s. make_slabs sizes >>= λ rest. ok (s ∷ rest)

-- The constructor; `memory` is the bits behind the chunks of the bitmap allocator.
unfoldable pub make_kernel_allocator : (ℕ → Bool) → ℕ → ℕ → PageAllocator → Outcome KernelAllocator
make_kernel_allocator memory initial_start initial_size pages = do
  bitmap ← make_bitmap_allocator memory initial_start initial_size
  slabs ← make_slabs (32 ∷ 64 ∷ 128 ∷ 256 ∷ 512 ∷ 1024 ∷ [])
  ok (record { bitmap_allocator = bitmap; slab_allocators = slabs; page_allocator = pages })

-- bek::ceil_div(size, PAGE_SIZE)
abbrev pub pages_for : ℕ → ℕ
pages_for size = sub64 (add64 size page_size) 1 / page_size

abbrev pub serves : ℕ → ℕ → SlabAllocator → Bool
serves size align s = leb size s.obj_size && leb align s.obj_size

-- The loop of allocate over the slabs: the answer of the first one that serves the request, and its object
-- size, or none.
unfoldable pub allocate_slab :
    ℕ
    → ℕ
    → List SlabAllocator
    → BitmapAllocator
    → Outcome (Option (Option ℕ × ℕ) × List SlabAllocator × BitmapAllocator)
unfolding slab_allocate
allocate_slab size align [] heap = ok (none, [], heap)
allocate_slab size align (s ∷ rest) heap = elim (serves size align s) [
  | true ↦ slab_allocate BitmapAllocator BitmapAllocator.allocate s heap >>= λ (ptr, s', heap').
      ok (some (ptr, s.obj_size), s' ∷ rest, heap')
  | false ↦
      allocate_slab size align rest heap >>= λ (found, rest', heap'). ok (found, s ∷ rest', heap')
]

abbrev pub region_of : Option Region → Option ℕ × ℕ
region_of (some r) = (some r.start, r.size)
region_of none = (none, 0)

abbrev pub or_bitmap :
    ℕ → ℕ → Option (Option ℕ × ℕ) → BitmapAllocator → Outcome ((Option ℕ × ℕ) × BitmapAllocator)
or_bitmap size align (some region) heap = ok (region, heap)
or_bitmap size align none heap =
    BitmapAllocator.allocate heap size align >>= λ (ptr, heap'). ok ((ptr, size), heap')

-- KernelAllocator::allocate: the address, or none, and the size of the region.
unfoldable pub kernel_allocate :
    KernelAllocator → ℕ → ℕ → Outcome ((Option ℕ × ℕ) × KernelAllocator)
unfolding allocate_slab
kernel_allocate k size align = elim (leb page_threshold size) [
  | true ↦
      verify (leb align page_size)
      >> (let (region, pages) = allocate_region k.page_allocator (pages_for size) in
          ok (region_of region, record k { page_allocator = pages }))
  | false ↦
      allocate_slab size align k.slab_allocators k.bitmap_allocator >>= λ (found, slabs, heap).
      or_bitmap size align found heap >>= λ (region, heap').
      ok (region, record k { slab_allocators = slabs; bitmap_allocator = heap' })
]

-- The part of KernelAllocator::free for large regions.
unfoldable pub free_pages : ℕ → KernelAllocator → ℕ → ℕ → ℕ → Outcome KernelAllocator
free_pages fuel k ptr size align = elim (leb page_threshold size) [
  | true ↦
      verify (leb align page_size)
      >> (verify (ptr % page_size == 0)
          >> (PageAllocator.free_region fuel k.page_allocator ptr >>= λ pages.
              ok (record k { page_allocator = pages })))
  | false ↦ ok k
]

-- The loop of free over the slabs: the slabs after the first one that serves the size has taken the object
-- back, or none.
unfoldable pub free_slab : ℕ → ℕ → ℕ → List SlabAllocator → Outcome (Option (List SlabAllocator))
unfolding slab_free
free_slab ptr size align [] = ok none
free_slab ptr size align (s ∷ rest) = elim (serves size align s) [
  | true ↦ slab_free s ptr >>= λ s'. ok (some (s' ∷ rest))
  | false ↦ free_slab ptr size align rest >>= λ found. elim found [
    | none ↦ ok none
    | some rest' ↦ ok (some (s ∷ rest'))
  ]
]

abbrev pub free_rest :
    KernelAllocator → ℕ → ℕ → Option (List SlabAllocator) → Outcome KernelAllocator
free_rest k ptr size (some slabs) = ok (record k { slab_allocators = slabs })
free_rest k ptr size none = BitmapAllocator.free k.bitmap_allocator ptr size >>= λ heap.
    ok (record k { bitmap_allocator = heap })

-- KernelAllocator::free, which goes on after the large regions. `fuel` bounds the pages of one allocation.
unfoldable pub kernel_free : ℕ → KernelAllocator → ℕ → ℕ → ℕ → Outcome KernelAllocator
unfolding free_pages free_slab
kernel_free fuel k ptr size align = do
  k' ← free_pages fuel k ptr size align
  found ← free_slab ptr size align k'.slab_allocators
  free_rest k' ptr size found

-- mem::allocate, and mem::free of a pointer that may be null.
unfoldable pub mem_allocate : KernelAllocator → ℕ → ℕ → Outcome ((Option ℕ × ℕ) × KernelAllocator)
unfolding kernel_allocate
mem_allocate k size align = kernel_allocate k size align

unfoldable pub mem_free : ℕ → KernelAllocator → Option ℕ → ℕ → ℕ → Outcome KernelAllocator
unfolding kernel_free
mem_free fuel k none size align = ok k
mem_free fuel k (some ptr) size align = kernel_free fuel k ptr size align
