-- ===== src/Mm/PageAllocator.antt =====
-- PageAllocator of kernel/src/mm/page_allocator.cpp: up to four regions of physical memory, each
-- with a RegionPageAllocator of its own.
pub mod Laws
pub mod RoundTrip
use bek_os.Common.{ℕ, ◌*◌, Bool, not, List, [], ◌∷◌, Option, none, some, ◌%◌}
use bek_os.Common.Tests.{if◌then◌else◌, word, page_size}
use bek_os.Common.Lists.{replicate}
use bek_os.Common.Outcome.{Outcome, ok, panic, ◌>>=◌, ◌>>◌, verify}
use bek_os.Mm.Addresses.{Region, overlaps, contains_ptr, page_aligned}
use bek_os.Mm.RegionPages.{RegionPages, make_region_pages, allocate_pages, mark_region_as_reserved}
use bek_os.Mm.RegionPages

abbrev pub max_physical_regions : ℕ
max_physical_regions = 4

-- m_phys_regions.
abbrev pub PageAllocator : Type 0
PageAllocator = List (Option RegionPages)

abbrev pub make_page_allocator : PageAllocator
make_page_allocator = replicate max_physical_regions none

-- `free_memory` and `continuation_memory` are the bits in the new region's memory.
unfoldable pub register_new_region :
    (ℕ → Bool) → (ℕ → Bool) → PageAllocator → Region → Outcome PageAllocator
register_new_region free_memory continuation_memory [] region = panic
register_new_region free_memory continuation_memory (none ∷ rest) region = do
  a ← make_region_pages free_memory continuation_memory region
  ok (some a ∷ rest)
register_new_region free_memory continuation_memory (some a ∷ rest) region = do
  verify (not (overlaps a.region region))
  rest' ← register_new_region free_memory continuation_memory rest region
  ok (some a ∷ rest')

-- The loop of mark_as_reserved over the regions.
unfoldable pub mark_regions : PageAllocator → Region → Outcome PageAllocator
mark_regions [] region = ok []
mark_regions (none ∷ rest) region = do rest' ← mark_regions rest region; ok (none ∷ rest')
mark_regions (some a ∷ rest) region = do
  a' ← if overlaps a.region region then mark_region_as_reserved a region else ok a
  rest' ← mark_regions rest region
  ok (some a' ∷ rest')

unfoldable pub mark_as_reserved : PageAllocator → Region → Outcome PageAllocator
unfolding mark_regions
mark_as_reserved regions region = verify (page_aligned region) >> mark_regions regions region

-- What the loop of allocate_region does with one region's answer; `later` is the answer of the
-- regions behind it.
unfoldable pub answer :
    ℕ
    → PageAllocator
    → Option Region × PageAllocator
    → Option ℕ × RegionPages
    → Option Region × PageAllocator
answer page_number rest later (some ptr, a) =
    (some (record { start = ptr; size = page_number * page_size % word }), some a ∷ rest)
answer page_number rest later (none, a) = (later.0, some a ∷ later.1)

unfoldable pub allocate_region : PageAllocator → ℕ → Option Region × PageAllocator
unfolding answer
allocate_region [] page_number = (none, [])
allocate_region (none ∷ rest) page_number = (none, none ∷ rest)
allocate_region (some a ∷ rest) page_number =
    answer page_number rest (allocate_region rest page_number) (allocate_pages a page_number)

-- `fuel` bounds the pages of one allocation.
unfoldable pub free_region : ℕ → PageAllocator → ℕ → Outcome PageAllocator
free_region fuel [] start = panic
free_region fuel (none ∷ rest) start = ok (none ∷ rest)
free_region fuel (some a ∷ rest) start =
    if contains_ptr a.region start
    then (RegionPages.free_region fuel a start >>= λ a'. ok (some a' ∷ rest))
    else (free_region fuel rest start >>= λ rest'. ok (some a ∷ rest'))
