-- ===== src/Tests/Pages.antt =====
-- Regions and page allocation: kernel/include/mm/addresses.h and kernel/src/mm/page_allocator.cpp.
use bek_os.Common.{ℕ, ◌+◌, ◌*◌, ◌≤◌, ◌≡◌, refl, Bool, false, ◌||◌, ◌⊎◌, none, some, [], ◌∷◌, arith}
use bek_os.Common.Tests.{◌==◌, ltb, page_size}
use bek_os.Common.Outcome.{ok, panic}
use bek_os.Mm.Addresses.{Region, Fits, overlaps}
use bek_os.Mm.RegionPages
use bek_os.Mm.RegionPages.{
  RegionPages, not_found, page_number, search_for_free, search_loop, allocate_pages,
  mark_as_reserved, page_index,
}
use bek_os.Mm.RegionPages.Search.{SomeReserved}
use bek_os.Mm.RegionPages.Allocate.{
  IsValid, page_address, Allocated, allocate_pages_lem, free_region-allocate_pages,
}
use bek_os.Mm.PageAllocator.{
  PageAllocator, make_page_allocator, register_new_region, allocate_region, free_region,
}
use bek_os.Mm.PageAllocator.Laws.{Apart, IsWellFormed, bitmaps, register_new_region-IsWellFormed}
use bek_os.Mm.PageAllocator.RoundTrip.{free_region-allocate_region}

-- Eight pages of which the first, the second and the fourth are reserved.
abbrev some_pages : RegionPages
some_pages = record {
  region = record { start = 0x40000; size = 0x8000 };
  free_bitmap = λ j. ltb j 2 || j == 3;
  continuation_bitmap = λ j. j == 0;
  last_freed = 1;
}

some_pages-IsValid : IsValid some_pages
some_pages-IsValid = omega arith

abbrev low : Region
low = record { start = 0x1000; size = 0x3000 }

abbrev middle : Region
middle = record { start = 0x2000; size = 0x1000 }

search_runs : search_for_free some_pages 2 ≡ 4
unfolding search_for_free search_loop
search_runs = refl

allocate_pages_lem_example :
    ((allocate_pages some_pages 2 ≡ (none, some_pages))
      × ((b : ℕ) → 1 ≤ b → b + 2 ≤ 8 → SomeReserved some_pages.free_bitmap b 2))
    ⊎ ((index : ℕ) × (a' : RegionPages) × (allocate_pages some_pages 2
          ≡ (some (page_address some_pages index), a'))
        × Allocated some_pages 2 index a')
allocate_pages_lem_example = allocate_pages_lem some_pages 2 some_pages-IsValid (omega arith)

allocated : allocate_pages some_pages 2 ≡ (some 0x44000, mark_as_reserved some_pages 4 2)
unfolding allocate_pages search_for_free search_loop
allocated = refl

free_region-allocate_pages_example :
    (a'' : RegionPages) × (RegionPages.free_region 2 (mark_as_reserved some_pages 4 2) 0x44000
      ≡ ok a'')
    × (a''.free_bitmap ≡ some_pages.free_bitmap)
    × (a''.last_freed ≡ page_index some_pages 0x44000)
    × (a''.region ≡ some_pages.region)
    × IsValid a''
free_region-allocate_pages_example =
    free_region-allocate_pages some_pages 2 some_pages-IsValid (omega arith) 0x44000
      (mark_as_reserved some_pages 4 2) 2 (omega arith) allocated (omega arith)

abbrev clear : ℕ → Bool
clear j = false

register_new_region-IsWellFormed_example :
    (register_new_region clear clear make_page_allocator low ≡ panic)
    ⊎ ((regions' : PageAllocator) × (register_new_region clear clear make_page_allocator low
          ≡ ok regions')
        × IsWellFormed regions')
register_new_region-IsWellFormed_example =
    register_new_region-IsWellFormed clear clear make_page_allocator low (omega arith) (omega arith)
      tt

abbrev one_region : PageAllocator
one_region = some some_pages ∷ none ∷ none ∷ none ∷ []

free_region-allocate_region_example :
    (allocate_region one_region 2 ≡ (none, one_region))
    ⊎ ((r : Region) × (regions' : PageAllocator) × (allocate_region one_region 2
          ≡ (some r, regions'))
        × (r.size ≡ 2 * page_size)
        × ((k : Region) → Fits k → Apart k one_region → overlaps k r ≡ false)
        × ((fuel : ℕ)
            → 2 ≤ fuel
            → (regions'' : PageAllocator) × (free_region fuel regions' r.start ≡ ok regions'')
              × (bitmaps regions'' ≡ bitmaps one_region)))
free_region-allocate_region_example =
    free_region-allocate_region one_region 2 (omega arith) (some_pages-IsValid, omega arith, tt, tt)
      (omega arith, tt)
