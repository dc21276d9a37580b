-- ===== src/Mm/RegionPages.antt =====
-- RegionPageAllocator of kernel/src/mm/page_allocator.cpp: the pages of one region of memory, with
-- two bits for each page. A page is reserved if its bit of the free bitmap is set; its bit of the
-- continuation bitmap says that the reservation goes on at the next page. A bitmap is the function
-- from a page's number i to bit i % 8 of its byte i / 8.
pub mod Marks
pub mod Search
pub mod Allocate
use bek_os.Common.{
  ℕ, zero, suc, ◌+◌, ◌-◌, ◌*◌, ◌/◌, ◌%◌, ◌^◌, Bool, true, false, ◌&&◌, not, Option, none, some,
}
use bek_os.Common.Tests.{◌==◌, ltb, if◌then◌else◌, add64, sub64, word, align_down, page_size}
use bek_os.Common.Outcome.{Outcome, ok, spin, ◌>>=◌, ◌>>◌, verify}
use bek_os.Mm.Addresses.{Region, page_aligned}

-- A bitmap with one bit written.
unfoldable pub set_bit : (ℕ → Bool) → ℕ → Bool → ℕ → Bool
set_bit bits i v j = if j == i then v else bits j

pub record RegionPages : Type 0 where
  pub region : Region
  pub free_bitmap : ℕ → Bool
  pub continuation_bitmap : ℕ → Bool
  pub last_freed : ℕ

-- m_region.size / PAGE_SIZE
abbrev pub page_number : RegionPages → ℕ
page_number a = a.region.size / page_size

-- The loop of mark_as_reserved(index, n_pages), for the rounds from `index` up to `end`.
unfoldable pub reserve_loop : ℕ → ℕ → ℕ → RegionPages → RegionPages
reserve_loop zero index end a = a
reserve_loop (suc rounds) index end a = reserve_loop rounds (index + 1) end (record a {
  free_bitmap = set_bit a.free_bitmap index true;
  continuation_bitmap = set_bit a.continuation_bitmap index (not (index + 1 == end));
})

unfoldable pub mark_as_reserved : RegionPages → ℕ → ℕ → RegionPages
mark_as_reserved a index n_pages =
    let end = add64 index n_pages in reserve_loop (end - index) index end a

-- The pages that the two bitmaps of a region take up, as the constructor computes them.
unfoldable pub pages_needed : Region → ℕ
pages_needed region =
    let pages = region.size / page_size in
    let bytes_per_bitmap = add64 (sub64 pages 1 / 8) 1 in
    add64 (sub64 (bytes_per_bitmap * 2 % word) 1 / page_size) 1

-- The constructor. The bitmaps lie in the first pages of the region, whose memory is not cleared:
-- `free_memory` and `continuation_memory` are the bits that stand there.
unfoldable pub make_region_pages : (ℕ → Bool) → (ℕ → Bool) → Region → Outcome RegionPages
make_region_pages free_memory continuation_memory region = do
  verify (page_aligned region)
  ok (
      mark_as_reserved
        (record {
          region = region;
          free_bitmap = free_memory;
          continuation_bitmap = continuation_memory;
          last_freed = 0;
        })
        0 (pages_needed region))

-- The loop of mark_region_as_free, for at most so many pages.
unfoldable pub free_loop : ℕ → ℕ → RegionPages → Outcome RegionPages
free_loop zero index a = spin
free_loop (suc fuel) index a =
    let cleared = record a { free_bitmap = set_bit a.free_bitmap index false } in
    elim (a.continuation_bitmap index) [
      | false ↦ ok cleared
      | true ↦ free_loop fuel (index + 1) cleared
    ]

unfoldable pub mark_region_as_free : ℕ → RegionPages → ℕ → Outcome RegionPages
mark_region_as_free fuel a start_index =
    free_loop fuel start_index (record a { last_freed = start_index })

-- static_cast<uSize>(-1)
abbrev pub not_found : ℕ
not_found = word - 1

-- The loop of search_for_free, for the rounds from `index` up to the number of pages.
unfoldable pub search_loop : ℕ → ℕ → ℕ → ℕ → ℕ → (ℕ → Bool) → ℕ
search_loop zero index region_begin region_size n_pages reserved = not_found
search_loop (suc rounds) index region_begin region_size n_pages reserved = elim (reserved index) [
  | true ↦ search_loop rounds (index + 1) (index + 1) 0 n_pages reserved
  | false ↦ elim (region_size + 1 == n_pages) [
    | true ↦ region_begin
    | false ↦ search_loop rounds (index + 1) region_begin (region_size + 1) n_pages reserved
  ]
]

unfoldable pub search_for_free : RegionPages → ℕ → ℕ
search_for_free a n_pages =
    search_loop (page_number a - a.last_freed) a.last_freed a.last_freed 0 n_pages a.free_bitmap

-- The address of the first page, if the pages were found.
unfoldable pub allocate_pages : RegionPages → ℕ → Option ℕ × RegionPages
allocate_pages a n_pages =
    let index = search_for_free a n_pages in
    if index == not_found
    then (none, a)
    else (some (add64 a.region.start (index * page_size % word)), mark_as_reserved a index n_pages)

-- The quotient of a signed difference and the size of a page, which rounds to zero; the remainders are those
-- of 64 bits.
abbrev pub signed_pages : ℕ → ℕ
signed_pages d = if ltb d (2 ^ 63) then d / page_size else (word - (word - d) / page_size) % word

unfoldable pub page_index : RegionPages → ℕ → ℕ
page_index a ptr = signed_pages (sub64 (align_down ptr page_size) a.region.start)

unfoldable pub free_region : ℕ → RegionPages → ℕ → Outcome RegionPages
unfolding page_index mark_region_as_free
free_region fuel a ptr = mark_region_as_free fuel a (page_index a ptr)

-- mark_as_reserved(VirtualRegion).
unfoldable pub mark_region_as_reserved : RegionPages → Region → Outcome RegionPages
unfolding page_index
mark_region_as_reserved a region = do
  let index = page_index a region.start
  let len = region.size / page_size
  verify (ltb (add64 index len) (page_number a))
  ok (mark_as_reserved a index len)
