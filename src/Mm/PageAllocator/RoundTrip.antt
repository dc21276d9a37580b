-- ===== src/Mm/PageAllocator/RoundTrip.antt =====
-- A region of pages that the allocator gave out can be given back.
use bek_os.Common.{
  ℕ, ◌+◌, ◌*◌, ◌%◌, ◌≤◌, ◌<◌, ◌≡◌, refl, ap, true, false, ◌⊎◌, inl, inr, Option, none, some, arith,
  [], ◌∷◌,
}
use bek_os.Common.Tests.{word, page_size}
use bek_os.Common.Outcome.{ok}
use bek_os.Mm.Addresses.{Region, Fits, overlaps, contains_ptr}
use bek_os.Mm.RegionPages.Allocate.{
  IsHalf, allocate_pages_lem, free_region-allocate_pages, page_address,
}
use bek_os.Mm.PageAllocator.{PageAllocator, answer, allocate_region, free_region}
use bek_os.Mm.PageAllocator.Laws.{Apart, IsWellFormed, bitmaps}

-- An address of one region is not in a region apart from it.
outside :
    (r other part : Region)
    → Fits r
    → Fits other
    → overlaps r other ≡ false
    → other.start ≤ part.start
    → part.start + part.size ≤ other.start + other.size
    → 0 < part.size
    → (overlaps r part ≡ false) × (contains_ptr r part.start ≡ false)
unfolding overlaps contains_ptr
outside r other part f g e lo hi pos = ground arith

within :
    (r : Region) (ptr : ℕ)
    → Fits r
    → r.start ≤ ptr
    → ptr < r.start + r.size
    → contains_ptr r ptr ≡ true
unfolding contains_ptr
within r ptr f lo hi = ground arith

-- No region has more than half of the addresses.
abbrev pub AllHalf : PageAllocator → Type 0
AllHalf [] = Unit
AllHalf (none ∷ rest) = AllHalf rest
AllHalf (some a ∷ rest) = IsHalf a.region × AllHalf rest

-- What a region list does with an allocation: nothing, or it gives out `r`, whose pages lie in one
-- of its regions.
abbrev Allocates : ℕ → PageAllocator → Option Region × PageAllocator → Type 0
Allocates n regions o =
    (o ≡ (none, regions))
    ⊎ ((r : Region) × (regions' : PageAllocator) × (o ≡ (some r, regions'))
        × (r.size ≡ n * page_size)
        × ((k : Region)
            → Fits k
            → Apart k regions
            → (overlaps k r ≡ false) × (contains_ptr k r.start ≡ false))
        × ((fuel : ℕ)
            → n ≤ fuel
            → (regions'' : PageAllocator) × (free_region fuel regions' r.start ≡ ok regions'')
              × (bitmaps regions'' ≡ bitmaps regions)))

allocate_region_lem :
    (regions : PageAllocator) (n : ℕ)
    → 0 < n
    → IsWellFormed regions
    → AllHalf regions
    → Allocates n regions (allocate_region regions n)
unfolding allocate_region free_region
allocate_region_lem [] n pos w half = inl refl
allocate_region_lem (none ∷ rest) n pos w half = inl refl
allocate_region_lem (some a ∷ rest) n pos w half = elim (allocate_pages_lem a n w.0 pos) [
  | inr (index, a', run, all) ↦
      let inside = all.found.inside in
      let v = w.0 in
      let bytes : n * page_size % word ≡ n * page_size = omega arith in
      let part : Region = record { start = page_address a index; size = n * page_size } in
      let start : a'.region.start ≡ a.region.start = ap (λ t. t.start) all.same_region in
      let size : a'.region.size ≡ a.region.size = ap (λ t. t.size) all.same_region in
      inr (
        part,
        some a' ∷ rest,
        rw (run, bytes),
        refl,
        λ k f apart.
            outside k a.region part f v.fits apart.0 (omega arith) (omega arith) (omega arith),
        λ fuel enough.
            let (a'', freed, same, last, kept, valid) =
              free_region-allocate_pages a n v pos (page_address a index) a' fuel half.0 run
                enough in
            let here : contains_ptr a'.region (page_address a index) ≡ true =
              within a'.region (page_address a index) all.valid.fits (omega arith) (omega arith) in
            (some a'' ∷ rest, rw (here, freed), ap (λ t. some t ∷ bitmaps rest) same),
      )
  | inl (missing, full) ↦ elim (allocate_region_lem rest n pos w.3 half.1) [
    | inl e ↦ inl (rw (missing, e, answer))
    | inr (r, rest', run, size, apart, back) ↦
        let away = apart a.region w.0.fits w.2 in
        inr (
          r,
          some a ∷ rest',
          rw (missing, run, answer),
          size,
          λ k f far. apart k f far.1,
          λ fuel enough.
              let (rest'', freed, same) = back fuel enough in
              (some a ∷ rest'', rw (away.1, freed), ap (λ t. some a.free_bitmap ∷ t) same),
        )
  ]
]

-- allocate_region of at least one page, on a well-formed allocator none of whose regions has more than
-- half of the addresses, fails and changes nothing, or
-- gives out a region of that many pages that shares no address with any region that shares none with
-- those of the allocator. Freeing it by its start, with a round of the loop for each page, does not
-- panic, and gives the allocator the free bitmaps back that it had before.
pub free_region-allocate_region :
    (regions : PageAllocator) (n : ℕ)
    → 0 < n
    → IsWellFormed regions
    → AllHalf regions
    → (allocate_region regions n ≡ (none, regions))
      ⊎ ((r : Region) × (regions' : PageAllocator) × (allocate_region regions n
            ≡ (some r, regions'))
          × (r.size ≡ n * page_size)
          × ((k : Region) → Fits k → Apart k regions → overlaps k r ≡ false)
          × ((fuel : ℕ)
              → n ≤ fuel
              → (regions'' : PageAllocator) × (free_region fuel regions' r.start ≡ ok regions'')
                × (bitmaps regions'' ≡ bitmaps regions)))
free_region-allocate_region regions n pos w half = elim (allocate_region_lem regions n pos w half) [
  | inl e ↦ inl e
  | inr (r, regions', run, size, apart, back) ↦
      inr (r, regions', run, size, λ k f far. (apart k f far).0, back)
]
