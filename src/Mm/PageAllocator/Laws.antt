-- ===== src/Mm/PageAllocator/Laws.antt =====
-- The regions of the page allocator stay apart, and what was allocated can be freed.
use bek_os.Common.{
  ℕ, ◌<◌, ◌≡◌, refl, Bool, true, false, ◌⊎◌, inl, inr, Option, none, some, arith, List, [], ◌∷◌,
}
use bek_os.Common.Tests.{Bool-cases}
use bek_os.Common.Outcome.{Outcome, ok, panic}
use bek_os.Mm.Addresses.{Region, Fits, overlaps, page_aligned}
use bek_os.Mm.RegionPages.{RegionPages, make_region_pages, mark_as_reserved, pages_needed}
use bek_os.Mm.RegionPages.Marks.{mark_as_reserved_keeps}
use bek_os.Mm.RegionPages.Allocate.{IsValid}
use bek_os.Mm.PageAllocator.{PageAllocator, register_new_region}

-- A region shares no address with those of a list.
abbrev pub Apart : Region → PageAllocator → Type 0
Apart r [] = Unit
Apart r (none ∷ rest) = Apart r rest
Apart r (some b ∷ rest) = (overlaps r b.region ≡ false) × Apart r rest

-- Every region is valid and not empty, and no two of them overlap; those in use come first.
abbrev pub AllEmpty : PageAllocator → Type 0
AllEmpty [] = Unit
AllEmpty (none ∷ rest) = AllEmpty rest
AllEmpty (some b ∷ rest) = ⊥

abbrev pub IsWellFormed : PageAllocator → Type 0
IsWellFormed [] = Unit
IsWellFormed (none ∷ rest) = AllEmpty rest
IsWellFormed (some a ∷ rest) =
    IsValid a × (0 < a.region.size) × Apart a.region rest × IsWellFormed rest

-- The free bitmaps of the regions in use.
abbrev pub bitmaps : PageAllocator → List (Option (ℕ → Bool))
bitmaps [] = []
bitmaps (none ∷ rest) = none ∷ bitmaps rest
bitmaps (some a ∷ rest) = some a.free_bitmap ∷ bitmaps rest

fresh-IsValid :
    (a : RegionPages) (region : Region)
    → a.region ≡ region
    → a.last_freed ≡ 0
    → page_aligned region ≡ true
    → Fits region
    → IsValid a
unfolding page_aligned
fresh-IsValid a region e l h f = record {
  aligned = rw e (ground arith);
  whole = rw e (ground arith);
  fits = rw e f;
  last_in = rw l (omega arith);
}

make_region_pages-IsValid :
    (free_memory continuation_memory : ℕ → Bool) (region : Region)
    → Fits region
    → (make_region_pages free_memory continuation_memory region ≡ panic)
      ⊎ ((a : RegionPages) × (make_region_pages free_memory continuation_memory region ≡ ok a)
          × IsValid a
          × (a.region ≡ region))
unfolding make_region_pages
make_region_pages-IsValid free_memory continuation_memory region f =
    elim (Bool-cases (page_aligned region)) [
      | inr e ↦ inl (rw e)
      | inl e ↦
          let base : RegionPages = record {
            region = region;
            free_bitmap = free_memory;
            continuation_bitmap = continuation_memory;
            last_freed = 0;
          } in
          let (same, last) = mark_as_reserved_keeps base 0 (pages_needed region) in
          inr (
            mark_as_reserved base 0 (pages_needed region),
            rw e,
            fresh-IsValid _ region same last e f,
            same,
          )
    ]

Apart-empty : (r : Region) (rest : PageAllocator) → AllEmpty rest → Apart r rest
Apart-empty r [] h = tt
Apart-empty r (none ∷ rest) h = Apart-empty r rest h
Apart-empty r (some b ∷ rest) h = absurd h

AllEmpty-IsWellFormed : (rest : PageAllocator) → AllEmpty rest → IsWellFormed rest
AllEmpty-IsWellFormed [] h = tt
AllEmpty-IsWellFormed (none ∷ rest) h = h
AllEmpty-IsWellFormed (some b ∷ rest) h = absurd h

-- What a registration may do: it panics, or it gives a well-formed allocator to which no region has
-- been added but the new one.
abbrev Registered : Region → PageAllocator → Outcome PageAllocator → Type 0
Registered region regions o =
    (o ≡ panic)
    ⊎ ((regions' : PageAllocator) × (o ≡ ok regions')
        × IsWellFormed regions'
        × ((r : Region) → Apart r regions → overlaps r region ≡ false → Apart r regions'))

register_lem :
    (free_memory continuation_memory : ℕ → Bool) (regions : PageAllocator) (region : Region)
    → Fits region
    → 0 < region.size
    → IsWellFormed regions
    → Registered region regions (register_new_region free_memory continuation_memory regions region)
unfolding register_new_region
register_lem free_memory continuation_memory [] region f p w = inl refl
register_lem free_memory continuation_memory (none ∷ rest) region f p w =
    elim (make_region_pages-IsValid free_memory continuation_memory region f) [
      | inl e ↦ inl (rw e)
      | inr (a, run, v, same) ↦ inr (
        some a ∷ rest,
        rw run,
        (v, rw same p, Apart-empty a.region rest w, AllEmpty-IsWellFormed rest w),
        λ r apart out. (rw same out, apart),
      )
    ]
register_lem free_memory continuation_memory (some a ∷ rest) region f p w =
    elim (Bool-cases (overlaps a.region region)) [
      | inl e ↦ inl (rw e)
      | inr e ↦ elim (register_lem free_memory continuation_memory rest region f p w.3) [
        | inl stop ↦ inl (rw (e, stop))
        | inr (rest', run, w', keeps) ↦ inr (
          some a ∷ rest',
          rw (e, run),
          (w.0, w.1, keeps a.region w.2 e, w'),
          λ r apart out. (apart.0, keeps r apart.1 out),
        )
      ]
    ]

-- register_new_region, for a region that is not empty and does not wrap, and a well-formed allocator:
-- it panics, or the allocator that it leaves is well-formed, so that no two of its regions share an
-- address.
pub register_new_region-IsWellFormed :
    (free_memory continuation_memory : ℕ → Bool) (regions : PageAllocator) (region : Region)
    → Fits region
    → 0 < region.size
    → IsWellFormed regions
    → (register_new_region free_memory continuation_memory regions region ≡ panic)
      ⊎ ((regions' : PageAllocator) × (register_new_region free_memory continuation_memory regions
              region
            ≡ ok regions')
          × IsWellFormed regions')
register_new_region-IsWellFormed free_memory continuation_memory regions region f p w =
    elim (register_lem free_memory continuation_memory regions region f p w) [
      | inl e ↦ inl e
      | inr (regions', run, w', keeps) ↦ inr (regions', run, w')
    ]
