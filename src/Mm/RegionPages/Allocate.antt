-- ===== src/Mm/RegionPages/Allocate.antt =====
-- Allocating pages of a region and freeing them again.
use bek_os.Common.{
  ℕ, ◌+◌, ◌*◌, ◌%◌, ◌^◌, ◌≤◌, ◌<◌, ◌≡◌, ◌∙◌, ap, true, false, ◌⊎◌, inl, inr, Option, none, some,
  arith, fun_ext, sym,
}
use bek_os.Common.Tests.{◌==◌, ltb, if◌then◌else◌, add64, sub64, align_down, word, page_size}
use bek_os.Common.Outcome.{ok}
use bek_os.Mm.Addresses.{Region, Fits}
use bek_os.Mm.RegionPages.{
  RegionPages, not_found, page_number, search_for_free, mark_as_reserved, mark_region_as_free,
  allocate_pages, page_index, free_region,
}
use bek_os.Mm.RegionPages.Marks.{
  in_run, IsRun, free_loop_lem, mark_as_reserved_lem, mark_as_reserved_keeps,
}
use bek_os.Mm.RegionPages.Search.{SomeReserved, IsFirstRun, search_for_free_lem}

-- The region is made of whole pages and does not wrap, and the page freed last is one of its pages.
pub record IsValid (a : RegionPages) : Type 0 where
  pub aligned : a.region.start % page_size ≡ 0
  pub whole : a.region.size % page_size ≡ 0
  pub fits : Fits a.region
  pub last_in : a.last_freed ≤ page_number a

-- A region of half of the addresses at most: a difference of addresses in it is not negative.
abbrev pub IsHalf : Region → Type 0
IsHalf r = r.size ≤ 2 ^ 63

-- The address of a page.
abbrev pub page_address : RegionPages → ℕ → ℕ
page_address a index = a.region.start + index * page_size

page_index-page_address :
    (a : RegionPages) (index ptr : ℕ)
    → IsValid a
    → IsHalf a.region
    → index < page_number a
    → page_address a index ≤ ptr
    → ptr < page_address a index + page_size
    → page_index a ptr ≡ index
unfolding page_index
page_index-page_address a index ptr v half h lo hi =
    let whole = v.whole in
    let fits = v.fits in
    let base : align_down ptr page_size ≡ page_address a index = omega (arith, v.aligned) in
    let apart : sub64 (align_down ptr page_size) a.region.start ≡ index * page_size = omega arith in
    let small : ltb (index * page_size) (2 ^ 63) ≡ true = ground arith in
    rw apart (rw small (omega arith))

mark_as_reserved-IsValid :
    {a : RegionPages} (index n : ℕ) → IsValid a → IsValid (mark_as_reserved a index n)
mark_as_reserved-IsValid {a} index n v =
    let (r, l) = mark_as_reserved_keeps a index n in
    record {
      aligned = rw r v.aligned;
      whole = rw r v.whole;
      fits = rw r v.fits;
      last_in = rw (r, l) v.last_in;
    }

result_parts :
    {o : Option ℕ × RegionPages} {p q : ℕ} {a b : RegionPages}
    → o ≡ (some p, a)
    → o ≡ (some q, b)
    → (p ≡ q) × (a ≡ b)
result_parts x y = (ground (arith, ap (λ t. t.0) (sym x ∙ y)), ap (λ t. t.1) (sym x ∙ y))

-- What allocating `n` pages from `index` on leaves.
pub record Allocated (a : RegionPages) (n index : ℕ) (a' : RegionPages) : Type 0 where
  pub found : IsFirstRun a.free_bitmap a.last_freed (page_number a) n index
  pub bits : (j : ℕ) → a'.free_bitmap j ≡ (if in_run index n j then true else a.free_bitmap j)
  pub run : IsRun a' index n
  pub others :
      (j : ℕ) → in_run index n j ≡ false → a'.continuation_bitmap j ≡ a.continuation_bitmap j
  pub same_region : a'.region ≡ a.region
  pub valid : IsValid a'

module _ (a : RegionPages) (n : ℕ) (v : IsValid a) (pos : 0 < n) where
  reserve-Allocated :
      (index : ℕ)
      → IsFirstRun a.free_bitmap a.last_freed (page_number a) n index
      → Allocated a n index (mark_as_reserved a index n)
  reserve-Allocated index found =
      let small : index + n < word = omega (arith, found.inside) in
      record {
        found = found;
        bits = λ j. (mark_as_reserved_lem a index n j small).0;
        run = λ j lo hi.
            let inside : in_run index n j ≡ true = ground arith in
            (mark_as_reserved_lem a index n j small).1 ∙ rw inside;
        others = λ j out. (mark_as_reserved_lem a index n j small).1 ∙ rw out;
        same_region = (mark_as_reserved_keeps a index n).0;
        valid = mark_as_reserved-IsValid index n v;
      }

  -- allocate_pages of at least one page, on a valid region. It fails exactly if every run of so many
  -- pages from the page freed last on holds a reserved page, and then changes nothing. Otherwise it
  -- returns the address of the first free run from there on, inside the region, and reserves exactly
  -- the pages of that run.
  pub allocate_pages_lem :
      ((allocate_pages a n ≡ (none, a))
        × ((b : ℕ) → a.last_freed ≤ b → b + n ≤ page_number a → SomeReserved a.free_bitmap b n))
      ⊎ ((index : ℕ) × (a' : RegionPages) × (allocate_pages a n ≡ (some (page_address a index), a'))
          × Allocated a n index a')
  unfolding allocate_pages
  allocate_pages_lem = elim (search_for_free_lem a n pos v.last_in) [
    | inl (missing, full) ↦
        let e : (search_for_free a n == not_found) ≡ true = ground arith in inl (rw e, full)
    | inr found ↦
        let index = search_for_free a n in
        let e : (index == not_found) ≡ false = ground (arith, found.inside) in
        let address : add64 a.region.start (index * page_size % word) ≡ page_address a index =
          omega (arith, found.inside) in
        inr (index, mark_as_reserved a index n, rw (e, address), reserve-Allocated index found)
  ]

  free_run_given :
      (index : ℕ) (b : RegionPages) (fuel : ℕ)
      → IsHalf a.region
      → Allocated a n index b
      → n ≤ fuel
      → (c : RegionPages) × (free_region fuel b (page_address a index) ≡ ok c)
        × (c.free_bitmap ≡ a.free_bitmap)
        × (c.last_freed ≡ page_index a (page_address a index))
        × (c.region ≡ a.region)
        × IsValid c
  unfolding free_region mark_region_as_free
  free_run_given index b fuel half all enough =
      let inside = all.found.inside in
      let here =
        page_index-page_address a index (page_address a index) v half (omega arith) (omega arith)
          (omega arith) in
      let start : b.region.start ≡ a.region.start = ap (λ t. t.start) all.same_region in
      let size : b.region.size ≡ a.region.size = ap (λ t. t.size) all.same_region in
      let there : page_index b (page_address a index) ≡ index =
        page_index-page_address b index (page_address a index) all.valid (omega arith) (omega arith)
          (omega arith) (omega arith) in
      let (c, run, freed) =
        free_loop_lem n index fuel (record b { last_freed = index }) pos enough all.run in
      (
        c,
        rw there run,
        fun_ext (λ j. ground (arith, freed.bits j, all.bits j, all.found.free j)),
        freed.same_last ∙ sym here,
        freed.same_region ∙ all.same_region,
        record {
          aligned = rw (freed.same_region) all.valid.aligned;
          whole = rw (freed.same_region) all.valid.whole;
          fits = rw (freed.same_region) all.valid.fits;
          last_in = rw (freed.same_region, freed.same_last) (omega arith);
        },
      )

  -- In a region of half of the addresses at most, pages that allocate_pages returned can be freed by the address of the first of them, with one
  -- round of the loop for each page. The free bitmap is then what it was before the allocation, and
  -- the first of the pages is the page freed last.
  pub free_region-allocate_pages :
      (ptr : ℕ) (a' : RegionPages) (fuel : ℕ)
      → IsHalf a.region
      → allocate_pages a n ≡ (some ptr, a')
      → n ≤ fuel
      → (a'' : RegionPages) × (free_region fuel a' ptr ≡ ok a'')
        × (a''.free_bitmap ≡ a.free_bitmap)
        × (a''.last_freed ≡ page_index a ptr)
        × (a''.region ≡ a.region)
        × IsValid a''
  unfolding free_region mark_region_as_free
  free_region-allocate_pages ptr a' fuel half done enough = elim allocate_pages_lem [
    | inl (missing, full) ↦ absurd (cc (missing, done))
    | inr (index, b, run, all) ↦
        let (address, same) = result_parts run done in
        rw (← address, ← same) (free_run_given index b fuel half all enough)
  ]
