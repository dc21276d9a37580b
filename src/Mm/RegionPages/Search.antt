-- ===== src/Mm/RegionPages/Search.antt =====
-- search_for_free finds the first run that is long enough, from the page that was freed last.
use bek_os.Common.{
  ℕ, zero, suc, ◌+◌, ◌-◌, ◌≤◌, ◌<◌, ◌≡◌, refl, dec_lt, Bool, true, false, ◌⊎◌, inl, inr, arith,
}
use bek_os.Common.Tests.{◌==◌, Bool-cases}
use bek_os.Mm.RegionPages.{RegionPages, not_found, page_number, search_loop, search_for_free}

-- All the pages of a run are free.
abbrev pub AllFree : (ℕ → Bool) → ℕ → ℕ → Type 0
AllFree reserved begin n = (j : ℕ) → begin ≤ j → j < begin + n → reserved j ≡ false

-- Some page of the run is reserved.
abbrev pub SomeReserved : (ℕ → Bool) → ℕ → ℕ → Type 0
SomeReserved reserved begin n = (j : ℕ) × (begin ≤ j) × (j < begin + n) × (reserved j ≡ true)

-- No run of `n` pages that begins in an interval is free.
abbrev pub NoRun : (ℕ → Bool) → ℕ → ℕ → ℕ → Type 0
NoRun reserved from to n = (b : ℕ) → from ≤ b → b < to → SomeReserved reserved b n

-- The first free run of `n` pages from `from`, among `pages`, begins at `r`.
pub record IsFirstRun (reserved : ℕ → Bool) (from pages n r : ℕ) : Type 0 where
  pub after : from ≤ r
  pub inside : r + n ≤ pages
  pub free : AllFree reserved r n
  pub first : NoRun reserved from r n

module _ (reserved : ℕ → Bool) (from pages n : ℕ) (pos : 0 < n) where
  abbrev Found : ℕ → Type 0
  Found r =
      ((r ≡ not_found) × ((b : ℕ) → from ≤ b → b + n ≤ pages → SomeReserved reserved b n))
      ⊎ IsFirstRun reserved from pages n r

  free_longer :
      (begin size index : ℕ)
      → AllFree reserved begin size
      → begin + size ≡ index
      → reserved index ≡ false
      → (j : ℕ) → begin ≤ j
      → j < index + 1
      → reserved j ≡ false
  free_longer begin size index free b h j lo hi = elim (dec_lt j index) [
    | yes p ↦ free j lo (omega arith)
    | no p ↦ let e : index ≡ j = omega arith in rw e at h
  ]

  search_loop_lem :
      (rounds index begin size : ℕ)
      → index + rounds ≡ pages
      → begin + size ≡ index
      → from ≤ begin
      → size < n
      → AllFree reserved begin size
      → NoRun reserved from begin n
      → Found (search_loop rounds index begin size n reserved)
  unfolding search_loop
  search_loop_lem zero index begin size e b f s free none =
      inl (refl, λ c lo hi. none c lo (omega arith))
  search_loop_lem (suc rounds) index begin size e b f s free none =
      elim (Bool-cases (reserved index)) [
        | inl taken ↦
            rw (taken, search_loop)
              (search_loop_lem rounds (index + 1) (index + 1) 0 (omega arith) (omega arith)
                (omega arith) pos (λ j lo hi. absurd (omega arith))
                λ c lo hi. elim (dec_lt c begin) [
                  | yes p ↦ none c lo p
                  | no p ↦ (index, omega arith, omega arith, taken)
                ])
        | inr open_page ↦
            let longer = free_longer begin size index free b open_page in
            elim (Bool-cases (size + 1 == n)) [
              | inl full ↦
                  rw (open_page, full, search_loop)
                    (inr (record {
                      after = f;
                      inside = ground arith;
                      free = λ j lo hi. longer j lo (ground arith);
                      first = none;
                    }))
              | inr short ↦
                  rw (open_page, short, search_loop)
                    (search_loop_lem rounds (index + 1) begin (size + 1) (omega arith) (omega arith)
                      f (ground arith) (λ j lo hi. longer j lo (omega arith)) none)
            ]
      ]

-- search_for_free of at least one page, with the page freed last inside the region and fewer pages
-- than the largest number: it finds the first free run that begins at or behind the page freed last
-- and ends in the region, or it returns -1 and there is none.
pub search_for_free_lem :
    (a : RegionPages) (n : ℕ)
    → 0 < n
    → a.last_freed ≤ page_number a
    → ((search_for_free a n ≡ not_found)
        × ((b : ℕ) → a.last_freed ≤ b → b + n ≤ page_number a → SomeReserved a.free_bitmap b n))
      ⊎ IsFirstRun a.free_bitmap a.last_freed (page_number a) n (search_for_free a n)
unfolding search_for_free
search_for_free_lem a n pos h =
    search_loop_lem a.free_bitmap a.last_freed (page_number a) n pos (page_number a - a.last_freed)
      a.last_freed a.last_freed 0 (omega arith) (omega arith) (omega arith) pos
      (λ j lo hi. absurd (omega arith)) (λ b lo hi. absurd (omega arith))
