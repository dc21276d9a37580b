-- ===== src/Mm/SpaceManager/Order.antt =====
-- The regions of an address space stand in order of address and do not overlap.
use bek_os.Common.{
  ℕ, zero, suc, ◌+◌, ◌≤◌, ◌≡◌, refl, ap, ◌∙◌, true, false, ◌⊎◌, inl, inr, List, [], ◌∷◌, ◌++◌,
  arith,
}
use bek_os.Common.Tests.{leb, page_size, Bool-cases}
use bek_os.Common.Lists.{length, take, drop}
use bek_os.Common.Outcome.{Outcome, ok, err, eaddrinuse}
use bek_os.Mm.Addresses.{Region, region_end, overlaps}
use bek_os.Mm.SpaceManager.{Backing, Entry, find_position, user_addr_max}

-- The end of a placed region is rounded up to a page.
abbrev pub limit : ℕ
limit = user_addr_max + page_size

stands_before :
    (r d : Region)
    → d.start + d.size ≤ limit
    → leb (region_end d) r.start ≡ true
    → d.start + d.size ≤ r.start
unfolding region_end
stands_before r d h e = ground arith

stands_after :
    (r d : Region)
    → r.start + r.size ≤ limit
    → d.start + d.size ≤ limit
    → overlaps r d ≡ false
    → leb (region_end d) r.start ≡ false
    → r.start + r.size ≤ d.start
unfolding region_end overlaps
stands_after r d g h e f = ground arith

module _ (K : Backing) where
  -- The regions lie one behind the other from an address on.
  abbrev pub Ordered : ℕ → List (Entry K) → Type 0
  Ordered low [] = Unit
  Ordered low (r ∷ rest) =
      (low ≤ r.user_region.start)
      × (r.user_region.start + r.user_region.size ≤ limit)
      × Ordered (r.user_region.start + r.user_region.size) rest

  abbrev pub In : Entry K → List (Entry K) → Type 0
  In e [] = ⊥
  In e (r ∷ rest) = (e ≡ r) ⊎ In e rest

  Ordered-lower :
      (low low' : ℕ) (regions : List (Entry K))
      → low' ≤ low
      → Ordered low regions
      → Ordered low' regions
  Ordered-lower low low' [] h o = tt
  Ordered-lower low low' (r ∷ rest) h o = (omega arith, o.1, o.2)

  -- What the search for a position answers: some region overlaps, or the entry can stand there.
  abbrev pub Position : ℕ → List (Entry K) → Entry K → ℕ → Outcome ℕ → Type 0
  Position low regions e i o =
      ((o ≡ err eaddrinuse)
        × ((r : Entry K) × In r regions × (overlaps r.user_region e.user_region ≡ true)))
      ⊎ ((k : ℕ) × (o ≡ ok (i + k))
          × (k ≤ length regions)
          × Ordered low (take k regions ++ e ∷ drop k regions))

  pub find_position_lem :
      (regions : List (Entry K)) (e : Entry K) (i low : ℕ)
      → Ordered low regions
      → low ≤ e.user_region.start
      → e.user_region.start + e.user_region.size ≤ limit
      → Position low regions e i (find_position K regions e.user_region i)
  unfolding find_position
  find_position_lem [] e i low o lo hi = inr (0, ap ok (omega arith), omega arith, (lo, hi, tt))
  find_position_lem (r ∷ rest) e i low o lo hi =
      elim (Bool-cases (overlaps r.user_region e.user_region)) [
        | inl clash ↦ inl (rw clash, (r, inl refl, clash))
        | inr apart ↦ elim (Bool-cases (leb (region_end e.user_region) r.user_region.start)) [
          | inl before ↦ inr (
            0,
            rw (apart, before) (ap ok (omega arith)),
            omega arith,
            (lo, hi, (stands_before r.user_region e.user_region hi before, o.1, o.2)),
          )
          | inr after ↦
              let past = stands_after r.user_region e.user_region o.1 hi apart after in
              elim (find_position_lem rest e (i + 1) _ o.2 past hi) [
                | inl (clash, (c, inside, meets)) ↦
                    inl (rw (apart, after) clash, (c, inr inside, meets))
                | inr (k, found, short, ordered) ↦ inr (
                  suc k,
                  rw (apart, after) (found ∙ ap ok (omega arith)),
                  omega arith,
                  (o.0, o.1, ordered),
                )
              ]
        ]
      ]

  -- Taking an entry away keeps the order.
  pub Ordered-remove :
      (regions : List (Entry K)) (i low : ℕ)
      → Ordered low regions
      → Ordered low (take i regions ++ drop (suc i) regions)
  Ordered-remove [] zero low o = tt
  Ordered-remove [] (suc i) low o = tt
  Ordered-remove (r ∷ rest) zero low o =
      Ordered-lower (r.user_region.start + r.user_region.size) low rest (omega arith) o.2
  Ordered-remove (r ∷ rest) (suc i) low o =
      (o.0, o.1, Ordered-remove rest i (r.user_region.start + r.user_region.size) o.2)
