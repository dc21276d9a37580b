-- ===== src/Mm/Addresses.antt =====
-- kernel/include/mm/addresses.h: regions of addresses. UserRegion, PhysicalRegion and VirtualRegion
-- have the same operations; one record stands for the three.
use bek_os.Common.{ℕ, ◌+◌, ◌-◌, ◌%◌, ◌<◌, ◌≤◌, ◌≡◌, ◌↔◌, Bool, true, ◌&&◌, arith, min, max}
use bek_os.Common.Tests.{
  ◌==◌, ltb, leb, if◌then◌else◌, add64, sub64, word, align_up, align_down, page_size,
}

pub record Region : Type 0 where
  pub start : ℕ
  pub size : ℕ

unfoldable pub region_end : Region → ℕ
region_end r = add64 r.start r.size

unfoldable pub overlaps : Region → Region → Bool
unfolding region_end
overlaps r other = ltb other.start (region_end r) && ltb r.start (region_end other)

unfoldable pub contains_ptr : Region → ℕ → Bool
unfolding region_end
contains_ptr r ptr = leb r.start ptr && ltb ptr (region_end r)

unfoldable pub contains : Region → Region → Bool
unfolding region_end
contains r other = leb r.start other.start && leb (region_end other) (region_end r)

unfoldable pub intersection : Region → Region → Region
unfolding region_end
intersection r other =
    let new_start = max r.start other.start in
    let new_end = min (region_end r) (region_end other) in
    if leb new_start new_end
    then record { start = new_start; size = sub64 new_end new_start }
    else record { start = 0; size = 0 }

unfoldable pub page_aligned : Region → Bool
page_aligned r = r.start % page_size == 0 && r.size % page_size == 0

unfoldable pub align_to_page : Region → Region
unfolding region_end
align_to_page r =
    let end_address = align_up (region_end r) page_size in
    let start_address = align_down r.start page_size in
    record { start = start_address; size = sub64 end_address start_address }

-- The end of the region is an address.
abbrev pub Fits : Region → Type 0
Fits r = r.start + r.size < word

abbrev pub Within : ℕ → Region → Type 0
Within a r = (r.start ≤ a) × (a < r.start + r.size)

-- Two regions that do not wrap overlap, by the test of the code, exactly if they share an address,
-- where neither is empty.
pub overlaps_iff :
    (r other : Region)
    → Fits r
    → Fits other
    → 0 < r.size
    → 0 < other.size
    → (overlaps r other ≡ true) ↔ ((a : ℕ) × Within a r × Within a other)
unfolding overlaps
overlaps_iff r other f g p q =
    (λ e. (max r.start other.start, ground arith, ground arith), λ w. ground (arith, w.1, w.2))

-- The intersection of two regions that do not wrap holds exactly the addresses that both hold, and
-- does not wrap.
pub intersection_lem :
    (r other : Region) (a : ℕ)
    → Fits r
    → Fits other
    → Fits (intersection r other)
      × (Within a (intersection r other) ↔ (Within a r × Within a other))
unfolding intersection
intersection_lem r other a f g =
    (ground arith, (λ w. ground (arith, w.0, w.1), λ w. ground (arith, w.0, w.1)))

-- A region contains another that does not wrap and is not empty exactly if it holds each address of
-- it.
pub contains_iff :
    (r other : Region)
    → Fits r
    → Fits other
    → 0 < other.size
    → (contains r other ≡ true) ↔ ((a : ℕ) → Within a other → Within a r)
unfolding contains
contains_iff r other f g p = (
  λ e a w. ground (arith, w.0, w.1),
  λ h. ground (arith, h other.start, h (other.start + other.size - 1)),
)
