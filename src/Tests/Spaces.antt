-- ===== src/Tests/Spaces.antt =====
-- Address spaces and vectors at work.
use bek_os.Common.{ℕ, ◌≡◌, ◌↔◌, true, false, ◌⊎◌, List, [], ◌∷◌, some, arith}
use bek_os.Common.Tests.{◌==◌}
use bek_os.Common.Outcome.{Outcome, ok, esuccess}
use bek_os.Mm.Addresses.{Region}
use bek_os.Mm.SpaceManager.{
  Backing, MemoryOperation, SpaceManager, Entry, place_region, check_region, allows,
}
use bek_os.Mm.SpaceManager.Order.{Ordered, In}
use bek_os.Mm.SpaceManager.Place.{
  place_region_lem, new_entry, TooHigh, Clash, Unmapped, Lowest, Placed,
}
use bek_os.Mm.SpaceManager.Access.{check_region_iff, Covers}
use bek_os.Mm.SpaceManager.Release.{matches, deallocate_userspace_region, deallocate_backing}
use bek_os.Mm.SpaceManager.Release.Laws.{
  deallocate_userspace_region_lem, deallocate_backing_lem, Released, without,
}

-- A handle is the size of its memory, and the tables are the regions mapped.
abbrev plain_backing : Backing
plain_backing = record {
  Handle = ℕ;
  Tables = List Region;
  size = λ h. h;
  same = λ h h'. h == h';
  map_into_table = λ h t r o. (esuccess, r ∷ t);
  unmap_from_table = λ h t r. (esuccess, []);
  clone_for_fork = λ r. ok r.backing;
  create_contiguous = λ pages. ok pages;
  create_user_tables = [];
}

abbrev read_only : MemoryOperation
read_only = record { read = true; write = false; execute = false }

abbrev region_at : ℕ → ℕ → Entry plain_backing
region_at start size = record {
  user_region = record { start = start; size = size };
  backing = size;
  name = [];
  permissions = read_only;
}

abbrev two_regions : SpaceManager plain_backing
two_regions = record {
  regions = region_at 0x500000 0x2000 ∷ region_at 0x503000 0x1000 ∷ [];
  tables = [];
}

two_regions-Ordered : Ordered plain_backing 0 two_regions.regions
two_regions-Ordered = (omega arith, omega arith, (omega arith, omega arith, tt))

abbrev three : List ℕ
three = 1 ∷ 2 ∷ 3 ∷ []

abbrev gap_entry : Entry plain_backing
gap_entry = new_entry plain_backing two_regions (some 0x502000) read_only [] 0x800

abbrev gap_result : Outcome Region × SpaceManager plain_backing
gap_result = place_region plain_backing two_regions (some 0x502000) read_only [] 0x800

place_region_lem_example :
    TooHigh plain_backing two_regions gap_entry gap_result
    ⊎ (Clash plain_backing two_regions gap_entry gap_result
        ⊎ (Unmapped plain_backing two_regions gap_entry gap_result
            ⊎ (Lowest plain_backing two_regions gap_entry gap_result
                ⊎ Placed plain_backing two_regions gap_entry gap_result)))
place_region_lem_example =
    place_region_lem plain_backing two_regions (some 0x502000) read_only [] 0x800
      two_regions-Ordered (omega arith) (omega arith) (omega arith)

check_region_iff_example :
    (check_region plain_backing two_regions 0x503800 0x100 read_only ≡ true) ↔ (
      (r : Entry plain_backing) × In plain_backing r two_regions.regions
      × Covers plain_backing r 0x503800 0x100
      × (allows r.permissions read_only ≡ true))
check_region_iff_example =
    check_region_iff plain_backing two_regions 0x503800 0x100 read_only two_regions-Ordered
      (omega arith) (omega arith)

deallocate_userspace_region_lem_example :
    Released plain_backing two_regions
      (matches plain_backing 0x503000 0x1000)
      (deallocate_userspace_region plain_backing two_regions 0x503000 0x1000)
deallocate_userspace_region_lem_example =
    deallocate_userspace_region_lem plain_backing two_regions 0x503000 0x1000

deallocate_backing_lem_example :
    deallocate_backing plain_backing two_regions 0x1000
    ≡ ok (record two_regions {
      regions =
          without plain_backing (λ r. plain_backing.same r.backing 0x1000) two_regions.regions;
    })
deallocate_backing_lem_example = deallocate_backing_lem plain_backing two_regions 0x1000
