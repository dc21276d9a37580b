-- ===== src/Tests/Bitsets.antt =====
-- Bitsets at work.
use bek_os.Common.{ℕ, ◌-◌, ◌≡◌, refl, false, min, arith}
use bek_os.Common.Tests.{ltb}
use bek_os.Common.Outcome.{ok}
use bek_os.Library.Bitset.{Bitset, set_range, get_region_size, find_first_fit}
use bek_os.Library.Bitset.Loops.{fill}
use bek_os.Library.Bitset.Range.{set_range_lem}
use bek_os.Library.Bitset.Scan.{run_length}
use bek_os.Library.Bitset.Run.{get_region_size_lem}
use bek_os.Library.Bitset.Fit.{find_first_fit_lem, Fit}
use bek_os.Library.Bitset.FirstFit.{find_first_fit-First, LongEnough, First}

-- The bits from 20 on are set.
abbrev upper_set : Bitset
upper_set = record { bits = λ j. ltb 19 j; length = 64 }

-- Clearing the four bits from 16 on clears the bits 20 to 23 as well.
set_range_lem_example : set_range upper_set 16 4 false ≡ ok (fill upper_set 16 24 false)
set_range_lem_example = set_range_lem upper_set 16 4 false (omega arith) (omega arith)

get_region_size_lem_example :
    get_region_size upper_set 3 false 40 ≡ ok (run_length (min 40 (64 - 3)) upper_set 3 false)
get_region_size_lem_example = get_region_size_lem upper_set 3 false 40 (omega arith) (omega arith)

-- The run of clear bits from 3 on has 17 bits.
seventeen : run_length 40 upper_set 3 false ≡ 17
seventeen = refl

find_first_fit_lem_example :
    (r : ℕ × ℕ) × (find_first_fit upper_set 4 false 0 2 1 100 ≡ ok r) × Fit upper_set 4 false r
find_first_fit_lem_example =
    find_first_fit_lem upper_set 4 false 0 2 1 100 (omega arith) (omega arith) (omega arith)

find_first_fit-First_example :
    (r : ℕ × ℕ) × (find_first_fit upper_set 4 false 3 1 0 100 ≡ ok r)
    × LongEnough upper_set 3 4 false r
    × First upper_set 3 4 false r
find_first_fit-First_example =
    find_first_fit-First upper_set 4 false 3 100 (omega arith) (omega arith) (omega arith)
      (omega arith)
