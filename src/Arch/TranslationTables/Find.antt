-- ===== src/Arch/TranslationTables/Find.antt =====
-- What the processor finds for an address in the tables: the physical address and the attributes.
-- It reads the fields of the entries by itself, and knows nothing of how they are written.
use bek_os.Common.{
  ℕ, zero, suc, ◌+◌, ◌*◌, ◌/◌, ◌%◌, ◌^◌, ◌<◌, ◌≤◌, ◌≡◌, refl, true, ◌||◌, Option, none, some, arith,
}
use bek_os.Common.Tests.{◌==◌}
use bek_os.Arch.TranslationTables.{
  TableEntry, invalid, leaf, table, Table, size_at, create_page_entry, create_block_entry,
  empty_table,
}

-- The output address of a block or page at the level, and its lower and upper attributes.
abbrev pub output_at : ℕ → ℕ → ℕ
output_at level raw = raw / size_at level % (2 ^ 48 / size_at level) * size_at level

abbrev pub attributes_of : ℕ → ℕ × ℕ
attributes_of raw = (raw % 2 ^ 12 / 4, raw / 2 ^ 48)

abbrev pub Found : Type 0
Found = Option (ℕ × ℕ × ℕ)

-- In an entry of the level, at an offset; `below` looks in a table of the level below, and the last
-- level has none, but pages.
abbrev pub find_in : (Table → ℕ → Found) → ℕ → TableEntry → ℕ → Found
find_in below level invalid offset = none
find_in below level (leaf raw) offset =
    some (output_at level raw + offset, raw % 2 ^ 12 / 4, raw / 2 ^ 48)
find_in below level (table page t) offset = below t offset

unfoldable pub translate : ℕ → Table → ℕ → Found
translate zero t offset =
    find_in (λ sub rest. some (rest, 0, 0)) zero (t (offset / 4096)) (offset % 4096)
translate (suc level) t offset =
    find_in (translate level) (suc level) (t (offset / size_at (suc level)))
      (offset % size_at (suc level))

pub translate-empty_table : (level offset : ℕ) → translate level empty_table offset ≡ none
unfolding translate
translate-empty_table zero offset = refl
translate-empty_table (suc level) offset = refl

-- The address and the attributes of a page, and of a block at either level, are those that it was made of.
pub create_page_entry_lem :
    (phys flags : ℕ)
    → phys < 2 ^ 48
    → phys % 4096 ≡ 0
    → (output_at 0 (create_page_entry phys flags) ≡ phys)
      × (create_page_entry phys flags % 2 ^ 12 / 4 ≡ flags % 2 ^ 12 / 4)
      × (create_page_entry phys flags / 2 ^ 48 ≡ flags / 2 ^ 48)
unfolding create_page_entry
create_page_entry_lem phys flags h a = (omega arith, omega arith, omega arith)

pub create_block_entry_lem :
    (level phys flags : ℕ)
    → (level == 2 || level == 1) ≡ true
    → phys < 2 ^ 48
    → phys % size_at level ≡ 0
    → (output_at level (create_block_entry phys flags) ≡ phys)
      × (create_block_entry phys flags % 2 ^ 12 / 4 ≡ flags % 2 ^ 12 / 4)
      × (create_block_entry phys flags / 2 ^ 48 ≡ flags / 2 ^ 48)
unfolding create_block_entry
create_block_entry_lem zero phys flags l h a = absurd (cc l)
create_block_entry_lem (suc zero) phys flags l h a = (omega arith, omega arith, omega arith)
create_block_entry_lem (suc (suc zero)) phys flags l h a = (omega arith, omega arith, omega arith)
create_block_entry_lem (suc (suc (suc level))) phys flags l h a = absurd (ground arith)

pub size_at-mod : (level : ℕ) → (size_at level % 4096 ≡ 0) × (4096 ≤ size_at level)
size_at-mod zero = (refl, omega arith)
size_at-mod (suc level) = let (a, b) = size_at-mod level in (omega arith, omega arith)
