-- ===== src/Tests/Mappings.antt =====
-- The translation tables at concrete inputs (kernel/src/arch/a64/translation_tables.cpp).
use bek_os.Common.{ℕ, ◌+◌, ◌-◌, ◌≡◌, refl, Bool, [], some, none, map, List, ◌∷◌}
use bek_os.Common.Outcome.{Outcome, ok, ◌>>=◌}
use bek_os.Arch.TranslationTables.{empty_table, create_page_entry, create_block_entry}
use bek_os.Arch.TranslationTables.Find.{Found, translate}
use bek_os.Arch.TableManager.{Platform, TableManager, allocate_table, map_region, unmap_region}

abbrev platform : Platform
platform = record {
  initial_pgtables_start = 4096;
  initial_pgtables_end = 40960;
  kernel_virt_to_phys = λ p. some (p + 524288);
  kernel_phys_to_virt = λ p. p - 524288;
}

-- The root is the first of the tables in the kernel's image.
abbrev manager : TableManager
manager = record {
  root_table = 4096;
  root = empty_table;
  pages = record { embedded_tables_current = 8192; page_allocator = [] };
}

-- A page, a block of two megabytes and a page, readable and writeable by the kernel, with the second
-- set of memory attributes.
abbrev mapped : Outcome (Bool × TableManager)
mapped = map_region platform manager 2093056 1075834880 2105344 9007199254742016 1

abbrev lookups : Outcome (Bool × TableManager) → List ℕ → Outcome (List Found)
lookups r places = r >>= λ (good, t). ok (map (translate 3 t.root) places)

map_region-lookups :
    lookups mapped (2093055 ∷ 2093056 ∷ 2097152 ∷ 4198399 ∷ 4198400 ∷ [])
    ≡ ok (
        none
        ∷ some (1075834880, 257, 32)
        ∷ some (1075838976, 257, 32)
        ∷ some (1077940223, 257, 32)
        ∷ none
        ∷ [])
unfolding map_region translate allocate_table create_page_entry create_block_entry
map_region-lookups = refl

-- Two blocks are mapped, and the first is unmapped: both are gone, and the answer is false.
abbrev blocks : List ℕ
blocks = 2097152 ∷ 4194304 ∷ []

abbrev two_blocks : Outcome (Bool × TableManager)
two_blocks = map_region platform manager 2097152 1073741824 4194304 9007199254742016 1

map_region-blocks :
    lookups two_blocks blocks ≡ ok (some (1073741824, 257, 32) ∷ some (1075838976, 257, 32) ∷ [])
unfolding map_region translate allocate_table create_block_entry
map_region-blocks = refl

unmap_region-blocks :
    lookups (two_blocks >>= λ (good, t). unmap_region platform 1 t 2097152 2097152) blocks
    ≡ ok (none ∷ none ∷ [])
unfolding map_region unmap_region translate allocate_table create_block_entry
unmap_region-blocks = refl
