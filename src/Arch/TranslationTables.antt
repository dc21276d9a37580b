-- ===== src/Arch/TranslationTables.antt =====
-- kernel/src/arch/a64/translation_tables.cpp: the tables of 512 entries by which the processor
-- translates addresses. An entry that points to a table holds the table, with the address of its
-- page; no two entries share one. A level is the number of the levels below it: 3 for L0, 0 for L3.
pub mod Find
pub mod Walks
pub mod Loop
pub mod Places
pub mod Leaves
pub mod Entries
pub mod Map
use bek_os.Common.{ℕ, zero, suc, ◌+◌, ◌-◌, ◌*◌, ◌/◌, ◌%◌, ◌^◌, Bool, true, false, ◌&&◌, ◌||◌, not}
use bek_os.Common.Tests.{◌==◌, ltb, leb, if◌then◌else◌, add64, sub64}
use bek_os.Common.Outcome.{Outcome, ok, ◌>>=◌}

pub data TableEntry : Type 0 where
  invalid : TableEntry
  leaf : ℕ → TableEntry
  table : ℕ → (ℕ → TableEntry) → TableEntry

abbrev pub Table : Type 0
Table = ℕ → TableEntry

-- PT_ENTRY_COUNT
abbrev pub entry_count : ℕ
entry_count = 512

-- SIZES: what an entry of the level spans.
abbrev pub size_at : ℕ → ℕ
size_at zero = 4096
size_at (suc level) = 512 * size_at level

-- ARMv8MMU_L3_Entry::create and ARMv8MMU_UpperEntry::create_block_entry: the flags with the address
-- and the descriptor code written over them.
unfoldable pub create_page_entry : ℕ → ℕ → ℕ
create_page_entry phys_addr flags =
    flags / 2 ^ 48 * 2 ^ 48 + phys_addr / 2 ^ 12 % 2 ^ 36 * 2 ^ 12 + flags % 2 ^ 12 / 4 * 4 + 3

unfoldable pub create_block_entry : ℕ → ℕ → ℕ
create_block_entry raw_ptr flags =
    flags / 2 ^ 48 * 2 ^ 48 + raw_ptr / 2 ^ 21 % 2 ^ 27 * 2 ^ 21 + flags % 2 ^ 21 / 4 * 4 + 1

abbrev pub create_table_entry : ℕ → ℕ
create_table_entry next_table = next_table / 2 ^ 12 % 2 ^ 36 * 2 ^ 12 + 3

abbrev pub raw_of : TableEntry → ℕ
raw_of invalid = 0
raw_of (leaf raw) = raw
raw_of (table page t) = create_table_entry page

-- A write to a table.
abbrev pub put_entry : Table → ℕ → TableEntry → Table
put_entry t idx e = λ j. if j == idx then e else t j

abbrev pub empty_table : Table
empty_table = λ j. invalid

-- The virtual address at which the walk is, the physical one, and the size that is left, with the
-- table that is walked and the state of the table manager.
pub record Walk (M : Type 0) : Type 0 where
  pub tbl : Table
  pub virt_start : ℕ
  pub phys_start : ℕ
  pub size : ℕ
  pub manager : M

module _ (M : Type 0) where
  -- A step over an entry that spans so many bytes.
  abbrev pub advance_walk : ℕ → Walk M → Walk M
  advance_walk n w = record w {
    virt_start = add64 w.virt_start n;
    phys_start = add64 w.phys_start n;
    size = sub64 w.size n;
  }

  -- The loop that map_upper, map_lower, unmap_upper and unmap_lower have in common, over the entries
  -- from `idx` to the end: a body that answers false ends it.
  unfoldable pub each_entry :
      (ℕ → Walk M → Outcome (Bool × Walk M)) → ℕ → ℕ → Walk M → Outcome (Bool × Walk M)
  each_entry body zero idx w = ok (true, w)
  each_entry body (suc rounds) idx w = elim (w.size == 0) [
    | true ↦ ok (true, w)
    | false ↦ body idx w >>= λ (more, w'). elim more [
      | true ↦ each_entry body rounds (idx + 1) w'
      | false ↦ ok (false, w')
    ]
  ]

  -- The index at the level of the address at which the walk is.
  abbrev pub index_at : ℕ → Walk M → ℕ
  index_at level w = w.virt_start / size_at level % entry_count

  -- The body of map_lower.
  abbrev pub map_page : ℕ → ℕ → Walk M → Outcome (Bool × Walk M)
  map_page flags idx w =
      let new_entry = create_page_entry w.phys_start flags in
      let written = advance_walk 4096 (record w { tbl = put_entry w.tbl idx (leaf new_entry) }) in
      elim (not (raw_of (w.tbl idx) % 4 == 0) && not (raw_of (w.tbl idx) == new_entry)) [
        | true ↦ ok (false, w)
        | false ↦ ok (true, written)
      ]

  unfoldable pub map_lower : ℕ → Walk M → Outcome (Bool × Walk M)
  unfolding each_entry
  map_lower flags w = each_entry (map_page flags) (entry_count - index_at 0 w) (index_at 0 w) w

  -- The walk through the table that an entry points to, which stands in the entry afterwards.
  abbrev pub enter :
      (Walk M → Outcome (Bool × Walk M)) → ℕ → ℕ → Table → Walk M → Outcome (Bool × Walk M)
  enter next idx page sub w = next (record w { tbl = sub }) >>= λ (good, w').
      ok (good, record w' { tbl = put_entry w.tbl idx (table page w'.tbl) })

  -- Whether an entry of the level may be a block that maps what is left of the region.
  abbrev pub fits_block : ℕ → Walk M → Bool
  fits_block level w =
      (level == 2 || level == 1)
      && (leb (size_at level) w.size
          && (w.virt_start % size_at level == 0 && w.phys_start % size_at level == 0))

  module _ (allocate_table : M → Outcome (ℕ × M)) where
    -- The body of map_upper, by the entry; `next` walks through a table of the level below.
    abbrev pub map_invalid :
        (Walk M → Outcome (Bool × Walk M)) → ℕ → ℕ → ℕ → Walk M → Outcome (Bool × Walk M)
    map_invalid next level flags idx w = elim (fits_block level w) [
      | true ↦ ok (
        true,
        advance_walk (size_at level)
            (record w { tbl = put_entry w.tbl idx (leaf (create_block_entry w.phys_start flags)) }),
      )
      | false ↦ allocate_table w.manager >>= λ (page, m).
          enter next idx page empty_table (record w { manager = m })
    ]

    abbrev pub map_entry :
        (Walk M → Outcome (Bool × Walk M)) → ℕ → ℕ → ℕ → Walk M → Outcome (Bool × Walk M)
    map_entry next level flags idx w = elim (w.tbl idx) [
      | invalid ↦ map_invalid next level flags idx w
      | table page sub ↦ enter next idx page sub w
      | leaf raw ↦ ok (false, w)
    ]

    -- map_upper, and map_lower at the lowest level.
    unfoldable pub map_table : ℕ → ℕ → Walk M → Outcome (Bool × Walk M)
    unfolding each_entry map_lower
    map_table zero flags w = map_lower flags w
    map_table (suc level) flags w =
        each_entry (map_entry (map_table level flags) (suc level) flags)
          (entry_count - index_at (suc level) w) (index_at (suc level) w) w
