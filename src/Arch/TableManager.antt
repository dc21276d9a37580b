-- ===== src/Arch/TableManager.antt =====
-- TableManager of kernel/src/arch/a64/translation_tables.cpp: the tables of an address space, with the
-- pages that new tables are made of.
pub mod Laws
use Prim.Native.Nat.{bit_or}
use bek_os.Common.{
  ℕ, zero, suc, ◌+◌, ◌-◌, ◌*◌, ◌/◌, ◌%◌, ◌^◌, Bool, true, false, ◌&&◌, ◌||◌, not, Option, none,
  some,
}
use bek_os.Common.Tests.{◌==◌, ltb, leb, if◌then◌else◌, add64, sub64}
use bek_os.Common.Outcome.{Outcome, ok, panic, ◌>>=◌, ◌>>◌, verify}
use bek_os.Mm.Addresses.{Region}
use bek_os.Mm.PageAllocator.{PageAllocator, allocate_region, free_region}
use bek_os.Arch.TranslationTables.{
  TableEntry, invalid, leaf, table, Table, entry_count, size_at, put_entry, empty_table, Walk,
  each_entry, index_at, enter, map_table,
}

-- The linker's symbols around the tables in the kernel's image, and the two directions of the
-- kernel's own mapping (kernel/src/arch/a64/impl.cpp), which asks the processor.
pub record Platform : Type 0 where
  pub initial_pgtables_start : ℕ
  pub initial_pgtables_end : ℕ
  pub kernel_virt_to_phys : ℕ → Option ℕ
  pub kernel_phys_to_virt : ℕ → ℕ

-- m_embedded_tables_current, with the page allocator, of which there is one.
pub record Pages : Type 0 where
  pub embedded_tables_current : ℕ
  pub page_allocator : PageAllocator

-- `root_table` is the address m_root_table, and `root` what stands there.
pub record TableManager : Type 0 where
  pub root_table : ℕ
  pub root : Table
  pub pages : Pages

-- A dereferenced bek::optional.
abbrev pub value {ℓ} : {A : Type ℓ} → Option A → Outcome A
value (some a) = ok a
value none = panic

abbrev pub map_flags : ℕ → ℕ → ℕ
map_flags attrs attr_idx = bit_or attrs (attr_idx * 4)

-- attributes_for_user of kernel/include/arch/a64/translation_tables.h: the bits AF and
-- PrivilegedExecuteNever, with EL0Access, ReadOnly and UnprivilegedExecuteNever where they apply.
unfoldable pub attributes_for_user : Bool → Bool → Bool → ℕ
attributes_for_user readable writeable executable =
    2 ^ 10
    + 2 ^ 53
    + (if readable || writeable then 2 ^ 6 else 0)
    + (if writeable then 0 else 2 ^ 7)
    + (if executable then 0 else 2 ^ 54)

-- PAGE_OFFSET_MASK
abbrev pub misaligned : ℕ → Bool
misaligned n = not (n % 4096 == 0)

-- A step of an unmapping walk.
abbrev pub step_over : {M : Type 0} → ℕ → Walk M → Walk M
step_over n w = record w { virt_start = add64 w.virt_start n; size = sub64 w.size n }

-- Whether what is left of the region covers the entry.
abbrev pub spans : {M : Type 0} → ℕ → Walk M → Bool
spans level w = w.virt_start % size_at level == 0 && leb (size_at level) w.size

module _ (P : Platform) where
  -- Where the page comes from; it is cleared afterwards.
  abbrev pub take_table : Pages → Outcome (ℕ × Pages)
  take_table p =
      elim (not (p.embedded_tables_current == 0)
        && ltb p.embedded_tables_current P.initial_pgtables_end) [
          | true ↦ ok (
            p.embedded_tables_current,
            record p { embedded_tables_current = p.embedded_tables_current + 4096 },
          )
          | false ↦
              let (region, pages) = allocate_region p.page_allocator 1 in
              value region >>= λ r. ok (r.start, record p { page_allocator = pages })
        ]

  unfoldable pub allocate_table : Pages → Outcome (ℕ × Pages)
  allocate_table p = do (res, p') ← take_table p; verify (not (res == 0)); ok (res, p')

  -- The page for a table entry.
  abbrev pub new_table : Pages → Outcome (ℕ × Pages)
  new_table p = do
    (res, p') ← allocate_table p
    page ← value (P.kernel_virt_to_phys res)
    ok (page, p')

  -- `fuel` bounds the pages of one allocation.
  unfoldable pub free_table : ℕ → Pages → ℕ → Outcome Pages
  free_table fuel p ptr =
      elim (leb P.initial_pgtables_start ptr && ltb ptr P.initial_pgtables_end) [
        | true ↦ ok (elim (ptr + 4096 == p.embedded_tables_current) [
          | true ↦ record p { embedded_tables_current = ptr }
          | false ↦ p
        ])
        | false ↦ free_region fuel p.page_allocator ptr >>= λ pages.
            ok (record p { page_allocator = pages })
      ]

  -- create_user_manager: the page of the root holds what it held before, `memory`.
  unfoldable pub create_user_manager : Table → PageAllocator → Outcome TableManager
  create_user_manager memory pages = do
    let (region, pages') = allocate_region pages 1
    r ← value region
    verify (not (r.start == 0))
    ok (record {
      root_table = r.start;
      root = memory;
      pages = record { embedded_tables_current = 0; page_allocator = pages' };
    })

  -- What a walk through the root leaves.
  abbrev pub finish : TableManager → Bool × Walk Pages → Bool × TableManager
  finish t (good, w) = (good, record t { root = w.tbl; pages = w.manager })

  unfoldable pub map_region : TableManager → ℕ → ℕ → ℕ → ℕ → ℕ → Outcome (Bool × TableManager)
  unfolding map_table
  map_region t virt_start phys_start size attrs attr_idx =
      verify (not (t.root_table == 0))
      >> elim (misaligned virt_start || (misaligned phys_start || misaligned size)) [
        | true ↦ ok (false, t)
        | false ↦
            map_table Pages new_table 3 (map_flags attrs attr_idx) (record {
              tbl = t.root;
              virt_start = virt_start;
              phys_start = phys_start;
              size = size;
              manager = t.pages;
            })
            >>= λ r. ok (finish t r)
      ]

  -- The body of unmap_lower.
  abbrev pub unmap_page : ℕ → Walk Pages → Outcome (Bool × Walk Pages)
  unmap_page idx w = ok (true, step_over 4096 (record w { tbl = put_entry w.tbl idx invalid }))

  unfoldable pub unmap_lower : Walk Pages → Outcome (Bool × Walk Pages)
  unfolding each_entry
  unmap_lower w =
      each_entry Pages unmap_page (entry_count - index_at Pages 0 w) (index_at Pages 0 w) w

  -- The body of unmap_upper, by the entry. A block that is taken out is not stepped over.
  abbrev pub unmap_entry :
      ℕ
      → (Walk Pages → Outcome (Bool × Walk Pages))
      → ℕ
      → ℕ
      → Walk Pages
      → Outcome (Bool × Walk Pages)
  unmap_entry fuel next level idx w = elim (w.tbl idx) [
    | invalid ↦ ok (false, w)
    | leaf raw ↦ elim (spans level w) [
      | true ↦ ok (true, record w { tbl = put_entry w.tbl idx invalid })
      | false ↦ ok (false, w)
    ]
    | table page sub ↦ elim (spans level w) [
      | true ↦ free_table fuel w.manager (P.kernel_phys_to_virt page) >>= λ p. ok (
        true,
        step_over (size_at level) (record w { tbl = put_entry w.tbl idx invalid; manager = p }),
      )
      | false ↦ enter Pages next idx page sub w
    ]
  ]

  -- unmap_upper, and unmap_lower at the lowest level.
  unfoldable pub unmap_table : ℕ → ℕ → Walk Pages → Outcome (Bool × Walk Pages)
  unfolding each_entry unmap_lower
  unmap_table fuel zero w = unmap_lower w
  unmap_table fuel (suc level) w =
      each_entry Pages (unmap_entry fuel (unmap_table fuel level) (suc level))
        (entry_count - index_at Pages (suc level) w) (index_at Pages (suc level) w) w

  unfoldable pub unmap_region : ℕ → TableManager → ℕ → ℕ → Outcome (Bool × TableManager)
  unfolding unmap_table
  unmap_region fuel t virt_start size =
      verify (not (t.root_table == 0)) >> elim (misaligned virt_start || misaligned size) [
        | true ↦ ok (false, t)
        | false ↦
            unmap_table fuel 3 (record {
              tbl = t.root;
              virt_start = virt_start;
              phys_start = 0;
              size = size;
              manager = t.pages;
            })
            >>= λ r. ok (finish t r)
      ]
