-- ===== src/Arch/TableManager/Laws.antt =====
-- map_region of the table manager against the lookup of the processor.
use bek_os.Common.{
  ℕ, ◌+◌, ◌-◌, ◌*◌, ◌/◌, ◌%◌, ◌^◌, ◌<◌, ◌≤◌, ◌≡◌, ◌≢◌, refl, sym, ap, subst, ◌⊎◌, inl, inr, Bool,
  true, false, ◌||◌, not, none, some, min, arith,
}
use bek_os.Common.Tests.{◌==◌}
use bek_os.Common.Outcome.{Outcome, ok, ◌>>=◌}
use bek_os.Arch.TranslationTables.{Walk, size_at, map_table}
use bek_os.Arch.TranslationTables.Find.{translate, attributes_of}
use bek_os.Arch.TranslationTables.Walks.{IsStuck, >>=-IsStuck, IsAligned, Maps}
use bek_os.Arch.TranslationTables.Entries.{MapsTable}
use bek_os.Arch.TranslationTables.Map.{map_table_lem}
use bek_os.Arch.TableManager.{
  Platform, Pages, TableManager, map_flags, misaligned, new_table, finish, map_region,
}

module _ (P : Platform) where
  -- The walk of map_region through the root.
  abbrev walk_of : TableManager → ℕ → ℕ → ℕ → Walk Pages
  walk_of t virt phys size = record {
    tbl = t.root;
    virt_start = virt;
    phys_start = phys;
    size = size;
    manager = t.pages;
  }

  -- What map_region does with a region of whole pages: `r` is its result.
  abbrev pub MapsRegion : TableManager → ℕ → ℕ → ℕ → ℕ → Outcome (Bool × TableManager) → Type 0
  MapsRegion t virt phys size flags r =
      (IsStuck r × ((p : Pages) × IsStuck (new_table P p)))
      ⊎ ((t' : TableManager) × (r ≡ ok (true, t'))
          × ((y : ℕ)
              → y < 2 ^ 48
              → (virt ≤ y
                  → y < virt + size
                  → translate 3 t'.root y
                    ≡ some (phys + (y - virt), flags % 2 ^ 12 / 4, flags / 2 ^ 48))
                × ((y < virt) ⊎ (virt + size ≤ y) → translate 3 t'.root y ≡ translate 3 t.root y)))

  map_region-misaligned :
      (t : TableManager) (virt phys size attrs attr_idx : ℕ)
      → t.root_table ≢ 0
      → (misaligned virt || (misaligned phys || misaligned size)) ≡ true
      → map_region P t virt phys size attrs attr_idx ≡ ok (false, t)
  unfolding map_region
  map_region-misaligned t virt phys size attrs attr_idx h e =
      let rooted : not (t.root_table == 0) ≡ true = ground arith in rw rooted (rw e refl)

  map_region-aligned :
      (t : TableManager) (virt phys size attrs attr_idx : ℕ)
      → t.root_table ≢ 0
      → (misaligned virt || (misaligned phys || misaligned size)) ≡ false
      → map_region P t virt phys size attrs attr_idx
        ≡ map_table Pages (new_table P) 3 (map_flags attrs attr_idx) (walk_of t virt phys size)
          >>= λ r. ok (finish P t r)
  unfolding map_region
  map_region-aligned t virt phys size attrs attr_idx h e =
      let rooted : not (t.root_table == 0) ≡ true = ground arith in rw rooted (rw e refl)

  finish-Maps :
      (t : TableManager) (virt phys size flags : ℕ) (r : Outcome (Bool × Walk Pages))
      → virt + size ≤ 2 ^ 48
      → MapsTable Pages (new_table P) flags 3 virt (walk_of t virt phys size) r
      → MapsRegion t virt phys size flags (r >>= λ r. ok (finish P t r))
  finish-Maps t virt phys size flags r h (inl (stuck, ex)) =
      inl (>>=-IsStuck r (λ r. ok (finish P t r)) stuck, ex)
  finish-Maps t virt phys size flags r h (inr (w, run, g, maps)) =
      let n : min size (512 * size_at 3 - virt) ≡ size = omega arith in
      let t' = record t { root = w.tbl; pages = w.manager } in
      inr (
        t',
        ap (λ r. r >>= λ r. ok (finish P t r)) run,
        λ y lt.
            subst
              (λ n.
                Maps Pages (attributes_of flags) virt n phys y (translate 3 t.root y)
                  (translate 3 w.tbl y))
              n (maps y lt),
      )

  -- map_region with a root, on 48-bit addresses: a region that is not of whole pages gives false and
  -- changes nothing. For a region of whole pages in which nothing was mapped, a result is true with the
  -- region mapped to the physical addresses, and no other address changed; how many pages for tables
  -- are enough is not stated.
  map_region_lem :
      (t : TableManager) (virt phys size attrs attr_idx : ℕ)
      → t.root_table ≢ 0
      → virt < 2 ^ 48
      → virt + size ≤ 2 ^ 48
      → phys + size ≤ 2 ^ 48
      → ((y : ℕ) → y < 2 ^ 48 → virt ≤ y → y < virt + size → translate 3 t.root y ≡ none)
      → ((misaligned virt || (misaligned phys || misaligned size)) ≡ true
          → map_region P t virt phys size attrs attr_idx ≡ ok (false, t))
        × ((misaligned virt || (misaligned phys || misaligned size)) ≡ false
            → MapsRegion t virt phys size
                (map_flags attrs attr_idx)
                (map_region P t virt phys size attrs attr_idx))
  map_region_lem t virt phys size attrs attr_idx h low v p free = (
    map_region-misaligned t virt phys size attrs attr_idx h,
    λ e.
        let flags = map_flags attrs attr_idx in
        let w = walk_of t virt phys size in
        let al : IsAligned Pages w = record {
          virt_aligned = ground arith;
          phys_aligned = ground arith;
          size_aligned = ground arith;
          virt_end = omega arith;
          phys_end = p;
        } in
        subst (MapsRegion t virt phys size flags)
          (sym (map_region-aligned t virt phys size attrs attr_idx h e))
          (finish-Maps t virt phys size flags (map_table Pages (new_table P) 3 flags w) v (
            map_table_lem Pages (new_table P) flags 3 0 virt w (omega arith) (omega arith)
              (omega arith) al free)),
  )
