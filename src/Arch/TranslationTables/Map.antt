-- ===== src/Arch/TranslationTables/Map.antt =====
-- map_lower and map_upper against the lookup of the processor.
use bek_os.Common.{
  ℕ, zero, suc, ◌+◌, ◌-◌, ◌*◌, ◌/◌, ◌%◌, ◌<◌, ◌≤◌, ◌≡◌, refl, sym, ap, ap₂, ◌∙◌, subst, inl, inr,
  Bool, none, min, arith,
}
use bek_os.Common.Outcome.{Outcome}
use bek_os.Arch.TranslationTables.{
  entry_count, size_at, Walk, each_entry, index_at, map_page, map_lower, map_entry, map_table,
}
use bek_os.Arch.TranslationTables.Find.{attributes_of, translate}
use bek_os.Arch.TranslationTables.Walks.{IsAligned, Gone, Maps}
use bek_os.Arch.TranslationTables.Loop.{MapsEntry, FreeEntry, MapsRest, each_entry_lem}
use bek_os.Arch.TranslationTables.Places.{
  look, translate-look, place_lem, index_lem, entry_lem, look-none,
}
use bek_os.Arch.TranslationTables.Leaves.{page-Maps}
use bek_os.Arch.TranslationTables.Entries.{Exhausted, MapsTable, FreeTable, entry-Maps}

module _ (M : Type 0) (allocate_table : M → Outcome (ℕ × M)) (flags : ℕ) where
  at_place :
      (level x y x' y' n n' : ℕ) (w w₁ : Walk M)
      → x' ≡ x
      → y' ≡ y
      → n ≡ n'
      → Maps M
          (attributes_of flags)
          x'
          n
          w.phys_start
          y'
          (look level (w.tbl (y / size_at level)) (y % size_at level))
          (look level (w₁.tbl (y / size_at level)) (y % size_at level))
      → Maps M
          (attributes_of flags)
          x
          n'
          w.phys_start
          y
          (translate level w.tbl y)
          (translate level w₁.tbl y)
  at_place level x y x' y' n n' w w₁ e f g maps =
      rw (translate-look level y w.tbl, translate-look level y w₁.tbl)
        (subst
          (λ u.
            Maps M (attributes_of flags) u n' w.phys_start y
              (look level (w.tbl (y / size_at level)) (y % size_at level))
              (look level (w₁.tbl (y / size_at level)) (y % size_at level)))
          e
          (subst
            (λ u.
              Maps M (attributes_of flags) x' n' w.phys_start u
                (look level (w.tbl (y / size_at level)) (y % size_at level))
                (look level (w₁.tbl (y / size_at level)) (y % size_at level)))
            f
            (subst
              (λ u.
                Maps M (attributes_of flags) x' u w.phys_start y'
                  (look level (w.tbl (y / size_at level)) (y % size_at level))
                  (look level (w₁.tbl (y / size_at level)) (y % size_at level)))
              g maps)))

  -- What is free in the table is free in its entries.
  free_place :
      (level x j z : ℕ) (w : Walk M)
      → level ≤ 3
      → j < 512
      → z < size_at level
      → x ≤ j * size_at level + z
      → j * size_at level + z < x + w.size
      → x < 512 * size_at level
      → FreeTable M allocate_table flags level x w
      → look level (w.tbl j) z ≡ none
  free_place level x j z w l b lt low high h free =
      let (index, offset, inside) = entry_lem level j z l b lt in
      let found = free (j * size_at level + z) inside low high in
      sym (
        translate-look level (j * size_at level + z) w.tbl
        ∙ ap₂ (λ a b. look level (w.tbl a) b) index offset)
      ∙ found

  -- From the loop over the entries to the table.
  all-entries :
      (level x : ℕ) (w : Walk M) (r : Outcome (Bool × Walk M))
      → level ≤ 3
      → x < 512 * size_at level
      → MapsRest M
          (Exhausted M allocate_table flags)
          (attributes_of flags)
          (look level)
          (size_at level)
          0
          (512 - x / size_at level)
          (x / size_at level)
          (x % size_at level)
          w
          r
      → MapsTable M allocate_table flags level x w r
  all-entries level x w r l h (inl stuck) = inl stuck
  all-entries level x w r l h (inr (w₁, run, g, maps)) =
      let (index, place, offset, left, whole) = place_lem level 0 x l h in
      let n : min w.size ((512 - x / size_at level) * size_at level - x % size_at level)
          ≡ min w.size (512 * size_at level - x) =
        ap (λ u. min w.size u) left in
      inr (
        w₁,
        run,
        subst (λ n. Gone M n w w₁) n g,
        λ y lt.
            (let (index₁, place₁, offset₁, left₁, whole₁) = place_lem level 0 y l lt in
              let here = maps (y / size_at level) (y % size_at level) offset₁ in
              at_place level x y (x / size_at level * size_at level + x % size_at level)
                (y / size_at level * size_at level + y % size_at level)
                (min w.size ((512 - x / size_at level) * size_at level - x % size_at level))
                (min w.size (512 * size_at level - x)) w w₁ place place₁ n here),
      )

  map_table-rounds :
      (level k x : ℕ) (w : Walk M) (body : ℕ → Walk M → Outcome (Bool × Walk M))
      → level ≤ 3
      → x < 512 * size_at level
      → w.virt_start ≡ k * (512 * size_at level) + x
      → IsAligned M w
      → FreeTable M allocate_table flags level x w
      → ((i o : ℕ) (w : Walk M)
          → o < size_at level
          → 0 < w.size
          → w.virt_start ≡ (k * 512 + i) * size_at level + o
          → IsAligned M w
          → FreeEntry M
              (Exhausted M allocate_table flags)
              (attributes_of flags)
              (look level)
              (size_at level)
              0
              i
              o
              w
          → MapsEntry M
              (Exhausted M allocate_table flags)
              (attributes_of flags)
              (look level)
              (size_at level)
              0
              i
              o
              w
              (body i w))
      → MapsTable M allocate_table flags level x w
          (each_entry M body (entry_count - index_at M level w) (index_at M level w) w)
  map_table-rounds level k x w body l h at al free step =
      let (index, place, offset, left, whole) = place_lem level k x l h in
      let at_index : index_at M level w ≡ x / size_at level =
        ap (λ v. v / size_at level % 512) at ∙ index in
      let below : x / size_at level + (512 - x / size_at level) ≡ 512 = index_lem level x l h in
      rw at_index (
        all-entries level x w (each_entry M body (512 - x / size_at level) (x / size_at level) w) l
          h
          (each_entry_lem M (Exhausted M allocate_table flags) (attributes_of flags) (look level)
            (size_at level) (k * 512) body step 512 (512 - x / size_at level) (x / size_at level)
            (x % size_at level) w below offset (λ some. at ∙ sym whole) al
            (λ j z b lt low high.
              free_place level x j z w l b lt (subst (λ p. p ≤ j * size_at level + z) place low)
                (subst (λ p. j * size_at level + z < p + w.size) place high) h free)))

  pub map_table_lem :
      (level k x : ℕ) (w : Walk M)
      → level ≤ 3
      → x < 512 * size_at level
      → w.virt_start ≡ k * (512 * size_at level) + x
      → IsAligned M w
      → FreeTable M allocate_table flags level x w
      → MapsTable M allocate_table flags level x w (map_table M allocate_table level flags w)
  unfolding map_table map_lower
  map_table_lem zero k x w l h at al free =
      map_table-rounds zero k x w (map_page M flags) l h at al free (λ i o w h some at al free.
        page-Maps M (Exhausted M allocate_table flags) flags (k * 512 + i) i o w h some at al
          (look-none (w.tbl i) o (free o (omega arith) (omega arith) h)))
  map_table_lem (suc level) k x w l h at al free =
      map_table-rounds (suc level) k x w
        (map_entry M allocate_table (map_table M allocate_table level flags) (suc level) flags) l h
        at al free
        (λ i o w h some at al free.
          entry-Maps M allocate_table flags level (map_table M allocate_table level flags)
            (omega arith)
            (λ k x w h some at al free. map_table_lem level k x w (omega arith) h at al free)
            (k * 512 + i) i o w (w.tbl i) refl h some at al free)
