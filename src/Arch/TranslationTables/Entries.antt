-- ===== src/Arch/TranslationTables/Entries.antt =====
-- map_upper at one entry, by what it does to the table of the level below.
use bek_os.Common.{
  ℕ, suc, ◌+◌, ◌-◌, ◌*◌, ◌<◌, ◌≤◌, ◌≡◌, refl, sym, ap, ◌∙◌, subst, ◌⊎◌, inl, inr, Bool, true, false,
  none, min, arith,
}
use bek_os.Common.Tests.{Bool-cases}
use bek_os.Common.Outcome.{Outcome, ok, err, panic, fault, spin, ◌>>=◌}
use bek_os.Arch.TranslationTables.{
  TableEntry, invalid, leaf, table, Table, size_at, create_block_entry, put_entry, empty_table,
  Walk, advance_walk, enter, fits_block, map_invalid, map_entry,
}
use bek_os.Arch.TranslationTables.Find.{attributes_of, translate, translate-empty_table}
use bek_os.Arch.TranslationTables.Walks.{IsStuck, >>=-IsStuck, IsAligned, Gone, Maps}
use bek_os.Arch.TranslationTables.Loop.{MapsEntry, FreeEntry}
use bek_os.Arch.TranslationTables.Places.{look, put_entry-same, put_entry-other}
use bek_os.Arch.TranslationTables.Leaves.{block-Maps}

Outcome-cases :
    {M : Type 0} (r : Outcome (ℕ × M)) → IsStuck r ⊎ ((page : ℕ) × (m : M) × (r ≡ ok (page, m)))
Outcome-cases (ok (page, m)) = inr (page, m, refl)
Outcome-cases (err e) = inl tt
Outcome-cases panic = inl tt
Outcome-cases fault = inl tt
Outcome-cases spin = inl tt

module _ (M : Type 0) (allocate_table : M → Outcome (ℕ × M)) (flags : ℕ) where
  abbrev pub Exhausted : Type 0
  Exhausted = (m : M) × IsStuck (allocate_table m)

  -- What a walk does to the table of the level, from the place `x` in it on.
  abbrev pub MapsTable : ℕ → ℕ → Walk M → Outcome (Bool × Walk M) → Type 0
  MapsTable level x w r =
      (IsStuck r × Exhausted)
      ⊎ ((w' : Walk M) × (r ≡ ok (true, w'))
          × Gone M (min w.size (512 * size_at level - x)) w w'
          × ((y : ℕ)
              → y < 512 * size_at level
              → Maps M (attributes_of flags) x (min w.size (512 * size_at level - x)) w.phys_start y
                  (translate level w.tbl y) (translate level w'.tbl y)))

  abbrev pub FreeTable : ℕ → ℕ → Walk M → Type 0
  FreeTable level x w =
      (y : ℕ) → y < 512 * size_at level → x ≤ y → y < x + w.size → translate level w.tbl y ≡ none

  allocation :
      (m : M)
      → IsStuck (allocate_table m) ⊎ ((page : ℕ) × (m' : M) × (allocate_table m ≡ ok (page, m')))
  allocation m = Outcome-cases (allocate_table m)

  map_invalid-block :
      (next : Walk M → Outcome (Bool × Walk M)) (level i : ℕ) (w : Walk M)
      → fits_block M level w ≡ true
      → map_invalid M allocate_table next level flags i w
        ≡ ok (
          true,
          advance_walk M
              (size_at level)
              (record w { tbl = put_entry w.tbl i (leaf (create_block_entry w.phys_start flags)) }),
        )
  map_invalid-block next level i w e = rw (e, map_invalid) refl

  map_invalid-table :
      (next : Walk M → Outcome (Bool × Walk M)) (level i : ℕ) (w : Walk M)
      → fits_block M level w ≡ false
      → map_invalid M allocate_table next level flags i w
        ≡ allocate_table w.manager >>= λ (page, m).
            enter M next i page empty_table (record w { manager = m })
  map_invalid-table next level i w e = rw (e, map_invalid) refl

  map_entry-invalid :
      (next : Walk M → Outcome (Bool × Walk M)) (level i : ℕ) (w : Walk M)
      → w.tbl i ≡ invalid
      → map_entry M allocate_table next level flags i w
        ≡ map_invalid M allocate_table next level flags i w
  map_entry-invalid next level i w e = rw (e, map_entry) refl

  map_entry-table :
      (next : Walk M → Outcome (Bool × Walk M)) (level i page : ℕ) (sub : Table) (w : Walk M)
      → w.tbl i ≡ table page sub
      → map_entry M allocate_table next level flags i w ≡ enter M next i page sub w
  map_entry-table next level i page sub w e = rw (e, map_entry) refl

  module _ (level : ℕ) (next : Walk M → Outcome (Bool × Walk M)) (low_level : level ≤ 2)
      (below : (k x : ℕ) (w : Walk M)
        → x < 512 * size_at level
        → 0 < w.size
        → w.virt_start ≡ k * (512 * size_at level) + x
        → IsAligned M w
        → FreeTable level x w
        → MapsTable level x w (next w)) where
    abbrev MapsHere : ℕ → ℕ → Walk M → Outcome (Bool × Walk M) → Type 0
    MapsHere =
        MapsEntry M Exhausted (attributes_of flags) (look (suc level)) (size_at (suc level)) 0

    enter-Maps :
        (q i o page : ℕ) (sub : Table) (w : Walk M)
        → o < size_at (suc level)
        → 0 < w.size
        → w.virt_start ≡ q * size_at (suc level) + o
        → IsAligned M w
        → FreeTable level o (record w { tbl = sub })
        → ((z : ℕ) → translate level sub z ≡ look (suc level) (w.tbl i) z)
        → MapsHere i o w (enter M next i page sub w)
    enter-Maps q i o page sub w h some_left at al free same =
        let w₀ : Walk M = record w { tbl = sub } in
        let al₀ : IsAligned M w₀ = record {
          virt_aligned = al.virt_aligned;
          phys_aligned = al.phys_aligned;
          size_aligned = al.size_aligned;
          virt_end = al.virt_end;
          phys_end = al.phys_end;
        } in
        elim (below q o w₀ h some_left at al₀ free) [
          | inl (stuck, ex) ↦ inl (
            >>=-IsStuck (next w₀)
                (λ (good, w'). ok (good, record w' { tbl = put_entry w.tbl i (table page w'.tbl) }))
                stuck,
            ex,
          )
          | inr (w₁, run, g, maps) ↦
              let w₂ : Walk M = record w₁ { tbl = put_entry w.tbl i (table page w₁.tbl) } in
              inr (
                w₂,
                ap
                    (λ r. r >>= λ (good, w').
                      ok (good, record w' { tbl = put_entry w.tbl i (table page w'.tbl) }))
                    run,
                record {
                  virt_gone = g.virt_gone;
                  phys_gone = g.phys_gone;
                  size_gone = g.size_gone;
                  aligned = record {
                    virt_aligned = g.aligned.virt_aligned;
                    phys_aligned = g.aligned.phys_aligned;
                    size_aligned = g.aligned.size_aligned;
                    virt_end = g.aligned.virt_end;
                    phys_end = g.aligned.phys_end;
                  };
                },
                λ j away. put_entry-other w.tbl i (table page w₁.tbl) j away,
                λ z lt.
                    subst
                      (λ e.
                        Maps M (attributes_of flags) o (min w.size (size_at (suc level) - o))
                          w.phys_start z (look (suc level) (w.tbl i) z) (look (suc level) e z))
                      (sym (put_entry-same w.tbl i (table page w₁.tbl)))
                      (subst
                        (λ old.
                          Maps M (attributes_of flags) o (min w.size (size_at (suc level) - o))
                            w.phys_start z old (translate level w₁.tbl z))
                        (same z) (maps z lt)),
              )
        ]

    other_manager-Maps :
        (i o : ℕ) (m : M) (w : Walk M) (r : Outcome (Bool × Walk M))
        → MapsHere i o (record w { manager = m }) r
        → MapsHere i o w r
    other_manager-Maps i o m w r (inl stuck) = inl stuck
    other_manager-Maps i o m w r (inr (w₁, run, g, others, maps)) = inr (
      w₁,
      run,
      record {
        virt_gone = g.virt_gone;
        phys_gone = g.phys_gone;
        size_gone = g.size_gone;
        aligned = g.aligned;
      },
      others,
      maps,
    )

    invalid-Maps :
        (q i o : ℕ) (w : Walk M)
        → o < size_at (suc level)
        → 0 < w.size
        → w.virt_start ≡ q * size_at (suc level) + o
        → IsAligned M w
        → w.tbl i ≡ invalid
        → MapsHere i o w (map_invalid M allocate_table next (suc level) flags i w)
    invalid-Maps q i o w h some_left at al here = elim (Bool-cases (fits_block M (suc level) w)) [
      | inl fits ↦
          subst (MapsHere i o w) (sym (map_invalid-block next (suc level) i w fits))
            (block-Maps M Exhausted flags level q i o w low_level h some_left at al fits)
      | inr smaller ↦
          subst (MapsHere i o w) (sym (map_invalid-table next (suc level) i w smaller))
            (elim (allocation w.manager) [
              | inl stuck ↦ inl (
                >>=-IsStuck (allocate_table w.manager)
                    (λ (page, m). enter M next i page empty_table (record w { manager = m })) stuck,
                (w.manager, stuck),
              )
              | inr (page, m, run) ↦
                  let w₀ : Walk M = record w { manager = m } in
                  let al₀ : IsAligned M w₀ = record {
                    virt_aligned = al.virt_aligned;
                    phys_aligned = al.phys_aligned;
                    size_aligned = al.size_aligned;
                    virt_end = al.virt_end;
                    phys_end = al.phys_end;
                  } in
                  let entered =
                    enter-Maps q i o page empty_table w₀ h some_left at al₀
                      (λ y lt low high. translate-empty_table level y)
                      (λ z.
                        translate-empty_table level z
                        ∙ sym (ap (λ e. look (suc level) e z) here)) in
                  subst (MapsHere i o w)
                    (sym (
                      ap
                        (λ r. r >>= λ (page, m).
                          enter M next i page empty_table (record w { manager = m }))
                        run))
                    (other_manager-Maps i o m w (enter M next i page empty_table w₀) entered)
            ])
    ]

    pub entry-Maps :
        (q i o : ℕ) (w : Walk M) (e : TableEntry)
        → w.tbl i ≡ e
        → o < size_at (suc level)
        → 0 < w.size
        → w.virt_start ≡ q * size_at (suc level) + o
        → IsAligned M w
        → FreeEntry M Exhausted
            (attributes_of flags)
            (look (suc level))
            (size_at (suc level))
            0
            i
            o
            w
        → MapsHere i o w (map_entry M allocate_table next (suc level) flags i w)
    entry-Maps q i o w invalid here h some_left at al free =
        subst (MapsHere i o w) (sym (map_entry-invalid next (suc level) i w here))
          (invalid-Maps q i o w h some_left at al here)
    entry-Maps q i o w (leaf raw) here h some_left at al free =
        let used : look (suc level) (leaf raw) o ≡ none =
          sym (ap (λ e. look (suc level) e o) here) ∙ free o (omega arith) (omega arith) h in
        absurd (cc used)
    entry-Maps q i o w (table page sub) here h some_left at al free =
        subst (MapsHere i o w) (sym (map_entry-table next (suc level) i page sub w here)) (
          enter-Maps q i o page sub w h some_left at al
            (λ y lt low high. sym (ap (λ e. look (suc level) e y) here) ∙ free y low high lt)
            (λ z. sym (ap (λ e. look (suc level) e z) here)))
