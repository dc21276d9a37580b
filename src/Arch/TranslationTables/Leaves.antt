-- ===== src/Arch/TranslationTables/Leaves.antt =====
-- The entries that map by themselves: pages, and blocks.
use bek_os.Common.{
  ℕ, zero, suc, ◌+◌, ◌-◌, ◌*◌, ◌/◌, ◌%◌, ◌^◌, ◌<◌, ◌≤◌, ◌≡◌, refl, sym, ap, ◌∙◌, subst, inr, true,
  ◌||◌, min, arith,
}
use bek_os.Common.Tests.{◌==◌}
use bek_os.Common.Outcome.{ok}
use bek_os.Arch.TranslationTables.{
  invalid, leaf, size_at, create_page_entry, create_block_entry, put_entry, Walk, advance_walk,
  map_page, fits_block,
}
use bek_os.Arch.TranslationTables.Find.{
  output_at, attributes_of, Found, create_page_entry_lem, create_block_entry_lem, size_at-mod,
}
use bek_os.Arch.TranslationTables.Walks.{IsAligned, Gone, Maps}
use bek_os.Arch.TranslationTables.Loop.{MapsEntry}
use bek_os.Arch.TranslationTables.Places.{
  look, start_lem, put_entry-same, put_entry-other, found_cong,
}

module _ (M Exhausted : Type 0) (flags : ℕ) where
  fits_block-cases :
      (level : ℕ) (w : Walk M)
      → fits_block M level w ≡ true
      → ((level == 2 || level == 1) ≡ true)
        × (size_at level ≤ w.size)
        × (w.virt_start % size_at level ≡ 0)
        × (w.phys_start % size_at level ≡ 0)
  fits_block-cases level w h = (ground arith, ground arith, ground arith, ground arith)

  -- An entry that holds a page or a block of `phys` with the flags.
  leaf-Maps :
      (level n phys raw z : ℕ) (old : Found)
      → (output_at level raw ≡ phys)
        × (raw % 2 ^ 12 / 4 ≡ flags % 2 ^ 12 / 4)
        × (raw / 2 ^ 48 ≡ flags / 2 ^ 48)
      → z < n
      → Maps M (attributes_of flags) 0 n phys z old (look level (leaf raw) z)
  leaf-Maps zero n phys raw z old (a, b, c) h =
      (λ low high. found_cong (omega arith) b c, λ out. absurd (ground arith))
  leaf-Maps (suc level) n phys raw z old (a, b, c) h =
      (λ low high. found_cong (omega arith) b c, λ out. absurd (ground arith))

  -- The same for the entry of a table that it has been put into.
  leaf-put :
      (level S o n i z : ℕ) (w : Walk M) (raw : ℕ)
      → o ≡ 0
      → S ≡ n
      → (output_at level raw ≡ w.phys_start)
        × (raw % 2 ^ 12 / 4 ≡ flags % 2 ^ 12 / 4)
        × (raw / 2 ^ 48 ≡ flags / 2 ^ 48)
      → z < S
      → Maps M
          (attributes_of flags)
          o
          n
          w.phys_start
          z
          (look level (w.tbl i) z)
          (look level (put_entry w.tbl i (leaf raw) i) z)
  leaf-put level S o n i z w raw start same fields h =
      let old = look level (w.tbl i) z in
      subst (λ e. Maps M (attributes_of flags) o n w.phys_start z old (look level e z))
        (sym (put_entry-same w.tbl i (leaf raw)))
        (subst (λ o. Maps M (attributes_of flags) o n w.phys_start z old (look level (leaf raw) z))
          (sym start)
          (subst
            (λ n. Maps M (attributes_of flags) 0 n w.phys_start z old (look level (leaf raw) z))
            same (leaf-Maps level S w.phys_start raw z old fields h)))

  map_page-invalid :
      (i : ℕ) (w : Walk M)
      → w.tbl i ≡ invalid
      → map_page M flags i w
        ≡ ok (
          true,
          advance_walk M 4096
              (record w { tbl = put_entry w.tbl i (leaf (create_page_entry w.phys_start flags)) }),
        )
  map_page-invalid i w e = rw (e, map_page) refl

  pub page-Maps :
      (q i o : ℕ) (w : Walk M)
      → o < 4096
      → 0 < w.size
      → w.virt_start ≡ q * 4096 + o
      → IsAligned M w
      → w.tbl i ≡ invalid
      → MapsEntry M Exhausted (attributes_of flags) (look 0) 4096 0 i o w (map_page M flags i w)
  page-Maps q i o w h some_left at al here =
      let a₀ = al.virt_aligned in
      let a₁ = al.phys_aligned in
      let a₂ = al.size_aligned in
      let a₃ = al.virt_end in
      let a₄ = al.phys_end in
      let start : o ≡ 0 = omega arith in
      let n : 4096 ≡ min w.size (4096 - o) = omega arith in
      let e = leaf (create_page_entry w.phys_start flags) in
      let w₁ : Walk M = advance_walk M 4096 (record w { tbl = put_entry w.tbl i e }) in
      let al₁ : IsAligned M w₁ = record {
        virt_aligned = ground arith;
        phys_aligned = ground arith;
        size_aligned = ground arith;
        virt_end = ground arith;
        phys_end = ground arith;
      } in
      let g : Gone M 4096 w w₁ = record {
        virt_gone = ground arith;
        phys_gone = ground arith;
        size_gone = ground arith;
        aligned = al₁;
      } in
      inr (
        w₁,
        map_page-invalid i w here,
        subst (λ n. Gone M n w w₁) n g,
        λ j away. put_entry-other w.tbl i e j away,
        λ z lt.
            leaf-put 0 4096 o (min w.size (4096 - o)) i z w (create_page_entry w.phys_start flags)
              start n (create_page_entry_lem w.phys_start flags (omega arith) a₁) lt,
      )

  pub block-Maps :
      (level q i o : ℕ) (w : Walk M)
      → level ≤ 2
      → o < size_at (suc level)
      → 0 < w.size
      → w.virt_start ≡ q * size_at (suc level) + o
      → IsAligned M w
      → fits_block M (suc level) w ≡ true
      → MapsEntry M Exhausted
          (attributes_of flags)
          (look (suc level))
          (size_at (suc level))
          0
          i
          o
          w
          (ok (
            true,
            advance_walk M (size_at (suc level)) (record w {
              tbl = put_entry w.tbl i (leaf (create_block_entry w.phys_start flags));
            }),
          ))
  block-Maps level q i o w b h some_left at al fits =
      let (l, s, v, p) = fits_block-cases (suc level) w fits in
      let start =
        start_lem (suc level) q o (omega arith) h
          (sym (ap (λ x. x % size_at (suc level)) at) ∙ v) in
      let (spans, large) = size_at-mod (suc level) in
      let a₀ = al.virt_aligned in
      let a₁ = al.phys_aligned in
      let a₂ = al.size_aligned in
      let a₃ = al.virt_end in
      let a₄ = al.phys_end in
      let n : min w.size (size_at (suc level) - o) ≡ size_at (suc level) = omega arith in
      let e = leaf (create_block_entry w.phys_start flags) in
      let w₁ : Walk M =
        advance_walk M (size_at (suc level)) (record w { tbl = put_entry w.tbl i e }) in
      let al₁ : IsAligned M w₁ = record {
        virt_aligned = ground arith;
        phys_aligned = ground arith;
        size_aligned = ground arith;
        virt_end = ground arith;
        phys_end = ground arith;
      } in
      let g : Gone M (size_at (suc level)) w w₁ = record {
        virt_gone = ground arith;
        phys_gone = ground arith;
        size_gone = ground arith;
        aligned = al₁;
      } in
      inr (
        w₁,
        refl,
        subst (λ n. Gone M n w w₁) (sym n) g,
        λ j away. put_entry-other w.tbl i e j away,
        λ z lt.
            leaf-put (suc level) (size_at (suc level)) o (min w.size (size_at (suc level) - o)) i z
              w (create_block_entry w.phys_start flags) start (sym n)
              (create_block_entry_lem (suc level) w.phys_start flags l (omega arith) p) lt,
      )
