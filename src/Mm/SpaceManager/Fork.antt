-- ===== src/Mm/SpaceManager/Fork.antt =====
-- The address space that clone_for_fork makes.
use bek_os.Common.{
  ℕ, ◌+◌, ◌≡◌, refl, sym, ap, ◌∙◌, true, List, [], ◌∷◌, ◌++◌, append-nil, append_assoc,
}
use bek_os.Common.Outcome.{ok, ◌>>=◌}
use bek_os.Mm.Addresses.{Region}
use bek_os.Mm.SpaceManager.{Backing, MemoryOperation, SpaceManager, Entry, succeeds}
use bek_os.Mm.SpaceManager.Order.{Ordered}
use bek_os.Mm.SpaceManager.Release.{clone_loop, clone_for_fork}

module _ (K : Backing) where
  -- What a region is but for its backing.
  abbrev pub layout : List (Entry K) → List (Region × (List ℕ × MemoryOperation))
  layout [] = []
  layout (r ∷ rest) = (r.user_region, (r.name, r.permissions)) ∷ layout rest

  layout-append : (xs ys : List (Entry K)) → layout (xs ++ ys) ≡ layout xs ++ layout ys
  layout-append [] ys = refl
  layout-append (x ∷ xs) ys =
      ap (λ u. (x.user_region, (x.name, x.permissions)) ∷ u) (layout-append xs ys)

  Ordered-layout :
      (xs ys : List (Entry K)) (low : ℕ)
      → layout xs ≡ layout ys
      → Ordered K low xs
      → Ordered K low ys
  Ordered-layout [] [] low e o = tt
  Ordered-layout [] (y ∷ ys) low e o = cc
  Ordered-layout (x ∷ xs) [] low e o = cc
  Ordered-layout (x ∷ xs) (y ∷ ys) low e o =
      let same : x.user_region ≡ y.user_region = cc in
      let rest : layout xs ≡ layout ys = cc in
      rw (← same)
        (o.0, o.1, Ordered-layout xs ys (x.user_region.start + x.user_region.size) rest o.2)

  abbrev pub Cloneable : Type 0
  Cloneable =
      ((r : Entry K) → (h : K.Handle) × (K.clone_for_fork r ≡ ok h))
      × ((h : K.Handle) (t : K.Tables) (r : Region) (o : MemoryOperation)
          → succeeds (K.map_into_table h t r o).0 ≡ true)

  clone_loop_goes :
      (old : Entry K) (rest regions : List (Entry K)) (tables : K.Tables) (h : K.Handle)
      → K.clone_for_fork old ≡ ok h
      → (let (code, tables') = K.map_into_table h tables old.user_region old.permissions in
          succeeds code ≡ true
          → clone_loop K (old ∷ rest) regions tables
            ≡ clone_loop K rest (regions ++ record old { backing = h } ∷ []) tables')
  unfolding clone_loop
  clone_loop_goes old rest regions tables h cloned well = rw cloned (rw (◌>>=◌, well) refl)

  clone_loop_lem :
      Cloneable
      → (rest regions : List (Entry K)) (tables : K.Tables)
      → (m' : SpaceManager K) × (clone_loop K rest regions tables ≡ ok m')
        × (layout m'.regions ≡ layout regions ++ layout rest)
  unfolding clone_loop
  clone_loop_lem c [] regions tables =
      (record { regions = regions; tables = tables }, refl, sym (append-nil (layout regions)))
  clone_loop_lem c (old ∷ rest) regions tables =
      let (h, cloned) = c.0 old in
      let well = c.1 h tables old.user_region old.permissions in
      let (code, tables') = K.map_into_table h tables old.user_region old.permissions in
      let (m', run, e) =
        clone_loop_lem c rest (regions ++ record old { backing = h } ∷ []) tables' in
      (
        m',
        clone_loop_goes old rest regions tables h cloned well ∙ run,
        e
            ∙ ap (λ u. u ++ layout rest) (layout-append regions (record old { backing = h } ∷ []))
            ∙ append_assoc (layout regions) (layout (old ∷ [])) (layout rest),
      )

  -- clone_for_fork, where every backing can be cloned and every mapping succeeds: the copy has the
  -- same regions, but for their backing, and so in order if they were.
  pub clone_for_fork_lem :
      (m : SpaceManager K)
      → Cloneable
      → Ordered K 0 m.regions
      → (m' : SpaceManager K) × (clone_for_fork K m ≡ ok m')
        × (layout m'.regions ≡ layout m.regions)
        × Ordered K 0 m'.regions
  unfolding clone_for_fork
  clone_for_fork_lem m c o =
      let (m', run, e) = clone_loop_lem c m.regions [] K.create_user_tables in
      (m', run, e, Ordered-layout m.regions m'.regions 0 (sym e) o)
