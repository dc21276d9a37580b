-- ===== src/Mm/SpaceManager/Release/Laws.antt =====
-- Giving regions back keeps the others as they are and in order.
use bek_os.Common.{
  ℕ, zero, suc, ◌+◌, ◌<◌, ◌≡◌, refl, sym, ap, ◌∙◌, Bool, true, false, ◌⊎◌, inl, inr, List, [], ◌∷◌,
  ◌++◌, none, some, arith,
}
use bek_os.Common.Tests.{if◌then◌else◌, Bool-cases}
use bek_os.Common.Lists.{length, get_elem?, take, drop, length-append, length-take, length-drop}
use bek_os.Common.Outcome.{Outcome, ok, err, einval, ◌>>=◌}
use bek_os.Bek.Vector
use bek_os.Bek.Vector.Laws.{pop_lem}
use bek_os.Mm.SpaceManager.{Backing, SpaceManager, Entry, succeeds}
use bek_os.Mm.SpaceManager.Order.{Ordered, Ordered-remove}
use bek_os.Mm.SpaceManager.Release.{
  find_index, matches, extract_region, deallocate_userspace_region, deallocate_loop,
  deallocate_backing,
}

module _ (K : Backing) where
  abbrev pub NoneOf : (Entry K → Bool) → List (Entry K) → Type 0
  NoneOf test [] = Unit
  NoneOf test (r ∷ rest) = (test r ≡ false) × NoneOf test rest

  -- The regions that fail a test.
  abbrev pub without : (Entry K → Bool) → List (Entry K) → List (Entry K)
  without test [] = []
  without test (r ∷ rest) = if test r then without test rest else r ∷ without test rest

  -- The place of the first region that passes.
  abbrev pub First : (Entry K → Bool) → List (Entry K) → ℕ → Entry K → Type 0
  First test regions k r =
      (k < length regions)
      × (get_elem? regions k ≡ some r)
      × (test r ≡ true)
      × NoneOf test (take k regions)

  find_index_lem :
      (test : Entry K → Bool) (regions : List (Entry K)) (i : ℕ)
      → (NoneOf test regions × (find_index K test regions i ≡ none))
        ⊎ ((k : ℕ) × (r : Entry K) × First test regions k r
            × (find_index K test regions i ≡ some (i + k, r)))
  unfolding find_index
  find_index_lem test [] i = inl (tt, refl)
  find_index_lem test (r ∷ rest) i = elim (Bool-cases (test r)) [
    | inl passes ↦
        inr (0, r, (omega arith, refl, passes, tt), rw passes (ap (λ n. some (n, r)) (omega arith)))
    | inr fails ↦ elim (find_index_lem test rest (i + 1)) [
      | inl (none_of, e) ↦ inl ((fails, none_of), rw (fails, e) refl)
      | inr (k, r', (short, found, passes, none_of), e) ↦ inr (
        suc k,
        r',
        (omega arith, found, passes, (fails, none_of)),
        rw (fails, e) (ap (λ n. some (n, r')) (omega arith)),
      )
    ]
  ]

  -- The ends of deallocate_userspace_region(location, size).
  abbrev pub Released :
      SpaceManager K → (Entry K → Bool) → Outcome (Unit {0}) × SpaceManager K → Type 0
  Released m test result =
      (NoneOf test m.regions × (result ≡ (err einval, m)))
      ⊎ ((k : ℕ) × (r : Entry K) × First test m.regions k r
          × (let (code, tables) = K.unmap_from_table r.backing m.tables r.user_region in
              ((succeeds code ≡ false) × (result ≡ (err code, record m { tables = tables })))
              ⊎ ((succeeds code ≡ true)
                  × (result ≡ (
                    ok tt,
                    record {
                      regions = take k m.regions ++ drop (suc k) m.regions;
                      tables = tables;
                    },
                  )))))

  extract_region_lem :
      (m : SpaceManager K) (k : ℕ) (tables : K.Tables)
      → k < length m.regions
      → extract_region K m k tables
        ≡ (ok tt, record { regions = take k m.regions ++ drop (suc k) m.regions; tables = tables })
  unfolding extract_region
  extract_region_lem m k tables h =
      let (x, g, popped) = pop_lem m.regions k h in rw (extract_region, popped) refl

  -- deallocate_userspace_region(location, size) refuses a region that is not there with EINVAL and
  -- changes nothing. Of the first region that matches it passes a failed unmapping on, or it takes
  -- that region away and leaves the others as they are.
  pub deallocate_userspace_region_lem :
      (m : SpaceManager K) (location size : ℕ)
      → Released m (matches K location size) (deallocate_userspace_region K m location size)
  unfolding deallocate_userspace_region
  deallocate_userspace_region_lem m location size =
      elim (find_index_lem (matches K location size) m.regions 0) [
        | inl (none_of, e) ↦ inl (none_of, rw (e, deallocate_userspace_region) refl)
        | inr (k, r, first, e) ↦
            let (code, tables) = K.unmap_from_table r.backing m.tables r.user_region in
            let no_offset : 0 + k ≡ k = omega arith in
            let at = e ∙ ap (λ n. some (n, r)) no_offset in
            inr (
              k,
              r,
              first,
              elim (Bool-cases (succeeds code)) [
                | inl well ↦ inr (
                  well,
                  rw (at, deallocate_userspace_region, well)
                      (extract_region_lem m k tables first.0),
                )
                | inr ill ↦ inl (ill, rw (at, deallocate_userspace_region, ill) refl)
              ],
            )
      ]

  -- The order is kept whatever deallocate_userspace_region(location, size) returns.
  pub deallocate_userspace_region-Ordered :
      (m : SpaceManager K) (location size : ℕ)
      → Ordered K 0 m.regions
      → Ordered K 0 (deallocate_userspace_region K m location size).1.regions
  deallocate_userspace_region-Ordered m location size o =
      elim (deallocate_userspace_region_lem m location size) [
        | inl (none_of, e) ↦ rw e o
        | inr (k, r, first, inl (ill, e)) ↦ rw e o
        | inr (k, r, first, inr (well, e)) ↦ rw e (Ordered-remove K m.regions k 0 o)
      ]

  without-none :
      (test : Entry K → Bool) (regions : List (Entry K))
      → NoneOf test regions
      → without test regions ≡ regions
  without-none test [] n = refl
  without-none test (r ∷ rest) n = rw n.0 (ap (λ u. r ∷ u) (without-none test rest n.1))

  without-remove :
      (test : Entry K → Bool) (regions : List (Entry K)) (k : ℕ) (r : Entry K)
      → get_elem? regions k ≡ some r
      → test r ≡ true
      → without test (take k regions ++ drop (suc k) regions) ≡ without test regions
  without-remove test [] k r g t = cc
  without-remove test (r' ∷ rest) zero r g t = let same : r' ≡ r = cc in rw (same, t) refl
  without-remove test (r' ∷ rest) (suc k) r g t = rw (without-remove test rest k r g t) refl

  deallocate_loop_stops :
      (fuel : ℕ) (backing : K.Handle) (regions : List (Entry K))
      → find_index K (λ r. K.same r.backing backing) regions 0 ≡ none
      → deallocate_loop K (suc fuel) backing regions ≡ ok regions
  unfolding deallocate_loop
  deallocate_loop_stops fuel backing regions e = rw (e, deallocate_loop) refl

  deallocate_loop_goes :
      (fuel : ℕ) (backing : K.Handle) (regions : List (Entry K)) (i : ℕ) (r : Entry K)
      → find_index K (λ r. K.same r.backing backing) regions 0 ≡ some (i, r)
      → deallocate_loop K (suc fuel) backing regions
        ≡ (Vector.pop regions i >>= λ (x, rest). deallocate_loop K fuel backing rest)
  unfolding deallocate_loop
  deallocate_loop_goes fuel backing regions i r e = rw (e, deallocate_loop) refl

  deallocate_loop_lem :
      (fuel : ℕ) (backing : K.Handle) (regions : List (Entry K))
      → length regions < fuel
      → deallocate_loop K fuel backing regions
        ≡ ok (without (λ r. K.same r.backing backing) regions)
  deallocate_loop_lem zero backing regions h = absurd (omega arith)
  deallocate_loop_lem (suc fuel) backing regions h =
      elim (find_index_lem (λ r. K.same r.backing backing) regions 0) [
        | inl (none_of, e) ↦
            deallocate_loop_stops fuel backing regions e
            ∙ ap ok (sym (without-none (λ r. K.same r.backing backing) regions none_of))
        | inr (k, r, (short, found, passes, before), e) ↦
            let (x, g, popped) = pop_lem regions k short in
            let no_offset : 0 + k ≡ k = omega arith in
            let joined = length-append (take k regions) (drop (suc k) regions) in
            let front = length-take k regions in
            let back = length-drop (suc k) regions in
            deallocate_loop_goes fuel backing regions k r (e ∙ ap (λ n. some (n, r)) no_offset)
            ∙ rw popped (
                deallocate_loop_lem fuel backing (take k regions ++ drop (suc k) regions)
                  (omega arith))
            ∙ ap ok (without-remove (λ r. K.same r.backing backing) regions k r found passes)
      ]

  -- deallocate_userspace_region(region) takes away every region with that backing, and leaves the
  -- others as they are; it ends, and the tables stay as they were.
  pub deallocate_backing_lem :
      (m : SpaceManager K) (backing : K.Handle)
      → deallocate_backing K m backing
        ≡ ok (record m { regions = without (λ r. K.same r.backing backing) m.regions })
  unfolding deallocate_backing
  deallocate_backing_lem m backing =
      rw (deallocate_loop_lem (length m.regions + 1) backing m.regions (omega arith)) refl
