-- ===== src/Mm/SpaceManager/Release.antt =====
-- kernel/src/mm/space_manager.cpp: giving regions back, and the copy of an address space for a fork.
pub mod Laws
use bek_os.Common.{
  ℕ, zero, suc, ◌+◌, ◌/◌, Bool, true, false, ◌&&◌, List, [], ◌∷◌, ◌++◌, Option, none, some,
}
use bek_os.Common.Tests.{◌==◌, if◌then◌else◌, page_size}
use bek_os.Common.Lists.{length}
use bek_os.Common.Outcome.{Outcome, ok, err, panic, fault, spin, einval, ◌>>=◌, ◌>>◌, verify}
use bek_os.Mm.Addresses.{Region, page_aligned}
use bek_os.Mm.SpaceManager.{Backing, MemoryOperation, SpaceManager, Entry, succeeds, place_region}
use bek_os.Bek.Vector

module _ (K : Backing) where
  -- The place of the first region that passes a test, from place `i` on.
  unfoldable pub find_index : (Entry K → Bool) → List (Entry K) → ℕ → Option (ℕ × Entry K)
  find_index test [] i = none
  find_index test (r ∷ rest) i =
      let later = find_index test rest (i + 1) in if test r then some (i, r) else later

  abbrev pub matches : ℕ → ℕ → Entry K → Bool
  matches location size r = r.user_region.start == location && r.user_region.size == size

  -- m_regions.extract of a region that the loop has found.
  unfoldable pub extract_region :
      SpaceManager K → ℕ → K.Tables → Outcome (Unit {0}) × SpaceManager K
  extract_region m i tables = elim (Vector.pop m.regions i) [
    | ok (r, regions) ↦ (ok tt, record { regions = regions; tables = tables })
    | err e ↦ (err e, record m { tables = tables })
    | panic ↦ (panic, record m { tables = tables })
    | fault ↦ (fault, record m { tables = tables })
    | spin ↦ (spin, record m { tables = tables })
  ]

  -- deallocate_userspace_region(location, size)
  unfoldable pub deallocate_userspace_region :
      SpaceManager K → ℕ → ℕ → Outcome (Unit {0}) × SpaceManager K
  unfolding find_index extract_region
  deallocate_userspace_region m location size =
      elim (find_index (matches location size) m.regions 0) [
        | none ↦ (err einval, m)
        | some (i, r) ↦
            let (code, tables) = K.unmap_from_table r.backing m.tables r.user_region in
            if succeeds code
            then extract_region m i tables
            else (err code, record m { tables = tables })
      ]

  -- The do-while loop of deallocate_userspace_region(region). It does not touch the tables.
  unfoldable pub deallocate_loop : ℕ → K.Handle → List (Entry K) → Outcome (List (Entry K))
  unfolding find_index
  deallocate_loop zero backing regions = spin
  deallocate_loop (suc fuel) backing regions =
      elim (find_index (λ r. K.same r.backing backing) regions 0) [
        | none ↦ ok regions
        | some (i, r) ↦ Vector.pop regions i >>= λ (x, rest). deallocate_loop fuel backing rest
      ]

  -- deallocate_userspace_region(region). Each round but the last takes a region away.
  unfoldable pub deallocate_backing : SpaceManager K → K.Handle → Outcome (SpaceManager K)
  unfolding deallocate_loop
  deallocate_backing m backing = do
    regions ← deallocate_loop (length m.regions + 1) backing m.regions
    ok (record m { regions = regions })

  -- allocate_placed_region
  unfoldable pub allocate_placed_region :
      SpaceManager K → Region → MemoryOperation → List ℕ → Outcome K.Handle × SpaceManager K
  allocate_placed_region m region operations name =
      elim (verify (page_aligned region) >> K.create_contiguous (region.size / page_size)) [
        | ok backing ↦
            let (placed, m') = place_region K m (some region.start) operations name backing in
            (placed >>= λ _. ok backing, m')
        | err e ↦ (err e, m)
        | panic ↦ (panic, m)
        | fault ↦ (fault, m)
        | spin ↦ (spin, m)
      ]

  -- The loop of clone_for_fork, with the regions and the tables made so far.
  unfoldable pub clone_loop : List (Entry K) → List (Entry K) → K.Tables → Outcome (SpaceManager K)
  clone_loop [] regions tables = ok (record { regions = regions; tables = tables })
  clone_loop (old ∷ rest) regions tables = do
    backing ← K.clone_for_fork old
    let (code, tables') = K.map_into_table backing tables old.user_region old.permissions in
        elim (succeeds code) [
          | true ↦ clone_loop rest (regions ++ record old { backing = backing } ∷ []) tables'
          | false ↦ err code
        ]

  unfoldable pub clone_for_fork : SpaceManager K → Outcome (SpaceManager K)
  unfolding clone_loop
  clone_for_fork m = clone_loop m.regions [] K.create_user_tables
