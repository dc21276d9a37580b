-- ===== src/Mm/SpaceManager.antt =====
-- kernel/src/mm/space_manager.cpp: the regions of a process's address space, in order of address,
-- each backed by memory that the translation tables map.
pub mod Order
pub mod Access
pub mod Fork
pub mod Place
pub mod Release
use bek_os.Common.{
  ℕ, zero, suc, ◌+◌, ◌*◌, ◌/◌, ◌%◌, Bool, true, false, ◌&&◌, ◌||◌, not, List, [], ◌∷◌, ◌++◌, Option,
  none, some,
}
use bek_os.Common.Tests.{◌==◌, ltb, leb, if◌then◌else◌, add64, sub64, word, page_size, align_up}
use bek_os.Common.Lists.{length}
use bek_os.Common.Outcome.{
  Outcome, ok, err, panic, fault, spin, ErrorCode, esuccess, einval, eaddrinuse, ◌>>=◌, ◌>>◌,
  verify,
}
use bek_os.Mm.Addresses.{Region, region_end, overlaps, contains, page_aligned}
use bek_os.Bek.Vector

abbrev pub virt_addr_start : ℕ
virt_addr_start = 0x500000

abbrev pub user_addr_max : ℕ
user_addr_max = 0xffff_ffff_ffff

-- The bits of MemoryOperation.
pub record MemoryOperation : Type 0 where
  pub read : Bool
  pub write : Bool
  pub execute : Bool

-- (permissions & operation) == operation
unfoldable pub allows : MemoryOperation → MemoryOperation → Bool
allows permissions operation =
    (not operation.read || permissions.read)
    && ((not operation.write || permissions.write)
        && (not operation.execute || permissions.execute))

pub record UserspaceRegion (B : Type 0) : Type 0 where
  pub user_region : Region
  pub backing : B
  pub name : List ℕ
  pub permissions : MemoryOperation

-- What the manager calls of the regions' backing and of the translation tables. `same` is equality
-- of shared pointers. Mapping returns a code and the tables that it leaves.
pub record Backing : Type 1 where
  pub Handle : Type 0
  pub Tables : Type 0
  pub size : Handle → ℕ
  pub same : Handle → Handle → Bool
  pub map_into_table : Handle → Tables → Region → MemoryOperation → ErrorCode × Tables
  pub unmap_from_table : Handle → Tables → Region → ErrorCode × Tables
  pub clone_for_fork : UserspaceRegion Handle → Outcome Handle
  pub create_contiguous : ℕ → Outcome Handle
  pub create_user_tables : Tables

-- ESUCCESS ends a call well.
abbrev pub succeeds : ErrorCode → Bool
succeeds esuccess = true
succeeds _ = false

module _ (K : Backing) where
  abbrev pub Entry : Type 0
  Entry = UserspaceRegion K.Handle

  pub record SpaceManager : Type 0 where
    pub regions : List Entry
    pub tables : K.Tables

  unfoldable pub create : SpaceManager
  create = record { regions = []; tables = K.create_user_tables }

  -- The loops that look for the first region that contains another.
  unfoldable pub find_containing : List Entry → Region → Option Entry
  find_containing [] region = none
  find_containing (r ∷ rest) region =
      if contains r.user_region region then some r else find_containing rest region

  unfoldable pub check_region : SpaceManager → ℕ → ℕ → MemoryOperation → Bool
  unfolding find_containing
  check_region m location size operation =
      elim (find_containing m.regions (record { start = location; size = size })) [
        | none ↦ false
        | some r ↦ allows r.permissions operation
      ]

  unfoldable pub get_allowed_operations : SpaceManager → Region → Outcome MemoryOperation
  unfolding find_containing
  get_allowed_operations m region = elim (find_containing m.regions region) [
    | none ↦ err einval
    | some r ↦ ok r.permissions
  ]

  unfoldable pub get_shareable_region : SpaceManager → Region → Outcome K.Handle
  unfolding find_containing
  get_shareable_region m region = elim (find_containing m.regions region) [
    | none ↦ err einval
    | some r ↦
        if r.user_region.start == region.start && r.user_region.size == region.size
        then ok r.backing
        else err einval
  ]

  -- The end of the last region, if there is one.
  abbrev pub last_end : List Entry → Option ℕ
  last_end [] = none
  last_end (r ∷ []) = some (region_end r.user_region)
  last_end (r ∷ r' ∷ rest) = last_end (r' ∷ rest)

  unfoldable pub choose_location : List Entry → Option ℕ → ℕ
  choose_location regions (some location) = location
  choose_location regions none = elim (last_end regions) [
    | none ↦ virt_addr_start
    | some end ↦ align_up end page_size
  ]

  -- The loop of place_region: the insertion position, from position `i` on.
  unfoldable pub find_position : List Entry → Region → ℕ → Outcome ℕ
  find_position [] desired i = ok i
  find_position (r ∷ rest) desired i =
      let later = find_position rest desired (i + 1) in
      if overlaps r.user_region desired
      then err eaddrinuse
      else if leb (region_end desired) r.user_region.start
      then ok i
      else later

  unfoldable pub insert_at : List Entry → ℕ → Entry → Outcome (List Entry)
  insert_at regions i entry =
      if i == length regions then ok (regions ++ entry ∷ []) else Vector.insert regions i entry

  -- The part of place_region behind the search for a position.
  unfoldable pub map_and_insert :
      SpaceManager
      → Region
      → MemoryOperation
      → List ℕ
      → K.Handle
      → ℕ
      → Outcome Region × SpaceManager
  unfolding insert_at
  map_and_insert m desired operations name backing i =
      let (code, tables) = K.map_into_table backing m.tables desired operations in
      if succeeds code
      then (elim (insert_at m.regions i (record {
        user_region = desired;
        backing = backing;
        name = name;
        permissions = operations;
      })) [
        | ok regions ↦ (ok desired, record { regions = regions; tables = tables })
        | err e ↦ (err e, record m { tables = tables })
        | panic ↦ (panic, record m { tables = tables })
        | fault ↦ (fault, record m { tables = tables })
        | spin ↦ (spin, record m { tables = tables })
      ])
      else (err code, record m { tables = tables })

  unfoldable pub desired_region : SpaceManager → Option ℕ → K.Handle → Region
  unfolding choose_location
  desired_region m location backing =
      let pages = sub64 (add64 (K.size backing) page_size) 1 / page_size in
      record { start = choose_location m.regions location; size = pages * page_size % word }

  -- place_region. The table that a failed mapping leaves is kept.
  unfoldable pub place_region :
      SpaceManager → Option ℕ → MemoryOperation → List ℕ → K.Handle → Outcome Region × SpaceManager
  unfolding desired_region
  place_region m location operations name backing =
      let desired = desired_region m location backing in
      if ltb user_addr_max (add64 desired.start (K.size backing))
      then (err einval, m)
      else (elim (find_position m.regions desired 0) [
        | ok i ↦ map_and_insert m desired operations name backing i
        | err e ↦ (err e, m)
        | panic ↦ (panic, m)
        | fault ↦ (fault, m)
        | spin ↦ (spin, m)
      ])
