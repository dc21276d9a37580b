-- ===== src/Filesystem/Fat.antt =====
-- The table of FileAllocationTable, kernel/src/filesystem/fat.cpp: its entries, the chains of clusters,
-- and how they grow. A sector of the table is what fetch_fat_sector hands out, from its cache or the
-- device; what is written to it is what the next fetch hands out.
pub mod Places
pub mod Sector
pub mod Chain
pub mod Links
pub mod Follow
pub mod Extend
pub mod Data
use bek_os.Common.{ℕ, zero, suc, ◌+◌, ◌-◌, ◌*◌, ◌/◌, ◌%◌, ◌^◌, max, Bool, true, false, ◌&&◌}
use bek_os.Common.Tests.{◌==◌, ltb, leb, if◌then◌else◌, add64, word32}
use bek_os.Common.Outcome.{Outcome, ok, spin, ◌>>=◌, ◌>>◌, verify}

pub data ClusterType : Type 0 where
  next_pointer end_of_chain free_cluster corrupt reserved : ClusterType

pub data FatType : Type 0 where
  fat12 fat16 fat32 exfat : FatType

-- CLUSTER_EOC
abbrev pub cluster_eoc : ℕ
cluster_eoc = 268435455

unfoldable pub get_cluster_type : ℕ → ClusterType
get_cluster_type cluster_n =
    let n = cluster_n % 2 ^ 28 in
    if leb n 268435439 && ltb 1 n
    then next_pointer
    else (if n == 0
        then free_cluster
        else (if leb 268435448 n
            then end_of_chain
            else (if n == 268435447 then corrupt else reserved)))

abbrev pub is_next_pointer : ClusterType → Bool
is_next_pointer next_pointer = true
is_next_pointer end_of_chain = false
is_next_pointer free_cluster = false
is_next_pointer corrupt = false
is_next_pointer reserved = false

abbrev pub is_free : ClusterType → Bool
is_free next_pointer = false
is_free end_of_chain = false
is_free free_cluster = true
is_free corrupt = false
is_free reserved = false

pub record FatInfo : Type 0 where
  pub fat_type : FatType
  pub sector_size : ℕ
  pub sectors_per_cluster : ℕ
  pub fat_sectors : ℕ
  pub data_begin_sector : ℕ

abbrev pub is_fat16 : FatType → Bool
is_fat16 fat12 = false
is_fat16 fat16 = true
is_fat16 fat32 = false
is_fat16 exfat = false

-- The bytes of an entry.
abbrev pub entry_size : FatInfo → ℕ
entry_size info = if is_fat16 info.fat_type then 2 else 4

abbrev pub Sector : Type 0
Sector = ℕ → ℕ

unfoldable pub fat_sector_index_and_offset_for : FatInfo → ℕ → ℕ × ℕ
fat_sector_index_and_offset_for info cluster =
    let total_byte_offset = cluster * entry_size info % word32 in
    (total_byte_offset / info.sector_size, total_byte_offset % info.sector_size)

-- The numbers at an offset, with the lowest byte first.
abbrev pub get_u16 : Sector → ℕ → ℕ
get_u16 s i = s i + 256 * s (i + 1)

abbrev pub get_u32 : Sector → ℕ → ℕ
get_u32 s i = s i + 256 * s (i + 1) + 65536 * s (i + 2) + 16777216 * s (i + 3)

abbrev pub put_u16 : Sector → ℕ → ℕ → Sector
put_u16 s i v = λ j. if j == i then v % 256 else (if j == i + 1 then v / 256 % 256 else s j)

abbrev pub put_u32 : Sector → ℕ → ℕ → Sector
put_u32 s i v = λ j.
    if j == i
    then v % 256
    else (if j == i + 1
        then v / 256 % 256
        else (if j == i + 2
            then v / 65536 % 256
            else (if j == i + 3 then v / 16777216 % 256 else s j)))

-- The value of an entry as it stands in FAT16, in the form of FAT32.
abbrev pub widen : ℕ → ℕ
widen x = if ltb x 65527 then x else x + 268369920

unfoldable pub extract_fat_value : FatInfo → ℕ → Sector → Outcome ℕ
extract_fat_value info byte_offset sector = elim (is_fat16 info.fat_type) [
  | true ↦
      verify (leb (byte_offset + 2) info.sector_size) >> ok (widen (get_u16 sector byte_offset))
  | false ↦
      verify (leb (byte_offset + 4) info.sector_size) >> ok (get_u32 sector byte_offset % 2 ^ 28)
]

unfoldable pub set_fat_value : FatInfo → ℕ → Sector → ℕ → Outcome Sector
set_fat_value info byte_offset sector value = elim (is_fat16 info.fat_type) [
  | true ↦ verify (leb (byte_offset + 2) info.sector_size) >> ok (put_u16 sector byte_offset value)
  | false ↦
      verify (leb (byte_offset + 4) info.sector_size)
      >> ok (
          put_u32 sector byte_offset
            (get_u32 sector byte_offset / 2 ^ 28 * 2 ^ 28 + value % 2 ^ 28))
]

abbrev pub get_fat_entry_count : FatInfo → ℕ
get_fat_entry_count info = info.fat_sectors * info.sector_size % word32 / entry_size info

pub record FileAllocationTable : Type 0 where
  pub info : FatInfo
  pub sectors : ℕ → Sector
  pub free_cluster_hint : ℕ

abbrev pub fetch_fat_sector : FileAllocationTable → ℕ → Outcome Sector
fetch_fat_sector t sector_n = verify (ltb sector_n t.info.fat_sectors) >> ok (t.sectors sector_n)

-- A fetched sector that has been written to.
abbrev pub put_sector : FileAllocationTable → ℕ → Sector → FileAllocationTable
put_sector t i s = record t { sectors = λ j. if j == i then s else t.sectors j }

unfoldable pub get_next_cluster : FileAllocationTable → ℕ → Outcome ℕ
unfolding fat_sector_index_and_offset_for
get_next_cluster t current_cluster = do
  let (sector_i, offset) = fat_sector_index_and_offset_for t.info current_cluster
  sector ← fetch_fat_sector t sector_i
  extract_fat_value t.info offset sector

-- The two writes of allocateNextCluster.
unfoldable pub set_cluster : FileAllocationTable → ℕ → ℕ → Outcome FileAllocationTable
unfolding fat_sector_index_and_offset_for
set_cluster t cluster value = do
  let (sector_i, offset) = fat_sector_index_and_offset_for t.info cluster
  sector ← fetch_fat_sector t sector_i
  sector' ← set_fat_value t.info offset sector value
  ok (put_sector t sector_i sector')

abbrev pub set_hint : FileAllocationTable → ℕ → FileAllocationTable
set_hint t candidate_cluster =
    let hint = candidate_cluster + 1 in
    record t { free_cluster_hint = if leb (get_fat_entry_count t.info) hint then 2 else hint }

-- A free candidate.
abbrev pub take_cluster : FileAllocationTable → ℕ → ℕ → Outcome (ℕ × FileAllocationTable)
take_cluster t current_cluster candidate_cluster = do
  t₁ ← set_cluster t candidate_cluster cluster_eoc
  t₂ ← set_cluster (set_hint t₁ candidate_cluster) current_cluster candidate_cluster
  ok (candidate_cluster, t₂)

-- The loop over the candidates, of which so many are left.
unfoldable pub try_candidates : FileAllocationTable → ℕ → ℕ → ℕ → Outcome (ℕ × FileAllocationTable)
unfolding get_next_cluster set_cluster
try_candidates t current_cluster zero candidate_cluster = ok (0, t)
try_candidates t current_cluster (suc left) candidate_cluster =
    get_next_cluster t candidate_cluster >>= λ next_cluster.
    elim (is_free (get_cluster_type next_cluster)) [
      | true ↦ take_cluster t current_cluster candidate_cluster
      | false ↦ try_candidates t current_cluster left (candidate_cluster + 1)
    ]

unfoldable pub allocate_next_cluster : FileAllocationTable → ℕ → Outcome (ℕ × FileAllocationTable)
unfolding try_candidates
allocate_next_cluster t current_cluster = do
  let first_checked_entry = max 2 t.free_cluster_hint
  let (sector_i, offset) = fat_sector_index_and_offset_for t.info first_checked_entry
  current_sector ← fetch_fat_sector t sector_i
  try_candidates t current_cluster (get_fat_entry_count t.info - first_checked_entry)
      first_checked_entry

-- The cluster behind one of a chain, which is allocated where the chain ends; 0 where that fails.
abbrev pub follow : FileAllocationTable → ℕ → Outcome (ℕ × FileAllocationTable)
follow t last_cluster = get_next_cluster t last_cluster >>= λ next.
    elim (is_next_pointer (get_cluster_type next)) [
      | true ↦ ok (next, t)
      | false ↦ allocate_next_cluster t last_cluster
    ]

-- The loop of extendFile. `fuel` bounds its rounds.
unfoldable pub extend_loop :
    ℕ → FileAllocationTable → ℕ → ℕ → ℕ → Outcome (Bool × FileAllocationTable)
unfolding get_next_cluster allocate_next_cluster
extend_loop zero t current_cluster current_size size =
    if ltb current_size size then spin else ok (true, t)
extend_loop (suc fuel) t current_cluster current_size size = elim (ltb current_size size) [
  | true ↦ follow t current_cluster >>= λ (next, t'). elim (next == 0) [
    | true ↦ ok (false, t')
    | false ↦
        extend_loop fuel t' next
          (add64 current_size (t.info.sector_size * t.info.sectors_per_cluster % word32)) size
  ]
  | false ↦ ok (true, t)
]

unfoldable pub extend_file : ℕ → FileAllocationTable → ℕ → ℕ → Outcome (Bool × FileAllocationTable)
unfolding extend_loop
extend_file fuel t start_cluster size =
    extend_loop fuel t start_cluster (t.info.sector_size * t.info.sectors_per_cluster % word32) size
