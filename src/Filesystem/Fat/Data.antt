-- ===== src/Filesystem/Fat/Data.antt =====
-- The data of files in kernel/src/filesystem/fat.cpp: the cache of clusters, and doDataInterchange. The
-- device holds the bytes of a cluster at each byte address; its transfers succeed.
pub mod Cache
pub mod Content
pub mod Read
pub mod Interchange
pub mod Write
use bek_os.Common.{
  ℕ, zero, suc, ◌+◌, ◌-◌, ◌*◌, ◌/◌, ◌%◌, min, Bool, true, false, not, ◌&&◌, ◌||◌, List, [], ◌∷◌,
  Option, none, some,
}
use bek_os.Common.Tests.{◌==◌, ltb, leb, word32, if◌then◌else◌}
use bek_os.Common.Lists.{length, slice, splice}
use bek_os.Common.Outcome.{Outcome, ok, err, panic, fault, spin, ◌>>=◌, ◌>>◌, verify}
use bek_os.Library.BlockCache.{BlockCacheItem, create_item, is_dirty, add_dirty_region}
use bek_os.Library.TransactionalBuffer.{TransactionalBuffer}
use bek_os.Filesystem.Fat.{
  FatInfo, FileAllocationTable, get_cluster_type, is_next_pointer, get_next_cluster,
}

unfoldable pub cluster_byte_addr : FatInfo → ℕ → Outcome ℕ
cluster_byte_addr info cluster_i =
    verify (leb 2 cluster_i)
    >> ok (
        (info.data_begin_sector + info.sectors_per_cluster * (cluster_i - 2))
        % word32
        * info.sector_size)

-- The clusters on the device by their byte addresses, and those in m_cluster_cache.
pub record Clusters : Type 0 where
  pub device : ℕ → List ℕ
  pub cache : ℕ → Option BlockCacheItem

abbrev pub put_at {ℓ} : {A : Type ℓ} → (ℕ → A) → ℕ → A → ℕ → A
put_at f n a = λ m. if m == n then a else f m

-- What purge_cluster leaves of the cluster on the device.
abbrev pub written_back : List ℕ → BlockCacheItem → List ℕ
written_back on_device item =
    if is_dirty item
    then splice on_device item.dirty_start
        (slice item.dirty_start (item.dirty_end - item.dirty_start) item.bytes)
    else on_device

-- The cache gives a cluster up: purge_cluster, by the item.
unfoldable pub purge_cached : FatInfo → ℕ → Clusters → Option BlockCacheItem → Outcome Clusters
unfolding cluster_byte_addr
purge_cached info n c none = ok c
purge_cached info n c (some item) = elim (is_dirty item) [
  | true ↦ cluster_byte_addr info n >>= λ place. ok (record {
    device = put_at c.device place (written_back (c.device place) item);
    cache = put_at c.cache n none;
  })
  | false ↦ ok (record c { cache = put_at c.cache n none })
]

abbrev pub purge_cluster : FatInfo → ℕ → Clusters → Outcome Clusters
purge_cluster info n c = purge_cached info n c (c.cache n)

unfoldable pub purge_clusters : FatInfo → List ℕ → Clusters → Outcome Clusters
unfolding purge_cached
purge_clusters info [] c = ok c
purge_clusters info (n ∷ rest) c = purge_cluster info n c >>= purge_clusters info rest

-- A result that the code does not look at.
abbrev pub ignore {ℓ} : {A : Type ℓ} → A → Outcome A → Outcome A
ignore a (ok b) = ok b
ignore a (err e) = ok a
ignore a panic = panic
ignore a fault = fault
ignore a spin = spin

-- `fresh` is what the memory of a new block holds, and `victims` the clusters that the cache
-- purges when it takes a cluster.
module _ (info : FatInfo) (fresh : List ℕ) (victims : ℕ → List ℕ) (cluster_size : ℕ) where
  -- The bytes of a new block.
  abbrev pub loaded : Clusters → ℕ → Bool → Outcome (List ℕ)
  loaded c cluster_n true = cluster_byte_addr info cluster_n >>= λ place. ok (c.device place)
  loaded c cluster_n false = ok fresh

  -- A new block goes into the cache.
  abbrev pub cache_item : Clusters → ℕ → List ℕ → Outcome (BlockCacheItem × Clusters)
  cache_item c cluster_n bytes = purge_clusters info (victims cluster_n) c >>= λ purged. ok (
    create_item bytes,
    record purged { cache = put_at purged.cache cluster_n (some (create_item bytes)) },
  )

  -- By what the cache has.
  abbrev pub fetch_item :
      Clusters → ℕ → Bool → Option BlockCacheItem → Outcome (BlockCacheItem × Clusters)
  fetch_item c cluster_n needs_content (some item) = ok (item, c)
  fetch_item c cluster_n needs_content none =
      loaded c cluster_n needs_content >>= cache_item c cluster_n

  unfoldable pub fetch_cluster : Clusters → ℕ → Bool → Outcome (BlockCacheItem × Clusters)
  unfolding purge_clusters cluster_byte_addr
  fetch_cluster c cluster_n needs_content = fetch_item c cluster_n needs_content (c.cache cluster_n)

  module _ (T : TransactionalBuffer) where
    -- The copy to the cluster or from it.
    unfoldable pub copy_cluster :
        Bool → T.Buffer → ℕ → ℕ → ℕ → ℕ → BlockCacheItem × Clusters → Outcome (T.Buffer × Clusters)
    unfolding add_dirty_region
    copy_cluster true buffer cluster byte_offset len completed_size (item, c) = do
      bytes ← ignore (slice byte_offset len item.bytes) (T.read_to len completed_size buffer)
      item' ←
          add_dirty_region (record item { bytes = splice item.bytes byte_offset bytes }) byte_offset
            (byte_offset + len)
      ok (buffer, record c { cache = put_at c.cache cluster (some item') })
    copy_cluster false buffer cluster byte_offset len completed_size (item, c) = do
      buffer' ←
          ignore buffer (T.write_from (slice byte_offset len item.bytes) completed_size buffer)
      ok (buffer', c)

    abbrev pub needs_content : Bool → ℕ → ℕ → Bool
    needs_content write byte_offset len_to_copy =
        not write || (byte_offset == 0 && len_to_copy == cluster_size)

    -- The loop over the clusters. `fuel` bounds its rounds.
    unfoldable pub interchange_loop :
        ℕ
        → Bool
        → FileAllocationTable
        → ℕ
        → ℕ
        → ℕ
        → ℕ
        → T.Buffer
        → Clusters
        → Outcome (Bool × T.Buffer × Clusters)
    unfolding fetch_cluster copy_cluster
    interchange_loop zero write t within size cluster completed_size buffer c =
        if ltb completed_size size then spin else ok (true, buffer, c)
    interchange_loop (suc fuel) write t within size cluster completed_size buffer c =
        elim (ltb completed_size size) [
          | false ↦ ok (true, buffer, c)
          | true ↦
              let byte_offset = if completed_size == 0 then within else 0 in
              let len = min (size - completed_size) (cluster_size - byte_offset) in
              fetch_cluster c cluster (needs_content write byte_offset len)
              >>= copy_cluster write buffer cluster byte_offset len completed_size
              >>= λ (buffer', c'). elim (completed_size + len == size) [
                | true ↦ ok (true, buffer', c')
                | false ↦ get_next_cluster t cluster >>= λ next.
                    elim (is_next_pointer (get_cluster_type next)) [
                      | true ↦
                          interchange_loop fuel write t within size next (completed_size + len)
                            buffer' c'
                      | false ↦ ok (false, buffer', c')
                    ]
              ]
        ]

    -- The loop over the clusters in front of the offset, by the number of its rounds that are left.
    unfoldable pub skip_clusters : ℕ → FileAllocationTable → ℕ → Outcome (Bool × ℕ)
    skip_clusters zero t cluster = ok (true, cluster)
    skip_clusters (suc left) t cluster = get_next_cluster t cluster >>= λ next.
        elim (is_next_pointer (get_cluster_type next)) [
          | true ↦ skip_clusters left t next
          | false ↦ ok (false, next)
        ]

    -- The counter of that loop has 32 bits: with 2 ^ 32 clusters or more in front of the offset, the loop does
    -- not end with its condition, but only where the chain ends or has a fault.
    unfoldable pub skip_over : ℕ → FileAllocationTable → ℕ → Outcome (Bool × ℕ)
    unfolding skip_clusters
    skip_over cluster_offset t cluster =
        skip_clusters (min cluster_offset word32) t cluster >>= λ (found, reached).
        if found && not (ltb cluster_offset word32) then spin else ok (found, reached)

    unfoldable pub do_data_interchange :
        ℕ
        → Bool
        → FileAllocationTable
        → ℕ
        → ℕ
        → ℕ
        → T.Buffer
        → Clusters
        → Outcome (Bool × T.Buffer × Clusters)
    unfolding interchange_loop skip_over
    do_data_interchange fuel write t start_cluster offset size buffer c =
        skip_over (offset / cluster_size) t start_cluster >>= λ (found, cluster). elim found [
          | true ↦ interchange_loop fuel write t (offset % cluster_size) size cluster 0 buffer c
          | false ↦ ok (false, buffer, c)
        ]
