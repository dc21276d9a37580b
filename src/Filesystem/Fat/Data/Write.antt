-- ===== src/Filesystem/Fat/Data/Write.antt =====
-- doDataInterchange from kernel memory to one cluster.
use bek_os.Common.{
  ℕ, zero, suc, ◌+◌, ◌-◌, ◌/◌, ◌%◌, min, max, ◌≤◌, ◌<◌, ◌≡◌, refl, sym, ap, ◌∙◌, subst, Bool, true,
  false, ◌&&◌, List, Option, none, some, inl, inr, arith,
}
use bek_os.Common.Tests.{◌==◌, ltb, leb, if◌then◌else◌, Option-cases}
use bek_os.Common.Lists.{length, slice, splice, length-splice, take_all}
use bek_os.Common.Outcome.{Outcome, ok, ◌>>=◌, ◌>>◌, verify}
use bek_os.Common.Memory.{memory_read_lem}
use native.Mathlib.Nat.{div-eq_of_lt, mod-eq_of_lt}
use bek_os.Library.BlockCache.{BlockCacheItem, create_item, is_dirty, add_dirty_region}
use bek_os.Library.TransactionalBuffer.{kernel_buffer}
use bek_os.Filesystem.Fat.{
  FatInfo, FileAllocationTable, get_cluster_type, is_next_pointer, get_next_cluster,
}
use bek_os.Filesystem.Fat.Data.{
  Clusters, ignore, put_at, fetch_cluster, fetch_item, copy_cluster, needs_content,
  interchange_loop, skip_clusters, skip_over, do_data_interchange, loaded, cache_item,
}
use bek_os.Filesystem.Fat.Data.Cache.{
  place, IsPlaced, cluster_byte_addr_lem, IsCoherent, put_at-same, purge_clusters_lem,
}
use bek_os.Filesystem.Fat.Data.Interchange.{skip_over-small}

-- The bytes that a cluster has when it is fetched for a write of `size` bytes at an offset.
abbrev pub fetched : FatInfo → List ℕ → ℕ → Clusters → ℕ → ℕ → ℕ → Option BlockCacheItem → List ℕ
fetched info fresh cluster_size c n offset size (some item) = item.bytes
fetched info fresh cluster_size c n offset size none =
    if offset == 0 && size == cluster_size then c.device (place info n) else fresh

module _ (info : FatInfo) (fresh : List ℕ) (victims : ℕ → List ℕ) (cluster_size : ℕ) where
  -- A cluster that is fetched for a write.
  abbrev FetchesFor : Clusters → ℕ → List ℕ → Outcome (BlockCacheItem × Clusters) → Type 0
  FetchesFor c n bytes r =
      (item : BlockCacheItem) × (c' : Clusters) × (r ≡ ok (item, c')) × (item.bytes ≡ bytes)

  loaded_lem :
      (c : Clusters) (n offset size : ℕ)
      → IsPlaced info n
      → loaded info fresh victims cluster_size c n (offset == 0 && size == cluster_size)
        ≡ ok (if offset == 0 && size == cluster_size then c.device (place info n) else fresh)
  loaded_lem c n offset size placed = go (offset == 0 && size == cluster_size)
    where
      go :
          (b : Bool)
          → loaded info fresh victims cluster_size c n b
            ≡ ok (if b then c.device (place info n) else fresh)
      go true = ap (λ r. r >>= λ a. ok (c.device a)) (cluster_byte_addr_lem info n placed)
      go false = refl

  fetch_item-write :
      (c : Clusters) (n offset size : ℕ) (o : Option BlockCacheItem)
      → IsPlaced info n
      → IsCoherent info cluster_size c
      → FetchesFor c n (fetched info fresh cluster_size c n offset size o) (
          fetch_item info fresh victims cluster_size c n
            (needs_content info fresh victims cluster_size kernel_buffer true offset size)
            o)
  fetch_item-write c n offset size (some item) placed is = (item, c, refl, refl)
  fetch_item-write c n offset size none placed is =
      let bytes = fetched info fresh cluster_size c n offset size none in
      let (p, run, same, is₁, gone) = purge_clusters_lem info cluster_size (victims n) c is in
      let item = create_item bytes in
      (
        item,
        record p { cache = put_at p.cache n (some item) },
        ap (λ r. r >>= cache_item info fresh victims cluster_size c n)
              (loaded_lem c n offset size placed)
            ∙ ap
                (λ r. r >>= λ purged.
                  ok (item, record purged { cache = put_at purged.cache n (some item) }))
                run,
        refl,
      )

  length-fetched :
      (c : Clusters) (n offset size : ℕ)
      → IsCoherent info cluster_size c
      → length fresh ≡ cluster_size
      → length (fetched info fresh cluster_size c n offset size (c.cache n)) ≡ cluster_size
  length-fetched c n offset size is h = elim (Option-cases (c.cache n)) [
    | inl missing ↦
        ap (λ o. length (fetched info fresh cluster_size c n offset size o)) missing
        ∙ either (offset == 0 && size == cluster_size)
    | inr (item, there) ↦
        ap (λ o. length (fetched info fresh cluster_size c n offset size o)) there
        ∙ (is.in_cache n item there).1
  ]
    where
      either : (b : Bool) → length (if b then c.device (place info n) else fresh) ≡ cluster_size
      either true = is.on_device (place info n)
      either false = h

  -- The item's dirty bytes have these among them.
  abbrev pub IsMarked : ℕ → ℕ → BlockCacheItem → Type 0
  IsMarked start end item =
      (is_dirty item ≡ true) × (item.dirty_start ≤ start) × (end ≤ item.dirty_end)

  abbrev pub Written : ℕ → ℕ → ℕ → List ℕ → List ℕ → Outcome (Bool × List ℕ × Clusters) → Type 0
  Written n offset size bytes buffer r =
      (c' : Clusters) × (item' : BlockCacheItem) × (r ≡ ok (true, buffer, c'))
      × (c'.cache n ≡ some item')
      × (item'.bytes ≡ bytes)
      × IsMarked offset (offset + size) item'

  add_dirty_region-bytes :
      (item : BlockCacheItem) (start end : ℕ)
      → start < end
      → end ≤ length item.bytes
      → (item' : BlockCacheItem) × (add_dirty_region item start end ≡ ok item')
        × (item'.bytes ≡ item.bytes)
        × IsMarked start end item'
  unfolding add_dirty_region
  add_dirty_region-bytes item start end h l =
      let fits : leb start end && leb end (length item.bytes) ≡ true = ground arith in
      let marked : Bool → BlockCacheItem = λ b.
        if b
        then (record item {
          dirty_start = min start item.dirty_start;
          dirty_end = max end item.dirty_end;
        })
        else (record item { dirty_start = start; dirty_end = end }) in
      (
        marked (is_dirty item),
        ap (λ b. verify b >> ok (marked (is_dirty item))) fits,
        go (is_dirty item),
        mark (is_dirty item),
      )
    where
      go :
          (b : Bool)
          → (if b
              then (record item {
                dirty_start = min start item.dirty_start;
                dirty_end = max end item.dirty_end;
              })
              else (record item { dirty_start = start; dirty_end = end })).bytes
            ≡ item.bytes
      go true = refl
      go false = refl

      mark :
          (b : Bool)
          → IsMarked start end (
              if b
              then (record item {
                dirty_start = min start item.dirty_start;
                dirty_end = max end item.dirty_end;
              })
              else (record item { dirty_start = start; dirty_end = end }))
      mark true = (ground arith, omega arith, omega arith)
      mark false = (ground arith, omega arith, omega arith)

  copy_cluster-write :
      (buffer : List ℕ) (n offset size : ℕ) (item : BlockCacheItem) (c : Clusters)
      → 0 < size
      → length buffer ≡ size
      → offset + size ≤ length item.bytes
      → (c' : Clusters) × (item' : BlockCacheItem) × (copy_cluster info fresh victims cluster_size
            kernel_buffer true buffer n offset size 0
            (item, c)
          ≡ ok (buffer, c'))
        × (c'.cache n ≡ some item')
        × (item'.bytes ≡ splice item.bytes offset buffer)
        × IsMarked offset (offset + size) item'
  unfolding copy_cluster
  copy_cluster-write buffer n offset size item c some_size h l =
      let all = take_all size buffer (omega arith) in
      let read_all = memory_read_lem buffer 0 size (omega arith) in
      let size' = length-splice item.bytes offset buffer (omega arith) in
      let written : BlockCacheItem = record item { bytes = splice item.bytes offset buffer } in
      let (item', dirty, same, marked) =
        add_dirty_region-bytes written offset (offset + size) (omega arith) (omega arith) in
      let rest : List ℕ → Outcome (List ℕ × Clusters) = λ bytes.
        add_dirty_region (record item { bytes = splice item.bytes offset bytes }) offset
          (offset + size)
        >>= λ item'. ok (buffer, record c { cache = put_at c.cache n (some item') }) in
      (
        record c { cache = put_at c.cache n (some item') },
        item',
        ap (λ r. ignore (slice offset size item.bytes) r >>= rest) read_all
            ∙ ap rest all
            ∙ ap
                (λ r.
                  r >>= λ item'. ok (buffer, record c { cache = put_at c.cache n (some item') }))
                dirty,
        put_at-same c.cache n (some item'),
        same,
        marked,
      )

  loop-write :
      (fuel : ℕ) (t : FileAllocationTable) (buffer : List ℕ) (n offset size : ℕ) (c : Clusters)
      → 0 < size
      → offset + size ≤ cluster_size
      → interchange_loop info fresh victims cluster_size kernel_buffer
          (suc fuel)
          true
          t
          offset
          size
          n
          0
          buffer
          c
        ≡ fetch_cluster info fresh victims cluster_size c n
            (needs_content info fresh victims cluster_size kernel_buffer true offset size)
          >>= copy_cluster info fresh victims cluster_size kernel_buffer true buffer n offset size 0
          >>= λ (buffer', c'). ok (true, buffer', c')
  unfolding interchange_loop
  loop-write fuel t buffer n offset size c h l =
      let onward : ℕ → Bool → List ℕ × Clusters → Outcome (Bool × List ℕ × Clusters) =
        λ k done (buffer', c'). elim done [
          | true ↦ ok (true, buffer', c')
          | false ↦ get_next_cluster t n >>= λ next.
              elim (is_next_pointer (get_cluster_type next)) [
                | true ↦
                    interchange_loop info fresh victims cluster_size kernel_buffer fuel true t
                      offset size next (0 + k) buffer' c'
                | false ↦ ok (false, buffer', c')
              ]
        ] in
      let copied : ℕ → Outcome (List ℕ × Clusters) = λ k.
        fetch_cluster info fresh victims cluster_size c n
          (needs_content info fresh victims cluster_size kernel_buffer true offset k)
        >>= copy_cluster info fresh victims cluster_size kernel_buffer true buffer n offset k 0 in
      let body : Bool → ℕ → Outcome (Bool × List ℕ × Clusters) = λ b k. elim b [
        | true ↦ copied k >>= λ (b', c'). onward k (0 + k == size) (b', c')
        | false ↦ ok (true, buffer, c)
      ] in
      let more : ltb 0 size ≡ true = ground arith in
      let whole : min (size - 0) (cluster_size - offset) ≡ size = omega arith in
      let done : (0 + size == size) ≡ true = ground arith in
      ap (λ b. body b (min (size - 0) (cluster_size - offset))) more
      ∙ ap (body true) whole
      ∙ ap (λ d. copied size >>= λ (b', c'). onward size d (b', c')) done

  -- doDataInterchange of at least one byte to the inside of the first cluster, from kernel memory of that
  -- size, where this cluster and those in the cache are numbered from 2 on and have sector numbers below
  -- 2 ^ 32, and the cache agrees with the device but for dirty bytes: it returns true. The cluster is
  -- then in the cache with those bytes at the offset, all of them marked as dirty; its other bytes
  -- are those that it had if it was in the cache, and those of the device if the write covers all of
  -- it, but whatever the memory of a new block held if the write covers a part.
  pub do_data_interchange-write :
      (fuel : ℕ) (t : FileAllocationTable) (n offset size : ℕ) (buffer : List ℕ) (c : Clusters)
      → IsPlaced info n
      → IsCoherent info cluster_size c
      → length fresh ≡ cluster_size
      → 0 < size
      → length buffer ≡ size
      → offset + size ≤ cluster_size
      → 0 < fuel
      → Written n offset size
          (splice (fetched info fresh cluster_size c n offset size (c.cache n)) offset buffer)
          buffer
          (do_data_interchange info fresh victims cluster_size kernel_buffer fuel true t n offset
            size buffer c)
  unfolding do_data_interchange skip_clusters fetch_cluster
  do_data_interchange-write zero t n offset size buffer c placed is fresh_size some_size room inside
        more =
      absurd (omega arith)
  do_data_interchange-write (suc fuel) t n offset size buffer c placed is fresh_size some_size room
        inside more =
      let first : offset / cluster_size ≡ 0 = div-eq_of_lt (omega arith) in
      let here : offset % cluster_size ≡ offset = mod-eq_of_lt (omega arith) in
      let (item, c₁, found, bytes) = fetch_item-write c n offset size (c.cache n) placed is in
      let count = length-fetched c n offset size is fresh_size in
      let (c', item', run, there, same, marked) =
        copy_cluster-write buffer n offset size item c₁ some_size room
          (subst (λ l. offset + size ≤ l) (sym (ap length bytes ∙ count)) inside) in
      let go_on : Bool × ℕ → ℕ → Outcome (Bool × List ℕ × Clusters) = λ (found, cluster) o.
        elim found [
          | true ↦
              interchange_loop info fresh victims cluster_size kernel_buffer (suc fuel) true t o
                size cluster 0 buffer c
          | false ↦ ok (false, buffer, c)
        ] in
      let started = skip_over-small info fresh victims cluster_size 0 t n n (omega arith) refl in
      (
        c',
        item',
        ap
              (λ k. skip_over info fresh victims cluster_size kernel_buffer k t n >>= λ p.
                go_on p (offset % cluster_size))
              first
            ∙ ap (λ r. r >>= λ p. go_on p (offset % cluster_size)) started
            ∙ ap (go_on (true, n)) here
            ∙ loop-write fuel t buffer n offset size c some_size inside
            ∙ ap
                (λ r.
                  r
                  >>= copy_cluster info fresh victims cluster_size kernel_buffer true buffer n
                      offset size 0
                  >>= λ (buffer', c'). ok (true, buffer', c'))
                found
            ∙ ap (λ r. r >>= λ (buffer', c'). ok (true, buffer', c')) run,
        there,
        same ∙ ap (λ b. splice b offset buffer) bytes,
        marked,
      )
