-- ===== src/Tests/Files.antt =====
-- The table of clusters and the short names at concrete inputs (kernel/src/filesystem/fat.cpp).
use bek_os.Common.{
  ℕ, ◌<◌, ◌≡◌, ◌≢◌, refl, sym, ap, subst, Bool, true, false, ◌||◌, map, List, [], ◌∷◌, arith,
}
use bek_os.Common.Tests.{◌==◌, ltb, if◌then◌else◌}
use bek_os.Common.Lists.{length}
use bek_os.Common.Outcome.{Outcome, ok, ◌>>=◌}
use bek_os.Filesystem.Fat.{
  fat16, FileAllocationTable, get_cluster_type, allocate_next_cluster, extend_file,
  extract_fat_value, set_fat_value,
}
use bek_os.Filesystem.Fat.Sector.{IsValid, link}
use bek_os.Filesystem.Fat.Chain.{free_at, Allocates, allocate_next_cluster_lem}
use bek_os.Filesystem.Fat.Links.{points, IsTable}
use bek_os.Filesystem.Fat.Extend.{Extends, extend_file_lem}
use bek_os.Filesystem.ShortName.{
  is_valid_fat_char, generate_short_name, short_name_to_string, is_duplicate,
}
use bek_os.Filesystem.ShortName.RoundTrip.{generate_short_name-plain}
use bek_os.Filesystem.ShortName.Characters.{ShortNameOf, generate_short_name-IsShortName}
use bek_os.Common.{inl, inr, some, none, ◌∙◌}
use bek_os.Common.Tests.{Bool-cases}
use bek_os.Library.BlockCache.{BlockCacheItem}
use bek_os.Library.TransactionalBuffer.{kernel_buffer}
use bek_os.Filesystem.Fat.{get_next_cluster}
use bek_os.Filesystem.Fat.Data.{Clusters, written_back, do_data_interchange}
use bek_os.Filesystem.Fat.Data.Cache.{IsCoherent, IsPlaced, place}
use bek_os.Filesystem.Fat.Data.Write.{Written, do_data_interchange-write}
use bek_os.Filesystem.Fat.Data.Interchange.{ReadsFile, do_data_interchange-read}

-- A chain of the clusters 2 and 3, and nothing else.
abbrev clusters : FileAllocationTable
clusters = record {
  info = record {
    fat_type = fat16;
    sector_size = 512;
    sectors_per_cluster = 2;
    fat_sectors = 1;
    data_begin_sector = 40;
  };
  sectors = λ i j. if ltb j 4 || (j == 6 || j == 7) then 255 else (if j == 4 then 3 else 0);
  free_cluster_hint = 0;
}

clusters-IsValid : IsValid clusters.info
clusters-IsValid = record { some_size = omega arith; whole = refl; small = omega arith }

allocate_next_cluster_lem_example : Allocates clusters 3 2 (allocate_next_cluster clusters 3)
unfolding get_cluster_type
allocate_next_cluster_lem_example =
    allocate_next_cluster_lem clusters 3 clusters-IsValid (omega arith) refl (omega arith)

clusters-links : (c : ℕ) → c < 256 → points clusters c ≡ true → c ≡ 2
unfolding get_cluster_type
clusters-links c h p = ground arith

clusters-link : (c : ℕ) → c < 256 → points clusters c ≡ true → link clusters c ≡ 3
clusters-link c h p = ap (link clusters) (clusters-links c h p)

clusters-IsTable : IsTable clusters
unfolding get_cluster_type
clusters-IsTable = record {
  valid = clusters-IsValid;
  few = omega arith;
  hint = omega arith;
  inside = λ c h p. subst (λ n. n < 256) (sym (clusters-link c h p)) (omega arith);
  used = λ c h p. ap (free_at clusters) (clusters-link c h p);
}

-- Three clusters and a byte more.
extend_file_lem_example : Extends clusters 2 1024 3073 (extend_file 3 clusters 2 3073)
unfolding get_cluster_type
extend_file_lem_example =
    extend_file_lem 3 clusters 2 3073 clusters-IsTable (omega arith) refl (omega arith)
      (omega arith)

abbrev next_links : Outcome (Bool × FileAllocationTable) → List ℕ → Outcome (Bool × List ℕ)
next_links r places = r >>= λ (good, t). ok (good, map (link t) places)

extend_file-links :
    next_links (extend_file 3 clusters 2 3073) (2 ∷ 3 ∷ 4 ∷ 5 ∷ 6 ∷ [])
    ≡ ok (true, 3 ∷ 4 ∷ 5 ∷ 268435455 ∷ 0 ∷ [])
unfolding extend_file get_cluster_type extract_fat_value set_fat_value
extend_file-links = refl

not_space : (c : ℕ) → (c == 32) ≡ false → c ≢ 32
not_space c h = ground arith

-- READ and MD
generate_short_name-plain_example :
    (r : List ℕ) × (generate_short_name (82 ∷ 69 ∷ 65 ∷ 68 ∷ 46 ∷ 77 ∷ 68 ∷ []) [] ≡ ok r)
    × (length r ≡ 11)
    × (short_name_to_string r ≡ 82 ∷ 69 ∷ 65 ∷ 68 ∷ 46 ∷ 77 ∷ 68 ∷ [])
unfolding is_duplicate is_valid_fat_char
generate_short_name-plain_example =
    generate_short_name-plain 82 (69 ∷ 65 ∷ 68 ∷ []) (77 ∷ 68 ∷ []) []
      (
        (refl, not_space 82 refl),
        ((refl, not_space 69 refl), ((refl, not_space 65 refl), ((refl, not_space 68 refl), tt))),
      )
      ((refl, not_space 77 refl), ((refl, not_space 68 refl), tt)) (omega arith) (omega arith)
      (omega arith) refl

-- a+b.c with a name that is taken gets a tail, and the same again where that is taken too.
generate_short_name-taken :
    (generate_short_name (97 ∷ 43 ∷ 98 ∷ []) (
      (65 ∷ 95 ∷ 66 ∷ 32 ∷ 32 ∷ 32 ∷ 32 ∷ 32 ∷ 32 ∷ 32 ∷ 32 ∷ [])
      ∷ (65 ∷ 95 ∷ 66 ∷ 126 ∷ 49 ∷ 32 ∷ 32 ∷ 32 ∷ 32 ∷ 32 ∷ 32 ∷ [])
      ∷ []))
    ≡ ok (65 ∷ 95 ∷ 66 ∷ 126 ∷ 49 ∷ 32 ∷ 32 ∷ 32 ∷ 32 ∷ 32 ∷ 32 ∷ [])
unfolding generate_short_name is_valid_fat_char
generate_short_name-taken = refl

generate_short_name-IsShortName_example :
    (r : List ℕ) × (generate_short_name (97 ∷ 43 ∷ 98 ∷ []) [] ≡ ok r)
    × ShortNameOf (97 ∷ 43 ∷ 98 ∷ []) r
generate_short_name-IsShortName_example =
    generate_short_name-IsShortName (97 ∷ 43 ∷ 98 ∷ []) [] (omega arith)

-- The clusters 2 and 3 of four bytes each; the second is in the cache, with two dirty bytes.
abbrev blocks : Clusters
blocks = record {
  device = λ a. if a == 20480 then 1 ∷ 2 ∷ 3 ∷ 4 ∷ [] else 5 ∷ 6 ∷ 7 ∷ 8 ∷ [];
  cache = λ n.
      if n == 3
      then some (record { bytes = 5 ∷ 9 ∷ 9 ∷ 8 ∷ []; dirty_start = 1; dirty_end = 3 })
      else none;
}

abbrev CoherentAt : ℕ → BlockCacheItem → Type 0
CoherentAt n item =
    IsPlaced clusters.info n
    × (length item.bytes ≡ 4)
    × (written_back (blocks.device (place clusters.info n)) item ≡ item.bytes)

blocks-IsCoherent : IsCoherent clusters.info 4 blocks
blocks-IsCoherent = record {
  some_sectors = omega arith;
  some_bytes = omega arith;
  on_device = λ a. sizes (a == 20480);
  in_cache = λ n item h. elim (Bool-cases (n == 3)) [
    | inl here ↦ same n item here h
    | inr away ↦ absurd (cc (sym h ∙ missing n away))
  ];
}
  where
    sizes : (b : Bool) → length {A = ℕ} (if b then 1 ∷ 2 ∷ 3 ∷ 4 ∷ [] else 5 ∷ 6 ∷ 7 ∷ 8 ∷ []) ≡ 4
    sizes true = refl
    sizes false = refl

    missing : (n : ℕ) → (n == 3) ≡ false → blocks.cache n ≡ none
    missing n e = rw e refl

    some_injective : (a b : BlockCacheItem) → some a ≡ some b → a ≡ b
    some_injective a b h = cc h

    same :
        (n : ℕ) (item : BlockCacheItem)
        → (n == 3) ≡ true
        → blocks.cache n ≡ some item
        → CoherentAt n item
    same n item e h =
        let three : 3 ≡ n = ground arith in
        let there : BlockCacheItem = record {
          bytes = 5 ∷ 9 ∷ 9 ∷ 8 ∷ [];
          dirty_start = 1;
          dirty_end = 3;
        } in
        let item_is : there ≡ item = some_injective there item (ap blocks.cache three ∙ h) in
        subst (λ n. CoherentAt n item) three
          (subst (CoherentAt 3) item_is ((omega arith, omega arith), refl, refl))

do_data_interchange-read_example :
    ReadsFile clusters.info []
      (λ n. 3 ∷ [])
      4
      blocks
      (3 ∷ 4 ∷ 5 ∷ 9 ∷ [])
      (do_data_interchange clusters.info []
        (λ n. 3 ∷ [])
        4
        kernel_buffer
        2
        false
        clusters
        2
        2
        4
        (0 ∷ 0 ∷ 0 ∷ 0 ∷ [])
        blocks)
unfolding extract_fat_value get_cluster_type get_next_cluster
do_data_interchange-read_example =
    do_data_interchange-read clusters.info [] (λ n. 3 ∷ []) 4 2 clusters 2 (3 ∷ []) 2 4
      (0 ∷ 0 ∷ 0 ∷ 0 ∷ []) blocks (omega arith)
      ((omega arith, omega arith), refl, refl, (omega arith, omega arith)) (omega arith)
      blocks-IsCoherent (omega arith) refl (omega arith) (omega arith)

-- Two bytes into a cluster that is not in the cache: the other two are those of the new block.
do_data_interchange-write_example :
    Written clusters.info
      (0 ∷ 0 ∷ 0 ∷ 0 ∷ [])
      (λ n. [])
      4
      2
      1
      2
      (0 ∷ 7 ∷ 8 ∷ 0 ∷ [])
      (7 ∷ 8 ∷ [])
      (do_data_interchange clusters.info
        (0 ∷ 0 ∷ 0 ∷ 0 ∷ [])
        (λ n. [])
        4
        kernel_buffer
        1
        true
        clusters
        2
        1
        2
        (7 ∷ 8 ∷ [])
        blocks)
do_data_interchange-write_example =
    do_data_interchange-write clusters.info (0 ∷ 0 ∷ 0 ∷ 0 ∷ []) (λ n. []) 4 1 clusters 2 1 2
      (7 ∷ 8 ∷ []) blocks (omega arith, omega arith) blocks-IsCoherent refl (omega arith) refl
      (omega arith) (omega arith)
