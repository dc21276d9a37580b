-- ===== src/Filesystem/Fat/Data/Cache.antt =====
-- The cache of clusters: what it holds and what the device holds make the bytes of a cluster.
use bek_os.Common.{
  ℕ, ◌+◌, ◌-◌, ◌*◌, ◌%◌, ◌≤◌, ◌<◌, ◌≡◌, refl, sym, ap, ap₂, ◌∙◌, subst, inl, inr, true, false, List,
  [], ◌∷◌, Option, none, some, fun_ext, dec_lt, Bool, arith,
}
use bek_os.Common.Tests.{◌==◌, leb, word32, Bool-cases, Option-cases}
use bek_os.Common.Lists.{length}
use bek_os.Common.Outcome.{Outcome, ok, ◌>>=◌}
use native.Mathlib.Nat.{mod-eq_of_lt, mul-lt-mul_of_pos_right}
use bek_os.Library.BlockCache.{BlockCacheItem, create_item, is_dirty}
use bek_os.Filesystem.Fat.{FatInfo}
use bek_os.Filesystem.Fat.Data.{
  Clusters, cluster_byte_addr, put_at, written_back, purge_cached, purge_clusters, cache_item,
  fetch_item, fetch_cluster,
}

abbrev pub view_of : Option BlockCacheItem → List ℕ → List ℕ
view_of (some item) on_device = item.bytes
view_of none on_device = on_device

-- The byte address of a cluster, where the arithmetic of 32 bits does not wrap.
abbrev pub place : FatInfo → ℕ → ℕ
place info n = (info.data_begin_sector + info.sectors_per_cluster * (n - 2)) * info.sector_size

-- A cluster in the data area whose sector has a number of 32 bits.
abbrev pub IsPlaced : FatInfo → ℕ → Type 0
IsPlaced info n = (2 ≤ n) × (info.data_begin_sector + info.sectors_per_cluster * (n - 2) < word32)

pub cluster_byte_addr_lem :
    (info : FatInfo) (n : ℕ) → IsPlaced info n → cluster_byte_addr info n ≡ ok (place info n)
unfolding cluster_byte_addr
cluster_byte_addr_lem info n (low, fits) =
    let test : leb 2 n ≡ true = ground arith in
    let sector = info.data_begin_sector + info.sectors_per_cluster * (n - 2) in
    let same : sector % word32 ≡ sector = mod-eq_of_lt fits in
    rw (test, cluster_byte_addr) (ap (λ k. ok (k * info.sector_size)) same)

times-cancel : (a b s : ℕ) → 0 < s → a * s ≡ b * s → a ≡ b
times-cancel a b s pos e = elim (dec_lt a b) [
  | yes less ↦ absurd (omega (arith, mul-lt-mul_of_pos_right less pos, e))
  | no more ↦ elim (dec_lt b a) [
    | yes less ↦ absurd (omega (arith, mul-lt-mul_of_pos_right less pos, e))
    | no same ↦ omega arith
  ]
]

-- Two clusters have the same address only if they are one.
place-injective :
    (info : FatInfo) (m n : ℕ)
    → 0 < info.sectors_per_cluster
    → 0 < info.sector_size
    → IsPlaced info m
    → IsPlaced info n
    → place info m ≡ place info n
    → m ≡ n
place-injective info m n some_sectors some_bytes (low, fits) (low', fits') e =
    let spc = info.sectors_per_cluster in
    let sectors =
      times-cancel (info.data_begin_sector + spc * (m - 2)) (info.data_begin_sector + spc * (n - 2))
        info.sector_size some_bytes e in
    let counts : (m - 2) * spc ≡ (n - 2) * spc = grind (arith, sectors) in
    let same = times-cancel (m - 2) (n - 2) spc some_sectors counts in omega arith

-- The bytes of a cluster.
abbrev pub view : FatInfo → Clusters → ℕ → List ℕ
view info c n = view_of (c.cache n) (c.device (place info n))

-- Clusters have their size and addresses of their own, and a cached one differs from the device only in
-- its dirty bytes.
pub record IsCoherent (info : FatInfo) (cluster_size : ℕ) (c : Clusters) : Type 0 where
  pub some_sectors : 0 < info.sectors_per_cluster
  pub some_bytes : 0 < info.sector_size
  pub on_device : (a : ℕ) → length (c.device a) ≡ cluster_size
  pub in_cache :
      (n : ℕ) (item : BlockCacheItem)
      → c.cache n ≡ some item
      → IsPlaced info n
        × (length item.bytes ≡ cluster_size)
        × (written_back (c.device (place info n)) item ≡ item.bytes)

pub put_at-same {ℓ} : {A : Type ℓ} (f : ℕ → A) (n : ℕ) (a : A) → put_at f n a n ≡ a
put_at-same f n a = let test : n == n ≡ true = ground arith in rw test refl

put_at-other {ℓ} :
    {A : Type ℓ} (f : ℕ → A) (n : ℕ) (a : A) (m : ℕ) → (m == n) ≡ false → put_at f n a m ≡ f m
put_at-other f n a m h = rw h refl

pub length-view :
    (info : FatInfo) (cluster_size n : ℕ) (c : Clusters)
    → IsCoherent info cluster_size c
    → length (view info c n) ≡ cluster_size
length-view info cluster_size n c is = elim (Option-cases (c.cache n)) [
  | inl none_there ↦
      ap (λ o. length (view_of o (c.device (place info n)))) none_there
      ∙ is.on_device (place info n)
  | inr (item, there) ↦
      ap (λ o. length (view_of o (c.device (place info n)))) there ∙ (is.in_cache n item there).1
]

-- The same bytes in every cluster of the data area.
abbrev pub SameView : FatInfo → Clusters → Clusters → Type 0
SameView info c c' = (m : ℕ) → IsPlaced info m → view info c' m ≡ view info c m

some_injective : (a b : BlockCacheItem) → some a ≡ some b → a ≡ b
some_injective a b h = cc h

module _ (info : FatInfo) (cluster_size : ℕ) where
  -- The cache without a cluster, and the device with its bytes.
  abbrev given_up : ℕ → Clusters → BlockCacheItem → Clusters
  given_up n c item = record {
    device = put_at c.device (place info n) (written_back (c.device (place info n)) item);
    cache = put_at c.cache n none;
  }

  -- Purging what is cached.
  abbrev Purges : Clusters → Outcome Clusters → Type 0
  Purges c r =
      (c' : Clusters) × (r ≡ ok c')
      × SameView info c c'
      × IsCoherent info cluster_size c'
      × ((m : ℕ) → c.cache m ≡ none → c'.cache m ≡ none)

  put_at_self {ℓ} : {A : Type ℓ} (f : ℕ → A) (n : ℕ) → put_at f n (f n) ≡ f
  put_at_self f n = fun_ext (λ m. elim (Bool-cases (m == n)) [
    | inl same ↦
        let here : n ≡ m = ground arith in
        subst (λ m. put_at f n (f n) m ≡ f m) here (put_at-same f n (f n))
    | inr away ↦ put_at-other f n (f n) m away
  ])

  purge_cached-run :
      (n : ℕ) (c : Clusters) (item : BlockCacheItem)
      → IsPlaced info n
      → purge_cached info n c (some item) ≡ ok (given_up n c item)
  unfolding purge_cached
  purge_cached-run n c item placed =
      let dev = c.device in
      let a = place info n in
      let body : Bool → Outcome Clusters = λ b. elim b [
        | true ↦ cluster_byte_addr info n >>= λ a. ok (record {
          device = put_at c.device a (written_back (c.device a) item);
          cache = put_at c.cache n none;
        })
        | false ↦ ok (record c { cache = put_at c.cache n none })
      ] in
      elim (Bool-cases (is_dirty item)) [
        | inl dirty ↦
            ap body dirty
            ∙ ap
                (λ r. r >>= λ a. ok (record {
                  device = put_at c.device a (written_back (c.device a) item);
                  cache = put_at c.cache n none;
                }))
                (cluster_byte_addr_lem info n placed)
        | inr clean ↦
            let same : written_back (dev a) item ≡ dev a = rw clean refl in
            let kept = ap (put_at dev a) same ∙ put_at_self dev a in
            let left : (ℕ → List ℕ) → Outcome Clusters =
              λ d. ok (record { device = d; cache = put_at c.cache n none }) in
            ap body clean ∙ sym (ap left kept)
      ]

  given_up_lem :
      (n : ℕ) (c : Clusters) (item : BlockCacheItem)
      → c.cache n ≡ some item
      → IsCoherent info cluster_size c
      → SameView info c (given_up n c item)
        × IsCoherent info cluster_size (given_up n c item)
        × ((m : ℕ) → c.cache m ≡ none → (given_up n c item).cache m ≡ none)
  given_up_lem n c item e is =
      let (placed, size, back) = is.in_cache n item e in
      let c' = given_up n c item in
      let new = written_back (c.device (place info n)) item in
      let apart : (m : ℕ)
          → IsPlaced info m
          → (m == n) ≡ false
          → (place info m == place info n) ≡ false =
        λ m placed_m away. elim (Bool-cases (place info m == place info n)) [
          | inl meet ↦
              let same =
                place-injective info m n is.some_sectors is.some_bytes placed_m placed
                  (ground (arith, meet)) in
              absurd (ground arith)
          | inr other ↦ other
        ] in
      (
        λ m placed_m. elim (Bool-cases (m == n)) [
          | inl same ↦
              let here : n ≡ m = ground arith in
              subst (λ m. view info c' m ≡ view info c m) here
                (ap₂ view_of (put_at-same c.cache n none) (put_at-same c.device (place info n) new)
                  ∙ back
                  ∙ sym (ap (λ o. view_of o (c.device (place info n))) e))
          | inr away ↦
              ap₂ view_of (put_at-other c.cache n none m away)
                (put_at-other c.device (place info n) new (place info m) (apart m placed_m away))
        ],
        record {
          some_sectors = is.some_sectors;
          some_bytes = is.some_bytes;
          on_device = λ a. elim (Bool-cases (a == place info n)) [
            | inl same ↦
                let here : place info n ≡ a = ground arith in
                subst (λ a. length (c'.device a) ≡ cluster_size) here
                  (ap length (put_at-same c.device (place info n) new ∙ back) ∙ size)
            | inr away ↦
                ap length (put_at-other c.device (place info n) new a away) ∙ is.on_device a
          ];
          in_cache = λ m it h. elim (Bool-cases (m == n)) [
            | inl same ↦ let gone : c'.cache m ≡ none = rw same refl in absurd (cc (sym h ∙ gone))
            | inr away ↦
                let (placed', size', back') =
                  is.in_cache m it (sym (put_at-other c.cache n none m away) ∙ h) in
                (
                  placed',
                  size',
                  ap (λ d. written_back d it)
                        (put_at-other c.device (place info n) new (place info m)
                          (apart m placed' away))
                      ∙ back',
                )
          ];
        },
        λ m h. elim (Bool-cases (m == n)) [
          | inl same ↦ rw same refl
          | inr away ↦ put_at-other c.cache n none m away ∙ h
        ],
      )

  purge_cached_lem :
      (n : ℕ) (c : Clusters) (o : Option BlockCacheItem)
      → c.cache n ≡ o
      → IsCoherent info cluster_size c
      → Purges c (purge_cached info n c o)
  unfolding purge_cached
  purge_cached_lem n c none e is = (c, refl, λ m p. refl, is, λ m h. h)
  purge_cached_lem n c (some item) e is =
      let (same, is', gone) = given_up_lem n c item e is in
      (given_up n c item, purge_cached-run n c item (is.in_cache n item e).0, same, is', gone)

  -- Purging clusters succeeds and changes the bytes of none.
  pub purge_clusters_lem :
      (ns : List ℕ) (c : Clusters)
      → IsCoherent info cluster_size c
      → Purges c (purge_clusters info ns c)
  unfolding purge_clusters
  purge_clusters_lem [] c is = (c, refl, λ m p. refl, is, λ m h. h)
  purge_clusters_lem (n ∷ ns) c is =
      let (c₁, run, same, is₁, gone) = purge_cached_lem n c (c.cache n) refl is in
      let (c₂, run', same', is₂, gone') = purge_clusters_lem ns c₁ is₁ in
      (
        c₂,
        ap (λ r. r >>= purge_clusters info ns) run ∙ run',
        λ m p. same' m p ∙ same m p,
        is₂,
        λ m h. gone' m (gone m h),
      )

  -- A cluster that is fetched with its content.
  abbrev pub Fetches : Clusters → ℕ → Outcome (BlockCacheItem × Clusters) → Type 0
  Fetches c n r =
      (item : BlockCacheItem) × (c' : Clusters) × (r ≡ ok (item, c'))
      × (item.bytes ≡ view info c n)
      × SameView info c c'
      × IsCoherent info cluster_size c'

  fetch_item_lem :
      (fresh : List ℕ) (victims : ℕ → List ℕ) (c : Clusters) (n : ℕ) (o : Option BlockCacheItem)
      → c.cache n ≡ o
      → IsPlaced info n
      → IsCoherent info cluster_size c
      → Fetches c n (fetch_item info fresh victims cluster_size c n true o)
  fetch_item_lem fresh victims c n (some item) e placed is =
      (item, c, refl, sym (ap (λ o. view_of o (c.device (place info n))) e), λ m p. refl, is)
  fetch_item_lem fresh victims c n none e placed is =
      let (p, run, same, is₁, gone) = purge_clusters_lem (victims n) c is in
      let item = create_item (c.device (place info n)) in
      let c' : Clusters = record p { cache = put_at p.cache n (some item) } in
      let uncached : view info c n ≡ c.device (place info n) =
        ap (λ o. view_of o (c.device (place info n))) e in
      let stays : p.device (place info n) ≡ c.device (place info n) =
        sym (ap (λ o. view_of o (p.device (place info n))) (gone n e)) ∙ same n placed ∙ uncached in
      (
        item,
        c',
        ap (λ r. (r >>= λ a. ok (c.device a)) >>= cache_item info fresh victims cluster_size c n)
              (cluster_byte_addr_lem info n placed)
            ∙ ap
                (λ r. r >>= λ purged.
                  ok (item, record purged { cache = put_at purged.cache n (some item) }))
                run,
        sym uncached,
        λ m placed_m. elim (Bool-cases (m == n)) [
          | inl here ↦
              let e' : n ≡ m = ground arith in
              subst (λ m. view info c' m ≡ view info c m) e'
                (ap (λ o. view_of o (p.device (place info n))) (put_at-same p.cache n (some item))
                  ∙ sym uncached)
          | inr away ↦
              ap (λ o. view_of o (p.device (place info m)))
                (put_at-other p.cache n (some item) m away)
              ∙ same m placed_m
        ],
        record {
          some_sectors = is.some_sectors;
          some_bytes = is.some_bytes;
          on_device = is₁.on_device;
          in_cache = λ m it h. elim (Bool-cases (m == n)) [
            | inl here ↦
                let e' : n ≡ m = ground arith in
                let itself : item ≡ it = some_injective item it (
                  sym (put_at-same p.cache n (some item))
                  ∙ ap (put_at p.cache n (some item)) e'
                  ∙ h) in
                subst
                  (λ it.
                    IsPlaced info m
                    × (length it.bytes ≡ cluster_size)
                    × (written_back (p.device (place info m)) it ≡ it.bytes))
                  itself
                  (
                    subst (IsPlaced info) e' placed,
                    is.on_device (place info n),
                    subst (λ m. p.device (place info m) ≡ c.device (place info n)) e' stays,
                  )
            | inr away ↦ is₁.in_cache m it (sym (put_at-other p.cache n (some item) m away) ∙ h)
          ];
        },
      )

  pub fetch_cluster_lem :
      (fresh : List ℕ) (victims : ℕ → List ℕ) (c : Clusters) (n : ℕ)
      → IsPlaced info n
      → IsCoherent info cluster_size c
      → Fetches c n (fetch_cluster info fresh victims cluster_size c n true)
  unfolding fetch_cluster
  fetch_cluster_lem fresh victims c n placed is =
      fetch_item_lem fresh victims c n (c.cache n) refl placed is
