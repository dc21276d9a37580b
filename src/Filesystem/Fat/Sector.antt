-- ===== src/Filesystem/Fat/Sector.antt =====
-- The entries of the table: where they stand, and what a write does to them.
use bek_os.Common.{
  ℕ, ◌+◌, ◌*◌, ◌/◌, ◌%◌, ◌^◌, ◌≤◌, ◌<◌, ◌≡◌, ◌≢◌, refl, ap, ◌∙◌, subst, ◌⊎◌, inl, inr, true, false,
  arith,
}
use bek_os.Common.Tests.{◌==◌, ltb, leb, if◌then◌else◌, Bool-cases, word32}
use bek_os.Common.Outcome.{Outcome, ok, ◌>>=◌}
use bek_os.Filesystem.Fat.{
  FatInfo, is_fat16, entry_size, Sector, fat_sector_index_and_offset_for, get_u16, get_u32, put_u16,
  put_u32, widen, extract_fat_value, set_fat_value, get_fat_entry_count, FileAllocationTable,
  fetch_fat_sector, put_sector, get_next_cluster, set_cluster,
}
use bek_os.Filesystem.Fat.Places.{
  place_lem, apart_lem, get_u16-put_u16, get_u16-put_u16_apart, get_u32-put_u32,
  get_u32-put_u32_apart,
}

-- Sectors of whole entries, in a table that 32 bits count the bytes of.
pub record IsValid (info : FatInfo) : Type 0 where
  pub some_size : 0 < info.sector_size
  pub whole : info.sector_size % 4 ≡ 0
  pub small : info.fat_sectors * info.sector_size < 2 ^ 32

-- What stands in the table after a value is written, as it is read.
abbrev pub normal : FatInfo → ℕ → ℕ
normal info v = if is_fat16 info.fat_type then widen (v % 65536) else v % 2 ^ 28

abbrev read : FatInfo → Sector → ℕ → ℕ
read info s i = if is_fat16 info.fat_type then widen (get_u16 s i) else get_u32 s i % 2 ^ 28

-- The entry of a cluster.
abbrev pub link : FileAllocationTable → ℕ → ℕ
link t c =
    read t.info (t.sectors (c * entry_size t.info / t.info.sector_size))
      (c * entry_size t.info % t.info.sector_size)

fetch_from :
    {B : Type 0} (t : FileAllocationTable) (p : ℕ × ℕ) {i o : ℕ} (k : Sector → ℕ → Outcome B)
    → p ≡ (i, o)
    → (fetch_fat_sector t p.0 >>= λ s. k s p.1) ≡ (fetch_fat_sector t i >>= λ s. k s o)
fetch_from t p k e = ap (λ p. fetch_fat_sector t p.0 >>= λ s. k s p.1) e

fetch_fat_sector_lem :
    {B : Type 0} (t : FileAllocationTable) (i : ℕ) (k : Sector → Outcome B)
    → i < t.info.fat_sectors
    → (fetch_fat_sector t i >>= k) ≡ k (t.sectors i)
fetch_fat_sector_lem t i k h =
    let there : ltb i t.info.fat_sectors ≡ true = ground arith in rw there refl

extract_fat_value_lem :
    (info : FatInfo) (i : ℕ) (s : Sector)
    → i + entry_size info ≤ info.sector_size
    → extract_fat_value info i s ≡ ok (read info s i)
unfolding extract_fat_value
extract_fat_value_lem info i s h = elim (Bool-cases (is_fat16 info.fat_type)) [
  | inl narrow ↦
      let size : entry_size info ≡ 2 = rw narrow refl in
      let fits : leb (i + 2) info.sector_size ≡ true = ground arith in
      rw (narrow, extract_fat_value) (rw fits refl)
  | inr wide ↦
      let size : entry_size info ≡ 4 = rw wide refl in
      let fits : leb (i + 4) info.sector_size ≡ true = ground arith in
      rw (wide, extract_fat_value) (rw fits refl)
]

-- What a write of a value to a sector gives.
abbrev Puts : FatInfo → ℕ → Sector → ℕ → Outcome Sector → Type 0
Puts info i s v r =
    (s' : Sector) × (r ≡ ok s')
    × (read info s' i ≡ normal info v)
    × ((j : ℕ)
        → (i + entry_size info ≤ j) ⊎ (j + entry_size info ≤ i)
        → read info s' j ≡ read info s j)

set_fat_value-narrow :
    (info : FatInfo) (i : ℕ) (s : Sector) (v : ℕ)
    → is_fat16 info.fat_type ≡ true
    → i + 2 ≤ info.sector_size
    → set_fat_value info i s v ≡ ok (put_u16 s i v)
unfolding set_fat_value
set_fat_value-narrow info i s v e h =
    let fits : leb (i + 2) info.sector_size ≡ true = ground arith in
    rw (e, set_fat_value) (rw fits refl)

set_fat_value-wide :
    (info : FatInfo) (i : ℕ) (s : Sector) (v : ℕ)
    → is_fat16 info.fat_type ≡ false
    → i + 4 ≤ info.sector_size
    → set_fat_value info i s v ≡ ok (put_u32 s i (get_u32 s i / 2 ^ 28 * 2 ^ 28 + v % 2 ^ 28))
unfolding set_fat_value
set_fat_value-wide info i s v e h =
    let fits : leb (i + 4) info.sector_size ≡ true = ground arith in
    rw (e, set_fat_value) (rw fits refl)

set_fat_value_lem :
    (info : FatInfo) (i : ℕ) (s : Sector) (v : ℕ)
    → i + entry_size info ≤ info.sector_size
    → Puts info i s v (set_fat_value info i s v)
set_fat_value_lem info i s v h = elim (Bool-cases (is_fat16 info.fat_type)) [
  | inl narrow ↦
      let size : entry_size info ≡ 2 = rw narrow refl in
      let fits : leb (i + 2) info.sector_size ≡ true = ground arith in
      rw narrow (
        put_u16 s i v,
        set_fat_value-narrow info i s v narrow (omega arith),
        ap widen (get_u16-put_u16 s i v),
        λ j apart. ap widen (get_u16-put_u16_apart s i j v apart),
      )
  | inr wide ↦
      let size : entry_size info ≡ 4 = rw wide refl in
      let fits : leb (i + 4) info.sector_size ≡ true = ground arith in
      let new = get_u32 s i / 2 ^ 28 * 2 ^ 28 + v % 2 ^ 28 in
      rw wide (
        put_u32 s i new,
        set_fat_value-wide info i s v wide (omega arith),
        ap (λ x. x % 2 ^ 28) (get_u32-put_u32 s i new) ∙ low_part (get_u32 s i) v,
        λ j apart. ap (λ x. x % 2 ^ 28) (get_u32-put_u32_apart s i j new apart),
      )
]
  where
    low_part : (old v : ℕ) → (old / 2 ^ 28 * 2 ^ 28 + v % 2 ^ 28) % 2 ^ 32 % 2 ^ 28 ≡ v % 2 ^ 28
    low_part old v = omega arith

-- Where the entry of a cluster stands.
cluster_place :
    (info : FatInfo) (c : ℕ)
    → IsValid info
    → c < get_fat_entry_count info
    → (fat_sector_index_and_offset_for info c
        ≡ (c * entry_size info / info.sector_size, c * entry_size info % info.sector_size))
      × (c * entry_size info / info.sector_size < info.fat_sectors)
      × (c * entry_size info % info.sector_size + entry_size info ≤ info.sector_size)
unfolding fat_sector_index_and_offset_for
cluster_place info c v h = elim (Bool-cases (is_fat16 info.fat_type)) [
  | inl narrow ↦
      let size : entry_size info ≡ 2 = rw narrow refl in
      let below : c < info.fat_sectors * info.sector_size % word32 / 2 =
        subst (λ w. c < info.fat_sectors * info.sector_size % word32 / w) size h in
      let small = v.small in
      let (index, inside, whole, two, four) =
        place_lem (c * 2) info.sector_size info.fat_sectors v.some_size v.whole (omega arith) in
      let same : c * 2 % word32 ≡ c * 2 = omega arith in
      rw size
        (ap (λ x. (x / info.sector_size, x % info.sector_size)) same, index, two (omega arith))
  | inr wide ↦
      let size : entry_size info ≡ 4 = rw wide refl in
      let below : c < info.fat_sectors * info.sector_size % word32 / 4 =
        subst (λ w. c < info.fat_sectors * info.sector_size % word32 / w) size h in
      let small = v.small in
      let (index, inside, whole, two, four) =
        place_lem (c * 4) info.sector_size info.fat_sectors v.some_size v.whole (omega arith) in
      let same : c * 4 % word32 ≡ c * 4 = omega arith in
      rw size
        (ap (λ x. (x / info.sector_size, x % info.sector_size)) same, index, four (omega arith))
]

cluster_apart :
    (info : FatInfo) (c d : ℕ)
    → c ≢ d
    → c * entry_size info / info.sector_size ≡ d * entry_size info / info.sector_size
    → (c * entry_size info % info.sector_size + entry_size info
        ≤ d * entry_size info % info.sector_size)
      ⊎ (d * entry_size info % info.sector_size + entry_size info
          ≤ c * entry_size info % info.sector_size)
cluster_apart info c d h same = elim (Bool-cases (is_fat16 info.fat_type)) [
  | inl narrow ↦
      let size : entry_size info ≡ 2 = rw narrow refl in
      let e : c * 2 / info.sector_size ≡ d * 2 / info.sector_size =
        subst (λ w. c * w / info.sector_size ≡ d * w / info.sector_size) size same in
      let away : c * 2 ≢ d * 2 = λ f. h (omega arith) in
      let (two, four) = apart_lem (c * 2) (d * 2) info.sector_size away e in
      rw size (two (omega arith) (omega arith))
  | inr wide ↦
      let size : entry_size info ≡ 4 = rw wide refl in
      let e : c * 4 / info.sector_size ≡ d * 4 / info.sector_size =
        subst (λ w. c * w / info.sector_size ≡ d * w / info.sector_size) size same in
      let away : c * 4 ≢ d * 4 = λ f. h (omega arith) in
      let (two, four) = apart_lem (c * 4) (d * 4) info.sector_size away e in
      rw size (four (omega arith) (omega arith))
]

pub get_next_cluster_lem :
    (t : FileAllocationTable) (c : ℕ)
    → IsValid t.info
    → c < get_fat_entry_count t.info
    → get_next_cluster t c ≡ ok (link t c)
unfolding get_next_cluster
get_next_cluster_lem t c v h =
    let (place, index, fits) = cluster_place t.info c v h in
    let there : ltb (c * entry_size t.info / t.info.sector_size) t.info.fat_sectors ≡ true =
      ground arith in
    let sector = t.sectors (c * entry_size t.info / t.info.sector_size) in
    let offset = c * entry_size t.info % t.info.sector_size in
    fetch_from t (fat_sector_index_and_offset_for t.info c) (λ s o. extract_fat_value t.info o s)
      place
    ∙ fetch_fat_sector_lem t (c * entry_size t.info / t.info.sector_size)
        (λ s. extract_fat_value t.info offset s) index
    ∙ extract_fat_value_lem t.info offset sector fits

-- The entry of a cluster after a write to another cluster's.
other_link :
    (t : FileAllocationTable) (c d v : ℕ) (s' : Sector)
    → c ≢ d
    → ((j : ℕ)
        → (c * entry_size t.info % t.info.sector_size + entry_size t.info ≤ j)
          ⊎ (j + entry_size t.info ≤ c * entry_size t.info % t.info.sector_size)
        → read t.info s' j ≡ read t.info (t.sectors (c * entry_size t.info / t.info.sector_size)) j)
    → link (put_sector t (c * entry_size t.info / t.info.sector_size) s') d ≡ link t d
other_link t c d v s' h others =
    elim (Bool-cases
      (d * entry_size t.info / t.info.sector_size == c * entry_size t.info / t.info.sector_size)) [
        | inl same ↦
            let e : c * entry_size t.info / t.info.sector_size
                ≡ d * entry_size t.info / t.info.sector_size =
              ground arith in
            rw same (
              others (d * entry_size t.info % t.info.sector_size) (cluster_apart t.info c d h e)
              ∙ ap (λ i. read t.info (t.sectors i) (d * entry_size t.info % t.info.sector_size)) e)
        | inr away ↦ rw away refl
      ]

-- A write to the entry of a cluster of the table changes that entry, and no other.
abbrev pub SetsCluster : FileAllocationTable → ℕ → ℕ → Outcome FileAllocationTable → Type 0
SetsCluster t c v r =
    (t' : FileAllocationTable) × (r ≡ ok t')
    × (t'.info ≡ t.info)
    × (t'.free_cluster_hint ≡ t.free_cluster_hint)
    × (link t' c ≡ normal t.info v)
    × ((d : ℕ) → c ≢ d → link t' d ≡ link t d)

pub set_cluster_lem :
    (t : FileAllocationTable) (c v : ℕ)
    → IsValid t.info
    → c < get_fat_entry_count t.info
    → SetsCluster t c v (set_cluster t c v)
unfolding set_cluster
set_cluster_lem t c v valid h =
    let (place, index, fits) = cluster_place t.info c valid h in
    let i = c * entry_size t.info / t.info.sector_size in
    let o = c * entry_size t.info % t.info.sector_size in
    let (s', run, here, others) = set_fat_value_lem t.info o (t.sectors i) v fits in
    let itself : i == i ≡ true = ground arith in
    (
      put_sector t i s',
      ap
            (λ p. fetch_fat_sector t p.0 >>= λ s.
              set_fat_value t.info p.1 s v >>= λ s'. ok (put_sector t p.0 s'))
            place
          ∙ fetch_fat_sector_lem t i
              (λ s. set_fat_value t.info o s v >>= λ s'. ok (put_sector t i s')) index
          ∙ ap (λ r. r >>= λ s'. ok (put_sector t i s')) run,
      refl,
      refl,
      rw itself here,
      λ d away. other_link t c d v s' away others,
    )

-- The sector of a cluster of the table is there.
pub fetch_first :
    {B : Type 0} (t : FileAllocationTable) (c : ℕ) (k : Sector → Outcome B)
    → IsValid t.info
    → c < get_fat_entry_count t.info
    → (fetch_fat_sector t (fat_sector_index_and_offset_for t.info c).0 >>= k)
      ≡ k (t.sectors (c * entry_size t.info / t.info.sector_size))
fetch_first t c k valid h =
    let (place, index, fits) = cluster_place t.info c valid h in
    ap (λ p. fetch_fat_sector t p.0 >>= k) place
    ∙ fetch_fat_sector_lem t (c * entry_size t.info / t.info.sector_size) k index
