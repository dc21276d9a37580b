-- ===== src/Filesystem/Fat/Links.antt =====
-- The links between the clusters, and what taking a cluster for a chain keeps.
use bek_os.Common.{
  ℕ, zero, suc, ◌+◌, max, ◌≤◌, ◌<◌, ◌≡◌, refl, sym, ap, ◌∙◌, subst, ◌⊎◌, inl, inr, Bool, true,
  false, arith,
}
use bek_os.Common.Tests.{◌==◌, leb, if◌then◌else◌, Bool-cases}
use bek_os.Filesystem.Fat.{
  ClusterType, next_pointer, end_of_chain, free_cluster, corrupt, reserved, cluster_eoc,
  get_cluster_type, is_next_pointer, is_free, is_fat16, FatInfo, get_fat_entry_count,
  FileAllocationTable,
}
use bek_os.Filesystem.Fat.Sector.{IsValid, normal, link}
use bek_os.Filesystem.Fat.Chain.{free_at, Takes}

abbrev pub points : FileAllocationTable → ℕ → Bool
points t c = is_next_pointer (get_cluster_type (link t c))

-- The clusters that have numbers of their own in the entries.
abbrev pub limit : FatInfo → ℕ
limit info = if is_fat16 info.fat_type then 65527 else 268435440

-- Entries that point, point to clusters of the table that are not free.
pub record IsTable (t : FileAllocationTable) : Type 0 where
  pub valid : IsValid t.info
  pub few : get_fat_entry_count t.info ≤ limit t.info
  pub hint : max 2 t.free_cluster_hint < get_fat_entry_count t.info
  pub inside :
      (c : ℕ)
      → c < get_fat_entry_count t.info
      → points t c ≡ true
      → link t c < get_fat_entry_count t.info
  pub used :
      (c : ℕ) → c < get_fat_entry_count t.info → points t c ≡ true → free_at t (link t c) ≡ false

-- So many links follow each other.
abbrev pub HasChain : FileAllocationTable → ℕ → ℕ → Type 0
HasChain t c zero = Unit
HasChain t c (suc n) = (points t c ≡ true) × HasChain t (link t c) n

-- No link is lost.
abbrev pub Keeps : FileAllocationTable → FileAllocationTable → Type 0
Keeps t t' = (c : ℕ) → c < get_fat_entry_count t.info → points t c ≡ true → link t' c ≡ link t c

normal_lem : (info : FatInfo) (c : ℕ) → c < limit info → normal info c ≡ c
normal_lem info c h = elim (Bool-cases (is_fat16 info.fat_type)) [
  | inl narrow ↦
      let small : c < 65527 = subst (λ b. c < (if b then 65527 else 268435440)) narrow h in
      rw narrow (ground arith)
  | inr wide ↦
      let small : c < 268435440 = subst (λ b. c < (if b then 65527 else 268435440)) wide h in
      rw wide (omega arith)
]

pub limit_lem : (info : FatInfo) → limit info ≤ 268435440
limit_lem info = elim (Bool-cases (is_fat16 info.fat_type)) [
  | inl narrow ↦ rw narrow (omega arith)
  | inr wide ↦ rw wide (omega arith)
]

-- The kinds of an entry, by its value.
pub kind-pointer :
    (n : ℕ)
    → 2 ≤ n
    → n < 268435440
    → (is_next_pointer (get_cluster_type n) ≡ true) × (is_free (get_cluster_type n) ≡ false)
unfolding get_cluster_type
kind-pointer n h b = (ground arith, ground arith)

kind-cluster_eoc :
    (is_next_pointer (get_cluster_type cluster_eoc) ≡ false)
    × (is_free (get_cluster_type cluster_eoc) ≡ false)
unfolding get_cluster_type
kind-cluster_eoc = (refl, refl)

pub kind_above : (n : ℕ) → is_next_pointer (get_cluster_type n) ≡ true → 0 < n
unfolding get_cluster_type
kind_above n h = ground arith

pointer-not_free : (k : ClusterType) → is_next_pointer k ≡ true → is_free k ≡ false
pointer-not_free next_pointer h = refl
pointer-not_free end_of_chain h = refl
pointer-not_free free_cluster h = absurd (cc h)
pointer-not_free corrupt h = refl
pointer-not_free reserved h = refl

module _ (t t' : FileAllocationTable) (current c : ℕ) (ok_table : IsTable t)
    (h : Takes current c t t') (c_inside : c < get_fat_entry_count t.info) (c_above : 2 ≤ c)
    (current_used : free_at t current ≡ false) where
  same_count : get_fat_entry_count t'.info ≡ get_fat_entry_count t.info
  same_count = ap get_fat_entry_count h.same_info

  c_small : c < 268435440
  c_small = let few = ok_table.few in let low = limit_lem t.info in omega arith

  pub linked : link t' current ≡ c
  linked = let few = ok_table.few in h.linked ∙ normal_lem t.info c (omega arith)

  -- An entry of the new table is the one that now ends the chain, the one that points to it, or as before.
  entry-cases : (d : ℕ) → (link t' d ≡ cluster_eoc) ⊎ (link t' d ≡ c) ⊎ (link t' d ≡ link t d)
  entry-cases d = elim (Bool-cases (d == c)) [
    | inl same ↦ let e : d ≡ c = ground arith in inl (ap (link t') e ∙ h.ends)
    | inr away ↦ elim (Bool-cases (d == current)) [
      | inl same ↦ let e : d ≡ current = ground arith in inr (inl (ap (link t') e ∙ linked))
      | inr far ↦ inr (inr (h.others d (ground arith) (ground arith)))
    ]
  ]

  still_used : (e : ℕ) → free_at t e ≡ false → free_at t' e ≡ false
  still_used e used = elim (entry-cases e) [
    | inl ends ↦ ap (λ n. is_free (get_cluster_type n)) ends ∙ kind-cluster_eoc.1
    | inr (inl points) ↦
        ap (λ n. is_free (get_cluster_type n)) points ∙ (kind-pointer c c_above c_small).1
    | inr (inr same) ↦ ap (λ n. is_free (get_cluster_type n)) same ∙ used
  ]

  pub c-used : free_at t' c ≡ false
  c-used = ap (λ n. is_free (get_cluster_type n)) h.ends ∙ kind-cluster_eoc.1

  takes-inside :
      (d : ℕ)
      → d < get_fat_entry_count t.info
      → points t' d ≡ true
      → (link t' d < get_fat_entry_count t.info) × (free_at t' (link t' d) ≡ false)
  takes-inside d b p = elim (entry-cases d) [
    | inl ends ↦
        absurd
          (cc (sym p ∙ ap (λ n. is_next_pointer (get_cluster_type n)) ends ∙ kind-cluster_eoc.0))
    | inr (inl to_c) ↦ (
      subst (λ n. n < get_fat_entry_count t.info) (sym to_c) c_inside,
      ap (free_at t') to_c ∙ c-used,
    )
    | inr (inr same) ↦
        let pointed : points t d ≡ true =
          ap (λ n. is_next_pointer (get_cluster_type n)) (sym same) ∙ p in
        (
          subst (λ n. n < get_fat_entry_count t.info) (sym same) (ok_table.inside d b pointed),
          ap (free_at t') same ∙ still_used (link t d) (ok_table.used d b pointed),
        )
  ]

  pub takes-IsTable : IsTable t'
  takes-IsTable = record {
    valid = subst IsValid (sym h.same_info) ok_table.valid;
    few = subst (λ i. get_fat_entry_count i ≤ limit i) (sym h.same_info) ok_table.few;
    hint =
        let first = h.hint in
        let old = ok_table.hint in
        subst (λ n. max 2 t'.free_cluster_hint < n) (sym same_count)
          (subst (λ k. max 2 k < get_fat_entry_count t.info) (sym first)
            (new_hint (get_fat_entry_count t.info) c t.free_cluster_hint old c_inside));
    inside = λ d b p.
        subst (λ n. link t' d < n) (sym same_count)
          (takes-inside d (subst (λ n. d < n) same_count b) p).0;
    used = λ d b p. (takes-inside d (subst (λ n. d < n) same_count b) p).1;
  }
    where
      new_hint : (n c k : ℕ) → max 2 k < n → c < n → max 2 (if leb n (c + 1) then 2 else c + 1) < n
      new_hint n c k a b = ground arith

  pub takes-Keeps : points t current ≡ false → Keeps t t'
  takes-Keeps at_end d b p =
      h.others d
        (λ e. cc (
          sym (pointer-not_free (get_cluster_type (link t d)) p)
          ∙ ap (free_at t) (sym e)
          ∙ h.was_free))
        (λ e. cc (sym p ∙ ap (points t) (sym e) ∙ at_end))
