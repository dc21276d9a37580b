-- ===== src/Filesystem/Fat/Chain.antt =====
-- allocateNextCluster, by the entries of the table.
use bek_os.Common.{
  ℕ, zero, suc, ◌+◌, ◌-◌, max, ◌≤◌, ◌<◌, ◌≡◌, ◌≢◌, refl, sym, ap, ◌∙◌, subst, ◌⊎◌, inl, inr, Bool,
  true, false, arith,
}
use bek_os.Common.Tests.{◌==◌, leb, if◌then◌else◌, Bool-cases}
use bek_os.Common.Outcome.{Outcome, ok, ◌>>=◌}
use bek_os.Filesystem.Fat.{
  cluster_eoc, get_cluster_type, is_free, is_fat16, FatInfo, get_fat_entry_count,
  FileAllocationTable, get_next_cluster, set_cluster, set_hint, take_cluster, try_candidates,
  allocate_next_cluster,
}
use bek_os.Filesystem.Fat.Sector.{
  IsValid, normal, link, get_next_cluster_lem, set_cluster_lem, fetch_first,
}

abbrev pub free_at : FileAllocationTable → ℕ → Bool
free_at t c = is_free (get_cluster_type (link t c))

-- The cluster `c` is taken for the chain that `current` ends.
pub record Takes (current c : ℕ) (t t' : FileAllocationTable) : Type 0 where
  pub was_free : free_at t c ≡ true
  pub same_info : t'.info ≡ t.info
  pub hint : t'.free_cluster_hint ≡ (if leb (get_fat_entry_count t.info) (c + 1) then 2 else c + 1)
  pub ends : link t' c ≡ cluster_eoc
  pub linked : link t' current ≡ normal t.info c
  pub others : (d : ℕ) → c ≢ d → current ≢ d → link t' d ≡ link t d

normal-cluster_eoc : (info : FatInfo) → normal info cluster_eoc ≡ cluster_eoc
normal-cluster_eoc info = elim (Bool-cases (is_fat16 info.fat_type)) [
  | inl narrow ↦ rw narrow refl
  | inr wide ↦ rw wide refl
]

take_cluster_lem :
    (t : FileAllocationTable) (current c : ℕ)
    → IsValid t.info
    → current < get_fat_entry_count t.info
    → c < get_fat_entry_count t.info
    → free_at t current ≡ false
    → free_at t c ≡ true
    → (t' : FileAllocationTable) × (take_cluster t current c ≡ ok (c, t')) × Takes current c t t'
take_cluster_lem t current c v below below' used free =
    let away : c ≢ current = λ e. cc (sym used ∙ ap (free_at t) (sym e) ∙ free) in
    let (t₁, run₁, info₁, hint₁, here₁, others₁) = set_cluster_lem t c cluster_eoc v below' in
    let t₂ = set_hint t₁ c in
    let v₂ : IsValid t₂.info = subst IsValid (sym info₁) v in
    let small : current < get_fat_entry_count t₂.info =
      subst (λ i. current < get_fat_entry_count i) (sym info₁) below in
    let (t₃, run₃, info₃, hint₃, here₃, others₃) = set_cluster_lem t₂ current c v₂ small in
    (
      t₃,
      ap (λ r. r >>= λ t₁. set_cluster (set_hint t₁ c) current c >>= λ t₂. ok (c, t₂)) run₁
          ∙ ap (λ r. r >>= λ t₂. ok (c, t₂)) run₃,
      record {
        was_free = free;
        same_info = info₃ ∙ info₁;
        hint = hint₃ ∙ ap (λ i. if leb (get_fat_entry_count i) (c + 1) then 2 else c + 1) info₁;
        ends = others₃ c (λ e. away (sym e)) ∙ here₁ ∙ normal-cluster_eoc t.info;
        linked = here₃ ∙ ap (λ i. normal i c) info₁;
        others = λ d f g. others₃ d g ∙ others₁ d f;
      },
    )

-- What the search over the candidates from `first` to the end gives.
abbrev pub Allocates : FileAllocationTable → ℕ → ℕ → Outcome (ℕ × FileAllocationTable) → Type 0
Allocates t current first r =
    ((r ≡ ok (0, t)) × ((c : ℕ) → first ≤ c → c < get_fat_entry_count t.info → free_at t c ≡ false))
    ⊎ ((c : ℕ) × (t' : FileAllocationTable) × (r ≡ ok (c, t'))
        × (first ≤ c)
        × (c < get_fat_entry_count t.info)
        × ((d : ℕ) → first ≤ d → d < c → free_at t d ≡ false)
        × Takes current c t t')

try_candidates-step :
    (t : FileAllocationTable) (current left c next : ℕ) (b : Bool)
    → get_next_cluster t c ≡ ok next
    → is_free (get_cluster_type next) ≡ b
    → try_candidates t current (suc left) c
      ≡ elim b [ true ↦ take_cluster t current c | false ↦ try_candidates t current left (c + 1) ]
unfolding try_candidates
try_candidates-step t current left c next b run free =
    let answer : Bool → Outcome (ℕ × FileAllocationTable) = λ b. elim b [
      | true ↦ take_cluster t current c
      | false ↦ try_candidates t current left (c + 1)
    ] in
    ap (λ r. r >>= λ next. answer (is_free (get_cluster_type next))) run ∙ ap answer free

try_candidates_lem :
    (t : FileAllocationTable) (current left first : ℕ)
    → IsValid t.info
    → current < get_fat_entry_count t.info
    → free_at t current ≡ false
    → first + left ≡ get_fat_entry_count t.info
    → Allocates t current first (try_candidates t current left first)
unfolding try_candidates
try_candidates_lem t current zero first v below used e =
    inl (refl, λ c low high. absurd (omega arith))
try_candidates_lem t current (suc left) first v below used e =
    let found = get_next_cluster_lem t first v (omega arith) in
    elim (Bool-cases (free_at t first)) [
      | inl free ↦
          let (t', run, takes) = take_cluster_lem t current first v below (omega arith) used free in
          inr (
            first,
            t',
            try_candidates-step t current left first (link t first) true found free ∙ run,
            omega arith,
            omega arith,
            λ d low high. absurd (omega arith),
            takes,
          )
      | inr busy ↦
          subst (Allocates t current first)
            (sym (try_candidates-step t current left first (link t first) false found busy))
            (elim (try_candidates_lem t current left (first + 1) v below used (omega arith)) [
              | inl (run, none_free) ↦
                  inl (run, λ c low high. at_first t first c low busy (λ h. none_free c h high))
              | inr (c, t', run, low, high, none_free, takes) ↦ inr (
                c,
                t',
                run,
                omega arith,
                high,
                λ d low' high'. at_first t first d low' busy (λ h. none_free d h high'),
                takes,
              )
            ])
    ]
  where
    at_first :
        (t : FileAllocationTable) (first c : ℕ)
        → first ≤ c
        → free_at t first ≡ false
        → (first + 1 ≤ c → free_at t c ≡ false)
        → free_at t c ≡ false
    at_first t first c low busy later = elim (Bool-cases (c == first)) [
      | inl same ↦ let e : c ≡ first = ground arith in ap (free_at t) e ∙ busy
      | inr away ↦ later (ground arith)
    ]

-- allocateNextCluster on a valid table, with a hint in it and a cluster that is not free, gives the
-- first free cluster from the hint on: its entry ends the chain, the entry of the cluster given
-- points to it, the hint is the cluster behind it or the first, and no other entry changes. It
-- gives 0 and changes nothing where no cluster from the hint on is free.
pub allocate_next_cluster_lem :
    (t : FileAllocationTable) (current : ℕ)
    → IsValid t.info
    → current < get_fat_entry_count t.info
    → free_at t current ≡ false
    → max 2 t.free_cluster_hint < get_fat_entry_count t.info
    → Allocates t current (max 2 t.free_cluster_hint) (allocate_next_cluster t current)
unfolding allocate_next_cluster
allocate_next_cluster_lem t current v below used h =
    let first = max 2 t.free_cluster_hint in
    subst (Allocates t current first)
      (sym (
        fetch_first t first
          (λ s. try_candidates t current (get_fat_entry_count t.info - first) first) v h))
      (try_candidates_lem t current (get_fat_entry_count t.info - first) first v below used
        (omega arith))
