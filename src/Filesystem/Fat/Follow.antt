-- ===== src/Filesystem/Fat/Follow.antt =====
-- The cluster behind one of a chain, which is taken for it where the chain ends.
use bek_os.Common.{
  ℕ, max, ◌≤◌, ◌<◌, ◌≡◌, refl, sym, ap, ◌∙◌, subst, ◌⊎◌, inl, inr, Bool, true, false, arith,
}
use bek_os.Common.Tests.{Bool-cases}
use bek_os.Common.Outcome.{Outcome, ok, ◌>>=◌}
use bek_os.Filesystem.Fat.{
  get_cluster_type, is_next_pointer, get_fat_entry_count, FileAllocationTable, get_next_cluster,
  allocate_next_cluster, follow,
}
use bek_os.Filesystem.Fat.Sector.{link, get_next_cluster_lem}
use bek_os.Filesystem.Fat.Chain.{free_at, allocate_next_cluster_lem}
use bek_os.Filesystem.Fat.Links.{
  points, IsTable, Keeps, limit_lem, kind-pointer, kind_above, takes-IsTable, takes-Keeps, linked,
  c-used,
}

abbrev pub NoneFree : FileAllocationTable → Type 0
NoneFree t =
    (c : ℕ) → max 2 t.free_cluster_hint ≤ c → c < get_fat_entry_count t.info → free_at t c ≡ false

-- What stands behind a cluster after `follow`.
pub record Followed (t : FileAllocationTable) (last c : ℕ) (t' : FileAllocationTable) : Type 0 where
  pub is_table : IsTable t'
  pub same_info : t'.info ≡ t.info
  pub keeps : Keeps t t'
  pub pointing : points t' last ≡ true
  pub behind : link t' last ≡ c
  pub inside : c < get_fat_entry_count t.info
  pub above : 0 < c
  pub used : free_at t' c ≡ false

abbrev pub Follows : FileAllocationTable → ℕ → Outcome (ℕ × FileAllocationTable) → Type 0
Follows t last r =
    ((r ≡ ok (0, t)) × NoneFree t)
    ⊎ ((c : ℕ) × (t' : FileAllocationTable) × (r ≡ ok (c, t')) × Followed t last c t')

follow-step :
    (t : FileAllocationTable) (last next : ℕ) (b : Bool)
    → get_next_cluster t last ≡ ok next
    → is_next_pointer (get_cluster_type next) ≡ b
    → follow t last ≡ elim b [ true ↦ ok (next, t) | false ↦ allocate_next_cluster t last ]
follow-step t last next b run kind =
    let answer : Bool → Outcome (ℕ × FileAllocationTable) =
      λ b. elim b [ true ↦ ok (next, t) | false ↦ allocate_next_cluster t last ] in
    ap
      (λ r. r >>= λ n. elim (is_next_pointer (get_cluster_type n)) [
        | true ↦ ok (n, t)
        | false ↦ allocate_next_cluster t last
      ])
      run
    ∙ ap answer kind

pub follow_lem :
    (t : FileAllocationTable) (last : ℕ)
    → IsTable t
    → last < get_fat_entry_count t.info
    → free_at t last ≡ false
    → Follows t last (follow t last)
follow_lem t last is b used =
    let found = get_next_cluster_lem t last is.valid b in
    elim (Bool-cases (points t last)) [
      | inl yes_points ↦ inr (
        link t last,
        t,
        follow-step t last (link t last) true found yes_points,
        record {
          is_table = is;
          same_info = refl;
          keeps = λ c b p. refl;
          pointing = yes_points;
          behind = refl;
          inside = is.inside last b yes_points;
          above = kind_above (link t last) yes_points;
          used = is.used last b yes_points;
        },
      )
      | inr at_end ↦
          subst (Follows t last) (sym (follow-step t last (link t last) false found at_end))
            (elim (allocate_next_cluster_lem t last is.valid b used is.hint) [
              | inl nothing ↦ inl nothing
              | inr (c, t', run, low, high, first, takes) ↦
                  let to_c = linked t t' last c is takes high (omega arith) used in
                  let few = is.few in
                  let small = limit_lem t.info in
                  let kind = (kind-pointer c (omega arith) (omega arith)).0 in
                  inr (
                    c,
                    t',
                    run,
                    record {
                      is_table = takes-IsTable t t' last c is takes high (omega arith) used;
                      same_info = takes.same_info;
                      keeps = takes-Keeps t t' last c is takes high (omega arith) used at_end;
                      pointing = ap (λ n. is_next_pointer (get_cluster_type n)) to_c ∙ kind;
                      behind = to_c;
                      inside = high;
                      above = omega arith;
                      used = c-used t t' last c is takes high (omega arith) used;
                    },
                  )
            ])
    ]
