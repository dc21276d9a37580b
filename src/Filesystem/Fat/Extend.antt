-- ===== src/Filesystem/Fat/Extend.antt =====
-- extendFile: the chain that it makes, and what it keeps.
use bek_os.Common.{
  ℕ, zero, suc, ◌+◌, ◌*◌, ◌%◌, ◌^◌, ◌≤◌, ◌<◌, ◌≡◌, refl, sym, ap, ◌∙◌, subst, inl, inr, Bool, true,
  false, dec_lt, arith,
}
use bek_os.Common.Tests.{◌==◌, ltb, add64, word32}
use bek_os.Common.Outcome.{Outcome, ok, ◌>>=◌}
use bek_os.Filesystem.Fat.{
  get_cluster_type, is_next_pointer, get_fat_entry_count, FileAllocationTable, follow, extend_loop,
  extend_file,
}
use bek_os.Filesystem.Fat.Chain.{free_at}
use bek_os.Filesystem.Fat.Links.{IsTable, HasChain, Keeps}
use bek_os.Filesystem.Fat.Follow.{NoneFree, Followed, follow_lem}

-- What extendFile leaves, from a cluster of a chain on and with the bytes up to it.
abbrev pub Extends : FileAllocationTable → ℕ → ℕ → ℕ → Outcome (Bool × FileAllocationTable) → Type 0
Extends t current current_size size r =
    (good : Bool) × (t' : FileAllocationTable) × (r ≡ ok (good, t'))
    × IsTable t'
    × (t'.info ≡ t.info)
    × Keeps t t'
    × (good ≡ true
        → (n : ℕ) × HasChain t' current n
          × (size ≤ current_size + n * (t.info.sector_size * t.info.sectors_per_cluster % word32)))
    × (good ≡ false → NoneFree t')

extend_loop-done :
    (fuel : ℕ) (t : FileAllocationTable) (current current_size size : ℕ)
    → size ≤ current_size
    → extend_loop fuel t current current_size size ≡ ok (true, t)
unfolding extend_loop
extend_loop-done zero t current current_size size h = ground arith
extend_loop-done (suc fuel) t current current_size size h =
    let test : ltb current_size size ≡ false = ground arith in rw (test, extend_loop) refl

extend_loop-step :
    (fuel : ℕ) (t : FileAllocationTable) (current current_size size next : ℕ)
    (t' : FileAllocationTable) (b : Bool)
    → current_size < size
    → follow t current ≡ ok (next, t')
    → (next == 0) ≡ b
    → extend_loop (suc fuel) t current current_size size ≡ elim b [
      | true ↦ ok (false, t')
      | false ↦
          extend_loop fuel t' next
            (add64 current_size (t.info.sector_size * t.info.sectors_per_cluster % word32))
            size
    ]
unfolding extend_loop
extend_loop-step fuel t current current_size size next t' b h run test =
    let more : ltb current_size size ≡ true = ground arith in
    let answer : FileAllocationTable → ℕ → Bool → Outcome (Bool × FileAllocationTable) =
      λ t' next b. elim b [
        | true ↦ ok (false, t')
        | false ↦
            extend_loop fuel t' next
              (add64 current_size (t.info.sector_size * t.info.sectors_per_cluster % word32)) size
      ] in
    let body : Bool → Outcome (Bool × FileAllocationTable) = λ b. elim b [
      | true ↦ follow t current >>= λ (next, t'). answer t' next (next == 0)
      | false ↦ ok (true, t)
    ] in
    ap body more
    ∙ ap (λ r. r >>= λ (next, t'). answer t' next (next == 0)) run
    ∙ ap (answer t' next) test

suc_times : (n b : ℕ) → suc n * b ≡ b + n * b
suc_times n b = grind arith

extend-enough :
    (fuel : ℕ) (t : FileAllocationTable) (current current_size size : ℕ)
    → IsTable t
    → size ≤ current_size
    → Extends t current current_size size (extend_loop fuel t current current_size size)
extend-enough fuel t current current_size size is h = (
  true,
  t,
  extend_loop-done fuel t current current_size size h,
  is,
  refl,
  λ c b p. refl,
  λ g. (0, tt, omega arith),
  λ g. absurd (cc g),
)

-- One more round.
extend-join :
    (t t₁ : FileAllocationTable) (current c current_size current_size₁ size : ℕ)
    (r : Outcome (Bool × FileAllocationTable))
    → current < get_fat_entry_count t.info
    → Followed t current c t₁
    → current_size₁ ≡ current_size + t.info.sector_size * t.info.sectors_per_cluster % word32
    → Extends t₁ c current_size₁ size r
    → Extends t current current_size size r
extend-join t t₁ current c current_size current_size₁ size r b f e
      (good, t₂, run, is, info, keeps, done, failed) =
    let inside₁ : (d : ℕ) → d < get_fat_entry_count t.info → d < get_fat_entry_count t₁.info =
      λ d. subst (λ i. d < get_fat_entry_count i) (sym f.same_info) in
    let to_c = keeps current (inside₁ current b) f.pointing ∙ f.behind in
    (
      good,
      t₂,
      run,
      is,
      info ∙ f.same_info,
      λ d b p.
          let same = f.keeps d b p in
          keeps d (inside₁ d b) (ap (λ n. is_next_pointer (get_cluster_type n)) same ∙ p) ∙ same,
      λ g.
          let (n, chain, enough) = done g in
          let bytes = t.info.sector_size * t.info.sectors_per_cluster % word32 in
          let enough' : size ≤ current_size₁ + n * bytes =
            subst (λ i. size ≤ current_size₁ + n * (i.sector_size * i.sectors_per_cluster % word32))
              f.same_info enough in
          let more = suc_times n bytes in
          (
            suc n,
            (
              ap (λ n. is_next_pointer (get_cluster_type n))
                    (keeps current (inside₁ current b) f.pointing)
                  ∙ f.pointing,
              subst (λ d. HasChain t₂ d n) (sym to_c) chain,
            ),
            omega arith,
          ),
      failed,
    )

extend_loop_lem :
    (fuel : ℕ) (t : FileAllocationTable) (current current_size size : ℕ)
    → IsTable t
    → current < get_fat_entry_count t.info
    → free_at t current ≡ false
    → size ≤ current_size + fuel * (t.info.sector_size * t.info.sectors_per_cluster % word32)
    → size + t.info.sector_size * t.info.sectors_per_cluster % word32 < 2 ^ 64
    → Extends t current current_size size (extend_loop fuel t current current_size size)
extend_loop_lem zero t current current_size size is b used enough fits =
    extend-enough zero t current current_size size is (omega arith)
extend_loop_lem (suc fuel) t current current_size size is b used enough fits =
    elim (dec_lt current_size size) [
      | no big ↦ extend-enough (suc fuel) t current current_size size is (omega arith)
      | yes small ↦ elim (follow_lem t current is b used) [
        | inl (run, nothing) ↦ (
          false,
          t,
          extend_loop-step fuel t current current_size size 0 t true small run refl,
          is,
          refl,
          λ c b p. refl,
          λ g. absurd (cc g),
          λ g. nothing,
        )
        | inr (c, t₁, run, f) ↦
            let above = f.above in
            let bytes = t.info.sector_size * t.info.sectors_per_cluster % word32 in
            let more : suc fuel * bytes ≡ bytes + fuel * bytes = suc_times fuel bytes in
            let next : add64 current_size bytes ≡ current_size + bytes = omega arith in
            let enough₁ : size ≤ add64 current_size bytes + fuel * bytes = omega arith in
            subst (Extends t current current_size size)
              (sym (
                extend_loop-step fuel t current current_size size c t₁ false small run
                  (ground arith)))
              (extend-join t t₁ current c current_size (add64 current_size bytes) size
                (extend_loop fuel t₁ c (add64 current_size bytes) size) b f next
                (extend_loop_lem fuel t₁ c (add64 current_size bytes) size f.is_table
                  (subst (λ i. c < get_fat_entry_count i) (sym f.same_info) f.inside) f.used
                  (subst
                    (λ i.
                      size
                      ≤ add64 current_size bytes
                        + fuel * (i.sector_size * i.sectors_per_cluster % word32))
                    (sym f.same_info) enough₁)
                  (subst (λ i. size + i.sector_size * i.sectors_per_cluster % word32 < 2 ^ 64)
                    (sym f.same_info) fits)))
      ]
    ]

-- extendFile, from a cluster that is in use of a table whose entries point to clusters in use, with a
-- round of its loop for each cluster of the size, returns. The table stays one of that kind, and no
-- link is lost. Where it answers true, the links from the cluster reach as many others as the size
-- asks for; where it answers false, no cluster from the hint on is free any longer.
pub extend_file_lem :
    (fuel : ℕ) (t : FileAllocationTable) (start size : ℕ)
    → IsTable t
    → start < get_fat_entry_count t.info
    → free_at t start ≡ false
    → size
      ≤ t.info.sector_size * t.info.sectors_per_cluster % word32
        + fuel * (t.info.sector_size * t.info.sectors_per_cluster % word32)
    → size + t.info.sector_size * t.info.sectors_per_cluster % word32 < 2 ^ 64
    → Extends t start
        (t.info.sector_size * t.info.sectors_per_cluster % word32)
        size
        (extend_file fuel t start size)
unfolding extend_file
extend_file_lem fuel t start size is b used enough fits =
    extend_loop_lem fuel t start (t.info.sector_size * t.info.sectors_per_cluster % word32) size is
      b used enough fits
