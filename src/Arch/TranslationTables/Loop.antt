-- ===== src/Arch/TranslationTables/Loop.antt =====
-- The loop over the entries of a table, for any body that maps what lies in one entry.
use bek_os.Common.{
  ℕ, zero, suc, ◌+◌, ◌-◌, ◌*◌, ◌<◌, ◌≤◌, ◌≡◌, ◌≢◌, refl, sym, ap, ◌∙◌, subst, ◌⊎◌, inl, inr, Bool,
  true, false, none, min, arith,
}
use bek_os.Common.Tests.{◌==◌, Bool-cases}
use bek_os.Common.Outcome.{Outcome, ok}
use bek_os.Arch.TranslationTables.{TableEntry, Walk, each_entry}
use bek_os.Arch.TranslationTables.Find.{Found}
use bek_os.Arch.TranslationTables.Walks.{
  IsStuck, >>=-IsStuck, le_or_lt, suc-mul, mul-le_lt, IsAligned, Gone, Maps, Maps-join, Maps-shift,
  Gone-trans,
}

module _ (M : Type 0) where
  module _ (Exhausted : Type 0) (attributes : ℕ × ℕ) (look_in : TableEntry → ℕ → Found)
      (S base : ℕ) where
    -- What a body does to entry `i`, from the offset `o` in it on.
    abbrev pub MapsEntry : ℕ → ℕ → Walk M → Outcome (Bool × Walk M) → Type 0
    MapsEntry i o w r =
        (IsStuck r × Exhausted)
        ⊎ ((w' : Walk M) × (r ≡ ok (true, w'))
            × Gone M (min w.size (S - o)) w w'
            × ((j : ℕ) → j ≢ i → w'.tbl j ≡ w.tbl j)
            × ((z : ℕ)
                → z < S
                → Maps M attributes o (min w.size (S - o)) w.phys_start z (look_in (w.tbl i) z)
                    (look_in (w'.tbl i) z)))

    -- Nothing is mapped there.
    abbrev pub FreeEntry : ℕ → ℕ → Walk M → Type 0
    FreeEntry i o w = (z : ℕ) → o ≤ z → z < o + w.size → z < S → look_in (w.tbl i) z ≡ none

    abbrev pub FreeFrom : ℕ → ℕ → Walk M → Type 0
    FreeFrom last x w =
        (j z : ℕ)
        → j < last
        → z < S
        → x ≤ j * S + z
        → j * S + z < x + w.size
        → look_in (w.tbl j) z ≡ none

    -- What the loop does from entry `i` and the offset `o` in it on, with so many entries left.
    abbrev pub MapsRest : ℕ → ℕ → ℕ → Walk M → Outcome (Bool × Walk M) → Type 0
    MapsRest rounds i o w r =
        (IsStuck r × Exhausted)
        ⊎ ((w' : Walk M) × (r ≡ ok (true, w'))
            × Gone M (min w.size (rounds * S - o)) w w'
            × ((j z : ℕ)
                → z < S
                → Maps M attributes (i * S + o) (min w.size (rounds * S - o)) w.phys_start
                    (j * S + z) (look_in (w.tbl j) z) (look_in (w'.tbl j) z)))

  each_entry-stop :
      (body : ℕ → Walk M → Outcome (Bool × Walk M)) (rounds i : ℕ) (w : Walk M)
      → w.size ≡ 0
      → each_entry M body rounds i w ≡ ok (true, w)
  unfolding each_entry
  each_entry-stop body zero i w e = refl
  each_entry-stop body (suc rounds) i w e =
      let test : w.size == 0 ≡ true = ground arith in rw (test, each_entry) refl

  each_entry-go :
      (body : ℕ → Walk M → Outcome (Bool × Walk M)) (rounds i : ℕ) (w w' : Walk M)
      → 0 < w.size
      → body i w ≡ ok (true, w')
      → each_entry M body (suc rounds) i w ≡ each_entry M body rounds (i + 1) w'
  unfolding each_entry
  each_entry-go body rounds i w w' h run =
      let test : w.size == 0 ≡ false = ground arith in rw (test, each_entry) (rw run refl)

  each_entry-IsStuck :
      (body : ℕ → Walk M → Outcome (Bool × Walk M)) (rounds i : ℕ) (w : Walk M)
      → 0 < w.size
      → IsStuck (body i w)
      → IsStuck (each_entry M body (suc rounds) i w)
  unfolding each_entry
  each_entry-IsStuck body rounds i w h stuck =
      let test : w.size == 0 ≡ false = ground arith in
      rw (test, each_entry)
        (>>=-IsStuck (body i w)
          (λ (more, w'). elim more [
            | true ↦ each_entry M body rounds (i + 1) w'
            | false ↦ ok (false, w')
          ])
          stuck)

  module _ (Exhausted : Type 0) (attributes : ℕ × ℕ) (look_in : TableEntry → ℕ → Found) (S base : ℕ)
      (body : ℕ → Walk M → Outcome (Bool × Walk M))
      (step : (i o : ℕ) (w : Walk M)
        → o < S
        → 0 < w.size
        → w.virt_start ≡ (base + i) * S + o
        → IsAligned M w
        → FreeEntry Exhausted attributes look_in S base i o w
        → MapsEntry Exhausted attributes look_in S base i o w (body i w)) where
    -- The places of an entry in the table that the body has left alone.
    other_entry :
        (i o n phys j z : ℕ) (old : Found)
        → j ≢ i
        → o + n ≤ S
        → z < S
        → Maps M attributes (i * S + o) n phys (j * S + z) old old
    other_entry i o n phys j z old apart fits h = (
      λ low high. elim (le_or_lt i j) [
        | inl le ↦ let far = mul-le_lt i j S (omega arith) in absurd (omega arith)
        | inr lt ↦ let far = mul-le_lt j i S lt in absurd (omega arith)
      ],
      λ out. refl,
    )

    each_entry-empty :
        (rounds i o : ℕ) (w : Walk M)
        → w.size ≡ 0
        → IsAligned M w
        → MapsRest Exhausted attributes look_in S base rounds i o w (each_entry M body rounds i w)
    each_entry-empty rounds i o w empty al = inr (
      w,
      each_entry-stop body rounds i w empty,
      record {
        virt_gone = omega arith;
        phys_gone = omega arith;
        size_gone = omega arith;
        aligned = al;
      },
      λ j z lt. (λ low high. absurd (omega arith), λ out. refl),
    )

    each_entry-end :
        (i o : ℕ) (w : Walk M)
        → IsAligned M w
        → MapsRest Exhausted attributes look_in S base 0 i o w (each_entry M body 0 i w)
    unfolding each_entry
    each_entry-end i o w al = inr (
      w,
      refl,
      record {
        virt_gone = omega arith;
        phys_gone = omega arith;
        size_gone = omega arith;
        aligned = al;
      },
      λ j z lt. (λ low high. absurd (omega arith), λ out. refl),
    )

    -- The body at entry `i`, looked at from all entries.
    step-all :
        (i o n phys : ℕ) (w w₁ : Walk M)
        → o + n ≤ S
        → ((j : ℕ) → j ≢ i → w₁.tbl j ≡ w.tbl j)
        → ((z : ℕ)
            → z < S
            → Maps M attributes o n phys z (look_in (w.tbl i) z) (look_in (w₁.tbl i) z))
        → (j z : ℕ) → z < S
        → Maps M attributes
            (i * S + o)
            n
            phys
            (j * S + z)
            (look_in (w.tbl j) z)
            (look_in (w₁.tbl j) z)
    step-all i o n phys w w₁ fits others maps j z h = elim (Bool-cases (j == i)) [
      | inl same ↦
          let here : i ≡ j = ground arith in
          subst
            (λ k.
              Maps M attributes (i * S + o) n phys (k * S + z) (look_in (w.tbl k) z)
                (look_in (w₁.tbl k) z))
            here
            (Maps-shift M attributes (i * S) o n phys z (look_in (w.tbl i) z) (look_in (w₁.tbl i) z)
              (maps z h))
      | inr apart ↦
          let away : j ≢ i = ground arith in
          subst
            (λ e.
              Maps M attributes (i * S + o) n phys (j * S + z) (look_in (w.tbl j) z) (look_in e z))
            (sym (others j away)) (other_entry i o n phys j z (look_in (w.tbl j) z) away fits h)
    ]

    -- A run over the entries that follow, after the body at entry `i`.
    step-join :
        (rounds i o : ℕ) (w w₁ : Walk M) (r : Outcome (Bool × Walk M))
        → o < S
        → Gone M (min w.size (S - o)) w w₁
        → ((j : ℕ) → j ≢ i → w₁.tbl j ≡ w.tbl j)
        → ((z : ℕ)
            → z < S
            → Maps M attributes o
                (min w.size (S - o))
                w.phys_start
                z
                (look_in (w.tbl i) z)
                (look_in (w₁.tbl i) z))
        → MapsRest Exhausted attributes look_in S base rounds (i + 1) 0 w₁ r
        → MapsRest Exhausted attributes look_in S base (suc rounds) i o w r
    step-join rounds i o w w₁ r h g others maps (inl stuck) = inl stuck
    step-join rounds i o w w₁ r h g others maps (inr (w₂, run, g₂, rest)) =
        let next = suc-mul i S in
        let all = suc-mul rounds S in
        let e₀ : (i + 1) * S ≡ i * S + S = ap (λ k. k * S) (omega arith) ∙ next in
        let gone = g.size_gone in
        let total : min w.size (S - o) + min w₁.size (rounds * S - 0)
            ≡ min w.size (suc rounds * S - o) =
          omega arith in
        inr (
          w₂,
          run,
          subst (λ n. Gone M n w w₂) total
              (Gone-trans M (min w.size (S - o)) (min w₁.size (rounds * S - 0)) w w₁ w₂ g g₂),
          λ j z lt.
              subst
                (λ n.
                  Maps M attributes (i * S + o) n w.phys_start (j * S + z) (look_in (w.tbl j) z)
                    (look_in (w₂.tbl j) z))
                total
                (Maps-join M attributes (i * S + o) (min w.size (S - o)) ((i + 1) * S + 0)
                  (min w₁.size (rounds * S - 0)) w.phys_start w₁.phys_start (j * S + z)
                  (look_in (w.tbl j) z) (look_in (w₁.tbl j) z) (look_in (w₂.tbl j) z)
                  (step-all i o (min w.size (S - o)) w.phys_start w w₁ (omega arith) others maps j z
                    lt)
                  (rest j z lt) (omega arith) (λ some. omega arith) g.phys_gone),
        )

    step-free :
        (last i o : ℕ) (w w₁ : Walk M)
        → o < S
        → Gone M (min w.size (S - o)) w w₁
        → ((j : ℕ) → j ≢ i → w₁.tbl j ≡ w.tbl j)
        → FreeFrom Exhausted attributes look_in S base last (i * S + o) w
        → FreeFrom Exhausted attributes look_in S base last ((i + 1) * S + 0) w₁
    step-free last i o w w₁ fits g others free j z b h low high =
        let next = suc-mul i S in
        let e₀ : (i + 1) * S ≡ i * S + S = ap (λ k. k * S) (omega arith) ∙ next in
        let gone = g.size_gone in
        let away : j ≢ i = λ e. let same = ap (λ k. k * S) e in absurd (omega arith) in
        ap (λ e. look_in e z) (others j away) ∙ free j z b h (omega arith) (omega arith)

    pub each_entry_lem :
        (last rounds i o : ℕ) (w : Walk M)
        → i + rounds ≡ last
        → o < S
        → (0 < w.size → w.virt_start ≡ (base + i) * S + o)
        → IsAligned M w
        → FreeFrom Exhausted attributes look_in S base last (i * S + o) w
        → MapsRest Exhausted attributes look_in S base rounds i o w (each_entry M body rounds i w)
    each_entry_lem last zero i o w e h at al free = each_entry-end i o w al
    each_entry_lem last (suc rounds) i o w e h at al free = elim (le_or_lt w.size 0) [
      | inl none_left ↦ each_entry-empty (suc rounds) i o w (omega arith) al
      | inr some_left ↦
          elim (step i o w h some_left (at some_left) al
            (λ z low high lt. free i z (omega arith) lt (omega arith) (omega arith))) [
              | inl (stuck, ex) ↦ inl (each_entry-IsStuck body rounds i w some_left stuck, ex)
              | inr (w₁, run, g, others, maps) ↦
                  let next = suc-mul (base + i) S in
                  let e₀ : (base + (i + 1)) * S ≡ (base + i) * S + S =
                    ap (λ k. k * S) (omega arith) ∙ next in
                  let from = at some_left in
                  let gone = g.size_gone in
                  let virt = g.virt_gone in
                  let rest =
                    each_entry_lem last rounds (i + 1) 0 w₁ (omega arith) (omega arith)
                      (λ some. omega arith) g.aligned (step-free last i o w w₁ h g others free) in
                  subst (MapsRest Exhausted attributes look_in S base (suc rounds) i o w)
                    (sym (each_entry-go body rounds i w w₁ some_left run))
                    (step-join rounds i o w w₁ (each_entry M body rounds (i + 1) w₁) h g others maps
                      rest)
            ]
    ]
