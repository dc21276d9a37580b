-- ===== src/Mm/SpaceManager/Access.antt =====
-- Which accesses check_region allows.
use bek_os.Common.{
  ℕ, ◌+◌, ◌≤◌, ◌<◌, ◌≡◌, ◌↔◌, refl, sym, subst, ap, ◌∙◌, true, false, inl, inr, List, [], ◌∷◌, none,
  some, arith,
}
use bek_os.Common.Tests.{word, Bool-cases, Option-cases}
use bek_os.Mm.Addresses.{Region, region_end, contains}
use bek_os.Mm.SpaceManager.{
  Backing, MemoryOperation, SpaceManager, Entry, find_containing, check_region, allows,
}
use bek_os.Mm.SpaceManager.Order.{Ordered, In, limit}

module _ (K : Backing) where
  -- A region that holds a run of at least one byte.
  abbrev pub Covers : Entry K → ℕ → ℕ → Type 0
  Covers r location size =
      (r.user_region.start ≤ location)
      × (location + size ≤ r.user_region.start + r.user_region.size)

  contains-Covers :
      (r : Entry K) (location size : ℕ)
      → r.user_region.start + r.user_region.size ≤ limit
      → location + size < word
      → (contains r.user_region (record { start = location; size = size }) ≡ true)
        ↔ Covers r location size
  unfolding contains region_end
  contains-Covers r location size h w = (λ e. ground arith, λ c. ground arith)

  -- Where regions are in order, the run is in one of them at most.
  abbrev Holder : List (Entry K) → ℕ → ℕ → Type 0
  Holder regions location size = (r : Entry K) × In K r regions × Covers r location size

  behind :
      (regions : List (Entry K)) (low : ℕ) (r : Entry K)
      → Ordered K low regions
      → In K r regions
      → (low ≤ r.user_region.start) × (r.user_region.start + r.user_region.size ≤ limit)
  behind [] low r o i = absurd i
  behind (r' ∷ rest) low r o (inl e) = rw e (o.0, o.1)
  behind (r' ∷ rest) low r o (inr i) =
      let later = behind rest (r'.user_region.start + r'.user_region.size) r o.2 i in
      (omega arith, later.1)

  find_containing_hit :
      (r : Entry K) (rest : List (Entry K)) (region : Region)
      → contains r.user_region region ≡ true
      → find_containing K (r ∷ rest) region ≡ some r
  unfolding find_containing
  find_containing_hit r rest region h = rw h refl

  find_containing_miss :
      (r : Entry K) (rest : List (Entry K)) (region : Region)
      → contains r.user_region region ≡ false
      → find_containing K (r ∷ rest) region ≡ find_containing K rest region
  unfolding find_containing
  find_containing_miss r rest region h = rw h refl

  find_containing_lem :
      (regions : List (Entry K)) (low location size : ℕ) (r : Entry K)
      → Ordered K low regions
      → 0 < size
      → location + size < word
      → In K r regions
      → Covers r location size
      → find_containing K regions (record { start = location; size = size }) ≡ some r
  find_containing_lem [] low location size r o p w i c = absurd i
  find_containing_lem (r' ∷ rest) low location size r o p w (inl e) c =
      let inside =
        (contains-Covers r' location size o.1 w).1 (subst (λ u. Covers u location size) e c) in
      find_containing_hit r' rest _ inside ∙ ap some (sym e)
  find_containing_lem (r' ∷ rest) low location size r o p w (inr i) c =
      let later = behind rest (r'.user_region.start + r'.user_region.size) r o.2 i in
      elim (Bool-cases (contains r'.user_region (record { start = location; size = size }))) [
        | inl inside ↦
            let held = (contains-Covers r' location size o.1 w).0 inside in
            absurd (omega (arith, held.0, held.1, later.0, c.0))
        | inr outside ↦
            find_containing_miss r' rest _ outside
            ∙ find_containing_lem rest _ location size r o.2 p w i c
      ]

  find_containing_inside :
      (regions : List (Entry K)) (low location size : ℕ) (r : Entry K)
      → Ordered K low regions
      → location + size < word
      → find_containing K regions (record { start = location; size = size }) ≡ some r
      → In K r regions × Covers r location size
  unfolding find_containing
  find_containing_inside [] low location size r o w e = cc
  find_containing_inside (r' ∷ rest) low location size r o w e =
      elim (Bool-cases (contains r'.user_region (record { start = location; size = size }))) [
        | inl inside ↦
            let found = find_containing_hit r' rest _ inside in
            let same : r ≡ r' = cc in
            (
              inl same,
              subst (λ u. Covers u location size) (sym same)
                  ((contains-Covers r' location size o.1 w).0 inside),
            )
        | inr outside ↦
            let later =
              find_containing_inside rest _ location size r o.2 w
                (sym (find_containing_miss r' rest _ outside) ∙ e) in
            (inr later.0, later.1)
      ]

  check_region_found :
      (m : SpaceManager K) (location size : ℕ) (operation : MemoryOperation) (r : Entry K)
      → find_containing K m.regions (record { start = location; size = size }) ≡ some r
      → check_region K m location size operation ≡ allows r.permissions operation
  unfolding check_region
  check_region_found m location size operation r e = rw (check_region, e) refl

  check_region_missing :
      (m : SpaceManager K) (location size : ℕ) (operation : MemoryOperation)
      → find_containing K m.regions (record { start = location; size = size }) ≡ none
      → check_region K m location size operation ≡ false
  unfolding check_region
  check_region_missing m location size operation e = rw (check_region, e) refl

  -- Where the regions are in order, and for a run of at least one byte whose end is below 2 ^ 64, so that
  -- region_end does not wrap: check_region allows an operation exactly if the run lies in a region
  -- with the permission. Nothing is said of a run that wraps.
  pub check_region_iff :
      (m : SpaceManager K) (location size : ℕ) (operation : MemoryOperation)
      → Ordered K 0 m.regions
      → 0 < size
      → location + size < word
      → (check_region K m location size operation ≡ true) ↔ (
          (r : Entry K) × In K r m.regions
          × Covers r location size
          × (allows r.permissions operation ≡ true))
  check_region_iff m location size operation o p w =
      let region : Region = record { start = location; size = size } in
      (
        λ e. elim (Option-cases (find_containing K m.regions region)) [
          | inl missing ↦ let refused = check_region_missing m location size operation missing in cc
          | inr (r, found) ↦
              let answer = check_region_found m location size operation r found in
              let held = find_containing_inside m.regions 0 location size r o w found in
              (r, held.0, held.1, sym answer ∙ e)
        ],
        λ (r, i, c, allowed).
            check_region_found m location size operation r
              (find_containing_lem m.regions 0 location size r o p w i c)
            ∙ allowed,
      )
