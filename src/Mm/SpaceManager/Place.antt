-- ===== src/Mm/SpaceManager/Place.antt =====
-- place_region keeps the regions in order, or changes none of them.
use bek_os.Common.{
  ℕ, zero, suc, ◌+◌, ◌-◌, ◌≤◌, ◌<◌, ◌≡◌, refl, sym, subst, ap, ap₂, ◌∙◌, true, false, ◌⊎◌, inl, inr,
  List, [], ◌∷◌, ◌++◌, Option, none, some, arith,
}
use bek_os.Common.Tests.{◌==◌, ltb, add64, word, align_up, Bool-cases, Option-cases}
use bek_os.Common.Lists.{length, take, drop, take_all, drop_all}
use bek_os.Common.Outcome.{Outcome, ok, err, fault, einval, eaddrinuse}
use bek_os.Bek.Vector.Laws.{insert_lem, insert_front}
use bek_os.Mm.Addresses.{Region, region_end, overlaps}
use bek_os.Mm.SpaceManager.{
  Backing, MemoryOperation, SpaceManager, Entry, last_end, choose_location, insert_at, succeeds,
  map_and_insert, desired_region, place_region, user_addr_max,
}
use bek_os.Mm.SpaceManager.Order.{limit, Ordered, In, find_position_lem}

module _ (K : Backing) where
  last_end-le :
      (regions : List (Entry K)) (low end : ℕ)
      → Ordered K low regions
      → last_end K regions ≡ some end
      → end ≤ limit
  unfolding region_end
  last_end-le [] low end o e = cc
  last_end-le (r ∷ []) low end o e = ground arith
  last_end-le (r ∷ r' ∷ rest) low end o e = last_end-le (r' ∷ rest) _ end o.2 e

  -- A location that is asked for leaves room for the size below 2 ^ 64.
  abbrev pub NoWrap : Option ℕ → ℕ → Type 0
  NoWrap none size = Unit
  NoWrap (some location) size = location + size < word

  choose_location-NoWrap :
      (regions : List (Entry K)) (location : Option ℕ) (size : ℕ)
      → Ordered K 0 regions
      → size ≤ user_addr_max
      → NoWrap location size
      → choose_location K regions location + size < word
  unfolding choose_location
  choose_location-NoWrap regions (some location) size o s n = n
  choose_location-NoWrap regions none size o s n = elim (Option-cases (last_end K regions)) [
    | inl empty ↦ rw (choose_location, empty) (omega arith)
    | inr (end, e) ↦
        let bound = last_end-le regions 0 end o e in
        rw (choose_location, e) (ground (arith, align_up))
  ]

  abbrev Inserted : List (Entry K) → ℕ → Entry K → Type 0
  Inserted regions k e =
      (insert_at K regions k e ≡ ok (take k regions ++ e ∷ drop k regions))
      ⊎ ((insert_at K regions k e ≡ fault) × (k ≡ 0) × (0 < length regions))

  insert_inside :
      (regions : List (Entry K)) (k : ℕ) (e : Entry K)
      → k < length regions
      → length regions < word - 1
      → (k == length regions) ≡ false
      → Inserted regions k e
  unfolding insert_at
  insert_inside regions zero e h w inner = inr (rw inner (insert_front regions e h w), refl, h)
  insert_inside regions (suc k) e h w inner =
      inl (rw inner (insert_lem regions (suc k) e (omega arith) h (omega arith)))

  insert_at_lem :
      (regions : List (Entry K)) (k : ℕ) (e : Entry K)
      → k ≤ length regions
      → length regions < word - 1
      → Inserted regions k e
  unfolding insert_at
  insert_at_lem regions k e h w = elim (Bool-cases (k == length regions)) [
    | inl last ↦
        let n : length regions ≤ k = ground arith in
        inl (
          rw last (
            ap ok
              (ap₂ (λ u v. u ++ e ∷ v) (sym (take_all k regions n)) (sym (drop_all k regions n)))))
    | inr inner ↦ insert_inside regions k e (ground arith) w inner
  ]

  abbrev pub new_entry : SpaceManager K → Option ℕ → MemoryOperation → List ℕ → K.Handle → Entry K
  new_entry m location operations name backing = record {
    user_region = desired_region K m location backing;
    backing = backing;
    name = name;
    permissions = operations;
  }

  -- The ends of place_region: what it returns, and the manager that it leaves.
  abbrev pub TooHigh : SpaceManager K → Entry K → Outcome Region × SpaceManager K → Type 0
  TooHigh m e result =
      (user_addr_max < e.user_region.start + K.size e.backing) × (result ≡ (err einval, m))

  abbrev pub Clash : SpaceManager K → Entry K → Outcome Region × SpaceManager K → Type 0
  Clash m e result =
      (result ≡ (err eaddrinuse, m))
      × ((r : Entry K) × In K r m.regions × (overlaps r.user_region e.user_region ≡ true))

  abbrev pub Unmapped : SpaceManager K → Entry K → Outcome Region × SpaceManager K → Type 0
  Unmapped m e result =
      let (code, tables) = K.map_into_table e.backing m.tables e.user_region e.permissions in
      (succeeds code ≡ false) × (result ≡ (err code, record m { tables = tables }))

  abbrev pub Lowest : SpaceManager K → Entry K → Outcome Region × SpaceManager K → Type 0
  Lowest m e result = (0 < length m.regions) × Ordered K 0 (e ∷ m.regions) × (result.0 ≡ fault)

  abbrev pub Placed : SpaceManager K → Entry K → Outcome Region × SpaceManager K → Type 0
  Placed m e result =
      let (code, tables) = K.map_into_table e.backing m.tables e.user_region e.permissions in
      (k : ℕ) × Ordered K 0 (take k m.regions ++ e ∷ drop k m.regions)
      × (succeeds code ≡ true)
      × (result ≡ (
        ok e.user_region,
        record { regions = take k m.regions ++ e ∷ drop k m.regions; tables = tables },
      ))

  map_and_insert_lem :
      (m : SpaceManager K) (e : Entry K) (k : ℕ)
      → k ≤ length m.regions
      → length m.regions < word - 1
      → Ordered K 0 (take k m.regions ++ e ∷ drop k m.regions)
      → let result = map_and_insert K m e.user_region e.permissions e.name e.backing k in
        Unmapped m e result ⊎ (Lowest m e result ⊎ Placed m e result)
  unfolding map_and_insert
  map_and_insert_lem m e k h w o =
      let (code, tables) = K.map_into_table e.backing m.tables e.user_region e.permissions in
      elim (Bool-cases (succeeds code)) [
        | inl well ↦ elim (insert_at_lem m.regions k e h w) [
          | inl inserted ↦ inr (inr (k, o, well, rw (well, inserted) refl))
          | inr (out, first, some_region) ↦ inr (
              inl (
                some_region,
                subst (λ n. Ordered K 0 (take n m.regions ++ e ∷ drop n m.regions)) first o,
                rw (well, out) refl,
              ))
        ]
        | inr ill ↦ inl (ill, rw ill refl)
      ]

  desired_region-fits :
      (m : SpaceManager K) (location : Option ℕ) (backing : K.Handle)
      → (user_addr_max < choose_location K m.regions location + K.size backing → ⊥)
      → (desired_region K m location backing).start + (desired_region K m location backing).size
        ≤ limit
  unfolding desired_region
  desired_region-fits m location backing h = ground arith

  -- place_region in a manager whose regions are in order, for a backing of at most user_addr_max
  -- bytes and a location, if one is given, that leaves room for it below 2 ^ 64. It refuses a place
  -- beyond user_addr_max with EINVAL, and one that overlaps a region with EADDRINUSE, and changes
  -- nothing; a mapping that fails passes its code on and changes the tables only; or the region is
  -- placed among the others, which stay in order. The exception is a region that belongs in front of
  -- all the others: the insertion leaves the array.
  pub place_region_lem :
      (m : SpaceManager K) (location : Option ℕ) (operations : MemoryOperation) (name : List ℕ)
      (backing : K.Handle)
      → Ordered K 0 m.regions
      → length m.regions < word - 1
      → K.size backing ≤ user_addr_max
      → NoWrap location (K.size backing)
      → let e = new_entry m location operations name backing in
        let result = place_region K m location operations name backing in
        TooHigh m e result
        ⊎ (Clash m e result ⊎ (Unmapped m e result ⊎ (Lowest m e result ⊎ Placed m e result)))
  unfolding place_region
  place_region_lem m location operations name backing o w s n =
      let e = new_entry m location operations name backing in
      let start = choose_location K m.regions location in
      let room = choose_location-NoWrap m.regions location (K.size backing) o s n in
      elim (Bool-cases (ltb user_addr_max (add64 start (K.size backing)))) [
        | inl high ↦ inl (ground arith, rw (high, place_region) refl)
        | inr low ↦
            elim (find_position_lem K m.regions e 0 0 o (omega arith)
              (desired_region-fits m location backing (ground arith))) [
                | inl (found, inside) ↦ inr (inl (rw (low, found, place_region) refl, inside))
                | inr (k, found, short, ordered) ↦
                    let no_offset : 0 + k ≡ k = omega arith in
                    let goes : place_region K m location operations name backing
                        ≡ map_and_insert K m e.user_region operations name backing k =
                      rw (low, found ∙ ap ok no_offset, place_region) refl in
                    inr (inr (rw goes (map_and_insert_lem m e k short w ordered)))
              ]
      ]
