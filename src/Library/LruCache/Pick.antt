-- ===== src/Library/LruCache/Pick.antt =====
-- kernel/include/library/lru_cache.h: which item is purged.
use bek_os.Common.{
  ℕ, ◌≤◌, ◌≡◌, ◌≢◌, refl, sym, ◌⊎◌, inl, inr, false, ◌&&◌, List, [], ◌∷◌, none, some, arith,
}
use bek_os.Common.Tests.{◌==◌, ltb, Bool-cases}
use bek_os.Library.Hashtable.{Slot, empty, deleted, filled, Keys}
use bek_os.Library.LruCache.{Item, is_better, pick}

kept :
    (refs time last_use earlier : ℕ)
    → (refs == 1 && ltb time last_use) ≡ false
    → earlier ≤ last_use
    → (refs ≢ 1) ⊎ (earlier ≤ time)
kept refs time last_use earlier worse h = elim (Bool-cases (refs == 1)) [
  | inl one ↦ inr (ground arith)
  | inr more ↦ inl (λ e. absurd (ground (arith, more, e)))
]

module _ {Key : Type 0} (K : Keys Key) (Val : Type 0) (ref_count : Val → ℕ) where
  -- Every item that nobody refers to was used at this time or later.
  abbrev pub AllLater : ℕ → List (Slot Key (Item K Val ref_count)) → Type 0
  AllLater last_use [] = Unit
  AllLater last_use (empty ∷ rest) = AllLater last_use rest
  AllLater last_use (deleted ∷ rest) = AllLater last_use rest
  AllLater last_use (filled key item ∷ rest) =
      ((ref_count item.v ≢ 1) ⊎ (last_use ≤ item.last_use_counter)) × AllLater last_use rest

  -- Somebody refers to every item.
  abbrev pub AllReferred : List (Slot Key (Item K Val ref_count)) → Type 0
  AllReferred [] = Unit
  AllReferred (empty ∷ rest) = AllReferred rest
  AllReferred (deleted ∷ rest) = AllReferred rest
  AllReferred (filled key item ∷ rest) = (ref_count item.v ≢ 1) × AllReferred rest

  -- There is an item with this key and time that nobody refers to.
  abbrev pub SomeItem : Key → ℕ → List (Slot Key (Item K Val ref_count)) → Type 0
  SomeItem key last_use [] = ⊥
  SomeItem key last_use (empty ∷ rest) = SomeItem key last_use rest
  SomeItem key last_use (deleted ∷ rest) = SomeItem key last_use rest
  SomeItem key last_use (filled k item ∷ rest) =
      ((k ≡ key) × (item.last_use_counter ≡ last_use) × (ref_count item.v ≡ 1))
      ⊎ SomeItem key last_use rest

  -- With an item found before.
  pick-some :
      (slots : List (Slot Key (Item K Val ref_count))) (key : Key) (last_use : ℕ)
      → (key' : Key) × (last_use' : ℕ) × (pick K Val ref_count slots (some (key, last_use))
          ≡ some (key', last_use'))
        × (last_use' ≤ last_use)
        × AllLater last_use' slots
        × (((key' ≡ key) × (last_use' ≡ last_use)) ⊎ SomeItem key' last_use' slots)
  unfolding pick
  pick-some [] key last_use = (key, last_use, refl, omega arith, tt, inl (refl, refl))
  pick-some (empty ∷ rest) key last_use = pick-some rest key last_use
  pick-some (deleted ∷ rest) key last_use = pick-some rest key last_use
  pick-some (filled k item ∷ rest) key last_use =
      elim (Bool-cases (is_better K Val ref_count item (some (key, last_use)))) [
        | inl better ↦
            let free : ref_count item.v ≡ 1 = ground arith in
            let less : item.last_use_counter ≤ last_use = ground arith in
            let (key', last_use', run, le, later, from) = pick-some rest k item.last_use_counter in
            (
              key',
              last_use',
              rw better run,
              omega arith,
              (inr le, later),
              inr (elim from [
                | inl at ↦ inl (sym at.0, sym at.1, free)
                | inr in_rest ↦ inr in_rest
              ]),
            )
        | inr worse ↦
            let (key', last_use', run, le, later, from) = pick-some rest key last_use in
            (
              key',
              last_use',
              rw worse run,
              le,
              (kept (ref_count item.v) item.last_use_counter last_use last_use' worse le, later),
              elim from [ inl at ↦ inl at | inr in_rest ↦ inr (inr in_rest) ],
            )
      ]

  -- try_purge picks an item that nobody refers to and that was used no later than any other such item, or
  -- there is none.
  pub pick_lem :
      (slots : List (Slot Key (Item K Val ref_count)))
      → ((pick K Val ref_count slots none ≡ none) × AllReferred slots)
        ⊎ ((key : Key) × (last_use : ℕ) × (pick K Val ref_count slots none ≡ some (key, last_use))
            × SomeItem key last_use slots
            × AllLater last_use slots)
  unfolding pick
  pick_lem [] = inl (refl, tt)
  pick_lem (empty ∷ rest) = pick_lem rest
  pick_lem (deleted ∷ rest) = pick_lem rest
  pick_lem (filled k item ∷ rest) = elim (Bool-cases (is_better K Val ref_count item none)) [
    | inl better ↦
        let free : ref_count item.v ≡ 1 = ground arith in
        let (key', last_use', run, le, later, from) = pick-some rest k item.last_use_counter in
        inr (
          key',
          last_use',
          rw better run,
          elim from [ inl at ↦ inl (sym at.0, sym at.1, free) | inr in_rest ↦ inr in_rest ],
          (inr le, later),
        )
    | inr worse ↦
        let not_free : ref_count item.v ≢ 1 = λ e. absurd (ground (arith, worse, e)) in
        elim (pick_lem rest) [
          | inl (run, all) ↦ inl (rw worse run, (not_free, all))
          | inr (key, last_use, run, at, later) ↦
              inr (key, last_use, rw worse run, inr at, (inl not_free, later))
        ]
  ]
