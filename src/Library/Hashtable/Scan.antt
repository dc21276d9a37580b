-- ===== src/Library/Hashtable/Scan.antt =====
-- kernel/include/library/hashtable.h: where a lookup ends.
use bek_os.Common.{
  ℕ, zero, suc, ◌+◌, ◌-◌, ◌%◌, ◌<◌, ◌≡◌, refl, sym, ap, ◌∙◌, subst, Bool, true, false, ◌⊎◌, inl,
  inr, List, [], ◌∷◌, ◌++◌, none, some, arith,
}
use bek_os.Common.Tests.{Bool-cases}
use bek_os.Common.Lists.{length, get_elem?, take, drop, length-take, length-drop}
use bek_os.Common.Outcome.{Outcome, ok, panic}
use bek_os.Library.Hashtable.Rotation.{rotate, turned, get-drop, get-take}
use native.Mathlib.Nat.{mod-lt}
use bek_os.Library.Hashtable.{Slot, Keys, Hashtable, stops, scan, scan_again, unchecked_lookup}

module _ {Key : Type 0} (K : Keys Key) (Val : Type 0) where
  -- No slot stops a lookup.
  abbrev pub AllPass : Key → Bool → List (Slot Key Val) → Type 0
  AllPass key inserting [] = Unit
  AllPass key inserting (s ∷ rest) =
      (stops K Val key inserting s ≡ false) × AllPass key inserting rest

  -- The first slot at which a lookup stops, with its place.
  abbrev pub FirstStop : Key → Bool → List (Slot Key Val) → ℕ → Slot Key Val → Type 0
  FirstStop key inserting [] k s = ⊥
  FirstStop key inserting (x ∷ rest) zero s = (x ≡ s) × (stops K Val key inserting x ≡ true)
  FirstStop key inserting (x ∷ rest) (suc k) s =
      (stops K Val key inserting x ≡ false) × FirstStop key inserting rest k s

  pub scan_lem :
      (key : Key) (inserting : Bool) (slots : List (Slot Key Val)) (i : ℕ)
      → (AllPass key inserting slots × (scan K Val key inserting slots i ≡ none))
        ⊎ ((k : ℕ) × (s : Slot Key Val) × (k < length slots)
            × (get_elem? slots k ≡ some s)
            × FirstStop key inserting slots k s
            × (scan K Val key inserting slots i ≡ some (i + k)))
  unfolding scan
  scan_lem key inserting [] i = inl (tt, refl)
  scan_lem key inserting (s ∷ rest) i = elim (Bool-cases (stops K Val key inserting s)) [
    | inl e ↦ inr (0, s, omega arith, refl, (refl, e), rw e (ap some (omega arith)))
    | inr e ↦ elim (scan_lem key inserting rest (i + 1)) [
      | inl (pass, run) ↦ inl ((e, pass), rw (e, run) refl)
      | inr (k, s', short, found, stop, run) ↦
          inr (suc k, s', omega arith, found, (e, stop), rw (e, run) (ap some (omega arith)))
    ]
  ]

  -- A lookup goes through the slots from the key's own on, and around.
  abbrev pub around : Key → List (Slot Key Val) → List (Slot Key Val)
  around key slots = rotate (K.hash key % length slots) slots

  AllPass-append :
      (key : Key) (inserting : Bool) (xs ys : List (Slot Key Val))
      → AllPass key inserting xs
      → AllPass key inserting ys
      → AllPass key inserting (xs ++ ys)
  AllPass-append key inserting [] ys p q = q
  AllPass-append key inserting (x ∷ xs) ys p q = (p.0, AllPass-append key inserting xs ys p.1 q)

  FirstStop-append_left :
      (key : Key) (inserting : Bool) (xs ys : List (Slot Key Val)) (k : ℕ) (s : Slot Key Val)
      → FirstStop key inserting xs k s
      → FirstStop key inserting (xs ++ ys) k s
  FirstStop-append_left key inserting [] ys k s p = absurd p
  FirstStop-append_left key inserting (x ∷ xs) ys zero s p = p
  FirstStop-append_left key inserting (x ∷ xs) ys (suc k) s p =
      (p.0, FirstStop-append_left key inserting xs ys k s p.1)

  FirstStop-append_right :
      (key : Key) (inserting : Bool) (xs ys : List (Slot Key Val)) (k j : ℕ) (s : Slot Key Val)
      → j ≡ length xs + k
      → AllPass key inserting xs
      → FirstStop key inserting ys k s
      → FirstStop key inserting (xs ++ ys) j s
  FirstStop-append_right key inserting [] ys k j s h p q =
      subst (λ i. FirstStop key inserting ys i s) (omega arith) q
  FirstStop-append_right key inserting (x ∷ xs) ys k zero s h p q = absurd (omega arith)
  FirstStop-append_right key inserting (x ∷ xs) ys k (suc j) s h p q =
      (p.0, FirstStop-append_right key inserting xs ys k j s (omega arith) p.1 q)

  -- What unchecked_lookup answers: no slot stops it, or the first one that does.
  abbrev pub Looked : Hashtable K Val → Key → Bool → Outcome ℕ → Type 0
  Looked t key inserting answer =
      (AllPass key inserting (around key t.slots) × (answer ≡ panic))
      ⊎ ((i : ℕ) × (s : Slot Key Val) × (answer ≡ ok i)
          × (i < length t.slots)
          × (get_elem? t.slots i ≡ some s)
          × FirstStop key inserting (around key t.slots)
              (turned (K.hash key % length t.slots) i (length t.slots)) s)

  turned-high : (n k len : ℕ) → turned n (n + k) len ≡ k
  turned-high n k len = ground arith

  turned-low : (n k len : ℕ) → k < n → turned n k len ≡ len - n + k
  turned-low n k len h = ground arith

  scan_again-ok :
      (key : Key) (inserting : Bool) (slots : List (Slot Key Val)) (k : ℕ)
      → scan K Val key inserting slots 0 ≡ some k
      → scan_again K Val key inserting slots none ≡ ok k
  unfolding scan_again
  scan_again-ok key inserting slots k run = rw (run, scan_again) refl

  scan_again-panic :
      (key : Key) (inserting : Bool) (slots : List (Slot Key Val))
      → scan K Val key inserting slots 0 ≡ none
      → scan_again K Val key inserting slots none ≡ panic
  unfolding scan_again
  scan_again-panic key inserting slots run = rw (run, scan_again) refl

  -- In a table with slots, unchecked_lookup ends at the first slot, from that of the hash on and
  -- around, at which it may stop, or in the assertion where there is none.
  pub unchecked_lookup_lem :
      (t : Hashtable K Val) (key : Key) (inserting : Bool)
      → 0 < length t.slots
      → Looked t key inserting (unchecked_lookup K Val t key inserting)
  unfolding unchecked_lookup scan_again
  unchecked_lookup_lem t key inserting h =
      let xs = t.slots in
      let n = K.hash key % length xs in
      let bound : n < length xs = mod-lt (K.hash key) h in
      let ld = length-drop n xs in
      let lt = length-take n xs in
      let again = scan_again K Val key inserting (take n xs) in
      let place : ℕ → Slot Key Val → Type 0 = λ j s. FirstStop key inserting (around key xs) j s in
      elim (scan_lem key inserting (drop n xs) n) [
        | inr (k, s, short, found, stop, run) ↦ inr (
          n + k,
          s,
          ap again run,
          omega arith,
          sym (get-drop n xs k (n + k) refl) ∙ found,
          subst (λ j. place j s) (sym (turned-high n k (length xs)))
              (FirstStop-append_left key inserting (drop n xs) (take n xs) k s stop),
        )
        | inl (pass, run) ↦ elim (scan_lem key inserting (take n xs) 0) [
          | inl (pass', run') ↦ inl (
            AllPass-append key inserting (drop n xs) (take n xs) pass pass',
            ap again run ∙ scan_again-panic key inserting (take n xs) run',
          )
          | inr (k, s, short, found, stop, run') ↦
              let low : k < n = omega arith in
              let at : turned n k (length xs) ≡ length (drop n xs) + k =
                turned-low n k (length xs) low ∙ ap (λ u. u + k) (sym ld) in
              inr (
                k,
                s,
                ap again run
                    ∙ scan_again-ok key inserting (take n xs) k (run' ∙ ap some (omega arith)),
                omega arith,
                sym (get-take n xs k low) ∙ found,
                FirstStop-append_right key inserting (drop n xs) (take n xs) k
                    (turned n k (length xs)) s at pass stop,
              )
        ]
      ]
