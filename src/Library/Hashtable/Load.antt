-- ===== src/Library/Hashtable/Load.antt =====
-- kernel/include/library/hashtable.h: the load of a table and the room it leaves.
use bek_os.Common.{
  ℕ, zero, suc, ◌+◌, ◌%◌, ◌<◌, ◌≤◌, ◌≡◌, refl, sym, ap, ◌∙◌, Bool, true, false, inl, inr, List, [],
  ◌∷◌, ◌++◌, ◌*◌, ◌^◌, some, arith,
}
use bek_os.Common.Tests.{Bool-cases}
use bek_os.Common.Lists.{length-set, length, get_elem?, set}
use bek_os.Common.Outcome.{ok, ◌>>=◌}
use bek_os.Library.Hashtable.Rotation.{rotate}
use bek_os.Library.Hashtable.Scan.{AllPass, around, unchecked_lookup_lem}
use bek_os.Library.Hashtable.{
  Slot, empty, deleted, filled, Keys, Hashtable, stops, set_at, unchecked_set,
}
use bek_os.Common.Tests.{ltb}
use bek_os.Common.Lists.{replicate, take, drop, length-replicate, length-append, take-append-drop}
use bek_os.Library.Hashtable.{make_hashtable, transfer, check_size, insert, set_value}
use bek_os.Library.Hashtable.Set.{unchecked_set-ok}

module _ {Key : Type 0} (K : Keys Key) (Val : Type 0) where
  abbrev weight : Slot Key Val → ℕ
  weight empty = 0
  weight deleted = 0
  weight (filled k v) = 1

  -- The number of pairs.
  abbrev pub pairs : List (Slot Key Val) → ℕ
  pairs [] = 0
  pairs (s ∷ rest) = weight s + pairs rest

  -- load is the number of pairs, and there are slots.
  abbrev pub IsCounted : Hashtable K Val → Type 0
  IsCounted t = (t.load ≡ pairs t.slots) × (0 < length t.slots)

  pairs-length : (xs : List (Slot Key Val)) → pairs xs ≤ length xs
  pairs-length [] = omega arith
  pairs-length (empty ∷ xs) = let ih = pairs-length xs in omega arith
  pairs-length (deleted ∷ xs) = let ih = pairs-length xs in omega arith
  pairs-length (filled k v ∷ xs) = let ih = pairs-length xs in omega arith

  pairs-set :
      (xs : List (Slot Key Val)) (i : ℕ) (old new : Slot Key Val)
      → get_elem? xs i ≡ some old
      → pairs (set xs i new) + weight old ≡ pairs xs + weight new
  pairs-set [] i old new h = absurd (cc h)
  pairs-set (x ∷ xs) zero old new h = let e : x ≡ old = cc h in rw e (omega arith)
  pairs-set (x ∷ xs) (suc i) old new h = let ih = pairs-set xs i old new h in omega arith

  pairs-replicate : (n : ℕ) → pairs (replicate n empty) ≡ 0
  pairs-replicate zero = refl
  pairs-replicate (suc n) = let ih = pairs-replicate n in omega arith

  pairs-append : (xs ys : List (Slot Key Val)) → pairs (xs ++ ys) ≡ pairs xs + pairs ys
  pairs-append [] ys = omega arith
  pairs-append (x ∷ xs) ys = let ih = pairs-append xs ys in omega arith

  pairs-rotate : (n : ℕ) (xs : List (Slot Key Val)) → pairs (rotate n xs) ≡ pairs xs
  pairs-rotate n xs =
      let all = ap pairs (take-append-drop n xs) in
      let front = pairs-append (take n xs) (drop n xs) in
      let turn = pairs-append (drop n xs) (take n xs) in omega arith

  length-rotate : (n : ℕ) (xs : List (Slot Key Val)) → length (rotate n xs) ≡ length xs
  length-rotate n xs =
      let all = ap length (take-append-drop n xs) in
      let front = length-append (take n xs) (drop n xs) in
      let turn = length-append (drop n xs) (take n xs) in omega arith

  -- Only a slot that holds a pair lets an inserting lookup pass.
  pairs-AllPass :
      (key : Key) (xs : List (Slot Key Val)) → AllPass K Val key true xs → pairs xs ≡ length xs
  unfolding stops
  pairs-AllPass key [] p = refl
  pairs-AllPass key (empty ∷ xs) p = absurd (cc p.0)
  pairs-AllPass key (deleted ∷ xs) p = absurd (cc p.0)
  pairs-AllPass key (filled k v ∷ xs) p = let ih = pairs-AllPass key xs p.1 in omega arith

  -- What a step from one table to another keeps, when it may add `most` pairs.
  abbrev Grown : Hashtable K Val → ℕ → Hashtable K Val → Type 0
  Grown t most t' =
      IsCounted t' × (length t'.slots ≡ length t.slots) × (pairs t'.slots ≤ pairs t.slots + most)

  Grown-set_at :
      (t : Hashtable K Val) (i : ℕ) (key : Key) (val : Val) (overwrite : Bool) (s : Slot Key Val)
      → IsCounted t
      → length t.slots < 2 ^ 63
      → get_elem? t.slots i ≡ some s
      → Grown t 1 ((set_at K Val t i key val overwrite s).1)
  unfolding set_at
  Grown-set_at t i key val overwrite empty c h found =
      let new = pairs-set t.slots i empty (filled key val) found in
      let long = length-set t.slots i (filled key val) in
      let most = pairs-length t.slots in
      let load = c.0 in let some_slots = c.1 in ((ground arith, omega arith), long, omega arith)
  Grown-set_at t i key val overwrite deleted c h found =
      let new = pairs-set t.slots i deleted (filled key val) found in
      let long = length-set t.slots i (filled key val) in
      let most = pairs-length t.slots in
      let load = c.0 in let some_slots = c.1 in ((ground arith, omega arith), long, omega arith)
  Grown-set_at t i key val true (filled k v) c h found =
      let new = pairs-set t.slots i (filled k v) (filled key val) found in
      let long = length-set t.slots i (filled key val) in
      let load = c.0 in let some_slots = c.1 in ((omega arith, omega arith), long, omega arith)
  Grown-set_at t i key val false (filled k v) c h found = (c, refl, omega arith)

  -- unchecked_set returns if a slot holds no pair.
  unchecked_set-Grown :
      (t : Hashtable K Val) (key : Key) (val : Val) (overwrite : Bool)
      → IsCounted t
      → length t.slots < 2 ^ 63
      → pairs t.slots < length t.slots
      → (b : Bool) × (t' : Hashtable K Val) × (unchecked_set K Val t key val overwrite ≡ ok (b, t'))
        × Grown t 1 t'
  unchecked_set-Grown t key val overwrite c h room =
      elim (unchecked_lookup_lem K Val t key true (c.1)) [
        | inl (pass, stuck) ↦
            let n = K.hash key % length t.slots in
            let full = pairs-AllPass key (around K Val key t.slots) pass in
            let same = pairs-rotate n t.slots in
            let long = length-rotate n t.slots in absurd (omega arith)
        | inr (i, s, looked, short, found, stop) ↦
            let r = set_at K Val t i key val overwrite s in
            (
              r.0,
              r.1,
              unchecked_set-ok K Val t key val overwrite i s looked found,
              Grown-set_at t i key val overwrite s c h found,
            )
      ]

  transfer-filled :
      (k : Key) (v : Val) (rest : List (Slot Key Val)) (t t' : Hashtable K Val) (b : Bool)
      → unchecked_set K Val t k v false ≡ ok (b, t')
      → transfer K Val (filled k v ∷ rest) t ≡ transfer K Val rest t'
  unfolding transfer
  transfer-filled k v rest t t' b run = rw run refl

  transfer-Grown :
      (rest : List (Slot Key Val)) (t : Hashtable K Val)
      → IsCounted t
      → length t.slots < 2 ^ 63
      → pairs rest + pairs t.slots ≤ length t.slots
      → (t' : Hashtable K Val) × (transfer K Val rest t ≡ ok t') × Grown t (pairs rest) t'
  unfolding transfer
  transfer-Grown [] t c h room = (t, refl, (c, refl, omega arith))
  transfer-Grown (empty ∷ rest) t c h room =
      let (t', run, (c', long, most)) = transfer-Grown rest t c h (omega arith) in
      (t', run, (c', long, omega arith))
  transfer-Grown (deleted ∷ rest) t c h room =
      let (t', run, (c', long, most)) = transfer-Grown rest t c h (omega arith) in
      (t', run, (c', long, omega arith))
  transfer-Grown (filled k v ∷ rest) t c h room =
      let (b, t₁, run₁, (c₁, long₁, most₁)) = unchecked_set-Grown t k v false c h (omega arith) in
      let (t', run, (c', long, most)) = transfer-Grown rest t₁ c₁ (omega arith) (omega arith) in
      (t', transfer-filled k v rest t t₁ b run₁ ∙ run, (c', long ∙ long₁, omega arith))

  -- check_size returns a table with room.
  check_size-IsCounted :
      (t : Hashtable K Val)
      → IsCounted t
      → length t.slots < 2 ^ 62
      → (t' : Hashtable K Val) × (check_size K Val t ≡ ok t')
        × IsCounted t'
        × (length t'.slots < 2 ^ 63)
        × (pairs t'.slots < length t'.slots)
  unfolding check_size make_hashtable
  check_size-IsCounted t c h = elim (Bool-cases (ltb (length t.slots) (t.load * 2))) [
    | inl e ↦
        let fresh = make_hashtable K Val (length t.slots * 2) in
        let none_yet = pairs-replicate (length t.slots * 2) in
        let blank : Slot Key Val = empty in
        let long_fresh = length-replicate (length t.slots * 2) blank in
        let most_old = pairs-length t.slots in
        let some_slots = c.1 in
        let (t', run, (c', long, most)) =
          transfer-Grown t.slots fresh (sym none_yet, omega arith) (omega arith) (omega arith) in
        (t', rw e run, c', omega arith, omega arith)
    | inr e ↦ let load = c.0 in let some_slots = c.1 in (t, rw e refl, c, omega arith, ground arith)
  ]

  -- insert and set return for every table that has slots, fewer than 2 ^ 62, and whose load is the
  -- number of its pairs, and the new table is such a table, too, but for the bound.
  pub set_value-IsCounted :
      (t : Hashtable K Val) (key : Key) (val : Val)
      → IsCounted t
      → length t.slots < 2 ^ 62
      → ((b : Bool) × (t' : Hashtable K Val) × (insert K Val t key val ≡ ok (b, t')) × IsCounted t')
        × ((b : Bool) × (t' : Hashtable K Val) × (set_value K Val t key val ≡ ok (b, t'))
            × IsCounted t')
  unfolding insert set_value
  set_value-IsCounted t key val c h =
      let (t₁, run₁, c₁, h₁, room) = check_size-IsCounted t c h in
      let (b, t', run, (c', long, most)) = unchecked_set-Grown t₁ key val false c₁ h₁ room in
      let (b₂, t₂, run₂, (c₂, long₂, most₂)) = unchecked_set-Grown t₁ key val true c₁ h₁ room in
      (
        (b, t', ap (λ m. m >>= λ u. unchecked_set K Val u key val false) run₁ ∙ run, c'),
        (b₂, t₂, ap (λ m. m >>= λ u. unchecked_set K Val u key val true) run₁ ∙ run₂, c₂),
      )
