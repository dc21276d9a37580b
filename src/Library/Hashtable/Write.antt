-- ===== src/Library/Hashtable/Write.antt =====
-- kernel/include/library/hashtable.h: lookups after a write to one slot.
use bek_os.Common.{
  ℕ, zero, suc, ◌%◌, ◌<◌, ◌≡◌, refl, sym, ap, ◌∙◌, subst, Bool, true, false, inl, inr, List, [],
  ◌∷◌, some, arith,
}
use bek_os.Common.Lists.{length-set, length, get_elem?, set}
use bek_os.Common.Outcome.{ok, panic}
use bek_os.Library.Hashtable.Rotation.{rotate, turned, rotate-set}
use bek_os.Library.Hashtable.Scan.{AllPass, FirstStop, around, unchecked_lookup_lem}
use native.Mathlib.Nat.{mod-lt}
use bek_os.Library.Hashtable.{Slot, empty, deleted, filled, Keys, Hashtable, stops, value_of, find}

module _ {Key : Type 0} (K : Keys Key) (Val : Type 0) where
  FirstStop-unique :
      (key : Key) (inserting : Bool) (xs : List (Slot Key Val)) (j k : ℕ) (r s : Slot Key Val)
      → FirstStop K Val key inserting xs j r
      → FirstStop K Val key inserting xs k s
      → r ≡ s
  FirstStop-unique key inserting [] j k r s p q = absurd p
  FirstStop-unique key inserting (x ∷ xs) zero zero r s p q = sym p.0 ∙ q.0
  FirstStop-unique key inserting (x ∷ xs) zero (suc k) r s p q = absurd (cc (p.1, q.0))
  FirstStop-unique key inserting (x ∷ xs) (suc j) zero r s p q = absurd (cc (p.0, q.1))
  FirstStop-unique key inserting (x ∷ xs) (suc j) (suc k) r s p q =
      FirstStop-unique key inserting xs j k r s p.1 q.1

  FirstStop-AllPass :
      (key : Key) (inserting : Bool) (xs : List (Slot Key Val)) (j : ℕ) (r : Slot Key Val)
      → FirstStop K Val key inserting xs j r
      → AllPass K Val key inserting xs
      → ⊥
  FirstStop-AllPass key inserting [] j r p q = p
  FirstStop-AllPass key inserting (x ∷ xs) zero r p q = cc (p.1, q.0)
  FirstStop-AllPass key inserting (x ∷ xs) (suc j) r p q =
      FirstStop-AllPass key inserting xs j r p.1 q.1

  -- The answer of find is the value of the first slot at which a lookup stops.
  pub find-FirstStop :
      (t : Hashtable K Val) (key : Key) (j : ℕ) (s : Slot Key Val)
      → 0 < length t.slots
      → FirstStop K Val key false (around K Val key t.slots) j s
      → find K Val t key ≡ ok (value_of K Val s)
  unfolding find
  find-FirstStop t key j s h stop = elim (unchecked_lookup_lem K Val t key false h) [
    | inl (pass, run) ↦
        absurd (FirstStop-AllPass key false (around K Val key t.slots) j s stop pass)
    | inr (i, r, run, short, found, stop') ↦ rw run (
        rw found (
          ap (λ u. ok (value_of K Val u))
            (FirstStop-unique key false (around K Val key t.slots)
              (turned (K.hash key % length t.slots) i (length t.slots)) j r s stop' stop)))
  ]

  find-AllPass :
      (t : Hashtable K Val) (key : Key)
      → 0 < length t.slots
      → AllPass K Val key false (around K Val key t.slots)
      → find K Val t key ≡ panic
  unfolding find
  find-AllPass t key h pass = elim (unchecked_lookup_lem K Val t key false h) [
    | inl (p, run) ↦ rw run refl
    | inr (i, r, run, short, found, stop') ↦ absurd (
        FirstStop-AllPass key false (around K Val key t.slots)
          (turned (K.hash key % length t.slots) i (length t.slots)) r stop' pass)
  ]

  passes_on :
      (key : Key) (x : Slot Key Val)
      → stops K Val key true x ≡ false
      → stops K Val key false x ≡ false
  unfolding stops
  passes_on key empty e = e
  passes_on key deleted e = refl
  passes_on key (filled k v) e = e

  pub FirstStop-set :
      (key : Key) (val : Val) (xs : List (Slot Key Val)) (j : ℕ) (r : Slot Key Val)
      → K.equals key key ≡ true
      → FirstStop K Val key true xs j r
      → FirstStop K Val key false (set xs j (filled key val)) j (filled key val)
  unfolding stops
  FirstStop-set key val [] j r e p = absurd p
  FirstStop-set key val (x ∷ xs) zero r e p = (refl, e)
  FirstStop-set key val (x ∷ xs) (suc j) r e p =
      (passes_on key x p.0, FirstStop-set key val xs j r e p.1)

  FirstStop-pass :
      (key : Key) (xs : List (Slot Key Val)) (p j : ℕ) (old new r : Slot Key Val)
      → get_elem? xs p ≡ some old
      → stops K Val key false old ≡ false
      → stops K Val key false new ≡ false
      → FirstStop K Val key false xs j r
      → FirstStop K Val key false (set xs p new) j r
  FirstStop-pass key [] p j old new r found e f q = absurd q
  FirstStop-pass key (x ∷ xs) zero zero old new r found e f q = absurd (cc (found, e, q.1))
  FirstStop-pass key (x ∷ xs) zero (suc j) old new r found e f q = (f, q.1)
  FirstStop-pass key (x ∷ xs) (suc p) zero old new r found e f q = q
  FirstStop-pass key (x ∷ xs) (suc p) (suc j) old new r found e f q =
      (q.0, FirstStop-pass key xs p j old new r found e f q.1)

  AllPass-set :
      (key : Key) (xs : List (Slot Key Val)) (p : ℕ) (new : Slot Key Val)
      → stops K Val key false new ≡ false
      → AllPass K Val key false xs
      → AllPass K Val key false (set xs p new)
  AllPass-set key [] p new f q = q
  AllPass-set key (x ∷ xs) zero new f q = (f, q.1)
  AllPass-set key (x ∷ xs) (suc p) new f q = (q.0, AllPass-set key xs p new f q.1)

  -- A write turns with the list.
  pub around-set :
      (key : Key) (xs : List (Slot Key Val)) (i : ℕ) (new : Slot Key Val)
      → i < length xs
      → (around K Val key (set xs i new)
          ≡ set (around K Val key xs) (turned (K.hash key % length xs) i (length xs)) new)
        × (get_elem? (around K Val key xs) (turned (K.hash key % length xs) i (length xs))
            ≡ get_elem? xs i)
  around-set key xs i new h =
      let n = K.hash key % length xs in
      let bound : n < length xs = mod-lt (K.hash key) (omega arith) in
      let turn = rotate-set n xs i new (omega arith) h in
      (ap (λ u. rotate (K.hash key % u) (set xs i new)) (length-set xs i new) ∙ turn.0, turn.1)

  -- A slot that does not stop the key's lookups is written to with another such slot.
  pub find-set :
      (t : Hashtable K Val) (load i : ℕ) (key : Key) (old new : Slot Key Val)
      → i < length t.slots
      → get_elem? t.slots i ≡ some old
      → stops K Val key false old ≡ false
      → stops K Val key false new ≡ false
      → find K Val (record { slots = set t.slots i new; load = load }) key ≡ find K Val t key
  find-set t load i key old new h found e f =
      let ys = around K Val key t.slots in
      let place = turned (K.hash key % length t.slots) i (length t.slots) in
      let turn = around-set key t.slots i new h in
      let after : Hashtable K Val = record { slots = set t.slots i new; load = load } in
      let long = length-set t.slots i new in
      let room : 0 < length after.slots = omega arith in
      elim (unchecked_lookup_lem K Val t key false (omega arith)) [
        | inl (pass, run) ↦
            find-AllPass after key room
              (subst (AllPass K Val key false) (sym turn.0) (AllPass-set key ys place new f pass))
            ∙ sym (find-AllPass t key (omega arith) pass)
        | inr (k, r, run, short, found', stop) ↦
            let place' = turned (K.hash key % length t.slots) k (length t.slots) in
            find-FirstStop after key place' r room (
              subst (λ u. FirstStop K Val key false u place' r) (sym turn.0)
                (FirstStop-pass key ys place place' old new r (turn.1 ∙ found) e f stop))
            ∙ sym (find-FirstStop t key place' r (omega arith) stop)
      ]
