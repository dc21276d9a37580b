-- ===== src/Library/Hashtable/Set.antt =====
-- kernel/include/library/hashtable.h: what find answers after a pair is stored or taken out.
use bek_os.Common.{
  ℕ, zero, suc, ◌%◌, ◌<◌, ◌≡◌, refl, sym, ap, ◌∙◌, subst, Bool, true, false, inl, inr, List, [],
  ◌∷◌, Option, some, arith,
}
use bek_os.Common.Tests.{sub64}
use bek_os.Common.Lists.{length-set, length, get_elem?, set}
use bek_os.Common.Outcome.{ok, panic}
use bek_os.Library.Hashtable.Rotation.{turned}
use bek_os.Library.Hashtable.Scan.{FirstStop, around, unchecked_lookup_lem}
use bek_os.Library.Hashtable.{
  Slot, empty, deleted, filled, Keys, Hashtable, stops, unchecked_lookup, find, extract_at, extract,
  set_at, unchecked_set,
}
use bek_os.Library.Hashtable.Write.{FirstStop-set, find-FirstStop, around-set, find-set}

module _ {Key : Type 0} (K : Keys Key) (Val : Type 0) where
  stops-FirstStop :
      (key : Key) (inserting : Bool) (xs : List (Slot Key Val)) (j : ℕ) (r : Slot Key Val)
      → FirstStop K Val key inserting xs j r
      → stops K Val key inserting r ≡ true
  stops-FirstStop key inserting [] j r p = absurd p
  stops-FirstStop key inserting (x ∷ xs) zero r p =
      subst (λ u. stops K Val key inserting u ≡ true) p.0 p.1
  stops-FirstStop key inserting (x ∷ xs) (suc j) r p = stops-FirstStop key inserting xs j r p.1

  stored :
      (t t' : Hashtable K Val) (i : ℕ) (key : Key) (val : Val) (overwrite : Bool) (s : Slot Key Val)
      → ok (set_at K Val t i key val overwrite s) ≡ ok (true, t')
      → t'.slots ≡ set t.slots i (filled key val)
  unfolding set_at
  stored t t' i key val overwrite empty e = cc e
  stored t t' i key val overwrite deleted e = cc e
  stored t t' i key val true (filled k v) e = cc e
  stored t t' i key val false (filled k v) e = absurd (cc e)

  pub unchecked_set-panic :
      (t : Hashtable K Val) (key : Key) (val : Val) (overwrite : Bool)
      → unchecked_lookup K Val t key true ≡ panic
      → unchecked_set K Val t key val overwrite ≡ panic
  unfolding unchecked_set
  unchecked_set-panic t key val overwrite stuck = rw stuck refl

  pub unchecked_set-ok :
      (t : Hashtable K Val) (key : Key) (val : Val) (overwrite : Bool) (i : ℕ) (s : Slot Key Val)
      → unchecked_lookup K Val t key true ≡ ok i
      → get_elem? t.slots i ≡ some s
      → unchecked_set K Val t key val overwrite ≡ ok (set_at K Val t i key val overwrite s)
  unfolding unchecked_set
  unchecked_set-ok t key val overwrite i s looked found = rw looked (rw found refl)

  extract-panic :
      (t : Hashtable K Val) (key : Key)
      → unchecked_lookup K Val t key false ≡ panic
      → extract K Val t key ≡ panic
  unfolding extract
  extract-panic t key stuck = rw stuck refl

  extract-ok :
      (t : Hashtable K Val) (key : Key) (i : ℕ) (s : Slot Key Val)
      → unchecked_lookup K Val t key false ≡ ok i
      → get_elem? t.slots i ≡ some s
      → extract K Val t key ≡ ok (extract_at K Val t i s)
  unfolding extract
  extract-ok t key i s looked found = rw looked (rw found refl)

  -- In a table with slots, a key that equals itself and that unchecked_set has stored, over another
  -- value or not, is found with its new value.
  pub find-unchecked_set :
      (t t' : Hashtable K Val) (key : Key) (val : Val) (overwrite : Bool)
      → 0 < length t.slots
      → K.equals key key ≡ true
      → unchecked_set K Val t key val overwrite ≡ ok (true, t')
      → find K Val t' key ≡ ok (some val)
  find-unchecked_set t t' key val overwrite h same_key run =
      elim (unchecked_lookup_lem K Val t key true h) [
        | inl (pass, stuck) ↦ absurd (cc (run, unchecked_set-panic t key val overwrite stuck))
        | inr (i, s, looked, short, found, stop) ↦
            let turn = around-set K Val key t.slots i (filled key val) short in
            let place = turned (K.hash key % length t.slots) i (length t.slots) in
            let done = sym (unchecked_set-ok t key val overwrite i s looked found) ∙ run in
            let slots' = stored t t' i key val overwrite s done in
            let long : length t'.slots ≡ length t.slots =
              ap length slots' ∙ length-set t.slots i (filled key val) in
            find-FirstStop K Val t' key place (filled key val) (omega arith) (
              subst (λ u. FirstStop K Val key false (around K Val key u) place (filled key val))
                (sym slots')
                (subst (λ u. FirstStop K Val key false u place (filled key val)) (sym turn.0)
                  (FirstStop-set K Val key val (around K Val key t.slots) place s same_key stop)))
      ]

  extracted :
      (t t' : Hashtable K Val) (i : ℕ) (key other : Key) (s : Slot Key Val) (v : Option Val)
      → i < length t.slots
      → ((k : Key) → K.equals key k ≡ true → K.equals other k ≡ false)
      → get_elem? t.slots i ≡ some s
      → stops K Val key false s ≡ true
      → ok (extract_at K Val t i s) ≡ ok (v, t')
      → find K Val t' other ≡ find K Val t other
  unfolding extract_at stops
  extracted t t' i key other empty v h apart found stop e = ap (λ u. find K Val u other) (cc e)
  extracted t t' i key other deleted v h apart found stop e = absurd (cc stop)
  extracted t t' i key other (filled k w) v h apart found stop e =
      let after : Hashtable K Val = record {
        slots = set t.slots i deleted;
        load = sub64 t.load 1;
      } in
      let same : t' ≡ after = cc e in
      ap (λ u. find K Val u other) same
      ∙ find-set K Val t (sub64 t.load 1) i other (filled k w) deleted h found (apart k stop) refl

  -- In a table with slots, taking a key out changes the answer of find for no key that differs from all
  -- keys that equal it.
  pub find-extract :
      (t t' : Hashtable K Val) (key other : Key) (v : Option Val)
      → 0 < length t.slots
      → ((k : Key) → K.equals key k ≡ true → K.equals other k ≡ false)
      → extract K Val t key ≡ ok (v, t')
      → find K Val t' other ≡ find K Val t other
  find-extract t t' key other v h apart run = elim (unchecked_lookup_lem K Val t key false h) [
    | inl (pass, stuck) ↦ absurd (cc (run, extract-panic t key stuck))
    | inr (i, s, looked, short, found, stop) ↦
        extracted t t' i key other s v short apart found
          (stops-FirstStop key false (around K Val key t.slots)
            (turned (K.hash key % length t.slots) i (length t.slots)) s stop)
          (sym (extract-ok t key i s looked found) ∙ run)
  ]
