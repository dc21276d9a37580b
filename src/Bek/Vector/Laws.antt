-- ===== src/Bek/Vector/Laws.antt =====
-- What insertion and removal do to the elements.
use bek_os.Common.{
  ℕ, zero, suc, ◌+◌, ◌-◌, ◌<◌, ◌≤◌, ◌≡◌, refl, sym, ap, ap₂, ◌∙◌, List, [], ◌∷◌, ◌++◌, true, false,
  some, none, append_assoc, arith,
}
use bek_os.Common.Tests.{ltb, leb, sub64, word}
use bek_os.Common.Lists.{
  length-set, length, get_elem?, set, take, drop, length-take, length-append, length-drop,
  take-append_self, take_all, drop_all, take-append-drop,
}
use bek_os.Common.Outcome.{ok, fault, ◌>>=◌}
use bek_os.Bek.Vector.{move_slot, shift_up, insert, shift_down, pop}

module _ {ℓ} {A : Type ℓ} where
  pub get_elem?-append :
      (front cs : List A) (b : A) (n : ℕ)
      → n ≡ length front
      → get_elem? (front ++ b ∷ cs) n ≡ some b
  get_elem?-append [] cs b zero e = refl
  get_elem?-append [] cs b (suc n) e = absurd (omega arith)
  get_elem?-append (a ∷ front) cs b zero e = absurd (omega arith)
  get_elem?-append (a ∷ front) cs b (suc n) e = get_elem?-append front cs b n (omega arith)

  pub set-append :
      (front cs : List A) (b c : A) (n : ℕ)
      → n ≡ length front
      → set (front ++ b ∷ cs) n c ≡ front ++ c ∷ cs
  set-append [] cs b c zero e = refl
  set-append [] cs b c (suc n) e = absurd (omega arith)
  set-append (a ∷ front) cs b c zero e = absurd (omega arith)
  set-append (a ∷ front) cs b c (suc n) e =
      ap (λ t. a ∷ t) (set-append front cs b c n (omega arith))

  -- A list split at one of its elements.
  pub split_at :
      (xs : List A) (n : ℕ)
      → n < length xs
      → (x : A) × (get_elem? xs n ≡ some x)
        × (take (suc n) xs ≡ take n xs ++ x ∷ [])
        × (drop n xs ≡ x ∷ drop (suc n) xs)
  split_at [] n h = absurd (omega arith)
  split_at (x ∷ xs) zero h = (x, refl, refl, refl)
  split_at (x ∷ xs) (suc n) h =
      let (y, g, t, d) = split_at xs n (omega arith) in (y, g, ap (λ t. x ∷ t) t, d)

  move_slot_lem :
      (array : List A) (from to : ℕ) (x : A)
      → get_elem? array from ≡ some x
      → to < length array
      → move_slot array from to ≡ ok (set array to x)
  unfolding move_slot
  move_slot_lem array from to x g h =
      let t : ltb to (length array) ≡ true = ground arith in rw (g, t)

  pub get_elem?-beyond : (xs : List A) (n : ℕ) → length xs ≤ n → get_elem? xs n ≡ none
  get_elem?-beyond [] n h = refl
  get_elem?-beyond (x ∷ xs) zero h = absurd (omega arith)
  get_elem?-beyond (x ∷ xs) (suc n) h = get_elem?-beyond xs n (omega arith)

  shift_up_stops :
      (fuel i idx : ℕ) (array : List A) → idx < i → shift_up (suc fuel) i idx array ≡ ok array
  unfolding shift_up
  shift_up_stops fuel i idx array h =
      let stop : leb i idx ≡ false = ground arith in rw (stop, shift_up)

  shift_up_goes :
      (fuel i idx : ℕ) (array : List A)
      → i ≤ idx
      → shift_up (suc fuel) i idx array
        ≡ (move_slot array idx (idx + 1) >>= λ array'. shift_up fuel i (sub64 idx 1) array')
  unfolding shift_up
  shift_up_goes fuel i idx array h = let go : leb i idx ≡ true = ground arith in rw (go, shift_up)

  -- The array while insert has yet to move `k` elements up.
  shift_up_lem :
      (k fuel i idx n : ℕ) (xs : List A) (y : A)
      → 0 < i
      → idx + 1 ≡ n
      → n ≡ i + k
      → n ≤ length xs
      → length xs < word
      → k < fuel
      → (z : A) × (shift_up fuel i idx (take n xs ++ y ∷ drop n xs)
          ≡ ok (take i xs ++ z ∷ drop i xs))
  shift_up_lem k zero i idx n xs y p e q h w f = absurd (omega arith)
  shift_up_lem zero (suc fuel) i idx n xs y p e q h w f =
      let m : n ≡ i = omega arith in
      (
        y,
        shift_up_stops fuel i idx (take n xs ++ y ∷ drop n xs) (omega arith)
            ∙ ap (λ t. ok (take t xs ++ y ∷ drop t xs)) m,
      )
  shift_up_lem (suc k) (suc fuel) i idx n xs y p e q h w f =
      let at : n ≡ suc idx = omega arith in
      let back : sub64 idx 1 ≡ idx - 1 = omega arith in
      let (x, g, t, d) = split_at xs idx (omega arith) in
      let len = length-take idx xs in
      let rest = drop (suc idx) xs in
      let array = take (suc idx) xs ++ y ∷ rest in
      let one_more = length-take (suc idx) xs in
      let split =
        λ (v : A). ap (λ u. u ++ v ∷ rest) t ∙ append_assoc (take idx xs) (x ∷ []) (v ∷ rest) in
      let found : get_elem? array idx ≡ some x =
        ap (λ u. get_elem? u idx) (split y)
        ∙ get_elem?-append (take idx xs) (y ∷ rest) x idx (omega arith) in
      let all = length-append (take (suc idx) xs) (y ∷ rest) in
      let moved : move_slot array idx (idx + 1) ≡ ok (take idx xs ++ x ∷ drop idx xs) =
        move_slot_lem array idx (idx + 1) x found (omega arith)
        ∙ ap ok (
            set-append (take (suc idx) xs) rest y x (idx + 1) (omega arith)
            ∙ split x
            ∙ ap (λ u. take idx xs ++ x ∷ u) (sym d)) in
      let (z, run) =
        shift_up_lem k fuel i (idx - 1) idx xs x p (omega arith) (omega arith) (omega arith) w
          (omega arith) in
      (
        z,
        ap (λ t. shift_up (suc fuel) i idx (take t xs ++ y ∷ drop t xs)) at
            ∙ shift_up_goes fuel i idx array (omega arith)
            ∙ ap (λ m. m >>= λ u. shift_up fuel i (sub64 idx 1) u) moved
            ∙ ap (λ q. shift_up fuel i q (take idx xs ++ x ∷ drop idx xs)) back
            ∙ run,
      )

  -- insert in front of an element that is not the first: the item comes to stand there, the elements
  -- before and behind it are the old ones, and the loop ends.
  pub insert_lem :
      (xs : List A) (i : ℕ) (item : A)
      → 0 < i
      → i < length xs
      → length xs < word
      → insert xs i item ≡ ok (take i xs ++ item ∷ drop i xs)
  unfolding insert
  insert_lem xs i item p h w =
      let n = length xs in
      let inside : ltb i n ≡ true = ground arith in
      let (z, run) =
        shift_up_lem (n - i) (n + 1) i (n - 1) n xs item p (omega arith) (omega arith) (omega arith)
          w (omega arith) in
      let whole : take n xs ++ item ∷ drop n xs ≡ xs ++ item ∷ [] =
        ap₂ (λ u v. u ++ item ∷ v) (take_all n xs (omega arith)) (drop_all n xs (omega arith)) in
      let len = length-take i xs in
      rw (inside, ← whole, run) (ap ok (set-append (take i xs) (drop i xs) z item i (omega arith)))

  shift_up_wraps :
      (idx fuel : ℕ) (array : List A)
      → idx + 1 < fuel
      → idx + 1 < length array
      → length array < word
      → shift_up fuel 0 idx array ≡ fault
  unfolding move_slot
  shift_up_wraps idx zero array f h w = absurd (omega arith)
  shift_up_wraps idx (suc zero) array f h w = absurd (omega arith)
  shift_up_wraps zero (suc (suc fuel)) array f h w =
      let (x, g, t, d) = split_at array 0 (omega arith) in
      let last = length-set array 1 x in
      let missing = get_elem?-beyond (set array 1 x) (word - 1) (omega arith) in
      shift_up_goes (suc fuel) 0 0 array (omega arith)
      ∙ rw (move_slot_lem array 0 1 x g (omega arith))
          (shift_up_goes fuel 0 (word - 1) (set array 1 x) (omega arith) ∙ rw missing)
  shift_up_wraps (suc idx) (suc (suc fuel)) array f h w =
      let (x, g, t, d) = split_at array (suc idx) (omega arith) in
      let next = set array (suc idx + 1) x in
      let len = length-set array (suc idx + 1) x in
      let back : sub64 (suc idx) 1 ≡ idx = omega arith in
      shift_up_goes (suc fuel) 0 (suc idx) array (omega arith)
      ∙ rw (move_slot_lem array (suc idx) (suc idx + 1) x g (omega arith), back)
          (shift_up_wraps idx (suc fuel) next (omega arith) (omega arith) (omega arith))

  -- insert in front of the first element of a vector leaves the array: the index of its loop goes
  -- round below 0.
  pub insert_front :
      (xs : List A) (item : A) → 0 < length xs → length xs < word - 1 → insert xs 0 item ≡ fault
  unfolding insert
  insert_front xs item h w =
      let n = length xs in
      let len = length-append xs (item ∷ []) in
      let inside : ltb 0 n ≡ true = ground arith in
      rw (
        inside,
        shift_up_wraps (n - 1) (n + 1) (xs ++ item ∷ []) (omega arith) (omega arith) (omega arith),
      )

  shift_down_lem :
      (cs front : List A) (b : A) (idx : ℕ)
      → idx ≡ length front + 1
      → (z : A) × (shift_down (length cs) idx (front ++ b ∷ cs) ≡ ok (front ++ (cs ++ z ∷ [])))
  unfolding shift_down
  shift_down_lem [] front b idx e = (b, refl)
  shift_down_lem (c ∷ cs) front b idx e =
      let found : get_elem? (front ++ b ∷ c ∷ cs) idx ≡ some c =
        ap (λ u. get_elem? u idx) (sym (append_assoc front (b ∷ []) (c ∷ cs)))
        ∙ get_elem?-append (front ++ b ∷ []) cs c idx
            (omega (arith, length-append front (b ∷ []))) in
      let len = length-append front (b ∷ c ∷ cs) in
      let put = set-append front (c ∷ cs) b c (idx - 1) (omega arith) in
      let again = append_assoc front (c ∷ []) (c ∷ cs) in
      let (z, run) =
        shift_down_lem cs (front ++ c ∷ []) c (idx + 1)
          (omega (arith, length-append front (c ∷ []))) in
      (
        z,
        rw
            (
              move_slot_lem (front ++ b ∷ c ∷ cs) idx (idx - 1) c found (omega arith),
              put,
              ← again,
              run,
            )
            (ap ok (append_assoc front (c ∷ []) (cs ++ z ∷ []))),
      )

  -- pop of an element returns it, and the others are left in their order.
  pub pop_lem :
      (xs : List A) (i : ℕ)
      → i < length xs
      → (x : A) × (get_elem? xs i ≡ some x) × (pop xs i ≡ ok (x, take i xs ++ drop (suc i) xs))
  unfolding pop
  pop_lem xs i h =
      let (x, g, t, d) = split_at xs i h in
      let inside : ltb i (length xs) ≡ true = ground arith in
      let lt = length-take i xs in
      let ld = length-drop (suc i) xs in
      let la = length-append (take i xs) (drop (suc i) xs) in
      let (z, run) = shift_down_lem (drop (suc i) xs) (take i xs) x (i + 1) (omega arith) in
      let whole : take i xs ++ x ∷ drop (suc i) xs ≡ xs =
        ap (λ u. take i xs ++ u) (sym d) ∙ take-append-drop i xs in
      let rounds : length (drop (suc i) xs) ≡ length xs - (i + 1) = omega arith in
      let run' = ap₂ (λ n u. shift_down n (i + 1) u) (sym rounds) (sym whole) ∙ run in
      let cut : take (length xs - 1) (take i xs ++ (drop (suc i) xs ++ z ∷ []))
          ≡ take i xs ++ drop (suc i) xs =
        ap₂ (λ n u. take n u) (omega arith)
          (sym (append_assoc (take i xs) (drop (suc i) xs) (z ∷ [])))
        ∙ take-append_self (take i xs ++ drop (suc i) xs) (z ∷ []) in
      (
        x,
        g,
        rw (inside, g)
            (ap (λ m. m >>= λ u. ok (x, take (length xs - 1) u)) run' ∙ ap (λ u. ok (x, u)) cut),
      )
