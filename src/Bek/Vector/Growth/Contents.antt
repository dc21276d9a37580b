-- ===== src/Bek/Vector/Growth/Contents.antt =====
-- bek/include/bek/vector.h: the elements of a vector whose storage grows.
use bek_os.Common.{
  ℕ, suc, ◌+◌, ◌^◌, ◌<◌, ◌≤◌, ◌≡◌, refl, sym, ap, ap₂, ◌∙◌, inl, inr, true, false, List, [], ◌∷◌,
  ◌++◌, append_assoc, Option, none, some, arith,
}
use bek_os.Common.Tests.{ltb, ◌==◌, if◌then◌else◌, add64, Bool-cases}
use bek_os.Common.Lists.{length, drop, replicate, length-append, length-drop, length-replicate}
use bek_os.Common.Outcome.{ok, ◌>>=◌}
use bek_os.Bek.Vector.Laws.{get_elem?-append, set-append}
use bek_os.Bek.Vector.Growth.{
  Vector, construct, move_elements, expand_storage, ensure_capacity, expand, push_back,
}
use bek_os.Bek.Vector.Growth.Capacity.{double_until_lem}

equal : (a b : ℕ) → a == b ≡ true → a ≡ b
equal a b h = ground arith

module _ (A : Type 0) where
  abbrev pub somes : List A → List (Option A)
  somes [] = []
  somes (x ∷ xs) = some x ∷ somes xs

  -- The vector has these elements, and the slots behind them.
  abbrev pub Holds : Vector A → List A → List (Option A) → Type 0
  Holds v xs spare = (v.size ≡ length xs) × (v.array ≡ somes xs ++ spare)

  pub length-somes : (xs : List A) → length (somes xs) ≡ length xs
  length-somes [] = refl
  length-somes (x ∷ xs) = ap suc (length-somes xs)

  pub somes-append : (xs ys : List A) → somes (xs ++ ys) ≡ somes xs ++ somes ys
  somes-append [] ys = refl
  somes-append (x ∷ xs) ys = ap (λ u. some x ∷ u) (somes-append xs ys)

  construct_lem :
      (front back : List (Option A)) (old new : Option A) (i : ℕ)
      → i ≡ length front
      → construct A (front ++ (old ∷ back)) i new ≡ ok (front ++ (new ∷ back))
  unfolding construct
  construct_lem front back old new i e =
      let long = length-append front (old ∷ back) in
      let test : ltb i (length (front ++ (old ∷ back))) ≡ true = ground arith in
      rw test (ap ok (set-append front back old new i e))

  -- The loop of expand_storage moves the elements into a new array that is long enough.
  move_elements_lem :
      (done xs : List A) (spare blank : List (Option A)) (i : ℕ)
      → i ≡ length done
      → length xs ≤ length blank
      → move_elements A (length xs) i (somes done ++ (somes xs ++ spare)) (somes done ++ blank)
        ≡ ok (somes done ++ (somes xs ++ drop (length xs) blank))
  unfolding move_elements
  move_elements_lem done [] spare blank i e h = refl
  move_elements_lem done (x ∷ xs) spare [] i e h = absurd (omega arith)
  move_elements_lem done (x ∷ xs) spare (b ∷ blank) i e h =
      let long = length-somes done in
      let found = get_elem?-append (somes done) (somes xs ++ spare) (some x) i (omega arith) in
      let shift : (ys : List (Option A))
          → somes done ++ (some x ∷ ys) ≡ somes (done ++ (x ∷ [])) ++ ys =
        λ ys.
          sym (append_assoc (somes done) (some x ∷ []) ys)
          ∙ ap (λ u. u ++ ys) (sym (somes-append done (x ∷ []))) in
      let both = length-append done (x ∷ []) in
      rw found (
        rw (construct_lem (somes done) blank b (some x) i (omega arith)) (
          ap₂ (λ u w. move_elements A (length xs) (i + 1) u w) (shift (somes xs ++ spare))
            (shift blank)
          ∙ move_elements_lem (done ++ (x ∷ [])) xs spare blank (i + 1) (omega arith) (omega arith)
          ∙ ap ok (sym (shift (somes xs ++ drop (length xs) blank)))))

  expand_none :
      (v : Vector A) (blank : List (Option A))
      → v.size ≡ 0
      → (if length v.array == 0 then ok blank else move_elements A v.size 0 v.array blank)
        ≡ ok blank
  unfolding move_elements
  expand_none v blank e = elim (Bool-cases (length v.array == 0)) [
    | inl test ↦ rw test refl
    | inr test ↦ rw (test, e) refl
  ]

  expand_storage_lem :
      (v : Vector A) (xs : List A) (spare : List (Option A)) (n : ℕ)
      → Holds v xs spare
      → length xs ≤ n
      → (v' : Vector A) × (spare' : List (Option A)) × (expand_storage A v n ≡ ok v')
        × Holds v' xs spare'
        × (length xs + length spare' ≡ n)
  unfolding expand_storage
  expand_storage_lem v [] spare n h room =
      let blank : List (Option A) = replicate n none in
      let new : Vector A = record { size = v.size; array = blank } in
      let moved : (if length v.array == 0 then ok blank else move_elements A v.size 0 v.array blank)
          ≡ ok blank =
        expand_none v blank h.0 in
      let long : length blank ≡ n = length-replicate n none in
      (
        new,
        blank,
        ap (λ r. r >>= λ array. ok (record { size = v.size; array = array })) moved,
        (h.0, refl),
        omega arith,
      )
  expand_storage_lem v (x ∷ xs) spare n h room =
      let blank : List (Option A) = replicate n none in
      let left = drop (suc (length xs)) blank in
      let new : Vector A = record { size = v.size; array = somes (x ∷ xs) ++ left } in
      let long : length blank ≡ n = length-replicate n none in
      let short = length-drop (suc (length xs)) blank in
      let old = ap length h.1 in
      let some_slots : length v.array == 0 ≡ false = ground arith in
      let moved : (if length v.array == 0 then ok blank else move_elements A v.size 0 v.array blank)
          ≡ ok new.array =
        rw (some_slots, h.0, h.1)
          (move_elements_lem [] (x ∷ xs) spare blank 0 refl (omega arith)) in
      (
        new,
        left,
        ap (λ r. r >>= λ array. ok (record { size = v.size; array = array })) moved,
        (h.0, refl),
        omega arith,
      )

  push_at :
      (xs : List A) (spare : List (Option A)) (item : A)
      → 0 < length spare
      → (left : List (Option A)) × (construct A (somes xs ++ spare) (length xs) (some item)
          ≡ ok (somes (xs ++ (item ∷ [])) ++ left))
  push_at xs [] item h = absurd (omega arith)
  push_at xs (old ∷ left) item h = (
    left,
    construct_lem (somes xs) left old (some item) (length xs) (sym (length-somes xs))
        ∙ ap ok (
            sym (append_assoc (somes xs) (some item ∷ []) left)
            ∙ ap (λ u. u ++ left) (sym (somes-append xs (item ∷ [])))),
  )

  -- ensure_capacity keeps the elements and leaves room for as many as it is asked for.
  pub ensure_capacity_lem :
      (v : Vector A) (xs : List A) (spare : List (Option A)) (capacity : ℕ)
      → Holds v xs spare
      → length v.array < 2 ^ 64
      → capacity ≤ 2 ^ 63
      → (v' : Vector A) × (spare' : List (Option A)) × (ensure_capacity A v capacity ≡ ok v')
        × Holds v' xs spare'
        × (capacity ≤ length xs + length spare')
  unfolding ensure_capacity
  ensure_capacity_lem v xs spare capacity h w c =
      let first : ℕ = if length v.array == 0 then 1 else length v.array in
      let some_room : (0 < first) × (first < 2 ^ 64) × (length v.array ≤ first) =
        (ground arith, ground arith, ground arith) in
      let old = ap length h.1 in
      let both = length-append (somes xs) spare in
      let objects = length-somes xs in
      let (r, run, enough, inside, more, near) =
        double_until_lem first capacity some_room.0 some_room.1 c in
      let then_run : ensure_capacity A v capacity
          ≡ (if r == length v.array then ok v else expand_storage A v r) =
        ap (λ o. o >>= λ n. if n == length v.array then ok v else expand_storage A v n) run in
      elim (Bool-cases (r == length v.array)) [
        | inl e ↦ (
          v,
          spare,
          then_run ∙ rw e refl,
          h,
          omega (arith, equal r (length v.array) e, both, objects, old),
        )
        | inr e ↦
            let (v', spare', run', h', long) = expand_storage_lem v xs spare r h (omega arith) in
            (v', spare', then_run ∙ rw e run', h', omega arith)
      ]

  -- push_back puts the element behind the others, of which there are fewer than 2 ^ 63 in fewer than 2 ^ 64
  -- slots, whether the storage grows or not.
  pub push_back_lem :
      (v : Vector A) (xs : List A) (spare : List (Option A)) (item : A)
      → Holds v xs spare
      → length v.array < 2 ^ 64
      → length xs < 2 ^ 63
      → (v' : Vector A) × (spare' : List (Option A)) × (push_back A v item ≡ ok v')
        × Holds v' (xs ++ (item ∷ [])) spare'
  unfolding push_back
  push_back_lem v xs spare item h w small =
      let one_more : add64 v.size 1 ≡ suc (length xs) = omega (arith, h.0) in
      let (v₁, spare₁, run₁, h₁, room) =
        ensure_capacity_lem v xs spare (add64 v.size 1) h w (omega arith) in
      let (left, run₂) = push_at xs spare₁ item (omega arith) in
      let size : add64 v₁.size 1 ≡ length (xs ++ (item ∷ [])) =
        omega (arith, h₁.0, length-append xs (item ∷ [])) in
      let put : construct A v₁.array v₁.size (some item) ≡ ok (somes (xs ++ (item ∷ [])) ++ left) =
        ap₂ (λ a i. construct A a i (some item)) h₁.1 h₁.0 ∙ run₂ in
      let new : Vector A = record {
        size = add64 v₁.size 1;
        array = somes (xs ++ (item ∷ [])) ++ left;
      } in
      (
        new,
        left,
        ap
              (λ r. r >>= λ u. construct A u.array u.size (some item) >>= λ array.
                ok (record { size = add64 u.size 1; array = array }))
              run₁
            ∙ ap (λ r. r >>= λ array. ok (record { size = add64 v₁.size 1; array = array })) put,
        (size, refl),
      )

  -- expand makes the vector longer by slots that it leaves as they are.
  pub expand_lem :
      (v : Vector A) (xs : List A) (spare : List (Option A)) (n : ℕ)
      → Holds v xs spare
      → length v.array < 2 ^ 64
      → length xs + n ≤ 2 ^ 63
      → (v' : Vector A) × (spare' : List (Option A)) × (expand A v n ≡ ok v')
        × (v'.size ≡ length xs + n)
        × (v'.array ≡ somes xs ++ spare')
        × (n ≤ length spare')
  unfolding expand
  expand_lem v xs spare n h w small =
      let more : add64 n v.size ≡ length xs + n = omega (arith, h.0) in
      let (v₁, spare₁, run₁, h₁, room) =
        ensure_capacity_lem v xs spare (add64 n v.size) h w (omega arith) in
      let size : add64 n v₁.size ≡ length xs + n = omega (arith, h₁.0) in
      let new : Vector A = record { size = add64 n v₁.size; array = v₁.array } in
      (
        new,
        spare₁,
        ap (λ r. r >>= λ u. ok (record { size = add64 n u.size; array = u.array })) run₁,
        size,
        h₁.1,
        omega arith,
      )
