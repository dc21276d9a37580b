-- ===== src/Library/Hashtable/Rotation.antt =====
-- A list read from one of its places on and around, after a write.
use bek_os.Common.{
  ℕ, zero, suc, ◌+◌, ◌-◌, ◌<◌, ◌≤◌, ◌≡◌, refl, sym, ap, ap₂, ◌∙◌, inl, inr, List, [], ◌∷◌, ◌++◌,
  arith,
}
use bek_os.Common.Tests.{leb, if◌then◌else◌, Bool-cases}
use bek_os.Common.Lists.{
  take-set_high, length, get_elem?, set, take, drop, length-take, length-drop, length-append,
}

-- Where the element of index `i` stands in the rotated list.
abbrev pub turned : ℕ → ℕ → ℕ → ℕ
turned n i len = if leb n i then i - n else len - n + i

module _ {ℓ} {A : Type ℓ} where
  abbrev pub rotate : ℕ → List A → List A
  rotate n xs = drop n xs ++ take n xs

  drop-set_high :
      (n : ℕ) (xs : List A) (i : ℕ) (v : A)
      → n ≤ i
      → drop n (set xs i v) ≡ set (drop n xs) (i - n) v
  drop-set_high zero xs i v h = ap (λ k. set xs k v) (omega arith)
  drop-set_high (suc n) [] i v h = refl
  drop-set_high (suc n) (x ∷ xs) zero v h = absurd (omega arith)
  drop-set_high (suc n) (x ∷ xs) (suc i) v h =
      drop-set_high n xs i v (omega arith) ∙ ap (λ k. set (drop n xs) k v) (omega arith)

  drop-set_low : (n : ℕ) (xs : List A) (i : ℕ) (v : A) → i < n → drop n (set xs i v) ≡ drop n xs
  drop-set_low zero xs i v h = absurd (omega arith)
  drop-set_low (suc n) [] i v h = refl
  drop-set_low (suc n) (x ∷ xs) zero v h = refl
  drop-set_low (suc n) (x ∷ xs) (suc i) v h = drop-set_low n xs i v (omega arith)

  take-set_low :
      (n : ℕ) (xs : List A) (i : ℕ) (v : A) → i < n → take n (set xs i v) ≡ set (take n xs) i v
  take-set_low zero xs i v h = absurd (omega arith)
  take-set_low (suc n) [] i v h = refl
  take-set_low (suc n) (x ∷ xs) zero v h = refl
  take-set_low (suc n) (x ∷ xs) (suc i) v h = ap (λ u. x ∷ u) (take-set_low n xs i v (omega arith))

  set-append_left :
      (xs ys : List A) (i : ℕ) (v : A) → i < length xs → set (xs ++ ys) i v ≡ set xs i v ++ ys
  set-append_left [] ys i v h = absurd (omega arith)
  set-append_left (x ∷ xs) ys zero v h = refl
  set-append_left (x ∷ xs) ys (suc i) v h =
      ap (λ u. x ∷ u) (set-append_left xs ys i v (omega arith))

  set-append_right :
      (xs ys : List A) (i k : ℕ) (v : A) → k ≡ length xs + i → set (xs ++ ys) k v ≡ xs ++ set ys i v
  set-append_right [] ys i k v h = ap (λ j. set ys j v) (omega arith)
  set-append_right (x ∷ xs) ys i zero v h = absurd (omega arith)
  set-append_right (x ∷ xs) ys i (suc k) v h =
      ap (λ u. x ∷ u) (set-append_right xs ys i k v (omega arith))

  pub get-append_left :
      (xs ys : List A) (i : ℕ) → i < length xs → get_elem? (xs ++ ys) i ≡ get_elem? xs i
  get-append_left [] ys i h = absurd (omega arith)
  get-append_left (x ∷ xs) ys zero h = refl
  get-append_left (x ∷ xs) ys (suc i) h = get-append_left xs ys i (omega arith)

  pub get-append_right :
      (xs ys : List A) (i k : ℕ) → k ≡ length xs + i → get_elem? (xs ++ ys) k ≡ get_elem? ys i
  get-append_right [] ys i k h = ap (get_elem? ys) (omega arith)
  get-append_right (x ∷ xs) ys i zero h = absurd (omega arith)
  get-append_right (x ∷ xs) ys i (suc k) h = get-append_right xs ys i k (omega arith)

  pub get-drop :
      (n : ℕ) (xs : List A) (i k : ℕ) → k ≡ n + i → get_elem? (drop n xs) i ≡ get_elem? xs k
  get-drop zero xs i k h = ap (get_elem? xs) (omega arith)
  get-drop (suc n) [] i k h = refl
  get-drop (suc n) (x ∷ xs) i zero h = absurd (omega arith)
  get-drop (suc n) (x ∷ xs) i (suc k) h = get-drop n xs i k (omega arith)

  pub get-take : (n : ℕ) (xs : List A) (i : ℕ) → i < n → get_elem? (take n xs) i ≡ get_elem? xs i
  get-take zero xs i h = absurd (omega arith)
  get-take (suc n) [] i h = refl
  get-take (suc n) (x ∷ xs) zero h = refl
  get-take (suc n) (x ∷ xs) (suc i) h = get-take n xs i (omega arith)

  -- A write to a list is one to the rotated list.
  pub rotate-set :
      (n : ℕ) (xs : List A) (i : ℕ) (v : A)
      → n ≤ length xs
      → i < length xs
      → (rotate n (set xs i v) ≡ set (rotate n xs) (turned n i (length xs)) v)
        × (get_elem? (rotate n xs) (turned n i (length xs)) ≡ get_elem? xs i)
        × (turned n i (length xs) < length (rotate n xs))
  rotate-set n xs i v h l =
      let ld = length-drop n xs in
      let lt = length-take n xs in
      let la = length-append (drop n xs) (take n xs) in
      elim (Bool-cases (leb n i)) [
        | inl e ↦
            let le : n ≤ i = ground arith in
            rw e (
              ap₂ (λ u w. u ++ w) (drop-set_high n xs i v le) (take-set_high n xs i v le)
                  ∙ sym (set-append_left (drop n xs) (take n xs) (i - n) v (omega arith)),
              get-append_left (drop n xs) (take n xs) (i - n) (omega arith)
                  ∙ get-drop n xs (i - n) i (omega arith),
              omega arith,
            )
        | inr e ↦
            let lt' : i < n = ground arith in
            rw e (
              ap₂ (λ u w. u ++ w) (drop-set_low n xs i v lt') (take-set_low n xs i v lt')
                  ∙ sym (
                      set-append_right (drop n xs) (take n xs) i (length xs - n + i) v
                        (omega arith)),
              get-append_right (drop n xs) (take n xs) i (length xs - n + i) (omega arith)
                  ∙ get-take n xs i lt',
              omega arith,
            )
      ]
