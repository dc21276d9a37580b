-- ===== src/Common/Lists.antt =====
-- Lists measured, indexed and overwritten by native numbers.
use Prim.Native.Nat.{ℕ, zero, suc, ◌+◌, ◌-◌, ◌≤◌, min}
use mathlib.Core.Path.{◌≡◌, refl, ap, ap₂, subst, ◌∙◌, sym}
use mathlib.Core.List.{List, [], ◌∷◌, ◌++◌, append_assoc}
use mathlib.Core.Option.{Option, none, some}
use native.Mathlib.Omega.{arith}

module _ {ℓ} {A : Type ℓ} where
  abbrev pub length : List A → ℕ
  length [] = 0
  length (x ∷ xs) = suc (length xs)

  abbrev pub get_elem? : List A → ℕ → Option A
  get_elem? [] i = none
  get_elem? (x ∷ xs) zero = some x
  get_elem? (x ∷ xs) (suc i) = get_elem? xs i

  abbrev pub set : List A → ℕ → A → List A
  set [] i v = []
  set (x ∷ xs) zero v = v ∷ xs
  set (x ∷ xs) (suc i) v = x ∷ set xs i v

  abbrev pub take : ℕ → List A → List A
  take zero xs = []
  take (suc n) [] = []
  take (suc n) (x ∷ xs) = x ∷ take n xs

  abbrev pub drop : ℕ → List A → List A
  drop zero xs = xs
  drop (suc n) [] = []
  drop (suc n) (x ∷ xs) = drop n xs

  abbrev pub replicate : ℕ → A → List A
  replicate zero a = []
  replicate (suc n) a = a ∷ replicate n a

  -- The `n` elements from index `i`.
  abbrev pub slice : ℕ → ℕ → List A → List A
  slice i n xs = take n (drop i xs)

  -- `xs` with `ys` copied over it from index `i`.
  abbrev pub splice : List A → ℕ → List A → List A
  splice xs i ys = take i xs ++ (ys ++ drop (i + length ys) xs)

module _ {ℓ} {A : Type ℓ} where
  pub length-append : (xs ys : List A) → length (xs ++ ys) ≡ length xs + length ys
  length-append [] ys = omega arith
  length-append (x ∷ xs) ys = omega (arith, length-append xs ys)

  pub length-take : (n : ℕ) (xs : List A) → length (take n xs) ≡ min n (length xs)
  length-take zero xs = omega arith
  length-take (suc n) [] = omega arith
  length-take (suc n) (x ∷ xs) = omega (arith, length-take n xs)

  pub length-drop : (n : ℕ) (xs : List A) → length (drop n xs) ≡ length xs - n
  length-drop zero xs = omega arith
  length-drop (suc n) [] = omega arith
  length-drop (suc n) (x ∷ xs) = omega (arith, length-drop n xs)

  pub length-replicate : (n : ℕ) (a : A) → length (replicate n a) ≡ n
  length-replicate zero a = refl
  length-replicate (suc n) a = ap suc (length-replicate n a)

  pub take-append-drop : (n : ℕ) (xs : List A) → take n xs ++ drop n xs ≡ xs
  take-append-drop zero xs = refl
  take-append-drop (suc n) [] = refl
  take-append-drop (suc n) (x ∷ xs) = ap (λ t. x ∷ t) (take-append-drop n xs)

module _ {ℓ} {A : Type ℓ} where
  pub drop-drop : (n m k : ℕ) (xs : List A) → k ≡ n + m → drop m (drop n xs) ≡ drop k xs
  drop-drop zero m k xs e = ap (λ t. drop t xs) (omega arith)
  drop-drop (suc n) m zero xs e = absurd (omega arith)
  drop-drop (suc n) zero (suc k) [] e = refl
  drop-drop (suc n) (suc m) (suc k) [] e = refl
  drop-drop (suc n) m (suc k) (x ∷ xs) e = drop-drop n m k xs (omega arith)

  pub take-add : (n m k : ℕ) (xs : List A) → k ≡ n + m → take k xs ≡ take n xs ++ take m (drop n xs)
  take-add zero m k xs e = ap (λ t. take t xs) (omega arith)
  take-add (suc n) m zero xs e = absurd (omega arith)
  take-add (suc n) zero (suc k) [] e = refl
  take-add (suc n) (suc m) (suc k) [] e = refl
  take-add (suc n) m (suc k) (x ∷ xs) e = ap (λ t. x ∷ t) (take-add n m k xs (omega arith))

  pub take_all : (n : ℕ) (xs : List A) → length xs ≤ n → take n xs ≡ xs
  take_all zero [] h = refl
  take_all zero (x ∷ xs) h = absurd (omega arith)
  take_all (suc n) [] h = refl
  take_all (suc n) (x ∷ xs) h = ap (λ t. x ∷ t) (take_all n xs (omega arith))

  pub drop_all : (n : ℕ) (xs : List A) → length xs ≤ n → drop n xs ≡ []
  drop_all zero [] h = refl
  drop_all zero (x ∷ xs) h = absurd (omega arith)
  drop_all (suc n) [] h = refl
  drop_all (suc n) (x ∷ xs) h = drop_all n xs (omega arith)

  pub take-append : (n : ℕ) (xs ys : List A) → n ≤ length xs → take n (xs ++ ys) ≡ take n xs
  take-append zero xs ys h = refl
  take-append (suc n) [] ys h = absurd (omega arith)
  take-append (suc n) (x ∷ xs) ys h = ap (λ t. x ∷ t) (take-append n xs ys (omega arith))

  pub drop-append : (n : ℕ) (xs ys : List A) → n ≤ length xs → drop n (xs ++ ys) ≡ drop n xs ++ ys
  drop-append zero xs ys h = refl
  drop-append (suc n) [] ys h = absurd (omega arith)
  drop-append (suc n) (x ∷ xs) ys h = drop-append n xs ys (omega arith)

  pub take-append_self : (xs ys : List A) → take (length xs) (xs ++ ys) ≡ xs
  take-append_self [] ys = refl
  take-append_self (x ∷ xs) ys = ap (λ t. x ∷ t) (take-append_self xs ys)

  pub drop-append_self : (xs ys : List A) → drop (length xs) (xs ++ ys) ≡ ys
  drop-append_self [] ys = refl
  drop-append_self (x ∷ xs) ys = drop-append_self xs ys

module _ {ℓ} {A : Type ℓ} where
  pub length-splice :
      (xs : List A) (i : ℕ) (ys : List A)
      → i + length ys ≤ length xs
      → length (splice xs i ys) ≡ length xs
  length-splice xs i ys h = omega (
    arith,
    length-append (take i xs) (ys ++ drop (i + length ys) xs),
    length-append ys (drop (i + length ys) xs),
    length-take i xs,
    length-drop (i + length ys) xs,
  )

  -- A slice that ends before the copied part is unchanged.
  pub slice-splice_before :
      (xs : List A) (i : ℕ) (ys : List A) (j n : ℕ)
      → i ≤ length xs
      → j + n ≤ i
      → slice j n (splice xs i ys) ≡ slice j n xs
  slice-splice_before xs i ys j n h e =
      let lt = length-take i xs in
      let ld = length-drop j (take i xs) in
      let rest = ys ++ drop (i + length ys) xs in
      let a = ap (λ t. take n t) (drop-append j (take i xs) rest (omega arith)) in
      let b = take-append n (drop j (take i xs)) rest (omega arith) in
      let c = take-append n (drop j (take i xs)) (drop i xs) (omega arith) in
      let d = ap (λ t. take n t) (drop-append j (take i xs) (drop i xs) (omega arith)) in
      a ∙ b ∙ sym c ∙ sym d ∙ ap (λ t. take n (drop j t)) (take-append-drop i xs)

  -- The slice from `j` up to the end of the copied part gains the copied elements.
  pub slice-splice_end :
      (xs : List A) (i : ℕ) (ys : List A) (j n m : ℕ)
      → i + length ys ≤ length xs
      → j + n ≡ i
      → m ≡ n + length ys
      → slice j m (splice xs i ys) ≡ slice j n xs ++ ys
  slice-splice_end xs i ys j n m h e k =
      let lt = length-take i xs in
      let before = slice-splice_before xs i ys j n (omega arith) (omega arith) in
      let at = drop-drop j n i (splice xs i ys) (sym e) in
      let cut : drop i (splice xs i ys) ≡ ys ++ drop (i + length ys) xs =
        subst (λ t. drop t (splice xs i ys) ≡ ys ++ drop (i + length ys) xs) (omega arith)
          (drop-append_self (take i xs) (ys ++ drop (i + length ys) xs)) in
      take-add n (length ys) m (drop j (splice xs i ys)) k
      ∙ ap₂ ◌++◌ before
          (ap (λ t. take (length ys) t) (at ∙ cut) ∙ take-append_self ys (drop (i + length ys) xs))

  pub drop-splice_after :
      (xs : List A) (i : ℕ) (ys : List A) (j : ℕ)
      → i + length ys ≤ length xs
      → i + length ys ≤ j
      → drop j (splice xs i ys) ≡ drop j xs
  drop-splice_after xs i ys j h e =
      let n = i + length ys in
      let lt = length-take i xs in
      let la = length-append (take i xs) ys in
      let tail = drop n xs in
      let whole = ap (λ t. drop n t) (sym (append_assoc (take i xs) ys tail)) in
      let cut : drop n ((take i xs ++ ys) ++ tail) ≡ tail =
        subst (λ t. drop t ((take i xs ++ ys) ++ tail) ≡ tail) (omega arith)
          (drop-append_self (take i xs ++ ys) tail) in
      sym (drop-drop n (j - n) j (splice xs i ys) (omega arith))
      ∙ ap (λ t. drop (j - n) t) (whole ∙ cut)
      ∙ drop-drop n (j - n) j xs (omega arith)

  -- Two copies, the second right behind the first, are one.
  pub splice-splice :
      (xs : List A) (i : ℕ) (ys zs : List A)
      → i + length ys ≤ length xs
      → splice (splice xs i ys) (i + length ys) zs ≡ splice xs i (ys ++ zs)
  splice-splice xs i ys zs h =
      let n = i + length ys in
      let lt = length-take i xs in
      let la = length-append (take i xs) ys in
      let lz = length-append ys zs in
      let tail = drop n xs in
      let shape = sym (append_assoc (take i xs) ys tail) in
      let front : take n ((take i xs ++ ys) ++ tail) ≡ take i xs ++ ys =
        subst (λ t. take t ((take i xs ++ ys) ++ tail) ≡ take i xs ++ ys) (omega arith)
          (take-append_self (take i xs ++ ys) tail) in
      let back = drop-splice_after xs i ys (n + length zs) h (omega arith) in
      let same : n + length zs ≡ i + length (ys ++ zs) = omega arith in
      ap₂ (λ s t. s ++ (zs ++ t)) (ap (λ t. take n t) shape ∙ front)
        (back ∙ ap (λ t. drop t xs) same)
      ∙ append_assoc (take i xs) ys (zs ++ drop (i + length (ys ++ zs)) xs)
      ∙ ap (λ t. take i xs ++ t) (sym (append_assoc ys zs (drop (i + length (ys ++ zs)) xs)))

module _ {ℓ} {A : Type ℓ} where
  pub length-set : (xs : List A) (i : ℕ) (v : A) → length (set xs i v) ≡ length xs
  length-set [] i v = refl
  length-set (x ∷ xs) zero v = refl
  length-set (x ∷ xs) (suc i) v = ap suc (length-set xs i v)

  pub take-set_high :
      (n : ℕ) (xs : List A) (i : ℕ) (v : A) → n ≤ i → take n (set xs i v) ≡ take n xs
  take-set_high zero xs i v h = refl
  take-set_high (suc n) [] i v h = refl
  take-set_high (suc n) (x ∷ xs) zero v h = absurd (omega arith)
  take-set_high (suc n) (x ∷ xs) (suc i) v h =
      ap (λ u. x ∷ u) (take-set_high n xs i v (omega arith))
