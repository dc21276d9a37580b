-- ===== src/Filesystem/ShortName/RoundTrip.antt =====
-- Names that are short already.
use bek_os.Common.{
  ℕ, zero, suc, ◌-◌, ◌≤◌, ◌<◌, ◌≡◌, ◌≢◌, refl, ap, ap₂, ◌∙◌, subst, Bool, true, false, not, List,
  [], ◌∷◌, ◌++◌, none, some, arith,
}
use bek_os.Common.Tests.{◌==◌, if◌then◌else◌}
use bek_os.Common.Lists.{
  length, take, drop, replicate, length-append, length-replicate, take-append_self, take_all,
  drop-append_self,
}
use bek_os.Common.Outcome.{Outcome, ok, ◌>>◌, verify}
use bek_os.Filesystem.ShortName.{
  is_valid_fat_char, short_char, skip_leading, take_base, take_extension, after_last_dot,
  extension_of, padded, same_name, is_duplicate, with_tail, short_name_of, generate_short_name,
  until_space, short_name_to_string,
}

-- A character that a short name keeps.
abbrev pub IsPlain : ℕ → Type 0
IsPlain c = (is_valid_fat_char c ≡ true) × (c ≢ 32)

abbrev pub AllPlain : List ℕ → Type 0
AllPlain [] = Unit
AllPlain (c ∷ s) = IsPlain c × AllPlain s

plain_lem : (c : ℕ) → IsPlain c → ((c == 46) ≡ false) × ((c == 32) ≡ false) × (short_char c ≡ c)
unfolding is_valid_fat_char short_char
plain_lem c (h, n) = (ground arith, ground arith, ground arith)

take_base-plain :
    (room : ℕ) (base ext : List ℕ)
    → AllPlain base
    → length base ≤ room
    → take_base room (base ++ 46 ∷ ext) ≡ (base, 46 ∷ ext)
unfolding take_base
take_base-plain zero [] ext p h = refl
take_base-plain (suc room) [] ext p h = refl
take_base-plain zero (c ∷ base) ext p h = absurd (omega arith)
take_base-plain (suc room) (c ∷ base) ext (p, ps) h =
    let (dot, space, same) = plain_lem c p in
    let ih = take_base-plain room base ext ps (omega arith) in
    let answer : Bool → Bool → ℕ → List ℕ × List ℕ → List ℕ × List ℕ = λ d s k r. elim d [
      | true ↦ ([], c ∷ (base ++ 46 ∷ ext))
      | false ↦ elim s [ true ↦ take_base (suc room) (base ++ 46 ∷ ext) | false ↦ (k ∷ r.0, r.1) ]
    ] in
    ap (λ d. answer d (c == 32) (short_char c) (take_base room (base ++ 46 ∷ ext))) dot
    ∙ ap (λ s. answer false s (short_char c) (take_base room (base ++ 46 ∷ ext))) space
    ∙ ap (λ k. answer false false k (take_base room (base ++ 46 ∷ ext))) same
    ∙ ap (answer false false c) ih

take_extension-plain :
    (room : ℕ) (ext : List ℕ) → AllPlain ext → length ext ≤ room → take_extension room ext ≡ ext
unfolding take_extension
take_extension-plain zero [] p h = refl
take_extension-plain (suc room) [] p h = refl
take_extension-plain zero (c ∷ ext) p h = absurd (omega arith)
take_extension-plain (suc room) (c ∷ ext) (p, ps) h =
    let (dot, space, same) = plain_lem c p in
    rw (space, take_extension) (rw (same, take_extension-plain room ext ps (omega arith)) refl)

after_last_dot-plain : (s : List ℕ) → AllPlain s → after_last_dot s ≡ none
unfolding after_last_dot
after_last_dot-plain [] p = refl
after_last_dot-plain (c ∷ s) (p, ps) =
    let (dot, space, same) = plain_lem c p in rw (after_last_dot-plain s ps) (rw dot refl)

extension_of-plain : (ext : List ℕ) → AllPlain ext → length ext ≤ 3 → extension_of (46 ∷ ext) ≡ ext
unfolding after_last_dot
extension_of-plain ext p h =
    let found : after_last_dot (46 ∷ ext) ≡ some ext = rw (after_last_dot-plain ext p) refl in
    ap (λ o. elim o [ some s ↦ take_extension 3 s | none ↦ [] ]) found
    ∙ take_extension-plain 3 ext p h

until_space-plain : (n : ℕ) (s : List ℕ) → AllPlain s → until_space (s ++ replicate n 32) ≡ s
unfolding until_space
until_space-plain zero [] p = refl
until_space-plain (suc n) [] p = refl
until_space-plain n (c ∷ s) (p, ps) =
    let (dot, space, same) = plain_lem c p in rw space (ap (λ r. c ∷ r) (until_space-plain n s ps))

length-padded : (size : ℕ) (s : List ℕ) → length s ≤ size → length (padded size s) ≡ size
length-padded size s h =
    let parts = length-append s (replicate (size - length s) 32) in
    let spaces = length-replicate {A = ℕ} (size - length s) 32 in omega arith

skip_leading-plain : (c : ℕ) (s : List ℕ) → IsPlain c → skip_leading (c ∷ s) ≡ c ∷ s
unfolding skip_leading
skip_leading-plain c s p = let (dot, space, same) = plain_lem c p in rw dot (rw space refl)

-- The short name of a name of two parts.
abbrev pub plain_name : List ℕ → List ℕ → List ℕ
plain_name base ext = padded 8 base ++ padded 3 ext

string-plain_name :
    (base ext : List ℕ)
    → AllPlain base
    → AllPlain ext
    → length base ≤ 8
    → length ext ≤ 3
    → 0 < length ext
    → short_name_to_string (plain_name base ext) ≡ base ++ 46 ∷ ext
unfolding short_name_to_string
string-plain_name base ext p q h k some_ext =
    let size = length-padded 8 base h in
    let size' = length-padded 3 ext k in
    let first : take 8 (plain_name base ext) ≡ padded 8 base =
      subst (λ n. take n (plain_name base ext) ≡ padded 8 base) size
        (take-append_self (padded 8 base) (padded 3 ext)) in
    let second : drop 8 (plain_name base ext) ≡ padded 3 ext =
      subst (λ n. drop n (plain_name base ext) ≡ padded 3 ext) size
        (drop-append_self (padded 8 base) (padded 3 ext)) in
    let third : take 3 (padded 3 ext) ≡ padded 3 ext =
      subst (λ n. take n (padded 3 ext) ≡ padded 3 ext) size'
        (take_all (length (padded 3 ext)) (padded 3 ext) (omega arith)) in
    let main : until_space (take 8 (plain_name base ext)) ≡ base =
      ap until_space first ∙ until_space-plain (8 - length base) base p in
    let rest : until_space (take 3 (drop 8 (plain_name base ext))) ≡ ext =
      ap (λ s. until_space (take 3 s)) second
      ∙ ap until_space third
      ∙ until_space-plain (3 - length ext) ext q in
    let some : length ext == 0 ≡ false = ground arith in
    ap₂ (λ m e. if length e == 0 then m else m ++ 46 ∷ e) main rest
    ∙ ap (λ b. if b then base else base ++ 46 ∷ ext) some

-- A name of one to eight characters that a short name keeps, a dot and one to three more, whose
-- short form no name has, gets that form, of eleven characters, and the form is shown as the name.
pub generate_short_name-plain :
    (c : ℕ) (base ext : List ℕ) (short_names : List (List ℕ))
    → AllPlain (c ∷ base)
    → AllPlain ext
    → length base < 8
    → length ext ≤ 3
    → 0 < length ext
    → is_duplicate (plain_name (c ∷ base) ext) short_names ≡ false
    → (r : List ℕ) × (generate_short_name (c ∷ base ++ 46 ∷ ext) short_names ≡ ok r)
      × (length r ≡ 11)
      × (short_name_to_string r ≡ c ∷ base ++ 46 ∷ ext)
unfolding generate_short_name
generate_short_name-plain c base ext short_names p q h k some_ext fresh =
    let (dot, space, same) = plain_lem c p.0 in
    let parts = take_base-plain 8 (c ∷ base) ext p (omega arith) in
    let lead : skip_leading (c ∷ base ++ 46 ∷ ext) ≡ c ∷ base ++ 46 ∷ ext =
      skip_leading-plain c (base ++ 46 ∷ ext) p.0 in
    let size = length-append (padded 8 (c ∷ base)) (padded 3 ext) in
    let eight = length-padded 8 (c ∷ base) (omega arith) in
    let three = length-padded 3 ext k in
    let short : short_name_of (c ∷ base, 46 ∷ ext) short_names ≡ plain_name (c ∷ base) ext =
      ap (λ e. unique (length (c ∷ base)) (padded 8 (c ∷ base) ++ padded 3 e) short_names)
        (extension_of-plain ext q k)
      ∙ ap
          (λ b.
            if b
            then with_tail (length (c ∷ base)) (plain_name (c ∷ base) ext)
            else plain_name (c ∷ base) ext)
          fresh in
    let name : List ℕ = c ∷ base ++ 46 ∷ ext in
    let answer : Bool → Bool → Bool → Outcome (List ℕ) = λ e d dd.
      verify e
      >> ok (
          if d
          then 46 ∷ replicate 10 32
          else (if dd
              then 46 ∷ 46 ∷ replicate 9 32
              else short_name_of (take_base 8 (skip_leading name)) short_names)) in
    let not_empty : not (length name == 0) ≡ true = ground arith in
    let not_dot : same_name name (46 ∷ []) ≡ false = rw dot refl in
    let not_dots : same_name name (46 ∷ 46 ∷ []) ≡ false = rw dot refl in
    (
      plain_name (c ∷ base) ext,
      ap (λ e. answer e (same_name name (46 ∷ [])) (same_name name (46 ∷ 46 ∷ []))) not_empty
          ∙ ap (λ d. answer true d (same_name name (46 ∷ 46 ∷ []))) not_dot
          ∙ ap (answer true false) not_dots
          ∙ (ap (λ s. ok (short_name_of (take_base 8 s) short_names)) lead
              ∙ ap (λ s. ok (short_name_of s short_names)) parts
              ∙ ap ok short),
      omega arith,
      string-plain_name (c ∷ base) ext p q (omega arith) k some_ext,
    )
  where
    unique : ℕ → List ℕ → List (List ℕ) → List ℕ
    unique n r short_names = if is_duplicate r short_names then with_tail n r else r
