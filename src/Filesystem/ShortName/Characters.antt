-- ===== src/Filesystem/ShortName/Characters.antt =====
-- What a short name is made of.
use bek_os.Common.{
  ℕ, zero, suc, ◌+◌, ◌-◌, min, ◌≤◌, ◌<◌, ◌≡◌, ◌≢◌, refl, sym, ap, ap₂, ◌∙◌, Bool, true, false, not,
  ◌&&◌, ◌||◌, ◌⊎◌, inl, inr, List, [], ◌∷◌, ◌++◌, Option, none, some, arith,
}
use bek_os.Common.Tests.{◌==◌, ltb, leb, Bool-cases, if◌then◌else◌}
use bek_os.Common.Lists.{
  length, take, drop, replicate, length-append, length-replicate, length-splice,
}
use bek_os.Common.Outcome.{ok}
use bek_os.Filesystem.ShortName.{
  is_valid_fat_char, short_char, skip_leading, take_base, take_extension, after_last_dot,
  extension_of, padded, same_name, is_duplicate, with_tail, short_name_of, generate_short_name,
}

-- The characters that FAT reserves: " * + , . / : ; < = > ? [ \\ ] |, the one for delete, and the mark of a
-- free entry.
abbrev pub reserved : List ℕ
reserved =
    34 ∷ 42 ∷ 43 ∷ 44 ∷ 46 ∷ 47 ∷ 58 ∷ 59 ∷ 60 ∷ 61 ∷ 62 ∷ 63 ∷ 91 ∷ 92 ∷ 93 ∷ 124 ∷ 127 ∷ 229 ∷ []

abbrev pub NoneOf : ℕ → List ℕ → Type 0
NoneOf c [] = Unit
NoneOf c (d ∷ rest) = (c ≢ d) × NoneOf c rest

-- A character of a short name: no control character, not reserved, and no small letter.
abbrev pub IsNameChar : ℕ → Type 0
IsNameChar c = (32 ≤ c) × NoneOf c reserved × ((c < 97) ⊎ (122 < c))

abbrev pub AllNameChars : List ℕ → Type 0
AllNameChars [] = Unit
AllNameChars (c ∷ s) = IsNameChar c × AllNameChars s

capital-valid : (c : ℕ) → 65 ≤ c → c ≤ 90 → is_valid_fat_char c ≡ true
unfolding is_valid_fat_char
capital-valid c lo hi =
    let low : leb 65 c ≡ true = ground arith in
    let high : leb c 90 ≡ true = ground arith in rw (low, is_valid_fat_char) (rw high refl)

short_char-cases : (c : ℕ) → (is_valid_fat_char (short_char c) ≡ true) ⊎ (short_char c ≡ 95)
unfolding short_char
short_char-cases c = elim (Bool-cases (leb 97 c && leb c 122)) [
  | inl small ↦
      let up : short_char c ≡ c - 32 = rw small refl in
      let lo : 97 ≤ c = ground arith in
      let hi : c ≤ 122 = ground arith in
      inl (ap is_valid_fat_char up ∙ capital-valid (c - 32) (omega arith) (omega arith))
  | inr large ↦ elim (Bool-cases (is_valid_fat_char c)) [
    | inl valid ↦
        let kept : short_char c ≡ c = rw large (rw valid refl) in
        inl (ap is_valid_fat_char kept ∙ valid)
    | inr other ↦ inr (rw large (rw other refl))
  ]
]

or_false : (a b : Bool) → (a || b) ≡ false → (a ≡ false) × (b ≡ false)
or_false true b e = absurd (cc e)
or_false false b e = (refl, e)

and_true : (a b : Bool) → (a && b) ≡ true → (a ≡ true) × (b ≡ true)
and_true true b e = (refl, e)
and_true false b e = absurd (cc e)

abbrev is_refused : ℕ → Bool
is_refused d = not (is_valid_fat_char d || d == 95)

short_char-differs : (c d : ℕ) → is_refused d ≡ true → short_char c ≢ d
short_char-differs c d refused e =
    let both = or_false (is_valid_fat_char d) (d == 95) (ground arith) in
    elim (short_char-cases c) [
      | inl valid ↦ let valid' = ap is_valid_fat_char (sym e) ∙ valid in cc (valid', both.0)
      | inr line ↦ ground (arith, both.1)
    ]

abbrev all_refused : List ℕ → Bool
all_refused [] = true
all_refused (d ∷ rest) = is_refused d && all_refused rest

short_char-NoneOf : (c : ℕ) (ds : List ℕ) → all_refused ds ≡ true → NoneOf (short_char c) ds
short_char-NoneOf c [] e = tt
short_char-NoneOf c (d ∷ rest) e =
    let (first, later) = and_true (is_refused d) (all_refused rest) e in
    (short_char-differs c d first, short_char-NoneOf c rest later)

short_char-range : (c : ℕ) → (32 ≤ short_char c) × ((short_char c < 97) ⊎ (122 < short_char c))
unfolding is_valid_fat_char short_char
short_char-range c = elim (Bool-cases (ltb 122 (short_char c))) [
  | inl above ↦ (ground arith, inr (ground arith))
  | inr below ↦ (ground arith, inl (ground arith))
]

reserved-refused : all_refused reserved ≡ true
unfolding is_valid_fat_char
reserved-refused = refl

short_char-IsNameChar : (c : ℕ) → IsNameChar (short_char c)
short_char-IsNameChar c =
    let range = short_char-range c in
    (range.0, short_char-NoneOf c reserved reserved-refused, range.1)

append_all : (s t : List ℕ) → AllNameChars s → AllNameChars t → AllNameChars (s ++ t)
append_all [] t a b = b
append_all (c ∷ s) t (a, rest) b = (a, append_all s t rest b)

take_all_chars : (n : ℕ) (s : List ℕ) → AllNameChars s → AllNameChars (take n s)
take_all_chars zero s a = tt
take_all_chars (suc n) [] a = tt
take_all_chars (suc n) (c ∷ s) (a, rest) = (a, take_all_chars n s rest)

drop_all_chars : (n : ℕ) (s : List ℕ) → AllNameChars s → AllNameChars (drop n s)
drop_all_chars zero s a = a
drop_all_chars (suc n) [] a = tt
drop_all_chars (suc n) (c ∷ s) (a, rest) = drop_all_chars n s rest

spaces_all : (n : ℕ) → AllNameChars (replicate n 32)
spaces_all zero = tt
spaces_all (suc n) = (grind arith, spaces_all n)

-- So many characters at most.
abbrev IsPart : ℕ → List ℕ → Type 0
IsPart size s = (length s ≤ size) × AllNameChars s

base_step : ℕ → ℕ → List ℕ → Bool → Bool → List ℕ × List ℕ
base_step room c s d e = elim d [
  | true ↦ ([], c ∷ s)
  | false ↦ elim e [
    | true ↦ take_base (suc room) s
    | false ↦ (short_char c ∷ (take_base room s).0, (take_base room s).1)
  ]
]

take_base-IsPart : (room : ℕ) (s : List ℕ) → IsPart room (take_base room s).0
unfolding take_base base_step
take_base-IsPart zero s = (omega arith, tt)
take_base-IsPart (suc room) [] = (omega arith, tt)
take_base-IsPart (suc room) (c ∷ s) =
    go (c == 46) (c == 32) (take_base-IsPart room s) (take_base-IsPart (suc room) s)
  where
    go :
        (d e : Bool)
        → IsPart room (take_base room s).0
        → IsPart (suc room) (take_base (suc room) s).0
        → IsPart (suc room) (base_step room c s d e).0
    go true e a b = (omega arith, tt)
    go false true a b = b
    go false false (size, all) b = (omega arith, (short_char-IsNameChar c, all))

take_extension-IsPart : (room : ℕ) (s : List ℕ) → IsPart room (take_extension room s)
unfolding take_extension
take_extension-IsPart zero s = (omega arith, tt)
take_extension-IsPart (suc room) [] = (omega arith, tt)
take_extension-IsPart (suc room) (c ∷ s) =
    go (c == 32) (take_extension-IsPart room s) (take_extension-IsPart (suc room) s)
  where
    go :
        (e : Bool)
        → IsPart room (take_extension room s)
        → IsPart (suc room) (take_extension (suc room) s)
        → IsPart (suc room) (elim e [
          | true ↦ take_extension (suc room) s
          | false ↦ short_char c ∷ take_extension room s
        ])
    go true a b = b
    go false (size, all) b = (omega arith, (short_char-IsNameChar c, all))

extension_of-IsPart : (s : List ℕ) → IsPart 3 (extension_of s)
extension_of-IsPart s = go (after_last_dot s)
  where
    go : (o : Option (List ℕ)) → IsPart 3 (elim o [ some s ↦ take_extension 3 s | none ↦ [] ])
    go (some s) = take_extension-IsPart 3 s
    go none = (omega arith, tt)

-- A whole name: eleven characters.
abbrev pub IsShortName : List ℕ → Type 0
IsShortName s = (length s ≡ 11) × AllNameChars s

padded-part :
    (size : ℕ) (s : List ℕ)
    → IsPart size s
    → (length (padded size s) ≡ size) × AllNameChars (padded size s)
padded-part size s (short, all) =
    let parts = length-append s (replicate (size - length s) 32) in
    let spaces = length-replicate {A = ℕ} (size - length s) 32 in
    (omega arith, append_all s (replicate (size - length s) 32) all (spaces_all (size - length s)))

with_tail-IsShortName : (n : ℕ) (s : List ℕ) → IsShortName s → IsShortName (with_tail n s)
with_tail-IsShortName n s (size, all) =
    let tail : List ℕ = 126 ∷ 49 ∷ [] in
    let i = min n 6 in
    let same = length-splice s i tail (omega arith) in
    (
      same ∙ size,
      append_all (take i s) (tail ++ drop (i + length tail) s) (take_all_chars i s all) (
          append_all tail (drop (i + length tail) s) (grind arith, (grind arith, tt))
            (drop_all_chars (i + length tail) s all)),
    )

short_name_of-IsShortName :
    (parts : List ℕ × List ℕ) (short_names : List (List ℕ))
    → IsPart 8 parts.0
    → IsShortName (short_name_of parts short_names)
short_name_of-IsShortName (base, left) short_names p =
    let (eight, all) = padded-part 8 base p in
    let (three, all') = padded-part 3 (extension_of left) (extension_of-IsPart left) in
    let name = padded 8 base ++ padded 3 (extension_of left) in
    let size = length-append (padded 8 base) (padded 3 (extension_of left)) in
    let whole : IsShortName name =
      (omega arith, append_all (padded 8 base) (padded 3 (extension_of left)) all all') in
    go name (is_duplicate name short_names) whole
  where
    go :
        (s : List ℕ) (b : Bool)
        → IsShortName s
        → IsShortName (if b then with_tail (length base) s else s)
    go s true w = with_tail-IsShortName (length base) s w
    go s false w = w

same_name-equal : (s t : List ℕ) → same_name s t ≡ true → s ≡ t
same_name-equal [] [] e = refl
same_name-equal [] (d ∷ t) e = absurd (cc e)
same_name-equal (c ∷ s) [] e = absurd (cc e)
same_name-equal (c ∷ s) (d ∷ t) e = elim (Bool-cases (c == d)) [
  | inr other ↦ absurd (cc (e, other))
  | inl first ↦
      let rest : same_name s t ≡ true = ap (λ b. b && same_name s t) (sym first) ∙ e in
      let first' : c ≡ d = ground arith in ap₂ (λ u us. u ∷ us) first' (same_name-equal s t rest)
]

-- The short names: the dots of the two names for directories, and eleven characters for the others.
abbrev pub ShortNameOf : List ℕ → List ℕ → Type 0
ShortNameOf full_name r =
    ((full_name ≡ 46 ∷ []) × (r ≡ 46 ∷ replicate 10 32))
    ⊎ ((full_name ≡ 46 ∷ 46 ∷ []) × (r ≡ 46 ∷ 46 ∷ replicate 9 32))
    ⊎ ((full_name ≢ 46 ∷ []) × (full_name ≢ 46 ∷ 46 ∷ []) × IsShortName r)

-- Every name but the empty one gets a short name. It is the same with spaces behind it for the names
-- . and .. of directories; for every other name it has eleven characters, none of which is a control
-- character, one that FAT reserves (the dot is one of these) or a small letter.
pub generate_short_name-IsShortName :
    (full_name : List ℕ) (short_names : List (List ℕ))
    → 0 < length full_name
    → (r : List ℕ) × (generate_short_name full_name short_names ≡ ok r) × ShortNameOf full_name r
unfolding generate_short_name
generate_short_name-IsShortName full_name short_names h =
    let not_empty : not (length full_name == 0) ≡ true = ground arith in
    let answer : Bool → Bool → List ℕ = λ d dd.
      if d
      then 46 ∷ replicate 10 32
      else (if dd
          then 46 ∷ 46 ∷ replicate 9 32
          else short_name_of (take_base 8 (skip_leading full_name)) short_names) in
    let d = same_name full_name (46 ∷ []) in
    let dd = same_name full_name (46 ∷ 46 ∷ []) in
    (answer d dd, rw not_empty refl, go d dd refl refl)
  where
    go :
        (d dd : Bool)
        → same_name full_name (46 ∷ []) ≡ d
        → same_name full_name (46 ∷ 46 ∷ []) ≡ dd
        → ShortNameOf full_name (
            if d
            then 46 ∷ replicate 10 32
            else (if dd
                then 46 ∷ 46 ∷ replicate 9 32
                else short_name_of (take_base 8 (skip_leading full_name)) short_names))
    go true dd e f = inl (same_name-equal full_name (46 ∷ []) e, refl)
    go false true e f = inr (inl (same_name-equal full_name (46 ∷ 46 ∷ []) f, refl))
    go false false e f = inr (
        inr (
          λ g.
              let same : same_name full_name (46 ∷ []) ≡ true = ap (λ u. same_name u (46 ∷ [])) g in
              cc (same, e),
          λ g.
              let same : same_name full_name (46 ∷ 46 ∷ []) ≡ true =
                ap (λ u. same_name u (46 ∷ 46 ∷ [])) g in
              cc (same, f),
          short_name_of-IsShortName (take_base 8 (skip_leading full_name)) short_names
              (take_base-IsPart 8 (skip_leading full_name)),
        ))
