-- ===== src/Filesystem/ShortName.antt =====
-- The short names of FAT, kernel/src/filesystem/fat.cpp: eight characters and three, in capitals. A
-- string is the list of its bytes; `char` is unsigned on this processor.
pub mod Characters
pub mod RoundTrip
use bek_os.Common.{
  ℕ, zero, suc, ◌+◌, ◌-◌, ◌*◌, ◌/◌, ◌%◌, min, Bool, true, false, ◌&&◌, ◌||◌, not, List, [], ◌∷◌,
  ◌++◌, Option, none, some,
}
use bek_os.Common.Tests.{◌==◌, ltb, leb, if◌then◌else◌}
use bek_os.Common.Lists.{length, take, drop, replicate, splice}
use bek_os.Common.Outcome.{Outcome, ok, ◌>>◌, verify}

-- The characters of the switch.
abbrev pub is_special_char : ℕ → Bool
is_special_char c =
    leb 32 c && leb c 33
    || (leb 35 c && leb c 41 || (c == 45 || (c == 96 || (c == 123 || leb 125 c && leb c 126))))

unfoldable pub is_valid_fat_char : ℕ → Bool
is_valid_fat_char c =
    leb 65 c && leb c 90
    || (leb 48 c && leb c 57 || (leb 128 c && leb c 228 || (leb 230 c || is_special_char c)))

-- A character that is not a space, as it goes into a short name.
unfoldable pub short_char : ℕ → ℕ
short_char c = if leb 97 c && leb c 122 then c - 32 else (if is_valid_fat_char c then c else 95)

-- The loop that leaves the dots and spaces in front out.
unfoldable pub skip_leading : List ℕ → List ℕ
skip_leading [] = []
skip_leading (c ∷ rest) = if c == 46 || c == 32 then skip_leading rest else c ∷ rest

-- The loop over the name, up to a dot, with room for so many characters; it gives what it took and
-- what is left of the name.
unfoldable pub take_base : ℕ → List ℕ → List ℕ × List ℕ
unfolding short_char
take_base zero name = ([], name)
take_base (suc room) [] = ([], [])
take_base (suc room) (c ∷ rest) = elim (c == 46) [
  | true ↦ ([], c ∷ rest)
  | false ↦ elim (c == 32) [
    | true ↦ take_base (suc room) rest
    | false ↦ let (taken, left) = take_base room rest in (short_char c ∷ taken, left)
  ]
]

-- The loop over the extension.
unfoldable pub take_extension : ℕ → List ℕ → List ℕ
unfolding short_char
take_extension zero name = []
take_extension (suc room) [] = []
take_extension (suc room) (c ∷ rest) = elim (c == 32) [
  | true ↦ take_extension (suc room) rest
  | false ↦ short_char c ∷ take_extension room rest
]

-- What stands behind the last dot.
unfoldable pub after_last_dot : List ℕ → Option (List ℕ)
after_last_dot [] = none
after_last_dot (c ∷ rest) = elim (after_last_dot rest) [
  | some s ↦ some s
  | none ↦ if c == 46 then some rest else none
]

abbrev pub extension_of : List ℕ → List ℕ
extension_of name = elim (after_last_dot name) [ some s ↦ take_extension 3 s | none ↦ [] ]

-- The characters of a part of the name, and the spaces behind them.
abbrev pub padded : ℕ → List ℕ → List ℕ
padded size s = s ++ replicate (size - length s) 32

abbrev pub same_name : List ℕ → List ℕ → Bool
same_name [] [] = true
same_name [] (d ∷ t) = false
same_name (c ∷ s) [] = false
same_name (c ∷ s) (d ∷ t) = c == d && same_name s t

unfoldable pub is_duplicate : List ℕ → List (List ℕ) → Bool
is_duplicate name [] = false
is_duplicate name (s ∷ short_names) = same_name s name || is_duplicate name short_names

-- The candidate with the tail ~1. The loop over the numbers ends with it: the comparison with the
-- names that are there goes on to the next name, and not to the next number.
abbrev pub with_tail : ℕ → List ℕ → List ℕ
with_tail base_len name = splice name (min base_len 6) (126 ∷ 49 ∷ [])

abbrev pub short_name_of : List ℕ × List ℕ → List (List ℕ) → List ℕ
short_name_of (base, left) short_names =
    let r = padded 8 base ++ padded 3 (extension_of left) in
    if is_duplicate r short_names then with_tail (length base) r else r

unfoldable pub generate_short_name : List ℕ → List (List ℕ) → Outcome (List ℕ)
unfolding skip_leading take_base take_extension after_last_dot is_duplicate
generate_short_name full_name short_names =
    verify (not (length full_name == 0))
    >> ok (
        if same_name full_name (46 ∷ [])
        then 46 ∷ replicate 10 32
        else (if same_name full_name (46 ∷ 46 ∷ [])
            then 46 ∷ 46 ∷ replicate 9 32
            else short_name_of (take_base 8 (skip_leading full_name)) short_names))

-- A rotation to the right, and a sum, of bytes.
abbrev pub checksum_step : ℕ → ℕ → ℕ
checksum_step checksum i = (checksum % 2 * 128 + checksum / 2 + i) % 256

unfoldable pub checksum_from : ℕ → List ℕ → ℕ
checksum_from checksum [] = checksum
checksum_from checksum (i ∷ name) = checksum_from (checksum_step checksum i) name

abbrev pub checksum_shortname : List ℕ → ℕ
checksum_shortname name = checksum_from 0 name

-- The loop over a part of the name, to its end or the first space.
unfoldable pub until_space : List ℕ → List ℕ
until_space [] = []
until_space (c ∷ rest) = if c == 32 then [] else c ∷ until_space rest

unfoldable pub short_name_to_string : List ℕ → List ℕ
unfolding until_space
short_name_to_string name =
    let main = until_space (take 8 name) in
    let ext = until_space (take 3 (drop 8 name)) in
    if length ext == 0 then main else main ++ 46 ∷ ext
