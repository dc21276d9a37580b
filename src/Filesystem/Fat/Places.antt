-- ===== src/Filesystem/Fat/Places.antt =====
-- Numbers in the bytes of a sector, and their places.
use bek_os.Common.{ℕ, ◌+◌, ◌*◌, ◌/◌, ◌%◌, ◌^◌, ◌≤◌, ◌<◌, ◌≡◌, ◌≢◌, ap, ◌∙◌, ◌⊎◌, dec_lt, arith}
use native.Mathlib.Nat.{div-add-mod, mod-lt}
use bek_os.Filesystem.Fat.{Sector, get_u16, get_u32, put_u16, put_u32}

beyond : (q n ss x r : ℕ) → n ≤ q → ss * q + r ≡ x → x < n * ss → ⊥
beyond q n ss x r h e b = grind arith

shuffle : (m q : ℕ) → 4 * m * q ≡ 4 * (m * q)
shuffle m q = grind arith

-- The place of a byte in sectors of a size that 4 divides.
pub place_lem :
    (x ss n : ℕ)
    → 0 < ss
    → ss % 4 ≡ 0
    → x < n * ss
    → (x / ss < n)
      × (x % ss < ss)
      × (ss * (x / ss) + x % ss ≡ x)
      × (x % 2 ≡ 0 → x % ss + 2 ≤ ss)
      × (x % 4 ≡ 0 → x % ss + 4 ≤ ss)
place_lem x ss n h e b =
    let whole = div-add-mod x ss in
    let below = mod-lt x h in
    let index : x / ss < n = elim (dec_lt (x / ss) n) [
      | yes lt ↦ lt
      | no ge ↦ absurd (beyond (x / ss) n ss x (x % ss) (omega arith) whole b)
    ] in
    let m = ss / 4 in
    let parts : ss ≡ 4 * m = omega arith in
    let product : ss * (x / ss) ≡ 4 * (m * (x / ss)) =
      ap (λ s. s * (x / ss)) parts ∙ shuffle m (x / ss) in
    (index, below, whole, λ e₂. omega arith, λ e₄. omega arith)

-- Two bytes with different places that the size of an entry divides are that far apart, or in
-- different sectors.
pub apart_lem :
    (x y ss : ℕ)
    → x ≢ y
    → x / ss ≡ y / ss
    → (x % 2 ≡ 0 → y % 2 ≡ 0 → (x % ss + 2 ≤ y % ss) ⊎ (y % ss + 2 ≤ x % ss))
      × (x % 4 ≡ 0 → y % 4 ≡ 0 → (x % ss + 4 ≤ y % ss) ⊎ (y % ss + 4 ≤ x % ss))
apart_lem x y ss away same =
    let whole = div-add-mod x ss in
    let whole' = div-add-mod y ss in
    let product : ss * (x / ss) ≡ ss * (y / ss) = ap (λ q. ss * q) same in
    (λ e f. ground arith, λ e f. ground arith)

pub get_u16-put_u16 : (s : Sector) (i v : ℕ) → get_u16 (put_u16 s i v) i ≡ v % 65536
get_u16-put_u16 s i v = ground arith

pub get_u16-put_u16_apart :
    (s : Sector) (i j v : ℕ) → (i + 2 ≤ j) ⊎ (j + 2 ≤ i) → get_u16 (put_u16 s i v) j ≡ get_u16 s j
get_u16-put_u16_apart s i j v h = ground arith

pub get_u32-put_u32 : (s : Sector) (i v : ℕ) → get_u32 (put_u32 s i v) i ≡ v % 2 ^ 32
get_u32-put_u32 s i v = ground arith

pub get_u32-put_u32_apart :
    (s : Sector) (i j v : ℕ) → (i + 4 ≤ j) ⊎ (j + 4 ≤ i) → get_u32 (put_u32 s i v) j ≡ get_u32 s j
get_u32-put_u32_apart s i j v h = ground arith
