-- ===== src/Arch/TranslationTables/Places.antt =====
-- The place of an address in a table, and what stands there.
use bek_os.Common.{
  ℕ, zero, suc, ◌+◌, ◌-◌, ◌*◌, ◌/◌, ◌%◌, ◌<◌, ◌≤◌, ◌≡◌, ◌≢◌, refl, true, false, none, some, arith,
}
use bek_os.Common.Tests.{◌==◌}
use bek_os.Arch.TranslationTables.{TableEntry, invalid, leaf, table, Table, size_at, put_entry}
use bek_os.Arch.TranslationTables.Find.{Found, find_in, translate}

-- The lookup in one entry of a table of the level.
abbrev pub look : ℕ → TableEntry → ℕ → Found
look zero = find_in (λ sub rest. some (rest, 0, 0)) zero
look (suc level) = find_in (translate level) (suc level)

pub translate-look :
    (level y : ℕ) (t : Table)
    → translate level t y ≡ look level (t (y / size_at level)) (y % size_at level)
unfolding translate
translate-look zero y t = refl
translate-look (suc level) y t = refl

-- The index and the offset of the place `x` of a table that starts at a multiple of its span.
pub place_lem :
    (level k x : ℕ)
    → level ≤ 3
    → x < 512 * size_at level
    → ((k * (512 * size_at level) + x) / size_at level % 512 ≡ x / size_at level)
      × (x / size_at level * size_at level + x % size_at level ≡ x)
      × (x % size_at level < size_at level)
      × ((512 - x / size_at level) * size_at level - x % size_at level ≡ 512 * size_at level - x)
      × ((k * 512 + x / size_at level) * size_at level + x % size_at level
          ≡ k * (512 * size_at level) + x)
place_lem zero k x l h = (omega arith, omega arith, omega arith, omega arith, omega arith)
place_lem (suc zero) k x l h = (omega arith, omega arith, omega arith, omega arith, omega arith)
place_lem (suc (suc zero)) k x l h =
    (omega arith, omega arith, omega arith, omega arith, omega arith)
place_lem (suc (suc (suc zero))) k x l h =
    (omega arith, omega arith, omega arith, omega arith, omega arith)
place_lem (suc (suc (suc (suc level)))) k x l h = absurd (omega arith)

pub index_lem :
    (level x : ℕ)
    → level ≤ 3
    → x < 512 * size_at level
    → x / size_at level + (512 - x / size_at level) ≡ 512
index_lem zero x l h = omega arith
index_lem (suc zero) x l h = omega arith
index_lem (suc (suc zero)) x l h = omega arith
index_lem (suc (suc (suc zero))) x l h = omega arith
index_lem (suc (suc (suc (suc level)))) x l h = absurd (omega arith)

-- The entry and the offset at a place.
pub entry_lem :
    (level j z : ℕ)
    → level ≤ 3
    → j < 512
    → z < size_at level
    → ((j * size_at level + z) / size_at level ≡ j)
      × ((j * size_at level + z) % size_at level ≡ z)
      × (j * size_at level + z < 512 * size_at level)
entry_lem zero j z l b h = (omega arith, omega arith, omega arith)
entry_lem (suc zero) j z l b h = (omega arith, omega arith, omega arith)
entry_lem (suc (suc zero)) j z l b h = (omega arith, omega arith, omega arith)
entry_lem (suc (suc (suc zero))) j z l b h = (omega arith, omega arith, omega arith)
entry_lem (suc (suc (suc (suc level)))) j z l b h = absurd (omega arith)

-- A walk at an address that an entry's span divides is at the start of the entry.
pub start_lem :
    (level q o : ℕ)
    → level ≤ 3
    → o < size_at level
    → (q * size_at level + o) % size_at level ≡ 0
    → o ≡ 0
start_lem zero q o l h e = omega arith
start_lem (suc zero) q o l h e = omega arith
start_lem (suc (suc zero)) q o l h e = omega arith
start_lem (suc (suc (suc zero))) q o l h e = omega arith
start_lem (suc (suc (suc (suc level)))) q o l h e = absurd (omega arith)

pub put_entry-same : (t : Table) (i : ℕ) (e : TableEntry) → put_entry t i e i ≡ e
put_entry-same t i e = let test : i == i ≡ true = ground arith in rw test refl

pub put_entry-other : (t : Table) (i : ℕ) (e : TableEntry) (j : ℕ) → j ≢ i → put_entry t i e j ≡ t j
put_entry-other t i e j h = let test : j == i ≡ false = ground arith in rw test refl

pub found_cong :
    {u u' v v' w w' : ℕ}
    → u ≡ u'
    → v ≡ v'
    → w ≡ w'
    → ◌≡◌ {A = Found} (some (u, v, w)) (some (u', v', w'))
found_cong e f g = λ i. some (e i, f i, g i)

pub look-none : (e : TableEntry) (z : ℕ) → look 0 e z ≡ none → e ≡ invalid
look-none invalid z h = refl
look-none (leaf raw) z h = absurd (cc h)
look-none (table page sub) z h = absurd (cc h)
