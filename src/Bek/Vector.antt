-- ===== src/Bek/Vector.antt =====
-- bek/include/bek/vector.h: insertion and removal in the middle of a vector. The slots of the array
-- up to the one behind the last element are a list; the capacity beyond is not modelled.
pub mod Laws
pub mod Growth
use bek_os.Common.{ℕ, zero, suc, ◌+◌, ◌-◌, List, [], ◌∷◌, ◌++◌, true, false}
use bek_os.Common.Tests.{ltb, leb, if◌then◌else◌, sub64}
use bek_os.Common.Lists.{length, get_elem?, set, take}
use bek_os.Common.Outcome.{Outcome, ok, fault, spin, ◌>>=◌, ◌>>◌, verify, or_fault}

module _ {ℓ} {A : Type ℓ} where
  -- array[to] = array[from]
  unfoldable pub move_slot : List A → ℕ → ℕ → Outcome (List A)
  move_slot array from to = do
    x ← or_fault (get_elem? array from)
    if ltb to (length array) then ok (set array to x) else fault

  -- The loop of insert: `idx` is unsigned, and goes round below 0.
  unfoldable pub shift_up : ℕ → ℕ → ℕ → List A → Outcome (List A)
  shift_up zero i idx array = spin
  shift_up (suc fuel) i idx array = elim (leb i idx) [
    | false ↦ ok array
    | true ↦ move_slot array idx (idx + 1) >>= λ array'. shift_up fuel i (sub64 idx 1) array'
  ]

  -- vector::insert. The loop has a round for each element and one more.
  unfoldable pub insert : List A → ℕ → A → Outcome (List A)
  insert xs i item = do
    verify (ltb i (length xs))
    array ← shift_up (length xs + 1) i (length xs - 1) (xs ++ item ∷ [])
    ok (set array i item)

  -- The loop of pop and of extract, for the rounds from `idx` up to the size.
  unfoldable pub shift_down : ℕ → ℕ → List A → Outcome (List A)
  shift_down zero idx array = ok array
  shift_down (suc rounds) idx array =
      move_slot array idx (idx - 1) >>= λ array'. shift_down rounds (idx + 1) array'

  -- vector::pop(i), and vector::extract of the element at i.
  unfoldable pub pop : List A → ℕ → Outcome (A × List A)
  pop xs i = do
    verify (ltb i (length xs))
    x ← or_fault (get_elem? xs i)
    array ← shift_down (length xs - (i + 1)) (i + 1) xs
    ok (x, take (length xs - 1) array)
