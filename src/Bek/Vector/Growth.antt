-- ===== src/Bek/Vector/Growth.antt =====
-- bek/include/bek/vector.h: the storage of a vector and its growth. The array is the list of its
-- slots, of which those that hold no object are `none`. A null array has no slots. That memory is
-- there when it is asked for is not in question here.
pub mod Capacity
pub mod Contents
use bek_os.Common.{
  ℕ, zero, suc, ◌+◌, ◌-◌, ◌*◌, ◌%◌, List, [], ◌∷◌, ◌++◌, true, false, Option, none, some,
}
use bek_os.Common.Tests.{ltb, leb, ◌==◌, if◌then◌else◌, add64, word}
use bek_os.Common.Lists.{length, get_elem?, set, replicate}
use bek_os.Common.Outcome.{Outcome, ok, fault, spin, ◌>>=◌, ◌>>◌, verify, or_fault}

-- The loop of ensure_capacity. The capacity doubles, and would go round at 2 ^ 64.
unfoldable pub double_until : ℕ → ℕ → ℕ → Outcome ℕ
double_until zero new_capacity capacity = spin
double_until (suc fuel) new_capacity capacity = elim (ltb new_capacity capacity) [
  | false ↦ ok new_capacity
  | true ↦ double_until fuel (new_capacity * 2 % word) capacity
]

-- One round for each bit of the capacity and one more.
abbrev pub rounds : ℕ
rounds = 65

module _ (A : Type 0) where
  pub record Vector : Type 0 where
    pub size : ℕ
    pub array : List (Option A)

  -- An object moved into a slot.
  unfoldable pub construct : List (Option A) → ℕ → Option A → Outcome (List (Option A))
  construct array i x = if ltb i (length array) then ok (set array i x) else fault

  -- The constructor from a size, by the number of slots that the allocator has given for it.
  unfoldable pub make_vector : ℕ → ℕ → A → Outcome Vector
  make_vector size given initial =
      verify (leb size given)
      >> ok (record {
        size = size;
        array = replicate size (some initial) ++ replicate (given - size) none;
      })

  -- The loop of expand_storage, for the rounds from `i` up to the size.
  unfoldable pub move_elements :
      ℕ → ℕ → List (Option A) → List (Option A) → Outcome (List (Option A))
  unfolding construct
  move_elements zero i array new_array = ok new_array
  move_elements (suc n) i array new_array = do
    x ← or_fault (get_elem? array i)
    new_array' ← construct new_array i x
    move_elements n (i + 1) array new_array'

  unfoldable pub expand_storage : Vector → ℕ → Outcome Vector
  unfolding move_elements
  expand_storage v new_capacity =
      let blank = replicate new_capacity none in
      (if length v.array == 0 then ok blank else move_elements v.size 0 v.array blank)
      >>= λ new_array. ok (record { size = v.size; array = new_array })

  unfoldable pub ensure_capacity : Vector → ℕ → Outcome Vector
  unfolding double_until expand_storage
  ensure_capacity v capacity =
      double_until rounds (if length v.array == 0 then 1 else length v.array) capacity
      >>= λ new_capacity.
          if new_capacity == length v.array then ok v else expand_storage v new_capacity

  -- reserve and ensure_capacity are the same; expand does not construct the new elements.
  unfoldable pub expand : Vector → ℕ → Outcome Vector
  unfolding ensure_capacity
  expand v n = ensure_capacity v (add64 n v.size) >>= λ v'.
      ok (record { size = add64 n v'.size; array = v'.array })

  unfoldable pub push_back : Vector → A → Outcome Vector
  unfolding ensure_capacity construct
  push_back v item = ensure_capacity v (add64 v.size 1) >>= λ v'.
      construct v'.array v'.size (some item) >>= λ array.
      ok (record { size = add64 v'.size 1; array = array })
