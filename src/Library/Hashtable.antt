-- ===== src/Library/Hashtable.antt =====
-- kernel/include/library/hashtable.h: a hash table with open addressing. The two arrays, of pairs and
-- of fill marks, are one list of slots, whose length is the capacity.
pub mod Rotation
pub mod Scan
pub mod Set
pub mod Write
pub mod Load
use bek_os.Common.{
  ℕ, zero, suc, ◌+◌, ◌-◌, ◌*◌, ◌%◌, Bool, true, false, ◌&&◌, ◌||◌, not, List, [], ◌∷◌, ◌++◌, Option,
  none, some,
}
use bek_os.Common.Tests.{◌==◌, ltb, if◌then◌else◌, sub64, add64, word}
use bek_os.Common.Lists.{length, get_elem?, set, take, drop, replicate}
use bek_os.Common.Outcome.{Outcome, ok, panic, ◌>>=◌, ◌>>◌, or_fault}

pub data Slot (Key Val : Type 0) : Type 0 where
  empty : Slot Key Val
  deleted : Slot Key Val
  filled : Key → Val → Slot Key Val

-- What the table asks of a key.
pub record Keys (Key : Type 0) : Type 0 where
  pub hash : Key → ℕ
  pub equals : Key → Key → Bool

module _ {Key : Type 0} (K : Keys Key) (Val : Type 0) where
  pub record Hashtable : Type 0 where
    pub slots : List (Slot Key Val)
    pub load : ℕ

  unfoldable pub make_hashtable : ℕ → Hashtable
  make_hashtable capacity = record { slots = replicate capacity empty; load = 0 }

  -- The test of the loops of unchecked_lookup.
  unfoldable pub stops : Key → Bool → Slot Key Val → Bool
  stops key inserting empty = true
  stops key inserting deleted = inserting
  stops key inserting (filled k v) = K.equals key k

  -- A loop of unchecked_lookup, over slots of which the first has index `i`.
  unfoldable pub scan : Key → Bool → List (Slot Key Val) → ℕ → Option ℕ
  unfolding stops
  scan key inserting [] i = none
  scan key inserting (s ∷ rest) i =
      let later = scan key inserting rest (i + 1) in if stops key inserting s then some i else later

  -- The second loop, if the first has found nothing.
  unfoldable pub scan_again : Key → Bool → List (Slot Key Val) → Option ℕ → Outcome ℕ
  unfolding scan
  scan_again key inserting before (some i) = ok i
  scan_again key inserting before none = elim (scan key inserting before 0) [
    | some i ↦ ok i
    | none ↦ panic
  ]

  unfoldable pub unchecked_lookup : Hashtable → Key → Bool → Outcome ℕ
  unfolding scan_again
  unchecked_lookup t key inserting =
      let index = K.hash key % length t.slots in
      scan_again key inserting (take index t.slots) (scan key inserting (drop index t.slots) index)

  abbrev pub value_of : Slot Key Val → Option Val
  value_of empty = none
  value_of deleted = none
  value_of (filled k v) = some v

  unfoldable pub find : Hashtable → Key → Outcome (Option Val)
  unfolding unchecked_lookup
  find t key = do
    index ← unchecked_lookup t key false
    s ← or_fault (get_elem? t.slots index)
    ok (value_of s)

  -- extract, by the slot that the lookup has found.
  unfoldable pub extract_at : Hashtable → ℕ → Slot Key Val → Option Val × Hashtable
  extract_at t index (filled k v) =
      (some v, record { slots = set t.slots index deleted; load = sub64 t.load 1 })
  extract_at t index empty = (none, t)
  extract_at t index deleted = (none, t)

  unfoldable pub extract : Hashtable → Key → Outcome (Option Val × Hashtable)
  unfolding unchecked_lookup extract_at
  extract t key = do
    index ← unchecked_lookup t key false
    s ← or_fault (get_elem? t.slots index)
    ok (extract_at t index s)

  -- unchecked_set, by the slot that the lookup has found: whether the pair was stored, and the table.
  unfoldable pub set_at : Hashtable → ℕ → Key → Val → Bool → Slot Key Val → Bool × Hashtable
  set_at t index key val overwrite (filled k v) =
      if overwrite
      then (true, record t { slots = set t.slots index (filled key val) })
      else (false, t)
  set_at t index key val overwrite empty =
      (true, record { slots = set t.slots index (filled key val); load = add64 t.load 1 })
  set_at t index key val overwrite deleted =
      (true, record { slots = set t.slots index (filled key val); load = add64 t.load 1 })

  unfoldable pub unchecked_set : Hashtable → Key → Val → Bool → Outcome (Bool × Hashtable)
  unfolding unchecked_lookup set_at
  unchecked_set t key val overwrite = do
    index ← unchecked_lookup t key true
    s ← or_fault (get_elem? t.slots index)
    ok (set_at t index key val overwrite s)

  -- The loop of check_size that puts the pairs of the old slots into the new table.
  unfoldable pub transfer : List (Slot Key Val) → Hashtable → Outcome Hashtable
  unfolding unchecked_set
  transfer [] t = ok t
  transfer (filled k v ∷ rest) t = unchecked_set t k v false >>= λ (stored, t'). transfer rest t'
  transfer (empty ∷ rest) t = transfer rest t
  transfer (deleted ∷ rest) t = transfer rest t

  unfoldable pub check_size : Hashtable → Outcome Hashtable
  unfolding transfer
  check_size t =
      if ltb (length t.slots) (t.load * 2)
      then transfer t.slots (make_hashtable (length t.slots * 2))
      else ok t

  -- insert keeps a pair that is there, and set overwrites it.
  unfoldable pub insert : Hashtable → Key → Val → Outcome (Bool × Hashtable)
  unfolding check_size
  insert t key val = check_size t >>= λ t'. unchecked_set t' key val false

  unfoldable pub set_value : Hashtable → Key → Val → Outcome (Bool × Hashtable)
  unfolding check_size
  set_value t key val = check_size t >>= λ t'. unchecked_set t' key val true
