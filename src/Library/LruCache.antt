-- ===== src/Library/LruCache.antt =====
-- kernel/include/library/lru_cache.h: a cache over the hash table, from which the least recently used item
-- that nobody refers to is purged when there are too many. How many references a value has is the argument
-- `ref_count`.
pub mod Pick
use bek_os.Common.{
  ℕ, ◌+◌, ◌*◌, ◌%◌, Bool, true, false, ◌&&◌, ◌||◌, List, [], ◌∷◌, Option, none, some,
}
use bek_os.Common.Tests.{◌==◌, ltb, if◌then◌else◌, word}
use bek_os.Common.Lists.{get_elem?, set}
use bek_os.Common.Outcome.{Outcome, ok, ◌>>=◌, or_fault}
use bek_os.Library.Hashtable.{
  Slot, empty, deleted, filled, Keys, Hashtable, make_hashtable, unchecked_lookup, extract, insert,
  set_value,
}

module _ {Key : Type 0} (K : Keys Key) (Val : Type 0) (ref_count : Val → ℕ) where
  pub record Item : Type 0 where
    pub last_use_counter : ℕ
    pub v : Val

  pub record LruCache : Type 0 where
    pub counter : ℕ
    pub max_items : ℕ
    pub hashtable : Hashtable K Item

  unfoldable pub make_lru_cache : ℕ → LruCache
  make_lru_cache max_items = record {
    counter = 0;
    max_items = max_items;
    hashtable = make_hashtable K Item (max_items * 2 % word);
  }

  -- Whether an item is better to delete than the one that has been found.
  abbrev pub is_better : Item → Option (Key × ℕ) → Bool
  is_better item none = ref_count item.v == 1
  is_better item (some (key, last_use)) =
      ref_count item.v == 1 && ltb item.last_use_counter last_use

  -- The loop of try_purge over the items of the table.
  unfoldable pub pick : List (Slot Key Item) → Option (Key × ℕ) → Option (Key × ℕ)
  pick [] to_delete = to_delete
  pick (filled key item ∷ rest) to_delete =
      pick rest (if is_better item to_delete then some (key, item.last_use_counter) else to_delete)
  pick (empty ∷ rest) to_delete = pick rest to_delete
  pick (deleted ∷ rest) to_delete = pick rest to_delete

  -- What is done with the item that has been taken out: the pair that purge_fn is called with, if it is.
  abbrev pub purge_item :
      LruCache → Key → Option Item × Hashtable K Item → Outcome (Option (Key × Val) × LruCache)
  purge_item c key (none, table) = ok (none, record c { hashtable = table })
  purge_item c key (some item, table) = elim (ref_count item.v == 1) [
    | true ↦ ok (some (key, item.v), record c { hashtable = table })
    | false ↦ set_value K Item table key item >>= λ (stored, table').
        ok (none, record c { hashtable = table' })
  ]

  abbrev pub purge_key : LruCache → Option (Key × ℕ) → Outcome (Option (Key × Val) × LruCache)
  purge_key c none = ok (none, c)
  purge_key c (some (key, last_use)) = extract K Item c.hashtable key >>= purge_item c key

  unfoldable pub try_purge : LruCache → Outcome (Option (Key × Val) × LruCache)
  unfolding pick
  try_purge c =
      let purged = purge_key c (pick c.hashtable.slots none) in
      if ltb c.max_items c.hashtable.load then purged else ok (none, c)

  -- LRUCache::set: whether the value was stored, what was purged, and the cache.
  unfoldable pub set_item : LruCache → Key → Val → Outcome (Bool × Option (Key × Val) × LruCache)
  unfolding try_purge
  set_item c key v = do
    inserted ← insert K Item c.hashtable key (record { last_use_counter = c.counter; v = v })
    purged ← try_purge (record c { hashtable = inserted.1 })
    ok (inserted.0, purged.0, purged.1)

  -- LRUCache::find, by the slot that the lookup has found.
  abbrev pub use_slot : LruCache → ℕ → Slot Key Item → Option Val × LruCache
  use_slot c index (filled key item) =
      let counter = (c.counter + 1) % word in
      let used = filled key (record { last_use_counter = counter; v = item.v }) in
      (
        some item.v,
        record c {
          counter = counter;
          hashtable = record { slots = set c.hashtable.slots index used; load = c.hashtable.load };
        },
      )
  use_slot c index empty = (none, c)
  use_slot c index deleted = (none, c)

  unfoldable pub find_item : LruCache → Key → Outcome (Option Val × LruCache)
  find_item c key = do
    index ← unchecked_lookup K Item c.hashtable key false
    s ← or_fault (get_elem? c.hashtable.slots index)
    ok (use_slot c index s)
