-- ===== src/Tests/Tables.antt =====
-- The hash table and the cache at concrete inputs (kernel/include/library/hashtable.h and lru_cache.h).
use bek_os.Common.{List, none, ◌⊎◌, ℕ, ◌%◌, ◌≡◌, refl, Bool, true, [], ◌∷◌, some, arith}
use bek_os.Common.Tests.{◌==◌}
use bek_os.Common.Outcome.{ok, panic, ◌>>=◌}
use bek_os.Library.Hashtable.{
  Slot, empty, deleted, filled, Keys, Hashtable, find, extract, insert, set_value, unchecked_set,
}
use bek_os.Library.Hashtable.Set.{find-unchecked_set, find-extract}
use bek_os.Library.LruCache.{Item, pick, set_item}
use bek_os.Library.LruCache.Pick.{AllLater, AllReferred, SomeItem, pick_lem}
use bek_os.Library.Hashtable.Load.{IsCounted, set_value-IsCounted}

-- Numbers as keys, four to a hash.
abbrev numbers : Keys ℕ
numbers = record { hash = λ k. k % 4; equals = λ a b. a == b }

-- 1 in its own slot, 5 behind it, and a deleted pair in front.
abbrev table : Hashtable numbers ℕ
table = record { slots = deleted ∷ filled 1 10 ∷ filled 5 50 ∷ empty ∷ []; load = 2 }

find-unchecked_set_example :
    find numbers ℕ (record { slots = deleted ∷ filled 1 10 ∷ filled 5 51 ∷ empty ∷ []; load = 2 }) 5
    ≡ ok (some 51)
unfolding unchecked_set
find-unchecked_set_example =
    find-unchecked_set numbers ℕ table
      (record { slots = deleted ∷ filled 1 10 ∷ filled 5 51 ∷ empty ∷ []; load = 2 }) 5 51 true
      (omega arith) refl refl

find-extract_example :
    find numbers ℕ (record { slots = deleted ∷ deleted ∷ filled 5 50 ∷ empty ∷ []; load = 1 }) 5
    ≡ find numbers ℕ table 5
unfolding extract
find-extract_example =
    find-extract numbers ℕ table
      (record { slots = deleted ∷ deleted ∷ filled 5 50 ∷ empty ∷ []; load = 1 }) 1 5 (some 10)
      (omega arith) (λ k e. ground arith) refl

set_value-IsCounted_example :
    ((b : Bool) × (t' : Hashtable numbers ℕ) × (insert numbers ℕ table 9 90 ≡ ok (b, t'))
      × IsCounted numbers ℕ t')
    × ((b : Bool) × (t' : Hashtable numbers ℕ) × (set_value numbers ℕ table 9 90 ≡ ok (b, t'))
        × IsCounted numbers ℕ t')
set_value-IsCounted_example =
    set_value-IsCounted numbers ℕ table 9 90 (refl, omega arith) (omega arith)

-- A key is stored a second time in front of itself, where a pair was taken out; taking it out once
-- brings the old value back.
duplicate :
    (extract numbers ℕ table 1 >>= λ (v, t₁). set_value numbers ℕ t₁ 5 51 >>= λ (b, t₂).
    extract numbers ℕ t₂ 5 >>= λ (w, t₃). find numbers ℕ t₃ 5)
    ≡ ok (some 50)
unfolding extract set_value find
duplicate = refl

-- Once every slot has been used, the lookup of a key that is not there does not end.
all_used :
    find numbers ℕ (record { slots = deleted ∷ deleted ∷ filled 5 50 ∷ deleted ∷ []; load = 1 }) 7
    ≡ panic
unfolding find
all_used = refl

-- Values that stand for how many references they have.
abbrev entry : ℕ → ℕ → Item numbers ℕ (λ refs. refs)
entry last_use refs = record { last_use_counter = last_use; v = refs }

abbrev entries : List (Slot ℕ (Item numbers ℕ (λ refs. refs)))
entries = filled 4 (entry 7 1) ∷ filled 1 (entry 2 3) ∷ deleted ∷ filled 3 (entry 5 1) ∷ []

pick_lem_example :
    ((pick numbers ℕ (λ refs. refs) entries none ≡ none)
      × AllReferred numbers ℕ (λ refs. refs) entries)
    ⊎ ((key : ℕ) × (last_use : ℕ) × (pick numbers ℕ (λ refs. refs) entries none
          ≡ some (key, last_use))
        × SomeItem numbers ℕ (λ refs. refs) key last_use entries
        × AllLater numbers ℕ (λ refs. refs) last_use entries)
pick_lem_example = pick_lem numbers ℕ (λ refs. refs) entries

pick_runs : pick numbers ℕ (λ refs. refs) entries none ≡ some (3, 5)
unfolding pick
pick_runs = refl

-- The fourth item takes the place of the one that was used least recently.
purge_runs :
    (set_item numbers ℕ
        (λ refs. refs)
        (record { counter = 9; max_items = 2; hashtable = record { slots = entries; load = 2 } })
        6
        1
      >>= λ r. ok r.1)
    ≡ ok (some (3, 1))
unfolding set_item insert extract pick
purge_runs = refl
