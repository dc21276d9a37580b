-- ===== src/Mm/RegionPages/Marks.antt =====
-- What reserving and freeing do to the bitmaps.
use bek_os.Common.{ℕ, zero, suc, ◌+◌, ◌-◌, ◌≤◌, ◌<◌, ◌≡◌, refl, Bool, true, false, ◌&&◌, not, arith}
use bek_os.Common.Tests.{◌==◌, ltb, leb, if◌then◌else◌, add64, word}
use bek_os.Common.Outcome.{ok}
use bek_os.Mm.RegionPages.{RegionPages, set_bit, reserve_loop, mark_as_reserved, free_loop}

-- The page lies in the run of `n` pages from `index`.
abbrev pub in_run : ℕ → ℕ → ℕ → Bool
in_run index n j = leb index j && ltb j (index + n)

reserve_loop_lem :
    (rounds index end j : ℕ) (a : RegionPages)
    → index + rounds ≡ end
    → ((reserve_loop rounds index end a).free_bitmap j
        ≡ (if in_run index rounds j then true else a.free_bitmap j))
      × ((reserve_loop rounds index end a).continuation_bitmap j
          ≡ (if in_run index rounds j then not (j + 1 == end) else a.continuation_bitmap j))
unfolding reserve_loop set_bit
reserve_loop_lem zero index end j a h = ground arith
reserve_loop_lem (suc rounds) index end j a h = ground (
  arith,
  reserve_loop_lem rounds (index + 1) end j
      (record a {
        free_bitmap = set_bit a.free_bitmap index true;
        continuation_bitmap = set_bit a.continuation_bitmap index (not (index + 1 == end));
      })
      (omega arith),
)

-- Nothing but the bitmaps changes.
reserve_loop_keeps :
    (rounds index end : ℕ) (a : RegionPages)
    → ((reserve_loop rounds index end a).region ≡ a.region)
      × ((reserve_loop rounds index end a).last_freed ≡ a.last_freed)
unfolding reserve_loop
reserve_loop_keeps zero index end a = (refl, refl)
reserve_loop_keeps (suc rounds) index end a = reserve_loop_keeps rounds (index + 1) end (record a {
  free_bitmap = set_bit a.free_bitmap index true;
  continuation_bitmap = set_bit a.continuation_bitmap index (not (index + 1 == end));
})

pub mark_as_reserved_keeps :
    (a : RegionPages) (index n_pages : ℕ)
    → ((mark_as_reserved a index n_pages).region ≡ a.region)
      × ((mark_as_reserved a index n_pages).last_freed ≡ a.last_freed)
unfolding mark_as_reserved
mark_as_reserved_keeps a index n_pages =
    reserve_loop_keeps (add64 index n_pages - index) index (add64 index n_pages) a

-- mark_as_reserved, where the sum of its arguments does not wrap, reserves exactly the pages of the
-- run, joins each of them but the last to the next, and leaves both bits of every other page.
pub mark_as_reserved_lem :
    (a : RegionPages) (index n_pages j : ℕ)
    → index + n_pages < word
    → ((mark_as_reserved a index n_pages).free_bitmap j
        ≡ (if in_run index n_pages j then true else a.free_bitmap j))
      × ((mark_as_reserved a index n_pages).continuation_bitmap j ≡ (
          if in_run index n_pages j
          then not (j + 1 == index + n_pages)
          else a.continuation_bitmap j))
unfolding mark_as_reserved
mark_as_reserved_lem a index n_pages j h =
    let e : add64 index n_pages ≡ index + n_pages = omega arith in
    let m : index + n_pages - index ≡ n_pages = omega arith in
    rw (e, m) (reserve_loop_lem n_pages index (index + n_pages) j a refl)

-- A run of reserved pages, as mark_as_reserved leaves it: only the last page is not continued.
abbrev pub IsRun : RegionPages → ℕ → ℕ → Type 0
IsRun a index n =
    (j : ℕ) → index ≤ j → j < index + n → a.continuation_bitmap j ≡ not (j + 1 == index + n)

-- What freeing a run leaves: the pages of the run are free and no other bit has changed.
pub record Freed (a : RegionPages) (index n : ℕ) (a' : RegionPages) : Type 0 where
  pub bits : (j : ℕ) → a'.free_bitmap j ≡ (if in_run index n j then false else a.free_bitmap j)
  pub marks : a'.continuation_bitmap ≡ a.continuation_bitmap
  pub same_region : a'.region ≡ a.region
  pub same_last : a'.last_freed ≡ a.last_freed

pub free_loop_lem :
    (n index fuel : ℕ) (a : RegionPages)
    → 0 < n
    → n ≤ fuel
    → IsRun a index n
    → (a' : RegionPages) × (free_loop fuel index a ≡ ok a') × Freed a index n a'
unfolding free_loop set_bit
free_loop_lem zero index fuel a p f run = absurd (omega arith)
free_loop_lem (suc n) index zero a p f run = absurd (omega arith)
free_loop_lem (suc zero) index (suc fuel) a p f run =
    let cleared = record a { free_bitmap = set_bit a.free_bitmap index false } in
    let last : a.continuation_bitmap index ≡ false = ground (arith, run index) in
    (
      cleared,
      rw (last, free_loop),
      record { bits = λ j. ground arith; marks = refl; same_region = refl; same_last = refl },
    )
free_loop_lem (suc (suc n)) index (suc fuel) a p f run =
    let cleared = record a { free_bitmap = set_bit a.free_bitmap index false } in
    let more : a.continuation_bitmap index ≡ true = ground (arith, run index) in
    let (a', run', freed) =
      free_loop_lem (suc n) (index + 1) fuel cleared (omega arith) (omega arith)
        (λ j lo hi. ground (arith, run j)) in
    (
      a',
      rw (more, free_loop) run',
      record {
        bits = λ j. ground (arith, freed.bits j);
        marks = freed.marks;
        same_region = freed.same_region;
        same_last = freed.same_last;
      },
    )
