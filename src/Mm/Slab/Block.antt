-- ===== src/Mm/Slab/Block.antt =====
-- kernel/src/mm/kmalloc.cpp: the objects of a block of a slab.
use bek_os.Common.{
  ℕ, zero, suc, ◌+◌, ◌-◌, ◌*◌, ◌/◌, ◌%◌, ◌^◌, ◌<◌, ◌≤◌, ◌≡◌, ◌≢◌, refl, sym, ap, ap₂, ◌∙◌, subst,
  ◌⊎◌, inl, inr, true, ◌&&◌, List, [], ◌∷◌, some, arith,
}
use bek_os.Common.Tests.{◌==◌, ltb, leb, sub32, word32}
use bek_os.Common.Lists.{length}
use bek_os.Common.Outcome.{ok}
use native.Mathlib.Nat.{add-mod_right, add-mul-mod_self_right}
use bek_os.Mm.Slab.{
  SlabBlock, block_header, data_begin, data_end, link_objects, make_slab_block, allocate_object,
  deallocate_object, default_block_size,
}

abbrev pub Absent : ℕ → List ℕ → Type 0
Absent p [] = Unit
Absent p (q ∷ rest) = (q ≢ p) × Absent p rest

-- Different objects of one size, aligned to it, between two addresses.
abbrev pub Objects : ℕ → ℕ → ℕ → List ℕ → Type 0
Objects low high size [] = Unit
Objects low high size (p ∷ rest) =
    (low ≤ p) × (p + size ≤ high) × (p % size ≡ 0) × Absent p rest × Objects low high size rest

-- The free list has objects of the block, and as many as are not allocated.
abbrev pub IsValid : SlabBlock → Type 0
IsValid b =
    (0 < b.object_size)
    × (b.total_objects < 2 ^ 32)
    × (b.allocated_objects + length b.freelist ≡ b.total_objects)
    × Objects (data_begin b.base b.object_size) (data_end b) b.object_size b.freelist

Absent-Objects :
    (low high size : ℕ) (ps : List ℕ) → 0 < size → Objects low high size ps → Absent high ps
Absent-Objects low high size [] h o = tt
Absent-Objects low high size (p ∷ ps) h o =
    let before = o.1 in
    (λ e. absurd (omega (arith, e, before)), Absent-Objects low high size ps h o.4)

Objects-wider :
    (low high size : ℕ) (ps : List ℕ) → Objects low high size ps → Objects low (high + size) size ps
Objects-wider low high size [] o = tt
Objects-wider low high size (p ∷ ps) o =
    let before = o.1 in (o.0, omega arith, o.2, o.3, Objects-wider low high size ps o.4)

suc-mul : (n size : ℕ) → suc n * size ≡ n * size + size
suc-mul n size = grind arith

-- The loop of the constructor links the objects from the `i`-th on.
link_objects_lem :
    (n i array size high : ℕ) (ps : List ℕ)
    → 0 < size
    → high ≡ array + i * size
    → high % size ≡ 0
    → Objects array high size ps
    → Objects array (high + n * size) size (link_objects n i array size ps)
      × (length (link_objects n i array size ps) ≡ n + length ps)
unfolding link_objects
link_objects_lem zero i array size high ps h e a o =
    (subst (λ u. Objects array u size ps) (grind arith) o, omega arith)
link_objects_lem (suc n) i array size high ps h e a o =
    let next : high + size ≡ array + (i + 1) * size = grind arith in
    let last : high + suc n * size ≡ high + size + n * size = omega (arith, suc-mul n size) in
    let lower : array ≤ high = omega arith in
    let own : Objects array (high + size) size (high ∷ ps) = (
      lower,
      omega arith,
      a,
      Absent-Objects array high size ps h o,
      Objects-wider array high size ps o,
    ) in
    let (all, long) =
      link_objects_lem n (i + 1) array size (high + size) (high ∷ ps) h next
        (add-mod_right high size ∙ a) own in
    subst
      (λ u.
        Objects array (high + suc n * size) size (link_objects n (i + 1) array size (u ∷ ps))
        × (length (link_objects n (i + 1) array size (u ∷ ps)) ≡ suc n + length ps))
      e
      (
        subst (λ u. Objects array u size (link_objects n (i + 1) array size (high ∷ ps))) (sym last)
            all,
        omega arith,
      )

-- The sizes of the slabs of the kernel heap.
abbrev pub IsSlabSize : ℕ → Type 0
IsSlabSize n = (n ≡ 32) ⊎ (n ≡ 64) ⊎ (n ≡ 128) ⊎ (n ≡ 256) ⊎ (n ≡ 512) ⊎ (n ≡ 1024)

-- With the block's header, the objects fill a block of the default size to its end.
objects_fill :
    (n : ℕ)
    → IsSlabSize n
    → let header = (block_header + n - 1) / n * n in
      let total = (default_block_size n - block_header) / n % word32 in
      (header + total * n ≡ default_block_size n)
      × (0 < n)
      × (block_header ≤ header)
      × (0 < total)
      × (total < 2 ^ 32)
unfolding default_block_size
objects_fill n (inl e) = rw e (refl, omega arith, omega arith, omega arith, omega arith)
objects_fill n (inr (inl e)) = rw e (refl, omega arith, omega arith, omega arith, omega arith)
objects_fill n (inr (inr (inl e))) = rw e (refl, omega arith, omega arith, omega arith, omega arith)
objects_fill n (inr (inr (inr (inl e)))) =
    rw e (refl, omega arith, omega arith, omega arith, omega arith)
objects_fill n (inr (inr (inr (inr (inl e))))) =
    rw e (refl, omega arith, omega arith, omega arith, omega arith)
objects_fill n (inr (inr (inr (inr (inr e))))) =
    rw e (refl, omega arith, omega arith, omega arith, omega arith)

-- The constructor of a block at an aligned place: all its objects are free, and lie between the block's header and
-- its end, to which they come up.
pub make_slab_block-IsValid :
    (base n : ℕ)
    → IsSlabSize n
    → base % n ≡ 0
    → let b = make_slab_block base n (default_block_size n) in
      IsValid b
      × (data_end b ≡ base + default_block_size n)
      × (base + block_header ≤ data_begin base n)
      × (b.allocated_objects ≡ 0)
      × (0 < b.total_objects)
unfolding make_slab_block data_begin data_end
make_slab_block-IsValid base n s a =
    let (fill, some_size, header, some_objects, small) = objects_fill n s in
    let total = (default_block_size n - block_header) / n % word32 in
    let first = data_begin base n in
    let aligned : first % n ≡ 0 = add-mul-mod_self_right base ((block_header + n - 1) / n) n ∙ a in
    let (all, long) =
      link_objects_lem total 0 first n first [] some_size (grind arith) aligned tt in
    ((some_size, small, omega arith, all), omega arith, omega arith, refl, some_objects)

given :
    (b : SlabBlock) (ps : List ℕ)
    → b.freelist ≡ ps
    → IsValid b
    → b.allocated_objects < b.total_objects
    → (p : ℕ) × (b' : SlabBlock) × (allocate_object b ps ≡ (some p, b'))
      × IsValid b'
      × Absent p b'.freelist
      × (b'.allocated_objects ≡ b.allocated_objects + 1)
      × (data_begin b.base b.object_size ≤ p)
      × (p + b.object_size ≤ data_end b)
      × (deallocate_object b' p ≡ ok b)
unfolding deallocate_object data_end
given b [] e v room = absurd (omega (arith, v.2, ap length e))
given b (p ∷ rest) e v room =
    let o = subst (Objects (data_begin b.base b.object_size) (data_end b) b.object_size) e v.3 in
    let some_size = v.0 in
    let small = v.1 in
    let count = v.2 in
    let long = ap length e in
    let low = o.0 in
    let high = o.1 in
    let b' : SlabBlock = record b {
      freelist = rest;
      allocated_objects = (b.allocated_objects + 1) % word32;
    } in
    let inside : (leb (data_begin b.base b.object_size) p && ltb p (data_end b)) ≡ true =
      ground arith in
    let aligned : p % b.object_size == 0 ≡ true = rw (o.2) refl in
    let back : sub32 ((b.allocated_objects + 1) % word32) 1 ≡ b.allocated_objects = omega arith in
    (
      p,
      b',
      refl,
      (some_size, small, omega arith, o.4),
      o.3,
      omega arith,
      low,
      high,
      rw (inside, aligned)
          (ap₂ (λ f a. ok (record b { freelist = f; allocated_objects = a })) (sym e) back),
    )

-- An object that a valid block with a free one gives out is one of its own, is not free any more, and can be given back, which
-- restores the block.
pub deallocate_object-allocate_object :
    (b : SlabBlock)
    → IsValid b
    → b.allocated_objects < b.total_objects
    → (p : ℕ) × (b' : SlabBlock) × (allocate_object b b.freelist ≡ (some p, b'))
      × IsValid b'
      × Absent p b'.freelist
      × (b'.allocated_objects ≡ b.allocated_objects + 1)
      × (data_begin b.base b.object_size ≤ p)
      × (p + b.object_size ≤ data_end b)
      × (deallocate_object b' p ≡ ok b)
unfolding deallocate_object data_end
deallocate_object-allocate_object b v room = given b b.freelist refl v room
