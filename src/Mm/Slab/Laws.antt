-- ===== src/Mm/Slab/Laws.antt =====
-- kernel/src/mm/kmalloc.cpp: the blocks of a slab, with and without free objects.
use bek_os.Common.{
  ℕ, ◌+◌, ◌%◌, ◌^◌, ◌<◌, ◌≤◌, ◌≡◌, refl, sym, ap, ap₂, ◌∙◌, subst, inl, inr, ◌⊎◌, List, [], ◌∷◌,
  ◌++◌, Option, some, arith,
}
use bek_os.Common.Tests.{if◌then◌else◌, Bool-cases}
use bek_os.Common.Outcome.{Outcome, ok, ◌>>=◌}
use bek_os.Mm.Slab.{
  SlabBlock, data_begin, data_end, make_slab_block, allocate_object, is_full, SlabAllocator,
  default_block_size, allocate_front, add_block, slab_allocate,
}
use bek_os.Mm.Slab.Block.{
  Absent, IsValid, IsSlabSize, make_slab_block-IsValid, deallocate_object-allocate_object,
}

-- Blocks of objects of the slab's size, of which some are free, and of which none are.
abbrev pub AllUsable : ℕ → List SlabBlock → Type 0
AllUsable n [] = Unit
AllUsable n (b ∷ rest) =
    (IsValid b × (b.object_size ≡ n) × (b.allocated_objects < b.total_objects)) × AllUsable n rest

abbrev pub AllFull : ℕ → List SlabBlock → Type 0
AllFull n [] = Unit
AllFull n (b ∷ rest) =
    (IsValid b × (b.object_size ≡ n) × (b.allocated_objects ≡ b.total_objects)) × AllFull n rest

abbrev pub IsSlab : SlabAllocator → Type 0
IsSlab s =
    IsSlabSize s.obj_size
    × (s.blk_size ≡ default_block_size s.obj_size)
    × AllUsable s.obj_size s.free_blocks
    × AllFull s.obj_size s.full_blocks

AllFull-append :
    (n : ℕ) (bs : List SlabBlock) (b : SlabBlock)
    → AllFull n bs
    → IsValid b × (b.object_size ≡ n) × (b.allocated_objects ≡ b.total_objects)
    → AllFull n (bs ++ (b ∷ []))
AllFull-append n [] b h k = (k, tt)
AllFull-append n (c ∷ bs) b h k = (h.0, AllFull-append n bs b h.1 k)

-- A block after its first free object has been taken.
abbrev pub IsTaken : SlabBlock → ℕ → SlabBlock → Type 0
IsTaken b p b' =
    (b.freelist ≡ p ∷ b'.freelist)
    × (b'.allocated_objects ≡ b.allocated_objects + 1)
    × (b'.base ≡ b.base)
    × (b'.object_size ≡ b.object_size)
    × (b'.total_objects ≡ b.total_objects)

-- Where the block goes: in front of the other blocks with free objects, or behind the full ones.
abbrev pub IsSorted : SlabAllocator → List SlabBlock → SlabBlock → SlabAllocator → Type 0
IsSorted s rest b' s' =
    ((b'.allocated_objects < b'.total_objects)
      × (s'.free_blocks ≡ b' ∷ rest)
      × (s'.full_blocks ≡ s.full_blocks))
    ⊎ ((b'.allocated_objects ≡ b'.total_objects)
        × (s'.free_blocks ≡ rest)
        × (s'.full_blocks ≡ s.full_blocks ++ (b' ∷ [])))

-- An object that was free in this block, and is free no longer in the block that stands for it among
-- the slab's afterwards.
abbrev pub IsGiven : SlabAllocator → SlabBlock → List SlabBlock → ℕ → SlabAllocator → Type 0
IsGiven s b rest p s' =
    (b' : SlabBlock) × IsValid b
    × IsTaken b p b'
    × Absent p b'.freelist
    × (data_begin b.base s.obj_size ≤ p)
    × (p + s.obj_size ≤ data_end b)
    × IsSorted s rest b' s'

-- The block that an object comes from, and the others with free objects: the first that the slab has,
-- or, where it has none, a new one in this memory without an object in use.
abbrev pub IsSource : SlabAllocator → ℕ → SlabBlock → List SlabBlock → Type 0
IsSource s base b rest =
    (s.free_blocks ≡ b ∷ rest)
    ⊎ ((s.free_blocks ≡ [])
        × (rest ≡ [])
        × (b.base ≡ base)
        × (b.object_size ≡ s.obj_size)
        × (b.allocated_objects ≡ 0))

IsTaken-allocate_object :
    (b b' : SlabBlock) (ps : List ℕ) (p : ℕ)
    → b.freelist ≡ ps
    → allocate_object b ps ≡ (some p, b')
    → b'.allocated_objects ≡ b.allocated_objects + 1
    → IsTaken b p b'
IsTaken-allocate_object b b' [] p f e more = absurd (cc e)
IsTaken-allocate_object b b' (q ∷ ps) p f e more =
    let e' : (record b { freelist = ps; allocated_objects = (b.allocated_objects + 1) % 2 ^ 32 })
        ≡ b' =
      ap (λ r. r.1) e in
    let first : q ≡ p = cc e in
    let left : ps ≡ b'.freelist = ap (λ u. u.freelist) e' in
    (
      f ∙ ap₂ (λ c cs. c ∷ cs) first left,
      more,
      ap (λ u. u.base) (sym e'),
      ap (λ u. u.object_size) (sym e'),
      ap (λ u. u.total_objects) (sym e'),
    )

-- Where the block goes after it has given out an object.
abbrev sorted_in : SlabAllocator → List SlabBlock → SlabBlock → SlabAllocator
sorted_in s rest b' =
    if is_full b'
    then record s { free_blocks = rest; full_blocks = s.full_blocks ++ (b' ∷ []) }
    else record s { free_blocks = b' ∷ rest }

sorted_in-IsSlab :
    (s : SlabAllocator) (rest : List SlabBlock) (b' : SlabBlock)
    → IsSlab s
    → AllUsable s.obj_size rest
    → IsValid b'
    → b'.object_size ≡ s.obj_size
    → b'.allocated_objects ≤ b'.total_objects
    → IsSlab (sorted_in s rest b')
sorted_in-IsSlab s rest b' h usable v e le = elim (Bool-cases (is_full b')) [
  | inl full ↦
      let all : b'.allocated_objects ≡ b'.total_objects = ground arith in
      rw full (h.0, h.1, usable, AllFull-append s.obj_size s.full_blocks b' h.3 (v, e, all))
  | inr some_left ↦
      let left : b'.allocated_objects < b'.total_objects = ground arith in
      rw some_left (h.0, h.1, ((v, e, left), usable), h.3)
]

sorted_in-IsSorted :
    (s : SlabAllocator) (rest : List SlabBlock) (b' : SlabBlock)
    → b'.allocated_objects ≤ b'.total_objects
    → IsSorted s rest b' (sorted_in s rest b')
sorted_in-IsSorted s rest b' le = elim (Bool-cases (is_full b')) [
  | inl full ↦ rw full (inr (ground arith, refl, refl))
  | inr some_left ↦ rw some_left (inl (ground arith, refl, refl))
]

allocate_front_lem :
    (s : SlabAllocator) (b : SlabBlock) (rest : List SlabBlock)
    → IsSlab s
    → s.free_blocks ≡ b ∷ rest
    → (p : ℕ) × (s' : SlabAllocator) × (allocate_front s s.free_blocks ≡ ok (some p, s'))
      × IsSlab s'
      × IsGiven s b rest p s'
unfolding allocate_front
allocate_front_lem s b rest h e =
    let blocks = subst (AllUsable s.obj_size) e h.2 in
    let v = blocks.0.0 in
    let own = blocks.0.1 in
    let room = blocks.0.2 in
    let (p, b', run, v', gone, more, low, high, back) =
      deallocate_object-allocate_object b v room in
    let taken = IsTaken-allocate_object b b' b.freelist p refl run more in
    (
      p,
      sorted_in s rest b',
      ap (allocate_front s) e ∙ ap (λ r. ok (r.0, sorted_in s rest r.1)) run,
      sorted_in-IsSlab s rest b' h blocks.1 v' (taken.3 ∙ own) (omega (arith, taken.4)),
      (
        b',
        v,
        taken,
        gone,
        subst (λ n. data_begin b.base n ≤ p) own low,
        subst (λ n. p + n ≤ data_end b) own high,
        sorted_in-IsSorted s rest b' (omega (arith, taken.4)),
      ),
    )

module _ (Heap : Type 0) (obtain : Heap → ℕ → ℕ → Outcome (Option ℕ × Heap)) where
  -- slab_allocate behind the search for a block.
  abbrev from_block : SlabAllocator × Heap → Outcome (Option ℕ × SlabAllocator × Heap)
  from_block (s', heap') =
      allocate_front s' s'.free_blocks >>= λ (allocation, s''). ok (allocation, s'', heap')

  abbrev Given :
      SlabAllocator
      → SlabBlock
      → List SlabBlock
      → Outcome (Option ℕ × SlabAllocator × Heap)
      → Type 0
  Given s b rest r =
      (p : ℕ) × (s' : SlabAllocator) × (heap₁ : Heap) × (r ≡ ok (some p, s', heap₁))
      × IsSlab s'
      × IsGiven s b rest p s'

  from_block_lem :
      (s : SlabAllocator) (heap : Heap) (b : SlabBlock) (rest : List SlabBlock)
      → IsSlab s
      → s.free_blocks ≡ b ∷ rest
      → Given s b rest (from_block (s, heap))
  from_block_lem s heap b rest h e =
      let (p, s', run, h', given) = allocate_front_lem s b rest h e in
      (p, s', heap, ap (λ r. r >>= λ (allocation, s''). ok (allocation, s'', heap)) run, h', given)

  add_block-some :
      (s : SlabAllocator) (heap heap' : Heap) (base : ℕ)
      → obtain heap s.blk_size s.blk_size ≡ ok (some base, heap')
      → add_block Heap obtain s heap
        ≡ ok (record s { free_blocks = make_slab_block base s.obj_size s.blk_size ∷ [] }, heap')
  unfolding add_block
  add_block-some s heap heap' base run = rw run refl

  slab_allocate-cases :
      (s : SlabAllocator) (heap heap' : Heap) (base : ℕ) (blocks : List SlabBlock)
      → s.free_blocks ≡ blocks
      → IsSlab s
      → obtain heap s.blk_size s.blk_size ≡ ok (some base, heap')
      → base % s.obj_size ≡ 0
      → (b : SlabBlock) × (rest : List SlabBlock) × IsSource s base b rest
        × Given s b rest (slab_allocate Heap obtain s heap)
  unfolding slab_allocate make_slab_block
  slab_allocate-cases s heap heap' base (b ∷ rest) e h run aligned =
      (b, rest, inl e, rw (e, slab_allocate) (from_block_lem s heap b rest h e))
  slab_allocate-cases s heap heap' base [] e h run aligned =
      let (v, end, begin, unused, some_objects) =
        make_slab_block-IsValid base s.obj_size h.0 aligned in
      let new = make_slab_block base s.obj_size s.blk_size in
      let s₁ : SlabAllocator = record s { free_blocks = new ∷ [] } in
      let usable : (blk : ℕ)
          → blk ≡ default_block_size s.obj_size
          → IsValid (make_slab_block base s.obj_size blk)
            × ((make_slab_block base s.obj_size blk).object_size ≡ s.obj_size)
            × ((make_slab_block base s.obj_size blk).allocated_objects
                < (make_slab_block base s.obj_size blk).total_objects) =
        λ blk same. rw same (v, refl, some_objects) in
      let first : IsSlab s₁ = (h.0, h.1, (usable s.blk_size h.1, tt), h.3) in
      let (p, s', heap₁, run₁, h', given) = from_block_lem s₁ heap' new [] first refl in
      (
        new,
        [],
        inr (e, refl, refl, refl, refl),
        (
          p,
          s',
          heap₁,
          ap
                (λ blocks.
                  elim blocks [ [] ↦ add_block Heap obtain s heap | b ∷ rest ↦ ok (s, heap) ]
                  >>= from_block)
                e
              ∙ ap (λ r. r >>= from_block) (add_block-some s heap heap' base run)
              ∙ run₁,
          h',
          given,
        ),
      )

  -- A well-formed slab whose next block, if one is needed, is there and aligned to its objects gives
  -- out the first free object of the first of its blocks that have one, or of the new block if none
  -- has. The object lies among the data of that block and is not in its free list any more; the block
  -- then stands in front of the others with free objects, or behind the full ones if it has none left,
  -- all other blocks are kept, and the slab is well-formed.
  pub slab_allocate_lem :
      (s : SlabAllocator) (heap heap' : Heap) (base : ℕ)
      → IsSlab s
      → obtain heap s.blk_size s.blk_size ≡ ok (some base, heap')
      → base % s.obj_size ≡ 0
      → (p : ℕ) × (s' : SlabAllocator) × (heap₁ : Heap) × (slab_allocate Heap obtain s heap
          ≡ ok (some p, s', heap₁))
        × IsSlab s'
        × ((b : SlabBlock) × (rest : List SlabBlock) × IsSource s base b rest
            × IsGiven s b rest p s')
  slab_allocate_lem s heap heap' base h run aligned =
      let (b, rest, from, (p, s', heap₁, result, h', given)) =
        slab_allocate-cases s heap heap' base s.free_blocks refl h run aligned in
      (p, s', heap₁, result, h', (b, rest, from, given))
