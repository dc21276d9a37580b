-- ===== src/Mm/Slab.antt =====
-- kernel/src/mm/kmalloc.cpp: the slabs of the kernel heap. A block is known by its address, and its
-- free list is the list of the addresses of the free objects. The memory that blocks are made in comes from
-- the heap below, whose state is `Heap`.
pub mod Block
pub mod Laws
use bek_os.Common.{
  ℕ, zero, suc, ◌+◌, ◌-◌, ◌*◌, ◌/◌, ◌%◌, Bool, true, false, ◌&&◌, List, [], ◌∷◌, ◌++◌, Option, none,
  some,
}
use bek_os.Common.Tests.{◌==◌, ltb, leb, if◌then◌else◌, sub32, word32}
use bek_os.Common.Outcome.{Outcome, ok, panic, fault, ◌>>=◌, ◌>>◌, verify}

pub record SlabBlock : Type 0 where
  pub base : ℕ
  pub object_size : ℕ
  pub freelist : List ℕ
  pub allocated_objects : ℕ
  pub total_objects : ℕ

-- sizeof(SlabBlock)
abbrev pub block_header : ℕ
block_header = 48

-- data_begin, by the block's address and the size of its objects.
unfoldable pub data_begin : ℕ → ℕ → ℕ
data_begin base object_size = base + (block_header + object_size - 1) / object_size * object_size

unfoldable pub data_end : SlabBlock → ℕ
unfolding data_begin
data_end b = data_begin b.base b.object_size + b.total_objects * b.object_size

-- The loop of the constructor, for the rounds from `i` on.
unfoldable pub link_objects : ℕ → ℕ → ℕ → ℕ → List ℕ → List ℕ
link_objects zero i array object_size freelist = freelist
link_objects (suc n) i array object_size freelist =
    link_objects n (i + 1) array object_size ((array + i * object_size) ∷ freelist)

unfoldable pub make_slab_block : ℕ → ℕ → ℕ → SlabBlock
unfolding data_begin link_objects
make_slab_block base object_size block_size =
    let total = (block_size - block_header) / object_size % word32 in
    record {
      base = base;
      object_size = object_size;
      freelist = link_objects total 0 (data_begin base object_size) object_size [];
      allocated_objects = 0;
      total_objects = total;
    }

-- SlabBlock::allocate, by the free list.
abbrev pub allocate_object : SlabBlock → List ℕ → Option ℕ × SlabBlock
allocate_object b [] = (none, b)
allocate_object b (object ∷ rest) = (
  some object,
  record b { freelist = rest; allocated_objects = (b.allocated_objects + 1) % word32 },
)

-- SlabBlock::deallocate.
unfoldable pub deallocate_object : SlabBlock → ℕ → Outcome SlabBlock
unfolding data_end
deallocate_object b ptr = do
  verify (leb (data_begin b.base b.object_size) ptr && ltb ptr (data_end b))
  verify (ptr % b.object_size == 0)
  ok (record b { freelist = ptr ∷ b.freelist; allocated_objects = sub32 b.allocated_objects 1 })

abbrev pub is_full : SlabBlock → Bool
is_full b = b.allocated_objects == b.total_objects

pub record SlabAllocator : Type 0 where
  pub free_blocks : List SlabBlock
  pub full_blocks : List SlabBlock
  pub obj_size : ℕ
  pub blk_size : ℕ

unfoldable pub default_block_size : ℕ → ℕ
default_block_size obj_size = if leb obj_size 256 then 4096 else obj_size / 256 * 4096

unfoldable pub make_slab_allocator : ℕ → Outcome SlabAllocator
unfolding default_block_size
make_slab_allocator object_size =
    verify (leb 32 object_size)
    >> ok (record {
      free_blocks = [];
      full_blocks = [];
      obj_size = object_size;
      blk_size = default_block_size object_size;
    })

-- The second half of SlabAllocator::allocate, by the blocks that are not full.
unfoldable pub allocate_front : SlabAllocator → List SlabBlock → Outcome (Option ℕ × SlabAllocator)
allocate_front s [] = fault
allocate_front s (block ∷ rest) =
    let (allocation, block') = allocate_object block block.freelist in
    ok (
      allocation,
      if is_full block'
          then record s { free_blocks = rest; full_blocks = s.full_blocks ++ (block' ∷ []) }
          else record s { free_blocks = block' ∷ rest },
    )

module _ (Heap : Type 0) (obtain : Heap → ℕ → ℕ → Outcome (Option ℕ × Heap)) where
  -- A new block, which is made at a null address if there is no memory.
  unfoldable pub add_block : SlabAllocator → Heap → Outcome (SlabAllocator × Heap)
  unfolding make_slab_block
  add_block s heap = obtain heap s.blk_size s.blk_size >>= λ (place, heap'). elim place [
    | none ↦ fault
    | some base ↦
        ok (record s { free_blocks = make_slab_block base s.obj_size s.blk_size ∷ [] }, heap')
  ]

  -- SlabAllocator::allocate.
  unfoldable pub slab_allocate : SlabAllocator → Heap → Outcome (Option ℕ × SlabAllocator × Heap)
  unfolding add_block allocate_front
  slab_allocate s heap =
      elim s.free_blocks [ [] ↦ add_block s heap | block ∷ rest ↦ ok (s, heap) ] >>= λ (s', heap').
      allocate_front s' s'.free_blocks >>= λ (allocation, s''). ok (allocation, s'', heap')

-- The block with this address in a list, if it is there, and the list with another one in its place or
-- without it.
abbrev pub block_at : ℕ → List SlabBlock → Option SlabBlock
block_at base [] = none
block_at base (b ∷ rest) =
    let later = block_at base rest in if b.base == base then some b else later

abbrev pub replace : ℕ → SlabBlock → List SlabBlock → List SlabBlock
replace base new [] = []
replace base new (b ∷ rest) =
    let later = replace base new rest in if b.base == base then new ∷ rest else b ∷ later

abbrev pub remove : ℕ → List SlabBlock → List SlabBlock
remove base [] = []
remove base (b ∷ rest) = let later = remove base rest in if b.base == base then rest else b ∷ later

-- free of a block that is in the list of full blocks.
unfoldable pub free_in_full : SlabAllocator → ℕ → ℕ → Outcome SlabAllocator
unfolding deallocate_object
free_in_full s base ptr = elim (block_at base s.full_blocks) [
  | none ↦ fault
  | some block ↦ deallocate_object block ptr >>= λ block'. ok (
      if is_full block
      then record s {
        free_blocks = s.free_blocks ++ (block' ∷ []);
        full_blocks = remove base s.full_blocks;
      }
      else record s { full_blocks = replace base block' s.full_blocks })
]

-- SlabAllocator::free. A block that counts as full is to be in the list of the full blocks.
unfoldable pub slab_free : SlabAllocator → ℕ → Outcome SlabAllocator
unfolding free_in_full
slab_free s ptr =
    let base = ptr / s.blk_size * s.blk_size in
    elim (block_at base s.free_blocks) [
      | none ↦ free_in_full s base ptr
      | some block ↦
          if is_full block
          then panic
          else (deallocate_object block ptr >>= λ block'.
              ok (record s { free_blocks = replace base block' s.free_blocks }))
    ]
