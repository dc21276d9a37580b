-- ===== src/Mm.antt =====
-- kernel/src/mm: regions of addresses, the page allocator and the kernel's heap.
pub mod Addresses
pub mod RegionPages
pub mod BitmapAllocator
pub mod PageAllocator
pub mod SpaceManager
pub mod Slab
pub mod KernelAllocator
