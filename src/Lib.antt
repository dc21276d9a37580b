-- ===== src/Lib.antt =====
-- bekOS, a small operating system for 64-bit ARM: models of the kernel's data structures and
-- memory management, with the theorems that make them correct.
--
-- Numbers are natural numbers. `uSize` and `uPtr` are 64 bits wide; sums and differences that
-- could leave them are written with add64 and sub64, or with `% word` (Common/Tests). A VERIFY,
-- ASSERT or PANIC that fails is the outcome `panic`, an access outside an object that the model
-- tracks is `fault`, an error code is `err`, and a loop that has used up the rounds that the model
-- allows it is `spin` (Common/Outcome). Theorems that a call returns give the rounds that are
-- enough.
--
-- The parts and the files:
--
-- Bek/Vector: bek/include/bek/vector.h. insert, extract and pop of bek::vector as the loops that
-- move elements (shift_up, shift_down) over the slots of the array, with Bek/Vector/Laws about
-- them. Bek/Vector/Growth has the storage with its capacity, and push_back and expand, which may
-- let it grow.
--
-- Library/Bitset: kernel/include/library/bitset.h. get, set, set_range, get_region_size and
-- find_first_fit of bek::bitset_view, each loop a function of its own. Loops and Scan hold the
-- lemmas on the loops, Range, Run, Fit and FirstFit the theorems.
--
-- Bek/Time: bek/src/time.cpp and bek/include/bek/time.h. from_decomposed and decompose of
-- UnixTimestamp, and the packed dates and times of FAT. Calendar is the calendar by years and
-- months; Seconds relates from_decomposed to it, Parts is about decompose, Packed about the packed
-- forms.
--
-- Library/Hashtable: kernel/include/library/hashtable.h. The arrays of pairs and fill marks are
-- one list of slots. Scan says where a lookup ends, Write what a write to a slot does to lookups,
-- Set what find answers after a pair is stored or taken out, Load that insert and set return. The
-- hash and the equality of the keys are the record Keys.
--
-- Library/LruCache: kernel/include/library/lru_cache.h. LRUCache over the hash table; Pick is
-- about the choice of the item that is purged.
--
-- Library/TransactionalBuffer: kernel/include/library/transactional_buffer.h. The interface
-- TransactionalBuffer is a record of operations; KernelBuffer, BitwiseObjectBuffer and
-- TransactionalBufferSubset are its instances.
--
-- Library/RingBuffer: kernel/src/library/ringbuffer.cpp. ring_buffer with its two indices; the
-- buffer that is read to or written from is a parameter. Contents says which queue a ring holds;
-- ReadLoop and WriteLoop show that read_to and write_to take from and add to that queue.
--
-- Process/Pipe: kernel/src/process/pipe.cpp. Pipe and PipeHandle. A blocking call waits for the
-- other threads; what they do to the pipe before each look is an argument, a list of functions or
-- of pipes.
--
-- Mm/Addresses: kernel/include/mm/addresses.h. The regions of user, physical and virtual
-- addresses.
--
-- Mm/RegionPages and Mm/PageAllocator: kernel/src/mm/page_allocator.cpp. RegionPageAllocator with
-- its two bitmaps, and PageAllocator over up to four of them. Marks, Search and Allocate prove the
-- behaviour of one region; PageAllocator/RoundTrip that of an allocation and its release through
-- all of them.
--
-- Mm/BitmapAllocator: kernel/src/mm/kmalloc.cpp. The class BitmapAllocator of the kernel heap,
-- over the bitset.
--
-- Mm/Slab and Mm/KernelAllocator: kernel/src/mm/kmalloc.cpp. A SlabBlock with its free list,
-- SlabAllocator with its two lists of blocks over the memory below it, and KernelAllocator over
-- the page allocator, the slabs and the bitmap allocator. Slab/Block is about a block, Slab/Laws
-- about a slab.
--
-- Mm/SpaceManager: kernel/src/mm/space_manager.cpp. SpaceManager keeps the regions of a process in
-- order of address. The backing of a region (BackingRegion) and the translation tables
-- (TableManager) are the interface Backing, whose calls return a code and the tables. Order
-- defines the order; Place is about place_region, Access about check_region, Release about
-- deallocation, Fork about clone_for_fork.
--
-- Usb: kernel/include/usb/xhci_ring.h, kernel/src/usb/xhci_ring.cpp and a loop of
-- kernel/src/usb/xhci.cpp. Trb has the blocks of the rings with their bit fields, ProducerRing the
-- rings for commands and transfers, whose slots remember callbacks, and EventRing the ring that
-- the controller fills, as it stands when the interrupt handler reads it.
--
-- Ipc/Message: userspace/libipc/src/message.cpp. MessageBuffer is the list of its bytes, with the
-- header and the payload items at their places in it. Layout and Items are about these, Build
-- about the constructor, RoundTrip about to_buffer and from_buffer, Decode about decode_bytes, and
-- Encode about encode_bytes, on the storage of the vector.
--
-- Arch/TranslationTables and Arch/TableManager: kernel/src/arch/a64/translation_tables.cpp. Tables
-- of entries, where an entry that points to a table holds it with the address of its page;
-- map_upper and map_lower, and unmap_upper and unmap_lower, as one recursion over the levels with
-- one loop over the entries. TranslationTables/Find is the lookup of the processor, Walks says
-- what a walk does to lookups, Loop, Leaves and Entries are about the loop and its bodies, Map
-- about the recursion. TableManager has the pages for new tables, map_region and unmap_region;
-- what the linker places and what the processor translates for the kernel are the record Platform.
--
-- Filesystem/Fat and Filesystem/ShortName: kernel/src/filesystem/fat.cpp. Fat has the table of
-- clusters as the sectors that fetch_fat_sector hands out, getNextCluster, allocateNextCluster and
-- extendFile. Fat/Places and Sector are about the entries in their sectors, Chain about
-- allocateNextCluster, Links about the links between the clusters, Follow and Extend about
-- extendFile. Fat/Data has the cache of clusters over the device and doDataInterchange; Cache is
-- about the bytes of a cluster, Content about those of a chain, Read about the loop over the
-- clusters, Interchange about reads as a whole, Write about writes to one cluster. The blocks in
-- the cache are those of Library/BlockCache, kernel/include/library/block_cache.h. Which clusters
-- the cache purges when it takes one is an argument, the cache of the table's sectors and the
-- device under the table are one store, the device under the data area has the bytes of a cluster at
-- each byte address, and the device's transfers succeed. ShortName has the names of eight and
-- three characters: Characters says what they are made of, RoundTrip is about names that are short
-- already.
--
-- Tests holds runs on concrete inputs.
--
-- How the parts meet: pipes read and write through the loops of the ring buffer; the page
-- allocator and the address spaces use the regions of Mm/Addresses; the address spaces insert and
-- remove with the operations of the vector. The translation tables take pages from the page
-- allocator. The kernel heap has the bitmap allocator over the bitset, the slabs, whose blocks
-- come from it, and the page allocator for what is large. Messages keep their parts in vectors.
--
-- Rounds: the loops of ring_buffer are given three rounds, two that copy and one that ends. Those
-- of the bitset are given as many as they have bits to pass, and the vector's as many as it has
-- elements and one more. deallocate_userspace_region(region) has one more than there are regions.
-- free_loop has as many as the allocation has pages. Those of extendFile and doDataInterchange
-- have a round for each cluster. The loop of process_interrupt has one round for each event and
-- one more, and the loop that doubles the capacity of a vector 65. A blocking write or read of a
-- pipe has one for each step of the others.
--
-- Not modelled: the release of memory by vectors, spin locks and memory ordering (a call is one
-- step), debug output, and the rest of the system: the directories and files of the file systems,
-- the caches of blocks, the scheduler and system calls, the tables that the boot code writes by
-- itself (crude_map_region), the other device drivers and the user libraries.
pub mod Common
pub mod Bek
pub mod Library
pub mod Mm
pub mod Process
pub mod Usb
pub mod Arch
pub mod Filesystem
pub mod Ipc
mod Tests
