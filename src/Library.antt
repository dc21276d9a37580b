-- ===== src/Library.antt =====
-- kernel/include/library and kernel/src/library: the kernel's own containers and buffers.
pub mod TransactionalBuffer
pub mod Bitset
pub mod Hashtable
pub mod LruCache
pub mod BlockCache
pub mod RingBuffer
