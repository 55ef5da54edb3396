-- ===== src/Slob.antt =====
-- CS444_project4_46/slob.c: the SLOB allocator.
pub mod Block
pub mod BlockLaws
pub mod Segment
pub mod Cover
pub mod State
pub mod PageAlloc
pub mod Free
pub mod Heap
pub mod Alloc
pub mod RoundTrip
pub mod Kmalloc
pub mod Cache
pub mod Client
pub mod Threads
pub mod Amounts
pub mod Tests
