-- ===== src/MemoryPool.antt =====
-- src/memorypool: the size classes of the allocator.
pub mod SizeClass
