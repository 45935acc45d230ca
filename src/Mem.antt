-- ===== src/Mem.antt =====
-- kernel/mem: the bump allocator, the page allocator over it and the kernel heap over both.
pub mod Bump
pub mod Heap
pub mod Interface
