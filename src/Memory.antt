-- ===== src/Memory.antt =====
-- kernel/memory: address arithmetic, the boot memory map and the physical page allocator.
pub mod Helpers
pub mod Addresses
pub mod Map
pub mod Bitmap
pub mod Pmm
mod Tests
