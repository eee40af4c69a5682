-- ===== src/Malloc.antt =====
-- The allocator of malloc/malloc.c.
pub mod Memory
pub mod Region
pub mod Blocks
pub mod Api
mod Tests
