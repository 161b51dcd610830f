-- ===== src/Memory.antt =====
-- The memory managers, kernel/memory.
pub mod Bootstrap
pub mod MemMap
pub mod Pmm
