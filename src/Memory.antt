-- ===== src/Memory.antt =====
-- memory.c: the cache of files.
pub mod State
pub mod Names
pub mod Find
pub mod Files
pub mod Evict
pub mod Chain
pub mod Limits
pub mod Print
pub mod Cache
