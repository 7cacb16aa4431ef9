-- ===== src/Memory/Chain.antt =====
-- The list of files that the `next` pointers of memory.c lead through.
mod Links
mod Split
pub use Links.*
pub use Split.*
