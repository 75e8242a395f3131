-- ===== src/Btree.antt =====
-- The B+trees of internal/btree, in memory and on pages of a file.
pub mod Memory
pub mod Disk
pub mod FreeList
pub mod PageManager
