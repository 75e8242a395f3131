-- ===== src/Structures.antt =====
-- The educational structures of internal/structures: the contract they share, the map, the sorted
-- slice and the cache.
pub mod Contract
pub mod HashMap
pub mod Cache
mod SortedSlice
