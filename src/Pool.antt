-- ===== src/Pool.antt =====
-- pkg/ippoolmanager: the allocation records of an IPPool, and the operations that change them.
pub mod Records
pub mod Api
pub mod Allocate
pub mod Release
pub mod Affinity
pub mod Priority
