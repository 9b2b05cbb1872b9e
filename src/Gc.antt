-- ===== src/Gc.antt =====
-- pkg/gcmanager: the garbage collection of addresses.
pub mod PodDatabase
pub mod PodEntries
pub mod Status
pub mod Scan
pub mod Trace
