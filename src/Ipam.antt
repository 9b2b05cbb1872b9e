-- ===== src/Ipam.antt =====
-- pkg/ipam: how an allocation chooses its interfaces, its candidate pools and its addresses.
pub mod Nics
pub mod Facts
pub mod Select
pub mod Candidates
pub mod Allocate
pub mod Routes
pub mod Outdated
pub mod Preference
pub mod Release
pub mod Flow
