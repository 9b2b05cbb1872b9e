-- ===== src/Subnets.antt =====
-- pkg/subnetmanager: the addresses of a SpiderSubnet and their pre-allocation to pools.
pub mod Records
pub mod FreeIps
pub mod PreAllocate
