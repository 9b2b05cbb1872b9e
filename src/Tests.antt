-- ===== src/Tests.antt =====
-- Concrete runs of the theorems, with a concrete text of addresses.
pub mod Net
pub mod Subnets
pub mod Webhooks
pub mod Apps
pub mod Limiter
pub mod Pool
pub mod Ip
pub mod Subnet
pub mod Gc
pub mod Endpoint
pub mod Parsing
pub mod Ipam
