-- ===== src/Webhooks.antt =====
-- The admission webhooks of IPPools, Subnets and ReservedIPs.
pub mod Objects
pub mod Admitted
pub mod Checks
pub mod IpPool
pub mod Subnet
pub mod ReservedIp
pub mod Updates
