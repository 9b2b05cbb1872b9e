-- ===== src/Ip.antt =====
-- pkg/ip: addresses as integers, IP ranges, sets of addresses, and the subnets of the pools.
pub mod Arithmetic
pub mod Bytes
pub mod Result
pub mod Format
pub mod LabelValue
pub mod Range
pub mod Sets
pub mod Available
pub mod Subnet
