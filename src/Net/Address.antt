-- ===== src/Net/Address.antt =====
-- Go's `net.IP` and `net.IPNet`, as far as pkg/ip uses them. A slice of 4 or 16 bytes is its length
-- with its big-endian value; no other length but 0 arises.
use spiderpool.Prelude.{
  ℕ, ◌+◌, ◌*◌, ◌-◌, ◌/◌, ◌%◌, ◌^◌, Bool, true, false, ◌&&◌, Option, none, some, ◌==◌, if◌then◌else◌,
}

pub data Ip : Type 0 where
  nil : Ip
  bytes4 : ℕ → Ip
  bytes16 : ℕ → Ip

abbrev pub v4_modulus : ℕ
v4_modulus = 0x1_0000_0000

abbrev pub v6_modulus : ℕ
v6_modulus = v4_modulus * v4_modulus * v4_modulus * v4_modulus

-- The 16 bytes of an IPv4 address begin with 80 zero bits and 16 one bits.
abbrev pub v4_prefix : ℕ
v4_prefix = 0xffff * v4_modulus

-- `ip.To4()`: the 4 bytes of an IPv4 address in either form.
abbrev pub to4 : Ip → Option ℕ
to4 nil = none
to4 (bytes4 v) = some v
to4 (bytes16 v) = if v / v4_modulus == 0xffff then some (v % v4_modulus) else none

-- `ip.To16()`
abbrev pub to16 : Ip → Option ℕ
to16 nil = none
to16 (bytes4 v) = some (v4_prefix + v)
to16 (bytes16 v) = some v

-- `ip.Equal(x)`: an IPv4 address equals its 16-byte form.
abbrev pub equal : Ip → Ip → Bool
equal nil nil = true
equal nil _ = false
equal (bytes4 a) nil = false
equal (bytes4 a) (bytes4 b) = a == b
equal (bytes4 a) (bytes16 b) = v4_prefix + a == b
equal (bytes16 a) nil = false
equal (bytes16 a) (bytes4 b) = a == v4_prefix + b
equal (bytes16 a) (bytes16 b) = a == b

-- `net.IPNet` as `net.ParseCIDR` returns it: the masked network number in the width of its family,
-- and the number of leading ones of the mask.
pub record IpNet : Type 0 where
  pub is_v4 : Bool
  pub network : ℕ
  pub ones : ℕ

abbrev pub width : Bool → ℕ
width true = 32
width false = 128

abbrev in_net : IpNet → ℕ → Bool
in_net n x = x / 2 ^ (width n.is_v4 - n.ones) == n.network / 2 ^ (width n.is_v4 - n.ones)

abbrev contains16 : IpNet → Option ℕ → Ip → Bool
contains16 n (some x) ip = n.is_v4 && in_net n x
contains16 n none nil = false
contains16 n none (bytes4 v) = false
contains16 n none (bytes16 v) = if n.is_v4 then false else in_net n v

-- `ipNet.Contains(ip)`: the forms must have the same length, the network bits must agree.
unfoldable pub contains : IpNet → Ip → Bool
contains n ip = contains16 n (to4 ip) ip
