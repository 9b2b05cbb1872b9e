-- ===== src/Net/Textual.antt =====
-- The text of addresses: `net.ParseIP`, `IP.String`, `net.ParseCIDR` and `IPNet.String` are not
-- part of the repository and stay parameters, with what the code relies on.
use spiderpool.Prelude.{ℕ, ◌<◌, ◌≡◌, ◌/◌, ◌≢◌, true, false, Option, some, Text, contains_code}
use spiderpool.Net.Address.{IpNet, v4_modulus, v6_modulus}

pub record NetText : Type 0 where
  -- `net.ParseIP`: the value of the 16 bytes that it returns, or none for nil.
  pub parse_ip : Text → Option ℕ
  -- `IP.String` of the 16 bytes with this value.
  pub print_ip : ℕ → Text
  -- `net.ParseCIDR`: the 16 bytes of the address, and the network.
  pub parse_cidr : Text → Option (ℕ × IpNet)
  pub print_cidr : IpNet → Text

-- The documented behaviour of the address texts: `ParseIP` reads back what `String` writes, a
-- result is 16 bytes long; the text of an IPv4 address has dots, that of any other colons, and
-- neither has a dash.
pub record NetTextLaws (n : NetText) : Type 0 where
  pub parse-print : (v : ℕ) → v < v6_modulus → n.parse_ip (n.print_ip v) ≡ some v
  pub parse_bound : (s : Text) (v : ℕ) → n.parse_ip s ≡ some v → v < v6_modulus
  pub print_dash : (v : ℕ) → contains_code b'-' (n.print_ip v) ≡ false
  pub print_dot : (v : ℕ) → v / v4_modulus ≡ 0xffff → contains_code b'.' (n.print_ip v) ≡ true
  pub print_colon : (v : ℕ) → v / v4_modulus ≢ 0xffff → contains_code b':' (n.print_ip v) ≡ true
