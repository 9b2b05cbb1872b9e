-- ===== src/Tests/Net.antt =====
-- A text of addresses with the documented behaviour: one mark of the family, then one character.
use spiderpool.Prelude.{
  ℕ, ◌+◌, ◌-◌, ◌<◌, ◌/◌, ◌≡◌, [], ◌∷◌, Option, none, some, Text, ltb, leb, ◌==◌, ◌&&◌,
  contains_code, codes, text_eq, true, if◌then◌else◌, arith,
}
use spiderpool.Net.Address.{IpNet, v4_prefix, v4_modulus, v6_modulus}
use spiderpool.Net.Textual.{NetText, NetTextLaws}

abbrev read : Text → Option ℕ
read [] = none
read (m ∷ []) = none
read (m ∷ c ∷ []) = if leb 100 c && ltb (c - 100) v6_modulus then some (c - 100) else none
read (m ∷ c ∷ d ∷ s) = none

abbrev pub show : ℕ → Text
show v = (if v / v4_modulus == 0xffff then b'.' else b':') ∷ (v + 100) ∷ []

abbrev pub sample : NetText
sample = record { parse_ip = read; print_ip = show; parse_cidr = λ s. none; print_cidr = λ n. [] }

pub sample_laws : NetTextLaws sample
unfolding contains_code
sample_laws = record {
  parse-print = λ v b. ground arith;
  parse_bound = bound;
  print_dash = λ v. ground arith;
  print_dot = λ v h. ground arith;
  print_colon = λ v h. ground arith;
}
  where
    bound : (s : Text) (v : ℕ) → read s ≡ some v → v < v6_modulus
    bound [] v h = cc
    bound (m ∷ []) v h = cc
    bound (m ∷ c ∷ []) v h = ground arith
    bound (m ∷ c ∷ d ∷ s) v h = cc

-- The same with one network, `net`, of 256 addresses.
abbrev pub net_base : ℕ
net_base = 0x0a00_0000

abbrev pub address : ℕ → ℕ
address i = v4_prefix + (net_base + i)

abbrev pub network : IpNet
network = record { is_v4 = true; network = net_base; ones = 24 }

abbrev read_net : Text → Option (ℕ × IpNet)
read_net s = if text_eq s (codes "net") then some (address 0, network) else none

abbrev pub networked : NetText
networked = record {
  parse_ip = read;
  print_ip = show;
  parse_cidr = read_net;
  print_cidr = λ n. codes "net";
}

pub networked_laws : NetTextLaws networked
networked_laws = record {
  parse-print = sample_laws.parse-print;
  parse_bound = sample_laws.parse_bound;
  print_dash = sample_laws.print_dash;
  print_dot = sample_laws.print_dot;
  print_colon = sample_laws.print_colon;
}
