-- ===== src/Ip/Range/Band.antt =====
-- pkg/ip: the addresses that the integer conversions of ip.go carry without loss, with the next one.
use mathlib.Core.Path.{subst₂}
use spiderpool.Prelude.{ℕ, ◌+◌, ◌*◌, ◌<◌, ◌≤◌, ◌≡◌, Bool, true, false, arith, Text, ◌==◌}
use spiderpool.Net.Address.{Ip, bytes16, equal, v4_prefix, v4_modulus, v6_modulus}
use spiderpool.Net.Textual.{NetText, NetTextLaws}
use spiderpool.Ip.Arithmetic.{ip_to_int, int_to_ip, next_ip}
use spiderpool.Ip.Format.{parsed, is_ipv4, is_ipv6}
use spiderpool.Ip.Range.{is_wrong_version, printed}
use spiderpool.Ip.Range.Termination.{AllRepresentable}

pub data Family : Type 0 where
  v4 v6 : Family

abbrev pub version_of : Family → ℕ
version_of v4 = 4
version_of v6 = 6

abbrev pub base : Family → ℕ
base v4 = v4_prefix
base v6 = 0

abbrev pub lowest : Family → ℕ
lowest v4 = 0x100_0000
lowest v6 = 0x100_0000 * v4_modulus * v4_modulus * v4_modulus

abbrev pub modulus : Family → ℕ
modulus v4 = v4_modulus
modulus v6 = v6_modulus

-- The address of an integer, as `net.ParseIP` returns it.
abbrev pub addr : Family → ℕ → Ip
addr f i = bytes16 (base f + i)

-- The first byte is not 0, and the address is not the last of its family.
abbrev pub InBand : Family → ℕ → Type 0
InBand f i = (lowest f ≤ i) × (i + 1 < modulus f)

abbrev pub Good : Family → Ip → Type 0
Good f ip = (i : ℕ) × (ip ≡ addr f i) × InBand f i

pub ip_to_int-addr : (f : Family) (i : ℕ) → InBand f i → ip_to_int (addr f i) ≡ i
unfolding ip_to_int
ip_to_int-addr v4 i h = ground arith
ip_to_int-addr v6 i h = ground arith

pub int_to_ip-addr : (f : Family) (i : ℕ) → lowest f ≤ i → i < modulus f → int_to_ip i ≡ addr f i
unfolding int_to_ip
int_to_ip-addr v4 i l u = ground arith
int_to_ip-addr v6 i l u = ground arith

pub next_ip-addr : (f : Family) (i : ℕ) → InBand f i → next_ip (addr f i) ≡ addr f (i + 1)
unfolding next_ip
next_ip-addr f i h =
    rw (ip_to_int-addr f i h) (int_to_ip-addr f (i + 1) (omega arith) (omega arith))

pub equal-addr : (f : Family) (i j : ℕ) → equal (addr f i) (addr f j) ≡ (i == j)
equal-addr f i j = ground arith

pub addr-injective :
    (f : Family) (i j : ℕ) (a b : Ip) → a ≡ addr f i → b ≡ addr f j → equal a b ≡ true → i ≡ j
addr-injective f i j a b p q e =
    let h : equal (addr f i) (addr f j) ≡ true = subst₂ (λ x y. equal x y ≡ true) p q e in
    ground arith

pub right_version :
    (f : Family) (i : ℕ) → InBand f i → is_wrong_version (version_of f) (addr f i) ≡ false
right_version v4 i h = ground arith
right_version v6 i h = ground arith

pub InBand-AllRepresentable :
    (f : Family) (i j : ℕ) → InBand f i → InBand f j → AllRepresentable i (j + 1)
InBand-AllRepresentable v4 i j h k n l u = ground arith
InBand-AllRepresentable v6 i j h k n l u = ground arith

module _ (n : NetText) (laws : NetTextLaws n) where
  pub addr_lt : (f : Family) (i : ℕ) → InBand f i → base f + i < v6_modulus
  addr_lt v4 i h = omega arith
  addr_lt v6 i h = omega arith

  pub parsed-printed :
      (f : Family) (i : ℕ) → InBand f i → parsed n (printed n (addr f i)) ≡ addr f i
  parsed-printed f i h = rw (parsed, laws.parse-print (base f + i) (addr_lt f i h))

  -- The check of one address text of the family.
  abbrev pub is_address : Family → Text → Bool
  is_address v4 = is_ipv4 n
  is_address v6 = is_ipv6 n

  pub is_address-printed :
      (f : Family) (i : ℕ) → InBand f i → is_address f (printed n (addr f i)) ≡ true
  is_address-printed v4 i h =
      rw (laws.parse-print (v4_prefix + i) (omega arith))
        (laws.print_dot (v4_prefix + i) (omega arith))
  is_address-printed v6 i h =
      rw (laws.parse-print (0 + i) (omega arith)) (laws.print_colon (0 + i) (omega arith))
