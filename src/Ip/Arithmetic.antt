-- ===== src/Ip/Arithmetic.antt =====
-- pkg/ip/ip.go: addresses as integers.
use Prim.Native.Nat.{compare, Ordering}
use spiderpool.Prelude.{
  ℕ, ◌+◌, ◌*◌, ◌-◌, ◌≡◌, Bool, ◌&&◌, ◌||◌, none, some, leb, ltb, ◌==◌, if◌then◌else◌, arith,
}
use spiderpool.Net.Address.{Ip, nil, bytes16, to4, to16, v4_modulus, v6_modulus, v4_prefix}

-- `SetBytes` of the 4 bytes, else of the 16 bytes; of no bytes it is 0.
unfoldable pub ip_to_int : Ip → ℕ
ip_to_int ip = elim (to4 ip) [ some v ↦ v | none ↦ elim (to16 ip) [ some v ↦ v | none ↦ 0 ] ]

-- `i.Bytes()` has no leading zero byte, and `To16` takes slices of 4 and of 16 bytes only: any other
-- integer becomes nil.
unfoldable pub int_to_ip : ℕ → Ip
int_to_ip i =
    if leb 0x100_0000 i && ltb i v4_modulus
    then bytes16 (v4_prefix + i)
    else if leb (0x100_0000 * v4_modulus * v4_modulus * v4_modulus) i && ltb i v6_modulus
    then bytes16 i
    else nil

unfoldable pub next_ip : Ip → Ip
unfolding ip_to_int int_to_ip
next_ip ip = int_to_ip (ip_to_int ip + 1)

-- Below 0 the integer is -1, and `Bytes` is that of its absolute value.
unfoldable pub prev_ip : Ip → Ip
unfolding ip_to_int int_to_ip
prev_ip ip = let i = ip_to_int ip in int_to_ip (if i == 0 then 1 else i - 1)

-- `Cmp`, with `lt`, `eq`, `gt` for -1, 0, 1
unfoldable pub cmp : Ip → Ip → Ordering
unfolding ip_to_int
cmp ip1 ip2 = compare (ip_to_int ip1) (ip_to_int ip2)

-- The integers that `int_to_ip` gives back as an address of the same integer: those whose first of
-- 4 or of 16 bytes is not 0, and that `To4` does not take for IPv4.
abbrev pub is_representable : ℕ → Bool
is_representable i =
    leb 0x100_0000 i && ltb i v4_modulus
    || leb (0x100_0000 * v4_modulus * v4_modulus * v4_modulus) i && ltb i v6_modulus

pub ip_to_int-int_to_ip : (i : ℕ) → ip_to_int (int_to_ip i) ≡ (if is_representable i then i else 0)
unfolding ip_to_int int_to_ip
ip_to_int-int_to_ip i = ground arith
