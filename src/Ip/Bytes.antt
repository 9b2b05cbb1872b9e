-- ===== src/Ip/Bytes.antt =====
-- pkg/ip/ip.go, `nextIP`: the carry that runs through the bytes of an address from the last one.
use spiderpool.Prelude.{
  ℕ, zero, suc, ◌+◌, ◌*◌, ◌%◌, ◌<◌, ◌≡◌, refl, sym, Bool, true, false, List, [], ◌∷◌, ◌==◌,
  if◌then◌else◌, arith, length, All, Bool-cases, inl, inr,
}
use native.Mathlib.Nat.{mod-eq_of_lt, mod_self}
use spiderpool.Net.Address.{Ip, nil, bytes4, bytes16, v4_modulus, v6_modulus}

-- The bytes after the loop, and whether the loop still runs, which is so while every byte wraps.
unfoldable pub ripple : List ℕ → Bool × List ℕ
ripple [] = (true, [])
ripple (b ∷ bs) =
    let (carry, rest) = ripple bs in
    if carry then ((b + 1) % 256 == 0, (b + 1) % 256 ∷ rest) else (false, b ∷ rest)

abbrev pub next_bytes : List ℕ → List ℕ
next_bytes bs = (ripple bs).1

-- The same on the big-endian value.
unfoldable pub next_value : Ip → Ip
next_value nil = nil
next_value (bytes4 v) = bytes4 ((v + 1) % v4_modulus)
next_value (bytes16 v) = bytes16 ((v + 1) % v6_modulus)

abbrev pub pow256 : ℕ → ℕ
pow256 zero = 1
pow256 (suc n) = 256 * pow256 n

-- Big-endian value.
abbrev pub value : List ℕ → ℕ
value [] = 0
value (b ∷ bs) = b * pow256 (length bs) + value bs

abbrev pub AreBytes : List ℕ → Type 0
AreBytes = All (λ b. b < 256)

length-ripple : (bs : List ℕ) → length (ripple bs).1 ≡ length bs
unfolding ripple
length-ripple [] = refl
length-ripple (b ∷ bs) = ground (arith, length-ripple bs)

abbrev Carried : ℕ → Bool → ℕ → ℕ → Type 0
Carried p true old new = (new ≡ 0) × (old + 1 ≡ p)
Carried p false old new = (new ≡ old + 1) × (new < p)

-- One byte more, whether the carry reaches it or not.
carry_step :
    (carry : Bool) (b p old new : ℕ)
    → b < 256
    → Carried p carry old new
    → Carried
        (256 * p)
        (if carry then (b + 1) % 256 == 0 else false)
        (b * p + old)
        ((if carry then (b + 1) % 256 else b) * p + new)
carry_step false b p old new h c = (omega arith, grind arith)
carry_step true b p old new h c = elim (Bool-cases (b == 255)) [
  | inl e ↦ let last : b ≡ 255 = ground arith in rw last (ground arith, omega arith)
  | inr e ↦
      let small : b + 1 < 256 = ground arith in
      let same : (b + 1) % 256 ≡ b + 1 = omega arith in
      let nz : (b + 1 == 0) ≡ false = ground arith in rw (same, nz) (omega arith, grind arith)
]

ripple_lem :
    (bs : List ℕ)
    → AreBytes bs
    → Carried (pow256 (length bs)) (ripple bs).0 (value bs) (value (ripple bs).1)
unfolding ripple
ripple_lem [] h = (refl, refl)
ripple_lem (b ∷ bs) h = elim (Bool-cases (ripple bs).0) [
  | inl e ↦
      rw (e, length-ripple bs)
        (carry_step true b (pow256 (length bs)) (value bs) (value (ripple bs).1) h.0
          (rw e at (ripple_lem bs h.1)))
  | inr e ↦
      rw (e, length-ripple bs)
        (carry_step false b (pow256 (length bs)) (value bs) (value (ripple bs).1) h.0
          (rw e at (ripple_lem bs h.1)))
]

-- On every list of bytes the loop adds 1 modulo 256 to the power of its length.
pub next_bytes_lem :
    (bs : List ℕ) → AreBytes bs → value (next_bytes bs) ≡ (value bs + 1) % pow256 (length bs)
next_bytes_lem bs h = wraps (ripple bs).0 _ _ _ (ripple_lem bs h)
  where
    wraps : (c : Bool) (p old new : ℕ) → Carried p c old new → new ≡ (old + 1) % p
    wraps true p old new (z, e) = rw (z, e) (sym (mod_self p))
    wraps false p old new (e, l) = rw (← e) (sym (mod-eq_of_lt l))
