-- ===== src/Ip/Range/Termination.antt =====
-- pkg/ip/iprange.go, `ParseIPRange`: when its loop ends, and what it returns.
use spiderpool.Prelude.{
  ℕ, zero, suc, ◌+◌, ◌<◌, ◌≤◌, ◌≡◌, refl, true, false, List, [], ◌∷◌, map, arith, Bool-cases, inl,
  inr, ◌==◌, ==_iff, subst, if◌then◌else◌,
}
use spiderpool.Net.Address.{Ip}
use spiderpool.Ip.Arithmetic.{
  ip_to_int, int_to_ip, next_ip, cmp, is_representable, ip_to_int-int_to_ip,
}
use spiderpool.Ip.Result.{ok, diverge, ◌>>=◌}
use spiderpool.Ip.Format.{is_gt}
use spiderpool.Ip.Range.{addresses_up_to}

-- The `k` integers from `i` on.
abbrev pub upto : ℕ → ℕ → List ℕ
upto zero i = []
upto (suc k) i = i ∷ upto k (i + 1)

abbrev pub AllRepresentable : ℕ → ℕ → Type 0
AllRepresentable lo hi = (i : ℕ) → lo < i → i ≤ hi → is_representable i ≡ true

step_lem :
    (fuel : ℕ) (cur end : Ip)
    → addresses_up_to (suc fuel) cur end ≡ (
        if is_gt (cmp cur end)
        then ok []
        else (addresses_up_to fuel (next_ip cur) end >>= λ ips. ok (cur ∷ ips)))
unfolding addresses_up_to
step_lem fuel cur end = refl

empty_lem : (cur end : Ip) → addresses_up_to zero cur end ≡ diverge
unfolding addresses_up_to
empty_lem cur end = refl

cmp_gt : (a b : Ip) → ip_to_int b < ip_to_int a → is_gt (cmp a b) ≡ true
unfolding cmp
cmp_gt a b h = ground arith

pub cmp_le : (a b : Ip) → ip_to_int a ≤ ip_to_int b → is_gt (cmp a b) ≡ false
unfolding cmp
cmp_le a b h = ground arith

next_ip_lem : (a : Ip) → next_ip a ≡ int_to_ip (ip_to_int a + 1)
unfolding next_ip
next_ip_lem a = refl

next_int :
    (a : Ip) → is_representable (ip_to_int a + 1) ≡ true → ip_to_int (next_ip a) ≡ ip_to_int a + 1
next_int a h = rw (next_ip_lem a, ip_to_int-int_to_ip (ip_to_int a + 1), h)

stuck_int : (a : Ip) → is_representable (ip_to_int a + 1) ≡ false → ip_to_int (next_ip a) ≡ 0
stuck_int a h = rw (next_ip_lem a, ip_to_int-int_to_ip (ip_to_int a + 1), h)

-- If no integer after the first address up to one past the last is lost by the conversion to
-- bytes, and the fuel is for more than one test after the addresses in between, then the loop ends
-- and returns the first address and those of all integers up to the last.
pub addresses_up_to_lem :
    (k fuel : ℕ) (cur end : Ip)
    → ip_to_int cur + k ≡ ip_to_int end
    → AllRepresentable (ip_to_int cur) (ip_to_int end + 1)
    → k + 1 < fuel
    → addresses_up_to fuel cur end ≡ ok (cur ∷ map int_to_ip (upto k (ip_to_int cur + 1)))
addresses_up_to_lem k zero cur end e h f = absurd (omega arith)
addresses_up_to_lem k (suc zero) cur end e h f = absurd (omega arith)
addresses_up_to_lem zero (suc (suc fuel)) cur end e h f =
    let n = next_int cur (h (ip_to_int cur + 1) (omega arith) (omega arith)) in
    rw (
      step_lem (suc fuel) cur end,
      cmp_le cur end (omega arith),
      step_lem fuel (next_ip cur) end,
      cmp_gt (next_ip cur) end (omega arith),
    )
addresses_up_to_lem (suc k) (suc (suc fuel)) cur end e h f =
    let n = next_int cur (h (ip_to_int cur + 1) (omega arith) (omega arith)) in
    rw (
      step_lem (suc fuel) cur end,
      cmp_le cur end (omega arith),
      addresses_up_to_lem k (suc fuel) (next_ip cur) end (omega arith)
          (λ i l u. h i (omega arith) u) (omega arith),
      n,
      next_ip_lem cur,
    )

-- If some integer after the first up to one past the last is lost by the conversion to bytes, the
-- loop never ends: no fuel is enough.
pub addresses_up_to-diverge :
    (fuel : ℕ) (cur end : Ip) (k : ℕ)
    → ip_to_int cur < k
    → k ≤ ip_to_int end + 1
    → is_representable k ≡ false
    → addresses_up_to fuel cur end ≡ diverge
addresses_up_to-diverge zero cur end k l u h = empty_lem cur end
addresses_up_to-diverge (suc fuel) cur end k l u h =
    let rest : addresses_up_to fuel (next_ip cur) end ≡ diverge =
      elim (Bool-cases (is_representable (ip_to_int cur + 1))) [
        | inl good ↦ addresses_up_to-diverge fuel (next_ip cur) end k (later good) u h
        | inr lost ↦
            addresses_up_to-diverge fuel (next_ip cur) end 1 (omega (arith, stuck_int cur lost))
              (omega arith) refl
      ] in
    rw (step_lem fuel cur end, cmp_le cur end (omega arith), rest)
  where
    later : is_representable (ip_to_int cur + 1) ≡ true → ip_to_int (next_ip cur) < k
    later good = elim (Bool-cases (k == ip_to_int cur + 1)) [
      | inl e ↦
          let same : k ≡ ip_to_int cur + 1 = (==_iff k (ip_to_int cur + 1)).0 e in
          let now : is_representable (ip_to_int cur + 1) ≡ false =
            subst (λ i. is_representable i ≡ false) same h in
          cc
      | inr ne ↦ ground (arith, next_int cur good)
    ]
