-- ===== src/Ip/Available/Fresh.antt =====
-- pkg/ip/ip.go, `FindAvailableIPs`: what holds of its result with any fuel and any texts.
use spiderpool.Prelude.{
  ℕ, zero, suc, ◌+◌, ◌-◌, ◌%◌, split_on, ◌<◌, ◌≤◌, ◌≡◌, ◌||◌, refl, false, List, [], ◌∷◌, Text,
  Option, none, some, ltb, ◌==◌, arith, Bool-cases, inl, inr, All, All-append, length,
  length-append,
}
use spiderpool.Net.Address.{Ip, bytes16, equal, v6_modulus}
use spiderpool.Net.Textual.{NetText, NetTextLaws}
use spiderpool.Ip.Bytes.{next_value}
use spiderpool.Ip.Sets.{is_member}
use spiderpool.Ip.Available.Spec.{Bounded, ends-Bounded}
use spiderpool.Ip.Available.{
  Found, push, joined, scan_range, range_ends, from_range, find_available_ips,
}

abbrev pub IsAddress : Ip → Type 0
IsAddress ip = (v : ℕ) × (ip ≡ bytes16 v) × (v < v6_modulus)

abbrev pub AreFresh : List Ip → List Ip → Type 0
AreFresh used = All (λ ip. (is_member ip used ≡ false) × IsAddress ip)

next_value-IsAddress : (ip : Ip) → IsAddress ip → IsAddress (next_value ip)
unfolding next_value
next_value-IsAddress ip (v, e, b) = ((v + 1) % v6_modulus, rw e, omega arith)

abbrev ScanFresh : List Ip → ℕ → Found → Type 0
ScanFresh used c none = Unit
ScanFresh used c (some (ips, left)) = AreFresh used ips × (length ips + left ≡ c)

push-ScanFresh :
    (used : List Ip) (c : ℕ) (ip : Ip) (r : Found)
    → (is_member ip used ≡ false) × IsAddress ip
    → 0 < c
    → ScanFresh used (c - 1) r
    → ScanFresh used c (push ip r)
push-ScanFresh used c ip none h p q = tt
push-ScanFresh used c ip (some (ips, left)) h p q = ((h, q.0), omega arith)

scan_range-ScanFresh :
    (fuel : ℕ) (ip stop : Ip) (used : List Ip) (c : ℕ)
    → IsAddress ip
    → ScanFresh used c (scan_range fuel ip stop used c)
unfolding scan_range
scan_range-ScanFresh zero ip stop used c a = tt
scan_range-ScanFresh (suc fuel) ip stop used c a = elim (Bool-cases (equal ip stop || c == 0)) [
  | inl ends ↦ rw ends (tt, omega arith)
  | inr goes ↦ elim (Bool-cases (is_member ip used)) [
    | inl taken ↦
        rw (goes, taken)
          (scan_range-ScanFresh fuel (next_value ip) stop used c (next_value-IsAddress ip a))
    | inr unused ↦
        rw (goes, unused)
          (push-ScanFresh used c ip _ (unused, a) (ground arith)
            (scan_range-ScanFresh fuel (next_value ip) stop used (c - 1)
              (next_value-IsAddress ip a)))
  ]
]

-- What a result with the fuel used up says is nothing; a list is of free addresses, and no longer
-- than what is wanted.
abbrev pub Fresh : List Ip → ℕ → Option (List Ip) → Type 0
Fresh used c none = Unit
Fresh used c (some ips) = AreFresh used ips × (length ips ≤ c)

joined-Fresh :
    (used ips : List Ip) (c left : ℕ) (r : Option (List Ip))
    → AreFresh used ips
    → length ips + left ≡ c
    → Fresh used left r
    → Fresh used c (joined ips r)
joined-Fresh used ips c left none h e f = tt
joined-Fresh used ips c left (some more) h e f =
    (All-append _ ips more h f.0, omega (arith, length-append ips more))

module _ (n : NetText) where
  from_range-Fresh :
      (fuel : ℕ) (ends : Option (ℕ × ℕ)) (used : List Ip) (c : ℕ) (rest : ℕ → Option (List Ip))
      → Bounded ends
      → ((k : ℕ) → Fresh used k (rest k))
      → Fresh used c (from_range n fuel ends used c rest)
  from_range-Fresh fuel none used c rest b h = h c
  from_range-Fresh fuel (some (s, e)) used c rest b h = elim (Bool-cases (ltb e s)) [
    | inl back ↦ rw back (h c)
    | inr forth ↦ rw forth (
        scanned (scan_range fuel (bytes16 s) (next_value (bytes16 e)) used c)
          (scan_range-ScanFresh fuel (bytes16 s) (next_value (bytes16 e)) used c (s, refl, b.0)))
  ]
    where
      scanned :
          (r : Found)
          → ScanFresh used c r
          → Fresh used c (elim r [ none ↦ none | some (ips, left) ↦ joined ips (rest left) ])
      scanned none f = tt
      scanned (some (ips, left)) f = joined-Fresh used ips c left (rest left) f.0 f.1 (h left)

  -- For any fuel: if `FindAvailableIPs` returns, then its addresses have 16 bytes, are not among
  -- the used ones, and are at most as many as wanted.
  pub find_available_ips-Fresh :
      (laws : NetTextLaws n) (fuel : ℕ) (rs : List Text) (used : List Ip) (count : ℕ)
      → Fresh used count (find_available_ips n fuel rs used count)
  unfolding find_available_ips
  find_available_ips-Fresh laws fuel [] used count = (tt, omega arith)
  find_available_ips-Fresh laws fuel (r ∷ rs) used count = elim (Bool-cases (count == 0)) [
    | inl done ↦ rw done (tt, omega arith)
    | inr more ↦ rw more (
        from_range-Fresh fuel (range_ends n r) used count (find_available_ips n fuel rs used)
          (unfold range_ends in ends-Bounded n laws (split_on b'-' r))
          (λ k. find_available_ips-Fresh laws fuel rs used k))
  ]
