-- ===== src/Ip/Available/Spec.antt =====
-- pkg/ip/ip.go, `FindAvailableIPs`, against its specification: the free addresses of the ranges in
-- order, cut off at the number wanted.
use spiderpool.Prelude.{
  ℕ, zero, suc, ◌+◌, ◌-◌, ◌%◌, ◌<◌, ◌≡◌, ◌⊎◌, refl, ap, true, false, not, ◌||◌, List, [], ◌∷◌, ◌++◌,
  map, arith, Text, Option, none, some, ltb, ◌==◌, if◌then◌else◌, Bool-cases, inl, inr,
  Option-cases, split_on, All, length, filter, take,
}
use spiderpool.Net.Address.{Ip, bytes16, equal, v6_modulus}
use spiderpool.Net.Textual.{NetText, NetTextLaws}
use spiderpool.Ip.Bytes.{next_value}
use spiderpool.Ip.Sets.{is_member}
use spiderpool.Ip.Range.Termination.{upto}
use spiderpool.Ip.Available.{
  push, scan_range, range_ends, from_range, pair_of, ends_of_parts, find_available_ips,
}

-- The free ones of the `k` addresses from `v` on.
abbrev pub free : List Ip → ℕ → ℕ → List Ip
free used k v = filter (λ ip. not (is_member ip used)) (map bytes16 (upto k v))

take-nil : (c : ℕ) → take {A = Ip} c [] ≡ []
take-nil zero = refl
take-nil (suc c) = refl

take-append :
    (c : ℕ) (xs ys : List Ip) → take c xs ++ take (c - length (take c xs)) ys ≡ take c (xs ++ ys)
take-append c [] ys = let e : c - 0 ≡ c = omega arith in rw (take-nil c, e)
take-append zero (x ∷ xs) ys = refl
take-append (suc c) (x ∷ xs) ys =
    let e : suc c - suc (length (take c xs)) ≡ c - length (take c xs) = omega arith in
    ap (◌∷◌ x) (rw e (take-append c xs ys))

scan_step :
    (fuel : ℕ) (ip stop : Ip) (used : List Ip) (c : ℕ)
    → scan_range (suc fuel) ip stop used c ≡ (
        if equal ip stop || c == 0
        then some ([], c)
        else if is_member ip used
        then scan_range fuel (next_value ip) stop used c
        else push ip (scan_range fuel (next_value ip) stop used (c - 1)))
unfolding scan_range
scan_step fuel ip stop used c = refl

next_lem : (w : ℕ) → next_value (bytes16 w) ≡ bytes16 ((w + 1) % v6_modulus)
unfolding next_value
next_lem w = refl

free_used :
    (used : List Ip) (k v : ℕ)
    → is_member (bytes16 v) used ≡ true
    → free used (suc k) v ≡ free used k (v + 1)
free_used used k v h = rw h

free_unused :
    (used : List Ip) (k v : ℕ)
    → is_member (bytes16 v) used ≡ false
    → free used (suc k) v ≡ bytes16 v ∷ free used k (v + 1)
free_unused used k v h = rw h

-- The scan from `v` with `k` addresses to go.
scan_range_lem :
    (k fuel v w e c : ℕ) (used : List Ip)
    → w ≡ v % v6_modulus
    → v + k ≡ e + 1
    → e < v6_modulus
    → (e + 1 < v6_modulus) ⊎ (0 < v)
    → k < fuel
    → scan_range fuel (bytes16 w) (bytes16 ((e + 1) % v6_modulus)) used c
      ≡ some (take c (free used k v), c - length (take c (free used k v)))
scan_range_lem k zero v w e c used hw hk he hp hf = absurd (omega arith)
scan_range_lem zero (suc fuel) v w e c used hw hk he hp hf =
    let here : (w == (e + 1) % v6_modulus) ≡ true = ground arith in
    let all_left : c - 0 ≡ c = omega arith in
    rw (scan_step fuel (bytes16 w) _ used c, here, take-nil c, all_left)
scan_range_lem (suc k) (suc fuel) v w e zero used hw hk he hp hf =
    rw (scan_step fuel (bytes16 w) _ used 0) (ground arith)
scan_range_lem (suc k) (suc fuel) v w e (suc c) used hw hk he hp hf =
    let at_v : w ≡ v = omega arith in
    let away : (w == (e + 1) % v6_modulus) ≡ false = ground arith in
    let wanted : (suc c == 0) ≡ false = ground arith in
    let after : (w + 1) % v6_modulus ≡ (v + 1) % v6_modulus = omega arith in
    elim (Bool-cases (is_member (bytes16 v) used)) [
      | inl taken ↦
          rw (scan_step fuel (bytes16 w) _ used (suc c), away, wanted, next_lem w, at_v, taken)
            (scan_range_lem k fuel (v + 1) _ e (suc c) used refl (omega arith) he (omega arith)
              (omega arith))
      | inr unused ↦
          let one : suc c - 1 ≡ c = omega arith in
          let left : suc c - suc (length (take c (free used k (v + 1))))
              ≡ c - length (take c (free used k (v + 1))) =
            omega arith in
          rw (
            scan_step fuel (bytes16 w) _ used (suc c),
            away,
            wanted,
            next_lem w,
            at_v,
            unused,
            one,
            scan_range_lem k fuel (v + 1) _ e c used refl (omega arith) he (omega arith)
                (omega arith),
            left,
          )
    ]

-- The free addresses of one range; a range that does not parse or runs backwards has none.
abbrev pub free_in : List Ip → Option (ℕ × ℕ) → List Ip
free_in used none = []
free_in used (some (s, e)) = if ltb e s then [] else free used (e + 1 - s) s

-- Enough fuel for a range; and the range is not the whole of the 16-byte addresses, where the first
-- address is also the one at which the loop stops.
abbrev pub Fits : ℕ → Option (ℕ × ℕ) → Type 0
Fits fuel none = Unit
Fits fuel (some (s, e)) = (e + 1 < s + fuel) × ((e + 1 < v6_modulus) ⊎ (0 < s))

abbrev pub Bounded : Option (ℕ × ℕ) → Type 0
Bounded none = Unit
Bounded (some (s, e)) = (s < v6_modulus) × (e < v6_modulus)

module _ (n : NetText) where
  from_range_lem :
      (fuel : ℕ) (ends : Option (ℕ × ℕ)) (used ips : List Ip) (c : ℕ) (rest : ℕ → Option (List Ip))
      → Fits fuel ends
      → Bounded ends
      → ((k : ℕ) → rest k ≡ some (take k ips))
      → from_range n fuel ends used c rest ≡ some (take c (free_in used ends ++ ips))
  from_range_lem fuel none used ips c rest f b h = h c
  from_range_lem fuel (some (s, e)) used ips c rest f b h = elim (Bool-cases (ltb e s)) [
    | inl back ↦ rw (back, h c)
    | inr forth ↦
        let here : s ≡ s % v6_modulus = omega arith in
        let size : s + (e + 1 - s) ≡ e + 1 = ground arith in
        rw (
          forth,
          next_lem e,
          scan_range_lem (e + 1 - s) fuel s s e c used here size b.1 f.1 (omega arith),
          h (c - length (take c (free used (e + 1 - s) s))),
          take-append c (free used (e + 1 - s) s) ips,
        )
  ]

  abbrev pub free_of_ranges : List Ip → List Text → List Ip
  free_of_ranges used [] = []
  free_of_ranges used (r ∷ rs) = free_in used (range_ends n r) ++ free_of_ranges used rs

  module _ (laws : NetTextLaws n) where
    pair-Bounded : (s t : Text) → Bounded (pair_of n (n.parse_ip s) (n.parse_ip t))
    pair-Bounded s t = elim (Option-cases (n.parse_ip s)) [
      | inl e ↦ rw e tt
      | inr (v, e) ↦ elim (Option-cases (n.parse_ip t)) [
        | inl e' ↦ rw (e, e') tt
        | inr (w, e') ↦ rw (e, e') (laws.parse_bound s v e, laws.parse_bound t w e')
      ]
    ]

    pub ends-Bounded : (parts : List Text) → Bounded (ends_of_parts n parts)
    ends-Bounded [] = tt
    ends-Bounded (a ∷ []) = pair-Bounded a a
    ends-Bounded (a ∷ b ∷ []) = pair-Bounded a b
    ends-Bounded (a ∷ b ∷ c ∷ rest) = pair-Bounded a a

    -- With fuel for more than the addresses of each range, and no range from the first 16-byte
    -- address to the last, `FindAvailableIPs` returns the first `count` of the free addresses of
    -- the ranges, in the order of the ranges.
    pub find_available_ips_lem :
        (fuel : ℕ) (rs : List Text) (used : List Ip) (count : ℕ)
        → All (λ r. Fits fuel (range_ends n r)) rs
        → find_available_ips n fuel rs used count ≡ some (take count (free_of_ranges used rs))
    unfolding find_available_ips
    find_available_ips_lem fuel [] used count h = rw (take-nil count)
    find_available_ips_lem fuel (r ∷ rs) used zero h = refl
    find_available_ips_lem fuel (r ∷ rs) used (suc c) h =
        let wanted : (suc c == 0) ≡ false = ground arith in
        rw wanted (
          from_range_lem fuel (range_ends n r) used (free_of_ranges used rs) (suc c)
            (find_available_ips n fuel rs used) h.0
            (unfold range_ends in ends-Bounded (split_on b'-' r))
            (λ k. find_available_ips_lem fuel rs used k h.1))
