-- ===== src/Ip/Available.antt =====
-- pkg/ip/ip.go, `FindAvailableIPs`: the first free addresses of a pool's ranges.
pub mod Spec
pub mod Fresh
use spiderpool.Prelude.{
  ℕ, zero, suc, ◌+◌, ◌-◌, Bool, true, false, not, ◌&&◌, ◌||◌, List, [], ◌∷◌, ◌++◌, Option, none,
  some, Text, ltb, ◌==◌, split_on, if◌then◌else◌,
}
use spiderpool.Net.Address.{Ip, nil, bytes16, equal}
use spiderpool.Net.Textual.{NetText}
use spiderpool.Ip.Bytes.{next_value}
use spiderpool.Ip.Sets.{is_member}

-- The addresses found, and how many are still wanted; none if the fuel ran out.
abbrev pub Found : Type 0
Found = Option (List Ip × ℕ)

abbrev pub push : Ip → Found → Found
push ip none = none
push ip (some (ips, count)) = some (ip ∷ ips, count)

abbrev pub joined : List Ip → Option (List Ip) → Option (List Ip)
joined ips none = none
joined ips (some more) = some (ips ++ more)

-- `for ip := startIP; !ip.Equal(stop) && count > 0; ip = nextIP(ip)`
unfoldable pub scan_range : ℕ → Ip → Ip → List Ip → ℕ → Found
unfolding next_value
scan_range zero ip stop used count = none
scan_range (suc fuel) ip stop used count =
    let hit = push ip (scan_range fuel (next_value ip) stop used (count - 1)) in
    let miss = scan_range fuel (next_value ip) stop used count in
    if equal ip stop || count == 0
    then some ([], count)
    else if is_member ip used
    then miss
    else hit

module _ (n : NetText) where
  open n use {parse_ip}

  abbrev pub pair_of : Option ℕ → Option ℕ → Option (ℕ × ℕ)
  pair_of (some s) (some e) = some (s, e)
  pair_of _ _ = none

  -- The ends of a range, none where `ParseIP` gives nil for one of them.
  abbrev pub ends_of_parts : List Text → Option (ℕ × ℕ)
  ends_of_parts [] = none
  ends_of_parts (a ∷ b ∷ []) = pair_of (parse_ip a) (parse_ip b)
  ends_of_parts (a ∷ rest) = pair_of (parse_ip a) (parse_ip a)

  unfoldable pub range_ends : Text → Option (ℕ × ℕ)
  range_ends r = ends_of_parts (split_on b'-' r)

  -- One round of the loop over the ranges; `rest` is the loop from there with what is still wanted.
  abbrev pub from_range :
      ℕ → Option (ℕ × ℕ) → List Ip → ℕ → (ℕ → Option (List Ip)) → Option (List Ip)
  from_range fuel none used count rest = rest count
  from_range fuel (some (s, e)) used count rest =
      if ltb e s
      then rest count
      else elim (scan_range fuel (bytes16 s) (next_value (bytes16 e)) used count) [
        | none ↦ none
        | some (ips, left) ↦ joined ips (rest left)
      ]

  unfoldable pub find_available_ips : ℕ → List Text → List Ip → ℕ → Option (List Ip)
  unfolding scan_range range_ends
  find_available_ips fuel [] used count = some []
  find_available_ips fuel (r ∷ rs) used count =
      let found = from_range fuel (range_ends r) used count (find_available_ips fuel rs used) in
      if count == 0 then some [] else found
