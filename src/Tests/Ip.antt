-- ===== src/Tests/Ip.antt =====
-- The theorems of the address functions, on a few addresses.
use spiderpool.Prelude.{
  ℕ, ◌+◌, ◌<◌, ◌≤◌, ◌≡◌, refl, inr, List, [], ◌∷◌, ◌++◌, map, some, Text, take, All, arith,
  split_on, contains_code,
}
use spiderpool.Net.Address.{Ip, v4_prefix}
use spiderpool.Tests.Net.{show, sample, sample_laws}
use spiderpool.Ip.Result.{ok, diverge}
use spiderpool.Ip.Arithmetic.{ip_to_int, int_to_ip}
use spiderpool.Ip.Range.{
  addresses_up_to, address_set, sort_addresses, parse_ip_ranges, merge_ip_ranges,
}
use spiderpool.Ip.Range.Termination.{
  upto, AllRepresentable, addresses_up_to_lem, addresses_up_to-diverge,
}
use spiderpool.Ip.Range.Band.{v4, version_of, Good, addr, InBand, InBand-AllRepresentable}
use spiderpool.Ip.Range.Merge.{parse-merge_ip_ranges}
use spiderpool.Ip.Available.{range_ends, find_available_ips}
use spiderpool.Ip.Available.Spec.{Fits, free_of_ranges, find_available_ips_lem}

abbrev ip : ℕ → Ip
ip i = addr v4 i

abbrev ip_text : ℕ → Text
ip_text i = show (v4_prefix + i)

abbrev low : ℕ
low = 0xa00_0001

-- From the first to the third address
abbrev range_text : Text
range_text = ip_text low ++ b'-' ∷ ip_text (low + 2)

fits : All (λ r. Fits 5 (range_ends sample r)) (range_text ∷ [])
unfolding range_ends split_on
fits = ((omega arith, inr (omega arith)), tt)

find_available_ips_lem_example :
    find_available_ips sample 5 (range_text ∷ []) (ip low ∷ []) 2
    ≡ some (take 2 (free_of_ranges sample (ip low ∷ []) (range_text ∷ [])))
find_available_ips_lem_example =
    find_available_ips_lem sample sample_laws 5 (range_text ∷ []) (ip low ∷ []) 2 fits

low-InBand : (k : ℕ) → k < 8 → InBand v4 (low + k)
low-InBand k h = (omega arith, omega arith)

low-AllRepresentable : AllRepresentable (ip_to_int (ip low)) (ip_to_int (ip (low + 2)) + 1)
unfolding ip_to_int
low-AllRepresentable =
    InBand-AllRepresentable v4 low (low + 2) (low-InBand 0 (omega arith))
      (low-InBand 2 (omega arith))

apart : ip_to_int (ip low) + 2 ≡ ip_to_int (ip (low + 2))
unfolding ip_to_int
apart = refl

addresses_up_to_lem_example :
    addresses_up_to 5 (ip low) (ip (low + 2))
    ≡ ok (ip low ∷ map int_to_ip (upto 2 (ip_to_int (ip low) + 1)))
addresses_up_to_lem_example =
    addresses_up_to_lem 2 5 (ip low) (ip (low + 2)) apart low-AllRepresentable (omega arith)

-- 255.255.255.254 and 255.255.255.255
abbrev last_but_one : ℕ
last_but_one = 0xffff_fffe

below : ip_to_int (ip last_but_one) < 0x1_0000_0000
unfolding ip_to_int
below = omega arith

above : 0x1_0000_0000 ≤ ip_to_int (ip (last_but_one + 1)) + 1
unfolding ip_to_int
above = omega arith

addresses_up_to-diverge_example :
    addresses_up_to 1000 (ip last_but_one) (ip (last_but_one + 1)) ≡ diverge
addresses_up_to-diverge_example =
    addresses_up_to-diverge 1000 (ip last_but_one) (ip (last_but_one + 1)) 0x1_0000_0000 below above
      refl

abbrev three : List Ip
three = ip low ∷ ip (low + 1) ∷ ip (low + 2) ∷ []

three-parsed : parse_ip_ranges sample 9 (version_of v4) (range_text ∷ []) ≡ ok three
unfolding parse_ip_ranges split_on contains_code
three-parsed = refl

three-Good : All (Good v4) three
three-Good = (
  (low, refl, low-InBand 0 (omega arith)),
  ((low + 1, refl, low-InBand 1 (omega arith)), ((low + 2, refl, low-InBand 2 (omega arith)), tt)),
)

parse-merge_ip_ranges_example :
    (merged : List Text) × (merge_ip_ranges sample 9 (version_of v4) (range_text ∷ []) ≡ ok merged)
    × (parse_ip_ranges sample 9 (version_of v4) merged ≡ ok (sort_addresses (address_set three)))
parse-merge_ip_ranges_example =
    parse-merge_ip_ranges sample sample_laws v4 9 (range_text ∷ []) three three-parsed three-Good
      (omega arith)
