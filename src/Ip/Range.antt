-- ===== src/Ip/Range.antt =====
-- pkg/ip/iprange.go: IP ranges as lists of addresses, and back.
pub mod Termination
pub mod Band
pub mod RoundTrip
pub mod Merge
use Prim.Native.Nat.{Ordering}
use spiderpool.Prelude.{
  ℕ, zero, suc, ◌+◌, Bool, true, false, not, ◌&&◌, ◌||◌, List, [], ◌∷◌, ◌++◌, Option, none, some,
  Text, text_eq, ltb, ◌==◌, split_on, if◌then◌else◌, is_some,
}
use spiderpool.Net.Address.{Ip, nil, bytes4, bytes16, to4, to16, equal, contains}
use spiderpool.Net.Textual.{NetText}
use spiderpool.Ip.Arithmetic.{next_ip, cmp}
use spiderpool.Ip.Result.{invalid_ip, Result, ok, err, diverge, ◌>>=◌, ◌>>◌, refuse_if}
use spiderpool.Ip.Format.{parsed, is_gt, is_ip_version, is_ip_range, is_ip, parse_network}

-- The loop of `ParseIPRange`, `for Cmp(cur, end) <= 0`, on fuel.
unfoldable pub addresses_up_to : ℕ → Ip → Ip → Result (List Ip)
unfolding next_ip cmp
addresses_up_to zero cur end = diverge
addresses_up_to (suc fuel) cur end =
    let rest = addresses_up_to fuel (next_ip cur) end in
    if is_gt (cmp cur end) then ok [] else (rest >>= λ ips. ok (cur ∷ ips))

abbrev pub is_lt : Ordering → Bool
is_lt Ordering.lt = true
is_lt _ = false

-- What the keys of the map `set` are up to: the text of an address is that of its 16 bytes.
abbrev pub canonical : Ip → Ip
canonical ip = elim (to16 ip) [ none ↦ nil | some v ↦ bytes16 v ]

-- `bytes.Compare` of the 16 bytes, no bytes first
abbrev pub rank : Ip → ℕ
rank ip = elim (to16 ip) [ none ↦ 0 | some v ↦ suc v ]

abbrev pub set_insert : Ip → List Ip → List Ip
set_insert ip [] = ip ∷ []
set_insert ip (x ∷ xs) = if rank ip == rank x then x ∷ xs else x ∷ set_insert ip xs

-- The map `set`: each address once.
unfoldable pub address_set : List Ip → List Ip
address_set [] = []
address_set (ip ∷ ips) = set_insert (canonical ip) (address_set ips)

abbrev pub sorted_insert : Ip → List Ip → List Ip
sorted_insert ip [] = ip ∷ []
sorted_insert ip (x ∷ xs) = if ltb (rank ip) (rank x) then ip ∷ x ∷ xs else x ∷ sorted_insert ip xs

-- `sort.Slice` by `bytes.Compare`
unfoldable pub sort_addresses : List Ip → List Ip
sort_addresses [] = []
sort_addresses (ip ∷ ips) = sorted_insert ip (sort_addresses ips)

-- The check of `ConvertIPsToIPRanges` on each address.
abbrev pub is_wrong_version : ℕ → Ip → Bool
is_wrong_version version ip =
    version == 4 && not (is_some (to4 ip)) || version == 6 && is_some (to4 ip)

unfoldable pub check_versions : ℕ → List Ip → Result (Unit {0})
check_versions version [] = ok tt
check_versions version (ip ∷ ips) = do
  refuse_if (is_wrong_version version ip) invalid_ip
  check_versions version ips

module _ (n : NetText) where
  open n use {parse_ip, print_ip}

  abbrev pub range_of_parts : ℕ → List Text → Result (List Ip)
  range_of_parts fuel [] = ok []
  range_of_parts fuel (a ∷ []) = ok (parsed n a ∷ [])
  range_of_parts fuel (a ∷ b ∷ rest) = addresses_up_to fuel (parsed n a) (parsed n b)

  unfoldable pub parse_ip_range : ℕ → ℕ → Text → Result (List Ip)
  unfolding is_ip_range addresses_up_to
  parse_ip_range fuel version r = do is_ip_range n version r; range_of_parts fuel (split_on b'-' r)

  unfoldable pub parse_ip_ranges : ℕ → ℕ → List Text → Result (List Ip)
  unfolding parse_ip_range
  parse_ip_ranges fuel version [] = ok []
  parse_ip_ranges fuel version (r ∷ rs) = do
    ips ← parse_ip_range fuel version r
    sum ← parse_ip_ranges fuel version rs
    ok (ips ++ sum)

  -- `IP.String`
  abbrev pub printed : Ip → Text
  printed ip = elim (to16 ip) [ none ↦ b'<' ∷ b'n' ∷ b'i' ∷ b'l' ∷ b'>' ∷ [] | some v ↦ print_ip v ]

  -- The text of the run from `start` to `end`; `more` says that it has more than one address.
  abbrev pub print_run : Ip → Ip → Bool → Text
  print_run start end more = if more then printed start ++ b'-' ∷ printed end else printed start

  -- The loop of `ConvertIPsToIPRanges` with the run that is open and the addresses after it.
  unfoldable pub merge_runs : Ip → Ip → Bool → List Ip → List Text
  unfolding next_ip
  merge_runs start end more [] = print_run start end more ∷ []
  merge_runs start end more (x ∷ xs) = elim (equal x (next_ip end)) [
    | true ↦ merge_runs start x true xs
    | false ↦ print_run start end more ∷ merge_runs x x false xs
  ]

  abbrev pub merge_sorted : List Ip → List Text
  merge_sorted [] = []
  merge_sorted (x ∷ xs) = merge_runs x x false xs

  unfoldable pub convert_ips_to_ip_ranges : ℕ → List Ip → Result (List Text)
  unfolding is_ip_version check_versions address_set sort_addresses merge_runs
  convert_ips_to_ip_ranges version ips = do
    is_ip_version version
    check_versions version ips
    ok (merge_sorted (sort_addresses (address_set ips)))

  unfoldable pub merge_ip_ranges : ℕ → ℕ → List Text → Result (List Text)
  unfolding parse_ip_ranges convert_ips_to_ip_ranges
  merge_ip_ranges fuel version rs = do
    ips ← parse_ip_ranges fuel version rs
    convert_ips_to_ip_ranges version ips

  abbrev last_of : Ip → List Ip → Ip
  last_of x [] = x
  last_of x (y ∷ ys) = last_of y ys

  -- `ips` is never empty here: an accepted range has its first address.
  abbrev ends_in : (Ip → Bool) → List Ip → Bool
  ends_in inside [] = false
  ends_in inside (x ∷ []) = inside x
  ends_in inside (x ∷ y ∷ ys) = inside x && inside (last_of y ys)

  unfoldable pub contains_ip_range : ℕ → ℕ → Text → Text → Result Bool
  unfolding parse_network parse_ip_range contains
  contains_ip_range fuel version subnet r = do
    m ← parse_network n version subnet
    ips ← parse_ip_range fuel version r
    ok (ends_in (contains m) ips)

  abbrev parts_contain : List Text → Text → Text → Bool
  parts_contain (a ∷ []) r ip = text_eq r ip
  parts_contain (a ∷ b ∷ []) r ip =
      if is_gt (cmp (parsed n a) (parsed n ip)) || is_lt (cmp (parsed n b) (parsed n ip))
      then false
      else true
  parts_contain _ r ip = true

  unfoldable pub ip_range_contains_ip : ℕ → Text → Text → Result Bool
  unfolding is_ip_range is_ip cmp
  ip_range_contains_ip version r ip = do
    is_ip_range n version r
    is_ip n version ip
    ok (parts_contain (split_on b'-' r) r ip)
