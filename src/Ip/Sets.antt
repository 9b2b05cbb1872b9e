-- ===== src/Ip/Sets.antt =====
-- pkg/ip/ip.go and utils.go: difference, union and intersection of lists of addresses, as sets.
pub mod Algebra
use spiderpool.Prelude.{
  ℕ, suc, ◌+◌, Bool, true, false, not, ◌&&◌, List, [], ◌∷◌, ◌++◌, Text, leb, ltb, ◌==◌, any, filter,
  length, if◌then◌else◌, is_some, some, none,
}
use spiderpool.Net.Address.{Ip, to16}
use spiderpool.Net.Textual.{NetText}
use spiderpool.Ip.Result.{Result, ok, ◌>>=◌, ◌>>◌}
use spiderpool.Ip.Format.{is_ip_version, is_ip_range}
use spiderpool.Ip.Range.{rank, address_set, sort_addresses, parse_ip_range, parse_ip_ranges}

-- `ip != nil`
abbrev pub is_address : Ip → Bool
is_address ip = is_some (to16 ip)

-- The keys of the Go maps are the 16 bytes; nil is left out.
abbrev pub is_member : Ip → List Ip → Bool
is_member ip ips = any (λ x. is_address x && rank x == rank ip) ips

-- The loop of `getIPDiffSet`; `got` is `len(result)`, and `limit` is `expectCount`, 0 for no limit.
unfoldable pub diff_loop : List Ip → ℕ → ℕ → List Ip → List Ip
diff_loop excluded limit got [] = []
diff_loop excluded limit got (ip ∷ ips) =
    let skip = diff_loop excluded limit got ips in
    let more = diff_loop excluded limit (got + 1) ips in
    if is_address ip && not (is_member ip excluded)
    then (if ltb 0 limit && leb limit (got + 1) then ip ∷ [] else ip ∷ more)
    else skip

abbrev pub sort_if : Bool → List Ip → List Ip
sort_if sorted ips = if sorted && ltb 1 (length ips) then sort_addresses ips else ips

unfoldable pub get_ip_diff_set : List Ip → List Ip → Bool → ℕ → List Ip
unfolding diff_loop sort_addresses
get_ip_diff_set source excluded sorted limit = sort_if sorted (diff_loop excluded limit 0 source)

unfoldable pub ips_diff_set : List Ip → List Ip → Bool → List Ip
unfolding get_ip_diff_set
ips_diff_set source excluded sorted = get_ip_diff_set source excluded sorted 0

unfoldable pub is_diff_ip_set : List Ip → List Ip → Bool
unfolding get_ip_diff_set
is_diff_ip_set source excluded = ltb 0 (length (get_ip_diff_set source excluded false 1))

unfoldable pub ips_union_set : List Ip → List Ip → Bool → List Ip
unfolding address_set sort_addresses
ips_union_set ips1 ips2 sorted =
    let ips = address_set (filter is_address (ips1 ++ ips2)) in
    if sorted then sort_addresses ips else ips

unfoldable pub ips_intersection_set : List Ip → List Ip → Bool → List Ip
unfolding address_set sort_addresses
ips_intersection_set ips1 ips2 sorted =
    let ips = address_set (filter (λ ip. is_address ip && is_member ip ips1) ips2) in
    if sorted then sort_addresses ips else ips

module _ (n : NetText) where
  unfoldable pub assemble_total_ips : ℕ → ℕ → List Text → List Text → Result (List Ip)
  unfolding parse_ip_ranges ips_diff_set
  assemble_total_ips fuel version ranges excluded = do
    ips ← parse_ip_ranges n fuel version ranges
    exclude ← parse_ip_ranges n fuel version excluded
    ok (ips_diff_set ips exclude false)

  unfoldable pub is_ip_range_overlap : ℕ → ℕ → Text → Text → Result Bool
  unfolding is_ip_version is_ip_range parse_ip_range ips_diff_set
  is_ip_range_overlap fuel version range1 range2 = do
    is_ip_version version
    is_ip_range n version range1
    is_ip_range n version range2
    ips1 ← parse_ip_range n fuel version range1
    ips2 ← parse_ip_range n fuel version range2
    ok (ltb (length (ips_diff_set ips1 ips2 false)) (length ips1))
