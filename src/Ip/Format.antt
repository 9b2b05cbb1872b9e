-- ===== src/Ip/Format.antt =====
-- pkg/ip/ip.go, iprange.go, cidr.go and route.go: the checks of versions and formats.
use Prim.Native.Nat.{Ordering}
use spiderpool.Prelude.{
  ℕ, Bool, true, false, not, ◌&&◌, ◌||◌, List, [], ◌∷◌, Option, none, some, Text, leb, ◌==◌,
  text_eq, split_on, contains_code, if◌then◌else◌, is_some,
}
use spiderpool.Net.Address.{Ip, nil, bytes4, bytes16, to4, IpNet, contains}
use spiderpool.Net.Textual.{NetText}
use spiderpool.Ip.Arithmetic.{cmp}
use spiderpool.Ip.Result.{
  invalid_ip_version, invalid_ip_range_format, invalid_ip_format, invalid_cidr_format,
  invalid_route_format, parse_failed, Result, ok, err, ◌>>=◌, ◌>>◌, refuse_if,
}

-- `types.IPVersion`
unfoldable pub is_ip_version : ℕ → Result (Unit {0})
is_ip_version version = refuse_if (not (version == 4) && not (version == 6)) invalid_ip_version

abbrev pub is_gt : Ordering → Bool
is_gt Ordering.gt = true
is_gt _ = false

module _ (n : NetText) where
  open n use {parse_ip, parse_cidr, print_cidr}

  -- `net.ParseIP`, as a slice
  abbrev pub parsed : Text → Ip
  parsed s = elim (parse_ip s) [ none ↦ nil | some v ↦ bytes16 v ]

  -- `IsIPv4` and `IsIPv6` of the vendored govalidator
  abbrev pub is_ipv4 : Text → Bool
  is_ipv4 s = is_some (parse_ip s) && contains_code b'.' s

  abbrev pub is_ipv6 : Text → Bool
  is_ipv6 s = is_some (parse_ip s) && contains_code b':' s

  unfoldable pub is_ip : ℕ → Text → Result (Unit {0})
  unfolding is_ip_version
  is_ip version s = do
    is_ip_version version
    refuse_if (version == 4 && not (is_ipv4 s) || version == 6 && not (is_ipv6 s)) invalid_ip_format

  abbrev is_range_of : (Text → Bool) → List Text → Bool
  is_range_of is_address [] = true
  is_range_of is_address (a ∷ []) = is_address a
  is_range_of is_address (a ∷ b ∷ []) =
      if not (is_address a) || not (is_address b)
      then false
      else if is_gt (cmp (parsed a) (parsed b))
      then false
      else true
  is_range_of is_address (a ∷ b ∷ c ∷ rest) = false

  unfoldable pub is_ipv4_ip_range : Text → Bool
  unfolding cmp
  is_ipv4_ip_range r = is_range_of is_ipv4 (split_on b'-' r)

  unfoldable pub is_ipv6_ip_range : Text → Bool
  unfolding cmp
  is_ipv6_ip_range r = is_range_of is_ipv6 (split_on b'-' r)

  unfoldable pub is_ip_range : ℕ → Text → Result (Unit {0})
  unfolding is_ip_version is_ipv4_ip_range is_ipv6_ip_range
  is_ip_range version r = do
    is_ip_version version
    refuse_if (version == 4 && not (is_ipv4_ip_range r) || version == 6 && not (is_ipv6_ip_range r))
        invalid_ip_range_format

  -- The address before the slash decides the family.
  abbrev cidr_family : Text → Option Bool
  cidr_family s = elim (parse_cidr s) [
    | none ↦ none
    | some (v, m) ↦ some (is_some (to4 (bytes16 v)))
  ]

  unfoldable pub is_ipv4_cidr : Text → Bool
  is_ipv4_cidr s = elim (cidr_family s) [ none ↦ false | some v4 ↦ v4 ]

  unfoldable pub is_ipv6_cidr : Text → Bool
  is_ipv6_cidr s = elim (cidr_family s) [ none ↦ false | some v4 ↦ not v4 ]

  unfoldable pub is_cidr : ℕ → Text → Result (Unit {0})
  unfolding is_ip_version is_ipv4_cidr is_ipv6_cidr
  is_cidr version s = do
    is_ip_version version
    refuse_if (version == 4 && not (is_ipv4_cidr s) || version == 6 && not (is_ipv6_cidr s))
        invalid_cidr_format

  unfoldable pub is_format_cidr : Text → Bool
  unfolding text_eq
  is_format_cidr s = elim (parse_cidr s) [ none ↦ false | some (v, m) ↦ text_eq (print_cidr m) s ]

  unfoldable pub parse_network : ℕ → Text → Result IpNet
  unfolding is_cidr
  parse_network version s = do
    is_cidr version s
    elim (parse_cidr s) [ none ↦ err parse_failed | some (v, m) ↦ ok m ]

  unfoldable pub contains_ip : ℕ → Text → Text → Result Bool
  unfolding parse_network is_ip contains
  contains_ip version subnet s = do
    m ← parse_network version subnet
    is_ip version s
    ok (contains m (parsed s))

  -- `containsCIDR`: the mask of the first block is no longer, and the block contains the address of
  -- the second one. Its callers have checked both texts, so neither parse fails.
  abbrev contains_cidr_of : Option (ℕ × IpNet) → Option (ℕ × IpNet) → Bool
  contains_cidr_of (some (u, m)) (some (v, k)) =
      leb m.ones k.ones && contains m (if k.is_v4 then bytes4 k.network else bytes16 k.network)
  contains_cidr_of _ _ = false

  unfoldable pub contains_cidr : ℕ → Text → Text → Result Bool
  unfolding is_cidr is_ip_version contains
  contains_cidr version subnet1 subnet2 = do
    is_ip_version version
    is_cidr version subnet1
    is_cidr version subnet2
    ok (contains_cidr_of (parse_cidr subnet1) (parse_cidr subnet2))

  unfoldable pub is_cidr_overlap : ℕ → Text → Text → Result Bool
  unfolding is_cidr is_ip_version contains
  is_cidr_overlap version subnet1 subnet2 = do
    is_ip_version version
    is_cidr version subnet1
    is_cidr version subnet2
    ok (
        contains_cidr_of (parse_cidr subnet1) (parse_cidr subnet2)
        || contains_cidr_of (parse_cidr subnet2) (parse_cidr subnet1))

  unfoldable pub is_ipv4_route : Text → Text → Bool
  unfolding is_ipv4_cidr
  is_ipv4_route dst gw = is_ipv4_cidr dst && is_ipv4 gw

  unfoldable pub is_ipv6_route : Text → Text → Bool
  unfolding is_ipv6_cidr
  is_ipv6_route dst gw = is_ipv6_cidr dst && is_ipv6 gw

  unfoldable pub is_route : ℕ → Text → Text → Result (Unit {0})
  unfolding is_ip_version is_ipv4_route is_ipv6_route
  is_route version dst gw = do
    is_ip_version version
    refuse_if
        (version == 4 && not (is_ipv4_route dst gw) || version == 6 && not (is_ipv6_route dst gw))
        invalid_route_format

  unfoldable pub is_route_without_ip_version : Text → Text → Result (Unit {0})
  unfolding is_ipv4_route is_ipv6_route
  is_route_without_ip_version dst gw =
      refuse_if (not (is_ipv4_route dst gw) && not (is_ipv6_route dst gw)) invalid_route_format
