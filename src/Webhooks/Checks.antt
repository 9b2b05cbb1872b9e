-- ===== src/Webhooks/Checks.antt =====
-- pkg/ippoolmanager/ippool_validate.go: the checks of versions, gateways and routes, which
-- pkg/subnetmanager/subnet_validate.go and pkg/reservedipmanager/reservedip_validate.go repeat.
use spiderpool.Prelude.{
  ℕ, Bool, true, false, not, ◌&&◌, ◌||◌, List, [], ◌∷◌, Option, none, some, Text, codes, text_eq,
  any, ◌==◌, if◌then◌else◌,
}
use spiderpool.Net.Textual.{NetText}
use spiderpool.Ip.Result as Ip
use spiderpool.Ip.Format.{contains_ip, is_cidr}
use spiderpool.Ip.Range.{contains_ip_range, ip_range_contains_ip}
use spiderpool.Endpoint.Records.{SpecRoute}
use spiderpool.Webhooks.Objects.{
  Enabled, Reason, bad_version, disabled_version, version_changed, subnet_changed, bad_gateway,
  bad_ranges, gateway_conflict, default_route, duplicate_route, bad_route, out_of_fuel, Admission,
  admit, deny, ◌and_then◌, deny_if,
}

-- `validateIPPoolIPVersion`, `validateSubnetIPVersion`, `validateReservedIPIPVersion`
unfoldable pub validate_ip_version : Enabled → Option ℕ → Admission
validate_ip_version e none = deny bad_version
validate_ip_version e (some v) =
    deny_if (not (v == 4) && not (v == 6)) bad_version
    and_then deny_if (v == 4 && not e.ipv4) disabled_version
    and_then deny_if (v == 6 && not e.ipv6) disabled_version

-- `*new != *old`, where both are set
abbrev pub is_changed : Option ℕ → Option ℕ → Bool
is_changed (some a) (some b) = not (a == b)
is_changed _ _ = false

-- `validateIPPoolShouldNotBeChanged`, `validateSubnetShouldNotBeChanged`
unfoldable pub should_not_be_changed : Option ℕ → Option ℕ → Text → Text → Admission
unfolding text_eq
should_not_be_changed new old new_subnet old_subnet =
    deny_if (is_changed new old) version_changed
    and_then deny_if (not (text_eq new_subnet old_subnet)) subnet_changed

-- What is wrong with a containment.
abbrev pub require : Ip.Result Bool → Reason → Admission
require (Ip.ok true) r = admit
require (Ip.ok false) r = deny r
require (Ip.err e) r = deny r
require Ip.diverge r = deny out_of_fuel

-- `contains, _ := …`
abbrev pub is_yes : Ip.Result Bool → Bool
is_yes (Ip.ok b) = b
is_yes _ = false

abbrev pub accepted : Ip.Result (Unit {0}) → Bool
accepted (Ip.ok u) = true
accepted _ = false

module _ (n : NetText) where
  unfoldable pub validate_contains_ip_range : ℕ → ℕ → Text → Text → Admission
  unfolding contains_ip_range
  validate_contains_ip_range fuel version subnet r =
      require (contains_ip_range n fuel version subnet r) bad_ranges

  unfoldable pub validate_contains_ip : ℕ → Text → Text → Admission
  unfolding contains_ip
  validate_contains_ip version subnet ip = require (contains_ip n version subnet ip) bad_gateway

  abbrev pub some_range_contains : ℕ → List Text → Text → Bool
  unfolding ip_range_contains_ip
  some_range_contains version rs ip = any (λ r. is_yes (ip_range_contains_ip n version r ip)) rs

  -- `validateIPPoolGateway`, `validateSubnetGateway`
  unfoldable pub validate_gateway : ℕ → Text → Option Text → List Text → List Text → Admission
  unfolding validate_contains_ip ip_range_contains_ip
  validate_gateway version subnet none exclude_ips ips = admit
  validate_gateway version subnet (some gateway) exclude_ips ips =
      validate_contains_ip version subnet gateway
      and_then (if some_range_contains version exclude_ips gateway
          then admit
          else deny_if (some_range_contains version ips gateway) gateway_conflict)

  abbrev pub is_default : ℕ → Text → Bool
  unfolding text_eq
  is_default version dst =
      version == 4 && text_eq dst (codes "0.0.0.0/0") || version == 6 && text_eq dst (codes "::/0")

  -- The loop over the routes, with the destinations that are taken.
  unfoldable pub validate_routes_from : ℕ → Text → List Text → List SpecRoute → Admission
  unfolding is_cidr validate_contains_ip text_eq
  validate_routes_from version subnet seen [] = admit
  validate_routes_from version subnet seen (r ∷ rs) =
      deny_if (is_default version r.dst) default_route
      and_then deny_if (any (text_eq r.dst) seen) duplicate_route
      and_then deny_if (not (accepted (is_cidr n version r.dst))) bad_route
      and_then validate_contains_ip version subnet r.gw
      and_then validate_routes_from version subnet (r.dst ∷ seen) rs

  abbrev pub routes_of : Option (List SpecRoute) → List SpecRoute
  routes_of none = []
  routes_of (some rs) = rs

  -- `validateIPPoolRoutes`, `validateSubnetRoutes`
  unfoldable pub validate_routes : ℕ → Text → Option (List SpecRoute) → Admission
  unfolding validate_routes_from
  validate_routes version subnet routes = validate_routes_from version subnet [] (routes_of routes)
