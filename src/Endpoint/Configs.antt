-- ===== src/Endpoint/Configs.antt =====
-- pkg/utils/convert/convert.go: the answer to a request, from the details of an endpoint or from the
-- results of an allocation. The two flags of gateway and conflict detection are passed on as they are
-- and left out here.
pub mod Recorded
use spiderpool.Prelude.{
  ℕ, Bool, true, false, List, [], ◌∷◌, ◌++◌, Option, none, some, Text, codes, map, if◌then◌else◌,
}
use spiderpool.Net.Textual.{NetText}
use spiderpool.Ip.Format.{is_ipv4, is_ipv6}
use spiderpool.Endpoint.Records.{Route, IpConfig, AllocationResult, Detail, convert_spec_routes}

-- A route of the answer; none is a nil pointer.
abbrev pub Routes : Type 0
Routes = List (Option Route)

pub record Answer : Type 0 where
  pub ips : List IpConfig
  pub routes : Routes

abbrev pub present : List Route → Routes
present rs = map some rs

-- `d.CleanGateway == nil || !*d.CleanGateway`
abbrev pub sets_default : Option Bool → Bool
sets_default none = true
sets_default (some clean) = if clean then false else true

abbrev pub text_or_empty : Option Text → Text
text_or_empty none = []
text_or_empty (some s) = s

module _ (n : NetText) where
  unfoldable pub gen_default_route : Text → Text → Option Route
  gen_default_route nic gateway =
      if is_ipv6 n gateway
      then some (record { if_name = nic; dst = codes "::/0"; gw = gateway })
      else if is_ipv4 n gateway
      then some (record { if_name = nic; dst = codes "0.0.0.0/0"; gw = gateway })
      else none

  abbrev pub default_routes : Text → Option Text → Option Bool → Routes
  unfolding gen_default_route
  default_routes nic none clean = []
  default_routes nic (some g) clean =
      if sets_default clean then gen_default_route nic g ∷ [] else []

  -- The part of a detail for one version; none is the panic where the pool or the VLAN is nil.
  abbrev pub part_of :
      Detail → ℕ → Option Text → Option Text → Option Text → Option ℕ → Option Answer
  unfolding gen_default_route
  part_of d version none pool gateway vlan = some (record { ips = []; routes = [] })
  part_of d version (some address) (some pool) gateway (some vlan) = some (record {
    ips =
        record {
          nic = d.nic;
          address = address;
          ip_pool = pool;
          version = version;
          gateway = text_or_empty gateway;
          vlan = vlan;
          mac = [];
        }
        ∷ [];
    routes = default_routes d.nic gateway d.clean_gateway;
  })
  part_of d version (some address) _ gateway _ = none

  abbrev pub join : Option Answer → Option Answer → Option Answer
  join (some a) (some b) = some (record { ips = a.ips ++ b.ips; routes = a.routes ++ b.routes })
  join _ _ = none

  unfoldable pub convert_ip_details : List Detail → Option Answer
  unfolding gen_default_route convert_spec_routes
  convert_ip_details [] = some (record { ips = []; routes = [] })
  convert_ip_details (d ∷ ds) = join (part_of d 4 d.ipv4 d.ipv4_pool d.ipv4_gateway d.vlan) (
      join (part_of d 6 d.ipv6 d.ipv6_pool d.ipv6_gateway d.vlan) (
        join (some (record { ips = []; routes = present (convert_spec_routes d.nic d.routes) }))
          (convert_ip_details ds)))

  abbrev pub result_default : AllocationResult → Routes
  unfolding gen_default_route
  result_default r =
      if r.clean_gateway
      then []
      else (elim r.ip.gateway [ [] ↦ [] | c ∷ s ↦ gen_default_route r.ip.nic (c ∷ s) ∷ [] ])

  unfoldable pub convert_results : List AllocationResult → Answer
  unfolding gen_default_route
  convert_results [] = record { ips = []; routes = [] }
  convert_results (r ∷ rs) =
      let rest = convert_results rs in
      record {
        ips = r.ip ∷ rest.ips;
        routes = (present r.routes ++ result_default r) ++ rest.routes;
      }
