-- ===== src/Ipam/Routes.antt =====
-- pkg/ipam/utils.go, `groupCustomRoutes`: which result a pod's custom route goes to.
pub mod First
use spiderpool.Prelude.{Bool, true, false, List, [], ◌∷◌, ◌++◌, none, some, Text, if◌then◌else◌}
use spiderpool.Net.Address.{IpNet, contains}
use spiderpool.Net.Textual.{NetText}
use spiderpool.Ip.Format.{parsed}
use spiderpool.Endpoint.Records.{Route, AllocationResult}

-- The results with their routes, the routes that are left, and whether the call succeeds.
pub record RoutesGrouped : Type 0 where
  pub results : List AllocationResult
  pub left : List Route
  pub success : Bool

abbrev pub with_nic : Text → Route → Route
with_nic nic r = record r { if_name = nic }

module _ (n : NetText) where
  abbrev pub has_gateway : IpNet → Route → Bool
  has_gateway m r = contains m (parsed n r.gw)

  -- The routes that a network takes, and the others.
  unfoldable pub take_routes : IpNet → Text → List Route → List Route × List Route
  unfolding contains
  take_routes m nic [] = ([], [])
  take_routes m nic (r ∷ rs) =
      let (taken, rest) = take_routes m nic rs in
      if has_gateway m r then (with_nic nic r ∷ taken, rest) else (taken, r ∷ rest)

  unfoldable pub group_routes : List Route → List AllocationResult → RoutesGrouped
  unfolding take_routes
  group_routes routes [] = record { results = []; left = routes; success = true }
  group_routes routes (x ∷ xs) = elim (n.parse_cidr x.ip.address) [
    | none ↦ record { results = x ∷ xs; left = routes; success = false }
    | some (v, m) ↦
        let (taken, rest) = take_routes m x.ip.nic routes in
        let g = group_routes rest xs in
        record g { results = record x { routes = x.routes ++ taken } ∷ g.results }
  ]

  unfoldable pub group_custom_routes : List Route → List AllocationResult → RoutesGrouped
  unfolding group_routes
  group_custom_routes [] results = record { results = results; left = []; success = true }
  group_custom_routes (r ∷ rs) results = group_routes (r ∷ rs) results
