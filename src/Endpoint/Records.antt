-- ===== src/Endpoint/Records.antt =====
-- pkg/types/ip.go and the SpiderEndpoint of pkg/k8s/apis: what an allocation is and how an endpoint
-- records it; the routes' conversions of pkg/utils/convert/convert.go.
use spiderpool.Prelude.{ℕ, Bool, List, [], ◌∷◌, Option, Text}

-- `v2beta1.Route`
pub record SpecRoute : Type 0 where
  pub dst : Text
  pub gw : Text

-- `models.Route`
pub record Route : Type 0 where
  pub if_name : Text
  pub dst : Text
  pub gw : Text

-- `models.IPConfig`
pub record IpConfig : Type 0 where
  pub nic : Text
  pub address : Text
  pub ip_pool : Text
  pub version : ℕ
  pub gateway : Text
  pub vlan : ℕ
  pub mac : Text

pub record AllocationResult : Type 0 where
  pub ip : IpConfig
  pub routes : List Route
  pub clean_gateway : Bool

-- `IPAllocationDetail`
pub record Detail : Type 0 where
  pub nic : Text
  pub ipv4 : Option Text
  pub ipv6 : Option Text
  pub ipv4_pool : Option Text
  pub ipv6_pool : Option Text
  pub vlan : Option ℕ
  pub ipv4_gateway : Option Text
  pub ipv6_gateway : Option Text
  pub clean_gateway : Option Bool
  pub routes : List SpecRoute
  pub mac : Option Text

-- The fields of a SpiderEndpoint that are read; `uid`, `node` and `ips` are `Status.Current`.
pub record Endpoint : Type 0 where
  pub namespace : Text
  pub name : Text
  pub deleting : Bool
  pub has_finalizer : Bool
  pub owned_by_pod : Bool
  pub uid : Text
  pub node : Text
  pub ips : List Detail
  pub owner_controller_type : Text
  pub owner_controller_name : Text

-- `ConvertSpecRoutesToOAIRoutes`
unfoldable pub convert_spec_routes : Text → List SpecRoute → List Route
convert_spec_routes nic [] = []
convert_spec_routes nic (r ∷ rs) =
    record { if_name = nic; dst = r.dst; gw = r.gw } ∷ convert_spec_routes nic rs

-- `ConvertOAIRoutesToSpecRoutes`
unfoldable pub convert_oai_routes : List Route → List SpecRoute
convert_oai_routes [] = []
convert_oai_routes (r ∷ rs) = record { dst = r.dst; gw = r.gw } ∷ convert_oai_routes rs
