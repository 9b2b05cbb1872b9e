-- ===== src/Tests/Apps.antt =====
-- The names of applications and the custom routes of a pod, at small inputs.
use spiderpool.Prelude.{
  ◌+◌, ◌≤◌, ◌≡◌, refl, true, false, List, [], ◌∷◌, ◌++◌, some, Text, text_eq, codes, length, filter,
  not, contains_code,
}
use spiderpool.Pool.Affinity.{cut}
use spiderpool.Endpoint.Records.{Route, AllocationResult}
use spiderpool.Apps.Names.{
  AppNamespacedName, application_namespaced_name, parse_application_namespaced_name, auto_pool_name,
  last_one, max_name_length,
}
use spiderpool.Apps.Names.RoundTrip.{IsGroupVersion, parse-application_namespaced_name}
use spiderpool.Apps.Names.Length.{length-auto_pool_name}
use spiderpool.Ipam.Routes.{group_custom_routes}
use spiderpool.Ipam.Routes.First.{assigned, served, group_custom_routes_lem}
use spiderpool.Tests.Net.{networked, show, address}

abbrev group_version : Text → Text → Text
group_version [] v = v
group_version (c ∷ g) v = (c ∷ g) ++ b'/' ∷ v

group_version_laws : IsGroupVersion group_version
unfolding text_eq
group_version_laws = record { core = λ v. refl; grouped = by_group }
  where
    by_group : (g v : Text) → text_eq g [] ≡ false → group_version g v ≡ g ++ b'/' ∷ v
    by_group [] v h = cc
    by_group (c ∷ g) v h = refl

abbrev app : AppNamespacedName
app = record {
  api_version = codes "apps/v1";
  kind = codes "Deployment";
  namespace = codes "default";
  name = codes "web";
}

parse-application_namespaced_name_example :
    parse_application_namespaced_name group_version (application_namespaced_name app) ≡ some app
unfolding cut text_eq contains_code
parse-application_namespaced_name_example =
    parse-application_namespaced_name group_version group_version_laws app refl refl refl refl refl

abbrev pool_name : Text
pool_name = codes "auto4-web-eth0-12345"

named : auto_pool_name (λ s. s) (codes "web") 4 (codes "eth0") (codes "ab-123456") ≡ some pool_name
unfolding auto_pool_name
named = refl

length-auto_pool_name_example :
    (length pool_name ≤ max_name_length + 1)
    × (246 ≤ length (codes "web") + length (codes "eth0") + length (last_one (codes "ab-123456"))
        → length pool_name ≡ max_name_length + 1)
length-auto_pool_name_example =
    length-auto_pool_name (λ s. s) (λ s. refl) (codes "web") (codes "eth0") (codes "ab-123456")
      pool_name 4 named

abbrev result : AllocationResult
result = record {
  ip = record {
    nic = codes "eth0";
    address = codes "net";
    ip_pool = codes "a";
    version = 4;
    gateway = [];
    vlan = 0;
    mac = [];
  };
  routes = [];
  clean_gateway = false;
}

abbrev via : Text → Route
via gw = record { if_name = []; dst = codes "d"; gw = gw }

abbrev custom : List Route
custom = via (show (address 9)) ∷ via (codes "away") ∷ []

all_served : (group_custom_routes networked custom (result ∷ [])).success ≡ true
unfolding group_custom_routes text_eq
all_served = refl

group_custom_routes_lem_example :
    ((group_custom_routes networked custom (result ∷ [])).results
      ≡ assigned networked (λ r. false) (result ∷ []) custom)
    × ((group_custom_routes networked custom (result ∷ [])).left
        ≡ filter (λ r. not (served networked (result ∷ []) r)) custom)
group_custom_routes_lem_example =
    group_custom_routes_lem networked custom (result ∷ []) all_served (λ e. cc e)
